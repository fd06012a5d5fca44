-- ===== src/Debug/Commands/Dispatch.antt =====
-- The commands of the prompt that do not resume the simulation.
use bb6502_verilog.Common.{
  ℕ, ◌≡◌, refl, Bool, true, false, not, ◌||◌, Option, none, some, List, [], ◌∷◌, ltb, if-elim, take,
  arith,
}
use bb6502_verilog.Common.Maybe.{AllOf}
use bb6502_verilog.Clib.Chars.{text}
use bb6502_verilog.Clib.Numbers.{strtoul}
use bb6502_verilog.Debug.State.{
  Command, invalidcmd, removebp, breakpoint, continue, disassemble, help, listbreakpoints, memory,
  registers, step, quit, loadsrc, loadsyms, reset, Debugger, echo, get_cmd, Cmd, pure, act,
}
use bb6502_verilog.Debug.Commands.{
  is_blank, hex_line, read_hex_u16, token_addr, show_range, ask_end, ask_both, invalid_hex,
  print_mem_range, display_help, dispatch,
}
use bb6502_verilog.Debug.Commands.Keeps.{
  Keeps, Keeps-refl, Keeps-trans, echo-Keeps, add_bp-Keeps, remove_breakpoint-Keeps,
  disasm_instr-Keeps, list_bps-Keeps, print_registers-Keeps, show_range-Keeps,
  unknown_command-Keeps,
}

-- Each result of a command keeps what it should.
abbrev pub AllKeep : {A : Type 0} → Debugger → Option (A × Debugger) → Type 0
AllKeep d o = AllOf (λ r. Keeps d r.1) o

pub AllKeep-from :
    {A : Type 0} {d e : Debugger} (o : Option (A × Debugger))
    → Keeps d e
    → AllKeep e o
    → AllKeep d o
AllKeep-from none k p = tt
AllKeep-from (some (a, f)) k p = Keeps-trans k p

AllKeep-next :
    {A B : Type 0} (d : Debugger) (o : Option (A × Debugger))
    (k : A → Debugger → Option (B × Debugger))
    → AllKeep d o
    → ((a : A) (e : Debugger) → AllKeep e (k a e))
    → AllKeep d (elim o [ none ↦ none | some (a, e) ↦ k a e ])
AllKeep-next d none k h l = tt
AllKeep-next d (some (a, e)) k h l = AllKeep-from (k a e) h (l a e)

pub get_cmd-Keeps : (room : ℕ) (d : Debugger) → AllKeep d (get_cmd room d)
unfolding get_cmd echo
get_cmd-Keeps room d = by-lines d.world.lines refl
  where
    by-lines :
        (ls : List (List ℕ))
        → d.world.lines ≡ ls
        → AllOf
            (λ r. Keeps d r.1)
            (elim ls as (λ _. Option (List ℕ × Debugger)) [
              | [] ↦ none
              | line ∷ rest ↦ some (
                take room line,
                record (echo (text ">>") d) { world = record d.world { lines = rest } },
              )
            ])
    by-lines [] e = tt
    by-lines (line ∷ rest) e = record { mode = refl; pc = refl; lines = rw e (omega arith) }

hex_line-Keeps : (buf : List ℕ) (d : Debugger) → Keeps d (hex_line buf d).1
unfolding hex_line
hex_line-Keeps buf d =
    if-elim (λ (r : Option ℕ × Debugger). Keeps d r.1) (is_blank buf) (λ _. echo-Keeps _ d)
      λ _.
        if-elim (λ (r : Option ℕ × Debugger). Keeps d r.1)
          ((strtoul buf).range_error || not (strtoul buf).converted) (λ _. echo-Keeps _ d)
          λ _.
            if-elim (λ (r : Option ℕ × Debugger). Keeps d r.1) (ltb 0xffff (strtoul buf).value)
              (λ _. echo-Keeps _ d) (λ _. Keeps-refl d)

read_hex_u16-Keeps : (d : Debugger) → AllKeep d (read_hex_u16 d)
unfolding read_hex_u16
read_hex_u16-Keeps d =
    AllKeep-next d (get_cmd 31 d) _ (get_cmd-Keeps 31 d) λ buf e. hex_line-Keeps buf e

ask_end-Keeps : (s : ℕ) (d : Debugger) → AllKeep d (ask_end s d)
unfolding ask_end
ask_end-Keeps s d =
    AllKeep-from _ (echo-Keeps (text "Give the ending address in hex [0x...]: ") d)
      (AllKeep-next _ (read_hex_u16 _) _ (read_hex_u16-Keeps _) ends)
  where
    ends :
        (o : Option ℕ) (e : Debugger)
        → AllOf
            (λ r. Keeps e r.1)
            ((elim o as (λ _. Cmd (Unit {0})) [ none ↦ pure tt | some v ↦ act (show_range s v) ]) e)
    ends none e = Keeps-refl e
    ends (some v) e = show_range-Keeps s v e

ask_both-Keeps : (d : Debugger) → AllKeep d (ask_both d)
unfolding ask_both
ask_both-Keeps d =
    AllKeep-from _ (echo-Keeps (text "Give the starting address in hex [0x...]: ") d)
      (AllKeep-next _ (read_hex_u16 _) _ (read_hex_u16-Keeps _) starts)
  where
    starts :
        (o : Option ℕ) (e : Debugger)
        → AllOf
            (λ r. Keeps e r.1)
            ((elim o as (λ _. Cmd (Unit {0})) [ none ↦ pure tt | some s ↦ ask_end s ]) e)
    starts none e = Keeps-refl e
    starts (some s) e = ask_end-Keeps s e

print_mem_range-Keeps : (toks : List (List ℕ)) (d : Debugger) → AllKeep d (print_mem_range toks d)
unfolding print_mem_range invalid_hex
print_mem_range-Keeps [] d = ask_both-Keeps d
print_mem_range-Keeps (cmd ∷ []) d = ask_both-Keeps d
print_mem_range-Keeps (cmd ∷ (a ∷ [])) d = started (token_addr a)
  where
    started :
        (o : Option ℕ)
        → AllOf
            (λ r. Keeps d r.1)
            ((elim o as (λ _. Cmd (Unit {0})) [ none ↦ invalid_hex | some s ↦ ask_end s ]) d)
    started none = echo-Keeps _ d
    started (some s) = ask_end-Keeps s d
print_mem_range-Keeps (cmd ∷ (a ∷ (b ∷ rest))) d = started (token_addr a) (token_addr b)
  where
    started :
        (o q : Option ℕ)
        → AllOf
            (λ r. Keeps d r.1)
            ((elim o as (λ _. Cmd (Unit {0})) [
              | none ↦ invalid_hex
              | some s ↦ elim q as (λ _. Cmd (Unit {0})) [
                | none ↦ invalid_hex
                | some e ↦ act (show_range s e)
              ]
            ])
              d)
    started none q = echo-Keeps _ d
    started (some s) none = echo-Keeps _ d
    started (some s) (some e) = show_range-Keeps s e d

-- The commands that may resume the simulation.
unfoldable pub resumes : Command → Bool
resumes continue = true
resumes step = true
resumes quit = true
resumes reset = true
resumes _ = false

-- Every other command of the prompt leaves the debugger stopped where it is: the mode and the
-- program counter are the same, and it has at most taken lines of the input.
pub dispatch-Keeps :
    (c : Command) (toks : List (List ℕ)) (d : Debugger)
    → resumes c ≡ false
    → AllOf (λ r. Keeps d r.1) (dispatch c toks d)
unfolding dispatch display_help resumes
dispatch-Keeps breakpoint toks d h = add_bp-Keeps toks d
dispatch-Keeps disassemble toks d h = disasm_instr-Keeps toks d
dispatch-Keeps help toks d h = echo-Keeps _ d
dispatch-Keeps listbreakpoints toks d h = list_bps-Keeps d
dispatch-Keeps memory toks d h = print_mem_range-Keeps toks d
dispatch-Keeps registers toks d h = print_registers-Keeps d
dispatch-Keeps removebp toks d h = remove_breakpoint-Keeps toks d
dispatch-Keeps loadsrc toks d h = echo-Keeps _ d
dispatch-Keeps loadsyms toks d h = unknown_command-Keeps toks d
dispatch-Keeps invalidcmd toks d h = unknown_command-Keeps toks d
dispatch-Keeps continue toks d h = cc
dispatch-Keeps step toks d h = cc
dispatch-Keeps quit toks d h = cc
dispatch-Keeps reset toks d h = cc
