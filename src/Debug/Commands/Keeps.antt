-- ===== src/Debug/Commands/Keeps.antt =====
-- What the commands of the prompt leave alone: the run mode, the program counter and, but for the
-- lines that they read, the input.
use bb6502_verilog.Common.{
  ℕ, zero, suc, ◌≤◌, ◌≡◌, refl, ◌∙◌, Option, none, some, List, [], ◌∷◌, length, flatten, ltb, leb,
  ◌==◌, if-elim, arith,
}
use bb6502_verilog.Common.Int.{ℤ, to_count}
use bb6502_verilog.Clib.Chars.{text}
use bb6502_verilog.Clib.Format.{hex4}
use bb6502_verilog.Debug.State.{Symbol, Debugger, echo}
use bb6502_verilog.Debug.Breakpoints.{
  first_alloc, append_bp, grow_and_append, set_bp, rmv_bp, list_bps,
}
use bb6502_verilog.Debug.Parse.{str_to_int, str_starts_with}
use bb6502_verilog.Debug.Dump.{show_mem, print_registers}
use bb6502_verilog.Debug.Control.{parsing_error}
use bb6502_verilog.Debug.Commands.{
  find_symbol, not_found, add_bp, remove_at, remove_breakpoint, disasm_lines, disasm_instr,
  show_range, unknown_command,
}

-- The mode and the program counter are the same, and no line of input has been added.
pub record Keeps (d d' : Debugger) : Type 0 where
  pub mode : d'.mode ≡ d.mode
  pub pc : d'.pc ≡ d.pc
  pub lines : length d'.world.lines ≤ length d.world.lines

pub Keeps-refl : (d : Debugger) → Keeps d d
Keeps-refl d = record { mode = refl; pc = refl; lines = omega arith }

pub Keeps-trans : {d e f : Debugger} → Keeps d e → Keeps e f → Keeps d f
Keeps-trans k l = record {
  mode = l.mode ∙ k.mode;
  pc = l.pc ∙ k.pc;
  lines = omega (arith, k.lines, l.lines);
}

pub echo-Keeps : (s : List ℕ) (d : Debugger) → Keeps d (echo s d)
unfolding echo
echo-Keeps s d = record { mode = refl; pc = refl; lines = omega arith }

first_alloc-Keeps : (d : Debugger) → Keeps d (first_alloc d)
unfolding first_alloc
first_alloc-Keeps d =
    if-elim (Keeps d) (d.bp_list_size == 0)
      (λ _. record { mode = refl; pc = refl; lines = omega arith }) (λ _. Keeps-refl d)

grow_and_append-Keeps :
    (a : ℕ) (s : Option (List ℕ)) (d : Debugger) → Keeps d (grow_and_append a s d)
unfolding grow_and_append append_bp
grow_and_append-Keeps a s d =
    if-elim (Keeps d) (leb d.bp_list_size (length d.bps))
      (λ _.
        if-elim (Keeps d) d.world.reallocs
          (λ _. record { mode = refl; pc = refl; lines = omega arith }) (λ _. echo-Keeps _ d))
      (λ _. record { mode = refl; pc = refl; lines = omega arith })

set_bp-Keeps : (a : ℕ) (s : Option (List ℕ)) (d : Debugger) → Keeps d (set_bp a s d)
unfolding set_bp
set_bp-Keeps a s d = Keeps-trans (first_alloc-Keeps d) (grow_and_append-Keeps a s (first_alloc d))

rmv_bp-Keeps : (a : ℕ) (d : Debugger) → Keeps d (rmv_bp a d).1
unfolding rmv_bp
rmv_bp-Keeps a d = record { mode = refl; pc = refl; lines = omega arith }

remove_at-Keeps : (label : List ℕ) (a : ℕ) (d : Debugger) → Keeps d (remove_at label a d)
unfolding remove_at
remove_at-Keeps label a d = Keeps-trans (rmv_bp-Keeps a d) (echo-Keeps _ (rmv_bp a d).1)

pub add_bp-Keeps : (toks : List (List ℕ)) (d : Debugger) → Keeps d (add_bp toks d)
unfolding add_bp not_found
add_bp-Keeps [] d = Keeps-trans (echo-Keeps _ d) (set_bp-Keeps _ _ _)
add_bp-Keeps (cmd ∷ []) d = Keeps-trans (echo-Keeps _ d) (set_bp-Keeps _ _ _)
add_bp-Keeps (cmd ∷ (arg ∷ rest)) d =
    if-elim (Keeps d) (str_starts_with (text "0x") arg)
      (λ _. Keeps-trans (echo-Keeps _ d) (set_bp-Keeps _ _ _))
      (λ _. named (find_symbol arg d.symbols))
  where
    named :
        (o : Option Symbol)
        → Keeps d (elim o as (λ _. Debugger) [
          | none ↦ not_found arg d
          | some s ↦ set_bp s.addr (some s.name) (
              echo
                (flatten (
                  text "\tSetting new breakpoint at name="
                  ∷ s.name
                  ∷ text ", addr=0x"
                  ∷ hex4 s.addr
                  ∷ text "\n"
                  ∷ []))
                d)
        ])
    named none = echo-Keeps _ d
    named (some s) = Keeps-trans (echo-Keeps _ d) (set_bp-Keeps _ _ _)

pub remove_breakpoint-Keeps :
    (toks : List (List ℕ)) (d : Debugger) → Keeps d (remove_breakpoint toks d)
unfolding remove_breakpoint not_found
remove_breakpoint-Keeps [] d = echo-Keeps _ d
remove_breakpoint-Keeps (cmd ∷ []) d = echo-Keeps _ d
remove_breakpoint-Keeps (cmd ∷ (arg ∷ rest)) d =
    if-elim (Keeps d) (str_starts_with (text "0x") arg) (λ _. remove_at-Keeps _ _ d)
      (λ _. named (find_symbol arg d.symbols))
  where
    named :
        (o : Option Symbol)
        → Keeps d (elim o as (λ _. Debugger) [
          | none ↦ not_found arg d
          | some s ↦ remove_at (flatten (text "name=" ∷ s.name ∷ text ", " ∷ [])) s.addr d
        ])
    named none = echo-Keeps _ d
    named (some s) = remove_at-Keeps _ _ d

disasm_lines-Keeps : (n pc : ℕ) (d : Debugger) → Keeps d (disasm_lines n pc d)
unfolding disasm_lines
disasm_lines-Keeps zero pc d = Keeps-refl d
disasm_lines-Keeps (suc n) pc d = Keeps-trans (echo-Keeps _ d) (disasm_lines-Keeps n _ _)

pub disasm_instr-Keeps : (toks : List (List ℕ)) (d : Debugger) → Keeps d (disasm_instr toks d)
unfolding disasm_instr parsing_error
disasm_instr-Keeps [] d = disasm_lines-Keeps 5 d.pc d
disasm_instr-Keeps (cmd ∷ []) d = disasm_lines-Keeps 5 d.pc d
disasm_instr-Keeps (cmd ∷ (arg ∷ rest)) d = counted (str_to_int arg)
  where
    counted :
        (o : Option ℤ)
        → Keeps d (elim o as (λ _. Debugger) [
          | none ↦ parsing_error cmd arg d
          | some n ↦ disasm_lines (to_count n) d.pc d
        ])
    counted none = echo-Keeps _ d
    counted (some n) = disasm_lines-Keeps (to_count n) d.pc d

pub list_bps-Keeps : (d : Debugger) → Keeps d (list_bps d)
unfolding list_bps
list_bps-Keeps d = if-elim (Keeps d) (length d.bps == 0) (λ _. echo-Keeps _ d) (λ _. echo-Keeps _ d)

pub print_registers-Keeps : (d : Debugger) → Keeps d (print_registers d)
unfolding print_registers echo
print_registers-Keeps d = record { mode = refl; pc = refl; lines = omega arith }

pub show_range-Keeps : (s e : ℕ) (d : Debugger) → Keeps d (show_range s e d)
unfolding show_range show_mem
show_range-Keeps s e d = if-elim (Keeps d) (ltb e s) (λ _. echo-Keeps _ d) (λ _. echo-Keeps _ d)

pub unknown_command-Keeps : (toks : List (List ℕ)) (d : Debugger) → Keeps d (unknown_command toks d)
unfolding unknown_command
unknown_command-Keeps [] d = Keeps-refl d
unknown_command-Keeps (cmd ∷ rest) d = echo-Keeps _ d
