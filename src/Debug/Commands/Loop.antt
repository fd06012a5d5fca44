-- ===== src/Debug/Commands/Loop.antt =====
-- The rounds of the loop of dbgCommandLoop.
use bb6502_verilog.Common.{
  ℕ, zero, suc, ◌+◌, ◌<◌, ◌≤◌, ◌≡◌, refl, ap, inl, inr, true, Option, none, some, List, [], ◌∷◌,
  length, if-elim, Bool-cases, take, arith,
}
use bb6502_verilog.Common.Maybe.{AllOf}
use bb6502_verilog.Common.Int.{ℤ, pos, negsuc}
use bb6502_verilog.Clib.Chars.{text}
use bb6502_verilog.Debug.State.{
  Command, continue, quit, reset, step, World, Debugger, echo, get_cmd, Cmd, breakpoint,
  disassemble, help, listbreakpoints, memory, registers, removebp, loadsrc, loadsyms, invalidcmd,
}
use bb6502_verilog.Debug.Parse.{parse_command, get_cmd_tokens, str_to_int}
use bb6502_verilog.Debug.Control.{
  is_stopped, run_dbg_cont, request_reset, sim_finish, reset_machine, quit_sim, instr_line,
  start_steps, parsing_error, step_count, step6502,
}
use bb6502_verilog.Debug.Commands.{
  is_blank, dispatch, run_tokens, run_line, command_rounds, command_loop,
}
use bb6502_verilog.Debug.Commands.Keeps.{Keeps}
use bb6502_verilog.Debug.Commands.Dispatch.{resumes, dispatch-Keeps}

-- No line has been added.
abbrev pub Takes : {A : Type 0} → Debugger → Option (A × Debugger) → Type 0
Takes d o = AllOf (λ r. length r.1.world.lines ≤ length d.world.lines) o

Keeps-Takes :
    {A : Type 0} (d : Debugger) (o : Option (A × Debugger)) → AllOf (λ r. Keeps d r.1) o → Takes d o
Keeps-Takes d none k = tt
Keeps-Takes d (some (a, e)) k = k.lines

step_count-lines :
    (cmd arg : List ℕ) (o : Option ℤ) (d : Debugger) → (step_count cmd arg o d).world ≡ d.world
unfolding step_count start_steps parsing_error echo
step_count-lines cmd arg none d = refl
step_count-lines cmd arg (some (pos zero)) d = refl
step_count-lines cmd arg (some (pos (suc n))) d = refl
step_count-lines cmd arg (some (negsuc n)) d = refl

step6502-lines : (toks : List (List ℕ)) (d : Debugger) → (step6502 toks d).world ≡ d.world
unfolding step6502 start_steps
step6502-lines [] d = refl
step6502-lines (cmd ∷ []) d = refl
step6502-lines (cmd ∷ (arg ∷ rest)) d = step_count-lines cmd arg (str_to_int arg) d

dispatch-resuming :
    (c : Command) (toks : List (List ℕ)) (d : Debugger)
    → resumes c ≡ true
    → Takes d (dispatch c toks d)
unfolding dispatch resumes run_dbg_cont quit_sim sim_finish reset_machine request_reset echo
dispatch-resuming continue toks d h = omega arith
dispatch-resuming quit toks d h = omega arith
dispatch-resuming reset toks d h = omega arith
dispatch-resuming step toks d h =
    omega (arith, ap (λ (w : World). length w.lines) (step6502-lines toks d))
dispatch-resuming breakpoint toks d h = cc
dispatch-resuming disassemble toks d h = cc
dispatch-resuming help toks d h = cc
dispatch-resuming listbreakpoints toks d h = cc
dispatch-resuming memory toks d h = cc
dispatch-resuming registers toks d h = cc
dispatch-resuming removebp toks d h = cc
dispatch-resuming loadsrc toks d h = cc
dispatch-resuming loadsyms toks d h = cc
dispatch-resuming invalidcmd toks d h = cc

dispatch-Takes : (c : Command) (toks : List (List ℕ)) (d : Debugger) → Takes d (dispatch c toks d)
dispatch-Takes c toks d = elim (Bool-cases (resumes c)) [
  | inr stays ↦ Keeps-Takes d (dispatch c toks d) (dispatch-Keeps c toks d stays)
  | inl goes ↦ dispatch-resuming c toks d goes
]

run_tokens-Takes : (toks : List (List ℕ)) (d : Debugger) → Takes d (run_tokens toks d)
unfolding run_tokens
run_tokens-Takes [] d = omega arith
run_tokens-Takes (cmd ∷ rest) d = dispatch-Takes (parse_command cmd) (cmd ∷ rest) d

run_line-Takes : (line : List ℕ) (d : Debugger) → Takes d (run_line line d)
unfolding run_line
run_line-Takes line d =
    if-elim (λ (m : Cmd (Unit {0})). Takes d (m d)) (is_blank line) (λ _. omega arith)
      (λ _. run_tokens-Takes (get_cmd_tokens line) d)

-- A line is taken.
get_cmd-takes :
    (room : ℕ) (d : Debugger)
    → AllOf (λ r. length r.1.world.lines < length d.world.lines) (get_cmd room d)
unfolding get_cmd echo
get_cmd-takes room d = by-lines d.world.lines refl
  where
    by-lines :
        (ls : List (List ℕ))
        → d.world.lines ≡ ls
        → AllOf
            (λ r. length r.1.world.lines < length d.world.lines)
            (elim ls as (λ _. Option (List ℕ × Debugger)) [
              | [] ↦ none
              | line ∷ rest ↦ some (
                take room line,
                record (echo (text ">>") d) { world = record d.world { lines = rest } },
              )
            ])
    by-lines [] e = tt
    by-lines (line ∷ rest) e = rw e (omega arith)

-- Chains that start alike and go on alike have the same result.
then-cong :
    {A B : Type 0} (P : A × Debugger → Type 0) (o : Option (A × Debugger))
    (k l : A → Debugger → Option (B × Debugger))
    → AllOf P o
    → ((a : A) (e : Debugger) → P (a, e) → k a e ≡ l a e)
    → elim o as (λ _. Option (B × Debugger)) [ none ↦ none | some (a, e) ↦ k a e ]
      ≡ elim o as (λ _. Option (B × Debugger)) [ none ↦ none | some (a, e) ↦ l a e ]
then-cong P none k l p h = refl
then-cong P (some (a, e)) k l p h = h a e p

same-rounds :
    (f g : ℕ) (d : Debugger)
    → length d.world.lines < f
    → length d.world.lines < g
    → command_rounds f d ≡ command_rounds g d
unfolding command_rounds
same-rounds zero g d h k = absurd (omega arith)
same-rounds (suc f) zero d h k = absurd (omega arith)
same-rounds (suc f) (suc g) d h k = elim (Bool-cases (is_stopped d.mode)) [
  | inr e ↦ rw (command_rounds, e) refl
  | inl e ↦
      rw (command_rounds, e)
        (then-cong (λ r. length r.1.world.lines < length d.world.lines) (get_cmd 99 d) _ _
          (get_cmd-takes 99 d)
          λ line d1 taken.
            then-cong (λ r. length r.1.world.lines ≤ length d1.world.lines) (run_line line d1) _ _
              (run_line-Takes line d1) λ u d2 kept. same-rounds f g d2 (omega arith) (omega arith))
]

-- The rounds that dbgCommandLoop is given are enough: with any number of rounds above the number of
-- lines left, its loop gives the same result, so it never ends for want of rounds.
pub command_loop-rounds :
    (f : ℕ) (d : Debugger)
    → length d.world.lines < f
    → command_loop d ≡ command_rounds f (echo (instr_line d.pc d) d)
unfolding command_loop echo
command_loop-rounds f d h =
    same-rounds (length d.world.lines + 1) f (echo (instr_line d.pc d) d) (omega arith)
      (omega arith)
