-- ===== src/Debug/Tests/Prompt.antt =====
-- The theorems on the commands and their loop at a debugger with three lines of input.
use bb6502_verilog.Common.{◌≡◌, refl, [], ◌∷◌, arith}
use bb6502_verilog.Common.Maybe.{AllOf}
use bb6502_verilog.Clib.Chars.{text}
use bb6502_verilog.Debug.State.{memory, Debugger, echo}
use bb6502_verilog.Debug.Control.{instr_line}
use bb6502_verilog.Debug.Commands.{dispatch, command_rounds, command_loop}
use bb6502_verilog.Debug.Commands.Keeps.{Keeps}
use bb6502_verilog.Debug.Commands.Dispatch.{resumes, dispatch-Keeps}
use bb6502_verilog.Debug.Commands.Loop.{command_loop-rounds}
use bb6502_verilog.Debug.Tests.{demo}

abbrev prompted : Debugger
prompted = record demo {
  world = record demo.world { lines = text "m 0x200" ∷ (text "0x21f" ∷ (text "c" ∷ [])) };
}

dispatch-Keeps_example :
    AllOf (λ r. Keeps prompted r.1) (dispatch memory (text "m" ∷ (text "0x200" ∷ [])) prompted)
unfolding resumes
dispatch-Keeps_example = dispatch-Keeps memory (text "m" ∷ (text "0x200" ∷ [])) prompted refl

command_loop-rounds_example :
    command_loop prompted ≡ command_rounds 9 (echo (instr_line prompted.pc prompted) prompted)
command_loop-rounds_example = command_loop-rounds 9 prompted (omega arith)
