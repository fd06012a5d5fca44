-- ===== src/Debug/Tests/Stepping.antt =====
-- The theorems on instruction fetches at runs of NOP.
use bb6502_verilog.Common.{ℕ, ◌<◌, ◌≡◌, refl, true, none, some, List, [], ◌∷◌, arith}
use bb6502_verilog.Common.Maybe.{AllOf}
use bb6502_verilog.Debug.State.{stopped, stepping, Debugger}
use bb6502_verilog.Debug.Opcodes.{lookup_op}
use bb6502_verilog.Debug.Disasm.{disasm}
use bb6502_verilog.Debug.Sim.{sim_read_mem}
use bb6502_verilog.Debug.Disasm.Layout.{disasm_fits}
use bb6502_verilog.Debug.Control.{start_steps}
use bb6502_verilog.Debug.Fetch.{after_resume, resume, on_fetch, Fetch, see, fetches}
use bb6502_verilog.Debug.Fetch.Modes.{Runs, on_fetch-Runs}
use bb6502_verilog.Debug.Fetch.Steps.{byte_at, Passes, step-stops}
use bb6502_verilog.Debug.Fetch.Early.{step-stops_early}
use bb6502_verilog.Debug.Tests.{demo_machine, demo}

abbrev nop_at : ℕ → Fetch
nop_at a = record { at = a; opcode = 0xea; machine = demo_machine; regs = demo.world.regs }

demo-bytes : (a : ℕ) → byte_at demo_machine a < 256
unfolding sim_read_mem
demo-bytes a = ground arith

nop-Passes : (a : ℕ) → a < 0x200 → Passes demo.bps (nop_at a)
nop-Passes a h =
    let (_, _, _, most) = disasm_fits a (byte_at demo_machine) demo-bytes in
    (refl, ((λ hit. omega (arith, hit.1, most)), tt))

nop_length : (disasm 0x2ff (byte_at demo_machine)).1 ≡ 1
unfolding disasm sim_read_mem lookup_op
nop_length = refl

on_fetch-Runs_example : AllOf (λ r. Runs r.1) (on_fetch 0x100 0xea demo)
on_fetch-Runs_example = on_fetch-Runs 0x100 0xea demo refl refl

abbrev two_nops : List Fetch
two_nops = nop_at 0x101 ∷ (nop_at 0x102 ∷ [])

step-stops_example :
    (d1 d2 : Debugger) × (fetches two_nops (after_resume (start_steps 3 demo)) ≡ some (tt, d1))
    × (on_fetch 0x103 0xea (see (nop_at 0x103) d1) ≡ resume true d2)
    × (d2.mode ≡ stopped)
    × (d2.pc ≡ 0x103)
    × (d2.world.lines ≡ demo.world.lines)
step-stops_example =
    step-stops two_nops (nop_at 0x103) demo refl refl
      (nop-Passes 0x101 (omega arith), (nop-Passes 0x102 (omega arith), tt)) refl

abbrev in_steps : Debugger
in_steps = record demo { mode = stepping; steps_left = 5 }

step-stops_early_example :
    (d' : Debugger) × (on_fetch 0x2ff 0xea (see (nop_at 0x2ff) in_steps) ≡ resume true d')
    × (d'.mode ≡ stopped)
    × (d'.steps_left ≡ 5)
    × (d'.pc ≡ 0x2ff)
step-stops_early_example =
    step-stops_early 4 0 demo.bps [] (record { address = 0x300; symbol = none }) (nop_at 0x2ff)
      in_steps
      (record {
        started = refl;
        going = refl;
        mode = refl;
        left = refl;
        same_bps = refl;
        same_lines = refl;
      })
      refl refl (rw nop_length (omega arith, omega arith))
