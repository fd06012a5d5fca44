-- ===== src/Debug/Fetch/Early.antt =====
-- Where the stepping of dbgShouldStop meets a breakpoint.
use bb6502_verilog.Common.{
  ℕ, suc, ◌+◌, ◌≡◌, refl, inl, inr, true, false, some, List, ◌==◌, get_elem?, Option-cases, arith,
}
use mathlib.Core.Path.{subst}
use bb6502_verilog.Common.Bits.{u16}
use bb6502_verilog.Debug.State.{stopped, Breakpoint, Debugger, echo, read6502}
use bb6502_verilog.Debug.Disasm.{disasm}
use bb6502_verilog.Debug.Breakpoints.{check_if_at_bp}
use bb6502_verilog.Debug.Breakpoints.Check.{Hits, IsFirst, check_if_at_bp-IsFirst}
use bb6502_verilog.Debug.Fetch.{report_stepping, stop_stepping, resume, on_fetch, Fetch, see}
use bb6502_verilog.Debug.Fetch.Steps.{byte_at, IsStepping, arrived, on_fetch-stepping}

stop_stepping-hit :
    (k : ℕ) (d : Debugger)
    → (d.steps_left == 0) ≡ false
    → check_if_at_bp d.pc (disasm d.pc (read6502 d)).1 d ≡ some k
    → stop_stepping d ≡ (true, report_stepping k d)
unfolding stop_stepping
stop_stepping-hit k d l h = rw (l, h) refl

check_if_at_bp-Hits :
    (pc len j : ℕ) (b : Breakpoint) (d : Debugger)
    → get_elem? d.bps j ≡ some b
    → Hits pc (u16 (pc + len)) b
    → (k : ℕ) × (check_if_at_bp pc len d ≡ some k)
check_if_at_bp-Hits pc len j b d at hit = elim (Option-cases (check_if_at_bp pc len d)) [
  | inl e ↦
      absurd
        (subst (IsFirst pc (u16 (pc + len)) 0 d.bps) e (check_if_at_bp-IsFirst pc len d) j b at hit)
  | inr (k, e) ↦ (k, e)
]

-- While the debugger is stepping with steps left, it stops at a fetch that is no STP, with its steps
-- as they were, where any breakpoint stands from the fetch's address to the address behind the
-- instruction, that one included: a breakpoint at the next instruction already stops the stepping at
-- the instruction before it.
pub step-stops_early :
    (n j : ℕ) (bps : List Breakpoint) (lines : List (List ℕ)) (b : Breakpoint) (e : Fetch)
    (d : Debugger)
    → IsStepping (suc n) bps lines d
    → (e.opcode == 0xdb) ≡ false
    → get_elem? bps j ≡ some b
    → Hits e.at (u16 (e.at + (disasm e.at (byte_at e.machine)).1)) b
    → (d' : Debugger) × (on_fetch e.at e.opcode (see e d) ≡ resume true d')
      × (d'.mode ≡ stopped)
      × (d'.steps_left ≡ suc n)
      × (d'.pc ≡ e.at)
unfolding arrived see report_stepping echo read6502
step-stops_early n j bps lines b e d s o at hit =
    let (k, found) =
      check_if_at_bp-Hits e.at (disasm e.at (byte_at e.machine)).1 j b (arrived e d)
        (rw s.same_bps at) hit in
    let d2 = report_stepping k (arrived e d) in
    (
      d2,
      on_fetch-stepping e d (true, d2) o s.started s.going s.mode
          (stop_stepping-hit k (arrived e d) (ground (arith, s.left)) found),
      refl,
      s.left,
      refl,
    )
