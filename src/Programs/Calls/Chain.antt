-- ===== src/Programs/Calls/Chain.antt =====
-- Calls that write, one after the other, and what they leave to the later ones.
use bb6502_verilog.Common.{ℕ, ◌≡◌, ◌∙◌, ap, some, Option, List, ◌++◌, append_assoc}
use bb6502_verilog.Common.Maybe.{◌>>=◌}
use bb6502_verilog.Machine.Bus.{Machine}
use bb6502_verilog.Kernel.UserMemory.Translate.{in_user}
use bb6502_verilog.Programs.Calls.{Wrote}

-- Two calls that write.
pub Wrote-trans :
    (cs ds : List ℕ) (m m1 m2 : Machine) → Wrote cs m m1 → Wrote ds m1 m2 → Wrote (cs ++ ds) m m2
Wrote-trans cs ds m m1 m2 w v = record {
  running = v.running;
  mmu = v.mmu ∙ w.mmu;
  disk = v.disk ∙ w.disk;
  sent = v.sent ∙ ap (λ t. t ++ ds) w.sent ∙ append_assoc m.acia.sent cs ds;
  gpu = v.gpu ∙ ap (λ t. t ++ ds) w.gpu ∙ append_assoc m.gpu_sent cs ds;
  away = λ a far. v.away a (rw w.mmu far) ∙ w.away a far;
}

-- A step of a program that comes back in user mode and writes `cs`.
abbrev pub Says : List ℕ → Option Machine → Machine → Type 0
Says cs o m = (m' : Machine) × (o ≡ some (in_user m')) × Wrote cs m m'

-- A step and what follows it.
pub Says-then :
    (cs ds : List ℕ) (o : Option Machine) (k : Machine → Option Machine) (m : Machine)
    → Says cs o m
    → ((m1 : Machine) → Wrote cs m m1 → Says ds (k (in_user m1)) m1)
    → Says (cs ++ ds) (o >>= k) m
Says-then cs ds o k m (m1, came, wrote) next =
    let (m2, came2, wrote2) = next m1 wrote in
    (m2, ap (λ x. x >>= k) came ∙ came2, Wrote-trans cs ds m m1 m2 wrote wrote2)
