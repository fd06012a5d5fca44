-- ===== src/Debug/State/Chains.antt =====
-- Properties of chains of the debugger's commands, which may wait for the user.
use bb6502_verilog.Common.{Option, none, some}
use bb6502_verilog.Common.Maybe.{AllOf}
use bb6502_verilog.Debug.State.{Debugger}

-- What holds of a chain's result, if there is one, holds behind each first result.
pub AllOf-then :
    {A : Type 0} {B : Type 0} (P : B × Debugger → Type 0) (o : Option (A × Debugger))
    (k : A → Debugger → Option (B × Debugger))
    → ((a : A) (d : Debugger) → AllOf P (k a d))
    → AllOf P (elim o [ none ↦ none | some (a, d') ↦ k a d' ])
AllOf-then P none k h = tt
AllOf-then P (some (a, d)) k h = h a d

-- As above, with a property of the first result.
pub AllOf-next :
    {A : Type 0} {B : Type 0} (P : A × Debugger → Type 0) (Q : B × Debugger → Type 0)
    (o : Option (A × Debugger)) (k : A → Debugger → Option (B × Debugger))
    → AllOf P o
    → ((a : A) (d : Debugger) → P (a, d) → AllOf Q (k a d))
    → AllOf Q (elim o [ none ↦ none | some (a, d') ↦ k a d' ])
AllOf-next P Q none k p h = tt
AllOf-next P Q (some (a, d)) k p h = h a d p
