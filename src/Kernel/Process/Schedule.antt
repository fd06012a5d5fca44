-- ===== src/Kernel/Process/Schedule.antt =====
-- The order in which schedule_process takes the processes.
use mathlib.Core.Path.{subst}
use bb6502_verilog.Common.{
  ℕ, zero, suc, ◌+◌, ◌<◌, ◌≤◌, ◌≡◌, ◌%◌, ◌⊎◌, ◌≢◌, ◌==◌, ==_iff, inl, inr, true, false, Bool-cases,
  arith,
}
use bb6502_verilog.Kernel.Process.{Table, is_waiting, schedule_loop, schedule_process}

-- The turn k behind the current process: its index.
abbrev pub turn : Table → ℕ → ℕ
turn t k = (t.plist_idx + k) % t.nprocs

-- What a search of the turns from i to i + n - 1 gives: the first that waits, or, if none of them
-- does, the table as it was.
pub data IsNext (n i : ℕ) (t : Table) : Table → Type 0 where
  picked :
      (k : ℕ)
      → i ≤ k
      → k < i + n
      → is_waiting t (turn t k) ≡ true
      → ((j : ℕ) → i ≤ j → j < k → is_waiting t (turn t j) ≡ false)
      → IsNext n i t (record t { plist_idx = turn t k })
  idle : ((j : ℕ) → i ≤ j → j < i + n → is_waiting t (turn t j) ≡ false) → IsNext n i t t

compare-cases : (i j : ℕ) → (i ≡ j) ⊎ (i ≢ j)
compare-cases i j = elim (Bool-cases (i == j)) [
  | inl e ↦ inl ((==_iff i j).0 e)
  | inr e ↦ inr (ground arith)
]

IsNext-later :
    (n i : ℕ) (t u : Table)
    → is_waiting t (turn t i) ≡ false
    → IsNext n (i + 1) t u
    → IsNext (suc n) i t u
IsNext-later n i t u stays (picked k from to waits before) =
    picked k (omega arith) (omega arith) waits λ j at below. elim (compare-cases i j) [
      | inl same ↦ subst (λ h. is_waiting t (turn t h) ≡ false) same stays
      | inr above ↦ before j (omega arith) below
    ]
IsNext-later n i t u stays (idle none_of) = idle λ j at below. elim (compare-cases i j) [
  | inl same ↦ subst (λ h. is_waiting t (turn t h) ≡ false) same stays
  | inr above ↦ none_of j (omega arith) (omega arith)
]

schedule_loop-IsNext : (n i : ℕ) (t : Table) → IsNext n i t (schedule_loop n i t)
unfolding schedule_loop
schedule_loop-IsNext zero i t = idle (λ j from to. absurd (omega arith))
schedule_loop-IsNext (suc n) i t = elim (Bool-cases (is_waiting t (turn t i))) [
  | inl hit ↦
      rw (schedule_loop, hit)
        (picked i (omega arith) (omega arith) hit λ j from to. absurd (omega arith))
  | inr miss ↦
      rw (schedule_loop, miss) (IsNext-later n i t _ miss (schedule_loop-IsNext n (i + 1) t))
]

-- schedule_process searches the turns 1 to nprocs behind the current process: it makes the first
-- process that waits the current one, and none of the processes passed over was waiting; if no turn
-- waits, the table stays as it was.
pub schedule_process-IsNext : (t : Table) → IsNext t.nprocs 1 t (schedule_process t)
unfolding schedule_process
schedule_process-IsNext t = schedule_loop-IsNext t.nprocs 1 t
