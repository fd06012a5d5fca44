-- ===== src/Kernel/Switch/Context.antt =====
-- What a process finds when its turn comes again.
use native.Mathlib.Nat.{mod-eq_of_lt, mod-add-mod, add-mod_right, mod-eq-sub-mod}
use bb6502_verilog.Common.{
  ℕ, suc, ◌+◌, ◌-◌, ◌%◌, ◌<◌, ◌≤◌, ◌≡◌, ◌≢◌, sym, ◌∙◌, ap, ap₂, Bool-cases, inl, inr, ltb, arith,
}
use bb6502_verilog.Kernel.Process.{Process}
use bb6502_verilog.Kernel.Spawn.{process_at}
use bb6502_verilog.Kernel.Switch.{Running, save_current, saved, do_yield}
use bb6502_verilog.Kernel.Switch.Saved.{IsReady, saved_lem, saved-others, saved_ppn}
use bb6502_verilog.Kernel.Switch.Turns.{next, do_yield-Switched}
use bb6502_verilog.Kernel.Switch.Rounds.{Trace, stay, run, yield, Trace-IsTurn}

-- The entry of process p holds a stack pointer and a page table.
record IsHeld (p s : ℕ) (f : ℕ → ℕ) (r : Running) : Type 0 where
  sp : (process_at r.system.table p).sp ≡ s
  ppn : (j : ℕ) → j < 32 → (process_at r.system.table p).mmu_ppn_table j ≡ f j

-- Process p is not the running one behind the switches from k to n.
abbrev Elsewhere : Running → (p n : ℕ) → Type 0
Elsewhere r p n = (k : ℕ) → k ≤ n → (r.system.table.plist_idx + k) % r.system.table.nprocs ≢ p

Trace-IsHeld :
    (r : Running) (n : ℕ) (r' : Running) (p s : ℕ) (f : ℕ → ℕ)
    → IsReady r
    → Elsewhere r p n
    → Trace r n r'
    → IsHeld p s f r
    → IsHeld p s f r'
Trace-IsHeld r _ _ p s f ready away stay held = held
Trace-IsHeld r _ _ p s f ready away (run n r1 r2 before user) held =
    let was = Trace-IsHeld r n r1 p s f ready away before held in
    let t = user.table in record { sp = rw t was.sp; ppn = rw t was.ppn }
Trace-IsHeld r _ _ p s f ready away (yield m r1 before) held =
    let was = Trace-IsHeld r m r1 p s f ready (λ k h. away k (omega arith)) before held in
    let turn = Trace-IsTurn r m r1 ready before in
    let after = Trace-IsTurn r (suc m) (do_yield r1) ready (yield m r1 before) in
    let now = do_yield-Switched r1 turn.ready in
    let entry =
      now.others p (λ e. away (suc m) (omega arith) (sym after.index ∙ now.index ∙ e))
      ∙ saved-others r1 p (λ e. away m (omega arith) (sym turn.index ∙ e)) in
    record {
      sp = ap (λ (q : Process). q.sp) entry ∙ was.sp;
      ppn = λ j h. ap (λ (q : Process). q.mmu_ppn_table j) entry ∙ was.ppn j h;
    }

later_turn : (i k c : ℕ) → i < c → k + 2 ≤ c → ((i + 1) % c + k) % c ≢ i
later_turn i k c h room e =
    let sum = mod-add-mod (i + 1) c k in
    elim (Bool-cases (ltb (i + 1 + k) c)) [
      | inl low ↦
          let below : i + 1 + k < c = ground arith in
          let same = mod-eq_of_lt below in omega (arith, sum, same, e)
      | inr high ↦
          let over : c ≤ i + 1 + k = ground arith in
          let less : i + 1 + k - c < c = omega arith in
          let back = mod-eq-sub-mod over in
          let same = mod-eq_of_lt less in omega (arith, sum, back, same, e)
    ]

last_turn : (i k c : ℕ) → i < c → k + 2 ≡ c → ((i + 1) % c + (k + 1)) % c ≡ i
last_turn i k c h e =
    mod-add-mod (i + 1) c (k + 1)
    ∙ ap (λ a. a % c) (omega arith)
    ∙ add-mod_right i c
    ∙ mod-eq_of_lt h

IsHeld-first :
    (r : Running)
    → IsReady r
    → next r ≢ r.system.table.plist_idx
    → IsHeld r.system.table.plist_idx r.sp r.system.machine.mmu.ppn (do_yield r)
unfolding saved
IsHeld-first r ready other =
    let now = do_yield-Switched r ready in
    let i = r.system.table.plist_idx in
    let entry =
      now.others i other ∙ saved_lem r (omega (arith, ready.size, ready.few, ready.current)) in
    record {
      sp = ap (λ (q : Process). q.sp) entry;
      ppn = λ j h.
          ap (λ (q : Process). q.mmu_ppn_table j) entry
          ∙ saved_ppn r (process_at r.system.table i) j h;
    }

-- With two processes at least, all but the running one waiting: when the running process yields, its
-- next turn is nprocs switches later, whatever the other processes do in between, and then it has the
-- stack pointer and the page table that it had.
pub do_yield-resumes :
    (r : Running) (n : ℕ) (r' : Running)
    → IsReady r
    → n + 2 ≡ r.system.table.nprocs
    → Trace (do_yield r) n r'
    → ((do_yield r').system.table.plist_idx ≡ r.system.table.plist_idx)
      × ((do_yield r').sp ≡ r.sp)
      × ((j : ℕ) → j < 32 → (do_yield r').system.machine.mmu.ppn j ≡ r.system.machine.mmu.ppn j)
do_yield-resumes r n r' ready all trace =
    let i = r.system.table.plist_idx in
    let c = r.system.table.nprocs in
    let first = do_yield-Switched r ready in
    let away : Elsewhere (do_yield r) i n =
      λ k h. rw (first.index, first.count) (later_turn i k c ready.current (omega arith)) in
    let other : next r ≢ i = λ e.
      later_turn i 0 c ready.current (omega arith)
        (ap (λ a. (a + 0) % c) e ∙ ap (λ a. a % c) (omega arith) ∙ mod-eq_of_lt ready.current) in
    let held =
      Trace-IsHeld (do_yield r) n r' i r.sp r.system.machine.mmu.ppn first.ready away trace
        (IsHeld-first r ready other) in
    let turn = Trace-IsTurn (do_yield r) n r' first.ready trace in
    let last = Trace-IsTurn (do_yield r) (suc n) (do_yield r') first.ready (yield n r' trace) in
    let now = do_yield-Switched r' turn.ready in
    let index =
      last.index
      ∙ ap₂ (λ a b. (a + suc n) % b) first.index first.count
      ∙ ap (λ a. ((i + 1) % c + a) % c) (omega arith)
      ∙ last_turn i n c ready.current all in
    let entry : process_at (save_current r') (next r') ≡ process_at r'.system.table i =
      ap (process_at (save_current r')) (sym now.index ∙ index)
      ∙ saved-others r' i (λ e. away n (omega arith) (sym turn.index ∙ e)) in
    (
      index,
      now.sp ∙ ap (λ (q : Process). q.sp) entry ∙ held.sp,
      λ j h. now.ppn j h ∙ ap (λ (q : Process). q.mmu_ppn_table j) entry ∙ held.ppn j h,
    )
