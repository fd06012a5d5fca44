-- ===== src/Kernel/Switch/Turns.antt =====
-- The order in which do_yield switches between processes that all wait for their turn.
use mathlib.Core.Path.{subst}
use bb6502_verilog.Common.{
  ℕ, suc, ◌+◌, ◌-◌, ◌%◌, ◌<◌, ◌≡◌, ◌≢◌, refl, sym, ◌∙◌, ap, true, ◌==◌, Bool-cases, inl, inr,
  length, set, length-set, get_or-set_self, get_or-set_ne, arith,
}
use bb6502_verilog.Machine.Bus.{Machine}
use bb6502_verilog.Machine.Ram.{with_ppn}
use bb6502_verilog.Kernel.Process.{Process, Table, is_waiting, schedule_loop, schedule_process}
use bb6502_verilog.Kernel.Process.Schedule.{turn}
use bb6502_verilog.Kernel.Spawn.{process_at, unused}
use bb6502_verilog.Kernel.Switch.{Running, running, saved, save_current, resume_current, do_yield}
use bb6502_verilog.Kernel.Switch.Frames.{restore_ppn_lem}
use bb6502_verilog.Kernel.Switch.Saved.{IsPaged, IsReady, is_waiting_lem, saved_waits, saved_tables}

schedule-next :
    (n : ℕ) (t : Table)
    → t.nprocs ≡ suc n
    → is_waiting t (turn t 1) ≡ true
    → schedule_process t ≡ record t { plist_idx = turn t 1 }
unfolding schedule_process schedule_loop
schedule-next n t e hit = ap (λ k. schedule_loop k 1 t) e ∙ rw hit refl

-- The next process in turn.
abbrev pub next : Running → ℕ
next r = (r.system.table.plist_idx + 1) % r.system.table.nprocs

-- The table behind the scheduler's choice.
abbrev pub chosen : Running → Table
chosen r = record (save_current r) { plist_idx = next r }

pub do_yield-chosen :
    (r : Running) → IsReady r → do_yield r ≡ resume_current r.system.machine (chosen r)
unfolding do_yield save_current
do_yield-chosen r ready =
    let t = r.system.table in
    let turn_low : next r < t.nprocs = omega (arith, ready.current) in
    let size = length-set t.plist t.plist_idx (saved r (process_at t t.plist_idx)) in
    let hit =
      is_waiting_lem (save_current r) (next r) (omega (arith, ready.size, ready.few))
        (saved_waits r (next r) ready turn_low) in
    ap (resume_current r.system.machine)
      (schedule-next (t.nprocs - 1) (save_current r) (omega (arith, ready.current)) hit)

-- The table with the selected process marked RUNNING.
abbrev pub marked : Table → Table
marked t = record t {
  plist = set t.plist t.plist_idx (record (process_at t t.plist_idx) { state = running });
}

pub resume_current_lem :
    (m : Machine) (t : Table)
    → m.mmu.kernel ≡ true
    → IsPaged (process_at t t.plist_idx).mmu_ppn_table
    → (f : ℕ → ℕ) × (resume_current m t ≡ record {
      system = record { machine = with_ppn f m; table = marked t };
      sp = (process_at t t.plist_idx).sp;
    })
      × ((j : ℕ) → j < 32 → f j ≡ (process_at t t.plist_idx).mmu_ppn_table j)
unfolding resume_current
resume_current_lem m t kernel paged =
    let (f, all, cells) =
      restore_ppn_lem 32 0 (process_at t t.plist_idx).mmu_ppn_table m (omega arith) kernel paged in
    (
      f,
      ap
          (λ x. record {
            system = record { machine = x; table = marked t };
            sp = (process_at t t.plist_idx).sp;
          })
          all,
      λ j h. cells j ∙ ground arith,
    )

-- What one switch does: the next process in turn runs, with the stack pointer and the page table of
-- its entry; the other entries are those behind the save.
pub record Switched (r r' : Running) : Type 0 where
  pub ready : IsReady r'
  pub count : r'.system.table.nprocs ≡ r.system.table.nprocs
  pub index : r'.system.table.plist_idx ≡ next r
  pub sp : r'.sp ≡ (process_at (save_current r) (next r)).sp
  pub ppn :
      (j : ℕ)
      → j < 32
      → r'.system.machine.mmu.ppn j ≡ (process_at (save_current r) (next r)).mmu_ppn_table j
  pub others : (i : ℕ) → next r ≢ i → process_at r'.system.table i ≡ process_at (save_current r) i

marked-others :
    (r : Running) (i : ℕ)
    → next r ≢ i
    → process_at (marked (chosen r)) i ≡ process_at (save_current r) i
marked-others r i other = get_or-set_ne (save_current r).plist (next r) i _ unused other

length-save_current : (r : Running) → length (save_current r).plist ≡ length r.system.table.plist
unfolding save_current
length-save_current r = length-set r.system.table.plist r.system.table.plist_idx _

marked_tables :
    (r : Running) (i : ℕ)
    → IsReady r
    → i < r.system.table.nprocs
    → IsPaged (process_at (marked (chosen r)) i).mmu_ppn_table
unfolding save_current
marked_tables r i ready h j low = elim (Bool-cases (next r == i)) [
  | inl here ↦
      let at : i ≡ next r = ground arith in
      let size = length-save_current r in
      let entry =
        ap (process_at (marked (chosen r))) at
        ∙ get_or-set_self (save_current r).plist (next r) _ unused
            (omega (arith, size, ready.size, ready.few, h)) in
      let page = ap (λ (p : Process). p.mmu_ppn_table j) entry in
      omega (arith, page, saved_tables r (next r) ready (omega arith) j low)
  | inr away ↦
      let other : next r ≢ i = ground arith in
      let page = ap (λ (p : Process). p.mmu_ppn_table j) (marked-others r i other) in
      omega (arith, page, saved_tables r i ready h j low)
]

switched-IsReady :
    (r : Running) (f : ℕ → ℕ)
    → IsReady r
    → ((j : ℕ) → j < 32 → f j ≡ (process_at (save_current r) (next r)).mmu_ppn_table j)
    → IsReady (record {
      system = record { machine = with_ppn f r.system.machine; table = marked (chosen r) };
      sp = (process_at (save_current r) (next r)).sp;
    })
unfolding save_current
switched-IsReady r f ready pages = record {
  size = length-set (save_current r).plist (next r) _ ∙ length-save_current r ∙ ready.size;
  few = ready.few;
  current = omega (arith, ready.current);
  waits = λ i h other.
      ap (λ (p : Process). p.state) (marked-others r i other) ∙ saved_waits r i ready h;
  tables = λ i h. marked_tables r i ready h;
  paged = λ j h.
      omega (arith, pages j h, saved_tables r (next r) ready (omega (arith, ready.current)) j h);
  kernel = ready.kernel;
}

pub do_yield-Switched : (r : Running) → IsReady r → Switched r (do_yield r)
unfolding save_current
do_yield-Switched r ready =
    let paged = saved_tables r (next r) ready (omega (arith, ready.current)) in
    let (f, done, pages) = resume_current_lem r.system.machine (chosen r) ready.kernel paged in
    subst (Switched r) (sym (do_yield-chosen r ready ∙ done)) (record {
      ready = switched-IsReady r f ready pages;
      count = refl;
      index = refl;
      sp = refl;
      ppn = pages;
      others = marked-others r;
    })
