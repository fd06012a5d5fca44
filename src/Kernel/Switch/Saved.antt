-- ===== src/Kernel/Switch/Saved.antt =====
-- The process table when the running process has been saved.

use bb6502_verilog.Common.{
  ℕ, zero, suc, ◌<◌, ◌≤◌, ◌≡◌, ◌≢◌, refl, ◌∙◌, ap, true, ◌==◌, Bool-cases, inl, inr, some, List, [],
  ◌∷◌, length, get_or, get_elem?, get_or-set_self, get_or-set_ne, arith,
}
use bb6502_verilog.Kernel.Process.{Process, Table, waiting, is_waiting}
use bb6502_verilog.Kernel.Spawn.{process_at, unused}
use bb6502_verilog.Kernel.Switch.{Running, saved, save_current}
use bb6502_verilog.Kernel.Switch.Frames.{save_ppn_lem}

-- The page tables have 5-bit pages.
abbrev pub IsPaged : (ℕ → ℕ) → Type 0
IsPaged ppn = (j : ℕ) → j < 32 → ppn j < 32

-- A table of processes of which all but the running one wait.
pub record IsReady (r : Running) : Type 0 where
  pub size : length r.system.table.plist ≡ 4
  pub few : r.system.table.nprocs ≤ 4
  pub current : r.system.table.plist_idx < r.system.table.nprocs
  pub waits :
      (i : ℕ)
      → i < r.system.table.nprocs
      → r.system.table.plist_idx ≢ i
      → (process_at r.system.table i).state ≡ waiting
  pub tables :
      (i : ℕ) → i < r.system.table.nprocs → IsPaged (process_at r.system.table i).mmu_ppn_table
  pub paged : IsPaged r.system.machine.mmu.ppn
  pub kernel : r.system.machine.mmu.kernel ≡ true

get_elem?-get_or :
    (xs : List Process) (i : ℕ) (d : Process)
    → i < length xs
    → get_elem? xs i ≡ some (get_or xs i d)
get_elem?-get_or [] i d h = absurd (omega arith)
get_elem?-get_or (x ∷ xs) zero d h = refl
get_elem?-get_or (x ∷ xs) (suc i) d h = get_elem?-get_or xs i d (omega arith)

pub is_waiting_lem :
    (t : Table) (i : ℕ)
    → i < length t.plist
    → (process_at t i).state ≡ waiting
    → is_waiting t i ≡ true
unfolding is_waiting
is_waiting_lem t i h e = rw (is_waiting, get_elem?-get_or t.plist i unused h, e) refl

-- The entry of the running process behind the save.
pub saved_lem :
    (r : Running)
    → r.system.table.plist_idx < length r.system.table.plist
    → process_at (save_current r) r.system.table.plist_idx
      ≡ saved r (process_at r.system.table r.system.table.plist_idx)
unfolding save_current
saved_lem r h = get_or-set_self r.system.table.plist r.system.table.plist_idx _ unused h

pub saved-others :
    (r : Running) (i : ℕ)
    → r.system.table.plist_idx ≢ i
    → process_at (save_current r) i ≡ process_at r.system.table i
unfolding save_current
saved-others r i h = get_or-set_ne r.system.table.plist r.system.table.plist_idx i _ unused h

-- The page table that is saved is the MMU's.
pub saved_ppn :
    (r : Running) (p : Process) (j : ℕ)
    → j < 32
    → (saved r p).mmu_ppn_table j ≡ r.system.machine.mmu.ppn j
unfolding saved
saved_ppn r p j h =
    save_ppn_lem 32 0 r.system.machine p.mmu_ppn_table j (omega arith) ∙ ground arith

pub saved_waits :
    (r : Running) (i : ℕ)
    → IsReady r
    → i < r.system.table.nprocs
    → (process_at (save_current r) i).state ≡ waiting
unfolding saved
saved_waits r i ready h = elim (Bool-cases (r.system.table.plist_idx == i)) [
  | inl here ↦
      let at : i ≡ r.system.table.plist_idx = ground arith in
      ap (λ (p : Process). p.state)
        (ap (process_at (save_current r)) at
          ∙ saved_lem r (omega (arith, ready.size, ready.few, ready.current)))
  | inr away ↦
      let other : r.system.table.plist_idx ≢ i = ground arith in
      ap (λ (p : Process). p.state) (saved-others r i other) ∙ ready.waits i h other
]

pub saved_tables :
    (r : Running) (i : ℕ)
    → IsReady r
    → i < r.system.table.nprocs
    → IsPaged (process_at (save_current r) i).mmu_ppn_table
saved_tables r i ready h j low = elim (Bool-cases (r.system.table.plist_idx == i)) [
  | inl here ↦
      let at : i ≡ r.system.table.plist_idx = ground arith in
      let entry =
        ap (process_at (save_current r)) at
        ∙ saved_lem r (omega (arith, ready.size, ready.few, ready.current)) in
      let page = ap (λ (p : Process). p.mmu_ppn_table j) entry ∙ saved_ppn r _ j low in
      omega (arith, page, ready.paged j low)
  | inr away ↦
      let other : r.system.table.plist_idx ≢ i = ground arith in
      let page = ap (λ (p : Process). p.mmu_ppn_table j) (saved-others r i other) in
      omega (arith, page, ready.tables i h j low)
]
