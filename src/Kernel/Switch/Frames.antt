-- ===== src/Kernel/Switch/Frames.antt =====
-- The loops of the context switch over the page table.
use bb6502_verilog.Common.{
  ℕ, zero, suc, ◌+◌, ◌<◌, ◌≤◌, ◌≡◌, refl, ◌∙◌, ap, true, ◌&&◌, leb, ltb, ◌==◌, if◌then◌else◌,
  Bool-cases, inl, inr, arith,
}
use bb6502_verilog.Machine.Mmu.{update}
use bb6502_verilog.Machine.Bus.{Machine, data_in}
use bb6502_verilog.Machine.Ram.{with_ppn, bus_write-ppn}
use bb6502_verilog.Kernel.UserMemory.{mmu_ppn}
use bb6502_verilog.Kernel.UserMemory.Translate.{mmu_ppn_lem}
use bb6502_verilog.Kernel.Switch.{save_ppn, restore_ppn}

pub save_ppn_lem :
    (n x : ℕ) (m : Machine) (ppn : ℕ → ℕ) (j : ℕ)
    → x + n ≤ 32
    → save_ppn n x m ppn j ≡ (if leb x j && ltb j (x + n) then m.mmu.ppn j else ppn j)
unfolding save_ppn mmu_ppn
save_ppn_lem zero x m ppn j h = ground arith
save_ppn_lem (suc n) x m ppn j h = elim (Bool-cases (x == j)) [
  | inl here ↦
      let at : j ≡ x = ground arith in
      save_ppn_lem n (x + 1) m (update ppn x (data_in (0x8080 + x) m)) j (omega arith)
      ∙ rw at (ground (arith, mmu_ppn_lem m x (omega arith)))
  | inr away ↦
      save_ppn_lem n (x + 1) m (update ppn x (data_in (0x8080 + x) m)) j (omega arith)
      ∙ ground arith
]

restore_step :
    (n x : ℕ) (ppn : ℕ → ℕ) (m : Machine)
    → x < 32
    → m.mmu.kernel ≡ true
    → ppn x < 32
    → restore_ppn (suc n) x ppn m
      ≡ restore_ppn n (x + 1) ppn (with_ppn (update m.mmu.ppn x (ppn x)) m)
unfolding restore_ppn
restore_step n x ppn m h kernel small =
    ap (restore_ppn n (x + 1) ppn) (bus_write-ppn x (ppn x) m h kernel small)

pub restore_ppn_lem :
    (n x : ℕ) (ppn : ℕ → ℕ) (m : Machine)
    → x + n ≤ 32
    → m.mmu.kernel ≡ true
    → ((j : ℕ) → j < 32 → ppn j < 32)
    → (f : ℕ → ℕ) × (restore_ppn n x ppn m ≡ with_ppn f m)
      × ((j : ℕ) → f j ≡ (if leb x j && ltb j (x + n) then ppn j else m.mmu.ppn j))
restore_ppn_lem zero x ppn m h kernel small =
    (m.mmu.ppn, unfold restore_ppn in refl, λ j. ground arith)
restore_ppn_lem (suc n) x ppn m h kernel small =
    let one = restore_step n x ppn m (omega arith) kernel (small x (omega arith)) in
    let next = with_ppn (update m.mmu.ppn x (ppn x)) m in
    let (f, all, cells) = restore_ppn_lem n (x + 1) ppn next (omega arith) kernel small in
    (
      f,
      one ∙ all,
      λ j. cells j ∙ elim (Bool-cases (x == j)) [
        | inl here ↦ let at : j ≡ x = ground arith in rw at (ground arith)
        | inr away ↦ ground arith
      ],
    )
