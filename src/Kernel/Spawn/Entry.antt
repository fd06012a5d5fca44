-- ===== src/Kernel/Spawn/Entry.antt =====
-- The new entry of the process table.
use bb6502_verilog.Common.{
  ℕ, ◌+◌, ◌<◌, ◌≡◌, ◌≢◌, ◌∙◌, ap, set, length, length-set, get_or-set_self, get_or-set_ne, arith,
}
use bb6502_verilog.Kernel.Process.{Process, Table, ppn_entry}
use bb6502_verilog.Kernel.Spawn.{process_at, unused, started, with_table}
use bb6502_verilog.Kernel.Spawn.Copy.{filled}

-- The page table is the one for `base`.
abbrev pub IsAt : ℕ → Process → Type 0
IsAt base p = (j : ℕ) → j < 32 → p.mmu_ppn_table j ≡ ppn_entry base j

-- The table with the new entry.
unfoldable pub registered : (lba nblocks base : ℕ) → Table → Table
registered lba nblocks base t =
    let u = with_table base t in
    record u {
      plist = set u.plist u.nprocs (started lba nblocks (process_at u u.nprocs));
      nprocs = u.nprocs + 1;
    }

-- The new entry, before and after its other fields are set.
pub with_table_lem :
    (base : ℕ) (t : Table)
    → t.nprocs < length t.plist
    → IsAt base (process_at (with_table base t) t.nprocs)
with_table_lem base t h j low =
    ap (λ (q : Process). q.mmu_ppn_table j) (get_or-set_self t.plist t.nprocs _ unused h)
    ∙ filled base (process_at t t.nprocs).mmu_ppn_table j low

pub registered_lem :
    (lba nblocks base : ℕ) (t : Table)
    → t.nprocs < length t.plist
    → process_at (registered lba nblocks base t) t.nprocs
      ≡ started lba nblocks (process_at (with_table base t) t.nprocs)
unfolding registered
registered_lem lba nblocks base t h =
    let size : length (with_table base t).plist ≡ length t.plist = length-set t.plist t.nprocs _ in
    get_or-set_self (with_table base t).plist t.nprocs _ unused (omega arith)

pub registered-others :
    (lba nblocks base : ℕ) (t : Table) (i : ℕ)
    → t.nprocs ≢ i
    → process_at (registered lba nblocks base t) i ≡ process_at t i
unfolding registered
registered-others lba nblocks base t i other =
    get_or-set_ne (with_table base t).plist t.nprocs i _ unused other
    ∙ get_or-set_ne t.plist t.nprocs i _ unused other

pub registered-length :
    (lba nblocks base : ℕ) (t : Table)
    → length (registered lba nblocks base t).plist ≡ length t.plist
unfolding registered
registered-length lba nblocks base t =
    length-set (with_table base t).plist t.nprocs _ ∙ length-set t.plist t.nprocs _
