-- ===== src/Kernel/Process.antt =====
-- sw/kernel/src/proc.c: the process table, schedule_process, and the page table that spawn_bbx makes.
pub mod Schedule
pub mod Pages
use bb6502_verilog.Common.{
  ℕ, zero, suc, ◌+◌, ◌%◌, Bool, false, none, some, List, get_elem?, ◌==◌, if◌then◌else◌,
}
use bb6502_verilog.Common.Bits.{shr, shl, low_bits, u8, u16, bit_or}

-- `PROC_STATE_WAITING`
abbrev pub waiting : ℕ
waiting = 1

-- `PROCESS`, without its padding; `name` is not used.
pub record Process : Type 0 where
  pub state : ℕ
  pub exit_code : ℕ
  pub lba : ℕ
  pub nblocks : ℕ
  pub sp : ℕ
  pub mmu_ppn_table : ℕ → ℕ

-- `plist`, `nprocs` and `plist_idx`
pub record Table : Type 0 where
  pub plist : List Process
  pub nprocs : ℕ
  pub plist_idx : ℕ

-- `plist[idx].state == PROC_STATE_WAITING`
unfoldable pub is_waiting : Table → ℕ → Bool
is_waiting t idx = elim (get_elem? t.plist idx) [ none ↦ false | some p ↦ p.state == waiting ]

-- The loop of schedule_process from `i` on, with the rounds that are left.
unfoldable pub schedule_loop : (rounds i : ℕ) → Table → Table
schedule_loop zero i t = t
schedule_loop (suc k) i t =
    let idx = (t.plist_idx + i) % t.nprocs in
    let rest = schedule_loop k (i + 1) t in
    if is_waiting t idx then record t { plist_idx = idx } else rest

-- schedule_process: `i` runs from 1 to nprocs, which is at most 4.
unfoldable pub schedule_process : Table → Table
schedule_process t = schedule_loop t.nprocs 1 t

-- `p->mmu_ppn_table[i]` in spawn_bbx.
unfoldable pub ppn_entry : (base i : ℕ) → ℕ
ppn_entry base i = u8 (bit_or (shl (low_bits (base + shr i 2) 3) 2) (low_bits i 2))

-- `phys` in spawn_bbx, for a virtual address; an int has 16 bits.
unfoldable pub phys : (ppn : ℕ → ℕ) → (virt_addr : ℕ) → ℕ
phys ppn virt_addr = bit_or (u16 (shl (ppn (shr virt_addr 10)) 10)) (low_bits virt_addr 10)
