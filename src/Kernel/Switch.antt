-- ===== src/Kernel/Switch.antt =====
-- sw/kernel/src/yield.s: do_yield and sched_start, in kernel mode, between the entry by BRK and the
-- leave through ret_user_mode (sw/boot/boot.s).
pub mod Frames
pub mod Saved
pub mod Turns
pub mod Rounds
pub mod Context
use bb6502_verilog.Common.{ℕ, zero, suc, ◌+◌, set}
use bb6502_verilog.Machine.Mmu.{update}
use bb6502_verilog.Machine.Bus.{Machine, data_in, bus_write}
use bb6502_verilog.Kernel.Process.{Process, Table, waiting, schedule_process}
use bb6502_verilog.Kernel.Spawn.{System, process_at}

-- `PROC_STATE_RUNNING`
abbrev pub running : ℕ
running = 2

-- The kernel while a process runs or is switched: its state, and the stack pointer of the CPU.
pub record Running : Type 0 where
  pub system : System
  pub sp : ℕ

-- The loop @save_ppn: loads of the MMU's registers, for the n entries from x on.
unfoldable pub save_ppn : (n x : ℕ) → Machine → (ℕ → ℕ) → ℕ → ℕ
save_ppn zero x m ppn = ppn
save_ppn (suc n) x m ppn = save_ppn n (x + 1) m (update ppn x (data_in (0x8080 + x) m))

-- RESTORE_PPN
unfoldable pub restore_ppn : (n x : ℕ) → (ℕ → ℕ) → Machine → Machine
restore_ppn zero x ppn m = m
restore_ppn (suc n) x ppn m = restore_ppn n (x + 1) ppn (bus_write (0x8080 + x) (ppn x) m)

-- The entry of the running process, when it has been saved.
unfoldable pub saved : Running → Process → Process
saved r p = record p {
  state = waiting;
  sp = r.sp;
  mmu_ppn_table = save_ppn 32 0 r.system.machine p.mmu_ppn_table;
}

-- The first half of do_yield: the running process is saved and marked WAITING.
unfoldable pub save_current : Running → Table
save_current r =
    let t = r.system.table in
    record t { plist = set t.plist t.plist_idx (saved r (process_at t t.plist_idx)) }

-- The second half: the selected process is marked RUNNING, and its stack pointer and page table are
-- loaded.
unfoldable pub resume_current : Machine → Table → Running
resume_current m t =
    let q = process_at t t.plist_idx in
    record {
      system = record {
        machine = restore_ppn 32 0 q.mmu_ppn_table m;
        table = record t { plist = set t.plist t.plist_idx (record q { state = running }) };
      };
      sp = q.sp;
    }

-- do_yield
unfoldable pub do_yield : Running → Running
do_yield r = resume_current r.system.machine (schedule_process (save_current r))

-- The loop @open_all, from register x down.
unfoldable pub open_all : (n : ℕ) → Machine → Machine
open_all zero m = m
open_all (suc x) m = open_all x (bus_write (0x80a4 + x) 0xff (bus_write (0x80a0 + x) 0xff m))

-- sched_start
unfoldable pub sched_start : System → Running
sched_start s = resume_current (open_all 4 s.machine) (record s.table { plist_idx = 0 })
