-- ===== src/Kernel/Tests.antt =====
-- The kernel's theorems at a table of three processes and a machine in a system call.
mod Calls
mod Processes
use bb6502_verilog.Common.{
  ℕ, ◌+◌, ◌%◌, ◌-◌, ◌≡◌, refl, true, false, [], ◌∷◌, none, some, leb, ltb, ◌&&◌, if◌then◌else◌, ◌≤◌,
  ◌<◌, inl, arith,
}
use bb6502_verilog.Machine.Mmu.{Mmu, ram_addr}
use bb6502_verilog.Machine.Bus.{Machine}
use bb6502_verilog.Kernel.Block.{block_read, block_write}
use bb6502_verilog.Kernel.ZeroPage.{ZeroPage}
use bb6502_verilog.Kernel.Block.Write.{block_read-block_write}
use bb6502_verilog.Kernel.Process.{
  Process, Table, schedule_process, ppn_entry, schedule_loop, is_waiting,
}
use bb6502_verilog.Kernel.Process.Schedule.{IsNext, schedule_process-IsNext}
use bb6502_verilog.Kernel.UserMemory.{u_ptr}
use bb6502_verilog.Kernel.UserMemory.Translate.{user, u_ptr-ram_addr}

abbrev process_in : ℕ → ℕ → Process
process_in state base = record {
  state = state;
  exit_code = 0;
  lba = 200;
  nblocks = 1;
  sp = 0xfc;
  mmu_ppn_table = ppn_entry base;
}

-- Process 2 runs, and process 1 waits.
abbrev demo_table : Table
demo_table = record {
  plist = process_in 0 1 ∷ (process_in 1 3 ∷ (process_in 2 5 ∷ []));
  nprocs = 3;
  plist_idx = 2;
}

schedule_process-IsNext_example : IsNext 3 1 demo_table (schedule_process demo_table)
schedule_process-IsNext_example = schedule_process-IsNext demo_table

test_schedule : (schedule_process demo_table).plist_idx ≡ 1
unfolding schedule_process schedule_loop is_waiting
test_schedule = refl

abbrev user_mmu : Mmu
user_mmu = record { ppn = ppn_entry 3; u_bits = λ _. 255; w_bits = λ _. 255; kernel = false }

-- In the handler of a system call of a process whose page k is page 31 - k of the RAM.
abbrev in_call : Machine
in_call = record {
  ram = λ i. i % 256;
  rom = λ _. 0;
  mmu = record { ppn = λ k. (63 - k) % 32; u_bits = λ _. 255; w_bits = λ _. 255; kernel = true };
  acia = record { rx_data = 0; rx_valid = false; tx_ready = true; tx_count = 0; sent = [] };
  gpu_sent = [];
  disk = record {
    lba = 0;
    buf = λ _. 0;
    dptr = 0;
    busy = false;
    err = false;
    pos = 0;
    image = none;
  };
}

u_ptr-ram_addr_example : u_ptr in_call 0x1234 ≡ ram_addr (user in_call.mmu) 0x1234
u_ptr-ram_addr_example = u_ptr-ram_addr in_call 0x1234 λ i. omega arith

-- The same machine with a disk image.
abbrev with_disk : Machine
with_disk = record in_call { disk = record in_call.disk { image = some λ i. i % 251 } }

-- The kernel's pointers, with zp_ptr at the start of its zero page.
abbrev pub pointers : ZeroPage
pointers = record {
  zp_ptr = 0x00;
  ptr1 = 0x0a;
  ptr2 = 0x0c;
  zp_ptr_in = omega arith;
  ptr1_in = omega arith;
  ptr2_in = omega arith;
  disjoint = inl (omega arith);
}

block_read-block_write_example :
    (m1 m2 : Machine) × (block_write 200 0x7300 with_disk ≡ some (0, m1))
    × (block_read pointers 200 0x1000 m1 ≡ some (0, m2))
    × ((a : ℕ)
        → 0x1000 ≤ a
        → a < 0x7d00
        → m2.ram a ≡ (
            if leb 0x1000 a && ltb a (0x1000 + 512)
            then with_disk.ram (0x7300 + (a - 0x1000))
            else with_disk.ram a))
block_read-block_write_example =
    block_read-block_write pointers 200 0x7300 0x1000 (λ i. i % 251) with_disk refl refl
      (omega arith) (omega arith) (omega arith) (omega arith) (omega arith) (omega arith)
