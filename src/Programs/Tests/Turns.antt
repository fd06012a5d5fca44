-- ===== src/Programs/Tests/Turns.antt =====
-- A program that calls sys_yield, and another process that waits for its turn.
use bb6502_verilog.Common.{ℕ, zero, suc, ◌%◌, ◌<◌, ◌≡◌, ◌≢◌, refl, none, some, [], ◌∷◌, arith}
use bb6502_verilog.Machine.Mmu.{ram_addr}
use bb6502_verilog.Machine.Bus.{data_in}
use bb6502_verilog.Clib.Chars.{text}
use bb6502_verilog.Kernel.UserMemory.Translate.{in_user}
use bb6502_verilog.Kernel.Process.{Process, waiting}
use bb6502_verilog.Kernel.Spawn.{unused, process_at}
use bb6502_verilog.Kernel.Switch.{Running, running, do_yield}
use bb6502_verilog.Kernel.Switch.Saved.{IsPaged, IsReady}
use bb6502_verilog.Kernel.Switch.Rounds.{stay, run}
use bb6502_verilog.Kernel.Entry.{Cpu, in_kernel}
use bb6502_verilog.Kernel.Entry.Stack.{IsUsable, IsStub}
use bb6502_verilog.Kernel.Entry.Yield.{enter_yield, leave}
use bb6502_verilog.Kernel.Entry.Resumes.{in_process, at_yield, sys_yield-resumes}
use bb6502_verilog.Programs.Disktest.{at_call}
use bb6502_verilog.Programs.Tests.{process, slow, disktest, registers-IsCpu, process-IsUsable}

abbrev entry : ℕ → Process
entry state = record unused { state = state; sp = 0xfc; mmu_ppn_table = λ k. k % 32 }

-- The program is process 0 of two.
abbrev two : Running
two = record {
  system = record {
    machine = in_kernel (process none);
    table = record {
      plist = entry running ∷ (entry waiting ∷ (unused ∷ (unused ∷ [])));
      nprocs = 2;
      plist_idx = 0;
    };
  };
  sp = 0xf0;
}

two_waits : (i : ℕ) → i < 2 → 0 ≢ i → (process_at two.system.table i).state ≡ waiting
two_waits zero h other = absurd (other refl)
two_waits (suc zero) h other = refl
two_waits (suc (suc i)) h other = absurd (omega arith)

two_tables : (i : ℕ) → i < 2 → IsPaged (process_at two.system.table i).mmu_ppn_table
two_tables zero h j low = omega arith
two_tables (suc zero) h j low = omega arith
two_tables (suc (suc i)) h j low = absurd (omega arith)

two-IsReady : IsReady two
two-IsReady = record {
  size = refl;
  few = omega arith;
  current = omega arith;
  waits = two_waits;
  tables = two_tables;
  paged = λ j h. omega arith;
  kernel = refl;
}

two-IsUsable : IsUsable two.system.machine
two-IsUsable =
    let u = process-IsUsable none in record { table = u.table; bytes = u.bytes; own = u.own }

yield-IsStub : IsStub 0 0x1250 two.system.machine
unfolding data_in ram_addr text
yield-IsStub = record { number = refl; page = (omega arith, omega arith) }

abbrev yielding : Cpu
yielding = at_call disktest 0 0x1250

-- The other process in its turn, when it has used its stack and left the RAM as it found it.
abbrev other_turn : Running
other_turn = record {
  system = record (do_yield (at_yield yielding two)).system {
    machine = record (do_yield (at_yield yielding two)).system.machine {
      ram = (at_yield yielding two).system.machine.ram;
    };
  };
  sp = 0x80;
}

sys_yield-resumes_example :
    (enter_yield slow yielding (in_process two) ≡ some (at_yield yielding two))
    × ((do_yield other_turn).system.table.plist_idx ≡ 0)
    × (leave (do_yield other_turn) ≡ (0x1252, in_user (do_yield other_turn).system.machine))
sys_yield-resumes_example =
    sys_yield-resumes slow yielding two 0 other_turn two-IsReady two-IsUsable
      (registers-IsCpu 0x1250 (omega arith) 0) yield-IsStub refl
      (run 0 (do_yield (at_yield yielding two)) other_turn stay
        (record { table = refl; mmu = refl }))
      λ j low high. refl
