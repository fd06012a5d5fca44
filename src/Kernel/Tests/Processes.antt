-- ===== src/Kernel/Tests/Processes.antt =====
-- The start of programs, the header check, the context switch and the boot at a disk of programs.
use bb6502_verilog.Machine.Bus.{data_in}
use bb6502_verilog.Kernel.Bbx.{header_word, report, check_header}
use bb6502_verilog.Kernel.Bbx.Accepted.{check_header-Spawned}
use bb6502_verilog.Common.{
  get_or, ◌*◌, ◌+◌, ◌^◌, List, ℕ, zero, suc, ◌%◌, ◌<◌, ◌≤◌, ◌≡◌, ◌≢◌, refl, [], ◌∷◌, some, inl, inr,
  ◌==◌, if◌then◌else◌, arith,
}
use bb6502_verilog.Kernel.Process.{waiting, ppn_entry}
use bb6502_verilog.Kernel.Process.Pages.{phys-block, ppn_entry_lem}
use bb6502_verilog.Kernel.Spawn.Place.{place, IsOwn}
use bb6502_verilog.Kernel.Tests.{pointers, in_call, process_in}
use bb6502_verilog.Kernel.Spawn.{Image, System, process_at, unused, bad_magic, spawn_bbx}
use bb6502_verilog.Kernel.Spawn.Started.{in_process, Spawned, spawn_bbx-Spawned}
use bb6502_verilog.Kernel.Spawn.Refused.{IsRefused, no_magic, spawn_bbx-IsRefused}
use bb6502_verilog.Kernel.Switch.{Running}
use bb6502_verilog.Kernel.Switch.Saved.{IsPaged, IsReady}
use bb6502_verilog.Kernel.Switch.Rounds.{Trace, Trace-reaches}
use bb6502_verilog.Kernel.Boot.{launched, main}
use bb6502_verilog.Kernel.Boot.Launch.{IsLaunched}
use bb6502_verilog.Kernel.Boot.Start.{main-IsLaunched}

abbrev kernel_image : Image
kernel_image = record { zero_page = pointers; block_buf = 0x7300; clocks = 4 }

-- A disk with the magic at the start of each block.
abbrev programs : ℕ → ℕ
programs i = if i % 512 == 0 then 0x42 else if i % 512 == 1 then 0x58 else i % 256

programs_small : (i : ℕ) → programs i < 256
programs_small i = ground arith

abbrev at_boot : (ℕ → ℕ) → System
at_boot img = record {
  machine = record in_call { disk = record in_call.disk { image = some img } };
  table = record {
    plist = unused ∷ (unused ∷ (unused ∷ (unused ∷ [])));
    nprocs = 0;
    plist_idx = 0;
  };
}

main-IsLaunched_example :
    (r : Running) × (main kernel_image 0x0400 (at_boot programs) ≡ some (launched r))
    × IsLaunched programs r
main-IsLaunched_example =
    main-IsLaunched kernel_image 0x0400 programs (at_boot programs)
      (record { clocks = omega arith; from = omega arith; below = omega arith })
      (record {
        kernel = refl;
        image = refl;
        lba_small = omega arith;
        counts = omega arith;
        size = refl;
      })
      refl
      (
        record { bytes = programs_small; magic0 = refl; magic1 = refl },
        record { bytes = programs_small; magic0 = refl; magic1 = refl },
        record { bytes = programs_small; magic0 = refl; magic1 = refl },
      )

places_off_kernel : (va : ℕ) → IsOwn 2 va → (0x1000 ≤ place 3 va) × (place 3 va < 0x7000)
places_off_kernel va (inl (from, below)) =
    (omega (arith, phys-block 3 va), omega (arith, phys-block 3 va))
places_off_kernel va (inr (from, below)) =
    (omega (arith, phys-block 3 va), omega (arith, phys-block 3 va))

spawn_bbx-Spawned_example :
    (s' : System) × (spawn_bbx kernel_image 200 2 3 (at_boot programs) ≡ some (0, s'))
    × Spawned kernel_image 200 2 3 programs (at_boot programs) s'
spawn_bbx-Spawned_example =
    spawn_bbx-Spawned kernel_image 200 2 3 programs (at_boot programs)
      (record {
        fits = omega arith;
        on_disk = omega arith;
        buf_from = omega arith;
        buf_low = omega arith;
        off_kernel = places_off_kernel;
      })
      (record {
        kernel = refl;
        image = refl;
        lba_small = omega arith;
        bytes = programs_small;
        magic0 = refl;
        magic1 = refl;
      })
      (omega arith) refl

-- The file of the program at block 200, as far as its header goes: the load address $0302 and the
-- entry $0504.
abbrev program_file : List ℕ
program_file = 0x42 ∷ (0x58 ∷ (2 ∷ (3 ∷ (4 ∷ (5 ∷ [])))))

program_on_disk : (i : ℕ) → i < 6 → programs (200 * 512 + i) ≡ get_or program_file i 0
program_on_disk zero h = refl
program_on_disk (suc zero) h = refl
program_on_disk (suc (suc zero)) h = refl
program_on_disk (suc (suc (suc zero))) h = refl
program_on_disk (suc (suc (suc (suc zero)))) h = refl
program_on_disk (suc (suc (suc (suc (suc zero))))) h = refl
program_on_disk (suc (suc (suc (suc (suc (suc i)))))) h = absurd (omega arith)

program_accepted : (check_header program_file).code ≡ 0
unfolding check_header
program_accepted = refl

check_header-Spawned_example :
    (s' : System) × (spawn_bbx kernel_image 200 2 3 (at_boot programs) ≡ some (0, s'))
    × Spawned kernel_image 200 2 3 programs (at_boot programs) s'
    × ((check_header program_file).out
        ≡ report (header_word program_file 2 3) (
            data_in 0x1ff (in_process (process_at s'.table 0) s'.machine) * 2 ^ 8
            + data_in 0x1fe (in_process (process_at s'.table 0) s'.machine)))
check_header-Spawned_example =
    check_header-Spawned kernel_image 200 2 3 programs (at_boot programs) program_file
      program_accepted program_on_disk programs_small
      (record {
        fits = omega arith;
        on_disk = omega arith;
        buf_from = omega arith;
        buf_low = omega arith;
        off_kernel = places_off_kernel;
      })
      refl refl (omega arith) (omega arith) refl

-- A disk without a program.
abbrev blank : ℕ → ℕ
blank i = i % 251

spawn_bbx-IsRefused_example :
    (s' : System) × (spawn_bbx kernel_image 200 1 1 (at_boot blank) ≡ some (2, s'))
    × IsRefused (at_boot blank) bad_magic s'
spawn_bbx-IsRefused_example =
    spawn_bbx-IsRefused kernel_image 200 1 1 2 bad_magic (at_boot blank) (omega arith) (omega arith)
      refl (omega arith) (omega arith) (omega arith) (omega arith)
      (no_magic blank (omega arith) refl (omega arith) (inl λ e. omega arith))

-- Process 0 runs, and processes 1 and 2 wait.
abbrev round : Running
round = record {
  system = record {
    machine = in_call;
    table = record {
      plist = process_in 2 1 ∷ (process_in 1 3 ∷ (process_in 1 5 ∷ (unused ∷ [])));
      nprocs = 3;
      plist_idx = 0;
    };
  };
  sp = 0xf0;
}

entry_small : (base j : ℕ) → ppn_entry base j < 32
entry_small base j = omega (arith, ppn_entry_lem base j)

round_waits : (i : ℕ) → i < 3 → 0 ≢ i → (process_at round.system.table i).state ≡ waiting
round_waits zero h other = absurd (other refl)
round_waits (suc zero) h other = refl
round_waits (suc (suc zero)) h other = refl
round_waits (suc (suc (suc i))) h other = absurd (omega arith)

round_tables : (i : ℕ) → i < 3 → IsPaged (process_at round.system.table i).mmu_ppn_table
round_tables zero h j low = entry_small 1 j
round_tables (suc zero) h j low = entry_small 3 j
round_tables (suc (suc zero)) h j low = entry_small 5 j
round_tables (suc (suc (suc i))) h j low = absurd (omega arith)

round-IsReady : IsReady round
round-IsReady = record {
  size = refl;
  few = omega arith;
  current = omega arith;
  waits = round_waits;
  tables = round_tables;
  paged = λ j h. omega arith;
  kernel = refl;
}

Trace-reaches_example :
    (k : ℕ) × (0 < k)
    × (k ≤ 3)
    × ((r' : Running) → Trace round k r' → r'.system.table.plist_idx ≡ 2)
Trace-reaches_example = Trace-reaches round 2 round-IsReady (omega arith)
