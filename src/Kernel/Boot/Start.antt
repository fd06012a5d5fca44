-- ===== src/Kernel/Boot/Start.antt =====
-- main as a whole.

use bb6502_verilog.Common.{ℕ, ◌<◌, ◌≡◌, ◌∙◌, ap, true, some, List, arith}
use bb6502_verilog.Common.Maybe.{◌>>=◌}
use bb6502_verilog.Machine.Bus.{Machine, Acia}
use bb6502_verilog.Machine.Ram.{with_ppn}
use bb6502_verilog.Kernel.Block.{block_read}
use bb6502_verilog.Kernel.Block.Read.{block_read_lem}
use bb6502_verilog.Kernel.Spawn.{Image, System}
use bb6502_verilog.Kernel.Switch.{Running, sched_start}
use bb6502_verilog.Kernel.Boot.{
  launched, install_handler, map_identity, check_signature, load, loading_hello, loading_hello2,
  loading_disktest, starting, start_scheduler, after_boot_sector, main,
}
use bb6502_verilog.Kernel.Boot.Steps.{
  install_handler_lem, map_identity_lem, IsBooting, printed, IsProgram, IsHigh,
}
use bb6502_verilog.Kernel.Boot.Wave.{IsWave, load-IsWave}
use bb6502_verilog.Kernel.Boot.Launch.{IsLaunched, sched_start-IsLaunched, IsWave-ports}

start_lem :
    (im : Image) (img : ℕ → ℕ) (s : System)
    → IsHigh im
    → IsBooting img s
    → IsWave img 3 s
    → (r : Running) × (start_scheduler im s ≡ some (launched r)) × IsLaunched img r
unfolding start_scheduler
start_lem im img s high boots wave =
    let (a, g, done, now) = printed im img starting s high.clocks boots in
    let s1 = record s { machine = record s.machine { acia = a; gpu_sent = g } } in
    (
      sched_start s1,
      ap (λ o. o >>= λ m. some (launched (sched_start (record s { machine = m })))) done,
      sched_start-IsLaunched img s1 now (IsWave-ports img 3 a g s wave),
    )

-- The signature's text keeps the kernel's state.
signature_lem :
    (im : Image) (img : ℕ → ℕ) (s : System)
    → 0 < im.clocks
    → IsBooting img s
    → (a : Acia) × (g : List ℕ) × (check_signature im s.machine
        ≡ some (record s.machine { acia = a; gpu_sent = g }))
      × IsBooting img (record s { machine = record s.machine { acia = a; gpu_sent = g } })
unfolding check_signature
signature_lem im img s clocks boots = printed im img _ s clocks boots

-- The programs at blocks 200, 210 and 220.
abbrev pub HasPrograms : (ℕ → ℕ) → Type 0
HasPrograms img = IsProgram img 200 × IsProgram img 210 × IsProgram img 220

programs_lem :
    (im : Image) (img : ℕ → ℕ) (s : System)
    → IsHigh im
    → IsBooting img s
    → s.table.nprocs ≡ 0
    → HasPrograms img
    → (r : Running) × ((load im loading_hello 200 1 s
          >>= load im loading_hello2 210 3
          >>= load im loading_disktest 220 5
          >>= start_scheduler im)
        ≡ some (launched r))
      × IsLaunched img r
programs_lem im img s high boots none_yet (hello, hello2, disktest) =
    let empty : IsWave img 0 s = record { count = none_yet; each = λ i h. absurd (omega arith) } in
    let (s1, one, boots1, wave1) =
      load-IsWave im img loading_hello 0 s high boots hello (omega arith) empty in
    let (s2, two, boots2, wave2) =
      load-IsWave im img loading_hello2 1 s1 high boots1 hello2 (omega arith) wave1 in
    let (s3, three, boots3, wave3) =
      load-IsWave im img loading_disktest 2 s2 high boots2 disktest (omega arith) wave2 in
    let (r, started, launch) = start_lem im img s3 high boots3 wave3 in
    (
      r,
      ap
            (λ o.
              o
              >>= load im loading_hello2 210 3
              >>= load im loading_disktest 220 5
              >>= start_scheduler im)
            one
          ∙ ap (λ o. o >>= load im loading_disktest 220 5 >>= start_scheduler im) two
          ∙ ap (λ o. o >>= start_scheduler im) three
          ∙ started,
      launch,
    )

-- The kernel before the read of the boot sector.
before_lem :
    (h : ℕ) (m : Machine)
    → m.mmu.kernel ≡ true
    → (r f : ℕ → ℕ) × (map_identity 32 0 (install_handler h m) ≡ with_ppn f (record m { ram = r }))
before_lem h m kernel =
    let (r, stored) = install_handler_lem h m kernel in
    let (f, mapped) = map_identity_lem 32 0 (record m { ram = r }) (omega arith) kernel in
    (r, f, ap (map_identity 32 0) stored ∙ mapped)

after_ok :
    (im : Image) (img : ℕ → ℕ) (s : System) (m : Machine)
    → IsHigh im
    → IsBooting img (record s { machine = m })
    → s.table.nprocs ≡ 0
    → HasPrograms img
    → (r : Running) × (after_boot_sector im s (0, m) ≡ some (launched r)) × IsLaunched img r
unfolding after_boot_sector
after_ok im img s m high boots none_yet programs =
    let (a, g, done, now) = signature_lem im img (record s { machine = m }) high.clocks boots in
    let s1 = record s { machine = record m { acia = a; gpu_sent = g } } in
    let (r, ran, launch) = programs_lem im img s1 high now none_yet programs in
    (
      r,
      ap
            (λ o. o >>= λ m1.
              load im loading_hello 200 1 (record s { machine = m1 })
              >>= load im loading_hello2 210 3
              >>= load im loading_disktest 220 5
              >>= start_scheduler im)
            done
          ∙ ran,
      launch,
    )

-- The kernel's main, in kernel mode with an empty process table, a buffer in the last 4 KB of the RAM
-- and a disk with a program of one block at each of the blocks 200, 210 and 220, starts the scheduler:
-- three processes are there, process 0 runs and the others wait, and each of the three finds its own
-- program at $1000 and the frame of its first RTI on its stack; the MMU and the stack pointer are those
-- of process 0.
pub main-IsLaunched :
    (im : Image) (brk_handler : ℕ) (img : ℕ → ℕ) (s : System)
    → IsHigh im
    → IsBooting img s
    → s.table.nprocs ≡ 0
    → HasPrograms img
    → (r : Running) × (main im brk_handler s ≡ some (launched r)) × IsLaunched img r
unfolding main
main-IsLaunched im brk_handler img s high boots none_yet programs =
    let (r0, f, before) = before_lem brk_handler s.machine boots.kernel in
    let m1 = with_ppn f (record s.machine { ram = r0 }) in
    let (r1, d, read, image, at, cells, variables) =
      block_read_lem im.zero_page 0 im.block_buf img m1 boots.kernel boots.image (omega arith)
        boots.lba_small (omega (arith, high.from)) high.below in
    let m2 = record m1 { ram = r1; disk = d } in
    let (r, ran, launch) =
      after_ok im img s m2 high
        (record {
          kernel = boots.kernel;
          image = image;
          lba_small = omega (arith, at);
          counts = boots.counts;
          size = boots.size;
        })
        none_yet programs in
    (
      r,
      ap (λ m. block_read im.zero_page 0 im.block_buf m >>= after_boot_sector im s) before
          ∙ ap (λ o. o >>= after_boot_sector im s) read
          ∙ ran,
      launch,
    )
