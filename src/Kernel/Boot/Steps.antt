-- ===== src/Kernel/Boot/Steps.antt =====
-- The parts of main: the stores before the boot sector, and one program.
use bb6502_verilog.Common.{
  ℕ, zero, suc, ◌+◌, ◌*◌, ◌^◌, ◌<◌, ◌≤◌, ◌≡◌, inl, inr, refl, ◌∙◌, ap, true, Option, some, List,
  length, arith,
}
use bb6502_verilog.Common.Bits.{shr, u8}
use bb6502_verilog.Common.Maybe.{◌>>=◌}
use bb6502_verilog.Machine.Mmu.{Mmu, update}
use bb6502_verilog.Machine.Bus.{Machine, Acia, bus_write}
use bb6502_verilog.Machine.Ram.{with_ppn, bus_write-kernel, bus_write-ppn}
use bb6502_verilog.Kernel.Process.Pages.{phys-block}
use bb6502_verilog.Kernel.Console.{k_print}
use bb6502_verilog.Kernel.Console.Output.{Counts, k_print-frame}
use bb6502_verilog.Kernel.Spawn.{Image, System, spawn_bbx}
use bb6502_verilog.Kernel.Spawn.Place.{place, IsOwn, IsLoadable}
use bb6502_verilog.Kernel.Spawn.Started.{Spawned, spawn_bbx-Spawned}
use bb6502_verilog.Kernel.Boot.{install_handler, map_identity, load}

-- The stores change the RAM and the page table only.
pub install_handler_lem :
    (h : ℕ) (m : Machine)
    → m.mmu.kernel ≡ true
    → (r : ℕ → ℕ) × (install_handler h m ≡ record m { ram = r })
unfolding install_handler
install_handler_lem h m kernel =
    let m1 = record m { ram = update m.ram 0xfe (u8 h) } in
    (
      update m1.ram 0xff (u8 (shr h 8)),
      ap (bus_write 0xff (u8 (shr h 8))) (bus_write-kernel 0xfe (u8 h) m (omega arith) kernel)
          ∙ bus_write-kernel 0xff (u8 (shr h 8)) m1 (omega arith) kernel,
    )

pub map_identity_lem :
    (n i : ℕ) (m : Machine)
    → i + n ≤ 32
    → m.mmu.kernel ≡ true
    → (f : ℕ → ℕ) × (map_identity n i m ≡ with_ppn f m)
unfolding map_identity
map_identity_lem zero i m h kernel = (m.mmu.ppn, refl)
map_identity_lem (suc n) i m h kernel =
    let (f, all) =
      map_identity_lem n (i + 1) (with_ppn (update m.mmu.ppn i i) m) (omega arith) kernel in
    (f, ap (map_identity n (i + 1)) (bus_write-ppn i i m (omega arith) kernel (omega arith)) ∙ all)

-- The kernel between the parts of main.
pub record IsBooting (img : ℕ → ℕ) (s : System) : Type 0 where
  pub kernel : s.machine.mmu.kernel ≡ true
  pub image : s.machine.disk.image ≡ some img
  pub lba_small : s.machine.disk.lba < 2 ^ 32
  pub counts : Counts s.machine
  pub size : length s.table.plist ≡ 4

-- A printed text keeps it so.
pub printed :
    (im : Image) (img : ℕ → ℕ) (cs : List ℕ) (s : System)
    → 0 < im.clocks
    → IsBooting img s
    → (a : Acia) × (g : List ℕ) × (k_print im.clocks cs s.machine
        ≡ some (record s.machine { acia = a; gpu_sent = g }))
      × IsBooting img (record s { machine = record s.machine { acia = a; gpu_sent = g } })
printed im img cs s clocks boots =
    let (a, g, done, few, acia, gpu) = k_print-frame im.clocks cs s.machine clocks boots.counts in
    (
      a,
      g,
      done,
      record {
        kernel = boots.kernel;
        image = boots.image;
        lba_small = boots.lba_small;
        counts = few;
        size = boots.size;
      },
    )

-- A program of one block at `lba`.
pub record IsProgram (img : ℕ → ℕ) (lba : ℕ) : Type 0 where
  pub bytes : (i : ℕ) → img i < 256
  pub magic0 : img (lba * 512) ≡ 0x42
  pub magic1 : img (lba * 512 + 1) ≡ 0x58

-- A kernel's buffer in the last 4 KB of the RAM.
pub record IsHigh (im : Image) : Type 0 where
  pub clocks : 0 < im.clocks
  pub from : 0x7000 ≤ im.block_buf
  pub below : im.block_buf + 512 ≤ 2 ^ 15

-- The places of a program of one block in the users' part of the RAM.
pub place_in :
    (b va : ℕ) → 1 ≤ b → b ≤ 5 → IsOwn 1 va → (0x1000 ≤ place b va) × (place b va < 0x7000)
place_in b va h k (inl (from, below)) =
    (omega (arith, phys-block b va), omega (arith, phys-block b va))
place_in b va h k (inr (from, below)) =
    (omega (arith, phys-block b va), omega (arith, phys-block b va))

loadable :
    (im : Image) (lba base : ℕ)
    → IsHigh im
    → lba < 1000
    → 1 ≤ base
    → base ≤ 5
    → IsLoadable im lba 1 base
loadable im lba base high small user low = record {
  fits = omega arith;
  on_disk = omega arith;
  buf_from = high.from;
  buf_low = high.below;
  off_kernel = λ va own. place_in base va user low own;
}

-- One program: the kernel's state and the process table behind it.
pub load_lem :
    (im : Image) (img : ℕ → ℕ) (name : List ℕ) (lba base : ℕ) (s : System)
    → IsHigh im
    → IsBooting img s
    → IsProgram img lba
    → lba < 1000
    → 1 ≤ base
    → base ≤ 5
    → s.table.nprocs < 4
    → (s1 s' : System) × (load im name lba base s ≡ some s')
      × (s1.machine.ram ≡ s.machine.ram)
      × (s1.table ≡ s.table)
      × Spawned im lba 1 base img s1 s'
      × IsBooting img s'
unfolding load
load_lem im img name lba base s high boots prog small user low room =
    let (a, g, done, now) = printed im img name s high.clocks boots in
    let s1 = record s { machine = record s.machine { acia = a; gpu_sent = g } } in
    let (s', spawned, what) =
      spawn_bbx-Spawned im lba 1 base img s1 (loadable im lba base high small user low)
        (record {
          kernel = boots.kernel;
          image = boots.image;
          lba_small = boots.lba_small;
          bytes = prog.bytes;
          magic0 = prog.magic0;
          magic1 = prog.magic1;
        })
        room boots.size in
    (
      s1,
      s',
      ap (λ o. o >>= λ m. spawn_bbx im lba 1 base (record s { machine = m }) >>= λ p. some p.1) done
          ∙ ap (λ (o : Option (ℕ × System)). o >>= λ p. some p.1) spawned,
      refl,
      refl,
      what,
      record {
        kernel = ap (λ (u : Mmu). u.kernel) what.mmu ∙ boots.kernel;
        image = what.image;
        lba_small = what.lba_small;
        counts = rw what.acia now.counts;
        size = what.size ∙ boots.size;
      },
    )
