-- ===== src/Kernel/Spawn/Refused.antt =====
-- The returns of spawn_bbx with an error.
use bb6502_verilog.Common.{
  ℕ, ◌+◌, ◌*◌, ◌^◌, ◌<◌, ◌≤◌, ◌≡◌, ◌≢◌, ◌⊎◌, inl, inr, refl, ◌∙◌, ap, true, false, leb, ◌==◌,
  Option, some, none, List, ◌++◌, get_or-set_ne, sym, Bool-cases, arith,
}
use bb6502_verilog.Common.Bits.{u32}
use bb6502_verilog.Common.Maybe.{◌>>=◌}
use bb6502_verilog.Machine.Bus.{Machine}
use bb6502_verilog.Machine.Ram.{data_in-kernel}
use bb6502_verilog.Kernel.Block.{block_read}
use bb6502_verilog.Kernel.Block.Read.{block_read_lem, block_read_err}
use bb6502_verilog.Kernel.Console.Output.{Counts, k_print-frame}
use bb6502_verilog.Kernel.Spawn.Load.{inside_lem}
use bb6502_verilog.Kernel.Spawn.{
  Image, System, process_at, unused, give_up, too_many, read_fail, bad_magic, buf_byte, load_image,
  register, spawn_bbx, with_table,
}

-- Why spawn_bbx refuses a program, with its result and its message.
pub data Refusal (lba : ℕ) (s : System) : ℕ → List ℕ → Type 0 where
  no_room : 4 ≤ s.table.nprocs → Refusal lba s 1 too_many
  no_disk : s.table.nprocs < 4 → s.machine.disk.image ≡ none → Refusal lba s 1 read_fail
  no_magic :
      (img : ℕ → ℕ)
      → s.table.nprocs < 4
      → s.machine.disk.image ≡ some img
      → lba < 2 ^ 22
      → (img (lba * 512) ≢ 0x42) ⊎ (img (lba * 512 + 1) ≢ 0x58)
      → Refusal lba s 2 bad_magic

give_up_lem :
    (clocks code : ℕ) (message : List ℕ) (m : Machine)
    → 0 < clocks
    → Counts m
    → (m' : Machine) × (give_up clocks code message m ≡ some (code, m'))
      × (m'.acia.sent ≡ m.acia.sent ++ message)
      × (m'.gpu_sent ≡ m.gpu_sent ++ message)
unfolding give_up
give_up_lem clocks code message m h few =
    let (a, g, printed, count, acia, gpu) = k_print-frame clocks message m h few in
    (
      record m { acia = a; gpu_sent = g },
      ap (λ (o : Option Machine). o >>= λ m'. some (code, m')) printed,
      acia,
      gpu,
    )

-- What a refusal leaves: no process more, and the entries of the others.
pub record IsRefused (s : System) (message : List ℕ) (s' : System) : Type 0 where
  pub count : s'.table.nprocs ≡ s.table.nprocs
  pub others : (i : ℕ) → s.table.nprocs ≢ i → process_at s'.table i ≡ process_at s.table i
  pub acia : s'.machine.acia.sent ≡ s.machine.acia.sent ++ message
  pub gpu : s'.machine.gpu_sent ≡ s.machine.gpu_sent ++ message

-- The result of what follows the page table, when it is an error.
IsRefused-late :
    (im : Image) (lba nblocks base code : ℕ) (message : List ℕ) (s : System) (m' : Machine)
    → s.table.nprocs < 4
    → (code == 0) ≡ false
    → (block_read im.zero_page lba im.block_buf s.machine
        >>= load_image im
            (process_at (with_table base s.table) s.table.nprocs).mmu_ppn_table
            lba
            nblocks)
      ≡ some (code, m')
    → m'.acia.sent ≡ s.machine.acia.sent ++ message
    → m'.gpu_sent ≡ s.machine.gpu_sent ++ message
    → (s' : System) × (spawn_bbx im lba nblocks base s ≡ some (code, s')) × IsRefused s message s'
unfolding spawn_bbx register
IsRefused-late im lba nblocks base code message s m' room bad result acia gpu =
    let few : leb 4 s.table.nprocs ≡ false = ground arith in
    (
      record { machine = m'; table = with_table base s.table },
      rw few (ap (λ o. o >>= register lba nblocks (with_table base s.table)) result ∙ rw bad refl),
      record {
        count = refl;
        others = λ i other. get_or-set_ne s.table.plist s.table.nprocs i _ unused other;
        acia = acia;
        gpu = gpu;
      },
    )

image_failed :
    (im : Image) (ppn : ℕ → ℕ) (lba nblocks : ℕ) (m : Machine)
    → load_image im ppn lba nblocks (1, m) ≡ give_up im.clocks 1 read_fail m
unfolding load_image
image_failed im ppn lba nblocks m = refl

image_bad :
    (im : Image) (ppn : ℕ → ℕ) (lba nblocks : ℕ) (m : Machine)
    → (buf_byte im 0 m ≢ 0x42) ⊎ (buf_byte im 1 m ≢ 0x58)
    → load_image im ppn lba nblocks (0, m) ≡ give_up im.clocks 2 bad_magic m
unfolding load_image
image_bad im ppn lba nblocks m (inl first) =
    let test : (buf_byte im 0 m == 0x42) ≡ false = ground arith in rw (load_image, test) refl
image_bad im ppn lba nblocks m (inr second) =
    let test : (buf_byte im 1 m == 0x58) ≡ false = ground arith in
    elim (Bool-cases (buf_byte im 0 m == 0x42)) [
      | inl e ↦ rw (load_image, e, test) refl
      | inr e ↦ rw (load_image, e) refl
    ]

IsRefused-full :
    (im : Image) (lba nblocks base : ℕ) (s : System)
    → 0 < im.clocks
    → Counts s.machine
    → 4 ≤ s.table.nprocs
    → (s' : System) × (spawn_bbx im lba nblocks base s ≡ some (1, s')) × IsRefused s too_many s'
unfolding spawn_bbx
IsRefused-full im lba nblocks base s clocks few full =
    let (m', gave, acia, gpu) = give_up_lem im.clocks 1 too_many s.machine clocks few in
    let test : leb 4 s.table.nprocs ≡ true = ground arith in
    (
      record s { machine = m' },
      rw test (
          ap (λ (o : Option (ℕ × Machine)). o >>= λ p. some (p.0, record s { machine = p.1 }))
            gave),
      record { count = refl; others = λ i other. refl; acia = acia; gpu = gpu },
    )

-- spawn_bbx returns an error, and says why on both ports, if the process table is full (1), if the
-- disk cannot be read (1), and if the first two bytes of a block below 2 ^ 22 are not the magic (2);
-- the kernel's buffer is off its zero page's variables. Then there is no process more, and the other entries of the table are as they were.
pub spawn_bbx-IsRefused :
    (im : Image) (lba nblocks base code : ℕ) (message : List ℕ) (s : System)
    → 0 < im.clocks
    → Counts s.machine
    → s.machine.mmu.kernel ≡ true
    → s.machine.disk.lba < 2 ^ 32
    → 0x20 ≤ im.block_buf
    → im.block_buf + 512 ≤ 2 ^ 15
    → lba < 2 ^ 23
    → Refusal lba s code message
    → (s' : System) × (spawn_bbx im lba nblocks base s ≡ some (code, s')) × IsRefused s message s'
spawn_bbx-IsRefused im lba nblocks base _ _ s clocks few kernel old from low small (no_room full) =
    IsRefused-full im lba nblocks base s clocks few full
spawn_bbx-IsRefused im lba nblocks base _ _ s clocks few kernel old from low small
      (no_disk room closed) =
    let ppn = (process_at (with_table base s.table) s.table.nprocs).mmu_ppn_table in
    let (d, read) =
      block_read_err im.zero_page lba im.block_buf s.machine closed (omega arith) old in
    let m1 = record s.machine { disk = d } in
    let (m', gave, acia, gpu) = give_up_lem im.clocks 1 read_fail m1 clocks few in
    IsRefused-late im lba nblocks base 1 read_fail s m' room refl
      (ap (λ o. o >>= load_image im ppn lba nblocks) read
        ∙ image_failed im ppn lba nblocks m1
        ∙ gave)
      acia gpu
spawn_bbx-IsRefused im lba nblocks base _ _ s clocks few kernel old from low small
      (no_magic img room disk near bad) =
    let ppn = (process_at (with_table base s.table) s.table.nprocs).mmu_ppn_table in
    let (r, d, read, image, at, cells, variables) =
      block_read_lem im.zero_page lba im.block_buf img s.machine kernel disk near old from low in
    let m1 = record s.machine { ram = r; disk = d } in
    let (m', gave, acia, gpu) = give_up_lem im.clocks 2 bad_magic m1 clocks few in
    let pos : u32 (lba * 512) ≡ lba * 512 = omega arith in
    let byte : (i : ℕ) → i < 512 → buf_byte im i m1 ≡ img (lba * 512 + i) = λ i h.
      data_in-kernel m1 (im.block_buf + i) kernel (omega arith)
      ∙ cells (im.block_buf + i) (omega arith)
      ∙ inside_lem im.block_buf i (lba * 512) img s.machine.ram h pos in
    let wrong : (buf_byte im 0 m1 ≢ 0x42) ⊎ (buf_byte im 1 m1 ≢ 0x58) = elim bad [
      | inl first ↦ inl λ e. first (ap img (omega arith) ∙ sym (byte 0 (omega arith)) ∙ e)
      | inr second ↦ inr λ e. second (sym (byte 1 (omega arith)) ∙ e)
    ] in
    IsRefused-late im lba nblocks base 2 bad_magic s m' room refl
      (ap (λ o. o >>= load_image im ppn lba nblocks) read
        ∙ image_bad im ppn lba nblocks m1 wrong
        ∙ gave)
      acia gpu
