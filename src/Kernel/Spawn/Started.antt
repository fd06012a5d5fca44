-- ===== src/Kernel/Spawn/Started.antt =====
-- spawn_bbx as a whole: the process that it starts.
use bb6502_verilog.Common.{
  ℕ, ◌+◌, ◌*◌, ◌^◌, ◌<◌, ◌≤◌, ◌≡◌, ◌≢◌, inl, inr, refl, sym, ◌∙◌, ap, false, leb, some, length,
  arith,
}
use bb6502_verilog.Common.Bits.{shr, u8}
use bb6502_verilog.Common.Maybe.{◌>>=◌}
use bb6502_verilog.Machine.Mmu.{vpn}
use bb6502_verilog.Machine.Bus.{Machine, Disk, data_in}
use bb6502_verilog.Machine.Reads.{data_in-ram}
use bb6502_verilog.Kernel.Process.{Process, waiting}
use bb6502_verilog.Kernel.Process.Pages.{phys-block, ppn_entry_lem, ram_addr-user}
use bb6502_verilog.Kernel.Block.{block_read}
use bb6502_verilog.Kernel.Spawn.{
  Image, System, process_at, with_table, load_image, register, spawn_bbx,
}
use bb6502_verilog.Kernel.Spawn.Copy.{framed}
use bb6502_verilog.Kernel.Spawn.Place.{place, IsOwn, IsLoadable, place_apart}
use bb6502_verilog.Kernel.Spawn.Load.{Holds}
use bb6502_verilog.Kernel.Spawn.Entry.{
  IsAt, registered, with_table_lem, registered_lem, registered-others, registered-length,
}
use bb6502_verilog.Kernel.Spawn.Program.{HasProgram, load_program_lem}

-- The machine when the process runs.
abbrev pub in_process : Process → Machine → Machine
in_process p m = record m { mmu = record m.mmu { ppn = p.mmu_ppn_table; kernel = false } }

-- In its own address space the process reads the program from $1000 on, and on its stack the status
-- and the entry address for the RTI.
pub record IsLoaded (lba nblocks : ℕ) (img : ℕ → ℕ) (p : Process) (m : Machine) : Type 0 where
  pub program :
      (j : ℕ) → j < nblocks * 512 → data_in (0x1000 + j) (in_process p m) ≡ img (lba * 512 + j)
  pub status : data_in 0x1fd (in_process p m) ≡ 0x20
  pub pcl : data_in 0x1fe (in_process p m) ≡ img (lba * 512 + 4)
  pub pch : data_in 0x1ff (in_process p m) ≡ img (lba * 512 + 5)

-- A process that waits for its first turn.
pub record IsStarted (lba nblocks : ℕ) (img : ℕ → ℕ) (p : Process) (m : Machine) : Type 0 where
  pub state : p.state ≡ waiting
  pub sp : p.sp ≡ 0xfc
  pub loaded : IsLoaded lba nblocks img p m

-- What spawn_bbx has done to the kernel's state `s`.
pub record Spawned (im : Image) (lba nblocks base : ℕ) (img : ℕ → ℕ) (s s' : System) : Type 0 where
  pub count : s'.table.nprocs ≡ s.table.nprocs + 1
  pub current : s'.table.plist_idx ≡ s.table.plist_idx
  pub size : length s'.table.plist ≡ length s.table.plist
  pub others : (i : ℕ) → s.table.nprocs ≢ i → process_at s'.table i ≡ process_at s.table i
  pub table : IsAt base (process_at s'.table s.table.nprocs)
  pub process : IsStarted lba nblocks img (process_at s'.table s.table.nprocs) s'.machine
  pub image : s'.machine.disk.image ≡ some img
  pub lba_small : s'.machine.disk.lba < 2 ^ 32
  pub mmu : s'.machine.mmu ≡ s.machine.mmu
  pub acia : s'.machine.acia ≡ s.machine.acia
  pub gpu : s'.machine.gpu_sent ≡ s.machine.gpu_sent
  pub memory :
      (a : ℕ)
      → 0x1000 ≤ a
      → a < 0x7000
      → ((va : ℕ) → IsOwn nblocks va → place base va ≢ a)
      → s'.machine.ram a ≡ s.machine.ram a

-- The place of an address, as the MMU finds it when the process runs.
pub user_place :
    (base va : ℕ) (p : Process) (m : Machine)
    → va < 2 ^ 15
    → IsAt base p
    → data_in va (in_process p m) ≡ m.ram (place base va)
user_place base va p m h at =
    let n = in_process p m in
    let entry = at (vpn va) (omega arith) in
    let block = ppn_entry_lem base (vpn va) in
    data_in-ram n va h
    ∙ ap m.ram (ram_addr-user n.mmu va refl ∙ omega (arith, entry, block, phys-block base va))

frame_next : (base i : ℕ) → i < 3 → place base 0x1fd + i ≡ place base (0x1fd + i)
frame_next base i h = omega (arith, phys-block base 0x1fd, phys-block base (0x1fd + i))

framed_away : (f entry a : ℕ) (r : ℕ → ℕ) → f ≢ a → f + 1 ≢ a → f + 2 ≢ a → framed f entry r a ≡ r a
framed_away f entry a r h k l = ground arith

framed-place :
    (base entry a : ℕ) (r : ℕ → ℕ)
    → ((va : ℕ) → 0x1fd ≤ va → va ≤ 0x1ff → place base va ≢ a)
    → framed (place base 0x1fd) entry r a ≡ r a
framed-place base entry a r apart =
    framed_away (place base 0x1fd) entry a r (apart 0x1fd (omega arith) (omega arith))
      (λ e. apart 0x1fe (omega arith) (omega arith) (sym (frame_next base 1 (omega arith)) ∙ e))
      (λ e. apart 0x1ff (omega arith) (omega arith) (sym (frame_next base 2 (omega arith)) ∙ e))

framed_bytes :
    (f lo hi : ℕ) (r : ℕ → ℕ)
    → lo < 256
    → hi < 256
    → (framed f (hi * 2 ^ 8 + lo) r f ≡ 0x20)
      × (framed f (hi * 2 ^ 8 + lo) r (f + 1) ≡ lo)
      × (framed f (hi * 2 ^ 8 + lo) r (f + 2) ≡ hi)
framed_bytes f lo hi r h k =
    let low : u8 (hi * 2 ^ 8 + lo) ≡ lo = omega arith in
    let high : u8 (shr (hi * 2 ^ 8 + lo) 8) ≡ hi = omega arith in
    rw (low, high) (ground arith, ground arith, ground arith)

-- The new process in the RAM of the loop with the frame.
started_lem :
    (im : Image) (lba nblocks base : ℕ) (img ppn r : ℕ → ℕ) (d : Disk) (p : Process) (m : Machine)
    → IsLoadable im lba nblocks base
    → HasProgram lba img m
    → IsAt base p
    → p.state ≡ waiting
    → p.sp ≡ 0xfc
    → Holds im lba nblocks base img ppn m nblocks r d
    → IsStarted lba nblocks img p (record m {
      ram = framed (place base 0x1fd) (img (lba * 512 + 5) * 2 ^ 8 + img (lba * 512 + 4)) r;
      disk = d;
    })
started_lem im lba nblocks base img ppn r d p m ok has at state sp held =
    let f = place base 0x1fd in
    let lo = img (lba * 512 + 4) in
    let hi = img (lba * 512 + 5) in
    let m' = record m { ram = framed f (hi * 2 ^ 8 + lo) r; disk = d } in
    let (first, second, third) = framed_bytes f lo hi r (has.bytes _) (has.bytes _) in
    record {
      state = state;
      sp = sp;
      loaded = record {
        program = λ j h.
            user_place base (0x1000 + j) p m' (omega (arith, ok.fits)) at
            ∙ framed-place base (hi * 2 ^ 8 + lo) (place base (0x1000 + j)) r (λ va low high.
              place_apart base va (0x1000 + j) (omega arith) (omega (arith, ok.fits)) (omega arith))
            ∙ held.program j h;
        status = user_place base 0x1fd p m' (omega arith) at ∙ first;
        pcl =
            user_place base 0x1fe p m' (omega arith) at
            ∙ ap m'.ram (sym (frame_next base 1 (omega arith)))
            ∙ second;
        pch =
            user_place base 0x1ff p m' (omega arith) at
            ∙ ap m'.ram (sym (frame_next base 2 (omega arith)))
            ∙ third;
      };
    }

spawn_bbx-registers :
    (im : Image) (lba nblocks base : ℕ) (s : System) (m' : Machine)
    → s.table.nprocs < 4
    → (block_read im.zero_page lba im.block_buf s.machine
        >>= load_image im
            (process_at (with_table base s.table) s.table.nprocs).mmu_ppn_table
            lba
            nblocks)
      ≡ some (0, m')
    → spawn_bbx im lba nblocks base s ≡ register lba nblocks (with_table base s.table) (0, m')
unfolding spawn_bbx
spawn_bbx-registers im lba nblocks base s m' room loaded =
    let few : leb 4 s.table.nprocs ≡ false = ground arith in
    rw few (ap (λ o. o >>= register lba nblocks (with_table base s.table)) loaded)

-- If there is room in the process table, in kernel mode, with a program on the disk that fits the
-- address space and whose places in the RAM are from $1000 to $6FFF (off the kernel's frames, which a
-- program that wraps around the RAM would overwrite) and with the kernel's buffer from $7000 on,
-- spawn_bbx ends with 0. The table has one entry more: a process that waits and that, in its own
-- address space, will find the program at $1000 and the frame of its first RTI on its stack. The other
-- entries, the MMU and the ports are as they were, and so is the RAM from $1000 to $6FFF outside the
-- process's own places.
pub spawn_bbx-Spawned :
    (im : Image) (lba nblocks base : ℕ) (img : ℕ → ℕ) (s : System)
    → IsLoadable im lba nblocks base
    → HasProgram lba img s.machine
    → s.table.nprocs < 4
    → length s.table.plist ≡ 4
    → (s' : System) × (spawn_bbx im lba nblocks base s ≡ some (0, s'))
      × Spawned im lba nblocks base img s s'
unfolding register registered
spawn_bbx-Spawned im lba nblocks base img s ok has room size =
    let t = s.table in
    let n = t.nprocs in
    let p = process_at (with_table base t) n in
    let fits : n < length t.plist = omega arith in
    let at = with_table_lem base t fits in
    let entry = registered_lem lba nblocks base t fits in
    let (r, d, loaded, held) =
      load_program_lem im lba nblocks base img p.mmu_ppn_table s.machine ok has at in
    let m' = record s.machine {
      ram = framed (place base 0x1fd) (img (lba * 512 + 5) * 2 ^ 8 + img (lba * 512 + 4)) r;
      disk = d;
    } in
    let now : IsAt base (process_at (registered lba nblocks base t) n) =
      λ j h. ap (λ (q : Process). q.mmu_ppn_table j) entry ∙ at j h in
    (
      record { machine = m'; table = registered lba nblocks base t },
      spawn_bbx-registers im lba nblocks base s m' room loaded,
      record {
        count = refl;
        current = refl;
        size = registered-length lba nblocks base t;
        others = registered-others lba nblocks base t;
        table = now;
        process =
            started_lem im lba nblocks base img p.mmu_ppn_table r d
              (process_at (registered lba nblocks base t) n) s.machine ok has now
              (ap (λ (q : Process). q.state) entry) (ap (λ (q : Process). q.sp) entry) held;
        image = held.image;
        lba_small = held.lba_small;
        mmu = refl;
        acia = refl;
        gpu = refl;
        memory = λ a from below apart.
            framed-place base (img (lba * 512 + 5) * 2 ^ 8 + img (lba * 512 + 4)) a r
              (λ va low high. apart va (inr (low, high)))
            ∙ held.others a (omega arith) (inl (omega (arith, ok.buf_from)))
                (λ j h. apart (0x1000 + j) (inl (omega arith, omega arith)));
      },
    )
