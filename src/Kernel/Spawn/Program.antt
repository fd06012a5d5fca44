-- ===== src/Kernel/Spawn/Program.antt =====
-- The code of spawn_bbx from the first read to the frame.
use bb6502_verilog.Common.{ℕ, ◌+◌, ◌-◌, ◌*◌, ◌^◌, ◌<◌, ◌≡◌, refl, ◌∙◌, ap, ap₂, true, some, arith}
use bb6502_verilog.Common.Bits.{shl, u16, u32, bit_or, bit_or-low}
use bb6502_verilog.Common.Maybe.{◌>>=◌}
use bb6502_verilog.Machine.Bus.{Machine, Disk}
use bb6502_verilog.Machine.Ram.{data_in-kernel}
use bb6502_verilog.Kernel.Process.{ppn_entry, phys}
use bb6502_verilog.Kernel.Process.Pages.{phys-block}
use bb6502_verilog.Kernel.Block.{block_read}
use bb6502_verilog.Kernel.Block.Read.{block_read_lem}
use bb6502_verilog.Kernel.Spawn.{
  Image, load_blocks, buf_byte, entry_of, frame_addr, add_frame, push_frame, load_image,
}
use bb6502_verilog.Kernel.Spawn.Copy.{framed, push_frame_lem}
use bb6502_verilog.Kernel.Spawn.Place.{place, IsLoadable}
use bb6502_verilog.Kernel.Spawn.Load.{Holds, Buffered, outside_lem, inside_lem, load_blocks_lem}

-- A disk with a program at block `lba`, and the machine in kernel mode.
pub record HasProgram (lba : ℕ) (img : ℕ → ℕ) (m : Machine) : Type 0 where
  pub kernel : m.mmu.kernel ≡ true
  pub image : m.disk.image ≡ some img
  pub lba_small : m.disk.lba < 2 ^ 32
  pub bytes : (i : ℕ) → img i < 256
  pub magic0 : img (lba * 512) ≡ 0x42
  pub magic1 : img (lba * 512 + 1) ≡ 0x58

-- The two bytes of the entry address, and the word of them.
entry_lem : (lo hi : ℕ) → lo < 256 → hi < 256 → bit_or lo (u16 (shl hi 8)) ≡ hi * 2 ^ 8 + lo
entry_lem lo hi h k =
    let short : u16 (shl hi 8) ≡ hi * 2 ^ 8 = omega arith in rw short (bit_or-low 8 hi lo h)

frame_lem : (base : ℕ) (ppn : ℕ → ℕ) → ppn 0 ≡ ppn_entry base 0 → frame_addr ppn ≡ place base 0x1fd
unfolding phys
frame_lem base ppn e = rw e refl

load_image_lem :
    (im : Image) (ppn : ℕ → ℕ) (lba nblocks entry : ℕ) (m m1 : Machine)
    → buf_byte im 0 m ≡ 0x42
    → buf_byte im 1 m ≡ 0x58
    → entry_of im m ≡ entry
    → load_blocks im ppn lba nblocks 0 m ≡ some (0, m1)
    → load_image im ppn lba nblocks (0, m) ≡ some (0, push_frame (frame_addr ppn) entry m1)
unfolding load_image add_frame
load_image_lem im ppn lba nblocks entry m m1 b x e loaded = rw (b, x, e, loaded) refl

module _ (im : Image) (lba nblocks base : ℕ) (img ppn : ℕ → ℕ) (m : Machine)
    (ok : IsLoadable im lba nblocks base) (has : HasProgram lba img m)
    (table : (j : ℕ) → j < 32 → ppn j ≡ ppn_entry base j) where
  first_block :
      (r : ℕ → ℕ) × (d : Disk) × (block_read im.zero_page lba im.block_buf m
        ≡ some (0, record m { ram = r; disk = d }))
      × Holds im lba nblocks base img ppn m 0 r d
      × Buffered im lba nblocks base img ppn m 0 r
  first_block =
      let pos : u32 (lba * 512) ≡ lba * 512 = omega (arith, ok.on_disk) in
      let (r, d, read, image, lba_at, cells, variables) =
        block_read_lem im.zero_page lba im.block_buf img m has.kernel has.image
          (omega (arith, ok.on_disk)) has.lba_small (omega (arith, ok.buf_from)) ok.buf_low in
      (
        r,
        d,
        read,
        record {
          image = image;
          lba_small = omega (arith, lba_at, ok.on_disk);
          program = λ j below. absurd (omega arith);
          others = λ a user out apart.
              cells a user
              ∙ outside_lem im.block_buf a (img (u32 (lba * 512) + (a - im.block_buf))) (m.ram a)
                  out;
        },
        λ i small.
            cells (im.block_buf + i) (omega (arith, ok.buf_from))
            ∙ inside_lem im.block_buf i (lba * 512) img m.ram small pos
            ∙ ap img (omega arith),
      )

  -- A byte of the buffer behind the first read.
  Buffered-byte :
      (r : ℕ → ℕ) (d : Disk) (i v : ℕ)
      → Buffered im lba nblocks base img ppn m 0 r
      → i < 512
      → img (lba * 512 + i) ≡ v
      → buf_byte im i (record m { ram = r; disk = d }) ≡ v
  Buffered-byte r d i v full h byte =
      data_in-kernel (record m { ram = r; disk = d }) (im.block_buf + i) has.kernel
        (omega (arith, ok.buf_low))
      ∙ full i h
      ∙ ap img (omega arith)
      ∙ byte

  -- The program is loaded, and the frame is on its stack page.
  pub load_program_lem :
      (r : ℕ → ℕ) × (d : Disk) × ((block_read im.zero_page lba im.block_buf m
          >>= load_image im ppn lba nblocks)
        ≡ some (
          0,
          record m {
            ram = framed (place base 0x1fd) (img (lba * 512 + 5) * 2 ^ 8 + img (lba * 512 + 4)) r;
            disk = d;
          },
        ))
      × Holds im lba nblocks base img ppn m nblocks r d
  load_program_lem =
      let entry = img (lba * 512 + 5) * 2 ^ 8 + img (lba * 512 + 4) in
      let (r0, d0, read, none_yet, full) = first_block in
      let (r1, d1, loaded, held) =
        load_blocks_lem im lba nblocks base img ppn m ok has.kernel nblocks 0 r0 d0 table
          (omega arith) none_yet (λ e. full) in
      let m0 = record m { ram = r0; disk = d0 } in
      let m1 = record m { ram = r1; disk = d1 } in
      let low : place base 0x1fd + 2 < 2 ^ 15 = omega (arith, phys-block base 0x1fd) in
      let word : entry_of im m0 ≡ entry =
        ap₂ (λ lo hi. bit_or lo (u16 (shl hi 8)))
          (Buffered-byte r0 d0 4 (img (lba * 512 + 4)) full (omega arith) refl)
          (Buffered-byte r0 d0 5 (img (lba * 512 + 5)) full (omega arith) refl)
        ∙ entry_lem (img (lba * 512 + 4)) (img (lba * 512 + 5)) (has.bytes _) (has.bytes _) in
      let image =
        load_image_lem im ppn lba nblocks entry m0 m1
          (Buffered-byte r0 d0 0 0x42 full (omega arith) (ap img (omega arith) ∙ has.magic0))
          (Buffered-byte r0 d0 1 0x58 full (omega arith) has.magic1) word loaded in
      (
        r1,
        d1,
        ap (λ o. o >>= load_image im ppn lba nblocks) read
            ∙ image
            ∙ ap (λ f. some (0, push_frame f entry m1)) (frame_lem base ppn (table 0 (omega arith)))
            ∙ ap (λ x. some (0, x)) (push_frame_lem (place base 0x1fd) entry m1 low has.kernel),
        held,
      )
