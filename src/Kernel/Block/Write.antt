-- ===== src/Kernel/Block/Write.antt =====
-- What block_write does to the disk image, and block_read behind it.
use bb6502_verilog.Common.{
  ℕ, zero, suc, ◌+◌, ◌-◌, ◌*◌, ◌^◌, ◌<◌, ◌≤◌, ◌≡◌, refl, ◌∙◌, ap, true, false, ◌&&◌, leb, ltb, ◌==◌,
  if◌then◌else◌, if-elim, some, Bool-cases, inl, inr, arith,
}
use bb6502_verilog.Common.Bits.{u16, u32}
use bb6502_verilog.Machine.Mmu.{is_ctrl, update}
use bb6502_verilog.Machine.Bus.{
  Machine, Disk, store_sector, disk_do_write, disk_cmd, step_dptr, data_in, bus_write,
}
use bb6502_verilog.Machine.Ram.{data_in-kernel, after_read-ram}
use bb6502_verilog.Kernel.Block.{set_lba, wait_disk, fill, finish_write, block_write, block_read}
use bb6502_verilog.Kernel.ZeroPage.{ZeroPage}
use bb6502_verilog.Kernel.Block.Read.{set_lba_lem, seek_lem, block_read_lem}

-- The machine with other contents of the controller's buffer, and its pointer.
with_buf : (ℕ → ℕ) → ℕ → Machine → Machine
with_buf b p m = record m { disk = record m.disk { buf = b; dptr = p } }

-- The pointer behind an access of the data port.
behind : ℕ → ℕ
behind p = if ltb p 511 then p + 1 else p

step_dptr_lem : (d : Disk) → step_dptr d ≡ record d { dptr = behind d.dptr }
unfolding step_dptr behind
step_dptr_lem d =
    if-elim (λ e. e ≡ record d { dptr = behind d.dptr }) (ltb d.dptr 511) (λ e. rw e refl)
      (λ e. rw e refl)

fill_step :
    (n i buf : ℕ) (m : Machine)
    → i < 512
    → buf + 512 ≤ 2 ^ 15
    → m.mmu.kernel ≡ true
    → fill (suc n) i buf m
      ≡ fill n
          (i + 1)
          buf
          (with_buf (update m.disk.buf m.disk.dptr (m.ram (buf + i))) (behind m.disk.dptr) m)
unfolding fill with_buf bus_write is_ctrl
fill_step n i buf m h f k =
    let at : u16 (buf + i) ≡ buf + i = omega arith in
    let byte = data_in-kernel m (buf + i) k (omega arith) in
    let quiet = after_read-ram (buf + i) m (omega arith) in
    rw (at, quiet, byte)
      (ap (λ d. fill n (i + 1) buf (record m { disk = d }))
        (step_dptr_lem (record m.disk { buf = update m.disk.buf m.disk.dptr (m.ram (buf + i)) })))

-- What the loop leaves in the buffer.
abbrev taken : (n i buf : ℕ) → Machine → ℕ → ℕ
taken n i buf m j = if leb i j && ltb j (i + n) then m.ram (buf + j) else m.disk.buf j

taken_lem :
    (n i buf j : ℕ) (ram b : ℕ → ℕ)
    → (if leb (i + 1) j && ltb j (i + 1 + n) then ram (buf + j) else update b i (ram (buf + i)) j)
      ≡ (if leb i j && ltb j (i + suc n) then ram (buf + j) else b j)
taken_lem n i buf j ram b = elim (Bool-cases (i == j)) [
  | inl here ↦ let at : j ≡ i = ground arith in rw at (ground arith)
  | inr away ↦ ground arith
]

fill_lem :
    (n i buf : ℕ) (m : Machine)
    → i + n ≤ 512
    → buf + 512 ≤ 2 ^ 15
    → m.mmu.kernel ≡ true
    → (0 < n → m.disk.dptr ≡ i)
    → (b : ℕ → ℕ) × (p : ℕ) × (fill n i buf m ≡ with_buf b p m)
      × ((j : ℕ) → b j ≡ taken n i buf m j)
unfolding with_buf behind
fill_lem zero i buf m h f k d = (m.disk.buf, m.disk.dptr, unfold fill in refl, λ j. ground arith)
fill_lem (suc n) i buf m h f k d =
    let here : m.disk.dptr ≡ i = d (omega arith) in
    let one = fill_step n i buf m (omega arith) f k in
    let next = with_buf (update m.disk.buf m.disk.dptr (m.ram (buf + i))) (behind m.disk.dptr) m in
    let (b, p, all, each) = fill_lem n (i + 1) buf next (omega arith) f k (λ more. ground arith) in
    (b, p, one ∙ all, λ j. each j ∙ rw here (taken_lem n i buf j m.ram m.disk.buf))

-- The machine behind the write command.
written : (lba p : ℕ) (img b : ℕ → ℕ) → Machine → Machine
written lba p img b m = record m {
  disk = record m.disk {
    lba = lba;
    buf = b;
    dptr = p;
    err = false;
    busy = false;
    image = some (store_sector img (u32 (lba * 512)) b);
    pos = u32 (lba * 512) + 512;
  };
}

command-written :
    (lba p : ℕ) (img b : ℕ → ℕ) (m : Machine)
    → m.disk.image ≡ some img
    → lba < 2 ^ 22
    → bus_write 0x80e4 2 (record m { disk = record m.disk { lba = lba; buf = b; dptr = p } })
      ≡ written lba p img b m
unfolding bus_write is_ctrl disk_cmd disk_do_write written
command-written lba p img b m e h =
    let sought = seek_lem lba (record m.disk { buf = b; dptr = p }) h in rw (e, sought) refl

finish-written :
    (lba p : ℕ) (img b : ℕ → ℕ) (m : Machine)
    → finish_write (written lba p img b m) ≡ some (0, written lba p img b m)
unfolding finish_write wait_disk data_in is_ctrl written
finish-written lba p img b m = refl

stored-taken :
    (at buf a : ℕ) (b img : ℕ → ℕ) (m : Machine)
    → b (a - at) ≡ taken 512 0 buf m (a - at)
    → store_sector img at b a
      ≡ (if leb at a && ltb a (at + 512) then m.ram (buf + (a - at)) else img a)
unfolding store_sector
stored-taken at buf a b img m e = ground arith

-- What block_write leaves: the controller has changed, and nothing else.
pub block_write_lem :
    (lba buf : ℕ) (img : ℕ → ℕ) (m : Machine)
    → m.mmu.kernel ≡ true
    → m.disk.image ≡ some img
    → lba < 2 ^ 22
    → m.disk.lba < 2 ^ 32
    → buf + 512 ≤ 2 ^ 15
    → (d : Disk) × (img' : ℕ → ℕ) × (block_write lba buf m ≡ some (0, record m { disk = d }))
      × (d.image ≡ some img')
      × (d.lba ≡ lba)
      × ((a : ℕ)
          → img' a ≡ (
              if leb (u32 (lba * 512)) a && ltb a (u32 (lba * 512) + 512)
              then m.ram (buf + (a - u32 (lba * 512)))
              else img a))
unfolding block_write with_buf written bus_write is_ctrl
block_write_lem lba buf img m k e l o f =
    let start = record m { disk = record m.disk { dptr = 0 } } in
    let (b, p, all, each) = fill_lem 512 0 buf start (omega arith) f k (λ _. refl) in
    (
      (written lba p img b m).disk,
      store_sector img (u32 (lba * 512)) b,
      ap (λ x. finish_write (bus_write 0x80e4 2 (set_lba lba x))) all
          ∙ ap (λ x. finish_write (bus_write 0x80e4 2 x))
              (set_lba_lem lba (with_buf b p start) (omega arith) o)
          ∙ ap finish_write (command-written lba p img b m e l)
          ∙ finish-written lba p img b m,
      refl,
      refl,
      λ a. stored-taken (u32 (lba * 512)) buf a b img m (each (a - u32 (lba * 512))),
    )

-- With a disk image open, in kernel mode, for block numbers below 2 ^ 22 and a source below the I/O
-- window, block_write ends with 0: the 512 bytes of the image from lba * 512 on are the cells of the
-- RAM from `buf` on, every other byte of the image is as it was, and so are the RAM and the
-- MMU; the controller keeps the block number.
pub block_write-stores :
    (lba buf : ℕ) (img : ℕ → ℕ) (m : Machine)
    → m.mmu.kernel ≡ true
    → m.disk.image ≡ some img
    → lba < 2 ^ 22
    → m.disk.lba < 2 ^ 32
    → buf + 512 ≤ 2 ^ 15
    → (m' : Machine) × (img' : ℕ → ℕ) × (block_write lba buf m ≡ some (0, m'))
      × (m'.disk.image ≡ some img')
      × (m'.ram ≡ m.ram)
      × (m'.mmu ≡ m.mmu)
      × (m'.disk.lba ≡ lba)
      × ((a : ℕ)
          → img' a ≡ (
              if leb (u32 (lba * 512)) a && ltb a (u32 (lba * 512) + 512)
              then m.ram (buf + (a - u32 (lba * 512)))
              else img a))
block_write-stores lba buf img m k e l o f =
    let (d, img1, wrote, image, at, bytes) = block_write_lem lba buf img m k e l o f in
    (record m { disk = d }, img1, wrote, image, refl, refl, at, bytes)

back_lem :
    (s dest a buf : ℕ) (img img1 ram : ℕ → ℕ)
    → img1 (s + (a - dest)) ≡ (
        if leb s (s + (a - dest)) && ltb (s + (a - dest)) (s + 512)
        then ram (buf + (s + (a - dest) - s))
        else img (s + (a - dest)))
    → (if leb dest a && ltb a (dest + 512) then img1 (s + (a - dest)) else ram a)
      ≡ (if leb dest a && ltb a (dest + 512) then ram (buf + (a - dest)) else ram a)
back_lem s dest a buf img img1 ram e =
    let same : s + (a - dest) - s ≡ a - dest = omega arith in let e' = rw same at e in ground arith

-- With a disk image open, in kernel mode, for block numbers below 2 ^ 22 (the simulator's disk seeks a
-- signed 32-bit offset), and a source and a destination between $1000 and $7CFF (off the kernel's zero
-- page, stack and code, and off the stack of its C code), block_write from `buf` and
-- then block_read of the same block to `dest` both end with 0: the 512 cells from `dest` on hold what
-- the cells from `buf` on held, and every other cell from $1000 to $7CFF is as it was before both.
pub block_read-block_write :
    (z : ZeroPage) (lba buf dest : ℕ) (img : ℕ → ℕ) (m : Machine)
    → m.mmu.kernel ≡ true
    → m.disk.image ≡ some img
    → lba < 2 ^ 22
    → m.disk.lba < 2 ^ 32
    → 0x1000 ≤ buf
    → buf + 512 ≤ 0x7d00
    → 0x1000 ≤ dest
    → dest + 512 ≤ 0x7d00
    → (m1 m2 : Machine) × (block_write lba buf m ≡ some (0, m1))
      × (block_read z lba dest m1 ≡ some (0, m2))
      × ((a : ℕ)
          → 0x1000 ≤ a
          → a < 0x7d00
          → m2.ram a
            ≡ (if leb dest a && ltb a (dest + 512) then m.ram (buf + (a - dest)) else m.ram a))
block_read-block_write z lba buf dest img m k e l o start f from low =
    let (m1, img1, wrote, image, ram, mmu, at, bytes) =
      block_write-stores lba buf img m k e l o (omega arith) in
    let (r, d, read, image2, at2, cells, variables) =
      block_read_lem z lba dest img1 m1 (rw mmu k) image l (rw at (omega arith)) (omega arith)
        (omega arith) in
    (
      m1,
      record m1 { ram = r; disk = d },
      wrote,
      read,
      λ a user top.
          cells a (omega arith)
          ∙ rw ram (back_lem (u32 (lba * 512)) dest a buf img img1 m.ram (bytes _)),
    )
