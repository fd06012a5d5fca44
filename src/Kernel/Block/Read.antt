-- ===== src/Kernel/Block/Read.antt =====
-- What block_read does to the memory.
use bb6502_verilog.Common.{
  ℕ, ◌+◌, ◌-◌, ◌*◌, ◌^◌, ◌<◌, ◌≤◌, ◌≡◌, refl, ◌∙◌, ap, true, false, ◌&&◌, leb, ltb, if◌then◌else◌,
  Option, none, some, arith,
}
use bb6502_verilog.Common.Bits.{shr, u8, u32}
use bb6502_verilog.Machine.Mmu.{is_ctrl}
use bb6502_verilog.Machine.Bus.{
  Machine, Disk, set_byte, disk_do_read, disk_cmd, seek, data_in, bus_write,
}
use bb6502_verilog.Kernel.ZeroPage.{ZeroPage, set_ptr}
use bb6502_verilog.Kernel.ZeroPage.Pointers.{pointed, pointed-Points, set_ptr_lem}
use bb6502_verilog.Kernel.Block.{set_lba, wait_disk, drain, finish_read, block_read}
use bb6502_verilog.Kernel.Block.Spread.{drain_lem}

lba_lem :
    (lba old : ℕ)
    → lba < 2 ^ 32
    → old < 2 ^ 32
    → set_byte 3
        (u8 (shr lba 24))
        (set_byte 2 (u8 (shr lba 16)) (set_byte 1 (u8 (shr lba 8)) (set_byte 0 (u8 lba) old)))
      ≡ lba
unfolding set_byte
lba_lem lba old h k = omega arith

pub set_lba_lem :
    (lba : ℕ) (m : Machine)
    → lba < 2 ^ 32
    → m.disk.lba < 2 ^ 32
    → set_lba lba m ≡ record m { disk = record m.disk { lba = lba } }
unfolding set_lba bus_write is_ctrl
set_lba_lem lba m h k =
    ap (λ l. record m { disk = record m.disk { lba = l } }) (lba_lem lba m.disk.lba h k)

-- The machine behind the command: the sector is in the controller's buffer.
loaded : (lba : ℕ) (img : ℕ → ℕ) → Machine → Machine
loaded lba img m = record m {
  disk = record m.disk {
    lba = lba;
    buf = λ i. img (u32 (lba * 512) + i);
    err = false;
    busy = false;
    dptr = 0;
    pos = u32 (lba * 512) + 512;
  };
}

failed : (lba : ℕ) → Machine → Machine
failed lba m = record m { disk = record m.disk { lba = lba; err = true; busy = false; dptr = 0 } }

pub seek_lem : (lba : ℕ) (d : Disk) → lba < 2 ^ 22 → seek (record d { lba = lba }) ≡ u32 (lba * 512)
unfolding seek
seek_lem lba d h = let near : ltb (u32 (lba * 512)) (2 ^ 31) ≡ true = ground arith in rw near refl

command-loaded :
    (lba : ℕ) (img : ℕ → ℕ) (m : Machine)
    → m.disk.image ≡ some img
    → lba < 2 ^ 22
    → bus_write 0x80e4 1 (record m { disk = record m.disk { lba = lba } }) ≡ loaded lba img m
unfolding bus_write is_ctrl disk_cmd disk_do_read loaded
command-loaded lba img m e h =
    let sought = seek_lem lba m.disk h in
    rw (e, sought)
      (ap (λ o. record (loaded lba img m) { disk = record (loaded lba img m).disk { image = o } })
        e)

command-failed :
    (lba : ℕ) (m : Machine)
    → m.disk.image ≡ none
    → bus_write 0x80e4 1 (record m { disk = record m.disk { lba = lba } }) ≡ failed lba m
unfolding bus_write is_ctrl disk_cmd disk_do_read failed
command-failed lba m e =
    rw e (ap (λ o. record (failed lba m) { disk = record (failed lba m).disk { image = o } }) e)

-- The rest of block_read behind the command.
rest : ZeroPage → ℕ → Machine → Option (ℕ × Machine)
rest z buf x = elim (wait_disk 1 x) [ none ↦ none | some _ ↦ some (finish_read z buf x) ]

block_read-rest :
    (z : ZeroPage) (lba buf : ℕ) (m x : Machine)
    → lba < 2 ^ 32
    → m.disk.lba < 2 ^ 32
    → bus_write 0x80e4 1 (record m { disk = record m.disk { lba = lba } }) ≡ x
    → block_read z lba buf m ≡ rest z buf x
unfolding block_read rest
block_read-rest z lba buf m x l o e =
    ap (rest z buf) (ap (bus_write 0x80e4 1) (set_lba_lem lba m l o) ∙ e)

rest-loaded :
    (z : ZeroPage) (lba buf : ℕ) (img : ℕ → ℕ) (m : Machine)
    → rest z buf (loaded lba img m) ≡ some (0, drain z (set_ptr z.zp_ptr buf (loaded lba img m)))
unfolding rest wait_disk finish_read data_in is_ctrl bus_write loaded
rest-loaded z lba buf img m = refl

rest-failed :
    (z : ZeroPage) (lba buf : ℕ) (m : Machine) → rest z buf (failed lba m) ≡ some (1, failed lba m)
unfolding rest wait_disk finish_read data_in is_ctrl failed
rest-failed z lba buf m = refl

-- block_read with a disk image, and all it changes: the cells from $20 on, and the variables below.
pub block_read_lem :
    (z : ZeroPage) (lba buf : ℕ) (img : ℕ → ℕ) (m : Machine)
    → m.mmu.kernel ≡ true
    → m.disk.image ≡ some img
    → lba < 2 ^ 22
    → m.disk.lba < 2 ^ 32
    → 0x20 ≤ buf
    → buf + 512 ≤ 2 ^ 15
    → (r : ℕ → ℕ) × (d : Disk) × (block_read z lba buf m ≡ some (0, record m { ram = r; disk = d }))
      × (d.image ≡ some img)
      × (d.lba ≡ lba)
      × ((a : ℕ)
          → 0x20 ≤ a
          → r a ≡ (
              if leb buf a && ltb a (buf + 512)
              then img (u32 (lba * 512) + (a - buf))
              else m.ram a))
      × ((a : ℕ) → a < 0x20 → m.ram a < 256 → r a < 256)
unfolding loaded
block_read_lem z lba buf img m k e l o from f =
    let read =
      block_read-rest z lba buf m (loaded lba img m) (omega arith) o
        (command-loaded lba img m e l) in
    let start = loaded lba img m in
    let set = set_ptr_lem z.zp_ptr buf start k z.zp_ptr_in in
    let ready = record start { ram = pointed z.zp_ptr buf m.ram } in
    let (r, d, copied, image, at, cells, variables) =
      drain_lem z buf ready from f k refl (pointed-Points z.zp_ptr buf m.ram (omega arith)) in
    (
      r,
      d,
      read
          ∙ rest-loaded z lba buf img m
          ∙ ap (λ x. some (0, drain z x)) set
          ∙ ap (λ x. some (0, x)) copied,
      image ∙ e,
      at,
      λ a user.
          let off : pointed z.zp_ptr buf m.ram a ≡ m.ram a = ground (arith, z.zp_ptr_in) in
          cells a user
          ∙ ap
              (λ x. if leb buf a && ltb a (buf + 512) then img (u32 (lba * 512) + (a - buf)) else x)
              off,
      λ a variable small.
          let held : pointed z.zp_ptr buf m.ram a < 256 = ground (arith, small) in
          variables a variable held,
    )

-- block_read without a disk image, and all it changes.
pub block_read_err :
    (z : ZeroPage) (lba buf : ℕ) (m : Machine)
    → m.disk.image ≡ none
    → lba < 2 ^ 32
    → m.disk.lba < 2 ^ 32
    → (d : Disk) × (block_read z lba buf m ≡ some (1, record m { disk = d }))
unfolding failed
block_read_err z lba buf m e l o = (
  (failed lba m).disk,
  block_read-rest z lba buf m (failed lba m) l o (command-failed lba m e) ∙ rest-failed z lba buf m,
)

-- With no disk image and 32-bit block numbers, block_read ends with 1 and the RAM is as it was.
pub block_read-fails :
    (z : ZeroPage) (lba buf : ℕ) (m : Machine)
    → m.disk.image ≡ none
    → lba < 2 ^ 32
    → m.disk.lba < 2 ^ 32
    → (m' : Machine) × (block_read z lba buf m ≡ some (1, m')) × (m'.ram ≡ m.ram)
block_read-fails z lba buf m e l o =
    let (d, read) = block_read_err z lba buf m e l o in (record m { disk = d }, read, refl)
