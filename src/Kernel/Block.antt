-- ===== src/Kernel/Block.antt =====
-- sw/kernel/src/block.c: set_lba, block_read and block_write over the bus.
pub mod Spread
pub mod Read
pub mod Write
use bb6502_verilog.Common.{ℕ, zero, suc, ◌+◌, ◌==◌, if◌then◌else◌, Option, none, some}
use bb6502_verilog.Common.Bits.{shr, bit, u8, u16}
use bb6502_verilog.Machine.Bus.{Machine, data_in, after_read, bus_write}
use bb6502_verilog.Kernel.ZeroPage.{ZeroPage, set_ptr, indirect, inc_high, dec_high}

-- The four stores of the block number, the low byte first.
unfoldable pub set_lba : ℕ → Machine → Machine
set_lba lba m = bus_write 0x80e3 (u8 (shr lba 24)) (
    bus_write 0x80e2 (u8 (shr lba 16))
      (bus_write 0x80e1 (u8 (shr lba 8)) (bus_write 0x80e0 (u8 lba) m)))

-- `while (DISK_STATUS & STATUS_BUSY);` with a bound on the loads of the register. The controller
-- finishes a command in the cycle that starts it.
unfoldable pub wait_disk : (loads : ℕ) → Machine → Option (Unit {0})
wait_disk zero m = none
wait_disk (suc k) m =
    let rest = wait_disk k m in if bit (data_in 0x80e5 m) 0 == 1 then rest else some tt

-- `lda $80E6 / sta (_zp_ptr),y` for the n values of y from y on.
unfoldable pub drain_page : ZeroPage → (n y : ℕ) → Machine → Machine
drain_page z zero y m = m
drain_page z (suc n) y m =
    let next = after_read 0x80e6 m in
    drain_page z n (y + 1) (bus_write (indirect z.zp_ptr y next) (data_in 0x80e6 m) next)

-- The assembly of block_read: two pages, and zp_ptr set back.
unfoldable pub drain : ZeroPage → Machine → Machine
drain z m =
    let p = z.zp_ptr in
    dec_high p (dec_high p (inc_high p (drain_page z 256 0 (inc_high p (drain_page z 256 0 m)))))

-- What follows the wait: the test of the error bit, then the copy.
unfoldable pub finish_read : ZeroPage → (buf : ℕ) → Machine → ℕ × Machine
finish_read z buf m =
    let copied = drain z (set_ptr z.zp_ptr buf (bus_write 0x80e7 0 m)) in
    if bit (data_in 0x80e5 m) 7 == 1 then (1, m) else (0, copied)

-- block_read
unfoldable pub block_read : ZeroPage → (lba buf : ℕ) → Machine → Option (ℕ × Machine)
block_read z lba buf m =
    let asked = bus_write 0x80e4 1 (set_lba lba m) in
    elim (wait_disk 1 asked) [ none ↦ none | some _ ↦ some (finish_read z buf asked) ]

-- The loop of block_write: byte i of the source goes to the controller's buffer, for the n bytes from i
-- on.
unfoldable pub fill : (n i buf : ℕ) → Machine → Machine
fill zero i buf m = m
fill (suc n) i buf m =
    let a = u16 (buf + i) in fill n (i + 1) buf (bus_write 0x80e6 (data_in a m) (after_read a m))

-- The wait of block_write, and the test of the error bit.
unfoldable pub finish_write : Machine → Option (ℕ × Machine)
finish_write m = elim (wait_disk 1 m) [
  | none ↦ none
  | some _ ↦ if bit (data_in 0x80e5 m) 7 == 1 then some (1, m) else some (0, m)
]

-- block_write
unfoldable pub block_write : (lba buf : ℕ) → Machine → Option (ℕ × Machine)
block_write lba buf m =
    finish_write (bus_write 0x80e4 2 (set_lba lba (fill 512 0 buf (bus_write 0x80e7 0 m))))
