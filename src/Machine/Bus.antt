-- ===== src/Machine/Bus.antt =====
-- rtl/tb.v: the I/O devices, the read mux and the clocked writes, one bus access at a time. An
-- access here is one bus cycle that the MMU lets pass: its switch to kernel mode on a fault or a
-- vector pull, and reset, are not here.
use bb6502_verilog.Common.{
  ℕ, ◌+◌, ◌-◌, ◌*◌, ◌/◌, ◌%◌, ◌^◌, Bool, true, false, ◌&&◌, Option, none, some, List, [], ◌∷◌, ◌++◌,
  ltb, leb, ◌==◌, if◌then◌else◌,
}
use bb6502_verilog.Common.Bits.{shr, low_bits, u32}
use bb6502_verilog.Machine.Mmu.{Mmu, update, ram_addr, is_ctrl, read_ctrl, write_ctrl}

-- The ACIA: the byte received, and the counter that holds `tx_ready` down after a write.
pub record Acia : Type 0 where
  pub rx_data : ℕ
  pub rx_valid : Bool
  pub tx_ready : Bool
  pub tx_count : ℕ
  pub sent : List ℕ

-- The disk controller. `image` is build/disk.img by byte offset, 0 past its end; `none` when the
-- file could not be opened. `pos` is where the file stands behind the last access, if it
-- reaches as far.
pub record Disk : Type 0 where
  pub lba : ℕ
  pub buf : ℕ → ℕ
  pub dptr : ℕ
  pub busy : Bool
  pub err : Bool
  pub image : Option (ℕ → ℕ)
  pub pos : ℕ

pub record Machine : Type 0 where
  pub ram : ℕ → ℕ
  pub rom : ℕ → ℕ
  pub mmu : Mmu
  pub acia : Acia
  pub gpu_sent : List ℕ
  pub disk : Disk

-- Byte k of the LBA register replaced.
unfoldable pub set_byte : ℕ → ℕ → ℕ → ℕ
set_byte k v x = x / 2 ^ (8 * k + 8) * 2 ^ (8 * k + 8) + v * 2 ^ (8 * k) + x % 2 ^ (8 * k)

-- `$fseek` to `disk_lba * 512`, a 32-bit product that it takes as a signed integer: to a negative
-- offset it fails, and the file stands where it stood.
unfoldable pub seek : Disk → ℕ
seek d = if ltb (u32 (d.lba * 512)) (2 ^ 31) then u32 (d.lba * 512) else d.pos

-- `disk_do_read`
unfoldable pub disk_do_read : Disk → Disk
unfolding seek
disk_do_read d = elim d.image [
  | none ↦ record d { err = true; busy = false; dptr = 0 }
  | some img ↦ record d {
    buf = λ i. img (seek d + i);
    err = false;
    busy = false;
    dptr = 0;
    pos = seek d + 512;
  }
]

-- The image with the 512 bytes of `buf` at `at`.
unfoldable pub store_sector : (ℕ → ℕ) → ℕ → (ℕ → ℕ) → ℕ → ℕ
store_sector img at buf k = if leb at k && ltb k (at + 512) then buf (k - at) else img k

-- `disk_do_write`
unfoldable pub disk_do_write : Disk → Disk
unfolding store_sector seek
disk_do_write d = elim d.image [
  | none ↦ record d { err = true; busy = false }
  | some img ↦ record d {
    image = some (store_sector img (seek d) d.buf);
    err = false;
    busy = false;
    pos = seek d + 512;
  }
]

unfoldable pub disk_cmd : ℕ → Disk → Disk
unfolding disk_do_read disk_do_write
disk_cmd v d =
    if v == 1 then disk_do_read d else if v == 2 then disk_do_write d else record d { busy = false }

-- The disk data port steps its pointer on any access, up to 511.
unfoldable pub step_dptr : Disk → Disk
step_dptr d = if ltb d.dptr 511 then record d { dptr = d.dptr + 1 } else d

abbrev of_bool : Bool → ℕ
of_bool b = if b then 1 else 0

-- The read mux.
unfoldable pub data_in : ℕ → Machine → ℕ
unfolding ram_addr is_ctrl read_ctrl
data_in ab m =
    if ltb ab 0x8000
    then m.ram (ram_addr m.mmu ab)
    else if is_ctrl ab
    then read_ctrl (low_bits ab 6) m.mmu
    else if ab == 0x8000
    then m.acia.rx_data
    else if ab == 0x8001
    then of_bool m.acia.tx_ready * 2 + of_bool m.acia.rx_valid
    else if ab == 0x8003
    then 1
    else if ab == 0x80e0
    then low_bits m.disk.lba 8
    else if ab == 0x80e1
    then low_bits (shr m.disk.lba 8) 8
    else if ab == 0x80e2
    then low_bits (shr m.disk.lba 16) 8
    else if ab == 0x80e3
    then low_bits (shr m.disk.lba 24) 8
    else if ab == 0x80e5
    then of_bool m.disk.err * 128 + of_bool m.disk.busy
    else if ab == 0x80e6
    then m.disk.buf m.disk.dptr
    else if leb 0x8100 ab
    then m.rom (ab - 0x8100)
    else 0xff

-- What a read cycle changes: it clears the receive flag, or steps the disk pointer.
unfoldable pub after_read : ℕ → Machine → Machine
unfolding step_dptr
after_read ab m =
    if ab == 0x8000
    then record m { acia = record m.acia { rx_valid = false } }
    else if ab == 0x80e6
    then record m { disk = step_dptr m.disk }
    else m

-- A write cycle.
unfoldable pub bus_write : ℕ → ℕ → Machine → Machine
unfolding ram_addr is_ctrl write_ctrl set_byte disk_cmd step_dptr
bus_write ab v m =
    if ltb ab 0x8000
    then record m { ram = update m.ram (ram_addr m.mmu ab) v }
    else if is_ctrl ab
    then (if m.mmu.kernel then record m { mmu = write_ctrl (low_bits ab 6) v m.mmu } else m)
    else if ab == 0x8000
    then record m {
      acia = record m.acia { tx_ready = false; tx_count = 86; sent = m.acia.sent ++ (v ∷ []) };
    }
    else if ab == 0x8002
    then record m { gpu_sent = m.gpu_sent ++ (v ∷ []) }
    else if ab == 0x80e0
    then record m { disk = record m.disk { lba = set_byte 0 v m.disk.lba } }
    else if ab == 0x80e1
    then record m { disk = record m.disk { lba = set_byte 1 v m.disk.lba } }
    else if ab == 0x80e2
    then record m { disk = record m.disk { lba = set_byte 2 v m.disk.lba } }
    else if ab == 0x80e3
    then record m { disk = record m.disk { lba = set_byte 3 v m.disk.lba } }
    else if ab == 0x80e4
    then record m { disk = disk_cmd v m.disk }
    else if ab == 0x80e6
    then record m { disk = step_dptr (record m.disk { buf = update m.disk.buf m.disk.dptr v }) }
    else if ab == 0x80e7
    then record m { disk = record m.disk { dptr = 0 } }
    else m

-- One clock without a bus write to the ACIA: its transmitter counts down.
unfoldable pub tick : Machine → Machine
tick m =
    if m.acia.tx_ready
    then m
    else if m.acia.tx_count == 0
    then record m { acia = record m.acia { tx_ready = true } }
    else record m { acia = record m.acia { tx_count = m.acia.tx_count - 1 } }

-- The poll of the input file: its next byte, if there is one, is received unless one is waiting.
unfoldable pub arrive : Option ℕ → Machine → Machine
arrive none m = m
arrive (some c) m =
    if m.acia.rx_valid
    then m
    else record m { acia = record m.acia { rx_data = c; rx_valid = true } }
