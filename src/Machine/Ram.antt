-- ===== src/Machine/Ram.antt =====
-- Accesses of the RAM and of the page table over the bus in kernel mode, where an address is not
-- translated.
use bb6502_verilog.Common.{
  ℕ, ◌+◌, ◌==◌, ◌^◌, ◌<◌, ◌≡◌, ◌∙◌, refl, ap, true, false, ltb, lt→ltb, arith,
}
use bb6502_verilog.Common.Bits.{shr, low_bits}
use bb6502_verilog.Machine.Mmu.{update, ram_addr, is_ctrl, write_ctrl}
use bb6502_verilog.Machine.Bus.{Machine, data_in, after_read, bus_write}
use bb6502_verilog.Machine.Reads.{data_in-ram}

pub kernel_addr : (m : Machine) (a : ℕ) → a < 2 ^ 15 → m.mmu.kernel ≡ true → ram_addr m.mmu a ≡ a
unfolding ram_addr
kernel_addr m a h k = rw k (omega arith)

pub data_in-kernel :
    (m : Machine) (a : ℕ) → m.mmu.kernel ≡ true → a < 2 ^ 15 → data_in a m ≡ m.ram a
data_in-kernel m a k h = data_in-ram m a h ∙ ap m.ram (kernel_addr m a h k)

pub bus_write-kernel :
    (a v : ℕ) (m : Machine)
    → a < 2 ^ 15
    → m.mmu.kernel ≡ true
    → bus_write a v m ≡ record m { ram = update m.ram a v }
unfolding bus_write
bus_write-kernel a v m h k =
    let low : ltb a 0x8000 ≡ true = lt→ltb a 0x8000 h in rw (low, kernel_addr m a h k) refl

-- A load of the RAM changes nothing.
pub after_read-ram : (a : ℕ) (m : Machine) → a < 2 ^ 15 → after_read a m ≡ m
unfolding after_read
after_read-ram a m h = ground arith

-- The machine with another page table.
abbrev pub with_ppn : (ℕ → ℕ) → Machine → Machine
with_ppn f m = record m { mmu = record m.mmu { ppn = f } }

pub bus_write-ppn :
    (x v : ℕ) (m : Machine)
    → x < 32
    → m.mmu.kernel ≡ true
    → v < 32
    → bus_write (0x8080 + x) v m ≡ with_ppn (update m.mmu.ppn x v) m
unfolding bus_write is_ctrl write_ctrl
bus_write-ppn x v m h kernel small =
    let high : ltb (0x8080 + x) 0x8000 ≡ false = ground arith in
    let ctrl : (shr (0x8080 + x) 6 == 0x202) ≡ true = ground arith in
    let off : low_bits (0x8080 + x) 6 ≡ x = omega arith in
    let low : ltb x 0x20 ≡ true = lt→ltb x 0x20 h in
    let five : low_bits v 5 ≡ v = omega arith in rw (high, ctrl, kernel, off, low, five) refl
