-- ===== src/Kernel/ZeroPage.antt =====
-- The kernel's variables in its zero page that its assembly uses: zp_ptr of sw/kernel/src/block.c, and
-- cc65's ptr1 and ptr2 in sw/kernel/src/memcpy512.s. Their addresses are the linker's: the area ZP of
-- sw/kernel/kernel.cfg is $0000-$001F.
pub mod Pointers
use bb6502_verilog.Common.{ℕ, ◌+◌, ◌*◌, ◌≤◌, ◌⊎◌}
use bb6502_verilog.Common.Bits.{shr, u8, u16}
use bb6502_verilog.Machine.Bus.{Machine, data_in, bus_write}

-- The addresses, with what the linker keeps.
pub record ZeroPage : Type 0 where
  pub zp_ptr : ℕ
  pub ptr1 : ℕ
  pub ptr2 : ℕ
  pub zp_ptr_in : zp_ptr + 2 ≤ 0x20
  pub ptr1_in : ptr1 + 2 ≤ 0x20
  pub ptr2_in : ptr2 + 2 ≤ 0x20
  pub disjoint : (ptr1 + 2 ≤ ptr2) ⊎ (ptr2 + 2 ≤ ptr1)

-- A store of a pointer.
unfoldable pub set_ptr : (p v : ℕ) → Machine → Machine
set_ptr p v m = bus_write (p + 1) (u8 (shr v 8)) (bus_write p (u8 v) m)

-- The address of `(p),y`.
abbrev pub indirect : (p y : ℕ) → Machine → ℕ
indirect p y m = u16 (data_in (p + 1) m * 256 + data_in p m + y)

-- `inc p+1` and `dec p+1`
unfoldable pub inc_high : ℕ → Machine → Machine
inc_high p m = bus_write (p + 1) (u8 (data_in (p + 1) m + 1)) m

unfoldable pub dec_high : ℕ → Machine → Machine
dec_high p m = bus_write (p + 1) (u8 (data_in (p + 1) m + 255)) m
