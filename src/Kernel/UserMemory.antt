-- ===== src/Kernel/UserMemory.antt =====
-- sw/kernel/src/syscalls.c: the addresses of user memory (u_zp, u_ptr) and the 16-bit arguments.
pub mod Translate
pub mod Place
use bb6502_verilog.Common.{ℕ, ◌+◌}
use bb6502_verilog.Common.Bits.{shr, shl, low_bits, u16, bit_or}
use bb6502_verilog.Machine.Bus.{Machine, data_in}

-- `MMU_PPN0[n]`, a load over the bus; `MMU_PPN0` is $8080.
unfoldable pub mmu_ppn : Machine → ℕ → ℕ
mmu_ppn m n = data_in (0x8080 + n) m

-- u_zp; an int has 16 bits.
unfoldable pub u_zp : Machine → (off : ℕ) → ℕ
u_zp m off = bit_or (u16 (shl (mmu_ppn m 0) 10)) off

-- u_ptr
unfoldable pub u_ptr : Machine → (va : ℕ) → ℕ
u_ptr m va = bit_or (u16 (shl (mmu_ppn m (low_bits (shr va 10) 5)) 10)) (low_bits va 10)

-- u_arg: loads of the kernel, which the MMU does not translate.
unfoldable pub u_arg : Machine → (off_lo off_hi : ℕ) → ℕ
u_arg m off_lo off_hi = bit_or (data_in (u_zp m off_lo) m) (u16 (shl (data_in (u_zp m off_hi) m) 8))
