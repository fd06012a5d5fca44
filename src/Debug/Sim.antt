-- ===== src/Debug/Sim.antt =====
-- rtl/dbg/bbdbg_vpi.c: the sim* interface, which reads the model's signals through VPI handles. A
-- handle is the signal or array word that it was looked up for, so `readInt` is a read of it.
pub mod Decode
use bb6502_verilog.Common.{ℕ, ◌-◌, Bool, Option, none, some, ltb, leb, if◌then◌else◌}
use bb6502_verilog.Common.Bits.{shr, shl, low_bits, u8, bit_or}
use bb6502_verilog.Machine.Bus.{Machine}

abbrev pub rom_base : ℕ
rom_base = 0x8100

abbrev pub ram_words : ℕ
ram_words = 32768

abbrev pub rom_words : ℕ
rom_words = 32512

abbrev pub page_shift : ℕ
page_shift = 10

unfoldable pub sim_mmu_is_kernel : Machine → Bool
sim_mmu_is_kernel m = m.mmu.kernel

-- `vpage & (SIM_MMU_NPAGES - 1)` is the remainder by 32.
unfoldable pub sim_mmu_ppn : Machine → ℕ → ℕ
sim_mmu_ppn m vpage = u8 (m.mmu.ppn (low_bits vpage 5))

-- `paddr` of simReadMem.
unfoldable pub sim_paddr : Machine → ℕ → ℕ
unfolding sim_mmu_is_kernel sim_mmu_ppn
sim_paddr m addr =
    if sim_mmu_is_kernel m
    then addr
    else bit_or (shl (sim_mmu_ppn m (low_bits (shr addr page_shift) 5)) page_shift)
        (low_bits addr page_shift)

-- The index into `tb.ram`: `paddr & (RAM_WORDS - 1)`.
unfoldable pub sim_ram_index : Machine → ℕ → ℕ
unfolding sim_paddr
sim_ram_index m addr = low_bits (sim_paddr m addr) 15

-- `none` is the result `false`, for the I/O window.
unfoldable pub sim_read_mem : Machine → ℕ → Option ℕ
unfolding sim_ram_index
sim_read_mem m addr =
    if ltb addr 0x8000
    then some (u8 (m.ram (sim_ram_index m addr)))
    else if leb rom_base addr
    then some (u8 (m.rom (addr - rom_base)))
    else none
