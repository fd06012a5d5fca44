-- ===== src/Machine.antt =====
-- rtl/tb.v and rtl/mmu6502.v: the registers of the simulated computer that the C code reads and
-- writes, either over the bus (the kernel) or through VPI handles (the debugger). The CPU core is a
-- submodule; of it only the register file and the flags are here.
pub mod Mmu
pub mod Bus
pub mod Reads
pub mod Ram
