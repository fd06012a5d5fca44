-- ===== src/Machine/Reads.antt =====
-- The read mux of rtl/tb.v at the addresses of the RAM and the ROM.
use bb6502_verilog.Common.{ℕ, ◌-◌, ◌^◌, ◌<◌, ◌≤◌, ◌≡◌, lt→ltb, arith}
use bb6502_verilog.Machine.Mmu.{ram_addr}
use bb6502_verilog.Machine.Bus.{Machine, data_in}

pub data_in-ram :
    (m : Machine) (addr : ℕ) → addr < 0x8000 → data_in addr m ≡ m.ram (ram_addr m.mmu addr)
unfolding data_in
data_in-ram m addr h = let below = lt→ltb addr 0x8000 h in rw below

pub data_in-rom :
    (m : Machine) (addr : ℕ)
    → 0x8100 ≤ addr
    → addr < 2 ^ 16
    → data_in addr m ≡ m.rom (addr - 0x8100)
unfolding data_in
data_in-rom m addr h k = ground arith
