-- ===== src/Debug/Sim/Decode.antt =====
-- simReadMem against the hardware's own decode (rtl/mmu6502.v and the read mux of rtl/tb.v).
use bb6502_verilog.Common.{ℕ, ◌-◌, ◌^◌, ◌<◌, ◌≤◌, ◌≡◌, ◌⊎◌, inl, inr, lt→ltb, ap, some, arith}
use bb6502_verilog.Common.Bits.{bit_or-shifted, shr, low_bits}
use bb6502_verilog.Machine.Mmu.{IsTable, ram_addr}
use bb6502_verilog.Machine.Bus.{Machine, data_in}
use bb6502_verilog.Machine.Reads.{data_in-ram, data_in-rom}
use bb6502_verilog.Debug.Sim.{
  sim_mmu_ppn, sim_ram_index, sim_read_mem, rom_base, ram_words, rom_words,
}

-- The widths of the model's registers: page numbers of 5 bits and memory words of 8.
pub record IsWired (m : Machine) : Type 0 where
  pub pages : IsTable m.mmu.ppn
  pub ram_bytes : (i : ℕ) → m.ram i < 256
  pub rom_bytes : (i : ℕ) → m.rom i < 256

ram_index_lem :
    (m : Machine) (addr : ℕ)
    → IsWired m
    → addr < 0x8000
    → (sim_ram_index m addr ≡ ram_addr m.mmu addr) × (sim_ram_index m addr < ram_words)
unfolding sim_ram_index ram_addr
ram_index_lem m addr w h = ground (
  arith,
  w.pages (low_bits (shr addr 10) 5),
  bit_or-shifted 10 (sim_mmu_ppn m (low_bits (shr addr 10) 5)) (low_bits addr 10) (omega arith),
)

ram_index-in : (m : Machine) (addr : ℕ) → sim_ram_index m addr < ram_words
unfolding sim_ram_index
ram_index-in m addr = omega arith

read-ram :
    (m : Machine) (addr : ℕ)
    → IsWired m
    → addr < 0x8000
    → sim_read_mem m addr ≡ some (data_in addr m)
unfolding sim_read_mem
read-ram m addr w h =
    rw (data_in-ram m addr h, lt→ltb addr 0x8000 h, (ram_index_lem m addr w h).0)
      (ap some (omega (arith, w.ram_bytes (ram_addr m.mmu addr))))

read-rom :
    (m : Machine) (addr : ℕ)
    → IsWired m
    → rom_base ≤ addr
    → addr < 2 ^ 16
    → sim_read_mem m addr ≡ some (data_in addr m)
unfolding sim_read_mem
read-rom m addr w h k = rw (data_in-rom m addr h k) (ground (arith, w.rom_bytes (addr - rom_base)))

-- Outside the I/O window the debugger reads exactly the byte that the CPU would read over the bus
-- at that address in the MMU's current state. The index into the RAM, and the one into the ROM, are
-- in range.
pub sim_read_mem-data_in :
    (m : Machine) (addr : ℕ)
    → IsWired m
    → addr < 2 ^ 16
    → (addr < 0x8000) ⊎ (rom_base ≤ addr)
    → (sim_read_mem m addr ≡ some (data_in addr m))
      × (sim_ram_index m addr < ram_words)
      × (addr - rom_base < rom_words)
sim_read_mem-data_in m addr w h (inl low) =
    (read-ram m addr w low, ram_index-in m addr, omega arith)
sim_read_mem-data_in m addr w h (inr high) =
    (read-rom m addr w high h, ram_index-in m addr, omega arith)
