-- ===== src/Kernel/Console.antt =====
-- sw/kernel/src/kernel.c: output to the serial port and to the display port.
pub mod Output
pub mod Strings
use bb6502_verilog.Common.{
  ℕ, zero, suc, ◌+◌, ◌==◌, if◌then◌else◌, Option, none, some, List, [], ◌∷◌, get_or,
}
use bb6502_verilog.Common.Bits.{shr, low_bits, bit, u16}
use bb6502_verilog.Common.Maybe.{◌>>=◌}
use bb6502_verilog.Clib.Chars.{text}
use bb6502_verilog.Machine.Bus.{Machine, data_in, after_read, bus_write, tick}

unfoldable pub ticks : ℕ → Machine → Machine
ticks zero m = m
ticks (suc n) m = ticks n (tick m)

-- `while (!(*ACIA_STATUS & 0x02));` with a bound on the loads of the register. A round of the loop
-- takes `clocks` clocks, which is for the compiler and the CPU to say; they count while it waits.
unfoldable pub wait_tx : (clocks loads : ℕ) → Machine → Option Machine
wait_tx clocks zero m = none
wait_tx clocks (suc k) m =
    let rest = wait_tx clocks k (ticks clocks m) in
    if bit (data_in 0x8001 m) 1 == 1 then some m else rest

-- The loads that are enough, where the transmitter counts down from 86.
abbrev pub tx_loads : ℕ
tx_loads = 88

-- k_putc
unfoldable pub k_putc : (clocks c : ℕ) → Machine → Option Machine
k_putc clocks c m = elim (wait_tx clocks tx_loads m) [
  | none ↦ none
  | some m' ↦ some (bus_write 0x8000 c m')
]

-- `while (!(*GPU_STATUS & 0x01));`
unfoldable pub wait_gpu : (loads : ℕ) → Machine → Option (Unit {0})
wait_gpu zero m = none
wait_gpu (suc k) m =
    let rest = wait_gpu k m in if bit (data_in 0x8003 m) 0 == 1 then some tt else rest

-- k_gputc; the display port is always ready.
unfoldable pub k_gputc : (c : ℕ) → Machine → Option Machine
k_gputc c m = elim (wait_gpu 1 m) [ none ↦ none | some _ ↦ some (bus_write 0x8002 c m) ]

-- `k_putc(c); k_gputc(c);`
unfoldable pub put_both : (clocks c : ℕ) → Machine → Option Machine
put_both clocks c m = k_putc clocks c m >>= k_gputc c

-- `k_putc( *str); k_gputc( *str);`, which loads the character twice.
unfoldable pub put_char_at : (clocks str : ℕ) → Machine → Option Machine
put_char_at clocks str m = k_putc clocks (data_in str m) (after_read str m) >>= λ m1.
    k_gputc (data_in str m1) (after_read str m1)

-- k_print of a string in memory: the loads go over the bus. A pointer has 16 bits, so a string
-- without a NUL is never left; `chars` bounds its length.
unfoldable pub k_print_at : (clocks chars str : ℕ) → Machine → Option Machine
k_print_at clocks zero str m = none
k_print_at clocks (suc k) str m =
    if data_in str m == 0
    then some (after_read str m)
    else (put_char_at clocks str (after_read str m) >>= λ m'.
        k_print_at clocks k (u16 (str + 1)) m')

-- k_print of a literal of the kernel, which is the list of its bytes.
unfoldable pub k_print : (clocks : ℕ) → List ℕ → Machine → Option Machine
k_print clocks [] m = some m
k_print clocks (c ∷ cs) m = put_both clocks c m >>= k_print clocks cs

abbrev pub alphabet : List ℕ
unfolding text
alphabet = text "0123456789ABCDEF"

-- k_puthex
unfoldable pub k_puthex : (clocks b : ℕ) → Machine → Option Machine
k_puthex clocks b m =
    put_both clocks (get_or alphabet (shr b 4) 0) m
    >>= put_both clocks (get_or alphabet (low_bits b 4) 0)
