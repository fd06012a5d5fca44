-- ===== src/Kernel/Console/Strings.antt =====
-- k_print of a string that stands in the RAM.
use bb6502_verilog.Common.{
  ℕ, zero, suc, ◌+◌, ◌<◌, ◌≡◌, refl, ◌∙◌, ap, ◌^◌, true, false, some, List, [], ◌∷◌, ◌==◌, length,
  arith,
}
use bb6502_verilog.Common.Bits.{u16}
use bb6502_verilog.Machine.Bus.{Machine}
use bb6502_verilog.Machine.Ram.{data_in-kernel, after_read-ram}
use bb6502_verilog.Kernel.Console.{put_char_at, k_print_at}
use bb6502_verilog.Kernel.Console.Output.{
  Counts, sent_to_acia, sent_to_gpu, k_putc_lem, k_gputc_lem, shown, shown-cons,
}

-- The bytes `cs`, none of them a NUL, and a NUL behind them stand at address `s`.
abbrev pub IsString : List ℕ → ℕ → (ℕ → ℕ) → Type 0
IsString [] s ram = ram s ≡ 0
IsString (c ∷ cs) s ram = (ram s ≡ c) × ((c == 0) ≡ false) × IsString cs (s + 1) ram

put_char_at_lem :
    (clocks s c : ℕ) (m : Machine)
    → 0 < clocks
    → Counts m
    → m.mmu.kernel ≡ true
    → s < 2 ^ 15
    → m.ram s ≡ c
    → put_char_at clocks s m ≡ some (sent_to_gpu c (sent_to_acia c m))
unfolding put_char_at
put_char_at_lem clocks s c m h few kernel low byte =
    let m1 = sent_to_acia c m in
    let load = data_in-kernel m s kernel low ∙ byte in
    let again = data_in-kernel m1 s kernel low ∙ byte in
    rw (load, after_read-ram s m low, k_putc_lem clocks c m h few, again, after_read-ram s m1 low)
      (k_gputc_lem c m1)

next_char :
    (clocks k s c : ℕ) (m : Machine)
    → 0 < clocks
    → Counts m
    → m.mmu.kernel ≡ true
    → s + 1 < 2 ^ 15
    → m.ram s ≡ c
    → (c == 0) ≡ false
    → k_print_at clocks (suc k) s m ≡ k_print_at clocks k (s + 1) (sent_to_gpu c (sent_to_acia c m))
unfolding k_print_at
next_char clocks k s c m h few kernel low byte full =
    let load = data_in-kernel m s kernel (omega arith) ∙ byte in
    let quiet = after_read-ram s m (omega arith) in
    let next : u16 (s + 1) ≡ s + 1 = omega arith in
    rw
      (
        k_print_at,
        load,
        full,
        quiet,
        put_char_at_lem clocks s c m h few kernel (omega arith) byte,
        next,
      )
      refl

last_char :
    (clocks k s : ℕ) (m : Machine)
    → m.mmu.kernel ≡ true
    → s < 2 ^ 15
    → m.ram s ≡ 0
    → k_print_at clocks (suc k) s m ≡ some m
unfolding k_print_at
last_char clocks k s m kernel low byte =
    let load = data_in-kernel m s kernel (omega arith) ∙ byte in
    rw (k_print_at, load, after_read-ram s m low) refl

-- In kernel mode, with a string that ends below the I/O window, k_print of its address sends the
-- string both ways and comes back, for any bound above its length.
pub k_print_at-shown :
    (clocks k s : ℕ) (cs : List ℕ) (m : Machine)
    → 0 < clocks
    → Counts m
    → m.mmu.kernel ≡ true
    → IsString cs s m.ram
    → s + length cs < 2 ^ 15
    → length cs < k
    → k_print_at clocks k s m ≡ some (shown cs m)
unfolding shown
k_print_at-shown clocks zero s cs m h few kernel str low more = absurd (omega arith)
k_print_at-shown clocks (suc k) s [] m h few kernel str low more =
    last_char clocks k s m kernel (omega arith) str
k_print_at-shown clocks (suc k) s (c ∷ cs) m h few kernel (byte, full, rest) low more =
    next_char clocks k s c m h few kernel (omega arith) byte full
    ∙ k_print_at-shown clocks k (s + 1) cs (sent_to_gpu c (sent_to_acia c m)) h (omega arith) kernel
        rest (omega arith) (omega arith)
    ∙ ap some (shown-cons c cs m)
