-- ===== src/Programs/Disktest.antt =====
-- sw/prog/src/disktest.c: puthex, and main up to its loop of sys_yield.
pub mod Printed
pub mod Reports
use bb6502_verilog.Common.{ℕ, ◌+◌, ◌&&◌, ◌==◌, if◌then◌else◌, Option, List}
use bb6502_verilog.Common.Bits.{shr, low_bits}
use bb6502_verilog.Common.Maybe.{◌>>=◌}
use bb6502_verilog.Clib.Chars.{text}
use bb6502_verilog.Machine.Bus.{Machine, data_in}
use bb6502_verilog.Kernel.Syscalls.{Env}
use bb6502_verilog.Kernel.Entry.{Cpu}
use bb6502_verilog.Programs.Syslib.{sys_putc, sys_puts, sys_block_read}

-- What the compiler and the linker decide: where the buffer, the table of digits and the literals
-- stand, the addresses of the BRKs of the stubs, and the registers at the calls, which main makes one
-- after the other.
pub record Linked : Type 0 where
  pub buf : ℕ
  pub hex : ℕ
  pub str_ret : ℕ
  pub str_sig : ℕ
  pub str_pass : ℕ
  pub str_fail : ℕ
  pub putc_brk : ℕ
  pub puts_brk : ℕ
  pub read_brk : ℕ
  pub cpu : ℕ → Cpu

-- The registers at call i of the stub whose BRK is at `brk`.
abbrev pub at_call : Linked → (i brk : ℕ) → Cpu
at_call l i brk = record (l.cpu i) { pc = brk }

abbrev pub text_ret : List ℕ
unfolding text
text_ret = text "        disktest: ret="

abbrev pub text_sig : List ℕ
unfolding text
text_sig = text " sig="

abbrev pub text_pass : List ℕ
unfolding text
text_pass = text " PASS\r\n"

abbrev pub text_fail : List ℕ
unfolding text
text_fail = text " FAIL\r\n"

-- puthex, whose calls are number i and i + 1: the digits are loads from the table.
unfoldable pub put_hex : Env → Linked → (i b : ℕ) → Machine → Option Machine
put_hex env l i b m =
    sys_putc env (at_call l i l.putc_brk) (data_in (l.hex + shr b 4) m) m >>= λ m1.
    sys_putc env (at_call l (i + 1) l.putc_brk) (data_in (l.hex + low_bits b 4) m1) m1

-- The last test of main, and the text that it chooses.
unfoldable pub verdict : Linked → (r : ℕ) → Machine → ℕ
verdict l r m =
    if r == 0 && data_in (l.buf + 510) m == 0x55 && data_in (l.buf + 511) m == 0xaa
    then l.str_pass
    else l.str_fail

-- main behind the call of sys_block_read, whose result is r.
unfoldable pub print_result : Env → Linked → (r : ℕ) → Machine → Option Machine
print_result env l r m = sys_puts env (at_call l 1 l.puts_brk) l.str_ret m >>= λ m1.
    put_hex env l 2 r m1 >>= λ m2. sys_puts env (at_call l 4 l.puts_brk) l.str_sig m2 >>= λ m3.
    put_hex env l 5 (data_in (l.buf + 510) m3) m3 >>= λ m4.
    sys_putc env (at_call l 7 l.putc_brk) b' ' m4 >>= λ m5.
    put_hex env l 8 (data_in (l.buf + 511) m5) m5 >>= λ m6.
    sys_puts env (at_call l 10 l.puts_brk) (verdict l r m6) m6

-- main, up to `while (1) sys_yield();`
unfoldable pub disktest_main : Env → Linked → Machine → Option Machine
disktest_main env l m =
    sys_block_read env (at_call l 0 l.read_brk) 0 l.buf m >>= λ (r, m1). print_result env l r m1
