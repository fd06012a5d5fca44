-- ===== src/Programs/Hello.antt =====
-- sw/prog/src/hello.c and hello2.c: a round of their loops, up to its sys_yield. The two differ in
-- their first literal.
pub mod Lines
use bb6502_verilog.Common.{ℕ, ◌+◌, Option, some, List}
use bb6502_verilog.Common.Bits.{u8, u16}
use bb6502_verilog.Common.Maybe.{◌>>=◌}
use bb6502_verilog.Clib.Chars.{text}
use bb6502_verilog.Machine.Bus.{Machine}
use bb6502_verilog.Kernel.Syscalls.{Env}
use bb6502_verilog.Kernel.Entry.{Cpu}
use bb6502_verilog.Programs.Syslib.{sys_putc, sys_puts}

-- What the compiler and the linker decide: where the two literals stand, the addresses of the BRKs,
-- and the registers at the three calls.
pub record Counter : Type 0 where
  pub str_proc : ℕ
  pub str_end : ℕ
  pub putc_brk : ℕ
  pub puts_brk : ℕ
  pub cpu : ℕ → Cpu

abbrev pub at_call : Counter → (i brk : ℕ) → Cpu
at_call h i brk = record (h.cpu i) { pc = brk }

abbrev pub text_proc1 : List ℕ
unfolding text
text_proc1 = text "Proc1:"

abbrev pub text_proc2 : List ℕ
unfolding text
text_proc2 = text "    Proc2:"

abbrev pub text_end : List ℕ
unfolding text
text_end = text "\r\n"

-- A round with the counter i, and the counter behind it; an int has 16 bits, and sys_putc takes 8.
unfoldable pub count_round : Env → Counter → (i : ℕ) → Machine → Option (ℕ × Machine)
count_round env h i m = sys_puts env (at_call h 0 h.puts_brk) h.str_proc m >>= λ m1.
    sys_putc env (at_call h 1 h.putc_brk) (u8 (i + b'0')) m1 >>= λ m2.
    sys_puts env (at_call h 2 h.puts_brk) h.str_end m2 >>= λ m3. some (u16 (i + 1), m3)

-- The loop of hello.c.
unfoldable pub hello_round : Env → Counter → (i : ℕ) → Machine → Option (ℕ × Machine)
hello_round = count_round

-- The loop of hello2.c.
unfoldable pub hello2_round : Env → Counter → (i : ℕ) → Machine → Option (ℕ × Machine)
hello2_round = count_round
