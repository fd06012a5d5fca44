-- ===== src/Programs/Syslib.antt =====
-- sw/prog/src/syslib.s, the stubs of syslib.h but sys_yield (Kernel/Entry/Yield). A register file stands for what the registers and the
-- stack pointer are at a call, with the address of the stub's BRK.
use bb6502_verilog.Common.{ℕ, ◌+◌, ◌==◌, if◌then◌else◌, Option, none, some}
use bb6502_verilog.Common.Bits.{shr, low_bits}
use bb6502_verilog.Common.Maybe.{◌>>=◌}
use bb6502_verilog.Machine.Bus.{Machine, data_in, bus_write}
use bb6502_verilog.Kernel.Syscalls.{
  Env, off_ret, off_arg0_lo, off_arg0_hi, off_arg1_lo, off_arg1_hi, off_a_reg,
}
use bb6502_verilog.Kernel.Entry.{Cpu, sys_call}

-- The numbers of the calls.
abbrev pub sys_putc_number : ℕ
sys_putc_number = 2

abbrev pub sys_puts_number : ℕ
sys_puts_number = 4

abbrev pub sys_block_read_number : ℕ
sys_block_read_number = 5

abbrev pub sys_block_write_number : ℕ
sys_block_write_number = 6

abbrev pub sys_getc_number : ℕ
sys_getc_number = 3

abbrev pub low_byte : ℕ → ℕ
low_byte v = low_bits v 8

abbrev pub high_byte : ℕ → ℕ
high_byte v = low_bits (shr v 8) 8

-- The program goes on behind the number byte; anywhere else it would be another one.
unfoldable pub go_on : (pc : ℕ) → ℕ × Machine → Option Machine
go_on pc (next, m) = if next == pc + 2 then some m else none

-- sys_exit; if the call came back, the stub would loop.
unfoldable pub sys_exit : Env → Cpu → (code : ℕ) → Machine → Option Machine
sys_exit env c code m =
    sys_call env (record c { a = code }) (bus_write off_a_reg code m) >>= λ r. none

-- sys_putc
unfoldable pub sys_putc : Env → Cpu → ℕ → Machine → Option Machine
sys_putc env c v m = sys_call env (record c { a = v }) (bus_write off_a_reg v m) >>= go_on c.pc

-- sys_puts: cc65 passes the pointer in A and X.
unfoldable pub sys_puts : Env → Cpu → ℕ → Machine → Option Machine
sys_puts env c s m =
    sys_call env (record c { a = low_byte s; x = high_byte s })
      (bus_write off_arg0_hi (high_byte s) (bus_write off_arg0_lo (low_byte s) m))
    >>= go_on c.pc

-- The result in the RET slot.
abbrev pub with_ret : Machine → Option (ℕ × Machine)
with_ret m = some (data_in off_ret m, m)

-- sys_block_read: the buffer is in A and X, and popax gives the number of the block.
unfoldable pub sys_block_read : Env → Cpu → (lba buf : ℕ) → Machine → Option (ℕ × Machine)
sys_block_read env c lba buf m =
    sys_call env (record c { a = low_byte lba; x = high_byte lba })
      (bus_write off_arg0_hi (high_byte lba) (
        bus_write off_arg0_lo (low_byte lba)
          (bus_write off_arg1_hi (high_byte buf) (bus_write off_arg1_lo (low_byte buf) m))))
    >>= go_on c.pc
    >>= with_ret

-- sys_block_write
unfoldable pub sys_block_write : Env → Cpu → (lba buf : ℕ) → Machine → Option (ℕ × Machine)
sys_block_write env c lba buf m =
    sys_call env (record c { a = low_byte lba; x = high_byte lba })
      (bus_write off_arg0_hi (high_byte lba) (
        bus_write off_arg0_lo (low_byte lba)
          (bus_write off_arg1_hi (high_byte buf) (bus_write off_arg1_lo (low_byte buf) m))))
    >>= go_on c.pc
    >>= with_ret

-- The byte in the A_REG slot.
abbrev pub with_key : Machine → Option (ℕ × Machine)
with_key m = some (data_in off_a_reg m, m)

-- sys_getc
unfoldable pub sys_getc : Env → Cpu → Machine → Option (ℕ × Machine)
sys_getc env c m = sys_call env c m >>= go_on c.pc >>= with_key
