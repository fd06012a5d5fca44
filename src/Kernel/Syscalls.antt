-- ===== src/Kernel/Syscalls.antt =====
-- sw/kernel/src/syscalls.c: the system calls and syscall_dispatch. A call that never comes back is
-- `none`.
pub mod Slots
pub mod Puts
pub mod Keys
pub mod Blocks
use bb6502_verilog.Common.{ℕ, ◌+◌, ◌^◌, ◌==◌, if◌then◌else◌, Option, none, some, List, [], ◌∷◌}
use bb6502_verilog.Common.Bits.{bit}
use bb6502_verilog.Common.Maybe.{◌>>=◌}
use bb6502_verilog.Machine.Bus.{Machine, data_in, after_read, bus_write, arrive}
use bb6502_verilog.Kernel.UserMemory.{u_zp, u_ptr, u_arg}
use bb6502_verilog.Kernel.Console.{put_both, k_print_at}
use bb6502_verilog.Kernel.ZeroPage.{ZeroPage}
use bb6502_verilog.Kernel.Block.{block_read, block_write}

-- SYS_ABI_BASE, which Common.mk sets, and the slots.
abbrev pub abi_base : ℕ
abi_base = 48

abbrev pub off_ret : ℕ
off_ret = abi_base + 0x03

abbrev pub off_arg0_lo : ℕ
off_arg0_lo = abi_base + 0x04

abbrev pub off_arg0_hi : ℕ
off_arg0_hi = abi_base + 0x05

abbrev pub off_arg1_lo : ℕ
off_arg1_lo = abi_base + 0x06

abbrev pub off_arg1_hi : ℕ
off_arg1_hi = abi_base + 0x07

abbrev pub off_a_reg : ℕ
off_a_reg = abi_base + 0x10

abbrev pub enosys : ℕ
enosys = 0xff

-- What is outside the kernel's source: where the linker has its pointers in the zero page, the clocks that a round of the serial port's wait takes, and, for the
-- rounds of the wait for a key, the byte that arrives in each.
pub record Env : Type 0 where
  pub zero_page : ZeroPage
  pub clocks : ℕ
  pub arrivals : List (Option ℕ)

-- `*u_zp(off)` and `*u_zp(off) = v`; a load of a slot changes nothing, since it is in the RAM.
unfoldable pub get_slot : ℕ → Machine → ℕ
get_slot off m = data_in (u_zp m off) m

unfoldable pub set_slot : ℕ → ℕ → Machine → Machine
set_slot off v m = bus_write (u_zp m off) v m

-- do_putc
unfoldable pub do_putc : Env → Machine → Option Machine
do_putc env m = put_both env.clocks (get_slot off_a_reg m) m >>= λ m1. some (set_slot off_ret 0 m1)

-- `while (!(*ACIA_STATUS & 0x01));`, a byte or none arriving in each round.
unfoldable pub wait_rx : List (Option ℕ) → Machine → Option Machine
wait_rx [] m = if bit (data_in 0x8001 m) 0 == 1 then some m else none
wait_rx (e ∷ es) m =
    let rest = wait_rx es (arrive e m) in if bit (data_in 0x8001 m) 0 == 1 then some m else rest

-- `*u_zp(OFF_A_REG) = *ACIA_DATA; *u_zp(OFF_RET) = 0;`
unfoldable pub take_key : Machine → Machine
take_key m = set_slot off_ret 0 (set_slot off_a_reg (data_in 0x8000 m) (after_read 0x8000 m))

-- do_getc
unfoldable pub do_getc : Env → Machine → Option Machine
do_getc env m = wait_rx env.arrivals m >>= λ m1. some (take_key m1)

-- do_puts; a pointer has 16 bits.
unfoldable pub do_puts : Env → Machine → Option Machine
do_puts env m =
    k_print_at env.clocks (2 ^ 16) (u_ptr m (u_arg m off_arg0_lo off_arg0_hi)) m >>= λ m1.
    some (set_slot off_ret 0 m1)

-- The call of the block driver, and its result in the slot.
unfoldable pub store_ret : Option (ℕ × Machine) → Option Machine
store_ret none = none
store_ret (some (r, m)) = some (set_slot off_ret r m)

-- do_block_read
unfoldable pub do_block_read : Env → Machine → Option Machine
do_block_read env m = store_ret (
    block_read env.zero_page (u_arg m off_arg0_lo off_arg0_hi)
      (u_ptr m (u_arg m off_arg1_lo off_arg1_hi)) m)

-- do_block_write
unfoldable pub do_block_write : Machine → Option Machine
do_block_write m =
    store_ret
      (block_write (u_arg m off_arg0_lo off_arg0_hi) (u_ptr m (u_arg m off_arg1_lo off_arg1_hi)) m)

-- do_getc_nb
unfoldable pub do_getc_nb : Machine → Machine
do_getc_nb m =
    if bit (data_in 0x8001 m) 0 == 1
    then take_key m
    else set_slot off_ret 1 (set_slot off_a_reg 0 m)

-- do_enosys, and the default of the switch.
unfoldable pub do_enosys : Machine → Machine
do_enosys m = set_slot off_ret enosys m

-- syscall_dispatch, by the number that brk.s leaves at $32; do_exit spins.
unfoldable pub syscall_dispatch : Env → Machine → Option Machine
syscall_dispatch env m =
    let num = data_in 0x32 m in
    if num == 1
    then none
    else if num == 2
    then do_putc env m
    else if num == 3
    then do_getc env m
    else if num == 4
    then do_puts env m
    else if num == 5
    then do_block_read env m
    else if num == 6
    then do_block_write m
    else if num == 8
    then some (do_getc_nb m)
    else some (do_enosys m)
