-- ===== src/Kernel/Entry.antt =====
-- sw/kernel/src/brk.s, with the vectors of sw/boot/boot.s: the way from a BRK of the user's program
-- into the kernel and back. BRK pushes the address behind the number byte and the status; the fetch
-- of the vector puts the MMU into kernel mode.
pub mod Writes
pub mod Number
pub mod Stack
pub mod Call
pub mod Yield
pub mod Resumes
use bb6502_verilog.Common.{ℕ, ◌+◌, ◌-◌, ◌*◌, ◌==◌, if◌then◌else◌, true, Option, none, some}
use bb6502_verilog.Common.Bits.{shr, shl, low_bits, bit, u8, u16, bit_or}
use bb6502_verilog.Common.Maybe.{◌>>=◌}
use bb6502_verilog.Machine.Bus.{Machine, data_in, bus_write}
use bb6502_verilog.Kernel.Syscalls.{Env, syscall_dispatch}

-- The registers of the CPU when a stub executes BRK, and the address of the BRK.
pub record Cpu : Type 0 where
  pub a : ℕ
  pub x : ℕ
  pub y : ℕ
  pub p : ℕ
  pub sp : ℕ
  pub pc : ℕ

-- The stack pointer behind a push.
abbrev pub pushed : ℕ → ℕ
pushed sp = u8 (sp + 255)

-- A push: the stack is page 1 of the address space.
unfoldable pub push : (sp v : ℕ) → Machine → Machine
push sp v m = bus_write (0x100 + sp) v m

-- PHA, PHX, PHY.
unfoldable pub push_registers : Cpu → Machine → Machine
push_registers c m = push (pushed (pushed c.sp)) c.y (push (pushed c.sp) c.x (push c.sp c.a m))

-- BRK from the stack pointer sp: the high byte and the low byte of the return address, and the status
-- with B set.
unfoldable pub push_brk : (sp pc p : ℕ) → Machine → Machine
push_brk sp pc p m =
    push (pushed (pushed sp)) (bit_or p 0x30)
      (push (pushed sp) (low_bits (pc + 2) 8) (push sp (low_bits (shr (pc + 2) 8) 8) m))

-- The fetch of the vector.
abbrev pub in_kernel : Machine → Machine
in_kernel m = record m { mmu = record m.mmu { kernel = true } }

-- brk_handler: ZP_MEM_PTR ($54) is set to the user's stack in the RAM, as `sp` has it.
unfoldable pub set_frame_ptr : (sp : ℕ) → Machine → Machine
set_frame_ptr sp m =
    bus_write 0x54 sp (bus_write 0x55 (bit_or (u8 (shl (data_in 0x8080 m) 2)) 0x01) m)

-- `lda (ptr),y`
unfoldable pub load_at : (ptr y : ℕ) → Machine → ℕ
load_at ptr y m = data_in (u16 (data_in (ptr + 1) m * 256 + data_in ptr m + y)) m

-- ZP_SYS_NUM_PTR ($30) is set to the saved address less 1, in the user's terms.
unfoldable pub set_num_ptr : Machine → Machine
set_num_ptr m =
    let pcl = load_at 0x54 2 m in
    let m1 = bus_write 0x30 (u8 (pcl + 255)) m in
    bus_write 0x31 (u8 (load_at 0x54 3 m1 + 256 - (if pcl == 0 then 1 else 0))) m1

-- Its high byte is translated by the page table.
unfoldable pub translate_num_ptr : Machine → Machine
translate_num_ptr m =
    let high = data_in 0x31 m in
    let m1 = bus_write 0x31 (low_bits high 2) m in
    bus_write 0x31
      (bit_or (u8 (shl (data_in (0x8080 + low_bits (shr high 2) 5) m1) 2)) (data_in 0x31 m1)) m1

-- The number goes to ZP_SYS_NUM ($32).
unfoldable pub fetch_number : Machine → Machine
fetch_number m = bus_write 0x32 (load_at 0x30 0 m) m

-- How brk_handler ends: at do_yield (Kernel/Switch), or back in the user's program, if the call comes
-- back.
pub data Handled : Type 0 where
  yields : Machine → Handled
  returns : Option Machine → Handled

-- brk_handler, with the stack pointer that it finds: an IRQ goes back at once.
unfoldable pub brk_handler : Env → (sp : ℕ) → Machine → Handled
brk_handler env sp m =
    let m1 = set_frame_ptr sp m in
    let m2 = fetch_number (translate_num_ptr (set_num_ptr m1)) in
    if bit (load_at 0x54 1 m1) 4 == 1
    then (if data_in 0x32 m2 == 0 then yields m2 else returns (syscall_dispatch env m2))
    else returns (some m1)

-- ret_user_mode: STZ $80A8, and RTI from the user's stack, which gives the address to go on at.
unfoldable pub ret_user_mode : (sp : ℕ) → Machine → ℕ × Machine
ret_user_mode sp m =
    let m1 = bus_write 0x80a8 0 m in
    (data_in (0x100 + u8 (sp + 3)) m1 * 256 + data_in (0x100 + u8 (sp + 2)) m1, m1)

-- From BRK, at the stack pointer sp, to the way back, at sp'.
unfoldable pub call_at : Env → Cpu → (sp sp' : ℕ) → Machine → Option (ℕ × Machine)
call_at env c sp sp' m =
    elim (brk_handler env sp' (in_kernel (push_brk sp c.pc c.p (push_registers c m)))) [
      | yields m' ↦ none
      | returns o ↦ (o >>= λ m'. some (ret_user_mode sp' m'))
    ]

-- A system call that comes back: PHA, PHX, PHY, BRK, the handler and the way back, with the address
-- to go on at.
unfoldable pub sys_call : Env → Cpu → Machine → Option (ℕ × Machine)
sys_call env c m =
    call_at env c (pushed (pushed (pushed c.sp)))
      (pushed (pushed (pushed (pushed (pushed (pushed c.sp)))))) m
