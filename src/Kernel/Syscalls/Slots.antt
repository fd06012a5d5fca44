-- ===== src/Kernel/Syscalls/Slots.antt =====
-- The slots of a system call in the user's zero page, and the numbers that no call has.
use bb6502_verilog.Common.{ℕ, ◌+◌, ◌*◌, ◌^◌, ◌<◌, ◌≤◌, ◌≡◌, refl, ◌∙◌, ap, ◌⊎◌, true, some, arith}
use bb6502_verilog.Machine.Mmu.{IsTable, update}
use bb6502_verilog.Machine.Bus.{Machine, data_in, bus_write}
use bb6502_verilog.Machine.Ram.{data_in-kernel, bus_write-kernel}
use bb6502_verilog.Kernel.UserMemory.{u_arg}
use bb6502_verilog.Kernel.UserMemory.Translate.{u_arg-data_in, in_user, u_zp_lem, data_in-user}
use bb6502_verilog.Kernel.Syscalls.{
  Env, get_slot, set_slot, off_ret, enosys, do_enosys, syscall_dispatch,
}

-- The machine in the handler of a system call.
pub record InCall (m : Machine) : Type 0 where
  pub kernel : m.mmu.kernel ≡ true
  pub table : IsTable m.mmu.ppn
  pub bytes : (i : ℕ) → m.ram i < 256

-- Where a slot of the user's zero page lies in the RAM.
abbrev pub slot : Machine → ℕ → ℕ
slot m off = m.mmu.ppn 0 * 2 ^ 10 + off

-- The machine with a byte in a slot.
abbrev pub with_slot : ℕ → ℕ → Machine → Machine
with_slot off v m = record m { ram = update m.ram (slot m off) v }

pub set_slot_lem :
    (off v : ℕ) (m : Machine)
    → m.mmu.kernel ≡ true
    → IsTable m.mmu.ppn
    → off < 256
    → set_slot off v m ≡ with_slot off v m
unfolding set_slot
set_slot_lem off v m kernel table h =
    ap (λ a. bus_write a v m) (u_zp_lem m off table h)
    ∙ bus_write-kernel (slot m off) v m (omega (arith, table 0)) kernel

pub get_slot_lem :
    (off : ℕ) (m : Machine) → InCall m → off < 256 → get_slot off m ≡ m.ram (slot m off)
unfolding get_slot
get_slot_lem off m call h =
    ap (λ a. data_in a m) (u_zp_lem m off call.table h)
    ∙ data_in-kernel m (slot m off) call.kernel (omega (arith, call.table 0))

pub number_lem : (m : Machine) (n : ℕ) → InCall m → m.ram 0x32 ≡ n → data_in 0x32 m ≡ n
number_lem m n call number = data_in-kernel m 0x32 call.kernel (omega arith) ∙ number

-- u_arg's word in the terms of the user.
pub user_arg :
    (m : Machine) (lo hi va : ℕ)
    → InCall m
    → lo < 256
    → hi < 256
    → data_in hi (in_user m) * 2 ^ 8 + data_in lo (in_user m) ≡ va
    → u_arg m lo hi ≡ va
user_arg m lo hi va call l h word =
    u_arg-data_in m lo hi call.kernel call.table call.bytes l h ∙ word

pub user_word :
    (m : Machine) (lo hi va : ℕ)
    → InCall m
    → lo < 256
    → hi < 256
    → data_in hi (in_user m) * 2 ^ 8 + data_in lo (in_user m) ≡ va
    → va < 2 ^ 16
user_word m lo hi va call l h word = omega (
  arith,
  word,
  data_in-user m lo l,
  data_in-user m hi h,
  call.bytes (slot m lo),
  call.bytes (slot m hi),
)

-- A system call with a number that no call has, 0 and 7 among them, returns: the user reads 0xff in
-- the RET slot, and nothing else of the machine has changed.
pub syscall_dispatch-unknown :
    (env : Env) (m : Machine) (n : ℕ)
    → InCall m
    → m.ram 0x32 ≡ n
    → (n ≡ 0) ⊎ (n ≡ 7) ⊎ (9 ≤ n)
    → (m' : Machine) × (syscall_dispatch env m ≡ some m')
      × (data_in off_ret (in_user m') ≡ 0xff)
      × (m' ≡ with_slot off_ret enosys m)
unfolding syscall_dispatch do_enosys
syscall_dispatch-unknown env m n call number other =
    let m' = with_slot off_ret enosys m in
    (
      m',
      rw (number_lem m n call number)
          (ground (arith, set_slot_lem off_ret enosys m call.kernel call.table (omega arith))),
      data_in-user m' off_ret (omega arith) ∙ ground arith,
      refl,
    )
