-- ===== src/Kernel/Tests/Calls.antt =====
-- The system calls at machines in a handler.
use bb6502_verilog.Common.{
  ℕ, ◌+◌, ◌*◌, ◌%◌, ◌^◌, ◌<◌, ◌≤◌, ◌≡◌, refl, [], ◌∷◌, none, some, ◌==◌, if◌then◌else◌, arith,
}
use bb6502_verilog.Machine.Mmu.{ram_addr}
use bb6502_verilog.Machine.Bus.{Machine, data_in}
use bb6502_verilog.Kernel.UserMemory.Translate.{in_user}
use bb6502_verilog.Kernel.Tests.{pointers, in_call}
use bb6502_verilog.Kernel.Syscalls.{Env, off_ret, off_arg0_lo, off_arg0_hi, syscall_dispatch}
use bb6502_verilog.Kernel.Syscalls.Slots.{InCall}
use bb6502_verilog.Kernel.Syscalls.Puts.{IsUserString, syscall_dispatch-puts}
use bb6502_verilog.Kernel.Syscalls.Blocks.{
  IsBlockCall, syscall_dispatch-block_read, syscall_dispatch-block_write,
}

-- The handler of system call n, whose first argument is 0x3534 and whose second is 0x3436. The string
-- "Hi" stands where the first one points.
abbrev numbered : ℕ → Machine
numbered n = record in_call {
  ram = λ i.
      if i == 0x32
      then n % 256
      else if i == 0x7c37
      then 0x34
      else if i == 0x4934
      then 72
      else if i == 0x4935
      then 105
      else if i == 0x4936
      then 0
      else i % 256;
}

numbered-InCall : (n : ℕ) → InCall (numbered n)
numbered-InCall n = record { kernel = refl; table = λ i. omega arith; bytes = λ i. ground arith }

-- Two rounds of the wait without a key, and then the key A.
abbrev keyboard : Env
keyboard = record { zero_page = pointers; clocks = 4; arrivals = none ∷ (none ∷ (some 65 ∷ [])) }

puts_arg :
    data_in off_arg0_hi (in_user (numbered 4)) * 2 ^ 8 + data_in off_arg0_lo (in_user (numbered 4))
    ≡ 0x3534
unfolding data_in ram_addr
puts_arg = refl

puts_string : IsUserString (72 ∷ (105 ∷ [])) 0x3534 (numbered 4)
unfolding data_in ram_addr
puts_string = (refl, refl, (refl, refl, refl))

syscall_dispatch-puts_example :
    (m' : Machine) × (syscall_dispatch keyboard (numbered 4) ≡ some m')
    × (m'.acia.sent ≡ 72 ∷ (105 ∷ []))
    × (m'.gpu_sent ≡ 72 ∷ (105 ∷ []))
    × (data_in off_ret (in_user m') ≡ 0)
syscall_dispatch-puts_example =
    syscall_dispatch-puts keyboard (numbered 4) 0x3534 (72 ∷ (105 ∷ [])) (numbered-InCall 4) refl
      (omega arith) (omega arith) puts_arg puts_string (omega arith) (omega arith)

-- The same with a disk image.
abbrev block_call : ℕ → Machine
block_call n = record (numbered n) { disk = record (numbered n).disk { image = some λ i. i % 251 } }

numbered-IsBlockCall : IsBlockCall 0x3534 0x3436 (numbered 5)
unfolding data_in ram_addr
numbered-IsBlockCall = record {
  call = numbered-InCall 5;
  arg0 = refl;
  arg1 = refl;
  low = omega arith;
  page = omega arith;
  old_lba = omega arith;
}

block_call-IsBlockCall : (n : ℕ) → IsBlockCall 0x3534 0x3436 (block_call n)
unfolding data_in ram_addr
block_call-IsBlockCall n = record {
  call = record { kernel = refl; table = λ i. omega arith; bytes = (numbered-InCall n).bytes };
  arg0 = refl;
  arg1 = refl;
  low = omega arith;
  page = omega arith;
  old_lba = omega arith;
}

syscall_dispatch-block_read_example :
    (m' : Machine) × (syscall_dispatch keyboard (block_call 5) ≡ some m')
    × ((i : ℕ) → i < 512 → data_in (0x3436 + i) (in_user m') ≡ (0x3534 * 512 + i) % 251)
    × (data_in off_ret (in_user m') ≡ 0)
    × (m'.mmu ≡ (block_call 5).mmu)
syscall_dispatch-block_read_example =
    syscall_dispatch-block_read keyboard (block_call 5) 0x3534 0x3436 (λ i. i % 251)
      (block_call-IsBlockCall 5) refl refl (omega arith) (omega arith) (omega arith)

syscall_dispatch-block_write_example :
    (m' : Machine) × (img' : ℕ → ℕ) × (syscall_dispatch keyboard (block_call 6) ≡ some m')
    × (m'.disk.image ≡ some img')
    × ((i : ℕ) → i < 512 → img' (0x3534 * 512 + i) ≡ data_in (0x3436 + i) (in_user (block_call 6)))
    × ((a : ℕ) → a < 0x3534 * 512 → img' a ≡ a % 251)
    × ((a : ℕ) → 0x3534 * 512 + 512 ≤ a → img' a ≡ a % 251)
    × (data_in off_ret (in_user m') ≡ 0)
syscall_dispatch-block_write_example =
    syscall_dispatch-block_write keyboard (block_call 6) 0x3534 0x3436 (λ i. i % 251)
      (block_call-IsBlockCall 6) refl refl
