-- ===== src/Kernel/Entry/Call.antt =====
-- A system call from the BRK to the handler, and the way back.
use bb6502_verilog.Common.{
  ℕ, ◌+◌, ◌-◌, ◌*◌, ◌/◌, ◌%◌, ◌^◌, ◌<◌, ◌≤◌, ◌≡◌, ◌≢◌, ◌⊎◌, refl, sym, ◌∙◌, ap, ap₂, false, ◌==◌,
  if◌then◌else◌, Option, some, arith,
}
use bb6502_verilog.Common.Bits.{u8, low_bits}
use bb6502_verilog.Common.Maybe.{◌>>=◌}
use bb6502_verilog.Machine.Mmu.{ram_addr, vpn}
use bb6502_verilog.Machine.Bus.{Machine, data_in}
use bb6502_verilog.Machine.Ram.{data_in-kernel}
use bb6502_verilog.Machine.Reads.{data_in-ram}
use bb6502_verilog.Kernel.UserMemory.Translate.{user, in_user}
use bb6502_verilog.Kernel.Syscalls.{Env, syscall_dispatch}
use bb6502_verilog.Kernel.Entry.{
  Cpu, pushed, push_registers, push_brk, in_kernel, set_frame_ptr, set_num_ptr, translate_num_ptr,
  fetch_number, yields, returns, brk_handler, ret_user_mode, call_at, sys_call,
}
use bb6502_verilog.Kernel.Entry.Writes.{poke, leave_lem}
use bb6502_verilog.Kernel.Entry.Number.{set_frame_ptr_lem, load_at_lem, number_stored}
use bb6502_verilog.Kernel.Entry.Stack.{
  IsUsable, IsCpu, IsStub, frame_at, Pushed, pushes_lem, status_lem,
}

-- The RAM when syscall_dispatch starts: the number, the return address, and what has not changed.
pub record Entered (n : ℕ) (c : Cpu) (m : Machine) (r : ℕ → ℕ) : Type 0 where
  pub number : r 0x32 ≡ n
  pub pcl : r (frame_at c m + 2) ≡ (c.pc + 2) % 256
  pub pch : r (frame_at c m + 3) ≡ (c.pc + 2) / 256 % 256
  pub kept : (a : ℕ) → 2 ^ 10 ≤ a → (a ≤ frame_at c m) ⊎ (frame_at c m + 6 < a) → r a ≡ m.ram a
  pub bytes : (i : ℕ) → r i < 256

-- A cell of the user's memory behind its page 0 is not where the stack is.
away_lem :
    (c : Cpu) (m : Machine) (va : ℕ)
    → IsCpu c
    → m.mmu.ppn (vpn va) ≢ 0
    → m.mmu.ppn (vpn va) ≢ m.mmu.ppn 0
    → (2 ^ 10 ≤ ram_addr (user m.mmu) va)
      × ((ram_addr (user m.mmu) va ≤ frame_at c m) ⊎ (frame_at c m + 6 < ram_addr (user m.mmu) va))
unfolding ram_addr
away_lem c m va cpu kernel own =
    (omega (arith, kernel), ground (arith, cpu.sp_small, cpu.room, own))

-- The machine when the handler has fetched the number.
abbrev pub handler_machine : (sp : ℕ) → Machine → Machine
handler_machine sp m = fetch_number (translate_num_ptr (set_num_ptr (set_frame_ptr sp m)))

pub handled_lem :
    (env : Env) (n : ℕ) (c : Cpu) (m : Machine) (r0 : ℕ → ℕ)
    → IsUsable m
    → IsCpu c
    → IsStub n c.pc m
    → Pushed c m r0
    → (r : ℕ → ℕ) × (brk_handler env (c.sp - 6) (in_kernel (record m { ram = r0 })) ≡ (
        if n == 0
        then yields (in_kernel (record m { ram = r }))
        else returns (syscall_dispatch env (in_kernel (record m { ram = r })))))
      × (handler_machine (c.sp - 6) (in_kernel (record m { ram = r0 }))
          ≡ in_kernel (record m { ram = r }))
      × Entered n c m r
unfolding brk_handler
handled_lem env n c m r0 usable cpu stub was =
    let s = c.sp - 6 in
    let at = frame_at c m in
    let p0 = m.mmu.ppn 0 in
    let m1 : Machine = record m { ram = r0 } in
    let m2 = poke 0x54 s (poke 0x55 (p0 * 4 + 1) m1) in
    let framed = set_frame_ptr_lem s m1 usable.table in
    let place : (p0 * 4 + 1) * 256 + s + 1 ≡ at + 1 = omega arith in
    let above : 2 ^ 10 ≤ at = omega (arith, usable.own) in
    let below : at + 6 < 2 ^ 15 = omega (arith, usable.table 0, cpu.sp_small, cpu.room) in
    let same = λ (a : ℕ) (h : 2 ^ 10 ≤ a). let e : m2.ram a ≡ r0 a = ground arith in e in
    let loaded = load_at_lem 0x54 1 s (p0 * 4 + 1) m2 (omega arith) refl refl (omega arith) in
    let status = rw place at loaded ∙ same (at + 1) (omega arith) ∙ was.status in
    let set = (status_lem c.p cpu.p_small).1 in
    let (page_kernel, page_own) = stub.page in
    let (code, apart) = away_lem c m (c.pc + 1) cpu page_kernel page_own in
    let small : (i : ℕ) → m2.ram i < 256 =
      λ i. ground (arith, was.bytes i, usable.table 0, cpu.sp_small) in
    let (r, stored, number, others, bytes) =
      number_stored at c.pc m2 usable.table (omega arith) above (omega arith)
        (same (at + 2) (omega arith) ∙ was.pcl) (same (at + 3) (omega arith) ∙ was.pch) cpu.pc_small
        code small in
    let byte = data_in-ram (in_user m) (c.pc + 1) cpu.pc_small in
    let found : r 0x32 ≡ n =
      number
      ∙ same (ram_addr (user m.mmu) (c.pc + 1)) code
      ∙ was.others (ram_addr (user m.mmu) (c.pc + 1)) apart
      ∙ sym byte
      ∙ stub.number in
    let number_lem : data_in 0x32 (in_kernel (record m { ram = r })) ≡ n =
      data_in-kernel (in_kernel (record m { ram = r })) 0x32 refl (omega arith) ∙ found in
    (
      r,
      rw (framed, status, set, stored, number_lem) refl,
      rw (framed, stored) refl,
      record {
        number = found;
        pcl = others (at + 2) (omega arith) ∙ same (at + 2) (omega arith) ∙ was.pcl;
        pch = others (at + 3) (omega arith) ∙ same (at + 3) (omega arith) ∙ was.pch;
        kept = λ a h k. others a h ∙ same a h ∙ was.others a k;
        bytes = bytes;
      },
    )

handler_lem :
    (env : Env) (n : ℕ) (c : Cpu) (m : Machine) (r0 : ℕ → ℕ)
    → IsUsable m
    → IsCpu c
    → IsStub n c.pc m
    → n ≢ 0
    → Pushed c m r0
    → (r : ℕ → ℕ) × (brk_handler env (c.sp - 6) (in_kernel (record m { ram = r0 }))
        ≡ returns (syscall_dispatch env (in_kernel (record m { ram = r }))))
      × Entered n c m r
handler_lem env n c m r0 usable cpu stub some_call was =
    let (r, handled, _, entered) = handled_lem env n c m r0 usable cpu stub was in
    let test : (n == 0) ≡ false = ground arith in (r, rw test at handled, entered)

-- The way back, from a frame that stands as it was pushed.
pub ret_lem :
    (c : Cpu) (m : Machine)
    → IsCpu c
    → m.ram (frame_at c m + 2) ≡ (c.pc + 2) % 256
    → m.ram (frame_at c m + 3) ≡ (c.pc + 2) / 256 % 256
    → ret_user_mode (c.sp - 6) (in_kernel m) ≡ (c.pc + 2, in_user m)
unfolding ret_user_mode ram_addr
ret_lem c m cpu lo hi =
    let s = c.sp - 6 in
    let sp3 : u8 (s + 3) ≡ s + 3 = omega (arith, cpu.sp_small, cpu.room) in
    let sp2 : u8 (s + 2) ≡ s + 2 = omega (arith, cpu.sp_small, cpu.room) in
    let cell = λ (k : ℕ) (h : k < 4).
      let page : vpn (0x100 + (s + k)) ≡ 0 = omega (arith, cpu.sp_small, cpu.room) in
      let at : m.mmu.ppn 0 * 2 ^ 10 + low_bits (0x100 + (s + k)) 10 ≡ frame_at c m + k =
        omega (arith, cpu.sp_small, cpu.room) in
      let e : data_in (0x100 + (s + k)) (in_user m) ≡ m.ram (frame_at c m + k) =
        data_in-ram (in_user m) (0x100 + (s + k)) (omega (arith, cpu.sp_small, cpu.room))
        ∙ ap m.ram (rw page at) in
      e in
    let pcl = cell 2 (omega arith) ∙ lo in
    let pch = cell 3 (omega arith) ∙ hi in
    let back : (c.pc + 2) / 256 % 256 * 256 + (c.pc + 2) % 256 ≡ c.pc + 2 =
      omega (arith, cpu.pc_small) in
    rw (leave_lem m, sp3, sp2, pcl, pch, back) refl

call_at_lem :
    (env : Env) (c : Cpu) (sp sp' : ℕ) (m m1 : Machine) (o : Option Machine)
    → push_brk sp c.pc c.p (push_registers c m) ≡ m1
    → brk_handler env sp' (in_kernel m1) ≡ returns o
    → call_at env c sp sp' m ≡ (o >>= λ x. some (ret_user_mode sp' x))
unfolding call_at
call_at_lem env c sp sp' m m1 o stacked handled = rw (call_at, stacked, handled) refl

-- A system call, other than SYS_YIELD, whose number byte stands in a page of the user's that is
-- neither his page 0 nor the kernel's first, reaches syscall_dispatch with that number at $32, with
-- the return address on the user's stack, and with the RAM behind the kernel's first page otherwise
-- as it was, but for the six bytes of the stack.
pub sys_call-dispatches :
    (env : Env) (n : ℕ) (c : Cpu) (m : Machine)
    → IsUsable m
    → IsCpu c
    → IsStub n c.pc m
    → n ≢ 0
    → (r : ℕ → ℕ) × (sys_call env c (in_user m) ≡ (
        syscall_dispatch env (in_kernel (record m { ram = r })) >>= λ m'.
        some (ret_user_mode (c.sp - 6) m')))
      × Entered n c m r
unfolding sys_call
sys_call-dispatches env n c m usable cpu stub some_call =
    let sp : pushed (pushed (pushed c.sp)) ≡ c.sp - 3 = omega (arith, cpu.room, cpu.sp_small) in
    let sp' : pushed (pushed (pushed (pushed (pushed (pushed c.sp))))) ≡ c.sp - 6 =
      omega (arith, cpu.room, cpu.sp_small) in
    let (r0, stacked, was) = pushes_lem c m usable cpu in
    let (r, handled, entered) = handler_lem env n c m r0 usable cpu stub some_call was in
    (
      r,
      ap₂ (λ q q'. call_at env c q q' (in_user m)) sp sp'
          ∙ call_at_lem env c (c.sp - 3) (c.sp - 6) (in_user m) _ _ stacked handled,
      entered,
    )

-- So the call comes back to the address behind the number byte if syscall_dispatch comes back with
-- the page table and the return address as they were.
pub sys_call-returns :
    (env : Env) (n : ℕ) (c : Cpu) (m m' : Machine) (r : ℕ → ℕ)
    → IsCpu c
    → sys_call env c (in_user m) ≡ (
        syscall_dispatch env (in_kernel (record m { ram = r })) >>= λ x.
        some (ret_user_mode (c.sp - 6) x))
    → Entered n c m r
    → syscall_dispatch env (in_kernel (record m { ram = r })) ≡ some (in_kernel m')
    → m'.mmu.ppn 0 ≡ m.mmu.ppn 0
    → ((k : ℕ) → 1 < k → k < 4 → m'.ram (frame_at c m + k) ≡ r (frame_at c m + k))
    → sys_call env c (in_user m) ≡ some (c.pc + 2, in_user m')
sys_call-returns env n c m m' r cpu called entered dispatched page frame =
    let at : frame_at c m' ≡ frame_at c m = ap (λ p. p * 2 ^ 10 + (0x100 + (c.sp - 6))) page in
    let lo : m'.ram (frame_at c m' + 2) ≡ (c.pc + 2) % 256 =
      rw at (frame 2 (omega arith) (omega arith) ∙ entered.pcl) in
    let hi : m'.ram (frame_at c m' + 3) ≡ (c.pc + 2) / 256 % 256 =
      rw at (frame 3 (omega arith) (omega arith) ∙ entered.pch) in
    called
    ∙ ap (λ o. o >>= λ x. some (ret_user_mode (c.sp - 6) x)) dispatched
    ∙ ap some (ret_lem c m' cpu lo hi)
