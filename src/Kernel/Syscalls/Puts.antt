-- ===== src/Kernel/Syscalls/Puts.antt =====
-- do_puts, as the user's program sees it.
use bb6502_verilog.Common.{
  ℕ, ◌+◌, ◌*◌, ◌^◌, ◌%◌, ◌<◌, ◌≡◌, refl, sym, ◌∙◌, ap, false, some, List, [], ◌∷◌, ◌++◌, ◌==◌,
  length, append-nil, arith,
}
use bb6502_verilog.Machine.Mmu.{ram_addr}
use bb6502_verilog.Machine.Bus.{Machine, data_in}
use bb6502_verilog.Machine.Reads.{data_in-ram}
use bb6502_verilog.Kernel.UserMemory.Translate.{user, in_user, u_ptr-ram_addr, data_in-user}
use bb6502_verilog.Kernel.UserMemory.Place.{place_add, place_low}
use bb6502_verilog.Kernel.Console.Output.{Counts, shown, sent_to_acia, sent_to_gpu, put_both_lem}
use bb6502_verilog.Kernel.Console.Strings.{IsString, k_print_at-shown}
use bb6502_verilog.Kernel.Syscalls.{
  Env, off_ret, off_arg0_lo, off_arg0_hi, off_a_reg, do_putc, do_puts, syscall_dispatch,
}
use bb6502_verilog.Kernel.Syscalls.Slots.{
  user_arg, InCall, slot, with_slot, get_slot_lem, set_slot_lem, number_lem,
}

-- The user's program reads the bytes `cs`, none of them a NUL, and a NUL from `va` on.
abbrev pub IsUserString : List ℕ → ℕ → Machine → Type 0
IsUserString [] va m = data_in va (in_user m) ≡ 0
IsUserString (c ∷ cs) va m =
    (data_in va (in_user m) ≡ c) × ((c == 0) ≡ false) × IsUserString cs (va + 1) m

-- A string within a page stands in the RAM in one piece.
IsString-user :
    (cs : List ℕ) (va s : ℕ) (m : Machine)
    → va + length cs < 2 ^ 15
    → va % 2 ^ 10 + length cs < 2 ^ 10
    → ram_addr (user m.mmu) va ≡ s
    → IsUserString cs va m
    → IsString cs s m.ram
IsString-user [] va s m low page at str =
    sym (data_in-ram (in_user m) va (omega arith) ∙ ap m.ram at) ∙ str
IsString-user (c ∷ cs) va s m low page at (byte, full, rest) = (
  sym (data_in-ram (in_user m) va (omega arith) ∙ ap m.ram at) ∙ byte,
  full,
  IsString-user cs (va + 1) (s + 1) m (omega arith) (omega arith)
      (place_add m.mmu va 1 (omega arith) ∙ ap (λ a. a + 1) at) rest,
)

shown_mmu : (cs : List ℕ) (m : Machine) → (shown cs m).mmu ≡ m.mmu
unfolding shown
shown_mmu [] m = refl
shown_mmu (c ∷ cs) m = refl

pub do_puts_lem :
    (env : Env) (m : Machine) (va : ℕ) (cs : List ℕ)
    → InCall m
    → 0 < env.clocks
    → Counts m
    → data_in off_arg0_hi (in_user m) * 2 ^ 8 + data_in off_arg0_lo (in_user m) ≡ va
    → IsUserString cs va m
    → va + length cs < 2 ^ 15
    → va % 2 ^ 10 + length cs < 2 ^ 10
    → do_puts env m ≡ some (with_slot off_ret 0 (shown cs m))
unfolding do_puts
do_puts_lem env m va cs call clocks few arg str low page =
    let s = ram_addr (user m.mmu) va in
    let place : s + length cs < 2 ^ 15 =
      let last = place_low m.mmu va (length cs + 1) call.table (omega arith) in omega arith in
    let printed =
      k_print_at-shown env.clocks (2 ^ 16) s cs m clocks few call.kernel
        (IsString-user cs va s m low page refl str) place (omega arith) in
    let ptr = u_ptr-ram_addr m va call.table in
    let mmu = shown_mmu cs m in
    rw (user_arg m off_arg0_lo off_arg0_hi va call (omega arith) (omega arith) arg, ptr, printed)
      (ap some (
        set_slot_lem off_ret 0 (shown cs m) (rw mmu call.kernel) (rw mmu call.table) (omega arith)))

-- SYS_PUTS, with all that it changes.
pub dispatch-puts :
    (env : Env) (m : Machine) (va : ℕ) (cs : List ℕ)
    → InCall m
    → m.ram 0x32 ≡ 4
    → 0 < env.clocks
    → Counts m
    → data_in off_arg0_hi (in_user m) * 2 ^ 8 + data_in off_arg0_lo (in_user m) ≡ va
    → IsUserString cs va m
    → va + length cs < 2 ^ 15
    → va % 2 ^ 10 + length cs < 2 ^ 10
    → syscall_dispatch env m ≡ some (with_slot off_ret 0 (shown cs m))
unfolding syscall_dispatch
dispatch-puts env m va cs call number clocks few arg str low page =
    rw (number_lem m 4 call number) (do_puts_lem env m va cs call clocks few arg str low page)

-- SYS_PUTC, with all that it changes.
pub dispatch-putc :
    (env : Env) (m : Machine) (v : ℕ)
    → InCall m
    → m.ram 0x32 ≡ 2
    → 0 < env.clocks
    → Counts m
    → m.ram (slot m off_a_reg) ≡ v
    → syscall_dispatch env m ≡ some (with_slot off_ret 0 (shown (v ∷ []) m))
unfolding syscall_dispatch do_putc shown
dispatch-putc env m v call number clocks few byte =
    let load = get_slot_lem off_a_reg m call (omega arith) ∙ byte in
    let both = put_both_lem env.clocks v m clocks few in
    rw (number_lem m 2 call number, load, both)
      (ap some (
        set_slot_lem off_ret 0 (sent_to_gpu v (sent_to_acia v m)) call.kernel call.table
          (omega arith)))

pub shown_sent :
    (cs : List ℕ) (m : Machine)
    → ((shown cs m).acia.sent ≡ m.acia.sent ++ cs) × ((shown cs m).gpu_sent ≡ m.gpu_sent ++ cs)
unfolding shown
shown_sent [] m = (sym (append-nil m.acia.sent), sym (append-nil m.gpu_sent))
shown_sent (c ∷ cs) m = (refl, refl)

-- In the handler of SYS_PUTS, if the user's program reads a string at the address that its two
-- argument slots hold, within a page of its memory, and a round of the wait takes a clock at least,
-- the call returns: the string has gone out on the serial port and on the display port, and the user
-- reads 0 in the RET slot.
pub syscall_dispatch-puts :
    (env : Env) (m : Machine) (va : ℕ) (cs : List ℕ)
    → InCall m
    → m.ram 0x32 ≡ 4
    → 0 < env.clocks
    → Counts m
    → data_in off_arg0_hi (in_user m) * 2 ^ 8 + data_in off_arg0_lo (in_user m) ≡ va
    → IsUserString cs va m
    → va + length cs < 2 ^ 15
    → va % 2 ^ 10 + length cs < 2 ^ 10
    → (m' : Machine) × (syscall_dispatch env m ≡ some m')
      × (m'.acia.sent ≡ m.acia.sent ++ cs)
      × (m'.gpu_sent ≡ m.gpu_sent ++ cs)
      × (data_in off_ret (in_user m') ≡ 0)
unfolding syscall_dispatch
syscall_dispatch-puts env m va cs call number clocks few arg str low page =
    let m' = with_slot off_ret 0 (shown cs m) in
    let (acia, gpu) = shown_sent cs m in
    (
      m',
      dispatch-puts env m va cs call number clocks few arg str low page,
      acia,
      gpu,
      data_in-user m' off_ret (omega arith) ∙ ground arith,
    )
