-- ===== src/Programs/Calls/Output.antt =====
-- sys_putc and sys_puts.
use bb6502_verilog.Common.{
  ℕ, ◌+◌, ◌/◌, ◌%◌, ◌^◌, ◌<◌, ◌≡◌, refl, ◌∙◌, ap, some, List, [], ◌∷◌, length, arith,
}
use bb6502_verilog.Common.Maybe.{◌>>=◌}
use bb6502_verilog.Machine.Mmu.{vpn}
use bb6502_verilog.Machine.Bus.{Machine, bus_write}
use bb6502_verilog.Kernel.UserMemory.Translate.{in_user}
use bb6502_verilog.Kernel.Syscalls.{Env, off_a_reg, off_arg0_lo, off_arg0_hi}
use bb6502_verilog.Kernel.Syscalls.Puts.{IsUserString, dispatch-putc, dispatch-puts}
use bb6502_verilog.Kernel.Entry.{Cpu, in_kernel, sys_call}
use bb6502_verilog.Kernel.Entry.Writes.{poke, low_page, user_write}
use bb6502_verilog.Kernel.Entry.Stack.{IsCpu, IsAway, IsStub}
use bb6502_verilog.Programs.Syslib.{
  sys_putc_number, sys_puts_number, low_byte, high_byte, go_on, sys_putc, sys_puts,
}
use bb6502_verilog.Programs.Calls.{
  SameAway, IsRunning, Wrote, data_in-away, IsStub-kept, Entered-away, Entered-slot,
}
use bb6502_verilog.Programs.Calls.Stored.{
  poke-IsUsable, poke-away, in_call, output_lem, Wrote-from, with_ax, stored_word,
}

-- A string in such a page is still there behind a call.
pub IsUserString-kept :
    (cs : List ℕ) (va : ℕ) (m m' : Machine)
    → va + length cs < 2 ^ 15
    → va % 2 ^ 10 + length cs < 2 ^ 10
    → IsAway m (m.mmu.ppn (vpn va))
    → m'.mmu ≡ m.mmu
    → SameAway m m.ram m'.ram
    → IsUserString cs va m
    → IsUserString cs va m'
IsUserString-kept [] va m m' low page away mmu same str =
    data_in-away va m m' (omega arith) away mmu same ∙ str
IsUserString-kept (d ∷ cs) va m m' low page away mmu same (byte, full, rest) =
    let next : vpn (va + 1) ≡ vpn va = omega arith in
    (
      data_in-away va m m' (omega arith) away mmu same ∙ byte,
      full,
      IsUserString-kept cs (va + 1) m m' (omega arith) (omega arith) (rw next away) mmu same rest,
    )

IsUserString-kernel :
    (cs : List ℕ) (va : ℕ) (m : Machine) → IsUserString cs va m → IsUserString cs va (in_kernel m)
IsUserString-kernel [] va m str = str
IsUserString-kernel (d ∷ cs) va m (byte, full, rest) =
    (byte, full, IsUserString-kernel cs (va + 1) m rest)

-- A literal of a program: its text and where it stands, within a page that is neither the user's page
-- 0 nor the kernel's first one.
pub record IsLiteral (cs : List ℕ) (va : ℕ) (m : Machine) : Type 0 where
  pub text_at : IsUserString cs va m
  pub low : va + length cs < 2 ^ 15
  pub in_page : va % 2 ^ 10 + length cs < 2 ^ 10
  pub page : IsAway m (m.mmu.ppn (vpn va))

pub IsLiteral-kept :
    (cs : List ℕ) (va : ℕ) (m m' : Machine)
    → m'.mmu ≡ m.mmu
    → SameAway m m.ram m'.ram
    → IsLiteral cs va m
    → IsLiteral cs va m'
IsLiteral-kept cs va m m' mmu same l = record {
  text_at = IsUserString-kept cs va m m' l.low l.in_page l.page mmu same l.text_at;
  low = l.low;
  in_page = l.in_page;
  page = rw mmu l.page;
}

-- sys_putc of a byte comes back, with the byte on both ports.
pub sys_putc_lem :
    (env : Env) (c : Cpu) (v : ℕ) (m : Machine)
    → 0 < env.clocks
    → IsRunning m
    → IsCpu c
    → IsStub sys_putc_number c.pc m
    → v < 256
    → (m' : Machine) × (sys_putc env c v (in_user m) ≡ some (in_user m')) × Wrote (v ∷ []) m m'
unfolding sys_putc
sys_putc_lem env c v m clocks running cpu stub h =
    let m1 = poke (low_page m off_a_reg) v m in
    let same = poke-away off_a_reg v m (omega arith) in
    let usable = poke-IsUsable off_a_reg v m h running.usable in
    let c1 : Cpu = record c { a = v } in
    let (m', called, wrote) =
      output_lem env sys_putc_number c1 (v ∷ []) m1
        (record { usable = usable; counts = running.counts }) (with_ax c v c.x h cpu.x_small cpu)
        (IsStub-kept sys_putc_number c.pc m m1 cpu.pc_small refl same stub) (omega arith)
        λ r entered.
          dispatch-putc env (in_kernel (record m1 { ram = r })) v
            (in_call sys_putc_number c1 m1 r usable entered) entered.number clocks running.counts
            (Entered-slot sys_putc_number c1 m1 r off_a_reg usable entered (omega arith)
              ∙ ground arith) in
    (
      m',
      ap (λ x. sys_call env c1 x >>= go_on c.pc) (user_write off_a_reg v m (omega arith)) ∙ called,
      Wrote-from (v ∷ []) m1.ram m m' same wrote,
    )

-- sys_puts of a literal comes back, with the text on both ports.
pub sys_puts_lem :
    (env : Env) (c : Cpu) (va : ℕ) (cs : List ℕ) (m : Machine)
    → 0 < env.clocks
    → IsRunning m
    → IsCpu c
    → IsStub sys_puts_number c.pc m
    → IsLiteral cs va m
    → (m' : Machine) × (sys_puts env c va (in_user m) ≡ some (in_user m')) × Wrote cs m m'
unfolding sys_puts
sys_puts_lem env c va cs m clocks running cpu stub lit =
    let small : va < 2 ^ 15 = omega (arith, lit.low) in
    let m1 = poke (low_page m off_arg0_lo) (low_byte va) m in
    let m2 = poke (low_page m off_arg0_hi) (high_byte va) m1 in
    let same1 = poke-away off_arg0_lo (low_byte va) m (omega arith) in
    let same2 = poke-away off_arg0_hi (high_byte va) m1 (omega arith) in
    let same = λ (a : ℕ) (far : IsAway m (a / 2 ^ 10)). same2 a far ∙ same1 a far in
    let usable =
      poke-IsUsable off_arg0_hi (high_byte va) m1 (omega arith)
        (poke-IsUsable off_arg0_lo (low_byte va) m (omega arith) running.usable) in
    let c1 : Cpu = record c { a = low_byte va; x = high_byte va } in
    let lit2 = IsLiteral-kept cs va m m2 refl same lit in
    let (m', called, wrote) =
      output_lem env sys_puts_number c1 cs m2 (record { usable = usable; counts = running.counts })
        (with_ax c (low_byte va) (high_byte va) (omega arith) (omega arith) cpu)
        (IsStub-kept sys_puts_number c.pc m m2 cpu.pc_small refl same stub) (omega arith)
        λ r entered.
          dispatch-puts env (in_kernel (record m2 { ram = r })) va cs
            (in_call sys_puts_number c1 m2 r usable entered) entered.number clocks running.counts
            (stored_word sys_puts_number off_arg0_lo off_arg0_hi va c1 m2 r usable entered
              (omega arith) (omega arith) (ground arith) (ground arith) (omega arith))
            (IsUserString-kernel cs va (record m2 { ram = r })
              (IsUserString-kept cs va m2 (record m2 { ram = r }) lit.low lit.in_page lit2.page refl
                (Entered-away sys_puts_number c1 m2 r
                  (with_ax c (low_byte va) (high_byte va) (omega arith) (omega arith) cpu) entered)
                lit2.text_at))
            lit.low lit.in_page in
    (
      m',
      ap (λ x. sys_call env c1 (bus_write off_arg0_hi (high_byte va) x) >>= go_on c.pc)
            (user_write off_arg0_lo (low_byte va) m (omega arith))
          ∙ ap (λ x. sys_call env c1 x >>= go_on c.pc)
              (user_write off_arg0_hi (high_byte va) m1 (omega arith))
          ∙ called,
      Wrote-from cs m2.ram m m' same wrote,
    )
