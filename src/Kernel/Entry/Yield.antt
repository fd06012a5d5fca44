-- ===== src/Kernel/Entry/Yield.antt =====
-- sw/prog/src/syslib.s: sys_yield, from its BRK through brk_handler of sw/kernel/src/brk.s to do_yield
-- of sw/kernel/src/yield.s, and the way back to a process whose turn it is.
use bb6502_verilog.Common.{ℕ, Option, none, some}
use bb6502_verilog.Machine.Bus.{Machine}
use bb6502_verilog.Kernel.Syscalls.{Env}
use bb6502_verilog.Kernel.Switch.{Running}
use bb6502_verilog.Kernel.Entry.{
  Cpu, pushed, push_registers, push_brk, in_kernel, yields, returns, brk_handler, ret_user_mode,
}

-- The handler's jump to do_yield, from BRK at the stack pointer sp; the handler has sp'.
unfoldable pub enter_at : Env → Cpu → (sp sp' : ℕ) → Running → Option Running
enter_at env c sp sp' r =
    elim (brk_handler env sp'
      (in_kernel (push_brk sp c.pc c.p (push_registers c r.system.machine)))) [
        | yields m ↦ some (record { system = record r.system { machine = m }; sp = sp' })
        | returns o ↦ none
      ]

-- PHA, PHX, PHY, BRK and the handler.
unfoldable pub enter_yield : Env → Cpu → Running → Option Running
enter_yield env c r =
    enter_at env c (pushed (pushed (pushed c.sp)))
      (pushed (pushed (pushed (pushed (pushed (pushed c.sp)))))) r

-- The end of do_yield: ret_user_mode with the stack pointer of the selected process.
abbrev pub leave : Running → ℕ × Machine
leave r = ret_user_mode r.sp r.system.machine
