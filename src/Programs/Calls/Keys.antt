-- ===== src/Programs/Calls/Keys.antt =====
-- sys_getc.
use bb6502_verilog.Common.{
  ℕ, ◌+◌, ◌<◌, ◌≡◌, ◌≢◌, true, false, refl, ◌∙◌, ◌==◌, none, some, Option, List, ◌∷◌, ◌++◌,
  replicate, arith,
}
use bb6502_verilog.Machine.Bus.{Machine, data_in}
use bb6502_verilog.Kernel.UserMemory.Translate.{in_user, data_in-user}
use bb6502_verilog.Kernel.Syscalls.{Env, off_ret, off_a_reg, syscall_dispatch}
use bb6502_verilog.Kernel.Syscalls.Keys.{taken, received, dispatch-getc}
use bb6502_verilog.Kernel.Entry.{Cpu, in_kernel}
use bb6502_verilog.Kernel.Entry.Writes.{low_page}
use bb6502_verilog.Kernel.Entry.Stack.{IsCpu, IsStub}
use bb6502_verilog.Kernel.Entry.Call.{sys_call-dispatches, sys_call-returns}
use bb6502_verilog.Programs.Syslib.{sys_getc_number, go_on, sys_getc}
use bb6502_verilog.Programs.Calls.{SameAway, IsRunning, Entered-away}
use bb6502_verilog.Programs.Calls.Stored.{in_call}

-- sys_getc with no byte waiting comes back with the byte that comes in, however many rounds of its wait
-- that takes; the receive flag is clear then, nothing has been written on the ports, and the RAM
-- outside the kernel's first page and the user's page 0 is as it was.
pub sys_getc-arrives :
    (env : Env) (c : Cpu) (n v : ℕ) (later : List (Option ℕ)) (m : Machine)
    → IsRunning m
    → IsCpu c
    → IsStub sys_getc_number c.pc m
    → v < 256
    → m.acia.rx_valid ≡ false
    → env.arrivals ≡ replicate n none ++ (some v ∷ later)
    → (m' : Machine) × (sys_getc env c (in_user m) ≡ some (v, in_user m'))
      × IsRunning m'
      × (m'.acia.rx_valid ≡ false)
      × (m'.acia.sent ≡ m.acia.sent)
      × (m'.gpu_sent ≡ m.gpu_sent)
      × SameAway m m.ram m'.ram
unfolding sys_getc go_on
sys_getc-arrives env c n v later m running cpu stub small off comes =
    let usable = running.usable in
    let (r, called, entered) =
      sys_call-dispatches env sys_getc_number c m usable cpu stub (omega arith) in
    let m' : Machine = taken v (received v (record m { ram = r })) in
    let done : syscall_dispatch env (in_kernel (record m { ram = r })) ≡ some (in_kernel m') =
      dispatch-getc env (in_kernel (record m { ram = r })) n v later
        (in_call sys_getc_number c m r usable entered) entered.number off comes in
    let back =
      sys_call-returns env sys_getc_number c m m' r cpu called entered done refl
        λ k low high. ground (arith, cpu.room) in
    let next : (c.pc + 2 == c.pc + 2) ≡ true = ground arith in
    let key : data_in off_a_reg (in_user m') ≡ v =
      data_in-user m' off_a_reg (omega arith) ∙ ground arith in
    (
      m',
      rw (back, next, key) refl,
      record {
        usable = record {
          table = usable.table;
          bytes = λ i. ground (arith, entered.bytes i);
          own = usable.own;
        };
        counts = running.counts;
      },
      refl,
      refl,
      refl,
      λ b far.
          let ret : low_page m off_ret ≢ b = λ e. far.1 (omega (arith, e)) in
          let slot : low_page m off_a_reg ≢ b = λ e. far.1 (omega (arith, e)) in
          let old = Entered-away sys_getc_number c m r cpu entered b far in
          ground (arith, ret, slot, old),
    )
