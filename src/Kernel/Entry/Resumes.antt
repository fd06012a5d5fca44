-- ===== src/Kernel/Entry/Resumes.antt =====
-- The next turn of a process that has called sys_yield (sw/prog/src/syslib.s).
use bb6502_verilog.Common.{
  ℕ, true, ◌*◌, ◌^◌, ◌+◌, ◌-◌, ◌<◌, ◌≡◌, refl, sym, ◌∙◌, ap, ap₂, some, arith,
}
use bb6502_verilog.Machine.Bus.{Machine}
use bb6502_verilog.Machine.Ram.{with_ppn}
use bb6502_verilog.Kernel.UserMemory.Translate.{in_user}
use bb6502_verilog.Kernel.Syscalls.{Env}
use bb6502_verilog.Kernel.Switch.{Running, do_yield}
use bb6502_verilog.Kernel.Switch.Saved.{IsReady, saved_tables}
use bb6502_verilog.Kernel.Switch.Turns.{
  next, chosen, do_yield-chosen, do_yield-Switched, resume_current_lem,
}
use bb6502_verilog.Kernel.Switch.Rounds.{Trace, Trace-IsTurn}
use bb6502_verilog.Kernel.Switch.Context.{do_yield-resumes}
use bb6502_verilog.Kernel.Entry.{
  Cpu, pushed, push_registers, push_brk, in_kernel, yields, brk_handler, ret_user_mode,
}
use bb6502_verilog.Kernel.Entry.Stack.{IsUsable, IsCpu, IsStub, frame_at, pushes_lem}
use bb6502_verilog.Kernel.Entry.Call.{Entered, handler_machine, handled_lem, ret_lem}
use bb6502_verilog.Kernel.Entry.Yield.{enter_at, enter_yield, leave}

-- A process in user mode.
abbrev pub in_process : Running → Running
in_process r = record r { system = record r.system { machine = in_user r.system.machine } }

abbrev kernel_at : (sp sp' : ℕ) → Cpu → Running → Running
kernel_at sp sp' c r = record {
  system = record r.system {
    machine =
        handler_machine sp'
          (in_kernel (push_brk sp c.pc c.p (push_registers c (in_user r.system.machine))));
  };
  sp = sp';
}

-- The kernel when do_yield starts.
abbrev pub at_yield : Cpu → Running → Running
at_yield c r =
    kernel_at (pushed (pushed (pushed c.sp)))
      (pushed (pushed (pushed (pushed (pushed (pushed c.sp)))))) c r

-- The same with the RAM as a function.
abbrev with_ram : Cpu → Running → (ℕ → ℕ) → Running
with_ram c r ram = record {
  system = record r.system { machine = in_kernel (record r.system.machine { ram = ram }) };
  sp = c.sp - 6;
}

with_ram-IsReady : (c : Cpu) (r : Running) (ram : ℕ → ℕ) → IsReady r → IsReady (with_ram c r ram)
with_ram-IsReady c r ram ready = record {
  size = ready.size;
  few = ready.few;
  current = ready.current;
  waits = ready.waits;
  tables = ready.tables;
  paged = ready.paged;
  kernel = refl;
}

enter_at_lem :
    (env : Env) (c : Cpu) (sp sp' : ℕ) (r : Running) (m1 m2 : Machine)
    → push_brk sp c.pc c.p (push_registers c r.system.machine) ≡ m1
    → brk_handler env sp' (in_kernel m1) ≡ yields m2
    → enter_at env c sp sp' r
      ≡ some (record { system = record r.system { machine = m2 }; sp = sp' })
unfolding enter_at
enter_at_lem env c sp sp' r m1 m2 stacked handled =
    let entered = ap (λ x. brk_handler env sp' (in_kernel x)) stacked ∙ handled in
    rw (enter_at, entered) refl

-- The handler comes to do_yield, with the return address on the process's stack.
enter_lem :
    (env : Env) (c : Cpu) (r : Running)
    → IsUsable r.system.machine
    → IsCpu c
    → IsStub 0 c.pc r.system.machine
    → (ram : ℕ → ℕ) × (enter_yield env c (in_process r) ≡ some (with_ram c r ram))
      × (at_yield c r ≡ with_ram c r ram)
      × Entered 0 c r.system.machine ram
unfolding enter_yield
enter_lem env c r usable cpu stub =
    let m = r.system.machine in
    let sp : pushed (pushed (pushed c.sp)) ≡ c.sp - 3 = omega (arith, cpu.room, cpu.sp_small) in
    let sp' : pushed (pushed (pushed (pushed (pushed (pushed c.sp))))) ≡ c.sp - 6 =
      omega (arith, cpu.room, cpu.sp_small) in
    let (r0, stacked, was) = pushes_lem c m usable cpu in
    let (ram, handled, machine, entered) = handled_lem env 0 c m r0 usable cpu stub was in
    (
      ram,
      ap₂ (λ q q'. enter_at env c q q' (in_process r)) sp sp'
          ∙ enter_at_lem env c (c.sp - 3) (c.sp - 6) (in_process r) _ _ stacked handled,
      ap₂ (λ q q'. kernel_at q q' c r) sp sp'
          ∙ ap
              (λ x. record {
                system = record r.system { machine = handler_machine (c.sp - 6) (in_kernel x) };
                sp = c.sp - 6;
              })
              stacked
          ∙ ap (λ x. record { system = record r.system { machine = x }; sp = c.sp - 6 }) machine,
      entered,
    )

-- do_yield changes nothing of the machine but the page table.
do_yield-with_ppn :
    (r : Running)
    → IsReady r
    → (f : ℕ → ℕ) × ((do_yield r).system.machine ≡ with_ppn f r.system.machine)
do_yield-with_ppn r ready =
    let (f, resumed, _) =
      resume_current_lem r.system.machine (chosen r) ready.kernel
        (saved_tables r (next r) ready (omega (arith, ready.current))) in
    (f, ap (λ x. x.system.machine) (do_yield-chosen r ready ∙ resumed))

in_kernel_lem : (m : Machine) → m.mmu.kernel ≡ true → in_kernel m ≡ m
in_kernel_lem m h = ap (λ b. record m { mmu = record m.mmu { kernel = b } }) (sym h)

-- The next turn of a process whose return address is on its stack.
resumes_lem :
    (c : Cpu) (r : Running) (ram : ℕ → ℕ) (n : ℕ) (r' : Running)
    → IsReady r
    → IsCpu c
    → Entered 0 c r.system.machine ram
    → n + 2 ≡ r.system.table.nprocs
    → Trace (do_yield (with_ram c r ram)) n r'
    → ((j : ℕ)
        → 1 < j
        → j < 4
        → r'.system.machine.ram (frame_at c r.system.machine + j)
          ≡ ram (frame_at c r.system.machine + j))
    → ((do_yield r').system.table.plist_idx ≡ r.system.table.plist_idx)
      × (leave (do_yield r') ≡ (c.pc + 2, in_user (do_yield r').system.machine))
resumes_lem c r ram n r' ready cpu entered all trace frame =
    let m = r.system.machine in
    let k = with_ram c r ram in
    let ready' = with_ram-IsReady c r ram ready in
    let (index, sp, pages) = do_yield-resumes k n r' ready' all trace in
    let turn = Trace-IsTurn (do_yield k) n r' (do_yield-Switched k ready').ready trace in
    let now = do_yield-Switched r' turn.ready in
    let (f, machine) = do_yield-with_ppn r' turn.ready in
    let back = (do_yield r').system.machine in
    let at : frame_at c back ≡ frame_at c m =
      ap (λ p. p * 2 ^ 10 + (0x100 + (c.sp - 6))) (pages 0 (omega arith)) in
    let cell = λ (j : ℕ) (low : 1 < j) (high : j < 4).
      let e : back.ram (frame_at c back + j) ≡ ram (frame_at c m + j) =
        ap₂ (λ (x : Machine) a. x.ram (a + j)) machine at ∙ frame j low high in
      e in
    (
      index,
      ap₂ ret_user_mode sp (sym (in_kernel_lem back now.ready.kernel))
          ∙ ret_lem c back cpu (cell 2 (omega arith) (omega arith) ∙ entered.pcl)
              (cell 3 (omega arith) (omega arith) ∙ entered.pch),
    )

-- A process that calls sys_yield, with two processes at least of which all the others wait, comes to
-- do_yield; and in its next turn, nprocs switches later, it goes on in user mode at the instruction
-- behind the number byte of its BRK, if the others have left the return address on its stack as it
-- was.
pub sys_yield-resumes :
    (env : Env) (c : Cpu) (r : Running) (n : ℕ) (r' : Running)
    → IsReady r
    → IsUsable r.system.machine
    → IsCpu c
    → IsStub 0 c.pc r.system.machine
    → n + 2 ≡ r.system.table.nprocs
    → Trace (do_yield (at_yield c r)) n r'
    → ((j : ℕ)
        → 1 < j
        → j < 4
        → r'.system.machine.ram (frame_at c r.system.machine + j)
          ≡ (at_yield c r).system.machine.ram (frame_at c r.system.machine + j))
    → (enter_yield env c (in_process r) ≡ some (at_yield c r))
      × ((do_yield r').system.table.plist_idx ≡ r.system.table.plist_idx)
      × (leave (do_yield r') ≡ (c.pc + 2, in_user (do_yield r').system.machine))
sys_yield-resumes env c r n r' ready usable cpu stub all trace frame =
    let (ram, enters, same, entered) = enter_lem env c r usable cpu stub in
    let (index, back) =
      resumes_lem c r ram n r' ready cpu entered all (rw same at trace) λ j low high.
        frame j low high ∙ ap (λ x. x.system.machine.ram (frame_at c r.system.machine + j)) same in
    (enters ∙ ap some (sym same), index, back)
