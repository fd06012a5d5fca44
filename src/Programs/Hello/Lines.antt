-- ===== src/Programs/Hello/Lines.antt =====
-- What hello and hello2 print.
use bb6502_verilog.Common.{ℕ, ◌+◌, ◌%◌, ◌^◌, ◌<◌, ◌≡◌, refl, some, List, [], ◌∷◌, ◌++◌, arith}
use bb6502_verilog.Common.Bits.{u8, u16}
use bb6502_verilog.Machine.Bus.{Machine}
use bb6502_verilog.Kernel.UserMemory.Translate.{in_user}
use bb6502_verilog.Kernel.Syscalls.{Env}
use bb6502_verilog.Kernel.Entry.Stack.{IsCpu, IsStub}
use bb6502_verilog.Programs.Syslib.{sys_putc_number, sys_puts_number}
use bb6502_verilog.Programs.Calls.{IsRunning, Wrote, IsStub-kept}
use bb6502_verilog.Programs.Calls.Output.{IsLiteral, IsLiteral-kept, sys_putc_lem, sys_puts_lem}
use bb6502_verilog.Programs.Calls.Chain.{Wrote-trans}
use bb6502_verilog.Programs.Hello.{
  Counter, at_call, text_proc1, text_proc2, text_end, count_round, hello_round, hello2_round,
}

-- The program in the memory of a process, with its first literal.
pub record IsCounter (name : List ℕ) (h : Counter) (m : Machine) : Type 0 where
  pub running : IsRunning m
  pub putc_cpu : (i : ℕ) → IsCpu (at_call h i h.putc_brk)
  pub puts_cpu : (i : ℕ) → IsCpu (at_call h i h.puts_brk)
  pub putc_stub : IsStub sys_putc_number h.putc_brk m
  pub puts_stub : IsStub sys_puts_number h.puts_brk m
  pub proc_at : IsLiteral name h.str_proc m
  pub end_at : IsLiteral text_end h.str_end m

IsCounter-kept :
    (cs name : List ℕ) (h : Counter) (m m' : Machine)
    → Wrote cs m m'
    → IsCounter name h m
    → IsCounter name h m'
IsCounter-kept cs name h m m' w p = record {
  running = w.running;
  putc_cpu = p.putc_cpu;
  puts_cpu = p.puts_cpu;
  putc_stub =
      IsStub-kept sys_putc_number h.putc_brk m m' (p.putc_cpu 0).pc_small w.mmu w.away p.putc_stub;
  puts_stub =
      IsStub-kept sys_puts_number h.puts_brk m m' (p.puts_cpu 0).pc_small w.mmu w.away p.puts_stub;
  proc_at = IsLiteral-kept name h.str_proc m m' w.mmu w.away p.proc_at;
  end_at = IsLiteral-kept text_end h.str_end m m' w.mmu w.away p.end_at;
}

-- The line of a round.
abbrev pub count_line : (name : List ℕ) → (i : ℕ) → List ℕ
count_line name i = (name ++ (u8 (i + b'0') ∷ [])) ++ text_end

count_round_lem :
    (env : Env) (name : List ℕ) (h : Counter) (i : ℕ) (m : Machine)
    → 0 < env.clocks
    → IsCounter name h m
    → (m' : Machine) × (count_round env h i (in_user m) ≡ some (u16 (i + 1), in_user m'))
      × Wrote (count_line name i) m m'
      × IsCounter name h m'
unfolding count_round
count_round_lem env name h i m clocks p =
    let v = u8 (i + b'0') in
    let (m1, came1, w1) =
      sys_puts_lem env (at_call h 0 h.puts_brk) h.str_proc name m clocks p.running (p.puts_cpu 0)
        p.puts_stub p.proc_at in
    let p1 = IsCounter-kept name name h m m1 w1 p in
    let (m2, came2, w2) =
      sys_putc_lem env (at_call h 1 h.putc_brk) v m1 clocks p1.running (p.putc_cpu 1) p1.putc_stub
        (omega arith) in
    let p2 = IsCounter-kept (v ∷ []) name h m1 m2 w2 p1 in
    let (m3, came3, w3) =
      sys_puts_lem env (at_call h 2 h.puts_brk) h.str_end text_end m2 clocks p2.running
        (p.puts_cpu 2) p2.puts_stub p2.end_at in
    (
      m3,
      rw (came1, came2, came3) refl,
      Wrote-trans (name ++ (v ∷ [])) text_end m m2 m3 (Wrote-trans name (v ∷ []) m m1 m2 w1 w2) w3,
      IsCounter-kept text_end name h m2 m3 w3 p2,
    )

-- A round of hello's loop with the counter i comes to its sys_yield: it has written Proc1:, the
-- character with the code i + 48 modulo 256, and the end of the line on both ports, the counter is
-- i + 1 modulo 2 ^ 16, and the program is in memory as before, so it can make another round.
pub hello_round-line :
    (env : Env) (h : Counter) (i : ℕ) (m : Machine)
    → 0 < env.clocks
    → IsCounter text_proc1 h m
    → (m' : Machine) × (hello_round env h i (in_user m) ≡ some ((i + 1) % 2 ^ 16, in_user m'))
      × (m'.acia.sent ≡ m.acia.sent ++ ((text_proc1 ++ ((i + 48) % 256 ∷ [])) ++ text_end))
      × (m'.gpu_sent ≡ m.gpu_sent ++ ((text_proc1 ++ ((i + 48) % 256 ∷ [])) ++ text_end))
      × IsCounter text_proc1 h m'
unfolding hello_round
hello_round-line env h i m clocks p =
    let (m', came, wrote, again) = count_round_lem env text_proc1 h i m clocks p in
    (m', came, wrote.sent, wrote.gpu, again)

-- hello2 writes its own name.
hello2_round-line :
    (env : Env) (h : Counter) (i : ℕ) (m : Machine)
    → 0 < env.clocks
    → IsCounter text_proc2 h m
    → (m' : Machine) × (hello2_round env h i (in_user m) ≡ some ((i + 1) % 2 ^ 16, in_user m'))
      × (m'.acia.sent ≡ m.acia.sent ++ ((text_proc2 ++ ((i + 48) % 256 ∷ [])) ++ text_end))
      × (m'.gpu_sent ≡ m.gpu_sent ++ ((text_proc2 ++ ((i + 48) % 256 ∷ [])) ++ text_end))
      × IsCounter text_proc2 h m'
unfolding hello2_round
hello2_round-line env h i m clocks p =
    let (m', came, wrote, again) = count_round_lem env text_proc2 h i m clocks p in
    (m', came, wrote.sent, wrote.gpu, again)
