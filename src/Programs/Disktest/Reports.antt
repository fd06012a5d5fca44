-- ===== src/Programs/Disktest/Reports.antt =====
-- disktest as a whole: the block is read into the program's memory, which is otherwise as it was.
use bb6502_verilog.Common.{
  ℕ, ◌+◌, ◌*◌, ◌/◌, ◌%◌, ◌^◌, ◌<◌, ◌≤◌, ◌≡◌, ◌⊎◌, sym, ◌∙◌, ap, none, some, List, [], ◌∷◌, ◌++◌,
  length, arith,
}
use bb6502_verilog.Machine.Mmu.{vpn, ram_addr}
use bb6502_verilog.Machine.Bus.{Machine, data_in}
use bb6502_verilog.Machine.Reads.{data_in-ram}
use bb6502_verilog.Kernel.Console.{alphabet}
use bb6502_verilog.Kernel.UserMemory.Translate.{user, in_user}
use bb6502_verilog.Kernel.UserMemory.Place.{place_add}
use bb6502_verilog.Kernel.Syscalls.{Env}
use bb6502_verilog.Kernel.Syscalls.Puts.{IsUserString}
use bb6502_verilog.Kernel.Entry.Stack.{IsAway, IsStub}
use bb6502_verilog.Programs.Syslib.{sys_putc_number, sys_puts_number, sys_block_read_number}
use bb6502_verilog.Programs.Calls.{IsRunning, ram_addr-frame}
use bb6502_verilog.Programs.Calls.Output.{IsLiteral}
use bb6502_verilog.Programs.Calls.Buffer.{IsBuffer, Read}
use bb6502_verilog.Programs.Calls.Blocks.{sys_block_read_lem, sys_block_read_fails}
use bb6502_verilog.Programs.Disktest.{
  Linked, at_call, text_ret, text_sig, text_pass, text_fail, print_result, disktest_main,
}
use bb6502_verilog.Programs.Disktest.Printed.{HasCpus, IsPrinter, line, print_result-Says}

-- Where an address of the program lies in the RAM.
abbrev pub place : Machine → ℕ → ℕ
place m va = ram_addr (user m.mmu) va

-- `n` bytes from `va` on do not share a cell with the buffer.
abbrev pub Clear : (buf va n : ℕ) → Machine → Type 0
Clear buf va n m = (place m va + n ≤ place m buf) ⊎ (place m buf + 512 ≤ place m va)

-- A literal that is not in the buffer.
pub record HasLiteral (buf : ℕ) (cs : List ℕ) (va : ℕ) (m : Machine) : Type 0 where
  pub literal : IsLiteral cs va m
  pub clear : Clear buf va (length cs + 1) m

-- A stub that is not in the buffer.
pub record HasStub (buf n pc : ℕ) (m : Machine) : Type 0 where
  pub stub : IsStub n pc m
  pub clear : Clear buf (pc + 1) 1 m

-- The program in the memory of a process: its parts are in pages that are neither the process's page
-- 0 nor the kernel's first one.
pub record IsProgram (l : Linked) (m : Machine) : Type 0 where
  pub running : IsRunning m
  pub cpus : HasCpus l
  pub buffer : IsBuffer l.buf m
  pub read_stub : IsStub sys_block_read_number l.read_brk m
  pub putc_stub : HasStub l.buf sys_putc_number l.putc_brk m
  pub puts_stub : HasStub l.buf sys_puts_number l.puts_brk m
  pub hex_at : HasLiteral l.buf alphabet l.hex m
  pub ret_at : HasLiteral l.buf text_ret l.str_ret m
  pub sig_at : HasLiteral l.buf text_sig l.str_sig m
  pub pass_at : HasLiteral l.buf text_pass l.str_pass m
  pub fail_at : HasLiteral l.buf text_fail l.str_fail m

module _ (buf ret : ℕ) (bytes : ℕ → ℕ) (m m' : Machine) (done : Read buf ret bytes m m') where
  -- A byte outside the buffer is as it was.
  data_in-Clear :
      (va : ℕ)
      → va < 2 ^ 15
      → IsAway m (m.mmu.ppn (vpn va))
      → Clear buf va 1 m
      → data_in va (in_user m') ≡ data_in va (in_user m)
  data_in-Clear va low away clear =
      let frame = ram_addr-frame m.mmu va in
      let there : IsAway m (place m va / 2 ^ 10) = rw frame away in
      let out : (place m va < place m buf) ⊎ (place m buf + 512 ≤ place m va) = omega arith in
      data_in-ram (in_user m') va low
      ∙ ap (λ t. m'.ram (ram_addr (user t) va)) done.mmu
      ∙ done.away (place m va) there out
      ∙ sym (data_in-ram (in_user m) va low)

  string-Clear :
      (cs : List ℕ) (va : ℕ)
      → va + length cs < 2 ^ 15
      → va % 2 ^ 10 + length cs < 2 ^ 10
      → IsAway m (m.mmu.ppn (vpn va))
      → Clear buf va (length cs + 1) m
      → IsUserString cs va m
      → IsUserString cs va m'
  string-Clear [] va low page away clear str =
      data_in-Clear va (omega arith) away (omega arith) ∙ str
  string-Clear (d ∷ cs) va low page away clear (byte, full, rest) =
      let next : vpn (va + 1) ≡ vpn va = omega arith in
      let behind = place_add m.mmu va 1 (omega arith) in
      (
        data_in-Clear va (omega arith) away (omega arith) ∙ byte,
        full,
        string-Clear cs (va + 1) (omega arith) (omega arith) (rw next away) (omega (arith, behind))
            rest,
      )

  IsLiteral-clear : (cs : List ℕ) (va : ℕ) → HasLiteral buf cs va m → IsLiteral cs va m'
  IsLiteral-clear cs va h =
      let lit = h.literal in
      record {
        text_at = string-Clear cs va lit.low lit.in_page lit.page h.clear lit.text_at;
        low = lit.low;
        in_page = lit.in_page;
        page = rw done.mmu lit.page;
      }

  IsStub-clear : (n pc : ℕ) → pc + 1 < 2 ^ 15 → HasStub buf n pc m → IsStub n pc m'
  IsStub-clear n pc low h = record {
    number = data_in-Clear (pc + 1) low h.stub.page h.clear ∙ h.stub.number;
    page = rw done.mmu h.stub.page;
  }

-- The program behind its read.
IsProgram-Read :
    (l : Linked) (ret : ℕ) (bytes : ℕ → ℕ) (m m' : Machine)
    → ((i : ℕ) → bytes i < 256)
    → Read l.buf ret bytes m m'
    → IsProgram l m
    → IsPrinter l (bytes 510) (bytes 511) m'
IsProgram-Read l ret bytes m m' small done p =
    let lit = IsLiteral-clear l.buf ret bytes m m' done in
    let stub = IsStub-clear l.buf ret bytes m m' done in
    record {
      running = done.running;
      putc_stub = stub sys_putc_number l.putc_brk (p.cpus.putc_cpu 0).pc_small p.putc_stub;
      puts_stub = stub sys_puts_number l.puts_brk (p.cpus.puts_cpu 0).pc_small p.puts_stub;
      hex_at = lit alphabet l.hex p.hex_at;
      ret_at = lit text_ret l.str_ret p.ret_at;
      sig_at = lit text_sig l.str_sig p.sig_at;
      pass_at = lit text_pass l.str_pass p.pass_at;
      fail_at = lit text_fail l.str_fail p.fail_at;
      low = p.buffer.low;
      in_page = p.buffer.in_page;
      page = rw done.mmu p.buffer.page;
      byte510 = done.buffer 510 (omega arith);
      byte511 = done.buffer 511 (omega arith);
      small0 = small 510;
      small1 = small 511;
    }

-- What follows the read.
main-line :
    (env : Env) (l : Linked) (ret : ℕ) (bytes : ℕ → ℕ) (m m1 : Machine)
    → 0 < env.clocks
    → IsProgram l m
    → ((i : ℕ) → bytes i < 256)
    → ret < 256
    → Read l.buf ret bytes m m1
    → (m' : Machine) × (print_result env l ret (in_user m1) ≡ some (in_user m'))
      × (m'.acia.sent ≡ m.acia.sent ++ line ret (bytes 510) (bytes 511))
      × (m'.gpu_sent ≡ m.gpu_sent ++ line ret (bytes 510) (bytes 511))
main-line env l ret bytes m m1 clocks p small low done =
    let text = line ret (bytes 510) (bytes 511) in
    let (m', came, wrote) =
      print_result-Says env l clocks p.cpus (bytes 510) (bytes 511) ret m1
        (IsProgram-Read l ret bytes m m1 small done p) low in
    (m', came, wrote.sent ∙ ap (λ s. s ++ text) done.sent, wrote.gpu ∙ ap (λ s. s ++ text) done.gpu)

-- disktest in a process, with a disk image of bytes, comes to its loop of sys_yield, and has then
-- written one line on both ports: the result 00 of the read, the bytes 510 and 511 of the image in
-- hexadecimal, and PASS if these are 55 AA, else FAIL.
pub disktest_main-line :
    (env : Env) (l : Linked) (img : ℕ → ℕ) (m : Machine)
    → 0 < env.clocks
    → IsProgram l m
    → m.disk.image ≡ some img
    → ((i : ℕ) → img i < 256)
    → (m' : Machine) × (disktest_main env l (in_user m) ≡ some (in_user m'))
      × (m'.acia.sent ≡ m.acia.sent ++ line 0 (img 510) (img 511))
      × (m'.gpu_sent ≡ m.gpu_sent ++ line 0 (img 510) (img 511))
unfolding disktest_main
disktest_main-line env l img m clocks p disk small =
    let (m1, read, done) =
      sys_block_read_lem env (at_call l 0 l.read_brk) 0 l.buf img m p.running (p.cpus.read_cpu 0)
        p.read_stub p.buffer (omega arith) disk small in
    let (m', came, sent, gpu) =
      main-line env l 0 (λ i. img (0 * 512 + i)) m m1 clocks p (λ i. small (0 * 512 + i))
        (omega arith) done in
    (m', rw read came, sent, gpu)

-- Without a disk image it writes the line for the result 01 and the bytes that its buffer held before,
-- with FAIL.
pub disktest_main-fails :
    (env : Env) (l : Linked) (m : Machine)
    → 0 < env.clocks
    → IsProgram l m
    → m.disk.image ≡ none
    → (m' : Machine) × (disktest_main env l (in_user m) ≡ some (in_user m'))
      × (m'.acia.sent
          ≡ m.acia.sent
            ++ line 1 (data_in (l.buf + 510) (in_user m)) (data_in (l.buf + 511) (in_user m)))
      × (m'.gpu_sent
          ≡ m.gpu_sent
            ++ line 1 (data_in (l.buf + 510) (in_user m)) (data_in (l.buf + 511) (in_user m)))
unfolding disktest_main
disktest_main-fails env l m clocks p closed =
    let (m1, read, done) =
      sys_block_read_fails env (at_call l 0 l.read_brk) 0 l.buf m p.running (p.cpus.read_cpu 0)
        p.read_stub p.buffer (omega arith) closed in
    let cell = λ (i : ℕ) (h : i < 512).
      let e : data_in (l.buf + i) (in_user m) ≡ m.ram (place m l.buf + i) =
        data_in-ram (in_user m) (l.buf + i) (omega (arith, p.buffer.in_page, p.buffer.low))
        ∙ ap m.ram (place_add m.mmu l.buf i (omega (arith, p.buffer.in_page))) in
      e in
    let (m', came, sent, gpu) =
      main-line env l 1 (λ i. m.ram (place m l.buf + i)) m m1 clocks p
        (λ i. p.running.usable.bytes (place m l.buf + i)) (omega arith) done in
    let first = cell 510 (omega arith) in
    let last = cell 511 (omega arith) in
    (m', rw read came, rw (first, last) sent, rw (first, last) gpu)
