-- ===== src/Programs/Disktest/Printed.antt =====
-- What disktest prints.
use bb6502_verilog.Common.{
  ℕ, zero, suc, ◌+◌, ◌%◌, ◌^◌, ◌<◌, ◌≤◌, ◌≡◌, inl, inr, ◌∙◌, ◌&&◌, ◌==◌, if◌then◌else◌, Bool-cases,
  List, [], ◌∷◌, ◌++◌, length, get_or, All-get_or, arith,
}
use bb6502_verilog.Common.Bits.{shr, low_bits}
use bb6502_verilog.Clib.Chars.{text}
use bb6502_verilog.Machine.Mmu.{vpn}
use bb6502_verilog.Machine.Bus.{Machine, data_in}
use bb6502_verilog.Kernel.UserMemory.Translate.{in_user}
use bb6502_verilog.Kernel.Console.{alphabet}
use bb6502_verilog.Kernel.Syscalls.{Env}
use bb6502_verilog.Kernel.Syscalls.Puts.{IsUserString}
use bb6502_verilog.Kernel.Entry.Stack.{IsCpu, IsAway, IsStub}
use bb6502_verilog.Programs.Syslib.{sys_putc_number, sys_puts_number, sys_putc, sys_puts}
use bb6502_verilog.Programs.Calls.{IsRunning, Wrote, data_in-away, IsStub-kept}
use bb6502_verilog.Programs.Calls.Output.{IsLiteral, IsLiteral-kept, sys_putc_lem, sys_puts_lem}
use bb6502_verilog.Programs.Disktest.{
  Linked, at_call, text_ret, text_sig, text_pass, text_fail, put_hex, verdict, print_result,
}
use bb6502_verilog.Programs.Calls.Chain.{Says, Says-then}

-- The registers are in range at every call, and the BRKs in the program's memory.
pub record HasCpus (l : Linked) : Type 0 where
  pub putc_cpu : (i : ℕ) → IsCpu (at_call l i l.putc_brk)
  pub puts_cpu : (i : ℕ) → IsCpu (at_call l i l.puts_brk)
  pub read_cpu : (i : ℕ) → IsCpu (at_call l i l.read_brk)

-- The program in memory, with the last two bytes of its buffer.
pub record IsPrinter (l : Linked) (b0 b1 : ℕ) (m : Machine) : Type 0 where
  pub running : IsRunning m
  pub putc_stub : IsStub sys_putc_number l.putc_brk m
  pub puts_stub : IsStub sys_puts_number l.puts_brk m
  pub hex_at : IsLiteral alphabet l.hex m
  pub ret_at : IsLiteral text_ret l.str_ret m
  pub sig_at : IsLiteral text_sig l.str_sig m
  pub pass_at : IsLiteral text_pass l.str_pass m
  pub fail_at : IsLiteral text_fail l.str_fail m
  pub low : l.buf < 2 ^ 15
  pub in_page : l.buf % 2 ^ 10 + 512 ≤ 2 ^ 10
  pub page : IsAway m (m.mmu.ppn (vpn l.buf))
  pub byte510 : data_in (l.buf + 510) (in_user m) ≡ b0
  pub byte511 : data_in (l.buf + 511) (in_user m) ≡ b1
  pub small0 : b0 < 256
  pub small1 : b1 < 256

-- A byte of the buffer is as it was behind a call that writes.
byte_kept :
    (cs : List ℕ) (buf i b : ℕ) (m m' : Machine)
    → buf < 2 ^ 15
    → buf % 2 ^ 10 + 512 ≤ 2 ^ 10
    → IsAway m (m.mmu.ppn (vpn buf))
    → i < 512
    → Wrote cs m m'
    → data_in (buf + i) (in_user m) ≡ b
    → data_in (buf + i) (in_user m') ≡ b
byte_kept cs buf i b m m' low in_page page h w byte =
    let same : vpn (buf + i) ≡ vpn buf = omega arith in
    data_in-away (buf + i) m m' (omega arith) (rw same page) w.mmu w.away ∙ byte

IsPrinter-kept :
    (cs : List ℕ) (l : Linked) (b0 b1 : ℕ) (m m' : Machine)
    → HasCpus l
    → Wrote cs m m'
    → IsPrinter l b0 b1 m
    → IsPrinter l b0 b1 m'
IsPrinter-kept cs l b0 b1 m m' cpus w p = record {
  running = w.running;
  putc_stub =
      IsStub-kept sys_putc_number l.putc_brk m m' (cpus.putc_cpu 0).pc_small w.mmu w.away
        p.putc_stub;
  puts_stub =
      IsStub-kept sys_puts_number l.puts_brk m m' (cpus.puts_cpu 0).pc_small w.mmu w.away
        p.puts_stub;
  hex_at = IsLiteral-kept alphabet l.hex m m' w.mmu w.away p.hex_at;
  ret_at = IsLiteral-kept text_ret l.str_ret m m' w.mmu w.away p.ret_at;
  sig_at = IsLiteral-kept text_sig l.str_sig m m' w.mmu w.away p.sig_at;
  pass_at = IsLiteral-kept text_pass l.str_pass m m' w.mmu w.away p.pass_at;
  fail_at = IsLiteral-kept text_fail l.str_fail m m' w.mmu w.away p.fail_at;
  low = p.low;
  in_page = p.in_page;
  page = rw w.mmu p.page;
  byte510 = byte_kept cs l.buf 510 b0 m m' p.low p.in_page p.page (omega arith) w p.byte510;
  byte511 = byte_kept cs l.buf 511 b1 m m' p.low p.in_page p.page (omega arith) w p.byte511;
  small0 = p.small0;
  small1 = p.small1;
}

string_char :
    (cs : List ℕ) (va n : ℕ) (m : Machine)
    → IsUserString cs va m
    → n < length cs
    → data_in (va + n) (in_user m) ≡ get_or cs n 0
string_char [] va n m str h = absurd (omega arith)
string_char (d ∷ cs) va zero m (byte, full, rest) h =
    let same : va + 0 ≡ va = omega arith in rw same byte
string_char (d ∷ cs) va (suc n) m (byte, full, rest) h =
    let next : va + suc n ≡ va + 1 + n = omega arith in
    rw next (string_char cs (va + 1) n m rest (omega arith))

-- The digit for a number below 16.
abbrev pub digit : ℕ → ℕ
digit n = get_or alphabet n 0

abbrev pub two_digits : ℕ → List ℕ
two_digits b = digit (shr b 4) ∷ (digit (low_bits b 4) ∷ [])

digit_small : (n : ℕ) → digit n < 256
unfolding text
digit_small n = All-get_or (λ c. c < 256) alphabet n {d = 0} (omega arith) (omega arith)

-- The text of the result.
abbrev pub closing : (r b0 b1 : ℕ) → List ℕ
closing r b0 b1 = if r == 0 && b0 == 0x55 && b1 == 0xaa then text_pass else text_fail

-- The line that disktest writes for a result of the read and the last two bytes of its buffer.
abbrev pub line : (r b0 b1 : ℕ) → List ℕ
line r b0 b1 =
    text_ret
    ++ (two_digits r
        ++ (text_sig ++ (two_digits b0 ++ ((b' ' ∷ []) ++ (two_digits b1 ++ closing r b0 b1)))))

module _ (env : Env) (l : Linked) (clocks : 0 < env.clocks) (cpus : HasCpus l) (b0 b1 : ℕ) where
  putc-Says :
      (i v : ℕ) (m : Machine)
      → IsPrinter l b0 b1 m
      → v < 256
      → Says (v ∷ []) (sys_putc env (at_call l i l.putc_brk) v (in_user m)) m
  putc-Says i v m p h =
      sys_putc_lem env (at_call l i l.putc_brk) v m clocks p.running (cpus.putc_cpu i) p.putc_stub h

  puts-Says :
      (i va : ℕ) (cs : List ℕ) (m : Machine)
      → IsPrinter l b0 b1 m
      → IsLiteral cs va m
      → Says cs (sys_puts env (at_call l i l.puts_brk) va (in_user m)) m
  puts-Says i va cs m p lit =
      sys_puts_lem env (at_call l i l.puts_brk) va cs m clocks p.running (cpus.puts_cpu i)
        p.puts_stub lit

  digit-Says :
      (i n : ℕ) (m : Machine)
      → IsPrinter l b0 b1 m
      → n < 16
      → Says
          (digit n ∷ [])
          (sys_putc env (at_call l i l.putc_brk) (data_in (l.hex + n) (in_user m)) (in_user m))
          m
  unfolding text
  digit-Says i n m p h =
      let load = string_char alphabet l.hex n m p.hex_at.text_at h in
      rw load (putc-Says i (digit n) m p (digit_small n))

  put_hex-Says :
      (i b : ℕ) (m : Machine)
      → IsPrinter l b0 b1 m
      → b < 256
      → Says (two_digits b) (put_hex env l i b (in_user m)) m
  unfolding put_hex
  put_hex-Says i b m p h =
      Says-then (digit (shr b 4) ∷ []) (digit (low_bits b 4) ∷ []) _ _ m
        (digit-Says i (shr b 4) m p (omega arith))
        λ m1 w.
          digit-Says (i + 1) (low_bits b 4) m1 (IsPrinter-kept _ l b0 b1 m m1 cpus w p)
            (omega arith)

  byte-Says :
      (i k b : ℕ) (m : Machine)
      → IsPrinter l b0 b1 m
      → data_in (l.buf + k) (in_user m) ≡ b
      → b < 256
      → Says (two_digits b) (put_hex env l i (data_in (l.buf + k) (in_user m)) (in_user m)) m
  byte-Says i k b m p byte h = rw byte (put_hex-Says i b m p h)

  verdict_lem :
      (r : ℕ) (m : Machine)
      → IsPrinter l b0 b1 m
      → IsLiteral (closing r b0 b1) (verdict l r (in_user m)) m
  unfolding verdict
  verdict_lem r m p =
      rw (p.byte510, p.byte511)
        (elim (Bool-cases (r == 0 && b0 == 0x55 && b1 == 0xaa)) [
          | inl good ↦ rw good p.pass_at
          | inr bad ↦ rw bad p.fail_at
        ])

  pub print_result-Says :
      (r : ℕ) (m : Machine)
      → IsPrinter l b0 b1 m
      → r < 256
      → Says (line r b0 b1) (print_result env l r (in_user m)) m
  unfolding print_result
  print_result-Says r m p h =
      Says-then text_ret _ _ _ m (puts-Says 1 l.str_ret text_ret m p p.ret_at) λ m1 w1.
        let p1 = IsPrinter-kept _ l b0 b1 m m1 cpus w1 p in
        Says-then (two_digits r) _ _ _ m1 (put_hex-Says 2 r m1 p1 h) λ m2 w2.
          let p2 = IsPrinter-kept _ l b0 b1 m1 m2 cpus w2 p1 in
          Says-then text_sig _ _ _ m2 (puts-Says 4 l.str_sig text_sig m2 p2 p2.sig_at) λ m3 w3.
            let p3 = IsPrinter-kept _ l b0 b1 m2 m3 cpus w3 p2 in
            Says-then (two_digits b0) _ _ _ m3 (byte-Says 5 510 b0 m3 p3 p3.byte510 p3.small0)
              λ m4 w4.
                let p4 = IsPrinter-kept _ l b0 b1 m3 m4 cpus w4 p3 in
                Says-then (b' ' ∷ []) _ _ _ m4 (putc-Says 7 b' ' m4 p4 (omega arith)) λ m5 w5.
                  let p5 = IsPrinter-kept _ l b0 b1 m4 m5 cpus w5 p4 in
                  Says-then (two_digits b1) (closing r b0 b1) _ _ m5
                    (byte-Says 8 511 b1 m5 p5 p5.byte511 p5.small1)
                    λ m6 w6.
                      let p6 = IsPrinter-kept _ l b0 b1 m5 m6 cpus w6 p5 in
                      puts-Says 10 (verdict l r (in_user m6)) (closing r b0 b1) m6 p6
                        (verdict_lem r m6 p6)
