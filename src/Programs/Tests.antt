-- ===== src/Programs/Tests.antt =====
-- The programs in the memory of a process whose page k is page 31 - k of the RAM.
pub mod Stubs
pub mod Turns
use bb6502_verilog.Common.{
  ℕ, ◌+◌, ◌-◌, ◌%◌, ◌^◌, ◌<◌, ◌≤◌, ◌≡◌, inr, refl, Bool, true, false, ◌&&◌, and-true, ◌==◌, ==_iff,
  leb, if◌then◌else◌, none, some, Option, List, [], ◌∷◌, ◌++◌, not, length, get_or, All-get_or,
  arith,
}
use bb6502_verilog.Common.Maybe.{◌>>=◌}
use bb6502_verilog.Clib.Chars.{text}
use bb6502_verilog.Machine.Mmu.{ram_addr}
use bb6502_verilog.Machine.Bus.{Machine, data_in}
use bb6502_verilog.Kernel.Tests.{pointers}
use bb6502_verilog.Kernel.Console.{alphabet}
use bb6502_verilog.Kernel.UserMemory.Translate.{in_user}
use bb6502_verilog.Kernel.Syscalls.{Env, syscall_dispatch}
use bb6502_verilog.Kernel.Syscalls.Puts.{IsUserString}
use bb6502_verilog.Kernel.Entry.{Cpu, in_kernel, sys_call, ret_user_mode}
use bb6502_verilog.Kernel.Entry.Stack.{IsUsable, IsCpu, IsStub}
use bb6502_verilog.Kernel.Entry.Call.{Entered, sys_call-dispatches}
use bb6502_verilog.Programs.Calls.{IsRunning}
use bb6502_verilog.Programs.Calls.Output.{IsLiteral}
use bb6502_verilog.Programs.Disktest.{
  Linked, at_call, text_ret, text_sig, text_pass, text_fail, disktest_main,
}
use bb6502_verilog.Programs.Disktest.Printed.{line}
use bb6502_verilog.Programs.Disktest.Reports.{
  HasLiteral, HasStub, IsProgram, disktest_main-line, disktest_main-fails,
}
use bb6502_verilog.Programs.Hello.{Counter, text_proc1, text_end, hello_round}
use bb6502_verilog.Programs.Hello.Lines.{IsCounter, hello_round-line}

-- The literals of the programs, from $1000 on.
abbrev literals : List ℕ
unfolding text
literals =
    alphabet
    ++ (0 ∷ text_ret
        ++ (0 ∷ text_sig
            ++ (0 ∷ text_pass
                ++ (0 ∷ text_fail ++ (0 ∷ text_proc1 ++ (0 ∷ text_end ++ (0 ∷ [])))))))

-- Page 4 of the process is at $6C00 of the RAM; the BRKs are at $1200, $1210 and so on.
abbrev program_ram : ℕ → ℕ
program_ram i =
    if i == 0x6e01
    then 2
    else if i == 0x6e11
    then 4
    else if i == 0x6e21
    then 5
    else if i == 0x6e31
    then 6
    else if i == 0x6e41
    then 3
    else if leb 0x6c00 i
    then get_or literals (i - 0x6c00) 0
    else 0

abbrev process : Option (ℕ → ℕ) → Machine
process image = record {
  ram = program_ram;
  rom = λ _. 0;
  mmu = record { ppn = λ k. (63 - k) % 32; u_bits = λ _. 255; w_bits = λ _. 255; kernel = false };
  acia = record { rx_data = 0; rx_valid = false; tx_ready = true; tx_count = 0; sent = [] };
  gpu_sent = [];
  disk = record {
    lba = 0;
    buf = λ _. 0;
    dptr = 0;
    busy = false;
    err = false;
    pos = 0;
    image = image;
  };
}

abbrev slow : Env
slow = record { zero_page = pointers; clocks = 4; arrivals = [] }

abbrev registers : ℕ → Cpu
registers i = record { a = 1; x = 2; y = 3; p = 0x20; sp = 0xf0; pc = 0 }

abbrev disktest : Linked
disktest = record {
  buf = 0x1400;
  hex = 0x1000;
  str_ret = 0x1011;
  str_sig = 0x1028;
  str_pass = 0x102e;
  str_fail = 0x1036;
  putc_brk = 0x1200;
  puts_brk = 0x1210;
  read_brk = 0x1220;
  cpu = registers;
}

literals_small : (i : ℕ) → get_or literals i 0 < 256
unfolding text
literals_small i = All-get_or (λ c. c < 256) literals i {d = 0} (omega arith) (omega arith)

program_ram-small : (i : ℕ) → program_ram i < 256
program_ram-small i = ground (arith, literals_small (i - 0x6c00))

process-IsUsable : (image : Option (ℕ → ℕ)) → IsUsable (process image)
process-IsUsable image = record {
  table = λ i. omega arith;
  bytes = program_ram-small;
  own = omega arith;
}

process-IsRunning : (image : Option (ℕ → ℕ)) → IsRunning (process image)
process-IsRunning image = record { usable = process-IsUsable image; counts = omega arith }

registers-IsCpu : (pc : ℕ) → pc + 1 < 2 ^ 15 → (i : ℕ) → IsCpu (record (registers i) { pc = pc })
registers-IsCpu pc h i = record {
  a_small = omega arith;
  x_small = omega arith;
  y_small = omega arith;
  p_small = omega arith;
  sp_small = omega arith;
  room = omega arith;
  pc_small = h;
}

-- A test for IsUserString.
reads : List ℕ → ℕ → Machine → Bool
reads [] va m = data_in va (in_user m) == 0
reads (c ∷ cs) va m = (data_in va (in_user m) == c) && (not (c == 0) && reads cs (va + 1) m)

reads_lem : (cs : List ℕ) (va : ℕ) (m : Machine) → reads cs va m ≡ true → IsUserString cs va m
unfolding reads
reads_lem [] va m h = (==_iff (data_in va (in_user m)) 0).0 h
reads_lem (c ∷ cs) va m h =
    let (byte, more) = and-true {a = data_in va (in_user m) == c} h in
    let (full, rest) = and-true {a = not (c == 0)} more in
    ((==_iff (data_in va (in_user m)) c).0 byte, ground arith, reads_lem cs (va + 1) m rest)

text-IsLiteral :
    (cs : List ℕ) (va : ℕ) (image : Option (ℕ → ℕ))
    → reads cs va (process image) ≡ true
    → 0x1000 ≤ va
    → va + length cs < 0x1400
    → IsLiteral cs va (process image)
text-IsLiteral cs va image h low high = record {
  text_at = reads_lem cs va (process image) h;
  low = omega arith;
  in_page = omega arith;
  page = (omega arith, omega arith);
}

text-HasLiteral :
    (cs : List ℕ) (va : ℕ) (image : Option (ℕ → ℕ))
    → reads cs va (process image) ≡ true
    → 0x1000 ≤ va
    → va + length cs < 0x1400
    → HasLiteral 0x1400 cs va (process image)
unfolding ram_addr
text-HasLiteral cs va image h low high = record {
  literal = text-IsLiteral cs va image h low high;
  clear = inr (omega arith);
}

putc-HasStub : (image : Option (ℕ → ℕ)) → HasStub 0x1400 2 0x1200 (process image)
unfolding data_in ram_addr text
putc-HasStub image = record {
  stub = record { number = refl; page = (omega arith, omega arith) };
  clear = inr (omega arith);
}

puts-HasStub : (image : Option (ℕ → ℕ)) → HasStub 0x1400 4 0x1210 (process image)
unfolding data_in ram_addr text
puts-HasStub image = record {
  stub = record { number = refl; page = (omega arith, omega arith) };
  clear = inr (omega arith);
}

read-IsStub : (image : Option (ℕ → ℕ)) → IsStub 5 0x1220 (process image)
unfolding data_in ram_addr text
read-IsStub image = record { number = refl; page = (omega arith, omega arith) }

disktest-IsProgram : (image : Option (ℕ → ℕ)) → IsProgram disktest (process image)
unfolding reads data_in ram_addr text
disktest-IsProgram image = record {
  running = process-IsRunning image;
  cpus = record {
    putc_cpu = registers-IsCpu 0x1200 (omega arith);
    puts_cpu = registers-IsCpu 0x1210 (omega arith);
    read_cpu = registers-IsCpu 0x1220 (omega arith);
  };
  buffer = record {
    low = omega arith;
    in_page = omega arith;
    page = (omega arith, omega arith);
    old_lba = omega arith;
  };
  read_stub = read-IsStub image;
  putc_stub = putc-HasStub image;
  puts_stub = puts-HasStub image;
  hex_at = text-HasLiteral alphabet 0x1000 image refl (omega arith) (omega arith);
  ret_at = text-HasLiteral text_ret 0x1011 image refl (omega arith) (omega arith);
  sig_at = text-HasLiteral text_sig 0x1028 image refl (omega arith) (omega arith);
  pass_at = text-HasLiteral text_pass 0x102e image refl (omega arith) (omega arith);
  fail_at = text-HasLiteral text_fail 0x1036 image refl (omega arith) (omega arith);
}

-- A disk with the signature of a boot sector.
abbrev signed : ℕ → ℕ
signed i = if i == 510 then 0x55 else if i == 511 then 0xaa else 0

signed_small : (i : ℕ) → signed i < 256
signed_small i = ground arith

disktest_main-line_example :
    (m' : Machine) × (disktest_main slow disktest (in_user (process (some signed)))
      ≡ some (in_user m'))
    × (m'.acia.sent ≡ line 0 0x55 0xaa)
    × (m'.gpu_sent ≡ line 0 0x55 0xaa)
disktest_main-line_example =
    disktest_main-line slow disktest signed (process (some signed)) (omega arith)
      (disktest-IsProgram (some signed)) refl signed_small

-- The line that the comment of disktest.c expects.
test_line : line 0 0x55 0xaa ≡ text "        disktest: ret=00 sig=55 AA PASS\r\n"
unfolding text
test_line = refl

disktest_main-fails_example :
    (m' : Machine) × (disktest_main slow disktest (in_user (process none)) ≡ some (in_user m'))
    × (m'.acia.sent
        ≡ line 1
            (data_in (disktest.buf + 510) (in_user (process none)))
            (data_in (disktest.buf + 511) (in_user (process none))))
    × (m'.gpu_sent
        ≡ line 1
            (data_in (disktest.buf + 510) (in_user (process none)))
            (data_in (disktest.buf + 511) (in_user (process none))))
disktest_main-fails_example =
    disktest_main-fails slow disktest (process none) (omega arith) (disktest-IsProgram none) refl

abbrev hello : Counter
hello = record {
  str_proc = 0x103e;
  str_end = 0x1045;
  putc_brk = 0x1200;
  puts_brk = 0x1210;
  cpu = registers;
}

hello-IsCounter : IsCounter text_proc1 hello (process none)
unfolding reads data_in ram_addr text
hello-IsCounter = record {
  running = process-IsRunning none;
  putc_cpu = registers-IsCpu 0x1200 (omega arith);
  puts_cpu = registers-IsCpu 0x1210 (omega arith);
  putc_stub = (putc-HasStub none).stub;
  puts_stub = (puts-HasStub none).stub;
  proc_at = text-IsLiteral text_proc1 0x103e none refl (omega arith) (omega arith);
  end_at = text-IsLiteral text_end 0x1045 none refl (omega arith) (omega arith);
}

-- The eleventh round: the character behind the digits.
hello_round-line_example :
    (m' : Machine) × (hello_round slow hello 10 (in_user (process none)) ≡ some (11, in_user m'))
    × (m'.acia.sent ≡ (text_proc1 ++ (b':' ∷ [])) ++ text_end)
    × (m'.gpu_sent ≡ (text_proc1 ++ (b':' ∷ [])) ++ text_end)
    × IsCounter text_proc1 hello m'
hello_round-line_example =
    hello_round-line slow hello 10 (process none) (omega arith) hello-IsCounter

abbrev reading : Cpu
reading = at_call disktest 0 0x1220

sys_call-dispatches_example :
    (r : ℕ → ℕ) × (sys_call slow reading (in_user (process none)) ≡ (
      syscall_dispatch slow (in_kernel (record (process none) { ram = r })) >>= λ m'.
      some (ret_user_mode 0xea m')))
    × Entered 5 reading (process none) r
sys_call-dispatches_example =
    sys_call-dispatches slow 5 reading (process none) (process-IsUsable none)
      (registers-IsCpu 0x1220 (omega arith) 0) (read-IsStub none) (omega arith)
