-- ===== src/Programs/Tests/Stubs.antt =====
-- The stubs of syslib.s that disktest and hello do not call, and the buffers of two blocks.
use bb6502_verilog.Common.{◌≡◌, refl, false, none, some, [], ◌∷◌, ◌++◌, arith, replicate}
use bb6502_verilog.Clib.Chars.{text}
use bb6502_verilog.Machine.Mmu.{ram_addr}
use bb6502_verilog.Machine.Bus.{Machine, data_in}
use bb6502_verilog.Kernel.Tests.{pointers}
use bb6502_verilog.Kernel.UserMemory.Translate.{in_user}
use bb6502_verilog.Kernel.Syscalls.{Env}
use bb6502_verilog.Kernel.Entry.Stack.{IsStub}
use bb6502_verilog.Programs.Calls.{IsRunning, SameAway}
use bb6502_verilog.Programs.Syslib.{sys_getc}
use bb6502_verilog.Programs.Calls.Keys.{sys_getc-arrives}
use bb6502_verilog.Programs.Disktest.{at_call}
use bb6502_verilog.Programs.Tests.{process, disktest, registers-IsCpu, process-IsRunning}

-- A key comes in the third round of the wait.
abbrev typing : Env
typing = record {
  zero_page = pointers;
  clocks = 4;
  arrivals = replicate 2 none ++ (some b'k' ∷ []);
}

getc-IsStub : IsStub 3 0x1240 (process none)
unfolding data_in ram_addr text
getc-IsStub = record { number = refl; page = (omega arith, omega arith) }

sys_getc-arrives_example :
    (m' : Machine) × (sys_getc typing (at_call disktest 0 0x1240) (in_user (process none))
      ≡ some (b'k', in_user m'))
    × IsRunning m'
    × (m'.acia.rx_valid ≡ false)
    × (m'.acia.sent ≡ [])
    × (m'.gpu_sent ≡ [])
    × SameAway (process none) (process none).ram m'.ram
sys_getc-arrives_example =
    sys_getc-arrives typing (at_call disktest 0 0x1240) 2 b'k' [] (process none)
      (process-IsRunning none) (registers-IsCpu 0x1240 (omega arith) 0) getc-IsStub (omega arith)
      refl refl
