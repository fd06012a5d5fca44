-- ===== src/Kernel/Boot.antt =====
-- sw/kernel/src/main.c: main. The address of brk_handler, which the linker sets, is an argument.
pub mod Steps
pub mod Wave
pub mod Launch
pub mod Start
use bb6502_verilog.Common.{ℕ, zero, suc, ◌+◌, ◌&&◌, not, ◌==◌, if◌then◌else◌, Option, some, List}
use bb6502_verilog.Common.Bits.{shr, u8}
use bb6502_verilog.Common.Maybe.{◌>>=◌}
use bb6502_verilog.Clib.Chars.{text}
use bb6502_verilog.Machine.Bus.{Machine, bus_write}
use bb6502_verilog.Kernel.Block.{block_read}
use bb6502_verilog.Kernel.Console.{k_print}
use bb6502_verilog.Kernel.Spawn.{Image, System, buf_byte, spawn_bbx}
use bb6502_verilog.Kernel.Switch.{Running, sched_start}

-- How main ends: it spins at once, or the scheduler has started the first process.
pub data BootResult : Type 0 where
  hung : Machine → BootResult
  launched : Running → BootResult

-- The two stores of the handler's address.
unfoldable pub install_handler : (brk_handler : ℕ) → Machine → Machine
install_handler brk_handler m =
    bus_write 0xff (u8 (shr brk_handler 8)) (bus_write 0xfe (u8 brk_handler) m)

-- The loop of the identity page table, for the n pages from i on.
unfoldable pub map_identity : (n i : ℕ) → Machine → Machine
map_identity zero i m = m
map_identity (suc n) i m = map_identity n (i + 1) (bus_write (0x8080 + i) i m)

abbrev pub boot_error : List ℕ
unfolding text
boot_error = text "block_read ERROR"

abbrev pub signature_ok : List ℕ
unfolding text
signature_ok = text "FAT boot signature OK\r\n"

abbrev pub signature_missing : List ℕ
unfolding text
signature_missing = text "FAT boot signature MISSING\r\n"

-- The test of the boot signature.
unfoldable pub check_signature : Image → Machine → Option Machine
check_signature im m =
    k_print im.clocks
      (if buf_byte im 510 m == 0x55 && buf_byte im 511 m == 0xaa
        then signature_ok
        else signature_missing)
      m

-- `k_print(name); spawn_bbx(lba, 1, base);`
unfoldable pub load : Image → (name : List ℕ) → (lba base : ℕ) → System → Option System
load im name lba base s = k_print im.clocks name s.machine >>= λ m.
    spawn_bbx im lba 1 base (record s { machine = m }) >>= λ p. some p.1

abbrev pub loading_hello : List ℕ
unfolding text
loading_hello = text "Loading hello.c\r\n"

abbrev pub loading_hello2 : List ℕ
unfolding text
loading_hello2 = text "Loading hello2.c\r\n"

abbrev pub loading_disktest : List ℕ
unfolding text
loading_disktest = text "Loading disktest.c\r\n"

abbrev pub starting : List ℕ
unfolding text
starting = text "Staring scheduler...\r\n"

-- The end of main; sched_start never returns.
unfoldable pub start_scheduler : Image → System → Option BootResult
start_scheduler im s = k_print im.clocks starting s.machine >>= λ m.
    some (launched (sched_start (record s { machine = m })))

-- What follows the read of the boot sector.
unfoldable pub after_boot_sector : Image → System → ℕ × Machine → Option BootResult
after_boot_sector im s (r, m) =
    if not (r == 0)
    then (k_print im.clocks boot_error m >>= λ m'. some (hung m'))
    else (check_signature im m >>= λ m1.
        load im loading_hello 200 1 (record s { machine = m1 })
        >>= load im loading_hello2 210 3
        >>= load im loading_disktest 220 5
        >>= start_scheduler im)

-- main
unfoldable pub main : Image → (brk_handler : ℕ) → System → Option BootResult
main im brk_handler s =
    block_read im.zero_page 0 im.block_buf
      (map_identity 32 0 (install_handler brk_handler s.machine))
    >>= after_boot_sector im s
