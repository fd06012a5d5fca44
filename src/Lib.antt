-- ===== src/Lib.antt =====
-- The BB6502 computer's debugger, monitor and kernel.
--
-- The computer is a Verilog model of a 65C02 machine with an MMU, a serial port, a disk and a text
-- display. A kernel in C runs on it. Two C programs look at it. The debugger (rtl/dbg) is a VPI
-- module inside the simulation: the testbench calls it at each instruction fetch, each byte on the
-- serial port and each fault of the MMU, and it reads the machine's memory and registers. The
-- monitor (tools/gpu.c) is a process of its own that shows the bytes written to the display port.
--
-- Files:
--   Common/      numbers, Boolean tests, lists, machine words, an integer, chains that may stop
--   Clib/        what the programs use of C's library: character classes, string functions, strtoul
--                and strtol (with the error of range and the case without digits), printf's formats
--   Machine/Mmu  rtl/mmu6502.v: page table, permissions, control registers
--   Machine/Bus  rtl/tb.v: the read mux and the writes, the serial port and the disk controller;
--                Machine/Reads and Machine/Ram have lemmas on them
--   Gpu/Screen   tools/gpu.c: put_char and scroll_if_needed; Gpu/Bounds and Gpu/Text: lemmas
--   Gpu/Monitor  tools/gpu.c: the loop of main and the keys it sends; Gpu/Sending: lemmas
--   Gpu/Render   tools/gpu.c: render, as the calls that draw, and the start and end of main
--   Debug/Sim    rtl/dbg/bbdbg_vpi.c: simReadMem and what it reads; Debug/Sim/Decode: lemmas
--   Debug/Opcodes, Debug/Disasm
--                rtl/dbg/debugger.h: optable; rtl/dbg/debugger.c: dbgDisasmInstrFromPc
--   Debug/State  the types of debugger.h, and the statics of debugger.c as the record Debugger
--   Debug/Breakpoints   dbgSetBp, dbgRmvBp, dbgCheckIfAtBp, dbgListBps
--   Debug/Symbols       dbgReadDbgSyms
--   Debug/Parse         dbgGetCmdTokens, dbgParseCommand, dbgStrToInt
--   Debug/Dump          dbgShowMem, dbgPrintRegisters
--   Debug/Control       the small steps between run modes, and the terminal pane
--   Debug/Commands      the commands of the prompt and dbgCommandLoop
--   Debug/Fetch         dbgOnFetch, dbgShouldStop, dbgHandleStp, dbgInit
--   Debug/Display       dbgInitDisplay, with window_t of debugger.h, and dbgCleanup
--   Debug/Vpi           rtl/dbg/bbdbg_vpi.c: parsePlusargs, lookup, startOfSim, simGetRegs, the
--                       system tasks
--   Debug/Handles       rtl/dbg/bbdbg_vpi.c: readInt, wordOf, and the reads through kept handles
--   Kernel/Process      sw/kernel/src/proc.c: schedule_process, spawn_bbx's page table
--   Kernel/Spawn        sw/kernel/src/proc.c: spawn_bbx, with memcpy512.s
--   Kernel/Bbx          tools/mkbbx.c: the check of a program file's header
--   Kernel/Switch       sw/kernel/src/yield.s: do_yield and sched_start
--   Kernel/Boot         sw/kernel/src/main.c: main
--   Kernel/ZeroPage     the kernel's pointers in its zero page: zp_ptr of block.c, ptr1 and ptr2 of
--                       memcpy512.s; Kernel/ZeroPage/Pointers: lemmas
--   Kernel/Block        sw/kernel/src/block.c: set_lba, block_read, block_write
--   Kernel/Console      sw/kernel/src/kernel.c: k_putc, k_gputc, k_print, k_puthex
--   Kernel/UserMemory   sw/kernel/src/syscalls.c: u_zp, u_ptr, u_arg
--   Kernel/Syscalls     sw/kernel/src/syscalls.c: the calls and syscall_dispatch
--   Kernel/Entry        sw/kernel/src/brk.s: brk_handler; sw/boot/boot.s: ret_user_mode;
--                       Kernel/Entry/Yield: the stub sys_yield of sw/prog/src/syslib.s to do_yield
--   Programs/Syslib     sw/prog/src/syslib.s: the stubs sys_exit, sys_putc, sys_puts,
--                       sys_getc, sys_block_read, sys_block_write;
--                       Programs/Calls: lemmas on what a call through a stub does
--   Programs/Disktest   sw/prog/src/disktest.c: puthex and main
--   Programs/Hello      sw/prog/src/hello.c and hello2.c: main
--   Debug/Tests, Gpu/Tests, Kernel/Tests, Programs/Tests   the theorems at concrete inputs
-- Functions keep their C names in lower case, without the prefix `dbg`.
--
-- State and input. A function that writes the statics takes a Debugger and returns one. The windows
-- are the texts written to them; the formats of printf are evaluated where they stand. What the user
-- will type, whether realloc and the key file's open succeed, and the machine are the field `world`.
-- A function that reads from the user is a `Cmd`, with the result `none` when no more input comes,
-- where the program would wait. Characters are bytes, texts are lists of them without the NUL, and
-- words of 8, 16 and 32 bits are numbers cut by `% 2 ^ w`.
--
-- Loops. The loop of dbgRmvBp runs as many rounds as the list has entries, since each passes or
-- removes one. The loop of dbgShowMem has 4096 rounds, one for each row of 16 addresses. The loop
-- of dbgCommandLoop has a round for each line of input that is left, and one for its exit: each
-- round takes a line. The waits of block.c load the status once, since the controller finishes in
-- the cycle of the command. Other loops are structural recursion.
--
-- The kernel runs in kernel mode over the bus of Machine/Bus. It waits for the serial port by loads of
-- the status, 88 at most: the transmitter counts down from 86, and a round of the wait takes `clocks`
-- clocks, which is an argument. k_print of a pointer is bound by the 2 ^ 16 addresses there are. A wait
-- for a key has a list of what arrives in each of its rounds. A call that never comes back is `none`.
-- The pointers that its assembly uses are in its zero page, below $20; their addresses, that of the
-- block buffer and that of the handler are for the linker to say. The process table is a record of the
-- state, System. The table itself, the kernel's code, its hardware stack and the stack of its C code
-- with cc65's pointer to it are not in the modelled RAM: they are in the kernel's frames, $0000 to $0FFF
-- and $7000 to $7FFF, which a program that wraps around the RAM would overwrite, and the theorems on
-- loading a program keep it off them. The disk takes the offset of a block as signed, as $fseek does. Between two switches (Kernel/Switch) a
-- process may do anything but write the MMU's registers and the process table.
--
-- Programs. A program of sw/prog runs in user mode over the same bus. Its C code is translated call by
-- call; where its literals and its buffer stand, the addresses of the stubs' BRKs, and the registers
-- at each call are for the compiler and the linker to say, and are arguments. A system call pushes the
-- registers, BRK and its frame on the user's stack, goes through brk_handler and syscall_dispatch, and
-- comes back by ret_user_mode. A program runs up to its call of sys_yield.
--
-- Libraries. dbgInitDisplay and render are the calls of ncurses and SDL that they make, with their
-- arguments; what the libraries and VPI give is an argument of the model.
--
-- Not modelled: what ncurses and SDL do with the calls, and their calls that keep no state of the
-- programs; the failure of the first malloc, which the code does not test; the registration of VPI
-- callbacks and the handles of a task's arguments; the CPU, and so the assembly that only starts up
-- (crt0.s, prog_crt0.s, and the loader of boot.s), and the memory that compiled code uses for its own
-- stack; a bus access that faults, and reset; and the tools in Python.
pub mod Common
pub mod Machine
pub mod Gpu
pub mod Clib
pub mod Debug
pub mod Kernel
pub mod Programs
