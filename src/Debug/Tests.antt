-- ===== src/Debug/Tests.antt =====
-- The debugger's theorems at concrete machines, lists and lines, and runs of its functions.
pub mod Stepping
pub mod Prompt
pub mod Vpi
pub mod Handles
use bb6502_verilog.Common.{
  ℕ, ◌+◌, ◌-◌, ◌%◌, ◌≤◌, ◌<◌, ◌≡◌, inl, refl, true, false, none, some, List, [], ◌∷◌, length, arith,
}
use bb6502_verilog.Common.Bits.{u16}
use bb6502_verilog.Clib.Chars.{text}
use bb6502_verilog.Machine.Bus.{Machine, data_in}
use bb6502_verilog.Debug.Sim.{sim_read_mem, sim_ram_index, rom_base, ram_words, rom_words}
use bb6502_verilog.Debug.Sim.Decode.{IsWired, sim_read_mem-data_in}
use bb6502_verilog.Debug.Opcodes.{lookup_op}
use bb6502_verilog.Debug.Disasm.{disasm}
use bb6502_verilog.Debug.Disasm.Layout.{mode_bytes, disasm_fits}
use bb6502_verilog.Debug.State.{stopped, Debugger}
use bb6502_verilog.Debug.Breakpoints.{set_bp, rmv_bp, check_if_at_bp}
use bb6502_verilog.Debug.Breakpoints.Remove.{has, without, rmv_bp_lem}
use bb6502_verilog.Debug.Breakpoints.Check.{IsFirst, check_if_at_bp-IsFirst}
use bb6502_verilog.Debug.Breakpoints.Insert.{IsStored, Outcome, set_bp-IsStored}
use bb6502_verilog.Debug.Symbols.{read_dbg_syms}
use bb6502_verilog.Debug.Symbols.Valid.{IsTable, read_dbg_syms-IsTable}
use bb6502_verilog.Debug.Parse.{parse_command}
use bb6502_verilog.Debug.Parse.Aliases.{documented, or_invalid, parse_command-documented}
use bb6502_verilog.Debug.Dump.{rows, max_rows}
use bb6502_verilog.Debug.Dump.Range.{upto, cells, rows-upto}

-- A machine in user mode: page k of the program is page k + 8 of the RAM, whose bytes are NOP.
abbrev pub demo_machine : Machine
demo_machine = record {
  ram = λ _. 0xea;
  rom = λ _. 0x60;
  mmu = record { ppn = λ k. (k + 8) % 32; u_bits = λ _. 255; w_bits = λ _. 255; kernel = false };
  acia = record { rx_data = 0; rx_valid = false; tx_ready = true; tx_count = 0; sent = [] };
  gpu_sent = [];
  disk = record {
    lba = 0;
    buf = λ _. 0;
    dptr = 0;
    busy = false;
    err = false;
    pos = 0;
    image = none;
  };
}

abbrev pub demo : Debugger
demo = record {
  world = record {
    machine = demo_machine;
    regs = record { a = 1; x = 2; y = 3; sp = 0xff; p = 0x24 };
    reset_requested = false;
    finished = false;
    lines = [];
    answers = [];
    keys = [];
    rx_opens = true;
    reallocs = true;
  };
  initialised = true;
  quitting = false;
  step_first = false;
  term_dirty = false;
  interrupted = false;
  mode = stopped;
  steps_left = 0;
  fetch_count = 0;
  pc = 0x0200;
  bps = record { address = 0x0300; symbol = none } ∷ [];
  bp_list_size = 10;
  symbols = [];
  sym_capacity = 0;
  has_symbols = false;
  console = [];
  pane = [];
  rx_file = [];
}

demo-IsWired : IsWired demo_machine
demo-IsWired = record {
  pages = λ i. omega arith;
  ram_bytes = λ _. omega arith;
  rom_bytes = λ _. omega arith;
}

demo-IsStored : IsStored demo
demo-IsStored = record { fits = omega arith; entries = ((omega arith, λ s e. cc), tt) }

demo-IsTable : IsTable demo
demo-IsTable = record { fits = omega arith; entries = tt; grows = λ e. cc; fresh = λ _. refl }

sim_read_mem-data_in_example :
    (sim_read_mem demo_machine 0x1234 ≡ some (data_in 0x1234 demo_machine))
    × (sim_ram_index demo_machine 0x1234 < ram_words)
    × (0x1234 - rom_base < rom_words)
sim_read_mem-data_in_example =
    sim_read_mem-data_in demo_machine 0x1234 demo-IsWired (omega arith) (inl (omega arith))

test_translated : sim_ram_index demo_machine 0x1234 ≡ 0x3234
unfolding sim_ram_index
test_translated = refl

rmv_bp_example :
    rmv_bp 0x300 demo ≡ (has 0x300 demo.bps, record demo { bps = without 0x300 demo.bps })
rmv_bp_example = rmv_bp_lem 0x300 demo

check_if_at_bp-IsFirst_example :
    IsFirst 0x2fe (u16 (0x2fe + 3)) 0 demo.bps (check_if_at_bp 0x2fe 3 demo)
check_if_at_bp-IsFirst_example = check_if_at_bp-IsFirst 0x2fe 3 demo

set_bp-IsStored_example :
    IsStored (set_bp 0x400 (some (text "_main")) demo)
    × Outcome 0x400 (some (text "_main")) demo (set_bp 0x400 (some (text "_main")) demo)
set_bp-IsStored_example =
    set_bp-IsStored 0x400 (some (text "_main")) demo (omega arith) demo-IsStored

abbrev debug_file : List ℕ
debug_file =
    text
      "sym\tid=0,name=\"_main\",addrsize=absolute,val=0x200,type=lab\nsym\tid=1,name=\"LOOP\",val=0x9,type=lab\n"

read_dbg_syms-IsTable_example :
    IsTable (read_dbg_syms (text "kernel.dbg") [] (some debug_file) demo)
read_dbg_syms-IsTable_example =
    read_dbg_syms-IsTable (text "kernel.dbg") [] (some debug_file) demo demo-IsTable

parse_command-documented_example :
    parse_command (text "disas") ≡ or_invalid (documented (text "disas"))
parse_command-documented_example = parse_command-documented (text "disas")

disasm_fits_example :
    (length (disasm 0x200 (λ _. 0x6c)).0 ≤ 14)
    × ((disasm 0x200 (λ _. 0x6c)).1 ≡ mode_bytes (lookup_op 0x6c).mode)
    × (1 ≤ (disasm 0x200 (λ _. 0x6c)).1)
    × ((disasm 0x200 (λ _. 0x6c)).1 ≤ 3)
disasm_fits_example = disasm_fits 0x200 (λ _. 0x6c) λ _. omega arith

rows-upto_example :
    (cells (rows max_rows 0x1ff 0x215) ≡ upto (0x215 + 1 - 0x1ff) 0x1ff)
    × ((f : ℕ) → max_rows ≤ f → rows max_rows 0x1ff 0x215 ≡ rows f 0x1ff 0x215)
rows-upto_example = rows-upto 0x1ff 0x215 (omega arith) (omega arith)
