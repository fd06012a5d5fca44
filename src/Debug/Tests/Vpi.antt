-- ===== src/Debug/Tests/Vpi.antt =====
-- The start of the simulation at a command line with two symbol files.
use bb6502_verilog.Common.{
  ℕ, ◌++◌, not, get_elem?, arith, ◌≡◌, ◌⊎◌, true, false, none, some, List, [], ◌∷◌, take, refl,
}
use bb6502_verilog.Clib.Chars.{text}
use bb6502_verilog.Clib.Strings.{has_prefix, str_eq}
use bb6502_verilog.Debug.State.{Debugger}
use bb6502_verilog.Debug.Display.{
  Release, free_symbol, free_bps, free_symbols, end_curses, close_tty_in, close_tty_out,
  free_bp_symbols, init_display, display_ready, layout, cleanup,
}
use bb6502_verilog.Debug.Display.Layout.{IsLayout, layout-IsLayout}
use bb6502_verilog.Debug.Display.Released.{frees, named, rest, cleanup-once}
use bb6502_verilog.Debug.Tests.{demo, demo-IsTable, debug_file}
use bb6502_verilog.Debug.Vpi.{
  dbg_sym, dbg_src, Startup, parse_plusarg, parse_plusargs, plusargs_of, look_up, look_ups,
  start_of_sim,
}
use bb6502_verilog.Debug.Vpi.Args.{values, last_or, plusargs_of-values}
use bb6502_verilog.Debug.Vpi.Started.{IsUp, start_of_sim-IsUp}

abbrev command_line : List (List ℕ)
command_line =
    text "vvp" ∷ (text "+dbg_sym=a.dbg" ∷ (text "+dbg_src=a.s" ∷ (text "+dbg_sym=b.dbg" ∷ [])))

abbrev startup : Startup
startup = record {
  signals = λ name. true;
  handles = true;
  argv = some command_line;
  tty = record {
    out_opens = true;
    in_opens = true;
    strerror = [];
    newterm_starts = true;
    lines = 24;
    columns = 80;
  };
  open_file = λ f. ([], some debug_file);
}

plusargs_of-values_example :
    ((plusargs_of (some command_line)).sym_files ≡ take 16 (values dbg_sym command_line))
    × ((plusargs_of (some command_line)).src_file ≡ last_or none (values dbg_src command_line))
plusargs_of-values_example = plusargs_of-values command_line

test_files : (plusargs_of (some command_line)).sym_files ≡ text "a.dbg" ∷ (text "b.dbg" ∷ [])
unfolding plusargs_of parse_plusargs parse_plusarg has_prefix text
test_files = refl

start_of_sim-IsUp_example :
    ((true ≡ true) × IsUp (start_of_sim startup demo).1 × ((start_of_sim startup demo).0 ≡ []))
    ⊎ ((true ≡ false) × ((start_of_sim startup demo).1.world.finished ≡ true))
unfolding init_display display_ready
start_of_sim-IsUp_example = start_of_sim-IsUp startup demo demo-IsTable

-- Without one signal the log names it.
test_log :
    (look_ups
      (λ name. not (str_eq name (text "tb.rom")))
      (text "tb.ram" ∷ (text "tb.rom" ∷ []))
      (true, [])).1
    ≡ text "[bbdbg] signal tb.rom not found (was tb.v built with -DBBDBG?)\n"
unfolding look_ups look_up text str_eq
test_log = refl

layout-IsLayout_example : IsLayout 24 81 (layout 24 81)
layout-IsLayout_example = layout-IsLayout 24 81 (omega arith) (omega arith)

-- A debugger with two breakpoints, the second with a symbol.
abbrev closing : Debugger
closing = record demo {
  initialised = true;
  bps =
      record { address = 0x200; symbol = none }
      ∷ (record { address = 0x300; symbol = some (text "_main") } ∷ []);
}

cleanup-once_example :
    ((i : ℕ) → frees i (cleanup true closing).0 ≡ named (get_elem? closing.bps i))
    × ((before : List Release) × ((cleanup true closing).0 ≡ before ++ rest true))
    × (cleanup false (cleanup true closing).1 ≡ ([], (cleanup true closing).1))
cleanup-once_example = cleanup-once true false closing refl

test_release :
    (cleanup false closing).0
    ≡ free_symbol 1
      ∷ (free_bps ∷ (free_symbols ∷ (end_curses ∷ (close_tty_in ∷ (close_tty_out ∷ [])))))
unfolding cleanup free_bp_symbols
test_release = refl
