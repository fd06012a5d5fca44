-- ===== src/Debug/Vpi.antt =====
-- rtl/dbg/bbdbg_vpi.c: the start of the simulation, the arguments of its command line, and the system
-- tasks. The signals of the model are looked up by VPI, whose results are arguments.
pub mod Args
pub mod Started
use bb6502_verilog.Common.{
  ℕ, ◌+◌, Bool, true, false, ◌&&◌, not, Option, none, some, List, [], ◌∷◌, ◌++◌, length, ltb,
  if◌then◌else◌,
}
use bb6502_verilog.Common.Bits.{u8, u16, u32}
use bb6502_verilog.Clib.Chars.{text}
use bb6502_verilog.Clib.Strings.{has_prefix}
use bb6502_verilog.Debug.State.{Debugger, Cmd, Regs}
use bb6502_verilog.Debug.Control.{on_tx, on_fault, sim_finish}
use bb6502_verilog.Debug.Symbols.{drop}
use bb6502_verilog.Debug.Display.{Tty, Release, init_display, display_ready, cleanup}
use bb6502_verilog.Debug.Fetch.{SymFile, init, on_fetch}

-- `MAX_SYM_FILES`
abbrev pub max_sym_files : ℕ
max_sym_files = 16

abbrev pub dbg_sym : List ℕ
unfolding text
dbg_sym = text "+dbg_sym="

abbrev pub dbg_src : List ℕ
unfolding text
dbg_src = text "+dbg_src="

-- The statics `symFiles` and `nSymFiles`, as the list of the entries in use, and `srcFile`.
pub record Plusargs : Type 0 where
  pub sym_files : List (List ℕ)
  pub src_file : Option (List ℕ)

-- One argument: the body of the loop.
unfoldable pub parse_plusarg : List ℕ → Plusargs → Plusargs
parse_plusarg a s =
    if has_prefix a dbg_sym && ltb (length s.sym_files) max_sym_files
    then record s { sym_files = s.sym_files ++ (drop 9 a ∷ []) }
    else if has_prefix a dbg_src
    then record s { src_file = some (drop 9 a) }
    else s

-- parsePlusargs over `argv`.
unfoldable pub parse_plusargs : List (List ℕ) → Plusargs → Plusargs
parse_plusargs [] s = s
parse_plusargs (a ∷ rest) s = parse_plusargs rest (parse_plusarg a s)

-- What startOfSim finds: whether vpi_handle_by_name finds a signal, whether there is memory for the
-- two arrays of handles, the command line, the terminal, and what fopen gives for a symbol file.
pub record Startup : Type 0 where
  pub signals : List ℕ → Bool
  pub handles : Bool
  pub argv : Option (List (List ℕ))
  pub tty : Tty
  pub open_file : List ℕ → List ℕ × Option (List ℕ)

-- parsePlusargs, when vpi_get_vlog_info gives the command line.
unfoldable pub plusargs_of : Option (List (List ℕ)) → Plusargs
plusargs_of none = record { sym_files = []; src_file = none }
plusargs_of (some argv) = parse_plusargs argv (record { sym_files = []; src_file = none })

-- The files that dbgInit opens.
unfoldable pub sym_texts : (List ℕ → List ℕ × Option (List ℕ)) → List (List ℕ) → List SymFile
sym_texts open_file [] = []
sym_texts open_file (f ∷ fs) = (f, (open_file f).0, (open_file f).1) ∷ sym_texts open_file fs

-- lookup, of `ok` and of what vpi_printf has written.
unfoldable pub look_up : (found : List ℕ → Bool) → (name : List ℕ) → Bool × List ℕ → Bool × List ℕ
unfolding text
look_up found name (ok, log) = if found name then (ok, log) else (
  false,
  log ++ (text "[bbdbg] signal " ++ (name ++ text " not found (was tb.v built with -DBBDBG?)\n")),
)

-- The seven calls of lookup in startOfSim.
unfoldable pub look_ups : (found : List ℕ → Bool) → List (List ℕ) → Bool × List ℕ → Bool × List ℕ
look_ups found [] s = s
look_ups found (name ∷ names) s = look_ups found names (look_up found name s)

abbrev pub signal_names : List (List ℕ)
unfolding text
signal_names =
    text "tb.ram"
    ∷ (text "tb.rom"
        ∷ (text "tb.dut.regfile.regs"
            ∷ (text "tb.dut.P"
                ∷ (text "tb.mmu.kernel" ∷ (text "tb.mmu.ppn" ∷ (text "tb.dbg_reset_req" ∷ []))))))

-- startOfSim, with what vpi_printf has written: the simulation is ended if something is missing.
unfoldable pub start_of_sim : Startup → Debugger → List ℕ × Debugger
start_of_sim u d =
    let (ok, log) = look_ups u.signals signal_names (true, []) in
    let args = plusargs_of u.argv in
    let started =
      init (display_ready (init_display u.tty)) (sym_texts u.open_file args.sym_files) args.src_file
        d in
    if not (ok && u.handles)
    then (log, sim_finish d)
    else if started.0
    then (log, started.1)
    else (log ++ text "[bbdbg] debugger UI failed to start\n", sim_finish started.1)

-- endOfSim
unfoldable pub end_of_sim : (rx_open : Bool) → Debugger → List Release × Debugger
end_of_sim = cleanup

-- simGetRegs, of the words of the register file and the flags.
unfoldable pub sim_get_regs : (regfile : ℕ → ℕ) → (flags : ℕ) → Regs
sim_get_regs regfile flags = record {
  x = u8 (regfile 0);
  y = u8 (regfile 1);
  a = u8 (regfile 2);
  sp = u8 (regfile 3);
  p = u8 flags;
}

-- The system tasks: their arguments are cut to the types of the debugger.
unfoldable pub fetch_calltf : (pc opcode : ℕ) → Cmd (Unit {0})
fetch_calltf pc opcode = on_fetch (u16 pc) (u8 opcode)

unfoldable pub tx_calltf : ℕ → Debugger → Debugger
tx_calltf c = on_tx (u8 c)

unfoldable pub fault_calltf : (addr we paddr : ℕ) → Debugger → Debugger
fault_calltf addr we paddr = on_fault (u16 addr) we (u32 paddr)
