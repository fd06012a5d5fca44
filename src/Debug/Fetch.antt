-- ===== src/Debug/Fetch.antt =====
-- rtl/dbg/debugger.c: what happens at each instruction fetch (dbgOnFetch, dbgShouldStop,
-- dbgHandleStp), and at the start (dbgInit).
pub mod Modes
pub mod Steps
pub mod Early
use bb6502_verilog.Common.{
  ℕ, zero, suc, ◌+◌, ◌-◌, ◌^◌, ◌%◌, Bool, true, false, not, ◌&&◌, ◌||◌, Option, none, some, List,
  [], ◌∷◌, ◌++◌, flatten, length, get_elem?, ltb, leb, ◌==◌, if◌then◌else◌,
}
use bb6502_verilog.Common.Bits.{u32}
use bb6502_verilog.Clib.Chars.{text}
use bb6502_verilog.Clib.Format.{hex4, dec}
use bb6502_verilog.Machine.Bus.{Machine}
use bb6502_verilog.Debug.State.{
  RunMode, stopped, stepping, running, Breakpoint, Regs, Debugger, echo, read6502, Cmd, pure, ◌>>=◌,
  ◌>>◌, act, get_char,
}
use bb6502_verilog.Debug.Disasm.{disasm}
use bb6502_verilog.Debug.Breakpoints.{check_if_at_bp}
use bb6502_verilog.Debug.Symbols.{read_dbg_syms}
use bb6502_verilog.Debug.Control.{
  is_stepping, back_into_debugger, reset_machine, quit_sim, echo_step, poll_terminal,
}
use bb6502_verilog.Debug.Commands.{command_loop}

abbrev pub poll_interval : ℕ
poll_interval = 512

-- The answer to the STP question: 'r' restarts, anything else ends the simulation.
unfoldable pub stp_answer : ℕ → Debugger → Debugger
stp_answer c d = let d1 = echo (text "\n") d in if c == b'r' then reset_machine d1 else quit_sim d1

-- dbgHandleStp; its result is always true.
unfoldable pub handle_stp : Cmd (Unit {0})
handle_stp = do
  act back_into_debugger
  act (λ d.
      echo
        (flatten
          (text "\n\tProgram exited (STP at " ∷ hex4 d.pc ∷ text "). Restart/Exit? [r/E] :" ∷ []))
        d)
  c ← get_char
  act (stp_answer c)

-- The breakpoint's symbol, and its address, in the messages.
unfoldable pub bp_symbol : ℕ → Debugger → List ℕ
bp_symbol k d = elim (get_elem? d.bps k) [
  | none ↦ []
  | some b ↦ elim b.symbol [ none ↦ [] | some s ↦ s ]
]

unfoldable pub bp_addr : ℕ → Debugger → ℕ
bp_addr k d = elim (get_elem? d.bps k) [ none ↦ 0 | some b ↦ b.address ]

unfoldable pub report_running : ℕ → Debugger → Debugger
report_running k d =
    let line = (disasm d.pc (read6502 d)).0 in
    let d1 = back_into_debugger d in
    echo
      (flatten (
        text "\tBreakpoint ["
        ∷ dec k
        ∷ text "]:"
        ∷ bp_symbol k d1
        ∷ text " at addr "
        ∷ hex4 (bp_addr k d1)
        ∷ text ": "
        ∷ line
        ∷ text "\n"
        ∷ []))
      d1

unfoldable pub report_stepping : ℕ → Debugger → Debugger
report_stepping k d =
    let line = (disasm d.pc (read6502 d)).0 in
    record (echo
      (flatten (
        text "\tAt Breakpoint ["
        ∷ dec k
        ∷ text "] "
        ∷ bp_symbol k d
        ∷ text ": "
        ∷ hex4 d.pc
        ∷ text "   "
        ∷ line
        ∷ text "\n"
        ∷ []))
      d) { mode = stopped }

unfoldable pub report_interrupt : Debugger → Debugger
report_interrupt d =
    echo (text "\tInterrupted (Ctrl-C)\n") (back_into_debugger (record d { interrupted = false }))

-- The case DBG_RUNNING of dbgShouldStop, behind the poll.
unfoldable pub stop_running : Debugger → Bool × Debugger
stop_running d =
    if d.interrupted then (true, report_interrupt d) else (elim (check_if_at_bp d.pc 0 d) [
      | some k ↦ (true, report_running k d)
      | none ↦ (false, d)
    ])

unfoldable pub poll : Debugger → Debugger
poll d = if d.fetch_count % poll_interval == 0 then poll_terminal d else d

-- The case DBG_STEPPING.
unfoldable pub stop_stepping : Debugger → Bool × Debugger
stop_stepping d =
    if d.steps_left == 0
    then (true, record d { mode = stopped })
    else (elim (check_if_at_bp d.pc (disasm d.pc (read6502 d)).1 d) [
      | some k ↦ (true, report_stepping k d)
      | none ↦ (false, echo_step d)
    ])

-- The `switch` of dbgShouldStop.
unfoldable pub stop_in : RunMode → Debugger → Bool × Debugger
stop_in stopped d = (true, d)
stop_in running d = stop_running (poll d)
stop_in stepping d = stop_stepping d

-- dbgShouldStop
unfoldable pub should_stop : ℕ → Cmd Bool
should_stop opcode d =
    if opcode == 0xdb
    then (elim (handle_stp d) [ none ↦ none | some (_, d') ↦ some (false, d') ])
    else some (stop_in d.mode d)

-- What dbgOnFetch does once it has stopped and the user has resumed.
unfoldable pub after_resume : Debugger → Debugger
after_resume d = if is_stepping d.mode && ltb 0 d.steps_left then echo_step d else d

unfoldable pub resume : Bool → Cmd (Unit {0})
resume false d = some (tt, d)
resume true d = elim (command_loop d) [ none ↦ none | some (_, d') ↦ some (tt, after_resume d') ]

-- dbgOnFetch
unfoldable pub on_fetch : (pc opcode : ℕ) → Cmd (Unit {0})
on_fetch pc opcode d =
    if not d.initialised || d.quitting
    then some (tt, d)
    else (elim (should_stop opcode (record d { pc = pc; fetch_count = u32 (d.fetch_count + 1) })) [
      | none ↦ none
      | some (stop, d') ↦ resume stop d'
    ])

-- A symbol file of dbgInit: its name, and its text or the error of fopen.
abbrev pub SymFile : Type 0
SymFile = List ℕ × List ℕ × Option (List ℕ)

unfoldable pub load_files : List SymFile → Debugger → Debugger
load_files [] d = d
load_files ((fname, error, file) ∷ rest) d = load_files rest (
    read_dbg_syms fname error file
      (echo (flatten (text "Loading debug symbols from " ∷ fname ∷ text "\n" ∷ [])) d))

-- dbgInit; `display` is the result of dbgInitDisplay.
unfoldable pub init : (display : Bool) → List SymFile → Option (List ℕ) → Debugger → Bool × Debugger
init false files srcfile d = (false, d)
init true files srcfile d =
    let d1 = load_files files d in
    let d2 =
      echo (flatten (text "Loaded " ∷ dec (length d1.symbols) ∷ text " symbols total\n" ∷ [])) d1 in
    let d3 : Debugger = elim srcfile [
      | none ↦ d2
      | some s ↦
          echo (flatten (text "Source view is not implemented yet (" ∷ s ∷ text ")\n" ∷ [])) d2
    ] in
    let d4 = echo (text "Stopped before the first instruction. Type h for help.\n") d3 in
    (true, record d4 { mode = stopped; quitting = false; initialised = true })

-- One instruction boundary: the simulation has moved on to this machine and these registers.
pub record Fetch : Type 0 where
  pub at : ℕ
  pub opcode : ℕ
  pub machine : Machine
  pub regs : Regs

unfoldable pub see : Fetch → Debugger → Debugger
see e d = record d { world = record d.world { machine = e.machine; regs = e.regs } }

-- The calls of dbgOnFetch for the instructions that the CPU is about to execute, in order.
unfoldable pub fetches : List Fetch → Cmd (Unit {0})
fetches [] d = some (tt, d)
fetches (e ∷ rest) d = elim (on_fetch e.at e.opcode (see e d)) [
  | none ↦ none
  | some (_, d') ↦ fetches rest d'
]
