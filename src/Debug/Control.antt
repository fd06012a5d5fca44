-- ===== src/Debug/Control.antt =====
-- rtl/dbg/debugger.c: the small steps of the run-mode machine (dbgRunDbgCont, dbgBackIntoDebugger,
-- dbgResetMachine, dbgStep6502, dbgEchoStep) and the terminal pane (dbgPollTerminal, dbgSendKey,
-- dbgOnTx, dbgOnFault).
use bb6502_verilog.Common.{
  ℕ, zero, suc, ◌-◌, Bool, true, false, not, ◌&&◌, Option, none, some, List, [], ◌∷◌, ◌++◌, flatten,
  ltb, ◌==◌, if◌then◌else◌,
}
use bb6502_verilog.Common.Int.{ℤ, pos, negsuc}
use bb6502_verilog.Clib.Chars.{text}
use bb6502_verilog.Clib.Format.{hex4, hex_padded, dec}
use bb6502_verilog.Debug.State.{
  RunMode, stopped, stepping, running, Key, char, key_enter, key_backspace, other_key, Debugger,
  echo, read6502,
}
use bb6502_verilog.Debug.Disasm.{disasm}
use bb6502_verilog.Debug.Breakpoints.{check_if_at_bp}
use bb6502_verilog.Debug.Parse.{str_to_int}

-- Comparisons with an enum value.
abbrev pub is_stopped : RunMode → Bool
is_stopped stopped = true
is_stopped _ = false

abbrev pub is_stepping : RunMode → Bool
is_stepping stepping = true
is_stepping _ = false

abbrev pub is_running : RunMode → Bool
is_running running = true
is_running _ = false

-- dbgRunDbgCont
unfoldable pub run_dbg_cont : Debugger → Debugger
run_dbg_cont d =
    record (echo (text "\n\tGoing into continuous execution\n")
      (record d { interrupted = false })) { mode = running }

-- dbgBackIntoDebugger; the refresh of the terminal window leaves only `term_dirty` to model.
unfoldable pub back_into_debugger : Debugger → Debugger
back_into_debugger d =
    let d1 =
      if is_running d.mode
      then echo (text "\n\tBack into debugger\n") (record d { term_dirty = false })
      else d in
    record d1 { mode = stopped }

-- simRequestReset and simFinish
unfoldable pub request_reset : Debugger → Debugger
request_reset d = record d { world = record d.world { reset_requested = true } }

unfoldable pub sim_finish : Debugger → Debugger
sim_finish d = record d { world = record d.world { finished = true } }

-- dbgResetMachine
unfoldable pub reset_machine : Debugger → Debugger
reset_machine d =
    record (request_reset (echo (text "\tResetting; will stop at the first instruction\n") d)) {
      mode = stepping;
      steps_left = 0;
    }

-- `dbgQuitting = true; dbgMode = DBG_RUNNING; simFinish();`
unfoldable pub quit_sim : Debugger → Debugger
quit_sim d = sim_finish (record d { quitting = true; mode = running })

unfoldable pub start_steps : ℕ → Debugger → Debugger
start_steps n d = record d { steps_left = n; step_first = true; mode = stepping }

unfoldable pub parsing_error : List ℕ → List ℕ → Debugger → Debugger
parsing_error a b d =
    echo (flatten (text "cmd parsing err... " ∷ a ∷ text " " ∷ b ∷ text "\n" ∷ [])) d

-- dbgStep6502 with a second token: `nsteps < 1` is refused.
unfoldable pub step_count : List ℕ → List ℕ → Option ℤ → Debugger → Debugger
step_count cmd arg none d = parsing_error cmd arg d
step_count cmd arg (some (pos zero)) d = parsing_error cmd arg d
step_count cmd arg (some (pos (suc n))) d = start_steps (suc n) d
step_count cmd arg (some (negsuc n)) d = parsing_error cmd arg d

-- dbgStep6502
unfoldable pub step6502 : List (List ℕ) → Debugger → Debugger
step6502 (cmd ∷ (arg ∷ rest)) d = step_count cmd arg (str_to_int arg) d
step6502 _ d = start_steps 1 d

-- The line `\t%04hx\t%s\n` for the instruction at an address.
unfoldable pub instr_line : ℕ → Debugger → List ℕ
instr_line pc d =
    flatten (text "\t" ∷ hex4 pc ∷ text "\t" ∷ (disasm pc (read6502 d)).0 ∷ text "\n" ∷ [])

unfoldable pub is_hit : Option ℕ → Bool
is_hit none = false
is_hit (some k) = true

-- dbgEchoStep; it is called only with steps left.
unfoldable pub echo_step : Debugger → Debugger
echo_step d =
    let d1 =
      if d.step_first && is_hit (check_if_at_bp d.pc 0 d)
      then echo (text "\tStepping through breakpoint...\n") d
      else d in
    let d2 = echo (instr_line d1.pc d1) (record d1 { step_first = false }) in
    record d2 { steps_left = d2.steps_left - 1 }

-- The byte that dbgSendKey makes of a key; `none` where it returns at once.
unfoldable pub key_byte : Key → Option ℕ
key_byte key_enter = some b'\r'
key_byte key_backspace = some 0x08
key_byte other_key = none
key_byte (char k) =
    if k == b'\n'
    then some b'\r'
    else if k == 127
    then some 0x08
    else if ltb k 128
    then some k
    else none

-- dbgSendKey: written only if the key file can be opened.
unfoldable pub send_key : Key → Debugger → Debugger
send_key k d = elim (key_byte k) [
  | none ↦ d
  | some c ↦ if d.world.rx_opens then record d { rx_file = d.rx_file ++ (c ∷ []) } else d
]

unfoldable pub is_ctrl_c : Key → Bool
is_ctrl_c (char k) = k == 3
is_ctrl_c _ = false

-- The loop of dbgPollTerminal over the keys typed so far; those behind Ctrl-C stay for later.
unfoldable pub poll_keys : List Key → Debugger → Debugger
poll_keys [] d = record d { world = record d.world { keys = [] } }
poll_keys (k ∷ ks) d =
    let rest = poll_keys ks (send_key k d) in
    if is_ctrl_c k
    then record d { interrupted = true; world = record d.world { keys = ks } }
    else rest

-- dbgPollTerminal
unfoldable pub poll_terminal : Debugger → Debugger
poll_terminal d = record (poll_keys d.world.keys d) { term_dirty = false }

-- dbgTerminalPutchar
unfoldable pub terminal_putchar : ℕ → Debugger → Debugger
terminal_putchar c d = if c == b'\r' then d else record d { pane = d.pane ++ (c ∷ []) }

-- dbgOnTx
unfoldable pub on_tx : ℕ → Debugger → Debugger
on_tx c d =
    if not d.initialised
    then d
    else record (terminal_putchar c d) { term_dirty = is_running d.mode }

-- dbgOnFault
unfoldable pub on_fault : (addr we paddr : ℕ) → Debugger → Debugger
on_fault addr we paddr d =
    if not d.initialised
    then d
    else echo
        (flatten (
          text "\t[mmu] FAULT  AB="
          ∷ hex4 addr
          ∷ text "  WE="
          ∷ dec we
          ∷ text "  paddr="
          ∷ hex_padded false 5 paddr
          ∷ text "  (pc "
          ∷ hex4 d.pc
          ∷ text ")\n"
          ∷ []))
        d
