-- ===== src/Debug/Commands.antt =====
-- rtl/dbg/debugger.c: the commands of the prompt and the loop that reads them.
pub mod Keeps
pub mod Dispatch
pub mod Loop
use bb6502_verilog.Common.{
  ℕ, zero, suc, ◌+◌, Bool, true, false, not, ◌||◌, Option, none, some, List, [], ◌∷◌, ◌++◌, flatten,
  length, ltb, ◌==◌, if◌then◌else◌,
}
use bb6502_verilog.Common.Bits.{u16}
use bb6502_verilog.Common.Int.{to_count}
use bb6502_verilog.Clib.Chars.{text}
use bb6502_verilog.Clib.Format.{hex4}
use bb6502_verilog.Clib.Strings.{str_eq}
use bb6502_verilog.Clib.Numbers.{strtoul}
use bb6502_verilog.Debug.State.{
  Command, invalidcmd, removebp, breakpoint, continue, disassemble, help, listbreakpoints, memory,
  registers, step, quit, loadsrc, loadsyms, reset, Symbol, Debugger, echo, read6502, Cmd, pure,
  ◌>>=◌, ◌>>◌, act, get_cmd,
}
use bb6502_verilog.Debug.Disasm.{disasm}
use bb6502_verilog.Debug.Breakpoints.{set_bp, rmv_bp, list_bps}
use bb6502_verilog.Debug.Parse.{str_to_int, str_starts_with, parse_command, get_cmd_tokens}
use bb6502_verilog.Debug.Dump.{show_mem, print_registers}
use bb6502_verilog.Debug.Control.{
  is_stopped, run_dbg_cont, reset_machine, quit_sim, step6502, parsing_error, instr_line,
}

-- The first symbol of a name, which is what the loops of dbgAddBp and dbgRemoveBreakpoint find.
unfoldable pub find_symbol : List ℕ → List Symbol → Option Symbol
find_symbol name [] = none
find_symbol name (s ∷ rest) = if str_eq name s.name then some s else find_symbol name rest

unfoldable pub not_found : List ℕ → Debugger → Debugger
not_found name d = echo (flatten (text "\tsymbol=" ∷ name ∷ text " not found!\n" ∷ [])) d

-- dbgAddBp
unfoldable pub add_bp : List (List ℕ) → Debugger → Debugger
add_bp (cmd ∷ (arg ∷ rest)) d =
    if str_starts_with (text "0x") arg
    then (let bp = u16 (strtoul arg).value in
        set_bp bp none (echo (text "\tSetting new breakpoint at 0x" ++ (hex4 bp ++ text "\n")) d))
    else (elim (find_symbol arg d.symbols) [
      | none ↦ not_found arg d
      | some s ↦ set_bp s.addr (some s.name) (
          echo
            (flatten (
              text "\tSetting new breakpoint at name="
              ∷ s.name
              ∷ text ", addr=0x"
              ∷ hex4 s.addr
              ∷ text "\n"
              ∷ []))
            d)
    ])
add_bp _ d =
    set_bp d.pc none (echo (text "  Setting new breakpoint at 0x" ++ (hex4 d.pc ++ text "\n")) d)

-- dbgRmvBp and the message that says whether there was one.
unfoldable pub remove_at : (label : List ℕ) → ℕ → Debugger → Debugger
remove_at label bp d =
    let (found, d') = rmv_bp bp d in
    echo
      (flatten (
        (if found then text "\tRemoved breakpoint at " else text "\tNo breakpoint at ")
        ∷ label
        ∷ text "addr=0x"
        ∷ hex4 bp
        ∷ text "\n"
        ∷ []))
      d'

-- dbgRemoveBreakpoint
unfoldable pub remove_breakpoint : List (List ℕ) → Debugger → Debugger
remove_breakpoint (cmd ∷ (arg ∷ rest)) d =
    if str_starts_with (text "0x") arg
    then remove_at [] (u16 (strtoul arg).value) d
    else (elim (find_symbol arg d.symbols) [
      | none ↦ not_found arg d
      | some s ↦ remove_at (flatten (text "name=" ∷ s.name ∷ text ", " ∷ [])) s.addr d
    ])
remove_breakpoint _ d = echo (text "\tusage: rb(or alternate command) <symbol/0x(address)>\n") d

-- The loop of dbgDisasmInstr.
unfoldable pub disasm_lines : (n pc : ℕ) → Debugger → Debugger
disasm_lines zero pc d = d
disasm_lines (suc n) pc d =
    disasm_lines n (u16 (pc + (disasm pc (read6502 d)).1)) (echo (instr_line pc d) d)

-- dbgDisasmInstr
unfoldable pub disasm_instr : List (List ℕ) → Debugger → Debugger
disasm_instr (cmd ∷ (arg ∷ rest)) d = elim (str_to_int arg) [
  | none ↦ parsing_error cmd arg d
  | some n ↦ disasm_lines (to_count n) d.pc d
]
disasm_instr _ d = disasm_lines 5 d.pc d

unfoldable pub is_blank : List ℕ → Bool
is_blank [] = true
is_blank (c ∷ cs) = c == b'\n'

-- The tests of dbgReadHexU16 on the line that was typed.
unfoldable pub hex_line : List ℕ → Debugger → Option ℕ × Debugger
hex_line buf d =
    let u = strtoul buf in
    if is_blank buf
    then (none, echo (text "\tInput error\n") d)
    else if u.range_error || not u.converted
    then (none, echo (text "Invalid hex number\n") d)
    else if ltb 0xffff u.value
    then (none, echo (text "Value out of 16-bit range\n") d)
    else (some u.value, d)

-- dbgReadHexU16
unfoldable pub read_hex_u16 : Cmd (Option ℕ)
read_hex_u16 = do buf ← get_cmd 31; λ d. some (hex_line buf d)

-- An address among the tokens: no test of the range, and the value is cut to 16 bits.
unfoldable pub token_addr : List ℕ → Option ℕ
token_addr s =
    let u = strtoul s in if u.range_error || not u.converted then none else some (u16 u.value)

unfoldable pub show_range : ℕ → ℕ → Debugger → Debugger
show_range startaddr endaddr d =
    if ltb endaddr startaddr
    then echo (text "Invalid input " ++ (hex4 endaddr ++ text "\n")) d
    else show_mem startaddr endaddr d

-- The prompt for the end address, and what follows it.
unfoldable pub ask_end : ℕ → Cmd (Unit {0})
ask_end startaddr = do
  act (echo (text "Give the ending address in hex [0x...]: "))
  endaddr ← read_hex_u16
  elim endaddr [ none ↦ pure tt | some e ↦ act (show_range startaddr e) ]

unfoldable pub ask_both : Cmd (Unit {0})
ask_both = do
  act (echo (text "Give the starting address in hex [0x...]: "))
  startaddr ← read_hex_u16
  elim startaddr [ none ↦ pure tt | some s ↦ ask_end s ]

unfoldable pub invalid_hex : Cmd (Unit {0})
invalid_hex = act (echo (text "Invalid hex number\n"))

-- dbgPrintMemRange
unfoldable pub print_mem_range : List (List ℕ) → Cmd (Unit {0})
print_mem_range (cmd ∷ (a ∷ (b ∷ rest))) = elim (token_addr a) [
  | none ↦ invalid_hex
  | some s ↦ elim (token_addr b) [ none ↦ invalid_hex | some e ↦ act (show_range s e) ]
]
print_mem_range (cmd ∷ (a ∷ [])) = elim (token_addr a) [ none ↦ invalid_hex | some s ↦ ask_end s ]
print_mem_range _ = ask_both

-- dbgDisplayHelp
unfoldable pub display_help : Debugger → Debugger
display_help = echo (
    flatten (
      text "Help : -\n"
      ∷ text "b [./addr/symbol]: Create a breakpoint at [curr instr/addr/symbol]\n"
      ∷ text "rb <addr/symbol>: Remove a breakpoint\n"
      ∷ text "c: Continue the program from current state (Ctrl-C in the terminal pane stops it)\n"
      ∷ text "d [n]: Disassemble next 5/[n] instructions\n"
      ∷ text "h: Display this help\n"
      ∷ text "l: List all breakpoints\n"
      ∷ text "m [start] [end]: Display memory contents from a start location to an end location\n"
      ∷ text "r: Display the register contents, MMU mode and page table\n"
      ∷ text "s [n]: Step the program with one/[n] instruction\n"
      ∷ text "reset: Reset the machine and stop at the first instruction\n"
      ∷ text "q: Quit (ends the simulation)\n"
      ∷ text "\n"
      ∷ []))

unfoldable pub unknown_command : List (List ℕ) → Debugger → Debugger
unknown_command [] d = d
unknown_command (cmd ∷ rest) d =
    echo (flatten (text "\tUnknown command '" ∷ cmd ∷ text "' (h for help)\n" ∷ [])) d

-- The `switch` of dbgCommandLoop.
unfoldable pub dispatch : Command → List (List ℕ) → Cmd (Unit {0})
dispatch breakpoint toks = act (add_bp toks)
dispatch continue toks = act run_dbg_cont
dispatch disassemble toks = act (disasm_instr toks)
dispatch help toks = act display_help
dispatch listbreakpoints toks = act list_bps
dispatch memory toks = print_mem_range toks
dispatch registers toks = act print_registers
dispatch step toks = act (step6502 toks)
dispatch quit toks = act (λ d. quit_sim (echo (text "\tEnding simulation\n") d))
dispatch removebp toks = act (remove_breakpoint toks)
dispatch reset toks = act reset_machine
dispatch loadsrc toks = act (echo (text "\tSource view is not implemented yet\n"))
dispatch loadsyms toks = act (unknown_command toks)
dispatch invalidcmd toks = act (unknown_command toks)

-- One line of input: nothing on a blank line or one without tokens.
unfoldable pub run_tokens : List (List ℕ) → Cmd (Unit {0})
run_tokens [] = pure tt
run_tokens (cmd ∷ rest) = dispatch (parse_command cmd) (cmd ∷ rest)

unfoldable pub run_line : List ℕ → Cmd (Unit {0})
run_line line = if is_blank line then pure tt else run_tokens (get_cmd_tokens line)

-- The `while (dbgMode == DBG_STOPPED)` of dbgCommandLoop, with a bound on its rounds; each takes at
-- least one of the lines that the user types.
unfoldable pub command_rounds : ℕ → Cmd (Unit {0})
command_rounds zero d = none
command_rounds (suc f) d = elim (is_stopped d.mode) [
  | false ↦ some (tt, d)
  | true ↦ elim (get_cmd 99 d) [
    | none ↦ none
    | some (line, d1) ↦ elim (run_line line d1) [ none ↦ none | some (_, d2) ↦ command_rounds f d2 ]
  ]
]

-- dbgCommandLoop
unfoldable pub command_loop : Cmd (Unit {0})
command_loop d = command_rounds (length d.world.lines + 1) (echo (instr_line d.pc d) d)
