-- ===== src/Debug/Parse.antt =====
-- rtl/dbg/debugger.c: parsing of commands (dbgGetCmdTokens, dbgParseCommand, dbgStrToInt,
-- dbg_strStartsWith).
pub mod Aliases
pub mod Ints
use bb6502_verilog.Common.{
  ℕ, zero, suc, ◌+◌, ◌-◌, ◌^◌, Bool, true, false, ◌&&◌, ◌||◌, Option, none, some, List, [], ◌∷◌,
  take, ltb, leb, ◌==◌, if◌then◌else◌,
}
use bb6502_verilog.Common.Int.{ℤ, of_sign}
use bb6502_verilog.Clib.Chars.{text}
use bb6502_verilog.Clib.Strings.{str_eq, has_prefix, strtok}
use bb6502_verilog.Clib.Numbers.{Scan, strtol}
use bb6502_verilog.Debug.State.{
  Command, invalidcmd, removebp, breakpoint, continue, disassemble, help, listbreakpoints, memory,
  registers, step, quit, loadsrc, reset,
}

-- dbgGetCmdTokens with `cmdTokArrSiz` of 10: the last slot is kept for NULL.
unfoldable pub get_cmd_tokens : List ℕ → List (List ℕ)
get_cmd_tokens s = take 9 (strtok (text " \t\n") s)

-- dbg_strStartsWith: `s1` is a prefix of `s2`.
unfoldable pub str_starts_with : (s1 s2 : List ℕ) → Bool
unfolding has_prefix
str_starts_with s1 s2 = has_prefix s2 s1

-- dbgParseCommand
unfoldable pub parse_command : List ℕ → Command
parse_command cmd =
    if str_eq cmd (text "b")
    then breakpoint
    else if str_eq cmd (text "bp")
    then breakpoint
    else if str_eq cmd (text "break")
    then breakpoint
    else if str_eq cmd (text "breakpoint")
    then breakpoint
    else if str_eq cmd (text "c")
    then continue
    else if str_eq cmd (text "cont")
    then continue
    else if str_eq cmd (text "continue")
    then continue
    else if str_eq cmd (text "d")
    then disassemble
    else if str_eq cmd (text "dis")
    then disassemble
    else if str_eq cmd (text "disas")
    then disassemble
    else if str_eq cmd (text "disassemble")
    then disassemble
    else if str_eq cmd (text "h")
    then help
    else if str_eq cmd (text "help")
    then help
    else if str_eq cmd (text "l")
    then listbreakpoints
    else if str_eq cmd (text "ls")
    then listbreakpoints
    else if str_eq cmd (text "list")
    then listbreakpoints
    else if str_eq cmd (text "lbp")
    then listbreakpoints
    else if str_eq cmd (text "listbp")
    then listbreakpoints
    else if str_eq cmd (text "ld")
    then loadsrc
    else if str_eq cmd (text "lds")
    then loadsrc
    else if str_eq cmd (text "load")
    then loadsrc
    else if str_eq cmd (text "ldsrc")
    then loadsrc
    else if str_eq cmd (text "m")
    then memory
    else if str_eq cmd (text "mem")
    then memory
    else if str_eq cmd (text "memory")
    then memory
    else if str_eq cmd (text "r")
    then registers
    else if str_eq cmd (text "reg")
    then registers
    else if str_eq cmd (text "regis")
    then registers
    else if str_eq cmd (text "register")
    then registers
    else if str_eq cmd (text "registers")
    then registers
    else if str_eq cmd (text "rb")
    then removebp
    else if str_eq cmd (text "rbp")
    then removebp
    else if str_eq cmd (text "rmb")
    then removebp
    else if str_eq cmd (text "rmbp")
    then removebp
    else if str_eq cmd (text "remb")
    then removebp
    else if str_eq cmd (text "rembp")
    then removebp
    else if str_eq cmd (text "remove")
    then removebp
    else if str_eq cmd (text "removebp")
    then removebp
    else if str_eq cmd (text "reset")
    then reset
    else if str_eq cmd (text "rst")
    then reset
    else if str_eq cmd (text "s")
    then step
    else if str_eq cmd (text "step")
    then step
    else if str_eq cmd (text "q")
    then quit
    else if str_eq cmd (text "quit")
    then quit
    else if str_eq cmd (text "exit")
    then quit
    else invalidcmd

-- `val > INT_MAX || val < INT_MIN`, or ERANGE from strtol, by sign and magnitude.
unfoldable pub out_of_int : Scan → Bool
out_of_int s = if s.negative then ltb (2 ^ 31) s.magnitude else leb (2 ^ 31) s.magnitude

-- dbgStrToInt; `none` is the result 0.
unfoldable pub str_to_int : List ℕ → Option ℤ
unfolding out_of_int of_sign
str_to_int s =
    let v = strtol s in
    if v.converted
    then (if out_of_int v
        then none
        else (elim v.rest [ [] ↦ some (of_sign v.negative v.magnitude) | c ∷ cs ↦ none ]))
    else none
