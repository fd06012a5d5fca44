-- ===== src/Debug/State.antt =====
-- rtl/dbg/debugger.h and the statics of debugger.c: the debugger's data.
pub mod Chains
use bb6502_verilog.Common.{ℕ, Bool, Option, none, some, List, [], ◌∷◌, ◌++◌, take}
use bb6502_verilog.Machine.Bus.{Machine}
use bb6502_verilog.Clib.Chars.{text}
use bb6502_verilog.Debug.Sim.{sim_read_mem}

-- `command_t`
pub data Command : Type 0 where
  invalidcmd removebp breakpoint continue disassemble help : Command
  listbreakpoints memory registers step quit loadsrc loadsyms reset : Command

-- `runmode_t`
pub data RunMode : Type 0 where
  stopped stepping running : RunMode

-- `breakpoint_t`: `hasSymbol` and `symbol` together are the option.
pub record Breakpoint : Type 0 where
  pub address : ℕ
  pub symbol : Option (List ℕ)

-- `dbg_symbol_t`
pub record Symbol : Type 0 where
  pub name : List ℕ
  pub addr : ℕ

-- `sim_regs_t`, as simGetRegs reads it
pub record Regs : Type 0 where
  pub a : ℕ
  pub x : ℕ
  pub y : ℕ
  pub sp : ℕ
  pub p : ℕ

-- What `wgetch` returns: a character, or one of ncurses' key codes.
pub data Key : Type 0 where
  char : ℕ → Key
  key_enter key_backspace other_key : Key

-- What stands outside the debugger: the simulation, what the user has yet to type (lines at the
-- console prompt, characters at the STP question, keys in the terminal pane), and whether realloc
-- and the open of the key file succeed.
pub record World : Type 0 where
  pub machine : Machine
  pub regs : Regs
  pub reset_requested : Bool
  pub finished : Bool
  pub lines : List (List ℕ)
  pub answers : List ℕ
  pub keys : List Key
  pub rx_opens : Bool
  pub reallocs : Bool

-- The statics. `console` and `pane` are all that was written to the two windows, `rx_file` what was
-- appended to the key file. `dbgStepsLeft` is never negative, since it is decremented above 0 only.
-- The windows, the SCREEN and the tty files are left out, and so is `dbgCmdBuf`, which is filled
-- again before each use.
pub record Debugger : Type 0 where
  pub world : World
  pub initialised : Bool
  pub quitting : Bool
  pub step_first : Bool
  pub term_dirty : Bool
  pub interrupted : Bool
  pub mode : RunMode
  pub steps_left : ℕ
  pub fetch_count : ℕ
  pub pc : ℕ
  pub bps : List Breakpoint
  pub bp_list_size : ℕ
  pub symbols : List Symbol
  pub sym_capacity : ℕ
  pub has_symbols : Bool
  pub console : List ℕ
  pub pane : List ℕ
  pub rx_file : List ℕ

-- dbgConsoleEcho, of a text that is already formatted.
unfoldable pub echo : List ℕ → Debugger → Debugger
echo s d = record d { console = d.console ++ s }

-- dbgRead6502: the I/O window reads as $FF.
unfoldable pub read6502 : Debugger → ℕ → ℕ
read6502 d address = elim (sim_read_mem d.world.machine address) [ none ↦ 0xff | some v ↦ v ]

-- A command waits for the user: `none` when nothing more is typed.
abbrev pub Cmd : Type 0 → Type 0
Cmd A = Debugger → Option (A × Debugger)

abbrev pub pure : {A : Type 0} → A → Cmd A
pure a d = some (a, d)

infixl 5 ◌>>=◌ ◌>>◌
abbrev pub ◌>>=◌ : {A B : Type 0} → Cmd A → (A → Cmd B) → Cmd B
◌>>=◌ m f d = elim (m d) [ none ↦ none | some (a, d') ↦ f a d' ]

abbrev pub ◌>>◌ : {B : Type 0} → Cmd (Unit {0}) → Cmd B → Cmd B
m >> k = m >>= λ _. k

-- A step that does not wait.
abbrev pub act : (Debugger → Debugger) → Cmd (Unit {0})
act f d = some (tt, f d)

-- dbgConsoleGetCmd: a line of at most `bufsiz - 1` characters, without its newline.
unfoldable pub get_cmd : (room : ℕ) → Cmd (List ℕ)
unfolding echo
get_cmd room d = elim d.world.lines [
  | [] ↦ none
  | line ∷ rest ↦
      some (take room line, record (echo (text ">>") d) { world = record d.world { lines = rest } })
]

-- dbgConsoleGetchar
unfoldable pub get_char : Cmd ℕ
get_char d = elim d.world.answers [
  | [] ↦ none
  | c ∷ rest ↦ some (c, record d { world = record d.world { answers = rest } })
]
