-- ===== src/Debug/Parse/Aliases.antt =====
-- dbgParseCommand against the table of commands and aliases in docs/debugger.md.
use Prim.Native.String.{String}
use mathlib.Core.Bool.{decide, decide_iff}
use bb6502_verilog.Common.{
  ℕ, ◌≡◌, ◌≢◌, refl, ap, sym, ◌∙◌, inl, inr, Bool, true, false, ◌&&◌, Option, none, some, List, [],
  ◌∷◌, ◌++◌, if◌then◌else◌, Bool-cases, Option-cases, arith, and-true,
}
use bb6502_verilog.Clib.Chars.{text}
use bb6502_verilog.Clib.Strings.{str_eq, str_eq→≡}
use bb6502_verilog.Debug.Parse.{parse_command}
use bb6502_verilog.Debug.State.{
  Command, invalidcmd, breakpoint, continue, disassemble, help, listbreakpoints, loadsrc, memory,
  quit, registers, removebp, reset, step,
}

-- The rows of the table: each command with its spellings.
abbrev pub table : List (Command × List String)
table =
    (breakpoint, "b" ∷ "bp" ∷ "break" ∷ "breakpoint" ∷ [])
    ∷ (removebp, "rb" ∷ "rbp" ∷ "rmb" ∷ "rmbp" ∷ "remb" ∷ "rembp" ∷ "remove" ∷ "removebp" ∷ [])
    ∷ (listbreakpoints, "l" ∷ "ls" ∷ "list" ∷ "lbp" ∷ "listbp" ∷ [])
    ∷ (continue, "c" ∷ "cont" ∷ "continue" ∷ [])
    ∷ (step, "s" ∷ "step" ∷ [])
    ∷ (disassemble, "d" ∷ "dis" ∷ "disas" ∷ "disassemble" ∷ [])
    ∷ (memory, "m" ∷ "mem" ∷ "memory" ∷ [])
    ∷ (registers, "r" ∷ "reg" ∷ "regis" ∷ "register" ∷ "registers" ∷ [])
    ∷ (reset, "reset" ∷ "rst" ∷ [])
    ∷ (loadsrc, "ld" ∷ "lds" ∷ "load" ∷ "ldsrc" ∷ [])
    ∷ (help, "h" ∷ "help" ∷ [])
    ∷ (quit, "q" ∷ "quit" ∷ "exit" ∷ [])
    ∷ []

-- The rows one after another.
spellings : Command → List String → List (String × Command)
spellings c [] = []
spellings c (s ∷ ss) = (s, c) ∷ spellings c ss

flat : List (Command × List String) → List (String × Command)
unfolding spellings
flat [] = []
flat ((c, ss) ∷ rows) = spellings c ss ++ flat rows

-- The first entry spelled `cmd`.
find : List (String × Command) → List ℕ → Option Command
find [] cmd = none
find ((s, c) ∷ rest) cmd = if str_eq cmd (text s) then some c else find rest cmd

-- The command that the table of the documentation gives a word, if any.
unfoldable pub documented : List ℕ → Option Command
unfolding find flat
documented cmd = find (flat table) cmd

Command-discrete : Discrete Command
Command-discrete = hlevel

gives : Option Command → Command → Bool
gives none c = false
gives (some d) c = decide (Command-discrete d c)

gives→≡ : (o : Option Command) (c : Command) → gives o c ≡ true → o ≡ some c
unfolding gives
gives→≡ none c h = cc
gives→≡ (some d) c h = ap some ((decide_iff (Command-discrete d c)).0 h)

-- Every entry of `l` is found in `m`, by its spelling.
agree : List (String × Command) → List (String × Command) → Bool
unfolding find gives
agree [] m = true
agree ((s, c) ∷ rest) m = gives (find m (text s)) c && agree rest m

find-cons :
    (s : String) (d : Command) (rest : List (String × Command)) (cmd : List ℕ)
    → find ((s, d) ∷ rest) cmd ≡ (if str_eq cmd (text s) then some d else find rest cmd)
unfolding find
find-cons s d rest cmd = refl

agree-find :
    (l m : List (String × Command)) (cmd : List ℕ) (c : Command)
    → agree l m ≡ true
    → find l cmd ≡ some c
    → find m cmd ≡ some c
unfolding agree
agree-find [] m cmd c h e = unfold find in cc e
agree-find ((s, d) ∷ rest) m cmd c h e =
    let both = and-true h in
    elim (Bool-cases (str_eq cmd (text s))) [
      | inl hit ↦
          let found = gives→≡ (find m (text s)) d both.0 in
          let same : some d ≡ some c = ground (arith, find-cons s d rest cmd) in
          rw (str_eq→≡ cmd (text s) hit) (found ∙ same)
      | inr miss ↦ agree-find rest m cmd c both.1 (ground (arith, find-cons s d rest cmd))
    ]

agree_both :
    (l m : List (String × Command)) (cmd : List ℕ)
    → agree l m ≡ true
    → agree m l ≡ true
    → find l cmd ≡ find m cmd
agree_both l m cmd h k = elim (Option-cases (find l cmd)) [
  | inr (c, e) ↦ e ∙ sym (agree-find l m cmd c h e)
  | inl no_l ↦ elim (Option-cases (find m cmd)) [
    | inl no_m ↦ no_l ∙ sym no_m
    | inr (c, e) ↦ let back = agree-find m l cmd c k e in absurd (none≢some (sym no_l ∙ back))
  ]
]
  where
    none≢some : {c : Command} → none ≢ some c
    none≢some e = cc

-- The chain of comparisons, as a list in the code's order.
chain : List (String × Command)
chain =
    ("b", breakpoint)
    ∷ ("bp", breakpoint)
    ∷ ("break", breakpoint)
    ∷ ("breakpoint", breakpoint)
    ∷ ("c", continue)
    ∷ ("cont", continue)
    ∷ ("continue", continue)
    ∷ ("d", disassemble)
    ∷ ("dis", disassemble)
    ∷ ("disas", disassemble)
    ∷ ("disassemble", disassemble)
    ∷ ("h", help)
    ∷ ("help", help)
    ∷ ("l", listbreakpoints)
    ∷ ("ls", listbreakpoints)
    ∷ ("list", listbreakpoints)
    ∷ ("lbp", listbreakpoints)
    ∷ ("listbp", listbreakpoints)
    ∷ ("ld", loadsrc)
    ∷ ("lds", loadsrc)
    ∷ ("load", loadsrc)
    ∷ ("ldsrc", loadsrc)
    ∷ ("m", memory)
    ∷ ("mem", memory)
    ∷ ("memory", memory)
    ∷ ("r", registers)
    ∷ ("reg", registers)
    ∷ ("regis", registers)
    ∷ ("register", registers)
    ∷ ("registers", registers)
    ∷ ("rb", removebp)
    ∷ ("rbp", removebp)
    ∷ ("rmb", removebp)
    ∷ ("rmbp", removebp)
    ∷ ("remb", removebp)
    ∷ ("rembp", removebp)
    ∷ ("remove", removebp)
    ∷ ("removebp", removebp)
    ∷ ("reset", reset)
    ∷ ("rst", reset)
    ∷ ("s", step)
    ∷ ("step", step)
    ∷ ("q", quit)
    ∷ ("quit", quit)
    ∷ ("exit", quit)
    ∷ []

-- A word without a command is CMD_INVALIDCMD.
abbrev pub or_invalid : Option Command → Command
or_invalid none = invalidcmd
or_invalid (some c) = c

-- The same walk, with CMD_INVALIDCMD at its end.
pick : List (String × Command) → List ℕ → Command
pick [] cmd = invalidcmd
pick ((s, c) ∷ rest) cmd = if str_eq cmd (text s) then c else pick rest cmd

pick-find : (l : List (String × Command)) (cmd : List ℕ) → pick l cmd ≡ or_invalid (find l cmd)
unfolding pick find
pick-find [] cmd = refl
pick-find ((s, c) ∷ rest) cmd = ground (arith, pick-find rest cmd)

parse_command-chain : (cmd : List ℕ) → parse_command cmd ≡ or_invalid (find chain cmd)
parse_command-chain cmd = pick_lem cmd ∙ pick-find chain cmd
  where
    pick_lem : (cmd : List ℕ) → parse_command cmd ≡ pick chain cmd
    pick_lem cmd = unfold parse_command pick chain in refl

chain-agrees : (agree chain (flat table) ≡ true) × (agree (flat table) chain ≡ true)
unfolding agree chain flat text str_eq decide Command-discrete
chain-agrees = (refl, refl)

-- For every word, dbgParseCommand returns the command that the table in docs/debugger.md lists it
-- under, and CMD_INVALIDCMD for a word that is not in the table.
pub parse_command-documented : (cmd : List ℕ) → parse_command cmd ≡ or_invalid (documented cmd)
unfolding documented
parse_command-documented cmd =
    parse_command-chain cmd
    ∙ ap or_invalid (agree_both chain (flat table) cmd chain-agrees.0 chain-agrees.1)
