-- ===== src/Debug/Symbols.antt =====
-- rtl/dbg/debugger.c: dbgReadDbgSyms, which loads code labels from an ld65 debug file.
pub mod Valid
use bb6502_verilog.Common.{
  ℕ, zero, suc, ◌+◌, ◌-◌, ◌*◌, ◌%◌, ◌^◌, ◌≡◌, refl, Bool, true, false, not, ◌&&◌, ◌||◌, Option,
  none, some, List, [], ◌∷◌, ◌++◌, length, take, ltb, leb, ◌==◌, if◌then◌else◌,
}
use bb6502_verilog.Common.Maybe.{◌>>=◌, ◌>>◌, guard}
use bb6502_verilog.Common.Bits.{u16, u32}
use bb6502_verilog.Clib.Chars.{text, is_digit, is_alpha, is_upper}
use bb6502_verilog.Clib.Strings.{has_prefix, strstr}
use bb6502_verilog.Clib.Numbers.{Unsigned, strtoul_hex}
use bb6502_verilog.Debug.State.{Symbol, Debugger, echo}
use bb6502_verilog.Debug.Breakpoints.{max_symbol_length}

abbrev pub drop : ℕ → List ℕ → List ℕ
drop zero xs = xs
drop (suc n) [] = []
drop (suc n) (x ∷ xs) = drop n xs

-- The lines that calls of `fgets(line, 512, f)` return: at most 511 characters each, with the newline
-- that ends them. `room` is what the buffer still holds, `line` what is in it.
unfoldable pub fgets_lines : (room : ℕ) → List ℕ → List ℕ → List (List ℕ)
fgets_lines room line [] = elim line [ [] ↦ [] | c ∷ cs ↦ (c ∷ cs) ∷ [] ]
fgets_lines room line (c ∷ cs) =
    let next = fgets_lines 511 [] cs in
    let more = fgets_lines (room - 1) (line ++ (c ∷ [])) cs in
    if c == b'\n' || leb room 1 then (line ++ (c ∷ [])) ∷ next else more

-- dbg_strIsAllCaps: no letter but capitals.
unfoldable pub str_is_all_caps : List ℕ → Bool
unfolding is_digit is_alpha is_upper
str_is_all_caps [] = true
str_is_all_caps (c ∷ cs) =
    let rest = str_is_all_caps cs in
    if is_digit c then rest else if is_alpha c && not (is_upper c) then false else rest

-- The `while` that copies a name up to its closing quote, with the room left in `symname`.
unfoldable pub copy_name : (room : ℕ) → List ℕ → List ℕ
copy_name zero cs = []
copy_name (suc n) [] = []
copy_name (suc n) (c ∷ cs) = let rest = copy_name n cs in if c == b'"' then [] else c ∷ rest

-- `strncmp(line, "sym", 3) == 0` and a tab or a space behind it.
unfoldable pub is_sym_line : List ℕ → Bool
unfolding has_prefix
is_sym_line line =
    has_prefix line (text "sym")
    && (elim (drop 3 line) [ [] ↦ false | c ∷ cs ↦ c == b'\t' || c == b' ' ])

-- `sscanf(valptr, "val=0x%x", &addr)`, behind the literal part that strstr has found.
unfoldable pub scan_val : List ℕ → Option ℕ
scan_val line = do
  from ← strstr line (text "val=0x")
  let u = strtoul_hex (drop 6 from)
  guard u.converted
  some (u32 u.value)

-- The body of the loop over the lines: the symbol to append, or `continue`.
unfoldable pub parse_line : List ℕ → Option Symbol
parse_line line = do
  guard (is_sym_line line)
  lab ← strstr line (text "type=lab")
  from ← strstr line (text "name=\"")
  let symname = copy_name (max_symbol_length - 1) (drop 6 from)
  guard (not (length symname == 0))
  addr ← scan_val line
  guard (not (str_is_all_caps symname))
  some (record { name = symname; addr = u16 addr })

-- The entry, with the growth of the array before it; `none` is the `break` when realloc fails.
unfoldable pub append_symbol : Symbol → Debugger → Option Debugger
append_symbol s d =
    if leb d.sym_capacity (length d.symbols)
    then (if d.world.reallocs
        then some (record d { symbols = d.symbols ++ (s ∷ []); sym_capacity = d.sym_capacity * 2 })
        else none)
    else some (record d { symbols = d.symbols ++ (s ∷ []) })

-- The loop over the lines.
unfoldable pub load_lines : List (List ℕ) → Debugger → Debugger
load_lines [] d = d
load_lines (line ∷ rest) d = elim (parse_line line) [
  | none ↦ load_lines rest d
  | some s ↦ elim (append_symbol s d) [ none ↦ d | some d' ↦ load_lines rest d' ]
]

-- The first allocation; `has_symbols` is `dbgSymbols != NULL`.
unfoldable pub alloc_symbols : Debugger → Debugger
alloc_symbols d =
    if d.has_symbols then d else record d { sym_capacity = 64; has_symbols = d.world.reallocs }

-- dbgReadDbgSyms, with the file's text, or `none` when it cannot be opened.
unfoldable pub read_dbg_syms :
    (fname : List ℕ) (error : List ℕ) → Option (List ℕ) → Debugger → Debugger
read_dbg_syms fname error none d =
    echo (text "symload: Cannot open \"" ++ (fname ++ (text "\": " ++ (error ++ text "\n")))) d
read_dbg_syms fname error (some file) d =
    let d1 = alloc_symbols d in
    if d1.has_symbols then load_lines (fgets_lines 511 [] file) d1 else d1
