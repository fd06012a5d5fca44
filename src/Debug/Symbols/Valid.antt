-- ===== src/Debug/Symbols/Valid.antt =====
-- What the symbol table holds after any file has been loaded.
use bb6502_verilog.Common.{
  ℕ, zero, suc, ◌-◌, ◌<◌, ◌≤◌, ◌≡◌, sym, ◌∙◌, inl, inr, true, false, not, Option, none, some, List,
  [], ◌∷◌, length, length-append, leb, ◌==◌, arith, Option-cases, if-elim, All, All-append,
}
use mathlib.Core.Bool.{false≢true}
use bb6502_verilog.Common.Maybe.{AllOf, AllOf-bind, AllOf-guard}
use bb6502_verilog.Debug.Breakpoints.{max_symbol_length}
use bb6502_verilog.Clib.Chars.{text}
use bb6502_verilog.Clib.Strings.{strstr}
use bb6502_verilog.Debug.State.{Symbol, Debugger, echo}
use bb6502_verilog.Debug.Symbols.{
  drop, copy_name, is_sym_line, scan_val, str_is_all_caps, parse_line, append_symbol, load_lines,
  alloc_symbols, fgets_lines, read_dbg_syms,
}

-- A name that is not empty, fits `symbolname` with its NUL, has no quote and is not all capitals,
-- and an address of 16 bits.
pub record IsSymbol (s : Symbol) : Type 0 where
  pub some_name : 0 < length s.name
  pub fits : length s.name < 32
  pub unquoted : All (λ c. (c == b'"') ≡ false) s.name
  pub not_caps : str_is_all_caps s.name ≡ false
  pub word : s.addr < 65536

-- The entries in use fit what is allocated.
pub record IsTable (d : Debugger) : Type 0 where
  pub fits : length d.symbols ≤ d.sym_capacity
  pub entries : All IsSymbol d.symbols
  pub grows : d.has_symbols ≡ true → 0 < d.sym_capacity
  pub fresh : d.has_symbols ≡ false → length d.symbols ≡ 0

length-copy_name : (n : ℕ) (cs : List ℕ) → length (copy_name n cs) ≤ n
unfolding copy_name
length-copy_name zero cs = omega arith
length-copy_name (suc n) [] = omega arith
length-copy_name (suc n) (c ∷ cs) = ground (arith, length-copy_name n cs)

copy_name-unquoted : (n : ℕ) (cs : List ℕ) → All (λ c. (c == b'"') ≡ false) (copy_name n cs)
unfolding copy_name
copy_name-unquoted zero cs = tt
copy_name-unquoted (suc n) [] = tt
copy_name-unquoted (suc n) (c ∷ cs) =
    if-elim (All (λ c. (c == b'"') ≡ false)) (c == b'"') (λ _. tt)
      (λ e. (e, copy_name-unquoted n cs))

-- Whatever a line says, a symbol read from it is well formed.
parse_line-IsSymbol : (line : List ℕ) → AllOf IsSymbol (parse_line line)
unfolding parse_line
parse_line-IsSymbol line = AllOf-guard IsSymbol (is_sym_line line) _ λ _.
    AllOf-bind IsSymbol (strstr line (text "type=lab")) _ λ lab _.
      AllOf-bind IsSymbol (strstr line (text "name=\"")) _ λ from _.
        let symname = copy_name (max_symbol_length - 1) (drop 6 from) in
        AllOf-guard IsSymbol (not (length symname == 0)) _ λ named.
          AllOf-bind IsSymbol (scan_val line) _ λ addr _.
            AllOf-guard IsSymbol (not (str_is_all_caps symname)) _ λ mixed. record {
              some_name = ground arith;
              fits = omega (arith, length-copy_name 31 (drop 6 from));
              unquoted = copy_name-unquoted 31 (drop 6 from);
              not_caps = ground arith;
              word = omega arith;
            }

append_symbol-IsTable :
    (s : Symbol) (d : Debugger)
    → IsSymbol s
    → IsTable d
    → d.has_symbols ≡ true
    → AllOf (λ d'. IsTable d' × (d'.has_symbols ≡ true)) (append_symbol s d)
unfolding append_symbol
append_symbol-IsTable s d h v alive =
    let one = length-append d.symbols (s ∷ []) in
    let entries = All-append IsSymbol d.symbols (s ∷ []) v.entries (h, tt) in
    if-elim (AllOf (λ d'. IsTable d' × (d'.has_symbols ≡ true)))
      (leb d.sym_capacity (length d.symbols))
      (λ full.
        if-elim (AllOf (λ d'. IsTable d' × (d'.has_symbols ≡ true))) d.world.reallocs
          (λ _. (
            record {
              fits = omega (arith, one, v.fits, v.grows alive);
              entries = entries;
              grows = λ _. omega (arith, v.grows alive);
              fresh = λ e. absurd (false≢true (sym e ∙ alive));
            },
            alive,
          ))
          (λ _. tt))
      (λ room. (
        record {
          fits = ground (arith, one);
          entries = entries;
          grows = v.grows;
          fresh = λ e. absurd (false≢true (sym e ∙ alive));
        },
        alive,
      ))

load_lines-IsTable :
    (lines : List (List ℕ)) (d : Debugger)
    → IsTable d
    → d.has_symbols ≡ true
    → IsTable (load_lines lines d)
unfolding load_lines
load_lines-IsTable [] d v alive = v
load_lines-IsTable (line ∷ rest) d v alive = elim (Option-cases (parse_line line)) [
  | inl skip ↦ rw (skip, load_lines) (load_lines-IsTable rest d v alive)
  | inr (s, found) ↦ elim (Option-cases (append_symbol s d)) [
    | inl stop ↦ rw (found, load_lines, stop) v
    | inr (d', grown) ↦
        let good : IsSymbol s = rw found at (parse_line-IsSymbol line) in
        let next : IsTable d' × (d'.has_symbols ≡ true) =
          rw grown at (append_symbol-IsTable s d good v alive) in
        rw (found, load_lines, grown) (load_lines-IsTable rest d' next.0 next.1)
  ]
]

alloc_symbols-IsTable : (d : Debugger) → IsTable d → IsTable (alloc_symbols d)
unfolding alloc_symbols
alloc_symbols-IsTable d v =
    if-elim IsTable d.has_symbols (λ _. v)
      (λ e. record {
        fits = omega (arith, v.fresh e);
        entries = v.entries;
        grows = λ _. omega arith;
        fresh = λ _. v.fresh e;
      })

-- Loading any debug file, or failing to open it or to allocate, keeps the symbol table well formed:
-- it fits its allocation; each name has 1 to 31 characters, no quote among them, and is not all
-- capitals; each address has 16 bits.
pub read_dbg_syms-IsTable :
    (fname error : List ℕ) (file : Option (List ℕ)) (d : Debugger)
    → IsTable d
    → IsTable (read_dbg_syms fname error file d)
unfolding read_dbg_syms echo
read_dbg_syms-IsTable fname error none d v = record {
  fits = v.fits;
  entries = v.entries;
  grows = v.grows;
  fresh = v.fresh;
}
read_dbg_syms-IsTable fname error (some file) d v =
    let start = alloc_symbols-IsTable d v in
    if-elim IsTable (alloc_symbols d).has_symbols
      (λ alive. load_lines-IsTable (fgets_lines 511 [] file) (alloc_symbols d) start alive)
      (λ _. start)
