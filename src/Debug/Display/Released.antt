-- ===== src/Debug/Display/Released.antt =====
-- What dbgCleanup of rtl/dbg/debugger.c gives back.
use bb6502_verilog.Common.{
  ℕ, zero, suc, ◌+◌, ◌<◌, ◌≡◌, refl, Bool, true, false, Option, none, some, List, [], ◌∷◌, ◌++◌,
  ◌==◌, if◌then◌else◌, get_elem?, arith,
}
use bb6502_verilog.Debug.State.{Debugger, Breakpoint}
use bb6502_verilog.Debug.Display.{
  Release, free_symbol, free_bps, free_symbols, end_curses, close_tty_in, close_tty_out, close_rx,
  free_bp_symbols, cleanup,
}

-- How often the symbol of breakpoint i is freed.
abbrev pub frees : ℕ → List Release → ℕ
frees i [] = 0
frees i (free_symbol j ∷ rs) = (if i == j then 1 else 0) + frees i rs
frees i (free_bps ∷ rs) = frees i rs
frees i (free_symbols ∷ rs) = frees i rs
frees i (end_curses ∷ rs) = frees i rs
frees i (close_tty_in ∷ rs) = frees i rs
frees i (close_tty_out ∷ rs) = frees i rs
frees i (close_rx ∷ rs) = frees i rs

-- Whether breakpoint i has a symbol, as a number.
abbrev pub named : Option Breakpoint → ℕ
named none = 0
named (some b) = elim b.symbol [ none ↦ 0 | some s ↦ 1 ]

-- The releases but for those of the breakpoints' symbols.
abbrev pub rest : Bool → List Release
rest rx_open =
    free_bps
    ∷ (free_symbols
        ∷ (end_curses ∷ (close_tty_in ∷ (close_tty_out ∷ (if rx_open then close_rx ∷ [] else [])))))

frees-append : (i : ℕ) (rs ss : List Release) → frees i (rs ++ ss) ≡ frees i rs + frees i ss
frees-append i [] ss = omega arith
frees-append i (free_symbol j ∷ rs) ss = omega (arith, frees-append i rs ss)
frees-append i (free_bps ∷ rs) ss = frees-append i rs ss
frees-append i (free_symbols ∷ rs) ss = frees-append i rs ss
frees-append i (end_curses ∷ rs) ss = frees-append i rs ss
frees-append i (close_tty_in ∷ rs) ss = frees-append i rs ss
frees-append i (close_tty_out ∷ rs) ss = frees-append i rs ss
frees-append i (close_rx ∷ rs) ss = frees-append i rs ss

frees-below : (i j : ℕ) (bs : List Breakpoint) → i < j → frees i (free_bp_symbols j bs) ≡ 0
unfolding free_bp_symbols
frees-below i j [] h = refl
frees-below i j (b ∷ bs) h =
    elim b.symbol
      as (λ s.
        frees i (elim s [
          | none ↦ free_bp_symbols (j + 1) bs
          | some _ ↦ free_symbol j ∷ free_bp_symbols (j + 1) bs
        ])
        ≡ 0) [
          | none ↦ frees-below i (j + 1) bs (omega arith)
          | some s ↦ ground (arith, frees-below i (j + 1) bs (omega arith))
        ]

frees-free_bp_symbols :
    (i j : ℕ) (bs : List Breakpoint) → frees (j + i) (free_bp_symbols j bs) ≡ named (get_elem? bs i)
unfolding free_bp_symbols
frees-free_bp_symbols i j [] = refl
frees-free_bp_symbols zero j (b ∷ bs) =
    let later = frees-below (j + 0) (j + 1) bs (omega arith) in
    elim b.symbol
      as (λ s.
        frees (j + 0) (elim s [
          | none ↦ free_bp_symbols (j + 1) bs
          | some _ ↦ free_symbol j ∷ free_bp_symbols (j + 1) bs
        ])
        ≡ elim s [ none ↦ 0 | some _ ↦ 1 ]) [ none ↦ later | some s ↦ ground (arith, later) ]
frees-free_bp_symbols (suc i) j (b ∷ bs) =
    let next : frees (j + suc i) (free_bp_symbols (j + 1) bs) ≡ named (get_elem? bs i) =
      let same : j + suc i ≡ j + 1 + i = omega arith in
      rw same (frees-free_bp_symbols i (j + 1) bs) in
    elim b.symbol
      as (λ s.
        frees (j + suc i) (elim s [
          | none ↦ free_bp_symbols (j + 1) bs
          | some _ ↦ free_symbol j ∷ free_bp_symbols (j + 1) bs
        ])
        ≡ named (get_elem? bs i)) [ none ↦ next | some s ↦ ground (arith, next) ]

frees-rest : (i : ℕ) (rx_open : Bool) → frees i (rest rx_open) ≡ 0
frees-rest i true = refl
frees-rest i false = refl

cleanup_lem :
    (rx_open : Bool) (d : Debugger)
    → d.initialised ≡ true
    → cleanup rx_open d
      ≡ (free_bp_symbols 0 d.bps ++ rest rx_open, record d { initialised = false })
unfolding cleanup
cleanup_lem rx_open d up = simp up

-- At the end of a debugger that was started, dbgCleanup frees the symbol of each breakpoint that has
-- one exactly once, and no other, and then frees the two tables and closes the rest; called again it
-- gives nothing back and changes nothing.
pub cleanup-once :
    (rx_open again : Bool) (d : Debugger)
    → d.initialised ≡ true
    → ((i : ℕ) → frees i (cleanup rx_open d).0 ≡ named (get_elem? d.bps i))
      × ((before : List Release) × ((cleanup rx_open d).0 ≡ before ++ rest rx_open))
      × (cleanup again (cleanup rx_open d).1 ≡ ([], (cleanup rx_open d).1))
cleanup-once rx_open again d up = rw (cleanup_lem rx_open d up) (
  λ i.
      let symbols : frees i (free_bp_symbols 0 d.bps) ≡ named (get_elem? d.bps i) =
        let same : 0 + i ≡ i = omega arith in rw same at (frees-free_bp_symbols i 0 d.bps) in
      omega (
        arith,
        frees-append i (free_bp_symbols 0 d.bps) (rest rx_open),
        symbols,
        frees-rest i rx_open,
      ),
  (free_bp_symbols 0 d.bps, refl),
  unfold cleanup in refl,
)
