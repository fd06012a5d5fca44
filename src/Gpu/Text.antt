-- ===== src/Gpu/Text.antt =====
-- tools/gpu.c: what text on the stream looks like on the screen.
use bb6502_verilog.Common.{
  ℕ, zero, suc, ◌+◌, ◌-◌, ◌≤◌, ◌<◌, ◌≡◌, ◌≢◌, refl, sym, ap, ◌∙◌, ◌⊎◌, inl, inr, true, List, [],
  ◌∷◌, ◌++◌, leb, ◌==◌, get_or, get_or-set_self, get_or-set_ne, set, length, All, All-get_or_lt,
  Bool-cases, arith,
}
use bb6502_verilog.Gpu.Screen.{
  Screen, cols, rows, blank_row, put_cell, scroll_up, put_char, put_chars,
}
use bb6502_verilog.Gpu.Bounds.{IsScreen, IsRow, put_char-IsScreen}

-- `screen[r][c]`
abbrev pub cell : Screen → ℕ → ℕ → ℕ
cell s r c = get_or (get_or s.cells r []) c 0

abbrev pub IsPrintable : ℕ → Type 0
IsPrintable c = (32 ≤ c) × (c < 127)

pub cell-put_cell :
    (r c v : ℕ) (cells : List (List ℕ))
    → r < length cells
    → c < length (get_or cells r [])
    → get_or (get_or (put_cell r c v cells) r []) c 0 ≡ v
unfolding put_cell
cell-put_cell r c v cells hr hc =
    rw (get_or-set_self cells r (set (get_or cells r []) c v) [] hr)
      (get_or-set_self (get_or cells r []) c v 0 hc)

pub cell-put_cell_ne :
    (r c v : ℕ) (cells : List (List ℕ)) (r' c' : ℕ)
    → (r ≢ r') ⊎ (c ≢ c')
    → r < length cells
    → get_or (get_or (put_cell r c v cells) r' []) c' 0 ≡ get_or (get_or cells r' []) c' 0
unfolding put_cell
cell-put_cell_ne r c v cells r' c' (inl ne) hr =
    rw (get_or-set_ne cells r r' (set (get_or cells r []) c v) [] ne)
cell-put_cell_ne r c v cells r' c' (inr ne) hr = elim (Bool-cases (r == r')) [
  | inl e ↦
      let same : r ≡ r' = ground arith in
      rw (← same) (
        rw (get_or-set_self cells r (set (get_or cells r []) c v) [] hr)
          (get_or-set_ne (get_or cells r []) c c' v 0 ne))
  | inr e ↦ rw (get_or-set_ne cells r r' (set (get_or cells r []) c v) [] (ground arith))
]

-- One printable character that does not reach the last column.
pub put_char-printable :
    (c : ℕ) (s : Screen)
    → IsPrintable c
    → s.cur_row < rows
    → s.cur_col + 1 < cols
    → put_char c s
      ≡ record s { cells = put_cell s.cur_row s.cur_col c s.cells; cur_col = s.cur_col + 1 }
unfolding put_char
put_char-printable c s h hr hc = ground arith

-- Text that fits.
pub record Shows (t : List ℕ) (s s' : Screen) : Type 0 where
  pub row : s'.cur_row ≡ s.cur_row
  pub col : s'.cur_col ≡ s.cur_col + length t
  pub text : (i : ℕ) → i < length t → cell s' s.cur_row (s.cur_col + i) ≡ get_or t i 0
  pub others :
      (r c : ℕ)
      → (r ≢ s.cur_row) ⊎ ((c < s.cur_col) ⊎ (s.cur_col + length t ≤ c))
      → cell s' r c ≡ cell s r c

abbrev written : ℕ → Screen → Screen
written x s = record s { cells = put_cell s.cur_row s.cur_col x s.cells; cur_col = s.cur_col + 1 }

Shows-cons :
    (x : ℕ) (t : List ℕ) (s s' : Screen)
    → IsScreen s
    → Shows t (written x s) s'
    → Shows (x ∷ t) s s'
Shows-cons x t s s' h rest = record {
  row = rest.row;
  col = rest.col ∙ omega arith;
  text = text;
  others = λ r c q.
      rest.others r c (outside r c q)
      ∙ cell-put_cell_ne s.cur_row s.cur_col x s.cells r c (off r c q) here;
}
  where
    here : s.cur_row < length s.cells
    here = omega (arith, h.height)

    wide : s.cur_col < length (get_or s.cells s.cur_row [])
    wide = omega (arith, (All-get_or_lt IsRow s.cells s.cur_row [] h.lines here).0)

    text : (i : ℕ) → i < length (x ∷ t) → cell s' s.cur_row (s.cur_col + i) ≡ get_or (x ∷ t) i 0
    text zero q =
        ap (cell s' s.cur_row) (omega arith)
        ∙ rest.others s.cur_row s.cur_col (inr (inl (omega arith)))
        ∙ cell-put_cell s.cur_row s.cur_col x s.cells here wide
    text (suc i) q = ap (cell s' s.cur_row) (omega arith) ∙ rest.text i (omega arith)

    outside :
        (r c : ℕ)
        → (r ≢ s.cur_row) ⊎ ((c < s.cur_col) ⊎ (s.cur_col + suc (length t) ≤ c))
        → (r ≢ s.cur_row) ⊎ ((c < s.cur_col + 1) ⊎ (s.cur_col + 1 + length t ≤ c))
    outside r c (inl ne) = inl ne
    outside r c (inr (inl lt)) = inr (inl (omega arith))
    outside r c (inr (inr le)) = inr (inr (omega arith))

    off :
        (r c : ℕ)
        → (r ≢ s.cur_row) ⊎ ((c < s.cur_col) ⊎ (s.cur_col + suc (length t) ≤ c))
        → (s.cur_row ≢ r) ⊎ (s.cur_col ≢ c)
    off r c (inl ne) = inl λ e. ne (sym e)
    off r c (inr (inl lt)) = inr (omega arith)
    off r c (inr (inr le)) = inr (omega arith)

-- Printable text that ends before the last column of the cursor's row appears there, character by
-- character; the cursor moves behind it and no other cell changes.
pub put_chars-Shows :
    (t : List ℕ) (s : Screen)
    → IsScreen s
    → All IsPrintable t
    → s.cur_col + length t < cols
    → Shows t s (put_chars t s)
unfolding put_chars
put_chars-Shows [] s h p fits = record {
  row = refl;
  col = omega arith;
  text = λ i q. absurd (omega arith);
  others = λ r c q. refl;
}
put_chars-Shows (x ∷ t) s h p fits =
    let one = put_char-printable x s p.0 h.row_in (omega arith) in
    let next : IsScreen (written x s) = rw one at (put_char-IsScreen x s h) in
    rw one (Shows-cons x t s _ h (put_chars-Shows t (written x s) next p.1 (omega arith)))

get_or-append_lt :
    (xs ys : List (List ℕ)) (i : ℕ) → i < length xs → get_or (xs ++ ys) i [] ≡ get_or xs i []
get_or-append_lt [] ys i h = absurd (omega arith)
get_or-append_lt (x ∷ xs) ys zero h = refl
get_or-append_lt (x ∷ xs) ys (suc i) h = get_or-append_lt xs ys i (omega arith)

get_or-append_end :
    (xs : List (List ℕ)) (y : List ℕ) (n : ℕ) → n ≡ length xs → get_or (xs ++ (y ∷ [])) n [] ≡ y
get_or-append_end [] y n e = rw e
get_or-append_end (x ∷ xs) y zero e = absurd (omega arith)
get_or-append_end (x ∷ xs) y (suc n) e = get_or-append_end xs y n (omega arith)

scroll_up-row :
    (cells : List (List ℕ)) (i : ℕ)
    → suc i < length cells
    → get_or (scroll_up cells) i [] ≡ get_or cells (suc i) []
unfolding scroll_up
scroll_up-row [] i h = absurd (omega arith)
scroll_up-row (x ∷ xs) i h = get_or-append_lt xs (blank_row ∷ []) i (omega arith)

scroll_up-last :
    (cells : List (List ℕ)) (n : ℕ)
    → length cells ≡ suc n
    → get_or (scroll_up cells) n [] ≡ blank_row
unfolding scroll_up
scroll_up-last [] n h = absurd (omega arith)
scroll_up-last (x ∷ xs) n h = get_or-append_end xs blank_row n (omega arith)

-- A line feed on the last row scrolls: each row shows what the row below it showed, the last row is
-- blank, and the cursor stands at its start.
pub put_char-scrolls :
    (s : Screen)
    → IsScreen s
    → s.cur_row ≡ rows - 1
    → let s' = put_char b'\n' s in
      ((i c : ℕ) → i < rows - 1 → cell s' i c ≡ cell s (suc i) c)
      × (get_or s'.cells (rows - 1) [] ≡ blank_row)
      × (s'.cur_row ≡ rows - 1)
      × (s'.cur_col ≡ 0)
unfolding put_char
put_char-scrolls s h last =
    let down : leb rows (s.cur_row + 1) ≡ true = ground arith in
    rw down (
      (λ i c q.
          ap (λ (r : List ℕ). get_or r c 0) (scroll_up-row s.cells i (omega (arith, h.height)))),
      scroll_up-last s.cells 24 (omega (arith, h.height)),
      refl,
      refl,
    )

put_char-back :
    (s : Screen) (k : ℕ)
    → s.cur_row < rows
    → s.cur_col ≡ k + 1
    → put_char 8 s ≡ record s { cells = put_cell s.cur_row k b' ' s.cells; cur_col = k }
unfolding put_char
put_char-back s k hr hc = ground arith

-- Backspace undoes a printable character that did not reach the last column: the cursor is back
-- where it was, the character's cell is a space, and no other cell has changed.
pub put_char-backspace :
    (c : ℕ) (s : Screen)
    → IsScreen s
    → IsPrintable c
    → s.cur_col + 1 < cols
    → let s' = put_char 8 (put_char c s) in
      (s'.cur_row ≡ s.cur_row)
      × (s'.cur_col ≡ s.cur_col)
      × (cell s' s.cur_row s.cur_col ≡ b' ')
      × ((i j : ℕ) → (i ≢ s.cur_row) ⊎ (j ≢ s.cur_col) → cell s' i j ≡ cell s i j)
put_char-backspace c s h p q =
    let one = put_char-printable c s p h.row_in q in
    let back = put_char-back (written c s) s.cur_col h.row_in refl in
    let next : IsScreen (written c s) = rw one at (put_char-IsScreen c s h) in
    let rows_in : s.cur_row < length (written c s).cells = omega (arith, next.height, h.row_in) in
    let wide : s.cur_col < length (get_or (written c s).cells s.cur_row []) = omega (
      arith,
      (All-get_or_lt IsRow (written c s).cells s.cur_row [] next.lines rows_in).0,
      h.col_in,
    ) in
    rw (one, back)
      (
        refl,
        refl,
        cell-put_cell s.cur_row s.cur_col b' ' (written c s).cells rows_in wide,
        λ i j ne.
            cell-put_cell_ne s.cur_row s.cur_col b' ' (written c s).cells i j (flip ne) rows_in
            ∙ cell-put_cell_ne s.cur_row s.cur_col c s.cells i j (flip ne)
                (omega (arith, h.height)),
      )
  where
    flip : {i j : ℕ} → (i ≢ s.cur_row) ⊎ (j ≢ s.cur_col) → (s.cur_row ≢ i) ⊎ (s.cur_col ≢ j)
    flip (inl ne) = inl λ e. ne (sym e)
    flip (inr ne) = inr λ e. ne (sym e)
