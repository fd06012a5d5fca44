-- ===== src/Gpu/Bounds.antt =====
-- tools/gpu.c: where `put_char` writes, and what a well-formed screen is.
use bb6502_verilog.Common.{
  ℕ, ◌+◌, ◌-◌, ◌≤◌, ◌<◌, ◌≡◌, refl, ◌⊎◌, inl, inr, ◌&&◌, List, [], ◌∷◌, ltb, leb, ◌==◌, get_or,
  length, All, All-append, All-set, All-replicate, All-get_or_lt, length-set, length-replicate,
  length-append, Bool-cases, if-elim, arith, ◌∙◌,
}
use bb6502_verilog.Gpu.Screen.{
  Screen, cols, rows, blank_row, blank, cleared, put_cell, scroll_up, scroll_if_needed, put_branch,
  put_char, put_chars,
}

-- What a cell can hold: 0 until it is written, then a printable character.
abbrev pub IsCell : ℕ → Type 0
IsCell c = (c ≡ 0) ⊎ ((32 ≤ c) × (c < 127))

abbrev pub IsRow : List ℕ → Type 0
IsRow r = (length r ≡ cols) × All IsCell r

pub record IsScreen (s : Screen) : Type 0 where
  pub height : length s.cells ≡ rows
  pub lines : All IsRow s.cells
  pub row_in : s.cur_row < rows
  pub col_in : s.cur_col < cols

-- Between the branches and the scroll the cursor may stand one row below the screen.
record IsOpen (s : Screen) : Type 0 where
  height : length s.cells ≡ rows
  lines : All IsRow s.cells
  row_in : s.cur_row ≤ rows
  col_in : s.cur_col < cols

pub blank_row-IsRow : IsRow blank_row
unfolding blank_row
blank_row-IsRow = (length-replicate {A = ℕ} 80 0, All-replicate IsCell 80 {a = 0} (inl refl))

length-blank : length blank ≡ rows
unfolding blank
length-blank = length-replicate 25 blank_row

blank-lines : All IsRow blank
unfolding blank
blank-lines = All-replicate IsRow 25 {a = blank_row} blank_row-IsRow

pub cleared-IsScreen : IsScreen cleared
cleared-IsScreen = record {
  height = length-blank;
  lines = blank-lines;
  row_in = omega arith;
  col_in = omega arith;
}

pub length-put_cell :
    (r c v : ℕ) (cells : List (List ℕ)) → length (put_cell r c v cells) ≡ length cells
unfolding put_cell
length-put_cell r c v cells = length-set cells r _

put_cell-lines :
    (r c v : ℕ) (cells : List (List ℕ))
    → All IsRow cells
    → r < length cells
    → IsCell v
    → All IsRow (put_cell r c v cells)
unfolding put_cell
put_cell-lines r c v cells h p q =
    let old = All-get_or_lt IsRow cells r [] h p in
    All-set IsRow cells r h
      (length-set (get_or cells r []) c v ∙ old.0, All-set IsCell (get_or cells r []) c old.1 q)

length-scroll_up : (cells : List (List ℕ)) → length (scroll_up cells) ≡ length cells
unfolding scroll_up
length-scroll_up [] = refl
length-scroll_up (x ∷ xs) = omega (arith, length-append xs (blank_row ∷ []))

scroll_up-lines : (cells : List (List ℕ)) → All IsRow cells → All IsRow (scroll_up cells)
unfolding scroll_up
scroll_up-lines [] h = tt
scroll_up-lines (x ∷ xs) h = All-append IsRow xs (blank_row ∷ []) h.1 (blank_row-IsRow, tt)

scroll_if_needed-IsScreen : (s : Screen) → IsOpen s → IsScreen (scroll_if_needed s)
unfolding scroll_if_needed
scroll_if_needed-IsScreen s h = elim (Bool-cases (leb rows s.cur_row)) [
  | inl low ↦ rw low (record {
    height = length-scroll_up s.cells ∙ h.height;
    lines = scroll_up-lines s.cells h.lines;
    row_in = omega arith;
    col_in = h.col_in;
  })
  | inr fits ↦
      rw fits
        (record { height = h.height; lines = h.lines; row_in = ground arith; col_in = h.col_in })
]

IsScreen-IsOpen : {s : Screen} → IsScreen s → IsOpen s
IsScreen-IsOpen h = record {
  height = h.height;
  lines = h.lines;
  row_in = omega arith;
  col_in = h.col_in;
}

put_branch-IsOpen : (c : ℕ) (s : Screen) → IsScreen s → IsOpen (put_branch c s)
unfolding put_branch
put_branch-IsOpen c s h =
    let here : s.cur_row < length s.cells = omega (arith, h.height) in
    let same = IsScreen-IsOpen h in
    let wrote = λ (k v : ℕ) (q : IsCell v). put_cell-lines s.cur_row k v s.cells h.lines here q in
    let tall = λ (k v : ℕ). length-put_cell s.cur_row k v s.cells ∙ h.height in
    if-elim IsOpen (c == b'\n')
      (λ _. record {
        height = h.height;
        lines = h.lines;
        row_in = omega arith;
        col_in = omega arith;
      })
      λ _.
        if-elim IsOpen (c == b'\r')
          (λ _. record {
            height = h.height;
            lines = h.lines;
            row_in = omega arith;
            col_in = omega arith;
          })
          λ _.
            if-elim IsOpen (c == 8)
              (λ _.
                if-elim IsOpen (ltb 0 s.cur_col)
                  (λ e. record {
                    height = tall (s.cur_col - 1) b' ';
                    lines = wrote (s.cur_col - 1) b' ' (omega arith);
                    row_in = omega arith;
                    col_in = omega arith;
                  })
                  (λ _. same))
              λ _.
                if-elim IsOpen (c == 12) (λ _. IsScreen-IsOpen cleared-IsScreen)
                  λ _.
                    if-elim IsOpen (leb b' ' c && ltb c 127)
                      (λ e.
                        let shown : IsCell c = ground arith in
                        if-elim IsOpen (leb cols (s.cur_col + 1))
                          (λ _. record {
                            height = tall s.cur_col c;
                            lines = wrote s.cur_col c shown;
                            row_in = omega arith;
                            col_in = omega arith;
                          })
                          (λ f. record {
                            height = tall s.cur_col c;
                            lines = wrote s.cur_col c shown;
                            row_in = omega arith;
                            col_in = ground arith;
                          }))
                      (λ _. same)

-- Whatever byte arrives, put_char keeps the screen well formed: 25 rows of 80 cells, each blank or
-- printable, and the cursor on the screen.
pub put_char-IsScreen : (c : ℕ) (s : Screen) → IsScreen s → IsScreen (put_char c s)
unfolding put_char
put_char-IsScreen c s h = scroll_if_needed-IsScreen (put_branch c s) (put_branch-IsOpen c s h)

-- After any run of bytes from the stream, starting on a screen that is well formed, the screen is
-- well formed: 25 rows of 80 cells, each 0 or printable, and the cursor on the screen.
pub put_chars-IsScreen : (cs : List ℕ) (s : Screen) → IsScreen s → IsScreen (put_chars cs s)
unfolding put_chars
put_chars-IsScreen [] s h = h
put_chars-IsScreen (c ∷ cs) s h = put_chars-IsScreen cs (put_char c s) (put_char-IsScreen c s h)
