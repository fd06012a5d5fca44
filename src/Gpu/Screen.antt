-- ===== src/Gpu/Screen.antt =====
-- tools/gpu.c: the text screen that `put_char` writes and `scroll_if_needed` scrolls.
use bb6502_verilog.Common.{
  ℕ, ◌+◌, ◌-◌, ◌&&◌, List, [], ◌∷◌, ◌++◌, ltb, leb, ◌==◌, if◌then◌else◌, get_or, set, replicate,
}

abbrev pub cols : ℕ
cols = 80

abbrev pub rows : ℕ
rows = 25

-- The statics of gpu.c: `screen[ROWS][COLS]`, row by row, and the cursor.
pub record Screen : Type 0 where
  pub cells : List (List ℕ)
  pub cur_row : ℕ
  pub cur_col : ℕ

unfoldable pub blank_row : List ℕ
blank_row = replicate cols 0

-- `memset(screen, 0, sizeof(screen))`
unfoldable pub blank : List (List ℕ)
unfolding blank_row
blank = replicate rows blank_row

abbrev pub cleared : Screen
cleared = record { cells = blank; cur_row = 0; cur_col = 0 }

-- `screen[r][c] = v`
unfoldable pub put_cell : ℕ → ℕ → ℕ → List (List ℕ) → List (List ℕ)
put_cell r c v cells = set cells r (set (get_or cells r []) c v)

-- The `memmove` of rows 1 .. ROWS-1 to row 0 on, and the `memset` of the last row.
unfoldable pub scroll_up : List (List ℕ) → List (List ℕ)
scroll_up [] = []
scroll_up (first ∷ rest) = rest ++ (blank_row ∷ [])

unfoldable pub scroll_if_needed : Screen → Screen
scroll_if_needed s =
    if leb rows s.cur_row then record s { cells = scroll_up s.cells; cur_row = rows - 1 } else s

-- The branches of `put_char` above its call of `scroll_if_needed`. A `char` is a byte here: those
-- from 128 on are negative where `char` is signed, and fail `c < 127` where it is not.
unfoldable pub put_branch : ℕ → Screen → Screen
unfolding put_cell
put_branch c s =
    if c == b'\n'
    then record s { cur_row = s.cur_row + 1; cur_col = 0 }
    else if c == b'\r'
    then record s { cur_col = 0 }
    else if c == 8
    then (if ltb 0 s.cur_col
        then record s {
          cells = put_cell s.cur_row (s.cur_col - 1) b' ' s.cells;
          cur_col = s.cur_col - 1;
        }
        else s)
    else if c == 12
    then cleared
    else if leb b' ' c && ltb c 127
    then (let cells' = put_cell s.cur_row s.cur_col c s.cells in
        if leb cols (s.cur_col + 1)
        then record s { cells = cells'; cur_row = s.cur_row + 1; cur_col = 0 }
        else record s { cells = cells'; cur_col = s.cur_col + 1 })
    else s

unfoldable pub put_char : ℕ → Screen → Screen
unfolding put_branch scroll_if_needed
put_char c s = scroll_if_needed (put_branch c s)

-- `for (i = 0; i < n; i++) put_char(buf[i])`
unfoldable pub put_chars : List ℕ → Screen → Screen
unfolding put_char
put_chars [] s = s
put_chars (c ∷ cs) s = put_chars cs (put_char c s)
