-- ===== src/Gpu/Render/Drawn.antt =====
-- What render draws of a well-formed screen.
use bb6502_verilog.Common.{
  ℕ, zero, suc, ◌+◌, ◌*◌, ◌≤◌, ◌<◌, ◌≡◌, refl, ◌∙◌, ap, ◌⊎◌, inl, inr, Option, none, some, List, [],
  ◌∷◌, ◌++◌, length, get_or, All, ◌==◌, if◌then◌else◌, All-append, arith,
}
use bb6502_verilog.Gpu.Screen.{Screen, cols, rows}
use bb6502_verilog.Gpu.Bounds.{IsCell, IsRow, IsScreen}
use bb6502_verilog.Gpu.Render.{
  Call, set_color, render_clear, copy_text, fill_rect, render_present, cell_h, win_w, win_h,
  line_of, draw_row, draw_rows, render,
}

-- A character that can be drawn; so a text of them holds no NUL, at which it would end.
abbrev pub IsPrintable : ℕ → Type 0
IsPrintable c = (32 ≤ c) × (c < 127)

-- What a cell shows: a space until it is written.
abbrev pub shows : ℕ → ℕ
shows c = if c == 0 then 32 else c

-- A call on a screen draws inside the window: a text is 80 printable characters, those that the cells
-- of its row show, at the top of that row.
abbrev pub Fits : Screen → Call → Type 0
Fits s (copy_text line x y w h) =
    (row : ℕ) × (row < rows)
    × (x ≡ 0)
    × (y ≡ row * cell_h)
    × (length line ≡ cols)
    × All IsPrintable line
    × ((i : ℕ) → i < cols → get_or line i 0 ≡ shows (get_or (get_or s.cells row []) i 0))
Fits s (fill_rect x y w h) = (x + w ≤ win_w) × (y + h ≤ win_h)
Fits s (set_color r g b a) = (r < 256) × (g < 256) × (b < 256) × (a < 256)
Fits s render_clear = Unit
Fits s render_present = Unit

length-line_of : (cs : List ℕ) → length (line_of cs) ≡ length cs
unfolding line_of
length-line_of [] = refl
length-line_of (c ∷ cs) = ap suc (length-line_of cs)

line_of-IsPrintable : (cs : List ℕ) → All IsCell cs → All IsPrintable (line_of cs)
unfolding line_of
line_of-IsPrintable [] h = tt
line_of-IsPrintable (c ∷ cs) (cell, rest) = (ground arith, line_of-IsPrintable cs rest)

line_of-shows :
    (cs : List ℕ) (i : ℕ) → i < length cs → get_or (line_of cs) i 0 ≡ shows (get_or cs i 0)
unfolding line_of
line_of-shows [] i h = absurd (omega arith)
line_of-shows (c ∷ cs) zero h = refl
line_of-shows (c ∷ cs) (suc i) h = line_of-shows cs i (omega arith)

-- The rows of the screen from `row` on are `rest`.
abbrev FromRow : Screen → ℕ → List (List ℕ) → Type 0
FromRow s row rest = (i : ℕ) → i < length rest → get_or s.cells (row + i) [] ≡ get_or rest i []

draw_row-Fits :
    (measure : List ℕ → Option (ℕ × ℕ)) (s : Screen) (row : ℕ) (cells : List ℕ)
    → row < rows
    → IsRow cells
    → get_or s.cells row [] ≡ cells
    → All (Fits s) (draw_row measure row cells)
unfolding draw_row
draw_row-Fits measure s row cells h (wide, good) here =
    elim (measure (line_of cells))
      as (λ o. All (Fits s) (elim o [
        | none ↦ []
        | some (w, h) ↦ copy_text (line_of cells) 0 (row * cell_h) w h ∷ []
      ])) [
        | none ↦ tt
        | some (w, t) ↦ (
          (
            row,
            h,
            refl,
            refl,
            length-line_of cells ∙ wide,
            line_of-IsPrintable cells good,
            λ i small. rw here (line_of-shows cells i (rw wide small)),
          ),
          tt,
        )
      ]

draw_rows-Fits :
    (measure : List ℕ → Option (ℕ × ℕ)) (s : Screen) (row : ℕ) (rest : List (List ℕ))
    → row + length rest ≤ rows
    → All IsRow rest
    → FromRow s row rest
    → All (Fits s) (draw_rows measure row rest)
unfolding draw_rows
draw_rows-Fits measure s row [] h good from = tt
draw_rows-Fits measure s row (cells ∷ rest) h (first, others) from =
    let here : get_or s.cells row [] ≡ cells =
      let same : row + 0 ≡ row = omega arith in rw same at (from 0 (omega arith)) in
    All-append (Fits s) (draw_row measure row cells) (draw_rows measure (row + 1) rest)
      (draw_row-Fits measure s row cells (omega arith) first here)
      (draw_rows-Fits measure s (row + 1) rest (omega arith) others λ i small.
        let next : row + 1 + i ≡ row + suc i = omega arith in rw next (from (suc i) (omega arith)))

render-Fits :
    (measure : List ℕ → Option (ℕ × ℕ)) (s : Screen) → IsScreen s → All (Fits s) (render measure s)
unfolding render
render-Fits measure s good =
    let from : FromRow s 0 s.cells =
      λ i small. let same : 0 + i ≡ i = omega arith in rw same refl in
    (
      omega arith,
      (
        tt,
        All-append (Fits s) (draw_rows measure 0 s.cells) _
            (draw_rows-Fits measure s 0 s.cells (omega (arith, good.height)) good.lines from)
            (omega arith, ((omega (arith, good.row_in), omega (arith, good.col_in)), (tt, tt))),
      ),
    )

-- A call is among those of a list.
abbrev pub Occurs : Call → List Call → Type 0
Occurs c [] = ⊥
Occurs c (d ∷ ds) = (d ≡ c) ⊎ Occurs c ds

Occurs-left : (c : Call) (cs ds : List Call) → Occurs c cs → Occurs c (cs ++ ds)
Occurs-left c [] ds h = absurd h
Occurs-left c (x ∷ cs) ds (inl e) = inl e
Occurs-left c (x ∷ cs) ds (inr h) = inr (Occurs-left c cs ds h)

Occurs-right : (c : Call) (cs ds : List Call) → Occurs c ds → Occurs c (cs ++ ds)
Occurs-right c [] ds h = h
Occurs-right c (x ∷ cs) ds h = inr (Occurs-right c cs ds h)

draw_row-copies :
    (measure : List ℕ → Option (ℕ × ℕ)) (row : ℕ) (cells : List ℕ) (w t : ℕ)
    → measure (line_of cells) ≡ some (w, t)
    → Occurs (copy_text (line_of cells) 0 (row * cell_h) w t) (draw_row measure row cells)
unfolding draw_row
draw_row-copies measure row cells w t size = rw (draw_row, size) (inl refl)

draw_rows-copies :
    (measure : List ℕ → Option (ℕ × ℕ)) (row i : ℕ) (cells : List (List ℕ)) (w t : ℕ)
    → i < length cells
    → measure (line_of (get_or cells i [])) ≡ some (w, t)
    → Occurs
        (copy_text (line_of (get_or cells i [])) 0 ((row + i) * cell_h) w t)
        (draw_rows measure row cells)
unfolding draw_rows
draw_rows-copies measure row i [] w t h size = absurd (omega arith)
draw_rows-copies measure row zero (first ∷ rest) w t h size =
    let same : row + 0 ≡ row = omega arith in
    rw same (
      Occurs-left _ (draw_row measure row first) (draw_rows measure (row + 1) rest)
        (draw_row-copies measure row first w t size))
draw_rows-copies measure row (suc i) (first ∷ rest) w t h size =
    let next : row + 1 + i ≡ row + suc i = omega arith in
    Occurs-right _ (draw_row measure row first) (draw_rows measure (row + 1) rest)
      (rw next at (draw_rows-copies measure (row + 1) i rest w t (omega arith) size))

-- Of a well-formed screen render draws each row whose text SDL_ttf renders, and no text but 80
-- printable characters at the top of a row, which the cells of that row show, a blank cell as a
-- space; and the cursor's rectangle lies inside the window.
pub render-draws :
    (measure : List ℕ → Option (ℕ × ℕ)) (s : Screen)
    → IsScreen s
    → All (Fits s) (render measure s)
      × ((row w t : ℕ)
          → row < rows
          → measure (line_of (get_or s.cells row [])) ≡ some (w, t)
          → Occurs
              (copy_text (line_of (get_or s.cells row [])) 0 (row * cell_h) w t)
              (render measure s))
unfolding render
render-draws measure s good = (
  render-Fits measure s good,
  λ row w t h size.
      let first : 0 + row ≡ row = omega arith in
      let drawn = draw_rows-copies measure 0 row s.cells w t (rw good.height h) size in
      inr (inr (Occurs-left _ (draw_rows measure 0 s.cells) _ (rw first at drawn))),
)
