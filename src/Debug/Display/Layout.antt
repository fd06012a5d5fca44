-- ===== src/Debug/Display/Layout.antt =====
-- Where the three panes of the debugger lie on the terminal.
use bb6502_verilog.Common.{ℕ, ◌+◌, ◌-◌, ◌/◌, ◌%◌, ◌≤◌, ◌≡◌, refl, ◌∙◌, ap, ◌⊎◌, inl, inr, arith}
use bb6502_verilog.Common.Int.{ℤ, pos, ◌+ℤ◌, ◌-ℤ◌, ◌≤ℤ◌}
use bb6502_verilog.Debug.Display.{Rect, Pane, Panes, make_pane, layout}

-- Behind the last row and the last column.
abbrev pub bottom : Rect → ℤ
bottom r = r.begin_y +ℤ r.nlines

abbrev pub right : Rect → ℤ
right r = r.begin_x +ℤ r.ncols

-- All of a window is on a screen of `lines` by `columns`.
pub record IsOn (lines columns : ℕ) (r : Rect) : Type 0 where
  pub top_on : pos 0 ≤ℤ r.begin_y
  pub left_on : pos 0 ≤ℤ r.begin_x
  pub bottom_on : bottom r ≤ℤ pos lines
  pub right_on : right r ≤ℤ pos columns

-- One window ends above the other, or left of it.
abbrev pub Apart : Rect → Rect → Type 0
Apart r s = (bottom r ≤ℤ s.begin_y) ⊎ (right r ≤ℤ s.begin_x)

-- The text of a pane has a cell at least, and lies inside its frame with a border of one cell.
pub record IsFramed (p : Pane) : Type 0 where
  pub has_line : pos 1 ≤ℤ p.win.nlines
  pub has_column : pos 1 ≤ℤ p.win.ncols
  pub below_top : p.winbg.begin_y +ℤ pos 1 ≡ p.win.begin_y
  pub behind_left : p.winbg.begin_x +ℤ pos 1 ≡ p.win.begin_x
  pub above_bottom : bottom p.win +ℤ pos 1 ≡ bottom p.winbg
  pub before_right : right p.win +ℤ pos 1 ≡ right p.winbg

pub record IsLayout (lines columns : ℕ) (p : Panes) : Type 0 where
  pub dbg_framed : IsFramed p.dbg_win
  pub term_framed : IsFramed p.term_win
  pub src_framed : IsFramed p.src_win
  pub dbg_on : IsOn lines columns p.dbg_win.winbg
  pub term_on : IsOn lines columns p.term_win.winbg
  pub src_on : IsOn lines (columns + columns % 2) p.src_win.winbg
  pub src_edge : right p.src_win.winbg ≡ pos (columns + columns % 2)
  pub term_above : Apart p.term_win.winbg p.dbg_win.winbg
  pub src_above : Apart p.src_win.winbg p.dbg_win.winbg
  pub term_beside : Apart p.term_win.winbg p.src_win.winbg

-- The windows of a pane whose dimensions are no integers below 0.
abbrev placed : (winw winh winx winy : ℕ) → Pane
placed w h x y = record {
  win = record { nlines = pos h; ncols = pos w; begin_y = pos y; begin_x = pos x };
  winbg = record {
    nlines = pos (h + 2);
    ncols = pos (w + 2);
    begin_y = pos (y - 1);
    begin_x = pos (x - 1);
  };
  winw = pos w;
  winh = pos h;
  winx = pos x;
  winy = pos y;
}

plus_lem : (a b : ℕ) → pos a +ℤ pos b ≡ pos (a + b)
unfolding ◌+ℤ◌
plus_lem a b = ground arith

minus_lem : (a b : ℕ) → b ≤ a → pos a -ℤ pos b ≡ pos (a - b)
unfolding ◌-ℤ◌
minus_lem a b h = ground arith

placed_lem :
    (w h x y : ℕ) → 1 ≤ x → 1 ≤ y → make_pane (pos w) (pos h) (pos x) (pos y) ≡ placed w h x y
unfolding make_pane
placed_lem w h x y p q = rw (plus_lem h 2, plus_lem w 2, minus_lem y 1 q, minus_lem x 1 p) refl

placed-IsFramed : (w h x y : ℕ) → 1 ≤ w → 1 ≤ h → 1 ≤ x → 1 ≤ y → IsFramed (placed w h x y)
unfolding ◌+ℤ◌
placed-IsFramed w h x y p q r s = record {
  has_line = omega arith;
  has_column = omega arith;
  below_top = ground arith;
  behind_left = ground arith;
  above_bottom = ground arith;
  before_right = ground arith;
}

-- The layout in numbers.
layout_lem :
    (lines columns : ℕ)
    → 7 ≤ lines
    → 5 ≤ columns
    → layout lines columns ≡ record {
      dbg_win = placed (columns - 2) (lines - lines / 2 - 3) 1 (lines / 2 + 2);
      term_win = placed (columns - columns / 2 - 2) (lines - lines / 2 - 2) 1 1;
      src_win =
          placed (columns - columns / 2 - 2) (lines - lines / 2 - 2) (columns - columns / 2 + 1) 1;
    }
unfolding layout
layout_lem lines columns tall wide =
    let half_w : 1 + (columns - columns / 2 - 2) + 2 ≡ columns - columns / 2 + 1 = omega arith in
    rw
      (
        minus_lem columns (columns / 2) (omega arith),
        minus_lem (columns - columns / 2) 2 (omega arith),
        minus_lem lines (lines / 2) (omega arith),
        minus_lem (lines - lines / 2) 2 (omega arith),
        minus_lem (lines - lines / 2) 3 (omega arith),
        minus_lem columns 2 (omega arith),
        plus_lem 1 (columns - columns / 2 - 2),
        plus_lem (1 + (columns - columns / 2 - 2)) 2,
        plus_lem (lines / 2) 2,
        half_w,
        placed_lem (columns - 2) (lines - lines / 2 - 3) 1 (lines / 2 + 2) (omega arith)
            (omega arith),
        placed_lem (columns - columns / 2 - 2) (lines - lines / 2 - 2) 1 1 (omega arith)
            (omega arith),
        placed_lem (columns - columns / 2 - 2) (lines - lines / 2 - 2) (columns - columns / 2 + 1) 1
            (omega arith) (omega arith),
      )
      refl

placed-IsOn :
    (lines columns w h x y : ℕ)
    → 1 ≤ x
    → 1 ≤ y
    → y + h + 1 ≤ lines
    → x + w + 1 ≤ columns
    → IsOn lines columns (placed w h x y).winbg
unfolding ◌+ℤ◌
placed-IsOn lines columns w h x y p q r s = record {
  top_on = omega arith;
  left_on = omega arith;
  bottom_on = ground arith;
  right_on = ground arith;
}

right_lem : (w h x y : ℕ) → 1 ≤ x → right (placed w h x y).winbg ≡ pos (x + w + 1)
right_lem w h x y p = plus_lem (x - 1) (w + 2) ∙ ap pos (omega arith)

bottom_lem : (w h x y : ℕ) → 1 ≤ y → bottom (placed w h x y).winbg ≡ pos (y + h + 1)
bottom_lem w h x y p = plus_lem (y - 1) (h + 2) ∙ ap pos (omega arith)

-- On a terminal of 7 lines and 5 columns at least, each of the three panes has a cell at least inside
-- its frame, and no two frames overlap; the frames of the debugger console and of the terminal pane
-- are on the screen, and so is that of the source pane, but for one column behind the last one if the
-- number of columns is odd.
pub layout-IsLayout :
    (lines columns : ℕ) → 7 ≤ lines → 5 ≤ columns → IsLayout lines columns (layout lines columns)
layout-IsLayout lines columns tall wide =
    let half_w = columns - columns / 2 - 2 in
    let half_h = lines - lines / 2 - 2 in
    let src_x = columns - columns / 2 + 1 in
    rw (layout_lem lines columns tall wide) (record {
      dbg_framed =
          placed-IsFramed (columns - 2) (lines - lines / 2 - 3) 1 (lines / 2 + 2) (omega arith)
            (omega arith) (omega arith) (omega arith);
      term_framed =
          placed-IsFramed half_w half_h 1 1 (omega arith) (omega arith) (omega arith) (omega arith);
      src_framed =
          placed-IsFramed half_w half_h src_x 1 (omega arith) (omega arith) (omega arith)
            (omega arith);
      dbg_on =
          placed-IsOn lines columns (columns - 2) (lines - lines / 2 - 3) 1 (lines / 2 + 2)
            (omega arith) (omega arith) (omega arith) (omega arith);
      term_on =
          placed-IsOn lines columns half_w half_h 1 1 (omega arith) (omega arith) (omega arith)
            (omega arith);
      src_on =
          placed-IsOn lines (columns + columns % 2) half_w half_h src_x 1 (omega arith)
            (omega arith) (omega arith) (omega arith);
      src_edge = right_lem half_w half_h src_x 1 (omega arith) ∙ ap pos (omega arith);
      term_above = inl (rw (bottom_lem half_w half_h 1 1 (omega arith)) (omega arith));
      src_above = inl (rw (bottom_lem half_w half_h src_x 1 (omega arith)) (omega arith));
      term_beside = inr (rw (right_lem half_w half_h 1 1 (omega arith)) (omega arith));
    })
