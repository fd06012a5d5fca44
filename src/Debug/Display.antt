-- ===== src/Debug/Display.antt =====
-- rtl/dbg/debugger.c: dbgInitDisplay, with its window_t of debugger.h, and dbgCleanup. What fopen,
-- newterm and getmaxyx give is an argument; ncurses itself is the list of the windows asked of it.
pub mod Layout
pub mod Released
use bb6502_verilog.Common.{
  ℕ, ◌+◌, ◌-◌, ◌/◌, Bool, true, false, not, ◌||◌, none, some, List, [], ◌∷◌, ◌++◌, if◌then◌else◌,
}
use bb6502_verilog.Common.Int.{ℤ, pos, ◌+ℤ◌, ◌-ℤ◌}
use bb6502_verilog.Clib.Chars.{text}
use bb6502_verilog.Debug.State.{Debugger, Breakpoint}

-- The arguments of newwin.
pub record Rect : Type 0 where
  pub nlines : ℤ
  pub ncols : ℤ
  pub begin_y : ℤ
  pub begin_x : ℤ

-- window_t: the windows `win` and `winbg` as they are asked for, and the dimensions. `wincx` and
-- `wincy` are not used.
pub record Pane : Type 0 where
  pub win : Rect
  pub winbg : Rect
  pub winw : ℤ
  pub winh : ℤ
  pub winx : ℤ
  pub winy : ℤ

-- dbgDbgWin, dbgTermWin and dbgSrcWin.
pub record Panes : Type 0 where
  pub dbg_win : Pane
  pub term_win : Pane
  pub src_win : Pane

-- The two calls of newwin with which a pane is made from its dimensions.
unfoldable pub make_pane : (winw winh winx winy : ℤ) → Pane
unfolding ◌+ℤ◌ ◌-ℤ◌
make_pane winw winh winx winy = record {
  win = record { nlines = winh; ncols = winw; begin_y = winy; begin_x = winx };
  winbg = record {
    nlines = winh +ℤ pos 2;
    ncols = winw +ℤ pos 2;
    begin_y = winy -ℤ pos 1;
    begin_x = winx -ℤ pos 1;
  };
  winw = winw;
  winh = winh;
  winx = winx;
  winy = winy;
}

-- The layout on a terminal of `lines` by `columns`.
unfoldable pub layout : (lines columns : ℕ) → Panes
unfolding make_pane ◌+ℤ◌ ◌-ℤ◌
layout lines columns =
    let half_w = pos columns -ℤ pos (columns / 2) -ℤ pos 2 in
    let half_h = pos lines -ℤ pos (lines / 2) -ℤ pos 2 in
    record {
      dbg_win =
          make_pane (pos columns -ℤ pos 2) (pos lines -ℤ pos (lines / 2) -ℤ pos 3) (pos 1)
            (pos (lines / 2) +ℤ pos 2);
      term_win = make_pane half_w half_h (pos 1) (pos 1);
      src_win = make_pane half_w half_h (pos 1 +ℤ half_w +ℤ pos 2) (pos 1);
    }

-- What the system gives: whether /dev/tty opens for writing and for reading, the text of errno,
-- whether newterm succeeds, and the size of the screen.
pub record Tty : Type 0 where
  pub out_opens : Bool
  pub in_opens : Bool
  pub strerror : List ℕ
  pub newterm_starts : Bool
  pub lines : ℕ
  pub columns : ℕ

-- dbgInitDisplay: its panes, or false with what it says on stderr.
pub data Display : Type 0 where
  drawn : Panes → Display
  refused : List ℕ → Display

unfoldable pub init_display : Tty → Display
unfolding text layout
init_display t =
    if not t.out_opens || not t.in_opens
    then refused (text "bbdbg: cannot open /dev/tty: " ++ (t.strerror ++ text "\n"))
    else if not t.newterm_starts
    then refused (text "bbdbg: newterm failed (is TERM set?)\n")
    else drawn (layout t.lines t.columns)

-- The Boolean result of dbgInitDisplay.
unfoldable pub display_ready : Display → Bool
display_ready (drawn p) = true
display_ready (refused e) = false

-- What dbgCleanup gives back.
pub data Release : Type 0 where
  free_symbol : (bp : ℕ) → Release
  free_bps : Release
  free_symbols : Release
  end_curses : Release
  close_tty_in : Release
  close_tty_out : Release
  close_rx : Release

-- The loop over the breakpoints, from number i on.
unfoldable pub free_bp_symbols : ℕ → List Breakpoint → List Release
free_bp_symbols i [] = []
free_bp_symbols i (b ∷ bs) = elim b.symbol [
  | none ↦ free_bp_symbols (i + 1) bs
  | some s ↦ free_symbol i ∷ free_bp_symbols (i + 1) bs
]

-- dbgCleanup; `rx_open` says whether the file of keys has been opened.
unfoldable pub cleanup : (rx_open : Bool) → Debugger → List Release × Debugger
cleanup rx_open d = if not d.initialised then ([], d) else (
  free_bp_symbols 0 d.bps
      ++ (free_bps
          ∷ (free_symbols
              ∷ (end_curses
                  ∷ (close_tty_in ∷ (close_tty_out ∷ (if rx_open then close_rx ∷ [] else [])))))),
  record d { initialised = false },
)
