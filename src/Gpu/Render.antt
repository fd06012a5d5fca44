-- ===== src/Gpu/Render.antt =====
-- tools/gpu.c: render, as the calls of SDL that draw, in order, and the start of main. What SDL_ttf
-- makes of a text is an argument.
pub mod Drawn
pub mod Exit
use bb6502_verilog.Common.{
  ℕ, ◌+◌, ◌*◌, Bool, not, Option, none, some, List, [], ◌∷◌, ◌++◌, length, ltb, get_or, ◌==◌,
  if◌then◌else◌,
}
use bb6502_verilog.Clib.Chars.{text}
use bb6502_verilog.Gpu.Screen.{Screen, cols, rows}
use bb6502_verilog.Gpu.Monitor.{Keycodes, Round, monitor_loop, powered}

abbrev pub cell_w : ℕ
cell_w = 10

abbrev pub cell_h : ℕ
cell_h = 18

abbrev pub win_w : ℕ
win_w = cols * cell_w

abbrev pub win_h : ℕ
win_h = rows * cell_h

-- The calls that draw: the colour, the clearing of the window, a text copied to a rectangle of it, a
-- rectangle filled, and the display of what was drawn.
pub data Call : Type 0 where
  set_color : (r g b a : ℕ) → Call
  render_clear : Call
  copy_text : (line : List ℕ) → (x y w h : ℕ) → Call
  fill_rect : (x y w h : ℕ) → Call
  render_present : Call

-- The inner loop, which makes `line`: a cell not yet written shows as a space.
unfoldable pub line_of : List ℕ → List ℕ
line_of [] = []
line_of (c ∷ cs) = (if c == 0 then b' ' else c) ∷ line_of cs

-- What the body of the loop over the rows draws, for the size of the text's surface, `none` when
-- TTF_RenderText_Solid fails.
unfoldable pub draw_row : (measure : List ℕ → Option (ℕ × ℕ)) → (row : ℕ) → List ℕ → List Call
draw_row measure row cells = elim (measure (line_of cells)) [
  | none ↦ []
  | some (w, h) ↦ copy_text (line_of cells) 0 (row * cell_h) w h ∷ []
]

-- The loop over the rows, from `row` on.
unfoldable pub draw_rows :
    (measure : List ℕ → Option (ℕ × ℕ)) → (row : ℕ) → List (List ℕ) → List Call
draw_rows measure row [] = []
draw_rows measure row (cells ∷ rest) =
    draw_row measure row cells ++ draw_rows measure (row + 1) rest

-- render
unfoldable pub render : (measure : List ℕ → Option (ℕ × ℕ)) → Screen → List Call
render measure s =
    set_color 0 0 0 255
    ∷ (render_clear
        ∷ (draw_rows measure 0 s.cells
            ++ (set_color 100 200 100 180
                ∷ (fill_rect (s.cur_col * cell_w) (s.cur_row * cell_h) cell_w cell_h
                    ∷ (render_present ∷ [])))))

-- What the libraries and the system give at the start of main: whether a step succeeds, and the text
-- of its error.
pub record Setup : Type 0 where
  pub sdl_init : Bool
  pub sdl_error : List ℕ
  pub ttf_init : Bool
  pub ttf_error : List ℕ
  pub opens_font : List ℕ → Bool
  pub opens_gpu : Bool
  pub opens_in : Bool
  pub strerror : List ℕ

-- `font_path`
unfoldable pub font_path : (argv : List (List ℕ)) → List ℕ
unfolding text
font_path argv =
    if ltb 1 (length argv) then get_or argv 1 [] else text "/System/Library/Fonts/Menlo.ttc"

-- The steps of main above its loop: none if all succeed, or what it writes to stderr before it
-- returns 1.
unfoldable pub setup_error : Setup → (argv : List (List ℕ)) → Option (List ℕ)
unfolding text
setup_error u argv =
    if not u.sdl_init
    then some (text "SDL_Init: " ++ (u.sdl_error ++ text "\n"))
    else if not u.ttf_init
    then some (text "TTF_Init: " ++ (u.ttf_error ++ text "\n"))
    else if not (u.opens_font (font_path argv))
    then some
        (text "TTF_OpenFont(" ++ (font_path argv ++ (text "): " ++ (u.ttf_error ++ text "\n"))))
    else if not u.opens_gpu
    then some (text "open /tmp/bb6502_gpu: " ++ (u.strerror ++ text "\n"))
    else if not u.opens_in
    then some (text "open /tmp/bb6502_in: " ++ (u.strerror ++ text "\n"))
    else none

-- main over the rounds of its loop: its result and what it writes to stderr, `none` while it runs.
unfoldable pub gpu_main :
    Keycodes → Setup → (argv : List (List ℕ)) → List Round → Option (ℕ × List ℕ)
gpu_main codes u argv rounds = elim (setup_error u argv) [
  | some message ↦ some (1, message)
  | none ↦ (if (monitor_loop codes rounds powered).is_running then none else some (0, []))
]
