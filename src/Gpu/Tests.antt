-- ===== src/Gpu/Tests.antt =====
-- The theorems of the screen at small screens and texts, and runs of put_char.
use bb6502_verilog.Common.{
  ℕ, ◌*◌, ◌⊎◌, Option, some, All, ◌<◌, ◌≡◌, refl, List, [], ◌∷◌, true, false, get_or, arith,
}
use bb6502_verilog.Clib.Chars.{text}
use bb6502_verilog.Gpu.Screen.{Screen, rows, blank, cleared, put_chars}
use bb6502_verilog.Gpu.Bounds.{IsScreen, cleared-IsScreen, put_chars-IsScreen}
use bb6502_verilog.Gpu.Monitor.{
  Keycodes, quit, text_input, key_down, Round, monitor_loop, monitor_round, handle_events,
  handle_event, send_text, send_byte, key_char, powered,
}
use bb6502_verilog.Gpu.Sending.{IsMonitor, monitor_loop-IsMonitor}
use bb6502_verilog.Gpu.Text.{Shows, put_chars-Shows}
use bb6502_verilog.Gpu.Render.{copy_text, cell_h, line_of, render, Setup, gpu_main}
use bb6502_verilog.Gpu.Render.Drawn.{Fits, Occurs, render-draws}
use bb6502_verilog.Gpu.Render.Exit.{gpu_main-returns}

-- The last row, in its middle.
abbrev low_screen : Screen
low_screen = record { cells = blank; cur_row = 24; cur_col = 40 }

low_screen-IsScreen : IsScreen low_screen
low_screen-IsScreen = record {
  height = cleared-IsScreen.height;
  lines = cleared-IsScreen.lines;
  row_in = omega arith;
  col_in = omega arith;
}

put_chars-Shows_example : Shows (text "OK") low_screen (put_chars (text "OK") low_screen)
unfolding text
put_chars-Shows_example =
    put_chars-Shows (text "OK") low_screen low_screen-IsScreen
      ((omega arith, omega arith), ((omega arith, omega arith), tt)) (omega arith)

test_wrap : (put_chars (text "ab") (record cleared { cur_col = 79 })).cur_row ≡ 1
unfolding put_chars text
test_wrap = refl

-- SDL's codes.
abbrev sdl : Keycodes
sdl = record {
  sdlk_a = 97;
  sdlk_z = 122;
  sdlk_return = 13;
  sdlk_backspace = 8;
  sdlk_tab = 9;
  sdlk_escape = 27;
}

-- Typing, Ctrl-C and a key without a character, with output in between; then the window is closed.
abbrev session : List Round
session =
    record { events = text_input (text "é7") ∷ (key_down 99 true ∷ []); bytes = text "Hi\n" }
    ∷ (record { events = key_down 200 false ∷ (quit ∷ []); bytes = [] } ∷ [])

monitor_loop-IsMonitor_example : IsMonitor (monitor_loop sdl session powered)
monitor_loop-IsMonitor_example =
    monitor_loop-IsMonitor sdl session powered (record { letters = refl })
      (record { screen = cleared-IsScreen; sent = tt })

test_keys :
    (monitor_loop sdl
      (record { events = text_input (b'7' ∷ (200 ∷ [])) ∷ (key_down 99 true ∷ []); bytes = [] }
        ∷ [])
      powered).in_file
    ≡ b'7' ∷ (3 ∷ [])
unfolding monitor_loop monitor_round handle_events handle_event send_text send_byte key_char
test_keys = refl

-- Each text has the window's width.
abbrev measured : List ℕ → Option (ℕ × ℕ)
measured line = some (800, 17)

-- A screen with a word.
abbrev worded : Screen
worded = put_chars (text "OK") cleared

render-draws_example :
    All (Fits worded) (render measured worded)
    × ((row w t : ℕ)
        → row < rows
        → measured (line_of (get_or worded.cells row [])) ≡ some (w, t)
        → Occurs
            (copy_text (line_of (get_or worded.cells row [])) 0 (row * cell_h) w t)
            (render measured worded))
render-draws_example =
    render-draws measured worded (put_chars-IsScreen (text "OK") cleared cleared-IsScreen)

test_line : line_of (0 ∷ (b'O' ∷ [])) ≡ text " O"
unfolding line_of text
test_line = refl

abbrev starts : Setup
starts = record {
  sdl_init = true;
  sdl_error = [];
  ttf_init = true;
  ttf_error = [];
  opens_font = λ path. true;
  opens_gpu = true;
  opens_in = true;
  strerror = [];
}

gpu_main-returns_example :
    ((true ≡ true) × (gpu_main sdl starts [] session ≡ some (0, [])))
    ⊎ ((true ≡ false)
        × ((c : ℕ) × (message : List ℕ) × (gpu_main sdl starts [] session ≡ some (1, c ∷ message))))
gpu_main-returns_example = gpu_main-returns sdl starts [] session refl
