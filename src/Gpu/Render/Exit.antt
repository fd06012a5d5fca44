-- ===== src/Gpu/Render/Exit.antt =====
-- How main of the monitor ends.
use bb6502_verilog.Common.{
  ℕ, ◌≡◌, refl, ◌⊎◌, inl, inr, Bool, true, false, ◌&&◌, ◌||◌, Bool-cases, if-elim, none, some, List,
  [], ◌∷◌, ◌==◌, ltb,
}
use bb6502_verilog.Clib.Chars.{text}
use bb6502_verilog.Gpu.Monitor.{
  Keycodes, Event, quit, text_input, key_down, other_event, Round, Monitor, send_byte, send_text,
  handle_event, handle_events, monitor_round, monitor_loop, powered,
}
use bb6502_verilog.Gpu.Render.{Setup, font_path, setup_error, gpu_main}

-- Whether the user closes the window, in a round and in one of several.
abbrev pub closes : List Event → Bool
closes [] = false
closes (quit ∷ es) = true
closes (text_input cs ∷ es) = closes es
closes (key_down k ctrl ∷ es) = closes es
closes (other_event ∷ es) = closes es

abbrev pub closes_in : List Round → Bool
closes_in [] = false
closes_in (r ∷ rs) = closes r.events || closes_in rs

-- Every step of the set-up succeeds.
abbrev pub all_start : Setup → List (List ℕ) → Bool
all_start u argv =
    u.sdl_init && u.ttf_init && u.opens_font (font_path argv) && u.opens_gpu && u.opens_in

abbrev IsOff : Monitor → Type 0
IsOff s = s.is_running ≡ false

send_text-IsOff : (cs : List ℕ) (s : Monitor) → IsOff s → IsOff (send_text cs s)
unfolding send_text send_byte
send_text-IsOff [] s off = off
send_text-IsOff (c ∷ cs) s off =
    if-elim IsOff (c == 0) (λ _. off)
      (λ _. send_text-IsOff cs _ (if-elim IsOff (ltb c 128) (λ _. off) (λ _. off)))

handle_event-IsOff :
    (codes : Keycodes) (e : Event) (s : Monitor) → IsOff s → IsOff (handle_event codes e s)
unfolding handle_event send_byte
handle_event-IsOff codes quit s off = refl
handle_event-IsOff codes (text_input cs) s off = send_text-IsOff cs s off
handle_event-IsOff codes (key_down k ctrl) s off = if-elim IsOff _ (λ _. off) (λ _. off)
handle_event-IsOff codes other_event s off = off

handle_events-IsOff :
    (codes : Keycodes) (es : List Event) (s : Monitor) → IsOff s → IsOff (handle_events codes es s)
unfolding handle_events
handle_events-IsOff codes [] s off = off
handle_events-IsOff codes (e ∷ es) s off =
    handle_events-IsOff codes es _ (handle_event-IsOff codes e s off)

handle_events-closes :
    (codes : Keycodes) (es : List Event) (s : Monitor)
    → closes es ≡ true
    → IsOff (handle_events codes es s)
unfolding handle_events handle_event
handle_events-closes codes [] s h = cc
handle_events-closes codes (quit ∷ es) s h = handle_events-IsOff codes es _ refl
handle_events-closes codes (text_input cs ∷ es) s h = handle_events-closes codes es _ h
handle_events-closes codes (key_down k ctrl ∷ es) s h = handle_events-closes codes es _ h
handle_events-closes codes (other_event ∷ es) s h = handle_events-closes codes es _ h

monitor_loop-IsOff :
    (codes : Keycodes) (rs : List Round) (s : Monitor) → IsOff s → IsOff (monitor_loop codes rs s)
unfolding monitor_loop
monitor_loop-IsOff codes [] s off = off
monitor_loop-IsOff codes (r ∷ rs) s off = if-elim IsOff s.is_running (λ on. cc) (λ _. off)

monitor_loop-closes :
    (codes : Keycodes) (rs : List Round) (s : Monitor)
    → closes_in rs ≡ true
    → IsOff (monitor_loop codes rs s)
unfolding monitor_loop monitor_round
monitor_loop-closes codes [] s h = cc
monitor_loop-closes codes (r ∷ rs) s h =
    if-elim IsOff s.is_running
      (λ on. elim (Bool-cases (closes r.events)) [
        | inl now ↦ monitor_loop-IsOff codes rs _ (handle_events-closes codes r.events s now)
        | inr later ↦ monitor_loop-closes codes rs _ (rw later at h)
      ])
      (λ off. off)

setup_lem :
    (sdl ttf font gpu keys : Bool) (u : Setup) (argv : List (List ℕ))
    → u.sdl_init ≡ sdl
    → u.ttf_init ≡ ttf
    → u.opens_font (font_path argv) ≡ font
    → u.opens_gpu ≡ gpu
    → u.opens_in ≡ keys
    → ((sdl && ttf && font && gpu && keys ≡ true) × (setup_error u argv ≡ none))
      ⊎ ((sdl && ttf && font && gpu && keys ≡ false)
          × ((c : ℕ) × (message : List ℕ) × (setup_error u argv ≡ some (c ∷ message))))
unfolding setup_error text
setup_lem false ttf font gpu keys u argv a b c d e = inr (refl, rw a (_, _, refl))
setup_lem true false font gpu keys u argv a b c d e = inr (refl, rw (a, b) (_, _, refl))
setup_lem true true false gpu keys u argv a b c d e = inr (refl, rw (a, b, c) (_, _, refl))
setup_lem true true true false keys u argv a b c d e = inr (refl, rw (a, b, c, d) (_, _, refl))
setup_lem true true true true false u argv a b c d e = inr (refl, rw (a, b, c, d, e) (_, _, refl))
setup_lem true true true true true u argv a b c d e = inl (refl, rw (a, b, c, d, e) refl)

-- When the user closes the window in some round, main returns: 0, with nothing on stderr, if every
-- step of the set-up has succeeded, and otherwise 1, with a message on stderr.
pub gpu_main-returns :
    (codes : Keycodes) (u : Setup) (argv : List (List ℕ)) (rounds : List Round)
    → closes_in rounds ≡ true
    → ((all_start u argv ≡ true) × (gpu_main codes u argv rounds ≡ some (0, [])))
      ⊎ ((all_start u argv ≡ false)
          × ((c : ℕ) × (message : List ℕ) × (gpu_main codes u argv rounds ≡ some (1, c ∷ message))))
unfolding gpu_main
gpu_main-returns codes u argv rounds closed =
    let off = monitor_loop-closes codes rounds powered closed in
    elim (setup_lem u.sdl_init u.ttf_init (u.opens_font (font_path argv)) u.opens_gpu u.opens_in u
      argv refl refl refl refl refl) [
        | inl (all, quiet) ↦ inl (all, rw (gpu_main, quiet, off) refl)
        | inr (failed, (c, message, says)) ↦ inr (failed, (c, message, rw (gpu_main, says) refl))
      ]
