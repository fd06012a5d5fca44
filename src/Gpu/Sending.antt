-- ===== src/Gpu/Sending.antt =====
-- What the monitor sends, and its state over many rounds.
use bb6502_verilog.Common.{
  ℕ, ◌+◌, ◌<◌, ◌≡◌, Bool, not, List, [], ◌∷◌, take, ltb, ◌==◌, All, All-append, if-elim, arith,
}
use bb6502_verilog.Gpu.Bounds.{IsScreen, put_chars-IsScreen}
use bb6502_verilog.Gpu.Monitor.{
  Keycodes, Event, quit, text_input, key_down, other_event, Monitor, send_byte, send_text, key_char,
  handle_event, handle_events, Round, monitor_round, monitor_loop,
}

-- A byte that is ASCII and no NUL.
abbrev pub IsKey : ℕ → Type 0
IsKey c = (0 < c) × (c < 128)

-- SDL's letters follow each other.
pub record IsSdl (codes : Keycodes) : Type 0 where
  pub letters : codes.sdlk_z ≡ codes.sdlk_a + 25

pub record IsMonitor (s : Monitor) : Type 0 where
  pub screen : IsScreen s.screen
  pub sent : All IsKey s.in_file

send_byte-IsMonitor : (c : ℕ) (s : Monitor) → IsKey c → IsMonitor s → IsMonitor (send_byte c s)
unfolding send_byte
send_byte-IsMonitor c s key was = record {
  screen = was.screen;
  sent = All-append IsKey s.in_file (c ∷ []) was.sent (key, tt);
}

send_text-IsMonitor : (cs : List ℕ) (s : Monitor) → IsMonitor s → IsMonitor (send_text cs s)
unfolding send_text
send_text-IsMonitor [] s was = was
send_text-IsMonitor (c ∷ cs) s was =
    if-elim IsMonitor (c == 0) (λ e. was)
      λ e. send_text-IsMonitor cs _ (
        if-elim IsMonitor (ltb c 128) (λ low. send_byte-IsMonitor c s (ground arith) was)
          λ high. was)

key_char_small :
    (codes : Keycodes) (k : ℕ) (ctrl : Bool) → IsSdl codes → key_char codes k ctrl < 128
unfolding key_char
key_char_small codes k ctrl sdl = ground (arith, sdl.letters)

handle_event-IsMonitor :
    (codes : Keycodes) (e : Event) (s : Monitor)
    → IsSdl codes
    → IsMonitor s
    → IsMonitor (handle_event codes e s)
unfolding handle_event
handle_event-IsMonitor codes quit s sdl was = record { screen = was.screen; sent = was.sent }
handle_event-IsMonitor codes (text_input cs) s sdl was = send_text-IsMonitor cs s was
handle_event-IsMonitor codes (key_down k ctrl) s sdl was =
    let small = key_char_small codes k ctrl sdl in
    if-elim IsMonitor (not (key_char codes k ctrl == 0))
      (λ e. send_byte-IsMonitor (key_char codes k ctrl) s (ground arith) was) (λ e. was)
handle_event-IsMonitor codes other_event s sdl was = was

handle_events-IsMonitor :
    (codes : Keycodes) (es : List Event) (s : Monitor)
    → IsSdl codes
    → IsMonitor s
    → IsMonitor (handle_events codes es s)
unfolding handle_events
handle_events-IsMonitor codes [] s sdl was = was
handle_events-IsMonitor codes (e ∷ es) s sdl was =
    handle_events-IsMonitor codes es (handle_event codes e s) sdl
      (handle_event-IsMonitor codes e s sdl was)

monitor_round-IsMonitor :
    (codes : Keycodes) (r : Round) (s : Monitor)
    → IsSdl codes
    → IsMonitor s
    → IsMonitor (monitor_round codes r s)
unfolding monitor_round
monitor_round-IsMonitor codes r s sdl was =
    let s1 = handle_events codes r.events s in
    let now = handle_events-IsMonitor codes r.events s sdl was in
    record { screen = put_chars-IsScreen (take 512 r.bytes) s1.screen now.screen; sent = now.sent }

-- Over any rounds of the monitor's loop, with any events and any bytes from the display port, the
-- screen stays well formed, and every byte that has gone to the input file is ASCII and no NUL, if
-- SDL's letters follow each other.
pub monitor_loop-IsMonitor :
    (codes : Keycodes) (rs : List Round) (s : Monitor)
    → IsSdl codes
    → IsMonitor s
    → IsMonitor (monitor_loop codes rs s)
unfolding monitor_loop
monitor_loop-IsMonitor codes [] s sdl was = was
monitor_loop-IsMonitor codes (r ∷ rs) s sdl was =
    if-elim IsMonitor s.is_running
      (λ on.
        monitor_loop-IsMonitor codes rs (monitor_round codes r s) sdl
          (monitor_round-IsMonitor codes r s sdl was))
      (λ off. was)
