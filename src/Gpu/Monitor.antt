-- ===== src/Gpu/Monitor.antt =====
-- tools/gpu.c: the loop of main, with the keys it sends. The codes of SDL's keys are an argument, and
-- so is whether the test of the modifiers by KMOD_CTRL holds for an event.
use bb6502_verilog.Common.{
  ℕ, ◌+◌, ◌-◌, Bool, true, false, ◌&&◌, not, List, [], ◌∷◌, ◌++◌, take, leb, ltb, ◌==◌,
  if◌then◌else◌,
}
use bb6502_verilog.Common.Bits.{u8}
use bb6502_verilog.Gpu.Screen.{Screen, cleared, put_chars}

-- SDL's key codes that main names.
pub record Keycodes : Type 0 where
  pub sdlk_a : ℕ
  pub sdlk_z : ℕ
  pub sdlk_return : ℕ
  pub sdlk_backspace : ℕ
  pub sdlk_tab : ℕ
  pub sdlk_escape : ℕ

-- The events that main tells apart. A text ends at its first NUL.
pub data Event : Type 0 where
  quit : Event
  text_input : List ℕ → Event
  key_down : (key : ℕ) → (ctrl : Bool) → Event
  other_event : Event

-- The monitor: its screen, what it has appended to the input file, and `running`.
pub record Monitor : Type 0 where
  pub screen : Screen
  pub in_file : List ℕ
  pub is_running : Bool

-- send_byte, where the file is open and the write succeeds.
unfoldable pub send_byte : ℕ → Monitor → Monitor
send_byte c s = record s { in_file = s.in_file ++ (c ∷ []) }

-- The loop over a text.
unfoldable pub send_text : List ℕ → Monitor → Monitor
unfolding send_byte
send_text [] s = s
send_text (c ∷ cs) s =
    let rest = send_text cs (if ltb c 128 then send_byte c s else s) in if c == 0 then s else rest

-- `ch` of a key, 0 for none.
unfoldable pub key_char : Keycodes → (key : ℕ) → (ctrl : Bool) → ℕ
key_char codes k ctrl =
    if ctrl
    then (if leb codes.sdlk_a k && leb k codes.sdlk_z then u8 (k - codes.sdlk_a + 1) else 0)
    else if k == codes.sdlk_return
    then 13
    else if k == codes.sdlk_backspace
    then 8
    else if k == codes.sdlk_tab
    then 9
    else if k == codes.sdlk_escape
    then 0x1b
    else 0

-- The switch over the event.
unfoldable pub handle_event : Keycodes → Event → Monitor → Monitor
unfolding send_byte send_text key_char
handle_event codes quit s = record s { is_running = false }
handle_event codes (text_input cs) s = send_text cs s
handle_event codes (key_down k ctrl) s =
    if not (key_char codes k ctrl == 0) then send_byte (key_char codes k ctrl) s else s
handle_event codes other_event s = s

-- The inner loop: the events that are waiting.
unfoldable pub handle_events : Keycodes → List Event → Monitor → Monitor
handle_events codes [] s = s
handle_events codes (e ∷ es) s = handle_events codes es (handle_event codes e s)

-- What comes in a round: the events, and the bytes of the read, 512 at most; none when it fails.
pub record Round : Type 0 where
  pub events : List Event
  pub bytes : List ℕ

-- A round of the outer loop, but for the drawing.
unfoldable pub monitor_round : Keycodes → Round → Monitor → Monitor
monitor_round codes r s =
    let s1 = handle_events codes r.events s in
    record s1 { screen = put_chars (take 512 r.bytes) s1.screen }

-- The outer loop: it ends behind the round in which the user quits.
unfoldable pub monitor_loop : Keycodes → List Round → Monitor → Monitor
monitor_loop codes [] s = s
monitor_loop codes (r ∷ rest) s =
    let later = monitor_loop codes rest (monitor_round codes r s) in
    if s.is_running then later else s

-- The monitor at the start.
abbrev pub powered : Monitor
powered = record { screen = cleared; in_file = []; is_running = true }
