-- ===== src/Debug/Fetch/Modes.antt =====
-- The run modes in which dbgOnFetch returns.
use bb6502_verilog.Common.{
  ℕ, zero, suc, ◌≡◌, refl, ◌∙◌, ap, inl, inr, Bool, true, false, Option, none, some, List, [], ◌∷◌,
  ◌++◌, ltb, ◌==◌, if◌then◌else◌, Bool-cases, if-elim, ◌%◌, ◌&&◌,
}
use bb6502_verilog.Common.Maybe.{AllOf}
use bb6502_verilog.Debug.State.{
  RunMode, stopped, stepping, running, Key, Debugger, echo, read6502, get_cmd, get_char,
}
use bb6502_verilog.Debug.State.Chains.{AllOf-then, AllOf-next}
use bb6502_verilog.Debug.Disasm.{disasm}
use bb6502_verilog.Debug.Breakpoints.{check_if_at_bp}
use bb6502_verilog.Debug.Control.{
  is_stopped, is_hit, reset_machine, request_reset, quit_sim, sim_finish, echo_step, send_key,
  is_stepping, key_byte, is_ctrl_c, poll_keys, poll_terminal,
}
use bb6502_verilog.Debug.Commands.{run_line, command_rounds, command_loop}
use bb6502_verilog.Debug.Fetch.{
  stp_answer, handle_stp, report_running, report_stepping, stop_running, poll, stop_stepping,
  stop_in, should_stop, after_resume, resume, on_fetch,
}

-- The simulation may go on.
abbrev pub Runs : Debugger → Type 0
Runs d = is_stopped d.mode ≡ false

echo_step-mode : (d : Debugger) → (echo_step d).mode ≡ d.mode
unfolding echo_step echo
echo_step-mode d =
    if-elim (λ (e : Debugger). e.mode ≡ d.mode) (d.step_first && is_hit (check_if_at_bp d.pc 0 d))
      {x = _} {y = _} (λ _. refl) (λ _. refl)

send_key-mode : (k : Key) (d : Debugger) → (send_key k d).mode ≡ d.mode
unfolding send_key
send_key-mode k d = by-byte (key_byte k)
  where
    by-byte :
        (o : Option ℕ)
        → (elim o as (λ _. Debugger) [
          | none ↦ d
          | some c ↦ if d.world.rx_opens then record d { rx_file = d.rx_file ++ (c ∷ []) } else d
        ]).mode
          ≡ d.mode
    by-byte none = refl
    by-byte (some c) =
        if-elim (λ (e : Debugger). e.mode ≡ d.mode) d.world.rx_opens (λ _. refl) (λ _. refl)

poll_keys-mode : (ks : List Key) (d : Debugger) → (poll_keys ks d).mode ≡ d.mode
unfolding poll_keys
poll_keys-mode [] d = refl
poll_keys-mode (k ∷ ks) d =
    if-elim (λ (e : Debugger). e.mode ≡ d.mode) (is_ctrl_c k) (λ _. refl)
      (λ _. poll_keys-mode ks (send_key k d) ∙ send_key-mode k d)

pub poll-mode : (d : Debugger) → (poll d).mode ≡ d.mode
unfolding poll poll_terminal
poll-mode d =
    if-elim (λ (e : Debugger). e.mode ≡ d.mode) (d.fetch_count % 512 == 0)
      (λ _. poll_keys-mode d.world.keys d) (λ _. refl)

-- The loop of commands ends in a mode that runs.
command_rounds-Runs : (f : ℕ) (d : Debugger) → AllOf (λ r. Runs r.1) (command_rounds f d)
unfolding command_rounds
command_rounds-Runs zero d = tt
command_rounds-Runs (suc f) d = elim (Bool-cases (is_stopped d.mode)) [
  | inl e ↦
      rw (AllOf, e)
        (AllOf-then (λ r. Runs r.1) (get_cmd 99 d) _
          λ line d1.
            AllOf-then (λ r. Runs r.1) (run_line line d1) _ λ u d2. command_rounds-Runs f d2)
  | inr e ↦ rw (AllOf, e) e
]

after_resume-mode : (d : Debugger) → (after_resume d).mode ≡ d.mode
unfolding after_resume
after_resume-mode d =
    if-elim (λ (e : Debugger). e.mode ≡ d.mode) (is_stepping d.mode && ltb 0 d.steps_left)
      (λ _. echo_step-mode d) (λ _. refl)

stp_answer-Runs : (c : ℕ) (d : Debugger) → Runs (stp_answer c d)
unfolding stp_answer reset_machine request_reset quit_sim sim_finish
stp_answer-Runs c d = if-elim Runs (c == b'r') (λ _. refl) (λ _. refl)

handle_stp-Runs : (d : Debugger) → AllOf (λ r. Runs r.1) (handle_stp d)
unfolding handle_stp
handle_stp-Runs d = AllOf-then (λ r. Runs r.1) (get_char _) _ λ c d1. stp_answer-Runs c d1

-- Where dbgShouldStop answers that the simulation goes on, it does.
Goes : Bool × Debugger → Type 0
Goes r = r.0 ≡ false → Runs r.1

stop_running-Goes : (d : Debugger) → Runs d → Goes (stop_running d)
unfolding stop_running Goes
stop_running-Goes d e =
    if-elim Goes d.interrupted (λ _ h. cc) (λ _. at-bp (check_if_at_bp d.pc 0 d))
  where
    at-bp :
        (o : Option ℕ)
        → Goes (elim o as (λ _. Bool × Debugger) [
          | some k ↦ (true, report_running k d)
          | none ↦ (false, d)
        ])
    at-bp none h = e
    at-bp (some k) h = cc

stop_stepping-Goes : (d : Debugger) → Runs d → Goes (stop_stepping d)
unfolding stop_stepping Goes
stop_stepping-Goes d e =
    if-elim Goes (d.steps_left == 0) (λ _ h. cc)
      (λ _. at-bp (check_if_at_bp d.pc (disasm d.pc (read6502 d)).1 d))
  where
    at-bp :
        (o : Option ℕ)
        → Goes (elim o as (λ _. Bool × Debugger) [
          | some k ↦ (true, report_stepping k d)
          | none ↦ (false, echo_step d)
        ])
    at-bp none h = ap is_stopped (echo_step-mode d) ∙ e
    at-bp (some k) h = cc

stop_in-Goes : (m : RunMode) (d : Debugger) → d.mode ≡ m → Goes (stop_in m d)
unfolding stop_in Goes
stop_in-Goes stopped d e h = cc
stop_in-Goes running d e h = stop_running-Goes (poll d) (ap is_stopped (poll-mode d ∙ e)) h
stop_in-Goes stepping d e h = stop_stepping-Goes d (ap is_stopped e) h

command_loop-Runs : (d : Debugger) → AllOf (λ r. Runs r.1) (command_loop d)
unfolding command_loop
command_loop-Runs d = command_rounds-Runs _ _

resume-Runs : (b : Bool) (d : Debugger) → Goes (b, d) → AllOf (λ r. Runs r.1) (resume b d)
unfolding resume Goes
resume-Runs false d h = h refl
resume-Runs true d h =
    AllOf-next (λ r. Runs r.1) (λ r. Runs r.1) (command_loop d) _ (command_loop-Runs d)
      λ u d' r. ap is_stopped (after_resume-mode d') ∙ r

should_stop-Goes : (op : ℕ) (d : Debugger) → AllOf Goes (should_stop op d)
unfolding should_stop Goes
should_stop-Goes op d =
    if-elim (AllOf Goes) (op == 0xdb)
      (λ _. AllOf-next (λ r. Runs r.1) Goes (handle_stp d) _ (handle_stp-Runs d) λ u d' r h. r)
      (λ _. stop_in-Goes d.mode d refl)

-- When dbgOnFetch of a debugger that was started and is not ending returns to the simulation, the
-- mode is one that runs: a stopped debugger never lets the CPU go on.
pub on_fetch-Runs :
    (pc opcode : ℕ) (d : Debugger)
    → d.initialised ≡ true
    → d.quitting ≡ false
    → AllOf (λ r. Runs r.1) (on_fetch pc opcode d)
unfolding on_fetch
on_fetch-Runs pc opcode d i q =
    rw (AllOf, i, q)
      (AllOf-next Goes (λ r. Runs r.1) (should_stop opcode _) _ (should_stop-Goes opcode _)
        λ stop d'. resume-Runs stop d')
