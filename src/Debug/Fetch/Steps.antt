-- ===== src/Debug/Fetch/Steps.antt =====
-- The command `s n` of the debugger, over the fetches that follow it.
use bb6502_verilog.Common.{
  ℕ, suc, ◌+◌, ◌-◌, ◌≡◌, refl, ◌∙◌, ap, inl, inr, Bool, true, false, ◌&&◌, none, some, List, [],
  ◌∷◌, leb, lt→ltb, ◌==◌, length, All, Bool-cases, if-elim, arith,
}
use mathlib.Core.Path.{subst}
use bb6502_verilog.Common.Bits.{u16, u32}
use bb6502_verilog.Machine.Bus.{Machine}
use bb6502_verilog.Debug.State.{stopped, stepping, Breakpoint, Debugger, echo, read6502}
use bb6502_verilog.Debug.Disasm.{disasm}
use bb6502_verilog.Debug.Sim.{sim_read_mem}
use bb6502_verilog.Debug.Breakpoints.{check_if_at_bp, find_bp}
use bb6502_verilog.Debug.Breakpoints.Check.{Hits}
use bb6502_verilog.Debug.Control.{is_hit, instr_line, start_steps, echo_step}
use bb6502_verilog.Debug.Fetch.{
  stop_stepping, stop_in, should_stop, after_resume, resume, on_fetch, Fetch, see, fetches,
}

-- The bytes that the debugger reads at a fetch.
abbrev pub byte_at : Machine → ℕ → ℕ
byte_at m address = elim (sim_read_mem m address) [ none ↦ 0xff | some v ↦ v ]

-- A fetch that stepping passes: it is no STP, and no breakpoint stands from its address to the
-- address behind it.
abbrev pub Passes : List Breakpoint → Fetch → Type 0
Passes bps e =
    ((e.opcode == 0xdb) ≡ false)
    × All (λ b. ¬ Hits e.at (u16 (e.at + (disasm e.at (byte_at e.machine)).1)) b) bps

find_bp-none :
    (first last i : ℕ) (bps : List Breakpoint)
    → All (λ b. ¬ Hits first last b) bps
    → find_bp first last i bps ≡ none
unfolding find_bp
find_bp-none first last i [] h = refl
find_bp-none first last i (b ∷ bs) h =
    elim (Bool-cases (leb first b.address && leb b.address last)) [
      | inl hit ↦ absurd (h.0 (ground arith))
      | inr miss ↦ rw miss (find_bp-none first last (i + 1) bs h.1)
    ]

-- The debugger is stepping with n steps left.
pub record IsStepping (n : ℕ) (bps : List Breakpoint) (lines : List (List ℕ)) (d : Debugger)
    : Type 0 where
  pub started : d.initialised ≡ true
  pub going : d.quitting ≡ false
  pub mode : d.mode ≡ stepping
  pub left : d.steps_left ≡ n
  pub same_bps : d.bps ≡ bps
  pub same_lines : d.world.lines ≡ lines

pub echo_step-IsStepping :
    {n : ℕ} {bps : List Breakpoint} {lines : List (List ℕ)} (d : Debugger)
    → IsStepping (suc n) bps lines d
    → IsStepping n bps lines (echo_step d)
unfolding echo_step echo
echo_step-IsStepping {n} {bps} {lines} d s =
    if-elim
      (λ d1.
        IsStepping n bps lines
          (record (echo (instr_line d1.pc d1) (record d1 { step_first = false })) {
            steps_left = d1.steps_left - 1;
          }))
      (d.step_first && is_hit (check_if_at_bp d.pc 0 d)) (λ _. counted) (λ _. counted)
  where
    counted :
        {c : List ℕ}
        → IsStepping n bps lines
            (record d { console = c; step_first = false; steps_left = d.steps_left - 1 })
    counted = record {
      started = s.started;
      going = s.going;
      mode = s.mode;
      left = omega (arith, s.left);
      same_bps = s.same_bps;
      same_lines = s.same_lines;
    }

-- What dbgOnFetch looks at.
unfoldable pub arrived : Fetch → Debugger → Debugger
arrived e d = record (see e d) { pc = e.at; fetch_count = u32 (d.fetch_count + 1) }

on_fetch-arrived :
    (e : Fetch) (d : Debugger)
    → (e.opcode == 0xdb) ≡ false
    → d.initialised ≡ true
    → d.quitting ≡ false
    → on_fetch e.at e.opcode (see e d)
      ≡ resume (stop_in d.mode (arrived e d)).0 (stop_in d.mode (arrived e d)).1
unfolding on_fetch should_stop arrived see
on_fetch-arrived e d o i q = rw (i, q, o) refl

stop_stepping-passes :
    (d : Debugger)
    → (d.steps_left == 0) ≡ false
    → check_if_at_bp d.pc (disasm d.pc (read6502 d)).1 d ≡ none
    → stop_stepping d ≡ (false, echo_step d)
unfolding stop_stepping
stop_stepping-passes d l h = rw (l, h) refl

stop_stepping-last :
    (d : Debugger)
    → (d.steps_left == 0) ≡ true
    → stop_stepping d ≡ (true, record d { mode = stopped })
unfolding stop_stepping
stop_stepping-last d l = rw l refl

no-hit :
    (bps : List Breakpoint) (e : Fetch) (d : Debugger)
    → d.bps ≡ bps
    → Passes bps e
    → check_if_at_bp e.at (disasm e.at (read6502 (arrived e d))).1 (arrived e d) ≡ none
unfolding check_if_at_bp read6502 arrived see
no-hit bps e d b p =
    ap (find_bp e.at (u16 (e.at + (disasm e.at (byte_at e.machine)).1)) 0) b
    ∙ find_bp-none e.at _ 0 bps p.1

pub on_fetch-stepping :
    (e : Fetch) (d : Debugger) (r : Bool × Debugger)
    → (e.opcode == 0xdb) ≡ false
    → d.initialised ≡ true
    → d.quitting ≡ false
    → d.mode ≡ stepping
    → stop_stepping (arrived e d) ≡ r
    → on_fetch e.at e.opcode (see e d) ≡ resume r.0 r.1
unfolding stop_in
on_fetch-stepping e d r o i q m h =
    on_fetch-arrived e d o i q
    ∙ ap (λ k. resume (stop_in k (arrived e d)).0 (stop_in k (arrived e d)).1) m
    ∙ ap (λ t. resume t.0 t.1) h

-- A fetch with steps left goes on, and takes one of them.
on_fetch-Passes :
    (n : ℕ) (bps : List Breakpoint) (lines : List (List ℕ)) (e : Fetch) (d : Debugger)
    → IsStepping (suc n) bps lines d
    → Passes bps e
    → (on_fetch e.at e.opcode (see e d) ≡ some (tt, echo_step (arrived e d)))
      × IsStepping n bps lines (echo_step (arrived e d))
unfolding arrived see resume
on_fetch-Passes n bps lines e d s p = (
  on_fetch-stepping e d (false, echo_step (arrived e d)) p.0 s.started s.going s.mode
      (stop_stepping-passes (arrived e d) (ground (arith, s.left)) (no-hit bps e d s.same_bps p)),
  echo_step-IsStepping (arrived e d) (record {
    started = s.started;
    going = s.going;
    mode = s.mode;
    left = s.left;
    same_bps = s.same_bps;
    same_lines = s.same_lines;
  }),
)

IsStepping-left :
    {m n : ℕ} {bps : List Breakpoint} {lines : List (List ℕ)} {d : Debugger}
    → m ≡ n
    → IsStepping m bps lines d
    → IsStepping n bps lines d
IsStepping-left {bps} {lines} {d} e s = subst (λ k. IsStepping k bps lines d) e s

-- While steps are left, fetches that stepping passes never stop: the user is not asked, and each
-- takes exactly one step off.
pub fetches-Passes :
    (n : ℕ) (es : List Fetch) (bps : List Breakpoint) (lines : List (List ℕ)) (d : Debugger)
    → IsStepping (length es + n) bps lines d
    → All (Passes bps) es
    → (d' : Debugger) × (fetches es d ≡ some (tt, d')) × IsStepping n bps lines d'
unfolding fetches
fetches-Passes n [] bps lines d s h = (d, refl, IsStepping-left (omega arith) s)
fetches-Passes n (e ∷ es) bps lines d s h =
    let (one, t) =
      on_fetch-Passes (length es + n) bps lines e d (IsStepping-left (omega arith) s) h.0 in
    rw (fetches, one) (fetches-Passes n es bps lines _ t h.1)

-- What `s n` leaves the debugger with once the loop of commands has resumed.
after_step-IsStepping :
    (n : ℕ) (d : Debugger)
    → d.initialised ≡ true
    → d.quitting ≡ false
    → IsStepping n d.bps d.world.lines (after_resume (start_steps (suc n) d))
unfolding after_resume start_steps
after_step-IsStepping n d i q = rw (lt→ltb 0 (suc n) (omega arith)) (
    echo_step-IsStepping (start_steps (suc n) d) (record {
      started = i;
      going = q;
      mode = refl;
      left = refl;
      same_bps = refl;
      same_lines = refl;
    }))

-- The command `s n`, n positive, of a debugger that was started and is not ending: the simulation
-- goes on for exactly n instructions (the one it stood at and the n - 1 fetches `es` behind it)
-- without asking the user, and at the fetch after them the debugger is stopped there, at the loop of
-- commands. No fetch is STP and, at the fetches `es`, no breakpoint stands from the fetch's address to
-- the address behind the instruction.
pub step-stops :
    (es : List Fetch) (last : Fetch) (d : Debugger)
    → d.initialised ≡ true
    → d.quitting ≡ false
    → All (Passes d.bps) es
    → (last.opcode == 0xdb) ≡ false
    → (d1 d2 : Debugger) × (fetches es (after_resume (start_steps (suc (length es)) d))
        ≡ some (tt, d1))
      × (on_fetch last.at last.opcode (see last d1) ≡ resume true d2)
      × (d2.mode ≡ stopped)
      × (d2.pc ≡ last.at)
      × (d2.world.lines ≡ d.world.lines)
unfolding arrived see
step-stops es last d i q h o =
    let start = after_step-IsStepping (length es) d i q in
    let (d1, run, s) =
      fetches-Passes 0 es d.bps d.world.lines _ (IsStepping-left (omega arith) start) h in
    let d2 = record (arrived last d1) { mode = stopped } in
    let stop =
      on_fetch-stepping last d1 (true, d2) o s.started s.going s.mode
        (stop_stepping-last (arrived last d1) (ground (arith, s.left))) in
    (d1, d2, run, stop, refl, refl, s.same_lines)
