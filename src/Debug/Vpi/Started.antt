-- ===== src/Debug/Vpi/Started.antt =====
-- The debugger behind startOfSim.
use bb6502_verilog.Common.{
  ℕ, ◌≡◌, refl, ◌⊎◌, inl, inr, Bool, true, false, ◌&&◌, Bool-cases, and-true, ◌∙◌, ap, Option, none,
  some, List, [], ◌∷◌,
}
use bb6502_verilog.Debug.State.{Debugger, echo, stopped}
use bb6502_verilog.Debug.Control.{sim_finish}
use bb6502_verilog.Debug.Symbols.Valid.{IsTable, read_dbg_syms-IsTable}
use bb6502_verilog.Debug.Fetch.{SymFile, load_files, init}
use bb6502_verilog.Debug.Display.{init_display, display_ready}
use bb6502_verilog.Debug.Vpi.{
  Startup, plusargs_of, sym_texts, look_up, look_ups, signal_names, start_of_sim,
}

-- The debugger before the first instruction.
pub record IsUp (d : Debugger) : Type 0 where
  pub started : d.initialised ≡ true
  pub halted : d.mode ≡ stopped
  pub going_on : d.quitting ≡ false
  pub table : IsTable d

echo-IsTable : (s : List ℕ) (d : Debugger) → IsTable d → IsTable (echo s d)
unfolding echo
echo-IsTable s d t = record { fits = t.fits; entries = t.entries; grows = t.grows; fresh = t.fresh }

load_files-IsTable : (fs : List SymFile) (d : Debugger) → IsTable d → IsTable (load_files fs d)
unfolding load_files
load_files-IsTable [] d t = t
load_files-IsTable ((fname, error, file) ∷ rest) d t =
    load_files-IsTable rest _ (read_dbg_syms-IsTable fname error file _ (echo-IsTable _ d t))

init-IsUp :
    (fs : List SymFile) (src : Option (List ℕ)) (d : Debugger)
    → IsTable d
    → ((init true fs src d).0 ≡ true) × IsUp (init true fs src d).1
unfolding init echo
init-IsUp fs none d t =
    let u = load_files-IsTable fs d t in
    (
      refl,
      record {
        started = refl;
        halted = refl;
        going_on = refl;
        table = record { fits = u.fits; entries = u.entries; grows = u.grows; fresh = u.fresh };
      },
    )
init-IsUp fs (some s) d t =
    let u = load_files-IsTable fs d t in
    (
      refl,
      record {
        started = refl;
        halted = refl;
        going_on = refl;
        table = record { fits = u.fits; entries = u.entries; grows = u.grows; fresh = u.fresh };
      },
    )

-- Whether all the names are found.
abbrev pub all_found : (List ℕ → Bool) → List (List ℕ) → Bool
all_found found [] = true
all_found found (name ∷ names) = found name && all_found found names

look_up-found :
    (found : List ℕ → Bool) (name : List ℕ) (s : Bool × List ℕ)
    → found name ≡ true
    → look_up found name s ≡ s
unfolding look_up
look_up-found found name (ok, log) here = rw here

look_up-missing :
    (found : List ℕ → Bool) (name : List ℕ) (s : Bool × List ℕ)
    → found name ≡ false
    → (look_up found name s).0 ≡ false
unfolding look_up
look_up-missing found name (ok, log) missing = rw missing

-- `ok` stays false once it is.
look_ups-failed :
    (found : List ℕ → Bool) (names : List (List ℕ)) (s : Bool × List ℕ)
    → s.0 ≡ false
    → (look_ups found names s).0 ≡ false
unfolding look_ups
look_ups-failed found [] s failed = failed
look_ups-failed found (name ∷ names) s failed = elim (Bool-cases (found name)) [
  | inl here ↦
      look_ups-failed found names _ (ap (λ t. t.0) (look_up-found found name s here) ∙ failed)
  | inr missing ↦ look_ups-failed found names _ (look_up-missing found name s missing)
]

look_ups-found :
    (found : List ℕ → Bool) (names : List (List ℕ)) (s : Bool × List ℕ)
    → s.0 ≡ true
    → (look_ups found names s).0 ≡ all_found found names
unfolding look_ups
look_ups-found found [] s ok = ok
look_ups-found found (name ∷ names) s ok = elim (Bool-cases (found name)) [
  | inl here ↦
      ap (λ t. (look_ups found names t).0) (look_up-found found name s here)
      ∙ rw here (look_ups-found found names s ok)
  | inr missing ↦ rw missing (look_ups-failed found names _ (look_up-missing found name s missing))
]

-- With all signals found nothing is written.
look_ups-quiet :
    (found : List ℕ → Bool) (names : List (List ℕ)) (s : Bool × List ℕ)
    → all_found found names ≡ true
    → look_ups found names s ≡ s
unfolding look_ups
look_ups-quiet found [] s all = refl
look_ups-quiet found (name ∷ names) s all =
    let (here, others) = and-true {a = found name} all in
    rw (look_up-found found name s here) (look_ups-quiet found names s others)

start_lem :
    (signals handles display : Bool) (u : Startup) (d : Debugger)
    → all_found u.signals signal_names ≡ signals
    → u.handles ≡ handles
    → display_ready (init_display u.tty) ≡ display
    → IsTable d
    → ((signals && handles && display ≡ true)
        × IsUp (start_of_sim u d).1
        × ((start_of_sim u d).0 ≡ []))
      ⊎ ((signals && handles && display ≡ false) × ((start_of_sim u d).1.world.finished ≡ true))
unfolding start_of_sim sim_finish
start_lem false handles display u d s h v t =
    let ok = look_ups-found u.signals signal_names (true, []) refl ∙ s in inr (refl, rw ok refl)
start_lem true false display u d s h v t =
    let ok = look_ups-found u.signals signal_names (true, []) refl ∙ s in
    inr (refl, rw (ok, h) refl)
start_lem true true false u d s h v t =
    let ok = look_ups-found u.signals signal_names (true, []) refl ∙ s in
    inr (refl, unfold init in rw (ok, h, v) refl)
start_lem true true true u d s h v t =
    let args = plusargs_of u.argv in
    let (done, up) = init-IsUp (sym_texts u.open_file args.sym_files) args.src_file d t in
    let quiet = look_ups-quiet u.signals signal_names (true, []) s in
    inl (refl, rw (quiet, h, v, done) up, rw (quiet, h, v, done) refl)

-- At the start of the simulation, with a well-formed symbol table: if the seven signals, the memory
-- for the handles and the display are there, the debugger is initialised and stopped, the table is
-- well formed behind all the symbol files of the command line, and vpi_printf has written nothing; if
-- one of them is missing, the simulation is ended.
pub start_of_sim-IsUp :
    (u : Startup) (d : Debugger)
    → IsTable d
    → ((all_found u.signals signal_names && u.handles && display_ready (init_display u.tty) ≡ true)
        × IsUp (start_of_sim u d).1
        × ((start_of_sim u d).0 ≡ []))
      ⊎ ((all_found u.signals signal_names && u.handles && display_ready (init_display u.tty)
            ≡ false)
          × ((start_of_sim u d).1.world.finished ≡ true))
start_of_sim-IsUp u d t =
    start_lem (all_found u.signals signal_names) u.handles (display_ready (init_display u.tty)) u d
      refl refl refl t
