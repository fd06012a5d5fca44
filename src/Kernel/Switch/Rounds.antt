-- ===== src/Kernel/Switch/Rounds.antt =====
-- Runs of several processes in turn: whose turn it is.
use native.Mathlib.Nat.{mod-eq_of_lt, mod-add-mod, add-mod_right}
use bb6502_verilog.Common.{
  ℕ, suc, ◌+◌, ◌-◌, ◌%◌, ◌<◌, ◌≤◌, ◌≡◌, refl, sym, ◌∙◌, ap, ap₂, if◌then◌else◌, Bool-cases, inl,
  inr, ltb, arith,
}
use bb6502_verilog.Kernel.Switch.{Running, do_yield}
use bb6502_verilog.Kernel.Switch.Saved.{IsReady}
use bb6502_verilog.Kernel.Switch.Turns.{do_yield-Switched}

-- What the running process may do between two switches: anything to its registers, its stack pointer
-- and the machine, but for the MMU's registers and the process table.
pub record IsUserRun (r r' : Running) : Type 0 where
  pub table : r'.system.table ≡ r.system.table
  pub mmu : r'.system.machine.mmu ≡ r.system.machine.mmu

-- A run with a number of calls of do_yield in it.
pub data Trace (r : Running) : ℕ → Running → Type 0 where
  stay : Trace r 0 r
  run : (n : ℕ) (r1 r2 : Running) → Trace r n r1 → IsUserRun r1 r2 → Trace r n r2
  yield : (n : ℕ) (r1 : Running) → Trace r n r1 → Trace r (suc n) (do_yield r1)

IsReady-run : (r r' : Running) → IsUserRun r r' → IsReady r → IsReady r'
IsReady-run r r' user ready =
    let t = user.table in
    let m = user.mmu in
    record {
      size = rw t ready.size;
      few = rw t ready.few;
      current = rw t ready.current;
      waits = rw t ready.waits;
      tables = rw t ready.tables;
      paged = rw m ready.paged;
      kernel = rw m ready.kernel;
    }

-- The state behind n switches.
pub record IsTurn (r : Running) (n : ℕ) (r' : Running) : Type 0 where
  pub ready : IsReady r'
  pub count : r'.system.table.nprocs ≡ r.system.table.nprocs
  pub index : r'.system.table.plist_idx ≡ (r.system.table.plist_idx + n) % r.system.table.nprocs

pub Trace-IsTurn : (r : Running) (n : ℕ) (r' : Running) → IsReady r → Trace r n r' → IsTurn r n r'
Trace-IsTurn r _ _ ready stay = record {
  ready = ready;
  count = refl;
  index = sym (ap (λ a. a % r.system.table.nprocs) (omega arith) ∙ mod-eq_of_lt ready.current);
}
Trace-IsTurn r _ _ ready (run n r1 r2 before user) =
    let was = Trace-IsTurn r n r1 ready before in
    record {
      ready = IsReady-run r1 r2 user was.ready;
      count = rw user.table was.count;
      index = rw user.table was.index;
    }
Trace-IsTurn r _ _ ready (yield m r1 before) =
    let was = Trace-IsTurn r m r1 ready before in
    let now = do_yield-Switched r1 was.ready in
    let c = r.system.table.nprocs in
    record {
      ready = now.ready;
      count = now.count ∙ was.count;
      index =
          now.index
          ∙ ap₂ (λ i n. (i + 1) % n) was.index was.count
          ∙ mod-add-mod (r.system.table.plist_idx + m) c 1
          ∙ ap (λ a. a % c) (omega arith);
    }

-- The switches until the turn of process p.
abbrev until : (i p c : ℕ) → ℕ
until i p c = if ltb i p then p - i else p + c - i

until_lem : (i p c : ℕ) → i < c → p < c → (i + until i p c) % c ≡ p
until_lem i p c h k = elim (Bool-cases (ltb i p)) [
  | inl below ↦ let sum : i + until i p c ≡ p = ground arith in ap (λ a. a % c) sum ∙ mod-eq_of_lt k
  | inr above ↦
      let sum : i + until i p c ≡ p + c = ground arith in
      ap (λ a. a % c) sum ∙ add-mod_right p c ∙ mod-eq_of_lt k
]

-- If all processes but the running one wait, each process p has a turn within nprocs switches,
-- whatever the processes do in between: there is a number of switches, from 1 to nprocs, behind which
-- every run has p as the running process.
pub Trace-reaches :
    (r : Running) (p : ℕ)
    → IsReady r
    → p < r.system.table.nprocs
    → (k : ℕ) × (0 < k)
      × (k ≤ r.system.table.nprocs)
      × ((r' : Running) → Trace r k r' → r'.system.table.plist_idx ≡ p)
Trace-reaches r p ready h =
    let i = r.system.table.plist_idx in
    let c = r.system.table.nprocs in
    let now = ready.current in
    (
      until i p c,
      ground arith,
      ground arith,
      λ r' trace.
          (Trace-IsTurn r (until i p c) r' ready trace).index ∙ until_lem i p c ready.current h,
    )
