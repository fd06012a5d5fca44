-- ===== src/Kernel/Boot/Wave.antt =====
-- The processes that main has loaded, one after the other.
use mathlib.Core.Path.{subst}
use bb6502_verilog.Common.{
  ℕ, ◌+◌, ◌*◌, ◌^◌, ◌<◌, ◌≤◌, ◌≡◌, ◌≢◌, ◌⊎◌, inl, inr, sym, ◌∙◌, ap, ◌==◌, Bool-cases, some, List,
  arith,
}
use bb6502_verilog.Machine.Bus.{Machine, data_in}
use bb6502_verilog.Kernel.Process.{Process, Table}
use bb6502_verilog.Kernel.Process.Pages.{phys-block}
use bb6502_verilog.Kernel.Spawn.{Image, System, process_at}
use bb6502_verilog.Kernel.Spawn.Place.{place, IsOwn}
use bb6502_verilog.Kernel.Spawn.Entry.{IsAt}
use bb6502_verilog.Kernel.Spawn.Started.{in_process, IsLoaded, IsStarted, Spawned, user_place}
use bb6502_verilog.Kernel.Boot.{load}
use bb6502_verilog.Kernel.Boot.Steps.{IsBooting, IsProgram, IsHigh, place_in, load_lem}

-- Entry i is a process that waits, with the program at block `lba`, in the RAM from block `base` on.
pub record IsWaiting (img : ℕ → ℕ) (lba base i : ℕ) (s : System) : Type 0 where
  pub at : IsAt base (process_at s.table i)
  pub started : IsStarted lba 1 img (process_at s.table i) s.machine

-- The first n of the three demonstration programs are loaded.
pub record IsWave (img : ℕ → ℕ) (n : ℕ) (s : System) : Type 0 where
  pub count : s.table.nprocs ≡ n
  pub each : (i : ℕ) → i < n → IsWaiting img (200 + 10 * i) (1 + 2 * i) i s

-- What a process reads does not change with a RAM that agrees on its own places.
pub IsLoaded-kept :
    (lba base : ℕ) (img : ℕ → ℕ) (p q : Process) (m m' : Machine)
    → IsAt base p
    → IsAt base q
    → ((va : ℕ) → IsOwn 1 va → m'.ram (place base va) ≡ m.ram (place base va))
    → IsLoaded lba 1 img p m
    → IsLoaded lba 1 img q m'
IsLoaded-kept lba base img p q m m' at now same was = record {
  program = λ j h. back (0x1000 + j) (inl (omega arith, omega arith)) ∙ was.program j h;
  status = back 0x1fd (inr (omega arith, omega arith)) ∙ was.status;
  pcl = back 0x1fe (inr (omega arith, omega arith)) ∙ was.pcl;
  pch = back 0x1ff (inr (omega arith, omega arith)) ∙ was.pch;
}
  where
    low_lem : (va : ℕ) → IsOwn 1 va → va < 2 ^ 15
    low_lem va (inl (from, below)) = omega arith
    low_lem va (inr (from, below)) = omega arith

    back : (va : ℕ) → IsOwn 1 va → data_in va (in_process q m') ≡ data_in va (in_process p m)
    back va own =
        user_place base va q m' (low_lem va own) now
        ∙ same va own
        ∙ sym (user_place base va p m (low_lem va own) at)

-- Two processes of one block, two 4 KB blocks of RAM apart, share no place.
places_apart :
    (b c va vb : ℕ)
    → b ≤ 5
    → c ≤ 5
    → (b + 2 ≤ c) ⊎ (c + 2 ≤ b)
    → IsOwn 1 va
    → IsOwn 1 vb
    → place c vb ≢ place b va
places_apart b c va vb h k apart own other e =
    let one = phys-block b va in
    let two = phys-block c vb in
    let small = own_lem va own in
    let less = own_lem vb other in elim apart [ inl below ↦ omega arith | inr above ↦ omega arith ]
  where
    own_lem : (va : ℕ) → IsOwn 1 va → va < 2 ^ 13
    own_lem va (inl (from, below)) = omega arith
    own_lem va (inr (from, below)) = omega arith

IsWaiting-kept :
    (im : Image) (img : ℕ → ℕ) (lba b i new c : ℕ) (s s1 s' : System)
    → 1 ≤ b
    → b ≤ 5
    → c ≤ 5
    → (b + 2 ≤ c) ⊎ (c + 2 ≤ b)
    → s.table.nprocs ≢ i
    → s1.machine.ram ≡ s.machine.ram
    → s1.table ≡ s.table
    → Spawned im new 1 c img s1 s'
    → IsWaiting img lba b i s
    → IsWaiting img lba b i s'
IsWaiting-kept im img lba b i new c s s1 s' user h k apart other ram table what was =
    let entry : process_at s'.table i ≡ process_at s.table i =
      what.others i (rw table other) ∙ ap (λ (t : Table). process_at t i) table in
    let now : IsAt b (process_at s'.table i) = rw entry was.at in
    record {
      at = now;
      started = record {
        state = ap (λ (p : Process). p.state) entry ∙ was.started.state;
        sp = ap (λ (p : Process). p.sp) entry ∙ was.started.sp;
        loaded =
            IsLoaded-kept lba b img (process_at s.table i) (process_at s'.table i) s.machine
              s'.machine was.at now
              (λ va own.
                let (from, below) = place_in b va user h own in
                what.memory (place b va) from below
                  (λ vb theirs. places_apart b c va vb h k apart own theirs)
                ∙ ap (λ (f : ℕ → ℕ). f (place b va)) ram)
              was.started.loaded;
      };
    }

-- One program more.
pub load-IsWave :
    (im : Image) (img : ℕ → ℕ) (name : List ℕ) (n : ℕ) (s : System)
    → IsHigh im
    → IsBooting img s
    → IsProgram img (200 + 10 * n)
    → n < 3
    → IsWave img n s
    → (s' : System) × (load im name (200 + 10 * n) (1 + 2 * n) s ≡ some s')
      × IsBooting img s'
      × IsWave img (n + 1) s'
load-IsWave im img name n s high boots prog small wave =
    let (s1, s', done, ram, table, what, now) =
      load_lem im img name (200 + 10 * n) (1 + 2 * n) s high boots prog (omega arith) (omega arith)
        (omega arith) (omega (arith, wave.count)) in
    let last : s1.table.nprocs ≡ n = ap (λ (t : Table). t.nprocs) table ∙ wave.count in
    (
      s',
      done,
      now,
      record {
        count = what.count ∙ ap (λ a. a + 1) last;
        each = λ i h. elim (Bool-cases (i == n)) [
          | inl here ↦
              let e : i ≡ n = ground arith in
              subst (λ k. IsWaiting img (200 + 10 * k) (1 + 2 * k) k s') (sym e)
                (subst (λ k. IsWaiting img (200 + 10 * n) (1 + 2 * n) k s') last
                  (record { at = what.table; started = what.process }))
          | inr older ↦
              let lower : i < n = ground arith in
              IsWaiting-kept im img (200 + 10 * i) (1 + 2 * i) i (200 + 10 * n) (1 + 2 * n) s s1 s'
                (omega arith) (omega arith) (omega arith) (inl (omega arith))
                (omega (arith, wave.count)) ram table what (wave.each i lower)
        ];
      },
    )
