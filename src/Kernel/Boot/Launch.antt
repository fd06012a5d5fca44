-- ===== src/Kernel/Boot/Launch.antt =====
-- The start of the scheduler by main.
use mathlib.Core.Path.{subst}
use bb6502_verilog.Common.{
  ℕ, zero, suc, ◌+◌, ◌*◌, ◌<◌, ◌≤◌, ◌≡◌, ◌≢◌, inl, inr, refl, sym, ◌∙◌, ap, true, ◌==◌, Bool-cases,
  List, length, length-set, get_or-set_self, get_or-set_ne, arith,
}
use bb6502_verilog.Machine.Mmu.{is_ctrl, write_ctrl, update}
use bb6502_verilog.Machine.Bus.{Machine, Acia, bus_write}
use bb6502_verilog.Machine.Ram.{with_ppn}
use bb6502_verilog.Kernel.Process.{Process, Table, ppn_entry}
use bb6502_verilog.Kernel.Process.Pages.{ppn_entry_lem}
use bb6502_verilog.Kernel.Spawn.{System, process_at, unused}
use bb6502_verilog.Kernel.Spawn.Entry.{IsAt}
use bb6502_verilog.Kernel.Spawn.Started.{IsLoaded}
use bb6502_verilog.Kernel.Switch.{Running, running, open_all, resume_current, sched_start}
use bb6502_verilog.Kernel.Switch.Saved.{IsReady}
use bb6502_verilog.Kernel.Switch.Turns.{marked, resume_current_lem}
use bb6502_verilog.Kernel.Boot.Steps.{IsBooting}
use bb6502_verilog.Kernel.Boot.Wave.{IsWave, IsLoaded-kept}

-- The machine with other permission registers.
abbrev with_bits : (u w : ℕ → ℕ) → Machine → Machine
with_bits u w m = record m { mmu = record m.mmu { u_bits = u; w_bits = w } }

bits_lem :
    (x : ℕ) (m : Machine)
    → x < 4
    → m.mmu.kernel ≡ true
    → bus_write (0x80a4 + x) 0xff (bus_write (0x80a0 + x) 0xff m)
      ≡ with_bits (update m.mmu.u_bits x 0xff) (update m.mmu.w_bits x 0xff) m
unfolding bus_write is_ctrl write_ctrl
bits_lem zero m h kernel = rw kernel refl
bits_lem (suc zero) m h kernel = rw kernel refl
bits_lem (suc (suc zero)) m h kernel = rw kernel refl
bits_lem (suc (suc (suc zero))) m h kernel = rw kernel refl
bits_lem (suc (suc (suc (suc x)))) m h kernel = absurd (omega arith)

open_all_lem :
    (n : ℕ) (m : Machine)
    → n ≤ 4
    → m.mmu.kernel ≡ true
    → (u w : ℕ → ℕ) × (open_all n m ≡ with_bits u w m)
unfolding open_all
open_all_lem zero m h kernel = (m.mmu.u_bits, m.mmu.w_bits, refl)
open_all_lem (suc x) m h kernel =
    let one = with_bits (update m.mmu.u_bits x 0xff) (update m.mmu.w_bits x 0xff) m in
    let (u, w, rest) = open_all_lem x one (omega arith) kernel in
    (u, w, ap (open_all x) (bits_lem x m (omega arith) kernel) ∙ rest)

-- The scheduler has started process 0 of the three programs; the others wait.
pub record IsLaunched (img : ℕ → ℕ) (r : Running) : Type 0 where
  pub count : r.system.table.nprocs ≡ 3
  pub first : r.system.table.plist_idx ≡ 0
  pub sp : r.sp ≡ 0xfc
  pub pages : (j : ℕ) → j < 32 → r.system.machine.mmu.ppn j ≡ ppn_entry 1 j
  pub loaded :
      (i : ℕ) → i < 3 → IsLoaded (200 + 10 * i) 1 img (process_at r.system.table i) r.system.machine
  pub ready : IsReady r

entry_small : (base j : ℕ) → ppn_entry base j < 32
entry_small base j = omega (arith, ppn_entry_lem base j)

-- The table that sched_start leaves.
abbrev first_marked : Table → Table
first_marked t = marked (record t { plist_idx = 0 })

marked_first :
    (t : Table)
    → length t.plist ≡ 4
    → process_at (first_marked t) 0 ≡ record (process_at t 0) { state = running }
marked_first t size = get_or-set_self t.plist 0 _ unused (omega (arith, size))

marked_later : (t : Table) (i : ℕ) → 0 ≢ i → process_at (first_marked t) i ≡ process_at t i
marked_later t i other = get_or-set_ne t.plist 0 i _ unused other

marked_at :
    (base : ℕ) (t : Table) (i : ℕ)
    → length t.plist ≡ 4
    → IsAt base (process_at t i)
    → IsAt base (process_at (first_marked t) i)
marked_at base t i size at j h = elim (Bool-cases (i == 0)) [
  | inl zeroth ↦
      let e : i ≡ 0 = ground arith in
      ap (λ k. (process_at (first_marked t) k).mmu_ppn_table j) e
      ∙ ap (λ (p : Process). p.mmu_ppn_table j) (marked_first t size)
      ∙ ap (λ k. (process_at t k).mmu_ppn_table j) (sym e)
      ∙ at j h
  | inr later ↦ ap (λ (p : Process). p.mmu_ppn_table j) (marked_later t i (ground arith)) ∙ at j h
]

launched_lem :
    (img : ℕ → ℕ) (s : System) (f u w : ℕ → ℕ)
    → IsBooting img s
    → IsWave img 3 s
    → ((j : ℕ) → j < 32 → f j ≡ (process_at s.table 0).mmu_ppn_table j)
    → IsLaunched img (record {
      system = record {
        machine = with_ppn f (with_bits u w s.machine);
        table = first_marked s.table;
      };
      sp = (process_at s.table 0).sp;
    })
launched_lem img s f u w boots wave pages =
    let m' = with_ppn f (with_bits u w s.machine) in
    let zeroth = wave.each 0 (omega arith) in
    record {
      count = wave.count;
      first = refl;
      sp = zeroth.started.sp;
      pages = λ j h. pages j h ∙ zeroth.at j h;
      loaded = λ i h.
          let each = wave.each i h in
          IsLoaded-kept (200 + 10 * i) (1 + 2 * i) img (process_at s.table i)
            (process_at (first_marked s.table) i) s.machine m' each.at
            (marked_at (1 + 2 * i) s.table i boots.size each.at) (λ va own. refl)
            each.started.loaded;
      ready = record {
        size = length-set s.table.plist 0 _ ∙ boots.size;
        few = omega (arith, wave.count);
        current = omega (arith, wave.count);
        waits = λ i h other.
            ap (λ (p : Process). p.state) (marked_later s.table i other)
            ∙ (wave.each i (omega (arith, wave.count))).started.state;
        tables = λ i h j low.
            let at =
              marked_at (1 + 2 * i) s.table i boots.size
                (wave.each i (omega (arith, wave.count))).at in
            omega (arith, at j low, entry_small (1 + 2 * i) j);
        paged = λ j h. omega (arith, pages j h, zeroth.at j h, entry_small 1 j);
        kernel = boots.kernel;
      };
    }

pub sched_start-IsLaunched :
    (img : ℕ → ℕ) (s : System) → IsBooting img s → IsWave img 3 s → IsLaunched img (sched_start s)
unfolding sched_start
sched_start-IsLaunched img s boots wave =
    let zeroth = wave.each 0 (omega arith) in
    let (u, w, opened) = open_all_lem 4 s.machine (omega arith) boots.kernel in
    let (f, done, pages) =
      resume_current_lem (with_bits u w s.machine) (record s.table { plist_idx = 0 }) boots.kernel
        (λ j h. omega (arith, zeroth.at j h, entry_small 1 j)) in
    subst (IsLaunched img)
      (sym (ap (λ m. resume_current m (record s.table { plist_idx = 0 })) opened ∙ done))
      (launched_lem img s f u w boots wave pages)

-- Output changes nothing of the programs.
pub IsWave-ports :
    (img : ℕ → ℕ) (n : ℕ) (a : Acia) (g : List ℕ) (s : System)
    → IsWave img n s
    → IsWave img n (record s { machine = record s.machine { acia = a; gpu_sent = g } })
IsWave-ports img n a g s wave = record {
  count = wave.count;
  each = λ i h.
      let was = wave.each i h in
      let p = process_at s.table i in
      record {
        at = was.at;
        started = record {
          state = was.started.state;
          sp = was.started.sp;
          loaded =
              IsLoaded-kept (200 + 10 * i) (1 + 2 * i) img p p s.machine
                (record s.machine { acia = a; gpu_sent = g }) was.at was.at (λ va own. refl)
                was.started.loaded;
        };
      };
}
