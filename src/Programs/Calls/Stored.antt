-- ===== src/Programs/Calls/Stored.antt =====
-- The slots that a stub fills, and a call that writes a text.
use bb6502_verilog.Common.{
  ℕ, ◌+◌, ◌*◌, ◌^◌, ◌<◌, ◌≤◌, ◌≡◌, ◌≢◌, true, refl, sym, ◌∙◌, ap, ◌==◌, some, List, [], ◌∷◌, ◌++◌,
  append-nil, arith,
}
use bb6502_verilog.Common.Maybe.{◌>>=◌}
use bb6502_verilog.Machine.Bus.{Machine, Acia, data_in}
use bb6502_verilog.Kernel.UserMemory.Translate.{in_user, data_in-user}
use bb6502_verilog.Kernel.Console.Output.{Counts, shown}
use bb6502_verilog.Kernel.Syscalls.{Env, off_ret, syscall_dispatch}
use bb6502_verilog.Kernel.Syscalls.Slots.{InCall, with_slot}
use bb6502_verilog.Kernel.Entry.{Cpu, in_kernel, sys_call}
use bb6502_verilog.Kernel.Entry.Writes.{poke, low_page}
use bb6502_verilog.Kernel.Entry.Stack.{IsUsable, IsCpu, IsStub}
use bb6502_verilog.Kernel.Entry.Call.{Entered, sys_call-dispatches, sys_call-returns}
use bb6502_verilog.Programs.Syslib.{low_byte, high_byte, go_on}
use bb6502_verilog.Programs.Calls.{SameAway, IsRunning, Wrote, Entered-away, Entered-slot}

-- What a text changes.
shown_lem :
    (cs : List ℕ) (m : Machine)
    → Counts m
    → (a : Acia) × (g : List ℕ) × (shown cs m ≡ record m { acia = a; gpu_sent = g })
      × (a.tx_count ≤ 86)
      × (a.sent ≡ m.acia.sent ++ cs)
      × (g ≡ m.gpu_sent ++ cs)
unfolding shown
shown_lem [] m few =
    (m.acia, m.gpu_sent, refl, few, sym (append-nil m.acia.sent), sym (append-nil m.gpu_sent))
shown_lem (c ∷ cs) m few =
    let sent = shown (c ∷ cs) m in (sent.acia, sent.gpu_sent, refl, omega arith, refl, refl)

-- A slot of the user's page 0 written.
pub poke-IsUsable :
    (off v : ℕ) (m : Machine) → v < 256 → IsUsable m → IsUsable (poke (low_page m off) v m)
poke-IsUsable off v m h usable = record {
  table = usable.table;
  bytes = λ i. ground (arith, usable.bytes i);
  own = usable.own;
}

pub poke-away :
    (off v : ℕ) (m : Machine) → off < 2 ^ 10 → SameAway m m.ram (poke (low_page m off) v m).ram
poke-away off v m h a (kernel, own) =
    let apart : low_page m off ≢ a = λ e. own (omega (arith, e)) in ground (arith, apart)

-- The handler's view of the machine.
pub in_call :
    (n : ℕ) (c : Cpu) (m : Machine) (r : ℕ → ℕ)
    → IsUsable m
    → Entered n c m r
    → InCall (in_kernel (record m { ram = r }))
in_call n c m r usable entered = record {
  kernel = refl;
  table = usable.table;
  bytes = entered.bytes;
}

-- A stub whose call writes a text.
pub output_lem :
    (env : Env) (n : ℕ) (c : Cpu) (cs : List ℕ) (m : Machine)
    → IsRunning m
    → IsCpu c
    → IsStub n c.pc m
    → n ≢ 0
    → ((r : ℕ → ℕ)
        → Entered n c m r
        → syscall_dispatch env (in_kernel (record m { ram = r }))
          ≡ some (with_slot off_ret 0 (shown cs (in_kernel (record m { ram = r })))))
    → (m' : Machine) × ((sys_call env c (in_user m) >>= go_on c.pc) ≡ some (in_user m'))
      × Wrote cs m m'
unfolding go_on
output_lem env n c cs m running cpu stub some_call dispatched =
    let usable = running.usable in
    let (r, called, entered) = sys_call-dispatches env n c m usable cpu stub some_call in
    let (a, g, out, few, sent, gpu) =
      shown_lem cs (in_kernel (record m { ram = r })) running.counts in
    let m' = with_slot off_ret 0 (record m { ram = r; acia = a; gpu_sent = g }) in
    let done : syscall_dispatch env (in_kernel (record m { ram = r })) ≡ some (in_kernel m') =
      dispatched r entered ∙ ap (λ x. some (with_slot off_ret 0 x)) out in
    let back =
      sys_call-returns env n c m m' r cpu called entered done refl
        λ k low high. ground (arith, cpu.room) in
    let next : (c.pc + 2 == c.pc + 2) ≡ true = ground arith in
    (
      m',
      rw (back, next) refl,
      record {
        running = record {
          usable = record {
            table = usable.table;
            bytes = λ i. ground (arith, entered.bytes i);
            own = usable.own;
          };
          counts = few;
        };
        mmu = refl;
        disk = refl;
        sent = sent;
        gpu = gpu;
        away = λ b far.
            let apart : low_page m off_ret ≢ b = λ e. far.1 (omega (arith, e)) in
            let old = Entered-away n c m r cpu entered b far in ground (arith, apart, old);
      },
    )

-- The slots that a stub fills are in page 0.
pub Wrote-from :
    (cs : List ℕ) (q : ℕ → ℕ) (m m' : Machine)
    → SameAway m m.ram q
    → Wrote cs (record m { ram = q }) m'
    → Wrote cs m m'
Wrote-from cs q m m' same w = record {
  running = w.running;
  mmu = w.mmu;
  disk = w.disk;
  sent = w.sent;
  gpu = w.gpu;
  away = λ a far. w.away a far ∙ same a far;
}

pub with_ax : (c : Cpu) (a x : ℕ) → a < 256 → x < 256 → IsCpu c → IsCpu (record c { a = a; x = x })
with_ax c a x h k cpu = record {
  a_small = h;
  x_small = k;
  y_small = cpu.y_small;
  p_small = cpu.p_small;
  sp_small = cpu.sp_small;
  room = cpu.room;
  pc_small = cpu.pc_small;
}

-- The word that a stub has stored in two slots.
pub stored_word :
    (n lo hi v : ℕ) (c : Cpu) (m : Machine) (r : ℕ → ℕ)
    → IsUsable m
    → Entered n c m r
    → lo < 256
    → hi < 256
    → m.ram (low_page m lo) ≡ low_byte v
    → m.ram (low_page m hi) ≡ high_byte v
    → v < 2 ^ 16
    → data_in hi (in_user (record m { ram = r })) * 2 ^ 8
        + data_in lo (in_user (record m { ram = r }))
      ≡ v
stored_word n lo hi v c m r usable entered l h low high small =
    let m1 : Machine = record m { ram = r } in
    let first = data_in-user m1 lo l ∙ Entered-slot n c m r lo usable entered l ∙ low in
    let second = data_in-user m1 hi h ∙ Entered-slot n c m r hi usable entered h ∙ high in
    rw (first, second) (omega arith)
