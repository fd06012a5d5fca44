-- ===== src/Kernel/Entry/Stack.antt =====
-- What a stub and BRK push on the stack of the user.
use bb6502_verilog.Common.{
  ℕ, zero, suc, ◌+◌, ◌-◌, ◌/◌, ◌%◌, ◌^◌, ◌<◌, ◌≤◌, ◌≡◌, ◌≢◌, ◌⊎◌, refl, ◌∙◌, ap, Bool, true, ◌&&◌,
  and-true, ltb, ltb→lt, ◌==◌, arith,
}
use bb6502_verilog.Common.Bits.{bit, bit_or, low_bits, shr}
use bb6502_verilog.Machine.Mmu.{IsTable, vpn}
use bb6502_verilog.Machine.Bus.{Machine, data_in}
use bb6502_verilog.Kernel.UserMemory.Translate.{in_user}
use bb6502_verilog.Kernel.Entry.{Cpu, pushed, push, push_registers, push_brk}
use bb6502_verilog.Kernel.Entry.Writes.{poke, low_page, user_write}

-- A machine whose user has a page 0 of its own.
pub record IsUsable (m : Machine) : Type 0 where
  pub table : IsTable m.mmu.ppn
  pub bytes : (i : ℕ) → m.ram i < 256
  pub own : m.mmu.ppn 0 ≢ 0

-- Registers of 8 bits, with room on the stack for the two frames, and a BRK in the user's memory.
pub record IsCpu (c : Cpu) : Type 0 where
  pub a_small : c.a < 256
  pub x_small : c.x < 256
  pub y_small : c.y < 256
  pub p_small : c.p < 256
  pub sp_small : c.sp < 256
  pub room : 6 ≤ c.sp
  pub pc_small : c.pc + 1 < 2 ^ 15

-- A frame of the RAM that is neither the kernel's first page nor the user's page 0.
abbrev pub IsAway : Machine → ℕ → Type 0
IsAway m frame = (frame ≢ 0) × (frame ≢ m.mmu.ppn 0)

-- The number byte of a system call, in such a frame.
pub record IsStub (n pc : ℕ) (m : Machine) : Type 0 where
  pub number : data_in (pc + 1) (in_user m) ≡ n
  pub page : IsAway m (m.mmu.ppn (vpn (pc + 1)))

all_below : ℕ → (ℕ → Bool) → Bool
all_below zero p = true
all_below (suc n) p = p n && all_below n p

all_below_lem : (n : ℕ) (p : ℕ → Bool) (x : ℕ) → all_below n p ≡ true → x < n → p x ≡ true
unfolding all_below
all_below_lem zero p x h lt = absurd (omega arith)
all_below_lem (suc n) p x h lt = ground (arith, all_below_lem n p x)

status_table : all_below 256 (λ p. ltb (bit_or p 0x30) 256 && (bit (bit_or p 0x30) 4 == 1)) ≡ true
unfolding all_below
status_table = refl

-- The status that BRK pushes is a byte with B set.
pub status_lem : (p : ℕ) → p < 256 → (bit_or p 0x30 < 256) × ((bit (bit_or p 0x30) 4 == 1) ≡ true)
status_lem p h =
    let (small, set) =
      and-true {a = ltb (bit_or p 0x30) 256} (all_below_lem 256 _ p status_table h) in
    (ltb→lt (bit_or p 0x30) 256 small, set)

-- The stack pointer of the handler, in the RAM.
abbrev pub frame_at : Cpu → Machine → ℕ
frame_at c m = low_page m (0x100 + (c.sp - 6))

push_lem :
    (sp v : ℕ) (m : Machine)
    → sp < 256
    → push sp v (in_user m) ≡ in_user (poke (low_page m (0x100 + sp)) v m)
unfolding push
push_lem sp v m h = user_write (0x100 + sp) v m (omega arith)

-- What the RAM `r` holds when the handler starts, and that nothing else has changed.
pub record Pushed (c : Cpu) (m : Machine) (r : ℕ → ℕ) : Type 0 where
  pub status : r (frame_at c m + 1) ≡ bit_or c.p 0x30
  pub pcl : r (frame_at c m + 2) ≡ (c.pc + 2) % 256
  pub pch : r (frame_at c m + 3) ≡ (c.pc + 2) / 256 % 256
  pub others : (a : ℕ) → (a ≤ frame_at c m) ⊎ (frame_at c m + 6 < a) → r a ≡ m.ram a
  pub bytes : (i : ℕ) → r i < 256

-- The RAM behind the six pushes, from the stack pointer s + 6 down.
abbrev stacked : (s a x y hi lo status : ℕ) → Machine → Machine
stacked s a x y hi lo status m = poke (low_page m (0x100 + (s + 1))) status (
    poke (low_page m (0x100 + (s + 2))) lo (
      poke (low_page m (0x100 + (s + 3))) hi (
        poke (low_page m (0x100 + (s + 4))) y
          (poke (low_page m (0x100 + (s + 5))) x (poke (low_page m (0x100 + (s + 6))) a m)))))

pushed_lem : (s : ℕ) → s + 1 < 256 → pushed (s + 1) ≡ s
pushed_lem s h = omega arith

registers_lem :
    (s : ℕ) (c : Cpu) (m : Machine)
    → s + 6 < 256
    → push_registers (record c { sp = s + 6 }) (in_user m)
      ≡ in_user (
          poke
            (low_page m (0x100 + (s + 4)))
            c.y
            (poke (low_page m (0x100 + (s + 5))) c.x (poke (low_page m (0x100 + (s + 6))) c.a m)))
unfolding push_registers
registers_lem s c m h =
    let sp1 : pushed (s + 6) ≡ s + 5 = omega arith in
    let sp2 : pushed (s + 5) ≡ s + 4 = omega arith in
    let m1 = poke (low_page m (0x100 + (s + 6))) c.a m in
    let m2 = poke (low_page m (0x100 + (s + 5))) c.x m1 in
    rw (sp1, sp2, push_lem (s + 6) c.a m (omega arith), push_lem (s + 5) c.x m1 (omega arith))
      (push_lem (s + 4) c.y m2 (omega arith))

frame_lem :
    (s pc p : ℕ) (m : Machine)
    → s + 6 < 256
    → push_brk (s + 3) pc p (in_user m)
      ≡ in_user (
          poke (low_page m (0x100 + (s + 1))) (bit_or p 0x30) (
            poke
              (low_page m (0x100 + (s + 2)))
              (low_bits (pc + 2) 8)
              (poke (low_page m (0x100 + (s + 3))) (low_bits (shr (pc + 2) 8) 8) m)))
unfolding push_brk
frame_lem s pc p m h =
    let sp1 : pushed (s + 3) ≡ s + 2 = omega arith in
    let sp2 : pushed (s + 2) ≡ s + 1 = omega arith in
    let m1 = poke (low_page m (0x100 + (s + 3))) (low_bits (shr (pc + 2) 8) 8) m in
    let m2 = poke (low_page m (0x100 + (s + 2))) (low_bits (pc + 2) 8) m1 in
    rw
      (
        sp1,
        sp2,
        push_lem (s + 3) (low_bits (shr (pc + 2) 8) 8) m (omega arith),
        push_lem (s + 2) (low_bits (pc + 2) 8) m1 (omega arith),
      )
      (push_lem (s + 1) (bit_or p 0x30) m2 (omega arith))

stacked-bytes :
    (s a x y hi lo status : ℕ) (m : Machine)
    → a < 256
    → x < 256
    → y < 256
    → hi < 256
    → lo < 256
    → status < 256
    → ((i : ℕ) → m.ram i < 256)
    → (i : ℕ) → (stacked s a x y hi lo status m).ram i < 256
stacked-bytes s a x y hi lo status m h1 h2 h3 h4 h5 h6 bytes i = ground (arith, bytes i)

stacked-others :
    (s a x y hi lo status i : ℕ) (m : Machine)
    → (i ≤ low_page m (0x100 + s)) ⊎ (low_page m (0x100 + s) + 6 < i)
    → (stacked s a x y hi lo status m).ram i ≡ m.ram i
stacked-others s a x y hi lo status i m h = ground arith

pub pushes_lem :
    (c : Cpu) (m : Machine)
    → IsUsable m
    → IsCpu c
    → (r : ℕ → ℕ) × (push_brk (c.sp - 3) c.pc c.p (push_registers c (in_user m))
        ≡ in_user (record m { ram = r }))
      × Pushed c m r
pushes_lem c m usable cpu =
    let s = c.sp - 6 in
    let full : c.sp ≡ s + 6 = omega (arith, cpu.room) in
    let less : c.sp - 3 ≡ s + 3 = omega (arith, cpu.room) in
    let small : s + 6 < 256 = omega (arith, cpu.room, cpu.sp_small) in
    let hi = low_bits (shr (c.pc + 2) 8) 8 in
    let lo = low_bits (c.pc + 2) 8 in
    let status = bit_or c.p 0x30 in
    let status_small = (status_lem c.p cpu.p_small).0 in
    let m3 =
      poke (low_page m (0x100 + (s + 4))) c.y
        (poke (low_page m (0x100 + (s + 5))) c.x (poke (low_page m (0x100 + (s + 6))) c.a m)) in
    (
      (stacked s c.a c.x c.y hi lo status m).ram,
      ap (λ q. push_brk q c.pc c.p (push_registers c (in_user m))) less
          ∙ ap (λ q. push_brk (s + 3) c.pc c.p (push_registers (record c { sp = q }) (in_user m)))
              full
          ∙ ap (push_brk (s + 3) c.pc c.p) (registers_lem s c m small)
          ∙ frame_lem s c.pc c.p m3 small,
      record {
        status = ground arith;
        pcl = ground arith;
        pch = ground arith;
        others = λ i h. stacked-others s c.a c.x c.y hi lo status i m h;
        bytes =
            stacked-bytes s c.a c.x c.y hi lo status m cpu.a_small cpu.x_small cpu.y_small
              (omega arith) (omega arith) status_small usable.bytes;
      },
    )
