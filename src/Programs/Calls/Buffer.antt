-- ===== src/Programs/Calls/Buffer.antt =====
-- The buffer of sys_block_read, and the RAM behind its call.
use bb6502_verilog.Common.{
  ℕ, ◌+◌, ◌-◌, ◌/◌, ◌%◌, ◌^◌, ◌<◌, ◌≤◌, ◌≡◌, ◌≢◌, ◌⊎◌, refl, sym, ◌∙◌, ap, ltb, leb, leb→le, ltb→lt,
  and-true, if-elim, Bool-cases, inl, inr, ◌&&◌, if◌then◌else◌, arith,
}
use bb6502_verilog.Machine.Mmu.{update, vpn, ram_addr}
use bb6502_verilog.Machine.Bus.{Machine, data_in, bus_write}
use bb6502_verilog.Kernel.UserMemory.Translate.{in_user}
use bb6502_verilog.Kernel.Syscalls.{off_ret, off_arg0_lo, off_arg0_hi, off_arg1_lo, off_arg1_hi}
use bb6502_verilog.Kernel.Syscalls.Blocks.{IsBlockCall, frame}
use bb6502_verilog.Kernel.Entry.{Cpu, in_kernel}
use bb6502_verilog.Kernel.Entry.Writes.{poke, low_page, user_write}
use bb6502_verilog.Kernel.Entry.Stack.{IsUsable, IsCpu, IsAway, frame_at}
use bb6502_verilog.Kernel.Entry.Call.{Entered}
use bb6502_verilog.Programs.Syslib.{low_byte, high_byte}
use bb6502_verilog.Programs.Calls.{SameAway, IsRunning}
use bb6502_verilog.Programs.Calls.Stored.{poke-IsUsable, poke-away, in_call, stored_word}

-- A buffer of a block, within a page that is neither the user's page 0 nor the kernel's first one.
pub record IsBuffer (buf : ℕ) (m : Machine) : Type 0 where
  pub low : buf < 2 ^ 15
  pub in_page : buf % 2 ^ 10 + 512 ≤ 2 ^ 10
  pub page : IsAway m (m.mmu.ppn (vpn buf))
  pub old_lba : m.disk.lba < 2 ^ 32

-- What the call has changed when its result is `ret`: the cells of the buffer hold `bytes`.
pub record Read (buf ret : ℕ) (bytes : ℕ → ℕ) (m m' : Machine) : Type 0 where
  pub running : IsRunning m'
  pub mmu : m'.mmu ≡ m.mmu
  pub sent : m'.acia.sent ≡ m.acia.sent
  pub gpu : m'.gpu_sent ≡ m.gpu_sent
  pub result : data_in off_ret (in_user m') ≡ ret
  pub buffer : (i : ℕ) → i < 512 → data_in (buf + i) (in_user m') ≡ bytes i
  pub away :
      (a : ℕ)
      → IsAway m (a / 2 ^ 10)
      → (a < frame buf m) ⊎ (frame buf m + 512 ≤ a)
      → m'.ram a ≡ m.ram a

-- The slots that the stub fills.
abbrev pub filled : (lba buf : ℕ) → Machine → Machine
filled lba buf m = poke (low_page m off_arg0_hi) (high_byte lba) (
    poke (low_page m off_arg0_lo) (low_byte lba) (
      poke (low_page m off_arg1_hi) (high_byte buf)
        (poke (low_page m off_arg1_lo) (low_byte buf) m)))

pub filled_lem :
    (lba buf : ℕ) (m : Machine)
    → bus_write off_arg0_hi (high_byte lba) (
        bus_write off_arg0_lo (low_byte lba) (
          bus_write off_arg1_hi (high_byte buf) (bus_write off_arg1_lo (low_byte buf) (in_user m))))
      ≡ in_user (filled lba buf m)
filled_lem lba buf m =
    let m1 = poke (low_page m off_arg1_lo) (low_byte buf) m in
    let m2 = poke (low_page m off_arg1_hi) (high_byte buf) m1 in
    let m3 = poke (low_page m off_arg0_lo) (low_byte lba) m2 in
    rw
      (
        user_write off_arg1_lo (low_byte buf) m (omega arith),
        user_write off_arg1_hi (high_byte buf) m1 (omega arith),
        user_write off_arg0_lo (low_byte lba) m2 (omega arith),
      )
      (user_write off_arg0_hi (high_byte lba) m3 (omega arith))

pub filled-away : (lba buf : ℕ) (m : Machine) → SameAway m m.ram (filled lba buf m).ram
filled-away lba buf m a far =
    let m1 = poke (low_page m off_arg1_lo) (low_byte buf) m in
    let m2 = poke (low_page m off_arg1_hi) (high_byte buf) m1 in
    let m3 = poke (low_page m off_arg0_lo) (low_byte lba) m2 in
    poke-away off_arg0_hi (high_byte lba) m3 (omega arith) a far
    ∙ poke-away off_arg0_lo (low_byte lba) m2 (omega arith) a far
    ∙ poke-away off_arg1_hi (high_byte buf) m1 (omega arith) a far
    ∙ poke-away off_arg1_lo (low_byte buf) m (omega arith) a far

pub filled-IsUsable : (lba buf : ℕ) (m : Machine) → IsUsable m → IsUsable (filled lba buf m)
filled-IsUsable lba buf m usable = poke-IsUsable off_arg0_hi (high_byte lba) _ (omega arith) (
    poke-IsUsable off_arg0_lo (low_byte lba) _ (omega arith) (
      poke-IsUsable off_arg1_hi (high_byte buf) _ (omega arith)
        (poke-IsUsable off_arg1_lo (low_byte buf) m (omega arith) usable)))

-- The handler finds the arguments.
pub block_call_lem :
    (n lba buf : ℕ) (c : Cpu) (m : Machine) (r : ℕ → ℕ)
    → IsUsable m
    → IsBuffer buf m
    → lba < 2 ^ 16
    → Entered n c (filled lba buf m) r
    → IsBlockCall lba buf (in_kernel (record m { ram = r }))
block_call_lem n lba buf c m r usable b small entered =
    let m4 = filled lba buf m in
    let usable4 = filled-IsUsable lba buf m usable in
    record {
      call = in_call n c m4 r usable4 entered;
      arg0 =
          stored_word n off_arg0_lo off_arg0_hi lba c m4 r usable4 entered (omega arith)
            (omega arith) (ground arith) (ground arith) small;
      arg1 =
          stored_word n off_arg1_lo off_arg1_hi buf c m4 r usable4 entered (omega arith)
            (omega arith) (ground arith) (ground arith) (omega (arith, b.low));
      low = b.low;
      page = b.in_page;
      old_lba = b.old_lba;
    }

-- A cell of the user's page 0 is not in the buffer.
pub low_page-apart :
    (buf off : ℕ) (m : Machine)
    → IsBuffer buf m
    → off < 2 ^ 10
    → (low_page m off < frame buf m) ⊎ (frame buf m + 512 ≤ low_page m off)
unfolding ram_addr
low_page-apart buf off m b h = let (kernel, own) = b.page in ground (arith, own, b.in_page)

pub frame_apart :
    (buf k : ℕ) (c : Cpu) (m : Machine)
    → IsBuffer buf m
    → IsCpu c
    → k < 4
    → (frame_at c m + k < frame buf m) ⊎ (frame buf m + 512 ≤ frame_at c m + k)
unfolding ram_addr
frame_apart buf k c m b cpu h =
    let (kernel, own) = b.page in ground (arith, own, b.in_page, cpu.sp_small, cpu.room)

-- The RAM behind the handler: the bytes of the buffer, the RET slot, and the rest as `r` has it.
pub record After (buf ret : ℕ) (bytes : ℕ → ℕ) (m : Machine) (r r' : ℕ → ℕ) : Type 0 where
  pub filled : (i : ℕ) → i < 512 → r' (frame buf m + i) ≡ bytes i
  pub result : r' (low_page m off_ret) ≡ ret
  pub others :
      (a : ℕ)
      → 2 ^ 10 ≤ a
      → (a < frame buf m) ⊎ (frame buf m + 512 ≤ a)
      → low_page m off_ret ≢ a
      → r' a ≡ r a
  pub small : (i : ℕ) → r' i < 256

-- The buffer is behind the kernel's first page.
pub buffer_from : (buf : ℕ) (m : Machine) → IsBuffer buf m → 2 ^ 10 ≤ frame buf m
unfolding ram_addr
buffer_from buf m b = let (kernel, own) = b.page in omega arith

pub after_lem :
    (buf ret : ℕ) (bytes r r1 : ℕ → ℕ) (m : Machine)
    → IsBuffer buf m
    → ((i : ℕ) → bytes i < 256)
    → ret < 256
    → ((i : ℕ) → r i < 256)
    → ((a : ℕ)
        → 0x20 ≤ a
        → r1 a ≡ (
            if leb (frame buf m) a && ltb a (frame buf m + 512)
            then bytes (a - frame buf m)
            else r a))
    → ((a : ℕ) → a < 0x20 → r a < 256 → r1 a < 256)
    → After buf ret bytes m r (update r1 (low_page m off_ret) ret)
after_lem buf ret bytes r r1 m b bytes_small ret_small r_small cells variables = record {
  filled = λ i h.
      let apart = low_page-apart buf off_ret m b (omega arith) in
      let same : frame buf m + i - frame buf m ≡ i = omega arith in
      let cell = rw same at (cells (frame buf m + i) (omega (arith, buffer_from buf m b))) in
      ground (arith, apart, cell);
  result = ground arith;
  others = λ a user out apart. let cell = cells a (omega arith) in ground (arith, cell);
  small = λ i. elim (Bool-cases (ltb i 0x20)) [
    | inl variable ↦ let held = variables i (ground arith) (r_small i) in ground (arith, held)
    | inr user ↦
        let cell = cells i (ground arith) in
        ground (arith, cell, bytes_small (i - frame buf m), r_small i)
  ];
}

pub buffer-IsAway :
    (buf i : ℕ) (m : Machine) → IsBuffer buf m → i < 512 → IsAway m ((frame buf m + i) / 2 ^ 10)
unfolding ram_addr
buffer-IsAway buf i m b h =
    let page : (frame buf m + i) / 2 ^ 10 ≡ m.mmu.ppn (vpn buf) = omega (arith, b.in_page) in
    rw page b.page

-- A buffer that is as it was.
pub unread :
    (buf a : ℕ) (m : Machine) (r : ℕ → ℕ)
    → IsBuffer buf m
    → SameAway m m.ram r
    → r a ≡ (
        if leb (frame buf m) a && ltb a (frame buf m + 512)
        then m.ram (frame buf m + (a - frame buf m))
        else r a)
unfolding ram_addr
unread buf a m r b same =
    if-elim (λ x. r a ≡ x) (leb (frame buf m) a && ltb a (frame buf m + 512))
      (λ inside.
        let (above, below) = and-true {a = leb (frame buf m) a} inside in
        let low = leb→le (frame buf m) a above in
        let high = ltb→lt a (frame buf m + 512) below in
        let page : a / 2 ^ 10 ≡ m.mmu.ppn (vpn buf) = omega (arith, b.in_page) in
        let whole : frame buf m + (a - frame buf m) ≡ a = omega arith in
        same a (rw page b.page) ∙ ap m.ram (sym whole))
      (λ _. refl)
