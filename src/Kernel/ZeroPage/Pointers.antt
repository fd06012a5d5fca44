-- ===== src/Kernel/ZeroPage/Pointers.antt =====
-- Pointers of the zero page in kernel mode.
use bb6502_verilog.Common.{ℕ, ◌+◌, ◌/◌, ◌%◌, ◌^◌, ◌<◌, ◌≤◌, ◌≡◌, ◌≢◌, ◌∙◌, ap, true, arith}
use bb6502_verilog.Common.Bits.{shr, u8}
use bb6502_verilog.Machine.Mmu.{update}
use bb6502_verilog.Machine.Bus.{Machine, bus_write}
use bb6502_verilog.Machine.Ram.{data_in-kernel, bus_write-kernel}
use bb6502_verilog.Kernel.ZeroPage.{set_ptr, indirect, inc_high, dec_high}

-- The pointer at p is v.
pub record Points (p v : ℕ) (ram : ℕ → ℕ) : Type 0 where
  pub low : ram p ≡ v % 256
  pub high : ram (p + 1) ≡ v / 256

pub Points-kept :
    (p v : ℕ) (r r' : ℕ → ℕ) → r' p ≡ r p → r' (p + 1) ≡ r (p + 1) → Points p v r → Points p v r'
Points-kept p v r r' e f was = record { low = e ∙ was.low; high = f ∙ was.high }

pub Points-at : (p v w : ℕ) (r : ℕ → ℕ) → v ≡ w → Points p v r → Points p w r
Points-at p v w r e at = record {
  low = at.low ∙ ap (λ x. x % 256) e;
  high = at.high ∙ ap (λ x. x / 256) e;
}

pub indirect_lem :
    (p v y : ℕ) (m : Machine)
    → m.mmu.kernel ≡ true
    → p + 2 ≤ 0x20
    → Points p v m.ram
    → v + y < 2 ^ 15
    → indirect p y m ≡ v + y
indirect_lem p v y m kernel h at small =
    let low = data_in-kernel m p kernel (omega arith) ∙ at.low in
    let high = data_in-kernel m (p + 1) kernel (omega arith) ∙ at.high in
    rw (low, high) (omega arith)

-- The cells behind a store of a pointer.
abbrev pub pointed : (p v : ℕ) → (ℕ → ℕ) → ℕ → ℕ
pointed p v ram = update (update ram p (u8 v)) (p + 1) (u8 (shr v 8))

pub pointed-Points : (p v : ℕ) (ram : ℕ → ℕ) → v < 2 ^ 16 → Points p v (pointed p v ram)
pointed-Points p v ram h =
    let high : u8 (shr v 8) ≡ v / 256 = omega arith in
    record { low = ground arith; high = rw high (ground arith) }

pub set_ptr_lem :
    (p v : ℕ) (m : Machine)
    → m.mmu.kernel ≡ true
    → p + 2 ≤ 0x20
    → set_ptr p v m ≡ record m { ram = pointed p v m.ram }
unfolding set_ptr
set_ptr_lem p v m kernel h =
    ap (bus_write (p + 1) (u8 (shr v 8))) (bus_write-kernel p (u8 v) m (omega arith) kernel)
    ∙ bus_write-kernel (p + 1) (u8 (shr v 8)) (record m { ram = update m.ram p (u8 v) })
        (omega arith) kernel

-- The next page.
abbrev pub raised : (p v : ℕ) → (ℕ → ℕ) → ℕ → ℕ
raised p v ram = update ram (p + 1) (v / 256)

pub inc_high_lem :
    (p v : ℕ) (m : Machine)
    → m.mmu.kernel ≡ true
    → p + 2 ≤ 0x20
    → Points p v m.ram
    → v + 256 < 2 ^ 16
    → inc_high p m ≡ record m { ram = raised p (v + 256) m.ram }
unfolding inc_high
inc_high_lem p v m kernel h at small =
    let load = data_in-kernel m (p + 1) kernel (omega arith) ∙ at.high in
    let next : u8 (v / 256 + 1) ≡ (v + 256) / 256 = omega arith in
    ap (λ x. bus_write (p + 1) (u8 (x + 1)) m) load
    ∙ ap (λ x. bus_write (p + 1) x m) next
    ∙ bus_write-kernel (p + 1) ((v + 256) / 256) m (omega arith) kernel

pub dec_high_lem :
    (p v : ℕ) (m : Machine)
    → m.mmu.kernel ≡ true
    → p + 2 ≤ 0x20
    → Points p (v + 256) m.ram
    → v + 256 < 2 ^ 16
    → dec_high p m ≡ record m { ram = raised p v m.ram }
unfolding dec_high
dec_high_lem p v m kernel h at small =
    let load = data_in-kernel m (p + 1) kernel (omega arith) ∙ at.high in
    let before : u8 ((v + 256) / 256 + 255) ≡ v / 256 = omega arith in
    ap (λ x. bus_write (p + 1) (u8 (x + 255)) m) load
    ∙ ap (λ x. bus_write (p + 1) x m) before
    ∙ bus_write-kernel (p + 1) (v / 256) m (omega arith) kernel

pub raised-Points :
    (p v w : ℕ) (ram : ℕ → ℕ) → Points p w ram → v % 256 ≡ w % 256 → Points p v (raised p v ram)
raised-Points p v w ram at e = record { low = ground (arith, at.low, e); high = ground arith }

-- A pointer apart from it stays.
pub Points-raised :
    (p q v w : ℕ) (ram : ℕ → ℕ) → p + 1 ≢ q → p ≢ q → Points q w ram → Points q w (raised p v ram)
Points-raised p q v w ram h k at = record {
  low = ground (arith, at.low);
  high = ground (arith, at.high);
}
