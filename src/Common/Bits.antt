-- ===== src/Common/Bits.antt =====
-- `x << k | y` with y below 2 ^ k, and `x & (2 ^ k - 1)`, as sums and remainders: the code packs
-- page numbers with offsets and low bytes with high bytes that way.
use Prim.Native.Nat.{ℕ, zero, suc, ◌+◌, ◌*◌, ◌/◌, ◌%◌, ◌^◌, ◌≤◌, ◌<◌, max, digits, bit_or-bitwise}
pub use Prim.Native.Nat.{bit_or}
use mathlib.Core.Path.{◌≡◌, refl, ap, ◌∙◌}
use native.Mathlib.Omega.{arith}
use native.Mathlib.Nat.{pow-suc}

-- `x >> k`, `x << k` and `x & (2 ^ k - 1)`, and the casts to the unsigned types.
abbrev pub shr : ℕ → ℕ → ℕ
shr x k = x / 2 ^ k

abbrev pub shl : ℕ → ℕ → ℕ
shl x k = x * 2 ^ k

abbrev pub low_bits : ℕ → ℕ → ℕ
low_bits x k = x % 2 ^ k

-- Bit k of x, as 0 or 1.
abbrev pub bit : ℕ → ℕ → ℕ
bit x k = x / 2 ^ k % 2

abbrev pub u8 : ℕ → ℕ
u8 x = x % 2 ^ 8

abbrev pub u16 : ℕ → ℕ
u16 x = x % 2 ^ 16

abbrev pub u32 : ℕ → ℕ
u32 x = x % 2 ^ 32

-- The count of digits that `digits` is given does not matter once it is large enough.
module _ (z : ℕ → ℕ) (f : ℕ → ℕ → ℕ) where
  digits_more : (k j a b : ℕ) → a ≤ k → a ≤ j → digits z f k a b ≡ digits z f j a b
  digits_more k j zero b p q = digits_done k j b
    where
      digits_done : (k j b : ℕ) → digits z f k zero b ≡ digits z f j zero b
      digits_done zero zero b = refl
      digits_done zero (suc j) b = refl
      digits_done (suc k) zero b = refl
      digits_done (suc k) (suc j) b = refl
  digits_more zero j (suc a) b p q = absurd (omega arith)
  digits_more (suc k) zero (suc a) b p q = absurd (omega arith)
  digits_more (suc k) (suc j) (suc a) b p q =
      ap (λ t. t * 2 + f (suc a % 2) (b % 2))
        (digits_more k j (suc a / 2) (b / 2) (omega arith) (omega arith))

-- The lowest binary digit.
pub bit_or-digit : (a b : ℕ) → bit_or a b ≡ bit_or (a / 2) (b / 2) * 2 + max (a % 2) (b % 2)
bit_or-digit zero b = simp bit_or-bitwise (omega arith)
bit_or-digit (suc a) b = simp bit_or-bitwise (
    ap (λ t. t * 2 + max (suc a % 2) (b % 2))
      (digits_more (λ y. y) max a (suc a / 2) (suc a / 2) (b / 2) (omega arith) (omega arith)))

-- Nothing is added by 0.
or_zero_below : (k a : ℕ) → a ≤ k → bit_or a 0 ≡ a
or_zero_below k zero h = refl
or_zero_below zero (suc a) h = absurd (omega arith)
or_zero_below (suc k) (suc a) h =
    omega (arith, bit_or-digit (suc a) 0, or_zero_below k (suc a / 2) (omega arith))

-- `(q << k) | r` is a sum when r has at most k bits.
pub bit_or-shifted : (k q r : ℕ) → r < 2 ^ k → bit_or (q * 2 ^ k) r ≡ q * 2 ^ k + r
bit_or-shifted zero q r h =
    let none_left : r ≡ 0 = omega arith in
    rw none_left (or_zero_below (q * 1) (q * 1) (omega arith) ∙ omega arith)
bit_or-shifted (suc k) q r h =
    let two : 2 ^ suc k ≡ 2 ^ k * 2 = pow-suc 2 k in
    let twice : q * 2 ^ suc k ≡ q * 2 ^ k * 2 = rw two (omega arith) in
    rw twice (
      omega (arith, bit_or-digit (q * 2 ^ k * 2) r, bit_or-shifted k q (r / 2) (omega arith), half))
  where
    half : bit_or (q * 2 ^ k * 2 / 2) (r / 2) ≡ bit_or (q * 2 ^ k) (r / 2)
    half = ap (λ t. bit_or t (r / 2)) (omega arith)

or_comm_below : (k a b : ℕ) → a ≤ k → b ≤ k → bit_or a b ≡ bit_or b a
or_comm_below zero a b p q = let l : a ≡ 0 = omega arith in let r : b ≡ 0 = omega arith in rw (l, r)
or_comm_below (suc k) a b p q = omega (
  arith,
  bit_or-digit a b,
  bit_or-digit b a,
  or_comm_below k (a / 2) (b / 2) (omega arith) (omega arith),
)

pub bit_or_comm : (a b : ℕ) → bit_or a b ≡ bit_or b a
bit_or_comm a b = or_comm_below (a + b) a b (omega arith) (omega arith)

-- `lo | (hi << k)`, the other way round.
pub bit_or-low : (k q r : ℕ) → r < 2 ^ k → bit_or r (q * 2 ^ k) ≡ q * 2 ^ k + r
bit_or-low k q r h = bit_or_comm r (q * 2 ^ k) ∙ bit_or-shifted k q r h
