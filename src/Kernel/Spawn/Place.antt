-- ===== src/Kernel/Spawn/Place.antt =====
-- Where the blocks of a program lie in the RAM.

use bb6502_verilog.Common.{
  ℕ, ◌+◌, ◌-◌, ◌*◌, ◌^◌, ◌<◌, ◌≤◌, ◌≡◌, ◌≢◌, ◌⊎◌, inl, inr, refl, ◌∙◌, ap, ltb, Bool-cases, arith,
}
use bb6502_verilog.Common.Bits.{shr}
use bb6502_verilog.Kernel.Process.{ppn_entry, phys}
use bb6502_verilog.Kernel.Process.Pages.{phys-block}
use bb6502_verilog.Kernel.Spawn.{Image, virt_addr}
use bb6502_verilog.Kernel.Spawn.Copy.{Apart}

-- Where an address of the new process lies in the RAM.
abbrev pub place : (base va : ℕ) → ℕ
place base va = phys (ppn_entry base) va

-- The addresses that a new process has written: the program's, and the frame's.
abbrev pub IsOwn : ℕ → ℕ → Type 0
IsOwn nblocks va = ((0x1000 ≤ va) × (va < 0x1000 + nblocks * 512)) ⊎ ((0x1fd ≤ va) × (va ≤ 0x1ff))

-- A program that fits the address space, whose places in the RAM are in the users' part of it, off the
-- kernel's frames; those are the first 4 KB (the zero page, the stack and the code) and the last 4 KB
-- (the data with the buffer, and the stack of the C code).
pub record IsLoadable (im : Image) (lba nblocks base : ℕ) : Type 0 where
  pub fits : nblocks ≤ 56
  pub on_disk : lba + nblocks < 2 ^ 22
  pub buf_from : 0x7000 ≤ im.block_buf
  pub buf_low : im.block_buf + 512 ≤ 2 ^ 15
  pub off_kernel : (va : ℕ) → IsOwn nblocks va → (0x1000 ≤ place base va) × (place base va < 0x7000)

pub clear :
    (im : Image) (lba nblocks base va : ℕ)
    → IsLoadable im lba nblocks base
    → 0x1000 ≤ va
    → va < 0x1000 + nblocks * 512
    → (place base va < im.block_buf) ⊎ (im.block_buf + 512 ≤ place base va)
clear im lba nblocks base va ok from below =
    let (low, high) = ok.off_kernel va (inl (from, below)) in inl (omega (arith, ok.buf_from))

pub block-Apart :
    (im : Image) (lba nblocks base b : ℕ)
    → IsLoadable im lba nblocks base
    → b < nblocks
    → Apart (place base (0x1000 + b * 512)) im.block_buf
block-Apart im lba nblocks base b ok h =
    let va = 0x1000 + b * 512 in
    let first = clear im lba nblocks base va ok (omega arith) (omega arith) in
    let last = clear im lba nblocks base (va + 511) ok (omega arith) (omega arith) in
    let low = phys-block base va in
    let high = phys-block base (va + 511) in
    let (from, _) = ok.off_kernel va (inl (omega arith, omega arith)) in
    record {
      dst_from = omega arith;
      src_from = omega (arith, ok.buf_from);
      dst_low = omega arith;
      src_low = ok.buf_low;
      disjoint = elim first [
        | inl below ↦ elim last [ inl under ↦ inl (omega arith) | inr over ↦ absurd (omega arith) ]
        | inr above ↦ inr above
      ];
    }

-- The places of a block are next to each other.
pub place_add :
    (base b i : ℕ) → i < 512 → place base (0x1000 + b * 512 + i) ≡ place base (0x1000 + b * 512) + i
place_add base b i h =
    omega (arith, phys-block base (0x1000 + b * 512), phys-block base (0x1000 + b * 512 + i))

pub place_apart :
    (base va vb : ℕ) → va < 2 ^ 15 → vb < 2 ^ 15 → va ≢ vb → place base va ≢ place base vb
place_apart base va vb h k differ e =
    differ (omega (arith, phys-block base va, phys-block base vb, e))

-- An address behind the first b blocks is in a later one.
pub block_cases :
    (b j : ℕ) → j < (b + 1) * 512 → (j < b * 512) ⊎ ((i : ℕ) × (i < 512) × (j ≡ b * 512 + i))
block_cases b j h = elim (Bool-cases (ltb j (b * 512))) [
  | inl earlier ↦ inl (ground arith)
  | inr here ↦ let from : b * 512 ≤ j = ground arith in inr (j - b * 512, omega arith, omega arith)
]

-- A block does not cover the places of the earlier ones.
pub place_outside :
    (base b j : ℕ)
    → b < 56
    → j < b * 512
    → (place base (0x1000 + j) < place base (0x1000 + b * 512))
      ⊎ (place base (0x1000 + b * 512) + 512 ≤ place base (0x1000 + j))
place_outside base b j h small =
    elim (Bool-cases (ltb (place base (0x1000 + j)) (place base (0x1000 + b * 512)))) [
      | inl below ↦ inl (ground arith)
      | inr above ↦
          let from : place base (0x1000 + b * 512) ≤ place base (0x1000 + j) = ground arith in
          inr
            (omega (arith, from, phys-block base (0x1000 + b * 512), phys-block base (0x1000 + j)))
    ]

pub dst_lem :
    (ppn : ℕ → ℕ) (base b : ℕ)
    → ((j : ℕ) → j < 32 → ppn j ≡ ppn_entry base j)
    → b < 56
    → phys ppn (virt_addr b) ≡ place base (0x1000 + b * 512)
unfolding phys
dst_lem ppn base b table h =
    let at : virt_addr b ≡ 0x1000 + b * 512 = omega arith in
    rw (at, table (shr (0x1000 + b * 512) 10) (omega arith)) refl

pub away_lem :
    (base b a : ℕ)
    → ((j : ℕ) → j < (b + 1) * 512 → place base (0x1000 + j) ≢ a)
    → (a < place base (0x1000 + b * 512)) ⊎ (place base (0x1000 + b * 512) + 512 ≤ a)
away_lem base b a apart = elim (Bool-cases (ltb a dst)) [
  | inl below ↦ inl (ground arith)
  | inr above ↦ elim (Bool-cases (ltb a (dst + 512))) [
    | inl inside ↦
        let low : dst ≤ a = ground arith in
        let high : a < dst + 512 = ground arith in
        absurd (
          apart (b * 512 + (a - dst)) (omega arith) (
            ap (place base) (omega arith) ∙ place_add base b (a - dst) (omega arith) ∙ omega arith))
    | inr over ↦ inr (ground arith)
  ]
]
  where
    dst : ℕ
    dst = place base (0x1000 + b * 512)
