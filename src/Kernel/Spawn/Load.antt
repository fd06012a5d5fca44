-- ===== src/Kernel/Spawn/Load.antt =====
-- The loop of spawn_bbx that loads the blocks of a program.
use mathlib.Core.Path.{subst}
use bb6502_verilog.Common.{
  ℕ, zero, suc, ◌+◌, ◌-◌, ◌*◌, ◌^◌, ◌<◌, ◌≤◌, ◌≡◌, ◌≢◌, ◌⊎◌, inl, inr, refl, ◌∙◌, ap, true, false,
  ◌&&◌, leb, ltb, ◌==◌, if◌then◌else◌, Bool-cases, Option, some, arith,
}
use bb6502_verilog.Common.Bits.{u32}
use bb6502_verilog.Common.Maybe.{◌>>=◌}
use bb6502_verilog.Machine.Bus.{Machine, Disk}
use bb6502_verilog.Kernel.Process.{ppn_entry}
use bb6502_verilog.Kernel.Block.{block_read}
use bb6502_verilog.Kernel.Block.Read.{block_read_lem}
use bb6502_verilog.Kernel.Spawn.{Image, fetch_block, copy_block, load_blocks}
use bb6502_verilog.Kernel.Spawn.Copy.{memcpy512_lem}
use bb6502_verilog.Kernel.Spawn.Place.{
  place, IsLoadable, clear, block-Apart, place_add, block_cases, place_outside, dst_lem, away_lem,
}

pub outside_lem :
    (buf a x y : ℕ)
    → (a < buf) ⊎ (buf + 512 ≤ a)
    → (if leb buf a && ltb a (buf + 512) then x else y) ≡ y
outside_lem buf a x y (inl below) = ground arith
outside_lem buf a x y (inr above) = ground arith

pub inside_lem :
    (buf i n : ℕ) (img r : ℕ → ℕ)
    → i < 512
    → u32 n ≡ n
    → (if leb buf (buf + i) && ltb (buf + i) (buf + 512)
        then img (u32 n + (buf + i - buf))
        else r (buf + i))
      ≡ img (n + i)
inside_lem buf i n img r h e =
    let same : buf + i - buf ≡ i = omega arith in rw (same, e) (ground arith)

copied_at :
    (dst buf i a : ℕ) (r : ℕ → ℕ)
    → i < 512
    → a ≡ dst + i
    → (if leb dst a && ltb a (dst + 512) then r (buf + (a - dst)) else r a) ≡ r (buf + i)
copied_at dst buf i a r h e = let same : a - dst ≡ i = omega arith in rw same (ground arith)

fetch_block-later :
    (im : Image) (lba b : ℕ) (m : Machine)
    → (b == 0) ≡ false
    → u32 (lba + b) ≡ lba + b
    → fetch_block im lba b m ≡ block_read im.zero_page (lba + b) im.block_buf m
unfolding fetch_block
fetch_block-later im lba b m later num = rw (later, num) refl

module _ (im : Image) (lba nblocks base : ℕ) (img ppn : ℕ → ℕ) (m : Machine) where
  -- The machine with another RAM and disk controller.
  abbrev pub at : (ℕ → ℕ) → Disk → Machine
  at r d = record m { ram = r; disk = d }

  -- The state behind b blocks.
  pub record Holds (b : ℕ) (r : ℕ → ℕ) (d : Disk) : Type 0 where
    pub image : d.image ≡ some img
    pub lba_small : d.lba < 2 ^ 32
    pub program : (j : ℕ) → j < b * 512 → r (place base (0x1000 + j)) ≡ img (lba * 512 + j)
    pub others :
        (a : ℕ)
        → 0x20 ≤ a
        → (a < im.block_buf) ⊎ (im.block_buf + 512 ≤ a)
        → ((j : ℕ) → j < b * 512 → place base (0x1000 + j) ≢ a)
        → r a ≡ m.ram a

  -- The buffer holds block b.
  abbrev pub Buffered : ℕ → (ℕ → ℕ) → Type 0
  Buffered b r = (i : ℕ) → i < 512 → r (im.block_buf + i) ≡ img ((lba + b) * 512 + i)

  -- The places of the program are off the zero page's variables.
  program_user :
      (ok : IsLoadable im lba nblocks base) (b j : ℕ)
      → b ≤ nblocks
      → j < b * 512
      → 0x20 ≤ place base (0x1000 + j)
  program_user ok b j h below =
      let (from, _) = ok.off_kernel (0x1000 + j) (inl (omega arith, omega arith)) in omega arith

  module _ (ok : IsLoadable im lba nblocks base) (kernel : m.mmu.kernel ≡ true) where
    fetch_lem :
        (b : ℕ) (r : ℕ → ℕ) (d : Disk)
        → b < nblocks
        → Holds b r d
        → (b ≡ 0 → Buffered 0 r)
        → (r1 : ℕ → ℕ) × (d1 : Disk) × (fetch_block im lba b (at r d) ≡ some (0, at r1 d1))
          × Holds b r1 d1
          × Buffered b r1
    unfolding fetch_block
    fetch_lem b r d h was first = elim (Bool-cases (b == 0)) [
      | inl zeroth ↦
          let e : b ≡ 0 = ground arith in (r, d, rw (fetch_block, zeroth) refl, was, rw e (first e))
      | inr later ↦
          let num : u32 (lba + b) ≡ lba + b = omega (arith, ok.on_disk) in
          let pos : u32 ((lba + b) * 512) ≡ (lba + b) * 512 = omega (arith, ok.on_disk) in
          let (r1, d1, read, image, lba_at, cells, variables) =
            block_read_lem im.zero_page (lba + b) im.block_buf img (at r d) kernel was.image
              (omega (arith, ok.on_disk)) was.lba_small (omega (arith, ok.buf_from)) ok.buf_low in
          let stays =
            λ (a : ℕ) (user : 0x20 ≤ a) (out : (a < im.block_buf) ⊎ (im.block_buf + 512 ≤ a)).
              cells a user
              ∙ outside_lem im.block_buf a (img (u32 ((lba + b) * 512) + (a - im.block_buf))) (r a)
                  out in
          (
            r1,
            d1,
            fetch_block-later im lba b (at r d) later num ∙ read,
            record {
              image = image;
              lba_small = omega (arith, lba_at, ok.on_disk);
              program = λ j below.
                  stays (place base (0x1000 + j)) (program_user ok b j (omega arith) below)
                    (clear im lba nblocks base (0x1000 + j) ok (omega arith) (omega arith))
                  ∙ was.program j below;
              others = λ a user out apart. stays a user out ∙ was.others a user out apart;
            },
            λ i small.
                cells (im.block_buf + i) (omega (arith, ok.buf_from))
                ∙ inside_lem im.block_buf i ((lba + b) * 512) img r small pos,
          )
    ]

    copy_lem :
        (b : ℕ) (r : ℕ → ℕ) (d : Disk)
        → b < nblocks
        → Holds b r d
        → Buffered b r
        → (r1 : ℕ → ℕ) × (copy_block im (place base (0x1000 + b * 512)) (0, at r d)
            ≡ some (0, at r1 d))
          × Holds (b + 1) r1 d
    unfolding copy_block
    copy_lem b r d h was full =
        let dst = place base (0x1000 + b * 512) in
        let (r1, done, cells) =
          memcpy512_lem im.zero_page dst im.block_buf (at r d)
            (block-Apart im lba nblocks base b ok h) kernel in
        (
          r1,
          ap (λ x. some (0, x)) done,
          record {
            image = was.image;
            lba_small = was.lba_small;
            program = λ j below.
                cells (place base (0x1000 + j)) (program_user ok (b + 1) j (omega arith) below)
                ∙ elim (block_cases b j below) [
                  | inl earlier ↦
                      outside_lem dst (place base (0x1000 + j))
                        (r (im.block_buf + (place base (0x1000 + j) - dst)))
                        (r (place base (0x1000 + j)))
                        (place_outside base b j (omega (arith, ok.fits)) earlier)
                      ∙ was.program j earlier
                  | inr (i, small, e) ↦
                      copied_at dst im.block_buf i (place base (0x1000 + j)) r small
                        (ap (place base) (omega arith) ∙ place_add base b i small)
                      ∙ full i small
                      ∙ ap img (omega arith)
                ];
            others = λ a user out apart.
                cells a user
                ∙ outside_lem dst a (r (im.block_buf + (a - dst))) (r a) (away_lem base b a apart)
                ∙ was.others a user out (λ j below. apart j (omega arith));
          },
        )

    -- One round of the loop.
    round_lem :
        (b : ℕ) (r : ℕ → ℕ) (d : Disk)
        → b < nblocks
        → Holds b r d
        → (b ≡ 0 → Buffered 0 r)
        → (r1 : ℕ → ℕ) × (d1 : Disk) × ((fetch_block im lba b (at r d)
              >>= copy_block im (place base (0x1000 + b * 512)))
            ≡ some (0, at r1 d1))
          × Holds (b + 1) r1 d1
    round_lem b r d h was first =
        let (r1, d1, fetched, held, full) = fetch_lem b r d h was first in
        let (r2, copied, now) = copy_lem b r1 d1 h held full in
        (
          r2,
          d1,
          ap (λ o. o >>= copy_block im (place base (0x1000 + b * 512))) fetched ∙ copied,
          now,
        )

    pub load_blocks_lem :
        (k b : ℕ) (r : ℕ → ℕ) (d : Disk)
        → ((j : ℕ) → j < 32 → ppn j ≡ ppn_entry base j)
        → b + k ≡ nblocks
        → Holds b r d
        → (b ≡ 0 → Buffered 0 r)
        → (r1 : ℕ → ℕ) × (d1 : Disk) × (load_blocks im ppn lba k b (at r d) ≡ some (0, at r1 d1))
          × Holds nblocks r1 d1
    unfolding load_blocks
    load_blocks_lem zero b r d table sum was first =
        let all : b ≡ nblocks = omega arith in (r, d, refl, subst (λ x. Holds x r d) all was)
    load_blocks_lem (suc k) b r d table sum was first =
        let (r1, d1, one, now) = round_lem b r d (omega arith) was first in
        let (r2, d2, rest, held) =
          load_blocks_lem k (b + 1) r1 d1 table (omega arith) now (λ e. absurd (omega arith)) in
        (
          r2,
          d2,
          ap (λ a. fetch_block im lba b (at r d) >>= copy_block im a >>= after b k)
                (dst_lem ppn base b table (omega (arith, ok.fits)))
              ∙ ap (λ o. o >>= after b k) one
              ∙ rest,
          held,
        )
      where
        after : ℕ → ℕ → ℕ × Machine → Option (ℕ × Machine)
        after b k p =
            let rest = load_blocks im ppn lba k (b + 1) p.1 in if p.0 == 0 then rest else some p
