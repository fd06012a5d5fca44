-- ===== src/Debug/Dump/Range.antt =====
-- The addresses that dbgShowMem shows, and its rounds.
use bb6502_verilog.Common.{
  ℕ, zero, suc, ◌+◌, ◌-◌, ◌*◌, ◌^◌, ◌<◌, ◌≤◌, ◌≡◌, refl, inl, inr, ap, ap₂, ◌∙◌, true, false, ◌||◌,
  List, [], ◌∷◌, ◌++◌, append-nil, ltb, arith, Bool-cases, min,
}
use bb6502_verilog.Common.Bits.{u16}
use bb6502_verilog.Debug.Dump.{row, rows, max_rows}

-- n addresses from a on.
unfoldable pub upto : (n a : ℕ) → List ℕ
upto zero a = []
upto (suc n) a = a ∷ upto n (a + 1)

-- The cells of all rows.
unfoldable pub cells : List (ℕ × List ℕ) → List ℕ
cells [] = []
cells ((addr, r) ∷ rest) = r ++ cells rest

upto-append : (m n a b : ℕ) → b ≡ a + m → upto m a ++ upto n b ≡ upto (m + n) a
unfolding upto
upto-append zero n a b e = ap₂ upto (omega arith) (omega arith)
upto-append (suc m) n a b e = ap (λ l. a ∷ l) (upto-append m n (a + 1) b (omega arith)) ∙ unfold_suc
  where
    unfold_suc : a ∷ upto (m + n) (a + 1) ≡ upto (suc m + n) a
    unfold_suc = let e : suc m + n ≡ suc (m + n) = omega arith in rw e

-- A row shows the addresses that are left of its 16, up to the end of the range.
row_lem :
    (n offset addr endaddr k : ℕ)
    → endaddr < 2 ^ 16
    → offset + n ≤ 16
    → addr + offset ≤ endaddr + 1
    → k ≡ min n (endaddr + 1 - (addr + offset))
    → row n offset addr endaddr ≡ upto k (addr + offset)
unfolding row upto
row_lem zero offset addr endaddr zero h o p e = refl
row_lem zero offset addr endaddr (suc k) h o p e = absurd (omega arith)
row_lem (suc n) offset addr endaddr zero h o p e =
    let past : (ltb (u16 (addr + offset)) addr || ltb endaddr (u16 (addr + offset))) ≡ true =
      ground arith in
    rw past
row_lem (suc n) offset addr endaddr (suc k) h o p e =
    let inside : (ltb (u16 (addr + offset)) addr || ltb endaddr (u16 (addr + offset))) ≡ false =
      ground arith in
    let cur : u16 (addr + offset) ≡ addr + offset = omega arith in
    let later = row_lem n (offset + 1) addr endaddr k h (omega arith) (omega arith) (omega arith) in
    rw inside (ap₂ ◌∷◌ cur (later ∙ ap (upto k) (omega arith)))

rows_lem :
    (f addr endaddr : ℕ)
    → endaddr < 2 ^ 16
    → addr ≤ endaddr
    → endaddr - addr < 16 * f
    → cells (rows f addr endaddr) ≡ upto (endaddr + 1 - addr) addr
unfolding rows cells
rows_lem zero addr endaddr h le enough = absurd (omega arith)
rows_lem (suc f) addr endaddr h le enough =
    elim (Bool-cases (ltb endaddr 16 || ltb (endaddr - 16) addr)) [
      | inl last ↦
          let this =
            row_lem 16 0 addr endaddr (endaddr + 1 - addr) h (omega arith) (omega arith)
              (ground arith) in
          rw last (append-nil _ ∙ this ∙ ap (upto (endaddr + 1 - addr)) (omega arith))
      | inr more ↦
          let this = row_lem 16 0 addr endaddr 16 h (omega arith) (omega arith) (ground arith) in
          let next : u16 (addr + 16) ≡ addr + 16 = ground arith in
          let rest = rows_lem f (addr + 16) endaddr h (ground arith) (ground arith) in
          rw (more, next)
            (ap₂ ◌++◌ (this ∙ ap (upto 16) (omega arith)) rest
              ∙ upto-append 16 (endaddr + 1 - (addr + 16)) addr (addr + 16) refl
              ∙ ap (λ n. upto n addr) (ground arith))
    ]

rows_fuel :
    (f g addr endaddr : ℕ)
    → endaddr < 2 ^ 16
    → addr ≤ endaddr
    → endaddr - addr < 16 * f
    → f ≤ g
    → rows f addr endaddr ≡ rows g addr endaddr
unfolding rows
rows_fuel zero g addr endaddr h le enough more = absurd (omega arith)
rows_fuel (suc f) zero addr endaddr h le enough more = absurd (omega arith)
rows_fuel (suc f) (suc g) addr endaddr h le enough more =
    elim (Bool-cases (ltb endaddr 16 || ltb (endaddr - 16) addr)) [
      | inl last ↦ rw last
      | inr again ↦
          let next : u16 (addr + 16) ≡ addr + 16 = ground arith in
          rw (again, next)
            (ap (λ r. (addr, row 16 0 addr endaddr) ∷ r)
              (rows_fuel f g (addr + 16) endaddr h (ground arith) (ground arith) (omega arith)))
    ]

-- For a range of 16-bit addresses that is not empty the dump shows each address of it once, in
-- order, and no other; its loop has ended by its own test within 4096 rows.
pub rows-upto :
    (startaddr endaddr : ℕ)
    → startaddr ≤ endaddr
    → endaddr < 2 ^ 16
    → (cells (rows max_rows startaddr endaddr) ≡ upto (endaddr + 1 - startaddr) startaddr)
      × ((f : ℕ) → max_rows ≤ f → rows max_rows startaddr endaddr ≡ rows f startaddr endaddr)
rows-upto s e le h = (
  rows_lem max_rows s e h le (omega arith),
  λ f more. rows_fuel max_rows f s e h le (omega arith) more,
)
