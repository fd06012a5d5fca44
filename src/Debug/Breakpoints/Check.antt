-- ===== src/Debug/Breakpoints/Check.antt =====
-- dbgCheckIfAtBp: the search of the list.
use bb6502_verilog.Common.{
  ℕ, zero, suc, ◌+◌, ◌<◌, ◌≤◌, ◌≡◌, refl, inl, inr, false, ◌&&◌, Option, none, some, List, [], ◌∷◌,
  get_elem?, leb, leb→le, and-true, arith, Bool-cases,
}
use bb6502_verilog.Common.Bits.{u16}
use bb6502_verilog.Debug.State.{Breakpoint, Debugger}
use bb6502_verilog.Debug.Breakpoints.{find_bp, check_if_at_bp}

abbrev pub Hits : (first last : ℕ) → Breakpoint → Type 0
Hits first last b = (first ≤ b.address) × (b.address ≤ last)

-- The search's result, k entries behind the one it started at: that entry hits and none before it
-- does; or none of the list does.
abbrev pub IsFirst : (first last i : ℕ) → List Breakpoint → Option ℕ → Type 0
IsFirst first last i bps (some n) =
    (k : ℕ) × (b : Breakpoint) × (n ≡ i + k)
    × (get_elem? bps k ≡ some b)
    × Hits first last b
    × ((j : ℕ) (c : Breakpoint) → j < k → get_elem? bps j ≡ some c → ¬ Hits first last c)
IsFirst first last i bps none =
    (j : ℕ) (c : Breakpoint) → get_elem? bps j ≡ some c → ¬ Hits first last c

Hits-test :
    (first last : ℕ) (b : Breakpoint)
    → ((leb first b.address && leb b.address last) ≡ false)
    → ¬ Hits first last b
Hits-test first last b e h = ground arith

IsFirst-miss :
    (first last i : ℕ) (b : Breakpoint) (bs : List Breakpoint) (r : Option ℕ)
    → ¬ Hits first last b
    → IsFirst first last (i + 1) bs r
    → IsFirst first last i (b ∷ bs) r
IsFirst-miss first last i b bs (some n) miss (k, c, e, at, hit, before) =
    (suc k, c, omega arith, at, hit, earlier)
  where
    earlier :
        (j : ℕ) (c : Breakpoint) → j < suc k → get_elem? (b ∷ bs) j ≡ some c → ¬ Hits first last c
    earlier zero c lt e h = miss (ground arith)
    earlier (suc j) c lt e h = before j c (omega arith) e h
IsFirst-miss first last i b bs none miss none_of = behind
  where
    behind : (j : ℕ) (c : Breakpoint) → get_elem? (b ∷ bs) j ≡ some c → ¬ Hits first last c
    behind zero c e h = miss (ground arith)
    behind (suc j) c e h = none_of j c e h

find_bp-IsFirst :
    (first last i : ℕ) (bps : List Breakpoint) → IsFirst first last i bps (find_bp first last i bps)
unfolding find_bp
find_bp-IsFirst first last i [] = λ j c e. cc
find_bp-IsFirst first last i (b ∷ bs) =
    elim (Bool-cases (leb first b.address && leb b.address last)) [
      | inl hit ↦ rw hit (
        0,
        b,
        omega arith,
        refl,
        (leb→le _ _ (and-true hit).0, leb→le _ _ (and-true hit).1),
        λ j c lt. absurd (omega arith),
      )
      | inr miss ↦ rw miss (
          IsFirst-miss first last i b bs _ (Hits-test first last b miss)
            (find_bp-IsFirst first last (i + 1) bs))
    ]

-- The breakpoint number reported is that of the first breakpoint, in the list's order, whose address
-- is at least `pc` and at most `pc + instrlen` modulo 2 ^ 16; none is reported exactly when the list
-- has no such breakpoint. So for a pc of 16 bits and an instruction length below that, none is
-- reported where pc + instrlen passes $FFFF, since the bound is then below pc.
pub check_if_at_bp-IsFirst :
    (pc instrlen : ℕ) (d : Debugger)
    → IsFirst pc (u16 (pc + instrlen)) 0 d.bps (check_if_at_bp pc instrlen d)
unfolding check_if_at_bp
check_if_at_bp-IsFirst pc instrlen d = find_bp-IsFirst pc (u16 (pc + instrlen)) 0 d.bps
