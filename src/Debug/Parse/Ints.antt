-- ===== src/Debug/Parse/Ints.antt =====
-- dbgStrToInt on what `%d` prints.
use native.Mathlib.Nat.{pow-suc}
use bb6502_verilog.Common.{
  ℕ, zero, suc, ◌+◌, ◌*◌, ◌/◌, ◌%◌, ◌^◌, ◌<◌, ◌≡◌, ap, sym, ◌∙◌, inl, inr, Bool, true, false, none,
  some, List, [], ◌∷◌, ◌++◌, ltb, if◌then◌else◌, ◌≢◌, Option-cases, ltb→lt, arith, Bool-cases,
  if-elim,
}
use bb6502_verilog.Common.Int.{pos}
use bb6502_verilog.Clib.Chars.{is_digit, is_space, digit_value, digit_in}
use bb6502_verilog.Clib.Format.{dec_digits, dec}
use bb6502_verilog.Clib.Numbers.{Scan, skip_space, scan_digits, scan_signed, strtol}
use bb6502_verilog.Debug.Parse.{str_to_int}

abbrev scanned : (neg any : Bool) → ℕ → Scan
scanned neg any n = record { magnitude = n; negative = neg; converted = any; rest = [] }

digit_in-ten : (v : ℕ) → v < 10 → digit_in 10 (b'0' + v) ≡ some v
unfolding digit_in digit_value is_digit
digit_in-ten v h = ground arith

scan_digits-cons :
    (neg any : Bool) (acc v c : ℕ) (s : List ℕ)
    → digit_in 10 c ≡ some v
    → scan_digits 10 neg any acc (c ∷ s) ≡ scan_digits 10 neg true (acc * 10 + v) s
unfolding scan_digits
scan_digits-cons neg any acc v c s h = rw (h, scan_digits)

scan_digits-stop :
    (neg any : Bool) (acc c : ℕ) (s : List ℕ)
    → digit_in 10 c ≡ none
    → (scan_digits 10 neg any acc (c ∷ s)).rest ≡ c ∷ s
unfolding scan_digits
scan_digits-stop neg any acc c s h = rw (h, scan_digits)

-- One more digit behind a number.
scan_digits-snoc :
    (neg any : Bool) (acc n v : ℕ) (s : List ℕ)
    → v < 10
    → scan_digits 10 neg any acc s ≡ scanned neg true n
    → scan_digits 10 neg any acc (s ++ ((b'0' + v) ∷ [])) ≡ scanned neg true (n * 10 + v)
scan_digits-snoc neg any acc n v [] h e =
    scan_digits-cons neg any acc v (b'0' + v) [] (digit_in-ten v h) ∙ nothing_left e
  where
    nothing_left :
        scan_digits 10 neg any acc [] ≡ scanned neg true n
        → scan_digits 10 neg true (acc * 10 + v) [] ≡ scanned neg true (n * 10 + v)
    nothing_left e = unfold scan_digits in ground arith
scan_digits-snoc neg any acc n v (c ∷ cs) h e = elim (Option-cases (digit_in 10 c)) [
  | inl no_digit ↦
      absurd
        (no_rest (sym (scan_digits-stop neg any acc c cs no_digit) ∙ ap (λ (r : Scan). r.rest) e))
  | inr (w, digit) ↦
      scan_digits-cons neg any acc w c (cs ++ ((b'0' + v) ∷ [])) digit
      ∙ scan_digits-snoc neg true (acc * 10 + w) n v cs h
          (sym (scan_digits-cons neg any acc w c cs digit) ∙ e)
]
  where
    no_rest : c ∷ cs ≢ []
    no_rest e = cc

more_digits : (f n : ℕ) → n < 10 ^ suc f → ltb n 10 ≡ false → 0 < f
more_digits zero n h e = absurd (ground arith)
more_digits (suc f) n h e = omega arith

-- `dec_digits` with enough digits, read back.
scan_digits-dec :
    (neg : Bool) (f n : ℕ)
    → n < 10 ^ f
    → 0 < f
    → scan_digits 10 neg false 0 (dec_digits f n) ≡ scanned neg true n
unfolding dec_digits
scan_digits-dec neg zero n h p = absurd (omega arith)
scan_digits-dec neg (suc f) n h p =
    let ten : 10 ^ suc f ≡ 10 ^ f * 10 = pow-suc 10 f in
    elim (Bool-cases (ltb n 10)) [
      | inl small ↦
          rw small (
            scan_digits-cons neg false 0 n (b'0' + n) [] (digit_in-ten n (ltb→lt n 10 small))
            ∙ last)
      | inr large ↦ rw large (
          scan_digits-snoc neg false 0 (n / 10) (n % 10) (dec_digits f (n / 10)) (omega arith)
            (scan_digits-dec neg f (n / 10) (omega arith) (more_digits f n h large))
          ∙ ap (scanned neg true) (omega arith))
    ]
  where
    last : scan_digits 10 neg true (0 * 10 + n) [] ≡ scanned neg true n
    last = unfold scan_digits in ap (scanned neg true) (omega arith)

-- The first character of a printed number is a digit.
abbrev StartsWithDigit : List ℕ → Type 0
StartsWithDigit [] = ⊥
StartsWithDigit (c ∷ cs) = is_digit c ≡ true

append_first : (xs ys : List ℕ) → StartsWithDigit xs → StartsWithDigit (xs ++ ys)
append_first [] ys h = absurd h
append_first (x ∷ xs) ys h = h

dec_digits-first : (f n : ℕ) → 0 < f → n < 10 ^ f → StartsWithDigit (dec_digits f n)
unfolding dec_digits
dec_digits-first zero n p h = absurd (omega arith)
dec_digits-first (suc f) n p h =
    let ten : 10 ^ suc f ≡ 10 ^ f * 10 = pow-suc 10 f in
    if-elim StartsWithDigit (ltb n 10) (λ small. unfold is_digit in ground arith)
      (λ large.
        append_first (dec_digits f (n / 10)) _
          (dec_digits-first f (n / 10) (more_digits f n h large) (omega arith)))

-- White space and signs are not digits.
skip_nothing : (c : ℕ) (cs : List ℕ) → is_digit c ≡ true → skip_space (c ∷ cs) ≡ c ∷ cs
unfolding skip_space is_space is_digit
skip_nothing c cs h = ground arith

no_sign :
    (body : Bool → List ℕ → Scan) (c : ℕ) (cs : List ℕ)
    → is_digit c ≡ true
    → scan_signed body (c ∷ cs) ≡ body false (c ∷ cs)
unfolding scan_signed is_digit
no_sign body c cs h = ground arith

strtol-digits : (s : List ℕ) → StartsWithDigit s → strtol s ≡ scan_digits 10 false false 0 s
strtol-digits [] h = absurd h
strtol-digits (c ∷ cs) h =
    unfold strtol in rw (skip_nothing c cs h) (no_sign (λ neg. scan_digits 10 neg false 0) c cs h)

-- `%d` of a number that fits an int is read back as that number, and of a larger one (up to 2 ^ 64)
-- it is refused.
pub str_to_int-dec :
    (n : ℕ) → n < 2 ^ 64 → str_to_int (dec n) ≡ (if ltb n (2 ^ 31) then some (pos n) else none)
str_to_int-dec n h =
    let twenty : n < 10 ^ 20 = omega arith in
    let first : StartsWithDigit (dec n) =
      unfold dec in dec_digits-first 20 n (omega arith) twenty in
    let read : scan_digits 10 false false 0 (dec n) ≡ scanned false true n =
      unfold dec in scan_digits-dec false 20 n twenty (omega arith) in
    let got : strtol (dec n) ≡ scanned false true n = strtol-digits (dec n) first ∙ read in
    unfold str_to_int in rw got (ground arith)
