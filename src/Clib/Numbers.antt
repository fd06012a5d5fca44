-- ===== src/Clib/Numbers.antt =====
-- strtoul and strtol, with `unsigned long` and `long` of 64 bits.
use bb6502_verilog.Common.{
  ℕ, ◌+◌, ◌-◌, ◌*◌, ◌^◌, Bool, true, false, ◌&&◌, ◌||◌, none, some, List, [], ◌∷◌, ltb, leb, ◌==◌,
  if◌then◌else◌,
}
use bb6502_verilog.Clib.Chars.{is_space, digit_in}

-- What a conversion leaves: the magnitude read (not limited to a width), its sign, whether any digit
-- was read (`end != s`), and the rest of the string (`*end`).
pub record Scan : Type 0 where
  pub magnitude : ℕ
  pub negative : Bool
  pub converted : Bool
  pub rest : List ℕ

unfoldable pub skip_space : List ℕ → List ℕ
unfolding is_space
skip_space [] = []
skip_space (c ∷ cs) = let rest = skip_space cs in if is_space c then rest else c ∷ cs

-- Digits of the base, from an accumulator.
unfoldable pub scan_digits : ℕ → (neg any : Bool) → ℕ → List ℕ → Scan
unfolding digit_in
scan_digits base neg any acc [] = record {
  magnitude = acc;
  negative = neg;
  converted = any;
  rest = [];
}
scan_digits base neg any acc (c ∷ cs) = elim (digit_in base c) [
  | none ↦ record { magnitude = acc; negative = neg; converted = any; rest = c ∷ cs }
  | some v ↦ scan_digits base neg true (acc * base + v) cs
]

-- An optional "0x" or "0X", taken only if a hexadecimal digit follows; then digits of base 16.
unfoldable pub scan_hex : Bool → List ℕ → Scan
unfolding scan_digits
scan_hex neg (c ∷ (x ∷ (d ∷ ds))) =
    let whole = scan_digits 16 neg false 0 (c ∷ (x ∷ (d ∷ ds))) in
    let behind = scan_digits 16 neg false 0 (d ∷ ds) in
    elim (digit_in 16 d) [
      | none ↦ whole
      | some v ↦ if c == b'0' && (x == b'x' || x == b'X') then behind else whole
    ]
scan_hex neg cs = scan_digits 16 neg false 0 cs

-- Base 0: hexadecimal behind "0x", octal behind "0", else decimal.
unfoldable pub scan_any : Bool → List ℕ → Scan
unfolding scan_hex
scan_any neg (c ∷ (x ∷ (d ∷ ds))) =
    let s = c ∷ (x ∷ (d ∷ ds)) in
    let octal = scan_digits 8 neg false 0 s in
    let decimal = scan_digits 10 neg false 0 s in
    let hexa = scan_hex neg s in
    if c == b'0'
    then (if x == b'x' || x == b'X'
        then (elim (digit_in 16 d) [ none ↦ octal | some v ↦ hexa ])
        else octal)
    else decimal
scan_any neg (c ∷ cs) =
    let octal = scan_digits 8 neg false 0 (c ∷ cs) in
    let decimal = scan_digits 10 neg false 0 (c ∷ cs) in if c == b'0' then octal else decimal
scan_any neg [] = scan_digits 10 neg false 0 []

-- White space and a sign come first. With no digits at all nothing is converted.
unfoldable pub scan_signed : (Bool → List ℕ → Scan) → List ℕ → Scan
scan_signed body [] = body false []
scan_signed body (c ∷ cs) =
    let minus = body true cs in
    let plus = body false cs in
    let plain = body false (c ∷ cs) in
    if c == b'-' then minus else if c == b'+' then plus else plain

abbrev pub ulong_max : ℕ
ulong_max = 2 ^ 64 - 1

-- The result of `strtoul`, `errno == ERANGE`, and `end != s`.
pub record Unsigned : Type 0 where
  pub value : ℕ
  pub range_error : Bool
  pub converted : Bool
  pub rest : List ℕ

-- Too large a number gives ULONG_MAX and ERANGE; a negative one is negated in the type.
unfoldable pub to_unsigned : Scan → Unsigned
to_unsigned s =
    if leb (2 ^ 64) s.magnitude
    then record { value = ulong_max; range_error = true; converted = s.converted; rest = s.rest }
    else record {
      value = if s.negative && ltb 0 s.magnitude then 2 ^ 64 - s.magnitude else s.magnitude;
      range_error = false;
      converted = s.converted;
      rest = s.rest;
    }

-- `strtoul(s, &end, 0)`
unfoldable pub strtoul : List ℕ → Unsigned
strtoul s = to_unsigned (scan_signed scan_any (skip_space s))

-- `strtoul(s, &end, 16)`, which is also what `sscanf` does for `%x`.
unfoldable pub strtoul_hex : List ℕ → Unsigned
strtoul_hex s = to_unsigned (scan_signed scan_hex (skip_space s))

-- `strtol(s, &end, 10)`: the sign and magnitude are kept apart; the callers test the range.
unfoldable pub strtol : List ℕ → Scan
strtol s = scan_signed (λ neg. scan_digits 10 neg false 0) (skip_space s)
