-- ===== src/Clib/Chars.antt =====
-- <ctype.h> on bytes, in the C locale, and digits.
use Prim.Native.Char.{code}
use Prim.Native.String.{String}
use bb6502_verilog.Common.{
  ℕ, ◌+◌, ◌-◌, Bool, ◌&&◌, ◌||◌, Option, none, some, List, [], ◌∷◌, leb, ltb, ◌==◌, if◌then◌else◌,
}

-- The bytes of a string literal.
unfoldable pub text : String → List ℕ
text String.[] = []
text (String.◌∷◌ c s) = code c ∷ text s

unfoldable pub is_digit : ℕ → Bool
is_digit c = leb b'0' c && leb c b'9'

unfoldable pub is_upper : ℕ → Bool
is_upper c = leb b'A' c && leb c b'Z'

unfoldable pub is_lower : ℕ → Bool
is_lower c = leb b'a' c && leb c b'z'

unfoldable pub is_alpha : ℕ → Bool
unfolding is_upper is_lower
is_alpha c = is_upper c || is_lower c

-- Space, \t, \n, \v, \f, \r.
unfoldable pub is_space : ℕ → Bool
is_space c = c == 32 || (leb 9 c && leb c 13)

-- The value of a digit in bases up to 16.
unfoldable pub digit_value : ℕ → Option ℕ
unfolding is_digit
digit_value c =
    if is_digit c
    then some (c - b'0')
    else if leb b'a' c && leb c b'f'
    then some (c - b'a' + 10)
    else if leb b'A' c && leb c b'F'
    then some (c - b'A' + 10)
    else none

-- A digit of the base, or nothing.
unfoldable pub digit_in : ℕ → ℕ → Option ℕ
unfolding digit_value
digit_in base c = elim (digit_value c) [
  | none ↦ none
  | some v ↦ if ltb v base then some v else none
]

-- The character of a hexadecimal digit, `x` or `X` style.
unfoldable pub hex_digit : (upper : Bool) → ℕ → ℕ
hex_digit upper v =
    if ltb v 10 then b'0' + v else if upper then b'A' + (v - 10) else b'a' + (v - 10)
