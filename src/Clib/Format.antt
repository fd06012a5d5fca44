-- ===== src/Clib/Format.antt =====
-- The conversions of printf that the program uses.
use bb6502_verilog.Common.{
  max, ◌<◌, ◌≤◌, true, false, ℕ, zero, suc, ◌+◌, ◌/◌, ◌%◌, ◌≡◌, ◌∙◌, Bool, true, false, List, [],
  ◌∷◌, ◌++◌, ltb, if◌then◌else◌, length, length-append, arith,
}
use bb6502_verilog.Clib.Chars.{hex_digit}

-- The lowest `w` hexadecimal digits.
unfoldable pub hex : (upper : Bool) → ℕ → ℕ → List ℕ
unfolding hex_digit
hex upper zero n = []
hex upper (suc w) n = hex upper w (n / 16) ++ (hex_digit upper (n % 16) ∷ [])

-- How many hexadecimal digits a number below 16 ^ f has, at least one.
unfoldable pub hex_len : ℕ → ℕ → ℕ
hex_len zero n = 1
hex_len (suc f) n = let more = hex_len f (n / 16) in if ltb n 16 then 1 else more + 1

-- `%0wX` and `%0wx`: at least `w` digits, and as many as the number has (it is below 2 ^ 32).
unfoldable pub hex_padded : (upper : Bool) → ℕ → ℕ → List ℕ
unfolding hex hex_len
hex_padded upper w n = hex upper (max w (hex_len 7 n)) n

-- `%04hx` and `%04x`
unfoldable pub hex4 : ℕ → List ℕ
unfolding hex_padded
hex4 n = hex_padded false 4 n

-- `%04X`
unfoldable pub hex4_upper : ℕ → List ℕ
unfolding hex_padded
hex4_upper n = hex_padded true 4 n

-- `%02hx`
unfoldable pub hex2 : ℕ → List ℕ
unfolding hex_padded
hex2 n = hex_padded false 2 n

-- `%02X`
unfoldable pub hex2_upper : ℕ → List ℕ
unfolding hex_padded
hex2_upper n = hex_padded true 2 n

-- `%d` of a number that is not negative; a number below 2 ^ 64 has at most 20 digits.
unfoldable pub dec_digits : ℕ → ℕ → List ℕ
dec_digits zero n = []
dec_digits (suc f) n =
    let front = dec_digits f (n / 10) in
    if ltb n 10 then (b'0' + n) ∷ [] else front ++ ((b'0' + n % 10) ∷ [])

unfoldable pub dec : ℕ → List ℕ
unfolding dec_digits
dec n = dec_digits 20 n

-- `%2d`: padded on the left.
unfoldable pub dec2 : ℕ → List ℕ
unfolding dec
dec2 n = if ltb n 10 then b' ' ∷ dec n else dec n

pub length-hex : (upper : Bool) (w n : ℕ) → length (hex upper w n) ≡ w
unfolding hex
length-hex upper zero n = omega arith
length-hex upper (suc w) n =
    length-append (hex upper w (n / 16)) _ ∙ omega (arith, length-hex upper w (n / 16))

-- A value that fits the width is printed at that width.
hex_len_byte : (n : ℕ) → n < 256 → hex_len 7 n ≤ 2
unfolding hex_len
hex_len_byte n h = ground arith

hex_len_word : (n : ℕ) → n < 65536 → hex_len 7 n ≤ 4
unfolding hex_len
hex_len_word n h = ground arith

pub length-hex2_upper : (n : ℕ) → n < 256 → length (hex2_upper n) ≡ 2
unfolding hex2_upper
length-hex2_upper n h = length-hex true (max 2 (hex_len 7 n)) n ∙ omega (arith, hex_len_byte n h)

pub length-hex4_upper : (n : ℕ) → n < 65536 → length (hex4_upper n) ≡ 4
unfolding hex4_upper
length-hex4_upper n h = length-hex true (max 4 (hex_len 7 n)) n ∙ omega (arith, hex_len_word n h)
