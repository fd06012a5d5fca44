-- ===== src/Clib/Strings.antt =====
-- <string.h>: comparison, search, copying with a limit, and strtok.
use bb6502_verilog.Common.{
  ◌≡◌, refl, ap₂, and-true, ==_iff, ==_refl, ℕ, Bool, true, false, ◌&&◌, ◌||◌, Option, none, some,
  List, [], ◌∷◌, ◌++◌, ◌==◌, if◌then◌else◌,
}

-- `strcmp(a, b) == 0`
unfoldable pub str_eq : List ℕ → List ℕ → Bool
str_eq [] [] = true
str_eq [] (y ∷ ys) = false
str_eq (x ∷ xs) [] = false
str_eq (x ∷ xs) (y ∷ ys) = x == y && str_eq xs ys

-- `strncmp(a, b, strlen(b)) == 0`: b is a prefix.
unfoldable pub has_prefix : List ℕ → List ℕ → Bool
has_prefix xs [] = true
has_prefix [] (y ∷ ys) = false
has_prefix (x ∷ xs) (y ∷ ys) = x == y && has_prefix xs ys

-- `strstr(a, b)`: what of `a` follows from the first occurrence of `b` on.
unfoldable pub strstr : List ℕ → List ℕ → Option (List ℕ)
unfolding has_prefix
strstr [] b = if has_prefix [] b then some [] else none
strstr (x ∷ xs) b = let rest = strstr xs b in if has_prefix (x ∷ xs) b then some (x ∷ xs) else rest

unfoldable pub member : ℕ → List ℕ → Bool
member c [] = false
member c (d ∷ ds) = c == d || member c ds

-- The tokens that calls of `strtok` return until it returns NULL. `word` is the token so far.
unfoldable pub split : List ℕ → List ℕ → List ℕ → List (List ℕ)
unfolding member
split delim word [] = elim word [ [] ↦ [] | w ∷ ws ↦ (w ∷ ws) ∷ [] ]
split delim word (c ∷ cs) =
    let fresh = split delim [] cs in
    let longer = split delim (word ++ (c ∷ [])) cs in
    if member c delim then elim word [ [] ↦ fresh | w ∷ ws ↦ (w ∷ ws) ∷ fresh ] else longer

unfoldable pub strtok : List ℕ → List ℕ → List (List ℕ)
unfolding split
strtok delim s = split delim [] s

-- `strcmp` returns 0 for equal strings alone.
pub str_eq→≡ : (xs ys : List ℕ) → str_eq xs ys ≡ true → xs ≡ ys
unfolding str_eq
str_eq→≡ [] [] h = refl
str_eq→≡ [] (y ∷ ys) h = cc
str_eq→≡ (x ∷ xs) [] h = cc
str_eq→≡ (x ∷ xs) (y ∷ ys) h =
    let both = and-true h in ap₂ ◌∷◌ ((==_iff x y).0 both.0) (str_eq→≡ xs ys both.1)

pub str_eq_refl : (xs : List ℕ) → str_eq xs xs ≡ true
unfolding str_eq
str_eq_refl [] = refl
str_eq_refl (x ∷ xs) = rw (==_refl x) (str_eq_refl xs)
