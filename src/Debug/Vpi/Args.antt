-- ===== src/Debug/Vpi/Args.antt =====
-- What parsePlusargs takes of the command line.
use bb6502_verilog.Common.{
  ℕ, zero, suc, ◌-◌, ◌<◌, ◌≤◌, ◌≡◌, refl, sym, ◌∙◌, ap, true, false, Bool-cases, inl, inr, and-true,
  ==_iff, ltb, Option, none, some, List, [], ◌∷◌, ◌++◌, take, length, length-append, append-nil,
  append_assoc, if◌then◌else◌, arith,
}
use bb6502_verilog.Clib.Chars.{text}
use bb6502_verilog.Clib.Strings.{has_prefix}
use bb6502_verilog.Debug.Symbols.{drop}
use bb6502_verilog.Debug.Vpi.{
  dbg_sym, dbg_src, Plusargs, parse_plusarg, parse_plusargs, plusargs_of,
}

-- The values of the arguments that begin with `p`, which has nine characters, in order.
abbrev pub values : List ℕ → List (List ℕ) → List (List ℕ)
values p [] = []
values p (a ∷ rest) = if has_prefix a p then drop 9 a ∷ values p rest else values p rest

-- The last of a list, or `o` for an empty one.
abbrev pub last_or : Option (List ℕ) → List (List ℕ) → Option (List ℕ)
last_or o [] = o
last_or o (x ∷ xs) = last_or (some x) xs

prefixes_lem :
    (p : List ℕ) (x y : ℕ) (xs ys a : List ℕ)
    → has_prefix a (p ++ (x ∷ xs)) ≡ true
    → has_prefix a (p ++ (y ∷ ys)) ≡ true
    → x ≡ y
unfolding has_prefix
prefixes_lem [] x y xs ys [] h k = absurd (ground arith)
prefixes_lem [] x y xs ys (c ∷ cs) h k =
    sym ((==_iff c x).0 (and-true h).0) ∙ (==_iff c y).0 (and-true k).0
prefixes_lem (d ∷ p) x y xs ys [] h k = absurd (ground arith)
prefixes_lem (d ∷ p) x y xs ys (c ∷ cs) h k =
    prefixes_lem p x y xs ys cs (and-true h).1 (and-true k).1

-- No argument begins with both.
not_src : (a : List ℕ) → has_prefix a dbg_sym ≡ true → has_prefix a dbg_src ≡ false
unfolding text
not_src a h = elim (Bool-cases (has_prefix a dbg_src)) [
  | inl both ↦
      absurd (omega (arith, prefixes_lem (text "+dbg_s") 121 114 (text "m=") (text "c=") a h both))
  | inr alone ↦ alone
]

take-nil : (n : ℕ) → take {A = List ℕ} n [] ≡ []
take-nil zero = refl
take-nil (suc n) = refl

take_lem :
    (n : ℕ) (fs : List (List ℕ)) (x : List ℕ) (xs : List (List ℕ))
    → length fs < n
    → fs ++ take (n - length fs) (x ∷ xs)
      ≡ (fs ++ (x ∷ [])) ++ take (n - length (fs ++ (x ∷ []))) xs
take_lem n fs x xs h =
    let longer = length-append fs (x ∷ []) in
    let left : n - length fs ≡ suc (n - length (fs ++ (x ∷ []))) = omega arith in
    ap (λ k. fs ++ take k (x ∷ xs)) left
    ∙ sym (append_assoc fs (x ∷ []) (take (n - length (fs ++ (x ∷ []))) xs))

values-hit :
    (p a : List ℕ) (rest : List (List ℕ))
    → has_prefix a p ≡ true
    → values p (a ∷ rest) ≡ drop 9 a ∷ values p rest
values-hit p a rest e = rw e refl

values-miss :
    (p a : List ℕ) (rest : List (List ℕ))
    → has_prefix a p ≡ false
    → values p (a ∷ rest) ≡ values p rest
values-miss p a rest e = rw e refl

module _ (a : List ℕ) (s : Plusargs) where
  one_file :
      has_prefix a dbg_sym ≡ true
      → ltb (length s.sym_files) 16 ≡ true
      → parse_plusarg a s ≡ record s { sym_files = s.sym_files ++ (drop 9 a ∷ []) }
  unfolding parse_plusarg
  one_file file room = rw (parse_plusarg, file, room) refl

  one_full :
      has_prefix a dbg_sym ≡ true → ltb (length s.sym_files) 16 ≡ false → parse_plusarg a s ≡ s
  unfolding parse_plusarg
  one_full file full = rw (parse_plusarg, file, full, not_src a file) refl

  one_src :
      has_prefix a dbg_sym ≡ false
      → has_prefix a dbg_src ≡ true
      → parse_plusarg a s ≡ record s { src_file = some (drop 9 a) }
  unfolding parse_plusarg
  one_src other source = rw (parse_plusarg, other, source) refl

  one_other : has_prefix a dbg_sym ≡ false → has_prefix a dbg_src ≡ false → parse_plusarg a s ≡ s
  unfolding parse_plusarg
  one_other other neither = rw (parse_plusarg, other, neither) refl

-- What parsePlusargs leaves, from the statics on.
abbrev IsParsed : List (List ℕ) → Plusargs → Type 0
IsParsed argv s =
    ((parse_plusargs argv s).sym_files
      ≡ s.sym_files ++ take (16 - length s.sym_files) (values dbg_sym argv))
    × ((parse_plusargs argv s).src_file ≡ last_or s.src_file (values dbg_src argv))

IsParsed-step :
    (a : List ℕ) (rest : List (List ℕ)) (s s1 : Plusargs)
    → parse_plusarg a s ≡ s1
    → s1.sym_files ++ take (16 - length s1.sym_files) (values dbg_sym rest)
      ≡ s.sym_files ++ take (16 - length s.sym_files) (values dbg_sym (a ∷ rest))
    → last_or s1.src_file (values dbg_src rest) ≡ last_or s.src_file (values dbg_src (a ∷ rest))
    → IsParsed rest s1
    → IsParsed (a ∷ rest) s
unfolding parse_plusargs
IsParsed-step a rest s s1 one files src was = (
  ap (λ u. (parse_plusargs rest u).sym_files) one ∙ was.0 ∙ files,
  ap (λ u. (parse_plusargs rest u).src_file) one ∙ was.1 ∙ src,
)

-- The files of the arguments from `a` on, when `a` gives none.
same_files :
    (a : List ℕ) (rest : List (List ℕ)) (s : Plusargs)
    → has_prefix a dbg_sym ≡ false
    → s.sym_files ++ take (16 - length s.sym_files) (values dbg_sym rest)
      ≡ s.sym_files ++ take (16 - length s.sym_files) (values dbg_sym (a ∷ rest))
same_files a rest s other =
    ap (λ xs. s.sym_files ++ take (16 - length s.sym_files) xs)
      (sym (values-miss dbg_sym a rest other))

parse_plusargs-IsParsed :
    (argv : List (List ℕ)) (s : Plusargs) → length s.sym_files ≤ 16 → IsParsed argv s
unfolding parse_plusargs
parse_plusargs-IsParsed [] s h = (
  sym (append-nil s.sym_files)
      ∙ ap (λ xs. s.sym_files ++ xs) (sym (take-nil (16 - length s.sym_files))),
  refl,
)
parse_plusargs-IsParsed (a ∷ rest) s h = elim (Bool-cases (has_prefix a dbg_sym)) [
  | inl file ↦
      let src = ap (last_or s.src_file) (sym (values-miss dbg_src a rest (not_src a file))) in
      elim (Bool-cases (ltb (length s.sym_files) 16)) [
        | inl room ↦
            let longer = length-append s.sym_files (drop 9 a ∷ []) in
            let s1 : Plusargs = record s { sym_files = s.sym_files ++ (drop 9 a ∷ []) } in
            IsParsed-step a rest s s1 (one_file a s file room)
              (sym (take_lem 16 s.sym_files (drop 9 a) (values dbg_sym rest) (ground arith))
                ∙ ap (λ xs. s.sym_files ++ take (16 - length s.sym_files) xs)
                    (sym (values-hit dbg_sym a rest file)))
              src (parse_plusargs-IsParsed rest s1 (ground arith))
        | inr full ↦
            let none_left : 16 - length s.sym_files ≡ 0 = ground arith in
            IsParsed-step a rest s s (one_full a s file full)
              (ap (λ k. s.sym_files ++ take k (values dbg_sym rest)) none_left
                ∙ ap (λ k. s.sym_files ++ take k (values dbg_sym (a ∷ rest))) (sym none_left))
              src (parse_plusargs-IsParsed rest s h)
      ]
  | inr other ↦ elim (Bool-cases (has_prefix a dbg_src)) [
    | inl source ↦
        IsParsed-step a rest s (record s { src_file = some (drop 9 a) }) (one_src a s other source)
          (same_files a rest s other)
          (ap (last_or s.src_file) (sym (values-hit dbg_src a rest source)))
          (parse_plusargs-IsParsed rest (record s { src_file = some (drop 9 a) }) h)
    | inr neither ↦
        IsParsed-step a rest s s (one_other a s other neither) (same_files a rest s other)
          (ap (last_or s.src_file) (sym (values-miss dbg_src a rest neither)))
          (parse_plusargs-IsParsed rest s h)
  ]
]

-- parsePlusargs takes as symbol files the values of the first 16 arguments +dbg_sym=, in order, and as
-- the source file the value of the last argument +dbg_src=, if there is one.
pub plusargs_of-values :
    (argv : List (List ℕ))
    → ((plusargs_of (some argv)).sym_files ≡ take 16 (values dbg_sym argv))
      × ((plusargs_of (some argv)).src_file ≡ last_or none (values dbg_src argv))
unfolding plusargs_of
plusargs_of-values argv =
    parse_plusargs-IsParsed argv (record { sym_files = []; src_file = none }) (omega arith)
