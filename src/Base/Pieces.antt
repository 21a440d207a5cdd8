-- ===== src/Base/Pieces.antt =====
-- Characters that a text lacks, its parts lack.
use vakt_os.Base.Core.{
  ℕ, ◌≡◌, refl, inl, inr, Bool, true, false, List, [], ◌∷◌, ◌++◌, nat_beq, Bool-cases, All, arith,
  ap,
}
use vakt_os.Base.Equality.{Text, nat_eq, contains, contains-append}
use vakt_os.Base.Strings.{
  trim, trim_start_matches, trim_end_matches, keep_front, is_whitespace, lines_from, last_line,
  strip_cr,
}
use vakt_os.Base.Assignments.{split, before_rest}

module _ (n : ℕ) where
  trim_start-lacks :
      (p : ℕ → Bool) (t : Text) → contains t n ≡ false → contains (trim_start_matches p t) n ≡ false
  unfolding trim_start_matches
  trim_start-lacks p [] h = h
  trim_start-lacks p (c ∷ cs) h = elim (Bool-cases (p c)) [
    | inl skip ↦ rw skip (trim_start-lacks p cs (ground arith))
    | inr stop ↦ rw stop h
  ]

  keep_front-lacks :
      (b : Bool) (c : ℕ) (t : Text)
      → contains (c ∷ t) n ≡ false
      → contains (keep_front b c t) n ≡ false
  keep_front-lacks true c [] h = refl
  keep_front-lacks true c (d ∷ t) h = h
  keep_front-lacks false c t h = h

  trim_end-lacks :
      (p : ℕ → Bool) (t : Text) → contains t n ≡ false → contains (trim_end_matches p t) n ≡ false
  unfolding trim_end_matches
  trim_end-lacks p [] h = h
  trim_end-lacks p (c ∷ cs) h =
      keep_front-lacks (p c) c (trim_end_matches p cs)
        (ground (arith, trim_end-lacks p cs (ground arith)))

  pub trim-lacks : (t : Text) → contains t n ≡ false → contains (trim t) n ≡ false
  unfolding trim
  trim-lacks t h = trim_end-lacks is_whitespace _ (trim_start-lacks is_whitespace t h)

  strip_cr-lacks : (t : Text) → contains t n ≡ false → contains (strip_cr t) n ≡ false
  strip_cr-lacks [] h = h
  strip_cr-lacks (c ∷ []) h = ground arith
  strip_cr-lacks (c ∷ d ∷ cs) h = ground (arith, strip_cr-lacks (d ∷ cs) (ground arith))

abbrev pub Lacks : Text → Type 0
Lacks t = contains t b'\n' ≡ false

last_line-Lacks : (acc : Text) → Lacks acc → All Lacks (last_line acc)
last_line-Lacks [] h = tt
last_line-Lacks (c ∷ cs) h = (h, tt)

pub lines_from-Lacks : (t acc : Text) → Lacks acc → All Lacks (lines_from acc t)
unfolding lines_from
lines_from-Lacks [] acc h = last_line-Lacks acc h
lines_from-Lacks (c ∷ cs) acc h = elim (Bool-cases (nat_beq c b'\n')) [
  | inl newline ↦ rw (newline, lines_from) (strip_cr-lacks b'\n' acc h, lines_from-Lacks cs [] refl)
  | inr other ↦
      rw (other, lines_from)
        (lines_from-Lacks cs (acc ++ c ∷ []) (ground (arith, contains-append acc (c ∷ []) b'\n')))
]

-- The pieces of `split` lack the separator, and what the text lacks.
before_rest-lacks :
    (n c : ℕ) (pieces : List Text)
    → contains (c ∷ []) n ≡ false
    → All (λ t. contains t n ≡ false) pieces
    → All (λ t. contains t n ≡ false) (before_rest c pieces)
before_rest-lacks n c [] h k = (h, tt)
before_rest-lacks n c (piece ∷ pieces) h k = (ground (arith, k.0), k.1)

pub split-lacks_separator :
    (d : ℕ) (t : Text) → All (λ x. contains x d ≡ false) (split (λ c. nat_beq c d) t)
unfolding split
split-lacks_separator d [] = (refl, tt)
split-lacks_separator d (c ∷ cs) = elim (Bool-cases (nat_beq c d)) [
  | inl here ↦ rw here (refl, split-lacks_separator d cs)
  | inr other ↦ rw other (
      before_rest-lacks d c (split (λ c. nat_beq c d) cs) (ground arith)
        (split-lacks_separator d cs))
]

pub split-lacks :
    (d n : ℕ) (t : Text)
    → contains t n ≡ false
    → All (λ x. contains x n ≡ false) (split (λ c. nat_beq c d) t)
unfolding split
split-lacks d n [] h = (refl, tt)
split-lacks d n (c ∷ cs) h = elim (Bool-cases (nat_beq c d)) [
  | inl here ↦ rw here (refl, split-lacks d n cs (ground arith))
  | inr other ↦ rw other (
      before_rest-lacks n c (split (λ c. nat_beq c d) cs) (ground arith)
        (split-lacks d n cs (ground arith)))
]

-- A piece without the separator, at the end and at the front.
pub split_last : (d : ℕ) (t : Text) → contains t d ≡ false → split (λ c. nat_beq c d) t ≡ t ∷ []
unfolding split
split_last d [] h = refl
split_last d (c ∷ cs) h =
    let other : nat_beq c d ≡ false = ground arith in
    rw other (ap (before_rest c) (split_last d cs (ground arith)))

pub split_front :
    (d : ℕ) (t rest : Text)
    → contains t d ≡ false
    → split (λ c. nat_beq c d) (t ++ d ∷ rest) ≡ t ∷ split (λ c. nat_beq c d) rest
unfolding split
split_front d [] rest h = let same : nat_beq d d ≡ true = ground arith in rw same refl
split_front d (c ∷ cs) rest h =
    let other : nat_beq c d ≡ false = ground arith in
    rw other (ap (before_rest c) (split_front d cs rest (ground arith)))
