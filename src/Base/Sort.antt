-- ===== src/Base/Sort.antt =====
-- `sort` and `dedup` of Rust's vectors of strings.
use vakt_os.Base.Core.{
  ◌≡◌, refl, Bool, true, false, ◌||◌, List, [], ◌∷◌, arith, ltb, nat_beq, if◌then◌else◌, Bool-cases,
  inl, inr,
}
use vakt_os.Base.Equality.{Text, text_eq, ◌==◌, contains}

-- Strings are ordered by their bytes, which UTF-8 makes the order of the characters.
abbrev pub text_leb : Text → Text → Bool
text_leb [] b = true
text_leb (x ∷ a) [] = false
text_leb (x ∷ a) (y ∷ b) = let rest = text_leb a b in if nat_beq x y then rest else ltb x y

abbrev pub insert_sorted : Text → List Text → List Text
insert_sorted a [] = a ∷ []
insert_sorted a (x ∷ xs) =
    let rest = insert_sorted a xs in if text_leb a x then a ∷ x ∷ xs else x ∷ rest

unfoldable pub sort : List Text → List Text
sort [] = []
sort (x ∷ xs) = insert_sorted x (sort xs)

-- Of equal neighbours only the first stays.
unfoldable pub dedup : List Text → List Text
dedup [] = []
dedup (x ∷ []) = x ∷ []
dedup (x ∷ y ∷ ys) = let rest = dedup (y ∷ ys) in if x == y then rest else x ∷ rest

contains-insert_sorted :
    (a : Text) (xs : List Text) (n : Text)
    → contains (insert_sorted a xs) n ≡ (a == n || contains xs n)
contains-insert_sorted a [] n = refl
contains-insert_sorted a (x ∷ xs) n = ground (arith, contains-insert_sorted a xs n)

pub contains-sort : (xs : List Text) (n : Text) → contains (sort xs) n ≡ contains xs n
unfolding sort
contains-sort [] n = refl
contains-sort (x ∷ xs) n = rw (contains-insert_sorted x (sort xs) n, contains-sort xs n)

pub contains-dedup : (xs : List Text) (n : Text) → contains (dedup xs) n ≡ contains xs n
unfolding dedup
contains-dedup [] n = refl
contains-dedup (x ∷ []) n = refl
contains-dedup (x ∷ y ∷ ys) n = elim (Bool-cases (x == y)) [
  | inl same ↦ rw same (rw (contains-dedup (y ∷ ys) n) (ground (arith, text_eq.beq_iff x y)))
  | inr other ↦ rw other (rw (contains-dedup (y ∷ ys) n))
]
