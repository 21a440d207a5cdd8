-- ===== src/Base/Equality.antt =====
-- Boolean equality as an interface, with instances for numbers and for texts.
use vakt_os.Base.Core.{
  ℕ, ◌≡◌, refl, ◌↔◌, inl, inr, Bool, true, false, not, ◌&&◌, ◌||◌, List, [], ◌∷◌, ◌++◌, arith,
  nat_beq, nat_beq_iff, if◌then◌else◌, Bool-cases,
}

-- A Rust `str` is the list of its characters, each as its Unicode scalar value.
abbrev pub Text : Type 0
Text = List ℕ

abbrev pub text_beq : Text → Text → Bool
text_beq [] [] = true
text_beq (x ∷ xs) (y ∷ ys) = nat_beq x y && text_beq xs ys
text_beq _ _ = false

pub text_beq_iff : (a b : Text) → (text_beq a b ≡ true) ↔ (a ≡ b)
text_beq_iff [] [] = ground arith
text_beq_iff (x ∷ a) (y ∷ b) = ground (arith, text_beq_iff a b)
text_beq_iff _ _ = ground arith

pub record Eq {ℓ} (A : Type ℓ) : Type ℓ where
  pub beq : A → A → Bool
  pub beq_iff : (x y : A) → (beq x y ≡ true) ↔ (x ≡ y)

instance abbrev pub nat_eq : Eq ℕ
nat_eq = record { beq = nat_beq; beq_iff = nat_beq_iff }

instance abbrev pub text_eq : Eq Text
text_eq = record { beq = text_beq; beq_iff = text_beq_iff }

infix 50 ◌==◌
abbrev pub ◌==◌ {ℓ} : {A : Type ℓ} ⦃e : Eq A⦄ → A → A → Bool
◌==◌ ⦃e⦄ = e.beq

module _ {ℓ} {A : Type ℓ} ⦃e : Eq A⦄ where
  pub beq_refl : (a : A) → (a == a) ≡ true
  beq_refl a = (e.beq_iff a a).1 refl

  pub eq_of_beq : {a b : A} → (a == b) ≡ true → a ≡ b
  eq_of_beq {a} {b} h = (e.beq_iff a b).0 h

  pub beq-sym : (a b : A) → (a == b) ≡ (b == a)
  beq-sym a b = ground (arith, e.beq_iff a b, e.beq_iff b a)

  -- Membership, as the source's `contains` and its sets' tests.
  abbrev pub contains : List A → A → Bool
  contains [] a = false
  contains (x ∷ xs) a = x == a || contains xs a

  -- `BTreeSet::remove`, on a set without duplicates or not.
  abbrev pub remove : List A → A → List A
  remove [] a = []
  remove (x ∷ xs) a = let rest = remove xs a in if x == a then rest else x ∷ rest

  -- `BTreeSet::insert` and `HashSet::insert`.
  abbrev pub insert_set : List A → A → List A
  insert_set xs a = if contains xs a then xs else a ∷ xs

module _ {ℓ} {A : Type ℓ} ⦃e : Eq A⦄ where
  pub contains-append :
      (xs ys : List A) (a : A) → contains (xs ++ ys) a ≡ (contains xs a || contains ys a)
  contains-append [] ys a = refl
  contains-append (x ∷ xs) ys a = ground (arith, contains-append xs ys a)

  pub contains-remove :
      (xs : List A) (a b : A) → contains (remove xs a) b ≡ (not (a == b) && contains xs b)
  contains-remove [] a b = ground arith
  contains-remove (x ∷ xs) a b =
      ground (arith, contains-remove xs a b, e.beq_iff x a, e.beq_iff x b, e.beq_iff a b)

  pub contains-insert_set :
      (xs : List A) (a b : A) → contains (insert_set xs a) b ≡ (a == b || contains xs b)
  contains-insert_set xs a b = elim (Bool-cases (contains xs a)) [
    | inr new ↦ rw new refl
    | inl old ↦ rw old (elim (Bool-cases (a == b)) [
      | inl same ↦ rw (same, ← eq_of_beq {a = a} {b = b} same) old
      | inr other ↦ rw other refl
    ])
  ]
