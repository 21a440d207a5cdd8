-- ===== src/Pkg/Paths/Plain.antt =====
-- What the accepted paths of pkg-manager/src/remove.rs are made of.
use vakt_os.Base.{
  ◌≡◌, ◌≢◌, refl, sym, ◌∙◌, inl, inr, true, false, List, [], ◌∷◌, ◌++◌, append_assoc, append-nil,
  Text, text_eq, nat_eq, ◌==◌, ok, >>=-eq-ok, text, nat_beq, contains, contains-append, All,
  All-append, Bool-cases, arith, subst,
}
use vakt_os.Pkg.Paths.{
  Component, root_dir, cur_dir, parent_dir, normal, RelPath, pieces, component, components_of,
  front, first, non_root, components, push_components, safe_relative, safe_target,
}

-- A name of a single step down: not empty, without a slash, and neither `.` nor `..`.
pub record IsPlain (name : Text) : Type 0 where
  pub non_empty : name ≢ []
  pub one_step : contains name b'/' ≡ false
  pub not_here : name ≢ text "."
  pub not_up : name ≢ text ".."

-- What a component may be once its text has been cut at the slashes.
abbrev IsCut : Component → Type 0
IsCut (normal name) = IsPlain name
IsCut _ = Unit

-- Without a slash.
abbrev IsPiece : Text → Type 0
IsPiece name = contains name b'/' ≡ false

pieces-IsPiece : (t name : Text) → IsPiece name → All IsPiece (pieces name t)
unfolding pieces
pieces-IsPiece [] name h = (h, tt)
pieces-IsPiece (c ∷ cs) name h = elim (Bool-cases (nat_beq c b'/')) [
  | inl slash ↦ rw (slash, pieces) (h, pieces-IsPiece cs [] refl)
  | inr other ↦
      rw (other, pieces)
        (pieces-IsPiece cs (name ++ c ∷ []) (ground (arith, contains-append name (c ∷ []) b'/')))
]

component-IsCut : (name : Text) → IsPiece name → All IsCut (component name)
unfolding component
component-IsCut name h = elim (Bool-cases (name == [])) [
  | inl a ↦ rw (a, component) tt
  | inr a ↦ elim (Bool-cases (name == text ".")) [
    | inl b ↦ rw (a, b, component) tt
    | inr b ↦ elim (Bool-cases (name == text "..")) [
      | inl c ↦ rw (a, b, c, component) (tt, tt)
      | inr c ↦
          rw (a, b, c, component)
            (
              record {
                non_empty = λ e. ground (arith, text_eq.beq_iff name []);
                one_step = h;
                not_here = λ e. ground (arith, text_eq.beq_iff name (text "."));
                not_up = λ e. ground (arith, text_eq.beq_iff name (text ".."));
              },
              tt,
            )
    ]
  ]
]

components_of-IsCut : (names : List Text) → All IsPiece names → All IsCut (components_of names)
unfolding components_of
components_of-IsCut [] h = tt
components_of-IsCut (name ∷ names) h =
    All-append IsCut (component name) (components_of names) (component-IsCut name h.0)
      (components_of-IsCut names h.1)

front_here :
    (name : Text) (names : List Text)
    → (name == text ".") ≡ true
    → front name names ≡ cur_dir ∷ components_of names
unfolding front
front_here name names h = rw h

front_other :
    (name : Text) (names : List Text)
    → (name == text ".") ≡ false
    → front name names ≡ components_of (name ∷ names)
unfolding front
front_other name names h = rw h

front-IsCut :
    (name : Text) (names : List Text) → All IsPiece (name ∷ names) → All IsCut (front name names)
front-IsCut name names h = elim (Bool-cases (name == text ".")) [
  | inl here ↦
      subst (All IsCut) (sym (front_here name names here)) (tt, components_of-IsCut names h.1)
  | inr other ↦
      subst (All IsCut) (sym (front_other name names other)) (components_of-IsCut (name ∷ names) h)
]

first-IsCut : (names : List Text) → All IsPiece names → All IsCut (first names)
unfolding first
first-IsCut [] h = tt
first-IsCut ([] ∷ []) h = tt
first-IsCut ([] ∷ name ∷ names) h = (tt, components_of-IsCut (name ∷ names) h.1)
first-IsCut ((c ∷ cs) ∷ names) h = front-IsCut (c ∷ cs) names h

-- The names of the components that go down.
abbrev pub names_of : List Component → RelPath
names_of [] = []
names_of (normal name ∷ cs) = name ∷ names_of cs
names_of (cur_dir ∷ cs) = names_of cs
names_of (root_dir ∷ cs) = names_of cs
names_of (parent_dir ∷ cs) = names_of cs

-- A component that neither goes up nor starts at the root.
abbrev pub GoesDown : Component → Type 0
GoesDown (normal name) = Unit
GoesDown cur_dir = Unit
GoesDown _ = ⊥

push_components-eq-ok :
    (cs : List Component) (acc p : RelPath)
    → push_components acc cs ≡ ok p
    → (p ≡ acc ++ names_of cs) × All GoesDown cs
unfolding push_components
push_components-eq-ok [] acc p h = (ground (arith, append-nil acc), tt)
push_components-eq-ok (normal name ∷ cs) acc p h =
    let (is, down) = push_components-eq-ok cs (acc ++ name ∷ []) p h in
    (is ∙ append_assoc acc (name ∷ []) (names_of cs), (tt, down))
push_components-eq-ok (cur_dir ∷ cs) acc p h =
    let (is, down) = push_components-eq-ok cs acc p h in (is, (tt, down))
push_components-eq-ok (parent_dir ∷ cs) acc p h = cc
push_components-eq-ok (root_dir ∷ cs) acc p h = cc

names_of-IsPlain : (cs : List Component) → All IsCut cs → All IsPlain (names_of cs)
names_of-IsPlain [] h = tt
names_of-IsPlain (normal name ∷ cs) h = (h.0, names_of-IsPlain cs h.1)
names_of-IsPlain (cur_dir ∷ cs) h = names_of-IsPlain cs h.1
names_of-IsPlain (root_dir ∷ cs) h = names_of-IsPlain cs h.1
names_of-IsPlain (parent_dir ∷ cs) h = names_of-IsPlain cs h.1

non_root-eq-ok : (r p : RelPath) → non_root r ≡ ok p → (p ≡ r) × (p ≢ [])
non_root-eq-ok [] p h = cc
non_root-eq-ok (name ∷ names) p h = (cc, λ e. cc)

-- A recorded path that `safe_target` accepts has no component that goes up or starts at the root. What
-- it gives is not empty, and is made of the other components in their order, each of them a name of a
-- single step down: not empty, without a slash, and neither `.` nor `..`.
pub safe_target-IsPlain :
    (recorded : Text) (p : RelPath)
    → safe_target recorded ≡ ok p
    → (p ≡ names_of (components recorded))
      × (p ≢ [])
      × All IsPlain p
      × All GoesDown (components recorded)
unfolding safe_target safe_relative
safe_target-IsPlain recorded p h =
    let (r, relative, rest) = >>=-eq-ok (safe_relative recorded) non_root h in
    let (same, proper) = non_root-eq-ok r p rest in
    let (is, down) = push_components-eq-ok (components recorded) [] r relative in
    let cut : All IsCut (components recorded) =
      unfold components in first-IsCut (pieces [] recorded) (pieces-IsPiece recorded [] refl) in
    (
      same ∙ is,
      proper,
      subst (All IsPlain) (sym (same ∙ is)) (names_of-IsPlain (components recorded) cut),
      down,
    )
