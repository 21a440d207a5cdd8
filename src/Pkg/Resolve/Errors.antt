-- ===== src/Pkg/Resolve/Errors.antt =====
-- What an error of pkg-manager/src/resolve.rs says of the dependency graph.
use vakt_os.Base.{
  Result, ok, err, >>=-eq-err, ℕ, zero, suc, ◌≡◌, refl, ap, ◌∙◌, inl, inr, true, List, [], ◌∷◌,
  ◌++◌, append_assoc, Option, none, some, Text, text_eq, lookup, contains, contains-append, All,
  All-map, arith, subst, ◌==◌, Bool-cases, eq_of_beq,
}
use vakt_os.Pkg.Manifest.{PackageManifest, Manifests}
use vakt_os.Pkg.Resolve.{
  Walk, Error, cycle, missing_dependency, missing_root, out_of_fuel, enter, leave, visit_each,
  visit_manifest, visit, visit_roots, start, install_order, not_found, cycle_at, tail_from,
}
use vakt_os.Pkg.Resolve.Cases.{visit-eq-err}
use vakt_os.Pkg.Resolve.Order.{IsWellNamed, Inv}
use vakt_os.Pkg.Resolve.Order.Steps.{enter-Inv, start-Inv, Visits, visit-Visited}

-- `a` has a manifest that names `b` as a dependency.
abbrev pub Edge : Manifests → Text → Text → Type 0
Edge manifests a b =
    (m : PackageManifest) × (lookup a manifests ≡ some m) × (contains m.dependencies b ≡ true)

-- Reachable from the roots.
pub data IsNeeded (manifests : Manifests) (roots : List Text) : Text → Type 0 where
  root : {n : Text} → contains roots n ≡ true → IsNeeded manifests roots n
  dependency :
      {p n : Text} → IsNeeded manifests roots p → Edge manifests p n → IsNeeded manifests roots n

-- Each name of the list depends on the next.
abbrev pub Chain : Manifests → List Text → Type 0
Chain manifests [] = Unit
Chain manifests (a ∷ []) = Unit
Chain manifests (a ∷ b ∷ l) = Edge manifests a b × Chain manifests (b ∷ l)

-- A needed package that depends on itself through the names of the list.
pub record IsCycle (manifests : Manifests) (roots names : List Text) : Type 0 where
  pub head : Text
  pub middle : List Text
  pub closes : names ≡ head ∷ (middle ++ head ∷ [])
  pub chain : Chain manifests names
  pub needed : IsNeeded manifests roots head

-- What each error claims.
abbrev pub IsTrue : Manifests → List Text → Error → Type 0
IsTrue manifests roots (cycle names) = IsCycle manifests roots names
IsTrue manifests roots (missing_dependency p n) =
    IsNeeded manifests roots p × Edge manifests p n × (lookup n manifests ≡ none)
IsTrue manifests roots (missing_root n) = (contains roots n ≡ true) × (lookup n manifests ≡ none)
IsTrue manifests roots out_of_fuel = Unit

module _ (manifests : Manifests) where
  Chain-snoc :
      (l : List Text) (a b : Text)
      → Chain manifests (l ++ a ∷ [])
      → Edge manifests a b
      → Chain manifests ((l ++ a ∷ []) ++ b ∷ [])
  Chain-snoc [] a b c e = (e, tt)
  Chain-snoc (x ∷ []) a b c e = (c.0, (e, tt))
  Chain-snoc (x ∷ y ∷ l) a b c e = (c.0, Chain-snoc (y ∷ l) a b c.1 e)

  Chain-tail : (x : Text) (l : List Text) → Chain manifests (x ∷ l) → Chain manifests l
  Chain-tail x [] c = tt
  Chain-tail x (y ∷ l) c = c.1

  Chain-tail_from :
      (n : Text) (path : List Text)
      → Chain manifests (path ++ n ∷ [])
      → Chain manifests (tail_from n path ++ n ∷ [])
  Chain-tail_from n [] c = c
  Chain-tail_from n (p ∷ ps) c = elim (Bool-cases (p == n)) [
    | inl here ↦ rw here c
    | inr later ↦ rw later (Chain-tail_from n ps (Chain-tail p (ps ++ n ∷ []) c))
  ]

  tail_from_head :
      (n : Text) (path : List Text)
      → contains path n ≡ true
      → (mid : List Text) × (tail_from n path ≡ n ∷ mid)
  tail_from_head n [] h = cc
  tail_from_head n (p ∷ ps) h = elim (Bool-cases (p == n)) [
    | inl here ↦ (ps, rw here (ap (λ x. x ∷ ps) (eq_of_beq {a = p} {b = n} here)))
    | inr later ↦ rw later (tail_from_head n ps (ground arith))
  ]

  cycle_at-IsCycle :
      (roots : List Text) (n : Text) (path : List Text)
      → IsNeeded manifests roots n
      → contains path n ≡ true
      → Chain manifests (path ++ n ∷ [])
      → IsCycle manifests roots (cycle_at n path)
  unfolding cycle_at
  cycle_at-IsCycle roots n path need h c =
      let (mid, e) = tail_from_head n path h in
      rw h (record {
        head = n;
        middle = mid;
        closes = ap (λ l. l ++ n ∷ []) e;
        chain = Chain-tail_from n path c;
        needed = need;
      })

pub All-contains : (before xs : List Text) → All (λ x. contains (before ++ xs) x ≡ true) xs
All-contains before [] = tt
All-contains before (x ∷ xs) = (
  ground (arith, contains-append before (x ∷ xs) x, text_eq.beq_iff x x),
  rw append_assoc at (All-contains (before ++ x ∷ []) xs),
)

module _ (manifests : Manifests) (named : IsWellNamed manifests) (roots : List Text) where
  abbrev IsWanted : Option Text → Text → Type 0
  IsWanted none n = contains roots n ≡ true
  IsWanted (some p) n = IsNeeded manifests roots p × Edge manifests p n

  wanted-IsNeeded : (o : Option Text) (n : Text) → IsWanted o n → IsNeeded manifests roots n
  wanted-IsNeeded none n h = IsNeeded.root h
  wanted-IsNeeded (some p) n h = IsNeeded.dependency h.0 h.1

  not_found-IsTrue :
      (o : Option Text) (n : Text)
      → IsWanted o n
      → lookup n manifests ≡ none
      → IsTrue manifests roots (not_found o n)
  unfolding not_found
  not_found-IsTrue none n h missing = (h, missing)
  not_found-IsTrue (some p) n h missing = (h.0, h.1, missing)

  -- `go` tells the truth about each name that the path leads to.
  abbrev IsHonest : (Text → Type 0) → (Text → Walk → Result Error Walk) → Type 0
  IsHonest Asked go =
      (d : Text) (w : Walk) (e : Error)
      → Inv manifests w
      → Asked d
      → Chain manifests (w.path ++ d ∷ [])
      → go d w ≡ err e
      → IsTrue manifests roots e

  visit_each-IsTrue :
      (Asked : Text → Type 0) (go : Text → Walk → Result Error Walk)
      → Visits manifests named go
      → IsHonest Asked go
      → (path ds : List Text) (w : Walk) (e : Error) → Inv manifests w
      → w.path ≡ path
      → All (λ d. Asked d × Chain manifests (path ++ d ∷ [])) ds
      → visit_each go ds w ≡ err e
      → IsTrue manifests roots e
  unfolding visit_each
  visit_each-IsTrue Asked go visits honest path [] w e v same asked h = cc
  visit_each-IsTrue Asked go visits honest path (d ∷ ds) w e v same asked h =
      elim (>>=-eq-err (go d w) (visit_each go ds) h) [
        | inl first ↦ honest d w e v asked.0.0 (rw same asked.0.1) first
        | inr (u, first, later) ↦
            let one = visits d w u v first in
            visit_each-IsTrue Asked go visits honest path ds u e one.inv
              (one.grows.path_kept ∙ same) asked.1 later
      ]

  visit_manifest-IsTrue :
      (go : Text → Text → Walk → Result Error Walk)
      → ((p : Text) → Visits manifests named (go p))
      → ((p : Text) → IsHonest (IsWanted (some p)) (go p))
      → (m : PackageManifest) (w : Walk) (e : Error) → Inv manifests w
      → IsNeeded manifests roots m.name
      → lookup m.name manifests ≡ some m
      → lookup m.name w.state ≡ none
      → Chain manifests (w.path ++ m.name ∷ [])
      → visit_manifest go m w ≡ err e
      → IsTrue manifests roots e
  unfolding visit_manifest
  visit_manifest-IsTrue go visits honest m w e v need known fresh c h =
      elim (>>=-eq-err (visit_each (go m.name) m.dependencies (enter m.name w))
        (λ u. ok (leave m.name u)) h) [
          | inl inside ↦
              visit_each-IsTrue (IsWanted (some m.name)) (go m.name) (visits m.name) (honest m.name)
                (w.path ++ m.name ∷ []) m.dependencies (enter m.name w) e
                (enter-Inv manifests named m.name w fresh v) refl
                (All-map m.dependencies
                  (λ d listed. (
                    (need, (m, known, listed)),
                    Chain-snoc manifests w.path m.name d c (m, known, listed),
                  ))
                  (All-contains [] m.dependencies))
                inside
          | inr (u, _, impossible) ↦ cc
        ]

  visit-IsHonest :
      (fuel : ℕ) (o : Option Text) → IsHonest (IsWanted o) (λ n. visit fuel manifests n o)
  visit-IsHonest zero o n w e v asked c h =
      unfold visit in subst (IsTrue manifests roots) {x = out_of_fuel} (cc) tt
  visit-IsHonest (suc fuel) o n w e v asked c h = elim (visit-eq-err fuel manifests n o w h) [
    | inl (walking, is) ↦ rw is (
        cycle_at-IsCycle manifests roots n w.path (wanted-IsNeeded o n asked)
          (ground (arith, v.walking n)) c)
    | inr (inl (fresh, missing, is)) ↦ rw is (not_found-IsTrue o n asked missing)
    | inr (inr (fresh, (m, known, walked))) ↦
        let same = named n m known in
        visit_manifest-IsTrue (λ p d. visit fuel manifests d (some p))
          (λ p. visit-Visited manifests named fuel (some p)) (λ p. visit-IsHonest fuel (some p)) m w
          e v (simp same (wanted-IsNeeded o n asked)) (simp same known) (simp same fresh)
          (simp same c) walked
  ]

  visit_roots-IsTrue :
      (fuel : ℕ) (some_roots : List Text) (w : Walk) (e : Error)
      → Inv manifests w
      → w.path ≡ []
      → All (λ r. contains roots r ≡ true) some_roots
      → visit_roots fuel manifests some_roots w ≡ err e
      → IsTrue manifests roots e
  unfolding visit_roots
  visit_roots-IsTrue fuel [] w e v empty asked h = cc
  visit_roots-IsTrue fuel (r ∷ rs) w e v empty asked h =
      let again = record w { path = [] } in
      let v' : Inv manifests again = record {
        placed = v.placed;
        walking = λ n. v.walking n ∙ ap (λ p. contains p n) empty;
        nodup = v.nodup;
        ordered = v.ordered;
      } in
      elim (>>=-eq-err (visit fuel manifests r none again) (visit_roots fuel manifests rs) h) [
        | inl first ↦ visit-IsHonest fuel none r again e v' asked.0 tt first
        | inr (u, first, later) ↦
            let one = visit-Visited manifests named fuel none r again u v' first in
            visit_roots-IsTrue fuel rs u e one.inv one.grows.path_kept asked.1 later
      ]

  -- If every manifest stands under its own name, every error of `install_order` but that of spent
  -- fuel is true of the repository: a reported cycle is a chain of
  -- dependencies from a needed package back to itself; a missing dependency is needed, named by
  -- its parent's manifest and absent; a missing root was asked for and is absent.
  pub install_order-IsTrue :
      (fuel : ℕ) (e : Error) → install_order fuel roots manifests ≡ err e → IsTrue manifests roots e
  unfolding install_order
  install_order-IsTrue fuel e h =
      elim (>>=-eq-err (visit_roots fuel manifests roots start) (λ w. ok w.order) h) [
        | inl walked ↦
            visit_roots-IsTrue fuel roots start e (start-Inv manifests named) refl
              (All-contains [] roots) walked
        | inr (w, _, impossible) ↦ cc
      ]
