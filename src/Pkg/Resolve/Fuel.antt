-- ===== src/Pkg/Resolve/Fuel.antt =====
-- How deep the walk of pkg-manager/src/resolve.rs can nest: each nested call has put one more of
-- the map's packages into the state.
use vakt_os.Base.{
  Result, ok, err, >>=-eq-ok, >>=-eq-err, ℕ, zero, suc, ◌+◌, ◌≤◌, ◌<◌, ◌≡◌, ◌≢◌, refl, inl, inr,
  List, [], ◌∷◌, Option, none, some, Text, text_eq, Map, lookup, insert, lookup-insert, arith,
  length,
}
use vakt_os.Pkg.Manifest.{PackageManifest, Manifests}
use vakt_os.Pkg.Resolve.{
  Visit, Walk, Error, out_of_fuel, enter, leave, visit_each, visit_manifest, visit, visit_roots,
  start, install_order, not_found,
}
use vakt_os.Pkg.Resolve.Cases.{visit-eq-ok, visit-eq-err}
use vakt_os.Pkg.Resolve.Order.{IsWellNamed}

abbrev is_fresh : Option Visit → ℕ
is_fresh none = 1
is_fresh (some _) = 0

-- The packages of the map that the walk has not entered.
unvisited : Manifests → Map Text Visit → ℕ
unvisited [] state = 0
unvisited ((k, _) ∷ ms) state = is_fresh (lookup k state) + unvisited ms state

unvisited-insert-le :
    (ms : Manifests) (n : Text) (v : Visit) (state : Map Text Visit)
    → unvisited ms (insert n v state) ≤ unvisited ms state
unfolding unvisited
unvisited-insert-le [] n v state = omega arith
unvisited-insert-le ((k, _) ∷ ms) n v state =
    ground (arith, unvisited-insert-le ms n v state, lookup-insert n k v state)

unvisited-insert-lt :
    (ms : Manifests) (n : Text) (v : Visit) (state : Map Text Visit) {m : PackageManifest}
    → lookup n ms ≡ some m
    → lookup n state ≡ none
    → unvisited ms (insert n v state) < unvisited ms state
unfolding unvisited
unvisited-insert-lt [] n v state known fresh = cc
unvisited-insert-lt ((k, _) ∷ ms) n v state {m} known fresh = ground (
  arith,
  unvisited-insert-le ms n v state,
  unvisited-insert-lt ms n v state {m = m},
  lookup-insert n k v state,
  text_eq.beq_iff k n,
  text_eq.beq_iff n k,
)

unvisited-start : (ms : Manifests) → unvisited ms [] ≡ length ms
unfolding unvisited
unvisited-start [] = refl
unvisited-start ((k, _) ∷ ms) = omega (arith, unvisited-start ms)

not_found-ne-out_of_fuel : (o : Option Text) (n : Text) → not_found o n ≢ out_of_fuel
unfolding not_found
not_found-ne-out_of_fuel none n e = cc
not_found-ne-out_of_fuel (some p) n e = cc

module _ (manifests : Manifests) (named : IsWellNamed manifests) where
  abbrev left : Walk → ℕ
  left w = unvisited manifests w.state

  abbrev Shrinks : (Text → Walk → Result Error Walk) → Type 0
  Shrinks go = (d : Text) (w w' : Walk) → go d w ≡ ok w' → left w' ≤ left w

  visit_each-Shrinks :
      (go : Text → Walk → Result Error Walk)
      → Shrinks go
      → (ds : List Text) (w w' : Walk) → visit_each go ds w ≡ ok w'
      → left w' ≤ left w
  unfolding visit_each
  visit_each-Shrinks go s [] w w' h = ground arith
  visit_each-Shrinks go s (d ∷ ds) w w' h =
      let (u, first, later) = >>=-eq-ok (go d w) (visit_each go ds) h in
      omega (arith, s d w u first, visit_each-Shrinks go s ds u w' later)

  visit-Shrinks :
      (fuel : ℕ) (wanted_by : Option Text) → Shrinks (λ n. visit fuel manifests n wanted_by)
  unfolding visit_manifest
  visit-Shrinks zero wanted_by n w w' h = unfold visit in cc
  visit-Shrinks (suc fuel) wanted_by n w w' h = elim (visit-eq-ok fuel manifests n wanted_by w h) [
    | inl (seen, same) ↦ ground arith
    | inr (fresh, (m, known, walked)) ↦
        let (u, each, left_it) =
          >>=-eq-ok
            (visit_each (λ d. visit fuel manifests d (some m.name)) m.dependencies (enter m.name w))
            (λ u. ok (leave m.name u)) walked in
        let below =
          visit_each-Shrinks (λ d. visit fuel manifests d (some m.name))
            (visit-Shrinks fuel (some m.name)) m.dependencies (enter m.name w) u each in
        ground (
          arith,
          below,
          unvisited-insert-le manifests m.name Visit.in_progress w.state,
          unvisited-insert-le manifests m.name Visit.done u.state,
        )
  ]

  abbrev Suffices : ℕ → (Text → Walk → Result Error Walk) → Type 0
  Suffices fuel go = (d : Text) (w : Walk) → left w < fuel → go d w ≢ err out_of_fuel

  visit_each-Suffices :
      (fuel : ℕ) (go : Text → Walk → Result Error Walk)
      → Shrinks go
      → Suffices fuel go
      → (ds : List Text) (w : Walk) → left w < fuel
      → visit_each go ds w ≢ err out_of_fuel
  unfolding visit_each
  visit_each-Suffices fuel go s enough [] w l h = cc
  visit_each-Suffices fuel go s enough (d ∷ ds) w l h =
      elim (>>=-eq-err (go d w) (visit_each go ds) h) [
        | inl first ↦ enough d w l first
        | inr (u, first, later) ↦
            visit_each-Suffices fuel go s enough ds u (omega (arith, s d w u first)) later
      ]

  visit-Suffices :
      (fuel : ℕ) (wanted_by : Option Text) → Suffices fuel (λ n. visit fuel manifests n wanted_by)
  unfolding visit_manifest
  visit-Suffices zero wanted_by n w l h = elim l [ ]
  visit-Suffices (suc fuel) wanted_by n w l h = elim (visit-eq-err fuel manifests n wanted_by w h) [
    | inl (walking, e) ↦ cc
    | inr (inl (fresh, missing, e)) ↦ not_found-ne-out_of_fuel wanted_by n (cc)
    | inr (inr (fresh, (m, known, walked))) ↦
        elim (>>=-eq-err
          (visit_each (λ d. visit fuel manifests d (some m.name)) m.dependencies (enter m.name w))
          (λ u. ok (leave m.name u)) walked) [
            | inl deeper ↦
                visit_each-Suffices fuel (λ d. visit fuel manifests d (some m.name))
                  (visit-Shrinks fuel (some m.name)) (visit-Suffices fuel (some m.name))
                  m.dependencies (enter m.name w)
                  (omega (
                    arith,
                    unvisited-insert-lt manifests m.name Visit.in_progress w.state {m = m}
                        (simp (named n m known) known) (simp (named n m known) fresh),
                  ))
                  deeper
            | inr (u, _, impossible) ↦ cc
          ]
  ]

  visit_roots-Suffices :
      (fuel : ℕ) (roots : List Text) (w : Walk)
      → left w < fuel
      → visit_roots fuel manifests roots w ≢ err out_of_fuel
  unfolding visit_roots
  visit_roots-Suffices fuel [] w l h = cc
  visit_roots-Suffices fuel (root ∷ roots) w l h =
      let again = record w { path = [] } in
      elim (>>=-eq-err (visit fuel manifests root none again) (visit_roots fuel manifests roots)
        h) [
          | inl first ↦ visit-Suffices fuel none root again l first
          | inr (u, first, later) ↦
              visit_roots-Suffices fuel roots u
                (omega (arith, visit-Shrinks fuel none root again u first)) later
        ]

  -- If every manifest stands under its own name, one level more than the map has packages is fuel
  -- enough: the walk never nests deeper.
  pub install_order-ne-out_of_fuel :
      (fuel : ℕ) (roots : List Text)
      → length manifests < fuel
      → install_order fuel roots manifests ≢ err out_of_fuel
  unfolding install_order
  install_order-ne-out_of_fuel fuel roots l h =
      elim (>>=-eq-err (visit_roots fuel manifests roots start) (λ w. ok w.order) h) [
        | inl deep ↦
            visit_roots-Suffices fuel roots start (omega (arith, unvisited-start manifests)) deep
        | inr (w, _, impossible) ↦ cc
      ]
