-- ===== src/Pkg/Resolve/Needed.antt =====
-- `install_order` of pkg-manager/src/resolve.rs takes in nothing that the roots do not need.
use vakt_os.Base.{
  Result, ok, >>=-eq-ok, ℕ, zero, suc, ◌≡◌, sym, inl, inr, List, [], ◌∷◌, Option, none, some, Text,
  text_eq, All, All-append, All-map, subst,
}
use vakt_os.Pkg.Manifest.{Manifests}
use vakt_os.Pkg.Resolve.{
  Walk, enter, leave, visit_each, visit_manifest, visit, visit_roots, start, install_order, Error,
}
use vakt_os.Pkg.Resolve.Cases.{visit-eq-ok}
use vakt_os.Pkg.Resolve.Order.{IsWellNamed}
use vakt_os.Pkg.Resolve.Errors.{IsNeeded, All-contains}

module _ (manifests : Manifests) (named : IsWellNamed manifests) (roots : List Text) where
  abbrev Needs : Text → Type 0
  Needs = IsNeeded manifests roots

  abbrev Adds : (Text → Walk → Result Error Walk) → Type 0
  Adds go =
      (d : Text) (w w' : Walk) → Needs d → All Needs w.order → go d w ≡ ok w' → All Needs w'.order

  visit_each-Adds :
      (go : Text → Walk → Result Error Walk)
      → Adds go
      → (ds : List Text) (w w' : Walk) → All Needs ds
      → All Needs w.order
      → visit_each go ds w ≡ ok w'
      → All Needs w'.order
  unfolding visit_each
  visit_each-Adds go adds [] w w' asked h e =
      subst (λ (u : Walk). All Needs u.order) {x = w} {y = w'} (cc) h
  visit_each-Adds go adds (d ∷ ds) w w' asked h e =
      let (u, first, later) = >>=-eq-ok (go d w) (visit_each go ds) e in
      visit_each-Adds go adds ds u w' asked.1 (adds d w u asked.0 h first) later

  visit-Adds : (fuel : ℕ) (o : Option Text) → Adds (λ n. visit fuel manifests n o)
  unfolding visit_manifest
  visit-Adds zero o n w w' asked h e = absurd (unfold visit in cc)
  visit-Adds (suc fuel) o n w w' asked h e = elim (visit-eq-ok fuel manifests n o w e) [
    | inl (_, same) ↦ subst (λ (u : Walk). All Needs u.order) (sym same) h
    | inr (_, (m, known, walked)) ↦
        let go = λ (d : Text). visit fuel manifests d (some m.name) in
        let (u, each, left) =
          >>=-eq-ok (visit_each go m.dependencies (enter m.name w)) (λ u. ok (leave m.name u))
            walked in
        let need : Needs m.name = subst Needs (sym (named n m known)) asked in
        let deps =
          All-map m.dependencies
            (λ d listed. IsNeeded.dependency need (m, simp (named n m known) known, listed))
            (All-contains [] m.dependencies) in
        let before =
          visit_each-Adds go (visit-Adds fuel (some m.name)) m.dependencies (enter m.name w) u deps
            h each in
        subst (λ (v : Walk). All Needs v.order) {x = leave m.name u} {y = w'} (cc)
          (All-append Needs u.order (m.name ∷ []) before (need, tt))
  ]

  visit_roots-Adds :
      (fuel : ℕ) (rs : List Text) (w w' : Walk)
      → All Needs rs
      → All Needs w.order
      → visit_roots fuel manifests rs w ≡ ok w'
      → All Needs w'.order
  unfolding visit_roots
  visit_roots-Adds fuel [] w w' asked h e =
      subst (λ (u : Walk). All Needs u.order) {x = w} {y = w'} (cc) h
  visit_roots-Adds fuel (r ∷ rs) w w' asked h e =
      let again = record w { path = [] } in
      let (u, first, later) =
        >>=-eq-ok (visit fuel manifests r none again) (visit_roots fuel manifests rs) e in
      visit_roots-Adds fuel rs u w' asked.1 (visit-Adds fuel none r again u asked.0 h first) later

  -- If every manifest stands under its own name, every package in an order that `install_order`
  -- returns is a root or a dependency, direct or not, of a root.
  pub install_order-IsNeeded :
      (fuel : ℕ) (order : List Text)
      → install_order fuel roots manifests ≡ ok order
      → All (IsNeeded manifests roots) order
  unfolding install_order
  install_order-IsNeeded fuel order e =
      let (w, walked, same) =
        >>=-eq-ok (visit_roots fuel manifests roots start) (λ w. ok w.order) e in
      subst (All Needs) {x = w.order} (cc) (
        visit_roots-Adds fuel roots start w
          (All-map roots (λ r h. IsNeeded.root h) (All-contains [] roots)) tt walked)
