-- ===== src/Pkg/Collect/Laws.antt =====
-- What `collect_manifests` of pkg-manager/src/install.rs hands to the walk.
use vakt_os.Base.{
  true, ℕ, zero, suc, ◌≡◌, ◌≢◌, refl, sym, ◌∙◌, ap, subst, ◌⊎◌, inl, inr, List, [], ◌∷◌, Option,
  none, All, contains, some, Text, text_eq, ◌==◌, insert, lookup, lookup-insert, length, Result, ok,
  err, >>=-eq-ok, Result-cases, arith, Bool-cases, eq_of_beq,
}
use vakt_os.Pkg.Manifest.{PackageManifest, Manifests}
use vakt_os.Pkg.Resolve
use vakt_os.Pkg.Resolve.{undiscovered, install_order}
use vakt_os.Pkg.Resolve.Order.{IsWellNamed, DepsFirst, IsNodup}
use vakt_os.Pkg.Resolve.Order.Steps.{install_order-DepsFirst}
use vakt_os.Pkg.Resolve.Errors.{IsNeeded, IsCycle, IsTrue, install_order-IsTrue}
use vakt_os.Pkg.Resolve.Fuel.{install_order-ne-out_of_fuel}
use vakt_os.Pkg.Resolve.Total.{IsClosed}
use vakt_os.Pkg.Resolve.Discover.{undiscovered_iff}
use vakt_os.Pkg.Collect.{
  CollectError, unresolved, fetch_manifest, check_name, fetch_all, one_round, collect,
  collect_manifests, resolve, max_resolution_rounds,
}

check_name-eq-ok :
    (name : Text) (o : Option PackageManifest) (m : PackageManifest)
    → check_name name o ≡ ok m
    → (o ≡ some m) × (m.name ≡ name)
unfolding check_name
check_name-eq-ok name none m h = cc
check_name-eq-ok name (some p) m h = elim (Bool-cases (p.name == name)) [
  | inl same ↦
      let e : p ≡ m = ground arith in
      (
        ap some e,
        ap (λ (q : PackageManifest). q.name) (sym e) ∙ eq_of_beq {a = p.name} {b = name} same,
      )
  | inr other ↦ absurd (ground arith)
]

-- An order that can be installed: each package has a manifest and stands behind all of its dependencies,
-- none stands there twice, and all that was asked for is in it.
pub record IsInstallable (manifests : Manifests) (roots order : List Text) : Type 0 where
  pub ordered : DepsFirst manifests [] order
  pub nodup : IsNodup order
  pub included : All (λ root. contains order root ≡ true) roots

module _ (published : Text → Option PackageManifest) where
  -- What the repository published under the name that it stands under.
  abbrev pub IsPublished : Manifests → Type 0
  IsPublished manifests =
      (n : Text) (m : PackageManifest)
      → lookup n manifests ≡ some m
      → (published n ≡ some m) × (m.name ≡ n)

  IsPublished-insert :
      (name : Text) (m : PackageManifest) (manifests : Manifests)
      → IsPublished manifests
      → fetch_manifest published name ≡ ok m
      → IsPublished (insert name m manifests)
  unfolding fetch_manifest
  IsPublished-insert name m manifests v h n p e = elim (Bool-cases (name == n)) [
    | inl same ↦
        let at = eq_of_beq {a = name} {b = n} same in
        let (found, named) = check_name-eq-ok name (published name) m h in
        let is : m ≡ p = ground (arith, lookup-insert name n m manifests) in
        (
          ap published (sym at) ∙ found ∙ ap some is,
          ap (λ (q : PackageManifest). q.name) (sym is) ∙ named ∙ at,
        )
    | inr other ↦ v n p (ground (arith, lookup-insert name n m manifests))
  ]

  fetch_all-IsPublished :
      (wanted : List Text) (manifests more : Manifests)
      → IsPublished manifests
      → fetch_all published wanted manifests ≡ ok more
      → IsPublished more
  unfolding fetch_all
  fetch_all-IsPublished [] manifests more v h = subst IsPublished {x = manifests} {y = more} (cc) v
  fetch_all-IsPublished (name ∷ wanted) manifests more v h =
      let (m, fetched, later) =
        >>=-eq-ok (fetch_manifest published name)
          (λ m. fetch_all published wanted (insert name m manifests)) h in
      fetch_all-IsPublished wanted (insert name m manifests) more
        (IsPublished-insert name m manifests v fetched) later

  record Collected (roots : List Text) (manifests : Manifests) : Type 0 where
    published_as : IsPublished manifests
    closed : undiscovered roots manifests ≡ some []

  one_round-Collected :
      (roots : List Text) (next : Manifests → Result CollectError Manifests)
      → ((manifests more : Manifests)
          → IsPublished manifests
          → next manifests ≡ ok more
          → Collected roots more)
      → (o : Option (List Text)) (manifests more : Manifests) → undiscovered roots manifests ≡ o
      → IsPublished manifests
      → one_round published next o manifests ≡ ok more
      → Collected roots more
  unfolding one_round
  one_round-Collected roots next later none manifests more e v h = cc
  one_round-Collected roots next later (some []) manifests more e v h =
      subst (Collected roots) {x = manifests} {y = more} (cc)
        (record { published_as = v; closed = e })
  one_round-Collected roots next later (some (n ∷ ns)) manifests more e v h =
      let (u, fetched, rest) = >>=-eq-ok (fetch_all published (n ∷ ns) manifests) next h in
      later u more (fetch_all-IsPublished (n ∷ ns) manifests u v fetched) rest

  collect-Collected :
      (rounds : ℕ) (roots : List Text) (manifests more : Manifests)
      → IsPublished manifests
      → collect published rounds roots manifests ≡ ok more
      → Collected roots more
  unfolding collect
  collect-Collected zero roots manifests more v h = cc
  collect-Collected (suc rounds) roots manifests more v h =
      one_round-Collected roots (collect published rounds roots) (collect-Collected rounds roots)
        (undiscovered roots manifests) manifests more refl v h

  start-IsPublished : IsPublished []
  start-IsPublished n m h = absurd (cc)

  -- When the rounds of `collect_manifests` succeed, each manifest is what the repository
  -- published under its own name, and everything the request needs has one.
  pub collect_manifests-IsClosed :
      (roots : List Text) (manifests : Manifests)
      → collect_manifests published roots ≡ ok manifests
      → IsPublished manifests × IsClosed manifests roots
  unfolding collect_manifests
  collect_manifests-IsClosed roots manifests h =
      let c = collect-Collected max_resolution_rounds roots [] manifests start-IsPublished h in
      (
        c.published_as,
        λ n need absent. cc ((undiscovered_iff manifests roots [] n c.closed).1 (need, absent)),
      )

  -- What is left of the walk's errors on collected manifests.
  error-IsCycle :
      (roots : List Text) (manifests : Manifests) (e : Resolve.Error)
      → IsClosed manifests roots
      → e ≢ Resolve.out_of_fuel
      → IsTrue manifests roots e
      → (names : List Text) × (e ≡ Resolve.cycle names) × IsCycle manifests roots names
  error-IsCycle roots manifests (Resolve.cycle names) closed n h = (names, refl, h)
  error-IsCycle roots manifests (Resolve.missing_dependency p d) closed n h =
      absurd (closed d (IsNeeded.dependency h.0 h.1) h.2)
  error-IsCycle roots manifests (Resolve.missing_root r) closed n h =
      absurd (closed r (IsNeeded.root h.0) h.1)
  error-IsCycle roots manifests Resolve.out_of_fuel closed n h = absurd (n refl)

  -- Once its manifests are collected, a request is answered in one of two ways: with an order in which every
  -- package has a manifest and stands behind all of its dependencies, none stands twice, and all that was asked
  -- for stands; or with an error that names a cycle of packages that the request needs, each depending on the
  -- next. No other error is possible.
  pub resolve_cases :
      (roots : List Text) (manifests : Manifests)
      → collect_manifests published roots ≡ ok manifests
      → ((order : List Text) × (resolve published roots ≡ ok order)
          × IsInstallable manifests roots order)
        ⊎ ((names : List Text) × (resolve published roots ≡ err (unresolved (Resolve.cycle names)))
            × IsCycle manifests roots names)
  unfolding resolve
  resolve_cases roots manifests h =
      let fuel = suc (length manifests) in
      let laws = collect_manifests-IsClosed roots manifests h in
      let named : IsWellNamed manifests = λ n m known. (laws.0 n m known).1 in
      elim (Result-cases (install_order fuel roots manifests)) [
        | inl (order, found) ↦
            let (ordered, nodup, included) =
              install_order-DepsFirst manifests named fuel roots order found in
            let is : resolve published roots ≡ ok order = rw (h, found) in
            inl (order, is, record { ordered = ordered; nodup = nodup; included = included })
        | inr (e, failed) ↦
            let (names, is, cyclic) =
              error-IsCycle roots manifests e laws.1
                (λ same.
                  install_order-ne-out_of_fuel manifests named fuel roots (omega arith)
                    (failed ∙ ap err same))
                (install_order-IsTrue manifests named roots fuel e failed) in
            inr (names, rw (h, failed, is), cyclic)
      ]
