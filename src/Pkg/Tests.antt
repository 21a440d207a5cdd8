-- ===== src/Pkg/Tests.antt =====
-- Runs of the manifest manager's resolver on small repositories.
use vakt_os.Base.{
  ℕ, ◌≡◌, ◌≢◌, ◌⊎◌, ◌↔◌, refl, true, List, [], ◌∷◌, Option, none, some, Text, text, text_eq, lookup,
  contains, ok, err, All, arith, ◌==◌, if◌then◌else◌,
}
use vakt_os.Pkg.Manifest.{PackageManifest, Manifests}
use vakt_os.Pkg.Resolve.{cycle, missing_dependency, out_of_fuel, install_order, undiscovered}
use vakt_os.Pkg.Resolve.Order.{IsWellNamed, DepsFirst, IsNodup}
use vakt_os.Pkg.Resolve.Order.Steps.{install_order-DepsFirst}
use vakt_os.Pkg.Resolve.Fuel.{install_order-ne-out_of_fuel}
use vakt_os.Pkg.Resolve.Errors.{IsNeeded, IsTrue, IsCycle, install_order-IsTrue}
use vakt_os.Pkg.Resolve.Total.{install_order_succeeds, IsClosed, IsRanked}
use vakt_os.Pkg.Resolve.Needed.{install_order-IsNeeded}
use vakt_os.Pkg.Resolve.Discover.{undiscovered_total, undiscovered_iff}
use vakt_os.Pkg.Collect.{unresolved, collect_manifests, resolve}
use vakt_os.Pkg.Collect.Laws.{IsInstallable, collect_manifests-IsClosed, resolve_cases}

abbrev manifest : Text → List Text → PackageManifest
manifest name dependencies = record {
  name = name;
  version = [];
  description = [];
  dependencies = dependencies;
  signature = [];
}

abbrev app : Text
app = text "a"

abbrev lib : Text
lib = text "l"

abbrev sys : Text
sys = text "s"

abbrev published : Text → Option PackageManifest
published n = lookup n (
    (app, manifest app (lib ∷ sys ∷ []))
    ∷ (lib, manifest lib (sys ∷ []))
    ∷ (sys, manifest sys [])
    ∷ [])

abbrev repo : Manifests
repo =
    (app, manifest app (lib ∷ sys ∷ []))
    ∷ (lib, manifest lib (sys ∷ []))
    ∷ (sys, manifest sys [])
    ∷ []

abbrev looped : Manifests
looped = (app, manifest app (lib ∷ [])) ∷ (lib, manifest lib (app ∷ [])) ∷ []

abbrev partial : Manifests
partial = (app, manifest app (lib ∷ [])) ∷ []

test_order : install_order 4 (app ∷ []) repo ≡ ok (sys ∷ lib ∷ app ∷ [])
unfolding install_order
test_order = refl

test_cycle : install_order 4 (app ∷ []) looped ≡ err (cycle (app ∷ lib ∷ app ∷ []))
unfolding install_order
test_cycle = refl

test_missing : install_order 4 (app ∷ []) partial ≡ err (missing_dependency app lib)
unfolding install_order
test_missing = refl

test_undiscovered : undiscovered (app ∷ []) partial ≡ some (lib ∷ [])
unfolding undiscovered
test_undiscovered = refl

repo-IsWellNamed : IsWellNamed repo
repo-IsWellNamed n m h =
    ground (arith, text_eq.beq_iff app n, text_eq.beq_iff lib n, text_eq.beq_iff sys n)

looped-IsWellNamed : IsWellNamed looped
looped-IsWellNamed n m h = ground (arith, text_eq.beq_iff app n, text_eq.beq_iff lib n)

install_order-DepsFirst_example :
    DepsFirst repo [] (sys ∷ lib ∷ app ∷ [])
    × IsNodup (sys ∷ lib ∷ app ∷ [])
    × All (λ root. contains (sys ∷ lib ∷ app ∷ []) root ≡ true) (app ∷ [])
install_order-DepsFirst_example =
    install_order-DepsFirst repo repo-IsWellNamed 4 (app ∷ []) (sys ∷ lib ∷ app ∷ []) test_order

install_order-ne-out_of_fuel_example : install_order 4 (app ∷ []) repo ≢ err out_of_fuel
install_order-ne-out_of_fuel_example =
    install_order-ne-out_of_fuel repo repo-IsWellNamed 4 (app ∷ []) (omega arith)

install_order-IsTrue_example : IsTrue looped (app ∷ []) (cycle (app ∷ lib ∷ app ∷ []))
install_order-IsTrue_example =
    install_order-IsTrue looped looped-IsWellNamed (app ∷ []) 4 (cycle (app ∷ lib ∷ app ∷ []))
      test_cycle

install_order-IsNeeded_example : All (IsNeeded repo (app ∷ [])) (sys ∷ lib ∷ app ∷ [])
install_order-IsNeeded_example =
    install_order-IsNeeded repo repo-IsWellNamed (app ∷ []) 4 (sys ∷ lib ∷ app ∷ []) test_order

test_total : (l : List Text) × (undiscovered (app ∷ []) partial ≡ some l)
test_total = undiscovered_total partial (app ∷ [])

undiscovered_iff_example :
    (contains (lib ∷ []) lib ≡ true)
    ↔ (IsNeeded partial (app ∷ []) lib × (lookup lib partial ≡ none))
undiscovered_iff_example = undiscovered_iff partial (app ∷ []) (lib ∷ []) lib test_undiscovered

-- How far each manifest is from the bottom of the graph.
abbrev rank : Text → ℕ
rank n = if app == n then 2 else if lib == n then 1 else 0

repo-IsRanked : IsRanked rank repo
repo-IsRanked p n e = ground (
  arith,
  e.1,
  e.2,
  text_eq.beq_iff app p,
  text_eq.beq_iff lib p,
  text_eq.beq_iff sys p,
  text_eq.beq_iff app n,
  text_eq.beq_iff lib n,
  text_eq.beq_iff sys n,
)

test_collect : collect_manifests published (app ∷ []) ≡ ok repo
unfolding collect_manifests undiscovered
test_collect = refl

collect_manifests-IsClosed_example :
    ((n : Text) (m : PackageManifest)
      → lookup n repo ≡ some m
      → (published n ≡ some m) × (m.name ≡ n))
    × IsClosed repo (app ∷ [])
collect_manifests-IsClosed_example =
    collect_manifests-IsClosed published (app ∷ []) repo test_collect

repo-IsClosed : IsClosed repo (app ∷ [])
repo-IsClosed = (collect_manifests-IsClosed published (app ∷ []) repo test_collect).1

install_order_succeeds_example : (order : List Text) × (install_order 4 (app ∷ []) repo ≡ ok order)
install_order_succeeds_example =
    install_order_succeeds repo rank repo-IsRanked 4 (app ∷ []) repo-IsWellNamed repo-IsClosed
      (omega arith)

resolve_cases_example :
    ((order : List Text) × (resolve published (app ∷ []) ≡ ok order)
      × IsInstallable repo (app ∷ []) order)
    ⊎ ((names : List Text) × (resolve published (app ∷ []) ≡ err (unresolved (cycle names)))
        × IsCycle repo (app ∷ []) names)
resolve_cases_example = resolve_cases published (app ∷ []) repo test_collect
