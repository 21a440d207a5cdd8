-- ===== src/Pkg/Resolve.antt =====
-- pkg-manager/src/resolve.rs: the depth-first walk of `install_order`, and the search of
-- `undiscovered`. A walk that is nested deeper than its fuel gives `out_of_fuel`.
pub mod Order
pub mod Fuel
pub mod Errors
pub mod Total
pub mod Needed
pub mod Discover
pub mod Cases
use mathlib.Core.Option
use vakt_os.Base.{
  ℕ, zero, suc, ◌+◌, length, sort, dedup, ◌≡◌, Bool, true, false, List, [], ◌∷◌, ◌++◌, Option, none,
  some, Text, Map, lookup, insert, ◌==◌, text_eq, drop_last, if◌then◌else◌, contains, Result, ok,
  err, ◌>>=◌,
}
use vakt_os.Pkg.Manifest.{PackageManifest, Manifests}

pub data Visit : Type 0 where
  in_progress done : Visit

-- The messages of `bail!`, with the names that they show.
pub data Error : Type 0 where
  cycle : List Text → Error
  missing_dependency : (parent name : Text) → Error
  missing_root : Text → Error
  out_of_fuel : Error

-- The three mutable arguments of `visit`.
pub record Walk : Type 0 where
  pub state : Map Text Visit
  pub order : List Text
  pub path : List Text

-- `&path[position of name, or 0 ..]`
abbrev pub tail_from : Text → List Text → List Text
tail_from name [] = []
tail_from name (p ∷ ps) = if p == name then p ∷ ps else tail_from name ps

pub cycle_at : Text → List Text → List Text
cycle_at name path = (if contains path name then tail_from name path else path) ++ name ∷ []

-- The packages of a manifest that is not in the map.
pub not_found : Option Text → Text → Error
not_found (some parent) name = missing_dependency parent name
not_found none name = missing_root name

abbrev pub enter : Text → Walk → Walk
enter name w = record w { state = insert name in_progress w.state; path = w.path ++ name ∷ [] }

abbrev pub leave : Text → Walk → Walk
leave name w = record w {
  path = drop_last w.path;
  state = insert name done w.state;
  order = w.order ++ name ∷ [];
}

-- `for dependency in … { visit(dependency, …)?; }`
pub visit_each : (Text → Walk → Result Error Walk) → List Text → Walk → Result Error Walk
visit_each go [] w = ok w
visit_each go (d ∷ ds) w = do w' ← go d w; visit_each go ds w'

pub visit_manifest :
    (Text → Text → Walk → Result Error Walk) → PackageManifest → Walk → Result Error Walk
unfolding visit_each
visit_manifest go m w = do
  w' ← visit_each (go m.name) m.dependencies (enter m.name w)
  ok (leave m.name w')

pub visit : ℕ → Manifests → Text → Option Text → Walk → Result Error Walk
unfolding visit_manifest cycle_at not_found
visit zero manifests name wanted_by w = err out_of_fuel
visit (suc fuel) manifests name wanted_by w = elim (lookup name w.state) [
  | some done ↦ ok w
  | some in_progress ↦ err (cycle (cycle_at name w.path))
  | none ↦ elim (lookup name manifests) [
    | none ↦ err (not_found wanted_by name)
    | some m ↦ visit_manifest (λ parent d. visit fuel manifests d (some parent)) m w
  ]
]

-- `install_order`, whose loop gives each root an empty path of its own.
pub visit_roots : ℕ → Manifests → List Text → Walk → Result Error Walk
unfolding visit
visit_roots fuel manifests [] w = ok w
visit_roots fuel manifests (root ∷ roots) w = do
  w' ← visit fuel manifests root none (record w { path = [] })
  visit_roots fuel manifests roots w'

abbrev pub start : Walk
start = record { state = []; order = []; path = [] }

unfoldable pub install_order : ℕ → List Text → Manifests → Result Error (List Text)
unfolding visit_roots
install_order fuel roots manifests = do w ← visit_roots fuel manifests roots start; ok w.order

-- `queue.extend(names)`; the queue's last element, which `pop` takes, stands first.
abbrev pub push_all : List Text → List Text → List Text
push_all [] queue = queue
push_all (n ∷ ns) queue = push_all ns (n ∷ queue)

-- The `while let Some(name) = queue.pop()` of `undiscovered`; `none` if the fuel runs out.
pub search : ℕ → Manifests → (seen missing queue : List Text) → Option (List Text)
search zero manifests seen missing queue = none
search (suc fuel) manifests seen missing [] = some missing
search (suc fuel) manifests seen missing (name ∷ queue) = elim (contains seen name) [
  | true ↦ search fuel manifests seen missing queue
  | false ↦ elim (lookup name manifests) [
    | some m ↦ search fuel manifests (name ∷ seen) missing (push_all m.dependencies queue)
    | none ↦ search fuel manifests (name ∷ seen) (missing ++ name ∷ []) queue
  ]
]

-- The names that may still be pushed: the dependencies of the manifests not seen yet.
abbrev pub unseen_edges : Manifests → List Text → ℕ
unseen_edges [] seen = 0
unseen_edges ((k, m) ∷ ms) seen =
    (if contains seen k then 0 else length m.dependencies) + unseen_edges ms seen

unfoldable pub undiscovered : List Text → Manifests → Option (List Text)
unfolding search sort dedup
undiscovered roots manifests =
    Option.map (λ missing. dedup (sort missing))
      (search (suc (length roots + unseen_edges manifests [])) manifests [] [] (push_all roots []))
