-- ===== src/Pkg/Collect.antt =====
-- pkg-manager/src/install.rs, `fetch_manifest` and `collect_manifests`: the rounds in which the
-- dependency graph is fetched. What the repository answers is the parameter `published`: the
-- manifest that `{name}.json` parses to, or `none` if the request or the parse fails.
pub mod Laws
use vakt_os.Base.{
  ℕ, zero, suc, List, [], ◌∷◌, Option, none, some, Text, text_eq, ◌==◌, Map, insert, lookup, length,
  if◌then◌else◌, Result, ok, err, ◌>>=◌,
}
use vakt_os.Pkg.Manifest.{PackageManifest, Manifests}
use vakt_os.Pkg.Resolve
use vakt_os.Pkg.Resolve.{undiscovered, install_order}

pub data CollectError : Type 0 where
  no_manifest : Text → CollectError
  wrong_manifest : (got asked : Text) → CollectError
  too_deep : CollectError
  unfinished : CollectError
  unresolved : Resolve.Error → CollectError

abbrev pub max_resolution_rounds : ℕ
max_resolution_rounds = 32

-- The answer is refused unless the manifest names the package that was asked for.
pub check_name : Text → Option PackageManifest → Result CollectError PackageManifest
check_name name none = err (no_manifest name)
check_name name (some m) = if m.name == name then ok m else err (wrong_manifest m.name name)

module _ (published : Text → Option PackageManifest) where
  pub fetch_manifest : Text → Result CollectError PackageManifest
  unfolding check_name
  fetch_manifest name = check_name name (published name)

  -- `for name in wanted { … manifests.insert(name, manifest); }`
  pub fetch_all : List Text → Manifests → Result CollectError Manifests
  unfolding fetch_manifest
  fetch_all [] manifests = ok manifests
  fetch_all (name ∷ wanted) manifests = do
    m ← fetch_manifest name
    fetch_all wanted (insert name m manifests)

  -- One round: `undiscovered` always returns, so `unfinished` is never given.
  pub one_round :
      (Manifests → Result CollectError Manifests)
      → Option (List Text)
      → Manifests
      → Result CollectError Manifests
  unfolding fetch_all
  one_round next none manifests = err unfinished
  one_round next (some []) manifests = ok manifests
  one_round next (some (name ∷ wanted)) manifests = do
    more ← fetch_all (name ∷ wanted) manifests
    next more

  -- The loop, by recursion on the rounds that are left.
  pub collect : ℕ → List Text → Manifests → Result CollectError Manifests
  unfolding one_round
  collect zero roots manifests = err too_deep
  collect (suc rounds) roots manifests =
      one_round (collect rounds roots) (undiscovered roots manifests) manifests

  unfoldable pub collect_manifests : List Text → Result CollectError Manifests
  unfolding collect
  collect_manifests roots = collect max_resolution_rounds roots []

  abbrev from_resolve {ℓ} : {A : Type ℓ} → Result Resolve.Error A → Result CollectError A
  from_resolve (ok a) = ok a
  from_resolve (err e) = err (unresolved e)

  -- The first half of `install`: what is to be installed, in order.
  unfoldable pub resolve : List Text → Result CollectError (List Text)
  unfolding collect_manifests
  resolve requested = do
    manifests ← collect_manifests requested
    from_resolve (install_order (suc (length manifests)) requested manifests)
