-- ===== src/Pkg/Resolve/Cases.antt =====
-- How a walk can succeed or fail: the cases of `visit`, read off its result.
use vakt_os.Base.{
  Result, ok, err, ℕ, suc, ◌≡◌, ◌⊎◌, Option, none, some, Text, lookup, text_eq, arith,
}
use vakt_os.Pkg.Manifest.{PackageManifest, Manifests}
use vakt_os.Pkg.Resolve.{
  in_progress, done, Error, cycle, Walk, cycle_at, not_found, visit_manifest, visit,
}

module _ (fuel : ℕ) (manifests : Manifests) (name : Text) (wanted_by : Option Text) (w : Walk) where
  abbrev pub go : Text → Text → Walk → Result Error Walk
  go = λ parent d. visit fuel manifests d (some parent)

  pub visit-eq-ok :
      {w' : Walk}
      → visit (suc fuel) manifests name wanted_by w ≡ ok w'
      → ((lookup name w.state ≡ some done) × (w' ≡ w))
        ⊎ ((lookup name w.state ≡ none)
            × ((m : PackageManifest) × (lookup name manifests ≡ some m)
                × (visit_manifest go m w ≡ ok w')))
  unfolding visit
  visit-eq-ok h = ground arith

  pub visit-eq-err :
      {e : Error}
      → visit (suc fuel) manifests name wanted_by w ≡ err e
      → ((lookup name w.state ≡ some in_progress) × (e ≡ cycle (cycle_at name w.path)))
        ⊎ ((lookup name w.state ≡ none)
            × (lookup name manifests ≡ none)
            × (e ≡ not_found wanted_by name))
        ⊎ ((lookup name w.state ≡ none)
            × ((m : PackageManifest) × (lookup name manifests ≡ some m)
                × (visit_manifest go m w ≡ err e)))
  unfolding visit
  visit-eq-err h = ground arith
