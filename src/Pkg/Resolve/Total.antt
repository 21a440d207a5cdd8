-- ===== src/Pkg/Resolve/Total.antt =====
-- When `install_order` of pkg-manager/src/resolve.rs finds an order.
use vakt_os.Base.{
  Result-cases, ok, err, ℕ, ◌<◌, ◌≡◌, ◌≢◌, subst, refl, ap, ◌∙◌, inl, inr, List, [], ◌∷◌, ◌++◌,
  none, Text, text_eq, lookup, arith, length,
}
use vakt_os.Pkg.Manifest.{Manifests}
use vakt_os.Pkg.Resolve.{Error, cycle, missing_dependency, missing_root, out_of_fuel, install_order}
use vakt_os.Pkg.Resolve.Order.{IsWellNamed}
use vakt_os.Pkg.Resolve.Fuel.{install_order-ne-out_of_fuel}
use vakt_os.Pkg.Resolve.Errors.{Edge, IsNeeded, Chain, IsCycle, IsTrue, install_order-IsTrue}

-- Whatever the roots need has a manifest, which is how `collect_manifests` ends.
abbrev pub IsClosed : Manifests → List Text → Type 0
IsClosed manifests roots = (n : Text) → IsNeeded manifests roots n → lookup n manifests ≢ none

-- `rank` puts each dependency below its dependent, so no package depends on itself.
abbrev pub IsRanked : (Text → ℕ) → Manifests → Type 0
IsRanked rank manifests = (p n : Text) → Edge manifests p n → rank n < rank p

module _ (manifests : Manifests) (rank : Text → ℕ) (ranked : IsRanked rank manifests) where
  Chain-rank :
      (a b : Text) (mid : List Text) → Chain manifests (a ∷ (mid ++ b ∷ [])) → rank b < rank a
  Chain-rank a b [] c = ranked a b c.0
  Chain-rank a b (x ∷ mid) c = omega (arith, ranked a x c.0, Chain-rank x b mid c.1)

  IsCycle-absurd : {roots names : List Text} → IsCycle manifests roots names → ⊥
  IsCycle-absurd k =
      omega (arith, Chain-rank k.head k.head k.middle (subst (Chain manifests) k.closes k.chain))

  IsTrue-absurd :
      (roots : List Text) (e : Error)
      → IsClosed manifests roots
      → IsTrue manifests roots e
      → e ≢ out_of_fuel
      → ⊥
  IsTrue-absurd roots (cycle names) closed h n = IsCycle-absurd h
  IsTrue-absurd roots (missing_dependency p d) closed h n =
      closed d (IsNeeded.dependency h.0 h.1) h.2
  IsTrue-absurd roots (missing_root r) closed h n = closed r (IsNeeded.root h.0) h.1
  IsTrue-absurd roots out_of_fuel closed h n = n refl

  -- On a closed repository without cycles, whose manifests stand under their own names,
  -- `install_order` succeeds, given one level of fuel more than there are packages.
  pub install_order_succeeds :
      (fuel : ℕ) (roots : List Text)
      → IsWellNamed manifests
      → IsClosed manifests roots
      → length manifests < fuel
      → (order : List Text) × (install_order fuel roots manifests ≡ ok order)
  install_order_succeeds fuel roots named closed enough =
      elim (Result-cases (install_order fuel roots manifests)) [
        | inl found ↦ found
        | inr (e, failed) ↦ absurd (
            IsTrue-absurd roots e closed (install_order-IsTrue manifests named roots fuel e failed)
              (λ same.
                install_order-ne-out_of_fuel manifests named fuel roots enough
                  (failed ∙ ap err same)))
      ]
