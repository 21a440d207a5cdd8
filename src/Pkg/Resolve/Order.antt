-- ===== src/Pkg/Resolve/Order.antt =====
-- What the walk of pkg-manager/src/resolve.rs keeps true of its state, order and path.
pub mod Steps
use vakt_os.Base.{
  ℕ, zero, suc, ◌≡◌, refl, sym, ◌∙◌, ◌⊎◌, inl, inr, Bool, true, false, List, [], ◌∷◌, ◌++◌,
  append-nil, append_assoc, Option, none, some, Text, text_eq, Map, lookup, contains,
  contains-append, All, arith,
}
use vakt_os.Pkg.Manifest.{PackageManifest, Manifests}
use vakt_os.Pkg.Resolve.{Visit, in_progress, done, Walk}

-- Every manifest stands under its own name, as `fetch_manifest` checks.
abbrev pub IsWellNamed : Manifests → Type 0
IsWellNamed manifests = (n : Text) (m : PackageManifest) → lookup n manifests ≡ some m → m.name ≡ n

-- Each package of the list has a manifest, and its dependencies stand before it.
abbrev pub DepsFirst : Manifests → List Text → List Text → Type 0
DepsFirst manifests before [] = Unit
DepsFirst manifests before (n ∷ ns) =
    ((m : PackageManifest) × (lookup n manifests ≡ some m)
      × All (λ d. contains before d ≡ true) m.dependencies)
    × DepsFirst manifests (before ++ n ∷ []) ns

abbrev pub IsNodup : List Text → Type 0
IsNodup [] = Unit
IsNodup (n ∷ ns) = (contains ns n ≡ false) × IsNodup ns

abbrev pub is_done : Option Visit → Bool
is_done (some done) = true
is_done _ = false

abbrev pub is_walking : Option Visit → Bool
is_walking (some in_progress) = true
is_walking _ = false

pub record Inv (manifests : Manifests) (w : Walk) : Type 0 where
  pub placed : (n : Text) → is_done (lookup n w.state) ≡ contains w.order n
  pub walking : (n : Text) → is_walking (lookup n w.state) ≡ contains w.path n
  pub nodup : IsNodup w.order
  pub ordered : DepsFirst manifests [] w.order

-- What a successful call leaves: its path is restored and the order has only grown.
pub record Grows (w w' : Walk) : Type 0 where
  pub path_kept : w'.path ≡ w.path
  pub added : List Text
  pub order_grown : w'.order ≡ w.order ++ added

pub Grows-refl : (w : Walk) → Grows w w
Grows-refl w = record { path_kept = refl; added = []; order_grown = sym (append-nil w.order) }

pub Grows-trans : {u v w : Walk} → Grows u v → Grows v w → Grows u w
Grows-trans {u} g h = record {
  path_kept = h.path_kept ∙ g.path_kept;
  added = g.added ++ h.added;
  order_grown = cc (append_assoc u.order g.added h.added);
}

pub Grows-contains :
    {w w' : Walk} (n : Text) → Grows w w' → contains w.order n ≡ true → contains w'.order n ≡ true
Grows-contains {w} n g h = ground (arith, contains-append w.order g.added n)

pub All-Grows :
    {w w' : Walk} (ds : List Text)
    → Grows w w'
    → All (λ d. contains w.order d ≡ true) ds
    → All (λ d. contains w'.order d ≡ true) ds
All-Grows [] g h = tt
All-Grows (d ∷ ds) g h = (Grows-contains d g h.0, All-Grows ds g h.1)

pub IsNodup-snoc :
    (ns : List Text) (n : Text) → contains ns n ≡ false → IsNodup ns → IsNodup (ns ++ n ∷ [])
IsNodup-snoc [] n h d = (refl, tt)
IsNodup-snoc (x ∷ ns) n h d = (
  ground (arith, contains-append ns (n ∷ []) x, text_eq.beq_iff x n, text_eq.beq_iff n x),
  IsNodup-snoc ns n (ground arith) d.1,
)

pub DepsFirst-snoc :
    (manifests : Manifests) (before ns : List Text) (n : Text) (m : PackageManifest)
    → lookup n manifests ≡ some m
    → All (λ d. contains (before ++ ns) d ≡ true) m.dependencies
    → DepsFirst manifests before ns
    → DepsFirst manifests before (ns ++ n ∷ [])
DepsFirst-snoc manifests before [] n m e h o = ((m, e, rw append-nil at h), tt)
DepsFirst-snoc manifests before (x ∷ ns) n m e h o =
    (o.0, DepsFirst-snoc manifests (before ++ x ∷ []) ns n m e (rw append_assoc h) o.1)
