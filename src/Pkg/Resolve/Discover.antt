-- ===== src/Pkg/Resolve/Discover.antt =====
-- `undiscovered` of pkg-manager/src/resolve.rs finds exactly the needed names without a manifest.
use mathlib.Core.Option
use vakt_os.Base.{
  ℕ, zero, suc, ◌+◌, ◌≤◌, ◌<◌, ◌≡◌, ◌↔◌, subst, refl, sym, ap, ◌∙◌, inl, inr, true, false, ◌||◌,
  List, [], ◌∷◌, ◌++◌, Option, none, some, Text, text_eq, ◌==◌, lookup, contains, contains-append,
  arith, length, Bool-cases, eq_of_beq, Option-cases, sort, dedup, contains-sort, contains-dedup,
}
use vakt_os.Pkg.Manifest.{PackageManifest, Manifests}
use vakt_os.Pkg.Resolve.{push_all, search, unseen_edges, undiscovered}
use vakt_os.Pkg.Resolve.Errors.{Edge, IsNeeded}

map-eq-some {ℓ κ} :
    {A : Type ℓ} {B : Type κ} (f : A → B) (o : Option A) (a : A) {b : B}
    → o ≡ some a
    → Option.map f o ≡ some b
    → b ≡ f a
map-eq-some f none a e h = cc
map-eq-some f (some x) a e h = cc

contains-push_all :
    (ns queue : List Text) (x : Text)
    → contains (push_all ns queue) x ≡ (contains ns x || contains queue x)
contains-push_all [] queue x = refl
contains-push_all (n ∷ ns) queue x = ground (arith, contains-push_all ns (n ∷ queue) x)

length-push_all : (ns queue : List Text) → length (push_all ns queue) ≡ length ns + length queue
length-push_all [] queue = omega arith
length-push_all (n ∷ ns) queue = omega (arith, length-push_all ns (n ∷ queue))

unseen_edges-cons-le :
    (ms : Manifests) (n : Text) (seen : List Text)
    → unseen_edges ms (n ∷ seen) ≤ unseen_edges ms seen
unseen_edges-cons-le [] n seen = omega arith
unseen_edges-cons-le ((k, m) ∷ ms) n seen = ground (arith, unseen_edges-cons-le ms n seen)

unseen_edges-cons :
    (ms : Manifests) (n : Text) (seen : List Text) (m : PackageManifest)
    → lookup n ms ≡ some m
    → contains seen n ≡ false
    → length m.dependencies + unseen_edges ms (n ∷ seen) ≤ unseen_edges ms seen
unseen_edges-cons [] n seen m known fresh = cc
unseen_edges-cons ((k, m') ∷ ms) n seen m known fresh = ground (
  arith,
  unseen_edges-cons-le ms n seen,
  unseen_edges-cons ms n seen m,
  text_eq.beq_iff n k,
  text_eq.beq_iff k n,
)

module _ (manifests : Manifests) where
  module _ (fuel : ℕ) (seen missing queue : List Text) (n : Text) where
    search_old :
        contains seen n ≡ true
        → search (suc fuel) manifests seen missing (n ∷ queue)
          ≡ search fuel manifests seen missing queue
    unfolding search
    search_old old = rw (old, search)

    search_absent :
        contains seen n ≡ false
        → lookup n manifests ≡ none
        → search (suc fuel) manifests seen missing (n ∷ queue)
          ≡ search fuel manifests (n ∷ seen) (missing ++ n ∷ []) queue
    unfolding search
    search_absent new absent = rw (new, absent, search)

    search_known :
        (m : PackageManifest)
        → contains seen n ≡ false
        → lookup n manifests ≡ some m
        → search (suc fuel) manifests seen missing (n ∷ queue)
          ≡ search fuel manifests (n ∷ seen) missing (push_all m.dependencies queue)
    unfolding search
    search_known m new known = rw (new, known, search)

  search_total :
      (fuel : ℕ) (seen missing queue : List Text)
      → length queue + unseen_edges manifests seen < fuel
      → (l : List Text) × (search fuel manifests seen missing queue ≡ some l)
  search_total zero seen missing queue h = elim h [ ]
  search_total (suc fuel) seen missing [] h = (missing, unfold search in refl)
  search_total (suc fuel) seen missing (n ∷ queue) h = elim (Bool-cases (contains seen n)) [
    | inl old ↦
        rw (search_old fuel seen missing queue n old)
          (search_total fuel seen missing queue (omega arith))
    | inr new ↦ elim (Option-cases (lookup n manifests)) [
      | inl absent ↦ rw (search_absent fuel seen missing queue n new absent) (
          search_total fuel (n ∷ seen) (missing ++ n ∷ []) queue
            (omega (arith, unseen_edges-cons-le manifests n seen)))
      | inr (m, known) ↦ rw (search_known fuel seen missing queue n m new known) (
          search_total fuel (n ∷ seen) missing (push_all m.dependencies queue) (
            omega (
              arith,
              unseen_edges-cons manifests n seen m known new,
              length-push_all m.dependencies queue,
            )))
    ]
  ]

  module _ (roots : List Text) where
    abbrev Lacks : Text → Type 0
    Lacks n = IsNeeded manifests roots n × (lookup n manifests ≡ none)

    -- What the loop knows of the names that it has met.
    record Inv (seen missing queue : List Text) : Type 0 where
      queue_needed : (n : Text) → contains queue n ≡ true → IsNeeded manifests roots n
      missing_lacks : (n : Text) → contains missing n ≡ true → Lacks n
      seen_missing :
          (n : Text)
          → contains seen n ≡ true
          → lookup n manifests ≡ none
          → contains missing n ≡ true
      roots_met :
          (n : Text) → contains roots n ≡ true → (contains seen n || contains queue n) ≡ true
      edges_met :
          (p n : Text)
          → contains seen p ≡ true
          → Edge manifests p n
          → (contains seen n || contains queue n) ≡ true

    module _ (seen missing queue : List Text) (n : Text) (v : Inv seen missing (n ∷ queue)) where
      Inv-old : contains seen n ≡ true → Inv seen missing queue
      Inv-old old = record {
        queue_needed = λ x h. v.queue_needed x (ground arith);
        missing_lacks = v.missing_lacks;
        seen_missing = v.seen_missing;
        roots_met = λ x h. ground (arith, v.roots_met x h, text_eq.beq_iff n x);
        edges_met = λ p x h e. ground (arith, v.edges_met p x h e, text_eq.beq_iff n x);
      }

      Inv-absent : lookup n manifests ≡ none → Inv (n ∷ seen) (missing ++ n ∷ []) queue
      Inv-absent absent = record {
        queue_needed = λ x h. v.queue_needed x (ground arith);
        missing_lacks = λ x h. elim (Bool-cases (n == x)) [
          | inl same ↦
              subst Lacks (eq_of_beq {a = n} {b = x} same)
                (v.queue_needed n (ground (arith, text_eq.beq_iff n n)), absent)
          | inr other ↦ v.missing_lacks x (ground (arith, contains-append missing (n ∷ []) x))
        ];
        seen_missing =
            λ x h e. ground (arith, v.seen_missing x, contains-append missing (n ∷ []) x);
        roots_met = λ x h. ground (arith, v.roots_met x h);
        edges_met = λ p x h e. elim (Bool-cases (n == p)) [
          | inl same ↦ ground (arith, e, text_eq.beq_iff n p)
          | inr other ↦ ground (arith, v.edges_met p x (ground arith) e)
        ];
      }

      Inv-known :
          (m : PackageManifest)
          → lookup n manifests ≡ some m
          → Inv (n ∷ seen) missing (push_all m.dependencies queue)
      Inv-known m known = record {
        queue_needed = λ x h. elim (Bool-cases (contains m.dependencies x)) [
          | inl dep ↦
              IsNeeded.dependency (v.queue_needed n (ground (arith, text_eq.beq_iff n n)))
                (m, known, dep)
          | inr other ↦ v.queue_needed x (ground (arith, contains-push_all m.dependencies queue x))
        ];
        missing_lacks = v.missing_lacks;
        seen_missing = λ x h e. ground (arith, v.seen_missing x, text_eq.beq_iff n x);
        roots_met =
            λ x h. ground (arith, v.roots_met x h, contains-push_all m.dependencies queue x);
        edges_met = λ p x h e. elim (Bool-cases (n == p)) [
          | inl same ↦
              ground (arith, e, text_eq.beq_iff n p, contains-push_all m.dependencies queue x)
          | inr other ↦
              ground
                (arith, v.edges_met p x (ground arith) e, contains-push_all m.dependencies queue x)
        ];
      }

    search-Inv :
        (fuel : ℕ) (seen missing queue : List Text) {l : List Text}
        → Inv seen missing queue
        → search fuel manifests seen missing queue ≡ some l
        → (seen' : List Text) × Inv seen' l []
    search-Inv zero seen missing queue v e = absurd (unfold search in cc)
    search-Inv (suc fuel) seen missing [] v e =
        (seen, subst (λ x. Inv seen x []) {x = missing} (unfold search in cc) v)
    search-Inv (suc fuel) seen missing (x ∷ queue) v e = elim (Bool-cases (contains seen x)) [
      | inl old ↦
          search-Inv fuel seen missing queue (Inv-old seen missing queue x v old)
            (sym (search_old fuel seen missing queue x old) ∙ e)
      | inr new ↦ elim (Option-cases (lookup x manifests)) [
        | inl absent ↦
            search-Inv fuel (x ∷ seen) (missing ++ x ∷ []) queue
              (Inv-absent seen missing queue x v absent)
              (sym (search_absent fuel seen missing queue x new absent) ∙ e)
        | inr (m, known) ↦
            search-Inv fuel (x ∷ seen) missing (push_all m.dependencies queue)
              (Inv-known seen missing queue x v m known)
              (sym (search_known fuel seen missing queue x m new known) ∙ e)
      ]
    ]

    IsNeeded-seen :
        {n : Text} (seen l : List Text)
        → Inv seen l []
        → IsNeeded manifests roots n
        → contains seen n ≡ true
    IsNeeded-seen {n} seen l v (IsNeeded.root h) = ground (arith, v.roots_met n h)
    IsNeeded-seen {n} seen l v (IsNeeded.dependency {p} h e) =
        ground (arith, v.edges_met p n (IsNeeded-seen seen l v h) e)

    start-Inv : Inv [] [] (push_all roots [])
    start-Inv = record {
      queue_needed = λ n h. IsNeeded.root (ground (arith, contains-push_all roots [] n));
      missing_lacks = λ n h. cc;
      seen_missing = λ n h e. cc;
      roots_met = λ n h. ground (arith, contains-push_all roots [] n);
      edges_met = λ p n h e. cc;
    }

    -- `undiscovered` always returns: its search ends.
    pub undiscovered_total : (l : List Text) × (undiscovered roots manifests ≡ some l)
    unfolding undiscovered
    undiscovered_total =
        let (l, e) =
          search_total (suc (length roots + unseen_edges manifests [])) [] [] (push_all roots [])
            (omega (arith, length-push_all roots [])) in
        (dedup (sort l), rw e)

    -- `undiscovered` lists exactly the names that the roots need, directly or not, and that have
    -- no manifest yet.
    pub undiscovered_iff :
        (l : List Text) (n : Text)
        → undiscovered roots manifests ≡ some l
        → (contains l n ≡ true) ↔ (IsNeeded manifests roots n × (lookup n manifests ≡ none))
    unfolding undiscovered
    undiscovered_iff l n h =
        let fuel = suc (length roots + unseen_edges manifests []) in
        let (found, e) =
          search_total fuel [] [] (push_all roots []) (omega (arith, length-push_all roots [])) in
        let (seen, v) = search-Inv fuel [] [] (push_all roots []) start-Inv e in
        let same : l ≡ dedup (sort found) =
          map-eq-some (λ missing. dedup (sort missing))
            (search fuel manifests [] [] (push_all roots [])) found e h in
        let lists : contains l n ≡ contains found n =
          ap (λ x. contains x n) same ∙ contains-dedup (sort found) n ∙ contains-sort found n in
        (
          λ i. v.missing_lacks n (sym lists ∙ i),
          λ i. lists ∙ v.seen_missing n (IsNeeded-seen seen found v i.0) i.1,
        )
