-- ===== src/Pkg/Resolve/Order/Steps.antt =====
-- Each piece of the walk keeps the invariant, and a package that it visits ends up in the order.
use vakt_os.Base.{
  Result, ok, >>=-eq-ok, ℕ, zero, suc, ◌≡◌, refl, sym, ◌∙◌, ap, inl, inr, true, List, [], ◌∷◌, ◌++◌,
  append_assoc, Option, none, some, Text, text_eq, lookup, lookup-insert, contains, contains-append,
  All, arith, drop_last-snoc, subst,
}
use vakt_os.Pkg.Manifest.{PackageManifest, Manifests}
use vakt_os.Pkg.Resolve.{
  Walk, enter, leave, visit_each, visit_manifest, visit, visit_roots, start, install_order, Error,
}
use vakt_os.Pkg.Resolve.Cases.{visit-eq-ok}
use vakt_os.Pkg.Resolve.Order.{
  IsWellNamed, DepsFirst, IsNodup, is_walking, Inv, Grows, Grows-refl, Grows-trans, Grows-contains,
  IsNodup-snoc, DepsFirst-snoc,
}

module _ (manifests : Manifests) (named : IsWellNamed manifests) where
  pub enter-Inv :
      (n : Text) (w : Walk) → lookup n w.state ≡ none → Inv manifests w → Inv manifests (enter n w)
  enter-Inv n w fresh v = record {
    placed = λ x. rw lookup-insert (ground (arith, v.placed x, text_eq.beq_iff n x, v.placed n));
    walking = λ x. rw (lookup-insert, contains-append) (ground (arith, v.walking x));
    nodup = v.nodup;
    ordered = v.ordered;
  }

  module _ (m : PackageManifest) (w w' : Walk) (entered : w'.path ≡ w.path ++ m.name ∷ [])
      (fresh : lookup m.name w.state ≡ none) (old : Inv manifests w) (v : Inv manifests w') where
    still_walking : is_walking (lookup m.name w'.state) ≡ true
    still_walking = ground (
      arith,
      v.walking m.name,
      contains-append w.path (m.name ∷ []) m.name,
      text_eq.beq_iff m.name m.name,
    )

    leave-Inv :
        lookup m.name manifests ≡ some m
        → All (λ d. contains w'.order d ≡ true) m.dependencies
        → Inv manifests (leave m.name w')
    leave-Inv known deps = record {
      placed = λ x. rw (lookup-insert, contains-append) (ground (arith, v.placed x));
      walking = λ x.
          rw (lookup-insert, entered, drop_last-snoc)
            (ground (
              arith,
              v.walking x,
              old.walking x,
              contains-append w.path (m.name ∷ []) x,
              text_eq.beq_iff m.name x,
              old.walking m.name,
            ));
      nodup = IsNodup-snoc w'.order m.name (ground (arith, v.placed m.name, still_walking)) v.nodup;
      ordered = DepsFirst-snoc manifests [] w'.order m.name m known deps v.ordered;
    }

  -- What a call of `visit` on `n` is to leave.
  pub record Visited (n : Text) (w w' : Walk) : Type 0 where
    pub inv : Inv manifests w'
    pub grows : Grows w w'
    pub included : contains w'.order n ≡ true

  abbrev pub Visits : (Text → Walk → Result Error Walk) → Type 0
  Visits go = (n : Text) (w w' : Walk) → Inv manifests w → go n w ≡ ok w' → Visited n w w'

  pub record VisitedAll (ds : List Text) (w w' : Walk) : Type 0 where
    inv : Inv manifests w'
    grows : Grows w w'
    included : All (λ d. contains w'.order d ≡ true) ds

  visit_each-VisitedAll :
      (go : Text → Walk → Result Error Walk)
      → Visits go
      → (ds : List Text) (w w' : Walk) → Inv manifests w
      → visit_each go ds w ≡ ok w'
      → VisitedAll ds w w'
  unfolding visit_each
  visit_each-VisitedAll go visits [] w w' v h =
      subst (VisitedAll [] w) (cc) (record { inv = v; grows = Grows-refl w; included = tt })
  visit_each-VisitedAll go visits (d ∷ ds) w w' v h =
      let (u, first, later) = >>=-eq-ok (go d w) (visit_each go ds) h in
      let one = visits d w u v first in
      let rest = visit_each-VisitedAll go visits ds u w' one.inv later in
      record {
        inv = rest.inv;
        grows = Grows-trans one.grows rest.grows;
        included = (Grows-contains d rest.grows one.included, rest.included);
      }

  visit_manifest-Visited :
      (go : Text → Text → Walk → Result Error Walk)
      → ((parent : Text) → Visits (go parent))
      → (m : PackageManifest) (w w' : Walk) → lookup m.name manifests ≡ some m
      → lookup m.name w.state ≡ none
      → Inv manifests w
      → visit_manifest go m w ≡ ok w'
      → Visited m.name w w'
  unfolding visit_manifest
  visit_manifest-Visited go visits m w w' known fresh v h =
      let (u, walked, left) =
        >>=-eq-ok (visit_each (go m.name) m.dependencies (enter m.name w))
          (λ u. ok (leave m.name u)) h in
      let all =
        visit_each-VisitedAll (go m.name) (visits m.name) m.dependencies (enter m.name w) u
          (enter-Inv m.name w fresh v) walked in
      subst (Visited m.name w) (cc) (record {
        inv = leave-Inv m w u all.grows.path_kept fresh v all.inv known all.included;
        grows = record {
          path_kept = rw (all.grows.path_kept, drop_last-snoc);
          added = all.grows.added ++ m.name ∷ [];
          order_grown =
              rw all.grows.order_grown (append_assoc w.order all.grows.added (m.name ∷ []));
        };
        included =
            ground
              (arith, contains-append u.order (m.name ∷ []) m.name, text_eq.beq_iff m.name m.name);
      })

  pub visit-Visited :
      (fuel : ℕ) (wanted_by : Option Text) → Visits (λ n. visit fuel manifests n wanted_by)
  visit-Visited zero wanted_by n w w' v h = unfold visit in cc
  visit-Visited (suc fuel) wanted_by n w w' v h =
      elim (visit-eq-ok fuel manifests n wanted_by w h) [
        | inl (seen, same) ↦
            rw same
              (record { inv = v; grows = Grows-refl w; included = ground (arith, v.placed n) })
        | inr (fresh, (m, known, walked)) ↦
            let e = named n m known in
            subst (λ x. Visited x w w') e
              (visit_manifest-Visited (λ parent d. visit fuel manifests d (some parent))
                (λ parent. visit-Visited fuel (some parent)) m w w' (simp e known) (simp e fresh) v
                walked)
      ]

  -- Between the roots no package is being visited.
  visit_roots-VisitedAll :
      (fuel : ℕ) (roots : List Text) (w w' : Walk)
      → Inv manifests w
      → w.path ≡ []
      → visit_roots fuel manifests roots w ≡ ok w'
      → VisitedAll roots w w'
  unfolding visit_roots
  visit_roots-VisitedAll fuel [] w w' v empty h =
      subst (VisitedAll [] w) (cc) (record { inv = v; grows = Grows-refl w; included = tt })
  visit_roots-VisitedAll fuel (root ∷ roots) w w' v empty h =
      let again = record w { path = [] } in
      let (u, first, later) =
        >>=-eq-ok (visit fuel manifests root none again) (visit_roots fuel manifests roots) h in
      let one =
        visit-Visited fuel none root again u
          (record {
            placed = v.placed;
            walking = λ n. v.walking n ∙ ap (λ p. contains p n) empty;
            nodup = v.nodup;
            ordered = v.ordered;
          })
          first in
      let rest = visit_roots-VisitedAll fuel roots u w' one.inv one.grows.path_kept later in
      record {
        inv = rest.inv;
        grows =
            Grows-trans
              (record {
                path_kept = one.grows.path_kept ∙ sym empty;
                added = one.grows.added;
                order_grown = one.grows.order_grown;
              })
              rest.grows;
        included = (Grows-contains root rest.grows one.included, rest.included);
      }

  pub start-Inv : Inv manifests start
  start-Inv = record { placed = λ n. refl; walking = λ n. refl; nodup = tt; ordered = tt }

  module _ (fuel : ℕ) (roots order : List Text)
      (h : install_order fuel roots manifests ≡ ok order) where
    -- If every manifest stands under its own name, then whenever `install_order` returns, every package in its order has a manifest and stands
    -- behind all of its dependencies, no package stands there twice, and every root is in it.
    pub install_order-DepsFirst :
        DepsFirst manifests [] order
        × IsNodup order
        × All (λ root. contains order root ≡ true) roots
    unfolding install_order
    install_order-DepsFirst =
        let (w, walked, same) =
          >>=-eq-ok (visit_roots fuel manifests roots start) (λ w. ok w.order) h in
        let all = visit_roots-VisitedAll fuel roots start w start-Inv refl walked in
        subst
          (λ l. DepsFirst manifests [] l × IsNodup l × All (λ root. contains l root ≡ true) roots)
          (cc) (all.inv.ordered, all.inv.nodup, all.included)
