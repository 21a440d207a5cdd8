-- ===== src/Pkg/Remove/Kept/Passes.antt =====
-- The two passes of `remove_package` of pkg-manager/src/remove.rs.
use vakt_os.Base.{
  ◌≡◌, ◌≢◌, refl, inl, inr, Bool, true, false, ◌||◌, List, [], ◌∷◌, ◌++◌, append_assoc, Option,
  none, some, Text, text_eq, ◌==◌, lookup, delete, contains, Result, ok, err, Bool-cases,
  Option-cases, arith, subst, All, All-append,
}
use vakt_os.Pkg.Paths.{RelPath, path_eq, is_above, PathError, safe_target}
use vakt_os.Pkg.Paths.Plain.{safe_target-IsPlain}
use vakt_os.Pkg.Remove.{
  Node, file, dir, Fs, World, db_dir, has_children, remove_dir, drop_dir, drop_file, remove_node,
  remove_target, remove_each, prune, parents, prune_target, prune_each,
}
use vakt_os.Pkg.Remove.Kept.{Keeps, Keeps-refl, Keeps-trans, delete_dir-Keeps, delete_file-Keeps}

-- The paths that the recorded texts stand for.
abbrev pub add_target : Result PathError RelPath → List RelPath → List RelPath
add_target (ok p) ps = p ∷ ps
add_target (err e) ps = ps

abbrev pub targets_of : List Text → List RelPath
targets_of [] = []
targets_of (recorded ∷ paths) = add_target (safe_target recorded) (targets_of paths)

pub is_above_refl : (p : RelPath) → is_above p p ≡ true
is_above_refl [] = refl
is_above_refl (x ∷ p) = ground (arith, is_above_refl p, text_eq.beq_iff x x)

is_above-append : (p q : RelPath) → is_above p (p ++ q) ≡ true
is_above-append [] q = refl
is_above-append (x ∷ p) q = ground (arith, is_above-append p q, text_eq.beq_iff x x)

pub add_target_here :
    (r : Result PathError RelPath) (ps : List RelPath) (p : RelPath)
    → r ≡ ok p
    → contains (add_target r ps) p ≡ true
add_target_here (ok q) ps p e = ground (arith, path_eq.beq_iff q p)
add_target_here (err x) ps p e = cc

add_target_later :
    (r : Result PathError RelPath) (ps : List RelPath) (p : RelPath)
    → contains ps p ≡ true
    → contains (add_target r ps) p ≡ true
add_target_later (ok q) ps p h = ground arith
add_target_later (err x) ps p h = h

parents_above : (up rest : RelPath) → All (λ d. is_above d (up ++ rest) ≡ true) (parents up rest)
unfolding parents
parents_above up [] = tt
parents_above up (x ∷ rest) =
    All-append (λ (d : RelPath). is_above d (up ++ x ∷ rest) ≡ true) (parents (up ++ x ∷ []) rest)
      (up ∷ [])
      (subst
        (λ (q : RelPath). All (λ (d : RelPath). is_above d q ≡ true) (parents (up ++ x ∷ []) rest))
        (append_assoc up (x ∷ []) rest) (parents_above (up ++ x ∷ []) rest))
      (is_above-append up (x ∷ rest), tt)

module _ (refuses : RelPath → Bool) where
  remove_dir-eq-some :
      (p : RelPath) (fs fs' : Fs)
      → remove_dir refuses p fs ≡ some fs'
      → (lookup p fs ≡ some dir) × (has_children p fs ≡ false) × (delete p fs ≡ fs')
  unfolding remove_dir
  remove_dir-eq-some p fs fs' h = ground arith

  module _ (targets : List RelPath) where
    drop_dir-Keeps :
        (p t : RelPath) (w : World) (o : Option Fs)
        → remove_dir refuses p w.fs ≡ o
        → contains targets t ≡ true
        → is_above p t ≡ true
        → is_above db_dir p ≡ false
        → Keeps targets w.fs (drop_dir refuses o w).fs
    unfolding drop_dir
    drop_dir-Keeps p t w none h listed over outside = Keeps-refl targets w.fs
    drop_dir-Keeps p t w (some fs) h listed over outside =
        let (is, empty, same) = remove_dir-eq-some p w.fs fs h in
        subst (Keeps targets w.fs) same
          (delete_dir-Keeps targets p w.fs t listed over outside is empty)

    drop_file-Keeps :
        (recorded : Text) (p : RelPath) (w : World)
        → lookup p w.fs ≡ some file
        → contains targets p ≡ true
        → p ≢ []
        → is_above db_dir p ≡ false
        → Keeps targets w.fs (drop_file refuses recorded p w).fs
    unfolding drop_file
    drop_file-Keeps recorded p w is listed proper outside = elim (Bool-cases (refuses p)) [
      | inl stuck ↦ rw (stuck, drop_file) (Keeps-refl targets w.fs)
      | inr free ↦ rw (free, drop_file) (delete_file-Keeps targets p w.fs listed proper outside is)
    ]

    remove_node-Keeps :
        (recorded : Text) (p : RelPath) (o : Option Node) (w : World)
        → lookup p w.fs ≡ o
        → contains targets p ≡ true
        → p ≢ []
        → is_above db_dir p ≡ false
        → Keeps targets w.fs (remove_node refuses recorded p o w).fs
    unfolding remove_node
    remove_node-Keeps recorded p none w is listed proper outside = Keeps-refl targets w.fs
    remove_node-Keeps recorded p (some file) w is listed proper outside =
        drop_file-Keeps recorded p w is listed proper outside
    remove_node-Keeps recorded p (some dir) w is listed proper outside =
        drop_dir-Keeps p p w (remove_dir refuses p w.fs) refl listed (is_above_refl p) outside

    pub remove_target-Keeps :
        (recorded : Text) (r : Result PathError RelPath) (w : World)
        → safe_target recorded ≡ r
        → ((p : RelPath) → r ≡ ok p → contains targets p ≡ true)
        → Keeps targets w.fs (remove_target refuses recorded r w).fs
    unfolding remove_target
    remove_target-Keeps recorded (err e) w is listed = Keeps-refl targets w.fs
    remove_target-Keeps recorded (ok p) w is listed = elim (Bool-cases (is_above db_dir p)) [
      | inl within ↦ rw (within, remove_target) (Keeps-refl targets w.fs)
      | inr outside ↦
          rw (outside, remove_target)
            (remove_node-Keeps recorded p (lookup p w.fs) w refl (listed p refl)
              (safe_target-IsPlain recorded p is).1 outside)
    ]

    pub remove_each-Keeps :
        (paths : List Text) (w : World)
        → ((p : RelPath) → contains (targets_of paths) p ≡ true → contains targets p ≡ true)
        → Keeps targets w.fs (remove_each refuses paths w).fs
    unfolding remove_each
    remove_each-Keeps [] w h = Keeps-refl targets w.fs
    remove_each-Keeps (recorded ∷ paths) w h =
        Keeps-trans targets
          (remove_target-Keeps recorded (safe_target recorded) w refl
            (λ p e. h p (add_target_here (safe_target recorded) (targets_of paths) p e)))
          (remove_each-Keeps paths _
            (λ p i. h p (add_target_later (safe_target recorded) (targets_of paths) p i)))

    prune-Keeps :
        (t : RelPath) (ds : List RelPath) (w : World)
        → contains targets t ≡ true
        → All (λ d. is_above d t ≡ true) ds
        → Keeps targets w.fs (prune refuses ds w).fs
    unfolding prune
    prune-Keeps t [] w listed over = Keeps-refl targets w.fs
    prune-Keeps t (d ∷ ds) w listed over = elim (Bool-cases (d == [] || is_above db_dir d)) [
      | inl stop ↦ rw (stop, prune) (Keeps-refl targets w.fs)
      | inr go ↦
          rw (go, prune)
            (elim (Option-cases (remove_dir refuses d w.fs)) [
              | inl fails ↦ rw (fails) (Keeps-refl targets w.fs)
              | inr (fs, works) ↦ rw (works) (
                  Keeps-trans targets
                    (drop_dir-Keeps d t w (some fs) works listed over.0 (ground arith))
                    (prune-Keeps t ds (drop_dir refuses (some fs) w) listed over.1))
            ])
    ]

    prune_target-Keeps :
        (r : Result PathError RelPath) (w : World)
        → ((p : RelPath) → r ≡ ok p → contains targets p ≡ true)
        → Keeps targets w.fs (prune_target refuses r w).fs
    unfolding prune_target
    prune_target-Keeps (err e) w listed = Keeps-refl targets w.fs
    prune_target-Keeps (ok p) w listed =
        prune-Keeps p (parents [] p) w (listed p refl) (parents_above [] p)

    pub prune_each-Keeps :
        (paths : List Text) (w : World)
        → ((p : RelPath) → contains (targets_of paths) p ≡ true → contains targets p ≡ true)
        → Keeps targets w.fs (prune_each refuses paths w).fs
    unfolding prune_each
    prune_each-Keeps [] w h = Keeps-refl targets w.fs
    prune_each-Keeps (recorded ∷ paths) w h =
        Keeps-trans targets
          (prune_target-Keeps (safe_target recorded) w
            (λ p e. h p (add_target_here (safe_target recorded) (targets_of paths) p e)))
          (prune_each-Keeps paths _
            (λ p i. h p (add_target_later (safe_target recorded) (targets_of paths) p i)))
