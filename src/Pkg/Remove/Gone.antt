-- ===== src/Pkg/Remove/Gone.antt =====
-- That a removal takes every file that it can, for pkg-manager/src/remove.rs.
use vakt_os.Base.{
  ◌≡◌, refl, sym, ◌∙◌, ap, inl, inr, ◌⊎◌, Bool, true, false, not, ◌&&◌, ◌||◌, List, [], ◌∷◌, Option,
  none, some, Text, text_eq, ◌==◌, beq_refl, eq_of_beq, lookup, lookup-delete, contains, Result, ok,
  Bool-cases, arith, subst, leb,
}
use vakt_os.Pkg.Paths.{RelPath, path_eq, is_above, PathError, safe_target}
use vakt_os.Pkg.Remove.{
  Node, file, dir, Fs, World, Removal, db_dir, drop_file, remove_node, remove_target, remove_each,
  remove_paths, remove_package, Outcome, Database, dependents, is_empty, deepest_first, insert_deep,
  depth, untouched, InstalledPackage,
}
use vakt_os.Pkg.Remove.Kept.{Fate, Keeps}
use vakt_os.Pkg.Remove.Kept.Passes.{
  targets_of, add_target, add_target_here, remove_target-Keeps, prune_each-Keeps,
}
use vakt_os.Pkg.Remove.Whole.{needed, goes_ahead, forgotten-gone}

abbrev IsFileOrGone : RelPath → Fs → Type 0
IsFileOrGone t fs = (lookup t fs ≡ some file) ⊎ (lookup t fs ≡ none)

stays_gone :
    {targets : List RelPath} {a b : Fs} (t : RelPath)
    → Keeps targets a b
    → lookup t a ≡ none
    → lookup t b ≡ none
stays_gone t k h = elim (k.fates t) [
  | Fate.same e ↦ e ∙ h
  | Fate.file_gone _ gone _ _ ↦ gone
  | Fate.dir_gone _ gone _ _ _ _ ↦ gone
]

IsFileOrGone-Keeps :
    {targets : List RelPath} {a b : Fs} (t : RelPath)
    → Keeps targets a b
    → IsFileOrGone t a
    → IsFileOrGone t b
IsFileOrGone-Keeps t k (inr h) = inr (stays_gone t k h)
IsFileOrGone-Keeps t k (inl h) = elim (k.fates t) [
  | Fate.same e ↦ inl (e ∙ h)
  | Fate.file_gone _ gone _ _ ↦ inr gone
  | Fate.dir_gone _ gone _ _ _ _ ↦ inr gone
]

contains-insert_deep :
    (a : Text) (xs : List Text) (n : Text)
    → contains (insert_deep a xs) n ≡ (a == n || contains xs n)
contains-insert_deep a [] n = refl
contains-insert_deep a (x ∷ xs) n = elim (Bool-cases (leb (depth x) (depth a))) [
  | inl first ↦ rw first refl
  | inr later ↦ rw later (ground (arith, contains-insert_deep a xs n))
]

contains-deepest_first : (xs : List Text) (n : Text) → contains (deepest_first xs) n ≡ contains xs n
contains-deepest_first [] n = refl
contains-deepest_first (x ∷ xs) n =
    ground (arith, contains-insert_deep x (deepest_first xs) n, contains-deepest_first xs n)

module _ (refuses : RelPath → Bool) (recorded : Text) (t : RelPath)
    (is : safe_target recorded ≡ ok t) (outside : is_above db_dir t ≡ false)
    (free : refuses t ≡ false) where
  drop_file-gone : (w : World) → lookup t (drop_file refuses recorded t w).fs ≡ none
  unfolding drop_file
  drop_file-gone w = rw (free, drop_file) (lookup-delete t t w.fs ∙ rw (beq_refl t) refl)

  remove_node-gone :
      (o : Option Node) (w : World)
      → lookup t w.fs ≡ o
      → IsFileOrGone t w.fs
      → lookup t (remove_node refuses recorded t o w).fs ≡ none
  unfolding remove_node
  remove_node-gone none w e h = e
  remove_node-gone (some file) w e h = drop_file-gone w
  remove_node-gone (some dir) w e (inl h) = absurd (cc)
  remove_node-gone (some dir) w e (inr h) = absurd (cc)

  remove_target-gone :
      (r : Result PathError RelPath) (w : World)
      → r ≡ ok t
      → IsFileOrGone t w.fs
      → lookup t (remove_target refuses recorded r w).fs ≡ none
  unfolding remove_target
  remove_target-gone r w e h = simp (e, outside) (remove_node-gone (lookup t w.fs) w refl h)

  remove_each-gone :
      (paths : List Text) (w : World)
      → contains paths recorded ≡ true
      → IsFileOrGone t w.fs
      → lookup t (remove_each refuses paths w).fs ≡ none
  unfolding remove_each
  remove_each-gone [] w i h = cc
  remove_each-gone (x ∷ paths) w i h =
      let w' = remove_target refuses x (safe_target x) w in
      let step =
        remove_target-Keeps refuses (add_target (safe_target x) []) x (safe_target x) w refl
          (λ p e. add_target_here (safe_target x) [] p e) in
      elim (Bool-cases (x == recorded)) [
        | inl here ↦
            let e : x ≡ recorded = eq_of_beq {a = x} {b = recorded} here in
            remove_each_later paths w' (
              subst (λ y. lookup t (remove_target refuses y (safe_target y) w).fs ≡ none) (sym e)
                (remove_target-gone (safe_target recorded) w is h))
        | inr later ↦ remove_each-gone paths w' (ground arith) (IsFileOrGone-Keeps t step h)
      ]
    where
      remove_each_later :
          (paths : List Text) (w : World)
          → lookup t w.fs ≡ none
          → lookup t (remove_each refuses paths w).fs ≡ none
      remove_each_later [] w h = h
      remove_each_later (x ∷ paths) w h = remove_each_later paths _ (
          stays_gone t
            (remove_target-Keeps refuses (add_target (safe_target x) []) x (safe_target x) w refl
              (λ p e. add_target_here (safe_target x) [] p e))
            h)

  remove_paths-gone :
      (files : List Text) (fs : Fs)
      → contains files recorded ≡ true
      → lookup t fs ≡ some file
      → lookup t (remove_paths refuses (deepest_first files) (untouched fs)).fs ≡ none
  unfolding remove_paths
  remove_paths-gone files fs i h =
      stays_gone t
        (prune_each-Keeps refuses (targets_of (deepest_first files)) (deepest_first files) _
          (λ p x. x))
        (remove_each-gone (deepest_first files) (untouched fs)
          (contains-deepest_first files recorded ∙ i) (inl h))

  -- A removal that succeeds takes every file that the package's record names by a path that is
  -- accepted and lies outside the package database, if the kernel lets it be deleted.
  pub remove_package-gone :
      (keeps_record force : Bool) (name : Text) (db : Database) (fs : Fs) (p : InstalledPackage)
      (removal : Removal)
      → lookup name db ≡ some p
      → (remove_package refuses keeps_record name force db fs).result ≡ ok removal
      → contains p.files recorded ≡ true
      → lookup t fs ≡ some file
      → lookup t (remove_package refuses keeps_record name force db fs).fs ≡ none
  remove_package-gone keeps_record force name db fs p removal found h i f =
      elim (Bool-cases (not (is_empty (dependents name db)) && not force)) [
        | inl b ↦ absurd (
            cc (
              ap (λ (o : Outcome). o.result)
                (needed refuses keeps_record force name db fs p found b)))
        | inr b ↦
            ap (λ (o : Outcome). lookup t o.fs)
              (goes_ahead refuses keeps_record force name db fs p found b)
            ∙ forgotten-gone refuses keeps_record force name db fs
                (remove_paths refuses (deepest_first p.files) (untouched fs)) t
                (remove_paths-gone p.files fs i f)
      ]
