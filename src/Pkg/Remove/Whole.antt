-- ===== src/Pkg/Remove/Whole.antt =====
-- `remove_package` of pkg-manager/src/remove.rs as a whole.
use vakt_os.Base.{
  ◌≡◌, ◌≢◌, refl, sym, ◌∙◌, ap, inl, inr, ◌⊎◌, Bool, true, false, not, ◌&&◌, ◌||◌, List, [], ◌∷◌,
  none, some, Text, text_eq, ◌==◌, lookup, delete, lookup-delete, contains, Result, ok, err,
  if◌then◌else◌, Bool-cases, Option-cases, arith, subst, leb,
}
use vakt_os.Pkg.Paths.{RelPath, path_eq, PathError, safe_target}
use vakt_os.Pkg.Remove.{
  record_path, Fs, World, Removal, remove_paths, remove_package, Outcome, Database, RemoveError,
  not_installed, required_by, record_kept, forgotten, dependents, is_empty, deepest_first,
  insert_deep, depth, untouched, InstalledPackage,
}
use vakt_os.Pkg.Remove.Kept.{Keeps, Keeps-refl, Keeps-trans}
use vakt_os.Pkg.Remove.Record.{Removes, drop_record-none, Keeps-Removes, forgotten-Removes}
use vakt_os.Pkg.Remove.Kept.Passes.{targets_of, add_target, remove_each-Keeps, prune_each-Keeps}

contains-add_target :
    (r : Result PathError RelPath) (ps : List RelPath) (q : RelPath)
    → contains (add_target r ps) q ≡ (contains (add_target r []) q || contains ps q)
contains-add_target (ok p) ps q = ground arith
contains-add_target (err e) ps q = refl

insert_deep-targets :
    (a : Text) (xs : List Text) (q : RelPath)
    → contains (targets_of (insert_deep a xs)) q ≡ contains (targets_of (a ∷ xs)) q
insert_deep-targets a [] q = refl
insert_deep-targets a (x ∷ xs) q = elim (Bool-cases (leb (depth x) (depth a))) [
  | inl first ↦ rw first refl
  | inr later ↦ rw later (
      ground (
        arith,
        insert_deep-targets a xs q,
        contains-add_target (safe_target x) (targets_of (insert_deep a xs)) q,
        contains-add_target (safe_target a) (targets_of xs) q,
        contains-add_target (safe_target a) (add_target (safe_target x) (targets_of xs)) q,
        contains-add_target (safe_target x) (targets_of xs) q,
      ))
]

-- Sorting changes no target.
pub deepest_first-targets :
    (xs : List Text) (q : RelPath)
    → contains (targets_of (deepest_first xs)) q ≡ contains (targets_of xs) q
deepest_first-targets [] q = refl
deepest_first-targets (x ∷ xs) q = ground (
  arith,
  insert_deep-targets x (deepest_first xs) q,
  deepest_first-targets xs q,
  contains-add_target (safe_target x) (targets_of (deepest_first xs)) q,
  contains-add_target (safe_target x) (targets_of xs) q,
)

dependents_empty :
    (name : Text) (db : Database) (n : Text) (q : InstalledPackage)
    → is_empty (dependents name db) ≡ true
    → lookup n db ≡ some q
    → contains q.dependencies name ≡ false
unfolding dependents
dependents_empty name [] n q h e = cc
dependents_empty name ((k, p) ∷ db) n q h e = elim (Bool-cases (contains p.dependencies name)) [
  | inl depends ↦ absurd (ground arith)
  | inr free ↦ elim (Bool-cases (k == n)) [
    | inl here ↦ ground arith
    | inr later ↦ dependents_empty name db n q (ground arith) (ground arith)
  ]
]

module _ (refuses : RelPath → Bool) where
  remove_paths-Keeps :
      (files : List Text) (fs : Fs)
      → Keeps (targets_of files) fs (remove_paths refuses (deepest_first files) (untouched fs)).fs
  unfolding remove_paths
  remove_paths-Keeps files fs =
      let targets = targets_of files in
      let listed : (p : RelPath)
          → contains (targets_of (deepest_first files)) p ≡ true
          → contains targets p ≡ true =
        λ p h. sym (deepest_first-targets files p) ∙ h in
      Keeps-trans targets
        (remove_each-Keeps refuses targets (deepest_first files) (untouched fs) listed)
        (prune_each-Keeps refuses targets (deepest_first files) _ listed)

  module _ (keeps_record force : Bool) (name : Text) (db : Database) (fs : Fs) where
    pub forgotten-gone :
        (w : World) (t : RelPath)
        → lookup t w.fs ≡ none
        → lookup t (forgotten keeps_record name db w).fs ≡ none
    unfolding forgotten
    forgotten-gone w t h = go keeps_record
      where
        go : (b : Bool) → lookup t (forgotten b name db w).fs ≡ none
        go true = h
        go false = drop_record-none (lookup (record_path name) w.fs) (record_path name) w.fs t h

    pub not_found :
        lookup name db ≡ none
        → remove_package refuses keeps_record name force db fs
          ≡ record { fs = fs; db = db; result = err not_installed }
    unfolding remove_package
    not_found h = rw (h, remove_package) refl

    pub needed :
        (p : InstalledPackage)
        → lookup name db ≡ some p
        → (not (is_empty (dependents name db)) && not force) ≡ true
        → remove_package refuses keeps_record name force db fs
          ≡ record { fs = fs; db = db; result = err (required_by (dependents name db)) }
    unfolding remove_package
    needed p h b = rw (h, remove_package) (rw b refl)

    pub goes_ahead :
        (p : InstalledPackage)
        → lookup name db ≡ some p
        → (not (is_empty (dependents name db)) && not force) ≡ false
        → remove_package refuses keeps_record name force db fs
          ≡ forgotten keeps_record name db
              (remove_paths refuses (deepest_first p.files) (untouched fs))
    unfolding remove_package
    goes_ahead p h b = rw (h, remove_package) (rw b refl)

    -- A removal takes nothing but what it may, in a root in which no directory on the way to a path is a symbolic
    -- link. Any path below the root, but for the file of the package's own record, is what it was, unless it was a
    -- file that the package's record names, or a directory above or at such a path, and in either case it lies
    -- outside the package database. The file of the record stays as it was unless the removal succeeds, and
    -- then it is gone if it was a file. If the root was a tree, it still is, so no directory went from under anything that stayed.
    pub remove_package-Removes :
        (p : InstalledPackage)
        → lookup name db ≡ some p
        → Removes
            (targets_of p.files)
            name
            fs
            (remove_package refuses keeps_record name force db fs)
    remove_package-Removes p h =
        elim (Bool-cases (not (is_empty (dependents name db)) && not force)) [
          | inl b ↦ subst (Removes (targets_of p.files) name fs) (sym (needed p h b)) (
              Keeps-Removes (targets_of p.files) name fs
                (record { fs = fs; db = db; result = err (required_by (dependents name db)) })
                (λ removal e. cc) (Keeps-refl (targets_of p.files) fs))
          | inr b ↦ subst (Removes (targets_of p.files) name fs) (sym (goes_ahead p h b)) (
              forgotten-Removes keeps_record (targets_of p.files) name db fs
                (remove_paths refuses (deepest_first p.files) (untouched fs))
                (remove_paths-Keeps p.files fs))
        ]

    pub forgotten-err :
        (w : World) (e : RemoveError)
        → (forgotten keeps_record name db w).result ≡ err e
        → e ≡ record_kept
    unfolding forgotten
    forgotten-err w e h = ground arith

    -- Any error but that of a record which cannot be deleted leaves the files and the database alone.
    pub remove_package-untouched :
        (e : RemoveError)
        → (remove_package refuses keeps_record name force db fs).result ≡ err e
        → e ≢ record_kept
        → ((remove_package refuses keeps_record name force db fs).fs ≡ fs)
          × ((remove_package refuses keeps_record name force db fs).db ≡ db)
    remove_package-untouched e h n = elim (Option-cases (lookup name db)) [
      | inl absent ↦ (
        ap (λ (o : Outcome). o.fs) (not_found absent),
        ap (λ (o : Outcome). o.db) (not_found absent),
      )
      | inr (p, found) ↦ elim (Bool-cases (not (is_empty (dependents name db)) && not force)) [
        | inl b ↦ (
          ap (λ (o : Outcome). o.fs) (needed p found b),
          ap (λ (o : Outcome). o.db) (needed p found b),
        )
        | inr b ↦ absurd (
            n (forgotten-err _ e (sym (ap (λ (o : Outcome). o.result) (goes_ahead p found b)) ∙ h)))
      ]
    ]

    pub forgotten-ok :
        (w : World) (removal : Removal)
        → (forgotten keeps_record name db w).result ≡ ok removal
        → (forgotten keeps_record name db w).db ≡ delete name db
    unfolding forgotten
    forgotten-ok w removal h = ground arith

    -- A removal that succeeds leaves no record of the package and every other record as it was. It
    -- happens only if no installed package depends on this one, or by force.
    pub remove_package_succeeds :
        (removal : Removal)
        → (remove_package refuses keeps_record name force db fs).result ≡ ok removal
        → ((n : Text)
            → lookup n (remove_package refuses keeps_record name force db fs).db
              ≡ (if name == n then none else lookup n db))
          × ((force ≡ true)
              ⊎ ((n : Text) (q : InstalledPackage)
                  → lookup n db ≡ some q
                  → contains q.dependencies name ≡ false))
    remove_package_succeeds removal h = elim (Option-cases (lookup name db)) [
      | inl absent ↦ absurd (cc (ap (λ (o : Outcome). o.result) (not_found absent)))
      | inr (p, found) ↦ elim (Bool-cases (not (is_empty (dependents name db)) && not force)) [
        | inl b ↦ absurd (cc (ap (λ (o : Outcome). o.result) (needed p found b)))
        | inr b ↦
            let w = remove_paths refuses (deepest_first p.files) (untouched fs) in
            let gone =
              forgotten-ok w removal
                (sym (ap (λ (o : Outcome). o.result) (goes_ahead p found b)) ∙ h) in
            (
              λ n.
                  ap (lookup n) (ap (λ (o : Outcome). o.db) (goes_ahead p found b) ∙ gone)
                  ∙ lookup-delete name n db,
              elim (Bool-cases force) [
                | inl yes_force ↦ inl yes_force
                | inr no_force ↦ inr (λ n q. dependents_empty name db n q (ground arith))
              ],
            )
      ]
    ]
