-- ===== src/Pkg/Remove/Kept.antt =====
-- What a removal leaves alone, for pkg-manager/src/remove.rs.
pub mod Passes
use vakt_os.Base.{
  ℕ, zero, suc, ◌+◌, ◌≡◌, ◌≢◌, refl, sym, ◌∙◌, ap, inl, inr, ◌⊎◌, Bool, true, false, not, ◌&&◌,
  ◌||◌, List, [], ◌∷◌, ◌++◌, Option, none, some, Text, Eq, text_eq, ◌==◌, beq_refl, eq_of_beq, Map,
  lookup, delete, lookup-delete, contains, Result, ok, err, if◌then◌else◌, Bool-cases, Option-cases,
  arith, subst, All,
}
use vakt_os.Pkg.Paths.{RelPath, path_eq, is_above}
use vakt_os.Pkg.Remove.{Node, file, dir, Fs, db_dir, has_children}

-- Whatever stands in the tree stands in directories of the tree.
abbrev pub IsTree : Fs → Type 0
IsTree fs =
    (p q : RelPath)
    → p ≢ []
    → is_above p q ≡ true
    → (p == q) ≡ false
    → lookup q fs ≢ none
    → lookup p fs ≡ some dir

-- What may have become of one path, when only the packages' `targets` are to go.
pub data Fate (targets : List RelPath) (before after : Fs) (q : RelPath) : Type 0 where
  same : lookup q after ≡ lookup q before → Fate targets before after q
  file_gone :
      lookup q before ≡ some file
      → lookup q after ≡ none
      → contains targets q ≡ true
      → is_above db_dir q ≡ false
      → Fate targets before after q
  dir_gone :
      lookup q before ≡ some dir
      → lookup q after ≡ none
      → (t : RelPath) → contains targets t ≡ true
      → is_above q t ≡ true
      → is_above db_dir q ≡ false
      → Fate targets before after q

-- A step that keeps the tree a tree and takes nothing but what it may.
pub record Keeps (targets : List RelPath) (before after : Fs) : Type 0 where
  pub fates : (q : RelPath) → Fate targets before after q
  pub tree : IsTree before → IsTree after

pub Keeps-refl : (targets : List RelPath) (fs : Fs) → Keeps targets fs fs
Keeps-refl targets fs = record { fates = λ q. Fate.same refl; tree = λ t. t }

module _ (targets : List RelPath) where
  Fate-trans :
      {a b c : Fs} (q : RelPath) → Fate targets a b q → Fate targets b c q → Fate targets a c q
  Fate-trans q (Fate.same e) (Fate.same h) = Fate.same (h ∙ e)
  Fate-trans q (Fate.same e) (Fate.file_gone was gone t o) = Fate.file_gone (sym e ∙ was) gone t o
  Fate-trans q (Fate.same e) (Fate.dir_gone was gone t i u o) =
      Fate.dir_gone (sym e ∙ was) gone t i u o
  Fate-trans q (Fate.file_gone was gone t o) (Fate.same h) = Fate.file_gone was (h ∙ gone) t o
  Fate-trans q (Fate.file_gone was gone t o) (Fate.file_gone h _ _ _) = absurd (cc)
  Fate-trans q (Fate.file_gone was gone t o) (Fate.dir_gone h _ _ _ _ _) = absurd (cc)
  Fate-trans q (Fate.dir_gone was gone t i u o) (Fate.same h) = Fate.dir_gone was (h ∙ gone) t i u o
  Fate-trans q (Fate.dir_gone was gone t i u o) (Fate.file_gone h _ _ _) = absurd (cc)
  Fate-trans q (Fate.dir_gone was gone t i u o) (Fate.dir_gone h _ _ _ _ _) = absurd (cc)

  pub Keeps-trans : {a b c : Fs} → Keeps targets a b → Keeps targets b c → Keeps targets a c
  Keeps-trans k l = record {
    fates = λ q. Fate-trans q (k.fates q) (l.fates q);
    tree = λ t. l.tree (k.tree t);
  }

-- Nothing of the tree stands below a path without children.
childless :
    (p : RelPath) (fs : Fs) (q : RelPath)
    → has_children p fs ≡ false
    → lookup q fs ≢ none
    → is_above p q ≡ true
    → (p == q) ≡ true
childless p [] q h n a = absurd (n refl)
childless p ((r, x) ∷ fs) q h n a = elim (Bool-cases (r == q)) [
  | inl here ↦
      let e : r ≡ q = eq_of_beq {a = r} {b = q} here in
      subst (λ y. (p == y) ≡ true) e (ground (arith, h, subst (λ y. is_above p y ≡ true) (sym e) a))
  | inr other ↦ childless p fs q (ground arith) (λ e. n (ground arith)) a
]

-- Below a file of a tree there is nothing.
file_childless :
    (p : RelPath) (fs : Fs) (q : RelPath)
    → IsTree fs
    → p ≢ []
    → lookup p fs ≡ some file
    → lookup q fs ≢ none
    → is_above p q ≡ true
    → (p == q) ≡ true
file_childless p fs q t proper is n a = elim (Bool-cases (p == q)) [
  | inl e ↦ e
  | inr d ↦ absurd (cc (t p q proper a d n))
]

delete-IsTree :
    (p : RelPath) (fs : Fs)
    → ((q : RelPath) → lookup q fs ≢ none → is_above p q ≡ true → (p == q) ≡ true)
    → IsTree fs
    → IsTree (delete p fs)
delete-IsTree p fs alone t r q proper above differs there =
    let other : (p == q) ≡ false = elim (Bool-cases (p == q)) [
      | inl e ↦ absurd (there (lookup-delete p q fs ∙ rw e refl))
      | inr d ↦ d
    ] in
    let was : lookup q fs ≢ none = λ e. there (lookup-delete p q fs ∙ rw other e) in
    elim (Bool-cases (p == r)) [
      | inl e ↦
          let up : is_above p q ≡ true =
            subst (λ x. is_above x q ≡ true) (sym (eq_of_beq {a = p} {b = r} e)) above in
          absurd (cc (alone q was up))
      | inr d ↦ lookup-delete p r fs ∙ rw d (t r q proper above differs was)
    ]

pub delete_file-IsTree :
    (p : RelPath) (fs : Fs) → p ≢ [] → lookup p fs ≡ some file → IsTree fs → IsTree (delete p fs)
delete_file-IsTree p fs proper is t = delete-IsTree p fs (λ q. file_childless p fs q t proper is) t

pub delete_dir-Keeps :
    (targets : List RelPath) (p : RelPath) (fs : Fs) (t : RelPath)
    → contains targets t ≡ true
    → is_above p t ≡ true
    → is_above db_dir p ≡ false
    → lookup p fs ≡ some dir
    → has_children p fs ≡ false
    → Keeps targets fs (delete p fs)
delete_dir-Keeps targets p fs t listed over outside is empty = record {
  fates = λ q. elim (Bool-cases (p == q)) [
    | inl e ↦
        subst (Fate targets fs (delete p fs)) (eq_of_beq {a = p} {b = q} e)
          (Fate.dir_gone is (lookup-delete p p fs ∙ rw (beq_refl p) refl) t listed over outside)
    | inr d ↦ Fate.same (lookup-delete p q fs ∙ rw d refl)
  ];
  tree = delete-IsTree p fs (λ q. childless p fs q empty);
}

-- A file goes only if it is a target; that it has nothing below it is what makes the tree a tree.
pub delete_file-Keeps :
    (targets : List RelPath) (p : RelPath) (fs : Fs)
    → contains targets p ≡ true
    → p ≢ []
    → is_above db_dir p ≡ false
    → lookup p fs ≡ some file
    → Keeps targets fs (delete p fs)
delete_file-Keeps targets p fs listed proper outside is = record {
  fates = λ q. elim (Bool-cases (p == q)) [
    | inl e ↦
        subst (Fate targets fs (delete p fs)) (eq_of_beq {a = p} {b = q} e)
          (Fate.file_gone is (lookup-delete p p fs ∙ rw (beq_refl p) refl) listed outside)
    | inr d ↦ Fate.same (lookup-delete p q fs ∙ rw d refl)
  ];
  tree = delete_file-IsTree p fs proper is;
}
