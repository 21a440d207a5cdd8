-- ===== src/Pkg/Remove/Record.antt =====
-- What a removal does to the file of the package's record, for pkg-manager/src/remove.rs and
-- pkg-manager/src/db.rs.
use vakt_os.Base.{
  Option, beq_refl, ◌≡◌, ◌≢◌, refl, sym, ◌∙◌, inl, inr, ◌⊎◌, Bool, true, false, List, [], none,
  some, Text, text_eq, ◌==◌, lookup, lookup-delete, ok, arith,
}
use vakt_os.Pkg.Paths.{RelPath, path_eq}
use vakt_os.Pkg.Remove.{
  Node, file, dir, drop_record, record_path, Fs, World, Removal, Outcome, Database, forgotten,
}
use vakt_os.Pkg.Remove.Kept.{Keeps, Fate, IsTree, delete_file-IsTree}

-- The file of the record goes, and nothing else.
drop_record-lookup :
    (o : Option Node) (p : RelPath) (fs : Fs) (q : RelPath)
    → (p == q) ≡ false
    → lookup q (drop_record o p fs) ≡ lookup q fs
drop_record-lookup none p fs q d = refl
drop_record-lookup (some dir) p fs q d = refl
drop_record-lookup (some file) p fs q d = lookup-delete p q fs ∙ rw d refl

pub drop_record-none :
    (o : Option Node) (p : RelPath) (fs : Fs) (q : RelPath)
    → lookup q fs ≡ none
    → lookup q (drop_record o p fs) ≡ none
drop_record-none none p fs q h = h
drop_record-none (some dir) p fs q h = h
drop_record-none (some file) p fs q h = lookup-delete p q fs ∙ ground arith

drop_record-IsTree :
    (o : Option Node) (p : RelPath) (fs : Fs)
    → lookup p fs ≡ o
    → p ≢ []
    → IsTree fs
    → IsTree (drop_record o p fs)
drop_record-IsTree none p fs e n t = t
drop_record-IsTree (some dir) p fs e n t = t
drop_record-IsTree (some file) p fs e n t = delete_file-IsTree p fs n e t

drop_record_here :
    (o : Option Node) (p : RelPath) (fs : Fs)
    → lookup p fs ≡ o
    → (lookup p (drop_record o p fs) ≡ lookup p fs)
      ⊎ ((lookup p fs ≡ some file) × (lookup p (drop_record o p fs) ≡ none))
drop_record_here none p fs e = inl refl
drop_record_here (some dir) p fs e = inl refl
drop_record_here (some file) p fs e = inr (e, lookup-delete p p fs ∙ rw (beq_refl p) refl)

drop_record_gone :
    (o : Option Node) (p : RelPath) (fs : Fs) → o ≡ some file → lookup p (drop_record o p fs) ≡ none
drop_record_gone none p fs e = absurd (cc)
drop_record_gone (some dir) p fs e = absurd (cc)
drop_record_gone (some file) p fs e = lookup-delete p p fs ∙ rw (beq_refl p) refl

-- What a removal may have done to the tree.
pub record Removes (targets : List RelPath) (name : Text) (before : Fs) (after : Outcome)
    : Type 0 where
  pub fates : (q : RelPath) → (record_path name == q) ≡ false → Fate targets before after.fs q
  pub own_record :
      (lookup (record_path name) after.fs ≡ lookup (record_path name) before)
      ⊎ ((lookup (record_path name) before ≡ some file)
          × (lookup (record_path name) after.fs ≡ none)
          × ((removal : Removal) × (after.result ≡ ok removal)))
  pub forgets :
      (removal : Removal)
      → after.result ≡ ok removal
      → lookup (record_path name) before ≡ some file
      → lookup (record_path name) after.fs ≡ none
  pub tree : IsTree before → IsTree after.fs

-- What stands in the package database is not touched by the two passes.
record_kept_by :
    (targets : List RelPath) (name : Text) (before after : Fs)
    → Fate targets before after (record_path name)
    → lookup (record_path name) after ≡ lookup (record_path name) before
record_kept_by targets name before after (Fate.same e) = e
record_kept_by targets name before after (Fate.file_gone _ _ _ outside) = absurd (cc)
record_kept_by targets name before after (Fate.dir_gone _ _ _ _ _ outside) = absurd (cc)

pub Keeps-Removes :
    (targets : List RelPath) (name : Text) (before : Fs) (after : Outcome)
    → ((removal : Removal) → after.result ≡ ok removal → ⊥)
    → Keeps targets before after.fs
    → Removes targets name before after
Keeps-Removes targets name before after failed k = record {
  forgets = λ removal e was. absurd (failed removal e);
  fates = λ q d. k.fates q;
  own_record = inl (record_kept_by targets name before after.fs (k.fates (record_path name)));
  tree = k.tree;
}

Fate-then :
    (targets : List RelPath) (before mid after : Fs) (q : RelPath)
    → lookup q after ≡ lookup q mid
    → Fate targets before mid q
    → Fate targets before after q
Fate-then targets before mid after q e (Fate.same h) = Fate.same (e ∙ h)
Fate-then targets before mid after q e (Fate.file_gone was gone t o) =
    Fate.file_gone was (e ∙ gone) t o
Fate-then targets before mid after q e (Fate.dir_gone was gone t i u o) =
    Fate.dir_gone was (e ∙ gone) t i u o

pub forgotten-Removes :
    (keeps_record : Bool) (targets : List RelPath) (name : Text) (db : Database) (before : Fs)
    (w : World)
    → Keeps targets before w.fs
    → Removes targets name before (forgotten keeps_record name db w)
unfolding forgotten
forgotten-Removes true targets name db before w k =
    Keeps-Removes targets name before _ (λ removal e. cc) k
forgotten-Removes false targets name db before w k =
    let p = record_path name in
    let kept = record_kept_by targets name before w.fs (k.fates p) in
    record {
      fates = λ q d.
          Fate-then targets before w.fs _ q (drop_record-lookup (lookup p w.fs) p w.fs q d)
            (k.fates q);
      own_record = elim (drop_record_here (lookup p w.fs) p w.fs refl) [
        | inl same ↦ inl (same ∙ kept)
        | inr (was, gone) ↦ inr (sym kept ∙ was, gone, (w.removal, refl))
      ];
      forgets = λ removal e was. drop_record_gone (lookup p w.fs) p w.fs (kept ∙ was);
      tree = λ t. drop_record-IsTree (lookup p w.fs) p w.fs refl (λ e. cc) (k.tree t);
    }
