-- ===== src/Pkg/Remove.antt =====
-- pkg-manager/src/remove.rs, `remove_package`, with what it uses of the database of
-- pkg-manager/src/db.rs. What stands below the install root is a map from paths to nodes; a symbolic
-- link is a file, since the calls do not follow the last component of a path. They do follow a symbolic link
-- further up: the model is of roots where every directory on the way to a recorded path is a directory and no
-- link to one. `refuses` are the paths that the kernel will not delete. A package's name is one path component.
pub mod Kept
pub mod Record
pub mod Whole
pub mod Gone
mod Tests
use vakt_os.Base.{
  ℕ, zero, suc, ◌+◌, Bool, true, false, not, ◌&&◌, ◌||◌, List, [], ◌∷◌, ◌++◌, Option, none, some,
  Text, Eq, text_eq, nat_eq, ◌==◌, Map, lookup, delete, contains, Result, ok, err, text,
  if◌then◌else◌, leb, nat_beq,
}
use vakt_os.Pkg.Paths.{RelPath, path_eq, is_above, PathError, safe_target}

pub data Node : Type 0 where
  file dir : Node

abbrev pub Fs : Type 0
Fs = Map RelPath Node

pub record InstalledPackage : Type 0 where
  pub name : Text
  pub version : Text
  pub dependencies : List Text
  pub files : List Text
  pub installed_at : ℕ

-- The records that parse, by the name in their file's name, sorted by the names within.
abbrev pub Database : Type 0
Database = Map Text InstalledPackage

abbrev pub db_dir : RelPath
db_dir = text "var" ∷ text "lib" ∷ text "zrpkg" ∷ []

-- `entry_path`: the file of a record, which is a node of the tree as well.
abbrev pub record_path : Text → RelPath
record_path name = text "var" ∷ text "lib" ∷ text "zrpkg" ∷ (name ++ text ".json") ∷ []

unfoldable pub dependents : Text → Database → List Text
dependents name [] = []
dependents name ((_, p) ∷ db) =
    let rest = dependents name db in if contains p.dependencies name then p.name ∷ rest else rest

pub data Refusal : Type 0 where
  unsafe : PathError → Refusal
  in_database undeletable : Refusal

pub record Removal : Type 0 where
  pub files : ℕ
  pub directories : ℕ
  pub missing : ℕ
  pub refused : List (Text × Refusal)

pub record World : Type 0 where
  pub fs : Fs
  pub removal : Removal

abbrev pub depth : Text → ℕ
depth [] = 0
depth (c ∷ cs) = let rest = depth cs in if nat_beq c b'/' then suc rest else rest

-- `sort_by_key(Reverse(depth))`, which keeps the order of equals.
abbrev pub insert_deep : Text → List Text → List Text
insert_deep a [] = a ∷ []
insert_deep a (x ∷ xs) =
    let rest = insert_deep a xs in if leb (depth x) (depth a) then a ∷ x ∷ xs else x ∷ rest

abbrev pub deepest_first : List Text → List Text
deepest_first [] = []
deepest_first (x ∷ xs) = insert_deep x (deepest_first xs)

abbrev pub refuse : Text → Refusal → World → World
refuse recorded r w = record w {
  removal = record w.removal { refused = w.removal.refused ++ (recorded, r) ∷ [] };
}

abbrev pub has_children : RelPath → Fs → Bool
has_children p [] = false
has_children p ((q, _) ∷ fs) = (is_above p q && not (p == q)) || has_children p fs

module _ (refuses : RelPath → Bool) where
  -- `std::fs::remove_dir`: only an empty directory goes.
  unfoldable pub remove_dir : RelPath → Fs → Option Fs
  remove_dir p fs = elim (lookup p fs) [
    | some dir ↦ if refuses p || has_children p fs then none else some (delete p fs)
    | _ ↦ none
  ]

  pub drop_dir : Option Fs → World → World
  drop_dir none w = w
  drop_dir (some fs) w = record w {
    fs = fs;
    removal = record w.removal { directories = w.removal.directories + 1 };
  }

  pub drop_file : Text → RelPath → World → World
  drop_file recorded p w = if refuses p then refuse recorded undeletable w else record w {
    fs = delete p w.fs;
    removal = record w.removal { files = w.removal.files + 1 };
  }

  pub remove_node : Text → RelPath → Option Node → World → World
  unfolding remove_dir drop_dir drop_file
  remove_node recorded p none w = record w {
    removal = record w.removal { missing = w.removal.missing + 1 };
  }
  remove_node recorded p (some dir) w = drop_dir (remove_dir p w.fs) w
  remove_node recorded p (some file) w = drop_file recorded p w

  pub remove_target : Text → Result PathError RelPath → World → World
  unfolding remove_node
  remove_target recorded (err e) w = refuse recorded (unsafe e) w
  remove_target recorded (ok p) w =
      if is_above db_dir p
      then refuse recorded in_database w
      else remove_node recorded p (lookup p w.fs) w

  unfoldable pub remove_each : List Text → World → World
  unfolding remove_target safe_target
  remove_each [] w = w
  remove_each (recorded ∷ paths) w =
      remove_each paths (remove_target recorded (safe_target recorded) w)

  -- The loop of `prune_empty_parents` over the directories above a path, the nearest first.
  unfoldable pub prune : List RelPath → World → World
  unfolding remove_dir drop_dir
  prune [] w = w
  prune (d ∷ ds) w =
      let rest = λ (fs : Fs). prune ds (drop_dir (some fs) w) in
      if d == [] || is_above db_dir d
      then w
      else elim (remove_dir d w.fs) [ none ↦ w | some fs ↦ rest fs ]

-- The directories above `up ++ rest` that are not above `up`, the nearest first.
unfoldable pub parents : RelPath → RelPath → List RelPath
parents up [] = []
parents up (x ∷ rest) = parents (up ++ x ∷ []) rest ++ up ∷ []

module _ (refuses : RelPath → Bool) where
  pub prune_target : Result PathError RelPath → World → World
  unfolding prune parents
  prune_target (err e) w = w
  prune_target (ok p) w = prune refuses (parents [] p) w

  unfoldable pub prune_each : List Text → World → World
  unfolding prune_target safe_target
  prune_each [] w = w
  prune_each (recorded ∷ paths) w = prune_each paths (prune_target (safe_target recorded) w)

pub data RemoveError : Type 0 where
  not_installed : RemoveError
  required_by : List Text → RemoveError
  record_kept : RemoveError

pub record Outcome : Type 0 where
  pub fs : Fs
  pub db : Database
  pub result : Result RemoveError Removal

-- `remove_file` on the file of the record.
abbrev pub drop_record : Option Node → RelPath → Fs → Fs
drop_record (some file) p fs = delete p fs
drop_record _ p fs = fs

-- `db.forget`: a record that cannot be deleted is an error, after everything else is gone.
pub forgotten : Bool → Text → Database → World → Outcome
forgotten true name db w = record { fs = w.fs; db = db; result = err record_kept }
forgotten false name db w = record {
  fs = drop_record (lookup (record_path name) w.fs) (record_path name) w.fs;
  db = delete name db;
  result = ok w.removal;
}

abbrev pub untouched : Fs → World
untouched fs = record {
  fs = fs;
  removal = record { files = 0; directories = 0; missing = 0; refused = [] };
}

-- Both passes over the paths of a package.
unfoldable pub remove_paths : (RelPath → Bool) → List Text → World → World
unfolding remove_each prune_each
remove_paths refuses paths w = prune_each refuses paths (remove_each refuses paths w)

abbrev pub is_empty : List Text → Bool
is_empty [] = true
is_empty (n ∷ ns) = false

unfoldable pub remove_package : (RelPath → Bool) → Bool → Text → Bool → Database → Fs → Outcome
unfolding remove_paths dependents forgotten
remove_package refuses keeps_record name force db fs = elim (lookup name db) [
  | none ↦ record { fs = fs; db = db; result = err not_installed }
  | some p ↦
      let needed = dependents name db in
      if not (is_empty needed) && not force
      then record { fs = fs; db = db; result = err (required_by needed) }
      else forgotten keeps_record name db
          (remove_paths refuses (deepest_first p.files) (untouched fs))
]
