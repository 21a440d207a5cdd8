-- ===== src/Update/Apply.antt =====
-- `apply` of vakt-update/src/main.rs, step by step.
pub mod Early
use vakt_os.Base.{
  ℕ, Bool, true, false, List, [], ◌∷◌, Option, none, some, Text, text_eq, Bytes, lookup, insert,
  Result, ok, err, if◌then◌else◌, text, encode,
}
use vakt_os.Grub
use vakt_os.Pkg.Manifest.{PackageManifest}
use vakt_os.Pkg.Paths.{RelPath, path_eq, safe_relative, PathError}
use vakt_os.Pkg.Fetch.{Crypto}
use vakt_os.Init.Rollback.{Persist, StateFile, tries_left, entry_for, slot_b}
use vakt_os.Update.Action.{
  Node, file, Tree, Machine, Error, dirty_staging, unreadable_archive, corrupt_entry,
  unreadable_path, refused_entry, unpack_failed, unsafe_entry, missing, no_version, not_activated,
  bad_bootenv, no_state_dir, no_state, no_reboot, Action, lift, require, ◌>>=◌, ◌>>◌,
}
use vakt_os.Update.Bundle.{Source, fetch_bundle}

abbrev pub max_boot_attempts : ℕ
max_boot_attempts = 3

-- An entry of the archive.
pub data Item : Type 0 where
  corrupt nameless : Item
  item : (path : Text) (contents : Bytes) → Item

-- The library tar. `unpack_in` gives the tree that it leaves, and whether it unpacked the entry, refused
-- it, or failed.
pub record Tar : Type 0 where
  pub entries : Bytes → Option (List Item)
  pub unpack_in : Text → Bytes → Tree → Tree × Option Bool

-- The calls of `apply` on the disk, and what is left by those whose failure is not looked at.
pub record Calls : Type 0 where
  pub cleared : Tree → Tree
  pub makes_staging : Bool
  pub writes_version : Bool
  pub half_version : Tree → Tree
  pub old_slot : Option Tree → Option Tree
  pub activates : Bool
  pub grub : Grub.Faults
  pub makes_state_dir : Bool
  pub writes_state : Bool
  pub half_state : Option StateFile
  pub reboots : Bool

abbrev pub unpacked : Option Bool → Result Error (Unit {0})
unpacked (some true) = ok tt
unpacked (some false) = err unsafe_entry
unpacked none = err unpack_failed

-- One entry whose path has been looked at.
unfoldable pub unpack_item :
    Tar → Text → Bytes → Result PathError RelPath → Tree → Tree × Result Error (Unit {0})
unpack_item tar path contents (err e) t = (t, err (refused_entry e))
unpack_item tar path contents (ok relative) t =
    let (t', outcome) = tar.unpack_in path contents t in (t', unpacked outcome)

-- The loop of `unpack_safely`, and what goes on after an entry.
unfoldable pub then_items :
    (Tree → Tree × Result Error (Unit {0}))
    → Tree × Result Error (Unit {0})
    → Tree × Result Error (Unit {0})
then_items go (t, ok u) = go t
then_items go (t, err e) = (t, err e)

unfoldable pub unpack_items : Tar → List Item → Tree → Tree × Result Error (Unit {0})
unfolding unpack_item then_items safe_relative
unpack_items tar [] t = (t, ok tt)
unpack_items tar (corrupt ∷ items) t = (t, err corrupt_entry)
unpack_items tar (nameless ∷ items) t = (t, err unreadable_path)
unpack_items tar (item path contents ∷ items) t =
    then_items (unpack_items tar items) (unpack_item tar path contents (safe_relative path) t)

unfoldable pub unpack_archive : Tar → Option (List Item) → Tree → Tree × Result Error (Unit {0})
unfolding unpack_items
unpack_archive tar none t = (t, err unreadable_archive)
unpack_archive tar (some items) t = unpack_items tar items t

abbrev pub name_path : Text → RelPath
name_path name = name ∷ []

-- `is_file`
abbrev pub is_file : Option Node → Bool
is_file (some (file contents)) = true
is_file _ = false

abbrev pub required : List Text
required = text "vmlinuz" ∷ text "initramfs.img" ∷ []

unfoldable pub check_required : List Text → Tree → Result Error (Unit {0})
check_required [] t = ok tt
check_required (name ∷ names) t =
    let rest = check_required names t in
    if is_file (lookup (name_path name) t) then rest else err (missing name)

abbrev with_persist : (Persist → Persist) → Machine → Machine
with_persist f m = record m { persist = f m.persist }

abbrev pub from_grub : Result Grub.Error (Unit {0}) → Result Error (Unit {0})
from_grub (ok u) = ok u
from_grub (err e) = err (bad_bootenv e)

module _ (c : Calls) where
  unfoldable pub clear_staging : Action (Unit {0})
  clear_staging m = (
    record m { staging = c.cleared m.staging },
    if c.makes_staging then ok tt else err dirty_staging,
  )

  unfoldable pub unpack_safely : Tar → Bytes → Action (Unit {0})
  unfolding unpack_archive
  unpack_safely tar bundle m =
      let (t, r) = unpack_archive tar (tar.entries bundle) m.staging in
      (record m { staging = t }, r)

  unfoldable pub check_staged : Action (Unit {0})
  unfolding check_required
  check_staged m = (m, check_required required m.staging)

  unfoldable pub write_version : Text → Action (Unit {0})
  unfolding encode
  write_version version m =
      if c.writes_version
      then (
        record m {
          staging = insert (name_path (text "version")) (file (encode version)) m.staging;
        },
        ok tt,
      )
      else (record m { staging = c.half_version m.staging }, err no_version)

  -- `remove_dir_all(SLOT_B_DIR)`, whose failure is not looked at, and the `rename` onto it.
  unfoldable pub activate : Action (Unit {0})
  activate m =
      if c.activates
      then (record m { slot_b_dir = some m.staging; staging = [] }, ok tt)
      else (record m { slot_b_dir = c.old_slot m.slot_b_dir }, err not_activated)

  unfoldable pub point_grub : Action (Unit {0})
  point_grub m =
      let (disk, r) = Grub.write c.grub (entry_for slot_b) m.persist.bootenv in
      (record m { persist = record m.persist { bootenv = disk } }, from_grub r)

  unfoldable pub write_budget : Action (Unit {0})
  write_budget m =
      if c.writes_state
      then (
        record m {
          persist = record m.persist { state_file = some (tries_left max_boot_attempts) };
        },
        ok tt,
      )
      else (record m { persist = record m.persist { state_file = c.half_state } }, err no_state)

  unfoldable pub finish : Bool → Action (Unit {0})
  finish reboot = if reboot then require c.reboots no_reboot else require true no_reboot

  -- `apply`, once the staging directory is complete.
  unfoldable pub activate_and_point : Bool → Action (Unit {0})
  activate_and_point reboot = do
    activate
    point_grub
    require c.makes_state_dir no_state_dir
    write_budget
    finish reboot

  -- `apply`, once the bundle is there.
  unfoldable pub install_bundle : Tar → Bool → PackageManifest × Bytes → Action (Unit {0})
  install_bundle tar reboot x = do
    clear_staging
    unpack_safely tar x.1
    check_staged
    write_version x.0.version
    activate_and_point reboot

  unfoldable pub apply : Crypto → Source → Tar → Bool → Action (Unit {0})
  apply crypto source tar reboot = do
    x ← lift (fetch_bundle crypto source)
    install_bundle tar reboot x
