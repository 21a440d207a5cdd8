-- ===== src/Update/Staged.antt =====
-- What `apply` of vakt-update/src/main.rs leaves, whether it succeeds or fails.
pub mod Whole
use vakt_os.Base.{
  ℕ, ◌≡◌, ◌≢◌, ◌⊎◌, refl, sym, ◌∙◌, ap, inl, inr, Bool, true, false, List, [], ◌∷◌, Option, none,
  some, Text, Eq, text_eq, Bytes, Map, lookup, insert, lookup-insert, lookup-insert_self, Result,
  ok, err, Result-cases, if◌then◌else◌, text, encode, IsScalar-all_ascii, Bool-cases, arith, ◌==◌,
}
use vakt_os.Grub
use vakt_os.Grub.RoundTrip.{parse-block}
use vakt_os.Grub.Atomic.{IsAtomic, write-IsAtomic}
use vakt_os.Pkg.Manifest.{PackageManifest}
use vakt_os.Pkg.Paths.{RelPath, path_eq, PathError, safe_relative}
use vakt_os.Pkg.Fetch.{Crypto}
use vakt_os.Init.Rollback.{Persist, StateFile, tries_left, entry_for, slot_b}
use vakt_os.Base.Actions.{last_require-Ensures}
use vakt_os.Update.Action.{
  Node, dir, file, Tree, Machine, Error, dirty_staging, unreadable_archive, corrupt_entry,
  unreadable_path, refused_entry, unpack_failed, unsafe_entry, missing, no_version, not_activated,
  bad_bootenv, no_state_dir, no_state, no_reboot, no_key, empty_key, no_manifest, no_staging,
  no_download, unreadable_bundle, bad_signature, is_early, Action, lift, require, bind_result,
  Ensures, >>=-Ensures,
}
use vakt_os.Update.Bundle.{
  Source, fetch_bundle, IsSigned, fetch_bundle-IsSigned, fetch_bundle-is_early, trusted_public_key,
}
use vakt_os.Update.Apply.{
  Calls, Tar, Item, name_path, is_file, required, check_required, unpack_items, unpack_item,
  unpack_archive, clear_staging, unpack_safely, check_staged, write_version, activate, point_grub,
  write_budget, finish, install_bundle, apply, max_boot_attempts, from_grub, unpacked, then_items,
}
use vakt_os.Update.Apply.Early.{EndsEarly, unpack_archive-EndsEarly}

-- What a slot needs to be booted, and the version that it says it is.
pub record IsComplete (version : Text) (t : Tree) : Type 0 where
  pub kernel : is_file (lookup (name_path (text "vmlinuz")) t) ≡ true
  pub initramfs : is_file (lookup (name_path (text "initramfs.img")) t) ≡ true
  pub versioned : lookup (name_path (text "version")) t ≡ some (file (encode version))

-- GRUB's block names slot B and nothing else.
pub record PointsToB (p : Persist) : Type 0 where
  pub bytes : Bytes
  pub stored : p.bootenv.target ≡ some bytes
  pub names_b : Grub.parse bytes ≡ ok (entry_for slot_b)

-- An image is whole, and is what the bundle unpacks to on what clearing has left, with the version of the manifest.
pub record IsImage (c : Calls) (tar : Tar) (before : Machine) (x : PackageManifest × Bytes)
    (t : Tree) : Type 0 where
  pub complete : IsComplete x.0.version t
  pub contents : Tree
  pub unpacks : unpack_archive tar (tar.entries x.1) (c.cleared before.staging) ≡ (contents, ok tt)
  pub is_image : t ≡ insert (name_path (text "version")) (file (encode x.0.version)) contents

-- Slot B holds the image of a signed bundle.
pub record IsActivated (crypto : Crypto) (source : Source) (c : Calls) (tar : Tar)
    (before m : Machine) : Type 0 where
  pub bundle : PackageManifest × Bytes
  pub signed : IsSigned crypto source bundle
  pub tree : Tree
  pub slot : m.slot_b_dir ≡ some tree
  pub image : IsImage c tar before bundle tree

pub record IsStaged (crypto : Crypto) (source : Source) (c : Calls) (tar : Tar) (before m : Machine)
    : Type 0 where
  pub activated : IsActivated crypto source c tar before m
  pub pointed : PointsToB m.persist
  pub budget : m.persist.state_file ≡ some (tries_left max_boot_attempts)

pub record IsUntouched (before m : Machine) : Type 0 where
  pub slot : m.slot_b_dir ≡ before.slot_b_dir
  pub persist : m.persist ≡ before.persist

module _ (crypto : Crypto) (source : Source) (c : Calls) (tar : Tar) (before : Machine) where
  -- How far each error lets `apply` come.
  abbrev pub Leaves : Error → Machine → Type 0
  Leaves not_activated m =
      (m.slot_b_dir ≡ c.old_slot before.slot_b_dir) × (m.persist ≡ before.persist)
  Leaves (bad_bootenv e) m =
      IsActivated crypto source c tar before m
      × (m.persist.bootenv.target ≡ before.persist.bootenv.target)
      × (m.persist.state_file ≡ before.persist.state_file)
  Leaves no_state_dir m =
      IsActivated crypto source c tar before m
      × PointsToB m.persist
      × (m.persist.state_file ≡ before.persist.state_file)
  Leaves no_state m =
      IsActivated crypto source c tar before m
      × PointsToB m.persist
      × (m.persist.state_file ≡ c.half_state)
  Leaves no_reboot m = IsStaged crypto source c tar before m
  Leaves _ m = IsUntouched before m

  untouched-Leaves :
      (e : Error) (m : Machine) → is_early e ≡ true → IsUntouched before m → Leaves e m
  untouched-Leaves not_activated m h u = absurd (cc)
  untouched-Leaves (bad_bootenv e) m h u = absurd (cc)
  untouched-Leaves no_state_dir m h u = absurd (cc)
  untouched-Leaves no_state m h u = absurd (cc)
  untouched-Leaves no_reboot m h u = absurd (cc)
  untouched-Leaves _ m h u = u

  unfoldable pub Fetched : PackageManifest × Bytes → Machine → Type 0
  Fetched x m = IsSigned crypto source x × (m ≡ before)

  pub fetch-Ensures : Ensures Fetched Leaves (lift (fetch_bundle crypto source) before)
  unfolding Fetched
  fetch-Ensures = go (fetch_bundle crypto source) refl
    where
      go :
          (r : Result Error (PackageManifest × Bytes))
          → fetch_bundle crypto source ≡ r
          → Ensures Fetched Leaves (before, r)
      go (ok x) h = (fetch_bundle-IsSigned crypto source x h, refl)
      go (err e) h =
          untouched-Leaves e before (fetch_bundle-is_early crypto source e h)
            (record { slot = refl; persist = refl })

  unfoldable pub Cleared : Unit {0} → Machine → Type 0
  Cleared u m = IsUntouched before m × (m.staging ≡ c.cleared before.staging)

  pub clear-Ensures : (m : Machine) → m ≡ before → Ensures Cleared Leaves (clear_staging c m)
  unfolding clear_staging Cleared
  clear-Ensures m e =
      let u : IsUntouched before m = record {
        slot = ap (λ x. x.slot_b_dir) e;
        persist = ap (λ x. x.persist) e;
      } in
      last_require-Ensures Cleared Leaves (record m { staging = c.cleared m.staging })
        c.makes_staging dirty_staging (λ _. record { slot = u.slot; persist = u.persist })
        (λ _. (record { slot = u.slot; persist = u.persist }, ap (λ x. c.cleared x.staging) e))

  -- The archive has been unpacked on what clearing has left.
  unfoldable pub Unarchived : Bytes → Unit {0} → Machine → Type 0
  Unarchived bundle u m =
      IsUntouched before m
      × (unpack_archive tar (tar.entries bundle) (c.cleared before.staging) ≡ (m.staging, ok tt))

  staging-Ensures :
      (bundle : Bytes) (m : Machine) (r : Tree × Result Error (Unit {0}))
      → IsUntouched before m
      → unpack_archive tar (tar.entries bundle) (c.cleared before.staging) ≡ r
      → EndsEarly r
      → Ensures (Unarchived bundle) Leaves (record m { staging = r.0 }, r.1)
  unfolding Unarchived
  staging-Ensures bundle m (t, ok u) h is k = (record { slot = h.slot; persist = h.persist }, is)
  staging-Ensures bundle m (t, err e) h is k =
      untouched-Leaves e _ k (record { slot = h.slot; persist = h.persist })

  pub unpack-Ensures :
      (bundle : Bytes) (m : Machine)
      → Cleared tt m
      → Ensures (Unarchived bundle) Leaves (unpack_safely c tar bundle m)
  unfolding unpack_safely Cleared
  unpack-Ensures bundle m h =
      staging-Ensures bundle m (unpack_archive tar (tar.entries bundle) m.staging) h.0
        (ap (unpack_archive tar (tar.entries bundle)) (sym h.1))
        (unpack_archive-EndsEarly tar (tar.entries bundle) m.staging)

  -- The kernel and the initramfs are in the staging directory.
  unfoldable pub Checked : Bytes → Unit {0} → Machine → Type 0
  Checked bundle u m =
      Unarchived bundle tt m
      × (is_file (lookup (name_path (text "vmlinuz")) m.staging) ≡ true)
      × (is_file (lookup (name_path (text "initramfs.img")) m.staging) ≡ true)

  pub check-Ensures :
      (bundle : Bytes) (m : Machine)
      → Unarchived bundle tt m
      → Ensures (Checked bundle) Leaves (check_staged c m)
  unfolding check_staged check_required Checked Unarchived
  check-Ensures bundle m u =
      elim (Bool-cases (is_file (lookup (name_path (text "vmlinuz")) m.staging))) [
        | inr a ↦ rw (a, check_staged) u.0
        | inl a ↦
            elim (Bool-cases (is_file (lookup (name_path (text "initramfs.img")) m.staging))) [
              | inr b ↦ rw (a, b, check_staged) u.0
              | inl b ↦ rw (a, b, check_staged) (u, a, b)
            ]
      ]

  unfoldable pub Versioned : PackageManifest × Bytes → Unit {0} → Machine → Type 0
  Versioned x u m = IsUntouched before m × IsImage c tar before x m.staging

  pub version-Ensures :
      (x : PackageManifest × Bytes) (m : Machine)
      → Checked x.1 tt m
      → Ensures (Versioned x) Leaves (write_version c x.0.version m)
  unfolding write_version Checked Unarchived Versioned
  version-Ensures x m h = elim (Bool-cases c.writes_version) [
    | inr fails ↦ rw (fails, write_version) (record { slot = h.0.0.slot; persist = h.0.0.persist })
    | inl works ↦
        rw (works, write_version)
          (
            record { slot = h.0.0.slot; persist = h.0.0.persist },
            record {
              complete = record {
                kernel = ap is_file (lookup-insert _ _ _ m.staging) ∙ h.1;
                initramfs = ap is_file (lookup-insert _ _ _ m.staging) ∙ h.2;
                versioned = lookup-insert_self _ _ m.staging;
              };
              contents = m.staging;
              unpacks = h.0.1;
              is_image = refl;
            },
          )
  ]

  module _ (x : PackageManifest × Bytes) (signed : IsSigned crypto source x) where
    unfoldable pub Activated : Unit {0} → Machine → Type 0
    Activated u m = IsActivated crypto source c tar before m × (m.persist ≡ before.persist)

    pub activate-Ensures :
        (m : Machine) → Versioned x tt m → Ensures Activated Leaves (activate c m)
    unfolding activate Activated Versioned
    activate-Ensures m h = go c.activates
      where
        go :
            (b : Bool)
            → Ensures Activated Leaves (
                if b
                then (record m { slot_b_dir = some m.staging; staging = [] }, ok tt)
                else (record m { slot_b_dir = c.old_slot m.slot_b_dir }, err not_activated))
        go false = (ap c.old_slot h.0.slot, h.0.persist)
        go true = (
          record { bundle = x; signed = signed; tree = m.staging; slot = refl; image = h.1 },
          h.0.persist,
        )
