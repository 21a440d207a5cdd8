-- ===== src/Update/Staged/Whole.antt =====
-- `apply` of vakt-update/src/main.rs as a whole: pointing GRUB at slot B, the budget, and all the steps.
use vakt_os.Base.{
  ◌≡◌, refl, ◌∙◌, ap, Bool, true, false, if◌then◌else◌, Option, some, text_eq, Bytes, Result, ok,
  err, text, IsScalar-all_ascii,
}
use vakt_os.Grub
use vakt_os.Grub.RoundTrip.{parse-block}
use vakt_os.Grub.Atomic.{IsAtomic, write-IsAtomic}
use vakt_os.Pkg.Manifest.{PackageManifest}
use vakt_os.Pkg.Paths.{path_eq}
use vakt_os.Pkg.Fetch.{Crypto}
use vakt_os.Init.Rollback.{StateFile, tries_left, Persist, entry_for, slot_b}
use vakt_os.Base.Actions.{last_require-Ensures}
use vakt_os.Update.Action.{
  Machine, no_state, no_state_dir, no_reboot, Action, lift, require, ◌>>◌, Ensures, >>=-Ensures,
}
use vakt_os.Update.Bundle.{Source, fetch_bundle, IsSigned}
use vakt_os.Update.Apply.{
  max_boot_attempts, Calls, Tar, clear_staging, unpack_safely, check_staged, write_version,
  activate, point_grub, write_budget, finish, install_bundle, apply, from_grub, activate_and_point,
}
use vakt_os.Update.Staged.{
  PointsToB, IsActivated, IsStaged, Leaves, Fetched, Cleared, Unarchived, Checked, Versioned,
  Activated, fetch-Ensures, clear-Ensures, unpack-Ensures, check-Ensures, version-Ensures,
  activate-Ensures,
}

-- A write of the block that names one slot of ASCII letters either goes through, and then the block
-- names that slot and nothing else, or leaves the block as it was.
Written : Grub.Disk → Grub.Disk → Result Grub.Error (Unit {0}) → Type 0
Written before after (ok u) =
    (bytes : Bytes) × (after.target ≡ some bytes) × (Grub.parse bytes ≡ ok (entry_for slot_b))
Written before after (err e) = after.target ≡ before.target

write-Written :
    (f : Grub.Faults) (d : Grub.Disk)
    → Written d (Grub.write f (entry_for slot_b) d).0 (Grub.write f (entry_for slot_b) d).1
unfolding Written
write-Written f d = go (Grub.write f (entry_for slot_b) d).1 (write-IsAtomic f (entry_for slot_b) d)
  where
    go :
        (r : Result Grub.Error (Unit {0}))
        → IsAtomic d.target
            (Grub.write f (entry_for slot_b) d).0.target
            (Grub.block (entry_for slot_b))
            r
        → Written d (Grub.write f (entry_for slot_b) d).0 r
    go (err e) h = h
    go (ok u) (bytes, made, stored) = (
      bytes,
      stored,
      parse-block (entry_for slot_b) bytes
          (
            record {
              key_scalar = IsScalar-all_ascii (text "vakt_active") refl;
              value_scalar = IsScalar-all_ascii slot_b refl;
              key_plain = refl;
              value_plain = refl;
            },
            tt,
          )
          made,
    )

keep-IsActivated :
    {crypto : Crypto} {source : Source} {c : Calls} {tar : Tar} {before : Machine} (m m' : Machine)
    → m'.slot_b_dir ≡ m.slot_b_dir
    → IsActivated crypto source c tar before m
    → IsActivated crypto source c tar before m'
keep-IsActivated m m' same a = record {
  bundle = a.bundle;
  signed = a.signed;
  tree = a.tree;
  slot = same ∙ a.slot;
  image = a.image;
}

keep-PointsToB : (p p' : Persist) → p'.bootenv ≡ p.bootenv → PointsToB p → PointsToB p'
keep-PointsToB p p' same h = record {
  bytes = h.bytes;
  stored = ap (λ b. b.target) same ∙ h.stored;
  names_b = h.names_b;
}

module _ (crypto : Crypto) (source : Source) (c : Calls) (tar : Tar) (before : Machine)
    (x : PackageManifest × Bytes) (signed : IsSigned crypto source x) where
  -- GRUB's block is written, and the state file is still what it was.
  Pointed : Unit {0} → Machine → Type 0
  Pointed u m =
      IsActivated crypto source c tar before m
      × PointsToB m.persist
      × (m.persist.state_file ≡ before.persist.state_file)

  point-Ensures :
      (m : Machine)
      → Activated crypto source c tar before x signed tt m
      → Ensures Pointed (Leaves crypto source c tar before) (point_grub c m)
  unfolding point_grub Pointed Activated Written
  point-Ensures m h =
      go (Grub.write c.grub (entry_for slot_b) m.persist.bootenv).1
        (write-Written c.grub m.persist.bootenv)
    where
      disk : Grub.Disk
      disk = (Grub.write c.grub (entry_for slot_b) m.persist.bootenv).0

      after : Machine
      after = record m { persist = record m.persist { bootenv = disk } }

      go :
          (r : Result Grub.Error (Unit {0}))
          → Written m.persist.bootenv disk r
          → Ensures Pointed (Leaves crypto source c tar before) (after, from_grub r)
      go (ok u) (bytes, stored, names) = (
        keep-IsActivated m after refl h.0,
        record { bytes = bytes; stored = stored; names_b = names },
        ap (λ p. p.state_file) h.1,
      )
      go (err e) same = (
        keep-IsActivated m after refl h.0,
        same ∙ ap (λ p. p.bootenv.target) h.1,
        ap (λ p. p.state_file) h.1,
      )

  state_dir-Ensures :
      (m : Machine)
      → Pointed tt m
      → Ensures Pointed
          (Leaves crypto source c tar before)
          (require c.makes_state_dir no_state_dir m)
  unfolding Pointed
  state_dir-Ensures m h =
      last_require-Ensures Pointed (Leaves crypto source c tar before) m c.makes_state_dir
        no_state_dir (λ _. h) (λ _. h)

  Staged : Unit {0} → Machine → Type 0
  Staged u m = IsStaged crypto source c tar before m

  budget-Ensures :
      (m : Machine)
      → Pointed tt m
      → Ensures Staged (Leaves crypto source c tar before) (write_budget c m)
  unfolding write_budget Pointed Staged
  budget-Ensures m h = go c.writes_state
    where
      saved : Option StateFile → Machine
      saved file = record m { persist = record m.persist { state_file = file } }

      go :
          (b : Bool)
          → Ensures Staged (Leaves crypto source c tar before) (
              if b
              then (saved (some (tries_left max_boot_attempts)), ok tt)
              else (saved c.half_state, err no_state))
      go true = record {
        activated = keep-IsActivated m (saved (some (tries_left max_boot_attempts))) refl h.0;
        pointed =
            keep-PointsToB m.persist (saved (some (tries_left max_boot_attempts))).persist refl h.1;
        budget = refl;
      }
      go false = (
        keep-IsActivated m (saved c.half_state) refl h.0,
        keep-PointsToB m.persist (saved c.half_state).persist refl h.1,
        refl,
      )

  finish-Ensures :
      (reboot : Bool) (m : Machine)
      → Staged tt m
      → Ensures Staged (Leaves crypto source c tar before) (finish c reboot m)
  unfolding finish Staged
  finish-Ensures false m h = h
  finish-Ensures true m h =
      last_require-Ensures Staged (Leaves crypto source c tar before) m c.reboots no_reboot (λ _. h)
        (λ _. h)

  -- The next step, after one that ensures `P`.
  and_then :
      (P : Unit {0} → Machine → Type 0) (step next : Action (Unit {0})) (m : Machine)
      → Ensures P (Leaves crypto source c tar before) (step m)
      → ((m : Machine) → P tt m → Ensures Staged (Leaves crypto source c tar before) (next m))
      → Ensures Staged (Leaves crypto source c tar before) ((step >> next) m)
  and_then P step next m h k =
      >>=-Ensures P Staged (Leaves crypto source c tar before) (step m) (λ _. next) h (λ _. k)

  activate_and_point-Ensures :
      (reboot : Bool) (m : Machine)
      → Versioned crypto source c tar before x tt m
      → Ensures Staged (Leaves crypto source c tar before) (activate_and_point c reboot m)
  unfolding activate_and_point
  activate_and_point-Ensures reboot m h =
      and_then (Activated crypto source c tar before x signed) (activate c) _ m
        (activate-Ensures crypto source c tar before x signed m h)
        (λ m h. and_then Pointed (point_grub c) _ m (point-Ensures m h) (λ m h.
          and_then Pointed (require c.makes_state_dir no_state_dir) _ m (state_dir-Ensures m h)
            (λ m h.
              and_then Staged (write_budget c) (finish c reboot) m (budget-Ensures m h)
                (finish-Ensures reboot))))

  install-Ensures :
      (reboot : Bool) (m : Machine)
      → m ≡ before
      → Ensures Staged (Leaves crypto source c tar before) (install_bundle c tar reboot x m)
  unfolding install_bundle
  install-Ensures reboot m e =
      and_then (Cleared crypto source c tar before) (clear_staging c) _ m
        (clear-Ensures crypto source c tar before m e)
        (λ m h.
          and_then (Unarchived crypto source c tar before x.1) (unpack_safely c tar x.1) _ m
            (unpack-Ensures crypto source c tar before x.1 m h)
            (λ m h.
              and_then (Checked crypto source c tar before x.1) (check_staged c) _ m
                (check-Ensures crypto source c tar before x.1 m h)
                (λ m h.
                  and_then (Versioned crypto source c tar before x) (write_version c x.0.version)
                    (activate_and_point c reboot) m
                    (version-Ensures crypto source c tar before x m h)
                    (activate_and_point-Ensures reboot))))

-- For every way in which the calls of `apply` can fail: when it succeeds, slot B holds an image with a kernel and
-- an initramfs that is exactly what a bundle that the trusted key has signed unpacks to, on what clearing has left
-- of the staging directory, with the version of the repository's manifest in its version file; GRUB's block names slot B and
-- nothing else; and the budget is the full one. When it fails before `rename`, slot B, the block and the budget
-- are what they were; when the `rename` fails, the block and the budget are; when the block is not written, slot B
-- has the image but the block and the budget are what they were; when the state file is not written, slot B has
-- the image and the block names it.
pub apply-Ensures :
    (crypto : Crypto) (source : Source) (c : Calls) (tar : Tar) (reboot : Bool) (before : Machine)
    → Ensures
        (λ _ m. IsStaged crypto source c tar before m)
        (Leaves crypto source c tar before)
        (apply c crypto source tar reboot before)
unfolding apply Fetched Staged
apply-Ensures crypto source c tar reboot before =
    >>=-Ensures (Fetched crypto source c tar before) (λ _ m. IsStaged crypto source c tar before m)
      (Leaves crypto source c tar before) (lift (fetch_bundle crypto source) before)
      (install_bundle c tar reboot) (fetch-Ensures crypto source c tar before)
      (λ x m h. install-Ensures crypto source c tar before x h.0 reboot m h.1)
