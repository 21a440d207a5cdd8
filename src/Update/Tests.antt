-- ===== src/Update/Tests.antt =====
-- Runs of an update.
use vakt_os.Base.{◌≡◌, refl, true, false, [], ◌∷◌, ◌++◌, none, some, text, text_eq, ok, err, ◌==◌}
use vakt_os.Grub
use vakt_os.Pkg.Manifest.{PackageManifest}
use vakt_os.Pkg.Fetch.{Crypto, verify_signature}
use vakt_os.Init.Rollback.{Faults}
use vakt_os.Update.Action.{file, Machine, Ensures, no_state}
use vakt_os.Update.Bundle.{Source, fetch_bundle, trusted_public_key}
use vakt_os.Update.Apply.{
  Calls, Tar, item, apply, install_bundle, activate_and_point, clear_staging, unpack_safely,
  check_staged, write_version, activate, point_grub, write_budget, finish,
}
use vakt_os.Update.Staged.{IsStaged, Leaves}
use vakt_os.Update.Staged.Whole.{apply-Ensures}
use vakt_os.Update.Cycle.{
  System, a, b, active_slot, update, boot, confirmation, booted, confirmed, chosen, updates,
  boots_up, confirms, Steps, stop, step, stay_on_a, keep_b, Intent, Shows,
}
use vakt_os.Update.Cycle.Refines.{Steps-Shows}

-- A signature is the bundle and the key, behind each other.
abbrev crypto : Crypto
crypto = record {
  decode_hex = λ t. some t;
  signature_from_slice = λ t. some t;
  key_from_bytes = λ t. some t;
  sha256 = λ t. t;
  verify = λ key hash signature. signature == (hash ++ key);
}

abbrev manifest : PackageManifest
manifest = record {
  name = text "vakt-os";
  version = text "2.0";
  description = [];
  dependencies = [];
  signature = text "imagekey";
}

abbrev source : Source
source = record {
  key_file = some (text " key\n");
  manifest = some manifest;
  makes_private_dir = true;
  downloads = true;
  bundle = some (text "image");
}

abbrev tar : Tar
tar = record {
  entries =
      λ _. some (item (text "vmlinuz") (text "K") ∷ item (text "initramfs.img") (text "I") ∷ []);
  unpack_in = λ path contents t. ((path ∷ [], file contents) ∷ t, some true);
}

abbrev no_faults : Grub.Faults
no_faults = record { fails = λ _. false; torn = λ _. [] }

abbrev calls : Calls
calls = record {
  cleared = λ _. [];
  makes_staging = true;
  writes_version = true;
  half_version = λ t. t;
  old_slot = λ _. none;
  activates = true;
  grub = no_faults;
  makes_state_dir = true;
  writes_state = true;
  half_state = none;
  reboots = true;
}

abbrev before : Machine
before = record {
  slot_b_dir = none;
  staging = [];
  persist = record { bootenv = record { target = none; temporary = none }; state_file = none };
}

after : Machine
unfolding apply fetch_bundle trusted_public_key verify_signature install_bundle clear_staging
    unpack_safely check_staged write_version activate_and_point activate point_grub Grub.write
    write_budget finish
after = (apply calls crypto source tar false before).0

test_apply : apply calls crypto source tar false before ≡ (after, ok tt)
unfolding apply fetch_bundle trusted_public_key verify_signature install_bundle clear_staging
    unpack_safely check_staged write_version activate_and_point activate point_grub Grub.write
    write_budget finish after
test_apply = refl

-- The state file cannot be written: slot B is active all the same.
abbrev full_disk : Calls
full_disk = record calls { writes_state = false }

apply-Ensures_example :
    Ensures
      (λ _ m. IsStaged crypto source full_disk tar before m)
      (Leaves crypto source full_disk tar before)
      (apply full_disk crypto source tar false before)
apply-Ensures_example = apply-Ensures crypto source full_disk tar false before

test_full_disk : (apply full_disk crypto source tar false before).1 ≡ err no_state
unfolding apply fetch_bundle trusted_public_key verify_signature install_bundle clear_staging
    unpack_safely check_staged write_version activate_and_point activate point_grub Grub.write
    write_budget finish
test_full_disk = refl

abbrev faults : Faults
faults = record { grub = no_faults; save_fails = false; half_saved = none; remove_fails = false }

abbrev start : System
start = record { machine = before; running = some a }

abbrev intent : Intent
intent = record { plan = stay_on_a; running = some a }

updated : System
updated = record start { machine = after }

cycle :
    Steps faults start
      (update ∷ boot ∷ confirmation ∷ [])
      (confirmed faults (booted faults updated))
unfolding updated
cycle =
    step (updates crypto source calls tar false after test_apply)
      (step boots_up (step confirms stop))

start-Shows : Shows start intent
unfolding chosen active_slot
start-Shows = record { next_slot = refl; budget = tt; running = refl }

Steps-Shows_example :
    Shows (confirmed faults (booted faults updated)) (record { plan = keep_b; running = some b })
Steps-Shows_example = Steps-Shows faults refl refl (λ _. refl) intent cycle start-Shows
