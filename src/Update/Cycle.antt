-- ===== src/Update/Cycle.antt =====
-- The life of an appliance over its updates, boots and confirmations: `apply` of vakt-update/src/main.rs with
-- `check_and_handle` and `confirm` of vakt-init/src/update.rs, on one disk. GRUB boots the slot that its block names.
pub mod Refines
use vakt_os.Base.{
  ℕ, zero, suc, ◌≡◌, ◌⊎◌, Bool, true, false, ◌&&◌, List, [], ◌∷◌, Option, none, some, Text, text,
  text_eq, Bytes, Map, lookup, Result, ok, err, ◌==◌, if◌then◌else◌,
}
use vakt_os.Grub
use vakt_os.Pkg.Fetch.{Crypto}
use vakt_os.Init.Rollback.{
  Persist, Faults, After, boots, reboots, check_and_handle, confirm, slot_a, slot_b, tries_left,
}
use vakt_os.Update.Action.{Machine, Tree}
use vakt_os.Update.Bundle.{Source}
use vakt_os.Pkg.Paths.{path_eq}
use vakt_os.Update.Apply.{Calls, Tar, apply, is_file, name_path, max_boot_attempts}

abbrev value_or_a : Option Text → Text
value_or_a none = slot_a
value_or_a (some v) = v

abbrev active_of : Result Grub.Error (Map Text Text) → Text
active_of (ok entries) = value_or_a (lookup (text "vakt_active") entries)
active_of (err e) = slot_a

-- What `check` shows as the active slot.
unfoldable pub active_slot : Option Bytes → Text
active_slot target = active_of (Grub.read target)

pub data Slot : Type 0 where
  a b : Slot

-- What /etc/vakt-slot holds in the image of the slot.
abbrev pub name : Slot → Text
name a = slot_a
name b = slot_b

abbrev has_kernel : Option Tree → Bool
has_kernel none = false
has_kernel (some t) = is_file (lookup (name_path (text "vmlinuz")) t)

-- GRUB's choice: slot B only if the block says so and its kernel is there.
unfoldable pub chosen : Machine → Slot
chosen m =
    if active_slot m.persist.bootenv.target == slot_b && has_kernel m.slot_b_dir then b else a

-- The disk, and the slot that is up, if one is.
pub record System : Type 0 where
  pub machine : Machine
  pub running : Option Slot

pub data Event : Type 0 where
  update boot confirmation : Event

abbrev running_after : After → Slot → Option Slot
running_after boots slot = some slot
running_after reboots slot = none

module _ (f : Faults) where
  unfoldable pub booted : System → System
  booted s =
      let slot = chosen s.machine in
      let (p, after) = check_and_handle f true (some (name slot)) s.machine.persist in
      record { machine = record s.machine { persist = p }; running = running_after after slot }

  abbrev confirm_running : Option Slot → Persist → Persist
  confirm_running none p = p
  confirm_running (some slot) p = confirm f (some (name slot)) p

  unfoldable pub confirmed : System → System
  confirmed s = record s {
    machine = record s.machine { persist = confirm_running s.running s.machine.persist };
  }

  -- One event. An update is a run of `apply` that succeeds, whatever it downloads.
  pub data Step : System → Event → System → Type 0 where
    updates :
        {s : System} (crypto : Crypto) (source : Source) (c : Calls) (tar : Tar) (reboot : Bool)
        (after : Machine)
        → apply c crypto source tar reboot s.machine ≡ (after, ok tt)
        → Step s update (record s { machine = after })
    boots_up : {s : System} → Step s boot (booted s)
    confirms : {s : System} → Step s confirmation (confirmed s)

  pub data Steps : System → List Event → System → Type 0 where
    stop : {s : System} → Steps s [] s
    step :
        {s s' s'' : System} {e : Event} {events : List Event}
        → Step s e s'
        → Steps s' events s''
        → Steps s (e ∷ events) s''

-- What the updates mean: stay on A, try B with so many more attempts, or keep B.
pub data Plan : Type 0 where
  stay_on_a : Plan
  try_b : ℕ → Plan
  keep_b : Plan

pub record Intent : Type 0 where
  pub plan : Plan
  pub running : Option Slot

abbrev pub slot_of : Plan → Slot
slot_of stay_on_a = a
slot_of (try_b n) = b
slot_of keep_b = b

abbrev pub boot_plan : Plan → Intent
boot_plan stay_on_a = record { plan = stay_on_a; running = some a }
boot_plan (try_b zero) = record { plan = stay_on_a; running = none }
boot_plan (try_b (suc n)) = record { plan = try_b n; running = some b }
boot_plan keep_b = record { plan = keep_b; running = some b }

abbrev pub confirm_plan : Bool → Plan → Plan
confirm_plan true (try_b n) = keep_b
confirm_plan _ p = p

abbrev pub is_b : Option Slot → Bool
is_b (some b) = true
is_b _ = false

abbrev pub then_plan : Event → Intent → Intent
then_plan update i = record i { plan = try_b max_boot_attempts }
then_plan boot i = boot_plan i.plan
then_plan confirmation i = record i { plan = confirm_plan (is_b i.running) i.plan }

abbrev pub plan_after : List Event → Intent → Intent
plan_after [] i = i
plan_after (e ∷ events) i = plan_after events (then_plan e i)

-- The budget that a plan keeps on the disk. On slot A nobody reads it.
abbrev pub Budgeted : Plan → Persist → Type 0
Budgeted stay_on_a p = Unit
Budgeted (try_b n) p = p.state_file ≡ some (tries_left n)
Budgeted keep_b p = p.state_file ≡ none

-- A disk shows a plan: GRUB chooses its slot, and the state file has its budget.
pub record Shows (s : System) (i : Intent) : Type 0 where
  pub next_slot : chosen s.machine ≡ slot_of i.plan
  pub budget : Budgeted i.plan s.machine.persist
  pub running : s.running ≡ i.running
