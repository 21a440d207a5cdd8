-- ===== src/Update/Cycle/Refines.antt =====
-- The appliance does what its updates, boots and confirmations mean.
use vakt_os.Base.{
  ℕ, zero, suc, ◌≡◌, refl, sym, ◌∙◌, subst, Bool, true, false, List, Option, none, some,
  Option-cases, inl, inr, Text, text_eq, nat_eq, Bytes, ok,
}
use vakt_os.Grub
use vakt_os.Init.Rollback.{
  Persist, Faults, reboots, check_and_handle, current_slot, confirm, slot_a, slot_b, tries_left,
  entry_for,
}
use vakt_os.Init.Rollback.Return.{rolled_back}
use vakt_os.Pkg.Paths.{path_eq}
use vakt_os.Pkg.Fetch.{Crypto}
use vakt_os.Update.Action.{Machine, Ensures}
use vakt_os.Update.Bundle.{Source}
use vakt_os.Update.Apply.{Calls, Tar, apply}
use vakt_os.Update.Staged.{IsStaged, Leaves}
use vakt_os.Update.Staged.Whole.{apply-Ensures}
use vakt_os.Update.Cycle.{
  active_slot, Slot, a, b, name, chosen, System, Event, update, booted, confirmed, Step, updates,
  boots_up, confirms, Steps, stop, step, Plan, stay_on_a, try_b, keep_b, Intent, slot_of, boot_plan,
  confirm_plan, is_b, then_plan, plan_after, Budgeted, Shows,
}

-- A block that sets only `vakt_active` names that slot.
active_slot-stored :
    (slot : Text) (target : Option Bytes) (bytes : Bytes)
    → target ≡ some bytes
    → Grub.parse bytes ≡ ok (entry_for slot)
    → active_slot target ≡ slot
unfolding active_slot
active_slot-stored slot target bytes h k = simp (h, k)

staged-chosen :
    (crypto : Crypto) (source : Source) (c : Calls) (tar : Tar) (before m : Machine)
    → IsStaged crypto source c tar before m
    → chosen m ≡ b
unfolding chosen
staged-chosen crypto source c tar before m h = simp (
  active_slot-stored slot_b m.persist.bootenv.target h.pointed.bytes h.pointed.stored
      h.pointed.names_b,
  h.activated.slot,
  h.activated.image.complete.kernel,
)

module _ (f : Faults) (saves : f.save_fails ≡ false) (removes : f.remove_fails ≡ false)
    (works : (c : Grub.Call) → f.grub.fails c ≡ false) where
  update-Shows :
      (s : System) (i : Intent) (crypto : Crypto) (source : Source) (c : Calls) (tar : Tar)
      (reboot : Bool) (after : Machine)
      → Shows s i
      → apply c crypto source tar reboot s.machine ≡ (after, ok tt)
      → Shows (record s { machine = after }) (then_plan update i)
  update-Shows s i crypto source c tar reboot after h e =
      let staged : IsStaged crypto source c tar s.machine after =
        subst
          (Ensures (λ _ m. IsStaged crypto source c tar s.machine m)
            (Leaves crypto source c tar s.machine))
          {x = apply c crypto source tar reboot s.machine} {y = (after, ok tt)} e
          (apply-Ensures crypto source c tar reboot s.machine) in
      record {
        next_slot = staged-chosen crypto source c tar s.machine after staged;
        budget = staged.budget;
        running = h.running;
      }

  booted_a : (s : System) → chosen s.machine ≡ a → booted f s ≡ record s { running = some a }
  unfolding booted check_and_handle current_slot
  booted_a s h = simp h

  booted_kept :
      (s : System)
      → chosen s.machine ≡ b
      → s.machine.persist.state_file ≡ none
      → booted f s ≡ record s { running = some b }
  unfolding booted check_and_handle current_slot
  booted_kept s h k = simp (h, k)

  booted_try :
      (s : System) (n : ℕ)
      → chosen s.machine ≡ b
      → s.machine.persist.state_file ≡ some (tries_left (suc n))
      → booted f s ≡ record {
        machine = record s.machine {
          persist = record s.machine.persist { state_file = some (tries_left n) };
        };
        running = some b;
      }
  unfolding booted check_and_handle current_slot
  booted_try s n h k = simp (h, k, saves)

  chosen-rolled_back :
      (m : Machine)
      → m.persist.state_file ≡ some (tries_left 0)
      → chosen (record m { persist = (check_and_handle f true (some (name b)) m.persist).0 }) ≡ a
  unfolding chosen
  chosen-rolled_back m spent =
      let ((bytes, stored, named), goes_on) =
        rolled_back f (some (name b)) m.persist (unfold current_slot in refl) spent removes none
          works in
      simp (active_slot-stored slot_a _ bytes stored named)

  rolled_back-reboots :
      (p : Persist)
      → p.state_file ≡ some (tries_left 0)
      → (check_and_handle f true (some (name b)) p).1 ≡ reboots
  unfolding check_and_handle current_slot
  rolled_back-reboots p spent = simp spent

  booted_spent :
      (s : System)
      → chosen s.machine ≡ b
      → s.machine.persist.state_file ≡ some (tries_left 0)
      → Shows (booted f s) (boot_plan (try_b 0))
  unfolding booted
  booted_spent s h spent = record {
    next_slot = rw h (chosen-rolled_back s.machine spent);
    budget = tt;
    running = rw (h, rolled_back-reboots s.machine.persist spent) refl;
  }

  boot_plan-Shows :
      (p : Plan) (s : System)
      → chosen s.machine ≡ slot_of p
      → Budgeted p s.machine.persist
      → Shows (booted f s) (boot_plan p)
  unfolding chosen
  boot_plan-Shows stay_on_a s h k =
      subst (λ s'. Shows s' (boot_plan stay_on_a)) (sym (booted_a s h))
        (record { next_slot = h; budget = tt; running = refl })
  boot_plan-Shows keep_b s h k =
      subst (λ s'. Shows s' (boot_plan keep_b)) (sym (booted_kept s h k))
        (record { next_slot = h; budget = k; running = refl })
  boot_plan-Shows (try_b (suc n)) s h k =
      subst (λ s'. Shows s' (boot_plan (try_b (suc n)))) (sym (booted_try s n h k))
        (record { next_slot = h; budget = refl; running = refl })
  boot_plan-Shows (try_b zero) s h k = booted_spent s h k

  -- A confirmation on slot B leaves no budget, and the block as it is.
  confirmed_b :
      (p : Persist)
      → ((confirm f (some (name b)) p).state_file ≡ none)
        × ((confirm f (some (name b)) p).bootenv ≡ p.bootenv)
  unfolding confirm current_slot
  confirmed_b p = elim (Option-cases p.state_file) [
    | inl missing ↦ (simp missing, simp missing)
    | inr (x, there) ↦ (simp (there, removes), simp there)
  ]

  chosen-confirmed :
      (m : Machine) → chosen (record m { persist = confirm f (some (name b)) m.persist }) ≡ chosen m
  unfolding chosen
  chosen-confirmed m = rw ((confirmed_b m.persist).1) refl

  confirm_b-Shows :
      (p : Plan) (s : System)
      → chosen s.machine ≡ slot_of p
      → Shows
          (record {
            machine = record s.machine { persist = confirm f (some (name b)) s.machine.persist };
            running = some b;
          })
          (record { plan = confirm_plan true p; running = some b })
  confirm_b-Shows stay_on_a s h = record {
    next_slot = chosen-confirmed s.machine ∙ h;
    budget = tt;
    running = refl;
  }
  confirm_b-Shows (try_b n) s h = record {
    next_slot = chosen-confirmed s.machine ∙ h;
    budget = (confirmed_b s.machine.persist).0;
    running = refl;
  }
  confirm_b-Shows keep_b s h = record {
    next_slot = chosen-confirmed s.machine ∙ h;
    budget = (confirmed_b s.machine.persist).0;
    running = refl;
  }

  -- On slot A a confirmation does nothing.
  confirmed_a : (p : Persist) → confirm f (some (name a)) p ≡ p
  unfolding confirm current_slot
  confirmed_a p = refl

  confirm_plan-Shows :
      (running : Option Slot) (s : System) (p : Plan)
      → s.running ≡ running
      → Shows s (record { plan = p; running = running })
      → Shows (confirmed f s) (record { plan = confirm_plan (is_b running) p; running = running })
  unfolding confirmed
  confirm_plan-Shows none s p r h =
      rw r (record { next_slot = h.next_slot; budget = h.budget; running = refl })
  confirm_plan-Shows (some a) s p r h =
      rw (r, confirmed_a s.machine.persist)
        (record { next_slot = h.next_slot; budget = h.budget; running = refl })
  confirm_plan-Shows (some b) s p r h = rw r (confirm_b-Shows p s h.next_slot)

  Step-Shows :
      {s s' : System} {e : Event} (i : Intent)
      → Step f s e s'
      → Shows s i
      → Shows s' (then_plan e i)
  Step-Shows i (updates {s = s} crypto source c tar reboot after e) h =
      update-Shows s i crypto source c tar reboot after h e
  Step-Shows i (boots_up {s = s}) h = boot_plan-Shows i.plan s h.next_slot h.budget
  Step-Shows i (confirms {s = s}) h =
      confirm_plan-Shows i.running s i.plan h.running
        (record { next_slot = h.next_slot; budget = h.budget; running = h.running })

  -- If the writes of PID 1 go through: whatever successful updates, boots and confirmations follow each other, in
  -- whatever order, a disk and a running slot that show a plan go on to show what the plan becomes. An update
  -- makes it "try B, three boots"; a boot runs the slot that the plan names and takes one try, or with none left
  -- falls back to "stay on A" and runs nothing; a confirmation on slot B makes it "keep B".
  pub Steps-Shows :
      {s s' : System} {events : List Event} (i : Intent)
      → Steps f s events s'
      → Shows s i
      → Shows s' (plan_after events i)
  Steps-Shows i stop h = h
  Steps-Shows i (step {e = e} first rest) h =
      Steps-Shows (then_plan e i) rest (Step-Shows i first h)
