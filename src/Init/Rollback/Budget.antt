-- ===== src/Init/Rollback/Budget.antt =====
-- How often slot B is tried, for vakt-init/src/update.rs.
use vakt_os.Base.{
  ℕ, zero, suc, ◌+◌, ◌-◌, ◌<◌, ◌≡◌, refl, ◌∙◌, ap, true, false, Option, some, Text, text_eq, arith,
}
use vakt_os.Init.Rollback
use vakt_os.Init.Rollback.{
  StateFile, tries_left, damaged, Persist, Faults, After, boots, reboots, check_and_handle,
  current_slot, slot_a, slot_b, entry_for, confirm, load_tries_left, next, handle,
}

-- The disk after `n` boots in a row of the same slot, none of which is confirmed.
abbrev pub unconfirmed : Faults → Option Text → ℕ → Persist → Persist
unconfirmed f slot_file zero p = p
unconfirmed f slot_file (suc n) p =
    unconfirmed f slot_file n (check_and_handle f true slot_file p).0

module _ (f : Faults) (slot_file : Option Text) where
  boot_once :
      (n : ℕ) (p : Persist)
      → current_slot slot_file ≡ slot_b
      → f.save_fails ≡ false
      → p.state_file ≡ some (tries_left (suc n))
      → check_and_handle f true slot_file p ≡ (record p { state_file = some (tries_left n) }, boots)
  unfolding check_and_handle
  boot_once n p is_b saves h = simp (is_b, h, saves)

  -- Unconfirmed boots of slot B spend the budget one by one, and change nothing else.
  pub unconfirmed_lem :
      (n k : ℕ) (p : Persist)
      → current_slot slot_file ≡ slot_b
      → f.save_fails ≡ false
      → p.state_file ≡ some (tries_left (n + k))
      → unconfirmed f slot_file n p ≡ record p { state_file = some (tries_left k) }
  unconfirmed_lem zero k p is_b saves h = ground arith
  unconfirmed_lem (suc n) k p is_b saves h =
      let once = boot_once (n + k) p is_b saves (h ∙ ap (λ x. some (tries_left x)) (omega arith)) in
      ap (λ (r : Persist × After). unconfirmed f slot_file n r.0) once
      ∙ unconfirmed_lem n k (record p { state_file = some (tries_left (n + k)) }) is_b saves refl

  pub last_boot :
      (p : Persist)
      → current_slot slot_file ≡ slot_b
      → p.state_file ≡ some (tries_left 0)
      → check_and_handle f true slot_file p ≡ handle f Rollback.roll_back p
  unfolding check_and_handle
  last_boot p is_b h = simp (is_b, h)

  -- If slot B has a budget of k and the state file can be saved, then k unconfirmed boots go on,
  -- of which the n-th leaves a budget of k - n and everything else alone; the boot after them
  -- reboots instead.
  pub budget_spent :
      (k : ℕ) (p : Persist)
      → current_slot slot_file ≡ slot_b
      → f.save_fails ≡ false
      → p.state_file ≡ some (tries_left k)
      → ((n : ℕ)
          → n < k
          → check_and_handle f true slot_file (unconfirmed f slot_file n p)
            ≡ (record p { state_file = some (tries_left (k - suc n)) }, boots))
        × ((check_and_handle f true slot_file (unconfirmed f slot_file k p)).1 ≡ reboots)
  unfolding handle
  budget_spent k p is_b saves h = (
    λ n below.
        let is : p.state_file ≡ some (tries_left (n + suc (k - suc n))) =
          h ∙ ap (λ x. some (tries_left x)) (omega arith) in
        ap (check_and_handle f true slot_file) (unconfirmed_lem n (suc (k - suc n)) p is_b saves is)
        ∙ boot_once (k - suc n) (record p { state_file = some (tries_left (suc (k - suc n))) }) is_b
            saves refl,
    let is : p.state_file ≡ some (tries_left (k + 0)) =
          h ∙ ap (λ x. some (tries_left x)) (omega arith) in
        ap (λ q. (check_and_handle f true slot_file q).1) (unconfirmed_lem k 0 p is_b saves is)
        ∙ ap (λ (r : Persist × After). r.1)
            (last_boot (record p { state_file = some (tries_left 0) }) is_b refl),
  )
