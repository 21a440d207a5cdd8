-- ===== src/Init/Rollback/Return.antt =====
-- The way back to slot A, and when there is none, for vakt-init/src/update.rs.
use vakt_os.Base.{
  ℕ, zero, suc, ◌≡◌, refl, ◌∙◌, ap, inl, inr, true, false, [], Option, none, some, Text, text_eq,
  ◌==◌, Bytes, Result, ok, err, Bool-cases, text, encode, IsScalar-all_ascii,
}
use vakt_os.Grub
use vakt_os.Grub.RoundTrip.{parse-block}
use vakt_os.Grub.Atomic.{write-IsAtomic, write_works}
use vakt_os.Init.Rollback.{
  StateFile, tries_left, Persist, Faults, After, boots, reboots, check_and_handle, current_slot,
  slot_a, slot_b, entry_for, confirm, handle,
}
use vakt_os.Init.Rollback.Budget.{unconfirmed, last_boot}

-- With no state file there is nothing to spend: however often slot B boots, it goes on booting, and
-- the disk stays as it is.
without_budget :
    (f : Faults) (slot_file : Option Text) (p : Persist)
    → p.state_file ≡ none
    → check_and_handle f true slot_file p ≡ (p, boots)
unfolding check_and_handle
without_budget f slot_file p h = elim (Bool-cases (current_slot slot_file == slot_b)) [
  | inl b ↦ simp (h, b)
  | inr a ↦ simp (h, a)
]

unconfirmed-without_budget :
    (f : Faults) (slot_file : Option Text) (n : ℕ) (p : Persist)
    → p.state_file ≡ none
    → unconfirmed f slot_file n p ≡ p
unconfirmed-without_budget f slot_file zero p h = refl
unconfirmed-without_budget f slot_file (suc n) p h =
    ap (λ (r : Persist × After). unconfirmed f slot_file n r.0) (without_budget f slot_file p h)
    ∙ unconfirmed-without_budget f slot_file n p h

abbrev pub GoesOn : Faults → Option Text → Persist → Type 0
GoesOn f slot_file p =
    (n : ℕ) → check_and_handle f true slot_file (unconfirmed f slot_file n p) ≡ (p, boots)

GoesOn-without_budget :
    (f : Faults) (slot_file : Option Text) (p : Persist)
    → p.state_file ≡ none
    → GoesOn f slot_file p
GoesOn-without_budget f slot_file p h n =
    ap (check_and_handle f true slot_file) (unconfirmed-without_budget f slot_file n p h)
    ∙ without_budget f slot_file p h

-- After `confirm` of slot B, whose removal of the state file goes through, no later boot of any slot
-- rolls back: every one of them goes on and leaves the disk alone.
pub confirm-GoesOn :
    (f : Faults) (slot_file later : Option Text) (p : Persist)
    → current_slot slot_file ≡ slot_b
    → f.remove_fails ≡ false
    → GoesOn f later (confirm f slot_file p)
unfolding confirm
confirm-GoesOn f slot_file later p is_b removes =
    GoesOn-without_budget f later (confirm f slot_file p) (gone p.state_file refl)
  where
    gone : (s : Option StateFile) → p.state_file ≡ s → (confirm f slot_file p).state_file ≡ none
    gone none e = simp (is_b, e)
    gone (some x) e = simp (is_b, e, removes)

block_a : Bytes
unfolding Grub.block encode
block_a = elim (Grub.block (entry_for slot_a)) [ ok bytes ↦ bytes | err e ↦ [] ]

block_a_made : Grub.block (entry_for slot_a) ≡ ok block_a
unfolding block_a
block_a_made = refl

module _ (f : Faults) (slot_file : Option Text) (p : Persist)
    (is_b : current_slot slot_file ≡ slot_b) (spent : p.state_file ≡ some (tries_left 0))
    (removes : f.remove_fails ≡ false) where
  rolled_to : check_and_handle f true slot_file p ≡ (
    record { bootenv = (Grub.write f.grub (entry_for slot_a) p.bootenv).0; state_file = none },
    reboots,
  )
  unfolding handle
  rolled_to = last_boot f slot_file p is_b spent ∙ simp removes

  rolled_state : (check_and_handle f true slot_file p).0.state_file ≡ none
  rolled_state = ap (λ (r : Persist × After). r.0.state_file) rolled_to

  rolled_target :
      (check_and_handle f true slot_file p).0.bootenv.target
      ≡ (Grub.write f.grub (entry_for slot_a) p.bootenv).0.target
  rolled_target = ap (λ (r : Persist × After). r.0.bootenv.target) rolled_to

  -- When slot B boots with its budget spent and every write goes through, the roll back leaves a GRUB block in which
  -- `vakt_active` is A and nothing else is set, and no state file, so that every later boot, of
  -- whatever slot, goes on and leaves the disk alone.
  pub rolled_back :
      (later : Option Text)
      → ((c : Grub.Call) → f.grub.fails c ≡ false)
      → ((bytes : Bytes) × ((check_and_handle f true slot_file p).0.bootenv.target ≡ some bytes)
          × (Grub.parse bytes ≡ ok (entry_for slot_a)))
        × GoesOn f later (check_and_handle f true slot_file p).0
  rolled_back later works = (
    (
      block_a,
      rolled_target
          ∙ ap (λ (r : Grub.Disk × Result Grub.Error (Unit {0})). r.0.target)
              (write_works f.grub (entry_for slot_a) block_a p.bootenv works block_a_made),
      parse-block (entry_for slot_a) block_a
          (
            record {
              key_scalar = IsScalar-all_ascii (text "vakt_active") refl;
              value_scalar = IsScalar-all_ascii slot_a refl;
              key_plain = refl;
              value_plain = refl;
            },
            tt,
          )
          block_a_made,
    ),
    GoesOn-without_budget f later _ rolled_state,
  )

  -- When slot B boots with its budget spent and GRUB's block cannot be written, but the state file
  -- can be removed, it is removed all the
  -- same: the block is as it was, and no later boot of slot B, however many there are, rolls back.
  pub failed_rollback-GoesOn :
      (e : Grub.Error)
      → (Grub.write f.grub (entry_for slot_a) p.bootenv).1 ≡ err e
      → ((check_and_handle f true slot_file p).0.bootenv.target ≡ p.bootenv.target)
        × GoesOn f slot_file (check_and_handle f true slot_file p).0
  failed_rollback-GoesOn e fails = (
    rolled_target ∙ rw fails at (write-IsAtomic f.grub (entry_for slot_a) p.bootenv),
    GoesOn-without_budget f slot_file _ rolled_state,
  )
