-- ===== src/Init/Rollback.antt =====
-- vakt-init/src/update.rs: the boot budget of a staged slot B, and the way back to slot A. The state
-- file is seen as what serde_json makes of it. What is only printed is left out.
pub mod Budget
pub mod Return
use vakt_os.Base.{
  ℕ, zero, suc, Bool, true, false, not, ◌&&◌, List, [], ◌∷◌, Option, none, some, Text, Eq, text_eq,
  ◌==◌, if◌then◌else◌, text, trim,
}
use vakt_os.Grub

-- `UpdateState`, or a file that does not parse as one.
pub data StateFile : Type 0 where
  tries_left : ℕ → StateFile
  damaged : StateFile

pub data Outcome : Type 0 where
  not_applicable : Outcome
  decrement : ℕ → Outcome
  roll_back : Outcome

abbrev pub slot_a : Text
slot_a = text "A"

abbrev pub slot_b : Text
slot_b = text "B"

-- The match of `next`.
pub budget : Option ℕ → Outcome
budget none = not_applicable
budget (some zero) = roll_back
budget (some (suc n)) = decrement n

unfoldable pub next : Text → Option ℕ → Outcome
unfolding budget
next slot tries = if not (slot == slot_b) then not_applicable else budget tries

abbrev non_empty_or_a : Text → Text
non_empty_or_a [] = slot_a
non_empty_or_a (c ∷ cs) = c ∷ cs

-- `current_slot_from`, with what reading the slot file gives.
unfoldable pub current_slot : Option Text → Text
unfolding trim
current_slot none = slot_a
current_slot (some contents) = non_empty_or_a (trim contents)

-- The two files on the data disk.
pub record Persist : Type 0 where
  pub bootenv : Grub.Disk
  pub state_file : Option StateFile

-- Which writes fail, and what a failed write of the state file leaves of it.
pub record Faults : Type 0 where
  pub grub : Grub.Faults
  pub save_fails : Bool
  pub half_saved : Option StateFile
  pub remove_fails : Bool

unfoldable pub load_tries_left : Option StateFile → Option ℕ
load_tries_left (some (tries_left n)) = some n
load_tries_left _ = none

unfoldable pub save_tries_left : Faults → ℕ → Persist → Persist
save_tries_left f n p = record p {
  state_file = if f.save_fails then f.half_saved else some (tries_left n);
}

unfoldable pub remove_state : Faults → Persist → Persist
remove_state f p = record p { state_file = if f.remove_fails then p.state_file else none }

pub data After : Type 0 where
  boots reboots : After

abbrev pub entry_for : Text → List (Text × Text)
entry_for slot = (text "vakt_active", slot) ∷ []

-- The match of `check_and_handle`. An error of `envblock::write` is printed, and the rest goes on.
unfoldable pub handle : Faults → Outcome → Persist → Persist × After
unfolding save_tries_left remove_state
handle f not_applicable p = (p, boots)
handle f (decrement remaining) p = (save_tries_left f remaining p, boots)
handle f roll_back p = (
  remove_state f (record p { bootenv = (Grub.write f.grub (entry_for slot_a) p.bootenv).0 }),
  reboots,
)

unfoldable pub check_and_handle : Faults → Bool → Option Text → Persist → Persist × After
unfolding handle next load_tries_left
check_and_handle f mounted slot_file p =
    if not mounted
    then (p, boots)
    else handle f (next (current_slot slot_file) (load_tries_left p.state_file)) p

abbrev exists : Option StateFile → Bool
exists none = false
exists (some _) = true

unfoldable pub confirm : Faults → Option Text → Persist → Persist
unfolding remove_state
confirm f slot_file p =
    if current_slot slot_file == slot_b && exists p.state_file then remove_state f p else p
