-- ===== src/Init/Tests.antt =====
-- Runs of the supervisor and of the boot budget.
use vakt_os.Base.{
  ℕ, suc, ◌-◌, ◌≡◌, ◌<◌, ◌↔◌, refl, true, false, List, [], ◌∷◌, ◌++◌, Option, none, some, Text,
  text, text_eq, nat_eq, contains, ok, err, All, arith, Bytes, encode, ◌==◌,
}
use vakt_os.Grub
use vakt_os.Init.Control
use vakt_os.Init.Control.{Service, Shared}
use vakt_os.Init.Control.Ready.{
  Noted, note_ready_known, Believed, note_ready_unknown, EndsIn, wait_until_ready_iff,
}
use vakt_os.Init.Supervisor.{
  running, Managed, Run, Spawn, spawned, spawn_failed, alive, gone, Answer,
}
use vakt_os.Init.Supervisor.Restart.{IsSound}
use vakt_os.Init.Supervision.{System, launch, Turn, Reaches, Removed, IsDistinct}
use vakt_os.Init.Supervision.Launch.{Reaches-IsSupervised}
use vakt_os.Init.Stop.{sigterm, sigkill, wait, Down, stop_all}
use vakt_os.Init.Stop.Calls.{asked, killed}
use vakt_os.Init.Stop.Laws.{IsDown, stop_all-IsDown}
use vakt_os.Init.CrashLoop.{passes, IsUp, Crashes, Starts, IsGivenUp, passes-IsUp, passes-IsGivenUp}
use vakt_os.Init.Rollback.{
  tries_left, Persist, Faults, boots, reboots, check_and_handle, current_slot, entry_for, slot_a,
  confirm,
}
use vakt_os.Init.Rollback.Budget.{unconfirmed, budget_spent}
use vakt_os.Init.Rollback.Return.{GoesOn, confirm-GoesOn, rolled_back, failed_rollback-GoesOn}

abbrev net : Service
net = record {
  name = text "net";
  program = text "vakt-net";
  args = [];
  respawn = true;
  notifies = true;
  description = text "network";
}

abbrev ids : Service
ids = record {
  name = text "ids";
  program = text "vakt-ids";
  args = [];
  respawn = false;
  notifies = true;
  description = text "integrity";
}

abbrev specs : List Service
specs = net ∷ ids ∷ []

specs-IsDistinct : IsDistinct specs
specs-IsDistinct = ((refl, tt), (tt, tt))

-- The network starts, the monitor does not.
abbrev spawns : Text → Spawn
spawns n = elim (text "net" == n) [ true ↦ spawned 10 true | false ↦ spawn_failed (text "missing") ]

-- Every child has exited.
abbrev all_exit : Text → Answer
all_exit n = record { poll = gone (text "1"); spawn = spawned 11 true; now = 5; pid_removed = true }

abbrev booted : System
booted = launch spawns 0 specs

-- Named, so that what it holds is not unfolded in the run below.
reaped : (s : System) × Reaches booted s
reaped = (_, Reaches.next Reaches.here (Turn.reaps all_exit))

Reaches-IsSupervised_example :
    All (λ m. IsSound (Removed m.spec.name reaped.1) m reaped.0.run) reaped.0.services
Reaches-IsSupervised_example =
    Reaches-IsSupervised spawns 0 specs reaped.0 specs-IsDistinct reaped.1

abbrev up : Managed
up = record {
  spec = net;
  child = some 10;
  state = running;
  restarts = 0;
  window_start = 0;
  detail = [];
}

abbrev shared : Shared
shared = record {
  phase = some Control.running;
  expected = text "net" ∷ [];
  awaiting = text "net" ∷ [];
  pids = (10, text "net") ∷ [];
  ready = [];
  status = [];
  revision = 0;
}

abbrev run : Run
run = record { shared = shared; pid_files = (text "net", 10) ∷ [] }

abbrev crash : Answer
crash = record { poll = gone (text "1"); spawn = spawned 11 true; now = 7; pid_removed = true }

crash-Crashes : Crashes 0 crash
crash-Crashes = record { status = text "1"; exits = refl; soon = omega arith }

crash-Starts : Starts crash
crash-Starts = record { pid = 11; pid_written = true; starts = refl }

up-IsUp : IsUp 0 0 up
up-IsUp = record { pid = 10; child = refl; respawn = refl; window = refl; restarts = refl }

passes-IsUp_example : IsUp 0 2 (passes (crash ∷ crash ∷ []) up run).0
passes-IsUp_example =
    passes-IsUp 0 0 (crash ∷ crash ∷ []) up run up-IsUp (crash-Crashes, (crash-Crashes, tt))
      (crash-Starts, (crash-Starts, tt)) (omega arith)

abbrev six_crashes : List Answer
six_crashes = crash ∷ crash ∷ crash ∷ crash ∷ crash ∷ crash ∷ []

six_crash : All (Crashes 0) six_crashes
six_crash = (
  crash-Crashes,
  (crash-Crashes, (crash-Crashes, (crash-Crashes, (crash-Crashes, (crash-Crashes, tt))))),
)

passes-IsGivenUp_example : IsGivenUp (passes six_crashes up run).0
passes-IsGivenUp_example =
    passes-IsGivenUp 0 0 six_crashes up run up-IsUp six_crash (omega arith) (omega arith)

-- Nothing is gone before the deadline, and every PID file can be removed.
abbrev stopped_down : Down
stopped_down = stop_all (λ n. true) ((λ n. alive) ∷ []) (up ∷ []) run.pid_files

stop_all-IsDown_example :
    All (IsDown (λ n. true) stopped_down.pid_files) stopped_down.services
    × (stopped_down.calls ≡ asked (up ∷ []) ++ killed ((λ n. alive) ∷ []) (up ∷ []))
stop_all-IsDown_example =
    stop_all-IsDown (λ n. true) ((λ n. alive) ∷ []) (up ∷ []) run.pid_files ((λ r h. cc), tt)

test_killed :
    asked (up ∷ []) ++ killed ((λ n. alive) ∷ []) (up ∷ []) ≡ sigterm 10 ∷ sigkill 10 ∷ wait 10 ∷ []
test_killed = refl

note_ready_known_example :
    ((Control.note_ready (some 10) (some (text "ids")) none shared).1 ≡ some (text "net"))
    × Noted (text "net") shared (Control.note_ready (some 10) (some (text "ids")) none shared).0
note_ready_known_example = note_ready_known 10 (text "net") (some (text "ids")) none shared refl

note_ready_unknown_example :
    Believed
      (some (text "ids"))
      shared
      (Control.note_ready (some 99) (some (text "ids")) none shared)
    × Believed (some (text "ids")) shared (Control.note_ready none (some (text "ids")) none shared)
note_ready_unknown_example = note_ready_unknown 99 (some (text "ids")) none shared refl

abbrev reported : Shared
reported = record shared { awaiting = []; ready = text "net" ∷ [] }

test_ready :
    EndsIn shared (reported ∷ []) (Control.wait_until_ready shared (reported ∷ [])).0
    × (((Control.wait_until_ready shared (reported ∷ [])).1 ≡ true) ↔ (
        (n : Text)
        → contains (Control.wait_until_ready shared (reported ∷ [])).0.expected n ≡ true
        → contains (Control.wait_until_ready shared (reported ∷ [])).0.ready n ≡ true))
test_ready = wait_until_ready_iff shared (reported ∷ [])

abbrev works : Faults
works = record {
  grub = record { fails = λ c. false; torn = λ b. b };
  save_fails = false;
  half_saved = none;
  remove_fails = false;
}

-- The directory of GRUB's block cannot be made.
abbrev read_only : Faults
read_only = record works { grub = record { fails = λ c. true; torn = λ b. b } }

abbrev slot_file : Option Text
slot_file = some (text "B\n")

abbrev staged : ℕ → Persist
staged n = record {
  bootenv = record { target = none; temporary = none };
  state_file = some (tries_left n);
}

test_slot : current_slot slot_file ≡ text "B"
unfolding current_slot
test_slot = refl

budget_spent_example :
    ((n : ℕ)
      → n < 3
      → check_and_handle works true slot_file (unconfirmed works slot_file n (staged 3))
        ≡ (record (staged 3) { state_file = some (tries_left (3 - suc n)) }, boots))
    × ((check_and_handle works true slot_file (unconfirmed works slot_file 3 (staged 3))).1
        ≡ reboots)
budget_spent_example = budget_spent works slot_file 3 (staged 3) test_slot refl refl

test_confirm : GoesOn works slot_file (confirm works slot_file (staged 2))
test_confirm = confirm-GoesOn works slot_file slot_file (staged 2) test_slot refl

rolled_back_example :
    ((bytes : Bytes) × ((check_and_handle works true slot_file (staged 0)).0.bootenv.target
        ≡ some bytes)
      × (Grub.parse bytes ≡ ok (entry_for slot_a)))
    × GoesOn works none (check_and_handle works true slot_file (staged 0)).0
rolled_back_example = rolled_back works slot_file (staged 0) test_slot refl refl none (λ c. refl)

test_read_only : (Grub.write read_only.grub (entry_for slot_a) (staged 0).bootenv).1 ≡ err Grub.io
unfolding Grub.write Grub.store Grub.block encode
test_read_only = refl

failed_rollback-GoesOn_example :
    ((check_and_handle read_only true slot_file (staged 0)).0.bootenv.target ≡ none)
    × GoesOn read_only slot_file (check_and_handle read_only true slot_file (staged 0)).0
failed_rollback-GoesOn_example =
    failed_rollback-GoesOn read_only slot_file (staged 0) test_slot refl refl Grub.io test_read_only
