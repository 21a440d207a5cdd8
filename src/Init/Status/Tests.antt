-- ===== src/Init/Status/Tests.antt =====
-- Runs of the status file.
use vakt_os.Base.{◌≡◌, ◌⊎◌, refl, true, [], ◌∷◌, none, some, Text, text, lines, show, nat_eq}
use vakt_os.Init.Control
use vakt_os.Init.Control.{Service, Shared}
use vakt_os.Init.Supervisor.{running, Managed}
use vakt_os.Init.Status.{Writes, Files, status_body, write_status}
use vakt_os.Init.Status.Lines.{AllShown, lines_of, write_status-lines}

abbrev net : Managed
net = record {
  spec = record {
    name = text "net";
    program = [];
    args = [];
    respawn = true;
    notifies = true;
    description = text "network";
  };
  child = some 7;
  state = running;
  restarts = 1;
  window_start = 0;
  detail = [];
}

abbrev shared : Shared
shared = record {
  phase = none;
  expected = [];
  awaiting = [];
  pids = [];
  ready = text "net" ∷ [];
  status = [];
  revision = 0;
}

test_body : status_body shared (net ∷ []) ≡ text "net\trunning\t7\t1\tready\tnetwork\n"
unfolding status_body show
test_body = refl

abbrev works : Writes
works = record { creates = true; writes = true; renames = true }

abbrev files : Files
files = record { status = none; temporary = none }

net-AllShown : AllShown shared (net ∷ [])
unfolding Control.snapshot
net-AllShown = (record { name = refl; detail = refl; ends = refl }, tt)

write_status-lines_example :
    ((write_status works shared (net ∷ []) files).status ≡ none)
    ⊎ ((body : Text) × ((write_status works shared (net ∷ []) files).status ≡ some body)
        × (lines body ≡ lines_of shared (net ∷ [])))
write_status-lines_example = write_status-lines works shared (net ∷ []) files net-AllShown
