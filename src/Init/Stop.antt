-- ===== src/Init/Stop.antt =====
-- vakt-init/src/services.rs, `stop_all` and the end of `run`. The signals that are sent and the waits are
-- recorded; what `try_wait` answers before the deadline is a list of passes over the services, and `removes` is
-- whether the kernel removes the PID file of a name.
pub mod Calls
pub mod Laws
use vakt_os.Base.{
  ℕ, Bool, true, false, ◌&&◌, List, [], ◌∷◌, ◌++◌, Option, none, some, Text, Eq, text_eq, Map,
  delete, if◌then◌else◌, text,
}
use vakt_os.Init.Control
use vakt_os.Init.Control.{Shared}
use vakt_os.Init.Supervisor.{
  State, stopped, Managed, Run, Poll, alive, gone, wait_failed, clear_pid_file,
}

-- What the supervisor asks of the kernel about a child.
pub data Call : Type 0 where
  sigterm sigkill wait : (pid : ℕ) → Call

module _ (removes : Text → Bool) where
  -- `clear_pid_file`
  abbrev pub cleared : Text → Map Text ℕ → Map Text ℕ
  cleared name files = clear_pid_file (removes name) name files

  -- The loop body of `collect_stopped` on a service with a child; the flag says that it is gone.
  pub collect_child : Poll → Managed → Map Text ℕ → Managed × Map Text ℕ × Bool
  collect_child alive m files = (m, files, false)
  collect_child (gone status) m files = (
    record m { child = none; state = stopped; detail = text "stopped for shutdown" },
    cleared m.spec.name files,
    true,
  )
  collect_child (wait_failed e) m files = (
    record m { child = none; state = stopped; detail = text "stopped for shutdown" },
    cleared m.spec.name files,
    true,
  )

  pub collect_one : Poll → Option ℕ → Managed → Map Text ℕ → Managed × Map Text ℕ × Bool
  unfolding collect_child
  collect_one p none m files = (m, files, true)
  collect_one p (some pid) m files = collect_child p m files

  unfoldable pub collect_stopped :
      (Text → Poll) → List Managed → Map Text ℕ → List Managed × Map Text ℕ × Bool
  unfolding collect_one
  collect_stopped polls [] files = ([], files, true)
  collect_stopped polls (m ∷ ms) files =
      let (m', files', one) = collect_one (polls m.spec.name) m.child m files in
      let (ms', files'', rest) = collect_stopped polls ms files' in (m' ∷ ms', files'', one && rest)

  -- The passes until all are gone or the grace period is over.
  unfoldable pub wait_down :
      List (Text → Poll) → List Managed → Map Text ℕ → List Managed × Map Text ℕ
  unfolding collect_stopped
  wait_down [] ms files = (ms, files)
  wait_down (polls ∷ later) ms files =
      let (ms', files', all_gone) = collect_stopped polls ms files in
      let rest = wait_down later ms' files' in if all_gone then (ms', files') else rest

  -- The body of the last loop of `stop_all`.
  pub kill_one : Option ℕ → Managed → Map Text ℕ → Managed × Map Text ℕ × List Call
  kill_one none m files = (m, files, [])
  kill_one (some pid) m files = (
    record m { child = none; state = stopped; detail = text "killed after refusing to stop" },
    cleared m.spec.name files,
    sigkill pid ∷ wait pid ∷ [],
  )

  unfoldable pub kill_rest : List Managed → Map Text ℕ → List Managed × Map Text ℕ × List Call
  unfolding kill_one
  kill_rest [] files = ([], files, [])
  kill_rest (m ∷ ms) files =
      let (m', files', calls) = kill_one m.child m files in
      let (ms', files'', later) = kill_rest ms files' in (m' ∷ ms', files'', calls ++ later)

-- The services that have a child.
abbrev pub if_child : Option ℕ → Text → List Text → List Text
if_child none name names = names
if_child (some pid) name names = name ∷ names

abbrev pub live : List Managed → List Text
live [] = []
live (m ∷ ms) = if_child m.child m.spec.name (live ms)

-- The loop that sends SIGTERM.
abbrev pub terminate_one : Option ℕ → List Call
terminate_one none = []
terminate_one (some pid) = sigterm pid ∷ []

abbrev pub terminate : List Managed → List Call
terminate [] = []
terminate (m ∷ ms) = terminate_one m.child ++ terminate ms

pub record Down : Type 0 where
  pub services : List Managed
  pub pid_files : Map Text ℕ
  pub calls : List Call

module _ (removes : Text → Bool) where
  pub stop_live : List (Text → Poll) → List Text → List Managed → Map Text ℕ → Down
  unfolding wait_down kill_rest
  stop_live passes [] ms files = record { services = ms; pid_files = files; calls = [] }
  stop_live passes (name ∷ names) ms files =
      let (ms', files') = wait_down removes passes ms files in
      let (ms'', files'', calls) = kill_rest removes ms' files' in
      record { services = ms''; pid_files = files''; calls = terminate ms ++ calls }

  unfoldable pub stop_all : List (Text → Poll) → List Managed → Map Text ℕ → Down
  unfolding stop_live
  stop_all passes ms files = stop_live passes (live ms) ms files
