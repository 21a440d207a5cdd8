-- ===== src/Init/Supervisor.antt =====
-- vakt-init/src/services.rs, `Managed` and `Supervisor`. What the kernel answers is a parameter of
-- each step: whether a program starts, what `try_wait` says of a child, the time in nanoseconds. A
-- child is its pid. The PID files and the status file of the run directory are part of the state;
-- the log pipes, which change nothing of it, are left out.
pub mod Restart
pub mod Pass
use vakt_os.Base.{
  ℕ, zero, suc, ◌+◌, ◌-◌, ◌*◌, ◌^◌, Bool, true, false, not, ◌&&◌, ◌||◌, List, [], ◌∷◌, ◌++◌, map,
  Option, none, some, Text, Eq, text_eq, nat_eq, Map, lookup, insert, delete, if◌then◌else◌, ltb,
  text, show,
}
use vakt_os.Init.Control
use vakt_os.Init.Control.{Service, Shared}

pub data State : Type 0 where
  running exited failed stopped : State

abbrev pub max_restarts : ℕ
max_restarts = 5

-- `CRASH_WINDOW`, 60 seconds.
abbrev pub crash_window : ℕ
crash_window = 60 * 10 ^ 9

pub record Managed : Type 0 where
  pub spec : Service
  pub child : Option ℕ
  pub state : State
  pub restarts : ℕ
  pub window_start : ℕ
  pub detail : Text

-- What one service and the rest of the system look like to the methods of `Managed`.
pub record Run : Type 0 where
  pub shared : Shared
  pub pid_files : Map Text ℕ

-- `cmd.spawn()`: a pid, and whether its PID file could be written; or an error's text.
pub data Spawn : Type 0 where
  spawned : (pid : ℕ) (pid_written : Bool) → Spawn
  spawn_failed : Text → Spawn

-- `child.try_wait()`
pub data Poll : Type 0 where
  alive : Poll
  gone : (status : Text) → Poll
  wait_failed : Text → Poll

abbrev pub run_dir : Text
run_dir = text "/run"

unfoldable pub log_path : Text → Text
log_path name = run_dir ++ (text "/" ++ (name ++ text ".log"))

abbrev written : Bool → Text → ℕ → Map Text ℕ → Map Text ℕ
written true name pid files = insert name pid files
written false name pid files = files

unfoldable pub start : Spawn → Managed → Run → Managed × Run
start (spawned pid pid_written) m r = (
  record m {
    child = some pid;
    state = running;
    detail = text "logging to " ++ log_path m.spec.name;
  },
  record {
    shared = Control.register pid m.spec.name r.shared;
    pid_files = written pid_written m.spec.name pid r.pid_files;
  },
)
start (spawn_failed e) m r = (
  record m { child = none; state = failed; detail = e },
  record r { shared = Control.settle m.spec.name r.shared },
)

-- The start of a new crash-counting window, once the last one is over.
unfoldable pub roll_window : ℕ → Managed → Managed
roll_window now m =
    if ltb crash_window (now - m.window_start)
    then record m { restarts = 0; window_start = now }
    else m

abbrev pub count_restart : Managed → Managed
count_restart m = record m { restarts = m.restarts + 1 }

-- After the counter has been raised: give up, or start again.
unfoldable pub restart : Spawn → Managed → Run → Managed × Run
unfolding start
restart spawn m r =
    if ltb max_restarts m.restarts
    then (
      record m {
        state = failed;
        detail = text "crashed " ++ (show m.restarts ++ text " times in under 60s");
      },
      record r { shared = Control.settle m.spec.name r.shared },
    )
    else start spawn m r

-- A child that exited, from the lines after its state has been cleared.
pub after_exit : Spawn → ℕ → Managed → Run → Managed × Run
unfolding restart roll_window
after_exit spawn now m r =
    if not m.spec.respawn
    then (m, record r { shared = Control.settle m.spec.name r.shared })
    else restart spawn (count_restart (roll_window now m)) r

-- `clear_pid_file`, which drops the error of a file that the kernel does not remove.
abbrev pub clear_pid_file : (removed : Bool) → Text → Map Text ℕ → Map Text ℕ
clear_pid_file true name files = delete name files
clear_pid_file false name files = files

-- What is common to the two ways in which a child is lost.
abbrev pub forget : (removed : Bool) → ℕ → Text → Run → Run
forget removed pid name r = record {
  shared = Control.deregister (some pid) name r.shared;
  pid_files = clear_pid_file removed name r.pid_files;
}

-- The loop body of `reap` on a service with a child; the flag is `changed`.
unfoldable pub reap_child :
    Poll → Spawn → (now : ℕ) → (removed : Bool) → (pid : ℕ) → Managed → Run → Managed × Run × Bool
unfolding after_exit
reap_child alive spawn now removed pid m r = (m, r, false)
reap_child (gone status) spawn now removed pid m r =
    let (m', r') =
      after_exit spawn now
        (record m { child = none; state = exited; detail = text "exited with " ++ status })
        (forget removed pid m.spec.name r) in
    (m', r', true)
reap_child (wait_failed e) spawn now removed pid m r = (
  record m { child = none; state = failed; detail = text "wait failed: " ++ e },
  record (forget removed pid m.spec.name r) {
    shared = Control.settle m.spec.name (forget removed pid m.spec.name r).shared;
  },
  true,
)

-- What the kernel answers about one service in one pass.
pub record Answer : Type 0 where
  pub poll : Poll
  pub spawn : Spawn
  pub now : ℕ
  pub pid_removed : Bool

unfoldable pub reap_one : Answer → Option ℕ → Managed → Run → Managed × Run × Bool
unfolding reap_child
reap_one a none m r = (m, r, false)
reap_one a (some pid) m r = reap_child a.poll a.spawn a.now a.pid_removed pid m r

-- `reap`, with an answer for each service by its name.
unfoldable pub reap : (Text → Answer) → List Managed → Run → List Managed × Run × Bool
unfolding reap_one
reap answers [] r = ([], r, false)
reap answers (m ∷ ms) r =
    let (m', r', changed) = reap_one (answers m.spec.name) m.child m r in
    let (ms', r'', more) = reap answers ms r' in (m' ∷ ms', r'', changed || more)

-- `with_run_dir`: every service as it is before its first start.
unfoldable pub managed : ℕ → List Service → List Managed
managed now [] = []
managed now (s ∷ specs) =
    record {
      spec = s;
      child = none;
      state = exited;
      restarts = 0;
      window_start = now;
      detail = text "not started";
    }
    ∷ managed now specs

unfoldable pub start_all : (Text → Spawn) → List Managed → Run → List Managed × Run
unfolding start
start_all spawns [] r = ([], r)
start_all spawns (m ∷ ms) r =
    let (m', r') = start (spawns m.spec.name) m r in
    let (ms', r'') = start_all spawns ms r' in (m' ∷ ms', r'')
