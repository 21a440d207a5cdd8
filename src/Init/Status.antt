-- ===== src/Init/Status.antt =====
-- vakt-init/src/services.rs, `write_status`: the summary of the services that the panel reads.
pub mod Lines
mod Tests
use vakt_os.Base.{
  ℕ, Bool, true, false, not, ◌&&◌, List, [], ◌∷◌, ◌++◌, Option, none, some, Text, text, show,
  if◌then◌else◌,
}
use vakt_os.Init.Control
use vakt_os.Init.Control.{Shared}
use vakt_os.Init.Supervisor.{State, running, exited, failed, stopped, Managed}

-- `Display` of `State`.
abbrev pub state_text : State → Text
state_text running = text "running"
state_text exited = text "exited"
state_text failed = text "failed"
state_text stopped = text "stopped"

abbrev pub pid_text : Option ℕ → Text
pid_text none = []
pid_text (some pid) = show pid

abbrev pub readiness : (notifies ready : Bool) → Text
readiness false _ = text "n/a"
readiness true true = text "ready"
readiness true false = text "waiting"

abbrev pub reported_or : Text → Option Text → Text
reported_or description none = description
reported_or description (some line) = line

abbrev tab : Text
tab = text "\t"

-- The fields of a service's line.
unfoldable pub status_line : Managed → Bool × Option Text → Text
status_line m (ready, reported) =
    m.spec.name
    ++ (tab
        ++ (state_text m.state
            ++ (tab
                ++ (pid_text m.child
                    ++ (tab
                        ++ (show m.restarts
                            ++ (tab
                                ++ (readiness m.spec.notifies ready
                                    ++ b'\t' ∷ reported_or m.spec.description reported))))))))

unfoldable pub status_body : Shared → List Managed → Text
unfolding status_line Control.snapshot
status_body s [] = []
status_body s (m ∷ ms) = status_line m (Control.snapshot m.spec.name s) ++ b'\n' ∷ status_body s ms

-- Which calls succeed.
pub record Writes : Type 0 where
  pub creates : Bool
  pub writes : Bool
  pub renames : Bool

pub record Files : Type 0 where
  pub status : Option Text
  pub temporary : Option Text

-- The end of `write_status`. Whether `rename` works is not looked at.
unfoldable pub write_status : Writes → Shared → List Managed → Files → Files
unfolding status_body
write_status f s ms files =
    if not (f.creates && f.writes)
    then record files { temporary = none }
    else if f.renames
    then record { status = some (status_body s ms); temporary = none }
    else record files { temporary = some (status_body s ms) }
