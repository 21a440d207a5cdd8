-- ===== src/Init/Control.antt =====
-- vakt-init/src/services.rs, `Control` and `Shared`: what the supervisor, the socket's thread and the
-- shutdown share. Each method holds the one lock from its first line to its last, so it is a function
-- of the shared state; a wait is given the states that it finds when it wakes up.
pub mod Ready
use vakt_os.Base.{
  ℕ, ◌+◌, Bool, true, false, ◌&&◌, List, [], ◌∷◌, Option, none, some, Text, Eq, nat_eq, text_eq,
  Map, lookup, insert, delete, contains, remove, insert_set, if◌then◌else◌,
}

pub record Service : Type 0 where
  pub name : Text
  pub program : Text
  pub args : List Text
  pub respawn : Bool
  pub notifies : Bool
  pub description : Text

pub data Phase : Type 0 where
  running stopping stopped : Phase

pub record Shared : Type 0 where
  pub phase : Option Phase
  pub expected : List Text
  pub awaiting : List Text
  pub pids : Map ℕ Text
  pub ready : List Text
  pub status : Map Text Text
  pub revision : ℕ

abbrev pub notifying : List Service → List Text
notifying [] = []
notifying (s ∷ specs) = if s.notifies then insert_set (notifying specs) s.name else notifying specs

unfoldable pub new : List Service → Shared
new specs = record {
  phase = some running;
  expected = notifying specs;
  awaiting = notifying specs;
  pids = [];
  ready = [];
  status = [];
  revision = 0;
}

-- `revision += 1`. The release build checks overflow: 2 ^ 64 changes would panic, and are not modelled.
abbrev pub bump : Shared → Shared
bump s = record s { revision = s.revision + 1 }

-- `pid.and_then(|p| shared.pids.get(&p).cloned())`
abbrev pub known_as : Option ℕ → Map ℕ Text → Option Text
known_as none pids = none
known_as (some pid) pids = lookup pid pids

-- Whom a notification is attributed to.
abbrev pub attribute : Option Text → Option Text → Option Text
attribute (some known) name = some known
attribute none name = name

abbrev pub set_status : Text → Option Text → Map Text Text → Map Text Text
set_status service none m = m
set_status service (some line) m = insert service line m

unfoldable pub note_service : Option Text → Option Text → Shared → Shared × Option Text
note_service none status s = (s, none)
note_service (some service) status s = (
  bump (record s {
    awaiting = remove s.awaiting service;
    ready = insert_set s.ready service;
    status = set_status service status s.status;
  }),
  some service,
)

unfoldable pub note_ready : Option ℕ → Option Text → Option Text → Shared → Shared × Option Text
unfolding note_service
note_ready pid name status s = note_service (attribute (known_as pid s.pids) name) status s

unfoldable pub register : ℕ → Text → Shared → Shared
register pid name s = record s { pids = insert pid name s.pids }

unfoldable pub deregister : Option ℕ → Text → Shared → Shared
deregister none name s = bump (record s { ready = remove s.ready name })
deregister (some pid) name s =
    bump (record s { pids = delete pid s.pids; ready = remove s.ready name })

unfoldable pub settle : Text → Shared → Shared
settle name s = bump (record s { awaiting = remove s.awaiting name })

unfoldable pub snapshot : Text → Shared → Bool × Option Text
snapshot name s = (contains s.ready name, lookup name s.status)

abbrev pub is_subset : List Text → List Text → Bool
is_subset [] ready = true
is_subset (n ∷ names) ready = contains ready n && is_subset names ready

abbrev pub is_empty : List Text → Bool
is_empty [] = true
is_empty (n ∷ names) = false

-- The loop waits while something is awaited; when the wakings are used up the deadline has passed.
unfoldable pub wait_until_ready : Shared → List Shared → Shared × Bool
wait_until_ready s [] = (s, is_subset s.expected s.ready)
wait_until_ready s (next ∷ later) = elim (is_empty s.awaiting) [
  | true ↦ (s, is_subset s.expected s.ready)
  | false ↦ wait_until_ready next later
]

abbrev pub is_running : Option Phase → Bool
is_running (some running) = true
is_running _ = false

abbrev pub is_stopping : Option Phase → Bool
is_stopping (some stopping) = true
is_stopping _ = false

abbrev pub is_stopped : Option Phase → Bool
is_stopped (some stopped) = true
is_stopped _ = false

unfoldable pub request_stop : Shared → Shared
request_stop s = if is_running s.phase then record s { phase = some stopping } else s

unfoldable pub mark_stopped : Shared → Shared
mark_stopped s = record s { phase = some stopped }

unfoldable pub wait_until_stopped : Shared → List Shared → Bool
wait_until_stopped s [] = is_stopped s.phase
wait_until_stopped s (next ∷ later) = elim (is_stopped s.phase) [
  | true ↦ true
  | false ↦ wait_until_stopped next later
]

abbrev unwrap_phase : Option Phase → Phase
unwrap_phase none = running
unwrap_phase (some p) = p

-- `wait_tick`, with the state that it finds when the tick is over or something has changed.
unfoldable pub wait_tick : Shared → Shared → Phase
wait_tick before after = if is_stopping before.phase then stopping else unwrap_phase after.phase
