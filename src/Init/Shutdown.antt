-- ===== src/Init/Shutdown.antt =====
-- vakt-init/src/shutdown.rs: what asks for a shutdown, and the order in which the system goes down; with
-- `watch_notifications` of vakt-init/src/main.rs and `unmount_persistent` of vakt-init/src/mount.rs. `execute` never
-- returns, so a thread that has called it takes part no more.
pub mod Requests
pub mod Order
pub mod Once
mod Tests
use vakt_os.Base.{
  ℕ, Bool, true, false, ◌||◌, List, [], ◌∷◌, ◌++◌, Option, none, some, Text, text, text_eq, ◌==◌,
  ltb, if◌then◌else◌,
}
use vakt_os.Init.Control.{Shared, note_ready, request_stop, wait_until_stopped}
use vakt_os.Init.Notify
use vakt_os.Init.Notify.{Message}

pub data ShutdownAction : Type 0 where
  power_off reboot halt : ShutdownAction

pub data Signal : Type 0 where
  sigint sigterm sigpwr sigusr1 sigusr2 other_signal : Signal

abbrev pub from_signal : Signal → Option ShutdownAction
from_signal sigint = some reboot
from_signal sigterm = some reboot
from_signal sigpwr = some power_off
from_signal sigusr2 = some power_off
from_signal sigusr1 = some halt
from_signal other_signal = none

unfoldable pub from_verb : Text → Option ShutdownAction
from_verb verb =
    if verb == text "poweroff" || verb == text "power-off" || verb == text "off"
    then some power_off
    else if verb == text "reboot" || verb == text "restart"
    then some reboot
    else if verb == text "halt"
    then some halt
    else none

-- What the shutdown does, in order.
pub data Stage : Type 0 where
  end_session : (pid : ℕ) → Stage
  stop_services : Stage
  waited : (all_stopped : Bool) → Stage
  flush : Stage
  unmount unmount_lazily : Stage
  reset : ShutdownAction → Stage

pub data Unmounted : Type 0 where
  clean never_mounted busy : Unmounted

-- `unmount_persistent`
abbrev pub unmount_stages : Unmounted → List Stage
unmount_stages busy = unmount ∷ unmount_lazily ∷ []
unmount_stages _ = unmount ∷ []

-- The foreground is 0 when there is no session.
pub record World : Type 0 where
  pub under_way : Bool
  pub foreground : ℕ
  pub control : Shared
  pub stages : List Stage

-- The states of the supervisor while `execute` waits for it, and how the unmount ends.
pub record Seen : Type 0 where
  pub wakings : List Shared
  pub unmounted : Unmounted

abbrev pub session_stages : ℕ → List Stage
session_stages foreground = if ltb 0 foreground then end_session foreground ∷ [] else []

-- Something was done: the stages behind those that were done before.
abbrev pub did : List Stage → World → World
did stages w = record w { stages = w.stages ++ stages }

-- 1. `FOREGROUND.swap(0)` and the signal to the session.
pub end_foreground : World → World
end_foreground w = did (session_stages w.foreground) (record w { foreground = 0 })

-- 2. The supervisor is asked, and waited for.
pub stop_supervisor : Seen → World → World
stop_supervisor seen w =
    let told = request_stop w.control in
    did (stop_services ∷ waited (wait_until_stopped told seen.wakings) ∷ [])
      (record w { control = told })

pub sync : World → World
sync w = did (flush ∷ []) w

pub unmount_persistent : Unmounted → World → World
unmount_persistent u w = did (unmount_stages u) w

pub reset_machine : ShutdownAction → World → World
reset_machine action w = did (reset action ∷ []) w

unfoldable pub execute : ShutdownAction → Seen → World → World
unfolding end_foreground stop_supervisor sync unmount_persistent reset_machine
execute action seen w =
    let begun = end_foreground (record w { under_way = true }) in
    let stopped = stop_supervisor seen begun in
    let unmounted = unmount_persistent seen.unmounted (sync stopped) in
    if w.under_way then w else reset_machine action (sync unmounted)

-- The two threads that can ask for a shutdown, and whether they are parked in it.
pub record System : Type 0 where
  pub world : World
  pub signals_parked : Bool
  pub messages_parked : Bool

-- A signal; a datagram with the sender that the kernel attests; the console's session starting (or ending, with 0).
pub data Event : Type 0 where
  signal : Signal → Seen → Event
  datagram : (pid : Option ℕ) → (body : Text) → Seen → Event
  set_foreground : ℕ → Event

abbrev pub on_action : Option ShutdownAction → Seen → System → System
on_action none seen s = s
on_action (some action) seen s = record s {
  world = execute action seen s.world;
  signals_parked = true;
}

-- The readiness half of `watch_notifications`.
abbrev pub note : Option ℕ → Message → System → System
note pid m s =
    if m.ready
    then record s {
      world = record s.world { control = (note_ready pid m.name m.status s.world.control).0 };
    }
    else s

abbrev pub requested : Option Text → Option ShutdownAction
requested none = none
requested (some verb) = from_verb verb

abbrev pub on_message : Option ShutdownAction → Option ℕ → Message → Seen → System → System
on_message (some action) pid m seen s = record s {
  world = execute action seen s.world;
  messages_parked = true;
}
on_message none pid m seen s = note pid m s

unfoldable pub on_event : Event → System → System
on_event (signal sig seen) s = if s.signals_parked then s else on_action (from_signal sig) seen s
on_event (datagram pid body seen) s =
    let m = Notify.parse body in
    if s.messages_parked then s else on_message (requested m.shutdown) pid m seen s
on_event (set_foreground pid) s = record s { world = record s.world { foreground = pid } }

unfoldable pub on_events : List Event → System → System
on_events [] s = s
on_events (e ∷ events) s = on_events events (on_event e s)
