-- ===== src/Init/Shutdown/Tests.antt =====
-- A shutdown that is asked for twice.
use vakt_os.Base.{
  ◌≡◌, refl, ◌⊎◌, All, false, List, [], ◌∷◌, none, some, text, lines, trim, split_once,
}
use vakt_os.Init.Control.{new, request_stop, note_ready, wait_until_stopped}
use vakt_os.Init.Notify
use vakt_os.Init.Shutdown.{
  power_off, sigusr1, Seen, busy, System, Event, signal, datagram, set_foreground, end_session,
  stop_services, waited, flush, unmount, unmount_lazily, reset, from_verb, execute, on_event,
  on_events,
}
use vakt_os.Init.Shutdown.Requests.{IsQuiet}
use vakt_os.Init.Shutdown.Order.{IsFresh}
use vakt_os.Init.Shutdown.Once.{IsOver, on_events_lem}

abbrev seen : Seen
seen = record { wakings = []; unmounted = busy }

abbrev up : System
up = record {
  world = record { under_way = false; foreground = 0; control = new []; stages = [] };
  signals_parked = false;
  messages_parked = false;
}

abbrev events : List Event
events =
    set_foreground 77
    ∷ datagram (some 5) (text "READY=1\nNAME=net\n") seen
    ∷ datagram none (text "SHUTDOWN=PowerOff\n") seen
    ∷ signal sigusr1 seen
    ∷ []

up-IsFresh : IsFresh up
up-IsFresh = record { not_begun = refl; untouched = refl; signals = refl; messages = refl }

on_events_lem_example :
    (All IsQuiet events × IsFresh (on_events events up)) ⊎ IsOver events up (on_events events up)
on_events_lem_example = on_events_lem events up up-IsFresh

test_stages :
    (on_events events up).world.stages
    ≡ end_session 77
      ∷ stop_services
      ∷ waited false
      ∷ flush
      ∷ unmount
      ∷ unmount_lazily
      ∷ flush
      ∷ reset power_off
      ∷ []
unfolding on_events on_event execute from_verb Notify.parse lines trim split_once request_stop
    wait_until_stopped note_ready new
test_stages = refl
