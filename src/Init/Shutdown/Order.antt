-- ===== src/Init/Shutdown/Order.antt =====
-- The order in which `execute` of vakt-init/src/shutdown.rs takes the system down, and that nothing happens
-- to the system afterwards.
use vakt_os.Base.{
  ℕ, ◌≡◌, ◌≢◌, ◌⊎◌, ◌<◌, refl, inl, inr, ◌∙◌, ap, Bool, true, false, List, [], ◌∷◌, ◌++◌,
  append_assoc, Option, none, some, Bool-cases, Text, text_eq, ltb, arith, if◌then◌else◌,
}
use vakt_os.Init.Control.{
  Shared, note_ready, request_stop, wait_until_stopped, is_running, note_service, attribute,
  known_as,
}
use vakt_os.Init.Notify
use vakt_os.Init.Notify.{Message}
use vakt_os.Init.Shutdown.{
  ShutdownAction, from_signal, Stage, end_session, stop_services, waited, flush, unmount,
  unmount_lazily, reset, Unmounted, clean, never_mounted, busy, World, Seen, session_stages,
  unmount_stages, execute, System, Event, signal, datagram, set_foreground, on_action, requested,
  on_message, on_event, on_events, note,
}

-- The stages of one shutdown.
pub record IsSequence (foreground : ℕ) (all_stopped : Bool) (u : Unmounted)
    (action : ShutdownAction) (stages : List Stage) : Type 0 where
  pub session : List Stage
  pub unmounts : List Stage
  pub in_order :
      stages
      ≡ session
        ++ (stop_services ∷ waited all_stopped ∷ flush ∷ (unmounts ++ (flush ∷ reset action ∷ [])))
  pub session_ended :
      ((foreground ≡ 0) × (session ≡ []))
      ⊎ ((0 < foreground) × (session ≡ end_session foreground ∷ []))
  pub unmounted :
      ((u ≡ busy) × (unmounts ≡ unmount ∷ unmount_lazily ∷ []))
      ⊎ ((u ≢ busy) × (unmounts ≡ unmount ∷ []))

session_stages_lem :
    (fg : ℕ)
    → ((fg ≡ 0) × (session_stages fg ≡ [])) ⊎ ((0 < fg) × (session_stages fg ≡ end_session fg ∷ []))
session_stages_lem fg = elim (Bool-cases (ltb 0 fg)) [
  | inl some_session ↦ inr (ground arith, rw some_session refl)
  | inr no_session ↦ inl (ground arith, rw no_session refl)
]

unmount_stages_lem :
    (u : Unmounted)
    → ((u ≡ busy) × (unmount_stages u ≡ unmount ∷ unmount_lazily ∷ []))
      ⊎ ((u ≢ busy) × (unmount_stages u ≡ unmount ∷ []))
unmount_stages_lem clean = inr (λ e. cc, refl)
unmount_stages_lem never_mounted = inr (λ e. cc, refl)
unmount_stages_lem busy = inl (refl, refl)

regroup :
    (session unmounts : List Stage) (stopped : Bool) (a : ShutdownAction)
    → ((((session ++ (stop_services ∷ waited stopped ∷ [])) ++ (flush ∷ [])) ++ unmounts)
          ++ (flush ∷ []))
        ++ (reset a ∷ [])
      ≡ session ++ (stop_services ∷ waited stopped ∷ flush ∷ (unmounts ++ (flush ∷ reset a ∷ [])))
regroup session unmounts stopped a = simp (append_assoc)

-- Nothing has been asked for, and no thread is parked.
pub record IsFresh (s : System) : Type 0 where
  pub not_begun : s.world.under_way ≡ false
  pub untouched : s.world.stages ≡ []
  pub signals : s.signals_parked ≡ false
  pub messages : s.messages_parked ≡ false

-- One shutdown is under way, with these stages, and the supervisor knows.
pub record IsDown (stages : List Stage) (w : World) : Type 0 where
  pub begun : w.under_way ≡ true
  pub same : w.stages ≡ stages
  pub told : is_running w.control.phase ≡ false

request_stop-told : (s : Shared) → is_running (request_stop s).phase ≡ false
unfolding request_stop
request_stop-told s = elim (Bool-cases (is_running s.phase)) [
  | inl running ↦ rw (running, request_stop) refl
  | inr not_running ↦ rw (not_running, request_stop) not_running
]

if_IsDown :
    (stages : List Stage) (b : Bool) (w w' : World)
    → b ≡ true
    → IsDown stages w
    → IsDown stages (if b then w else w')
if_IsDown stages true w w' h d = d
if_IsDown stages false w w' h d = absurd (cc)

module _ (w : World) (a : ShutdownAction) (seen : Seen) where
  pub record IsExecuted (w' : World) : Type 0 where
    pub sequence :
        IsSequence w.foreground
          (wait_until_stopped (request_stop w.control) seen.wakings)
          seen.unmounted
          a
          w'.stages
    pub down : IsDown w'.stages w'

  pub execute_lem : w.under_way ≡ false → w.stages ≡ [] → IsExecuted (execute a seen w)
  unfolding execute
  execute_lem h e =
      rw (h, execute)
        (record {
          sequence = record {
            session = session_stages w.foreground;
            unmounts = unmount_stages seen.unmounted;
            in_order =
                ap
                  (λ x.
                    (((((x ++ session_stages w.foreground)
                            ++ (stop_services
                                ∷ waited (wait_until_stopped (request_stop w.control) seen.wakings)
                                ∷ []))
                          ++ (flush ∷ []))
                        ++ unmount_stages seen.unmounted)
                      ++ (flush ∷ []))
                    ++ (reset a ∷ []))
                  e
                ∙ regroup (session_stages w.foreground) (unmount_stages seen.unmounted) _ a;
            session_ended = session_stages_lem w.foreground;
            unmounted = unmount_stages_lem seen.unmounted;
          };
          down = record { begun = refl; same = refl; told = request_stop-told w.control };
        })

  execute_again : (stages : List Stage) → IsDown stages w → IsDown stages (execute a seen w)
  unfolding execute
  execute_again stages d = if_IsDown stages w.under_way w _ d.begun d

note_ready-phase :
    (pid : Option ℕ) (name status : Option Text) (s : Shared)
    → (note_ready pid name status s).0.phase ≡ s.phase
unfolding note_ready note_service
note_ready-phase pid name status s = go (attribute (known_as pid s.pids) name)
  where
    go : (who : Option Text) → (note_service who status s).0.phase ≡ s.phase
    go none = refl
    go (some service) = refl

-- A shutdown that is under way stays as it is.
pub note-IsDown :
    (stages : List Stage) (b : Bool) (pid : Option ℕ) (m : Message) (s : System)
    → m.ready ≡ b
    → IsDown stages s.world
    → IsDown stages (note pid m s).world
note-IsDown stages true pid m s e d = rw e (record {
  begun = d.begun;
  same = d.same;
  told = ap is_running (note_ready-phase pid m.name m.status s.world.control) ∙ d.told;
})
note-IsDown stages false pid m s e d = rw e d

on_message-IsDown :
    (stages : List Stage) (o : Option ShutdownAction) (pid : Option ℕ) (m : Message) (seen : Seen)
    (s : System)
    → IsDown stages s.world
    → IsDown stages (on_message o pid m seen s).world
on_message-IsDown stages none pid m seen s d = note-IsDown stages m.ready pid m s refl d
on_message-IsDown stages (some a) pid m seen s d = execute_again s.world a seen stages d

on_action-IsDown :
    (stages : List Stage) (o : Option ShutdownAction) (seen : Seen) (s : System)
    → IsDown stages s.world
    → IsDown stages (on_action o seen s).world
on_action-IsDown stages none seen s d = d
on_action-IsDown stages (some a) seen s d = execute_again s.world a seen stages d

unless_parked :
    (stages : List Stage) (b : Bool) (s s' : System)
    → IsDown stages s.world
    → IsDown stages s'.world
    → IsDown stages (if b then s else s').world
unless_parked stages true s s' h k = h
unless_parked stages false s s' h k = k

on_event-IsDown :
    (stages : List Stage) (e : Event) (s : System)
    → IsDown stages s.world
    → IsDown stages (on_event e s).world
unfolding on_event
on_event-IsDown stages (signal sig seen) s d =
    unless_parked stages s.signals_parked s _ d (on_action-IsDown stages (from_signal sig) seen s d)
on_event-IsDown stages (datagram pid body seen) s d = unless_parked stages s.messages_parked s _ d (
    on_message-IsDown stages (requested (Notify.parse body).shutdown) pid (Notify.parse body) seen s
      d)
on_event-IsDown stages (set_foreground pid) s d = record {
  begun = d.begun;
  same = d.same;
  told = d.told;
}

pub on_events-IsDown :
    (stages : List Stage) (events : List Event) (s : System)
    → IsDown stages s.world
    → IsDown stages (on_events events s).world
unfolding on_events
on_events-IsDown stages [] s d = d
on_events-IsDown stages (e ∷ events) s d =
    on_events-IsDown stages events (on_event e s) (on_event-IsDown stages e s d)
