-- ===== src/Init/Shutdown/Once.antt =====
-- The system goes down once, at the first request, for vakt-init/src/shutdown.rs.
use vakt_os.Base.{
  ℕ, ◌≡◌, ◌⊎◌, refl, sym, inl, inr, ◌∙◌, ap, Bool, true, false, List, [], ◌∷◌, ◌++◌, Option, none,
  some, Text, text_eq, subst, All, if◌then◌else◌,
}
use vakt_os.Init.Control.{request_stop, wait_until_stopped, is_running}
use vakt_os.Init.Notify
use vakt_os.Init.Notify.{Message}
use vakt_os.Init.Shutdown.{
  ShutdownAction, Signal, from_signal, from_verb, Seen, System, Event, signal, datagram,
  set_foreground, on_action, requested, on_message, on_event, on_events, note,
}
use vakt_os.Init.Shutdown.Requests.{
  Spells, Asks, IsQuiet, from_signal_lem, Means-from_signal, from_verb_lem, Spells-from_verb,
}
use vakt_os.Init.Shutdown.Order.{IsSequence, IsFresh, IsExecuted, execute_lem, on_events-IsDown}

-- What one event does to a system that nothing has been asked of.
data Outcome (e : Event) (s s' : System) : Type 0 where
  quiet : IsQuiet e → IsFresh s' → Outcome e s s'
  goes_down :
      (a : ShutdownAction) (seen : Seen)
      → Asks e a seen
      → IsExecuted s.world a seen s'.world
      → Outcome e s s'

signal_outcome :
    (sig : Signal) (seen : Seen) (s : System) (o : Option ShutdownAction)
    → IsFresh s
    → from_signal sig ≡ o
    → Outcome (signal sig seen) s (on_action o seen s)
signal_outcome sig seen s none f e = quiet (λ a x. go a x) f
  where
    go : (a : ShutdownAction) (x : Seen) → ¬ (Asks (signal sig seen) a x)
    go a x (Asks.by_signal m) = cc (Means-from_signal sig a m)
signal_outcome sig seen s (some a) f e =
    goes_down a seen (Asks.by_signal (from_signal_lem sig a e))
      (execute_lem s.world a seen f.not_begun f.untouched)

note-IsFresh :
    (b : Bool) (pid : Option ℕ) (m : Message) (s : System)
    → m.ready ≡ b
    → IsFresh s
    → IsFresh (note pid m s)
note-IsFresh true pid m s e f = rw e (record {
  not_begun = f.not_begun;
  untouched = f.untouched;
  signals = f.signals;
  messages = f.messages;
})
note-IsFresh false pid m s e f = rw e f

requested-none :
    (o : Option Text) (verb : Text) (a : ShutdownAction)
    → requested o ≡ none
    → o ≡ some verb
    → Spells verb a
    → ⊥
requested-none none verb a e h sp = cc
requested-none (some v) verb a e h sp =
    let same : v ≡ verb = cc in cc (sym e ∙ ap from_verb same ∙ Spells-from_verb verb a sp)

requested-some :
    (o : Option Text) (a : ShutdownAction)
    → requested o ≡ some a
    → (verb : Text) × (o ≡ some verb) × Spells verb a
requested-some none a e = absurd (cc)
requested-some (some v) a e = (v, refl, from_verb_lem v a e)

message_outcome :
    (pid : Option ℕ) (body : Text) (seen : Seen) (s : System) (o : Option ShutdownAction)
    → IsFresh s
    → requested (Notify.parse body).shutdown ≡ o
    → Outcome (datagram pid body seen) s (on_message o pid (Notify.parse body) seen s)
message_outcome pid body seen s none f e =
    quiet (λ a x. go a x) (note-IsFresh (Notify.parse body).ready pid (Notify.parse body) s refl f)
  where
    go : (a : ShutdownAction) (x : Seen) → ¬ (Asks (datagram pid body seen) a x)
    go a x (Asks.by_message verb is sp) = requested-none (Notify.parse body).shutdown verb a e is sp
message_outcome pid body seen s (some a) f e =
    let (verb, is, sp) = requested-some (Notify.parse body).shutdown a e in
    goes_down a seen (Asks.by_message verb is sp)
      (execute_lem s.world a seen f.not_begun f.untouched)

not_parked :
    (e : Event) (s : System) (b : Bool) (s' s'' : System)
    → b ≡ false
    → Outcome e s s''
    → Outcome e s (if b then s' else s'')
not_parked e s true s' s'' h o = absurd (cc)
not_parked e s false s' s'' h o = o

on_event_outcome : (e : Event) (s : System) → IsFresh s → Outcome e s (on_event e s)
unfolding on_event
on_event_outcome (signal sig seen) s f =
    not_parked (signal sig seen) s s.signals_parked s _ f.signals
      (signal_outcome sig seen s (from_signal sig) f refl)
on_event_outcome (datagram pid body seen) s f =
    not_parked (datagram pid body seen) s s.messages_parked s _ f.messages
      (message_outcome pid body seen s (requested (Notify.parse body).shutdown) f refl)
on_event_outcome (set_foreground pid) s f =
    quiet (λ a x. go a x)
      (record {
        not_begun = f.not_begun;
        untouched = f.untouched;
        signals = f.signals;
        messages = f.messages;
      })
  where
    go : (a : ShutdownAction) (x : Seen) → ¬ (Asks (set_foreground pid) a x)
    go a x h = elim h [ ]

-- The first event that asks, and what it has done.
pub record IsOver (events : List Event) (s s' : System) : Type 0 where
  pub before : List Event
  pub event : Event
  pub after : List Event
  pub action : ShutdownAction
  pub seen : Seen
  pub place : events ≡ before ++ event ∷ after
  pub quiet_before : All IsQuiet before
  pub asked : Asks event action seen
  pub sequence :
      IsSequence
        (on_events before s).world.foreground
        (wait_until_stopped (request_stop (on_events before s).world.control) seen.wakings)
        seen.unmounted
        action
        s'.world.stages
  pub begun : s'.world.under_way ≡ true
  pub told : is_running s'.world.control.phase ≡ false

-- For every sequence of signals, datagrams and sessions at a running system of which nothing has been asked. Either none of them asks for a
-- shutdown: then nothing has been done to the system, and no thread is parked. Or the first that asks decides, a
-- signal by its number or a datagram by the verb in its shutdown line: at the end exactly one shutdown has been gone
-- through, that of its action. The session that was there when it came is ended, and none if there was none; then
-- the services are told to stop and waited for; then the disks are flushed, the data disk is unmounted, lazily after
-- that exactly if it is busy, the disks are flushed again, and the machine is reset by that action. Whatever came later
-- has changed nothing of it, and the supervisor has been told to stop.
pub on_events_lem :
    (events : List Event) (s : System)
    → IsFresh s
    → (All IsQuiet events × IsFresh (on_events events s)) ⊎ IsOver events s (on_events events s)
unfolding on_events
on_events_lem [] s f = inl (tt, f)
on_events_lem (e ∷ events) s f = elim (on_event_outcome e s f) [
  | quiet q f' ↦ elim (on_events_lem events (on_event e s) f') [
    | inl (all_quiet, fresh) ↦ inl ((q, all_quiet), fresh)
    | inr over ↦ inr (record {
      before = e ∷ over.before;
      event = over.event;
      after = over.after;
      action = over.action;
      seen = over.seen;
      place = ap (◌∷◌ e) over.place;
      quiet_before = (q, over.quiet_before);
      asked = over.asked;
      sequence = over.sequence;
      begun = over.begun;
      told = over.told;
    })
  ]
  | goes_down a seen asks done ↦
      let d = on_events-IsDown (on_event e s).world.stages events (on_event e s) done.down in
      inr (record {
        before = [];
        event = e;
        after = events;
        action = a;
        seen = seen;
        place = refl;
        quiet_before = tt;
        asked = asks;
        sequence =
            subst
              (IsSequence s.world.foreground
                (wait_until_stopped (request_stop s.world.control) seen.wakings) seen.unmounted a)
              (sym d.same) done.sequence;
        begun = d.begun;
        told = d.told;
      })
]
