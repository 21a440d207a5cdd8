-- ===== src/Init/Shutdown/Requests.antt =====
-- Which events ask for which shutdown, for vakt-init/src/shutdown.rs and `watch_notifications` of
-- vakt-init/src/main.rs.
use vakt_os.Base.{
  ℕ, ◌≡◌, ◌⊎◌, refl, inl, inr, ap, Bool, true, false, Option, none, some, Bool-cases, Text, text,
  text_eq, ◌==◌, eq_of_beq, subst, ◌||◌, if◌then◌else◌,
}
use vakt_os.Init.Notify
use vakt_os.Init.Notify.{Message}
use vakt_os.Init.Shutdown.{
  ShutdownAction, power_off, reboot, halt, Signal, sigint, sigterm, sigpwr, sigusr1, sigusr2,
  other_signal, from_signal, from_verb, Seen, Event, signal, datagram,
}

-- Which signals ask for what, as shutdown.rs documents them.
pub data Means : Signal → ShutdownAction → Type 0 where
  int_reboots : Means sigint reboot
  term_reboots : Means sigterm reboot
  pwr_powers_off : Means sigpwr power_off
  usr2_powers_off : Means sigusr2 power_off
  usr1_halts : Means sigusr1 halt

-- How an action is spelled in a notification.
abbrev pub Spells : Text → ShutdownAction → Type 0
Spells v power_off = (v ≡ text "poweroff") ⊎ ((v ≡ text "power-off") ⊎ (v ≡ text "off"))
Spells v reboot = (v ≡ text "reboot") ⊎ (v ≡ text "restart")
Spells v halt = v ≡ text "halt"

-- An event that asks for a shutdown, with what happens while it runs.
pub data Asks : Event → ShutdownAction → Seen → Type 0 where
  by_signal :
      {sig : Signal} {a : ShutdownAction} {seen : Seen}
      → Means sig a
      → Asks (signal sig seen) a seen
  by_message :
      {pid : Option ℕ} {body : Text} {a : ShutdownAction} {seen : Seen} (verb : Text)
      → (Notify.parse body).shutdown ≡ some verb
      → Spells verb a
      → Asks (datagram pid body seen) a seen

abbrev pub IsQuiet : Event → Type 0
IsQuiet e = (a : ShutdownAction) (seen : Seen) → ¬ (Asks e a seen)

-- What the code makes of a signal and of a verb is what they mean.
pub from_signal_lem : (sig : Signal) (a : ShutdownAction) → from_signal sig ≡ some a → Means sig a
from_signal_lem sigint a h = subst (Means sigint) {x = reboot} {y = a} (cc) Means.int_reboots
from_signal_lem sigterm a h = subst (Means sigterm) {x = reboot} {y = a} (cc) Means.term_reboots
from_signal_lem sigpwr a h = subst (Means sigpwr) {x = power_off} {y = a} (cc) Means.pwr_powers_off
from_signal_lem sigusr2 a h =
    subst (Means sigusr2) {x = power_off} {y = a} (cc) Means.usr2_powers_off
from_signal_lem sigusr1 a h = subst (Means sigusr1) {x = halt} {y = a} (cc) Means.usr1_halts
from_signal_lem other_signal a h = absurd (cc)

pub Means-from_signal : (sig : Signal) (a : ShutdownAction) → Means sig a → from_signal sig ≡ some a
Means-from_signal _ _ Means.int_reboots = refl
Means-from_signal _ _ Means.term_reboots = refl
Means-from_signal _ _ Means.pwr_powers_off = refl
Means-from_signal _ _ Means.usr2_powers_off = refl
Means-from_signal _ _ Means.usr1_halts = refl

is_text : (v t : Text) → (v == t) ≡ true → v ≡ t
is_text v t h = eq_of_beq {a = v} {b = t} h

or_cases : (a b : Bool) → (a || b) ≡ true → (a ≡ true) ⊎ (b ≡ true)
or_cases true b h = inl refl
or_cases false b h = inr h

halt_verb :
    (v : Text) (a : ShutdownAction)
    → (if v == text "halt" then some halt else none) ≡ some a
    → Spells v a
halt_verb v a h = elim (Bool-cases (v == text "halt")) [
  | inl yes_halt ↦
      subst (Spells v) {x = halt} {y = a} (cc (rw yes_halt at h)) (is_text v (text "halt") yes_halt)
  | inr other ↦ absurd (cc (rw other at h))
]

reboot_verb :
    (v : Text) (a : ShutdownAction)
    → (if v == text "reboot" || v == text "restart"
        then some reboot
        else if v == text "halt"
        then some halt
        else none)
      ≡ some a
    → Spells v a
reboot_verb v a h = elim (Bool-cases (v == text "reboot" || v == text "restart")) [
  | inl is ↦
      subst (Spells v) {x = reboot} {y = a} (cc (rw is at h))
        (elim (or_cases (v == text "reboot") (v == text "restart") is) [
          | inl x ↦ inl (is_text v (text "reboot") x)
          | inr x ↦ inr (is_text v (text "restart") x)
        ])
  | inr other ↦ halt_verb v a (rw other at h)
]

power_verb :
    (v : Text)
    → (v == text "poweroff" || v == text "power-off" || v == text "off") ≡ true
    → Spells v power_off
power_verb v h =
    elim (or_cases (v == text "poweroff" || v == text "power-off") (v == text "off") h) [
      | inl first ↦ elim (or_cases (v == text "poweroff") (v == text "power-off") first) [
        | inl x ↦ inl (is_text v (text "poweroff") x)
        | inr x ↦ inr (inl (is_text v (text "power-off") x))
      ]
      | inr x ↦ inr (inr (is_text v (text "off") x))
    ]

pub from_verb_lem : (v : Text) (a : ShutdownAction) → from_verb v ≡ some a → Spells v a
unfolding from_verb
from_verb_lem v a h =
    elim (Bool-cases (v == text "poweroff" || v == text "power-off" || v == text "off")) [
      | inl is ↦ subst (Spells v) {x = power_off} {y = a} (cc (rw is at h)) (power_verb v is)
      | inr other ↦ reboot_verb v a (rw other at h)
    ]

pub Spells-from_verb : (v : Text) (a : ShutdownAction) → Spells v a → from_verb v ≡ some a
unfolding from_verb
Spells-from_verb v power_off (inl e) = ap from_verb e
Spells-from_verb v power_off (inr (inl e)) = ap from_verb e
Spells-from_verb v power_off (inr (inr e)) = ap from_verb e
Spells-from_verb v reboot (inl e) = ap from_verb e
Spells-from_verb v reboot (inr e) = ap from_verb e
Spells-from_verb v halt e = ap from_verb e
