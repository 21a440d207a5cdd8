-- ===== src/Init/CrashLoop.antt =====
-- A service that keeps crashing, under the passes of `reap` of vakt-init/src/services.rs.
use vakt_os.Base.{
  ℕ, ◌+◌, ◌-◌, ◌≤◌, ◌<◌, ◌++◌, leb, text, ◌≡◌, ap, ◌∙◌, refl, sym, ◌⊎◌, inl, inr, Bool, true, false,
  List, [], ◌∷◌, length, Option, none, some, Text, ltb, arith, Bool-cases, All, subst,
}
use vakt_os.Init.Control.{Service}
use vakt_os.Init.Supervisor.{
  exited, failed, Managed, Run, Spawn, spawned, spawn_failed, gone, Answer, start, restart,
  reap_child, reap_one, roll_window, max_restarts, crash_window, count_restart, forget,
}
use vakt_os.Init.Supervisor.Restart.{after_exit_again}

-- Pass after pass over one service.
unfoldable pub passes : List Answer → Managed → Run → Managed × Run
passes [] m r = (m, r)
passes (a ∷ rest) m r = let step = reap_one a m.child m r in passes rest step.0 step.1

-- The child has exited, in the window that began at `w`.
pub record Crashes (w : ℕ) (a : Answer) : Type 0 where
  pub status : Text
  pub exits : a.poll ≡ gone status
  pub soon : a.now - w ≤ crash_window

-- The kernel starts the program.
pub record Starts (a : Answer) : Type 0 where
  pub pid : ℕ
  pub pid_written : Bool
  pub starts : a.spawn ≡ spawned pid pid_written

-- Running, with `k` restarts in the window that began at `w`.
pub record IsUp (w k : ℕ) (m : Managed) : Type 0 where
  pub pid : ℕ
  pub child : m.child ≡ some pid
  pub respawn : m.spec.respawn ≡ true
  pub window : m.window_start ≡ w
  pub restarts : m.restarts ≡ k

pub record IsGivenUp (m : Managed) : Type 0 where
  pub child : m.child ≡ none
  pub state : m.state ≡ failed

roll_window_soon :
    (now : ℕ) (m : Managed) → now - m.window_start ≤ crash_window → roll_window now m ≡ m
unfolding roll_window
roll_window_soon now m h = elim (Bool-cases (ltb crash_window (now - m.window_start))) [
  | inl over ↦ absurd (ground arith)
  | inr under ↦ rw (under) refl
]

-- The service as `reap` leaves it before the restart.
counted : Text → Managed → Managed
counted status m =
    count_restart
      (record m { child = none; state = exited; detail = text "exited with " ++ status })

restart_over :
    (s : Spawn) (m : Managed) (r : Run)
    → m.child ≡ none
    → 5 < m.restarts
    → IsGivenUp (restart s m r).0
unfolding restart
restart_over s m r n h = elim (Bool-cases (ltb max_restarts m.restarts)) [
  | inl over ↦ rw (over, restart) (record { child = n; state = refl })
  | inr under ↦ absurd (ground arith)
]

restart_under : (s : Spawn) (m : Managed) (r : Run) → m.restarts ≤ 5 → restart s m r ≡ start s m r
unfolding restart
restart_under s m r h = elim (Bool-cases (ltb max_restarts m.restarts)) [
  | inl over ↦ absurd (ground arith)
  | inr under ↦ rw (under, restart) refl
]

start_cases :
    (s : Spawn) (m : Managed) (r : Run)
    → m.spec.respawn ≡ true
    → IsUp m.window_start m.restarts (start s m r).0 ⊎ IsGivenUp (start s m r).0
unfolding start
start_cases (spawned pid w) m r h =
    inl (record { pid = pid; child = refl; respawn = h; window = refl; restarts = refl })
start_cases (spawn_failed e) m r h = inr (record { child = refl; state = refl })

start_works :
    (a : Answer) (m : Managed) (r : Run)
    → m.spec.respawn ≡ true
    → Starts a
    → IsUp m.window_start m.restarts (start a.spawn m r).0
unfolding start
start_works a m r h works =
    rw (works.starts, start)
      (record { pid = works.pid; child = refl; respawn = h; window = refl; restarts = refl })

reap_gone :
    (a : Answer) (c : Option ℕ) (pid : ℕ) (status : Text) (m : Managed) (r : Run)
    → c ≡ some pid
    → a.poll ≡ gone status
    → m.spec.respawn ≡ true
    → a.now - m.window_start ≤ crash_window
    → (reap_one a c m r).0
      ≡ (restart a.spawn (counted status m) (forget a.pid_removed pid m.spec.name r)).0
unfolding reap_one reap_child counted
reap_gone a c pid status m r e g again soon =
    simp (e, g)
      (ap (λ (p : Managed × Run). p.0) (after_exit_again a.spawn a.now _ _ again)
        ∙ ap (λ x. (restart a.spawn (count_restart x) (forget a.pid_removed pid m.spec.name r)).0)
            (roll_window_soon a.now _ soon))

counted_lem :
    (status : Text) (m : Managed)
    → ((counted status m).restarts ≡ m.restarts + 1)
      × ((counted status m).child ≡ none)
      × ((counted status m).spec ≡ m.spec)
      × ((counted status m).window_start ≡ m.window_start)
unfolding counted
counted_lem status m = (refl, refl, refl, refl)

module _ (w k : ℕ) (a : Answer) (m : Managed) (r : Run) (up : IsUp w k m)
    (crash : Crashes w a) where
  after : Run
  after = forget a.pid_removed up.pid m.spec.name r

  exit_lem : (reap_one a m.child m r).0 ≡ (restart a.spawn (counted crash.status m) after).0
  unfolding after
  exit_lem =
      reap_gone a m.child up.pid crash.status m r up.child crash.exits up.respawn
        (subst (λ v. a.now - v ≤ crash_window) (sym up.window) crash.soon)

  IsUp-counted :
      (x : Managed)
      → IsUp (counted crash.status m).window_start (counted crash.status m).restarts x
      → IsUp w (k + 1) x
  unfolding counted
  IsUp-counted x u = record {
    pid = u.pid;
    child = u.child;
    respawn = u.respawn;
    window = u.window ∙ up.window;
    restarts = u.restarts ∙ ap (λ n. n + 1) up.restarts;
  }

  exit_again : k < 5 → Starts a → IsUp w (k + 1) (reap_one a m.child m r).0
  exit_again h works =
      let count = (counted_lem crash.status m).0 in
      let same = (counted_lem crash.status m).2 in
      rw
        (
          exit_lem,
          restart_under a.spawn (counted crash.status m) after (omega (arith, count, up.restarts)),
        )
        (IsUp-counted _ (
          start_works a (counted crash.status m) after
            (ap (λ (s : Service). s.respawn) same ∙ up.respawn) works))

  exit_cases :
      (IsUp w (k + 1) (reap_one a m.child m r).0 × (k + 1 ≤ 5))
      ⊎ IsGivenUp (reap_one a m.child m r).0
  exit_cases =
      let count = (counted_lem crash.status m).0 in
      let childless = (counted_lem crash.status m).1 in
      let same = (counted_lem crash.status m).2 in
      elim (Bool-cases (leb (k + 1) 5)) [
        | inl under ↦
            rw
              (
                exit_lem,
                restart_under a.spawn (counted crash.status m) after
                    (ground (arith, count, up.restarts)),
              )
              (elim (start_cases a.spawn (counted crash.status m) after
                (ap (λ (s : Service). s.respawn) same ∙ up.respawn)) [
                  | inl u ↦ inl (IsUp-counted _ u, ground arith)
                  | inr g ↦ inr g
                ])
        | inr over ↦ rw (exit_lem) (
            inr (
              restart_over a.spawn (counted crash.status m) after childless
                (ground (arith, count, up.restarts))))
      ]

-- A service without a child is left alone.
reap_childless :
    (a : Answer) (c : Option ℕ) (m : Managed) (r : Run)
    → c ≡ none
    → reap_one a c m r ≡ (m, r, false)
unfolding reap_one
reap_childless a c m r e = simp e

passes-IsGivenUp_later :
    (l : List Answer) (m : Managed) (r : Run) → IsGivenUp m → IsGivenUp (passes l m r).0
unfolding passes
passes-IsGivenUp_later [] m r g = g
passes-IsGivenUp_later (a ∷ l) m r g =
    subst (λ (s : Managed × Run × Bool). IsGivenUp (passes l s.0 s.1).0)
      (sym (reap_childless a m.child m r g.child)) (passes-IsGivenUp_later l m r g)

-- A service that runs with `k` restarts in the window that began at `w`, and whose program starts
-- each time, is still running after as many crashes in that window as keep the counter at five or
-- less, and the counter has counted each of them.
pub passes-IsUp :
    (w k : ℕ) (l : List Answer) (m : Managed) (r : Run)
    → IsUp w k m
    → All (Crashes w) l
    → All Starts l
    → k + length l ≤ max_restarts
    → IsUp w (k + length l) (passes l m r).0
unfolding passes
passes-IsUp w k [] m r up crashes starts h = subst (λ n. IsUp w n m) (omega arith) up
passes-IsUp w k (a ∷ l) m r up crashes starts h =
    subst (λ n. IsUp w n (passes (a ∷ l) m r).0) (omega arith)
      (passes-IsUp w (k + 1) l _ _ (exit_again w k a m r up crashes.0 (omega (arith, h)) starts.0)
        crashes.1 starts.1 (omega (arith, h)))

-- Whatever the kernel answers when it is asked to start the program, a service that runs with `k`
-- restarts in the window that began at `w` is given up (failed, without a child, and left so) once
-- it has crashed in that window often enough to bring the counter to six.
pub passes-IsGivenUp :
    (w k : ℕ) (l : List Answer) (m : Managed) (r : Run)
    → IsUp w k m
    → All (Crashes w) l
    → max_restarts < k + length l
    → k ≤ max_restarts
    → IsGivenUp (passes l m r).0
unfolding passes
passes-IsGivenUp w k [] m r up crashes h c = absurd (omega (arith, h, c))
passes-IsGivenUp w k (a ∷ l) m r up crashes h c = elim (exit_cases w k a m r up crashes.0) [
  | inl (u, c') ↦ passes-IsGivenUp w (k + 1) l _ _ u crashes.1 (omega (arith, h)) c'
  | inr g ↦ passes-IsGivenUp_later l _ _ g
]
