-- ===== src/Init/Supervisor/Restart.antt =====
-- One service under `start` and `reap`, for vakt-init/src/services.rs.
use vakt_os.Base.{
  Bool, Text, Map, ℕ, ◌≤◌, ◌≡◌, ◌≢◌, ◌⊎◌, ap, ◌∙◌, refl, inl, inr, true, false, Option, none, some,
  text_eq, nat_eq, lookup, lookup-delete, contains, contains-remove, ltb, arith, beq_refl,
  Bool-cases,
}
use vakt_os.Init.Control
use vakt_os.Init.Control.{Service, Shared}
use vakt_os.Init.Supervisor.{
  running, exited, failed, Managed, Run, Spawn, spawned, spawn_failed, Poll, alive, gone,
  wait_failed, Answer, start, restart, after_exit, reap_child, reap_one, roll_window, max_restarts,
  count_restart, forget, clear_pid_file,
}

-- A service that the supervisor has started, between two passes: it has a child exactly when it is
-- running, it has used up its restarts only if it has failed, and boot does not wait for it unless
-- it runs. It has a PID file only if it has a child, provided `P`: that the kernel has removed each of
-- its PID files when it was asked to.
pub record IsSound (P : Type 0) (m : Managed) (r : Run) : Type 0 where
  pub running_child : m.child ≢ none → m.state ≡ running
  pub not_running : m.child ≡ none → (m.state ≡ exited) ⊎ (m.state ≡ failed)
  pub counted : m.restarts ≤ 6
  pub counted_running : m.child ≢ none → m.restarts ≤ max_restarts
  pub no_file : P → m.child ≡ none → lookup m.spec.name r.pid_files ≡ none
  pub not_awaited : m.child ≡ none → contains r.shared.awaiting m.spec.name ≡ false

pub IsSound-weaken :
    (P Q : Type 0) (m : Managed) (r : Run) → (P → Q) → IsSound Q m r → IsSound P m r
IsSound-weaken P Q m r k v = record {
  running_child = v.running_child;
  not_running = v.not_running;
  counted = v.counted;
  counted_running = v.counted_running;
  no_file = λ p. v.no_file (k p);
  not_awaited = v.not_awaited;
}

pub start-IsSound :
    (P : Type 0) (s : Spawn) (m : Managed) (r : Run)
    → m.restarts ≤ max_restarts
    → (P → lookup m.spec.name r.pid_files ≡ none)
    → IsSound P (start s m r).0 (start s m r).1
unfolding start Control.settle
start-IsSound P (spawned pid w) m r c f = record {
  running_child = λ h. refl;
  not_running = λ h. cc;
  counted = omega arith;
  counted_running = λ h. c;
  no_file = λ p h. cc;
  not_awaited = λ h. cc;
}
start-IsSound P (spawn_failed e) m r c f = record {
  running_child = λ h. absurd (h refl);
  not_running = λ h. inr refl;
  counted = omega arith;
  counted_running = λ h. absurd (h refl);
  no_file = λ p h. f p;
  not_awaited = λ h. rw contains-remove (ground (arith, text_eq.beq_iff m.spec.name m.spec.name));
}

roll_window-le :
    (now : ℕ) (m : Managed)
    → m.restarts ≤ max_restarts
    → (roll_window now m).restarts ≤ max_restarts
unfolding roll_window
roll_window-le now m h = ground arith

pub roll_window_keeps :
    (now : ℕ) (m : Managed)
    → ((roll_window now m).spec ≡ m.spec) × ((roll_window now m).child ≡ m.child)
unfolding roll_window
roll_window_keeps now m = ground arith

restart-IsSound :
    (P : Type 0) (s : Spawn) (m : Managed) (r : Run)
    → m.restarts ≤ 6
    → m.child ≡ none
    → (P → lookup m.spec.name r.pid_files ≡ none)
    → IsSound P (restart s m r).0 (restart s m r).1
unfolding restart Control.settle
restart-IsSound P s m r c n f = elim (Bool-cases (ltb max_restarts m.restarts)) [
  | inl over ↦
      rw (over, restart)
        (record {
          running_child = λ h. absurd (h n);
          not_running = λ h. inr refl;
          counted = c;
          counted_running = λ h. absurd (h n);
          no_file = λ p h. f p;
          not_awaited =
              λ h. rw contains-remove (ground (arith, text_eq.beq_iff m.spec.name m.spec.name));
        })
  | inr under ↦ rw (under, restart) (start-IsSound P s m r (ground arith) f)
]

module _ (s : Spawn) (now : ℕ) (m : Managed) (r : Run) where
  pub after_exit_once :
      m.spec.respawn ≡ false
      → after_exit s now m r ≡ (m, record r { shared = Control.settle m.spec.name r.shared })
  unfolding after_exit
  after_exit_once h = simp h

  pub after_exit_again :
      m.spec.respawn ≡ true → after_exit s now m r ≡ restart s (count_restart (roll_window now m)) r
  unfolding after_exit
  after_exit_again h = simp h

  once-IsSound :
      (P : Type 0)
      → m.restarts ≤ max_restarts
      → m.child ≡ none
      → m.state ≡ exited
      → (P → lookup m.spec.name r.pid_files ≡ none)
      → IsSound P m (record r { shared = Control.settle m.spec.name r.shared })
  unfolding Control.settle
  once-IsSound P c n x f = record {
    running_child = λ h. absurd (h n);
    not_running = λ h. inl x;
    counted = omega arith;
    counted_running = λ h. c;
    no_file = λ p h. f p;
    not_awaited = λ h. rw contains-remove (ground (arith, text_eq.beq_iff m.spec.name m.spec.name));
  }

  after_exit-IsSound :
      (P : Type 0)
      → m.restarts ≤ max_restarts
      → m.child ≡ none
      → m.state ≡ exited
      → (P → lookup m.spec.name r.pid_files ≡ none)
      → IsSound P (after_exit s now m r).0 (after_exit s now m r).1
  after_exit-IsSound P c n x f = elim (Bool-cases m.spec.respawn) [
    | inr once ↦ rw (after_exit_once once) (once-IsSound P c n x f)
    | inl again ↦
        let (same, childless) = roll_window_keeps now m in
        rw (after_exit_again again) (
          restart-IsSound P s (count_restart (roll_window now m)) r
            (omega (arith, roll_window-le now m c)) (childless ∙ n)
            (λ p. ap (λ (k : Service). lookup k.name r.pid_files) same ∙ f p))
  ]

cleared :
    (b : Bool) (name : Text) (files : Map Text ℕ)
    → b ≡ true
    → lookup name (clear_pid_file b name files) ≡ none
cleared true name files h = rw lookup-delete (rw beq_refl refl)
cleared false name files h = absurd (cc)

-- `Q` is what held of the removals before this pass.
reap_child-IsSound :
    (P Q : Type 0) (p : Poll) (s : Spawn) (now : ℕ) (b : Bool) (pid : ℕ) (m : Managed) (r : Run)
    → m.child ≡ some pid
    → (P → Q × (b ≡ true))
    → IsSound Q m r
    → IsSound P (reap_child p s now b pid m r).0 (reap_child p s now b pid m r).1
unfolding reap_child Control.settle
reap_child-IsSound P Q alive s now b pid m r e k v = IsSound-weaken P Q m r (λ p. (k p).0) v
reap_child-IsSound P Q (gone status) s now b pid m r e k v =
    after_exit-IsSound s now _ (forget b pid m.spec.name r) P (v.counted_running (ground arith))
      refl refl (λ p. cleared b m.spec.name r.pid_files (k p).1)
reap_child-IsSound P Q (wait_failed t) s now b pid m r e k v = record {
  running_child = λ h. absurd (h refl);
  not_running = λ h. inr refl;
  counted = v.counted;
  counted_running = λ h. absurd (h refl);
  no_file = λ p h. cleared b m.spec.name r.pid_files (k p).1;
  not_awaited = λ h. rw contains-remove (ground (arith, text_eq.beq_iff m.spec.name m.spec.name));
}

pub reap_one-IsSound :
    (P Q : Type 0) (a : Answer) (c : Option ℕ) (m : Managed) (r : Run)
    → m.child ≡ c
    → (P → Q × (a.pid_removed ≡ true))
    → IsSound Q m r
    → IsSound P (reap_one a c m r).0 (reap_one a c m r).1
unfolding reap_one
reap_one-IsSound P Q a none m r e k v = IsSound-weaken P Q m r (λ p. (k p).0) v
reap_one-IsSound P Q a (some pid) m r e k v =
    reap_child-IsSound P Q a.poll a.spawn a.now a.pid_removed pid m r e k v

-- Which service it is does not change.
pub start-spec : (s : Spawn) (m : Managed) (r : Run) → (start s m r).0.spec ≡ m.spec
unfolding start
start-spec (spawned pid w) m r = refl
start-spec (spawn_failed e) m r = refl

restart-spec : (s : Spawn) (m : Managed) (r : Run) → (restart s m r).0.spec ≡ m.spec
unfolding restart
restart-spec s m r = elim (Bool-cases (ltb max_restarts m.restarts)) [
  | inl over ↦ rw (over, restart) refl
  | inr under ↦ rw (under, restart) (start-spec s m r)
]

after_exit-spec :
    (s : Spawn) (now : ℕ) (m : Managed) (r : Run) → (after_exit s now m r).0.spec ≡ m.spec
after_exit-spec s now m r = elim (Bool-cases m.spec.respawn) [
  | inr once ↦ rw (after_exit_once s now m r once) refl
  | inl again ↦
      rw (after_exit_again s now m r again)
        (restart-spec s (count_restart (roll_window now m)) r ∙ (roll_window_keeps now m).0)
]

pub reap_one-spec :
    (a : Answer) (c : Option ℕ) (m : Managed) (r : Run) → (reap_one a c m r).0.spec ≡ m.spec
unfolding reap_one reap_child
reap_one-spec a none m r = refl
reap_one-spec a (some pid) m r = go a.poll
  where
    go : (p : Poll) → (reap_child p a.spawn a.now a.pid_removed pid m r).0.spec ≡ m.spec
    go alive = refl
    go (gone t) = after_exit-spec a.spawn a.now _ (forget a.pid_removed pid m.spec.name r)
    go (wait_failed t) = refl
