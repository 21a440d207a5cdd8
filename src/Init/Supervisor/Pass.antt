-- ===== src/Init/Supervisor/Pass.antt =====
-- A whole pass of `reap` over the services, for vakt-init/src/services.rs.
use vakt_os.Base.{
  Bool, ℕ, ◌≡◌, ◌∙◌, refl, inl, inr, true, false, Option, none, some, Text, text_eq, nat_eq, lookup,
  lookup-insert, lookup-delete, contains, contains-remove, ltb, arith, ◌==◌, Bool-cases, subst,
}
use vakt_os.Init.Control
use vakt_os.Init.Control.{Service, Shared}
use vakt_os.Init.Supervisor.{
  Managed, Run, Spawn, spawned, spawn_failed, Poll, alive, gone, wait_failed, Answer, start,
  restart, after_exit, reap_child, reap_one, roll_window, max_restarts, count_restart, forget,
}
use vakt_os.Init.Supervisor.Restart.{roll_window_keeps, after_exit_once, after_exit_again}

-- What a step on the service `name` leaves to the others.
pub record Frame (name : Text) (r r' : Run) : Type 0 where
  pub files : (n : Text) → (name == n) ≡ false → lookup n r'.pid_files ≡ lookup n r.pid_files
  pub awaiting :
      (n : Text) → contains r.shared.awaiting n ≡ false → contains r'.shared.awaiting n ≡ false

Frame-refl : (name : Text) (r : Run) → Frame name r r
Frame-refl name r = record { files = λ n h. refl; awaiting = λ n h. h }

Frame-trans : {name : Text} {r s t : Run} → Frame name r s → Frame name s t → Frame name r t
Frame-trans f g = record {
  files = λ n h. g.files n h ∙ f.files n h;
  awaiting = λ n h. g.awaiting n (f.awaiting n h);
}

settle-Frame :
    (name : Text) (r : Run) → Frame name r (record r { shared = Control.settle name r.shared })
unfolding Control.settle
settle-Frame name r = record {
  files = λ n h. refl;
  awaiting = λ n h. rw contains-remove (ground arith);
}

forget-Frame : (b : Bool) (pid : ℕ) (name : Text) (r : Run) → Frame name r (forget b pid name r)
unfolding Control.deregister
forget-Frame false pid name r = record { files = λ n h. refl; awaiting = λ n h. h }
forget-Frame true pid name r = record {
  files = λ n h. rw lookup-delete (rw h refl);
  awaiting = λ n h. h;
}

pub start-Frame : (s : Spawn) (m : Managed) (r : Run) → Frame m.spec.name r (start s m r).1
unfolding start Control.register
start-Frame (spawned pid true) m r = record {
  files = λ n h. rw lookup-insert (rw h refl);
  awaiting = λ n h. h;
}
start-Frame (spawned pid false) m r = record { files = λ n h. refl; awaiting = λ n h. h }
start-Frame (spawn_failed e) m r = settle-Frame m.spec.name r

restart-Frame : (s : Spawn) (m : Managed) (r : Run) → Frame m.spec.name r (restart s m r).1
unfolding restart
restart-Frame s m r = elim (Bool-cases (ltb max_restarts m.restarts)) [
  | inl over ↦ rw (over, restart) (settle-Frame m.spec.name r)
  | inr under ↦ rw (under, restart) (start-Frame s m r)
]

after_exit-Frame :
    (s : Spawn) (now : ℕ) (m : Managed) (r : Run) → Frame m.spec.name r (after_exit s now m r).1
after_exit-Frame s now m r = elim (Bool-cases m.spec.respawn) [
  | inr once ↦ rw (after_exit_once s now m r once) (settle-Frame m.spec.name r)
  | inl again ↦ rw (after_exit_again s now m r again) (
      subst (λ (k : Service). Frame k.name r (restart s (count_restart (roll_window now m)) r).1)
        (roll_window_keeps now m).0 (restart-Frame s (count_restart (roll_window now m)) r))
]

reap_child-Frame :
    (p : Poll) (s : Spawn) (now : ℕ) (b : Bool) (pid : ℕ) (m : Managed) (r : Run)
    → Frame m.spec.name r (reap_child p s now b pid m r).1
unfolding reap_child
reap_child-Frame alive s now b pid m r = Frame-refl m.spec.name r
reap_child-Frame (gone t) s now b pid m r =
    Frame-trans (forget-Frame b pid m.spec.name r)
      (after_exit-Frame s now _ (forget b pid m.spec.name r))
reap_child-Frame (wait_failed t) s now b pid m r =
    Frame-trans (forget-Frame b pid m.spec.name r)
      (settle-Frame m.spec.name (forget b pid m.spec.name r))

pub reap_one-Frame :
    (a : Answer) (c : Option ℕ) (m : Managed) (r : Run) → Frame m.spec.name r (reap_one a c m r).1
unfolding reap_one
reap_one-Frame a none m r = Frame-refl m.spec.name r
reap_one-Frame a (some pid) m r = reap_child-Frame a.poll a.spawn a.now a.pid_removed pid m r
