-- ===== src/Init/Stop/Laws.antt =====
-- Nothing is left running by `stop_all` of vakt-init/src/services.rs.
use vakt_os.Base.{
  ℕ, Bool, ◌≡◌, refl, inl, inr, true, false, List, [], ◌∷◌, ◌++◌, Option, none, some, Text, text_eq,
  nat_eq, Map, lookup, delete, lookup-delete, arith, beq_refl, Bool-cases, All,
}
use vakt_os.Init.Supervisor.{Managed, Poll, alive, gone, wait_failed, clear_pid_file}
use vakt_os.Init.Stop.{
  collect_one, collect_stopped, wait_down, live, kill_one, kill_rest, stop_live, stop_all,
}
use vakt_os.Init.Stop.Calls.{asked, killed, stop_all_calls}

-- A service without a child has no PID file, if the kernel removes its PID files.
abbrev pub NoFile : (Text → Bool) → Map Text ℕ → Managed → Type 0
NoFile removes files m =
    removes m.spec.name ≡ true → m.child ≡ none → lookup m.spec.name files ≡ none

-- A service that is down: no child, and no PID file, if the kernel removes its PID files.
abbrev pub IsDown : (Text → Bool) → Map Text ℕ → Managed → Type 0
IsDown removes files m =
    (m.child ≡ none) × (removes m.spec.name ≡ true → lookup m.spec.name files ≡ none)

-- Files are only ever taken away.
abbrev Fewer : Map Text ℕ → Map Text ℕ → Type 0
Fewer files files' = (n : Text) → lookup n files ≡ none → lookup n files' ≡ none

delete-Fewer : (name : Text) (files : Map Text ℕ) → Fewer files (delete name files)
delete-Fewer name files n h = rw lookup-delete (ground arith)

clear-Fewer :
    (b : Bool) (name : Text) (files : Map Text ℕ) → Fewer files (clear_pid_file b name files)
clear-Fewer true name files = delete-Fewer name files
clear-Fewer false name files = λ n h. h

clear_lem :
    (b : Bool) (name : Text) (files : Map Text ℕ)
    → b ≡ true
    → lookup name (clear_pid_file b name files) ≡ none
clear_lem true name files h = rw lookup-delete (rw beq_refl refl)
clear_lem false name files h = absurd (cc)

module _ (removes : Text → Bool) (files files' : Map Text ℕ) (f : Fewer files files') where
  NoFile-Fewer : (m : Managed) → NoFile removes files m → NoFile removes files' m
  NoFile-Fewer m h r n = f m.spec.name (h r n)

  AllNoFile-Fewer :
      (ms : List Managed) → All (NoFile removes files) ms → All (NoFile removes files') ms
  AllNoFile-Fewer [] h = tt
  AllNoFile-Fewer (m ∷ ms) h = (NoFile-Fewer m h.0, AllNoFile-Fewer ms h.1)

module _ (removes : Text → Bool) where
  collect_one_lem :
      (p : Poll) (c : Option ℕ) (m : Managed) (files : Map Text ℕ)
      → m.child ≡ c
      → NoFile removes files m
      → NoFile removes (collect_one removes p c m files).1 (collect_one removes p c m files).0
        × Fewer files (collect_one removes p c m files).1
  unfolding collect_one
  collect_one_lem p none m files e h = (h, λ n x. x)
  collect_one_lem alive (some pid) m files e h = (h, λ n x. x)
  collect_one_lem (gone s) (some pid) m files e h = (
    λ r _. clear_lem (removes m.spec.name) m.spec.name files r,
    clear-Fewer (removes m.spec.name) m.spec.name files,
  )
  collect_one_lem (wait_failed s) (some pid) m files e h = (
    λ r _. clear_lem (removes m.spec.name) m.spec.name files r,
    clear-Fewer (removes m.spec.name) m.spec.name files,
  )

  collect_stopped_lem :
      (polls : Text → Poll) (ms : List Managed) (files : Map Text ℕ)
      → All (NoFile removes files) ms
      → All
          (NoFile removes (collect_stopped removes polls ms files).1)
          (collect_stopped removes polls ms files).0
        × Fewer files (collect_stopped removes polls ms files).1
  unfolding collect_stopped
  collect_stopped_lem polls [] files h = (tt, λ n x. x)
  collect_stopped_lem polls (m ∷ ms) files h =
      let m' = (collect_one removes (polls m.spec.name) m.child m files).0 in
      let files' = (collect_one removes (polls m.spec.name) m.child m files).1 in
      let (one, fewer) = collect_one_lem (polls m.spec.name) m.child m files refl h.0 in
      let (rest, fewer') =
        collect_stopped_lem polls ms files' (AllNoFile-Fewer removes files files' fewer ms h.1) in
      (
        (
          NoFile-Fewer removes files' (collect_stopped removes polls ms files').1 fewer' m' one,
          rest,
        ),
        λ n x. fewer' n (fewer n x),
      )

  wait_down_lem :
      (passes : List (Text → Poll)) (ms : List Managed) (files : Map Text ℕ)
      → All (NoFile removes files) ms
      → All
          (NoFile removes (wait_down removes passes ms files).1)
          (wait_down removes passes ms files).0
  unfolding wait_down
  wait_down_lem [] ms files h = h
  wait_down_lem (polls ∷ later) ms files h =
      let step = collect_stopped_lem polls ms files h in
      elim (Bool-cases (collect_stopped removes polls ms files).2) [
        | inl done ↦ rw done step.0
        | inr more ↦ rw more (wait_down_lem later _ _ step.0)
      ]

  kill_one_lem :
      (c : Option ℕ) (m : Managed) (files : Map Text ℕ)
      → m.child ≡ c
      → NoFile removes files m
      → IsDown removes (kill_one removes c m files).1 (kill_one removes c m files).0
        × Fewer files (kill_one removes c m files).1
  unfolding kill_one
  kill_one_lem none m files e h = ((e, λ r. h r e), λ n x. x)
  kill_one_lem (some pid) m files e h = (
    (refl, λ r. clear_lem (removes m.spec.name) m.spec.name files r),
    clear-Fewer (removes m.spec.name) m.spec.name files,
  )

  kill_rest_lem :
      (ms : List Managed) (files : Map Text ℕ)
      → All (NoFile removes files) ms
      → All (IsDown removes (kill_rest removes ms files).1) (kill_rest removes ms files).0
        × Fewer files (kill_rest removes ms files).1
  unfolding kill_rest
  kill_rest_lem [] files h = (tt, λ n x. x)
  kill_rest_lem (m ∷ ms) files h =
      let (one, fewer) = kill_one_lem m.child m files refl h.0 in
      let (rest, fewer') =
        kill_rest_lem ms (kill_one removes m.child m files).1
          (AllNoFile-Fewer removes files (kill_one removes m.child m files).1 fewer ms h.1) in
      (((one.0, λ r. fewer' _ (one.1 r)), rest), λ n x. fewer' n (fewer n x))

  live-IsDown :
      (ms : List Managed) (files : Map Text ℕ)
      → live ms ≡ []
      → All (NoFile removes files) ms
      → All (IsDown removes files) ms
  live-IsDown [] files e h = tt
  live-IsDown (m ∷ ms) files e h =
      let childless : m.child ≡ none = ground arith in
      ((childless, λ r. h.0 r childless), live-IsDown ms files (ground arith) h.1)

  stop_live_lem :
      (passes : List (Text → Poll)) (names : List Text) (ms : List Managed) (files : Map Text ℕ)
      → live ms ≡ names
      → All (NoFile removes files) ms
      → All
          (IsDown removes (stop_live removes passes names ms files).pid_files)
          (stop_live removes passes names ms files).services
  unfolding stop_live
  stop_live_lem passes [] ms files e h = live-IsDown ms files e h
  stop_live_lem passes (name ∷ names) ms files e h =
      (kill_rest_lem (wait_down removes passes ms files).0 (wait_down removes passes ms files).1
        (wait_down_lem passes ms files h)).0

  -- However the daemons take SIGTERM: after `stop_all` no service has a child, and none has a PID file that the kernel
  -- removes when it is asked to, if before it only services with a child had one. The calls to the kernel are exactly
  -- these: SIGTERM to every child, in the order of the services; and then, in that order, SIGKILL and a wait
  -- for each child that every look before the deadline has found alive, and for no other.
  pub stop_all-IsDown :
      (passes : List (Text → Poll)) (ms : List Managed) (files : Map Text ℕ)
      → All (NoFile removes files) ms
      → All
          (IsDown removes (stop_all removes passes ms files).pid_files)
          (stop_all removes passes ms files).services
        × ((stop_all removes passes ms files).calls ≡ asked ms ++ killed passes ms)
  unfolding stop_all
  stop_all-IsDown passes ms files h =
      (stop_live_lem passes (live ms) ms files refl h, stop_all_calls removes passes ms files)
