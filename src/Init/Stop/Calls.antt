-- ===== src/Init/Stop/Calls.antt =====
-- What `stop_all` of vakt-init/src/services.rs asks of the kernel, and of which children.
use vakt_os.Base.{
  ℕ, ◌≡◌, ap, ap₂, ◌∙◌, refl, sym, inl, inr, Bool, true, false, ◌&&◌, List, [], ◌∷◌, ◌++◌, Option,
  none, some, Text, text_eq, nat_eq, Map, arith, Bool-cases, if◌then◌else◌,
}
use vakt_os.Init.Supervisor.{Managed, Poll, alive, gone, wait_failed}
use vakt_os.Init.Stop.{
  Call, sigterm, sigkill, wait, collect_one, collect_stopped, wait_down, if_child, live, kill_one,
  kill_rest, terminate_one, terminate, stop_live, stop_all,
}

-- The child of a service gets the calls.
abbrev pub to_child : (ℕ → List Call) → Option ℕ → List Call
to_child f none = []
to_child f (some pid) = f pid

-- Every child is asked to stop, in the order of the services.
abbrev pub asked : List Managed → List Call
asked [] = []
asked (m ∷ ms) = to_child (λ pid. sigterm pid ∷ []) m.child ++ asked ms

abbrev pub is_alive : Poll → Bool
is_alive alive = true
is_alive (gone status) = false
is_alive (wait_failed e) = false

-- Every look before the deadline finds the service of this name alive.
abbrev pub ignores : List (Text → Poll) → Text → Bool
ignores [] name = true
ignores (polls ∷ later) name = is_alive (polls name) && ignores later name

abbrev pub kill_child : ℕ → List Call
kill_child pid = sigkill pid ∷ wait pid ∷ []

-- The children that ignore it are killed and waited for, in the order of the services.
abbrev pub killed : List (Text → Poll) → List Managed → List Call
killed passes [] = []
killed passes (m ∷ ms) =
    to_child (λ pid. if ignores passes m.spec.name then kill_child pid else []) m.child
    ++ killed passes ms

terminate_lem : (ms : List Managed) → terminate ms ≡ asked ms
terminate_lem [] = refl
terminate_lem (m ∷ ms) = ap₂ (λ x y. x ++ y) (go m.child) (terminate_lem ms)
  where
    go : (c : Option ℕ) → terminate_one c ≡ to_child (λ pid. sigterm pid ∷ []) c
    go none = refl
    go (some pid) = refl

no_live :
    (passes : List (Text → Poll)) (ms : List Managed)
    → live ms ≡ []
    → (asked ms ≡ []) × (killed passes ms ≡ [])
no_live passes [] h = (refl, refl)
no_live passes (m ∷ ms) h = go m.child h (no_live passes ms)
  where
    go :
        (c : Option ℕ)
        → if_child c m.spec.name (live ms) ≡ []
        → (live ms ≡ [] → (asked ms ≡ []) × (killed passes ms ≡ []))
        → (to_child (λ pid. sigterm pid ∷ []) c ++ asked ms ≡ [])
          × (to_child (λ pid. if ignores passes m.spec.name then kill_child pid else []) c
                ++ killed passes ms
              ≡ [])
    go none e rest = rest e
    go (some pid) e rest = absurd (cc)

module _ (removes : Text → Bool) where
  kill_one_calls :
      (c : Option ℕ) (m : Managed) (files : Map Text ℕ)
      → (kill_one removes c m files).2 ≡ to_child kill_child c
  unfolding kill_one
  kill_one_calls none m files = refl
  kill_one_calls (some pid) m files = refl

  kill_rest_calls :
      (ms : List Managed) (files : Map Text ℕ) → (kill_rest removes ms files).2 ≡ killed [] ms
  unfolding kill_rest
  kill_rest_calls [] files = refl
  kill_rest_calls (m ∷ ms) files =
      ap₂ (λ x y. x ++ y) (kill_one_calls m.child m files) (kill_rest_calls ms _)

  -- A pass takes from the children that are to be killed just those that it finds gone.
  collect_one_killed :
      (polls : Text → Poll) (later : List (Text → Poll)) (p : Poll) (c : Option ℕ) (m : Managed)
      (files : Map Text ℕ)
      → polls m.spec.name ≡ p
      → m.child ≡ c
      → to_child
          (λ pid.
            if ignores later (collect_one removes p c m files).0.spec.name
            then kill_child pid
            else [])
          (collect_one removes p c m files).0.child
        ≡ to_child (λ pid. if is_alive p && ignores later m.spec.name then kill_child pid else []) c
  unfolding collect_one
  collect_one_killed polls later p none m files e h = ap (to_child _) h
  collect_one_killed polls later alive (some pid) m files e h = ap (to_child _) h
  collect_one_killed polls later (gone s) (some pid) m files e h = refl
  collect_one_killed polls later (wait_failed s) (some pid) m files e h = refl

  killed-collect_stopped :
      (polls : Text → Poll) (later : List (Text → Poll)) (ms : List Managed) (files : Map Text ℕ)
      → killed later (collect_stopped removes polls ms files).0 ≡ killed (polls ∷ later) ms
  unfolding collect_stopped
  killed-collect_stopped polls later [] files = refl
  killed-collect_stopped polls later (m ∷ ms) files =
      ap₂ (λ x y. x ++ y)
        (collect_one_killed polls later (polls m.spec.name) m.child m files refl refl)
        (killed-collect_stopped polls later ms _)

  collect_one_gone :
      (p : Poll) (c : Option ℕ) (m : Managed) (files : Map Text ℕ)
      → m.child ≡ c
      → (collect_one removes p c m files).2 ≡ true
      → (collect_one removes p c m files).0.child ≡ none
  unfolding collect_one
  collect_one_gone p none m files e h = e
  collect_one_gone alive (some pid) m files e h = absurd (cc)
  collect_one_gone (gone s) (some pid) m files e h = refl
  collect_one_gone (wait_failed s) (some pid) m files e h = refl

  collect_stopped_gone :
      (polls : Text → Poll) (ms : List Managed) (files : Map Text ℕ)
      → (collect_stopped removes polls ms files).2 ≡ true
      → live (collect_stopped removes polls ms files).0 ≡ []
  unfolding collect_stopped
  collect_stopped_gone polls [] files h = refl
  collect_stopped_gone polls (m ∷ ms) files h =
      let first = collect_one removes (polls m.spec.name) m.child m files in
      ap (λ c. if_child c first.0.spec.name (live (collect_stopped removes polls ms first.1).0))
        (collect_one_gone (polls m.spec.name) m.child m files refl (ground arith))
      ∙ collect_stopped_gone polls ms first.1 (ground arith)

  killed-wait_down :
      (passes : List (Text → Poll)) (ms : List Managed) (files : Map Text ℕ)
      → killed [] (wait_down removes passes ms files).0 ≡ killed passes ms
  unfolding wait_down
  killed-wait_down [] ms files = refl
  killed-wait_down (polls ∷ later) ms files =
      let next = collect_stopped removes polls ms files in
      elim (Bool-cases next.2) [
        | inl done ↦
            let none_left = collect_stopped_gone polls ms files done in
            rw done (
              (no_live [] next.0 none_left).1
              ∙ sym (no_live later next.0 none_left).1
              ∙ killed-collect_stopped polls later ms files)
        | inr more ↦
            rw more
              (killed-wait_down later next.0 next.1 ∙ killed-collect_stopped polls later ms files)
      ]

  stop_live_calls :
      (passes : List (Text → Poll)) (names : List Text) (ms : List Managed) (files : Map Text ℕ)
      → live ms ≡ names
      → (stop_live removes passes names ms files).calls ≡ asked ms ++ killed passes ms
  unfolding stop_live
  stop_live_calls passes [] ms files e =
      sym (ap₂ (λ x y. x ++ y) (no_live passes ms e).0 (no_live passes ms e).1)
  stop_live_calls passes (name ∷ names) ms files e =
      ap₂ (λ x y. x ++ y) (terminate_lem ms)
        (kill_rest_calls (wait_down removes passes ms files).0 _ ∙ killed-wait_down passes ms files)

  pub stop_all_calls :
      (passes : List (Text → Poll)) (ms : List Managed) (files : Map Text ℕ)
      → (stop_all removes passes ms files).calls ≡ asked ms ++ killed passes ms
  unfolding stop_all
  stop_all_calls passes ms files = stop_live_calls passes (live ms) ms files refl
