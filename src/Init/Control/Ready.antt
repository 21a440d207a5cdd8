-- ===== src/Init/Control/Ready.antt =====
-- Readiness and its attribution, for `Control` of vakt-init/src/services.rs.
use vakt_os.Base.{
  ℕ, ◌≡◌, ◌≢◌, ◌↔◌, sym, ◌∙◌, refl, inl, inr, true, not, ◌&&◌, ◌||◌, List, [], ◌∷◌, Option, none,
  some, Text, nat_eq, text_eq, ◌==◌, lookup, contains, contains-remove, contains-insert_set, arith,
  Bool-cases,
}
use vakt_os.Init.Control.{Shared, note_service, note_ready, wait_until_ready, is_subset, is_empty}

-- What a notification attributed to `service` changes: that service is ready and no longer awaited,
-- and every other service is as ready and as awaited as before.
pub record Noted (service : Text) (s s' : Shared) : Type 0 where
  pub ready : (n : Text) → contains s'.ready n ≡ (service == n || contains s.ready n)
  pub awaiting : (n : Text) → contains s'.awaiting n ≡ (not (service == n) && contains s.awaiting n)
  pub pids : s'.pids ≡ s.pids
  pub expected : s'.expected ≡ s.expected
  pub phase : s'.phase ≡ s.phase

note_service-Noted :
    (service : Text) (status : Option Text) (s : Shared)
    → Noted service s (note_service (some service) status s).0
unfolding note_service
note_service-Noted service status s = record {
  ready = λ n. contains-insert_set s.ready service n;
  awaiting = λ n. contains-remove s.awaiting service n;
  pids = refl;
  expected = refl;
  phase = refl;
}

-- A notification that comes with the pid of a service the supervisor runs counts for that service,
-- whatever name the sender claims.
pub note_ready_known :
    (pid : ℕ) (service : Text) (claim status : Option Text) (s : Shared)
    → lookup pid s.pids ≡ some service
    → ((note_ready (some pid) claim status s).1 ≡ some service)
      × Noted service s (note_ready (some pid) claim status s).0
unfolding note_ready
note_ready_known pid service claim status s h = rw h (refl, note_service-Noted service status s)

-- What a notification by name alone does.
abbrev pub Believed : Option Text → Shared → Shared × Option Text → Type 0
Believed none s (s', service) = (s' ≡ s) × (service ≡ none)
Believed (some claim) s (s', service) = Noted claim s s' × (service ≡ some claim)

note_service-Believed :
    (claim status : Option Text) (s : Shared) → Believed claim s (note_service claim status s)
unfolding note_service
note_service-Believed none status s = (refl, refl)
note_service-Believed (some claim) status s = (note_service-Noted claim status s, refl)

-- A notification whose pid belongs to no service is believed by its name, as one without a pid is:
-- it counts for whatever service the sender claims to be, and changes nothing if it claims none.
pub note_ready_unknown :
    (pid : ℕ) (claim status : Option Text) (s : Shared)
    → lookup pid s.pids ≡ none
    → Believed claim s (note_ready (some pid) claim status s)
      × Believed claim s (note_ready none claim status s)
unfolding note_ready
note_ready_unknown pid claim status s h =
    rw h (note_service-Believed claim status s, note_service-Believed claim status s)

is_subset_sound :
    (names ready : List Text) (n : Text)
    → is_subset names ready ≡ true
    → contains names n ≡ true
    → contains ready n ≡ true
is_subset_sound [] ready n h m = cc
is_subset_sound (x ∷ names) ready n h m =
    ground (arith, is_subset_sound names ready n, text_eq.beq_iff x n)

is_subset_complete :
    (names ready : List Text)
    → ((n : Text) → contains names n ≡ true → contains ready n ≡ true)
    → is_subset names ready ≡ true
is_subset_complete [] ready h = refl
is_subset_complete (x ∷ names) ready h =
    ground
      (arith, h x, text_eq.beq_iff x x, is_subset_complete names ready (λ n m. h n (ground arith)))

-- Which state the wait ends in: the first one that awaits nothing, or else the last.
pub data EndsIn : Shared → List Shared → Shared → Type 0 where
  settled : {s : Shared} {l : List Shared} → s.awaiting ≡ [] → EndsIn s l s
  timed_out : {s : Shared} → EndsIn s [] s
  woken :
      {s next last : Shared} {l : List Shared}
      → s.awaiting ≢ []
      → EndsIn next l last
      → EndsIn s (next ∷ l) last

wait_until_ready-EndsIn : (l : List Shared) (s : Shared) → EndsIn s l (wait_until_ready s l).0
unfolding wait_until_ready
wait_until_ready-EndsIn [] s = timed_out
wait_until_ready-EndsIn (next ∷ l) s = elim (Bool-cases (is_empty s.awaiting)) [
  | inl e ↦ rw (e, wait_until_ready) (settled (ground arith))
  | inr e ↦ rw (e, wait_until_ready) (woken (λ n. ground arith) (wait_until_ready-EndsIn l next))
]

wait_until_ready-subset :
    (l : List Shared) (s : Shared)
    → (wait_until_ready s l).1
      ≡ is_subset (wait_until_ready s l).0.expected (wait_until_ready s l).0.ready
unfolding wait_until_ready
wait_until_ready-subset [] s = refl
wait_until_ready-subset (next ∷ l) s = elim (Bool-cases (is_empty s.awaiting)) [
  | inl e ↦ rw (e, wait_until_ready) refl
  | inr e ↦ rw (e, wait_until_ready) (wait_until_ready-subset l next)
]

-- `wait_until_ready` stops at the first state that awaits nothing, or at the last before the
-- deadline, and answers yes exactly when every service that is to report has reported there.
pub wait_until_ready_iff :
    (s : Shared) (l : List Shared)
    → EndsIn s l (wait_until_ready s l).0
      × (((wait_until_ready s l).1 ≡ true) ↔ (
          (n : Text)
          → contains (wait_until_ready s l).0.expected n ≡ true
          → contains (wait_until_ready s l).0.ready n ≡ true))
wait_until_ready_iff s l =
    let last = (wait_until_ready s l).0 in
    (
      wait_until_ready-EndsIn l s,
      (
        λ h n m.
            is_subset_sound last.expected last.ready n (sym (wait_until_ready-subset l s) ∙ h) m,
        λ h. wait_until_ready-subset l s ∙ is_subset_complete last.expected last.ready h,
      ),
    )
