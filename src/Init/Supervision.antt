-- ===== src/Init/Supervision.antt =====
-- The supervisor's life between `start_all` and `stop_all` of vakt-init/src/services.rs, as steps: a
-- pass of `reap`, and what the socket's thread and the shutdown do between the passes.
pub mod Launch
use vakt_os.Base.{
  true, ℕ, ◌≡◌, ap, ap₂, ◌∙◌, refl, sym, false, List, [], ◌∷◌, Option, none, some, Text, text_eq,
  nat_eq, lookup, contains, contains-remove, arith, ◌==◌, All, subst,
}
use vakt_os.Init.Control
use vakt_os.Init.Control.{Service, Shared}
use vakt_os.Init.Supervisor.{Managed, Run, Spawn, Answer, start, reap_one, reap, start_all, managed}
use vakt_os.Init.Supervisor.Restart.{
  IsSound, reap_one-IsSound, start-IsSound, reap_one-spec, start-spec,
}
use vakt_os.Init.Supervisor.Pass.{Frame, reap_one-Frame, start-Frame}

pub record System : Type 0 where
  pub services : List Managed
  pub run : Run

-- `Supervisor::new` and `start_all`, on an empty run directory.
pub launch : (Text → Spawn) → ℕ → List Service → System
launch spawns now specs =
    let (services, run) =
      start_all spawns (managed now specs)
        (record { shared = Control.new specs; pid_files = [] }) in
    record { services = services; run = run }

pub data Turn (s : System) : System → Type 0 where
  reaps :
      (answers : Text → Answer)
      → Turn s (record {
        services = (reap answers s.services s.run).0;
        run = (reap answers s.services s.run).1;
      })
  notes :
      (pid : Option ℕ) (name status : Option Text)
      → Turn s (record s {
        run = record s.run { shared = (Control.note_ready pid name status s.run.shared).0 };
      })
  stops : Turn s (record s { run = record s.run { shared = Control.request_stop s.run.shared } })

pub data Reaches (s : System) : System → Type 0 where
  here : Reaches s s
  next : {t u : System} → Reaches s t → Turn t u → Reaches s u

-- No two services share a name, which their PID files are told apart by.
abbrev pub IsDistinct : List Service → Type 0
IsDistinct [] = Unit
IsDistinct (s ∷ specs) = All (λ (t : Service). (s.name == t.name) ≡ false) specs × IsDistinct specs

-- In every pass on the way, the kernel has removed the PID file of `name` if it was asked to.
abbrev pub Removed : (name : Text) → {s t : System} → Reaches s t → Type 0
Removed name Reaches.here = Unit
Removed name (Reaches.next r (Turn.reaps answers)) =
    Removed name r × ((answers name).pid_removed ≡ true)
Removed name (Reaches.next r (Turn.notes _ _ _)) = Removed name r
Removed name (Reaches.next r Turn.stops) = Removed name r

-- Each service is sound, with what `K` says of the removals of its PID file.
abbrev pub AllSound : (Text → Type 0) → List Managed → Run → Type 0
AllSound K ms r = All (λ m. IsSound (K m.spec.name) m r) ms

abbrev pub specs_of : List Managed → List Service
specs_of [] = []
specs_of (m ∷ ms) = m.spec ∷ specs_of ms

-- What the soundness of the service `name` looks at.
pub record Keeps (name : Text) (r r' : Run) : Type 0 where
  pub file : lookup name r'.pid_files ≡ lookup name r.pid_files
  pub awaiting : contains r.shared.awaiting name ≡ false → contains r'.shared.awaiting name ≡ false

pub Keeps-trans : {n : Text} {r s t : Run} → Keeps n r s → Keeps n s t → Keeps n r t
Keeps-trans f g = record { file = g.file ∙ f.file; awaiting = λ h. g.awaiting (f.awaiting h) }

pub Keeps-Frame :
    {name : Text} {r r' : Run} (n : Text) → (name == n) ≡ false → Frame name r r' → Keeps n r r'
Keeps-Frame n h f = record { file = f.files n h; awaiting = f.awaiting n }

pub IsSound-Keeps :
    (P : Type 0) {r r' : Run} (m : Managed)
    → Keeps m.spec.name r r'
    → IsSound P m r
    → IsSound P m r'
IsSound-Keeps P m k v = record {
  running_child = v.running_child;
  not_running = v.not_running;
  counted = v.counted;
  counted_running = v.counted_running;
  no_file = λ p h. k.file ∙ v.no_file p h;
  not_awaited = λ h. k.awaiting (v.not_awaited h);
}

pub AllSound-Frame :
    (K : Text → Type 0) {r r' : Run} (name : Text) (ms : List Managed)
    → All (λ (t : Service). (name == t.name) ≡ false) (specs_of ms)
    → Frame name r r'
    → AllSound K ms r
    → AllSound K ms r'
AllSound-Frame K name [] d f v = tt
AllSound-Frame K name (m ∷ ms) d f v = (
  IsSound-Keeps (K m.spec.name) m (Keeps-Frame m.spec.name d.0 f) v.0,
  AllSound-Frame K name ms d.1 f v.1,
)

reap-Keeps :
    (answers : Text → Answer) (n : Text) (ms : List Managed) (r : Run)
    → All (λ (t : Service). (n == t.name) ≡ false) (specs_of ms)
    → Keeps n r (reap answers ms r).1
unfolding reap
reap-Keeps answers n [] r d = record { file = refl; awaiting = λ h. h }
reap-Keeps answers n (m ∷ ms) r d =
    Keeps-trans
      (Keeps-Frame n
        (ground (arith, d.0, text_eq.beq_iff n m.spec.name, text_eq.beq_iff m.spec.name n))
        (reap_one-Frame (answers m.spec.name) m.child m r))
      (reap-Keeps answers n ms _ d.1)

module _ (K L : Text → Type 0) (answers : Text → Answer)
    (k : (n : Text) → K n → L n × ((answers n).pid_removed ≡ true)) where
  reap-AllSound :
      (ms : List Managed) (r : Run)
      → IsDistinct (specs_of ms)
      → AllSound L ms r
      → AllSound K (reap answers ms r).0 (reap answers ms r).1
        × (specs_of (reap answers ms r).0 ≡ specs_of ms)
  unfolding reap
  reap-AllSound [] r d v = (tt, refl)
  reap-AllSound (m ∷ ms) r d v =
      let a = answers m.spec.name in
      let m' = (reap_one a m.child m r).0 in
      let r' = (reap_one a m.child m r).1 in
      let same : m'.spec ≡ m.spec = reap_one-spec a m.child m r in
      let one : IsSound (K m.spec.name) m' r' =
        reap_one-IsSound (K m.spec.name) (L m.spec.name) a m.child m r refl (k m.spec.name) v.0 in
      let named : IsSound (K m'.spec.name) m' r' =
        subst (λ (s : Service). IsSound (K s.name) m' r') (sym same) one in
      let (rest, specs) =
        reap-AllSound ms r' d.1
          (AllSound-Frame L m.spec.name ms d.0 (reap_one-Frame a m.child m r) v.1) in
      (
        (
          IsSound-Keeps (K m'.spec.name) m'
              (subst (λ (s : Service). Keeps s.name r' (reap answers ms r').1) (sym same)
                (reap-Keeps answers m.spec.name ms r' d.0))
              named,
          rest,
        ),
        ap₂ (λ s l. s ∷ l) same specs,
      )

Keeps-Run :
    (r : Run) (s : Shared) (n : Text)
    → (contains r.shared.awaiting n ≡ false → contains s.awaiting n ≡ false)
    → Keeps n r (record r { shared = s })
Keeps-Run r s n h = record { file = refl; awaiting = h }

note_ready-awaiting :
    (pid : Option ℕ) (name status : Option Text) (s : Shared) (n : Text)
    → contains s.awaiting n ≡ false
    → contains (Control.note_ready pid name status s).0.awaiting n ≡ false
unfolding Control.note_ready
note_ready-awaiting pid name status s n h =
    go (Control.attribute (Control.known_as pid s.pids) name)
  where
    go : (o : Option Text) → contains (Control.note_service o status s).0.awaiting n ≡ false
    go none = h
    go (some service) = rw contains-remove (ground arith)

request_stop-awaiting : (s : Shared) → (Control.request_stop s).awaiting ≡ s.awaiting
unfolding Control.request_stop
request_stop-awaiting s = ground arith

AllSound-Keeps :
    (K : Text → Type 0) {r r' : Run} (ms : List Managed)
    → ((n : Text) → Keeps n r r')
    → AllSound K ms r
    → AllSound K ms r'
AllSound-Keeps K [] k v = tt
AllSound-Keeps K (m ∷ ms) k v =
    (IsSound-Keeps (K m.spec.name) m (k m.spec.name) v.0, AllSound-Keeps K ms k v.1)

-- What holds of the whole system between the steps.
pub record IsSupervised (K : Text → Type 0) (s : System) : Type 0 where
  pub distinct : IsDistinct (specs_of s.services)
  pub sound : AllSound K s.services s.run

pub next-IsSupervised :
    {s t u : System} (r : Reaches s t) (turn : Turn t u)
    → IsSupervised (λ n. Removed n r) t
    → IsSupervised (λ n. Removed n (Reaches.next r turn)) u
next-IsSupervised {s} {t} r (Turn.reaps answers) v =
    let (sound, specs) =
      reap-AllSound (λ n. Removed n r × ((answers n).pid_removed ≡ true)) (λ n. Removed n r) answers
        (λ n k. k) t.services t.run v.distinct v.sound in
    record { distinct = subst IsDistinct (sym specs) v.distinct; sound = sound }
next-IsSupervised {s} {t} r (Turn.notes pid name status) v = record {
  distinct = v.distinct;
  sound =
      AllSound-Keeps (λ n. Removed n r) t.services
        (λ n. Keeps-Run t.run _ n (note_ready-awaiting pid name status t.run.shared n)) v.sound;
}
next-IsSupervised {s} {t} r Turn.stops v = record {
  distinct = v.distinct;
  sound =
      AllSound-Keeps (λ n. Removed n r) t.services
        (λ n.
          Keeps-Run t.run _ n
            (λ h. ap (λ l. contains l n) (request_stop-awaiting t.run.shared) ∙ h))
        v.sound;
}
