-- ===== src/Init/Supervision/Launch.antt =====
-- From `launch` on: the first start of every service, and what holds from then on, for
-- vakt-init/src/services.rs.
use vakt_os.Base.{
  ℕ, ◌≡◌, ap, ap₂, ◌∙◌, refl, sym, false, List, [], ◌∷◌, none, Text, text_eq, nat_eq, lookup, arith,
  ◌==◌, All, subst,
}
use vakt_os.Init.Control
use vakt_os.Init.Control.{Service, Shared}
use vakt_os.Init.Supervisor.{Managed, Run, Spawn, start, start_all, managed}
use vakt_os.Init.Supervisor.Restart.{IsSound, start-IsSound, start-spec}
use vakt_os.Init.Supervisor.Pass.{Frame, start-Frame}
use vakt_os.Init.Supervision.{
  System, launch, Reaches, IsDistinct, AllSound, specs_of, Keeps, Keeps-trans, Keeps-Frame,
  IsSound-Keeps, IsSupervised, Removed, next-IsSupervised,
}

-- Before its first start a service has no child, no restarts and no PID file.
record IsUnstarted (m : Managed) (r : Run) : Type 0 where
  no_restarts : m.restarts ≡ 0
  no_file : lookup m.spec.name r.pid_files ≡ none

IsUnstarted-Frame :
    {r r' : Run} (name : Text) (ms : List Managed)
    → All (λ (t : Service). (name == t.name) ≡ false) (specs_of ms)
    → Frame name r r'
    → All (λ m. IsUnstarted m r) ms
    → All (λ m. IsUnstarted m r') ms
IsUnstarted-Frame name [] d f v = tt
IsUnstarted-Frame name (m ∷ ms) d f v = (
  record { no_restarts = v.0.no_restarts; no_file = f.files m.spec.name d.0 ∙ v.0.no_file },
  IsUnstarted-Frame name ms d.1 f v.1,
)

start_all-Keeps :
    (spawns : Text → Spawn) (n : Text) (ms : List Managed) (r : Run)
    → All (λ (t : Service). (n == t.name) ≡ false) (specs_of ms)
    → Keeps n r (start_all spawns ms r).1
unfolding start_all
start_all-Keeps spawns n [] r d = record { file = refl; awaiting = λ h. h }
start_all-Keeps spawns n (m ∷ ms) r d =
    Keeps-trans
      (Keeps-Frame n
        (ground (arith, d.0, text_eq.beq_iff n m.spec.name, text_eq.beq_iff m.spec.name n))
        (start-Frame (spawns m.spec.name) m r))
      (start_all-Keeps spawns n ms _ d.1)

start_all-AllSound :
    (K : Text → Type 0) (spawns : Text → Spawn) (ms : List Managed) (r : Run)
    → IsDistinct (specs_of ms)
    → All (λ m. IsUnstarted m r) ms
    → AllSound K (start_all spawns ms r).0 (start_all spawns ms r).1
      × (specs_of (start_all spawns ms r).0 ≡ specs_of ms)
unfolding start_all
start_all-AllSound K spawns [] r d v = (tt, refl)
start_all-AllSound K spawns (m ∷ ms) r d v =
    let s = spawns m.spec.name in
    let m' = (start s m r).0 in
    let r' = (start s m r).1 in
    let same : m'.spec ≡ m.spec = start-spec s m r in
    let one : IsSound (K m.spec.name) m' r' =
      start-IsSound (K m.spec.name) s m r (omega (arith, v.0.no_restarts)) (λ p. v.0.no_file) in
    let named : IsSound (K m'.spec.name) m' r' =
      subst (λ (k : Service). IsSound (K k.name) m' r') (sym same) one in
    let (rest, specs) =
      start_all-AllSound K spawns ms r' d.1
        (IsUnstarted-Frame m.spec.name ms d.0 (start-Frame s m r) v.1) in
    (
      (
        IsSound-Keeps (K m'.spec.name) m'
            (subst (λ (k : Service). Keeps k.name r' (start_all spawns ms r').1) (sym same)
              (start_all-Keeps spawns m.spec.name ms r' d.0))
            named,
        rest,
      ),
      ap₂ (λ s l. s ∷ l) same specs,
    )

managed_lem :
    (now : ℕ) (specs : List Service) (sh : Shared)
    → (specs_of (managed now specs) ≡ specs)
      × All (λ m. IsUnstarted m (record { shared = sh; pid_files = [] })) (managed now specs)
unfolding managed
managed_lem now [] sh = (refl, tt)
managed_lem now (s ∷ specs) sh =
    let (same, rest) = managed_lem now specs sh in
    (ap (◌∷◌ s) same, (record { no_restarts = refl; no_file = refl }, rest))

launch-IsSupervised :
    (K : Text → Type 0) (spawns : Text → Spawn) (now : ℕ) (specs : List Service)
    → IsDistinct specs
    → IsSupervised K (launch spawns now specs)
unfolding launch
launch-IsSupervised K spawns now specs d =
    let (same, fresh) = managed_lem now specs (Control.new specs) in
    let d' = subst IsDistinct (sym same) d in
    let (sound, kept) =
      start_all-AllSound K spawns (managed now specs)
        (record { shared = Control.new specs; pid_files = [] }) d' fresh in
    record { distinct = subst IsDistinct (sym kept) d'; sound = sound }

Reaches-invariant :
    {s t : System} (r : Reaches s t)
    → IsSupervised (λ n. Unit) s
    → IsSupervised (λ n. Removed n r) t
Reaches-invariant Reaches.here v = v
Reaches-invariant (Reaches.next r turn) v = next-IsSupervised r turn (Reaches-invariant r v)

-- For services of distinct names, from `start_all` on, through any passes of `reap`, notifications and requests to
-- stop, in any order and with any answers of the kernel, every service is sound: it has a child exactly while it
-- is running, its restart counter stays at six or less, and at five or less while it runs, and boot does not wait
-- for it unless it has a child. And it has no PID file unless it has a child, if the kernel's answer about that
-- service is in each pass that its PID file can be removed; the code goes on where it cannot.
pub Reaches-IsSupervised :
    (spawns : Text → Spawn) (now : ℕ) (specs : List Service) (s : System)
    → IsDistinct specs
    → (reached : Reaches (launch spawns now specs) s)
    → All (λ m. IsSound (Removed m.spec.name reached) m s.run) s.services
Reaches-IsSupervised spawns now specs s d reached =
    (Reaches-invariant reached (launch-IsSupervised (λ n. Unit) spawns now specs d)).sound
