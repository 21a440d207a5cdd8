-- ===== src/Init/Status/Lines.antt =====
-- What the panel can read of the status file, for vakt-init/src/services.rs.
use vakt_os.Base.{
  ℕ, ◌≡◌, refl, ◌∙◌, ap₂, inl, inr, ◌⊎◌, Bool, true, false, ◌&&◌, List, [], ◌∷◌, ◌++◌, Option, none,
  some, Text, text_eq, nat_eq, show, show-lacks, contains, contains-append, lines, lines_from,
  lines-line, strip_cr_lem, ends_in_cr, ends_in_cr-append, All, Bool-cases, arith,
}
use vakt_os.Init.Control
use vakt_os.Init.Control.{Shared}
use vakt_os.Init.Supervisor.{State, running, exited, failed, stopped, Managed}
use vakt_os.Init.Status.{
  state_text, pid_text, readiness, reported_or, status_line, status_body, Writes, Files,
  write_status,
}

abbrev Lacks : Text → Type 0
Lacks t = contains t b'\n' ≡ false

Lacks-append : (s t : Text) → Lacks s → Lacks t → Lacks (s ++ t)
Lacks-append s t h k = ground (arith, contains-append s t b'\n')

state-Lacks : (s : State) → Lacks (state_text s)
state-Lacks running = refl
state-Lacks exited = refl
state-Lacks failed = refl
state-Lacks stopped = refl

readiness-Lacks : (n r : Bool) → Lacks (readiness n r)
readiness-Lacks false r = refl
readiness-Lacks true true = refl
readiness-Lacks true false = refl

show-Lacks : (n : ℕ) → Lacks (show n)
show-Lacks n = show-lacks n b'\n' (omega arith)

pid-Lacks : (o : Option ℕ) → Lacks (pid_text o)
pid-Lacks none = refl
pid-Lacks (some pid) = show-Lacks pid

-- What is shown of a service is a single line.
pub record IsShown (m : Managed) (reported : Option Text) : Type 0 where
  pub name : Lacks m.spec.name
  pub detail : Lacks (reported_or m.spec.description reported)
  pub ends : ends_in_cr (reported_or m.spec.description reported) ≡ false

line-Lacks :
    (m : Managed) (ready : Bool) (reported : Option Text)
    → IsShown m reported
    → Lacks (status_line m (ready, reported))
unfolding status_line
line-Lacks m ready reported h = Lacks-append m.spec.name _ h.name (
    Lacks-append (state_text m.state) _ (state-Lacks m.state) (
      Lacks-append (pid_text m.child) _ (pid-Lacks m.child) (
        Lacks-append (show m.restarts) _ (show-Lacks m.restarts) (
          Lacks-append (readiness m.spec.notifies ready) _ (readiness-Lacks m.spec.notifies ready)
            h.detail))))

tab_ends : (t : Text) → ends_in_cr t ≡ false → ends_in_cr (b'\t' ∷ t) ≡ false
tab_ends [] h = refl
tab_ends (c ∷ t) h = h

field_ends :
    (field rest : Text)
    → ends_in_cr (b'\t' ∷ rest) ≡ false
    → ends_in_cr (b'\t' ∷ (field ++ b'\t' ∷ rest)) ≡ false
field_ends field rest h = ends_in_cr-append (b'\t' ∷ field) b'\t' rest ∙ h

line-ends :
    (m : Managed) (ready : Bool) (reported : Option Text)
    → IsShown m reported
    → ends_in_cr (status_line m (ready, reported)) ≡ false
unfolding status_line
line-ends m ready reported h =
    ends_in_cr-append m.spec.name b'\t' _
    ∙ field_ends (state_text m.state) _ (
        field_ends (pid_text m.child) _ (
          field_ends (show m.restarts) _ (
            field_ends (readiness m.spec.notifies ready) (reported_or m.spec.description reported)
              (tab_ends (reported_or m.spec.description reported) h.ends))))

-- Every service of the list can be shown on a single line.
abbrev pub AllShown : Shared → List Managed → Type 0
AllShown s ms = All (λ (m : Managed). IsShown m (Control.snapshot m.spec.name s).1) ms

abbrev pub lines_of : Shared → List Managed → List Text
lines_of s [] = []
lines_of s (m ∷ ms) = status_line m (Control.snapshot m.spec.name s) ∷ lines_of s ms

lines-status_body :
    (s : Shared) (ms : List Managed) → AllShown s ms → lines (status_body s ms) ≡ lines_of s ms
unfolding status_body lines lines_from
lines-status_body s [] h = refl
lines-status_body s (m ∷ ms) h =
    let (ready, reported) = Control.snapshot m.spec.name s in
    let line = status_line m (ready, reported) in
    lines-line line [] (status_body s ms) (line-Lacks m ready reported h.0)
    ∙ ap₂ (λ (l : Text) (ls : List Text). l ∷ ls)
        (strip_cr_lem line (line-ends m ready reported h.0)) (lines-status_body s ms h.1)

-- Whichever calls fail, the status file is afterwards what it was, or it is the new summary as a whole,
-- which then has one line for each service, in their order, if names are single lines and so are the
-- details, none of which ends in a carriage return.
pub write_status-lines :
    (f : Writes) (s : Shared) (ms : List Managed) (files : Files)
    → AllShown s ms
    → ((write_status f s ms files).status ≡ files.status)
      ⊎ ((body : Text) × ((write_status f s ms files).status ≡ some body)
          × (lines body ≡ lines_of s ms))
unfolding write_status
write_status-lines f s ms files h = elim (Bool-cases (f.creates && f.writes)) [
  | inr fails ↦ inl (rw (fails, write_status) refl)
  | inl works ↦ elim (Bool-cases f.renames) [
    | inr stays ↦ inl (rw (works, stays, write_status) refl)
    | inl moves ↦
        inr (status_body s ms, rw (works, moves, write_status) refl, lines-status_body s ms h)
  ]
]
