-- ===== src/Init/Privilege/Dropped.antt =====
-- What `become_user` of vakt-init/src/privilege.rs leaves of root.
use vakt_os.Base.{ℕ, ◌≡◌, refl, ◌∙◌, ap, List, [], ◌∷◌, Option, none, some}
use vakt_os.Base.Actions.{Ensures, >>=-Ensures}
use vakt_os.Init.Privilege.{
  Credentials, Kernel, DropError, setgroups_failed, setgid_failed, setuid_failed, not_dropped, call,
  applied, refused, become_user,
}

-- What the manual pages say of the calls that go through: each sets what it is named for, and leaves the rest.
pub record IsPosix (k : Kernel) : Type 0 where
  pub setgroups :
      (groups : List ℕ) (c c' : Credentials)
      → k.setgroups groups c ≡ some c'
      → c' ≡ record c { groups = groups }
  pub setgid :
      (gid : ℕ) (c c' : Credentials) → k.setgid gid c ≡ some c' → c' ≡ record c { gid = gid }
  pub setuid :
      (uid : ℕ) (c c' : Credentials) → k.setuid uid c ≡ some c' → c' ≡ record c { uid = uid }

module _ (k : Kernel) (posix : IsPosix k) (uid gid : ℕ) (root : Credentials) where
  -- The account's numbers, its one group, and no way back.
  abbrev pub IsDropped : Credentials → Type 0
  IsDropped c = (c ≡ record { uid = uid; gid = gid; groups = gid ∷ [] }) × (k.setuid 0 c ≡ none)

  -- After an error: the uid is still the old one, or root was regained.
  abbrev pub IsFailed : DropError → Credentials → Type 0
  IsFailed not_dropped c = c.uid ≡ 0
  IsFailed _ c = c.uid ≡ root.uid

  call-Ensures :
      (Q : Unit {0} → Credentials → Type 0) (f : Credentials → Option Credentials) (e : DropError)
      (c : Credentials)
      → IsFailed e c
      → ((c' : Credentials) → f c ≡ some c' → Q tt c')
      → Ensures Q IsFailed (call f e c)
  call-Ensures Q f e c h q = go (f c) refl
    where
      go : (o : Option Credentials) → f c ≡ o → Ensures Q IsFailed (applied o e c)
      go none is = h
      go (some c') is = q c' is

  -- When the kernel keeps to the manual: `become_user` that succeeds has left the account's uid and gid and its
  -- gid as the only group, and the kernel refuses to make it root again. When it fails, the uid is the one it began
  -- with, or the check at the end has found that it can be root.
  pub become_user-Ensures : Ensures (λ _ c. IsDropped c) IsFailed (become_user k uid gid root)
  unfolding become_user
  become_user-Ensures =
      let Q : Unit {0} → Credentials → Type 0 = λ _ c. IsDropped c in
      >>=-Ensures (λ _ c. c ≡ record root { groups = gid ∷ [] }) Q IsFailed
        (call (k.setgroups (gid ∷ [])) setgroups_failed root) _
        (call-Ensures (λ _ c. c ≡ record root { groups = gid ∷ [] }) (k.setgroups (gid ∷ []))
          setgroups_failed root refl (posix.setgroups (gid ∷ []) root))
        (λ _ c is.
          >>=-Ensures (λ _ c. c ≡ record { uid = root.uid; gid = gid; groups = gid ∷ [] }) Q
            IsFailed (call (k.setgid gid) setgid_failed c) _
            (call-Ensures (λ _ c. c ≡ record { uid = root.uid; gid = gid; groups = gid ∷ [] })
              (k.setgid gid) setgid_failed c (ap (λ c. c.uid) is)
              (λ c' ran.
                posix.setgid gid c c' ran ∙ ap (λ (c : Credentials). record c { gid = gid }) is))
            (λ _ c is.
              >>=-Ensures (λ _ c. c ≡ record { uid = uid; gid = gid; groups = gid ∷ [] }) Q IsFailed
                (call (k.setuid uid) setuid_failed c) _
                (call-Ensures (λ _ c. c ≡ record { uid = uid; gid = gid; groups = gid ∷ [] })
                  (k.setuid uid) setuid_failed c (ap (λ c. c.uid) is)
                  (λ c' ran.
                    posix.setuid uid c c' ran
                    ∙ ap (λ (c : Credentials). record c { uid = uid }) is))
                (λ _ c is. last c is)))
    where
      last :
          (c : Credentials)
          → c ≡ record { uid = uid; gid = gid; groups = gid ∷ [] }
          → Ensures (λ _ c. IsDropped c) IsFailed (refused (k.setuid 0 c) c)
      last c is = go (k.setuid 0 c) refl
        where
          go :
              (o : Option Credentials)
              → k.setuid 0 c ≡ o
              → Ensures (λ _ c. IsDropped c) IsFailed (refused o c)
          go none h = (is, h)
          go (some c') h = ap (λ c. c.uid) (posix.setuid 0 c c' h)
