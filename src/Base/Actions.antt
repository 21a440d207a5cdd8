-- ===== src/Base/Actions.antt =====
-- Steps that change a state and may end in an error. What a step has changed stays changed when it fails.
use vakt_os.Base.Core.{◌≡◌, refl, Bool, true, false, if◌then◌else◌}
use vakt_os.Base.Results.{Result, ok, err}

abbrev pub Action : Type 0 → Type 0 → Type 0 → Type 0
Action S E A = S → S × Result E A

abbrev pub lift : {S E A : Type 0} → Result E A → Action S E A
lift r s = (s, r)

-- A call whose failure is the error `e`, and that changes nothing else.
abbrev pub require : {S E : Type 0} → Bool → E → Action S E (Unit {0})
require b e s = (s, if b then ok tt else err e)

abbrev pub bind_result : {S E A B : Type 0} → S × Result E A → (A → Action S E B) → S × Result E B
bind_result (s, ok a) f = f a s
bind_result (s, err e) f = (s, err e)

infixl 5 ◌>>=◌ ◌>>◌
abbrev pub ◌>>=◌ : {S E A B : Type 0} → Action S E A → (A → Action S E B) → Action S E B
◌>>=◌ step f s = bind_result (step s) f

abbrev pub ◌>>◌ : {S E A B : Type 0} → Action S E A → Action S E B → Action S E B
step >> next = step >>= λ _. next

-- `Q` of the result and the state if the step went through, and `F` of the error and the state if not.
abbrev pub Ensures :
    {S E A : Type 0} → (A → S → Type 0) → (E → S → Type 0) → S × Result E A → Type 0
Ensures Q F (s, ok a) = Q a s
Ensures Q F (s, err e) = F e s

pub >>=-Ensures :
    {S E A B : Type 0} (P : A → S → Type 0) (Q : B → S → Type 0) (F : E → S → Type 0)
    (r : S × Result E A) (f : A → Action S E B)
    → Ensures P F r
    → ((a : A) (s : S) → P a s → Ensures Q F (f a s))
    → Ensures Q F (bind_result r f)
>>=-Ensures P Q F (s, ok a) f h k = k a s h
>>=-Ensures P Q F (s, err e) f h k = h

-- Going on after a check, knowing what it found.
module _ {S E B : Type 0} (Q : B → S → Type 0) (F : E → S → Type 0) (s : S) where
  pub require-Ensures :
      (b : Bool) (e : E) (next : Action S E B)
      → (b ≡ false → F e s)
      → (b ≡ true → Ensures Q F (next s))
      → Ensures Q F ((require b e >> next) s)
  require-Ensures true e next f q = q refl
  require-Ensures false e next f q = f refl

  pub lift-Ensures :
      {A : Type 0} (r : Result E A) (f : A → Action S E B)
      → ((e : E) → r ≡ err e → F e s)
      → ((a : A) → r ≡ ok a → Ensures Q F (f a s))
      → Ensures Q F ((lift r >>= f) s)
  lift-Ensures (ok a) f h q = q a refl
  lift-Ensures (err e) f h q = h e refl

-- A check, and a result, at the end.
module _ {S E A : Type 0} (Q : A → S → Type 0) (F : E → S → Type 0) (s : S) where
  pub last_lift-Ensures :
      (r : Result E A)
      → ((e : E) → r ≡ err e → F e s)
      → ((a : A) → r ≡ ok a → Q a s)
      → Ensures Q F (lift r s)
  last_lift-Ensures (ok a) f q = q a refl
  last_lift-Ensures (err e) f q = f e refl

pub last_require-Ensures :
    {S E : Type 0} (Q : Unit {0} → S → Type 0) (F : E → S → Type 0) (s : S) (b : Bool) (e : E)
    → (b ≡ false → F e s)
    → (b ≡ true → Q tt s)
    → Ensures Q F (require b e s)
last_require-Ensures Q F s true e f q = q refl
last_require-Ensures Q F s false e f q = f refl
