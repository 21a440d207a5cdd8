-- ===== src/Net/Poll.antt =====
-- The waits of vakt-net: `poll` of vakt-net/src/main.rs and `wait_for_carrier` of vakt-net/src/link.rs. What a call
-- finds is a function of how many calls there were before it; durations are in milliseconds.
use vakt_os.Base.{
  ℕ, zero, suc, ◌+◌, ◌*◌, ◌≤◌, ◌<◌, ◌≡◌, refl, sym, ◌∙◌, ap, subst, inl, inr, Bool, true, false,
  Option, none, some, Option-cases, Bool-cases, if◌then◌else◌, leb, arith,
}

abbrev pub step : ℕ
step = 500

-- The loop, on fuel.
poll_from : {A : Type 0} → ℕ → ℕ → (ℕ → Option A) → (waited calls : ℕ) → Option A
poll_from zero timeout f waited calls = none
poll_from (suc fuel) timeout f waited calls = elim (f calls) [
  | some value ↦ some value
  | none ↦ elim (leb timeout waited) [
    | true ↦ none
    | false ↦ poll_from fuel timeout f (waited + step) (suc calls)
  ]
]

unfoldable pub poll : {A : Type 0} → ℕ → (ℕ → Option A) → Option A
unfolding poll_from
poll timeout f = poll_from (suc timeout) timeout f 0 0

wait_from : ℕ → ℕ → (ℕ → Bool) → (waited calls : ℕ) → Bool
wait_from zero timeout has waited calls = false
wait_from (suc fuel) timeout has waited calls = elim (has calls) [
  | true ↦ true
  | false ↦ elim (leb timeout waited) [
    | true ↦ false
    | false ↦ wait_from fuel timeout has (waited + step) (suc calls)
  ]
]

unfoldable pub wait_for_carrier : ℕ → (ℕ → Bool) → Bool
unfolding wait_from
wait_for_carrier timeout has = wait_from (suc timeout) timeout has 0 0

-- How a poll ends whose first call is the n-th: with the first value that any call in time finds, or with none because
-- no call in time finds one.
pub data Polled {A : Type 0} (timeout : ℕ) (f : ℕ → Option A) (n : ℕ) : Option A → Type 0 where
  found :
      (k : ℕ) (a : A)
      → n ≤ k
      → k * step < timeout + step
      → f k ≡ some a
      → ((j : ℕ) → n ≤ j → j < k → f j ≡ none)
      → Polled timeout f n (some a)
  gave_up : ((j : ℕ) → n ≤ j → j * step < timeout + step → f j ≡ none) → Polled timeout f n none

module _ {A : Type 0} (timeout : ℕ) (f : ℕ → Option A) where
  none_at : (n j : ℕ) → f n ≡ none → j ≡ n → f j ≡ none
  none_at n j h e = ap f e ∙ h

  after_none :
      (n : ℕ) (o : Option A) → f n ≡ none → Polled timeout f (suc n) o → Polled timeout f n o
  after_none n (some a) h (found k _ from in_time is before) =
      found k a (omega arith) in_time is (λ j low high. elim (Bool-cases (leb j n)) [
        | inl at ↦ none_at n j h (ground arith)
        | inr above ↦ before j (ground arith) high
      ])
  after_none n none h (gave_up before) = gave_up (λ j low in_time. elim (Bool-cases (leb j n)) [
    | inl at ↦ none_at n j h (ground arith)
    | inr above ↦ before j (ground arith) in_time
  ])

  poll_from-Polled :
      (fuel n : ℕ)
      → n * step < timeout + step
      → timeout + step ≤ (fuel + n) * step
      → Polled timeout f n (poll_from fuel timeout f (n * step) n)
  unfolding poll_from
  poll_from-Polled zero n h k = gave_up (λ j low in_time. absurd (omega arith))
  poll_from-Polled (suc fuel) n h k = elim (Option-cases (f n)) [
    | inr (a, is) ↦
        rw (is, poll_from) (found n a (omega arith) h is (λ j low high. absurd (omega arith)))
    | inl missing ↦ elim (Bool-cases (leb timeout (n * step))) [
      | inl late ↦
          rw (missing, late, poll_from)
            (gave_up (λ j low in_time. none_at n j missing (ground arith)))
      | inr early ↦
          rw (missing, early, poll_from)
            (after_none n _ missing (
              subst (λ w. Polled timeout f (suc n) (poll_from fuel timeout f w (suc n)))
                {x = suc n * step} {y = n * step + step} (omega arith)
                (poll_from-Polled fuel (suc n) (ground arith) (ground arith))))
    ]
  ]

-- `poll` looks every half a second until the timeout has passed, and gives the first value that a look in that time
-- finds; it gives none only if no look in that time finds one.
pub poll-Polled :
    {A : Type 0} (timeout : ℕ) (f : ℕ → Option A) → Polled timeout f 0 (poll timeout f)
unfolding poll
poll-Polled timeout f = poll_from-Polled timeout f (suc timeout) 0 (omega arith) (omega arith)

abbrev as_option : Bool → Option (Unit {0})
as_option b = if b then some tt else none

abbrev is_some : {A : Type 0} → Option A → Bool
is_some none = false
is_some (some a) = true

wait_from_lem :
    (fuel timeout : ℕ) (has : ℕ → Bool) (waited calls : ℕ)
    → wait_from fuel timeout has waited calls
      ≡ is_some (poll_from fuel timeout (λ n. as_option (has n)) waited calls)
unfolding wait_from poll_from
wait_from_lem zero timeout has waited calls = refl
wait_from_lem (suc fuel) timeout has waited calls = elim (Bool-cases (has calls)) [
  | inl yes_carrier ↦ rw (yes_carrier, wait_from, poll_from) refl
  | inr no_carrier ↦ elim (Bool-cases (leb timeout waited)) [
    | inl late ↦ rw (no_carrier, late, wait_from, poll_from) refl
    | inr early ↦
        rw (no_carrier, early, wait_from, poll_from)
          (wait_from_lem fuel timeout has (waited + step) (suc calls))
  ]
]

-- A carrier that was waited for was there at some look in time.
pub wait_for_carrier_lem :
    (timeout : ℕ) (has : ℕ → Bool)
    → wait_for_carrier timeout has ≡ true
    → (k : ℕ) × (k * step < timeout + step) × (has k ≡ true)
unfolding wait_for_carrier poll
wait_for_carrier_lem timeout has h =
    go (poll timeout (λ n. as_option (has n))) (poll-Polled timeout (λ n. as_option (has n)))
      (sym (wait_from_lem (suc timeout) timeout has 0 0) ∙ h)
  where
    carrier : (b : Bool) → as_option b ≡ some tt → b ≡ true
    carrier true e = refl
    carrier false e = absurd (cc)

    go :
        (o : Option (Unit {0}))
        → Polled timeout (λ n. as_option (has n)) 0 o
        → is_some o ≡ true
        → (k : ℕ) × (k * step < timeout + step) × (has k ≡ true)
    go (some u) (found k _ from in_time is before) e = (k, in_time, carrier (has k) is)
    go none p e = absurd (cc)
