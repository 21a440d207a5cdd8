-- ===== src/Net/Daemon/Wait.antt =====
-- `wait_for_config_change` of vakt-net/src/main.rs ends.
use vakt_os.Base.{
  ℕ, zero, suc, ◌+◌, ◌≤◌, ◌<◌, ◌≡◌, ◌⊎◌, inl, inr, refl, ◌∙◌, ap, Bool, true, false, leb,
  Bool-cases, arith,
}
use vakt_os.Net.Daemon.{wait_from, wait_for_config_change}

-- Where a wait ends: at the first second at which the configuration has changed, or at the timeout.
pub record IsEnd (timeout : ℕ) (is_changed : ℕ → Bool) (first slept : ℕ) : Type 0 where
  pub later : first < slept
  pub in_time : slept ≤ timeout ⊎ (slept ≡ suc first)
  pub reason : (is_changed slept ≡ true) ⊎ (timeout ≤ slept)
  pub unchanged : (n : ℕ) → first < n → n < slept → is_changed n ≡ false

wait_from-IsEnd :
    (fuel timeout : ℕ) (is_changed : ℕ → Bool) (waited : ℕ)
    → timeout < fuel + waited
    → waited ≤ timeout
    → IsEnd timeout is_changed waited (wait_from fuel timeout is_changed waited)
unfolding wait_from
wait_from-IsEnd zero timeout is_changed waited h k = absurd (omega arith)
wait_from-IsEnd (suc fuel) timeout is_changed waited h k =
    elim (Bool-cases (is_changed (suc waited))) [
      | inl now ↦
          rw (now, wait_from)
            (record {
              later = omega arith;
              in_time = inr refl;
              reason = inl now;
              unchanged = λ n low high. absurd (omega arith);
            })
      | inr not_yet ↦ elim (Bool-cases (leb timeout (suc waited))) [
        | inl late ↦
            rw (not_yet, late, wait_from)
              (record {
                later = omega arith;
                in_time = inr refl;
                reason = inr (ground arith);
                unchanged = λ n low high. absurd (omega arith);
              })
        | inr early ↦
            rw (not_yet, early, wait_from)
              (next waited not_yet (ground arith) (
                wait_from-IsEnd fuel timeout is_changed (suc waited) (ground arith) (ground arith)))
      ]
    ]
  where
    next :
        (w : ℕ)
        → is_changed (suc w) ≡ false
        → suc w < timeout
        → {slept : ℕ} → IsEnd timeout is_changed (suc w) slept
        → IsEnd timeout is_changed w slept
    next w quiet early {slept} e = record {
      later = omega (arith, e.later);
      in_time = elim e.in_time [
        | inl early_enough ↦ inl early_enough
        | inr next_one ↦ inl (omega (arith, next_one, early))
      ];
      reason = e.reason;
      unchanged = λ n low high. elim (Bool-cases (leb n (suc w))) [
        | inl at ↦ ap is_changed (ground arith) ∙ quiet
        | inr above ↦ e.unchanged n (ground arith) high
      ];
    }

-- `wait_for_config_change` with a timeout of at least one second always returns: after at least one second and by the
-- timeout, at the first second at which the configuration has changed or, if it has not, at the timeout.
pub wait_for_config_change_lem :
    (timeout : ℕ) (is_changed : ℕ → Bool)
    → 0 < timeout
    → (wait_for_config_change timeout is_changed ≤ timeout)
      × IsEnd timeout is_changed 0 (wait_for_config_change timeout is_changed)
unfolding wait_for_config_change
wait_for_config_change_lem timeout is_changed h =
    let e = wait_from-IsEnd (suc timeout) timeout is_changed 0 (omega arith) (omega arith) in
    (elim e.in_time [ inl in_time ↦ in_time | inr one ↦ omega (arith, one, h) ], e)
