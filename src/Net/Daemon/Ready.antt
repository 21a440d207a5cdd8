-- ===== src/Net/Daemon/Ready.antt =====
-- What the loop of vakt-net/src/main.rs keeps up, round after round: its backoff, and its report of readiness.
use vakt_os.Base.{
  ℕ, ◌*◌, min, ◌≤◌, ◌≡◌, refl, sym, subst, ◌∙◌, ap, Bool, true, false, List, [], ◌∷◌, ◌++◌,
  append_assoc, Option, none, some, Text, text, Result, ok, err, if◌then◌else◌, All, All-append,
  arith,
}
use vakt_os.Net.Config.{NetConfig, default, is_wireless}
use vakt_os.Net.Daemon.{
  State, Output, write_status, notify_ready, notify_status, start_scanner, refresh_scan, wait,
  backoff_start, backoff_max, Daemon, started, Look, changed, shows, Round, emit, announce,
  connected_status, monitor, scan_if, status_of, settle, attempt, offer_scan, unconfigured_status,
  wait_unconfigured, without_config, with_config, turn, turns,
}

-- What PID 1 does not hear, and what does not report readiness.
abbrev pub IsUnheard : Output → Type 0
IsUnheard (notify_ready detail) = ⊥
IsUnheard (notify_status detail) = ⊥
IsUnheard _ = Unit

abbrev pub IsNotReady : Output → Type 0
IsNotReady (notify_ready detail) = ⊥
IsNotReady _ = Unit

-- A wait is bounded by the bounds of the backoff.
abbrev pub IsBounded : Output → Type 0
IsBounded (wait seconds) = (backoff_start ≤ seconds) × (seconds ≤ backoff_max)
IsBounded _ = Unit

pub record ReadyOnce (outputs : List Output) : Type 0 where
  pub before : List Output
  pub detail : Text
  pub after : List Output
  pub split_at : outputs ≡ before ++ notify_ready detail ∷ after
  pub silent : All IsUnheard before
  pub rest : All IsNotReady after

abbrev pub Told : Bool → List Output → Type 0
Told false outputs = All IsUnheard outputs
Told true outputs = ReadyOnce outputs

-- Before it has announced itself the daemon has said nothing to PID 1; afterwards it has reported readiness once,
-- before anything else.
pub record IsSteady (d : Daemon) : Type 0 where
  pub low : backoff_start ≤ d.backoff
  pub high : d.backoff ≤ backoff_max
  pub waits : All IsBounded d.outputs
  pub told : Told d.announced d.outputs

not_ready : (o : Output) → IsUnheard o → IsNotReady o
not_ready (write_status s) h = tt
not_ready (notify_ready t) h = h
not_ready (notify_status t) h = tt
not_ready (start_scanner i) h = tt
not_ready (refresh_scan i) h = tt
not_ready (wait n) h = tt

ReadyOnce-emit :
    (outputs : List Output) (o : Output)
    → IsNotReady o
    → ReadyOnce outputs
    → ReadyOnce (outputs ++ o ∷ [])
ReadyOnce-emit outputs o h r = record {
  before = r.before;
  detail = r.detail;
  after = r.after ++ o ∷ [];
  split_at =
      ap (λ x. x ++ o ∷ []) r.split_at
      ∙ append_assoc r.before (notify_ready r.detail ∷ r.after) (o ∷ []);
  silent = r.silent;
  rest = All-append IsNotReady r.after (o ∷ []) r.rest (h, tt);
}

Told-emit :
    (b : Bool) (outputs : List Output) (o : Output)
    → IsUnheard o
    → Told b outputs
    → Told b (outputs ++ o ∷ [])
Told-emit false outputs o h t = All-append IsUnheard outputs (o ∷ []) t (h, tt)
Told-emit true outputs o h t = ReadyOnce-emit outputs o (not_ready o h) t

emit-IsSteady :
    (o : Output) (d : Daemon) → IsUnheard o → IsBounded o → IsSteady d → IsSteady (emit o d)
emit-IsSteady o d h b s = record {
  low = s.low;
  high = s.high;
  waits = All-append IsBounded d.outputs (o ∷ []) s.waits (b, tt);
  told = Told-emit d.announced d.outputs o h s.told;
}

-- Steady, and announced.
abbrev pub IsSettled : Daemon → Type 0
IsSettled d = IsSteady d × (d.announced ≡ true)

announce-IsSettled : (detail : Text) (d : Daemon) → IsSteady d → IsSettled (announce detail d)
unfolding announce
announce-IsSettled detail d s = go d.announced refl
  where
    go :
        (b : Bool)
        → d.announced ≡ b
        → IsSettled (
            if b
            then emit (notify_status detail) d
            else emit (notify_ready detail) (record d { announced = true }))
    go true e = (
      record {
        low = s.low;
        high = s.high;
        waits = All-append IsBounded d.outputs (notify_status detail ∷ []) s.waits (tt, tt);
        told =
            subst (λ b. Told b (d.outputs ++ notify_status detail ∷ [])) {x = true}
              {y = d.announced} (sym e)
              (ReadyOnce-emit d.outputs (notify_status detail) tt
                (subst (λ b. Told b d.outputs) {x = d.announced} {y = true} e s.told));
      },
      e,
    )
    go false e = (
      record {
        low = s.low;
        high = s.high;
        waits = All-append IsBounded d.outputs (notify_ready detail ∷ []) s.waits (tt, tt);
        told = record {
          before = d.outputs;
          detail = detail;
          after = [];
          split_at = refl;
          silent = subst (λ b. Told b d.outputs) {x = d.announced} {y = false} e s.told;
          rest = tt;
        };
      },
      refl,
    )

emit-IsSettled :
    (o : Output) (d : Daemon) → IsUnheard o → IsBounded o → IsSettled d → IsSettled (emit o d)
emit-IsSettled o d h b s = (emit-IsSteady o d h b s.0, s.1)

monitor-IsSettled :
    (cfg : NetConfig) (looks : List Look) (d : Daemon)
    → IsSettled d
    → IsSettled (monitor cfg looks d)
unfolding monitor
monitor-IsSettled cfg [] d s = s
monitor-IsSettled cfg (changed ∷ looks) d s = s
monitor-IsSettled cfg (shows none ∷ looks) d s = s
monitor-IsSettled cfg (shows (some ip) ∷ looks) d s =
    monitor-IsSettled cfg looks _
      (emit-IsSettled (write_status (connected_status cfg ip)) d tt tt s)

scan_if-IsSettled :
    (b : Bool) (interface : Text) (d : Daemon) → IsSettled d → IsSettled (scan_if b interface d)
scan_if-IsSettled true interface d s = emit-IsSettled (refresh_scan interface) d tt tt s
scan_if-IsSettled false interface d s = s

set_backoff :
    (n : ℕ) (d : Daemon)
    → backoff_start ≤ n
    → n ≤ backoff_max
    → IsSettled d
    → IsSettled (record d { backoff = n })
set_backoff n d low high s =
    (record { low = low; high = high; waits = s.0.waits; told = s.0.told }, s.1)

doubled :
    (n : ℕ)
    → backoff_start ≤ n
    → (backoff_start ≤ min (n * 2) backoff_max) × (min (n * 2) backoff_max ≤ backoff_max)
doubled n h = (omega arith, omega arith)

settle-IsSettled :
    (cfg : NetConfig) (looks : List Look) (r : Result Text Text) (d : Daemon)
    → IsSteady d
    → IsSettled (settle cfg looks r d)
unfolding settle
settle-IsSettled cfg looks (ok ip) d s = monitor-IsSettled cfg looks _ (
    set_backoff backoff_start _ (omega arith) (omega arith)
      (emit-IsSettled (write_status (connected_status cfg ip)) _ tt tt (announce-IsSettled _ d s)))
settle-IsSettled cfg looks (err e) d s =
    let told = emit-IsSteady (write_status (status_of State.failed cfg e)) d tt tt s in
    let said = announce-IsSettled (text "connection failed: " ++ e) _ told in
    let scanned = scan_if-IsSettled (is_wireless cfg) cfg.interface _ said in
    let waited = emit-IsSettled (wait _) _ tt (scanned.0.low, scanned.0.high) scanned in
    set_backoff _ _ (doubled _ scanned.0.low).0 (doubled _ scanned.0.low).1 waited

attempt-IsSettled :
    (r : Round) (cfg : NetConfig) (d : Daemon) → IsSteady d → IsSettled (attempt r cfg d)
unfolding attempt
attempt-IsSettled r cfg d s =
    settle-IsSettled cfg r.looks (r.connect cfg) _ (emit-IsSteady (write_status _) d tt tt s)

offer_scan-IsSteady : (o : Option Text) (d : Daemon) → IsSteady d → IsSteady (offer_scan o d)
offer_scan-IsSteady none d s = s
offer_scan-IsSteady (some i) d s =
    emit-IsSteady (refresh_scan i) _ tt tt (emit-IsSteady (start_scanner i) d tt tt s)

unconfigured-IsSettled : (r : Round) (d : Daemon) → IsSteady d → IsSettled (wait_unconfigured r d)
unfolding wait_unconfigured
unconfigured-IsSettled r d s =
    emit-IsSettled (wait backoff_max) _ tt (omega arith, omega arith)
      (announce-IsSettled (text "no network configured") _ (
        offer_scan-IsSteady r.wireless _
          (emit-IsSteady (write_status unconfigured_status) d tt tt s)))

turn-IsSettled : (r : Round) (d : Daemon) → IsSteady d → IsSettled (turn r d)
unfolding turn
turn-IsSettled r d s = go r.configured
  where
    wired : (w : Option Text) → IsSettled (without_config w r d)
    wired (some i) = attempt-IsSettled r (record default { interface = i }) d s
    wired none = unconfigured-IsSettled r d s

    go : (c : Option NetConfig) → IsSettled (with_config c r d)
    go (some cfg) = attempt-IsSettled r cfg d s
    go none = wired r.wired

turns-IsSteady : (rounds : List Round) (d : Daemon) → IsSteady d → IsSteady (turns rounds d)
unfolding turns
turns-IsSteady [] d s = s
turns-IsSteady (r ∷ rounds) d s = turns-IsSteady rounds (turn r d) (turn-IsSettled r d s).0

turns-IsSettled : (rounds : List Round) (d : Daemon) → IsSettled d → IsSettled (turns rounds d)
unfolding turns
turns-IsSettled [] d s = s
turns-IsSettled (r ∷ rounds) d s = turns-IsSettled rounds (turn r d) (turn-IsSettled r d s.0)

started-IsSteady : IsSteady started
started-IsSteady = record { low = omega arith; high = omega arith; waits = tt; told = tt }

-- After any number of rounds, one at least, whatever each of them finds: the daemon has reported readiness exactly
-- once, and before anything else that it told PID 1; the backoff is between 5 and 60 seconds, and so was every wait
-- for a changed configuration. So neither a missing network nor a missing configuration holds up the boot.
pub turns_lem :
    (r : Round) (rounds : List Round)
    → IsSettled (turns (r ∷ rounds) started) × ReadyOnce (turns (r ∷ rounds) started).outputs
unfolding turns
turns_lem r rounds =
    let s = turns-IsSettled rounds (turn r started) (turn-IsSettled r started started-IsSteady) in
    (
      s,
      subst (λ b. Told b (turns rounds (turn r started)).outputs)
          {x = (turns rounds (turn r started)).announced} {y = true} s.1 s.0.told,
    )
