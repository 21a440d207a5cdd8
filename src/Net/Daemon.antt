-- ===== src/Net/Daemon.antt =====
-- The loop of `main` of vakt-net/src/main.rs, with `announce`, `monitor` and `wait_for_config_change`. What it tells the
-- panel and PID 1, and what it waits for, is a list of outputs, in order.
pub mod Ready
pub mod Wait
use vakt_os.Base.{
  ℕ, zero, suc, ◌+◌, ◌*◌, min, Bool, true, false, List, [], ◌∷◌, ◌++◌, Option, none, some, Text,
  text, Result, ok, err, if◌then◌else◌, leb,
}
use vakt_os.Net.Config.{NetConfig, default, is_wireless}

pub data State : Type 0 where
  unconfigured connecting connected failed : State

pub record Status : Type 0 where
  pub state : State
  pub interface : Text
  pub ssid : Option Text
  pub ip : Option Text
  pub detail : Text

pub data Output : Type 0 where
  write_status : Status → Output
  notify_ready notify_status : (detail : Text) → Output
  start_scanner refresh_scan : (interface : Text) → Output
  wait : (seconds : ℕ) → Output

abbrev pub backoff_start : ℕ
backoff_start = 5

abbrev pub backoff_max : ℕ
backoff_max = 60

pub record Daemon : Type 0 where
  pub backoff : ℕ
  pub announced : Bool
  pub outputs : List Output

abbrev pub started : Daemon
started = record { backoff = backoff_start; announced = false; outputs = [] }

-- What the monitor finds every ten seconds: a changed configuration, or what `ip` shows.
pub data Look : Type 0 where
  changed : Look
  shows : Option Text → Look

-- What one round of the loop finds: the configuration, the first wired and wireless links, how a connection ends,
-- and what the monitor sees of it.
pub record Round : Type 0 where
  pub configured : Option NetConfig
  pub wired : Option Text
  pub wireless : Option Text
  pub connect : NetConfig → Result Text Text
  pub looks : List Look

abbrev pub emit : Output → Daemon → Daemon
emit o d = record d { outputs = d.outputs ++ o ∷ [] }

unfoldable pub announce : Text → Daemon → Daemon
announce detail d =
    if d.announced
    then emit (notify_status detail) d
    else emit (notify_ready detail) (record d { announced = true })

abbrev pub connected_status : NetConfig → Text → Status
connected_status cfg ip = record {
  state = connected;
  interface = cfg.interface;
  ssid = cfg.ssid;
  ip = some ip;
  detail = text "Link is up.";
}

-- The looks of `monitor` up to the one that ends it.
unfoldable pub monitor : NetConfig → List Look → Daemon → Daemon
monitor cfg [] d = d
monitor cfg (changed ∷ looks) d = d
monitor cfg (shows none ∷ looks) d = d
monitor cfg (shows (some ip) ∷ looks) d =
    monitor cfg looks (emit (write_status (connected_status cfg ip)) d)

abbrev pub scan_if : Bool → Text → Daemon → Daemon
scan_if true interface d = emit (refresh_scan interface) d
scan_if false interface d = d

abbrev pub status_of : State → NetConfig → Text → Status
status_of state cfg detail = record {
  state = state;
  interface = cfg.interface;
  ssid = cfg.ssid;
  ip = none;
  detail = detail;
}

-- The match on what `connect` returns.
unfoldable pub settle : NetConfig → List Look → Result Text Text → Daemon → Daemon
settle cfg looks (ok ip) d =
    let said = announce (ip ++ (text " on " ++ cfg.interface)) d in
    let up = emit (write_status (connected_status cfg ip)) said in
    monitor cfg looks (record up { backoff = backoff_start })
settle cfg looks (err e) d =
    let told = emit (write_status (status_of failed cfg e)) d in
    let said = announce (text "connection failed: " ++ e) told in
    let scanned = scan_if (is_wireless cfg) cfg.interface said in
    let waited = emit (wait scanned.backoff) scanned in
    record waited { backoff = min (waited.backoff * 2) backoff_max }

unfoldable pub attempt : Round → NetConfig → Daemon → Daemon
attempt r cfg d =
    settle cfg r.looks (r.connect cfg)
      (emit (write_status (status_of connecting cfg (text "Bringing up interface..."))) d)

abbrev pub offer_scan : Option Text → Daemon → Daemon
offer_scan none d = d
offer_scan (some interface) d = emit (refresh_scan interface) (emit (start_scanner interface) d)

abbrev pub unconfigured_status : Status
unconfigured_status = record {
  state = unconfigured;
  interface = default.interface;
  ssid = none;
  ip = none;
  detail =
      text
        "No config and no wired link. Set up Wi-Fi in the panel, plug in a cable, or write /persistent/etc/vakt-net.conf.";
}

unfoldable pub wait_unconfigured : Round → Daemon → Daemon
wait_unconfigured r d =
    let told = emit (write_status unconfigured_status) d in
    emit (wait backoff_max) (announce (text "no network configured") (offer_scan r.wireless told))

abbrev pub without_config : Option Text → Round → Daemon → Daemon
without_config (some interface) r d = attempt r (record default { interface = interface }) d
without_config none r d = wait_unconfigured r d

abbrev pub with_config : Option NetConfig → Round → Daemon → Daemon
with_config (some cfg) r d = attempt r cfg d
with_config none r d = without_config r.wired r d

-- One round of the loop.
unfoldable pub turn : Round → Daemon → Daemon
turn r d = with_config r.configured r d

unfoldable pub turns : List Round → Daemon → Daemon
turns [] d = d
turns (r ∷ rounds) d = turns rounds (turn r d)

-- `wait_for_config_change` with a timeout in seconds: how many seconds it has slept when it returns. `is_changed n`
-- is whether the configuration has changed after n seconds.
unfoldable pub wait_from : ℕ → ℕ → (ℕ → Bool) → (waited : ℕ) → ℕ
wait_from zero timeout is_changed waited = waited
wait_from (suc fuel) timeout is_changed waited = elim (is_changed (suc waited)) [
  | true ↦ suc waited
  | false ↦ elim (leb timeout (suc waited)) [
    | true ↦ suc waited
    | false ↦ wait_from fuel timeout is_changed (suc waited)
  ]
]

unfoldable pub wait_for_config_change : ℕ → (ℕ → Bool) → ℕ
wait_for_config_change timeout is_changed = wait_from (suc timeout) timeout is_changed 0
