-- ===== src/Net/Connect.antt =====
-- `connect` of vakt-net/src/main.rs and the functions that it calls. What the kernel, the programs and the files
-- answer is in `Answers`; what is done to them is a list of commands, in order.
pub mod Up
use vakt_os.Base.{
  ℕ, Bool, true, false, ◌&&◌, not, List, [], ◌∷◌, ◌++◌, Option, none, some, Text, text, text_eq,
  nat_eq, contains, ◌==◌, nat_beq, ltb, leb, if◌then◌else◌, trim, lines, Bytes, from_utf8_lossy,
  Result, ok, err, starts_with, drop, length,
}
use vakt_os.Base.Actions
use vakt_os.Base.Actions.{lift, require, bind_result, ◌>>=◌, ◌>>◌}
use vakt_os.Net.Config.{NetConfig, is_wireless, is_static, is_filled}
use vakt_os.Net.Supplicant.{ConfigError, supplicant_config}
use vakt_os.Net.Poll.{poll, wait_for_carrier}

pub data Command : Type 0 where
  link_up : Command
  kill : (pid : Text) → Command
  remove_pid_file : Command
  write_conf : Text → Command
  start_wpa_supplicant : Command
  replace_address : Text → Command
  replace_route : Text → Command
  write_resolv : Text → Command
  run_udhcpc : Command

pub data ConnectError : Type 0 where
  no_interface no_radio : ConnectError
  bad_config : ConfigError → ConnectError
  unwritten_conf no_supplicant supplicant_failed not_associated : ConnectError
  no_prefix no_ip refused_address refused_gateway unreported_address : ConnectError
  no_udhcpc udhcpc_failed no_lease : ConnectError

pub data PidFile : Type 0 where
  absent unreadable : PidFile
  holding : Text → PidFile

-- A program that is run and waited for may not start; if it does, it succeeds or not. The n-th look at the carrier
-- file or at `ip addr show` is what n looks came before.
pub record Answers : Type 0 where
  pub exists : Bool
  pub radios : Option ℕ
  pub supplicant_pid : PidFile
  pub writes_conf : Bool
  pub supplicant : (conf : Text) → Option Bool
  pub carrier : ℕ → Option Text
  pub sets_address : Option Bool
  pub sets_route : Option Bool
  pub writes_resolv : Bool
  pub udhcpc_pid : PidFile
  pub udhcpc : Option Bool
  pub shows : ℕ → Option (Bool × Bytes)

abbrev pub Action : Type 0 → Type 0
Action A = Actions.Action (List Command) ConnectError A

abbrev pub tell : Command → Action (Unit {0})
tell command log = (log ++ command ∷ [], ok tt)

abbrev pub assoc_timeout : ℕ
assoc_timeout = 20000

abbrev pub dhcp_timeout : ℕ
dhcp_timeout = 15000

abbrev pub positive : Option ℕ → Bool
positive none = false
positive (some n) = ltb 0 n

abbrev pub has_carrier : Option Text → Bool
has_carrier none = false
has_carrier (some contents) = trim contents == text "1"

abbrev pub inet : Text
inet = text "inet "

abbrev pub before_slash : Text → Text
before_slash [] = []
before_slash (c ∷ cs) = let rest = before_slash cs in if nat_beq c b'/' then [] else c ∷ rest

unfoldable pub address_in : List Text → Option Text
address_in [] = none
address_in (line ∷ rest) =
    let others = address_in rest in
    if starts_with inet (trim line)
    then some (before_slash (drop (length inet) (trim line)))
    else others

unfoldable pub interface_address : Option (Bool × Bytes) → Option Text
interface_address none = none
interface_address (some (success, stdout)) =
    if success then address_in (lines (from_utf8_lossy stdout)) else none

abbrev all_digits : Text → Bool
all_digits [] = true
all_digits (c ∷ cs) = leb b'0' c && leb c b'9' && all_digits cs

abbrev pub is_pid : Text → Bool
is_pid [] = false
is_pid (c ∷ cs) = all_digits (c ∷ cs)

unfoldable pub kill_from_pidfile : PidFile → Action (Unit {0})
kill_from_pidfile absent log = (log, ok tt)
kill_from_pidfile unreadable log = (log ++ remove_pid_file ∷ [], ok tt)
kill_from_pidfile (holding contents) log =
    if is_pid (trim contents)
    then (log ++ (kill (trim contents) ∷ remove_pid_file ∷ []), ok tt)
    else (log ++ remove_pid_file ∷ [], ok tt)

-- A program's answer: `no_start` if it cannot be run, and otherwise whether it succeeded.
abbrev pub answer : Option Bool → ConnectError → Result ConnectError Bool
answer none no_start = err no_start
answer (some success) no_start = ok success

abbrev pub configured : Result ConfigError Text → Result ConnectError Text
configured (ok conf) = ok conf
configured (err e) = err (bad_config e)

abbrev pub or_empty : Option Text → Text
or_empty none = []
or_empty (some t) = t

abbrev pub text_or : ConnectError → Option Text → Result ConnectError Text
text_or e none = err e
text_or e (some t) = ok t

module _ (k : Answers) where
  unfoldable pub start_supplicant : (ssid psk : Text) → Bool → Action Bool
  start_supplicant ssid psk wpa3 = do
    conf ← lift (configured (supplicant_config ssid psk wpa3))
    require k.writes_conf unwritten_conf
    tell (write_conf conf)
    success ← lift (answer (k.supplicant conf) no_supplicant)
    tell start_wpa_supplicant
    lift (ok success)

  abbrev pub retry : (ssid psk : Text) → Bool → Action Bool
  retry ssid psk started = if started then lift (ok true) else start_supplicant ssid psk false

  -- The wireless half of `connect`.
  unfoldable pub associate : NetConfig → Action (Unit {0})
  associate cfg = do
    require (positive k.radios) no_radio
    kill_from_pidfile k.supplicant_pid
    first ← start_supplicant (or_empty cfg.ssid) (or_empty cfg.psk) true
    started ← retry (or_empty cfg.ssid) (or_empty cfg.psk) first
    require started supplicant_failed
    require (wait_for_carrier assoc_timeout (λ n. has_carrier (k.carrier n))) not_associated

  unfoldable pub checked_address : Text → Result ConnectError (Unit {0})
  checked_address address = if contains address b'/' then ok tt else err no_prefix

  abbrev pub set_route : Option Text → Action (Unit {0})
  set_route (some (c ∷ cs)) = do
    routed ← lift (answer k.sets_route no_ip)
    tell (replace_route (c ∷ cs))
    require routed refused_gateway
  set_route _ = lift (ok tt)

  abbrev pub resolv_conf : List Text → Text
  resolv_conf [] = []
  resolv_conf (server ∷ servers) = text "nameserver " ++ (server ++ b'\n' ∷ resolv_conf servers)

  abbrev pub set_dns : List Text → Action (Unit {0})
  set_dns [] = lift (ok tt)
  set_dns (server ∷ servers) =
      if k.writes_resolv then tell (write_resolv (resolv_conf (server ∷ servers))) else lift (ok tt)

  unfoldable pub configure_static : NetConfig → Action Text
  configure_static cfg = do
    lift (checked_address (or_empty cfg.address))
    success ← lift (answer k.sets_address no_ip)
    tell (replace_address (or_empty cfg.address))
    require success refused_address
    set_route cfg.gateway
    set_dns cfg.dns
    lift (text_or unreported_address (interface_address (k.shows 0)))

  unfoldable pub request_lease : Action (Unit {0})
  request_lease = do
    kill_from_pidfile k.udhcpc_pid
    success ← lift (answer k.udhcpc no_udhcpc)
    tell run_udhcpc
    require success udhcpc_failed

  unfoldable pub lease : Action Text
  lease = do
    request_lease
    lift (text_or no_lease (poll dhcp_timeout (λ n. interface_address (k.shows n))))

  abbrev pub associate_if : Bool → NetConfig → Action (Unit {0})
  associate_if wireless cfg = if wireless then associate cfg else lift (ok tt)

  abbrev pub address_by : Bool → NetConfig → Action Text
  address_by static cfg = if static then configure_static cfg else lease

  unfoldable pub connect : NetConfig → Action Text
  connect cfg = do
    require k.exists no_interface
    tell link_up
    associate_if (is_wireless cfg) cfg
    address_by (is_static cfg) cfg
