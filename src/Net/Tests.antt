-- ===== src/Net/Tests.antt =====
-- Runs of vakt-net.
use vakt_os.Base.{
  ℕ, ◌≡◌, ◌≤◌, refl, true, false, [], ◌∷◌, none, some, Text, text, text_eq, ok, err, All, file_of,
  IsPair, IsValue, encode, nat_beq, nat_eq, starts_blank, ends_blank, contains, is_whitespace,
  lines, assignment, trim, split_once, split, from_utf8_lossy, if◌then◌else◌, arith,
}
use vakt_os.Base.Actions.{Ensures}
use vakt_os.Net.Config.{NetConfig, parse, parse_lines, set_key, split_dns, wlan0}
use vakt_os.Net.Config.RoundTrip.{pairs_of, IsServer, parse-file_of}
use vakt_os.Net.Supplicant.{
  supplicant_config, config_safe, find_forbidden, psk_line, forbidden, network_name,
}
use vakt_os.Net.Connect.{
  Answers, absent, connect, associate, start_supplicant, kill_from_pidfile, lease, request_lease,
  interface_address, address_in,
}
use vakt_os.Net.Connect.Up.{IsUp, Failed}
use vakt_os.Net.Connect.Up.Whole.{connect-Ensures}
use vakt_os.Net.Poll.{poll, wait_for_carrier, Polled, poll-Polled}
use vakt_os.Net.Daemon.{
  Round, started, turns, turn, attempt, settle, announce, wait_for_config_change,
}
use vakt_os.Net.Daemon.Ready.{IsSettled, ReadyOnce, turns_lem}
use vakt_os.Net.Daemon.Wait.{IsEnd, wait_for_config_change_lem}

abbrev home : NetConfig
home = record {
  ssid = some (text "Home Net");
  psk = some (text "pass=word#1");
  interface = text "wlp2s0";
  address = none;
  gateway = none;
  dns = text "9.9.9.9" ∷ text "1.1.1.1" ∷ [];
}

test_parse :
    parse (text "# home\nSSID = Home Net\npsk=pass=word#1\nip=10.0.0.5/24\ndns=9.9.9.9, 1.1.1.1\n")
    ≡ (record home { interface = wlan0; address = some (text "10.0.0.5/24") })
unfolding parse parse_lines lines assignment trim split_once set_key split_dns split
test_parse = refl

value :
    {c : ℕ} {cs : Text}
    → starts_blank (c ∷ cs) ≡ false
    → ends_blank (c ∷ cs) ≡ false
    → contains (c ∷ cs) b'\n' ≡ false
    → IsValue (c ∷ cs)
value starts ends single = record {
  filled = λ e. cc;
  starts = starts;
  ends = ends;
  single = single;
}

home-IsPair : All IsPair (pairs_of true home)
unfolding is_whitespace
home-IsPair = (
  record {
    key = record { value = value refl refl refl; plain = refl; no_comment = refl };
    value = value refl refl refl;
  },
  (
    record {
      key = record { value = value refl refl refl; plain = refl; no_comment = refl };
      value = value refl refl refl;
    },
    (
      record {
        key = record { value = value refl refl refl; plain = refl; no_comment = refl };
        value = value refl refl refl;
      },
      (
        record {
          key = record { value = value refl refl refl; plain = refl; no_comment = refl };
          value = value refl refl refl;
        },
        tt,
      ),
    ),
  ),
)

home-IsServer : All IsServer home.dns
unfolding is_whitespace
home-IsServer = (
  record { value = value refl refl refl; word = refl; no_comma = refl },
  (record { value = value refl refl refl; word = refl; no_comma = refl }, tt),
)

parse-file_of_example : parse (file_of (pairs_of true home)) ≡ home
parse-file_of_example = parse-file_of true home home-IsPair home-IsServer

test_newline :
    supplicant_config (text "Home\nNet") (text "password") true ≡ err (forbidden network_name b'\n')
unfolding supplicant_config config_safe find_forbidden
test_newline = refl

-- The lease arrives at the third look.
abbrev answers : Answers
answers = record {
  exists = true;
  radios = some 1;
  supplicant_pid = absent;
  writes_conf = true;
  supplicant = λ _. some true;
  carrier = λ n. if nat_beq n 0 then none else some (text "1\n");
  sets_address = some true;
  sets_route = some true;
  writes_resolv = true;
  udhcpc_pid = absent;
  udhcpc = some true;
  shows = λ n.
      if nat_beq n 2
      then some (true, text "  inet 10.0.0.7/24 scope global\n")
      else some (true, []);
}

connect-Ensures_example :
    Ensures (λ ip _. IsUp answers home ip) (Failed answers home) (connect answers home [])
connect-Ensures_example = connect-Ensures answers home

test_connect : (connect answers home []).1 ≡ ok (text "10.0.0.7")
unfolding connect associate start_supplicant kill_from_pidfile lease request_lease interface_address
    supplicant_config config_safe find_forbidden encode psk_line wait_for_carrier trim poll
    address_in lines from_utf8_lossy
test_connect = refl

poll-Polled_example :
    Polled 15000
      (λ n. interface_address (answers.shows n))
      0
      (poll 15000 (λ n. interface_address (answers.shows n)))
poll-Polled_example = poll-Polled 15000 (λ n. interface_address (answers.shows n))

abbrev failing : Round
failing = record {
  configured = some home;
  wired = none;
  wireless = none;
  connect = λ _. err (text "no lease");
  looks = [];
}

abbrev working : Round
working = record failing { connect = λ _. ok (text "10.0.0.7") }

turns_lem_example :
    IsSettled (turns (failing ∷ failing ∷ working ∷ []) started)
    × ReadyOnce (turns (failing ∷ failing ∷ working ∷ []) started).outputs
turns_lem_example = turns_lem failing (failing ∷ working ∷ [])

test_backoff : (turns (failing ∷ failing ∷ []) started).backoff ≡ 20
unfolding turns turn attempt settle announce
test_backoff = refl

test_wait :
    (wait_for_config_change 5 (λ n. nat_beq n 3) ≤ 5)
    × IsEnd 5 (λ n. nat_beq n 3) 0 (wait_for_config_change 5 (λ n. nat_beq n 3))
test_wait = wait_for_config_change_lem 5 (λ n. nat_beq n 3) (omega arith)
