-- ===== src/Net/Connect/Up.antt =====
-- What `connect` of vakt-net/src/main.rs has made sure of when it returns; here, until the link is up.
pub mod Address
pub mod Whole
use vakt_os.Base.{
  ℕ, ◌≡◌, ◌<◌, ◌+◌, ◌*◌, refl, sym, ◌∙◌, ap, ◌⊎◌, inl, inr, Bool, true, false, ◌||◌, not, List, [],
  ◌∷◌, ◌++◌, Option, none, some, Text, text, text_eq, nat_eq, contains, ltb, if◌then◌else◌, Bytes,
  Result, ok, err, Result-cases, Option-cases, Bool-cases, arith, trim,
}
use vakt_os.Base.Actions.{
  lift, require, bind_result, ◌>>=◌, ◌>>◌, Ensures, >>=-Ensures, require-Ensures, lift-Ensures,
  last_lift-Ensures, last_require-Ensures,
}
use vakt_os.Net.Config.{NetConfig, is_wireless, is_static}
use vakt_os.Net.Supplicant.{ConfigError, supplicant_config}
use vakt_os.Net.Poll.{
  step, poll, wait_for_carrier, wait_for_carrier_lem, poll-Polled, Polled, found, gave_up,
}
use vakt_os.Net.Connect.{
  Command, link_up, kill, remove_pid_file, write_conf, start_wpa_supplicant, replace_address,
  replace_route, write_resolv, run_udhcpc, ConnectError, no_interface, no_radio, bad_config,
  unwritten_conf, no_supplicant, supplicant_failed, not_associated, no_prefix, no_ip,
  refused_address, refused_gateway, unreported_address, no_udhcpc, udhcpc_failed, no_lease, PidFile,
  absent, unreadable, holding, Answers, Action, tell, assoc_timeout, dhcp_timeout, positive,
  has_carrier, interface_address, kill_from_pidfile, is_pid, answer, configured, or_empty, text_or,
  start_supplicant, retry, associate, checked_address, set_route, set_dns, resolv_conf,
  configure_static, request_lease, lease, associate_if, address_by, connect,
}

abbrev asks_lease : Command → Bool
asks_lease run_udhcpc = true
asks_lease _ = false

-- Whether udhcpc has been run.
abbrev pub has_lease : List Command → Bool
has_lease [] = false
has_lease (c ∷ cs) = asks_lease c || has_lease cs

quiet_append :
    (log cs : List Command)
    → has_lease log ≡ false
    → has_lease cs ≡ false
    → has_lease (log ++ cs) ≡ false
quiet_append [] cs h k = k
quiet_append (d ∷ log) cs h k = ground (arith, quiet_append log cs (ground arith) k)

module _ (k : Answers) where
  -- wpa_supplicant runs, on the configuration of this network.
  pub record IsStarted (ssid psk : Text) : Type 0 where
    pub wpa3 : Bool
    pub conf : Text
    pub built : supplicant_config ssid psk wpa3 ≡ ok conf
    pub runs : k.supplicant conf ≡ some true

  pub record IsAssociated (cfg : NetConfig) : Type 0 where
    pub radio : positive k.radios ≡ true
    pub started : IsStarted (or_empty cfg.ssid) (or_empty cfg.psk)
    pub look : ℕ
    pub in_time : look * step < assoc_timeout + step
    pub carrier : has_carrier (k.carrier look) ≡ true

  abbrev pub IsLinked : NetConfig → Type 0
  IsLinked cfg = (k.exists ≡ true) × (is_wireless cfg ≡ true → IsAssociated cfg)

  pub record IsStatic (cfg : NetConfig) (ip : Text) : Type 0 where
    pub prefixed : contains (or_empty cfg.address) b'/' ≡ true
    pub accepted : k.sets_address ≡ some true
    pub reported : interface_address (k.shows 0) ≡ some ip

  pub record IsLeased (ip : Text) : Type 0 where
    pub client : k.udhcpc ≡ some true
    pub look : ℕ
    pub in_time : look * step < dhcp_timeout + step
    pub reported : interface_address (k.shows look) ≡ some ip

  -- The interface is up, associated if it is wireless, and has the address.
  pub record IsUp (cfg : NetConfig) (ip : Text) : Type 0 where
    pub linked : IsLinked cfg
    pub static : is_static cfg ≡ true → IsStatic cfg ip
    pub leased : is_static cfg ≡ false → IsLeased ip

  -- After a failure: no lease has been asked for, or the link was up.
  abbrev pub Failed : NetConfig → ConnectError → List Command → Type 0
  Failed cfg e log = (has_lease log ≡ false) ⊎ IsLinked cfg

  start_supplicant-Ensures :
      (cfg : NetConfig) (ssid psk : Text) (wpa3 : Bool) (log : List Command)
      → has_lease log ≡ false
      → Ensures
          (λ b log. (has_lease log ≡ false) × (b ≡ true → IsStarted ssid psk))
          (Failed cfg)
          (start_supplicant k ssid psk wpa3 log)
  unfolding start_supplicant
  start_supplicant-Ensures cfg ssid psk wpa3 log quiet =
      elim (Result-cases (supplicant_config ssid psk wpa3)) [
        | inr (e, bad) ↦ rw (bad, start_supplicant) (inl quiet)
        | inl (conf, built) ↦ elim (Bool-cases k.writes_conf) [
          | inr unwritten ↦ rw (built, unwritten, start_supplicant) (inl quiet)
          | inl written ↦
              let quiet' = quiet_append log (write_conf conf ∷ []) quiet refl in
              elim (Option-cases (k.supplicant conf)) [
                | inl missing ↦ rw (built, written, missing, start_supplicant) (inl quiet')
                | inr (success, ran) ↦
                    rw (built, written, ran, start_supplicant)
                      (
                        quiet_append (log ++ write_conf conf ∷ []) (start_wpa_supplicant ∷ [])
                            quiet' refl,
                        λ works. record {
                          wpa3 = wpa3;
                          conf = conf;
                          built = built;
                          runs = ran ∙ ap some works;
                        },
                      )
              ]
        ]
      ]

  kill_from_pidfile-Ensures :
      (cfg : NetConfig) (file : PidFile) (log : List Command)
      → has_lease log ≡ false
      → Ensures (λ _ log. has_lease log ≡ false) (Failed cfg) (kill_from_pidfile file log)
  unfolding kill_from_pidfile
  kill_from_pidfile-Ensures cfg absent log quiet = quiet
  kill_from_pidfile-Ensures cfg unreadable log quiet =
      quiet_append log (remove_pid_file ∷ []) quiet refl
  kill_from_pidfile-Ensures cfg (holding contents) log quiet =
      elim (Bool-cases (is_pid (trim contents))) [
        | inl is ↦
            rw (is, kill_from_pidfile)
              (quiet_append log (kill (trim contents) ∷ remove_pid_file ∷ []) quiet refl)
        | inr other ↦
            rw (other, kill_from_pidfile) (quiet_append log (remove_pid_file ∷ []) quiet refl)
      ]

  unfoldable pub Linked : NetConfig → Unit {0} → List Command → Type 0
  Linked cfg _ log = (has_lease log ≡ false) × IsLinked cfg

  retry-Ensures :
      (cfg : NetConfig) (first : Bool) (ssid psk : Text) (log : List Command)
      → has_lease log ≡ false
      → (first ≡ true → IsStarted ssid psk)
      → Ensures
          (λ b log. (has_lease log ≡ false) × (b ≡ true → IsStarted ssid psk))
          (Failed cfg)
          (retry k ssid psk first log)
  retry-Ensures cfg true ssid psk log quiet h = (quiet, λ _. h refl)
  retry-Ensures cfg false ssid psk log quiet h =
      start_supplicant-Ensures cfg ssid psk false log quiet

  carrier-Ensures :
      (cfg : NetConfig) (log : List Command)
      → k.exists ≡ true
      → has_lease log ≡ false
      → positive k.radios ≡ true
      → IsStarted (or_empty cfg.ssid) (or_empty cfg.psk)
      → Ensures (Linked cfg) (Failed cfg) (
          require
            (wait_for_carrier assoc_timeout (λ n. has_carrier (k.carrier n)))
            not_associated
            log)
  unfolding Linked
  carrier-Ensures cfg log exists quiet radio started =
      last_require-Ensures (Linked cfg) (Failed cfg) log
        (wait_for_carrier assoc_timeout (λ n. has_carrier (k.carrier n))) not_associated
        (λ _. inl quiet)
        (λ seen.
          let (look, in_time, carrier) =
            wait_for_carrier_lem assoc_timeout (λ n. has_carrier (k.carrier n)) seen in
          (
            quiet,
            (
              exists,
              λ _. record {
                radio = radio;
                started = started;
                look = look;
                in_time = in_time;
                carrier = carrier;
              },
            ),
          ))

  pub associate-Ensures :
      (cfg : NetConfig) (log : List Command)
      → k.exists ≡ true
      → has_lease log ≡ false
      → Ensures (Linked cfg) (Failed cfg) (associate k cfg log)
  unfolding associate Linked
  associate-Ensures cfg log exists quiet =
      let ssid = or_empty cfg.ssid in
      let psk = or_empty cfg.psk in
      require-Ensures (Linked cfg) (Failed cfg) log (positive k.radios) no_radio _ (λ _. inl quiet)
        (λ radio.
          >>=-Ensures (λ _ log. has_lease log ≡ false) (Linked cfg) (Failed cfg)
            (kill_from_pidfile k.supplicant_pid log) _
            (kill_from_pidfile-Ensures cfg k.supplicant_pid log quiet)
            (λ _ log quiet.
              >>=-Ensures (λ b log. (has_lease log ≡ false) × (b ≡ true → IsStarted ssid psk))
                (Linked cfg) (Failed cfg) (start_supplicant k ssid psk true log) _
                (start_supplicant-Ensures cfg ssid psk true log quiet)
                (λ first log h.
                  >>=-Ensures (λ b log. (has_lease log ≡ false) × (b ≡ true → IsStarted ssid psk))
                    (Linked cfg) (Failed cfg) (retry k ssid psk first log) _
                    (retry-Ensures cfg first ssid psk log h.0 h.1)
                    (λ started log h.
                      require-Ensures (Linked cfg) (Failed cfg) log started supplicant_failed _
                        (λ _. inl h.0)
                        (λ works. carrier-Ensures cfg log exists h.0 radio (h.1 works))))))
