-- ===== src/Net/Connect/Up/Address.antt =====
-- How `connect` of vakt-net/src/main.rs gets an address on a link that is up.
use vakt_os.Base.{
  ◌≡◌, refl, ◌∙◌, inl, inr, Bool, true, false, List, [], ◌∷◌, ◌++◌, Option, none, some, Text,
  text_eq, nat_eq, contains, if◌then◌else◌, ok, Bool-cases, arith, trim,
}
use vakt_os.Base.Actions.{
  lift, Ensures, >>=-Ensures, require-Ensures, lift-Ensures, last_lift-Ensures,
  last_require-Ensures,
}
use vakt_os.Net.Config.{NetConfig}
use vakt_os.Net.Poll.{poll, poll-Polled, Polled, found}
use vakt_os.Net.Connect.{
  Command, replace_address, replace_route, write_resolv, run_udhcpc, ConnectError, no_ip,
  refused_address, refused_gateway, unreported_address, no_udhcpc, udhcpc_failed, no_lease, PidFile,
  absent, unreadable, holding, Answers, tell, dhcp_timeout, interface_address, kill_from_pidfile,
  is_pid, answer, or_empty, text_or, checked_address, set_route, set_dns, resolv_conf,
  configure_static, request_lease, lease,
}
use vakt_os.Net.Connect.Up.{IsLinked, IsStatic, IsLeased, Failed}

module _ (k : Answers) where
  -- An address was obtained on a link that is up, in the way that the configuration asks for.
  unfoldable pub Got : NetConfig → Bool → Text → List Command → Type 0
  Got cfg static ip log =
      IsLinked k cfg × (static ≡ true → IsStatic k cfg ip) × (static ≡ false → IsLeased k ip)

  set_route-Ensures :
      (cfg : NetConfig) (gateway : Option Text) (log : List Command)
      → IsLinked k cfg
      → Ensures (λ _ _. Unit {0}) (Failed k cfg) (set_route k gateway log)
  set_route-Ensures cfg none log linked = tt
  set_route-Ensures cfg (some []) log linked = tt
  set_route-Ensures cfg (some (c ∷ cs)) log linked =
      lift-Ensures (λ _ _. Unit {0}) (Failed k cfg) log (answer k.sets_route no_ip) _
        (λ _ _. inr linked)
        (λ routed _.
          last_require-Ensures (λ _ _. Unit {0}) (Failed k cfg) (log ++ replace_route (c ∷ cs) ∷ [])
            routed refused_gateway (λ _. inr linked) (λ _. tt))

  set_dns-Ensures :
      (cfg : NetConfig) (dns : List Text) (log : List Command)
      → Ensures (λ _ _. Unit {0}) (Failed k cfg) (set_dns k dns log)
  set_dns-Ensures cfg [] log = tt
  set_dns-Ensures cfg (server ∷ servers) log = either k.writes_resolv
    where
      either :
          (b : Bool)
          → Ensures
              (λ _ _. Unit {0})
              (Failed k cfg)
              ((if b then tell (write_resolv (resolv_conf k (server ∷ servers))) else lift (ok tt))
                log)
      either true = tt
      either false = tt

  answered_true :
      (o : Option Bool) (e : ConnectError) (b : Bool) → answer o e ≡ ok b → b ≡ true → o ≡ some true
  answered_true none e b h w = absurd (cc)
  answered_true (some true) e b h w = refl
  answered_true (some false) e b h w = absurd (cc)

  text_or_lem : (e : ConnectError) (o : Option Text) (ip : Text) → text_or e o ≡ ok ip → o ≡ some ip
  text_or_lem e none ip h = absurd (cc)
  text_or_lem e (some t) ip h = ground arith

  prefixed_lem :
      (address : Text) (u : Unit {0})
      → checked_address k address ≡ ok u
      → contains address b'/' ≡ true
  unfolding checked_address
  prefixed_lem address u h = elim (Bool-cases (contains address b'/')) [
    | inl is ↦ is
    | inr other ↦ absurd (ground arith)
  ]

  pub static-Ensures :
      (cfg : NetConfig) (log : List Command)
      → IsLinked k cfg
      → Ensures (Got cfg true) (Failed k cfg) (configure_static k cfg log)
  unfolding configure_static checked_address Got
  static-Ensures cfg log linked =
      lift-Ensures (Got cfg true) (Failed k cfg) log (checked_address k (or_empty cfg.address)) _
        (λ e h. inr linked)
        (λ _ checked.
          lift-Ensures (Got cfg true) (Failed k cfg) log (answer k.sets_address no_ip) _
            (λ e h. inr linked)
            (λ success ran.
              require-Ensures (Got cfg true) (Failed k cfg)
                (log ++ replace_address (or_empty cfg.address) ∷ []) success refused_address _
                (λ _. inr linked)
                (λ works.
                  >>=-Ensures (λ _ _. Unit {0}) (Got cfg true) (Failed k cfg)
                    (set_route k cfg.gateway _) _ (set_route-Ensures cfg cfg.gateway _ linked)
                    (λ _ log _.
                      >>=-Ensures (λ _ _. Unit {0}) (Got cfg true) (Failed k cfg)
                        (set_dns k cfg.dns log) _ (set_dns-Ensures cfg cfg.dns log)
                        (λ _ log _.
                          last_lift-Ensures (Got cfg true) (Failed k cfg) log
                            (text_or unreported_address (interface_address (k.shows 0)))
                            (λ _ _. inr linked)
                            (λ ip is. (
                              linked,
                              λ _. record {
                                prefixed = prefixed_lem (or_empty cfg.address) _ checked;
                                accepted = answered_true k.sets_address no_ip success ran works;
                                reported =
                                    text_or_lem unreported_address (interface_address (k.shows 0))
                                      ip is;
                              },
                              λ e. cc,
                            )))))))

  IsLeased-Polled :
      (o : Option Text) (ip : Text)
      → k.udhcpc ≡ some true
      → Polled dhcp_timeout (λ n. interface_address (k.shows n)) 0 o
      → o ≡ some ip
      → IsLeased k ip
  IsLeased-Polled (some a) ip client (found look _ from in_time is before) e = record {
    client = client;
    look = look;
    in_time = in_time;
    reported = is ∙ e;
  }
  IsLeased-Polled none ip client p e = absurd (cc)

  pub lease-Ensures :
      (cfg : NetConfig) (log : List Command)
      → IsLinked k cfg
      → Ensures (Got cfg false) (Failed k cfg) (lease k log)
  unfolding lease request_lease kill_from_pidfile Got
  lease-Ensures cfg log linked =
      let Q : Unit {0} → List Command → Type 0 = λ _ _. k.udhcpc ≡ some true in
      >>=-Ensures Q (Got cfg false) (Failed k cfg) (request_lease k log) _
        (>>=-Ensures (λ _ _. Unit {0}) Q (Failed k cfg) (kill_from_pidfile k.udhcpc_pid log) _
          (killed k.udhcpc_pid)
          (λ _ log _.
            lift-Ensures Q (Failed k cfg) log (answer k.udhcpc no_udhcpc) _ (λ _ _. inr linked)
              (λ success ran.
                last_require-Ensures Q (Failed k cfg) (log ++ run_udhcpc ∷ []) success udhcpc_failed
                  (λ _. inr linked) (answered_true k.udhcpc no_udhcpc success ran))))
        (λ _ log client.
          last_lift-Ensures (Got cfg false) (Failed k cfg) log
            (text_or no_lease (poll dhcp_timeout (λ n. interface_address (k.shows n))))
            (λ _ _. inr linked)
            (λ ip is. (
              linked,
              λ e. cc,
              λ _.
                  IsLeased-Polled _ ip client
                    (poll-Polled dhcp_timeout (λ n. interface_address (k.shows n)))
                    (text_or_lem no_lease _ ip is),
            )))
    where
      killed : (f : PidFile) → Ensures (λ _ _. Unit {0}) (Failed k cfg) (kill_from_pidfile f log)
      killed absent = tt
      killed unreadable = tt
      killed (holding contents) = elim (Bool-cases (is_pid (trim contents))) [
        | inl is ↦ rw (is, kill_from_pidfile) tt
        | inr other ↦ rw (other, kill_from_pidfile) tt
      ]
