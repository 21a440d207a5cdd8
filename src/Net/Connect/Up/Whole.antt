-- ===== src/Net/Connect/Up/Whole.antt =====
-- `connect` of vakt-net/src/main.rs as a whole.
use vakt_os.Base.{
  ◌≡◌, refl, inl, Bool, true, false, List, [], ◌∷◌, Text, text_eq, nat_eq, Result, ok, err,
}
use vakt_os.Base.Actions.{Ensures, >>=-Ensures, require-Ensures}
use vakt_os.Net.Config.{NetConfig, is_wireless, is_static}
use vakt_os.Net.Connect.{
  Command, link_up, ConnectError, no_interface, Answers, associate_if, address_by, connect,
}
use vakt_os.Net.Connect.Up.{has_lease, IsLinked, IsUp, Failed, Linked, associate-Ensures}
use vakt_os.Net.Connect.Up.Address.{Got, static-Ensures, lease-Ensures}

module _ (k : Answers) where
  address_by-Ensures :
      (cfg : NetConfig) (static : Bool) (log : List Command)
      → IsLinked k cfg
      → Ensures (Got k cfg static) (Failed k cfg) (address_by k static cfg log)
  address_by-Ensures cfg true log linked = static-Ensures k cfg log linked
  address_by-Ensures cfg false log linked = lease-Ensures k cfg log linked

  associate_if-Ensures :
      (cfg : NetConfig) (wireless : Bool) (log : List Command)
      → k.exists ≡ true
      → is_wireless cfg ≡ wireless
      → has_lease log ≡ false
      → Ensures (Linked k cfg) (Failed k cfg) (associate_if k wireless cfg log)
  unfolding Linked
  associate_if-Ensures cfg true log exists is quiet = associate-Ensures k cfg log exists quiet
  associate_if-Ensures cfg false log exists is quiet = (quiet, (exists, λ e. absurd (cc)))

  -- When `connect` gives an address, the interface exists; if the network is wireless, wpa_supplicant
  -- runs on a configuration that `supplicant_config` has built for it and a look at the carrier in the first 20
  -- seconds found one; if the configuration is static, its address has a prefix length, `ip` has accepted it and the
  -- address is the one that the kernel then reports; and if not, udhcpc has started and the address is one that
  -- a look in its 15 seconds found. When `connect` fails, udhcpc has not been run or the interface was there
  -- and, if wireless, associated: it never asks for a lease before that.
  pub connect-Ensures :
      (cfg : NetConfig) → Ensures (λ ip _. IsUp k cfg ip) (Failed k cfg) (connect k cfg [])
  unfolding connect Linked Got
  connect-Ensures cfg =
      let Q : Text → List Command → Type 0 = λ ip _. IsUp k cfg ip in
      require-Ensures Q (Failed k cfg) [] k.exists no_interface _ (λ _. inl refl)
        (λ exists.
          >>=-Ensures (Linked k cfg) Q (Failed k cfg)
            (associate_if k (is_wireless cfg) cfg (link_up ∷ [])) _
            (associate_if-Ensures cfg (is_wireless cfg) (link_up ∷ []) exists refl refl)
            (λ _ log h. finish log h.1))
    where
      go :
          (r : List Command × Result ConnectError Text)
          → Ensures (Got k cfg (is_static cfg)) (Failed k cfg) r
          → Ensures (λ ip _. IsUp k cfg ip) (Failed k cfg) r
      go (log, ok ip) h = record { linked = h.0; static = h.1; leased = h.2 }
      go (log, err e) h = h

      finish :
          (log : List Command)
          → IsLinked k cfg
          → Ensures (λ ip _. IsUp k cfg ip) (Failed k cfg) (address_by k (is_static cfg) cfg log)
      finish log linked =
          go (address_by k (is_static cfg) cfg log)
            (address_by-Ensures cfg (is_static cfg) log linked)
