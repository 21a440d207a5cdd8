-- ===== src/Net/Supplicant/Accepted.antt =====
-- What `supplicant_config` of vakt-net/src/main.rs accepts.
use vakt_os.Base.{◌≡◌, Bool, [], ◌∷◌, ◌++◌, Text, text_eq, nat_eq, Result, ok, err, lines}
use vakt_os.Net.Supplicant.{Field, ConfigError}
use vakt_os.Net.Supplicant.Lines.{IsQuotable, IsName, IsPassword, IsInline, psk_text, network_lines}

-- What the caller of `supplicant_config` gets: the lines of the one network for a proper name and a proper
-- password, and an error for anything else.
pub data Answered (ssid psk : Text) (wpa3 : Bool) : Result ConfigError Text → Type 0 where
  written :
      (conf : Text)
      → IsName ssid
      → IsPassword psk
      → lines conf ≡ network_lines ssid psk wpa3
      → Answered ssid psk wpa3 (ok conf)
  refused : (e : ConfigError) → ¬ (IsName ssid × IsPassword psk) → Answered ssid psk wpa3 (err e)

data Safe (field : Field) (t : Text) : Result ConfigError (Unit {0}) → Type 0 where
  safe : IsQuotable t → Safe field t (ok tt)
  unsafe : (e : ConfigError) → ¬ IsQuotable t → Safe field t (err e)

-- The line of the password, in its two forms.
data Line (psk : Text) : Result ConfigError Text → Type 0 where
  a_line :
      (pre post : Text)
      → IsPassword psk
      → IsInline psk
      → IsInline pre
      → IsInline post
      → pre ++ (psk ++ post) ≡ psk_text psk
      → Line psk (ok (pre ++ (psk ++ (post ++ b'\n' ∷ []))))
  no_line : (e : ConfigError) → ¬ IsPassword psk → Line psk (err e)
