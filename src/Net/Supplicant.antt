-- ===== src/Net/Supplicant.antt =====
-- `supplicant_config` and `config_safe` of vakt-net/src/main.rs, and `scanner_config` of vakt-net/src/scan.rs.
pub mod Lines
pub mod Accepted
use vakt_os.Base.{
  ℕ, Bool, true, false, ◌&&◌, ◌||◌, List, [], ◌∷◌, ◌++◌, Option, none, some, Text, text, nat_beq,
  leb, ltb, length, encode, Result, ok, err, ◌>>=◌, if◌then◌else◌,
}

pub data Field : Type 0 where
  network_name password : Field

pub data ConfigError : Type 0 where
  empty : Field → ConfigError
  forbidden : Field → ℕ → ConfigError
  long_name : ConfigError
  password_length : ConfigError

abbrev pub ctrl_dir : Text
ctrl_dir = text "/run/wpa_supplicant"

abbrev pub scanner_config : Text
scanner_config = text "ctrl_interface=" ++ (ctrl_dir ++ b'\n' ∷ [])

-- `char::is_control`: the Unicode category Cc.
abbrev pub is_control : ℕ → Bool
is_control c = ltb c 32 || (leb 127 c && ltb c 160)

abbrev pub is_forbidden : ℕ → Bool
is_forbidden c = is_control c || nat_beq c b'"' || nat_beq c b'\\'

unfoldable pub find_forbidden : Text → Option ℕ
find_forbidden [] = none
find_forbidden (c ∷ cs) = let rest = find_forbidden cs in if is_forbidden c then some c else rest

abbrev pub or_forbidden : Field → Option ℕ → Result ConfigError (Unit {0})
or_forbidden field none = ok tt
or_forbidden field (some bad) = err (forbidden field bad)

unfoldable pub config_safe : Field → Text → Result ConfigError (Unit {0})
config_safe field [] = err (empty field)
config_safe field (c ∷ cs) = or_forbidden field (find_forbidden (c ∷ cs))

-- `is_ascii_hexdigit`
abbrev pub is_hex : ℕ → Bool
is_hex b = (leb b'0' b && leb b b'9') || (leb b'A' b && leb b b'F') || (leb b'a' b && leb b b'f')

abbrev pub all_hex : List ℕ → Bool
all_hex [] = true
all_hex (b ∷ bs) = is_hex b && all_hex bs

-- 64 hexadecimal digits are a key, and are written without quotes.
abbrev pub is_derived : Text → Bool
is_derived psk = nat_beq (length (encode psk)) 64 && all_hex (encode psk)

unfoldable pub psk_line : Text → Result ConfigError Text
psk_line psk =
    if is_derived psk
    then ok (text "\tpsk=" ++ (psk ++ b'\n' ∷ []))
    else (config_safe password psk >>= λ _.
        if leb 8 (length (encode psk)) && leb (length (encode psk)) 63
        then ok (text "\tpsk=\"" ++ (psk ++ (b'"' ∷ b'\n' ∷ [])))
        else err password_length)

abbrev pub extras : Bool → Text
extras wpa3 =
    if wpa3
    then text "\tkey_mgmt=WPA-PSK WPA-PSK-SHA256 SAE\n\tieee80211w=1\n\tscan_ssid=1\n"
    else []

abbrev pub rendered : Text → Text → Bool → Text
rendered ssid psk wpa3 =
    scanner_config
    ++ (text "network={\n\tssid=\""
        ++ (ssid ++ (b'"' ∷ b'\n' ∷ (psk ++ (extras wpa3 ++ text "}\n")))))

abbrev pub short_name : Text → Result ConfigError (Unit {0})
short_name ssid = if ltb 32 (length (encode ssid)) then err long_name else ok tt

unfoldable pub supplicant_config : Text → Text → Bool → Result ConfigError Text
supplicant_config ssid psk wpa3 = do
  _ ← config_safe network_name ssid
  _ ← short_name ssid
  line ← psk_line psk
  ok (rendered ssid line wpa3)
