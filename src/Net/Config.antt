-- ===== src/Net/Config.antt =====
-- vakt-net/src/config.rs: the file that says how to reach the network, and which of two files that is.
pub mod RoundTrip
use vakt_os.Base.{
  ℕ, ◌≡◌, refl, inl, inr, Bool-cases, Bool, true, false, not, ◌&&◌, ◌||◌, List, [], ◌∷◌, map,
  Option, none, some, Text, text, text_eq, ◌==◌, nat_beq, ltb, if◌then◌else◌, trim, lines, split,
  assignment,
}

pub record NetConfig : Type 0 where
  pub ssid : Option Text
  pub psk : Option Text
  pub interface : Text
  pub address : Option Text
  pub gateway : Option Text
  pub dns : List Text

abbrev pub eth0 : Text
eth0 = text "eth0"

abbrev pub wlan0 : Text
wlan0 = text "wlan0"

abbrev pub default : NetConfig
default = record {
  ssid = none;
  psk = none;
  interface = eth0;
  address = none;
  gateway = none;
  dns = [];
}

abbrev pub is_filled : Option Text → Bool
is_filled (some (c ∷ cs)) = true
is_filled _ = false

abbrev pub is_wireless : NetConfig → Bool
is_wireless cfg = is_filled cfg.ssid

abbrev pub is_static : NetConfig → Bool
is_static cfg = is_filled cfg.address

-- The configuration read so far, and whether a line has named the interface.
pub record Parsed : Type 0 where
  pub cfg : NetConfig
  pub saw_interface : Bool

abbrev pub is_separator : ℕ → Bool
is_separator c = nat_beq c b',' || nat_beq c b' '

abbrev pub without_empty : List Text → List Text
without_empty [] = []
without_empty ([] ∷ pieces) = without_empty pieces
without_empty ((c ∷ cs) ∷ pieces) = (c ∷ cs) ∷ without_empty pieces

unfoldable pub split_dns : Text → List Text
split_dns value = without_empty (map trim (split is_separator value))

-- The guards `if !value.is_empty()`.
abbrev pub unless_empty : Text → Parsed → Parsed → Parsed
unless_empty [] p p' = p
unless_empty (c ∷ cs) p p' = p'

unfoldable pub set_key : Text → Text → Parsed → Parsed
set_key key value p =
    if key == text "ssid"
    then unless_empty value p (record p { cfg = record p.cfg { ssid = some value } })
    else if key == text "psk" || key == text "password"
    then unless_empty value p (record p { cfg = record p.cfg { psk = some value } })
    else if key == text "interface" || key == text "iface"
    then unless_empty value p
        (record { cfg = record p.cfg { interface = value }; saw_interface = true })
    else if key == text "address" || key == text "ip"
    then unless_empty value p (record p { cfg = record p.cfg { address = some value } })
    else if key == text "gateway" || key == text "router"
    then unless_empty value p (record p { cfg = record p.cfg { gateway = some value } })
    else if key == text "dns" || key == text "nameserver"
    then unless_empty value p (record p { cfg = record p.cfg { dns = split_dns value } })
    else p

abbrev pub set_pair : Option (Text × Text) → Parsed → Parsed
set_pair none p = p
set_pair (some (key, value)) p = set_key key value p

-- The loop of `parse`.
unfoldable pub parse_lines : List Text → Parsed → Parsed
parse_lines [] p = p
parse_lines (line ∷ rest) p = parse_lines rest (set_pair (assignment line) p)

-- What `parse` does after the loop.
abbrev pub with_interface : Parsed → NetConfig
with_interface p =
    if is_wireless p.cfg && not p.saw_interface then record p.cfg { interface = wlan0 } else p.cfg

unfoldable pub parse : Text → NetConfig
parse contents =
    with_interface (parse_lines (lines contents) (record { cfg = default; saw_interface = false }))

-- A file as `metadata` and `read_to_string` show it.
pub record ConfFile : Type 0 where
  pub is_file : Bool
  pub len : ℕ
  pub contents : Option Text

pub data Candidate : Type 0 where
  persistent_conf fallback_conf : Candidate

abbrev pub usable : Option ConfFile → Bool
usable none = false
usable (some f) = f.is_file && ltb 0 f.len

abbrev pub contents_of : Option ConfFile → Option Text
contents_of none = none
contents_of (some f) = f.contents

abbrev parsed_from : Candidate → Option Text → Option (Candidate × NetConfig)
parsed_from c none = none
parsed_from c (some t) = some (c, parse t)

module _ (persistent fallback : Option ConfFile) where
  abbrev pub config_path : Option Candidate
  config_path =
      if usable persistent
      then some persistent_conf
      else if usable fallback
      then some fallback_conf
      else none

  abbrev pub file_at : Candidate → Option ConfFile
  file_at persistent_conf = persistent
  file_at fallback_conf = fallback

  abbrev load_at : Option Candidate → Option (Candidate × NetConfig)
  load_at none = none
  load_at (some c) = parsed_from c (contents_of (file_at c))

  unfoldable pub load : Option (Candidate × NetConfig)
  load = load_at config_path

-- `ensure_placeholder_at`, with whether `create` works.
unfoldable pub ensure_placeholder : Bool → Option ConfFile → Option ConfFile
ensure_placeholder creates (some f) = some f
ensure_placeholder creates none =
    if creates then some (record { is_file = true; len = 0; contents = some [] }) else none

-- The placeholder changes nothing of what is loaded.
pub load-ensure_placeholder :
    (creates : Bool) (persistent fallback : Option ConfFile)
    → load (ensure_placeholder creates persistent) fallback ≡ load persistent fallback
unfolding load ensure_placeholder
load-ensure_placeholder creates (some f) fallback = refl
load-ensure_placeholder true none fallback = elim (Bool-cases (usable fallback)) [
  | inl h ↦ rw h refl
  | inr h ↦ rw h refl
]
load-ensure_placeholder false none fallback = refl
