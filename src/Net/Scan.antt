-- ===== src/Net/Scan.antt =====
-- vakt-net/src/scan.rs: what is in range, from the supplicant's table to the file that the panel reads.
pub mod Published
mod Tests
use vakt_os.Base.{
  ℕ, zero, suc, ◌+◌, ◌-◌, Bool, true, false, ◌||◌, List, [], ◌∷◌, ◌++◌, Option, none, some, Text,
  text, nat_beq, if◌then◌else◌, trim, lines, split, starts_with, digits_below, show, ltb,
}

-- A signed number.
pub data ℤ : Type 0 where
  pos : ℕ → ℤ
  negsuc : ℕ → ℤ

pub record Network : Type 0 where
  pub ssid : Text
  pub signal : ℤ
  pub freq : ℤ
  pub security : Text

abbrev pub negated : ℕ → ℤ
negated zero = pos 0
negated (suc n) = negsuc n

abbrev pub as_pos : Option ℕ → Option ℤ
as_pos none = none
as_pos (some n) = some (pos n)

abbrev pub as_neg : Option ℕ → Option ℤ
as_neg none = none
as_neg (some n) = some (negated n)

abbrev pub some_digits : ℕ → Text → Option ℕ
some_digits limit [] = none
some_digits limit (c ∷ cs) = digits_below limit (c ∷ cs) 0

-- `str::parse::<i32>`
unfoldable pub parse_i32 : Text → Option ℤ
parse_i32 [] = none
parse_i32 (c ∷ cs) =
    if nat_beq c b'-'
    then as_neg (some_digits 2147483649 cs)
    else if nat_beq c b'+'
    then as_pos (some_digits 2147483648 cs)
    else as_pos (some_digits 2147483648 (c ∷ cs))

unfoldable pub show_int : ℤ → Text
unfolding show
show_int (pos n) = show n
show_int (negsuc n) = b'-' ∷ show (suc n)

-- `str::contains`
abbrev pub has_word : Text → Text → Bool
has_word word [] = starts_with word []
has_word word (c ∷ cs) = starts_with word (c ∷ cs) || has_word word cs

unfoldable pub security_from : Text → Text
security_from flags =
    if has_word (text "SAE") flags
    then text "WPA3"
    else if has_word (text "WPA2") flags
    then text "WPA2"
    else if has_word (text "WPA") flags
    then text "WPA"
    else if has_word (text "WEP") flags
    then text "WEP"
    else text "open"

abbrev pub network_of : (ssid flags : Text) → (signal freq : Option ℤ) → Option Network
network_of [] flags signal freq = none
network_of (c ∷ cs) flags (some signal) (some freq) =
    some (record { ssid = c ∷ cs; signal = signal; freq = freq; security = security_from flags })
network_of (c ∷ cs) flags _ _ = none

abbrev pub row_of : List Text → Option Network
row_of (bssid ∷ freq ∷ signal ∷ flags ∷ ssid ∷ rest) =
    network_of (trim ssid) flags (parse_i32 (trim signal)) (parse_i32 (trim freq))
row_of _ = none

unfoldable pub parse_row : Text → Option Network
parse_row line = row_of (split (λ c. nat_beq c b'\t') line)

abbrev pub push_network : Option Network → List Network → List Network
push_network none found = found
push_network (some n) found = n ∷ found

unfoldable pub parse_rows : List Text → List Network
parse_rows [] = []
parse_rows (line ∷ rest) = push_network (parse_row line) (parse_rows rest)

abbrev pub skip_first : List Text → List Text
skip_first [] = []
skip_first (header ∷ rest) = rest

unfoldable pub parse_results : Text → List Network
parse_results table = parse_rows (skip_first (lines table))

unfoldable pub row : Network → Text
row n = n.ssid ++ b'\t' ∷ (show_int n.signal ++ b'\t' ∷ (show_int n.freq ++ b'\t' ∷ n.security))

unfoldable pub render : List Network → Text
render [] = []
render (n ∷ networks) = row n ++ b'\n' ∷ render networks
