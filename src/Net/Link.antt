-- ===== src/Net/Link.antt =====
-- vakt-net/src/link.rs: which interfaces there are. A directory of sysfs is the list of its entries.
use vakt_os.Base.{
  Bool, ◌||◌, List, [], ◌∷◌, Option, none, some, Text, text, text_eq, ◌==◌, if◌then◌else◌, sort,
}
use vakt_os.Net.Connect.{has_carrier}

pub record Entry : Type 0 where
  pub name : Option Text
  pub wireless : Bool
  pub phy80211 : Bool

abbrev pub is_radio : Entry → Bool
is_radio e = e.wireless || e.phy80211

abbrev pub push_unless_lo : Option Text → List Text → List Text
push_unless_lo none names = names
push_unless_lo (some name) names = if name == text "lo" then names else name ∷ names

abbrev pub push_name : Option Text → List Text → List Text
push_name none names = names
push_name (some name) names = name ∷ names

unfoldable pub wired_names : List Entry → List Text
wired_names [] = []
wired_names (e ∷ entries) =
    let rest = wired_names entries in if is_radio e then rest else push_unless_lo e.name rest

unfoldable pub wireless_names : List Entry → List Text
wireless_names [] = []
wireless_names (e ∷ entries) =
    let rest = wireless_names entries in if is_radio e then push_name e.name rest else rest

-- `wired_candidates_in` and `wireless_candidates_in`; a directory that cannot be read has none.
unfoldable pub wired_candidates : Option (List Entry) → List Text
unfolding wired_names
wired_candidates none = []
wired_candidates (some entries) = sort (wired_names entries)

unfoldable pub wireless_candidates : Option (List Entry) → List Text
unfolding wireless_names
wireless_candidates none = []
wireless_candidates (some entries) = sort (wireless_names entries)

abbrev pub find_carrier : (Text → Option Text) → List Text → Option Text
find_carrier carrier [] = none
find_carrier carrier (i ∷ is) =
    let rest = find_carrier carrier is in if has_carrier (carrier i) then some i else rest

-- The carriers are read after every candidate was brought up.
unfoldable pub first_wired_link : Option (List Entry) → (Text → Option Text) → Option Text
first_wired_link entries carrier = find_carrier carrier (wired_candidates entries)

abbrev pub first : List Text → Option Text
first [] = none
first (i ∷ is) = some i

unfoldable pub first_wireless_link : Option (List Entry) → Option Text
first_wireless_link entries = first (wireless_candidates entries)
