-- ===== src/Net/Config/RoundTrip.antt =====
-- What `parse` of vakt-net/src/config.rs makes of a file that writes a configuration out.
use vakt_os.Base.{
  ◌≡◌, ◌≢◌, refl, ◌∙◌, ap, Bool, true, false, List, [], ◌∷◌, ◌++◌, map, Option, none, some, Text,
  text, text_eq, nat_eq, contains, if◌then◌else◌, trim, split, before_rest, assignment-line_of,
  lines-file_of, line_of, file_of, IsPair, IsValue, trim-IsValue, All, to_ascii_lowercase, arith,
  Bool-cases, inl, inr,
}
use vakt_os.Net.Config.{
  NetConfig, eth0, wlan0, is_wireless, Parsed, is_separator, without_empty, split_dns, unless_empty,
  set_key, set_pair, parse_lines, with_interface, parse,
}

abbrev optional : Text → Option Text → List (Text × Text)
optional key none = []
optional key (some value) = (key, value) ∷ []

abbrev join : List Text → Text
join [] = []
join (x ∷ []) = x
join (x ∷ y ∷ ys) = x ++ b',' ∷ join (y ∷ ys)

abbrev servers : List Text → List (Text × Text)
servers [] = []
servers (x ∷ xs) = (text "dns", join (x ∷ xs)) ∷ []

-- The lines of a configuration, which may leave the interface out.
abbrev pub pairs_of : (named : Bool) → NetConfig → List (Text × Text)
pairs_of named cfg =
    optional (text "ssid") cfg.ssid
    ++ (optional (text "psk") cfg.psk
        ++ (optional (text "interface") (if named then some cfg.interface else none)
            ++ (optional (text "address") cfg.address
                ++ (optional (text "gateway") cfg.gateway ++ servers cfg.dns))))

-- A resolver: one word without a comma.
pub record IsServer (t : Text) : Type 0 where
  pub value : IsValue t
  pub word : contains t b' ' ≡ false
  pub no_comma : contains t b',' ≡ false

split_one :
    (t : Text) → contains t b' ' ≡ false → contains t b',' ≡ false → split is_separator t ≡ t ∷ []
unfolding split
split_one [] h k = refl
split_one (c ∷ cs) h k =
    let other : is_separator c ≡ false = ground arith in
    rw other (ap (before_rest c) (split_one cs (ground arith) (ground arith)))

split_first :
    (t rest : Text)
    → contains t b' ' ≡ false
    → contains t b',' ≡ false
    → split is_separator (t ++ b',' ∷ rest) ≡ t ∷ split is_separator rest
unfolding split
split_first [] rest h k = refl
split_first (c ∷ cs) rest h k =
    let other : is_separator c ≡ false = ground arith in
    rw other (ap (before_rest c) (split_first cs rest (ground arith) (ground arith)))

split-join :
    (x : Text) (xs : List Text)
    → All IsServer (x ∷ xs)
    → split is_separator (join (x ∷ xs)) ≡ x ∷ xs
split-join x [] h = split_one x h.0.word h.0.no_comma
split-join x (y ∷ ys) h =
    split_first x (join (y ∷ ys)) h.0.word h.0.no_comma ∙ ap (◌∷◌ x) (split-join y ys h.1)

without_empty_lem :
    (t : Text) (rest : List Text) → t ≢ [] → without_empty (t ∷ rest) ≡ t ∷ without_empty rest
without_empty_lem [] rest h = absurd (h refl)
without_empty_lem (c ∷ cs) rest h = refl

trimmed_servers : (xs : List Text) → All IsServer xs → without_empty (map trim xs) ≡ xs
trimmed_servers [] h = refl
trimmed_servers (x ∷ xs) h =
    ap (λ y. without_empty (y ∷ map trim xs)) (trim-IsValue x h.0.value)
    ∙ without_empty_lem x (map trim xs) h.0.value.filled
    ∙ ap (◌∷◌ x) (trimmed_servers xs h.1)

split_dns-join :
    (x : Text) (xs : List Text) → All IsServer (x ∷ xs) → split_dns (join (x ∷ xs)) ≡ x ∷ xs
unfolding split_dns
split_dns-join x xs h =
    ap (λ y. without_empty (map trim y)) (split-join x xs h) ∙ trimmed_servers (x ∷ xs) h

-- The loop over pairs.
apply_pairs : List (Text × Text) → Parsed → Parsed
apply_pairs [] p = p
apply_pairs ((key, value) ∷ pairs) p = apply_pairs pairs (set_key (to_ascii_lowercase key) value p)

parse_lines-line_of :
    (pairs : List (Text × Text)) (p : Parsed)
    → All IsPair pairs
    → parse_lines (map line_of pairs) p ≡ apply_pairs pairs p
unfolding parse_lines apply_pairs
parse_lines-line_of [] p h = refl
parse_lines-line_of ((key, value) ∷ pairs) p h =
    ap (λ o. parse_lines (map line_of pairs) (set_pair o p)) (assignment-line_of key value h.0)
    ∙ parse_lines-line_of pairs (set_key (to_ascii_lowercase key) value p) h.1

unless_empty_lem : (v : Text) (p p' : Parsed) → v ≢ [] → unless_empty v p p' ≡ p'
unless_empty_lem [] p p' h = absurd (h refl)
unless_empty_lem (c ∷ cs) p p' h = refl

-- A line that is there or not, at the front of valid lines.
read_optional :
    (key : Text) (o : Option Text) (rest : List (Text × Text)) (q : Option Text → Parsed)
    → ((v : Text) → v ≢ [] → set_key (to_ascii_lowercase key) v (q none) ≡ q (some v))
    → All IsPair (optional key o ++ rest)
    → (apply_pairs (optional key o ++ rest) (q none) ≡ apply_pairs rest (q o)) × All IsPair rest
unfolding apply_pairs
read_optional key none rest q sets h = (refl, h)
read_optional key (some v) rest q sets h = (ap (apply_pairs rest) (sets v h.0.value.filled), h.1)

set_ssid :
    (p : Parsed) (v : Text)
    → v ≢ []
    → set_key (text "ssid") v p ≡ record p { cfg = record p.cfg { ssid = some v } }
unfolding set_key
set_ssid p v h = unless_empty_lem v _ _ h

set_psk :
    (p : Parsed) (v : Text)
    → v ≢ []
    → set_key (text "psk") v p ≡ record p { cfg = record p.cfg { psk = some v } }
unfolding set_key
set_psk p v h = unless_empty_lem v _ _ h

set_interface :
    (p : Parsed) (v : Text)
    → v ≢ []
    → set_key (text "interface") v p
      ≡ record { cfg = record p.cfg { interface = v }; saw_interface = true }
unfolding set_key
set_interface p v h = unless_empty_lem v _ _ h

set_address :
    (p : Parsed) (v : Text)
    → v ≢ []
    → set_key (text "address") v p ≡ record p { cfg = record p.cfg { address = some v } }
unfolding set_key
set_address p v h = unless_empty_lem v _ _ h

set_gateway :
    (p : Parsed) (v : Text)
    → v ≢ []
    → set_key (text "gateway") v p ≡ record p { cfg = record p.cfg { gateway = some v } }
unfolding set_key
set_gateway p v h = unless_empty_lem v _ _ h

read_servers :
    (xs : List Text) (p : Parsed)
    → p.cfg.dns ≡ []
    → All IsServer xs
    → All IsPair (servers xs)
    → apply_pairs (servers xs) p ≡ record p { cfg = record p.cfg { dns = xs } }
unfolding apply_pairs set_key
read_servers [] p e h k = simp (← e)
read_servers (x ∷ xs) p e h k =
    unless_empty_lem (join (x ∷ xs)) _ _ k.0.value.filled
    ∙ ap (λ d. record p { cfg = record p.cfg { dns = d } }) (split_dns-join x xs h)

-- What the lines up to some point have set.
abbrev state :
    (ssid psk : Option Text) → Option Text → (address gateway : Option Text) → List Text → Parsed
state s k none a g d = record {
  cfg = record { ssid = s; psk = k; interface = eth0; address = a; gateway = g; dns = d };
  saw_interface = false;
}
state s k (some i) a g d = record {
  cfg = record { ssid = s; psk = k; interface = i; address = a; gateway = g; dns = d };
  saw_interface = true;
}

module _ (cfg : NetConfig) (i : Option Text) where
  -- The lines behind the one of the interface.
  apply_tail :
      All IsPair (
        optional (text "address") cfg.address
        ++ (optional (text "gateway") cfg.gateway ++ servers cfg.dns))
      → All IsServer cfg.dns
      → apply_pairs
          (optional (text "address") cfg.address
            ++ (optional (text "gateway") cfg.gateway ++ servers cfg.dns))
          (state cfg.ssid cfg.psk i none none [])
        ≡ state cfg.ssid cfg.psk i cfg.address cfg.gateway cfg.dns
  apply_tail h servers_valid =
      let (address, h1) =
        read_optional (text "address") cfg.address
          (optional (text "gateway") cfg.gateway ++ servers cfg.dns)
          (λ a. state cfg.ssid cfg.psk i a none []) (go_address i) h in
      let (gateway, h2) =
        read_optional (text "gateway") cfg.gateway (servers cfg.dns)
          (λ g. state cfg.ssid cfg.psk i cfg.address g []) (go_gateway i) h1 in
      address ∙ gateway ∙ go_servers i h2
    where
      go_address :
          (i : Option Text) (v : Text)
          → v ≢ []
          → set_key (text "address") v (state cfg.ssid cfg.psk i none none [])
            ≡ state cfg.ssid cfg.psk i (some v) none []
      go_address none v n = set_address (state cfg.ssid cfg.psk none none none []) v n
      go_address (some j) v n = set_address (state cfg.ssid cfg.psk (some j) none none []) v n

      go_gateway :
          (i : Option Text) (v : Text)
          → v ≢ []
          → set_key (text "gateway") v (state cfg.ssid cfg.psk i cfg.address none [])
            ≡ state cfg.ssid cfg.psk i cfg.address (some v) []
      go_gateway none v n = set_gateway (state cfg.ssid cfg.psk none cfg.address none []) v n
      go_gateway (some j) v n =
          set_gateway (state cfg.ssid cfg.psk (some j) cfg.address none []) v n

      go_servers :
          (i : Option Text)
          → All IsPair (servers cfg.dns)
          → apply_pairs (servers cfg.dns) (state cfg.ssid cfg.psk i cfg.address cfg.gateway [])
            ≡ state cfg.ssid cfg.psk i cfg.address cfg.gateway cfg.dns
      go_servers none h =
          read_servers cfg.dns (state cfg.ssid cfg.psk none cfg.address cfg.gateway []) refl
            servers_valid h
      go_servers (some j) h =
          read_servers cfg.dns (state cfg.ssid cfg.psk (some j) cfg.address cfg.gateway []) refl
            servers_valid h

apply_pairs-pairs_of :
    (named : Bool) (cfg : NetConfig)
    → All IsPair (pairs_of named cfg)
    → All IsServer cfg.dns
    → apply_pairs (pairs_of named cfg) (state none none none none none [])
      ≡ state cfg.ssid cfg.psk
          (if named then some cfg.interface else none)
          cfg.address
          cfg.gateway
          cfg.dns
apply_pairs-pairs_of named cfg h servers_valid =
    let i : Option Text = if named then some cfg.interface else none in
    let tail =
      optional (text "address") cfg.address
      ++ (optional (text "gateway") cfg.gateway ++ servers cfg.dns) in
    let (ssid, h1) =
      read_optional (text "ssid") cfg.ssid
        (optional (text "psk") cfg.psk ++ (optional (text "interface") i ++ tail))
        (λ s. state s none none none none []) (set_ssid (state none none none none none [])) h in
    let (psk, h2) =
      read_optional (text "psk") cfg.psk (optional (text "interface") i ++ tail)
        (λ k. state cfg.ssid k none none none []) (set_psk (state cfg.ssid none none none none []))
        h1 in
    let (interface, h3) =
      read_optional (text "interface") i tail (λ j. state cfg.ssid cfg.psk j none none [])
        (set_interface (state cfg.ssid cfg.psk none none none [])) h2 in
    ssid ∙ psk ∙ interface ∙ apply_tail cfg i h3 servers_valid

-- The interface that a configuration without one gets.
abbrev default_interface : NetConfig → Text
default_interface cfg = if is_wireless cfg then wlan0 else eth0

-- If every value is filled, on one line and without blanks around it, and every resolver is one word without a
-- comma: `parse` of the file that writes the configuration out, one `key=value` line a field, gives back exactly
-- that configuration, whatever `=` and `#` its values hold. When the file leaves the interface out, it is wlan0
-- for a configuration with an SSID and eth0 for one without.
pub parse-file_of :
    (named : Bool) (cfg : NetConfig)
    → All IsPair (pairs_of named cfg)
    → All IsServer cfg.dns
    → parse (file_of (pairs_of named cfg))
      ≡ (if named then cfg else record cfg { interface = default_interface cfg })
unfolding parse
parse-file_of named cfg h servers_valid =
    ap (λ ls. with_interface (parse_lines ls (state none none none none none [])))
      (lines-file_of (pairs_of named cfg) h)
    ∙ ap with_interface (
        parse_lines-line_of (pairs_of named cfg) (state none none none none none []) h
        ∙ apply_pairs-pairs_of named cfg h servers_valid)
    ∙ chosen named
  where
    chosen :
        (named : Bool)
        → with_interface (
            state cfg.ssid cfg.psk
              (if named then some cfg.interface else none)
              cfg.address
              cfg.gateway
              cfg.dns)
          ≡ (if named then cfg else record cfg { interface = default_interface cfg })
    chosen true = elim (Bool-cases (is_wireless cfg)) [ inl w ↦ rw w refl | inr w ↦ rw w refl ]
    chosen false = elim (Bool-cases (is_wireless cfg)) [ inl w ↦ rw w refl | inr w ↦ rw w refl ]
