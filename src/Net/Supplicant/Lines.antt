-- ===== src/Net/Supplicant/Lines.antt =====
-- The lines that `supplicant_config` of vakt-net/src/main.rs writes.
use vakt_os.Base.{
  ℕ, ◌≡◌, ◌≢◌, ◌≤◌, ◌<◌, ◌⊎◌, inl, inr, refl, sym, ◌∙◌, ap, Bool, true, false, List, [], ◌∷◌, ◌++◌,
  append_assoc, none, Bool-cases, Text, text, text_eq, nat_eq, contains, contains-append, ltb,
  length, encode, encode_char, if◌then◌else◌, All, arith, lines, lines_from, lines-line,
  strip_cr_lem, contains-ends_in_cr,
}
use vakt_os.Net.Supplicant.{find_forbidden, all_hex, is_derived, extras, rendered, ctrl_dir}

-- A character that a quoted value can carry: no control character, no quote, no backslash.
pub record IsCarried (c : ℕ) : Type 0 where
  pub printed : 32 ≤ c
  pub no_control : (c < 127) ⊎ (160 ≤ c)
  pub no_quote : c ≢ b'"'
  pub no_backslash : c ≢ b'\\'

abbrev pub IsQuotable : Text → Type 0
IsQuotable t = (t ≢ []) × All IsCarried t

abbrev pub IsName : Text → Type 0
IsName ssid = IsQuotable ssid × (length (encode ssid) ≤ 32)

-- A key of 64 hexadecimal digits, or a passphrase.
abbrev pub IsPassword : Text → Type 0
IsPassword psk =
    (is_derived psk ≡ true)
    ⊎ (IsQuotable psk × (8 ≤ length (encode psk)) × (length (encode psk) ≤ 63))

pub find_forbidden-IsCarried : (t : Text) → find_forbidden t ≡ none → All IsCarried t
unfolding find_forbidden
find_forbidden-IsCarried [] h = tt
find_forbidden-IsCarried (c ∷ cs) h = (
  record {
    printed = ground arith;
    no_control = elim (Bool-cases (ltb c 127)) [
      | inl low ↦ inl (ground arith)
      | inr high ↦ inr (ground arith)
    ];
    no_quote = ground arith;
    no_backslash = ground arith;
  },
  find_forbidden-IsCarried cs (ground arith),
)

pub carried-find_forbidden : (t : Text) → All IsCarried t → find_forbidden t ≡ none
unfolding find_forbidden
carried-find_forbidden [] h = refl
carried-find_forbidden (c ∷ cs) h =
    let (x, rest) = h in
    ground
      (arith, x.printed, x.no_control, x.no_quote, x.no_backslash, carried-find_forbidden cs rest)

pub carried-lacks : (t : Text) (n : ℕ) → n < 32 → All IsCarried t → contains t n ≡ false
carried-lacks [] n small h = refl
carried-lacks (c ∷ cs) n small h = ground (arith, h.0.printed, carried-lacks cs n small h.1)

-- A character whose bytes are digits is its own byte.
hex-encode_char :
    (c : ℕ) (bs : List ℕ) → all_hex (encode_char c ++ bs) ≡ true → (48 ≤ c) × (all_hex bs ≡ true)
unfolding encode_char
hex-encode_char c bs h = elim (Bool-cases (ltb c 0x80)) [
  | inl small ↦ ground arith
  | inr big ↦ elim (Bool-cases (ltb c 0x800)) [
    | inl two ↦ absurd (ground arith)
    | inr more ↦ elim (Bool-cases (ltb c 0x10000)) [
      | inl three ↦ absurd (ground arith)
      | inr four ↦ absurd (ground arith)
    ]
  ]
]

pub hex-lacks : (t : Text) (n : ℕ) → n < 32 → all_hex (encode t) ≡ true → contains t n ≡ false
unfolding encode
hex-lacks [] n small h = refl
hex-lacks (c ∷ cs) n small h =
    let (digit, rest) = hex-encode_char c (encode cs) h in ground (arith, hex-lacks cs n small rest)

-- Text that stays within its line.
abbrev pub IsInline : Text → Type 0
IsInline t = (contains t b'\n' ≡ false) × (contains t b'\r' ≡ false)

quoted-line :
    (acc t post rest : Text)
    → IsInline acc
    → IsInline t
    → IsInline post
    → lines_from acc (t ++ (post ++ b'\n' ∷ rest)) ≡ (acc ++ (t ++ post)) ∷ lines_from [] rest
quoted-line acc t post rest a b c =
    ap (lines_from acc) (sym (append_assoc t post (b'\n' ∷ rest)))
    ∙ lines-line (t ++ post) acc rest (ground (arith, contains-append t post b'\n'))
    ∙ ap (λ x. x ∷ lines_from [] rest)
        (strip_cr_lem (acc ++ (t ++ post)) (
          contains-ends_in_cr (acc ++ (t ++ post))
            (ground (arith, contains-append acc (t ++ post) b'\r', contains-append t post b'\r'))))

abbrev pub psk_text : Text → Text
psk_text psk =
    if is_derived psk then text "\tpsk=" ++ (psk ++ []) else text "\tpsk=\"" ++ (psk ++ b'"' ∷ [])

abbrev pub extra_lines : Bool → List Text
extra_lines wpa3 =
    if wpa3
    then text "\tkey_mgmt=WPA-PSK WPA-PSK-SHA256 SAE"
      ∷ text "\tieee80211w=1"
      ∷ text "\tscan_ssid=1"
      ∷ []
    else []

-- The lines of the configuration of one network.
abbrev pub network_lines : Text → Text → Bool → List Text
network_lines ssid psk wpa3 =
    (text "ctrl_interface=" ++ ctrl_dir)
    ∷ text "network={"
    ∷ (text "\tssid=\"" ++ (ssid ++ b'"' ∷ []))
    ∷ psk_text psk
    ∷ (extra_lines wpa3 ++ text "}" ∷ [])

closing :
    (wpa3 : Bool) → lines_from [] (extras wpa3 ++ text "}\n") ≡ extra_lines wpa3 ++ text "}" ∷ []
unfolding lines_from
closing true = refl
closing false = refl

psk_part :
    (pre psk post rest : Text)
    → IsInline pre
    → IsInline psk
    → IsInline post
    → lines_from [] ((pre ++ (psk ++ (post ++ b'\n' ∷ []))) ++ rest)
      ≡ (pre ++ (psk ++ post)) ∷ lines_from [] rest
psk_part pre psk post rest p k q =
    ap (lines_from []) (
      append_assoc pre (psk ++ (post ++ b'\n' ∷ [])) rest
      ∙ ap (λ x. pre ++ x)
          (append_assoc psk (post ++ b'\n' ∷ []) rest
            ∙ ap (λ x. psk ++ x) (append_assoc post (b'\n' ∷ []) rest)
            ∙ sym (append_assoc psk post (b'\n' ∷ rest))))
    ∙ quoted-line [] pre (psk ++ post) rest (refl, refl) p
        (
          ground (arith, contains-append psk post b'\n'),
          ground (arith, contains-append psk post b'\r'),
        )

pub lines-rendered :
    (ssid pre psk post : Text) (wpa3 : Bool)
    → IsInline ssid
    → IsInline psk
    → IsInline post
    → IsInline pre
    → lines (rendered ssid (pre ++ (psk ++ (post ++ b'\n' ∷ []))) wpa3)
      ≡ (text "ctrl_interface=" ++ ctrl_dir)
        ∷ text "network={"
        ∷ (text "\tssid=\"" ++ (ssid ++ b'"' ∷ []))
        ∷ (pre ++ (psk ++ post))
        ∷ (extra_lines wpa3 ++ text "}" ∷ [])
unfolding lines lines_from
lines-rendered ssid pre psk post wpa3 s k q p =
    ap (λ (x : List Text). (text "ctrl_interface=" ++ ctrl_dir) ∷ text "network={" ∷ x)
      (quoted-line (text "\tssid=\"") ssid (b'"' ∷ []) _ (refl, refl) s (refl, refl)
        ∙ ap (◌∷◌ (text "\tssid=\"" ++ (ssid ++ b'"' ∷ []))) (
            psk_part pre psk post (extras wpa3 ++ text "}\n") p k q
            ∙ ap (◌∷◌ (pre ++ (psk ++ post))) (closing wpa3)))
