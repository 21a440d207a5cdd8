-- ===== src/Net/Scan/Published.antt =====
-- What the panel reads of the file that vakt-net/src/scan.rs writes.
use vakt_os.Base.{
  ℕ, suc, ◌<◌, ◌≡◌, ◌≢◌, refl, ◌∙◌, ap, ap₂, inl, inr, false, List, [], ◌∷◌, ◌++◌, map, Option,
  none, some, Bool-cases, Text, text, text_eq, nat_eq, contains, contains-append, nat_beq, trim,
  lines, lines_from, lines_from-line, contains-ends_in_cr, ends_in_cr, ends_in_cr-append, subst,
  split, split-lacks_separator, split-lacks, split_last, split_front, trim-lacks, lines_from-Lacks,
  Lacks, show-lacks, All, arith,
}
use vakt_os.Net.Scan.{
  ℤ, pos, negsuc, Network, parse_i32, show_int, has_word, security_from, network_of, row_of,
  parse_row, push_network, parse_rows, skip_first, parse_results, row, render,
}

-- A text that cannot leave its field, or its line.
abbrev pub IsField : Text → Type 0
IsField t = (contains t b'\t' ≡ false) × (contains t b'\n' ≡ false)

pub record IsListed (n : Network) : Type 0 where
  pub filled : n.ssid ≢ []
  pub ssid : IsField n.ssid
  pub security : IsField n.security
  pub plain : contains n.security b'\r' ≡ false

show_int-lacks : (i : ℤ) (c : ℕ) → c < b'-' → contains (show_int i) c ≡ false
unfolding show_int
show_int-lacks (pos n) c h = show-lacks n c (omega (arith, h))
show_int-lacks (negsuc n) c h = ground (arith, show-lacks (suc n) c (omega (arith, h)))

-- The five words that `security_from` has are fields.
security-lacks : (flags : Text) (c : ℕ) → c < 14 → contains (security_from flags) c ≡ false
unfolding security_from
security-lacks flags c h = elim (Bool-cases (has_word (text "SAE") flags)) [
  | inl a ↦ rw a (ground arith)
  | inr a ↦ elim (Bool-cases (has_word (text "WPA2") flags)) [
    | inl b ↦ rw (a, b) (ground arith)
    | inr b ↦ elim (Bool-cases (has_word (text "WPA") flags)) [
      | inl d ↦ rw (a, b, d) (ground arith)
      | inr d ↦ elim (Bool-cases (has_word (text "WEP") flags)) [
        | inl e ↦ rw (a, b, d, e) (ground arith)
        | inr e ↦ rw (a, b, d, e) (ground arith)
      ]
    ]
  ]
]

-- The row of a network is its four fields.
split-row :
    (n : Network)
    → IsListed n
    → split (λ c. nat_beq c b'\t') (row n)
      ≡ n.ssid ∷ show_int n.signal ∷ show_int n.freq ∷ n.security ∷ []
unfolding row
split-row n h =
    split_front b'\t' n.ssid _ h.ssid.0
    ∙ ap (◌∷◌ n.ssid) (
        split_front b'\t' (show_int n.signal) _ (show_int-lacks n.signal b'\t' (omega arith))
        ∙ ap (◌∷◌ (show_int n.signal)) (
            split_front b'\t' (show_int n.freq) n.security
              (show_int-lacks n.freq b'\t' (omega arith))
            ∙ ap (◌∷◌ (show_int n.freq)) (split_last b'\t' n.security h.security.0)))

row-plain : (n : Network) → IsListed n → ends_in_cr (row n) ≡ false
unfolding row
row-plain n h =
    ends_in_cr-append n.ssid b'\t'
      (show_int n.signal ++ b'\t' ∷ (show_int n.freq ++ b'\t' ∷ n.security))
    ∙ ends_in_cr-append (b'\t' ∷ show_int n.signal) b'\t' (show_int n.freq ++ b'\t' ∷ n.security)
    ∙ ends_in_cr-append (b'\t' ∷ show_int n.freq) b'\t' n.security
    ∙ contains-ends_in_cr (b'\t' ∷ n.security) (ground (arith, h.plain))

row-single : (n : Network) → IsListed n → contains (row n) b'\n' ≡ false
unfolding row
row-single n h =
    let signal = show_int n.signal in
    let freq = show_int n.freq in
    ground (
      arith,
      h.ssid.1,
      h.security.1,
      show_int-lacks n.signal b'\n' (omega arith),
      show_int-lacks n.freq b'\n' (omega arith),
      contains-append n.ssid (b'\t' ∷ (signal ++ b'\t' ∷ (freq ++ b'\t' ∷ n.security))) b'\n',
      contains-append signal (b'\t' ∷ (freq ++ b'\t' ∷ n.security)) b'\n',
      contains-append freq (b'\t' ∷ n.security) b'\n',
    )

lines-render :
    (networks : List Network) → All IsListed networks → lines (render networks) ≡ map row networks
unfolding lines lines_from render
lines-render [] h = refl
lines-render (n ∷ networks) h =
    lines_from-line (row n) (render networks) (row-single n h.0) (row-plain n h.0)
    ∙ ap (◌∷◌ (row n)) (lines-render networks h.1)

network_of-IsListed :
    (ssid flags : Text) (signal freq : Option ℤ) (n : Network)
    → IsField ssid
    → network_of ssid flags signal freq ≡ some n
    → IsListed n
network_of-IsListed [] flags signal freq n f h = absurd (cc)
network_of-IsListed (c ∷ cs) flags none freq n f h = absurd (cc)
network_of-IsListed (c ∷ cs) flags (some s) none n f h = absurd (cc)
network_of-IsListed (c ∷ cs) flags (some s) (some q) n f h =
    subst IsListed
      {x = record { ssid = c ∷ cs; signal = s; freq = q; security = security_from flags }} {y = n}
      (ground arith)
      (record {
        filled = λ e. cc;
        ssid = f;
        security =
            (security-lacks flags b'\t' (omega arith), security-lacks flags b'\n' (omega arith));
        plain = security-lacks flags b'\r' (omega arith);
      })

row_of-IsListed :
    (fields : List Text) (n : Network)
    → All (λ t. contains t b'\t' ≡ false) fields
    → All (λ t. contains t b'\n' ≡ false) fields
    → row_of fields ≡ some n
    → IsListed n
row_of-IsListed [] n t l h = absurd (cc)
row_of-IsListed (a ∷ []) n t l h = absurd (cc)
row_of-IsListed (a ∷ b ∷ []) n t l h = absurd (cc)
row_of-IsListed (a ∷ b ∷ c ∷ []) n t l h = absurd (cc)
row_of-IsListed (a ∷ b ∷ c ∷ d ∷ []) n t l h = absurd (cc)
row_of-IsListed (a ∷ freq ∷ signal ∷ flags ∷ ssid ∷ rest) n t l h =
    network_of-IsListed (trim ssid) flags (parse_i32 (trim signal)) (parse_i32 (trim freq)) n
      (trim-lacks b'\t' ssid t.1.1.1.1.0, trim-lacks b'\n' ssid l.1.1.1.1.0) h

push-IsListed :
    (o : Option Network) (found : List Network)
    → ((n : Network) → o ≡ some n → IsListed n)
    → All IsListed found
    → All IsListed (push_network o found)
push-IsListed none found h k = k
push-IsListed (some n) found h k = (h n refl, k)

rows-IsListed : (ls : List Text) → All Lacks ls → All IsListed (parse_rows ls)
unfolding parse_rows parse_row
rows-IsListed [] h = tt
rows-IsListed (line ∷ rest) h =
    push-IsListed (parse_row line) (parse_rows rest)
      (λ n e.
        row_of-IsListed (split (λ c. nat_beq c b'\t') line) n (split-lacks_separator b'\t' line)
          (split-lacks b'\t' b'\n' line h.0) e)
      (rows-IsListed rest h.1)

skip_first-Lacks : (ls : List Text) → All Lacks ls → All Lacks (skip_first ls)
skip_first-Lacks [] h = tt
skip_first-Lacks (l ∷ ls) h = h.1

abbrev pub fields : Network → List Text
fields n = n.ssid ∷ show_int n.signal ∷ show_int n.freq ∷ n.security ∷ []

split_rows :
    (networks : List Network)
    → All IsListed networks
    → map (split (λ c. nat_beq c b'\t')) (map row networks) ≡ map fields networks
split_rows [] h = refl
split_rows (n ∷ networks) h = ap₂ (◌∷◌) (split-row n h.0) (split_rows networks h.1)

-- Whatever names the networks in range have: every network that `parse_results` finds has a name, and the file that
-- `render` makes of them has exactly one line for each, which has exactly four fields between tabs: the name, the
-- signal, the frequency and the security. No name can add a line or a field.
pub parse_results-render :
    (table : Text)
    → All IsListed (parse_results table)
      × (map (split (λ c. nat_beq c b'\t')) (lines (render (parse_results table)))
          ≡ map fields (parse_results table))
unfolding parse_results lines
parse_results-render table =
    let listed =
      rows-IsListed (skip_first (lines table))
        (skip_first-Lacks (lines table) (lines_from-Lacks table [] refl)) in
    (
      listed,
      ap (map (split (λ c. nat_beq c b'\t'))) (lines-render (parse_results table) listed)
          ∙ split_rows (parse_results table) listed,
    )
