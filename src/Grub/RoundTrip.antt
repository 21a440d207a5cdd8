-- ===== src/Grub/RoundTrip.antt =====
-- `read` after `write`, for vakt-update/src/envblock.rs.
use vakt_os.Base.{
  ℕ, zero, suc, ◌-◌, ◌≤◌, ◌≡◌, refl, sym, ◌∙◌, ap, inl, inr, false, ◌||◌, List, [], ◌∷◌, ◌++◌,
  append-nil, append_assoc, Text, nat_eq, text_eq, Bytes, Map, insert, ok, >>=-eq-ok, contains,
  contains-append, length, length-append, length-replicate, replicate, Bool-cases, text, encode,
  encode_char, from_utf8_lossy, from_utf8_lossy-encode, IsScalar, lines, lines_from, lines-line,
  split_once-append, starts_with, strip_cr_lem, ends_in_cr, ends_in_cr-append, All, All-append,
  arith,
}
use vakt_os.Grub.{signature, block_size, add_entries, pad, block, parse_lines, parse}

-- What `write` takes and `read` can give back: a key that does not look like a comment, and a
-- value that does not end in a carriage return, both of proper characters.
pub record IsClean (entry : Text × Text) : Type 0 where
  pub key_scalar : All IsScalar entry.0
  pub value_scalar : All IsScalar entry.1
  pub key_plain : starts_with (text "#") entry.0 ≡ false
  pub value_plain : ends_in_cr entry.1 ≡ false

-- The map that the entries make, the last of each key winning.
abbrev pub insert_all : List (Text × Text) → Map Text Text → Map Text Text
insert_all [] m = m
insert_all ((key, value) ∷ entries) m = insert_all entries (insert key value m)

abbrev line_of : Text × Text → Text
line_of (key, value) = key ++ b'=' ∷ value

-- The text of the entries, as the lines of the block.
abbrev render : List (Text × Text) → Text
render [] = []
render (e ∷ entries) = line_of e ++ b'\n' ∷ render entries

abbrev IsLine : Text × Text → Type 0
IsLine (key, value) =
    (contains key b'=' ≡ false) × (contains key b'\n' ≡ false) × (contains value b'\n' ≡ false)

encode-append : (s t : Text) → encode (s ++ t) ≡ encode s ++ encode t
unfolding encode
encode-append [] t = refl
encode-append (c ∷ s) t =
    rw (encode-append s t) (sym (append_assoc (encode_char c) (encode s) (encode t)))

encode-render :
    (key value : Text) (entries : List (Text × Text))
    → (encode key ++ b'=' ∷ (encode value ++ b'\n' ∷ [])) ++ encode (render entries)
      ≡ encode (render ((key, value) ∷ entries))
unfolding encode
encode-render key value entries = simp (encode-append, append_assoc)

add_entries-eq-ok :
    (entries : List (Text × Text)) (buf out : Bytes)
    → add_entries buf entries ≡ ok out
    → (out ≡ buf ++ encode (render entries)) × All IsLine entries
unfolding add_entries encode
add_entries-eq-ok [] buf out h = (ground (arith, append-nil buf), tt)
add_entries-eq-ok ((key, value) ∷ entries) buf out h =
    elim (Bool-cases (contains key b'=' || contains key b'\n' || contains value b'\n')) [
      | inl bad ↦ absurd (ground arith)
      | inr good ↦
          let (is, rest) =
            add_entries-eq-ok entries (buf ++ (encode key ++ b'=' ∷ (encode value ++ b'\n' ∷ [])))
              out (ground arith) in
          (
            is ∙ append_assoc buf _ _ ∙ ap (λ x. buf ++ x) (encode-render key value entries),
            (ground arith, rest),
          )
    ]

encode_hashes : (n : ℕ) → replicate n b'#' ≡ encode (replicate n b'#')
unfolding encode
encode_hashes zero = refl
encode_hashes (suc n) = ap (λ x. b'#' ∷ x) (encode_hashes n)

IsScalar-replicate : (n : ℕ) → All IsScalar (replicate n b'#')
IsScalar-replicate zero = tt
IsScalar-replicate (suc n) = (IsScalar.below_gap (omega arith), IsScalar-replicate n)

render-IsScalar :
    (entries : List (Text × Text)) → All IsClean entries → All IsScalar (render entries)
render-IsScalar [] c = tt
render-IsScalar ((key, value) ∷ entries) c =
    All-append IsScalar (key ++ b'=' ∷ value) (b'\n' ∷ render entries)
      (All-append IsScalar key (b'=' ∷ value) c.0.key_scalar
        (IsScalar.below_gap (omega arith), c.0.value_scalar))
      (IsScalar.below_gap (omega arith), render-IsScalar entries c.1)

-- The padding is one line that begins with `#`, or nothing.
lines_hashes :
    (n : ℕ) (acc : Text)
    → lines_from (b'#' ∷ acc) (replicate n b'#') ≡ (b'#' ∷ (acc ++ replicate n b'#')) ∷ []
unfolding lines_from
lines_hashes zero acc = ap (λ (x : Text). (b'#' ∷ x) ∷ []) (sym (append-nil acc))
lines_hashes (suc n) acc =
    lines_hashes n (acc ++ b'#' ∷ [])
    ∙ ap (λ (x : Text). (b'#' ∷ x) ∷ []) (append_assoc acc (b'#' ∷ []) (replicate n b'#'))

parse_lines_padding :
    (n : ℕ) (m : Map Text Text) → parse_lines (lines_from [] (replicate n b'#')) m ≡ m
unfolding parse_lines lines_from
parse_lines_padding zero m = refl
parse_lines_padding (suc n) m = rw (lines_hashes n []) (unfold parse_lines in refl)

line_plain :
    (key value : Text)
    → starts_with (text "#") key ≡ false
    → starts_with (text "#") (key ++ b'=' ∷ value) ≡ false
line_plain [] value h = refl
line_plain (c ∷ key) value h = h

line_ends : (key value : Text) → ends_in_cr value ≡ false → ends_in_cr (key ++ b'=' ∷ value) ≡ false
line_ends key [] h = ends_in_cr-append key b'=' []
line_ends key (c ∷ value) h = ends_in_cr-append key b'=' (c ∷ value) ∙ h

parse_line :
    (key value : Text) (rest : List Text) (m : Map Text Text)
    → contains key b'=' ≡ false
    → starts_with (text "#") key ≡ false
    → parse_lines ((key ++ b'=' ∷ value) ∷ rest) m ≡ parse_lines rest (insert key value m)
unfolding parse_lines
parse_line key value rest m h k =
    rw (line_plain key value k, parse_lines) (rw (split_once-append b'=' key value h) refl)

parse_lines-render :
    (entries : List (Text × Text)) (n : ℕ) (m : Map Text Text)
    → All IsLine entries
    → All IsClean entries
    → parse_lines (lines_from [] (render entries ++ replicate n b'#')) m ≡ insert_all entries m
parse_lines-render [] n m l c = parse_lines_padding n m
parse_lines-render ((key, value) ∷ entries) n m l c =
    let line = key ++ b'=' ∷ value in
    let rest = render entries ++ replicate n b'#' in
    let whole : contains line b'\n' ≡ false =
      ground (arith, contains-append key (b'=' ∷ value) b'\n') in
    ap (λ t. parse_lines (lines_from [] t) m)
      (append_assoc line (b'\n' ∷ render entries) (replicate n b'#'))
    ∙ ap (λ ls. parse_lines ls m) (lines-line line [] rest whole)
    ∙ ap (λ t. parse_lines (t ∷ lines_from [] rest) m)
        (strip_cr_lem line (line_ends key value c.0.value_plain))
    ∙ parse_line key value (lines_from [] rest) m l.0.0 c.0.key_plain
    ∙ parse_lines-render entries n (insert key value m) l.1 c.1

pad-eq-ok :
    (buf bytes : Bytes)
    → pad buf ≡ ok bytes
    → (bytes ≡ buf ++ replicate (block_size - length buf) b'#') × (length buf ≤ block_size)
unfolding pad
pad-eq-ok buf bytes h = ground arith

-- The block of valid entries: the signature, a line for each, and the padding.
record IsBlock (entries : List (Text × Text)) (bytes : Bytes) : Type 0 where
  hashes : ℕ
  is : bytes ≡ signature ++ encode (render entries ++ replicate hashes b'#')
  lines_valid : All IsLine entries
  full : length bytes ≡ block_size

block-IsBlock :
    (entries : List (Text × Text)) (bytes : Bytes)
    → block entries ≡ ok bytes
    → IsBlock entries bytes
unfolding block
block-IsBlock entries bytes h =
    let (buf, added, padded) = >>=-eq-ok (add_entries signature entries) pad h in
    let (is, fine) = add_entries-eq-ok entries signature buf added in
    let (shape, small) = pad-eq-ok buf bytes padded in
    let n = block_size - length buf in
    record {
      hashes = n;
      is =
          shape
          ∙ ap (λ x. x ++ replicate n b'#') is
          ∙ append_assoc signature (encode (render entries)) (replicate n b'#')
          ∙ ap (λ x. signature ++ (encode (render entries) ++ x)) (encode_hashes n)
          ∙ ap (λ x. signature ++ x) (sym (encode-append (render entries) (replicate n b'#')));
      lines_valid = fine;
      full =
          ap length shape
          ∙ omega (arith, length-append buf (replicate n b'#'), length-replicate {A = ℕ} n b'#');
    }

parse-signature :
    (body : Text)
    → All IsScalar body
    → parse (signature ++ encode body) ≡ ok (parse_lines (lines body) [])
unfolding parse from_utf8_lossy
parse-signature body h =
    ap (λ t. ok (parse_lines (lines t) []))
      (ap from_utf8_lossy (sym (append-nil (encode body)))
        ∙ from_utf8_lossy-encode body [] h
        ∙ append-nil body)

-- What `write` stores for clean entries, `read` gives back: every key with the last value that
-- was written for it, and nothing else.
pub parse-block :
    (entries : List (Text × Text)) (bytes : Bytes)
    → All IsClean entries
    → block entries ≡ ok bytes
    → parse bytes ≡ ok (insert_all entries [])
unfolding lines
parse-block entries bytes clean h =
    let b = block-IsBlock entries bytes h in
    let body = render entries ++ replicate b.hashes b'#' in
    ap parse b.is
    ∙ parse-signature body (
        All-append IsScalar (render entries) (replicate b.hashes b'#')
          (render-IsScalar entries clean) (IsScalar-replicate b.hashes))
    ∙ ap ok (parse_lines-render entries b.hashes [] b.lines_valid clean)

-- A block that `write` stores is always one block long.
pub length-block :
    (entries : List (Text × Text)) (bytes : Bytes)
    → block entries ≡ ok bytes
    → length bytes ≡ block_size
length-block entries bytes h = (block-IsBlock entries bytes h).full
