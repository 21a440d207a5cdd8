-- ===== src/Base/Assignments.antt =====
-- Files of `key=value` lines, as vakt-net/src/config.rs and pkg-manager/src/config.rs read them, and `split`.
use vakt_os.Base.Core.{
  ℕ, ◌≡◌, ◌≢◌, refl, ◌∙◌, ap, ap₂, Bool, true, false, List, [], ◌∷◌, ◌++◌, map, Option, none, some,
  if◌then◌else◌, arith, All, nat_beq,
}
use vakt_os.Base.Equality.{Text, nat_eq, text_eq, contains, contains-append}
use vakt_os.Base.Strings.{
  trim, trim_start_matches, trim_end_matches, keep_front, is_whitespace, split_once,
  split_once-append, to_ascii_lowercase, lines, lines_from, lines-line, strip_cr_lem, ends_in_cr,
}

-- `split(p)`: the pieces between the characters that match.
abbrev pub before_rest : ℕ → List Text → List Text
before_rest c [] = (c ∷ []) ∷ []
before_rest c (piece ∷ pieces) = (c ∷ piece) ∷ pieces

unfoldable pub split : (ℕ → Bool) → Text → List Text
split p [] = [] ∷ []
split p (c ∷ cs) = let rest = split p cs in if p c then [] ∷ rest else before_rest c rest

abbrev trimmed_pair : Option (Text × Text) → Option (Text × Text)
trimmed_pair none = none
trimmed_pair (some (key, value)) = some (to_ascii_lowercase (trim key), trim value)

-- A trimmed line: nothing if it is empty, a comment, or without `=`.
abbrev pub pair_of : Text → Option (Text × Text)
pair_of [] = none
pair_of (c ∷ cs) = if nat_beq c b'#' then none else trimmed_pair (split_once b'=' (c ∷ cs))

unfoldable pub assignment : Text → Option (Text × Text)
assignment line = pair_of (trim line)

abbrev pub starts_blank : Text → Bool
starts_blank [] = false
starts_blank (c ∷ cs) = is_whitespace c

abbrev pub ends_blank : Text → Bool
ends_blank [] = false
ends_blank (c ∷ []) = is_whitespace c
ends_blank (c ∷ d ∷ cs) = ends_blank (d ∷ cs)

-- What a line can carry: text without a newline, and no blank at either end.
pub record IsValue (t : Text) : Type 0 where
  pub filled : t ≢ []
  pub starts : starts_blank t ≡ false
  pub ends : ends_blank t ≡ false
  pub single : contains t b'\n' ≡ false

pub record IsKey (t : Text) : Type 0 where
  pub value : IsValue t
  pub plain : contains t b'=' ≡ false
  pub no_comment : contains t b'#' ≡ false

trim_start_lem : (t : Text) → starts_blank t ≡ false → trim_start_matches is_whitespace t ≡ t
unfolding trim_start_matches
trim_start_lem [] h = refl
trim_start_lem (c ∷ cs) h = rw h refl

pub keep_front_lem : (b : Bool) (c d : ℕ) (cs : Text) → keep_front b c (d ∷ cs) ≡ c ∷ d ∷ cs
keep_front_lem true c d cs = refl
keep_front_lem false c d cs = refl

trim_end_lem : (t : Text) → ends_blank t ≡ false → trim_end_matches is_whitespace t ≡ t
unfolding trim_end_matches
trim_end_lem [] h = refl
trim_end_lem (c ∷ []) h = rw h refl
trim_end_lem (c ∷ d ∷ cs) h =
    ap (keep_front (is_whitespace c) c) (trim_end_lem (d ∷ cs) h)
    ∙ keep_front_lem (is_whitespace c) c d cs

trim_blank_lem : (t : Text) → starts_blank t ≡ false → ends_blank t ≡ false → trim t ≡ t
unfolding trim
trim_blank_lem t s e = ap (trim_end_matches is_whitespace) (trim_start_lem t s) ∙ trim_end_lem t e

pub trim-IsValue : (t : Text) → IsValue t → trim t ≡ t
trim-IsValue t v = trim_blank_lem t v.starts v.ends

ends_blank-append : (s : Text) (d : ℕ) (t : Text) → ends_blank (s ++ d ∷ t) ≡ ends_blank (d ∷ t)
ends_blank-append [] d t = refl
ends_blank-append (c ∷ []) d t = refl
ends_blank-append (c ∷ e ∷ s) d t = ends_blank-append (e ∷ s) d t

ends_blank-ends_in_cr : (t : Text) → ends_blank t ≡ false → ends_in_cr t ≡ false
unfolding is_whitespace
ends_blank-ends_in_cr [] h = refl
ends_blank-ends_in_cr (c ∷ []) h = ground arith
ends_blank-ends_in_cr (c ∷ d ∷ cs) h = ends_blank-ends_in_cr (d ∷ cs) h

-- A line without a newline or a carriage return, at the front of a text.
pub lines_from-line :
    (line rest : Text)
    → contains line b'\n' ≡ false
    → ends_in_cr line ≡ false
    → lines_from [] (line ++ b'\n' ∷ rest) ≡ line ∷ lines_from [] rest
lines_from-line line rest single plain =
    lines-line line [] rest single ∙ ap (λ x. x ∷ lines_from [] rest) (strip_cr_lem line plain)

pub contains-ends_in_cr : (t : Text) → contains t b'\r' ≡ false → ends_in_cr t ≡ false
contains-ends_in_cr [] h = refl
contains-ends_in_cr (c ∷ []) h = ground arith
contains-ends_in_cr (c ∷ d ∷ cs) h = contains-ends_in_cr (d ∷ cs) (ground arith)

abbrev pub line_of : Text × Text → Text
line_of (key, value) = key ++ b'=' ∷ value

-- The file of these pairs.
abbrev pub file_of : List (Text × Text) → Text
file_of [] = []
file_of (pair ∷ pairs) = line_of pair ++ b'\n' ∷ file_of pairs

pub record IsPair (pair : Text × Text) : Type 0 where
  pub key : IsKey pair.0
  pub value : IsValue pair.1

module _ (key value : Text) (p : IsPair (key, value)) where
  line_ends : ends_blank (line_of (key, value)) ≡ false
  line_ends = go value p.value
    where
      go : (v : Text) → IsValue v → ends_blank (key ++ b'=' ∷ v) ≡ false
      go [] h = absurd (h.filled refl)
      go (c ∷ cs) h = ends_blank-append key b'=' (c ∷ cs) ∙ h.ends

  line_starts : starts_blank (line_of (key, value)) ≡ false
  line_starts = go key p.key
    where
      go : (k : Text) → IsKey k → starts_blank (k ++ b'=' ∷ value) ≡ false
      go [] h = absurd (h.value.filled refl)
      go (c ∷ cs) h = h.value.starts

  line_single : contains (line_of (key, value)) b'\n' ≡ false
  line_single =
      ground (arith, contains-append key (b'=' ∷ value) b'\n', p.key.value.single, p.value.single)

  pair_of-line : pair_of (line_of (key, value)) ≡ some (to_ascii_lowercase key, value)
  pair_of-line = go key p.key
    where
      go : (k : Text) → IsKey k → pair_of (k ++ b'=' ∷ value) ≡ some (to_ascii_lowercase k, value)
      go [] h = absurd (h.value.filled refl)
      go (c ∷ cs) h =
          let visible : nat_beq c b'#' ≡ false = ground (arith, h.no_comment) in
          rw visible (
            ap trimmed_pair (split_once-append b'=' (c ∷ cs) value h.plain)
            ∙ ap₂ (λ x y. some (to_ascii_lowercase x, y)) (trim-IsValue (c ∷ cs) h.value)
                (trim-IsValue value p.value))

  -- A line of a valid pair says the pair.
  pub assignment-line_of : assignment (line_of (key, value)) ≡ some (to_ascii_lowercase key, value)
  unfolding assignment
  assignment-line_of =
      ap pair_of (trim_blank_lem (line_of (key, value)) line_starts line_ends) ∙ pair_of-line

  lines_of_pair :
      (rest : Text)
      → lines_from [] (line_of (key, value) ++ b'\n' ∷ rest)
        ≡ line_of (key, value) ∷ lines_from [] rest
  lines_of_pair rest =
      lines_from-line (line_of (key, value)) rest line_single
        (ends_blank-ends_in_cr (line_of (key, value)) line_ends)

-- The lines of the file of valid pairs are the lines of the pairs.
pub lines-file_of :
    (pairs : List (Text × Text)) → All IsPair pairs → lines (file_of pairs) ≡ map line_of pairs
unfolding lines lines_from
lines-file_of [] h = refl
lines-file_of ((key, value) ∷ pairs) h =
    lines_of_pair key value h.0 (file_of pairs)
    ∙ ap (◌∷◌ (line_of (key, value))) (lines-file_of pairs h.1)
