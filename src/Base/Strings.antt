-- ===== src/Base/Strings.antt =====
-- What the source uses of Rust's `str`: lines, trimming, splitting, prefixes and letter case.
use Prim.Native.Char.{code}
use Prim.Native.String.{String}
use vakt_os.Base.Core.{
  ℕ, ◌+◌, ◌≡◌, refl, ap, Bool, true, false, ◌&&◌, ◌||◌, List, [], ◌∷◌, ◌++◌, map, Option, none,
  some, arith, leb, nat_beq, if◌then◌else◌, append_assoc, append-nil, ◌∙◌,
}
use vakt_os.Base.Equality.{nat_eq, Text, contains}

-- The characters of a literal.
abbrev pub text : String → Text
text String.[] = []
text (String.◌∷◌ c s) = code c ∷ text s

-- `char::is_whitespace`: the Unicode property White_Space.
unfoldable pub is_whitespace : ℕ → Bool
is_whitespace c =
    (leb 9 c && leb c 13)
    || nat_beq c 0x20
    || nat_beq c 0x85
    || nat_beq c 0xA0
    || nat_beq c 0x1680
    || (leb 0x2000 c && leb c 0x200A)
    || nat_beq c 0x2028
    || nat_beq c 0x2029
    || nat_beq c 0x202F
    || nat_beq c 0x205F
    || nat_beq c 0x3000

unfoldable pub trim_start_matches : (ℕ → Bool) → Text → Text
trim_start_matches p [] = []
trim_start_matches p (c ∷ cs) = let rest = trim_start_matches p cs in if p c then rest else c ∷ cs

-- A suffix of matching characters goes: `c` stays if something behind it stays, or by itself.
abbrev pub keep_front : Bool → ℕ → Text → Text
keep_front true c [] = []
keep_front _ c rest = c ∷ rest

unfoldable pub trim_end_matches : (ℕ → Bool) → Text → Text
trim_end_matches p [] = []
trim_end_matches p (c ∷ cs) = keep_front (p c) c (trim_end_matches p cs)

unfoldable pub trim : Text → Text
unfolding trim_start_matches trim_end_matches is_whitespace
trim t = trim_end_matches is_whitespace (trim_start_matches is_whitespace t)

-- `split_once(c)`: around the first `c`.
unfoldable pub split_once : ℕ → Text → Option (Text × Text)
split_once d [] = none
split_once d (c ∷ cs) = if nat_beq c d then some ([], cs) else prepend c (split_once d cs)
  where
    prepend : ℕ → Option (Text × Text) → Option (Text × Text)
    prepend c none = none
    prepend c (some (a, b)) = some (c ∷ a, b)

-- One `\r` before the line's `\n` goes.
abbrev pub strip_cr : Text → Text
strip_cr [] = []
strip_cr (c ∷ []) = if nat_beq c b'\r' then [] else c ∷ []
strip_cr (c ∷ d ∷ cs) = c ∷ strip_cr (d ∷ cs)

abbrev pub last_line : Text → List Text
last_line [] = []
last_line (c ∷ cs) = (c ∷ cs) ∷ []

-- `str::lines`, with what has been read of the current line.
unfoldable pub lines_from : Text → Text → List Text
lines_from line [] = last_line line
lines_from line (c ∷ cs) = elim (nat_beq c b'\n') [
  | true ↦ strip_cr line ∷ lines_from [] cs
  | false ↦ lines_from (line ++ c ∷ []) cs
]

unfoldable pub lines : Text → List Text
unfolding lines_from
lines = lines_from []

abbrev pub starts_with : Text → Text → Bool
starts_with [] t = true
starts_with (c ∷ p) [] = false
starts_with (c ∷ p) (d ∷ t) = nat_beq c d && starts_with p t

abbrev pub lower : ℕ → ℕ
lower c = if leb b'A' c && leb c b'Z' then c + 32 else c

abbrev pub to_ascii_lowercase : Text → Text
to_ascii_lowercase = map lower

pub lines-line :
    (line acc rest : Text)
    → contains line b'\n' ≡ false
    → lines_from acc (line ++ b'\n' ∷ rest) ≡ strip_cr (acc ++ line) ∷ lines_from [] rest
unfolding lines_from
lines-line [] acc rest h = rw append-nil
lines-line (c ∷ line) acc rest h =
    let other : nat_beq c b'\n' ≡ false = ground arith in
    rw (other, lines_from)
      (lines-line line (acc ++ c ∷ []) rest (ground arith)
        ∙ ap (λ x. strip_cr x ∷ lines_from [] rest) (append_assoc acc (c ∷ []) line))

-- A line that does not end in `\r` is left as it is.
abbrev pub ends_in_cr : Text → Bool
ends_in_cr [] = false
ends_in_cr (c ∷ []) = nat_beq c b'\r'
ends_in_cr (c ∷ d ∷ cs) = ends_in_cr (d ∷ cs)

pub strip_cr_lem : (t : Text) → ends_in_cr t ≡ false → strip_cr t ≡ t
strip_cr_lem [] h = refl
strip_cr_lem (c ∷ []) h = rw h
strip_cr_lem (c ∷ d ∷ cs) h = ap (◌∷◌ c) (strip_cr_lem (d ∷ cs) h)

pub ends_in_cr-append : (s : Text) (d : ℕ) (t : Text) → ends_in_cr (s ++ d ∷ t) ≡ ends_in_cr (d ∷ t)
ends_in_cr-append [] d t = refl
ends_in_cr-append (c ∷ []) d t = refl
ends_in_cr-append (c ∷ e ∷ s) d t = ends_in_cr-append (e ∷ s) d t

pub split_once-append :
    (d : ℕ) (a b : Text) → contains a d ≡ false → split_once d (a ++ d ∷ b) ≡ some (a, b)
unfolding split_once
split_once-append d [] b h = ground arith
split_once-append d (c ∷ a) b h = ground (arith, split_once-append d a b)
