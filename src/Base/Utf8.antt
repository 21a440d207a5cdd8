-- ===== src/Base/Utf8.antt =====
-- UTF-8: the bytes of a `str`, and `String::from_utf8_lossy`, which replaces each maximal part of
-- a sequence that is not valid by U+FFFD.
pub mod Decode
use vakt_os.Base.Core.{
  ℕ, zero, suc, ◌+◌, ◌*◌, ◌/◌, ◌%◌, ◌<◌, ◌≤◌, ◌≡◌, refl, sym, ◌∙◌, ap, Bool, true, false, ◌&&◌,
  List, [], ◌∷◌, ◌++◌, append_assoc, arith, ltb, leb, if◌then◌else◌, Bool-cases, inl, inr, ◌⊎◌, All,
}
use vakt_os.Base.Equality.{Text}

abbrev pub Bytes : Type 0
Bytes = List ℕ

-- A Unicode scalar value, which is what a `char` holds.
pub data IsScalar (c : ℕ) : Type 0 where
  below_gap : c < 0xD800 → IsScalar c
  above_gap : 0xDFFF < c → c < 0x110000 → IsScalar c

unfoldable pub encode_char : ℕ → Bytes
encode_char c =
    if ltb c 0x80
    then c ∷ []
    else if ltb c 0x800
    then (0xC0 + c / 64) ∷ (0x80 + c % 64) ∷ []
    else if ltb c 0x10000
    then (0xE0 + c / 4096) ∷ (0x80 + c / 64 % 64) ∷ (0x80 + c % 64) ∷ []
    else (0xF0 + c / 262144) ∷ (0x80 + c / 4096 % 64) ∷ (0x80 + c / 64 % 64) ∷ (0x80 + c % 64) ∷ []

unfoldable pub encode : Text → Bytes
unfolding encode_char
encode [] = []
encode (c ∷ cs) = encode_char c ++ encode cs

-- What a first byte announces: how many bytes follow the next one, the range of the next one, and
-- the bits read so far.
pub data Lead : Type 0 where
  ascii : Lead
  open_sequence : (more lo hi bits : ℕ) → Lead
  invalid : Lead

pub lead : ℕ → Lead
lead b =
    if ltb b 0x80
    then ascii
    else if ltb b 0xC2
    then invalid
    else if ltb b 0xE0
    then open_sequence 0 0x80 0xBF (b % 32)
    else if ltb b 0xE1
    then open_sequence 1 0xA0 0xBF 0
    else if ltb b 0xED
    then open_sequence 1 0x80 0xBF (b % 16)
    else if ltb b 0xEE
    then open_sequence 1 0x80 0x9F (b % 16)
    else if ltb b 0xF0
    then open_sequence 1 0x80 0xBF (b % 16)
    else if ltb b 0xF1
    then open_sequence 2 0x90 0xBF 0
    else if ltb b 0xF4
    then open_sequence 2 0x80 0xBF (b % 8)
    else if ltb b 0xF5
    then open_sequence 2 0x80 0x8F 4
    else invalid

pub data Pending : Type 0 where
  idle : Pending
  within : (more lo hi bits : ℕ) → Pending

abbrev pub replacement : ℕ
replacement = 0xFFFD

pub decode_from : Pending → Bytes → Text
unfolding lead
decode_from idle [] = []
decode_from (within more lo hi bits) [] = replacement ∷ []
decode_from idle (b ∷ bs) = elim (lead b) [
  | ascii ↦ b ∷ decode_from idle bs
  | open_sequence more lo hi bits ↦ decode_from (within more lo hi bits) bs
  | invalid ↦ replacement ∷ decode_from idle bs
]
decode_from (within more lo hi bits) (b ∷ bs) = elim (leb lo b && leb b hi) [
  | true ↦ elim more [
    | zero ↦ (bits * 64 + b % 64) ∷ decode_from idle bs
    | suc left ↦ decode_from (within left 0x80 0xBF (bits * 64 + b % 64)) bs
  ]
  | false ↦ replacement ∷ elim (lead b) [
    | ascii ↦ b ∷ decode_from idle bs
    | open_sequence more' lo' hi' bits' ↦ decode_from (within more' lo' hi' bits') bs
    | invalid ↦ replacement ∷ decode_from idle bs
  ]
]

unfoldable pub from_utf8_lossy : Bytes → Text
unfolding decode_from
from_utf8_lossy = decode_from idle

abbrev pub all_ascii : Text → Bool
all_ascii [] = true
all_ascii (c ∷ cs) = ltb c 0x80 && all_ascii cs
