-- ===== src/Base/Utf8/Decode.antt =====
-- Decoding after encoding gives the text back.
use vakt_os.Base.Core.{
  ℕ, suc, ◌+◌, ◌*◌, ◌/◌, ◌%◌, ◌<◌, ◌≤◌, ◌≡◌, refl, ◌∙◌, ap, true, ◌&&◌, [], ◌∷◌, ◌++◌, append_assoc,
  arith, ltb, leb, Bool-cases, inl, inr, All,
}
use vakt_os.Base.Equality.{Text}
use vakt_os.Base.Utf8.{
  Bytes, IsScalar, encode_char, encode, ascii, open_sequence, lead, idle, within, decode_from,
  from_utf8_lossy, all_ascii,
}

module _ (b : ℕ) (bs : Bytes) where
  decode-ascii : lead b ≡ ascii → decode_from idle (b ∷ bs) ≡ b ∷ decode_from idle bs
  unfolding decode_from
  decode-ascii h = rw (h, decode_from)

  module _ (more lo hi bits : ℕ) where
    decode-open :
        lead b ≡ open_sequence more lo hi bits
        → decode_from idle (b ∷ bs) ≡ decode_from (within more lo hi bits) bs
    unfolding decode_from
    decode-open h = rw (h, decode_from)

    decode_more :
        (leb lo b && leb b hi) ≡ true
        → decode_from (within (suc more) lo hi bits) (b ∷ bs)
          ≡ decode_from (within more 0x80 0xBF (bits * 64 + b % 64)) bs
    unfolding decode_from
    decode_more h = rw (h, decode_from)

    decode_last :
        (leb lo b && leb b hi) ≡ true
        → decode_from (within 0 lo hi bits) (b ∷ bs) ≡ (bits * 64 + b % 64) ∷ decode_from idle bs
    unfolding decode_from
    decode_last h = rw (h, decode_from)

module _ (c : ℕ) (rest : Bytes) where
  decode_two :
      0x80 ≤ c
      → c < 0x800
      → decode_from idle ((0xC0 + c / 64) ∷ (0x80 + c % 64) ∷ rest) ≡ c ∷ decode_from idle rest
  decode_two h k =
      decode-open (0xC0 + c / 64) _ 0 0x80 0xBF ((0xC0 + c / 64) % 32) (unfold lead in ground arith)
      ∙ decode_last (0x80 + c % 64) rest 0 0x80 0xBF ((0xC0 + c / 64) % 32) (ground arith)
      ∙ ap (λ x. x ∷ decode_from idle rest) (omega arith)

  decode_three :
      (lo hi bits : ℕ)
      → lead (0xE0 + c / 4096) ≡ open_sequence 1 lo hi bits
      → bits ≡ c / 4096
      → lo ≤ 0x80 + c / 64 % 64
      → 0x80 + c / 64 % 64 ≤ hi
      → decode_from idle ((0xE0 + c / 4096) ∷ (0x80 + c / 64 % 64) ∷ (0x80 + c % 64) ∷ rest)
        ≡ c ∷ decode_from idle rest
  decode_three lo hi bits h is low high =
      decode-open (0xE0 + c / 4096) _ 1 lo hi bits h
      ∙ decode_more (0x80 + c / 64 % 64) _ 0 lo hi bits (ground arith)
      ∙ decode_last (0x80 + c % 64) rest 0 0x80 0xBF (bits * 64 + (0x80 + c / 64 % 64) % 64)
          (ground arith)
      ∙ ap (λ x. x ∷ decode_from idle rest) (omega arith)

  decode_four :
      (lo hi bits : ℕ)
      → lead (0xF0 + c / 262144) ≡ open_sequence 2 lo hi bits
      → bits ≡ c / 262144
      → lo ≤ 0x80 + c / 4096 % 64
      → 0x80 + c / 4096 % 64 ≤ hi
      → decode_from idle (
          (0xF0 + c / 262144)
          ∷ (0x80 + c / 4096 % 64)
          ∷ (0x80 + c / 64 % 64)
          ∷ (0x80 + c % 64)
          ∷ rest)
        ≡ c ∷ decode_from idle rest
  decode_four lo hi bits h is low high =
      decode-open (0xF0 + c / 262144) _ 2 lo hi bits h
      ∙ decode_more (0x80 + c / 4096 % 64) _ 1 lo hi bits (ground arith)
      ∙ decode_more (0x80 + c / 64 % 64) _ 0 0x80 0xBF (bits * 64 + (0x80 + c / 4096 % 64) % 64)
          (ground arith)
      ∙ decode_last (0x80 + c % 64) rest 0 0x80 0xBF
          ((bits * 64 + (0x80 + c / 4096 % 64) % 64) * 64 + (0x80 + c / 64 % 64) % 64)
          (ground arith)
      ∙ ap (λ x. x ∷ decode_from idle rest) (omega arith)

  encode_one : c < 0x80 → encode_char c ≡ c ∷ []
  unfolding encode_char
  encode_one h = ground arith

  encode_two : 0x80 ≤ c → c < 0x800 → encode_char c ≡ (0xC0 + c / 64) ∷ (0x80 + c % 64) ∷ []
  unfolding encode_char
  encode_two h k = ground arith

  encode_three :
      0x800 ≤ c
      → c < 0x10000
      → encode_char c ≡ (0xE0 + c / 4096) ∷ (0x80 + c / 64 % 64) ∷ (0x80 + c % 64) ∷ []
  unfolding encode_char
  encode_three h k = ground arith

  encode_four :
      0x10000 ≤ c
      → encode_char c
        ≡ (0xF0 + c / 262144) ∷ (0x80 + c / 4096 % 64) ∷ (0x80 + c / 64 % 64) ∷ (0x80 + c % 64) ∷ []
  unfolding encode_char
  encode_four h = ground arith

abbrev Decodes : ℕ → Bytes → Bytes → Type 0
Decodes c bytes rest = decode_from idle (bytes ++ rest) ≡ c ∷ decode_from idle rest

decode-encode_three :
    (c : ℕ) (rest : Bytes) → IsScalar c → 0x800 ≤ c → c < 0x10000 → Decodes c (encode_char c) rest
decode-encode_three c rest (IsScalar.below_gap s) h k =
    rw (encode_three c rest h k) (elim (Bool-cases (ltb c 0x1000)) [
      | inl e0 ↦
          decode_three c rest 0xA0 0xBF 0 (unfold lead in ground arith) (ground arith)
            (ground arith) (ground arith)
      | inr e1 ↦ elim (Bool-cases (ltb c 0xD000)) [
        | inl below ↦
            decode_three c rest 0x80 0xBF ((0xE0 + c / 4096) % 16) (unfold lead in ground arith)
              (ground arith) (omega arith) (omega arith)
        | inr ed ↦
            decode_three c rest 0x80 0x9F ((0xE0 + c / 4096) % 16) (unfold lead in ground arith)
              (ground arith) (omega arith) (ground arith)
      ]
    ])
decode-encode_three c rest (IsScalar.above_gap s t) h k = rw (encode_three c rest h k) (
    decode_three c rest 0x80 0xBF ((0xE0 + c / 4096) % 16) (unfold lead in ground arith)
      (omega arith) (omega arith) (omega arith))

decode-encode_four :
    (c : ℕ) (rest : Bytes) → 0x10000 ≤ c → c < 0x110000 → Decodes c (encode_char c) rest
decode-encode_four c rest h k = rw (encode_four c rest h) (elim (Bool-cases (ltb c 0x40000)) [
  | inl f0 ↦
      decode_four c rest 0x90 0xBF 0 (unfold lead in ground arith) (ground arith) (ground arith)
        (omega arith)
  | inr f1 ↦ elim (Bool-cases (ltb c 0x100000)) [
    | inl below ↦
        decode_four c rest 0x80 0xBF ((0xF0 + c / 262144) % 8) (unfold lead in ground arith)
          (ground arith) (omega arith) (omega arith)
    | inr f4 ↦
        decode_four c rest 0x80 0x8F 4 (unfold lead in ground arith) (ground arith) (omega arith)
          (ground arith)
  ]
])

below_scalar : (c : ℕ) → IsScalar c → c < 0x110000
below_scalar c (IsScalar.below_gap h) = omega arith
below_scalar c (IsScalar.above_gap h k) = k

decode-encode_char : (c : ℕ) (rest : Bytes) → IsScalar c → Decodes c (encode_char c) rest
decode-encode_char c rest s = elim (Bool-cases (ltb c 0x80)) [
  | inl one ↦
      rw (encode_one c rest (ground arith)) (decode-ascii c rest (unfold lead in ground arith))
  | inr more ↦ elim (Bool-cases (ltb c 0x800)) [
    | inl two ↦
        rw (encode_two c rest (ground arith) (ground arith))
          (decode_two c rest (ground arith) (ground arith))
    | inr more' ↦ elim (Bool-cases (ltb c 0x10000)) [
      | inl three ↦ decode-encode_three c rest s (ground arith) (ground arith)
      | inr four ↦ decode-encode_four c rest (ground arith) (below_scalar c s)
    ]
  ]
]

-- Decoding gives back any text of scalar values, whatever bytes follow it.
pub from_utf8_lossy-encode :
    (t : Text) (rest : Bytes)
    → All IsScalar t
    → from_utf8_lossy (encode t ++ rest) ≡ t ++ from_utf8_lossy rest
unfolding encode from_utf8_lossy
from_utf8_lossy-encode [] rest h = refl
from_utf8_lossy-encode (c ∷ cs) rest h = rw append_assoc (
    decode-encode_char c (encode cs ++ rest) h.0
    ∙ ap (λ t. c ∷ t) (from_utf8_lossy-encode cs rest h.1))

pub IsScalar-all_ascii : (t : Text) → all_ascii t ≡ true → All IsScalar t
IsScalar-all_ascii [] h = tt
IsScalar-all_ascii (c ∷ cs) h =
    (IsScalar.below_gap (ground arith), IsScalar-all_ascii cs (ground arith))
