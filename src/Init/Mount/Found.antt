-- ===== src/Init/Mount/Found.antt =====
-- Which device vakt-init/src/mount.rs takes for the data disk.
use vakt_os.Base.{
  false, refl, ◌⊎◌, ◌++◌, text, take, drop, length, ltb, trim, encode, from_utf8_lossy, nat_eq,
  nat_beq, ◌==◌, ℕ, zero, suc, ◌+◌, ◌≤◌, ◌<◌, ◌≡◌, sym, ◌∙◌, ap, inl, inr, Bool, true, List, [],
  ◌∷◌, Option, none, some, Option-cases, Bool-cases, Text, text_eq, eq_of_beq, contains, Bytes,
  arith, leb,
}
use vakt_os.Init.Mount.{
  until_zero, from_utf8, unless_empty, trimmed_label, read_at, label_if, label_in, parse_label,
  ext4_magic, persistent_label, ext4_label, Look, is_persistent, block_device_names, find_labelled,
  find_persistent_once, find_from, mount_found, mount_persistent,
}

persistent_lem : (o : Option Text) → is_persistent o ≡ true → o ≡ some persistent_label
persistent_lem none h = absurd (cc)
persistent_lem (some label) h = ap some (eq_of_beq {a = label} {b = persistent_label} h)

-- What the superblock of the data disk holds: at byte 1080 the magic number of ext4, 0xEF53 with its low byte
-- first, and in the sixteen bytes at 1144 a name in UTF-8, up to the first zero, that is VAKTDATA but for blanks
-- around it.
pub record IsLabelled (device : Option Bytes) : Type 0 where
  pub bytes : Bytes
  pub readable : device ≡ some bytes
  pub magic : take 2 (drop 1080 bytes) ≡ 83 ∷ 239 ∷ []
  pub whole : 16 ≤ length (drop 1144 bytes)
  pub name : Text
  pub padding : Bytes
  pub field : take 16 (drop 1144 bytes) ≡ encode name ++ padding
  pub no_zero : contains (encode name) 0 ≡ false
  pub ends : (padding ≡ []) ⊎ ((more : Bytes) × (padding ≡ 0 ∷ more))
  pub labelled : trim name ≡ text "VAKTDATA"

until_zero_lem :
    (bs : Bytes)
    → (padding : Bytes) × (bs ≡ until_zero bs ++ padding)
      × (contains (until_zero bs) 0 ≡ false)
      × ((padding ≡ []) ⊎ ((more : Bytes) × (padding ≡ 0 ∷ more)))
until_zero_lem [] = ([], refl, refl, inl refl)
until_zero_lem (b ∷ bs) = elim (Bool-cases (nat_beq b 0)) [
  | inl zero_byte ↦
      let is : b ≡ 0 = ground arith in
      rw zero_byte (b ∷ bs, refl, refl, inr (bs, ap (λ x. x ∷ bs) is))
  | inr other ↦
      let (padding, same, lacks, ends) = until_zero_lem bs in
      rw other (padding, ap (◌∷◌ b) same, ground arith, ends)
]

from_utf8_lem : (bs : Bytes) (t : Text) → from_utf8 bs ≡ some t → encode t ≡ bs
from_utf8_lem bs t h = elim (Bool-cases (encode (from_utf8_lossy bs) == bs)) [
  | inl valid ↦
      let is : from_utf8_lossy bs ≡ t = ground arith in
      ap encode (sym is) ∙ eq_of_beq {a = encode (from_utf8_lossy bs)} {b = bs} valid
  | inr lost ↦ absurd (ground arith)
]

unless_empty_lem : (t label : Text) → unless_empty t ≡ some label → t ≡ label
unless_empty_lem [] label h = absurd (cc)
unless_empty_lem (c ∷ cs) label h = cc

trimmed_label_lem :
    (o : Option Text) (label : Text)
    → trimmed_label o ≡ some label
    → (t : Text) × (o ≡ some t) × (trim t ≡ label)
trimmed_label_lem none label h = absurd (cc)
trimmed_label_lem (some t) label h = (t, refl, unless_empty_lem (trim t) label h)

read_at_lem :
    (offset n : ℕ) (bytes raw : Bytes)
    → read_at offset n bytes ≡ some raw
    → (n ≤ length (drop offset bytes)) × (take n (drop offset bytes) ≡ raw)
read_at_lem offset n bytes raw h = elim (Bool-cases (ltb (length (drop offset bytes)) n)) [
  | inl short ↦ absurd (ground arith)
  | inr fits ↦ (ground arith, ground arith)
]

label_if_lem :
    (o : Option Bytes) (bytes : Bytes) (label : Text)
    → label_if o bytes ≡ some label
    → (o ≡ some (83 ∷ 239 ∷ [])) × (label_in (read_at 1144 16 bytes) ≡ some label)
label_if_lem none bytes label h = absurd (cc)
label_if_lem (some magic) bytes label h = elim (Bool-cases (magic == ext4_magic)) [
  | inl same ↦ (ap some (eq_of_beq {a = magic} {b = ext4_magic} same), rw same at h)
  | inr other ↦ absurd (ground arith)
]

label_in_lem :
    (o : Option Bytes) (label : Text)
    → label_in o ≡ some label
    → (raw : Bytes) × (o ≡ some raw) × (parse_label raw ≡ some label)
label_in_lem none label h = absurd (cc)
label_in_lem (some raw) label h = (raw, refl, h)

ext4_label-IsLabelled :
    (device : Option Bytes) → ext4_label device ≡ some persistent_label → IsLabelled device
unfolding ext4_label parse_label
ext4_label-IsLabelled none h = absurd (cc)
ext4_label-IsLabelled (some bytes) h =
    let (magic, labelled) = label_if_lem (read_at 1080 2 bytes) bytes persistent_label h in
    let (raw, found, parsed) = label_in_lem (read_at 1144 16 bytes) persistent_label labelled in
    let (name, decoded, trimmed) =
      trimmed_label_lem (from_utf8 (until_zero raw)) persistent_label parsed in
    let (padding, whole, no_zero, ends) = until_zero_lem raw in
    let encoded = from_utf8_lem (until_zero raw) name decoded in
    let (long, at) = read_at_lem 1144 16 bytes raw found in
    record {
      bytes = bytes;
      readable = refl;
      magic = (read_at_lem 1080 2 bytes (83 ∷ 239 ∷ []) magic).1;
      whole = long;
      name = name;
      padding = padding;
      field = at ∙ whole ∙ ap (λ x. x ++ padding) (sym encoded);
      no_zero = ap (λ x. contains x 0) encoded ∙ no_zero;
      ends = ends;
      labelled = trimmed;
    }

find_labelled_lem :
    (device : Text → Option Bytes) (names : List Text) (name : Text)
    → find_labelled device names ≡ some name
    → (contains names name ≡ true) × (ext4_label (device name) ≡ some persistent_label)
unfolding find_labelled
find_labelled_lem device [] name h = absurd (cc)
find_labelled_lem device (n ∷ names) name h =
    elim (Bool-cases (is_persistent (ext4_label (device n)))) [
      | inl here ↦
          let same : n ≡ name = ground arith in
          (
            ground (arith, text_eq.beq_iff n name, same),
            ap (λ x. ext4_label (device x)) (sym same)
                ∙ persistent_lem (ext4_label (device n)) here,
          )
      | inr elsewhere ↦
          let (present, labelled) = find_labelled_lem device names name (ground arith) in
          (ground (arith, present), labelled)
    ]

-- How a search ends whose first look is the n-th and that may take so many more.
pub data Searched (looks : ℕ → Look) (n left : ℕ) : Option Text → Type 0 where
  found :
      (k : ℕ) (name : Text)
      → n ≤ k
      → k ≤ n + left
      → contains (block_device_names (looks k).disks) name ≡ true
      → IsLabelled ((looks k).device name)
      → ((j : ℕ) → n ≤ j → j < k → find_persistent_once (looks j) ≡ none)
      → Searched looks n left (some name)
  missing :
      ((j : ℕ) → n ≤ j → j ≤ n + left → find_persistent_once (looks j) ≡ none)
      → Searched looks n left none

at_front : (n j : ℕ) → n ≤ j → leb j n ≡ true → j ≡ n
at_front n j h e = ground arith

behind_front : (n j : ℕ) → leb j n ≡ false → suc n ≤ j
behind_front n j e = ground arith

module _ (looks : ℕ → Look) where
  -- A look that is known to find something, or nothing, at the front.
  look_found :
      (n left : ℕ) (name : Text)
      → find_persistent_once (looks n) ≡ some name
      → Searched looks n left (some name)
  unfolding find_persistent_once
  look_found n left name h =
      let (present, labelled) =
        find_labelled_lem (looks n).device (block_device_names (looks n).disks) name h in
      found n name (omega arith) (omega arith) present
        (ext4_label-IsLabelled ((looks n).device name) labelled)
        (λ j low high. absurd (omega arith))

  none_at :
      (n j : ℕ)
      → find_persistent_once (looks n) ≡ none
      → j ≡ n
      → find_persistent_once (looks j) ≡ none
  none_at n j h e = ap (λ i. find_persistent_once (looks i)) e ∙ h

  look_missed :
      (n left : ℕ) (o : Option Text)
      → find_persistent_once (looks n) ≡ none
      → Searched looks (suc n) left o
      → Searched looks n (suc left) o
  look_missed n left (some name) h (found k _ low high present labelled before) =
      found k name (omega arith) (omega arith) present labelled (λ j above below.
        elim (Bool-cases (leb j n)) [
          | inl at ↦ none_at n j h (at_front n j above at)
          | inr later ↦ before j (behind_front n j later) below
        ])
  look_missed n left none h (missing before) = missing (λ j above below.
      elim (Bool-cases (leb j n)) [
        | inl at ↦ none_at n j h (at_front n j above at)
        | inr later ↦ before j (behind_front n j later) (omega arith)
      ])

  find_from-Searched : (left n : ℕ) → Searched looks n left (find_from looks left n)
  unfolding find_from
  find_from-Searched zero n = elim (Option-cases (find_persistent_once (looks n))) [
    | inl none_yet ↦
        rw (none_yet, find_from) (missing (λ j low high. none_at n j none_yet (omega arith)))
    | inr (name, is) ↦ rw (is, find_from) (look_found n 0 name is)
  ]
  find_from-Searched (suc left) n = elim (Option-cases (find_persistent_once (looks n))) [
    | inl none_yet ↦
        rw (none_yet, find_from) (look_missed n left _ none_yet (find_from-Searched left (suc n)))
    | inr (name, is) ↦ rw (is, find_from) (look_found n (suc left) name is)
  ]

  -- When `mount_persistent` reports success, the kernel has mounted a device that the kernel lists and whose
  -- superblock has, at bytes 1080 and 1081, the magic number of ext4 and, in the sixteen bytes at 1144, up to the
  -- first zero, the name VAKTDATA in UTF-8 but for blanks around it, at the first of at most five looks that finds
  -- one.
  pub mount_persistent-Searched :
      (mounts : Text → Bool)
      → mount_persistent looks mounts ≡ true
      → (name : Text) × Searched looks 0 4 (some name) × (mounts name ≡ true)
  unfolding mount_persistent
  mount_persistent-Searched mounts h = go (find_from looks 4 0) (find_from-Searched 4 0) h
    where
      go :
          (o : Option Text)
          → Searched looks 0 4 o
          → mount_found o mounts ≡ true
          → (name : Text) × Searched looks 0 4 (some name) × (mounts name ≡ true)
      go none s e = absurd (cc)
      go (some name) s e = (name, s, e)
