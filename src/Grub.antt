-- ===== src/Grub.antt =====
-- The GRUB environment block: vakt-update/src/envblock.rs, of which vakt-init/src/envblock.rs is a
-- copy. A block is its bytes. The file system is seen through one path and the temporary beside it,
-- and `Faults` says which of the calls fail.
pub mod RoundTrip
pub mod Atomic
mod Tests
use vakt_os.Base.{
  ℕ, ◌-◌, Bool, true, false, ◌||◌, List, [], ◌∷◌, ◌++◌, Option, none, some, Text, Eq, nat_eq,
  text_eq, Bytes, Map, insert, Result, ok, err, ◌>>=◌, contains, length, replicate, drop, ltb,
  if◌then◌else◌, text, encode, from_utf8_lossy, lines, split_once, starts_with,
}

pub data Error : Type 0 where
  invalid_entry : (key value : Text) → Error
  too_large : ℕ → Error
  bad_signature : Error
  io : Error

abbrev pub signature : Bytes
signature = text "# GRUB Environment Block\n"

abbrev pub block_size : ℕ
block_size = 1024

-- The loop of `write` over the entries.
pub add_entries : Bytes → List (Text × Text) → Result Error Bytes
add_entries buf [] = ok buf
add_entries buf ((key, value) ∷ entries) =
    if contains key b'=' || contains key b'\n' || contains value b'\n'
    then err (invalid_entry key value)
    else add_entries (buf ++ (encode key ++ b'=' ∷ (encode value ++ b'\n' ∷ []))) entries

-- The check of the size, and the padding.
pub pad : Bytes → Result Error Bytes
pad buf =
    if ltb block_size (length buf)
    then err (too_large (length buf))
    else ok (buf ++ replicate (block_size - length buf) b'#')

-- What `write` puts into the file.
unfoldable pub block : List (Text × Text) → Result Error Bytes
unfolding add_entries pad
block entries = do buf ← add_entries signature entries; pad buf

-- The calls of `write` that touch the disk, in order.
pub data Call : Type 0 where
  create_dir create write_all sync rename : Call

-- Which calls fail, and what a failed `write_all` leaves in the temporary.
pub record Faults : Type 0 where
  pub fails : Call → Bool
  pub torn : Bytes → Bytes

pub record Disk : Type 0 where
  pub target : Option Bytes
  pub temporary : Option Bytes

unfoldable pub store : Faults → Bytes → Disk → Disk × Result Error (Unit {0})
store f buf d =
    if f.fails create_dir
    then (d, err io)
    else if f.fails create
    then (d, err io)
    else if f.fails write_all
    then (record d { temporary = some (f.torn buf) }, err io)
    else if f.fails sync
    then (record d { temporary = some buf }, err io)
    else if f.fails rename
    then (record d { temporary = some buf }, err io)
    else (record { target = some buf; temporary = none }, ok tt)

unfoldable pub write : Faults → List (Text × Text) → Disk → Disk × Result Error (Unit {0})
unfolding block store
write f entries d = elim (block entries) [ err e ↦ (d, err e) | ok buf ↦ store f buf d ]

-- `if let Some((key, value)) = line.split_once('=') { entries.insert(key, value); }`
pub add_line : Option (Text × Text) → Map Text Text → Map Text Text
add_line none m = m
add_line (some (key, value)) m = insert key value m

-- The loop of `read`, which a line that begins with `#` ends.
pub parse_lines : List Text → Map Text Text → Map Text Text
unfolding add_line
parse_lines [] m = m
parse_lines (line ∷ rest) m = elim (starts_with (text "#") line) [
  | true ↦ m
  | false ↦ parse_lines rest (add_line (split_once b'=' line) m)
]

-- `read` of a file with these bytes.
unfoldable pub parse : Bytes → Result Error (Map Text Text)
unfolding parse_lines
parse bytes =
    if starts_with signature bytes
    then ok (parse_lines (lines (from_utf8_lossy (drop (length signature) bytes))) [])
    else err bad_signature

-- `read`: the file may be missing, or unreadable.
abbrev pub read : Option Bytes → Result Error (Map Text Text)
read none = err io
read (some bytes) = parse bytes
