-- ===== src/Init/Mount.antt =====
-- vakt-init/src/mount.rs: finding the data disk by the label in its superblock, and mounting it. A device is its
-- bytes, where it can be read; the looks at the devices follow each other, a second apart.
pub mod Found
mod Tests
use vakt_os.Base.{
  ℕ, zero, suc, ◌+◌, ◌-◌, Bool, true, false, List, [], ◌∷◌, ◌++◌, Option, none, some, Text, text,
  text_eq, ◌==◌, nat_beq, ltb, if◌then◌else◌, trim, Bytes, encode, from_utf8_lossy, take, drop,
  length, sort,
}

abbrev pub persistent_label : Text
persistent_label = text "VAKTDATA"

abbrev pub superblock_offset : ℕ
superblock_offset = 1024

abbrev pub magic_offset : ℕ
magic_offset = 56

abbrev pub ext4_magic : Bytes
ext4_magic = 83 ∷ 239 ∷ []

abbrev pub label_offset : ℕ
label_offset = 120

abbrev pub label_len : ℕ
label_len = 16

abbrev pub find_attempts : ℕ
find_attempts = 5

-- `seek` and `read_exact`
abbrev pub read_at : ℕ → ℕ → Bytes → Option Bytes
read_at offset n bytes =
    if ltb (length (drop offset bytes)) n then none else some (take n (drop offset bytes))

-- `str::from_utf8`: the bytes are valid if nothing of them is lost.
abbrev pub from_utf8 : Bytes → Option Text
from_utf8 bytes =
    if encode (from_utf8_lossy bytes) == bytes then some (from_utf8_lossy bytes) else none

abbrev pub until_zero : Bytes → Bytes
until_zero [] = []
until_zero (b ∷ bs) = let rest = until_zero bs in if nat_beq b 0 then [] else b ∷ rest

abbrev pub unless_empty : Text → Option Text
unless_empty [] = none
unless_empty (c ∷ cs) = some (c ∷ cs)

abbrev pub trimmed_label : Option Text → Option Text
trimmed_label none = none
trimmed_label (some t) = unless_empty (trim t)

unfoldable pub parse_label : Bytes → Option Text
parse_label raw = trimmed_label (from_utf8 (until_zero raw))

abbrev pub label_in : Option Bytes → Option Text
label_in none = none
label_in (some raw) = parse_label raw

abbrev pub label_if : Option Bytes → Bytes → Option Text
label_if none bytes = none
label_if (some magic) bytes =
    if magic == ext4_magic
    then label_in (read_at (superblock_offset + label_offset) label_len bytes)
    else none

-- `None` where the device cannot be opened.
unfoldable pub ext4_label : Option Bytes → Option Text
ext4_label none = none
ext4_label (some bytes) = label_if (read_at (superblock_offset + magic_offset) 2 bytes) bytes

-- An entry below a disk of /sys/block, and a disk.
pub record Child : Type 0 where
  pub name : Option Text
  pub partition : Bool

pub record Disk : Type 0 where
  pub name : Option Text
  pub children : Option (List Child)

abbrev pub push : Option Text → List Text → List Text
push none names = names
push (some name) names = name ∷ names

unfoldable pub partitions : List Child → List Text
partitions [] = []
partitions (c ∷ children) =
    let rest = partitions children in if c.partition then push c.name rest else rest

abbrev pub partitions_of : Option (List Child) → List Text
partitions_of none = []
partitions_of (some children) = partitions children

abbrev pub names_of : Option Text → Option (List Child) → List Text
names_of none children = []
names_of (some name) children = partitions_of children ++ name ∷ []

unfoldable pub disk_names : List Disk → List Text
disk_names [] = []
disk_names (d ∷ disks) = names_of d.name d.children ++ disk_names disks

unfoldable pub block_device_names : Option (List Disk) → List Text
block_device_names none = []
block_device_names (some disks) = sort (disk_names disks)

abbrev pub is_persistent : Option Text → Bool
is_persistent none = false
is_persistent (some label) = label == persistent_label

unfoldable pub find_labelled : (Text → Option Bytes) → List Text → Option Text
find_labelled device [] = none
find_labelled device (name ∷ names) =
    let later = find_labelled device names in
    if is_persistent (ext4_label (device name)) then some name else later

-- What one look finds: the disks, and the devices.
pub record Look : Type 0 where
  pub disks : Option (List Disk)
  pub device : Text → Option Bytes

unfoldable pub find_persistent_once : Look → Option Text
find_persistent_once look = find_labelled look.device (block_device_names look.disks)

-- The first look and the retries; `left` looks may follow the n-th.
unfoldable pub find_from : (ℕ → Look) → (left n : ℕ) → Option Text
find_from looks zero n = find_persistent_once (looks n)
find_from looks (suc left) n = elim (find_persistent_once (looks n)) [
  | some name ↦ some name
  | none ↦ find_from looks left (suc n)
]

abbrev pub mount_found : Option Text → (Text → Bool) → Bool
mount_found none mounts = false
mount_found (some name) mounts = mounts name

-- `mount_persistent`, with whether the kernel mounts a device.
unfoldable pub mount_persistent : (ℕ → Look) → (Text → Bool) → Bool
mount_persistent looks mounts = mount_found (find_from looks (find_attempts - 1) 0) mounts
