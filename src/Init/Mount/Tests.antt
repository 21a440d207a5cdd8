-- ===== src/Init/Mount/Tests.antt =====
-- A data disk that appears at the third look.
use vakt_os.Base.{
  ℕ, ◌≡◌, refl, ◌++◌, Bool, true, false, [], ◌∷◌, some, Text, text, text_eq, ◌==◌, replicate, Bytes,
  if◌then◌else◌, ltb, trim, encode, from_utf8_lossy, sort,
}
use vakt_os.Init.Mount.{
  Look, Disk, ext4_magic, mount_persistent, find_from, find_persistent_once, find_labelled,
  ext4_label, parse_label, block_device_names, disk_names, partitions,
}
use vakt_os.Init.Mount.Found.{Searched, mount_persistent-Searched}

abbrev superblock : Bytes
superblock =
    replicate 1080 0 ++ (ext4_magic ++ (replicate 62 0 ++ (text "VAKTDATA" ++ replicate 8 0)))

abbrev sda : Disk
sda = record {
  name = some (text "sda");
  children = some (
      record { name = some (text "sda1"); partition = true }
      ∷ record { name = some (text "queue"); partition = false }
      ∷ []);
}

abbrev looks : ℕ → Look
looks n = record {
  disks = if ltb n 2 then some [] else some (sda ∷ []);
  device = λ name. if name == text "sda1" then some superblock else some [];
}

abbrev mounts_any : Text → Bool
mounts_any name = true

mounted : mount_persistent looks mounts_any ≡ true
unfolding mount_persistent find_from find_persistent_once find_labelled ext4_label parse_label
    block_device_names disk_names partitions trim encode from_utf8_lossy sort
mounted = refl

mount_persistent-Searched_example :
    (name : Text) × Searched looks 0 4 (some name) × (mounts_any name ≡ true)
mount_persistent-Searched_example = mount_persistent-Searched looks mounts_any mounted
