-- ===== src/Grub/Tests.antt =====
-- Runs of the GRUB environment block.
use vakt_os.Base.{
  ◌≡◌, refl, true, false, List, [], ◌∷◌, none, some, Text, text, text_eq, ok, err, All, Bytes,
  length, IsScalar-all_ascii, encode,
}
use vakt_os.Grub.{invalid_entry, Faults, Call, Disk, block, block_size, parse, write, write_all}
use vakt_os.Grub.RoundTrip.{IsClean, insert_all, parse-block, length-block}
use vakt_os.Grub.Atomic.{IsAtomic, write-IsAtomic, write_works}

abbrev entries : List (Text × Text)
entries = (text "vakt_active", text "A") ∷ (text "vakt_active", text "B") ∷ []

block_of_entries : Bytes
unfolding block encode
block_of_entries = elim (block entries) [ ok bytes ↦ bytes | err e ↦ [] ]

test_block : block entries ≡ ok block_of_entries
unfolding block_of_entries
test_block = refl

test_newline : block ((text "a", text "b\nc") ∷ []) ≡ err (invalid_entry (text "a") (text "b\nc"))
unfolding block
test_newline = refl

entries-IsClean : All IsClean entries
entries-IsClean = (
  record {
    key_scalar = IsScalar-all_ascii (text "vakt_active") refl;
    value_scalar = IsScalar-all_ascii (text "A") refl;
    key_plain = refl;
    value_plain = refl;
  },
  (
    record {
      key_scalar = IsScalar-all_ascii (text "vakt_active") refl;
      value_scalar = IsScalar-all_ascii (text "B") refl;
      key_plain = refl;
      value_plain = refl;
    },
    tt,
  ),
)

parse-block_example : parse block_of_entries ≡ ok (insert_all entries [])
parse-block_example = parse-block entries block_of_entries entries-IsClean test_block

test_length : length block_of_entries ≡ block_size
test_length = length-block entries block_of_entries test_block

-- A disk on which `write_all` fails.
abbrev full : Faults
full = record { fails = λ (c : Call). elim c [ write_all ↦ true | _ ↦ false ]; torn = λ bytes. [] }

abbrev sound : Faults
sound = record { fails = λ c. false; torn = λ bytes. bytes }

abbrev disk : Disk
disk = record { target = some (text "old"); temporary = none }

write-IsAtomic_example :
    IsAtomic disk.target
      (write full entries disk).0.target
      (block entries)
      (write full entries disk).1
write-IsAtomic_example = write-IsAtomic full entries disk

test_write :
    write sound entries disk ≡ (record { target = some block_of_entries; temporary = none }, ok tt)
test_write = write_works sound entries block_of_entries disk (λ c. refl) test_block
