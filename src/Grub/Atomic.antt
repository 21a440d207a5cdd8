-- ===== src/Grub/Atomic.antt =====
-- When `write` of vakt-update/src/envblock.rs fails, and what a failure leaves.
use vakt_os.Base.{
  Bool-cases, ◌≡◌, refl, inl, inr, false, List, Option, none, some, Text, nat_eq, text_eq, Bytes,
  Result, ok, err, Result-cases,
}
use vakt_os.Grub.{
  Error, Call, Faults, create_dir, create, write_all, sync, rename, Disk, block, store, write,
}

-- What a call that found `before` in the file and left `after` may report: with success the file is
-- the whole block that the entries make, with an error it is what it was.
abbrev pub IsAtomic :
    (before after : Option Bytes) → Result Error Bytes → Result Error (Unit {0}) → Type 0
IsAtomic before after made (ok _) = (bytes : Bytes) × (made ≡ ok bytes) × (after ≡ some bytes)
IsAtomic before after made (err _) = after ≡ before

store-IsAtomic :
    (f : Faults) (bytes : Bytes) (d : Disk)
    → IsAtomic d.target (store f bytes d).0.target (ok bytes) (store f bytes d).1
unfolding store
store-IsAtomic f bytes d = elim (Bool-cases (f.fails create_dir)) [
  | inl a ↦ rw (a, store) refl
  | inr a ↦ elim (Bool-cases (f.fails create)) [
    | inl b ↦ rw (a, b, store) refl
    | inr b ↦ elim (Bool-cases (f.fails write_all)) [
      | inl c ↦ rw (a, b, c, store) refl
      | inr c ↦ elim (Bool-cases (f.fails sync)) [
        | inl e ↦ rw (a, b, c, e, store) refl
        | inr e ↦ elim (Bool-cases (f.fails rename)) [
          | inl g ↦ rw (a, b, c, e, g, store) refl
          | inr g ↦ rw (a, b, c, e, g, store) (bytes, refl, refl)
        ]
      ]
    ]
  ]
]

-- Whichever calls fail: `write` that reports success has left the whole new block in the file, and
-- `write` that reports an error has left the file as it was.
pub write-IsAtomic :
    (f : Faults) (entries : List (Text × Text)) (d : Disk)
    → IsAtomic d.target (write f entries d).0.target (block entries) (write f entries d).1
unfolding write
write-IsAtomic f entries d = elim (Result-cases (block entries)) [
  | inl (bytes, made) ↦ rw (made, write) (store-IsAtomic f bytes d)
  | inr (e, failed) ↦ rw (failed, write) refl
]

store_works :
    (f : Faults) (bytes : Bytes) (d : Disk)
    → ((c : Call) → f.fails c ≡ false)
    → store f bytes d ≡ (record { target = some bytes; temporary = none }, ok tt)
unfolding store
store_works f bytes d works = simp works

-- When no call fails, `write` of entries that fit stores their block and removes the temporary.
pub write_works :
    (f : Faults) (entries : List (Text × Text)) (bytes : Bytes) (d : Disk)
    → ((c : Call) → f.fails c ≡ false)
    → block entries ≡ ok bytes
    → write f entries d ≡ (record { target = some bytes; temporary = none }, ok tt)
unfolding write
write_works f entries bytes d works made = rw (made, write) (store_works f bytes d works)
