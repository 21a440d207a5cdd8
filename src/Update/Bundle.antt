-- ===== src/Update/Bundle.antt =====
-- The bundle that vakt-update/src/main.rs downloads: the key, the manifest, the signature.
use vakt_os.Base.{
  Bool, true, false, [], ◌∷◌, Option, none, some, Text, Bytes, Result, ok, err, ◌>>=◌, trim, ◌≡◌,
  ◌≢◌, refl, Result-cases, inl, inr, arith,
}
use vakt_os.Pkg.Manifest.{PackageManifest}
use vakt_os.Pkg.Fetch.{
  Crypto, verify_signature, Verifies, verify_signature-Verifies, or_error, FetchError,
}
use vakt_os.Update.Action.{
  Error, no_key, empty_key, no_manifest, no_staging, no_download, unreadable_bundle, bad_signature,
  is_early,
}

-- What the world outside the disk answers: the file of the trusted key, the manifest that the
-- repository's answer parses to, the calls of the download, and the bundle as it is read back.
pub record Source : Type 0 where
  pub key_file : Option Text
  pub manifest : Option PackageManifest
  pub makes_private_dir : Bool
  pub downloads : Bool
  pub bundle : Option Bytes

abbrev non_empty_key : Text → Result Error Text
non_empty_key [] = err empty_key
non_empty_key (c ∷ cs) = ok (c ∷ cs)

unfoldable pub trusted_public_key : Option Text → Result Error Text
unfolding trim
trusted_public_key none = err no_key
trusted_public_key (some contents) = non_empty_key (trim contents)

abbrev pub ensure : Bool → Error → Result Error (Unit {0})
ensure true e = ok tt
ensure false e = err e

abbrev pub from_fetch : Result FetchError (Unit {0}) → Result Error (Unit {0})
from_fetch (ok u) = ok u
from_fetch (err e) = err (bad_signature e)

-- `apply` up to the verified bundle.
unfoldable pub fetch_bundle : Crypto → Source → Result Error (PackageManifest × Bytes)
fetch_bundle c s = do
  key ← trusted_public_key s.key_file
  manifest ← or_error no_manifest s.manifest
  _ ← ensure s.makes_private_dir no_staging
  _ ← ensure s.downloads no_download
  bytes ← or_error unreadable_bundle s.bundle
  _ ← from_fetch (verify_signature c bytes manifest.signature key)
  ok (manifest, bytes)

-- The bundle and its manifest are the repository's, and the key that the key file holds, which is not empty
-- when trimmed, has signed the bundle.
pub record IsSigned (c : Crypto) (s : Source) (x : PackageManifest × Bytes) : Type 0 where
  pub key : Text
  pub contents : Text
  pub in_file : s.key_file ≡ some contents
  pub trimmed : trim contents ≡ key
  pub not_empty : key ≢ []
  pub published : s.manifest ≡ some x.0
  pub downloaded : s.bundle ≡ some x.1
  pub signed : Verifies c x.1 x.0.signature key

non_empty_key-eq-ok : (t key : Text) → non_empty_key t ≡ ok key → (t ≡ key) × (key ≢ [])
non_empty_key-eq-ok [] key h = absurd (cc)
non_empty_key-eq-ok (c ∷ cs) key h = (cc, λ e. cc)

trusted_key_lem :
    (file : Option Text) (key : Text)
    → trusted_public_key file ≡ ok key
    → (contents : Text) × (file ≡ some contents) × (trim contents ≡ key) × (key ≢ [])
unfolding trusted_public_key
trusted_key_lem none key h = absurd (cc)
trusted_key_lem (some contents) key h =
    let (same, filled) = non_empty_key-eq-ok (trim contents) key h in (contents, refl, same, filled)

pub fetch_bundle-IsSigned :
    (c : Crypto) (s : Source) (x : PackageManifest × Bytes)
    → fetch_bundle c s ≡ ok x
    → IsSigned c s x
unfolding fetch_bundle
fetch_bundle-IsSigned c s x h = elim (Result-cases (trusted_public_key s.key_file)) [
  | inl (key, trusted) ↦ record {
    key = key;
    contents = (trusted_key_lem s.key_file key trusted).0;
    in_file = (trusted_key_lem s.key_file key trusted).1;
    trimmed = (trusted_key_lem s.key_file key trusted).2;
    not_empty = (trusted_key_lem s.key_file key trusted).3;
    published = ground arith;
    downloaded = ground arith;
    signed = verify_signature-Verifies c x.1 x.0.signature key tt (ground (arith));
  }
  | inr (e, failed) ↦ absurd (ground arith)
]

pub fetch_bundle-is_early :
    (c : Crypto) (s : Source) (e : Error) → fetch_bundle c s ≡ err e → is_early e ≡ true
unfolding fetch_bundle trusted_public_key
fetch_bundle-is_early c s e h = ground arith
