-- ===== src/Pkg/Fetch.antt =====
-- pkg-manager/src/fetch.rs, `verify_signature`. The hexadecimal decoder, SHA-256 and ed25519 are libraries
-- that the source calls: the record `Crypto` holds them.
use vakt_os.Base.{
  Bool, Option, none, some, Text, Bytes, Result, ok, err, ◌>>=◌, if◌then◌else◌, ◌≡◌, refl, true,
  false, >>=-eq-ok,
}

pub record Crypto : Type 0 where
  pub decode_hex : Text → Option Bytes
  pub signature_from_slice : Bytes → Option Bytes
  pub key_from_bytes : Bytes → Option Bytes
  pub sha256 : Bytes → Bytes
  pub verify : (key hash signature : Bytes) → Bool

pub data FetchError : Type 0 where
  bad_signature_hex key_hex signature_length bad_key not_signed : FetchError

abbrev pub or_error {ℓ} : {E : Type 0} {A : Type ℓ} → E → Option A → Result E A
or_error e none = err e
or_error e (some a) = ok a

unfoldable pub verify_signature :
    Crypto → Bytes → (signature_hex public_key_hex : Text) → Result FetchError (Unit {0})
verify_signature c bytes signature_hex public_key_hex = do
  sig_bytes ← or_error bad_signature_hex (c.decode_hex signature_hex)
  pk_bytes ← or_error key_hex (c.decode_hex public_key_hex)
  signature ← or_error signature_length (c.signature_from_slice sig_bytes)
  public_key ← or_error bad_key (c.key_from_bytes pk_bytes)
  if c.verify public_key (c.sha256 bytes) signature then ok tt else err not_signed

-- The key has signed the bytes: with the key and the signature that the texts decode to, the library's
-- `verify` accepts the hash of the bytes.
pub record Verifies (c : Crypto) (bytes : Bytes) (signature_hex public_key_hex : Text)
    : Type 0 where
  pub sig_bytes : Bytes
  pub pk_bytes : Bytes
  pub signature : Bytes
  pub public_key : Bytes
  pub signature_hex_decodes : c.decode_hex signature_hex ≡ some sig_bytes
  pub key_hex_decodes : c.decode_hex public_key_hex ≡ some pk_bytes
  pub is_signature : c.signature_from_slice sig_bytes ≡ some signature
  pub is_key : c.key_from_bytes pk_bytes ≡ some public_key
  pub verified : c.verify public_key (c.sha256 bytes) signature ≡ true

or_error-eq-ok : {E A : Type 0} (e : E) (o : Option A) (a : A) → or_error e o ≡ ok a → o ≡ some a
or_error-eq-ok e none a h = absurd (cc)
or_error-eq-ok e (some b) a h = cc

verified_if : (b : Bool) (u : Unit {0}) → (if b then ok tt else err not_signed) ≡ ok u → b ≡ true
verified_if true u h = refl
verified_if false u h = absurd (cc)

pub verify_signature-Verifies :
    (c : Crypto) (bytes : Bytes) (signature_hex public_key_hex : Text) (u : Unit {0})
    → verify_signature c bytes signature_hex public_key_hex ≡ ok u
    → Verifies c bytes signature_hex public_key_hex
unfolding verify_signature
verify_signature-Verifies c bytes signature_hex public_key_hex u h =
    let (sig_bytes, decoded, h) =
      >>=-eq-ok (or_error bad_signature_hex (c.decode_hex signature_hex)) _ h in
    let (pk_bytes, key_decoded, h) =
      >>=-eq-ok (or_error key_hex (c.decode_hex public_key_hex)) _ h in
    let (signature, sliced, h) =
      >>=-eq-ok (or_error signature_length (c.signature_from_slice sig_bytes)) _ h in
    let (public_key, made, h) = >>=-eq-ok (or_error bad_key (c.key_from_bytes pk_bytes)) _ h in
    record {
      sig_bytes = sig_bytes;
      pk_bytes = pk_bytes;
      signature = signature;
      public_key = public_key;
      signature_hex_decodes = or_error-eq-ok bad_signature_hex _ sig_bytes decoded;
      key_hex_decodes = or_error-eq-ok key_hex _ pk_bytes key_decoded;
      is_signature = or_error-eq-ok signature_length _ signature sliced;
      is_key = or_error-eq-ok bad_key _ public_key made;
      verified = verified_if (c.verify public_key (c.sha256 bytes) signature) u h;
    }
