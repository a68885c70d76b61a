-- ===== src/Cosign.antt =====
-- host/src/cosign.ts: signatures in DER and raw form, and keyed verification. The platform's base64,
-- decoders and cryptography are the record Crypto.
pub mod Der
pub mod RoundTrip
pub mod Verified
mod Tests
use akuapkg.Common.{
  ℕ, Text, text, text_eq, Bool, true, false, not, Option, none, some, List, [], ◌∷◌, ◌++◌, length,
  ◌==◌, if◌then◌else◌,
}
use akuapkg.Common.Result.{Result, ok, err, ◌>>=◌, ◌>>◌, fail_if}
use akuapkg.HostFs.{map_error}
use akuapkg.Cosign.Der.{der_to_raw}

-- one constructor for each message of a CosignInvalid, with what it interpolates
pub data CosignProblem : Type 0 where
  bad_base64 bad_payload bad_key not_verified bad_pem : Text → CosignProblem
  unknown_encoding : CosignProblem
  other_artifact : Text → Text → CosignProblem
  not_signed : CosignProblem

pub record Crypto {ℓ} (Key : Type ℓ) : Type ℓ where
  -- `Uint8Array.fromBase64` of a trimmed signature, and of a PEM's body
  pub from_base64 : Text → Result Text (List ℕ)
  pub key_bytes : Text → Result Text (List ℕ)
  -- the digest that a simple-signing payload claims
  pub claimed_digest : List ℕ → Result Text Text
  pub import_key : List ℕ → Result Text Key
  pub verify : Key → List ℕ → List ℕ → Result Text Bool
  pub sha256 : List ℕ → Text

pub record KeyedRequest : Type 0 where
  pub public_key_pem : Text
  pub payload : List ℕ
  pub signature_base64 : Text
  pub manifest_digest : Text

-- 64 bytes are the raw form, all else is DER
unfoldable pub raw_signature : List ℕ → Option (List ℕ)
raw_signature signature = if length signature == 64 then some signature else der_to_raw signature

abbrev pub known {ℓ} : {A : Type ℓ} → Option A → Result CosignProblem A
known none = err unknown_encoding
known (some a) = ok a

module _ {ℓ} {Key : Type ℓ} (crypto : Crypto Key) where
  abbrev pub imported : Text → Result CosignProblem Key
  imported pem = do
    bytes ← map_error bad_key (crypto.key_bytes pem)
    map_error bad_key (crypto.import_key bytes)

  unfoldable pub verify_keyed : KeyedRequest → Result CosignProblem (Unit {0})
  verify_keyed request = do
    signature ← map_error bad_base64 (crypto.from_base64 request.signature_base64)
    raw ← known (raw_signature signature)
    claimed ← map_error bad_payload (crypto.claimed_digest request.payload)
    fail_if (not (text_eq claimed request.manifest_digest))
        (other_artifact claimed request.manifest_digest)
    key ← imported request.public_key_pem
    verified ← map_error not_verified (crypto.verify key raw request.payload)
    fail_if (not verified) not_signed

  unfoldable pub keyed_signature_ref : Text → Result CosignProblem Text
  keyed_signature_ref pem = do
    der ← map_error bad_pem (crypto.key_bytes pem)
    ok (text "cosign:key:" ++ crypto.sha256 der)
