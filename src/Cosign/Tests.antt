-- ===== src/Cosign/Tests.antt =====
-- Signatures on concrete bytes, with a base64 that leaves bytes as they are.
use akuapkg.Common.{
  ℕ, text, text_eq, true, some, List, [], ◌∷◌, ◌++◌, ◌≡◌, ◌≢◌, refl, length, replicate, arith,
  if◌then◌else◌,
}
use akuapkg.Common.Result.{ok}
use akuapkg.Cosign.{Crypto, KeyedRequest, raw_signature, verify_keyed}
use akuapkg.Cosign.Der.{der_to_raw, without_zeros, with_sign, raw_to_der}
use akuapkg.Cosign.RoundTrip.{der_to_raw-raw_to_der}
use akuapkg.Cosign.Verified.{IsVerified, verify_keyed-IsVerified, verify_keyed-encodings}

-- an integer with its top bit set, and one that starts with zeros
abbrev signed_bytes : List ℕ
signed_bytes = 0x80 ∷ replicate 31 7 ++ (0 ∷ 0 ∷ replicate 30 9)

der_to_raw-raw_to_der_example : der_to_raw (raw_to_der signed_bytes) ≡ some signed_bytes
der_to_raw-raw_to_der_example = der_to_raw-raw_to_der signed_bytes refl

crypto : Crypto ℕ
crypto = record {
  from_base64 =
      (λ t. ok (if text_eq t (text "raw") then signed_bytes else raw_to_der signed_bytes));
  key_bytes = (λ pem. ok (1 ∷ []));
  claimed_digest = (λ payload. ok (text "sha256:1"));
  import_key = (λ bytes. ok 5);
  verify = (λ key raw payload. ok true);
  sha256 = (λ bytes. []);
}

abbrev request : KeyedRequest
request = record {
  public_key_pem = [];
  payload = 3 ∷ [];
  signature_base64 = text "raw";
  manifest_digest = text "sha256:1";
}

verify_run : verify_keyed crypto request ≡ ok tt
unfolding crypto verify_keyed raw_signature text_eq
verify_run = refl

verify_keyed-IsVerified_example : IsVerified crypto request
verify_keyed-IsVerified_example = verify_keyed-IsVerified crypto request verify_run

der_is_longer : length (raw_to_der signed_bytes) ≢ 64
unfolding raw_to_der with_sign without_zeros
der_is_longer h = absurd (omega arith)

raw_read : crypto.from_base64 (text "raw") ≡ ok signed_bytes
unfolding crypto text_eq
raw_read = refl

der_read : crypto.from_base64 (text "der") ≡ ok (raw_to_der signed_bytes)
unfolding crypto text_eq
der_read = refl

verify_keyed-encodings_example :
    verify_keyed crypto (record request { signature_base64 = text "der" })
    ≡ verify_keyed crypto request
verify_keyed-encodings_example =
    verify_keyed-encodings crypto request (text "der") signed_bytes refl der_is_longer raw_read
      der_read
