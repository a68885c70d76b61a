-- ===== src/Cosign/Verified.antt =====
-- What a verified signature means, and that its two encodings are one.
use akuapkg.Common.{
  ℕ, Text, text_eq, text_eq_iff, Bool, true, false, not, not-false, some, List, ◌≡◌, ◌≢◌, refl, ap,
  subst, ◌∙◌, length, ◌==◌, arith, ◌⊎◌, if◌then◌else◌, Option, none, Bool-cases, inl, inr, ==_iff,
}
use akuapkg.Common.Result.{ok, fail_if, Holds, Holds-bind, Holds-fail_if}
use akuapkg.HostFs.{map_error, map_error-eq-ok}
use akuapkg.Cosign.{
  bad_base64, bad_payload, not_verified, not_signed, Crypto, KeyedRequest, raw_signature, known,
  imported, verify_keyed,
}
use akuapkg.Cosign.Der.{raw_to_der, der_to_raw}
use akuapkg.Cosign.RoundTrip.{der_to_raw-raw_to_der}

signed-Holds {ℓ} :
    (P : Type ℓ) (verified : Bool)
    → (verified ≡ true → P)
    → Holds (λ (done : Unit {0}). P) (fail_if (not verified) not_signed)
signed-Holds P true h = h refl
signed-Holds P false h = tt

known-eq-ok : (o : Option (List ℕ)) (raw : List ℕ) → known o ≡ ok raw → o ≡ some raw
known-eq-ok none raw h = cc
known-eq-ok (some a) raw h = cc

module _ {ℓ} {Key : Type ℓ} (crypto : Crypto Key) where
  -- the raw form of a decoded signature: 64 bytes are raw already, other bytes are DER
  abbrev pub IsRawOf : List ℕ → List ℕ → Type 0
  IsRawOf signature raw =
      ((length signature ≡ 64) × (raw ≡ signature))
      ⊎ ((length signature ≢ 64) × (der_to_raw signature ≡ some raw))

  -- the payload names the manifest that was fetched, and the request's own signature, decoded, verifies
  -- over it with the request's key
  abbrev pub IsVerified : KeyedRequest → Type ℓ
  IsVerified request =
      (crypto.claimed_digest request.payload ≡ ok request.manifest_digest)
      × ((key : Key) × (signature : List ℕ) × (raw : List ℕ) × (imported crypto
              request.public_key_pem
            ≡ ok key)
          × (crypto.from_base64 request.signature_base64 ≡ ok signature)
          × IsRawOf signature raw
          × (crypto.verify key raw request.payload ≡ ok true))

  raw_signature-IsRawOf :
      (signature raw : List ℕ) → known (raw_signature signature) ≡ ok raw → IsRawOf signature raw
  unfolding raw_signature
  raw_signature-IsRawOf signature raw h = elim (Bool-cases (length signature == 64)) [
    | inl e ↦
        let same : known (some signature) ≡ ok raw =
          subst (λ b. known (if b then some signature else der_to_raw signature) ≡ ok raw) e h in
        inl ((==_iff (length signature) 64).0 e, cc)
    | inr e ↦ inr (
      ground (arith, e),
      known-eq-ok (der_to_raw signature) raw
          (subst (λ b. known (if b then some signature else der_to_raw signature) ≡ ok raw) e h),
    )
  ]

  verify_keyed-Holds :
      (request : KeyedRequest) → Holds (λ done. IsVerified request) (verify_keyed crypto request)
  unfolding verify_keyed
  verify_keyed-Holds request =
      let P = λ (done : Unit {0}). IsVerified request in
      Holds-bind P (map_error bad_base64 (crypto.from_base64 request.signature_base64)) _
        (λ signature a. Holds-bind P (known (raw_signature signature)) _ (λ raw b.
          Holds-bind P (map_error bad_payload (crypto.claimed_digest request.payload)) _
            (λ claimed c.
              Holds-fail_if P (not (text_eq claimed request.manifest_digest)) _ _ (λ same.
                Holds-bind P (imported crypto request.public_key_pem) _ (λ key d.
                  Holds-bind P (map_error not_verified (crypto.verify key raw request.payload)) _
                    (λ verified e. signed-Holds (IsVerified request) verified (λ v. (
                      map_error-eq-ok bad_payload _ claimed c
                          ∙ ap ok
                              ((text_eq_iff claimed request.manifest_digest).0 (not-false _ same)),
                      (
                        key,
                        signature,
                        raw,
                        d,
                        map_error-eq-ok bad_base64 _ signature a,
                        raw_signature-IsRawOf signature raw b,
                        map_error-eq-ok not_verified _ verified e ∙ ap ok v,
                      ),
                    ))))))))

  -- A request that passes has a payload that names the manifest that was fetched, and a signature that
  -- decodes from its base64 text to bytes whose raw form (the bytes themselves if there are 64 of them,
  -- else what their DER holds) the platform verifies over this payload with the request's key.
  pub verify_keyed-IsVerified :
      (request : KeyedRequest) → verify_keyed crypto request ≡ ok tt → IsVerified request
  verify_keyed-IsVerified request h =
      subst (Holds (λ (done : Unit {0}). IsVerified request)) h (verify_keyed-Holds request)

raw_signature-raw_to_der :
    (raw : List ℕ)
    → length raw ≡ 64
    → length (raw_to_der raw) ≢ 64
    → raw_signature (raw_to_der raw) ≡ some raw
unfolding raw_signature
raw_signature-raw_to_der raw h k =
    let other : (length (raw_to_der raw) == 64) ≡ false = ground (arith, k) in
    rw other (der_to_raw-raw_to_der raw h)

raw_signature-raw : (raw : List ℕ) → length raw ≡ 64 → raw_signature raw ≡ some raw
unfolding raw_signature
raw_signature-raw raw h = let same : (length raw == 64) ≡ true = ground (arith, h) in rw same refl

module _ {ℓ} {Key : Type ℓ} (crypto : Crypto Key) where
  -- A signature of 64 raw bytes passes or fails exactly as the DER that is written for it, with the same
  -- error, unless that DER happens to be 64 bytes long too.
  pub verify_keyed-encodings :
      (request : KeyedRequest) (der_base64 : Text) (raw : List ℕ)
      → length raw ≡ 64
      → length (raw_to_der raw) ≢ 64
      → crypto.from_base64 request.signature_base64 ≡ ok raw
      → crypto.from_base64 der_base64 ≡ ok (raw_to_der raw)
      → verify_keyed crypto (record request { signature_base64 = der_base64 })
        ≡ verify_keyed crypto request
  unfolding verify_keyed
  verify_keyed-encodings request der_base64 raw h k a b =
      rw a (rw b (rw (raw_signature-raw_to_der raw h k) (rw (raw_signature-raw raw h) refl)))
