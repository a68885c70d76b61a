-- ===== src/Cosign/RoundTrip.antt =====
-- A raw signature that is written in DER is read back.
use akuapkg.Common.{
  ℕ, zero, suc, ◌-◌, ◌/◌, ◌%◌, ◌≤◌, ◌≡◌, refl, ap, subst, sym, ◌∙◌, false, some, List, [], ◌∷◌,
  ◌++◌, length, take, take-append, drop, drop-append, replicate, ◌==◌, ==_iff, ltb, ltb_of_le,
  length-drop, arith, Bool-cases, inl, inr,
}
use akuapkg.Cosign.Der.{
  without_sign, padded_integer, read_integer, read_pair, der_to_raw, without_zeros, with_sign,
  der_integer, raw_to_der,
}

-- what is read of the bytes that are written for an integer
abbrev significant : List ℕ → List ℕ
significant bytes = without_sign (with_sign (without_zeros bytes))

-- an integer that starts with no zero is read as it was
significant_of_nonzero :
    (b : ℕ) (bytes : List ℕ) → (b == 0) ≡ false → without_sign (with_sign (b ∷ bytes)) ≡ b ∷ bytes
unfolding without_sign with_sign
significant_of_nonzero b bytes h = elim (Bool-cases (b / 128 % 2 == 1)) [
  | inl e ↦ rw e refl
  | inr e ↦ rw e (rw h refl)
]

significant_of_zero : (bytes : List ℕ) → without_sign (with_sign (0 ∷ bytes)) ≡ bytes
unfolding without_sign with_sign
significant_of_zero bytes = refl

-- one leading zero more changes nothing
significant_zero : (c : ℕ) (bytes : List ℕ) → significant (0 ∷ c ∷ bytes) ≡ significant (c ∷ bytes)
unfolding without_zeros
significant_zero c bytes = refl

significant_nonzero :
    (b c : ℕ) (bytes : List ℕ) → (b == 0) ≡ false → significant (b ∷ c ∷ bytes) ≡ b ∷ c ∷ bytes
unfolding without_zeros
significant_nonzero b c bytes h = rw h (significant_of_nonzero b (c ∷ bytes) h)

abbrev Padded : ℕ → List ℕ → Type 0
Padded b bytes =
    (length (significant (b ∷ bytes)) ≤ suc (length bytes))
    × (replicate (suc (length bytes) - length (significant (b ∷ bytes))) 0
          ++ significant (b ∷ bytes)
        ≡ b ∷ bytes)

exactly : (b : ℕ) (bytes : List ℕ) → significant (b ∷ bytes) ≡ b ∷ bytes → Padded b bytes
exactly b bytes h = rw h (
  omega arith,
  ap (λ k. replicate k 0 ++ b ∷ bytes) {x = suc (length bytes) - suc (length bytes)} {y = 0}
      (omega arith),
)

single_zero : Padded 0 []
unfolding without_zeros without_sign with_sign
single_zero = (omega arith, refl)

single : (b : ℕ) → (b == 0) ≡ false → significant (b ∷ []) ≡ b ∷ []
unfolding without_zeros
single b h = significant_of_nonzero b [] h

one_more :
    (c : ℕ) (bytes : List ℕ)
    → length (significant (c ∷ bytes)) ≤ suc (length bytes)
    → replicate (suc (length bytes) - length (significant (c ∷ bytes))) 0 ++ significant (c ∷ bytes)
      ≡ c ∷ bytes
    → Padded 0 (c ∷ bytes)
one_more c bytes short same =
    let k = suc (length bytes) - length (significant (c ∷ bytes)) in
    rw (significant_zero c bytes) (
      omega (arith, short),
      ap (λ n. replicate n 0 ++ significant (c ∷ bytes))
            {x = suc (suc (length bytes)) - length (significant (c ∷ bytes))} {y = suc k}
            (omega (arith, short))
          ∙ ap (◌∷◌ 0) same,
    )

significant-Padded : (b : ℕ) (bytes : List ℕ) → Padded b bytes
significant-Padded b [] = elim (Bool-cases (b == 0)) [
  | inl e ↦ subst (λ a. Padded a []) (sym ((==_iff b 0).0 e)) single_zero
  | inr e ↦ exactly b [] (single b e)
]
significant-Padded b (c ∷ bytes) = elim (Bool-cases (b == 0)) [
  | inl e ↦
      let (short, same) = significant-Padded c bytes in
      subst (λ a. Padded a (c ∷ bytes)) (sym ((==_iff b 0).0 e)) (one_more c bytes short same)
  | inr e ↦ exactly b (c ∷ bytes) (significant_nonzero b c bytes e)
]

-- with the sign byte, no more than one byte longer
length-with_sign : (bytes : List ℕ) → length (with_sign bytes) ≤ suc (length bytes)
unfolding with_sign
length-with_sign [] = omega arith
length-with_sign (b ∷ bytes) = elim (Bool-cases (b / 128 % 2 == 1)) [
  | inl e ↦ rw e (omega arith)
  | inr e ↦ rw e (omega arith)
]

length-without_zeros : (bytes : List ℕ) → length (without_zeros bytes) ≤ length bytes
unfolding without_zeros
length-without_zeros [] = omega arith
length-without_zeros (b ∷ []) = omega arith
length-without_zeros (b ∷ c ∷ bytes) = elim (Bool-cases (b == 0)) [
  | inl e ↦ rw e (omega (arith, length-without_zeros (c ∷ bytes)))
  | inr e ↦ rw e (omega arith)
]

append_nil : (xs : List ℕ) → xs ++ [] ≡ xs
append_nil [] = refl
append_nil (x ∷ xs) = ap (◌∷◌ x) (append_nil xs)

take-drop : (n : ℕ) (xs : List ℕ) → take n xs ++ drop n xs ≡ xs
take-drop zero xs = refl
take-drop (suc n) [] = refl
take-drop (suc n) (x ∷ xs) = ap (◌∷◌ x) (take-drop n xs)

length-take : (n : ℕ) (xs : List ℕ) → n ≤ length xs → length (take n xs) ≡ n
length-take zero xs h = refl
length-take (suc n) [] h = absurd (omega arith)
length-take (suc n) (x ∷ xs) h = omega (arith, length-take n xs (omega arith))

read_step :
    (size : ℕ) (rest out : List ℕ)
    → padded_integer (without_sign (take size rest)) ≡ some out
    → read_integer (2 ∷ size ∷ rest) ≡ some (out, drop size rest)
unfolding read_integer
read_step size rest out h = rw (h, read_integer) refl

padded_integer-of_32 :
    (b : ℕ) (bytes : List ℕ)
    → suc (length bytes) ≡ 32
    → padded_integer (significant (b ∷ bytes)) ≡ some (b ∷ bytes)
unfolding padded_integer
padded_integer-of_32 b bytes h =
    let (short, same) = significant-Padded b bytes in
    let fits : ltb 32 (length (significant (b ∷ bytes))) ≡ false =
      ltb_of_le 32 _ (omega (arith, short)) in
    rw fits (
      ap some (
        ap (λ n. replicate (n - length (significant (b ∷ bytes))) 0 ++ significant (b ∷ bytes))
          (sym h)
        ∙ same))

read_integer-der_integer :
    (bytes rest : List ℕ)
    → length bytes ≡ 32
    → read_integer (der_integer bytes ++ rest) ≡ some (bytes, rest)
read_integer-der_integer [] rest h = absurd (omega arith)
read_integer-der_integer (b ∷ bytes) rest h =
    let written = with_sign (without_zeros (b ∷ bytes)) in
    let size : length written % 256 ≡ length written =
      omega
        (arith, length-with_sign (without_zeros (b ∷ bytes)), length-without_zeros (b ∷ bytes)) in
    let taken : take (length written % 256) (written ++ rest) ≡ written =
      ap (λ n. take n (written ++ rest)) size ∙ take-append written rest in
    let dropped : drop (length written % 256) (written ++ rest) ≡ rest =
      ap (λ n. drop n (written ++ rest)) size ∙ drop-append written rest in
    read_step (length written % 256) (written ++ rest) (b ∷ bytes)
      (ap (λ v. padded_integer (without_sign v)) taken ∙ padded_integer-of_32 b bytes h)
    ∙ ap (λ r. some (b ∷ bytes, r)) dropped

read_pair_found :
    (rest r s after_r after_s : List ℕ)
    → read_integer rest ≡ some (r, after_r)
    → read_integer after_r ≡ some (s, after_s)
    → read_pair rest ≡ some (r ++ s)
unfolding read_pair
read_pair_found rest r s after_r after_s h k = rw (h, read_pair) (rw (k, read_pair) refl)

-- Every raw signature of 64 bytes is read back from the DER that is written for it, also where an
-- integer starts with zeros or with a byte whose top bit is set.
pub der_to_raw-raw_to_der :
    (raw : List ℕ) → length raw ≡ 64 → der_to_raw (raw_to_der raw) ≡ some raw
unfolding der_to_raw raw_to_der
der_to_raw-raw_to_der raw h =
    let r = take 32 raw in
    let s = drop 32 raw in
    read_pair_found (der_integer r ++ der_integer s) r s (der_integer s) []
      (read_integer-der_integer r (der_integer s) (omega (arith, length-take 32 raw (omega arith))))
      (ap read_integer (sym (append_nil (der_integer s)))
        ∙ read_integer-der_integer s [] (omega (arith, length-drop 32 raw)))
    ∙ ap some (take-drop 32 raw)
