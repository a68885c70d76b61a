-- ===== src/Archive/Lengths.antt =====
-- The length that a pax record begins with counts itself: the loop of `paxPath` ends.
use akuapkg.Common.{
  ℕ, zero, suc, ◌+◌, ◌*◌, ◌/◌, ◌%◌, ◌≤◌, ◌<◌, ◌≡◌, refl, ◌∙◌, Text, true, false, Option, some, [],
  ◌∷◌, length, ◌==◌, ==_iff, ltb, arith, Bool-cases, inl, inr,
}
use akuapkg.Toml.Document.{digits_from}
use akuapkg.Archive.{read_digits, or_nought}
use akuapkg.Archive.Write.{digit_count, length_from, pax_length}

module _ (fuel n : ℕ) (out : Text) where
  digits_small : ltb n 10 ≡ true → digits_from (suc fuel) n out ≡ (48 + n) ∷ out
  unfolding digits_from
  digits_small e = rw e refl

  digits_large :
      ltb n 10 ≡ false
      → digits_from (suc fuel) n out ≡ digits_from fuel (n / 10) ((48 + n % 10) ∷ out)
  unfolding digits_from
  digits_large e = rw e refl

length-digits_from-lower :
    (fuel n : ℕ) (out : Text) → n < fuel → suc (length out) ≤ length (digits_from fuel n out)
length-digits_from-lower zero n out h = absurd (omega arith)
length-digits_from-lower (suc fuel) n out h = elim (Bool-cases (ltb n 10)) [
  | inl e ↦ rw (digits_small fuel n out e) (omega arith)
  | inr e ↦
      rw (digits_large fuel n out e)
        (omega (arith, length-digits_from-lower fuel (n / 10) ((48 + n % 10) ∷ out) (ground arith)))
]

length-digits_from-upper :
    (fuel n : ℕ) (out : Text) → n < fuel → length (digits_from fuel n out) ≤ 1 + n / 10 + length out
length-digits_from-upper zero n out h = absurd (omega arith)
length-digits_from-upper (suc fuel) n out h = elim (Bool-cases (ltb n 10)) [
  | inl e ↦ rw (digits_small fuel n out e) (omega arith)
  | inr e ↦
      rw (digits_large fuel n out e) (
        ground (arith, length-digits_from-upper fuel (n / 10) ((48 + n % 10) ∷ out) (ground arith)))
]

-- a larger number has no fewer digits
length-digits_from_mono :
    (f g m n : ℕ) (s t : Text)
    → m < f
    → n < g
    → m ≤ n
    → length (digits_from f m s) + length t ≤ length (digits_from g n t) + length s
length-digits_from_mono zero g m n s t a b h = absurd (omega arith)
length-digits_from_mono (suc f) zero m n s t a b h = absurd (omega arith)
length-digits_from_mono (suc f) (suc g) m n s t a b h = elim (Bool-cases (ltb m 10)) [
  | inl e ↦ rw (digits_small f m s e) (omega (arith, length-digits_from-lower (suc g) n t b))
  | inr e ↦
      let large : ltb n 10 ≡ false = ground arith in
      rw (digits_large f m s e, digits_large g n t large)
        (omega (
          arith,
          length-digits_from_mono f g (m / 10) (n / 10) ((48 + m % 10) ∷ s) ((48 + n % 10) ∷ t)
              (ground arith) (ground arith) (omega arith),
        ))
]

digit_count_mono : (m n : ℕ) → m ≤ n → digit_count m ≤ digit_count n
digit_count_mono m n h =
    omega (arith, length-digits_from_mono (suc m) (suc n) m n [] [] (omega arith) (omega arith) h)

pub digit_count-positive : (n : ℕ) → 0 < digit_count n
digit_count-positive n = omega (arith, length-digits_from-lower (suc n) n [] (omega arith))

digit_count-le : (n : ℕ) → digit_count n ≤ 1 + n / 10
digit_count-le n = omega (arith, length-digits_from-upper (suc n) n [] (omega arith))

length_found :
    (fuel body count : ℕ)
    → (digit_count count + body == count) ≡ true
    → length_from (suc fuel) body count ≡ count
unfolding length_from
length_found fuel body count e = rw (e, length_from) refl

length_next :
    (fuel body count : ℕ)
    → (digit_count count + body == count) ≡ false
    → length_from (suc fuel) body count ≡ length_from fuel body (digit_count count + body)
unfolding length_from
length_next fuel body count e = rw (e, length_from) refl

-- each round that goes on raises the count, which stays below a bound
length_from-fixed :
    (fuel body count : ℕ)
    → count ≤ digit_count count + body
    → count ≤ 2 * body + 10
    → 2 * body + 10 < fuel + count
    → digit_count (length_from fuel body count) + body ≡ length_from fuel body count
      × (length_from fuel body count ≤ 2 * body + 10)
length_from-fixed zero body count a b h = absurd (omega arith)
length_from-fixed (suc fuel) body count a b h =
    elim (Bool-cases (digit_count count + body == count)) [
      | inl e ↦ rw (length_found fuel body count e) ((==_iff _ _).0 e, b)
      | inr e ↦
          let up : count < digit_count count + body = ground arith in
          let few : digit_count count ≤ 1 + count / 10 = digit_count-le count in
          rw (length_next fuel body count e) (
            length_from-fixed fuel body (digit_count count + body)
              (omega (arith, digit_count_mono count (digit_count count + body) (omega arith)))
              (omega arith) (omega arith))
    ]

-- Whatever the body's length, the loop that looks for the length of a pax record ends with one that
-- is exactly the length of its own digits and of the body, at most twice the body's and ten.
pub pax_length-fixed :
    (body : ℕ)
    → (digit_count (pax_length body) + body ≡ pax_length body) × (pax_length body ≤ 2 * body + 10)
pax_length-fixed body =
    length_from-fixed (body + 10) body (body + 1) (omega (arith, digit_count-positive (body + 1)))
      (omega arith) (omega arith)

-- a printed number is read back
pub read_digits-digits_from :
    (fuel n : ℕ) (o : Option ℕ) (out : Text)
    → or_nought o ≡ 0
    → n < fuel
    → read_digits 10 o (digits_from fuel n out) ≡ read_digits 10 (some n) out
unfolding read_digits
read_digits-digits_from zero n o out z h = absurd (omega arith)
read_digits-digits_from (suc fuel) n o out z h = elim (Bool-cases (ltb n 10)) [
  | inl e ↦ rw (digits_small fuel n out e) (ground (arith, z))
  | inr e ↦ rw (digits_large fuel n out e) (
      read_digits-digits_from fuel (n / 10) o ((48 + n % 10) ∷ out) z (ground arith) ∙ ground arith)
]
