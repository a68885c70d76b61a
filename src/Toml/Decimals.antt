-- ===== src/Toml/Decimals.antt =====
-- Printed numbers are read back; the digits' fuel is enough.
use akuapkg.Common.{
  ℕ, zero, suc, ◌+◌, ◌-◌, ◌*◌, ◌/◌, ◌%◌, ◌<◌, ◌≡◌, refl, ap, ◌∙◌, Text, [], ◌∷◌, ltb, true, arith,
  Bool-cases, inl, inr, all, is_digit,
}
use akuapkg.Toml.Document.{digits_from, decimal}

-- the number that decimal digits stand for, behind the digits of `acc`
pub value_from : ℕ → Text → ℕ
value_from acc [] = acc
value_from acc (d ∷ ds) = value_from (acc * 10 + (d - 48)) ds

value-digits_from :
    (fuel n : ℕ) (out : Text) → n < fuel → value_from 0 (digits_from fuel n out) ≡ value_from n out
unfolding digits_from value_from
value-digits_from zero n out h = absurd (omega arith)
value-digits_from (suc fuel) n out h = elim (Bool-cases (ltb n 10)) [
  | inl e ↦ rw e (ap (λ k. value_from k out) (omega arith))
  | inr e ↦ rw e (
      value-digits_from fuel (n / 10) ((48 + n % 10) ∷ out) (ground arith)
      ∙ ap (λ k. value_from k out) (omega arith))
]

digits_from-digits :
    (fuel n : ℕ) (out : Text)
    → all is_digit out ≡ true
    → all is_digit (digits_from fuel n out) ≡ true
unfolding digits_from
digits_from-digits zero n out h = h
digits_from-digits (suc fuel) n out h = elim (Bool-cases (ltb n 10)) [
  | inl e ↦ rw e (ground arith)
  | inr e ↦ rw e (digits_from-digits fuel (n / 10) ((48 + n % 10) ∷ out) (ground arith))
]

-- A printed number is made of digits alone, and they stand for the number.
pub value-decimal : (n : ℕ) → (value_from 0 (decimal n) ≡ n) × (all is_digit (decimal n) ≡ true)
value-decimal n = (
  value-digits_from (suc n) n [] (omega arith) ∙ (unfold value_from in refl),
  digits_from-digits (suc n) n [] refl,
)
