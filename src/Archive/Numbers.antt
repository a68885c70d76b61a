-- ===== src/Archive/Numbers.antt =====
-- Numbers in a header: what is written in octal is read back.
use akuapkg.Common.{
  ℕ, zero, suc, ◌+◌, ◌-◌, ◌*◌, ◌/◌, ◌%◌, ◌≤◌, ◌<◌, ◌≡◌, refl, ap, sym, ◌∙◌, Text, true, false,
  Option, none, some, [], ◌∷◌, ◌++◌, all, length, length-append, is_digit, replicate, ltb, arith,
  Bool-cases, inl, inr,
}
use akuapkg.Archive.{
  Utf8, Utf8Laws, IsAscii, is_paired, is_scalar, is_space, trim_start, trim_end, or_nought,
  read_digits, parse_int, or_zero,
}
use akuapkg.Archive.Write.{octal_from, to_octal, pad_start}

abbrev pub AllDecimal : Text → Type 0
AllDecimal s = all is_digit s ≡ true

pub trim_start-digits : (s : Text) → AllDecimal s → trim_start s ≡ s
unfolding trim_start is_space
trim_start-digits [] h = refl
trim_start-digits (c ∷ s) h = ground arith

trim_end-digits : (s : Text) → AllDecimal s → trim_end s ≡ s
unfolding trim_end is_space
trim_end-digits [] h = refl
trim_end-digits (c ∷ s) h = ground (arith, trim_end-digits s)

pub digits-IsAscii : (s : Text) → AllDecimal s → IsAscii s
digits-IsAscii [] h = tt
digits-IsAscii (c ∷ s) h = (ground arith, digits-IsAscii s (ground arith))

pub IsAscii-of_all : (s : Text) → all (λ c. ltb c 128) s ≡ true → IsAscii s
IsAscii-of_all [] h = tt
IsAscii-of_all (c ∷ s) h = (ground arith, IsAscii-of_all s (ground arith))

pub is_paired-ascii : (s : Text) → IsAscii s → is_paired s ≡ true
unfolding is_paired
is_paired-ascii [] h = refl
is_paired-ascii (c ∷ []) h = ground arith
is_paired-ascii (c ∷ d ∷ s) h = ground (arith, is_paired-ascii (d ∷ s))

pub is_scalar-ascii : (s : Text) → IsAscii s → is_scalar s ≡ true
is_scalar-ascii [] h = refl
is_scalar-ascii (c ∷ s) h = ground (arith, is_paired-ascii (c ∷ s) h)

pub decode-ascii : (utf8 : Utf8) → Utf8Laws utf8 → (s : Text) → IsAscii s → utf8.decode s ≡ s
decode-ascii utf8 laws s h =
    sym (ap (utf8.decode) (laws.encode-ascii s h)) ∙ laws.decode-encode s (is_scalar-ascii s h)

-- the number so far is nothing yet, or zero
abbrev IsZero : Option ℕ → Type 0
IsZero o = or_nought o ≡ 0

octal_small :
    (fuel n : ℕ) (out : Text) → ltb n 8 ≡ true → octal_from (suc fuel) n out ≡ (48 + n) ∷ out
unfolding octal_from
octal_small fuel n out e = rw (e, octal_from) refl

octal_large :
    (fuel n : ℕ) (out : Text)
    → ltb n 8 ≡ false
    → octal_from (suc fuel) n out ≡ octal_from fuel (n / 8) ((48 + n % 8) ∷ out)
unfolding octal_from
octal_large fuel n out e = rw (e, octal_from) refl

read_digits-octal_from :
    (fuel n : ℕ) (o : Option ℕ) (out : Text)
    → IsZero o
    → n < fuel
    → read_digits 8 o (octal_from fuel n out) ≡ read_digits 8 (some n) out
unfolding read_digits
read_digits-octal_from zero n o out z h = absurd (omega arith)
read_digits-octal_from (suc fuel) n o out z h = elim (Bool-cases (ltb n 8)) [
  | inl e ↦ rw (octal_small fuel n out e) (ground (arith, z))
  | inr e ↦
      rw (octal_large fuel n out e)
        (read_digits-octal_from fuel (n / 8) o ((48 + n % 8) ∷ out) z (ground arith) ∙ ground arith)
]

read_digits-padded :
    (k n : ℕ) (o : Option ℕ) → IsZero o → read_digits 8 o (replicate k 48 ++ to_octal n) ≡ some n
unfolding read_digits
read_digits-padded zero n o z = read_digits-octal_from (suc n) n o [] z (omega arith)
read_digits-padded (suc k) n o z = ground (arith, read_digits-padded k n (some 0) refl)

pub octal_from-digits :
    (fuel n : ℕ) (out : Text) → AllDecimal out → AllDecimal (octal_from fuel n out)
octal_from-digits zero n out h = (unfold octal_from in h)
octal_from-digits (suc fuel) n out h = elim (Bool-cases (ltb n 8)) [
  | inl e ↦ rw (octal_small fuel n out e) (ground arith)
  | inr e ↦
      rw (octal_large fuel n out e)
        (octal_from-digits fuel (n / 8) ((48 + n % 8) ∷ out) (ground arith))
]

pub replicate-digits : (k : ℕ) (s : Text) → AllDecimal s → AllDecimal (replicate k 48 ++ s)
replicate-digits zero s h = h
replicate-digits (suc k) s h = replicate-digits k s h

-- powers of 8, by the steps of the loop
abbrev pub power_8 : ℕ → ℕ
power_8 zero = 1
power_8 (suc k) = 8 * power_8 k

length-octal_from :
    (k fuel n : ℕ) (out : Text)
    → n < power_8 (suc k)
    → length (octal_from fuel n out) ≤ suc k + length out
unfolding octal_from
length-octal_from k zero n out h = omega arith
length-octal_from zero (suc fuel) n out h = ground arith
length-octal_from (suc k) (suc fuel) n out h = elim (Bool-cases (ltb n 8)) [
  | inl e ↦ rw (octal_small fuel n out e) (omega arith)
  | inr e ↦
      rw (octal_large fuel n out e)
        (omega (arith, length-octal_from k fuel (n / 8) ((48 + n % 8) ∷ out) (omega arith)))
]

pub length-replicate : (k a : ℕ) → length (replicate k a) ≡ k
length-replicate zero a = refl
length-replicate (suc k) a = ap suc (length-replicate k a)

-- eleven digits are enough for 8 GiB
pub length-pad_start : (n : ℕ) → n < 8589934592 → length (pad_start 11 (to_octal n)) ≡ 11
length-pad_start n h = omega (
  arith,
  length-append {0} (replicate (11 - length (to_octal n)) 48) (to_octal n),
  length-replicate (11 - length (to_octal n)) 48,
  length-octal_from 10 (suc n) n [] (omega arith),
)

pub pad_start-digits : (k n : ℕ) → AllDecimal (pad_start k (to_octal n))
pad_start-digits k n =
    replicate-digits (k - length (to_octal n)) (to_octal n) (octal_from-digits (suc n) n [] refl)

pub parse_int-digits :
    (radix : ℕ) (s : Text)
    → AllDecimal s
    → 0 < length s
    → parse_int radix s ≡ read_digits radix none s
unfolding parse_int
parse_int-digits radix [] h k = absurd (omega arith)
parse_int-digits radix (c ∷ s) h k = ground arith

-- the text between the spaces of a number's field is the number
pub parse_padded :
    (n : ℕ)
    → n < 8589934592
    → parse_int 8 (or_zero (trim_end (trim_start (pad_start 11 (to_octal n))))) ≡ some n
parse_padded n h =
    let s = pad_start 11 (to_octal n) in
    let digits = pad_start-digits 11 n in
    let long = length-pad_start n h in
    ap (λ t. parse_int 8 (or_zero (trim_end t))) (trim_start-digits s digits)
    ∙ ap (λ t. parse_int 8 (or_zero t)) (trim_end-digits s digits)
    ∙ ap (parse_int 8) (or_zero_lem s (omega arith))
    ∙ parse_int-digits 8 s digits (omega arith)
    ∙ read_digits-padded (11 - length (to_octal n)) n none refl
  where
    or_zero_lem : (t : Text) → 0 < length t → or_zero t ≡ t
    or_zero_lem [] k = absurd (omega arith)
    or_zero_lem (c ∷ t) k = refl
