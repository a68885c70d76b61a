-- ===== src/Archive/Names.antt =====
-- Pax records: the path that is read from the record that `tar` writes for a long name.
use akuapkg.Common.{
  ℕ, zero, suc, ◌+◌, ◌-◌, ◌*◌, ◌≤◌, ◌<◌, ◌≡◌, refl, ap, subst, sym, ◌∙◌, Text, text, text_eq,
  includes, cut, cut-append, true, false, none, some, List, [], ◌∷◌, ◌++◌, length, length-append,
  take, take-append, drop, All-append, arith, ltb,
}
use akuapkg.Toml.Document.{decimal}
use akuapkg.Toml.Decimals.{value-decimal}
use akuapkg.Archive.{Utf8, Utf8Laws, IsAscii, is_scalar, read_digits, parse_int, trim_start}
use akuapkg.Archive.Pax.{
  Records, record_named, with_record, pax_from, pax_records, pax_number, infinite,
}
use akuapkg.Archive.Write.{digit_count, pax_body, pax_length, pax_path}
use akuapkg.Archive.Numbers.{
  AllDecimal, trim_start-digits, parse_int-digits, IsAscii-of_all, digits-IsAscii, is_scalar-ascii,
}
use akuapkg.Archive.Lengths.{digit_count-positive, pax_length-fixed, read_digits-digits_from}

decimal-digits : (n : ℕ) → AllDecimal (decimal n)
decimal-digits n = (value-decimal n).1

parse-decimal : (n : ℕ) → parse_int 10 (trim_start (decimal n)) ≡ some n
parse-decimal n =
    ap (parse_int 10) (trim_start-digits (decimal n) (decimal-digits n))
    ∙ parse_int-digits 10 (decimal n) (decimal-digits n) (digit_count-positive n)
    ∙ read_digits-digits_from (suc n) n none [] refl (omega arith)
    ∙ (unfold read_digits in refl)

digits-no_space : (s : Text) → AllDecimal s → includes s 32 ≡ false
unfolding includes
digits-no_space [] h = refl
digits-no_space (c ∷ s) h = ground (arith, digits-no_space s)

drop_all {ℓ} : {A : Type ℓ} (n : ℕ) (xs : List A) → length xs ≤ n → drop n xs ≡ []
drop_all zero [] h = refl
drop_all (suc n) [] h = refl
drop_all zero (x ∷ xs) h = absurd (omega arith)
drop_all (suc n) (x ∷ xs) h = drop_all n xs (omega arith)

take_all {ℓ} : {A : Type ℓ} (n : ℕ) (xs : List A) → length xs ≤ n → take n xs ≡ xs
take_all zero [] h = refl
take_all (suc n) [] h = refl
take_all zero (x ∷ xs) h = absurd (omega arith)
take_all (suc n) (x ∷ xs) h = ap (◌∷◌ x) (take_all n xs (omega arith))

below_infinite : (n : ℕ) → n < 10000000000 → ltb n infinite ≡ true
unfolding infinite
below_infinite n h = ground (arith, h)

pax_number-decimal : (n : ℕ) → n < 10000000000 → pax_number (decimal n) ≡ some n
unfolding pax_number
pax_number-decimal n h = rw (parse-decimal n, pax_number) (rw (below_infinite n h) refl)

-- one round of the loop, on a text that begins with a number and a space
pax_step :
    (fuel n : ℕ) (records : Records) (rest digits more : Text)
    → cut 32 rest ≡ some (digits, more)
    → pax_number digits ≡ some (suc n)
    → pax_from (suc fuel) records rest
      ≡ pax_from fuel
          (with_record (take (n - (length digits + 1)) more) records)
          (drop (suc n) rest)
unfolding pax_from
pax_step fuel n records rest digits more h k = rw (h, pax_from) (rw (k, pax_from) refl)

pax_end : (fuel : ℕ) (records : Records) → pax_from fuel records [] ≡ records
unfolding pax_from cut
pax_end zero records = refl
pax_end (suc fuel) records = refl

path_record :
    (value : Text)
    → record_named (text "path") (with_record (text "path=" ++ value) []) ≡ some value
unfolding record_named with_record cut text_eq
path_record value = refl

-- The path that is read is as much of the name and its line end as the length leaves.
pub path-pax_records :
    (n : ℕ) (name : Text)
    → suc n < 10000000000
    → digit_count (suc n) + length (pax_body name) ≤ suc n
    → record_named (text "path") (pax_records (decimal (suc n) ++ pax_body name))
      ≡ some (take (suc n - (digit_count (suc n) + 7)) (name ++ 0x0a ∷ []))
path-pax_records n name few h =
    let digits = decimal (suc n) in
    let value = name ++ 0x0a ∷ [] in
    let source = digits ++ pax_body name in
    let positive = digit_count-positive (suc n) in
    let long : length source ≡ digit_count (suc n) + length (pax_body name) =
      length-append digits (pax_body name) in
    let k = suc n - (digit_count (suc n) + 7) in
    let split : cut 32 source ≡ some (digits, text "path=" ++ value) =
      cut-append 32 digits (text "path=" ++ value)
        (digits-no_space digits (decimal-digits (suc n))) in
    let fuel : length source ≡ suc (length source - 1) = omega (arith, positive) in
    let shorter : n - (length digits + 1) ≡ suc (suc (suc (suc (suc k)))) =
      omega (arith, positive, length-append {0} name (0x0a ∷ [])) in
    ap (λ f. record_named (text "path") (pax_from f [] source)) fuel
    ∙ ap (record_named (text "path")) (
        pax_step (length source - 1) n [] source digits (text "path=" ++ value) split
          (pax_number-decimal (suc n) few)
        ∙ ap
            (λ r.
              pax_from (length source - 1)
                (with_record (take (n - (length digits + 1)) (text "path=" ++ value)) []) r)
            (drop_all (suc n) source (omega arith))
        ∙ pax_end (length source - 1) _
        ∙ ap (λ m. with_record (take m (text "path=" ++ value)) []) shorter)
    ∙ path_record (take k value)

module _ (utf8 : Utf8) (laws : Utf8Laws utf8) (name : Text) where
  abbrev body_bytes : ℕ
  body_bytes = length (utf8.encode (pax_body name))

  abbrev record_text : Text
  record_text = decimal (pax_length body_bytes) ++ pax_body name

  read_record :
      is_scalar record_text ≡ true
      → body_bytes < 4000000000
      → length (pax_body name) ≤ body_bytes
      → record_named (text "path") (pax_records (utf8.decode (pax_path utf8 name)))
        ≡ some (take (body_bytes - 7) (name ++ 0x0a ∷ []))
  unfolding pax_path
  read_record scalar few h =
      let (fixed, bound) = pax_length-fixed body_bytes in
      let l = pax_length body_bytes in
      let e : l ≡ suc (l - 1) = omega (arith, digit_count-positive l) in
      ap (λ t. record_named (text "path") (pax_records t)) (laws.decode-encode record_text scalar)
      ∙ ap (λ m. record_named (text "path") (pax_records (decimal m ++ pax_body name))) e
      ∙ path-pax_records (l - 1) name (omega arith)
          (subst (λ m. digit_count m + length (pax_body name) ≤ m) e (omega arith))
      ∙ ap (λ m. some (take (m - (digit_count m + 7)) (name ++ 0x0a ∷ []))) (sym e)
      ∙ ap (λ m. some (take m (name ++ 0x0a ∷ []))) (omega arith)

  body-IsAscii : IsAscii name → IsAscii (pax_body name)
  body-IsAscii h =
      All-append (λ c. c < 128) (text " path=") (name ++ 0x0a ∷ [])
        (IsAscii-of_all (text " path=") refl)
        (All-append (λ c. c < 128) name (0x0a ∷ []) h (IsAscii-of_all (0x0a ∷ []) refl))

  -- an ASCII record is as long as it says
  pub length-pax_path : IsAscii name → length (pax_path utf8 name) ≤ 2 * length name + 24
  unfolding pax_path
  length-pax_path h =
      let ascii = body-IsAscii h in
      let same : body_bytes ≡ length (pax_body name) =
        ap length (laws.encode-ascii (pax_body name) ascii) in
      let whole : length (pax_path utf8 name) ≡ length record_text = ap length (
        laws.encode-ascii record_text (
          All-append (λ c. c < 128) (decimal (pax_length body_bytes)) (pax_body name)
            (digits-IsAscii _ (decimal-digits (pax_length body_bytes))) ascii)) in
      let (fixed, small) = pax_length-fixed body_bytes in
      omega (
        arith,
        length-append {0} (decimal (pax_length body_bytes)) (pax_body name),
        length-append {0} name (0x0a ∷ []),
      )

  -- A shorter ASCII name is read back from its record.
  pub path_ascii :
      IsAscii name
      → length name < 1000000000
      → record_named (text "path") (pax_records (utf8.decode (pax_path utf8 name))) ≡ some name
  path_ascii h few =
      let ascii = body-IsAscii h in
      let same : body_bytes ≡ length (pax_body name) =
        ap length (laws.encode-ascii (pax_body name) ascii) in
      read_record
        (is_scalar-ascii record_text (
          All-append (λ c. c < 128) (decimal (pax_length body_bytes)) (pax_body name)
            (digits-IsAscii _ (decimal-digits (pax_length body_bytes))) ascii))
        (omega (arith, length-append {0} name (0x0a ∷ []))) (omega arith)
      ∙ ap (λ m. some (take m (name ++ 0x0a ∷ [])))
          (omega (arith, length-append {0} name (0x0a ∷ [])))
      ∙ ap some (take-append name (0x0a ∷ []))

  -- In the pax record that `tar` writes for a name (it writes one where the name takes more than 100
  -- bytes), a name that takes more bytes than code units is read back with a line end behind it, if the
  -- record's text has no lone surrogate and fewer than 4*10^9 bytes: the record's length counts bytes, and the reader cuts the
  -- decoded text by it. This is about the record alone, not about names that the header holds.
  pub path_not_ascii :
      is_scalar record_text ≡ true
      → body_bytes < 4000000000
      → length (pax_body name) < body_bytes
      → record_named (text "path") (pax_records (utf8.decode (pax_path utf8 name)))
        ≡ some (name ++ 0x0a ∷ [])
  path_not_ascii scalar few h =
      read_record scalar few (omega arith)
      ∙ ap some (
          take_all (body_bytes - 7) (name ++ 0x0a ∷ [])
            (omega (arith, length-append {0} name (0x0a ∷ []))))
