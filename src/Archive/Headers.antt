-- ===== src/Archive/Headers.antt =====
-- What is read from the fields of a header that `tar` writes.
use akuapkg.Common.{
  ℕ, zero, suc, ◌+◌, ◌-◌, ◌≤◌, ◌<◌, ◌≡◌, refl, ap, ◌∙◌, Text, text, includes, false, some, [], ◌∷◌,
  ◌++◌, length, length-append, All-append, replicate, arith,
}
use mathlib.Core.List.{append_assoc}
use akuapkg.Archive.{
  Bytes, Utf8, Utf8Laws, IsAscii, before_zero, slice, field, octal, parse_int, or_zero, trim_start,
  trim_end,
}
use akuapkg.Archive.Untar.{nth}
use akuapkg.Archive.Numbers.{
  AllDecimal, IsAscii-of_all, decode-ascii, digits-IsAscii, pad_start-digits, length-pad_start,
  parse_padded,
}
use akuapkg.Archive.Write.{Block, unsummed, tar_block, tar_header, octal_text, pad_start, to_octal}
use akuapkg.Archive.Blocks.{
  nth_past, nth-block_bytes, block_bytes-nth, slice-block_bytes, before_zero-append,
}

nth_front : (i : ℕ) (bs more : Bytes) → i < length bs → nth i (bs ++ more) ≡ nth i bs
unfolding nth
nth_front i [] more h = absurd (omega arith)
nth_front zero (b ∷ bs) more h = refl
nth_front (suc i) (b ∷ bs) more h = nth_front i bs more (omega arith)

before_zero-digits : (s : Text) (more : Bytes) → AllDecimal s → before_zero (s ++ 0 ∷ more) ≡ s
unfolding before_zero
before_zero-digits [] more h = refl
before_zero-digits (c ∷ s) more h = ground (arith, before_zero-digits s more)

module _ (utf8 : Utf8) (name : Bytes) (size mode : ℕ) (type : Text) where
  abbrev H : Block
  H = tar_block utf8 name size mode type

  name_region : (k : ℕ) → 0 ≤ k → k < 100 → H k ≡ nth (k - 0) name
  unfolding tar_block unsummed
  name_region k a b = ground (arith, nth_past (k - 0) name)

  size_region : (k : ℕ) → 124 ≤ k → k < 136 → H k ≡ nth (k - 124) (utf8.encode (octal_text size 12))
  unfolding tar_block unsummed
  size_region k a b = ground (arith, nth_past (k - 124) (utf8.encode (octal_text size 12)))

  magic_region :
      (k : ℕ) → 257 ≤ k → k < 257 + 5 → H k ≡ nth (k - 257) (utf8.encode (text "ustar" ++ 0 ∷ []))
  unfolding tar_block unsummed
  magic_region k a b = ground (arith, nth_past (k - 257) (utf8.encode (text "ustar" ++ 0 ∷ [])))

  prefix_region : (k : ℕ) → 345 ≤ k → k < 500 → H k ≡ nth (k - 345) []
  unfolding tar_block unsummed nth
  prefix_region k a b = ground arith

  type_position : H 156 ≡ nth 0 (utf8.encode type)
  unfolding tar_block unsummed
  type_position = ground (arith, nth_past 0 (utf8.encode type))

  abbrev header : Bytes
  header = tar_header utf8 name size mode type

  region :
      (bs : Bytes) (o n : ℕ)
      → o + n ≤ 512
      → length bs ≤ n
      → ((k : ℕ) → o ≤ k → k < o + n → H k ≡ nth (k - o) bs)
      → slice header o n ≡ bs ++ replicate (n - length bs) 0
  region bs o n fits short h = slice-block_bytes H o n 512 fits ∙ block_bytes-nth bs o n H short h

  -- the name is read back, if it has room and no zero byte
  pub field_name : length name ≤ 100 → includes name 0 ≡ false → field header 0 100 ≡ name
  field_name short z =
      ap before_zero (region name 0 100 (omega arith) short name_region)
      ∙ before_zero-append name (100 - length name) z

  pub field_prefix : field header 345 155 ≡ []
  field_prefix =
      ap before_zero (region [] 345 155 (omega arith) (omega arith) prefix_region)
      ∙ before_zero-append [] 155 (unfold includes in refl)

  pub type_of_header : nth 156 header ≡ nth 0 (utf8.encode type)
  type_of_header = nth-block_bytes H 0 156 512 (omega arith) ∙ type_position

  module _ (laws : Utf8Laws utf8) where
    pub magic : utf8.decode (slice header 257 5) ≡ text "ustar"
    unfolding nth
    magic =
        let ustar : utf8.encode (text "ustar" ++ 0 ∷ []) ≡ text "ustar" ++ 0 ∷ [] =
          laws.encode-ascii _ (ascii_ustar) in
        ap (utf8.decode) (
          region (text "ustar") 257 5 (omega arith) (omega arith)
            (λ k a b. magic_region k a b ∙ ap (nth (k - 257)) ustar ∙ same (k - 257) (omega arith)))
        ∙ decode-ascii utf8 laws (text "ustar") ascii_text
      where
        same : (i : ℕ) → i < 5 → nth i (text "ustar" ++ 0 ∷ []) ≡ nth i (text "ustar")
        same i h = nth_front i (text "ustar") (0 ∷ []) h

        ascii_text : IsAscii (text "ustar")
        ascii_text = IsAscii-of_all (text "ustar") refl

        ascii_ustar : IsAscii (text "ustar" ++ 0 ∷ [])
        ascii_ustar = IsAscii-of_all (text "ustar" ++ 0 ∷ []) refl

    -- the byte at 257 is that of `u`
    pub letter_u : nth 257 header ≡ 117
    unfolding nth
    letter_u =
        nth-block_bytes H 0 257 512 (omega arith)
        ∙ magic_region 257 (omega arith) (omega arith)
        ∙ ap (nth 0) (
            laws.encode-ascii (text "ustar" ++ 0 ∷ [])
              (IsAscii-of_all (text "ustar" ++ 0 ∷ []) refl))

    octal_ascii : utf8.encode (octal_text size 12) ≡ pad_start 11 (to_octal size) ++ 0 ∷ []
    octal_ascii = laws.encode-ascii (octal_text size 12) (
        All-append (λ c. c < 128) (pad_start 11 (to_octal size)) (0 ∷ [])
          (digits-IsAscii _ (pad_start-digits 11 size)) (omega arith, tt))

    -- the size is read back, if it is below 8 GiB
    pub octal_size : size < 8589934592 → octal utf8 header 124 12 ≡ some size
    unfolding octal
    octal_size h =
        let digits = pad_start 11 (to_octal size) in
        let d = pad_start-digits 11 size in
        let long = length-pad_start size h in
        ap (λ bs. parse_int 8 (or_zero (trim_end (trim_start (utf8.decode bs)))))
          (ap before_zero (
              region (digits ++ 0 ∷ []) 124 12 (omega arith)
                (omega (arith, length-append {0} digits (0 ∷ [])))
                (λ k a b. size_region k a b ∙ ap (nth (k - 124)) octal_ascii))
            ∙ ap before_zero (append_assoc digits (0 ∷ []) _)
            ∙ before_zero-digits digits _ d)
        ∙ ap (λ t. parse_int 8 (or_zero (trim_end (trim_start t))))
            (decode-ascii utf8 laws digits (digits-IsAscii digits d))
        ∙ parse_padded size h
