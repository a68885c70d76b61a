-- ===== src/Archive/Tests.antt =====
-- Archives on concrete inputs, with a small encoding that keeps ASCII and takes two bytes for all else.
use akuapkg.Common.{
  ℕ, ◌+◌, ◌*◌, ◌≤◌, ◌<◌, ◌≡◌, ◌↔◌, refl, ap, ◌∙◌, Text, text, text_eq, includes, split_by, join,
  starts_with, true, false, some, List, [], ◌∷◌, ◌++◌, map, All, length, replicate, ltb, arith,
  Bool-cases, inl, inr, if◌then◌else◌,
}
use akuapkg.Common.Result.{ok}
use akuapkg.Toml.Document.{decimal, digits_from}
use akuapkg.Archive.{Bytes, Utf8, Utf8Laws, is_scalar, is_paired, entry_path}
use akuapkg.Archive.Pax.{record_named, pax_records}
use akuapkg.Archive.Untar.{untar}
use akuapkg.Archive.Write.{TarFile, tar, digit_count, length_from, pax_length, pax_path, pax_body}
use akuapkg.Archive.RoundTrip.{IsPackable, entry_of_file, untar-tar}
use akuapkg.Archive.Numbers.{IsAscii-of_all}
use akuapkg.Archive.Names.{path_not_ascii}
use akuapkg.Archive.Lengths.{pax_length-fixed}
use akuapkg.Archive.Contained.{IsContained, untar-IsContained}
use akuapkg.Archive.Outcomes.{Outcome, untar-Outcome}
use akuapkg.Archive.Gzip.{Chunks, end, chunk, gunzip}
use akuapkg.Archive.Limit.{contents, gunzip-ok_iff}

unfoldable two_encode : Text → Bytes
two_encode [] = []
two_encode (a ∷ s) = let rest = two_encode s in if ltb a 128 then a ∷ rest else 128 ∷ a ∷ rest

unfoldable two_decode : Bytes → Text
two_decode [] = []
two_decode (b ∷ []) = if ltb b 128 then b ∷ [] else []
two_decode (b ∷ c ∷ rest) =
    let other = two_decode rest in
    let same = two_decode (c ∷ rest) in if ltb b 128 then b ∷ same else c ∷ other

two_decode-small :
    (b : ℕ) (bytes : Bytes) → ltb b 128 ≡ true → two_decode (b ∷ bytes) ≡ b ∷ two_decode bytes
unfolding two_decode
two_decode-small b [] h = rw h refl
two_decode-small b (c ∷ rest) h = rw h refl

two_decode-large :
    (b a : ℕ) (bytes : Bytes)
    → ltb b 128 ≡ false
    → two_decode (b ∷ a ∷ bytes) ≡ a ∷ two_decode bytes
unfolding two_decode
two_decode-large b a bytes h = rw h refl

two_decode-encode : (t : Text) → two_decode (two_encode t) ≡ t
unfolding two_encode
two_decode-encode [] = unfold two_decode in refl
two_decode-encode (a ∷ s) = elim (Bool-cases (ltb a 128)) [
  | inl e ↦ rw e (two_decode-small a (two_encode s) e ∙ ap (◌∷◌ a) (two_decode-encode s))
  | inr e ↦ rw e (two_decode-large 128 a (two_encode s) refl ∙ ap (◌∷◌ a) (two_decode-encode s))
]

two_encode-ascii : (t : Text) → All (λ c. c < 128) t → two_encode t ≡ t
unfolding two_encode
two_encode-ascii [] h = refl
two_encode-ascii (a ∷ s) h = ground (arith, two_encode-ascii s)

two_encode-no_zero : (t : Text) → includes t 0 ≡ false → includes (two_encode t) 0 ≡ false
unfolding two_encode includes
two_encode-no_zero [] h = refl
two_encode-no_zero (a ∷ s) h = ground (arith, two_encode-no_zero s)

abbrev two_bytes : Utf8
two_bytes = record {
  encode = two_encode;
  decode = two_decode;
  decode_fatal = (λ b. some (two_decode b));
}

two_bytes_laws : Utf8Laws two_bytes
two_bytes_laws = record {
  encode-ascii = two_encode-ascii;
  decode-encode = (λ t h. two_decode-encode t);
  decode_fatal-encode = (λ t h. ap some (two_decode-encode t));
  encode-no_zero = two_encode-no_zero;
}

abbrev files : List TarFile
files =
    record { path = text "akua.toml"; content = 1 ∷ 2 ∷ 0 ∷ []; mode = 0o644 }
    ∷ record { path = text "charts/" ++ replicate 110 b'a'; content = []; mode = 0o755 }
    ∷ []

files-IsPackable : All (IsPackable two_bytes two_bytes_laws) files
unfolding entry_path is_paired includes two_encode text_eq split_by join starts_with
files-IsPackable = (
  (refl, refl, refl, omega arith, inl (omega arith)),
  (
    (
      refl,
      refl,
      refl,
      omega arith,
      inr (IsAscii-of_all (text "charts/" ++ replicate 110 b'a') refl, omega arith),
    ),
    tt,
  ),
)

-- a short name and one of 117 bytes, which takes a pax record
untar-tar_example : untar two_bytes (tar two_bytes files) ≡ ok (map entry_of_file files)
untar-tar_example = untar-tar two_bytes two_bytes_laws files files-IsPackable

untar-IsContained_example : All IsContained (map entry_of_file files)
untar-IsContained_example =
    untar-IsContained two_bytes (tar two_bytes files) (map entry_of_file files)
      (untar-tar two_bytes two_bytes_laws files files-IsPackable)

abbrev garbage : Bytes
garbage = replicate 600 1

untar-Outcome_example : Outcome (λ entries. entries) 600 (untar two_bytes garbage)
untar-Outcome_example = untar-Outcome two_bytes garbage

pax_length-fixed_example :
    (digit_count (pax_length 98) + 98 ≡ pax_length 98) × (pax_length 98 ≤ 2 * 98 + 10)
pax_length-fixed_example = pax_length-fixed 98

-- a body of 98 bytes: 100 digits and bytes with two digits would be 100, which has three
pax_length_98 : pax_length 98 ≡ 101
unfolding length_from digits_from
pax_length_98 = refl

abbrev delivered : Bytes → Chunks
delivered source = chunk (1 ∷ 2 ∷ []) (chunk (3 ∷ []) end)

gunzip-ok_iff_example :
    (gunzip delivered 3 (0x1f ∷ []) ≡ ok (1 ∷ 2 ∷ 3 ∷ []))
    ↔ ((contents (delivered (0x1f ∷ [])) ≡ some (1 ∷ 2 ∷ 3 ∷ [])) × (3 ≤ 3))
gunzip-ok_iff_example = gunzip-ok_iff delivered 3 (0x1f ∷ []) (1 ∷ 2 ∷ 3 ∷ [])

-- a name with a letter that takes two bytes
abbrev accented : Text
accented = replicate 100 b'a' ++ 0xe9 ∷ []

accented-is_scalar :
    is_scalar (decimal (pax_length (length (two_encode (pax_body accented)))) ++ pax_body accented)
    ≡ true
unfolding length_from digits_from two_encode is_paired
accented-is_scalar = refl

path_not_ascii_example :
    record_named (text "path") (pax_records (two_decode (pax_path two_bytes accented)))
    ≡ some (accented ++ 0x0a ∷ [])
unfolding two_encode
path_not_ascii_example =
    path_not_ascii two_bytes two_bytes_laws accented accented-is_scalar (omega arith) (omega arith)
