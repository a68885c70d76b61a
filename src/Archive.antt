-- ===== src/Archive.antt =====
-- host/src/archive.ts: tar and gzip archives, written and read. Bytes are numbers; the platform's UTF-8
-- encoder and decoders are an interface, its deflate, checksum and decompression are arguments.
pub mod Pax
pub mod Untar
pub mod Write
pub mod Gzip
pub mod Blocks
pub mod Numbers
pub mod Headers
pub mod Members
pub mod Lengths
pub mod RoundTrip
pub mod Names
pub mod Contained
pub mod Outcomes
pub mod Limit
mod Tests
use akuapkg.Common.{
  ℕ, zero, suc, ◌+◌, ◌-◌, ◌*◌, ◌/◌, ◌%◌, ◌<◌, ◌≡◌, Text, text, text_eq, split, join, starts_with,
  includes, cut, Bool, true, false, not, ◌&&◌, ◌||◌, Option, none, some, or_else, List, [], ◌∷◌,
  ◌++◌, map, any, all, filter, length, take, drop, replicate, All, ◌==◌, ltb, leb, if◌then◌else◌,
}
use akuapkg.Common.Result.{Result, ok, err, ◌>>=◌, ◌>>◌, fail_if}
use akuapkg.Toml.Document.{decimal}

abbrev pub Bytes : Type 0
Bytes = List ℕ

-- the platform's `TextEncoder`, its `TextDecoder`, and the one with `fatal`
pub record Utf8 : Type 0 where
  pub encode : Text → Bytes
  pub decode : Bytes → Text
  pub decode_fatal : Bytes → Option Text

abbrev pub IsAscii : Text → Type 0
IsAscii = All (λ c. c < 128)

abbrev is_high : ℕ → Bool
is_high c = leb 0xd800 c && ltb c 0xdc00

abbrev is_low : ℕ → Bool
is_low c = leb 0xdc00 c && ltb c 0xe000

-- every surrogate is half of a pair
unfoldable pub is_paired : Text → Bool
is_paired [] = true
is_paired (c ∷ []) = not (is_high c || is_low c)
is_paired (c ∷ d ∷ s) =
    if is_high c then is_low d && is_paired s else not (is_low c) && is_paired (d ∷ s)

-- text that UTF-8 can hold, and that does not begin with the mark that a decoder drops
abbrev pub is_scalar : Text → Bool
is_scalar [] = true
is_scalar (c ∷ s) = not (c == 0xfeff) && is_paired (c ∷ s)

-- what the encoding standard says of them
pub record Utf8Laws (utf8 : Utf8) : Type 0 where
  pub encode-ascii : (t : Text) → IsAscii t → utf8.encode t ≡ t
  pub decode-encode : (t : Text) → is_scalar t ≡ true → utf8.decode (utf8.encode t) ≡ t
  pub decode_fatal-encode :
      (t : Text) → is_scalar t ≡ true → utf8.decode_fatal (utf8.encode t) ≡ some t
  pub encode-no_zero : (t : Text) → includes t 0 ≡ false → includes (utf8.encode t) 0 ≡ false

pub record ArchiveEntry : Type 0 where
  pub path : Text
  -- the field `data`
  pub content : Bytes

-- the messages of an `ArchiveInvalid`; `out_of_fuel` is none of the code's
pub data ArchiveProblem : Type 0 where
  decompressing : Text → ArchiveProblem
  too_large : ℕ → ArchiveProblem
  truncated not_utf8 : ArchiveProblem
  escapes : Text → ArchiveProblem
  out_of_fuel : ArchiveProblem

-- `bytes` up to the first zero
unfoldable pub before_zero : Bytes → Bytes
before_zero [] = []
before_zero (b ∷ bytes) = if b == 0 then [] else b ∷ before_zero bytes

abbrev pub slice : Bytes → ℕ → ℕ → Bytes
slice block offset count = take count (drop offset block)

abbrev pub field : Bytes → ℕ → ℕ → Bytes
field block offset count = before_zero (slice block offset count)

-- the white space that `trim` removes
unfoldable pub is_space : ℕ → Bool
is_space c =
    (leb 9 c && leb c 13)
    || c == 32
    || c == 0xa0
    || c == 0x1680
    || (leb 0x2000 c && leb c 0x200a)
    || c == 0x2028
    || c == 0x2029
    || c == 0x202f
    || c == 0x205f
    || c == 0x3000
    || c == 0xfeff

unfoldable pub trim_start : Text → Text
trim_start [] = []
trim_start (c ∷ s) = let rest = trim_start s in if is_space c then rest else c ∷ s

unfoldable pub trim_end : Text → Text
trim_end [] = []
trim_end (c ∷ s) = let rest = trim_end s in if is_space c && text_eq rest [] then [] else c ∷ rest

abbrev pub or_nought : Option ℕ → ℕ
or_nought none = 0
or_nought (some n) = n

-- the digits that `parseInt` reads, with the number so far
unfoldable pub read_digits : ℕ → Option ℕ → Text → Option ℕ
read_digits radix so_far [] = so_far
read_digits radix so_far (c ∷ s) =
    let more = read_digits radix (some (or_nought so_far * radix + (c - 48))) s in
    if leb 48 c && ltb (c - 48) radix then more else so_far

abbrev negated : Option ℕ → Option ℕ
negated none = none
negated (some zero) = some 0
negated (some (suc n)) = none

-- `parseInt` of a text without white space before it, for a radix up to 10: nothing for NaN and for a
-- number below zero, which the code treats alike
unfoldable pub parse_int : ℕ → Text → Option ℕ
parse_int radix [] = none
parse_int radix (c ∷ s) =
    if c == b'-'
    then negated (read_digits radix none s)
    else if c == b'+'
    then read_digits radix none s
    else read_digits radix none (c ∷ s)

abbrev or_zero : Text → Text
or_zero [] = text "0"
or_zero (c ∷ s) = c ∷ s

module _ (utf8 : Utf8) where
  -- `octal` of a header's field
  unfoldable pub octal : Bytes → ℕ → ℕ → Option ℕ
  octal block offset count =
      parse_int 8 (or_zero (trim_end (trim_start (utf8.decode (field block offset count)))))

abbrev pub is_named : Text → Bool
is_named part = not (text_eq part [] || text_eq part (text "."))

abbrev pub slashes : Text → Text
slashes raw = map (λ c. if c == b'\\' then b'/' else c) raw

abbrev pub raw_parts : Text → List Text
raw_parts raw = filter is_named (split b'/' (slashes raw))

abbrev pub has_none : List Text → Bool
has_none [] = true
has_none (part ∷ parts) = false

abbrev pub is_escape : Text → Bool
is_escape raw =
    starts_with raw (text "/")
    || any (λ part. text_eq part (text "..")) (raw_parts raw)
    || has_none (raw_parts raw)

unfoldable pub entry_path : Text → Option Text
entry_path raw = if is_escape raw then none else some (join b'/' (raw_parts raw))
