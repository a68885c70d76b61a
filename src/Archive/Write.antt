-- ===== src/Archive/Write.antt =====
-- host/src/archive.ts: `tar`, one 512-byte header and padded content for each file. A header is a
-- function from positions to bytes.
use akuapkg.Common.{
  ℕ, zero, suc, ◌+◌, ◌-◌, ◌/◌, ◌%◌, Text, text, ◌&&◌, List, [], ◌∷◌, ◌++◌, length, replicate, true,
  false, ◌==◌, ltb, leb, if◌then◌else◌,
}
use akuapkg.Toml.Document.{decimal}
use akuapkg.Archive.{Bytes, Utf8}
use akuapkg.Archive.Untar.{nth, rounded}

pub record TarFile : Type 0 where
  pub path : Text
  -- the field `data`
  pub content : Bytes
  pub mode : ℕ

-- `toString(8)`, on fuel: a number has fewer octal digits than itself, but for zero
unfoldable pub octal_from : ℕ → ℕ → Text → Text
octal_from zero n out = out
octal_from (suc fuel) n out = elim (ltb n 8) [
  | true ↦ (48 + n) ∷ out
  | false ↦ octal_from fuel (n / 8) ((48 + n % 8) ∷ out)
]

abbrev pub to_octal : ℕ → Text
to_octal n = octal_from (suc n) n []

-- `padStart(width, "0")`
abbrev pub pad_start : ℕ → Text → Text
pad_start width s = replicate (width - length s) b'0' ++ s

abbrev pub octal_text : ℕ → ℕ → Text
octal_text value count = pad_start (count - 1) (to_octal value) ++ 0 ∷ []

abbrev pub Block : Type 0
Block = ℕ → ℕ

-- `block.set(bytes.subarray(0, count), offset)`
abbrev pub put : Bytes → ℕ → ℕ → Block → Block
put bytes offset count block i =
    if leb offset i && ltb i (offset + count) && ltb (i - offset) (length bytes)
    then nth (i - offset) bytes
    else block i

-- `count` bytes of a block from position `i`
unfoldable pub block_bytes : Block → ℕ → ℕ → Bytes
block_bytes block i zero = []
block_bytes block i (suc count) = block i ∷ block_bytes block (suc i) count

unfoldable pub sum : Bytes → ℕ
sum [] = 0
sum (b ∷ bytes) = b + sum bytes

abbrev pub checksum_text : ℕ → Text
checksum_text checksum = pad_start 6 (to_octal checksum) ++ 0 ∷ 32 ∷ []

abbrev pub padded : Bytes → Bytes
padded content = content ++ replicate (rounded (length content) - length content) 0

abbrev pub pax_body : Text → Text
pax_body name = text " path=" ++ (name ++ 0x0a ∷ [])

abbrev pub digit_count : ℕ → ℕ
digit_count n = length (decimal n)

-- the loop of `paxPath`, which looks for a length that counts itself
unfoldable pub length_from : ℕ → ℕ → ℕ → ℕ
length_from zero body count = count
length_from (suc fuel) body count = elim (digit_count count + body == count) [
  | true ↦ count
  | false ↦ length_from fuel body (digit_count count + body)
]

-- as many rounds as the body has bytes are enough
abbrev pub pax_length : ℕ → ℕ
pax_length body = length_from (body + 10) body (body + 1)

module _ (utf8 : Utf8) where
  -- the header before its checksum, which counts as spaces
  unfoldable pub unsummed : Bytes → ℕ → ℕ → Text → Block
  unsummed name size mode type = put (utf8.encode (text "00")) 263 2 (
      put (utf8.encode (text "ustar" ++ 0 ∷ [])) 257 6 (
        put (utf8.encode type) 156 1 (
          put (utf8.encode (text "        ")) 148 8 (
            put (utf8.encode (octal_text 0 12)) 136 12 (
              put (utf8.encode (octal_text size 12)) 124 12 (
                put (utf8.encode (octal_text 0 8)) 116 8 (
                  put (utf8.encode (octal_text 0 8)) 108 8
                    (put (utf8.encode (octal_text mode 8)) 100 8 (put name 0 100 (λ i. 0))))))))))

  unfoldable pub tar_block : Bytes → ℕ → ℕ → Text → Block
  tar_block name size mode type =
      let block = unsummed name size mode type in
      put (utf8.encode (checksum_text (sum (block_bytes block 0 512)))) 148 8 block

  abbrev pub tar_header : Bytes → ℕ → ℕ → Text → Bytes
  tar_header name size mode type = block_bytes (tar_block name size mode type) 0 512

  unfoldable pub pax_path : Text → Bytes
  pax_path name =
      utf8.encode (decimal (pax_length (length (utf8.encode (pax_body name)))) ++ pax_body name)

  abbrev pub pax_member : TarFile → Bytes
  pax_member file =
      let record' = pax_path file.path in
      tar_header (utf8.encode (text "PaxHeader/" ++ file.path)) (length record') 0o644 (text "x")
      ++ padded record'

  abbrev pub file_member : TarFile → Bytes
  file_member file =
      tar_header (utf8.encode file.path) (length file.content) file.mode (text "0")
      ++ padded file.content

  abbrev pub tar_file : TarFile → Bytes
  tar_file file =
      if ltb 100 (length (utf8.encode file.path))
      then pax_member file ++ file_member file
      else file_member file

  unfoldable pub tar : List TarFile → Bytes
  tar [] = replicate 1024 0
  tar (file ∷ files) = tar_file file ++ tar files
