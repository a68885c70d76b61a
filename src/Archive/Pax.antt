-- ===== src/Archive/Pax.antt =====
-- host/src/archive.ts: pax records.
use akuapkg.Common.{
  ℕ, zero, suc, ◌+◌, ◌-◌, Text, text_eq, cut, Option, none, some, List, [], ◌∷◌, length, take, drop,
  if◌then◌else◌, ◌^◌, ltb,
}
use akuapkg.Archive.{trim_start, parse_int}

abbrev pub Records : Type 0
Records = List (Text × Text)

-- a later record of the same name comes first
unfoldable pub record_named : Text → Records → Option Text
record_named name [] = none
record_named name ((key, value) ∷ rest) =
    let later = record_named name rest in if text_eq key name then some value else later

-- `equals > 0`: a record without a name is left out
unfoldable pub with_record : Text → Records → Records
with_record item records = elim (cut b'=' item) [
  | none ↦ records
  | some halves ↦ if text_eq halves.0 [] then records else halves ∷ records
]

-- from here on, the nearest double of a number is Infinity
unfoldable pub infinite : ℕ
infinite = 2 ^ 1024 - 2 ^ 970

-- `Number.parseInt(digits, 10)` where it is finite; a text is too short for the numbers that a double
-- rounds to matter
unfoldable pub pax_number : Text → Option ℕ
pax_number digits = elim (parse_int 10 (trim_start digits)) [
  | none ↦ none
  | some n ↦ if ltb n infinite then some n else none
]

-- the loop of `paxRecords` on what is left of the text; a round takes one character at least, so
-- the text's length is fuel enough
unfoldable pub pax_from : ℕ → Records → Text → Records
pax_from zero records rest = records
pax_from (suc fuel) records rest = elim (cut b' ' rest) [
  | none ↦ records
  | some halves ↦ elim (pax_number halves.0) [
    | none ↦ records
    | some zero ↦ records
    | some (suc n) ↦
        pax_from fuel (with_record (take (n - (length halves.0 + 1)) halves.1) records)
          (drop (suc n) rest)
  ]
]

abbrev pub pax_records : Text → Records
pax_records source = pax_from (length source) [] source
