-- ===== src/Archive/Untar.antt =====
-- host/src/archive.ts: the loop of `untar`, one member after another.
use akuapkg.Common.{
  ℕ, zero, suc, ◌+◌, ◌*◌, ◌/◌, Text, text, text_eq, Bool, ◌||◌, Option, none, some, or_else, List,
  [], ◌∷◌, ◌++◌, all, length, take, drop, ◌==◌, ltb, if◌then◌else◌,
}
use akuapkg.Common.Result.{Result, ok, err, ◌>>=◌}
use akuapkg.Archive.{
  Bytes, Utf8, ArchiveEntry, ArchiveProblem, truncated, not_utf8, escapes, out_of_fuel, before_zero,
  slice, field, octal, entry_path,
}
use akuapkg.Archive.Pax.{Records, record_named, pax_records}

-- `longName` and `pax` between two members
pub record Pending : Type 0 where
  pub long_name : Option Text
  pub pax : Option Records

abbrev pub nothing_pending : Pending
nothing_pending = record { long_name = none; pax = none }

unfoldable pub nth : ℕ → Bytes → ℕ
nth i [] = 0
nth zero (b ∷ bytes) = b
nth (suc i) (b ∷ bytes) = nth i bytes

abbrev pub type_of : Bytes → ℕ
type_of header = nth 156 header

abbrev pub decoded : Option Text → Result ArchiveProblem Text
decoded none = err not_utf8
decoded (some s) = ok s

abbrev pub pax_path_of : Option Records → Option Text
pax_path_of none = none
pax_path_of (some records) = record_named (text "path") records

abbrev pub is_file : ℕ → Bool
is_file type = type == b'0' || type == 0 || type == b'7'

-- `Math.ceil(size / 512) * 512`
abbrev pub rounded : ℕ → ℕ
rounded size = (size + 511) / 512 * 512

-- the next member of what is left of an archive: its header, its content, and the rest
pub data Next : Type 0 where
  finished broken : Next
  member_at : Bytes → Bytes → Bytes → Next

abbrev pub with_size : Bytes → Option ℕ → Next
with_size rest none = broken
with_size rest (some size) =
    if ltb (length rest) (512 + size)
    then broken
    else member_at (take 512 rest) (take size (drop 512 rest)) (drop (512 + rounded size) rest)

unfoldable pub entry_of : Text → Bytes → Result ArchiveProblem (Pending × List ArchiveEntry)
entry_of raw content = elim (entry_path raw) [
  | none ↦ err (escapes raw)
  | some path ↦ ok (nothing_pending, record { path = path; content = content } ∷ [])
]

module _ (utf8 : Utf8) where
  unfoldable pub prefix_of : Bytes → Bytes
  prefix_of header =
      if text_eq (utf8.decode (slice header 257 5)) (text "ustar") then field header 345 155 else []

  abbrev pub header_name : Bytes → Bytes → Result ArchiveProblem Text
  header_name [] name = decoded (utf8.decode_fatal name)
  header_name (b ∷ before) name = do
    directory ← decoded (utf8.decode_fatal (b ∷ before))
    base ← decoded (utf8.decode_fatal name)
    ok (directory ++ (text "/" ++ base))

  -- the name of a member: of the pax records, else the long one, else of the header
  unfoldable pub raw_name : Pending → Bytes → Result ArchiveProblem Text
  raw_name pending header = elim (or_else (pax_path_of pending.pax) pending.long_name) [
    | some name ↦ ok name
    | none ↦ header_name (prefix_of header) (field header 0 100)
  ]

  abbrev pub plain_member :
      Pending → Bytes → Bytes → Result ArchiveProblem (Pending × List ArchiveEntry)
  plain_member pending header content = do
    raw ← raw_name pending header
    if is_file (type_of header) then entry_of raw content else ok (nothing_pending, [])

  -- what one member leaves pending, and the entries it adds
  unfoldable pub member :
      Pending → Bytes → Bytes → Result ArchiveProblem (Pending × List ArchiveEntry)
  member pending header content =
      if type_of header == b'x'
      then ok (record pending { pax = some (pax_records (utf8.decode content)) }, [])
      else if type_of header == b'g'
      then ok (pending, [])
      else if type_of header == b'L'
      then ok (record pending { long_name = some (utf8.decode (before_zero content)) }, [])
      else plain_member pending header content

  unfoldable pub next_member : Bytes → Next
  next_member rest =
      if ltb (length rest) 512 || all (λ b. b == 0) (take 512 rest)
      then finished
      else with_size rest (octal utf8 (take 512 rest) 124 12)

  -- the loop of `untar`; a round takes 512 bytes at least
  unfoldable pub untar_from : ℕ → Pending → Bytes → Result ArchiveProblem (List ArchiveEntry)
  untar_from zero pending rest = err out_of_fuel
  untar_from (suc fuel) pending rest = elim (next_member rest) [
    | finished ↦ ok []
    | broken ↦ err truncated
    | member_at header content after ↦ do
      done ← member pending header content
      later ← untar_from fuel done.0 after
      ok (done.1 ++ later)
  ]

  abbrev pub untar : Bytes → Result ArchiveProblem (List ArchiveEntry)
  untar bytes = untar_from (suc (length bytes)) nothing_pending bytes
