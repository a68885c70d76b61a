-- ===== src/Archive/RoundTrip.antt =====
-- What `tar` writes, `untar` reads.
use mathlib.Core.List.{append_assoc}
use akuapkg.Common.{
  ℕ, zero, suc, ◌≤◌, ◌<◌, ◌≡◌, ◌⊎◌, refl, ap, ◌∙◌, Text, text, text_eq, includes, true, false, none,
  some, List, [], ◌∷◌, ◌++◌, map, All, length, length-append, replicate, ltb, arith, Bool-cases,
  inl, inr,
}
use akuapkg.Common.Result.{Result, ok, err, ◌>>=◌}
use akuapkg.Archive.{
  Bytes, Utf8, Utf8Laws, IsAscii, is_scalar, entry_path, ArchiveEntry, ArchiveProblem,
}
use akuapkg.Archive.Pax.{pax_records}
use akuapkg.Archive.Untar.{
  nth, next_member, member_at, Pending, nothing_pending, pax_path_of, raw_name, prefix_of, type_of,
  member, entry_of, untar_from, untar,
}
use akuapkg.Archive.Write.{
  TarFile, tar_header, padded, pax_path, pax_member, file_member, tar_file, tar, tar_block,
}
use akuapkg.Archive.Blocks.{length-block_bytes}
use akuapkg.Archive.Numbers.{IsAscii-of_all}
use akuapkg.Archive.Headers.{field_name, field_prefix, type_of_header, magic}
use akuapkg.Archive.Members.{next_member-written}
use akuapkg.Archive.Names.{path_ascii, length-pax_path}

abbrev pub entry_of_file : TarFile → ArchiveEntry
entry_of_file file = record { path = file.path; content = file.content }

bind-ok : (r : Result ArchiveProblem (List ArchiveEntry)) → (r >>= λ later. ok ([] ++ later)) ≡ r
bind-ok (ok entries) = refl
bind-ok (err problem) = refl

module _ (utf8 : Utf8) (laws : Utf8Laws utf8) where
  -- a relative path of plain names, with content below 8 GiB; a name over 100 bytes is ASCII
  abbrev pub IsPackable : TarFile → Type 0
  IsPackable file =
      (entry_path file.path ≡ some file.path)
      × (is_scalar file.path ≡ true)
      × (includes file.path 0 ≡ false)
      × (length file.content < 8589934592)
      × ((length (utf8.encode file.path) ≤ 100)
          ⊎ (IsAscii file.path × (length file.path < 1000000000)))

  file_type :
      (file : TarFile)
      → type_of (tar_header utf8 (utf8.encode file.path) (length file.content) file.mode (text "0"))
        ≡ b'0'
  unfolding nth
  file_type file =
      type_of_header utf8 (utf8.encode file.path) (length file.content) file.mode (text "0")
      ∙ ap (nth 0) (laws.encode-ascii (text "0") (IsAscii-of_all (text "0") refl))

  -- a file's member is read as the file, whichever way its name is given
  member-file :
      (file : TarFile) (pending : Pending)
      → entry_path file.path ≡ some file.path
      → raw_name utf8 pending
          (tar_header utf8 (utf8.encode file.path) (length file.content) file.mode (text "0"))
        ≡ ok file.path
      → member utf8 pending
          (tar_header utf8 (utf8.encode file.path) (length file.content) file.mode (text "0"))
          file.content
        ≡ ok (nothing_pending, entry_of_file file ∷ [])
  unfolding member entry_of
  member-file file pending h k = rw (file_type file) (rw k (rw (h, entry_of) refl))

  name_of_header :
      (file : TarFile)
      → is_scalar file.path ≡ true
      → includes file.path 0 ≡ false
      → length (utf8.encode file.path) ≤ 100
      → raw_name utf8 nothing_pending
          (tar_header utf8 (utf8.encode file.path) (length file.content) file.mode (text "0"))
        ≡ ok file.path
  unfolding raw_name prefix_of text_eq
  name_of_header file scalar z short =
      let name = utf8.encode file.path in
      rw (magic utf8 name (length file.content) file.mode (text "0") laws) (
        rw (field_prefix utf8 name (length file.content) file.mode (text "0")) (
          rw
            (field_name utf8 name (length file.content) file.mode (text "0") short
              (laws.encode-no_zero file.path z))
            (rw (laws.decode_fatal-encode file.path scalar) refl)))

  type_of_record :
      (name : Bytes) (size : ℕ) → type_of (tar_header utf8 name size 0o644 (text "x")) ≡ b'x'
  unfolding nth
  type_of_record name size =
      type_of_header utf8 name size 0o644 (text "x")
      ∙ ap (nth 0) (laws.encode-ascii (text "x") (IsAscii-of_all (text "x") refl))

  abbrev pending_record : Text → Pending
  pending_record name = record {
    long_name = none;
    pax = some (pax_records (utf8.decode (pax_path utf8 name)));
  }

  member-record :
      (name : Text) (bytes : Bytes) (size : ℕ)
      → member utf8 nothing_pending
          (tar_header utf8 bytes size 0o644 (text "x"))
          (pax_path utf8 name)
        ≡ ok (pending_record name, [])
  unfolding member
  member-record name bytes size = rw (type_of_record bytes size) refl

  raw_name_found :
      (pending : Pending) (header : Bytes) (name : Text)
      → pax_path_of pending.pax ≡ some name
      → raw_name utf8 pending header ≡ ok name
  unfolding raw_name
  raw_name_found pending header name h = rw (h, raw_name) refl

  name_of_record :
      (name : Text) (header : Bytes)
      → IsAscii name
      → length name < 1000000000
      → raw_name utf8 (pending_record name) header ≡ ok name
  name_of_record name header h few =
      raw_name_found (pending_record name) header name (path_ascii utf8 laws name h few)

  -- one round of the loop
  untar_step :
      (fuel : ℕ) (pending after : Pending) (rest header content more : Bytes)
      (entries : List ArchiveEntry)
      → next_member utf8 rest ≡ member_at header content more
      → member utf8 pending header content ≡ ok (after, entries)
      → untar_from utf8 (suc fuel) pending rest
        ≡ (untar_from utf8 fuel after more >>= λ later. ok (entries ++ later))
  unfolding untar_from
  untar_step fuel pending after rest header content more entries h k =
      rw (h, untar_from) (rw (k, untar_from) refl)

  untar_end : (fuel : ℕ) → untar_from utf8 (suc fuel) nothing_pending (replicate 1024 0) ≡ ok []
  unfolding untar_from next_member
  untar_end fuel = refl

  -- a file's own member, whichever way its name is given
  read_file :
      (fuel : ℕ) (pending : Pending) (file : TarFile) (rest : Bytes)
      → entry_path file.path ≡ some file.path
      → length file.content < 8589934592
      → raw_name utf8 pending
          (tar_header utf8 (utf8.encode file.path) (length file.content) file.mode (text "0"))
        ≡ ok file.path
      → untar_from utf8 (suc fuel) pending (file_member utf8 file ++ rest)
        ≡ (untar_from utf8 fuel nothing_pending rest >>= λ later. ok (entry_of_file file ∷ later))
  read_file fuel pending file rest plain small named =
      ap (untar_from utf8 (suc fuel) pending) (append_assoc _ (padded file.content) rest)
      ∙ untar_step fuel pending nothing_pending _ _ file.content rest (entry_of_file file ∷ [])
          (next_member-written utf8 laws (utf8.encode file.path) file.mode (text "0") file.content
            rest small)
          (member-file file pending plain named)

  read_long :
      (fuel : ℕ) (file : TarFile) (rest : Bytes)
      → IsAscii file.path
      → length file.path < 1000000000
      → entry_path file.path ≡ some file.path
      → length file.content < 8589934592
      → untar_from utf8
          (suc (suc fuel))
          nothing_pending
          ((pax_member utf8 file ++ file_member utf8 file) ++ rest)
        ≡ (untar_from utf8 fuel nothing_pending rest >>= λ later. ok (entry_of_file file ∷ later))
  read_long fuel file rest ascii short plain small =
      let bytes = utf8.encode (text "PaxHeader/" ++ file.path) in
      let record' = pax_path utf8 file.path in
      ap (untar_from utf8 (suc (suc fuel)) nothing_pending) (
        append_assoc (pax_member utf8 file) (file_member utf8 file) rest
        ∙ append_assoc (tar_header utf8 bytes (length record') 0o644 (text "x")) (padded record')
            (file_member utf8 file ++ rest))
      ∙ untar_step (suc fuel) nothing_pending (pending_record file.path) _ _ record'
          (file_member utf8 file ++ rest) []
          (next_member-written utf8 laws bytes 0o644 (text "x") record'
            (file_member utf8 file ++ rest)
            (omega (arith, length-pax_path utf8 laws file.path ascii)))
          (member-record file.path bytes (length record'))
      ∙ bind-ok
          (untar_from utf8 (suc fuel) (pending_record file.path) (file_member utf8 file ++ rest))
      ∙ read_file fuel (pending_record file.path) file rest plain small
          (name_of_record file.path _ ascii short)

  long_header :
      (name : Bytes) (size mode : ℕ) (type : Text)
      → length (tar_header utf8 name size mode type) ≡ 512
  long_header name size mode type = length-block_bytes (tar_block utf8 name size mode type) 0 512

  file_member-long : (file : TarFile) → 512 ≤ length (file_member utf8 file)
  file_member-long file = omega (
    arith,
    length-append {0}
        (tar_header utf8 (utf8.encode file.path) (length file.content) file.mode (text "0"))
        (padded file.content),
    long_header (utf8.encode file.path) (length file.content) file.mode (text "0"),
  )

  tar_file-long : (file : TarFile) → 512 ≤ length (tar_file utf8 file)
  tar_file-long file = ground (
    arith,
    file_member-long file,
    length-append {0} (pax_member utf8 file) (file_member utf8 file),
  )

  read_member :
      (fuel : ℕ) (file : TarFile) (rest : Bytes)
      → IsPackable file
      → (fewer : ℕ) × (fuel ≤ fewer)
        × (untar_from utf8 (suc (suc fuel)) nothing_pending (tar_file utf8 file ++ rest) ≡ (
            untar_from utf8 fewer nothing_pending rest >>= λ later.
            ok (entry_of_file file ∷ later)))
  read_member fuel file rest (plain, scalar, no_zero, small, way) =
      elim (Bool-cases (ltb 100 (length (utf8.encode file.path)))) [
        | inl e ↦ elim way [
          | inl short ↦ absurd (ground arith)
          | inr (ascii, few) ↦
              (fuel, omega arith, rw e (read_long fuel file rest ascii few plain small))
        ]
        | inr e ↦ (
          suc fuel,
          omega arith,
          rw e (
              read_file (suc fuel) nothing_pending file rest plain small
                (name_of_header file scalar no_zero (ground arith))),
        )
      ]

  untar_from-tar :
      (fuel : ℕ) (files : List TarFile)
      → All IsPackable files
      → length (tar utf8 files) < fuel
      → untar_from utf8 fuel nothing_pending (tar utf8 files) ≡ ok (map entry_of_file files)
  unfolding tar
  untar_from-tar zero files h k = absurd (omega arith)
  untar_from-tar (suc zero) [] h k = untar_end zero
  untar_from-tar (suc (suc fuel)) [] h k = untar_end (suc fuel)
  untar_from-tar (suc zero) (file ∷ files) h k =
      absurd
        (omega (arith, length-append {0} (tar_file utf8 file) (tar utf8 files), tar_file-long file))
  untar_from-tar (suc (suc fuel)) (file ∷ files) (packable, h) k =
      let (fewer, enough, step) = read_member fuel file (tar utf8 files) packable in
      step
      ∙ rw
          (untar_from-tar fewer files h (
            omega
              (arith, length-append {0} (tar_file utf8 file) (tar utf8 files), tar_file-long file)))
          refl

  -- Any list of files, each with a path that the reader's `entryPath` leaves as it is, that has no zero,
  -- no lone surrogate and no byte order mark in front, and that takes at most 100 bytes or is ASCII and
  -- shorter than 10^9, and each with content below 8 GiB, is read back from the archive that `tar` makes
  -- of it: the same paths and contents, in the same order, and no error.
  pub untar-tar :
      (files : List TarFile)
      → All IsPackable files
      → untar utf8 (tar utf8 files) ≡ ok (map entry_of_file files)
  untar-tar files h = untar_from-tar (suc (length (tar utf8 files))) files h (omega arith)
