-- ===== src/Archive/Outcomes.antt =====
-- How `untar` ends: with entries or with an error of its own, on every input.
use akuapkg.Common.{
  ℕ, zero, suc, ◌+◌, ◌*◌, ◌≤◌, ◌<◌, ◌≡◌, subst, Text, Bool, false, ◌||◌, Option, none, some,
  or_else, all, List, [], ◌∷◌, length, length-append, length-drop, take, drop, ltb, arith,
  Bool-cases, Option-cases, inl, inr, ◌==◌,
}
use akuapkg.Common.Result.{Result, ok, err, ◌>>=◌}
use akuapkg.Archive.{
  Bytes, Utf8, ArchiveEntry, ArchiveProblem, decompressing, too_large, truncated, not_utf8, escapes,
  out_of_fuel, entry_path, field, octal,
}
use akuapkg.Archive.Untar.{
  entry_of, member, raw_name, decoded, pax_path_of, header_name, prefix_of, nothing_pending,
  is_file, type_of, Pending, next_member, rounded, Next, finished, broken, member_at, untar_from,
  untar,
}
use akuapkg.Archive.Contained.{Next-cases}

-- the errors that reading an archive may end with
abbrev pub IsReading : ArchiveProblem → Type 0
IsReading (decompressing cause) = ⊥
IsReading (too_large limit) = ⊥
IsReading truncated = Unit
IsReading not_utf8 = Unit
IsReading (escapes raw) = entry_path raw ≡ none
IsReading out_of_fuel = ⊥

-- an error of those, or at most one entry for each 512 bytes
abbrev pub Outcome {ℓ} :
    {A : Type ℓ} → (A → List ArchiveEntry) → ℕ → Result ArchiveProblem A → Type 0
Outcome entries size (err problem) = IsReading problem
Outcome entries size (ok value) = 512 * length (entries value) ≤ size

Outcome-bind {ℓ κ} :
    {A : Type ℓ} {B : Type κ} (entries : A → List ArchiveEntry) (others : B → List ArchiveEntry)
    (m n : ℕ)
    → (r : Result ArchiveProblem A) (next : A → Result ArchiveProblem B) → Outcome entries m r
    → ((value : A) → 512 * length (entries value) ≤ m → Outcome others n (next value))
    → Outcome others n (r >>= next)
Outcome-bind entries others m n (err problem) next h k = h
Outcome-bind entries others m n (ok value) next h k = k value h

abbrev no_entries : Text → List ArchiveEntry
no_entries name = []

abbrev added : Pending × List ArchiveEntry → List ArchiveEntry
added done = done.1

decoded-Outcome : (o : Option Text) → Outcome no_entries 0 (decoded o)
decoded-Outcome none = tt
decoded-Outcome (some s) = omega arith

entry_of-Outcome : (raw : Text) (content : Bytes) → Outcome added 512 (entry_of raw content)
unfolding entry_of
entry_of-Outcome raw content = elim (Option-cases (entry_path raw)) [
  | inl e ↦ rw (e, entry_of) e
  | inr (path, e) ↦ rw (e, entry_of) (omega arith)
]

-- what is left behind a member is shorter by its header
abbrev Shorter : ℕ → Next → Type 0
Shorter size finished = Unit
Shorter size broken = Unit
Shorter size (member_at header content more) = 512 + length more ≤ size

or_false : (a b : Bool) → (a || b) ≡ false → a ≡ false
or_false a b h = ground arith

not_less : (a b : ℕ) → ltb a b ≡ false → b ≤ a
not_less a b h = ground arith

long_enough :
    (rest : Bytes) (n : ℕ)
    → ltb (length rest) 512 ≡ false
    → 512 ≤ n
    → 512 + length (drop n rest) ≤ length rest
long_enough rest n h k = omega (arith, length-drop n rest, (not_less (length rest) 512 h))

module _ (utf8 : Utf8) where
  header_name-Outcome : (before name : Bytes) → Outcome no_entries 0 (header_name utf8 before name)
  header_name-Outcome [] name = decoded-Outcome (utf8.decode_fatal name)
  header_name-Outcome (b ∷ before) name =
      Outcome-bind no_entries no_entries 0 0 (decoded (utf8.decode_fatal (b ∷ before))) _
        (decoded-Outcome (utf8.decode_fatal (b ∷ before)))
        (λ directory h.
          Outcome-bind no_entries no_entries 0 0 (decoded (utf8.decode_fatal name)) _
            (decoded-Outcome (utf8.decode_fatal name)) (λ base k. omega arith))

  raw_name-Outcome :
      (pending : Pending) (header : Bytes) → Outcome no_entries 0 (raw_name utf8 pending header)
  unfolding raw_name
  raw_name-Outcome pending header =
      elim (Option-cases (or_else (pax_path_of pending.pax) pending.long_name)) [
        | inl e ↦
            rw (e, raw_name) (header_name-Outcome (prefix_of utf8 header) (field header 0 100))
        | inr (name, e) ↦ rw (e, raw_name) (omega arith)
      ]

  member-Outcome :
      (pending : Pending) (header content : Bytes)
      → Outcome added 512 (member utf8 pending header content)
  unfolding member
  member-Outcome pending header content = elim (Bool-cases (type_of header == b'x')) [
    | inl e ↦ rw e (omega arith)
    | inr e ↦ elim (Bool-cases (type_of header == b'g')) [
      | inl g ↦ rw e (rw g (omega arith))
      | inr g ↦ elim (Bool-cases (type_of header == b'L')) [
        | inl l ↦ rw e (rw g (rw l (omega arith)))
        | inr l ↦ rw e (
            rw g (
              rw l (
                Outcome-bind no_entries added 0 512 (raw_name utf8 pending header) _
                  (raw_name-Outcome pending header)
                  (λ raw k. elim (Bool-cases (is_file (type_of header))) [
                    | inl f ↦ rw f (entry_of-Outcome raw content)
                    | inr f ↦ rw f (omega arith)
                  ]))))
      ]
    ]
  ]

  next_member-Shorter : (rest : Bytes) → Shorter (length rest) (next_member utf8 rest)
  unfolding next_member
  next_member-Shorter rest =
      elim (Bool-cases (ltb (length rest) 512 || all (λ b. b == 0) (take 512 rest))) [
        | inl e ↦ rw e tt
        | inr e ↦ elim (Option-cases (octal utf8 (take 512 rest) 124 12)) [
          | inl k ↦ rw e (rw k tt)
          | inr (size, k) ↦ elim (Bool-cases (ltb (length rest) (512 + size))) [
            | inl l ↦ rw e (rw k (rw l tt))
            | inr l ↦
                rw e (
                  rw k
                    (rw l (long_enough rest (512 + rounded size) (or_false _ _ e) (omega arith))))
          ]
        ]
      ]

  untar_from-Outcome :
      (fuel : ℕ) (pending : Pending) (rest : Bytes)
      → length rest < fuel
      → Outcome (λ entries. entries) (length rest) (untar_from utf8 fuel pending rest)
  unfolding untar_from
  untar_from-Outcome zero pending rest h = absurd (omega arith)
  untar_from-Outcome (suc fuel) pending rest h = elim (Next-cases (next_member utf8 rest)) [
    | inl e ↦ rw (e, untar_from) (omega arith)
    | inr (inl e) ↦ rw (e, untar_from) tt
    | inr (inr (header, content, more, e)) ↦
        let less = subst (Shorter (length rest)) e (next_member-Shorter rest) in
        rw (e, untar_from)
          (Outcome-bind added (λ entries. entries) 512 (length rest)
            (member utf8 pending header content) _ (member-Outcome pending header content)
            (λ done k.
              Outcome-bind (λ entries. entries) (λ entries. entries) (length more) (length rest)
                (untar_from utf8 fuel done.0 more) _
                (untar_from-Outcome fuel done.0 more (omega arith))
                (λ later l. omega (arith, length-append {0} done.1 later))))
  ]

  -- Reading ends on every input, and never for want of fuel: with at most one entry for each 512
  -- bytes, or as a truncated archive, a name that is not UTF-8, or a path that escapes.
  pub untar-Outcome :
      (bytes : Bytes) → Outcome (λ entries. entries) (length bytes) (untar utf8 bytes)
  untar-Outcome bytes = untar_from-Outcome (suc (length bytes)) nothing_pending bytes (omega arith)
