-- ===== src/Archive/Contained.antt =====
-- What `untar` returns: paths inside the archive's root, and no loop without end.
use akuapkg.Common.{
  ℕ, zero, suc, ◌≡◌, ◌≢◌, ◌⊎◌, refl, subst, ◌==◌, Text, text, text_eq, text_eq_iff, starts_with,
  split, join, Bool, true, false, ◌||◌, some, List, [], ◌∷◌, ◌++◌, any, length, All, All-append,
  All-filter, All-filter_test, arith, Bool-cases, Option-cases, inl, inr, if◌then◌else◌,
}
use akuapkg.Common.Result.{Result, ok, err, ◌>>=◌}
use akuapkg.Common.Split.{Lacks, split-Lacks}
use akuapkg.Snapshot.{resolve_in_snapshot}
use akuapkg.Snapshot.Paths.{IsPlain, resolve-join}
use akuapkg.Archive.{
  Bytes, Utf8, ArchiveEntry, ArchiveProblem, is_named, slashes, raw_parts, is_escape, has_none,
  entry_path,
}
use akuapkg.Archive.Untar.{
  entry_of, member, plain_member, raw_name, nothing_pending, is_file, type_of, Pending, next_member,
  Next, finished, broken, member_at, untar_from, untar,
}

parts-IsPlain :
    (parts : List Text)
    → All (λ part. is_named part ≡ true) parts
    → All (Lacks b'/') parts
    → any (λ part. text_eq part (text "..")) parts ≡ false
    → All IsPlain parts
parts-IsPlain [] h k l = tt
parts-IsPlain (part ∷ parts) h k l = (
  ground (
    arith,
    h.0,
    k.0,
    l,
    text_eq_iff part [],
    text_eq_iff part (text "."),
    text_eq_iff part (text ".."),
  ),
  parts-IsPlain parts h.1 k.1 (ground (arith, l)),
)

-- a path below the archive's root, that a snapshot reads as it stands
abbrev pub IsContained : ArchiveEntry → Type 0
IsContained entry = (entry.path ≢ []) × (resolve_in_snapshot entry.path ≡ some entry.path)

entry_path-parts :
    (raw path : Text)
    → entry_path raw ≡ some path
    → (path ≡ join b'/' (raw_parts raw)) × (is_escape raw ≡ false)
unfolding entry_path
entry_path-parts raw path h = ground arith

join-nonempty : (parts : List Text) → All IsPlain parts → parts ≢ [] → join b'/' parts ≢ []
unfolding join
join-nonempty [] h k e = k refl
join-nonempty ([] ∷ parts) h k e = h.0.0 refl
join-nonempty ((a ∷ s) ∷ []) h k e = cc
join-nonempty ((a ∷ s) ∷ q ∷ parts) h k e = cc

no_escape :
    (absolute : Bool) (parts : List Text)
    → (absolute || any (λ part. text_eq part (text "..")) parts || has_none parts) ≡ false
    → (any (λ part. text_eq part (text "..")) parts ≡ false) × (parts ≢ [])
no_escape absolute [] h = ground arith
no_escape absolute (part ∷ parts) h = (ground arith, λ e. cc)

entry_path-IsContained :
    (raw path : Text) (content : Bytes)
    → entry_path raw ≡ some path
    → IsContained (record { path = path; content = content })
entry_path-IsContained raw path content h =
    let (e, inside) = entry_path-parts raw path h in
    let (no_up, some_part) = no_escape (starts_with raw (text "/")) (raw_parts raw) inside in
    let plain : All IsPlain (raw_parts raw) =
      parts-IsPlain (raw_parts raw) (All-filter_test is_named (split b'/' (slashes raw)))
        (All-filter (Lacks b'/') is_named (split b'/' (slashes raw))
          (split-Lacks b'/' (slashes raw)))
        no_up in
    rw e (join-nonempty (raw_parts raw) plain some_part, resolve-join (raw_parts raw) plain)

pub Next-cases :
    (next : Next)
    → (next ≡ finished)
      ⊎ (next ≡ broken)
      ⊎ ((header content more : Bytes) × (next ≡ member_at header content more))
Next-cases finished = inl refl
Next-cases broken = inr (inl refl)
Next-cases (member_at header content more) = inr (inr (header, content, more, refl))

-- the entries of a result, if it is one
abbrev Each {ℓ} : {A : Type ℓ} → (A → List ArchiveEntry) → Result ArchiveProblem A → Type 0
Each entries (err problem) = Unit
Each entries (ok value) = All IsContained (entries value)

Each-bind {ℓ κ} :
    {A : Type ℓ} {B : Type κ} (entries : B → List ArchiveEntry) (r : Result ArchiveProblem A)
    → (next : A → Result ArchiveProblem B)
    → ((value : A) → r ≡ ok value → Each entries (next value))
    → Each entries (r >>= next)
Each-bind entries (err problem) next h = tt
Each-bind entries (ok value) next h = h value refl

abbrev added : Pending × List ArchiveEntry → List ArchiveEntry
added done = done.1

entry_of-Each : (raw : Text) (content : Bytes) → Each added (entry_of raw content)
unfolding entry_of
entry_of-Each raw content = elim (Option-cases (entry_path raw)) [
  | inl e ↦ rw (e, entry_of) tt
  | inr (path, e) ↦ rw (e, entry_of) (entry_path-IsContained raw path content e, tt)
]

module _ (utf8 : Utf8) where
  plain_member-Each :
      (pending : Pending) (header content : Bytes)
      → Each added (plain_member utf8 pending header content)
  plain_member-Each pending header content =
      Each-bind added (raw_name utf8 pending header)
        (λ raw. if is_file (type_of header) then entry_of raw content else ok (nothing_pending, []))
        (λ raw e. elim (Bool-cases (is_file (type_of header))) [
          | inl k ↦ rw k (entry_of-Each raw content)
          | inr k ↦ rw k tt
        ])

  member-Each :
      (pending : Pending) (header content : Bytes) → Each added (member utf8 pending header content)
  unfolding member
  member-Each pending header content = elim (Bool-cases (type_of header == b'x')) [
    | inl e ↦ rw e tt
    | inr e ↦ elim (Bool-cases (type_of header == b'g')) [
      | inl g ↦ rw e (rw g tt)
      | inr g ↦ elim (Bool-cases (type_of header == b'L')) [
        | inl l ↦ rw e (rw g (rw l tt))
        | inr l ↦ rw e (rw g (rw l (plain_member-Each pending header content)))
      ]
    ]
  ]

  untar_from-Each :
      (fuel : ℕ) (pending : Pending) (rest : Bytes)
      → Each (λ entries. entries) (untar_from utf8 fuel pending rest)
  unfolding untar_from
  untar_from-Each zero pending rest = tt
  untar_from-Each (suc fuel) pending rest = elim (Next-cases (next_member utf8 rest)) [
    | inl e ↦ rw (e, untar_from) tt
    | inr (inl e) ↦ rw (e, untar_from) tt
    | inr (inr (header, content, more, e)) ↦
        rw (e, untar_from)
          (Each-bind (λ entries. entries) (member utf8 pending header content)
            (λ done. untar_from utf8 fuel done.0 more >>= λ later. ok (done.1 ++ later))
            (λ done k.
              Each-bind (λ entries. entries) (untar_from utf8 fuel done.0 more)
                (λ later. ok (done.1 ++ later))
                (λ later l.
                  All-append IsContained done.1 later
                    (subst (Each added) k (member-Each pending header content))
                    (subst (Each (λ entries. entries)) l (untar_from-Each fuel done.0 more)))))
  ]

  -- Every entry of an archive that is read has a path below the archive's root: it is not empty, and
  -- resolving it inside a snapshot gives the same path, so it is relative and has no `..`.
  pub untar-IsContained :
      (bytes : Bytes) (entries : List ArchiveEntry)
      → untar utf8 bytes ≡ ok entries
      → All IsContained entries
  untar-IsContained bytes entries h =
      subst (Each (λ all_entries. all_entries)) h
        (untar_from-Each (suc (length bytes)) nothing_pending bytes)
