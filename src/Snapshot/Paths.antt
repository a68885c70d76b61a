-- ===== src/Snapshot/Paths.antt =====
-- `resolveInSnapshot` never leaves the tree.
use mathlib.Core.List.{reverse, reverse_aux}
use akuapkg.Common.{
  ℕ, zero, suc, ◌≡◌, ◌≢◌, ◌↔◌, refl, ◌⊎◌, Text, text, text_eq, text_eq_iff, starts_with, includes,
  split, split_by, join, length, Bool, true, false, ◌||◌, none, some, List, [], ◌∷◌, ◌++◌, All,
  All-map, arith, if◌then◌else◌, Option-cases, inl, inr,
}
use akuapkg.Common.Split.{Lacks, split-Lacks, split-join}
use akuapkg.Snapshot.{step, resolve_segments, resolve_in_snapshot}

-- a name inside a directory: not empty, `.` or `..`, and without `/`
abbrev pub IsPlain : Text → Type 0
IsPlain part = (part ≢ []) × (part ≢ text ".") × (part ≢ text "..") × Lacks b'/' part

step-IsPlain :
    (out : List Text) (segment : Text) (next : List Text)
    → step out segment ≡ some next
    → All IsPlain out
    → Lacks b'/' segment
    → All IsPlain next
unfolding step
step-IsPlain [] segment next h k l =
    ground (
      arith,
      text_eq_iff segment [],
      text_eq_iff segment (text "."),
      text_eq_iff segment (text ".."),
    )
step-IsPlain (last ∷ rest) segment next h k l =
    ground (
      arith,
      text_eq_iff segment [],
      text_eq_iff segment (text "."),
      text_eq_iff segment (text ".."),
    )

All-reverse_aux {ℓ} :
    (P : Text → Type ℓ) (xs ys : List Text) → All P xs → All P ys → All P (reverse_aux xs ys)
All-reverse_aux P [] ys h k = k
All-reverse_aux P (x ∷ xs) ys h k = All-reverse_aux P xs (x ∷ ys) h.1 (h.0, k)

resolve_segments-IsPlain :
    (out segments r : List Text)
    → resolve_segments out segments ≡ some r
    → All IsPlain out
    → All (Lacks b'/') segments
    → All IsPlain r
unfolding resolve_segments
resolve_segments-IsPlain out [] r h k l =
    let e : reverse out ≡ r = ground arith in rw (← e) (All-reverse_aux IsPlain out [] k tt)
resolve_segments-IsPlain out (segment ∷ rest) r h k l = elim (Option-cases (step out segment)) [
  | inl e ↦ absurd (ground arith)
  | inr (next, e) ↦
      resolve_segments-IsPlain next rest r (ground arith) (step-IsPlain out segment next e k l.0)
        l.1
]

-- A resolved path is a chain of plain names: no `..`, no `.`, no empty name, not absolute.
pub resolve_in_snapshot-IsPlain :
    (requested r : Text)
    → resolve_in_snapshot requested ≡ some r
    → (parts : List Text) × (r ≡ join b'/' parts) × All IsPlain parts
unfolding resolve_in_snapshot
resolve_in_snapshot-IsPlain requested r h =
    elim (Option-cases (resolve_segments [] (split b'/' requested))) [
      | inl e ↦ absurd (ground arith)
      | inr (parts, e) ↦ (
        parts,
        ground arith,
        resolve_segments-IsPlain [] (split b'/' requested) parts e tt (split-Lacks b'/' requested),
      )
    ]

step_of_IsPlain :
    (out : List Text) (segment : Text) → IsPlain segment → step out segment ≡ some (segment ∷ out)
unfolding step
step_of_IsPlain out segment h =
    ground (
      arith,
      text_eq_iff segment [],
      text_eq_iff segment (text "."),
      text_eq_iff segment (text ".."),
    )

resolve_segments_of_IsPlain :
    (out parts : List Text)
    → All IsPlain parts
    → resolve_segments out parts ≡ some (reverse_aux out parts)
unfolding resolve_segments
resolve_segments_of_IsPlain out [] h = refl
resolve_segments_of_IsPlain out (part ∷ parts) h =
    rw (step_of_IsPlain out part h.0, resolve_segments)
      (resolve_segments_of_IsPlain (part ∷ out) parts h.1)

not_absolute :
    (a : ℕ) (s t : Text) → Lacks b'/' (a ∷ s) → starts_with ((a ∷ s) ++ t) (text "/") ≡ false
unfolding starts_with includes
not_absolute a s t h = ground arith

join-not_absolute :
    (parts : List Text) → All IsPlain parts → starts_with (join b'/' parts) (text "/") ≡ false
unfolding join starts_with
join-not_absolute [] h = refl
join-not_absolute ([] ∷ rest) h = absurd (h.0.0 refl)
join-not_absolute ((a ∷ s) ∷ []) h = unfold includes in ground (arith, h.0.3)
join-not_absolute ((a ∷ s) ∷ q ∷ rest) h = not_absolute a s (b'/' ∷ join b'/' (q ∷ rest)) h.0.3

pub resolve-join :
    (parts : List Text)
    → All IsPlain parts
    → resolve_in_snapshot (join b'/' parts) ≡ some (join b'/' parts)
unfolding resolve_in_snapshot
resolve-join [] h = unfold starts_with join split_by resolve_segments step text_eq in refl
resolve-join (p ∷ ps) h = rw (join-not_absolute (p ∷ ps) h) (
    rw (split-join b'/' p ps (All-map (λ x k. k.3) (p ∷ ps) h))
      (rw (resolve_segments_of_IsPlain [] (p ∷ ps) h) refl))

-- Resolving a resolved path changes nothing.
pub resolve_in_snapshot_idempotent :
    (requested r : Text) → resolve_in_snapshot requested ≡ some r → resolve_in_snapshot r ≡ some r
resolve_in_snapshot_idempotent requested r h =
    let (parts, e, plain) = resolve_in_snapshot-IsPlain requested r h in
    rw e (resolve-join parts plain)

-- `depth` names deep, do the segments step above the start?
unfoldable pub escapes : ℕ → List Text → Bool
escapes depth [] = false
escapes depth (segment ∷ rest) =
    if text_eq segment [] || text_eq segment (text ".")
    then escapes depth rest
    else if text_eq segment (text "..")
    then elim depth [ zero ↦ true | suc above ↦ escapes above rest ]
    else escapes (suc depth) rest

resolve_segments-escapes :
    (out segments : List Text)
    → (resolve_segments out segments ≡ none) ↔ (escapes (length out) segments ≡ true)
unfolding resolve_segments step escapes
resolve_segments-escapes out [] = ground arith
resolve_segments-escapes [] (segment ∷ rest) =
    ground (arith, resolve_segments-escapes [] rest, resolve_segments-escapes (segment ∷ []) rest)
resolve_segments-escapes (last ∷ out) (segment ∷ rest) = ground (
  arith,
  resolve_segments-escapes out rest,
  resolve_segments-escapes (last ∷ out) rest,
  resolve_segments-escapes (segment ∷ last ∷ out) rest,
)

-- A path is refused exactly when it is absolute, or when some `..` in it has no name before it
-- left to cancel.
pub resolve_in_snapshot-eq-none_iff :
    (requested : Text)
    → (resolve_in_snapshot requested ≡ none)
      ↔ ((starts_with requested (text "/") ≡ true) ⊎ (escapes 0 (split b'/' requested) ≡ true))
unfolding resolve_in_snapshot
resolve_in_snapshot-eq-none_iff requested =
    ground (arith, resolve_segments-escapes [] (split b'/' requested))
