-- ===== src/Verify/Consistent.antt =====
-- `verify` reports no violation exactly for a manifest, a lock and trees that agree.
use akuapkg.Common.{
  Text, text, compare_text, starts_with, Bool, true, false, Option, none, some, List, [], ◌∷◌, map,
  All, All-map, ◌≡◌, ◌↔◌, refl, subst, Bool-cases, inl, inr,
}
use akuapkg.Common.Sort.{to_sorted, to_sorted-All, All-to_sorted}
use akuapkg.Lock.{LockedPackage}
use akuapkg.Manifest.{Dependency}
use akuapkg.Dependencies.Sources.{World}
use akuapkg.Verify.{
  Violation, collect, Declared, is_locked, unlocked, orphan, signature_violation,
  signature_violations, path_violation, attestation_check, attestation_violations, violations_of,
}
use akuapkg.Verify.Checks.{
  collect-nil, nil-collect, append-nil, unlocked-none, orphan-none, IsDeclared, IsSigned,
  signature_violation-none, IsUndrifted, path_violation-none,
}

All-iff {ℓ κ μ} :
    {A : Type ℓ} {P : A → Type κ} {Q : A → Type μ}
    → ((a : A) → P a ↔ Q a)
    → (xs : List A) → All P xs ↔ All Q xs
All-iff f xs = (All-map (λ a. (f a).0) xs, All-map (λ a. (f a).1) xs)

collect_iff {ℓ κ μ} :
    {A : Type ℓ} {V : Type κ} {Q : A → Type μ} (f : A → Option V)
    → ((a : A) → (f a ≡ none) ↔ Q a)
    → (xs : List A) → (collect f xs ≡ []) ↔ All Q xs
collect_iff f h xs =
    let (forth, back) = All-iff h xs in
    (λ e. forth (collect-nil f xs e), λ k. nil-collect f xs (back k))

All-names :
    (P : Text → Type 0) (declared : Declared)
    → All P (map (λ entry. entry.0) declared)
      ↔ All (λ (entry : Text × Dependency). P entry.0) declared
All-names P [] = (λ h. tt, λ h. tt)
All-names P (entry ∷ declared) =
    let (forth, back) = All-names P declared in (λ h. (h.0, forth h.1), λ h. (h.0, back h.1))

module _ (world : World) (workspace : Text)
    (attestation : LockedPackage → Text → Option Violation) where
  abbrev pub IsAttested : Text → LockedPackage → Type 0
  IsAttested key entry =
      starts_with entry.source (text "oci://") ≡ true → attestation entry key ≡ none

  -- the manifest, the lock and the trees agree
  abbrev pub IsConsistent :
      Declared → List LockedPackage → Bool → Option Text → Option Text → Type 0
  IsConsistent declared entries strict public_key trusted =
      All (λ (entry : Text × Dependency). is_locked entries entry.0 ≡ true) declared
      × All (IsDeclared declared) entries
      × (strict ≡ true → All (IsSigned trusted) entries)
      × All (IsUndrifted world workspace declared) entries
      × ((key : Text) → public_key ≡ some key → All (IsAttested key) entries)

  attestation_check-none :
      (key : Text) (entry : LockedPackage)
      → (attestation_check world workspace attestation key entry ≡ none) ↔ IsAttested key entry
  unfolding attestation_check
  attestation_check-none key entry = elim (Bool-cases (starts_with entry.source (text "oci://"))) [
    | inl e ↦ rw e (λ h k. h, λ h. h refl)
    | inr e ↦ rw e (λ h k. absurd cc, λ h. refl)
  ]

  attestations_iff :
      (public_key : Option Text) (entries : List LockedPackage)
      → (attestation_violations world workspace attestation public_key entries ≡ [])
        ↔ ((key : Text) → public_key ≡ some key → All (IsAttested key) entries)
  attestations_iff none entries = (λ h key k. absurd cc, λ h. refl)
  attestations_iff (some key) entries =
      let (forth, back) =
        collect_iff (attestation_check world workspace attestation key) (attestation_check-none key)
          entries in
      (
        λ h other k.
            let same : key ≡ other = cc in subst (λ x. All (IsAttested x) entries) same (forth h),
        λ h. back (h key refl),
      )

  signatures_iff :
      (strict : Bool) (trusted : Option Text) (entries : List LockedPackage)
      → (signature_violations world workspace strict trusted entries ≡ [])
        ↔ (strict ≡ true → All (IsSigned trusted) entries)
  signatures_iff true trusted entries =
      let (forth, back) =
        collect_iff (signature_violation trusted) (signature_violation-none trusted) entries in
      (λ h k. forth h, λ h. back (h refl))
  signatures_iff false trusted entries = (λ h k. absurd cc, λ h. refl)

  names_iff :
      (entries : List LockedPackage) (declared : Declared)
      → (collect (unlocked entries) (to_sorted compare_text (map (λ entry. entry.0) declared)) ≡ [])
        ↔ All (λ (entry : Text × Dependency). is_locked entries entry.0 ≡ true) declared
  names_iff entries declared =
      let P = λ (name : Text). is_locked entries name ≡ true in
      let names = map (λ (entry : Text × Dependency). entry.0) declared in
      let (forth, back) =
        collect_iff (unlocked entries) (unlocked-none entries) (to_sorted compare_text names) in
      let (listed, declares) = All-names P declared in
      (
        λ h. listed (All-to_sorted compare_text P names (forth h)),
        λ h. back (to_sorted-All compare_text P names (declares h)),
      )

  -- `verify` finds no violation exactly where every declared dependency is locked; every locked one is
  -- declared, or named as a member that every JavaScript object has; with strict signing, every locked
  -- source but a path records the configured key's signature; every locked path source that the manifest
  -- declares with a `path` has a tree with the locked digest; and with a key, every OCI entry's
  -- attestation holds.
  pub violations_of-IsConsistent :
      (declared : Declared) (entries : List LockedPackage) (strict : Bool)
      (public_key trusted : Option Text)
      → (violations_of world workspace attestation declared entries strict public_key trusted ≡ [])
        ↔ IsConsistent declared entries strict public_key trusted
  unfolding violations_of
  violations_of-IsConsistent declared entries strict public_key trusted =
      let names = names_iff entries declared in
      let orphans = collect_iff (orphan declared) (orphan-none declared) entries in
      let signatures = signatures_iff strict trusted entries in
      let paths =
        collect_iff (path_violation world workspace declared)
          (path_violation-none world workspace declared) entries in
      let attestations = attestations_iff public_key entries in
      (
        λ h.
            let (a, h1) = append-nil _ _ h in
            let (b, h2) = append-nil _ _ h1 in
            let (c, h3) = append-nil _ _ h2 in
            let (d, e) = append-nil _ _ h3 in
            (names.0 a, orphans.0 b, signatures.0 c, paths.0 d, attestations.0 e),
        λ (a, b, c, d, e).
            rw (names.1 a)
              (rw (orphans.1 b) (rw (signatures.1 c) (rw (paths.1 d) (attestations.1 e)))),
      )
