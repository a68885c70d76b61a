-- ===== src/Verify/Checks.antt =====
-- When each check of `verify` passes.
use akuapkg.Common.{
  Text, text_eq, text_eq_iff, Bool, true, false, Option, none, some, is_some, List, [], ◌∷◌, ◌++◌,
  All, ◌≡◌, ◌↔◌, ◌⊎◌, refl, sym, ap, subst, ◌∙◌, Bool-cases, inl, inr, arith,
}
use akuapkg.Common.Result.{Result, ok, err}
use akuapkg.Lock.{LockedPackage}
use akuapkg.Dependencies.Sources.{World, DependencyTree, ResolveError}
use akuapkg.Dependencies.Trees.{path_dependency_tree}
use akuapkg.Verify.{
  push, collect, Declared, is_locked, declared_as, unlocked, orphan, is_object_member,
  is_path_entry, signature_check, signature_violation, requested_path, drift, path_check,
  path_violation,
}

push-nil {ℓ} : {V : Type ℓ} (o : Option V) (vs : List V) → push o vs ≡ [] → (o ≡ none) × (vs ≡ [])
push-nil none vs h = (refl, h)
push-nil (some v) vs h = cc

module _ {ℓ κ} {A : Type ℓ} {V : Type κ} (f : A → Option V) where
  pub collect-nil : (xs : List A) → collect f xs ≡ [] → All (λ x. f x ≡ none) xs
  unfolding collect
  collect-nil [] h = tt
  collect-nil (x ∷ xs) h = let (e, k) = push-nil (f x) (collect f xs) h in (e, collect-nil xs k)

  pub nil-collect : (xs : List A) → All (λ x. f x ≡ none) xs → collect f xs ≡ []
  unfolding collect
  nil-collect [] h = refl
  nil-collect (x ∷ xs) h = rw (h.0) (nil-collect xs h.1)

no_both : (b : Bool) → b ≡ false → b ≡ true → ⊥
no_both b h k = cc

pub append-nil {ℓ} : {A : Type ℓ} (xs ys : List A) → xs ++ ys ≡ [] → (xs ≡ []) × (ys ≡ [])
append-nil [] ys h = (refl, h)
append-nil (x ∷ xs) ys h = cc

module _ (entries : List LockedPackage) where
  pub unlocked-none :
      (name : Text) → (unlocked entries name ≡ none) ↔ (is_locked entries name ≡ true)
  unfolding unlocked
  unlocked-none name = ground arith

neither {ℓ} : {A : Type ℓ} → (false ≡ true) ⊎ (false ≡ true) → A
neither (inl h) = cc
neither (inr h) = cc

module _ (declared : Declared) where
  -- declared, or named as a member that every object has
  abbrev pub IsDeclared : LockedPackage → Type 0
  IsDeclared entry =
      (is_some (declared_as declared entry.name) ≡ true) ⊎ (is_object_member entry.name ≡ true)

  pub orphan-none : (entry : LockedPackage) → (orphan declared entry ≡ none) ↔ IsDeclared entry
  unfolding orphan
  orphan-none entry = elim (Bool-cases (is_some (declared_as declared entry.name))) [
    | inl e ↦ rw e (λ h. inl refl, λ h. refl)
    | inr e ↦ elim (Bool-cases (is_object_member entry.name)) [
      | inl k ↦ rw e (rw k (λ h. inr refl, λ h. refl))
      | inr k ↦ rw e (rw k (λ h. absurd cc, λ h. neither h))
    ]
  ]

-- the configured key's signature, for all but paths
abbrev pub IsSigned : Option Text → LockedPackage → Type 0
IsSigned trusted entry =
    is_path_entry entry ≡ false
    → (signature : Text) × (trusted ≡ some signature) × (entry.signature ≡ some signature)

signature_check-none :
    (trusted : Option Text) (entry : LockedPackage) (signature : Option Text)
    → (signature_check trusted entry signature ≡ none)
      ↔ ((s : Text) × (trusted ≡ some s) × (signature ≡ some s))
unfolding signature_check
signature_check-none none entry none = (λ h. absurd cc, λ (s, h, k). absurd cc)
signature_check-none (some expected) entry none = (λ h. absurd cc, λ (s, h, k). absurd cc)
signature_check-none none entry (some signature) = (λ h. absurd cc, λ (s, h, k). absurd cc)
signature_check-none (some expected) entry (some signature) =
    elim (Bool-cases (text_eq signature expected)) [
      | inl e ↦
          rw e (λ h. (expected, refl, ap some ((text_eq_iff signature expected).0 e)), λ h. refl)
      | inr e ↦ rw e (
        λ h. absurd cc,
        λ (s, h, k).
            let a : expected ≡ s = cc in
            let b : signature ≡ s = cc in
            absurd (
              no_both (text_eq signature expected) e
                ((text_eq_iff signature expected).1 (b ∙ sym a))),
      )
    ]

pub signature_violation-none :
    (trusted : Option Text) (entry : LockedPackage)
    → (signature_violation trusted entry ≡ none) ↔ IsSigned trusted entry
unfolding signature_violation
signature_violation-none trusted entry = elim (Bool-cases (is_path_entry entry)) [
  | inl e ↦ rw e (λ h k. absurd cc, λ h. refl)
  | inr e ↦
      let (forth, back) = signature_check-none trusted entry entry.signature in
      rw e (λ h k. forth h, λ h. back (h refl))
]

module _ (world : World) (workspace : Text) where
  -- the tree at a path, if the manifest has one, has the digest that the lock records
  abbrev pub IsUndrifted : Declared → LockedPackage → Type 0
  IsUndrifted declared entry =
      is_path_entry entry ≡ true
      → (requested : Text) → requested_path (declared_as declared entry.name) ≡ some requested
      → (tree : DependencyTree) × (path_dependency_tree world workspace entry.name requested
          ≡ ok tree)
        × (tree.digest ≡ entry.digest)

  drift-none :
      (entry : LockedPackage) (requested : Text) (r : Result ResolveError DependencyTree)
      → (drift world workspace entry requested r ≡ none)
        ↔ ((tree : DependencyTree) × (r ≡ ok tree) × (tree.digest ≡ entry.digest))
  unfolding drift
  drift-none entry requested (err problem) = (λ h. absurd cc, λ (tree, h, k). absurd cc)
  drift-none entry requested (ok tree) = elim (Bool-cases (text_eq tree.digest entry.digest)) [
    | inl e ↦ rw e (λ h. (tree, refl, (text_eq_iff tree.digest entry.digest).0 e), λ h. refl)
    | inr e ↦ rw e (
      λ h. absurd cc,
      λ (other, h, k).
          let same : tree ≡ other = cc in
          absurd (
            no_both (text_eq tree.digest entry.digest) e (
              (text_eq_iff tree.digest entry.digest).1
                (ap (λ (t : DependencyTree). t.digest) same ∙ k))),
    )
  ]

  path_check-none :
      (entry : LockedPackage) (o : Option Text)
      → (path_check world workspace entry o ≡ none) ↔ (
          (requested : Text)
          → o ≡ some requested
          → (tree : DependencyTree) × (path_dependency_tree world workspace entry.name requested
              ≡ ok tree)
            × (tree.digest ≡ entry.digest))
  path_check-none entry none = (λ h requested k. absurd cc, λ h. refl)
  path_check-none entry (some requested) =
      let (forth, back) =
        drift-none entry requested (path_dependency_tree world workspace entry.name requested) in
      (
        λ h other k.
            let same : requested ≡ other = cc in
            subst
              (λ r.
                (tree : DependencyTree) × (path_dependency_tree world workspace entry.name r
                  ≡ ok tree)
                × (tree.digest ≡ entry.digest))
              same (forth h),
        λ h. back (h requested refl),
      )

  pub path_violation-none :
      (declared : Declared) (entry : LockedPackage)
      → (path_violation world workspace declared entry ≡ none) ↔ IsUndrifted declared entry
  unfolding path_violation
  path_violation-none declared entry = elim (Bool-cases (is_path_entry entry)) [
    | inl e ↦
        let (forth, back) =
          path_check-none entry (requested_path (declared_as declared entry.name)) in
        rw e (λ h k. forth h, λ h. back (h refl))
    | inr e ↦ rw e (λ h k. absurd cc, λ h. refl)
  ]
