-- ===== src/KclModules/Identifiers.antt =====
-- No module overwrites another: different names import as different identifiers.
use akuapkg.Common.{
  ◌≡◌, ◌≢◌, ◌↔◌, refl, subst, sym, ◌∙◌, Text, text, text_eq, text_eq_iff, text_eq_refl,
  text_eq_sound, Bool, true, false, not, List, [], ◌∷◌, map, filter, All, All-map, Pairwise,
  Pairwise-filter, arith, Bool-cases, inl, inr, if◌then◌else◌,
}
use akuapkg.Common.Result.{ok, fail_if, >>=-eq-ok}
use akuapkg.Manifest.{kcl_ident}
use akuapkg.Manifest.Idents.{IsIdent, kcl_ident-IsIdent}
use akuapkg.Snapshot.{Snapshot}
use akuapkg.KclModules.{
  ResolvedDependency, RenderProblem, same_identifier, prior, clashes, identifiers_from, identifiers,
  kcl_modules, module_of, dependency_names, is_kind, kcl, or_empty,
}

-- two names that import as one identifier are one name
abbrev pub Agree : Text → Text → Type 0
Agree a b = kcl_ident a ≡ kcl_ident b → a ≡ b

abbrev Clean : List (Text × Text) → Text → Type 0
Clean seen name = clashes (prior (kcl_ident name) seen) name ≡ false

clashes-prior :
    (m n : Text) (seen : List (Text × Text))
    → clashes (prior (kcl_ident n) ((kcl_ident m, m) ∷ seen)) n ≡ (
        if text_eq (kcl_ident m) (kcl_ident n)
        then not (text_eq m n)
        else clashes (prior (kcl_ident n) seen) n)
unfolding prior
clashes-prior m n seen = elim (Bool-cases (text_eq (kcl_ident m) (kcl_ident n))) [
  | inl e ↦ rw e refl
  | inr e ↦ rw e refl
]

-- behind a clean name, another is clean if it agrees with it and was clean before
Clean-cons :
    (m n : Text) (seen : List (Text × Text))
    → Agree m n
    → Clean seen n
    → Clean ((kcl_ident m, m) ∷ seen) n
Clean-cons m n seen a c =
    clashes-prior m n seen ∙ elim (Bool-cases (text_eq (kcl_ident m) (kcl_ident n))) [
      | inl e ↦ rw e (rw (a (text_eq_sound _ _ e)) (rw (text_eq_refl n) refl))
      | inr e ↦ rw e c
    ]

Agree-of_Clean :
    (m n : Text) (seen : List (Text × Text)) → Clean ((kcl_ident m, m) ∷ seen) n → Agree m n
Agree-of_Clean m n seen c same =
    let h = sym (clashes-prior m n seen) ∙ c in
    let e : text_eq (kcl_ident m) (kcl_ident n) ≡ true =
      (text_eq_iff (kcl_ident m) (kcl_ident n)).1 same in
    text_eq_sound m n (ground arith)

Clean-of_cons :
    (m n : Text) (seen : List (Text × Text))
    → Clean seen m
    → Clean ((kcl_ident m, m) ∷ seen) n
    → Clean seen n
Clean-of_cons m n seen k c = elim (Bool-cases (text_eq (kcl_ident m) (kcl_ident n))) [
  | inl e ↦ subst (Clean seen) (Agree-of_Clean m n seen c (text_eq_sound _ _ e)) k
  | inr e ↦ (let h = sym (clashes-prior m n seen) ∙ c in ground arith)
]

sound :
    (what : Text) (seen : List (Text × Text)) (names : List Text)
    → identifiers_from what seen names ≡ ok tt
    → All (Clean seen) names × Pairwise Agree names
unfolding identifiers_from
sound what seen [] h = (tt, tt)
sound what seen (name ∷ rest) h =
    let (_, h1, k1) =
      >>=-eq-ok
        (fail_if (clashes (prior (kcl_ident name) seen) name)
          (same_identifier what (or_empty (prior (kcl_ident name) seen)) name (kcl_ident name)))
        _ h in
    let here : Clean seen name = passed _ _ h1 in
    let (clean, pairs) = sound what ((kcl_ident name, name) ∷ seen) rest k1 in
    (
      (here, All-map (λ n c. Clean-of_cons name n seen here c) rest clean),
      (All-map (λ n c. Agree-of_Clean name n seen c) rest clean, pairs),
    )
  where
    passed : (b : Bool) (problem : RenderProblem) → fail_if b problem ≡ ok tt → b ≡ false
    passed true problem e = absurd (ground arith)
    passed false problem e = refl

Clean-All :
    (name : Text) (seen : List (Text × Text)) (rest : List Text)
    → All (Agree name) rest
    → All (Clean seen) rest
    → All (Clean ((kcl_ident name, name) ∷ seen)) rest
Clean-All name seen [] h k = tt
Clean-All name seen (n ∷ rest) h k =
    (Clean-cons name n seen h.0 k.0, Clean-All name seen rest h.1 k.1)

complete :
    (what : Text) (seen : List (Text × Text)) (names : List Text)
    → All (Clean seen) names
    → Pairwise Agree names
    → identifiers_from what seen names ≡ ok tt
unfolding identifiers_from
complete what seen [] h k = refl
complete what seen (name ∷ rest) h k =
    rw (h.0)
      (complete what ((kcl_ident name, name) ∷ seen) rest (Clean-All name seen rest k.0 h.1) k.1)

Clean-nil : (names : List Text) → All (Clean []) names
unfolding prior
Clean-nil [] = tt
Clean-nil (name ∷ rest) = (refl, Clean-nil rest)

-- The names of a package pass the check of their identifiers exactly when no two different names
-- among them import as the same identifier.
pub identifiers_iff :
    (names : List Text) (what : Text) → (identifiers names what ≡ ok tt) ↔ Pairwise Agree names
identifiers_iff names what =
    (λ h. (sound what [] names h).1, complete what [] names (Clean-nil names))

abbrev pub NamesDiffer : ResolvedDependency → ResolvedDependency → Type 0
NamesDiffer a b = a.name ≢ b.name

abbrev pub ImportsDiffer : Text × Snapshot → Text × Snapshot → Type 0
ImportsDiffer a b = a.0 ≢ b.0

head_differs :
    (d : ResolvedDependency) (ms : List ResolvedDependency)
    → All (NamesDiffer d) ms
    → All (Agree d.name) (dependency_names ms)
    → All (ImportsDiffer (module_of d)) (map module_of ms)
head_differs d [] h k = tt
head_differs d (m ∷ ms) h k = (λ e. h.0 (k.0 e), head_differs d ms h.1 k.1)

all_differ :
    (ms : List ResolvedDependency)
    → Pairwise NamesDiffer ms
    → Pairwise Agree (dependency_names ms)
    → Pairwise ImportsDiffer (map module_of ms)
all_differ [] h k = tt
all_differ (m ∷ ms) h k = (head_differs m ms h.0 k.0, all_differ ms h.1 k.1)

modules-IsIdent : (ms : List ResolvedDependency) → All (λ m. IsIdent m.0) (map module_of ms)
modules-IsIdent [] = tt
modules-IsIdent (m ∷ ms) = (kcl_ident-IsIdent m.name, modules-IsIdent ms)

-- If dependencies of different names become KCL modules, the modules import as identifiers, and no
-- two as the same.
pub kcl_modules-IsIdent :
    (deps : List ResolvedDependency) (modules : List (Text × Snapshot))
    → Pairwise NamesDiffer deps
    → kcl_modules deps ≡ ok modules
    → Pairwise ImportsDiffer modules × All (λ m. IsIdent m.0) modules
unfolding kcl_modules
kcl_modules-IsIdent deps modules differ h =
    let ms = filter (is_kind kcl) deps in
    let (_, h1, k1) = >>=-eq-ok (identifiers (dependency_names ms) (text "kcl-package deps")) _ h in
    let agree = (identifiers_iff (dependency_names ms) (text "kcl-package deps")).0 h1 in
    let e : map module_of ms ≡ modules = ground arith in
    subst (λ r. Pairwise ImportsDiffer r × All (λ m. IsIdent m.0) r) e
      (
        all_differ ms (Pairwise-filter NamesDiffer (is_kind kcl) deps differ) agree,
        modules-IsIdent ms,
      )
