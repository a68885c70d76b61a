-- ===== src/Dependencies/Complete.antt =====
-- A package resolves every declared dependency, in order, and takes no `replace` where it is rejected.
use akuapkg.Common.{
  Text, true, Option, none, some, List, [], ◌∷◌, ◌≡◌, refl, subst, inl, inr, Bool-cases,
}
use akuapkg.Common.Result.{Result, ok, Holds, Holds-bind}
use akuapkg.HostFs.{map_error}
use akuapkg.Lock.{Lock, LockInvalid}
use akuapkg.Manifest.{Manifest, Dependency, Problem, dependencies}
use akuapkg.Dependencies.Sources.{
  World, ResolvedDependency, ResolveOptions, platform, manifest_invalid,
}
use akuapkg.Dependencies.Crds.{Provenance}
use akuapkg.Dependencies.Resolve.{resolve_dependency}
use akuapkg.Dependencies.Package.{
  rejects_replace, ResolvedPackage, request_of, resolve_all, read_lock, cosign_key, trusted_ref,
  resolve_manifest, resolve_package,
}
use akuapkg.Dependencies.Replaced.{IsAllowedDependency, resolve_dependency-IsAllowed}

-- a list of results against a list of declarations, one for one
abbrev pub Pairs {ℓ κ} : {A : Type ℓ} {B : Type κ} → (A → B → Type 0) → List A → List B → Type 0
Pairs R [] [] = Unit
Pairs R [] (b ∷ bs) = ⊥
Pairs R (a ∷ as') [] = ⊥
Pairs R (a ∷ as') (b ∷ bs) = R a b × Pairs R as' bs

module _ (world : World) (parse_provenance : Text → Result Text Provenance)
    (parse_manifest : Text → Text → Result Problem Manifest)
    (parse_lock : Text → Text → Result LockInvalid Lock)
    (keyed_signature_ref : Text → Result Text Text) where
  -- the same name, and no `replace` in an environment that rejects it
  abbrev pub IsResolved : Text × Dependency → ResolvedDependency → Type 0
  IsResolved entry resolved =
      (resolved.name ≡ entry.0) × (rejects_replace world.variable ≡ true → entry.1.replace ≡ none)

  resolve_all-Pairs :
      (workspace : Text) (options : ResolveOptions) (lock : Option Lock) (key trusted : Option Text)
      → (entries : List (Text × Dependency))
      → Holds (Pairs IsResolved entries) (
          resolve_all world parse_provenance
            (request_of world workspace options lock key trusted)
            entries)
  unfolding resolve_all
  resolve_all-Pairs workspace options lock key trusted [] = tt
  resolve_all-Pairs workspace options lock key trusted (entry ∷ rest) =
      let request = request_of world workspace options lock key trusted in
      Holds-bind (Pairs IsResolved (entry ∷ rest))
        (resolve_dependency world parse_provenance (request entry)) _
        (λ resolved h.
          Holds-bind (Pairs IsResolved (entry ∷ rest))
            (resolve_all world parse_provenance request rest) _
            (λ others k. (
              subst (Holds (IsAllowedDependency world (request entry))) h
                  (resolve_dependency-IsAllowed world (request entry) parse_provenance),
              subst (Holds (Pairs IsResolved rest)) k
                  (resolve_all-Pairs workspace options lock key trusted rest),
            )))

  -- the dependencies of the manifest that was read, one for one
  abbrev pub IsComplete : ResolvedPackage → Type 0
  IsComplete resolved = elim resolved.manifest [
    | none ↦ resolved.dependencies ≡ []
    | some manifest ↦ Pairs IsResolved (dependencies manifest) resolved.dependencies
  ]

  resolve_manifest-IsComplete :
      (workspace : Text) (options : ResolveOptions) (path : Text)
      → Holds IsComplete (
          resolve_manifest world parse_provenance parse_manifest parse_lock keyed_signature_ref
            workspace options path)
  unfolding resolve_manifest
  resolve_manifest-IsComplete workspace options path =
      Holds-bind IsComplete (map_error platform (world.fs.read_file_string path)) _ (λ source a.
        Holds-bind IsComplete (map_error manifest_invalid (parse_manifest source path)) _
          (λ manifest b. Holds-bind IsComplete (read_lock world parse_lock _) _ (λ lock c.
            Holds-bind IsComplete (cosign_key world workspace manifest options) _ (λ key d.
              Holds-bind IsComplete (trusted_ref keyed_signature_ref key) _ (λ trusted e.
                Holds-bind IsComplete (resolve_all world parse_provenance _ (dependencies manifest))
                  _
                  (λ resolved f. subst (Holds (Pairs IsResolved (dependencies manifest))) f (
                    resolve_all-Pairs workspace options lock key trusted
                      (dependencies manifest))))))))

  resolve_package-Holds :
      (workspace : Text) (options : ResolveOptions)
      → Holds IsComplete (
          resolve_package world parse_provenance parse_manifest parse_lock keyed_signature_ref
            workspace options)
  unfolding resolve_package
  resolve_package-Holds workspace options =
      Holds-bind IsComplete (map_error platform (world.fs.exists _)) _ (λ found h.
        elim (Bool-cases found) [
          | inl e ↦ rw e (resolve_manifest-IsComplete workspace options _)
          | inr e ↦ rw e refl
        ])

  -- A package that resolves has one resolved dependency for each dependency of its manifest, in their
  -- order and under their names, and none at all without a manifest; where the environment rejects
  -- `replace`, no dependency of it has one.
  pub resolve_package-IsComplete :
      (workspace : Text) (options : ResolveOptions) (resolved : ResolvedPackage)
      → resolve_package world parse_provenance parse_manifest parse_lock keyed_signature_ref
          workspace options
        ≡ ok resolved
      → IsComplete resolved
  resolve_package-IsComplete workspace options resolved h =
      subst (Holds IsComplete) h (resolve_package-Holds workspace options)
