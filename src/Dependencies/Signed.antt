-- ===== src/Dependencies/Signed.antt =====
-- With a cosign key, every way of resolving an OCI dependency ends in trusted files.
use akuapkg.Common.{
  Text, Bool, true, false, not, ◌&&◌, ◌||◌, Option, none, some, ◌≡◌, ◌⊎◌, refl, sym, ap, subst, inl,
  inr, Bool-cases, not-false, Option-cases, ◌∙◌,
}
use akuapkg.Common.Result.{Result, ok, Holds, Holds-bind, Holds-fail_if}
use akuapkg.HostFs.{map_error, map_error-eq-ok, is_directory}
use akuapkg.Lock.{LockedPackage}
use akuapkg.Manifest.{DependencySpec, crd_selector}
use akuapkg.Dependencies.{is_helm, is_oci}
use akuapkg.Dependencies.Sources.{
  World, DependencyRequest, DependencyTree, SourceTree, ResolvedDependency, ResolveError,
  FetchError, oci_code,
}
use akuapkg.Dependencies.Crds.{Provenance, GeneratedTree}
use akuapkg.Dependencies.Trees.{from_directory, vendored_at}
use akuapkg.Dependencies.Fetch.{
  spec_of, needed_signature, is_some_text, signature_of, is_vouched, vendored_digest, vouched_tree,
  pull_request, fetched_tree, unreplaced_tree, replaced_or_not, resolve_source_tree, fetch_error,
}
use akuapkg.Dependencies.Resolve.{
  is_changed, files_digest, is_stale, is_signed, from_generated, from_source, generated_tree,
  from_either, resolve_dependency, generated_dependency,
}
use akuapkg.Dependencies.Trusted.{
  IsLocked, is_vouched-IsLocked, last_false, recorded-IsLocked, source_digest_cases, digest_of-map,
  IsVendored, IsTrusted, IsTreeOf, from_directory-IsTreeOf,
}

module _ (world : World) (request : DependencyRequest) (reference version trusted : Text)
    (oci : spec_of request ≡ DependencySpec.oci reference version)
    (needed : request.trusted_signature ≡ some trusted) where
  abbrev IsTrustedSource : SourceTree → Type 0
  IsTrustedSource source =
      IsTrusted world request reference version trusted source.tree.files source.digest
        source.locked.signature

  needed_here : needed_signature request ≡ some trusted
  needed_here = rw oci needed

  abbrev vendored : Text
  vendored = vendored_at world request.workspace request.name

  -- the digest that the lock must have is the tree's own, or the lock's if the tree is the vendored one
  vendored_digest_cases :
      (tree : DependencyTree) (entry : LockedPackage)
      → IsLocked request trusted (vendored_digest request tree) entry
      → (entry.vendor_digest ≡ some tree.digest) ⊎ (entry.digest ≡ tree.digest)
  vendored_digest_cases tree entry (listed, signed, same) =
      elim (source_digest_cases request.locked tree.digest) [
        | inl (other, e, k) ↦
            let one : other ≡ entry = cc in
            inl (subst (λ (x : LockedPackage). x.vendor_digest ≡ some tree.digest) one k)
        | inr e ↦
            let own : vendored_digest request tree ≡ tree.digest =
              rw (e, vendored_digest) (rw oci refl) in
            inr (same ∙ own)
      ]

  vouched-IsVendored :
      (tree : DependencyTree)
      → IsTreeOf world request reference version trusted vendored tree
      → is_vouched request.locked trusted (vendored_digest request tree) ≡ true
      → IsVendored world request reference version trusted tree.files
          (vendored_digest request tree)
          (some trusted)
  vouched-IsVendored tree (loaded, files, same) h =
      let (entry, locked) =
        is_vouched-IsLocked request request.locked trusted (vendored_digest request tree) refl h in
      (
        entry,
        loaded,
        locked,
        files,
        subst (λ d. (entry.vendor_digest ≡ some d) ⊎ (entry.digest ≡ d)) same
            (vendored_digest_cases tree entry locked),
        refl,
      )

  vouched_tree-IsTrusted :
      (tree : DependencyTree)
      → IsTreeOf world request reference version trusted vendored tree
      → Holds IsTrustedSource (vouched_tree world request tree)
  unfolding vouched_tree
  vouched_tree-IsTrusted tree h =
      elim (Bool-cases (is_vouched request.locked trusted (vendored_digest request tree))) [
        | inl e ↦ rw (needed_here, vouched_tree) (rw e (inr (inl (vouched-IsVendored tree h e))))
        | inr e ↦ rw (needed_here, vouched_tree) (rw e tt)
      ]

  tree_of :
      (directory : Text) (scoped : Bool) (tree : DependencyTree)
      → from_directory world request.name directory scoped ≡ ok tree
      → IsTreeOf world request reference version trusted directory tree
  tree_of directory scoped tree h =
      subst (Holds (IsTreeOf world request reference version trusted directory)) h (
        from_directory-IsTreeOf world request reference version trusted request.name directory
          scoped)

  fetched_tree-IsTrusted :
      (scoped : Bool)
      → Holds IsTrustedSource
          (fetched_tree world request scoped (DependencySpec.oci reference version))
  unfolding fetched_tree
  fetched_tree-IsTrusted scoped =
      let pull = world.pull (pull_request world request reference version) in
      let fail : FetchError → ResolveError =
        λ e. fetch_error request.name (oci_code e.code) e.drift e in
      Holds-bind IsTrustedSource (map_error fail pull) _ (λ pulled h.
        Holds-bind IsTrustedSource (from_directory world request.name pulled.directory scoped) _
          (λ tree k.
            let (loaded, files, same) = tree_of pulled.directory scoped tree k in
            inl (
              pull_request world request reference version,
              pulled,
              loaded,
              map_error-eq-ok fail pull pulled h,
              refl,
              refl,
              digest_of-map request.pinned,
              refl,
              files,
              refl,
              refl,
            )))

  unreplaced_tree-IsTrusted :
      (scoped : Bool) → Holds IsTrustedSource (unreplaced_tree world request scoped)
  unfolding unreplaced_tree
  unreplaced_tree-IsTrusted scoped =
      let directory = vendored_at world request.workspace request.name in
      elim (Bool-cases (not (is_helm (spec_of request)) && is_directory world.fs directory)) [
        | inl e ↦ rw e (
            Holds-bind IsTrustedSource (from_directory world request.name directory scoped) _
              (λ tree k. vouched_tree-IsTrusted tree (tree_of directory scoped tree k)))
        | inr e ↦ rw e (
            subst (λ s. Holds IsTrustedSource (fetched_tree world request scoped s)) (sym oci)
              (fetched_tree-IsTrusted scoped))
      ]

  source_tree-IsTrusted :
      (scoped : Bool)
      → request.dependency.replace ≡ none
      → Holds IsTrustedSource (resolve_source_tree world request scoped)
  unfolding resolve_source_tree
  source_tree-IsTrusted scoped h =
      subst (λ o. Holds IsTrustedSource (replaced_or_not world request scoped o)) (sym h)
        (unreplaced_tree-IsTrusted scoped)

  is_signed_here :
      not (is_signed world request) ≡ false
      → is_some_text (signature_of request.locked) trusted ≡ true
  is_signed_here h = not-false _ (
      subst
        (λ o.
          not (elim o [ none ↦ true | some t ↦ is_some_text (signature_of request.locked) t ])
          ≡ false)
        needed_here h)

  abbrev IsTrustedDependency : ResolvedDependency → Type 0
  IsTrustedDependency r =
      IsTrusted world request reference version trusted r.files r.digest r.locked.signature

  generated-IsTrusted :
      (selector : Text) (tree : GeneratedTree)
      → is_stale world request selector tree ≡ false
      → not (is_signed world request) ≡ false
      → IsTrustedDependency (generated_dependency world request selector tree)
  generated-IsTrusted selector tree fresh signed =
      let (entry, locked, same) =
        recorded-IsLocked request request.locked trusted tree.provenance.digest
          (files_digest world tree) refl
          (last_false (is_changed request selector tree.provenance) _ fresh)
          (is_signed_here signed) in
      inr (inr (entry, locked, same, ap signature_of locked.0 ∙ locked.1))

  from_generated-IsTrusted :
      (selector : Text) (tree : GeneratedTree)
      → Holds IsTrustedDependency (from_generated world request selector tree)
  unfolding from_generated
  from_generated-IsTrusted selector tree =
      Holds-fail_if IsTrustedDependency (is_stale world request selector tree) _ _ (λ fresh.
        Holds-fail_if IsTrustedDependency (not (is_signed world request)) _ _
          (λ signed. generated-IsTrusted selector tree fresh signed))

  module _ (parse_provenance : Text → Result Text Provenance)
      (unreplaced : request.dependency.replace ≡ none) where
    from_source-IsTrusted :
        (selector : Text) → Holds IsTrustedDependency (from_source world request selector)
    unfolding from_source
    from_source-IsTrusted selector =
        Holds-bind IsTrustedDependency
          (resolve_source_tree world request
            (is_oci (spec_of request) || is_helm (spec_of request)))
          _
          (λ source k. subst (Holds IsTrustedSource) k (
            source_tree-IsTrusted (is_oci (spec_of request) || is_helm (spec_of request))
              unreplaced))

    from_either-IsTrusted :
        (selector : Text) (o : Option GeneratedTree)
        → Holds IsTrustedDependency (from_either world parse_provenance request selector o)
    from_either-IsTrusted selector none = from_source-IsTrusted selector
    from_either-IsTrusted selector (some tree) = from_generated-IsTrusted selector tree

    resolved-Holds : Holds IsTrustedDependency (resolve_dependency world parse_provenance request)
    unfolding resolve_dependency
    resolved-Holds = elim (Option-cases (crd_selector request.dependency)) [
      | inl e ↦
          rw (e, resolve_dependency)
            (Holds-bind IsTrustedDependency (resolve_source_tree world request true) _
              (λ source k. subst (Holds IsTrustedSource) k (source_tree-IsTrusted true unreplaced)))
      | inr (selector, e) ↦
          rw (e, resolve_dependency)
            (Holds-bind IsTrustedDependency (generated_tree world parse_provenance request) _
              (λ generated k. from_either-IsTrusted selector generated))
    ]

    -- An OCI dependency without `replace`, with a signature of the configured cosign key to be required,
    -- resolves only to files of one of three kinds. Either they are in the directory that a pull gave,
    -- which was asked for the declared reference and version with the pinned digest and the configured
    -- key, and carry that pull's digest and signature. Or they are in the vendored directory, and the
    -- lock's entry has the required signature, and either pins the digest of that directory's files as
    -- its own digest or as its vendor digest. Or they are generated schemas whose digest the lock's entry
    -- pins, and the entry has the required signature and the digest they were generated from.
    pub resolve_dependency-IsTrusted :
        (resolved : ResolvedDependency)
        → resolve_dependency world parse_provenance request ≡ ok resolved
        → IsTrusted world request reference version trusted resolved.files resolved.digest
            resolved.locked.signature
    resolve_dependency-IsTrusted resolved h = subst (Holds IsTrustedDependency) h resolved-Holds
