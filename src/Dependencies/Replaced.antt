-- ===== src/Dependencies/Replaced.antt =====
-- One dependency: the result has its name, and no `replace` is taken where it is rejected.
use akuapkg.Common.{
  Text, Bool, true, false, not, ◌&&◌, ◌||◌, Option, none, some, is_none, ◌≡◌, refl, sym, ap, subst,
  inl, inr, ◌∙◌, Bool-cases, Option-cases, arith,
}
use akuapkg.Common.Result.{Result, ok, ◌>>=◌, Holds, Holds-bind, Holds-fail_if, Holds-mono}
use akuapkg.HostFs.{map_error, is_directory}
use akuapkg.Manifest.{DependencySpec, crd_selector}
use akuapkg.Snapshot.Load.{load_snapshot}
use akuapkg.Dependencies.{is_helm, is_oci}
use akuapkg.Dependencies.Sources.{
  World, DependencyRequest, DependencyTree, SourceTree, ResolvedDependency, ResolveError,
}
use akuapkg.Dependencies.Crds.{Provenance, GeneratedTree}
use akuapkg.Dependencies.Trees.{
  from_directory, load_failed, workspace_target, from_workspace_path, vendored_at,
}
use akuapkg.Dependencies.Fetch.{
  spec_of, needed_signature, is_vouched, vendored_digest, replaced_tree, vouched_tree, fetched_tree,
  unreplaced_tree, replaced_or_not, resolve_source_tree,
}
use akuapkg.Dependencies.Resolve.{
  is_stale, is_signed, uses_generated, from_generated, from_source, generated_tree, from_either,
  resolve_dependency,
}

no_both : (b : Bool) → b ≡ false → b ≡ true → ⊥
no_both b h k = cc

is_none_here {ℓ} : {A : Type ℓ} (o : Option A) → is_none o ≡ true → o ≡ none
is_none_here none h = refl
is_none_here (some a) h = cc

middle_true : (a b c : Bool) → (a && b && c) ≡ true → b ≡ true
middle_true a b c h = ground (arith, h)

module _ (world : World) where
  from_directory-Holds :
      (name directory : Text) (scoped : Bool)
      → Holds (λ tree. tree.name ≡ name) (from_directory world name directory scoped)
  unfolding from_directory
  from_directory-Holds name directory scoped =
      Holds-bind (λ tree. tree.name ≡ name)
        (map_error (load_failed name) (load_snapshot world.fs directory)) _ (λ files h. refl)

  from_workspace_path-Holds :
      (workspace name requested : Text) (scoped : Bool)
      → Holds (λ tree. tree.name ≡ name) (from_workspace_path world workspace name requested scoped)
  unfolding from_workspace_path
  from_workspace_path-Holds workspace name requested scoped =
      Holds-bind (λ tree. tree.name ≡ name) (workspace_target world workspace name requested) _
        (λ target h. from_directory-Holds name target scoped)

  module _ (request : DependencyRequest) where
    abbrev IsNamed : SourceTree → Type 0
    IsNamed source = source.tree.name ≡ request.name

    vouched_tree-IsNamed :
        (tree : DependencyTree)
        → tree.name ≡ request.name
        → Holds IsNamed (vouched_tree world request tree)
    unfolding vouched_tree
    vouched_tree-IsNamed tree h = elim (Option-cases (needed_signature request)) [
      | inl e ↦ rw (e, vouched_tree) h
      | inr (trusted, e) ↦
          elim (Bool-cases (is_vouched request.locked trusted (vendored_digest request tree))) [
            | inl k ↦ rw (e, vouched_tree) (rw k h)
            | inr k ↦ rw (e, vouched_tree) (rw k tt)
          ]
    ]

    tree-IsNamed :
        {X : Type 0} (r : Result ResolveError X) (directory : X → Text) (scoped : Bool)
        (next : X → DependencyTree → SourceTree)
        → ((x : X) (tree : DependencyTree) → (next x tree).tree ≡ tree)
        → Holds IsNamed (
            r >>= λ x.
            from_directory world request.name (directory x) scoped >>= λ tree. ok (next x tree))
    tree-IsNamed r directory scoped next same = Holds-bind IsNamed r _ (λ x h.
        Holds-bind IsNamed (from_directory world request.name (directory x) scoped) _ (λ tree k.
          ap (λ (t : DependencyTree). t.name) (same x tree)
          ∙ subst (Holds (λ (t : DependencyTree). t.name ≡ request.name)) k
              (from_directory-Holds request.name (directory x) scoped)))

    fetched_tree-IsNamed :
        (scoped : Bool) (spec : DependencySpec)
        → Holds IsNamed (fetched_tree world request scoped spec)
    unfolding fetched_tree
    fetched_tree-IsNamed scoped (DependencySpec.path p) =
        Holds-bind IsNamed (from_workspace_path world request.workspace request.name p scoped) _
          (λ tree k.
            subst (Holds (λ (t : DependencyTree). t.name ≡ request.name)) k
              (from_workspace_path-Holds request.workspace request.name p scoped))
    fetched_tree-IsNamed scoped (DependencySpec.oci reference version) =
        tree-IsNamed _ (λ pulled. pulled.directory) scoped _ (λ x tree. refl)
    fetched_tree-IsNamed scoped (DependencySpec.helm repo chart version) =
        tree-IsNamed _ (λ fetched. fetched.directory) scoped _ (λ x tree. refl)
    fetched_tree-IsNamed scoped (DependencySpec.git address tag rev) =
        tree-IsNamed _ (λ fetched. fetched.directory) scoped _ (λ x tree. refl)
    fetched_tree-IsNamed scoped (DependencySpec.url address) =
        tree-IsNamed _ (λ fetched. fetched.directory) scoped _ (λ x tree. refl)

    -- the name, and no `replace` where it is rejected
    abbrev pub IsAllowed : Text → Type 0
    IsAllowed name =
        (name ≡ request.name) × (request.reject_replace ≡ true → request.dependency.replace ≡ none)

    abbrev IsAllowedSource : SourceTree → Type 0
    IsAllowedSource source = IsAllowed source.tree.name

    unreplaced_tree-IsNamed : (scoped : Bool) → Holds IsNamed (unreplaced_tree world request scoped)
    unfolding unreplaced_tree
    unreplaced_tree-IsNamed scoped =
        let directory = vendored_at world request.workspace request.name in
        elim (Bool-cases (not (is_helm (spec_of request)) && is_directory world.fs directory)) [
          | inl e ↦ rw e (
              Holds-bind IsNamed (from_directory world request.name directory scoped) _ (λ tree k.
                vouched_tree-IsNamed tree (
                  subst (Holds (λ (t : DependencyTree). t.name ≡ request.name)) k
                    (from_directory-Holds request.name directory scoped))))
          | inr e ↦ rw e (fetched_tree-IsNamed scoped (spec_of request))
        ]

    replaced_tree-IsAllowed :
        (target : Text) (scoped : Bool)
        → Holds IsAllowedSource (replaced_tree world request target scoped)
    unfolding replaced_tree
    replaced_tree-IsAllowed target scoped =
        Holds-fail_if IsAllowedSource request.reject_replace _ _ (λ allowed.
          Holds-bind IsAllowedSource
            (from_workspace_path world request.workspace request.name target scoped) _
            (λ tree k. (
              subst (Holds (λ (t : DependencyTree). t.name ≡ request.name)) k
                  (from_workspace_path-Holds request.workspace request.name target scoped),
              λ rejected. absurd (no_both request.reject_replace allowed rejected),
            )))

    resolve_source_tree-IsAllowed :
        (scoped : Bool) → Holds IsAllowedSource (resolve_source_tree world request scoped)
    unfolding resolve_source_tree
    resolve_source_tree-IsAllowed scoped = elim (Option-cases request.dependency.replace) [
      | inl e ↦
          subst (λ o. Holds IsAllowedSource (replaced_or_not world request scoped o)) (sym e)
            (Holds-mono (λ source named. (named, λ rejected. e))
              (unreplaced_tree world request scoped) (unreplaced_tree-IsNamed scoped))
      | inr (target, e) ↦
          subst (λ o. Holds IsAllowedSource (replaced_or_not world request scoped o)) (sym e)
            (replaced_tree-IsAllowed target scoped)
    ]

    abbrev pub IsAllowedDependency : ResolvedDependency → Type 0
    IsAllowedDependency resolved = IsAllowed resolved.name

    from_source-IsAllowed :
        (selector : Text) → Holds IsAllowedDependency (from_source world request selector)
    unfolding from_source
    from_source-IsAllowed selector =
        Holds-bind IsAllowedDependency
          (resolve_source_tree world request
            (is_oci (spec_of request) || is_helm (spec_of request)))
          _
          (λ source k.
            subst (Holds IsAllowedSource) k (
              resolve_source_tree-IsAllowed
                (is_oci (spec_of request) || is_helm (spec_of request))))

    from_generated-IsAllowed :
        (selector : Text) (tree : GeneratedTree)
        → request.dependency.replace ≡ none
        → Holds IsAllowedDependency (from_generated world request selector tree)
    unfolding from_generated
    from_generated-IsAllowed selector tree h =
        Holds-fail_if IsAllowedDependency (is_stale world request selector tree) _ _ (λ fresh.
          Holds-fail_if IsAllowedDependency (not (is_signed world request)) _ _
            (λ signed. (refl, λ rejected. h)))

    module _ (parse_provenance : Text → Result Text Provenance) where
      generated_tree-unreplaced :
          (tree : GeneratedTree)
          → generated_tree world parse_provenance request ≡ ok (some tree)
          → request.dependency.replace ≡ none
      generated_tree-unreplaced tree h = elim (Bool-cases (uses_generated request)) [
        | inl e ↦ is_none_here request.dependency.replace (middle_true _ _ _ e)
        | inr e ↦ absurd (ground (arith, e, h))
      ]

      from_either-IsAllowed :
          (selector : Text) (o : Option GeneratedTree)
          → generated_tree world parse_provenance request ≡ ok o
          → Holds IsAllowedDependency (from_either world parse_provenance request selector o)
      from_either-IsAllowed selector none h = from_source-IsAllowed selector
      from_either-IsAllowed selector (some tree) h =
          from_generated-IsAllowed selector tree (generated_tree-unreplaced tree h)

      pub resolve_dependency-IsAllowed :
          Holds IsAllowedDependency (resolve_dependency world parse_provenance request)
      unfolding resolve_dependency
      resolve_dependency-IsAllowed = elim (Option-cases (crd_selector request.dependency)) [
        | inl e ↦
            rw (e, resolve_dependency)
              (Holds-bind IsAllowedDependency (resolve_source_tree world request true) _
                (λ source k. subst (Holds IsAllowedSource) k (resolve_source_tree-IsAllowed true)))
        | inr (selector, e) ↦
            rw (e, resolve_dependency)
              (Holds-bind IsAllowedDependency (generated_tree world parse_provenance request) _
                (λ generated k. from_either-IsAllowed selector generated k))
      ]
