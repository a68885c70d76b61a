-- ===== src/Dependencies/Package.antt =====
-- host/src/dependencies.effect.ts: `resolvePackage`; host/src/agent.ts: `agentDetected`. The parsers
-- of a provenance file, a manifest and a lock, and the reference of a cosign key, are arguments.
use akuapkg.Common.{
  Text, text, text_eq, Bool, true, false, not, ◌||◌, Option, none, some, List, [], ◌∷◌, any,
  if◌then◌else◌,
}
use akuapkg.Common.Result.{Result, ok, err, ◌>>=◌}
use akuapkg.HostFs.{FsError, map_error}
use akuapkg.Lock.{Lock, LockInvalid, LockedPackage, packages, pinned_entries}
use akuapkg.Manifest.{Manifest, Signing, Dependency, Problem, dependencies}
use akuapkg.Dependencies.{lock_entry_for}
use akuapkg.Dependencies.Sources.{
  World, DependencyRequest, ResolvedDependency, ResolveOptions, PinScope, all_pins, oci_pins,
  no_pins, ResolveError, platform, manifest_invalid, unresolved_with, cosign_verify, unreadable_key,
  bad_key,
}
use akuapkg.Dependencies.Crds.{Provenance}
use akuapkg.Dependencies.Resolve.{resolve_dependency}

-- a variable that is set and not empty
abbrev pub is_set : (Text → Option Text) → Text → Bool
is_set variable name = elim (variable name) [ none ↦ false | some value ↦ not (text_eq value []) ]

abbrev pub agent_variables : List Text
agent_variables =
    text "AGENT"
    ∷ text "CLAUDECODE"
    ∷ text "GEMINI_CLI"
    ∷ text "CURSOR_CLI"
    ∷ text "AKUA_AGENT"
    ∷ []

unfoldable pub agent_detected : (Text → Option Text) → Bool
agent_detected variable =
    if is_set variable (text "AKUA_NO_AGENT_DETECT")
    then false
    else any (is_set variable) agent_variables

abbrev pub is_value : Option Text → Text → Bool
is_value none value = false
is_value (some found) value = text_eq found value

unfoldable pub rejects_replace : (Text → Option Text) → Bool
rejects_replace variable =
    is_value (variable (text "AKUA_REJECT_REPLACE")) (text "1") || agent_detected variable

abbrev pub pin_scope : Option PinScope → PinScope
pin_scope none = all_pins
pin_scope (some scope) = scope

abbrev pub scoped_pins : PinScope → Lock → List LockedPackage
scoped_pins no_pins lock = []
scoped_pins oci_pins lock = pinned_entries lock true
scoped_pins all_pins lock = pinned_entries lock false

unfoldable pub pins_of : PinScope → Option Lock → List LockedPackage
pins_of scope none = []
pins_of scope (some lock) = scoped_pins scope lock

unfoldable pub entries_of : Option Lock → List LockedPackage
entries_of none = []
entries_of (some lock) = packages lock

abbrev pub key_path : Option Signing → Option Text
key_path none = none
key_path (some signing) = signing.cosign_public_key

abbrev pub signs : Option Bool → Bool
signs none = true
signs (some b) = b

pub record ResolvedPackage : Type 0 where
  pub manifest : Option Manifest
  pub dependencies : List ResolvedDependency

module _ (keyed_signature_ref : Text → Result Text Text) where
  abbrev pub trusted_ref : Option Text → Result ResolveError (Option Text)
  trusted_ref none = ok none
  trusted_ref (some key) = do
    ref ←
        map_error (λ message. unresolved_with (text "[signing]") cosign_verify (bad_key message))
          (keyed_signature_ref key)
    ok (some ref)

module _ (world : World) where
  unfoldable pub configured_cosign_key : Text → Manifest → Result ResolveError (Option Text)
  configured_cosign_key workspace manifest = elim (key_path manifest.signing) [
    | none ↦ ok none
    | some configured ↦
        let file = world.fs.join_path (workspace ∷ configured ∷ []) in
        (do
          key ←
              map_error
                (λ e.
                  unresolved_with (text "[signing]") cosign_verify (unreadable_key file e.message))
                (world.fs.read_file_string file)
          ok (some key))
  ]

  abbrev pub cosign_key : Text → Manifest → ResolveOptions → Result ResolveError (Option Text)
  cosign_key workspace manifest options =
      if signs options.verify_signatures then configured_cosign_key workspace manifest else ok none

  abbrev pub request_of :
      Text
      → ResolveOptions
      → Option Lock
      → Option Text
      → Option Text
      → Text × Dependency
      → DependencyRequest
  request_of workspace options lock key trusted (name, dependency) = record {
    workspace = workspace;
    name = name;
    dependency = dependency;
    pinned = lock_entry_for (pins_of (pin_scope options.pins) lock) name dependency;
    locked = lock_entry_for (entries_of lock) name dependency;
    reject_replace = rejects_replace world.variable;
    cosign_public_key = key;
    trusted_signature = trusted;
    options = options;
  }

  module _ (parse_lock : Text → Text → Result LockInvalid Lock) where
    abbrev pub parsed_lock : Text → Result FsError Text → Option Lock
    parsed_lock path (err e) = none
    parsed_lock path (ok source) = elim (parse_lock source path) [
      | ok lock ↦ some lock
      | err e ↦ none
    ]

    -- a broken lock counts as none
    unfoldable pub read_lock : Text → Result ResolveError (Option Lock)
    read_lock path = do
      found ← map_error platform (world.fs.exists path)
      ok (if found then parsed_lock path (world.fs.read_file_string path) else none)

  module _ (parse_provenance : Text → Result Text Provenance) where
    -- `Effect.forEach`, one after another, up to the first failure
    unfoldable pub resolve_all :
        (Text × Dependency → DependencyRequest)
        → List (Text × Dependency)
        → Result ResolveError (List ResolvedDependency)
    resolve_all request [] = ok []
    resolve_all request (entry ∷ rest) = do
      resolved ← resolve_dependency world parse_provenance (request entry)
      others ← resolve_all request rest
      ok (resolved ∷ others)

    module _ (parse_manifest : Text → Text → Result Problem Manifest)
        (parse_lock : Text → Text → Result LockInvalid Lock)
        (keyed_signature_ref : Text → Result Text Text) where
      unfoldable pub resolve_manifest :
          Text → ResolveOptions → Text → Result ResolveError ResolvedPackage
      resolve_manifest workspace options path = do
        source ← map_error platform (world.fs.read_file_string path)
        manifest ← map_error manifest_invalid (parse_manifest source path)
        lock ← read_lock parse_lock (world.fs.join_path (workspace ∷ text "akua.lock" ∷ []))
        key ← cosign_key workspace manifest options
        trusted ← trusted_ref keyed_signature_ref key
        resolved ←
            resolve_all (request_of workspace options lock key trusted) (dependencies manifest)
        ok (record { manifest = some manifest; dependencies = resolved })

      unfoldable pub resolve_package : Text → ResolveOptions → Result ResolveError ResolvedPackage
      resolve_package workspace options =
          let path = world.fs.join_path (workspace ∷ text "akua.toml" ∷ []) in
          (do
            found ← map_error platform (world.fs.exists path)
            if found
                then resolve_manifest workspace options path
                else ok (record { manifest = none; dependencies = [] }))
