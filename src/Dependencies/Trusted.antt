-- ===== src/Dependencies/Trusted.antt =====
-- What makes the files of an OCI dependency trusted: the pull they come from, or the lock's record of
-- them; and what the checks of the lock show.
use mathlib.Core.Option
use akuapkg.Dependencies.Kinds.{detect_kind}
use akuapkg.Snapshot.Digest.{tree_digest}
use akuapkg.Snapshot.Load.{load_snapshot}
use akuapkg.Snapshot.{Snapshot, subtree}
use akuapkg.Common.{
  Text, text_eq_iff, Bool, true, false, not, ◌||◌, Option, none, some, ◌≡◌, ◌⊎◌, refl, ap, inl, inr,
  Bool-cases, arith, text, [], ◌∷◌, if◌then◌else◌,
}
use akuapkg.Common.Result.{ok, Holds, Holds-bind}
use akuapkg.HostFs.{map_error, map_error-eq-ok}
use akuapkg.Lock.{LockedPackage}
use akuapkg.Dependencies.Sources.{World, DependencyRequest, DependencyTree, Pulled, PullRequest}
use akuapkg.Dependencies.Trees.{from_directory, load_failed}
use akuapkg.Dependencies.Fetch.{is_some_text, signature_of, is_vouched, source_digest, digest_of}
use akuapkg.Dependencies.Resolve.{is_recorded}

is_some_text_sound : (o : Option Text) (t : Text) → is_some_text o t ≡ true → o ≡ some t
is_some_text_sound none t h = cc
is_some_text_sound (some s) t h = ap some ((text_eq_iff s t).0 h)

-- the entry that the lock has for the request records that digest with that signature
abbrev pub IsLocked : DependencyRequest → Text → Text → LockedPackage → Type 0
IsLocked request trusted digest entry =
    (request.locked ≡ some entry) × (entry.signature ≡ some trusted) × (entry.digest ≡ digest)

pub is_vouched-IsLocked :
    (request : DependencyRequest) (locked : Option LockedPackage) (trusted digest : Text)
    → request.locked ≡ locked
    → is_vouched locked trusted digest ≡ true
    → (entry : LockedPackage) × IsLocked request trusted digest entry
unfolding is_vouched
is_vouched-IsLocked request none trusted digest e h = cc
is_vouched-IsLocked request (some entry) trusted digest e h =
    elim (Bool-cases (is_some_text entry.signature trusted)) [
      | inl k ↦ (
        entry,
        (
          e,
          is_some_text_sound entry.signature trusted k,
          (text_eq_iff entry.digest digest).0 (ground (arith, h, k)),
        ),
      )
      | inr k ↦ absurd (ground (arith, h, k))
    ]

pub last_false : (a r : Bool) → (a || not r) ≡ false → r ≡ true
last_false a r h = ground (arith, h)

pub recorded-IsLocked :
    (request : DependencyRequest) (locked : Option LockedPackage) (trusted digest schemas : Text)
    → request.locked ≡ locked
    → is_recorded locked digest schemas ≡ true
    → is_some_text (signature_of locked) trusted ≡ true
    → (entry : LockedPackage) × IsLocked request trusted digest entry
      × (entry.crds_digest ≡ some schemas)
unfolding is_recorded
recorded-IsLocked request none trusted digest schemas e h k = cc
recorded-IsLocked request (some entry) trusted digest schemas e h k = (
  entry,
  (
    e,
    is_some_text_sound entry.signature trusted k,
    (text_eq_iff entry.digest digest).0 (ground (arith, h)),
  ),
  is_some_text_sound entry.crds_digest schemas (ground (arith, h)),
)

-- `vendor_digest` stands for the lock's digest only where it is that of the tree
pub source_digest_cases :
    (locked : Option LockedPackage) (digest : Text)
    → ((entry : LockedPackage) × (locked ≡ some entry) × (entry.vendor_digest ≡ some digest))
      ⊎ (source_digest locked digest ≡ none)
unfolding source_digest
source_digest_cases none digest = inr refl
source_digest_cases (some entry) digest =
    elim (Bool-cases (is_some_text entry.vendor_digest digest)) [
      | inl e ↦ inl (entry, refl, is_some_text_sound entry.vendor_digest digest e)
      | inr e ↦ inr (rw e refl)
    ]

pub digest_of-map :
    (o : Option LockedPackage)
    → digest_of o ≡ Option.map (λ (entry : LockedPackage). entry.digest) o
digest_of-map none = refl
digest_of-map (some entry) = refl

module _ (world : World) (request : DependencyRequest) (reference version trusted : Text) where
  -- what a directory holds, and the files of it that are used: all, or those below a prefix
  abbrev pub IsLoaded : Text → Snapshot → Snapshot → Type 0
  IsLoaded directory loaded files =
      (load_snapshot world.fs directory ≡ ok loaded)
      × ((prefix : Text) × (files ≡ subtree loaded prefix))

  abbrev pub digest_of_tree : Snapshot → Text
  digest_of_tree files = tree_digest world.encode world.hash files

  -- the files are in the directory that a pull gave, which was asked for the declared reference and
  -- version, the pinned digest and a check with the configured key; digest and signature are the pull's
  abbrev pub IsPulled : Snapshot → Text → Option Text → Type 0
  IsPulled files digest signature =
      (sent : PullRequest) × (pulled : Pulled) × (loaded : Snapshot) × (world.pull sent ≡ ok pulled)
      × (sent.reference ≡ reference)
      × (sent.version ≡ version)
      × (sent.pin ≡ Option.map (λ (entry : LockedPackage). entry.digest) request.pinned)
      × (sent.cosign_public_key ≡ request.cosign_public_key)
      × IsLoaded pulled.directory loaded files
      × (digest ≡ pulled.digest)
      × (signature ≡ pulled.signature)

  -- the files are in the vendored directory, and the lock records the key's signature for a tree of
  -- that digest: the tree's own, or the one it was vendored from
  abbrev pub IsVendored : Snapshot → Text → Option Text → Type 0
  IsVendored files digest signature =
      (entry : LockedPackage) × (loaded : Snapshot) × IsLocked request trusted digest entry
      × IsLoaded (world.fs.join_path (request.workspace ∷ text ".akua/vendor" ∷ request.name ∷ []))
          loaded files
      × ((entry.vendor_digest ≡ some (digest_of_tree loaded))
          ⊎ (entry.digest ≡ digest_of_tree loaded))
      × (signature ≡ some trusted)

  -- the files are schemas whose digest the lock records beside the source's, with the key's signature
  abbrev pub IsGenerated : Snapshot → Text → Option Text → Type 0
  IsGenerated files digest signature =
      (entry : LockedPackage) × IsLocked request trusted digest entry
      × (entry.crds_digest ≡ some (digest_of_tree files))
      × (signature ≡ some trusted)

  abbrev pub IsTrusted : Snapshot → Text → Option Text → Type 0
  IsTrusted files digest signature =
      IsPulled files digest signature
      ⊎ IsVendored files digest signature
      ⊎ IsGenerated files digest signature

  -- a tree of a directory
  abbrev pub IsTreeOf : Text → DependencyTree → Type 0
  IsTreeOf directory tree =
      (loaded : Snapshot) × IsLoaded directory loaded tree.files
      × (tree.digest ≡ digest_of_tree loaded)

  pub from_directory-IsTreeOf :
      (name directory : Text) (scoped : Bool)
      → Holds (IsTreeOf directory) (from_directory world name directory scoped)
  unfolding from_directory
  from_directory-IsTreeOf name directory scoped =
      Holds-bind (IsTreeOf directory)
        (map_error (load_failed name) (load_snapshot world.fs directory)) _
        (λ loaded h. (
          loaded,
          (
            map_error-eq-ok (load_failed name) (load_snapshot world.fs directory) loaded h,
            ((if scoped then (detect_kind loaded).1 else []), refl),
          ),
          refl,
        ))
