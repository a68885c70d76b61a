-- ===== src/Dependencies/Crds.antt =====
-- host/src/crds.effect.ts: the generated schemas of a dependency under `.akua/crds/`. The TOML parser
-- with the schema decoder is third-party, an argument.
use akuapkg.Common.{ℕ, Text, text, false, Option, none, some, List, [], ◌∷◌, ◌++◌, if◌then◌else◌}
use akuapkg.Common.Result.{Result, ok, ◌>>=◌}
use akuapkg.HostFs.{HostFs, map_error, or_succeed}
use akuapkg.Manifest.{kcl_ident}
use akuapkg.Snapshot.{Snapshot}
use akuapkg.Snapshot.Load.{LoadError, load_snapshot}
use akuapkg.Snapshot.Digest.{content_of}

pub record Provenance : Type 0 where
  pub dependency : Text
  pub source : Text
  pub version : Text
  pub crds : Text
  pub digest : Text
  pub converter : Text

pub record GeneratedTree : Type 0 where
  pub directory : Text
  pub files : Snapshot
  pub provenance : Provenance

-- a CrdsInvalid, with the file and the cause, or an error of `loadSnapshot`
pub data CrdsProblem : Type 0 where
  crds_unreadable : Text → Text → CrdsProblem
  crds_load : LoadError → CrdsProblem

module _ (fs : HostFs) (decode : List ℕ → Text)
    (parse_provenance : Text → Result Text Provenance) where
  abbrev pub read_tree : Text → Result CrdsProblem GeneratedTree
  read_tree directory = do
    files ← map_error crds_load (load_snapshot fs directory)
    provenance ←
        map_error (crds_unreadable (directory ++ text "/source.toml"))
          (parse_provenance (decode (content_of files (text "source.toml"))))
    ok (record { directory = directory; files = files; provenance = provenance })

  unfoldable pub read_generated_crds : Text → Text → Result CrdsProblem (Option GeneratedTree)
  read_generated_crds workspace dependency =
      let directory = fs.join_path (workspace ∷ text ".akua/crds" ∷ kcl_ident dependency ∷ []) in
      if or_succeed false (fs.exists (fs.join_path (directory ∷ text "source.toml" ∷ [])))
      then (do tree ← read_tree directory; ok (some tree))
      else ok none
