-- ===== src/HostErrors/Catalog.antt =====
-- host/src/error-catalog.ts: the code and the section of every entry; its prose is left out.
use akuapkg.Common.{Text, text, List, [], ◌∷◌}

pub data ErrorSection : Type 0 where
  manifest_and_lockfile rendering commands distribution general : ErrorSection

abbrev pub error_catalog : List (Text × ErrorSection)
error_catalog =
    (text "E_MANIFEST_MISSING", manifest_and_lockfile)
    ∷ (text "E_MANIFEST_PARSE", manifest_and_lockfile)
    ∷ (text "E_MANIFEST_GIT_USERINFO", manifest_and_lockfile)
    ∷ (text "E_MANIFEST_HELM_MISSING_CHART", manifest_and_lockfile)
    ∷ (text "E_MANIFEST_HELM_MISSING_VERSION", manifest_and_lockfile)
    ∷ (text "E_MANIFEST_HELM_USERINFO", manifest_and_lockfile)
    ∷ (text "E_MANIFEST_HELM_CHART_INVALID", manifest_and_lockfile)
    ∷ (text "E_MANIFEST_OCI_USERINFO", manifest_and_lockfile)
    ∷ (text "E_MANIFEST_CRDS_INVALID", manifest_and_lockfile)
    ∷ (text "E_LOCK_MISSING", manifest_and_lockfile)
    ∷ (text "E_LOCK_PARSE", manifest_and_lockfile)
    ∷ (text "E_LOCK_DRIFT", manifest_and_lockfile)
    ∷ (text "E_DEP_KIND_MISMATCH", manifest_and_lockfile)
    ∷ (text "E_DEP_RESOLVE", manifest_and_lockfile)
    ∷ (text "E_CRDS_INVALID", manifest_and_lockfile)
    ∷ (text "E_CRDS_STALE", manifest_and_lockfile)
    ∷ (text "E_AUTH_PARSE", manifest_and_lockfile)
    ∷ (text "E_PACKAGE_MISSING", rendering)
    ∷ (text "E_PACKAGE_PARSE", rendering)
    ∷ (text "E_INPUTS_MISSING", rendering)
    ∷ (text "E_INPUTS_PARSE", rendering)
    ∷ (text "E_INVALID_FLAG", rendering)
    ∷ (text "E_RENDER_KCL", rendering)
    ∷ (text "E_PATH_ESCAPE", rendering)
    ∷ (text "E_RENDER_CYCLE", rendering)
    ∷ (text "E_RENDER_BUDGET_DEPTH", rendering)
    ∷ (text "E_RENDER_BUDGET_DEADLINE", rendering)
    ∷ (text "E_RENDER_BUDGET_MEMORY", rendering)
    ∷ (text "E_STRICT_UNTYPED_CHART", rendering)
    ∷ (text "E_COSIGN_VERIFY", rendering)
    ∷ (text "E_COSIGN_SIG_MISSING", rendering)
    ∷ (text "E_INIT_EXISTS", commands)
    ∷ (text "E_INIT_EMPTY_NAME", commands)
    ∷ (text "E_FMT_KCL", commands)
    ∷ (text "E_LINT_FAIL", commands)
    ∷ (text "E_INSPECT_FAIL", commands)
    ∷ (text "E_DIFF_NOT_DIR", commands)
    ∷ (text "E_ADD_DEP_EXISTS", commands)
    ∷ (text "E_ADD_INVALID_DEP", commands)
    ∷ (text "E_REMOVE_NOT_FOUND", commands)
    ∷ (text "E_VENDOR_DEP_MISSING", commands)
    ∷ (text "E_VENDOR_DRIFT", commands)
    ∷ (text "E_PUBLISH_FAILED", distribution)
    ∷ (text "E_PULL_FAILED", distribution)
    ∷ (text "E_IO", general)
    ∷ []
