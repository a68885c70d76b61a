-- ===== src/HostErrors.antt =====
-- host/src/errors.ts and host/src/contract.ts: the failures of the host, and the structured errors
-- and exit codes that the command line reports for them. The text of a foreign cause is an argument.
pub mod Catalog
pub mod Laws
mod Tests
use akuapkg.Common.{
  ℕ, Text, text, text_eq, Bool, Option, none, some, List, [], ◌∷◌, ◌++◌, if◌then◌else◌,
}
use akuapkg.Manifest.{
  ManifestCode, manifest_parse, oci_userinfo, git_userinfo, crds_invalid, helm_missing_chart,
  helm_missing_version, helm_userinfo, helm_chart_invalid,
}

pub data GuestReason : Type 0 where
  out_of_fuel memory_limit trap : GuestReason

pub data ShapeProblem : Type 0 where
  not_a_mapping no_resources resources_not_a_sequence : ShapeProblem

-- the reasons of a `HostError`, with their fields; `wasm_load_error` has the text of its cause
pub data HostError : Type 0 where
  package_missing : Text → HostError
  inputs_missing : Text → Text → HostError
  inputs_parse_error : Text → Text → HostError
  manifest_invalid : Text → Text → Text → HostError
  lock_invalid : Text → Text → HostError
  dependency_unresolved : Text → Text → Text → HostError
  path_escape : Text → HostError
  render_error : Text → HostError
  program_shape : ShapeProblem → Text → HostError
  guest_failure : Text → GuestReason → Text → HostError
  plugin_error : Text → Text → Option Text → HostError
  wasm_load_error : Text → Text → HostError
  io_error : Text → HostError

-- what `HostError.from` takes
pub data AnyError : Type 0 where
  host : HostError → AnyError
  platform : Text → AnyError

abbrev pub from : AnyError → HostError
from (host e) = e
from (platform message) = io_error message

abbrev quoted : Text → Text
quoted s = text "`" ++ (s ++ text "`")

abbrev pub shape_message : ShapeProblem → Text → Text
shape_message not_a_mapping got = text "rendered Package must be a top-level mapping; got " ++ got
shape_message no_resources got =
    text "rendered Package must set top-level `resources`; got no such key"
shape_message resources_not_a_sequence got = text "`resources` must be a sequence; got " ++ got

abbrev what_happened : GuestReason → Text
what_happened out_of_fuel = text "fuel exhausted"
what_happened memory_limit = text "memory cap exceeded"
what_happened trap = text "trapped"

unfoldable pub summary : GuestReason → Text → Text
summary reason detail =
    what_happened reason ++ (if text_eq detail [] then [] else text ": " ++ detail)

abbrev pub deadline_code : Text
deadline_code = text "E_RENDER_BUDGET_DEADLINE"

abbrev pub budget_code : GuestReason → Option Text
budget_code out_of_fuel = some deadline_code
budget_code memory_limit = some (text "E_RENDER_BUDGET_MEMORY")
budget_code trap = none

-- `osMessage`, with the tag of the error's reason
unfoldable pub os_message : Text → Option Text → Text
os_message message none = message
os_message message (some tag) =
    if text_eq tag (text "NotFound")
    then text "No such file or directory (os error 2)"
    else if text_eq tag (text "PermissionDenied")
    then text "Permission denied (os error 13)"
    else if text_eq tag (text "AlreadyExists")
    then text "File exists (os error 17)"
    else message

-- `ExitCode`
pub data ExitCode : Type 0 where
  success user_error system_error policy_deny rate_limited needs_approval timeout : ExitCode

abbrev pub exit_number : ExitCode → ℕ
exit_number success = 0
exit_number user_error = 1
exit_number system_error = 2
exit_number policy_deny = 3
exit_number rate_limited = 4
exit_number needs_approval = 5
exit_number timeout = 6

pub data Level : Type 0 where
  error warn : Level

pub record StructuredError : Type 0 where
  pub level : Level
  pub code : Text
  pub message : Text
  pub path : Option Text
  pub suggestion : Option Text
  pub docs : Option Text

pub record CliFailure : Type 0 where
  -- the field `error`
  pub reported : StructuredError
  pub exit_code : ExitCode

abbrev pub fail : Text → Text → ExitCode → Option Text → Option Text → CliFailure
fail code message exit_code path suggestion = record {
  reported = record {
    level = error;
    code = code;
    message = message;
    path = path;
    suggestion = suggestion;
    docs = some (text "https://cli.akua.dev/errors/" ++ code);
  };
  exit_code = exit_code;
}

abbrev pub usage_failure : Text → CliFailure
usage_failure message = fail (text "E_INVALID_FLAG") message user_error none none

abbrev pub package_missing_failure : Text → CliFailure
package_missing_failure path =
    fail (text "E_PACKAGE_MISSING") (text "Package.k not found") user_error (some path)
      (some (text "pass the Package.k path explicitly or cd to its directory"))

abbrev pub io_failure : Text → CliFailure
io_failure message = fail (text "E_IO") message system_error none none

unfoldable pub budget_failure : Text → Text → CliFailure
budget_failure code message =
    fail code message (if text_eq code deadline_code then timeout else user_error) none none

abbrev or_kcl : Option Text → Text
or_kcl code = elim code [ none ↦ text "E_RENDER_KCL" | some found ↦ found ]

abbrev load_message : Text → Text → Text
load_message wasm cause =
    if text_eq wasm (text "wasm-sandbox")
    then text "cannot load the sandbox addon; is TMPDIR a writable directory? " ++ cause
    else text "cannot load " ++ (wasm ++ (text ": " ++ cause))

unfoldable pub to_cli_failure : HostError → CliFailure
unfolding summary budget_failure
to_cli_failure (path_escape path) =
    fail (text "E_PATH_ESCAPE")
      (text "E_PATH_ESCAPE: " ++ (quoted path ++ text " resolves outside the Package")) user_error
      (some path) none
to_cli_failure (guest_failure wasm reason detail) =
    budget_failure (or_kcl (budget_code reason)) (wasm ++ (text ": " ++ summary reason detail))
to_cli_failure (plugin_error plugin message code) =
    budget_failure (or_kcl code) (plugin ++ (text ": " ++ message))
to_cli_failure (render_error message) = fail (text "E_RENDER_KCL") message user_error none none
to_cli_failure (program_shape problem got) =
    fail (text "E_PACKAGE_PARSE") (shape_message problem got) user_error none none
to_cli_failure (package_missing path) = package_missing_failure path
to_cli_failure (inputs_missing path message) =
    fail (text "E_INPUTS_MISSING") message user_error (some path) none
to_cli_failure (inputs_parse_error path message) =
    fail (text "E_INPUTS_PARSE") message user_error (some path) none
to_cli_failure (manifest_invalid path code message) = fail code message user_error (some path) none
to_cli_failure (lock_invalid path message) =
    fail (text "E_LOCK_PARSE") message user_error (some path) none
to_cli_failure (dependency_unresolved dependency code message) =
    fail code message user_error none none
to_cli_failure (wasm_load_error wasm cause) = io_failure (load_message wasm cause)
to_cli_failure (io_error message) = io_failure message

-- the code that `parseManifest` gives to a `ManifestInvalid`
abbrev pub code_text : ManifestCode → Text
code_text manifest_parse = text "E_MANIFEST_PARSE"
code_text oci_userinfo = text "E_MANIFEST_OCI_USERINFO"
code_text git_userinfo = text "E_MANIFEST_GIT_USERINFO"
code_text crds_invalid = text "E_MANIFEST_CRDS_INVALID"
code_text helm_missing_chart = text "E_MANIFEST_HELM_MISSING_CHART"
code_text helm_missing_version = text "E_MANIFEST_HELM_MISSING_VERSION"
code_text helm_userinfo = text "E_MANIFEST_HELM_USERINFO"
code_text helm_chart_invalid = text "E_MANIFEST_HELM_CHART_INVALID"
