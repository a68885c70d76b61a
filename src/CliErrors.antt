-- ===== src/CliErrors.antt =====
-- cli/src/runtime/errors.ts, cli/src/runtime/exit-codes.ts and cli/src/runtime/effect-runtime.ts: the
-- failures of a command, the error documents that are printed and the exit code of a run.
pub mod Operations
pub mod Reports
pub mod Laws
mod Tests
use akuapkg.Common.{
  ℕ, Text, text, Bool, true, false, ◌||◌, Option, none, some, or_else, List, [], ◌∷◌, ◌++◌, map,
  ◌==◌, leb, if◌then◌else◌,
}
use akuapkg.Common.Result.{Result, ok, err}

pub data ExitCode : Type 0 where
  exit_ok exit_runtime exit_usage exit_auth_required : ExitCode
  exit_confirmation_required exit_conflict exit_retryable : ExitCode

abbrev pub exit_number : ExitCode → ℕ
exit_number exit_ok = 0
exit_number exit_runtime = 1
exit_number exit_usage = 2
exit_number exit_auth_required = 3
exit_number exit_confirmation_required = 4
exit_number exit_conflict = 5
exit_number exit_retryable = 6

pub record NextStep : Type 0 where
  pub command : Text
  pub description : Option Text

-- `null`, a date or a number of seconds
pub data RetryAfter : Type 0 where
  no_retry : RetryAfter
  retry_at : Text → RetryAfter
  retry_in : ℕ → RetryAfter

-- `AkuaCliError`; `Json` is the type of the parsed responses
pub record CliError (Json : Type 0) : Type 0 where
  -- the field `type`
  pub sort : Text
  pub code : Text
  pub message : Text
  pub status : Option ℕ
  pub path : List Text
  pub request_id : Option Text
  pub retry_after : Option RetryAfter
  pub response : Option Json
  pub next_steps : List NextStep
  pub exit_code : Option ExitCode

unfoldable pub exit_code_for_status : Option ℕ → ExitCode
exit_code_for_status none = exit_runtime
exit_code_for_status (some status) =
    if status == 401
    then exit_auth_required
    else if status == 409
    then exit_conflict
    else if status == 429 || leb 500 status
    then exit_retryable
    else exit_runtime

-- `exitStatus`
abbrev pub exit_status : {Json : Type 0} → CliError Json → ExitCode
exit_status e = elim e.exit_code [ none ↦ exit_code_for_status e.status | some code ↦ code ]

abbrev pub step : Text → NextStep
step command = record { command = command; description = none }

module _ {Json : Type 0} where
  -- an error with the defaults of the constructor
  abbrev pub cli_error : Text → Text → Text → Option ExitCode → List NextStep → CliError Json
  cli_error sort code message exit_code next_steps = record {
    sort = sort;
    code = code;
    message = message;
    status = none;
    path = [];
    request_id = none;
    retry_after = none;
    response = none;
    next_steps = next_steps;
    exit_code = exit_code;
  }

  -- `helpCommand` by default
  abbrev pub usage_error : Text → Option Text → CliError Json
  usage_error message help =
      cli_error (text "usage_error") (text "AKUA_USAGE_ERROR") message (some exit_usage)
        (step (elim help [ none ↦ text "akua --help" | some command ↦ command ]) ∷ [])

  abbrev pub package_command_error : CliError Json
  package_command_error =
      cli_error (text "runtime_error") (text "AKUA_PACKAGE_UNAVAILABLE")
        (text "The package toolchain (the akuapkg executable next to akua) could not be run.")
        (some exit_runtime)
        (record {
          command = text "brew reinstall akua-dev/tap/akua";
          description = some (text "Reinstall the CLI together with its package toolchain.");
        }
          ∷ [])

  abbrev device_error : Text → Text → CliError Json
  device_error code message =
      cli_error (text "authentication_error") code message (some exit_auth_required) []

-- the fields of `toPayload` that are left out when empty
pub record Payload (Json : Type 0) : Type 0 where
  pub sort : Text
  pub code : Text
  pub status : Option ℕ
  pub message : Text
  pub path : Option (List Text)
  pub request_id : Option Text
  pub retry_after : Option RetryAfter
  pub response : Option Json
  pub next_steps : Option (List NextStep)

abbrev unless_empty {ℓ} : {A : Type ℓ} → List A → Option (List A)
unless_empty [] = none
unless_empty (x ∷ xs) = some (x ∷ xs)

-- `null` is left out too
abbrev unless_null : Option RetryAfter → Option RetryAfter
unless_null none = none
unless_null (some no_retry) = none
unless_null (some (retry_at date)) = some (retry_at date)
unless_null (some (retry_in seconds)) = some (retry_in seconds)

abbrev pub to_payload : {Json : Type 0} → CliError Json → Payload Json
to_payload e = record {
  sort = e.sort;
  code = e.code;
  status = e.status;
  message = e.message;
  path = unless_empty e.path;
  request_id = e.request_id;
  retry_after = unless_null e.retry_after;
  response = e.response;
  next_steps = unless_empty e.next_steps;
}

pub data DeviceReason : Type 0 where
  access_denied expired_token : DeviceReason

-- `CliFailure`; a `secure_config_failure` has the text of its cause
pub data CliFailure (Json : Type 0) : Type 0 where
  usage_failure : Text → Option Text → CliFailure Json
  secure_config_failure : Text → Text → Text → CliFailure Json
  device_request_failure device_cancelled_failure : CliFailure Json
  device_authorization_failure : DeviceReason → CliFailure Json
  akua_cli_error : CliError Json → CliFailure Json

unfoldable pub to_cli_error : {Json : Type 0} → CliFailure Json → CliError Json
to_cli_error (usage_failure message help) = usage_error message help
to_cli_error (secure_config_failure operation path cause) =
    cli_error (text "runtime_error") (text "AKUA_CONFIG_ERROR")
      (text "Failed to "
        ++ (operation ++ (text " Akua config at " ++ (path ++ (text ": " ++ cause)))))
      none []
to_cli_error device_request_failure =
    device_error (text "AKUA_DEVICE_REQUEST_FAILED")
      (text "Device authorization could not be completed.")
to_cli_error device_cancelled_failure =
    cli_error (text "runtime_error") (text "AKUA_DEVICE_CANCELLED")
      (text "Device authorization was cancelled.") none []
to_cli_error (device_authorization_failure access_denied) =
    device_error (text "AKUA_DEVICE_ACCESS_DENIED") (text "Device authorization was denied.")
to_cli_error (device_authorization_failure expired_token) =
    device_error (text "AKUA_DEVICE_EXPIRED_TOKEN")
      (text "Device authorization expired. Start login again.")
to_cli_error (akua_cli_error e) = e

-- what a command succeeds with: one answer, or a stream of items and the failure that ends it
pub data Envelope (Json : Type 0) : Type 0 where
  answer : Json → Envelope Json
  stream : List Json → Option (CliFailure Json) → Envelope Json

-- what a run writes: an answer, an item of a stream, or an error
pub data Written (Json : Type 0) : Type 0 where
  wrote_answer wrote_item : Json → Written Json
  wrote_error : CliError Json → Written Json

abbrev write_cli_failure : {Json : Type 0} → CliFailure Json → List (Written Json) × ℕ
write_cli_failure failure =
    let e = to_cli_error failure in (wrote_error e ∷ [], exit_number (exit_status e))

-- `runCli`: what is written, and the exit code
unfoldable pub run_cli :
    {Json : Type 0} → Result (CliFailure Json) (Envelope Json) → List (Written Json) × ℕ
run_cli (err failure) = write_cli_failure failure
run_cli (ok (answer data')) = (wrote_answer data' ∷ [], 0)
run_cli (ok (stream items none)) = (map wrote_item items, 0)
run_cli (ok (stream items (some failure))) =
    let last = write_cli_failure failure in (map wrote_item items ++ last.0, last.1)
