-- ===== src/CliErrors/Laws.antt =====
-- The exit codes of failures and of runs.
use akuapkg.Common.{ℕ, ◌≡◌, ◌≢◌, ◌↔◌, refl, sym, ◌∙◌, Text, Option, none, some, List, arith}
use akuapkg.Common.Result.{Result, ok, err}
use akuapkg.CliErrors.{
  ExitCode, exit_ok, exit_usage, exit_auth_required, exit_retryable, exit_number,
  exit_code_for_status, exit_status, CliFailure, usage_failure, secure_config_failure,
  device_request_failure, device_cancelled_failure, device_authorization_failure, access_denied,
  expired_token, akua_cli_error, to_cli_error, Envelope, answer, stream, run_cli,
}
use akuapkg.CliErrors.Operations.{
  FailureReason, input, source, auth, workspace, api, response, transport, OperationFailure,
  OperationContext, ApiError,
}
use akuapkg.CliErrors.Reports.{operation_error}

-- the exit code of a failed operation, by its reason and by the status of the API's answer
abbrev pub expected_exit : FailureReason → Option ℕ → ExitCode
expected_exit input status = exit_usage
expected_exit source status = exit_usage
expected_exit auth status = exit_auth_required
expected_exit workspace status = exit_usage
expected_exit api status = exit_code_for_status status
expected_exit response status = exit_retryable
expected_exit transport status = exit_retryable

for_status_fails : (status : Option ℕ) → exit_code_for_status status ≢ exit_ok
unfolding exit_code_for_status
for_status_fails none h = absurd (ground arith)
for_status_fails (some n) h = absurd (ground arith)

expected_fails :
    (reason : FailureReason) (status : Option ℕ) → expected_exit reason status ≢ exit_ok
expected_fails input status h = absurd (ground arith)
expected_fails source status h = absurd (ground arith)
expected_fails auth status h = absurd (ground arith)
expected_fails workspace status h = absurd (ground arith)
expected_fails api status h = for_status_fails status h
expected_fails response status h = absurd (ground arith)
expected_fails transport status h = absurd (ground arith)

exit_number-eq-zero : (code : ExitCode) → exit_number code ≡ 0 → code ≡ exit_ok
exit_number-eq-zero code h = ground arith

module _ {Json : Type 0} where
  by_reason :
      (decode : Json → Option (List ApiError)) (snake : Text → Text) (reason : FailureReason)
      (f : OperationFailure Json) (context : OperationContext)
      → f.reason ≡ reason
      → exit_status (operation_error decode snake f context) ≡ expected_exit reason f.status
  unfolding operation_error
  by_reason decode snake input f context h = rw h refl
  by_reason decode snake source f context h = rw h refl
  by_reason decode snake auth f context h = rw h refl
  by_reason decode snake workspace f context h = rw h refl
  by_reason decode snake api f context h = rw h refl
  by_reason decode snake response f context h = rw h refl
  by_reason decode snake transport f context h = rw h refl

  -- The error that a failed operation ends with has the exit code of its reason, for an answer of the
  -- API that of the answer's status, and it is never the code of success.
  pub exit_status-operation_error :
      (decode : Json → Option (List ApiError)) (snake : Text → Text) (f : OperationFailure Json)
      (context : OperationContext)
      → (exit_status (operation_error decode snake f context) ≡ expected_exit f.reason f.status)
        × (exit_status (operation_error decode snake f context) ≢ exit_ok)
  exit_status-operation_error decode snake f context =
      let e = by_reason decode snake f.reason f context refl in
      (e, λ h. expected_fails f.reason f.status (sym e ∙ h))

  -- an error that is passed on as it is has no exit code of success
  abbrev pub IsFailing : CliFailure Json → Type 0
  IsFailing (akua_cli_error e) = exit_status e ≢ exit_ok
  IsFailing _ = Unit

  failure_exits :
      (failure : CliFailure Json)
      → IsFailing failure
      → exit_number (exit_status (to_cli_error failure)) ≢ 0
  unfolding to_cli_error exit_code_for_status
  failure_exits (usage_failure message help) h e = absurd (ground arith)
  failure_exits (secure_config_failure operation path cause) h e = absurd (ground arith)
  failure_exits device_request_failure h e = absurd (ground arith)
  failure_exits device_cancelled_failure h e = absurd (ground arith)
  failure_exits (device_authorization_failure access_denied) h e = absurd (ground arith)
  failure_exits (device_authorization_failure expired_token) h e = absurd (ground arith)
  failure_exits (akua_cli_error error) h e = h (exit_number-eq-zero (exit_status error) e)

  -- the failure that a command ends with, at once or at the end of a stream
  abbrev pub failure_of : Result (CliFailure Json) (Envelope Json) → Option (CliFailure Json)
  failure_of (err failure) = some failure
  failure_of (ok (answer json)) = none
  failure_of (ok (stream items end)) = end

  abbrev pub AllFailing : Option (CliFailure Json) → Type 0
  AllFailing none = Unit
  AllFailing (some failure) = IsFailing failure

  -- A run exits with 0 exactly when its command fails neither at once nor at the end of its stream,
  -- provided that an error which is passed on as it is does not carry the code of success.
  pub run_cli-eq-zero_iff :
      (command : Result (CliFailure Json) (Envelope Json))
      → AllFailing (failure_of command)
      → ((run_cli command).1 ≡ 0) ↔ (failure_of command ≡ none)
  unfolding run_cli
  run_cli-eq-zero_iff (err failure) h =
      (λ e. absurd (failure_exits failure h e), λ e. absurd (ground arith))
  run_cli-eq-zero_iff (ok (answer json)) h = (λ e. refl, λ e. refl)
  run_cli-eq-zero_iff (ok (stream items none)) h = (λ e. refl, λ e. refl)
  run_cli-eq-zero_iff (ok (stream items (some failure))) h =
      (λ e. absurd (failure_exits failure h e), λ e. absurd (ground arith))
