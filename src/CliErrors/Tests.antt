-- ===== src/CliErrors/Tests.antt =====
-- Runs of the error reports, and their theorems at concrete inputs.
use akuapkg.Common.{
  ℕ, ◌≡◌, ◌≢◌, ◌↔◌, refl, Text, text, text_eq, true, false, Option, none, some, List, [], ◌∷◌,
}
use akuapkg.Common.Result.{ok}
use akuapkg.CliErrors.{stream, device_cancelled_failure, run_cli}
use akuapkg.CliErrors.Operations.{
  api, OperationFailure, OperationContext, ApiError, field, index, describe_issue, join_with,
  last_field, ends_with, needs_workspace,
}
use akuapkg.CliErrors.Reports.{fields_of, operation_error}
use akuapkg.CliErrors.Laws.{failure_of, run_cli-eq-zero_iff}

abbrev context : OperationContext
context = record {
  resource = text "clusters";
  command = text "akua clusters create";
  workspace_missing = false;
  flags = [];
  examples = [];
  paths = [];
}

abbrev failed : ℕ → OperationFailure Text
failed status = record {
  reason = api;
  detail = none;
  status = some status;
  code = some (text "7004");
  response_body = some (text "{}");
  issues = none;
}

abbrev decode : Text → Option (List ApiError)
decode body = some (
    record {
      message = some (text "Required, received undefined");
      path = some (field (text "args") ∷ field (text "name") ∷ index 0 ∷ []);
    }
    ∷ [])

abbrev same : Text → Text
same s = s

rejected_run :
    (operation_error decode same (failed 422) context).message
    ≡ text "The Akua API rejected the input for akua clusters create: name is required."
unfolding operation_error fields_of last_field ends_with join_with needs_workspace text_eq
rejected_run = refl

issue_run :
    describe_issue context
      (record { path = text "body" ∷ text "a" ∷ []; message = text "no" })
      (text "body" ∷ text "a" ∷ [])
    ≡ text "body.a: no"
unfolding describe_issue text_eq akuapkg.Common.Strings.join
issue_run = refl

run_cli-eq-zero_iff_example :
    ((run_cli {Json = Text} (ok (stream (text "a" ∷ []) (some device_cancelled_failure)))).1 ≡ 0)
    ↔ (failure_of {Json = Text} (ok (stream (text "a" ∷ []) (some device_cancelled_failure)))
        ≡ none)
run_cli-eq-zero_iff_example =
    run_cli-eq-zero_iff (ok (stream (text "a" ∷ []) (some device_cancelled_failure))) tt
