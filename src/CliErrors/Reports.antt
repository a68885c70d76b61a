-- ===== src/CliErrors/Reports.antt =====
-- cli/src/cli/operation-errors.ts: `operationError`, one error for each reason of a failure.
use akuapkg.Common.{
  ℕ, Text, text, text_eq, Option, none, some, List, [], ◌∷◌, ◌++◌, map, find, if◌then◌else◌,
}
use akuapkg.CliErrors.{exit_usage, exit_auth_required, exit_retryable, step, CliError, cli_error}
use akuapkg.CliErrors.Operations.{
  InputIssue, FailureReason, input, source, auth, workspace, api, response, transport,
  OperationFailure, OperationContext, ApiError, join_with, help, described, or_text, flag_text,
  describe_issue, last_field, ends_with, is_status, needs_workspace, api_next_steps,
}
use akuapkg.Toml.Document.{decimal}

abbrev or_none {ℓ} : {A : Type ℓ} → Option (List A) → List A
or_none o = elim o [ none ↦ [] | some list ↦ list ]

module _ {Json : Type 0} (decode_api_error_body : Json → Option (List ApiError))
    (camel_to_snake : Text → Text) where
  abbrev field_text : OperationContext → Text → Text → Text
  field_text context name message =
      elim (find (λ flag. text_eq flag.key (camel_to_snake name)) context.flags) [
        | none ↦ name ++ (text " " ++ message)
        | some flag ↦ flag_text flag.name message
      ]

  abbrev shown : Text → Text
  shown message =
      if ends_with message (text "received undefined") then text "is required" else message

  abbrev one_field : OperationContext → Option Text → Option Text → List Text
  one_field context none message = []
  one_field context (some name) none = []
  one_field context (some name) (some message) = field_text context name (shown message) ∷ []

  unfoldable pub fields_of : OperationContext → List ApiError → List Text
  fields_of context [] = []
  fields_of context (e ∷ rest) =
      one_field context (last_field (or_none e.path)) e.message ++ fields_of context rest

  abbrev decoded : Option Json → Option (List ApiError)
  decoded none = none
  decoded (some body) = decode_api_error_body body

  -- `rejectedFields`
  abbrev pub rejected_fields : OperationFailure Json → OperationContext → List Text
  rejected_fields failure context =
      if is_status 422 failure.status
      then fields_of context (or_none (decoded failure.response_body))
      else []

  abbrev status_text : Option ℕ → Text
  status_text status =
      text "HTTP " ++ (elim status [ none ↦ text "undefined" | some n ↦ decimal n ])

  abbrev api_message : OperationFailure Json → OperationContext → List Text → Text
  api_message failure context fields =
      if needs_workspace failure context
      then text "No workspace selected; "
        ++ (context.command
            ++ (text " runs in a workspace (API: "
                ++ (or_text failure.detail (status_text failure.status) ++ text ").")))
      else elim fields [
        | [] ↦ or_text failure.detail (text "The Akua API rejected the request.")
        | first ∷ more ↦
            text "The Akua API rejected the input for "
            ++ (context.command
                ++ (text ": " ++ (join_with (text "; ") (first ∷ more) ++ text ".")))
      ]

  abbrev api_error : OperationFailure Json → OperationContext → List Text → CliError Json
  api_error failure context fields =
      let e =
        cli_error (text "api_error")
          (elim failure.code [
            | none ↦ text "AKUA_API_ERROR"
            | some code ↦ text "AKUA_API_" ++ code
          ])
          (api_message failure context fields) none
          (elim fields [
            | [] ↦ api_next_steps failure context
            | first ∷ more ↦ help context ∷ context.examples
          ]) in
      record e { status = failure.status; response = failure.response_body }

  abbrev input_message : OperationContext → Text → Text
  input_message context detail =
      if text_eq detail []
      then text "Invalid input for " ++ (context.command ++ text ".")
      else text "Invalid input for " ++ (context.command ++ (text ": " ++ (detail ++ text ".")))

  abbrev response_error : OperationFailure Json → CliError Json
  response_error failure =
      let e =
        cli_error (text "response_error") (text "AKUA_API_CONTRACT_ERROR")
          (text "The Akua API answered with a body that is not JSON.") (some exit_retryable) [] in
      record e { status = failure.status }

  abbrev for_reason : FailureReason → OperationFailure Json → OperationContext → CliError Json
  for_reason input failure context =
      cli_error (text "input_error") (text "AKUA_INPUT_INVALID")
        (input_message context (
          join_with (text "; ") (
            map (λ (issue : InputIssue). describe_issue context issue issue.path)
              (or_none failure.issues))))
        (some exit_usage) (help context ∷ context.examples)
  for_reason source failure context =
      cli_error (text "input_error") (text "AKUA_INPUT_UNREADABLE")
        (text "Could not read the "
          ++ (or_text failure.detail (text "--input")
              ++ (text " file for " ++ (context.command ++ text "."))))
        (some exit_usage) (help context ∷ [])
  for_reason auth failure context =
      cli_error (text "authentication_error") (text "AKUA_AUTH_REQUIRED")
        (text "Not signed in. Run akua auth login, or set AKUA_API_TOKEN.")
        (some exit_auth_required) (step (text "akua auth login") ∷ [])
  for_reason workspace failure context =
      cli_error (text "input_error") (text "AKUA_WORKSPACE_NOT_FOUND")
        (or_text failure.detail (text "The workspace could not be found.")) (some exit_usage)
        (described (text "akua workspaces list") (text "See the workspaces you can use.") ∷ [])
  for_reason api failure context = api_error failure context (rejected_fields failure context)
  for_reason response failure context = response_error failure
  for_reason transport failure context =
      cli_error (text "transport_error") (text "AKUA_API_UNAVAILABLE")
        (text "The Akua API could not be reached. Check your connection and try again.")
        (some exit_retryable) []

  unfoldable pub operation_error : OperationFailure Json → OperationContext → CliError Json
  operation_error failure context = for_reason failure.reason failure context
