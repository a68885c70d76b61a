-- ===== src/CliErrors/Operations.antt =====
-- cli/src/cli/operation-errors.ts: what a command prints for a failed operation of the API. The
-- decoder of error bodies and the change of case to snake case are third-party: parameters.
use akuapkg.Common.{
  ℕ, Text, text, text_eq, join, Bool, true, false, ◌&&◌, ◌||◌, Option, none, some, List, [], ◌∷◌,
  ◌++◌, map, filter, find, any, ◌==◌, if◌then◌else◌,
}
use akuapkg.InputFlags.{InputFlag, body, partition_of}
use akuapkg.CliErrors.{NextStep}

pub record InputIssue : Type 0 where
  pub path : List Text
  pub message : Text

pub data FailureReason : Type 0 where
  input source auth workspace api response transport : FailureReason

-- a numeric `code` is its decimal text
pub record OperationFailure (Json : Type 0) : Type 0 where
  pub reason : FailureReason
  pub detail : Option Text
  pub status : Option ℕ
  pub code : Option Text
  pub response_body : Option Json
  pub issues : Option (List InputIssue)

-- what the errors use of an `OperationCommandContext`: `examples` is what `commandExamples`
-- returns, `paths` the resource and the action of every operation of the contract
pub record OperationContext : Type 0 where
  pub resource : Text
  pub command : Text
  pub workspace_missing : Bool
  pub flags : List InputFlag
  pub examples : List NextStep
  pub paths : List (Text × Text)

pub data PathPart : Type 0 where
  field : Text → PathPart
  index : ℕ → PathPart

pub record ApiError : Type 0 where
  pub message : Option Text
  pub path : Option (List PathPart)

unfoldable pub join_with : Text → List Text → Text
join_with separator [] = []
join_with separator (s ∷ []) = s
join_with separator (s ∷ t ∷ rest) = s ++ (separator ++ join_with separator (t ∷ rest))

abbrev pub described : Text → Text → NextStep
described command description = record { command = command; description = some description }

abbrev pub help : OperationContext → NextStep
help context = described (context.command ++ text " --help") (text "See the arguments and flags.")

abbrev pub or_text : Option Text → Text → Text
or_text o other = elim o [ none ↦ other | some s ↦ s ]

abbrev is_missing : InputIssue → Bool
is_missing issue = text_eq issue.message (text "Missing key")

abbrev issue_message : InputIssue → Text
issue_message issue = if is_missing issue then text "is required" else issue.message

abbrev is_body : InputFlag → Bool
is_body flag = elim flag.target [ body ↦ true | _ ↦ false ]

abbrev pub flag_text : Text → Text → Text
flag_text name message = text "--" ++ (name ++ (text " " ++ message))

abbrev missing_body : OperationContext → Text
missing_body context = elim (filter (λ flag. is_body flag && flag.required) context.flags) [
  | [] ↦ text "pass the request body as flags (see --help) or with --input"
  | first ∷ more ↦
      join_with (text "; ")
        (map (λ (flag : InputFlag). flag_text flag.name (text "is required")) (first ∷ more))
]

abbrev located : InputIssue → Text
located issue = join b'.' issue.path ++ (text ": " ++ issue_message issue)

abbrev sets : Text → Text → InputFlag → Bool
sets partition key flag = text_eq key flag.key && text_eq partition (partition_of flag.target)

abbrev flag_issue : OperationContext → InputIssue → Text → Text → Text
flag_issue context issue partition key = elim (find (sets partition key) context.flags) [
  | none ↦ located issue
  | some flag ↦ flag_text flag.name (issue_message issue)
]

-- `describeIssue`, by the length of the issue's path
unfoldable pub describe_issue : OperationContext → InputIssue → List Text → Text
describe_issue context issue [] = issue_message issue
describe_issue context issue (partition ∷ []) =
    if text_eq partition (text "body") && is_missing issue
    then missing_body context
    else located issue
describe_issue context issue (partition ∷ key ∷ []) =
    if text_eq partition (text "path")
    then text "<" ++ (key ++ (text "> " ++ issue_message issue))
    else if text_eq partition (text "headers") && text_eq key (text "akua-context")
    then text "--workspace " ++ issue_message issue
    else flag_issue context issue partition key
describe_issue context issue (partition ∷ key ∷ more ∷ rest) = located issue

unfoldable pub last_field : List PathPart → Option Text
last_field [] = none
last_field (part ∷ rest) =
    let later = last_field rest in
    elim later [
      | some name ↦ some name
      | none ↦ elim part [ field name ↦ some name | index n ↦ none ]
    ]

unfoldable pub ends_with : Text → Text → Bool
ends_with [] end = text_eq [] end
ends_with (c ∷ rest) end = text_eq (c ∷ rest) end || ends_with rest end

abbrev pub is_status : ℕ → Option ℕ → Bool
is_status n none = false
is_status n (some status) = status == n

unfoldable pub needs_workspace : {Json : Type 0} → OperationFailure Json → OperationContext → Bool
needs_workspace failure context =
    context.workspace_missing && (is_status 400 failure.status || is_status 403 failure.status)

unfoldable pub api_next_steps :
    {Json : Type 0} → OperationFailure Json → OperationContext → List NextStep
api_next_steps failure context =
    if is_status 401 failure.status
    then described (text "akua auth login") (text "Sign in again.") ∷ []
    else if needs_workspace failure context
    then described (text "akua workspaces list") (text "See the workspaces you can use.")
      ∷ described (text "akua workspaces use <name>")
          (text "Save the workspace for later commands.")
      ∷ described (context.command ++ text " --workspace <name>")
          (text "Or pick the workspace for this command only.")
      ∷ []
    else if is_status 404 failure.status
        && any (λ p. text_eq p.0 context.resource && text_eq p.1 (text "list")) context.paths
    then described (text "akua " ++ (context.resource ++ text " list"))
        (text "See the IDs that exist.")
      ∷ []
    else []
