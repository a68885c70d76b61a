-- ===== src/InputFlags.antt =====
-- cli/src/api/inputs.ts: the names of the flags that an operation's request fields become. The
-- candidates, made of the contract's parameters and of the body's schema, are an argument.
pub mod Names
mod Tests
use akuapkg.Common.{
  Text, text, text_eq, Bool, true, false, ◌||◌, Option, none, some, List, [], ◌∷◌, ◌++◌, filter,
  any, if◌then◌else◌,
}
use akuapkg.Common.Result.{Result, ok, err, ◌>>=◌, ◌>>◌, fail_if}

pub data FlagTarget : Type 0 where
  query header body : FlagTarget

pub data FlagKind : Type 0 where
  string_kind integer_kind number_kind boolean_kind json_kind : FlagKind
  choice_kind : List Text → FlagKind

pub record InputFlag : Type 0 where
  pub name : Text
  pub target : FlagTarget
  pub key : Text
  pub kind : FlagKind
  pub required : Bool
  pub secret : Bool
  pub description : Option Text

-- the two messages, with what they interpolate
pub data FlagProblem : Type 0 where
  flag_used : Text → FlagTarget → Text → Text → FlagProblem
  file_flag_used : Text → Text → Text → FlagProblem

abbrev pub secret_file_suffix : Text
secret_file_suffix = text "-file"

abbrev pub reserved_flag_names : List Text
reserved_flag_names =
    text "completions"
    ∷ text "help"
    ∷ text "input"
    ∷ text "json"
    ∷ text "output"
    ∷ text "quiet"
    ∷ text "version"
    ∷ text "workspace"
    ∷ []

abbrev pub target_text : FlagTarget → Text
target_text query = text "query"
target_text header = text "header"
target_text body = text "body"

-- `partitionOf` of a flag's target
abbrev pub partition_of : FlagTarget → Text
partition_of query = text "query"
partition_of header = text "headers"
partition_of body = text "body"

abbrev pub has : List Text → Text → Bool
has names name = any (λ other. text_eq other name) names

-- `RESERVED_FLAG_NAMES.has(name) || taken.has(name)`
abbrev pub is_used : List Text → Text → Bool
is_used taken name = has reserved_flag_names name || has taken name

unfoldable pub flag_name : List Text → InputFlag → Text
flag_name taken c =
    if is_used taken c.name then target_text c.target ++ (text "-" ++ c.name) else c.name

-- the first loop of `operationInputs`: the names taken, the last first, and the flags
unfoldable pub assign_flags :
    Text → List Text → List InputFlag → Result FlagProblem (List Text × List InputFlag)
assign_flags id taken [] = ok (taken, [])
assign_flags id taken (c ∷ rest) =
    let name = flag_name taken c in
    let later = assign_flags id (name ∷ taken) rest in
    do
      fail_if (is_used taken name) (flag_used id c.target c.key name)
      done ← later
      ok (done.0, record c { name = name } ∷ done.1)

abbrev pub file_flag : InputFlag → Text
file_flag flag = flag.name ++ secret_file_suffix

-- the second loop
unfoldable pub take_file_flags : Text → List Text → List InputFlag → Result FlagProblem (List Text)
take_file_flags id taken [] = ok taken
take_file_flags id taken (flag ∷ rest) =
    let later = take_file_flags id (file_flag flag ∷ taken) rest in
    do
      fail_if (is_used taken (file_flag flag)) (file_flag_used id flag.name (file_flag flag))
      later

abbrev pub is_secret : InputFlag → Bool
is_secret flag = flag.secret

unfoldable pub operation_flags : Text → List InputFlag → Result FlagProblem (List InputFlag)
operation_flags id candidates = do
  done ← assign_flags id [] candidates
  taken ← take_file_flags id done.0 (filter is_secret done.1)
  ok done.1
