-- ===== src/OutputMode.antt =====
-- cli/src/runtime/mode.ts: the choice of the output mode from the flags, the environment and the
-- terminal. The environment is a function from names to values.
pub mod Flags
pub mod Detection
mod Tests
use akuapkg.Common.{
  ℕ, ◌+◌, Text, text, text_eq, starts_with, cut, is_upper, Bool, true, false, not, ◌&&◌, ◌||◌,
  Option, none, some, or_else, List, [], ◌∷◌, map, any, if◌then◌else◌,
}
use akuapkg.Common.Result.{Result, ok, err, ◌>>=◌, ◌>>◌, fail_if}

pub data OutputMode : Type 0 where
  human agent json quiet : OutputMode

-- the message of a `UsageFailure`, with what it interpolates
pub data ModeProblem : Type 0 where
  missing_value : Text → ModeProblem
  invalid_value : Text → Text → ModeProblem

abbrev pub agent_env_vars : List Text
agent_env_vars =
    text "AGENT"
    ∷ text "CODEX_SANDBOX"
    ∷ text "CODEX_CLI"
    ∷ text "OPENAI_CODEX"
    ∷ text "CLAUDECODE"
    ∷ text "CLAUDE_CODE"
    ∷ text "CURSOR_AGENT"
    ∷ text "AIDER"
    ∷ text "DEVIN"
    ∷ text "OPENCODE"
    ∷ text "AMP"
    ∷ text "CODY_AGENT"
    ∷ text "REPLIT_AGENT"
    ∷ text "WINDSURF_AGENT"
    ∷ []

abbrev pub automation_env_vars : List Text
automation_env_vars =
    text "CI"
    ∷ text "GITHUB_ACTIONS"
    ∷ text "GITLAB_CI"
    ∷ text "BUILDKITE"
    ∷ text "CIRCLECI"
    ∷ text "JENKINS_URL"
    ∷ text "TEAMCITY_VERSION"
    ∷ text "TF_BUILD"
    ∷ []

abbrev pub is_automation_mode : OutputMode → Bool
is_automation_mode human = false
is_automation_mode _ = true

-- `isOutputMode`, with the mode that the value names
unfoldable pub mode_named : Text → Option OutputMode
mode_named value =
    if text_eq value (text "human")
    then some human
    else if text_eq value (text "agent")
    then some agent
    else if text_eq value (text "json")
    then some json
    else if text_eq value (text "quiet")
    then some quiet
    else none

abbrev pub parse_output_mode : Text → Text → Result ModeProblem OutputMode
parse_output_mode value source = elim (mode_named value) [
  | none ↦ err (invalid_value source value)
  | some mode ↦ ok mode
]

abbrev pub output_flag : Text
output_flag = text "--output"

abbrev pub is_output : Text → Bool
is_output value = text_eq value output_flag || text_eq value (text "-o")

abbrev is_assignment : Text → Bool
is_assignment value = starts_with value (text "--output=") || starts_with value (text "-o=")

-- the text around the first `=`
abbrev split_flag_assignment : Text → Text × Text
split_flag_assignment value = elim (cut b'=' value) [ none ↦ (value, []) | some halves ↦ halves ]

-- the mode after an argument that is not `--output` or `-o`
unfoldable pub assigned : Option OutputMode → Text → Result ModeProblem (Option OutputMode)
assigned mode value =
    if is_assignment value
    then (let (flag, raw) = split_flag_assignment value in
        do
          fail_if (text_eq raw []) (missing_value flag)
          next ← parse_output_mode raw output_flag
          ok (some next))
    else ok mode

-- the loop of `readOutputFlag`, with the mode so far
unfoldable pub read_output_flag :
    Option OutputMode → List Text → Result ModeProblem (Option OutputMode)
read_output_flag mode [] = ok mode
read_output_flag mode (value ∷ []) =
    if is_output value then err (missing_value value) else assigned mode value
read_output_flag mode (value ∷ raw ∷ rest) = elim (is_output value) [
  | true ↦ do
    fail_if (text_eq raw [] || starts_with raw (text "-")) (missing_value value)
    next ← parse_output_mode raw output_flag
    read_output_flag (some next) rest
  | false ↦ do next ← assigned mode value; read_output_flag next (raw ∷ rest)
]

abbrev has_argument : Text → List Text → Bool
has_argument name argv = any (λ value. text_eq value name) argv

abbrev lower : ℕ → ℕ
lower c = if is_upper c then c + 32 else c

-- set to something else than empty, `0` or `false`; no letter but A-Z lowers to one of `false`
unfoldable pub is_on : Option Text → Bool
is_on none = false
is_on (some value) =
    not (text_eq value [])
    && not (text_eq value (text "0"))
    && not (text_eq (map lower value) (text "false"))

-- `--json` first, then `--quiet`, then the flag, then the environment
abbrev pub explicit_mode : List Text → Option OutputMode → Option OutputMode → Option OutputMode
explicit_mode argv flag env_mode =
    if has_argument (text "--json") argv
    then some json
    else if has_argument (text "--quiet") argv || has_argument (text "-q") argv
    then some quiet
    else or_else flag env_mode

module _ (env : Text → Option Text) where
  unfoldable pub read_env_output_mode : Result ModeProblem (Option OutputMode)
  read_env_output_mode = elim (env (text "AKUA_OUTPUT")) [
    | none ↦ ok none
    | some value ↦ do mode ← parse_output_mode value (text "AKUA_OUTPUT"); ok (some mode)
  ]

  unfoldable pub read_explicit_mode : List Text → Result ModeProblem (Option OutputMode)
  read_explicit_mode argv = do
    flag ← read_output_flag none argv
    env_mode ← read_env_output_mode
    ok (explicit_mode argv flag env_mode)

  unfoldable pub has_any_env : List Text → Bool
  has_any_env names = any (λ name. is_on (env name)) names

  -- `terminal` is `stdoutIsTTY`
  abbrev pub default_mode : Option Bool → OutputMode
  default_mode terminal =
      if has_any_env agent_env_vars || has_any_env automation_env_vars
      then agent
      else elim terminal [ none ↦ agent | some tty ↦ if tty then human else agent ]

  abbrev pub or_default : Option OutputMode → Option Bool → OutputMode
  or_default explicit terminal = elim explicit [ none ↦ default_mode terminal | some mode ↦ mode ]

  unfoldable pub detect_output_mode : List Text → Option Bool → Result ModeProblem OutputMode
  detect_output_mode argv terminal = do
    explicit ← read_explicit_mode argv
    ok (or_default explicit terminal)
