-- ===== src/OutputMode/Tests.antt =====
-- Runs of the mode detection, and its theorems at concrete inputs.
use akuapkg.Common.{
  ◌≡◌, ◌⊎◌, ◌↔◌, refl, Text, text, text_eq, starts_with, cut, Option, none, some, true, [], ◌∷◌,
  if◌then◌else◌,
}
use akuapkg.Common.Result.{ok, err}
use akuapkg.OutputMode.{
  OutputMode, human, agent, json, quiet, missing_value, mode_named, assigned, output_flag,
  read_output_flag, is_on, read_env_output_mode, read_explicit_mode, has_any_env,
  detect_output_mode,
}
use akuapkg.OutputMode.Flags.{read_output_flag-last}
use akuapkg.OutputMode.Detection.{
  IsAsked, IsPerson, detect_output_mode-human, detect_output_mode_iff,
}

abbrev in_ci : Text → Option Text
in_ci name = if text_eq name (text "CI") then some (text "true") else none

abbrev plain_env : Text → Option Text
plain_env name = if text_eq name (text "CI") then some (text "False") else none

mode_run :
    (detect_output_mode in_ci [] (some true) ≡ ok agent)
    × (detect_output_mode plain_env [] (some true) ≡ ok human)
    × (detect_output_mode in_ci (text "-o=human" ∷ []) none ≡ ok human)
    × (detect_output_mode in_ci (text "-o" ∷ text "--json" ∷ []) none
        ≡ err (missing_value (text "-o")))
unfolding detect_output_mode read_explicit_mode read_output_flag read_env_output_mode mode_named
    assigned has_any_env is_on text_eq starts_with cut
mode_run = (refl, refl, refl, refl)

flags_run : read_output_flag none (text "-o=json" ∷ text "pull" ∷ []) ≡ ok (some json)
unfolding read_output_flag assigned mode_named text_eq starts_with cut
flags_run = refl

quiet_run : mode_named (text "quiet") ≡ some quiet
unfolding mode_named text_eq
quiet_run = refl

read_output_flag-last_example :
    read_output_flag none (text "-o=json" ∷ text "pull" ∷ output_flag ∷ text "quiet" ∷ [])
    ≡ ok (some quiet)
read_output_flag-last_example =
    read_output_flag-last (text "-o=json" ∷ text "pull" ∷ []) none (some json) (text "quiet") quiet
      quiet_run flags_run

detect_output_mode-human_example : IsAsked plain_env [] ⊎ IsPerson plain_env (some true)
detect_output_mode-human_example = detect_output_mode-human plain_env [] (some true) (mode_run.1)

detect_output_mode_iff_example :
    ((mode : OutputMode) × (detect_output_mode in_ci (text "--json" ∷ []) none ≡ ok mode)) ↔ (
      ((flag : Option OutputMode) × (read_output_flag none (text "--json" ∷ []) ≡ ok flag))
      × ((mode : Option OutputMode) × (read_env_output_mode in_ci ≡ ok mode)))
detect_output_mode_iff_example = detect_output_mode_iff in_ci (text "--json" ∷ []) none
