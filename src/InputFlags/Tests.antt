-- ===== src/InputFlags/Tests.antt =====
-- Runs of the flag naming, and its theorem at concrete inputs.
use akuapkg.Common.{◌≡◌, refl, Text, text, text_eq, Bool, true, false, none, List, [], ◌∷◌, map}
use akuapkg.Common.Result.{ok, err}
use akuapkg.InputFlags.{
  InputFlag, FlagTarget, query, body, string_kind, file_flag_used, flag_name, assign_flags,
  take_file_flags, operation_flags,
}
use akuapkg.InputFlags.Names.{Fresh, option_names, field_of, operation_flags-Fresh}

abbrev flag : Text → FlagTarget → Text → Bool → InputFlag
flag name target key secret = record {
  name = name;
  target = target;
  key = key;
  kind = string_kind;
  required = false;
  secret = secret;
  description = none;
}

abbrev candidates : List InputFlag
candidates =
    flag (text "id") query (text "id") false
    ∷ flag (text "id") body (text "id") false
    ∷ flag (text "json") body (text "json") true
    ∷ []

abbrev flags : List InputFlag
flags =
    flag (text "id") query (text "id") false
    ∷ flag (text "body-id") body (text "id") false
    ∷ flag (text "body-json") body (text "json") true
    ∷ []

flags_run : operation_flags (text "keys.create") candidates ≡ ok flags
unfolding operation_flags assign_flags take_file_flags flag_name text_eq
flags_run = refl

file_run :
    operation_flags
      (text "keys.create")
      (flag (text "a") body (text "a") true ∷ flag (text "a-file") body (text "a_file") false ∷ [])
    ≡ err (file_flag_used (text "keys.create") (text "a") (text "a-file"))
unfolding operation_flags assign_flags take_file_flags flag_name text_eq
file_run = refl

operation_flags-Fresh_example :
    Fresh [] (option_names flags) × (map field_of flags ≡ map field_of candidates)
operation_flags-Fresh_example =
    operation_flags-Fresh (text "keys.create") candidates flags flags_run
