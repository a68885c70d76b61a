-- ===== src/KclModules/Tests.antt =====
-- Runs of the module generation, and its theorems at concrete inputs.
use akuapkg.Common.{
  ◌≡◌, ◌↔◌, refl, Text, text, text_eq, starts_with, none, some, true, List, [], ◌∷◌, Pairwise,
}
use akuapkg.Common.Result.{ok, err}
use akuapkg.Manifest.{kcl_ident}
use akuapkg.Snapshot.{Snapshot}
use akuapkg.KclModules.{
  DependencyKind, helm, kcl, ResolvedDependency, same_identifier, prior, identifiers_from,
  identifiers, kcl_modules, kcl_string_literal, chart_module,
}
use akuapkg.KclModules.Identifiers.{Agree, identifiers_iff}
use akuapkg.KclModules.Literals.{read_literal, read_literal-kcl_string_literal, has_interpolation}

abbrev dep : Text → DependencyKind → ResolvedDependency
dep name kind = record { name = name; kind = kind; files = []; digest = text "sha256:0" }

abbrev deps : List ResolvedDependency
deps = dep (text "a-b") kcl ∷ dep (text "nginx") helm ∷ dep (text "k8s") kcl ∷ []

modules_run : kcl_modules deps ≡ ok ((text "a_b", []) ∷ (text "k8s", []) ∷ [])
unfolding kcl_modules identifiers_from prior kcl_ident text_eq
modules_run = refl

clash_run :
    identifiers (text "a-b" ∷ text "a_b" ∷ []) (text "charts pkg")
    ≡ err (same_identifier (text "charts pkg") (text "a-b") (text "a_b") (text "a_b"))
unfolding identifiers_from prior kcl_ident text_eq
clash_run = refl

chart_run :
    starts_with
      (chart_module (text "x") (text "sha256:0") none)
      (text "# Auto-generated per-render from akua.toml dep `x`.\n# slice C: ")
    ≡ true
unfolding chart_module starts_with
chart_run = refl

identifiers_iff_example :
    (identifiers (text "a-b" ∷ text "c" ∷ []) (text "charts pkg") ≡ ok tt)
    ↔ Pairwise Agree (text "a-b" ∷ text "c" ∷ [])
identifiers_iff_example = identifiers_iff (text "a-b" ∷ text "c" ∷ []) (text "charts pkg")

abbrev modules : List (Text × Snapshot)
modules = (text "a_b", []) ∷ (text "k8s", []) ∷ []

read_literal-kcl_string_literal_example :
    read_literal (kcl_string_literal (text "a\"\\n")) ≡ some (text "a\"\\n")
unfolding has_interpolation
read_literal-kcl_string_literal_example = read_literal-kcl_string_literal (text "a\"\\n")
