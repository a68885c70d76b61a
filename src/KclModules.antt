-- ===== src/KclModules.antt =====
-- host/src/kcl-modules.ts: the identifiers that dependencies import as and the modules made of them;
-- and the string literals of host/src/values-schema.ts that those modules hold.
pub mod Identifiers
pub mod Literals
mod Tests
use akuapkg.Common.{
  ℕ, Text, text, text_eq, Bool, true, false, not, ◌&&◌, ◌||◌, Option, none, some, List, [], ◌∷◌,
  ◌++◌, map, filter, find, ◌==◌, if◌then◌else◌,
}
use akuapkg.Common.Result.{Result, ok, err, ◌>>=◌, ◌>>◌, fail_if}
use akuapkg.Manifest.{kcl_ident}
use akuapkg.Snapshot.{Snapshot}

pub data DependencyKind : Type 0 where
  helm kcl akua_package crds : DependencyKind

-- the fields of a `ResolvedDependency` that the modules are made of
pub record ResolvedDependency : Type 0 where
  pub name : Text
  pub kind : DependencyKind
  pub files : Snapshot
  pub digest : Text

-- the messages of a `RenderError`, with what they interpolate
pub data RenderProblem : Type 0 where
  same_identifier : Text → Text → Text → Text → RenderProblem
  crds_shadowed : Text → RenderProblem

abbrev pub chart_reference : Text → Text
chart_reference dependency = text "/akua/deps/" ++ dependency

-- the name that an identifier was taken for
unfoldable pub prior : Text → List (Text × Text) → Option Text
prior ident [] = none
prior ident ((i, name) ∷ seen) =
    let later = prior ident seen in if text_eq i ident then some name else later

abbrev pub clashes : Option Text → Text → Bool
clashes none name = false
clashes (some other) name = not (text_eq other name)

abbrev or_empty : Option Text → Text
or_empty o = elim o [ none ↦ [] | some s ↦ s ]

-- the loop of `identifiers`, with the Map `seen`
unfoldable pub identifiers_from :
    Text → List (Text × Text) → List Text → Result RenderProblem (Unit {0})
identifiers_from what seen [] = ok tt
identifiers_from what seen (name ∷ rest) =
    let ident = kcl_ident name in
    let later = identifiers_from what ((ident, name) ∷ seen) rest in
    do
      fail_if (clashes (prior ident seen) name)
          (same_identifier what (or_empty (prior ident seen)) name ident)
      later

abbrev pub identifiers : List Text → Text → Result RenderProblem (Unit {0})
identifiers names what = identifiers_from what [] names

abbrev pub is_kind : DependencyKind → ResolvedDependency → Bool
is_kind helm d = elim d.kind [ helm ↦ true | _ ↦ false ]
is_kind kcl d = elim d.kind [ kcl ↦ true | _ ↦ false ]
is_kind akua_package d = elim d.kind [ akua_package ↦ true | _ ↦ false ]
is_kind crds d = elim d.kind [ crds ↦ true | _ ↦ false ]

abbrev pub dependency_names : List ResolvedDependency → List Text
dependency_names deps = map (λ (d : ResolvedDependency). d.name) deps

-- the identifier and the files of a module
abbrev pub module_of : ResolvedDependency → Text × Snapshot
module_of d = (kcl_ident d.name, d.files)

unfoldable pub kcl_modules : List ResolvedDependency → Result RenderProblem (List (Text × Snapshot))
kcl_modules deps =
    let modules = filter (is_kind kcl) deps in
    do identifiers (dependency_names modules) (text "kcl-package deps"); ok (map module_of modules)

abbrev not_shadowed : Option ResolvedDependency → Result RenderProblem (Unit {0})
not_shadowed none = ok tt
not_shadowed (some d) = err (crds_shadowed d.name)

-- the checks of `crdsPackage`: the names, then a module that imports as `crds`
unfoldable pub check_crds_package : List ResolvedDependency → Result RenderProblem (Unit {0})
check_crds_package deps = elim (filter (is_kind crds) deps) [
  | [] ↦ ok tt
  | first ∷ more ↦ do
    identifiers (dependency_names (first ∷ more)) (text "crds pkg")
    not_shadowed (find (λ d. is_kind kcl d && text_eq (kcl_ident d.name) (text "crds")) deps)
]

-- `replaceAll` of one character
unfoldable pub replace_all : ℕ → Text → Text → Text
replace_all c by [] = []
replace_all c by (a ∷ s) = let rest = replace_all c by s in if a == c then by ++ rest else a ∷ rest

-- the body of `kclStringLiteral`, one replacement after the other
unfoldable pub kcl_escape : Text → Text
kcl_escape value = replace_all 0x09 (text "\\t") (
    replace_all 0x0d (text "\\r") (
      replace_all 0x0a (text "\\n")
        (replace_all 0x22 (text "\\\"") (replace_all 0x5c (text "\\\\") value))))

unfoldable pub kcl_string_literal : Text → Text
kcl_string_literal value = 0x22 ∷ (kcl_escape value ++ 0x22 ∷ [])

abbrev pub kcl_mod : Text → Text
kcl_mod name =
    text "[package]\nname = \"" ++ (name ++ text "\"\nedition = \"0.0.1\"\nversion = \"0.0.1\"\n")

abbrev is_typed : Option Text → Bool
is_typed none = false
is_typed (some values) = not (text_eq values [])

-- the text of `chartModule`, line after line
unfoldable pub chart_module : Text → Text → Option Text → Text
chart_module name digest values =
    let typed = is_typed values in
    text "# Auto-generated per-render from akua.toml dep `"
    ++ (name
        ++ (text "`.\n"
            ++ (text "# slice C: exposes `path`, `sha256`, `Values`, and a\n"
                ++ (text "# pre-filled `template` callable. Regenerated every render.\n"
                    ++ (text "\n"
                        ++ (text "import akua.helm as _helm\n"
                            ++ (text "\n"
                                ++ (text "path: str = "
                                    ++ (kcl_string_literal (chart_reference name)
                                        ++ (text "\n"
                                            ++ (text "sha256: str = \""
                                                ++ (digest
                                                    ++ (text "\"\n"
                                                        ++ (text "\n"
                                                            ++ ((if typed
                                                            then text
                                                            "# Typed Values schema, generated from values.schema.json.\n"
                                                            ++ (or_empty values ++ text "\n")
                                                            else [])
                                                            ++ (text "schema TemplateOpts:\n"
                                                            ++ ((if typed
                                                            then text "    values: Values\n"
                                                            else text "    values: {str:} = {}\n")
                                                            ++ (text
                                                            "    release: str = \"release\"\n"
                                                            ++ (text
                                                            "    namespace: str = \"default\"\n"
                                                            ++ (text "\n"
                                                            ++ ((if typed
                                                            then text
                                                            "template = lambda opts: TemplateOpts -> [{str:}] {\n"
                                                            else text
                                                            "template = lambda opts: TemplateOpts = TemplateOpts {} -> [{str:}] {\n")
                                                            ++ ((if typed
                                                            then text
                                                            "    _flat = {**opts.values}\n"
                                                            else [])
                                                            ++ (text
                                                            "    _helm.template(_helm.Template {\n"
                                                            ++ (text "        chart = path\n"
                                                            ++ ((if typed
                                                            then text "        values = _flat\n"
                                                            else text
                                                            "        values = opts.values\n")
                                                            ++ (text
                                                            "        release = opts.release\n"
                                                            ++ (text
                                                            "        namespace = opts.namespace\n"
                                                            ++ (text "    })\n"
                                                            ++ text
                                                            "}\n"))))))))))))))))))))))))))))
