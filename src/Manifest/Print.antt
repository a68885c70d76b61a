-- ===== src/Manifest/Print.antt =====
-- host/src/manifest.ts: `formatManifest`, the document of a manifest as the TOML writer prints it.
use akuapkg.Common.{Text, text, Option, none, some, List, [], ◌∷◌}
use akuapkg.Manifest.{Crds, flag, selector, Dependency, Signing, Manifest, dependencies}
use akuapkg.Toml.Document.{
  TomlEntries, TomlValue, undefined, string, boolean, array, table, end, entry, to_toml,
}

abbrev optional : Text → Option Text → TomlEntries → TomlEntries
optional key o rest = entry key (elim o [ none ↦ undefined | some s ↦ string s ]) rest

abbrev crds_value : Option Crds → TomlValue
crds_value none = undefined
crds_value (some (flag b)) = boolean b
crds_value (some (selector s)) = string s

unfoldable pub dependency_table : Dependency → TomlEntries
dependency_table d = optional (text "oci") d.oci (
    optional (text "git") d.git (
      optional (text "path") d.path (
        optional (text "repo") d.repo (
          optional (text "chart") d.chart (
            optional (text "url") d.url (
              optional (text "version") d.version (
                optional (text "tag") d.tag (
                  optional (text "rev") d.rev (
                    entry (text "crds") (crds_value d.crds) (
                      entry (text "replace")
                        (elim d.replace [
                          | none ↦ undefined
                          | some p ↦ table (entry (text "path") (string p) end)
                        ])
                        end))))))))))

dependency_tables : List (Text × Dependency) → TomlEntries
dependency_tables [] = end
dependency_tables ((name, d) ∷ rest) =
    entry name (table (dependency_table d)) (dependency_tables rest)

abbrev members : Option (List Text) → List Text
members o = elim o [ none ↦ [] | some list ↦ list ]

abbrev signing_value : Option Signing → TomlValue
signing_value none = undefined
signing_value (some s) = table (
    optional (text "cosign_public_key") s.cosign_public_key
      (optional (text "cosign_private_key") s.cosign_private_key end))

unfoldable pub manifest_document : Manifest → TomlEntries
unfolding dependency_tables
manifest_document m =
    entry (text "package")
      (table (
        entry (text "name") (string m.section.name) (
          entry (text "version") (string m.section.version) (
            entry (text "edition") (string m.section.edition) (
              entry (text "strict_signing")
                (elim m.section.strict_signing [ none ↦ undefined | some b ↦ boolean b ]) end)))))
      (entry (text "workspace")
        (elim m.workspace [
          | none ↦ undefined
          | some list ↦ table (entry (text "members") (array (members list)) end)
        ])
        (entry (text "signing") (signing_value m.signing)
          (entry (text "dependencies") (table (dependency_tables (dependencies m))) end)))

unfoldable pub format_manifest : Manifest → Text
format_manifest m = to_toml (manifest_document m)
