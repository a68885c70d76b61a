-- ===== src/Lock/Print.antt =====
-- host/src/lockfile.ts: `formatLock` and `formatLockBody`, the document of a lock as the TOML
-- writer prints it. The name of the command line tool is an argument.
use akuapkg.Common.{Text, text, Option, none, some, List, [], ◌∷◌, ◌++◌}
use akuapkg.Common.Sort.{to_sorted}
use akuapkg.Lock.{LockedPackage, Lock, packages, by_name_then_version}
use akuapkg.Toml.Document.{
  TomlEntries, TomlTables, TomlValue, undefined, string, number, boolean, array, table, tables, end,
  entry, last, element, to_toml,
}

-- The document that `toToml` prints for a lock: the field `package` is an array of tables.
abbrev optional : Text → Option Text → TomlEntries → TomlEntries
optional key o rest = entry key (elim o [ none ↦ undefined | some s ↦ string s ]) rest

-- an empty list of dependencies is left out
abbrev edges : Option (List Text) → TomlValue
edges none = undefined
edges (some []) = undefined
edges (some items) = array items

unfoldable pub package_table : LockedPackage → TomlEntries
package_table e = entry (text "name") (string e.name) (
    entry (text "version") (string e.version) (
      entry (text "source") (string e.source) (
        entry (text "digest") (string e.digest) (
          optional (text "vendor_digest") e.vendor_digest (
            optional (text "signature") e.signature (
              entry (text "dependencies") (edges e.dependencies) (
                optional (text "attestation") e.attestation (
                  entry (text "replaced")
                    (elim e.replaced [
                      | none ↦ undefined
                      | some path ↦ table (entry (text "path") (string path) end)
                    ])
                    (entry (text "yanked") (elim e.yanked [ none ↦ undefined | some b ↦ boolean b ])
                      (optional (text "kyverno_source_digest") e.kyverno_source_digest (
                        optional (text "converter_version") e.converter_version
                          (optional (text "crds_digest") e.crds_digest end))))))))))))

package_tables : List LockedPackage → TomlTables
package_tables [] = last
package_tables (e ∷ es) = element (package_table e) (package_tables es)

unfoldable pub lock_document : Lock → TomlEntries
unfolding package_tables
lock_document lock = entry (text "version") (number lock.version) (
    entry (text "package")
      (tables (package_tables (to_sorted by_name_then_version (packages lock)))) end)

unfoldable pub lock_body : Lock → Text
lock_body lock = to_toml (lock_document lock)

abbrev lock_header : Text → Text
lock_header cli =
    text "# akua.lock - machine-maintained. Never hand-edit."
    ++ (0x0a
        ∷ (text "# Regenerated by `"
            ++ (cli
                ++ (text " add`, `"
                    ++ (cli
                        ++ (text " pull`, `"
                            ++ (cli
                                ++ (text " publish`, `"
                                    ++ (cli ++ (text " update`." ++ 0x0a ∷ 0x0a ∷ []))))))))))

unfoldable pub format_lock : Lock → Text → Text
format_lock lock cli = lock_header cli ++ lock_body lock
