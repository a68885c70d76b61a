-- ===== src/Lib.antt =====
-- akuapkg: packages of KCL configuration, their manifests, locks and hosts.
--
-- The program reads `akua.toml` (host/src/manifest.ts), resolves the dependencies it names, pins
-- them in `akua.lock` (host/src/lockfile.ts), and renders a package from a snapshot of its
-- directory (host/src/snapshot.effect.ts, host/src/walk.effect.ts) and the modules that are made
-- of its dependencies (host/src/kcl-modules.ts). Both files are printed by the TOML writer
-- (host/src/toml-write.ts). Dependencies are resolved by
-- host/src/dependencies.effect.ts, whose signatures host/src/cosign.ts checks and whose archives
-- host/src/archive.ts unpacks. Fetches take their credentials from host/src/host-auth.ts, and git
-- repositories are fetched into host/src/memory-fs.ts. The command line around it picks its
-- output mode in cli/src/runtime/mode.ts, makes its flags of the API contract in
-- cli/src/api/inputs.ts, and reports the host's failures by host/src/contract.ts.
--
-- Files:
--   Common             text, lists, results, splitting and sorting, shared by all parts
--   Lock               host/src/lockfile.ts: `parse_lock` is parseLock, `merge_into_lock` is
--                      mergeIntoLock, one `upsert` for each round of its loop; Lock/Print is
--                      lockBody and formatLock
--   Manifest           host/src/manifest.ts: `validate_dependency` is validateDependency, one
--                      `check_` for each group of its rules; `parse_manifest` is parseManifest;
--                      Manifest/Print is formatManifest
--   Toml               host/src/toml-write.ts: strings and keys; Toml/Document is values and toToml;
--                      Toml/Reader is a reader of TOML strings written from the TOML grammar, which
--                      the results compare the writer with
--   Snapshot           host/src/snapshot.effect.ts: `resolve_in_snapshot` is resolveInSnapshot,
--                      Snapshot/Load is loadSnapshot, Snapshot/Digest is treeDigest,
--                      Snapshot/Walk is collectFiles of host/src/walk.effect.ts; and
--                      comparePaths and skippedName of host/src/walk.effect.ts
--   HostAuth           host/src/host-auth.ts: parseAuthPair, resolveAuth, matchKey, lookupAuth
--   MemoryFs           host/src/memory-fs.ts: a tree of files and directories that each operation
--                      takes and returns; `change_parent` is the change of the entries that
--                      parent returns, MemoryFs/Steps the relation of one successful operation
--   OutputMode         cli/src/runtime/mode.ts: `detect_output_mode` is detectOutputMode
--   HostErrors         host/src/errors.ts and host/src/contract.ts: `to_cli_failure` is toCliFailure;
--                      HostErrors/Catalog is the codes of host/src/error-catalog.ts
--   InputFlags         cli/src/api/inputs.ts: `operation_flags` is the naming of the flags in
--                      operationInputs
--   KclModules         host/src/kcl-modules.ts: `identifiers`, `kcl_modules`, `chart_module`; and
--                      kclStringLiteral of host/src/values-schema.ts
--   CliErrors          cli/src/runtime/errors.ts and cli/src/runtime/effect-runtime.ts: `run_cli` is
--                      runCli, with what it writes as a list; CliErrors/Operations and
--                      CliErrors/Reports are cli/src/cli/operation-errors.ts
--   Archive            host/src/archive.ts: `untar` is untar, `member` the body of its loop behind the
--                      size check, `entry_path` is entryPath; Archive/Write is tar, with a header as
--                      a function from positions to bytes; Archive/Gzip is gunzip, on the chunks
--                      that a decompression delivers, and gzip
--   HostFs             the host's file system and paths as host/src calls them, an interface
--   Dependencies       host/src/dependencies.effect.ts: `resolve_package` is resolvePackage, down to
--                      `from_directory`, with the services for OCI, Helm, git and URLs in the record
--                      World; Dependencies/Crds is readGeneratedCrds of host/src/crds.effect.ts,
--                      Dependencies/Package has agentDetected of host/src/agent.ts
--   Cosign             host/src/cosign.ts: `verify_keyed` is verifyKeyed, Cosign/Der is derToRaw and
--                      rawToDer
--   Verify             host/src/cli/verify.ts: `violations_of` is the loops of workspaceVerify,
--                      Verify/Attestation attestationViolation and the report
--   Yaml               host/src/yaml-compat.ts: `normalize_legacy_octal` is normalizeLegacyOctal,
--                      `mapping_value_start` is mappingValueStart
-- The modules below a part hold what is proved of it, its Tests the runs on concrete inputs.
--
-- How the code is read:
--   - a string is the list of its UTF-16 code units, and `<` on strings compares these;
--   - an optional field is an Option, a thrown or failed error an `err` of Result, a message a
--     constructor with the values that it interpolates (in HostErrors and CliErrors, its text);
--   - a Map and an object are lists of entries, one for each key;
--   - toSorted is a stable insertion sort by the comparison that the code passes;
--   - a number field is a natural number; where the code prints a double, numbers below 2^53 are printed
--     as they are, and the printing of larger ones is an argument, `large` in Yaml;
--   - `declared[name]` on a plain object also finds the members that every object has: Verify lists
--     them in `is_object_member`;
--   - a length of a pax record from `infinite` on, where the double is Infinity, ends the loop of
--     `pax_from`; lengths between 2^53 and that are longer than any text, so their rounding is left out;
--   - what is third-party (the TOML parser, the schema decoders, the file system) is an argument of
--     the definitions that call it, and results hold for all of them;
--   - bytes are natural numbers; the platform's UTF-8 encoder and decoders are a record `Utf8`, what
--     the encoding standard says of them the record `Utf8Laws`, which is a hypothesis;
--   - `untar_from` is on fuel: a round takes 512 bytes at least, and there is one round more than
--     bytes; `pax_from` takes a character a round, `length_from` raises its count, which stays below
--     twice the body's length and ten;
--   - `collect_files` is on fuel for the depth of directories, which it is given; without enough it is
--     the error `too_deep`, which the code does not have;
--   - `digits_from` is on fuel: a number has at most as many decimal digits as its own value plus
--     one, which is the fuel given.
--
-- Not modelled: vendoring and registries; the key order of YAML documents; the schemas of charts
-- and CRDs; package stubs; package tarballs; keys and envelopes of cosign; the printed forms of
-- answers; the derivation of flag candidates from JSON schemas and the examples of commands, which
-- are arguments here. Processes, workers, WebAssembly engines and downloads are input and output;
-- contract.gen.ts is generated; release scripts are tooling.
pub mod Common
pub mod MemoryFs
pub mod OutputMode
pub mod HostErrors
pub mod InputFlags
pub mod KclModules
pub mod CliErrors
pub mod Archive
pub mod HostFs
pub mod Dependencies
pub mod Cosign
pub mod Verify
pub mod Yaml
pub mod Lock
pub mod Manifest
pub mod Snapshot
pub mod HostAuth
pub mod Toml
