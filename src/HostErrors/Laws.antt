-- ===== src/HostErrors/Laws.antt =====
-- Exit codes of the reported errors.
use akuapkg.Common.{◌≡◌, refl, text_eq, Bool, true, false, none, some, Bool-cases, inl, inr}
use akuapkg.HostErrors.{
  HostError, package_missing, inputs_missing, inputs_parse_error, manifest_invalid, lock_invalid,
  dependency_unresolved, path_escape, render_error, program_shape, guest_failure, plugin_error,
  wasm_load_error, io_error, out_of_fuel, memory_limit, trap, deadline_code, ExitCode, timeout,
  user_error, system_error, to_cli_failure, budget_failure,
}

-- the CPU budget ran out, in a guest or as a plugin says
abbrev pub is_timeout : HostError → Bool
is_timeout (guest_failure wasm out_of_fuel detail) = true
is_timeout (plugin_error plugin message (some code)) = text_eq code deadline_code
is_timeout _ = false

-- the machine, not the input, is to blame
abbrev pub is_system : HostError → Bool
is_system (wasm_load_error wasm cause) = true
is_system (io_error message) = true
is_system _ = false

-- the exit code that the contract's table gives to a failure of that kind
abbrev pub exit_of : Bool → Bool → ExitCode
exit_of true system = timeout
exit_of false true = system_error
exit_of false false = user_error

-- A host failure exits with `timeout` when the CPU budget ran out, in a guest or by a plugin's code,
-- with `system_error` when a file or an engine could not be used, and in all other cases with
-- `user_error`.
pub to_cli_failure-exit :
    (e : HostError) → (to_cli_failure e).exit_code ≡ exit_of (is_timeout e) (is_system e)
unfolding to_cli_failure budget_failure text_eq
to_cli_failure-exit (package_missing path) = refl
to_cli_failure-exit (inputs_missing path message) = refl
to_cli_failure-exit (inputs_parse_error path message) = refl
to_cli_failure-exit (manifest_invalid path code message) = refl
to_cli_failure-exit (lock_invalid path message) = refl
to_cli_failure-exit (dependency_unresolved dependency code message) = refl
to_cli_failure-exit (path_escape path) = refl
to_cli_failure-exit (render_error message) = refl
to_cli_failure-exit (program_shape problem got) = refl
to_cli_failure-exit (guest_failure wasm out_of_fuel detail) = refl
to_cli_failure-exit (guest_failure wasm memory_limit detail) = refl
to_cli_failure-exit (guest_failure wasm trap detail) = refl
to_cli_failure-exit (plugin_error plugin message none) = refl
to_cli_failure-exit (plugin_error plugin message (some code)) =
    elim (Bool-cases (text_eq code deadline_code)) [ inl e ↦ rw e refl | inr e ↦ rw e refl ]
to_cli_failure-exit (wasm_load_error wasm cause) = refl
to_cli_failure-exit (io_error message) = refl
