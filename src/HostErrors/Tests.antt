-- ===== src/HostErrors/Tests.antt =====
-- Runs of the error reports, and their theorems at concrete inputs.
use akuapkg.Common.{◌≡◌, refl, text, text_eq, some}
use akuapkg.HostErrors.{
  guest_failure, out_of_fuel, to_cli_failure, budget_failure, summary, os_message,
}

fuel_run :
    (to_cli_failure (guest_failure (text "kcl") out_of_fuel (text "5 s"))).reported.message
    ≡ text "kcl: fuel exhausted: 5 s"
unfolding to_cli_failure budget_failure summary text_eq
fuel_run = refl

os_run :
    os_message (text "x") (some (text "NotFound")) ≡ text "No such file or directory (os error 2)"
unfolding os_message text_eq
os_run = refl
