-- ===== src/HostAuth/Tests.antt =====
-- Runs of the credential functions, and their theorems at concrete inputs.
use akuapkg.Common.{
  ◌≡◌, ◌↔◌, refl, text, text_eq, starts_with, includes, cut, after, none, some, [], ◌∷◌,
}
use akuapkg.Common.Sort.{to_sorted}
use akuapkg.Common.Result.{ok, err}
use akuapkg.HostAuth.{
  BasicAuth, HostAuthMap, not_in_form, parse_auth_pair, get, authority, after_last_at,
  without_slashes, match_key, longer_first, covers, lookup_auth,
}
use akuapkg.HostAuth.Pairs.{IsPair, parse_auth_pair_iff}
use akuapkg.HostAuth.Choice.{IsLongest, lookup_auth-IsLongest}

abbrev ann : BasicAuth
ann = record { username = text "ann"; password = text "p:=q" }

abbrev bob : BasicAuth
bob = record { username = text "bob"; password = [] }

pair_run :
    (parse_auth_pair (text "git.io/o=ann:p:=q") ≡ ok (text "git.io/o", ann))
    × (parse_auth_pair (text "git.io") ≡ err (not_in_form (text "git.io")))
unfolding parse_auth_pair cut text_eq
pair_run = (refl, refl)

parse_auth_pair_iff_example :
    (parse_auth_pair (text "git.io/o=ann:p:=q") ≡ ok (text "git.io/o", ann))
    ↔ IsPair (text "git.io/o=ann:p:=q") (text "git.io/o") ann
parse_auth_pair_iff_example = parse_auth_pair_iff (text "git.io/o=ann:p:=q") (text "git.io/o") ann

abbrev stored : HostAuthMap
stored = (text "git.io", bob) ∷ (text "git.io/o", ann) ∷ []

choice_run :
    (lookup_auth stored (text "https://x@git.io/o/r.git/") ≡ some ann)
    × (lookup_auth stored (text "https://git.io/other") ≡ some bob)
    × (lookup_auth stored (text "https://git.iot/o") ≡ none)
unfolding lookup_auth match_key authority after_last_at without_slashes after starts_with text_eq
    includes covers to_sorted longer_first get
choice_run = (refl, refl, refl)

key_run : match_key (text "https://x@git.io/o/r.git/") ≡ text "git.io/o/r.git"
unfolding match_key authority after_last_at without_slashes after starts_with text_eq includes
key_run = refl

lookup_auth-IsLongest_example : IsLongest stored (match_key (text "https://x@git.io/o/r.git/")) ann
lookup_auth-IsLongest_example =
    lookup_auth-IsLongest stored (text "https://x@git.io/o/r.git/") ann choice_run.0
