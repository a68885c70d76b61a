-- ===== src/HostAuth.antt =====
-- host/src/host-auth.ts: `--auth` pairs, the credential map, and the choice of a credential for a
-- URL. The file system, the TOML parser and the schema decoder are parameters of `load_auth_file`.
pub mod Pairs
pub mod Choice
pub mod Keys
mod Tests
use akuapkg.Common.{
  ℕ, ◌+◌, Text, text, text_eq, starts_with, includes, cut, after, length, drop, Ordering, Bool,
  true, false, not, ◌&&◌, ◌||◌, Option, none, some, List, [], ◌∷◌, ◌++◌, map, find, ◌==◌, ltb,
  if◌then◌else◌,
}
use akuapkg.Common.Result.{Result, ok, err, ◌>>=◌, ◌>>◌, fail_if}
use akuapkg.Common.Sort.{to_sorted}

pub record BasicAuth : Type 0 where
  pub username : Text
  pub password : Text

-- the messages of `AuthParseError`, with what they interpolate
pub data AuthProblem : Type 0 where
  not_in_form empty_prefix empty_username : Text → AuthProblem
  unreadable_file unparsed_file : Text → Text → AuthProblem

pair_credential : Text → Text → Option (Text × Text) → Result AuthProblem (Text × BasicAuth)
pair_credential value prefix none = err (not_in_form value)
pair_credential value prefix (some (username, password)) =
    if text_eq username []
    then err (empty_username value)
    else ok (prefix, record { username = username; password = password })

pair_prefix : Text → Option (Text × Text) → Result AuthProblem (Text × BasicAuth)
pair_prefix value none = err (not_in_form value)
pair_prefix value (some (prefix, rest)) =
    if text_eq prefix []
    then err (empty_prefix value)
    else pair_credential value prefix (cut b':' rest)

unfoldable pub parse_auth_pair : Text → Result AuthProblem (Text × BasicAuth)
unfolding pair_prefix pair_credential
parse_auth_pair value = pair_prefix value (cut b'=' value)

-- a `Map`: one entry for each key, in insertion order
abbrev pub HostAuthMap : Type 0
HostAuthMap = List (Text × BasicAuth)

unfoldable pub get : Text → HostAuthMap → Option BasicAuth
get key [] = none
get key ((k, v) ∷ m) = if text_eq k key then some v else get key m

unfoldable pub set : Text → BasicAuth → HostAuthMap → HostAuthMap
set key value [] = (key, value) ∷ []
set key value ((k, v) ∷ m) = if text_eq k key then (k, value) ∷ m else (k, v) ∷ set key value m

set_all : List (Text × BasicAuth) → HostAuthMap → HostAuthMap
set_all [] m = m
set_all ((key, value) ∷ rest) m = set_all rest (set key value m)

abbrev read_error {ℓ} : {A : Type ℓ} → (Text → AuthProblem) → Result Text A → Result AuthProblem A
read_error problem (ok a) = ok a
read_error problem (err message) = err (problem message)

abbrev listed : Option (List (Text × BasicAuth)) → List (Text × BasicAuth)
listed o = elim o [ none ↦ [] | some entries ↦ entries ]

-- the loop of `resolveAuth`
unfoldable pub add_pairs : List Text → HostAuthMap → Result AuthProblem HostAuthMap
add_pairs [] auth = ok auth
add_pairs (pair ∷ pairs) auth = elim (parse_auth_pair pair) [
  | err problem ↦ err problem
  | ok (prefix, credential) ↦ add_pairs pairs (set prefix credential auth)
]

module _ {Raw : Type 0} (read_file : Text → Result Text Text) (parse_toml : Text → Result Text Raw)
    (decode : Raw → Result Text (Option (List (Text × BasicAuth)))) where
  load_auth_file : Text → Result AuthProblem HostAuthMap
  load_auth_file path = do
    source ← read_error (unreadable_file path) (read_file path)
    raw ← read_error (unparsed_file path) (parse_toml source)
    parsed ← read_error (unparsed_file path) (decode raw)
    ok (set_all (listed parsed) [])

  initial_auth : Option Text → Result AuthProblem HostAuthMap
  initial_auth none = ok []
  initial_auth (some path) = load_auth_file path

  pub resolve_auth : List Text → Option Text → Result AuthProblem HostAuthMap
  resolve_auth pairs file = do auth ← initial_auth file; add_pairs pairs auth

-- `afterScheme` of `matchKey`
abbrev pub after_scheme : Text → Text
after_scheme address = elim (after (text "://") address) [ none ↦ address | some rest ↦ rest ]

-- a text up to its first `/`, and from there
unfoldable pub authority : Text → Text × Text
authority [] = ([], [])
authority (a ∷ s) =
    let (host, path) = authority s in if a == b'/' then ([], a ∷ s) else (a ∷ host, path)

-- what follows the last `@`, or all
unfoldable pub after_last_at : Text → Text
after_last_at [] = []
after_last_at (a ∷ s) =
    let rest = after_last_at s in if includes s b'@' then rest else if a == b'@' then s else a ∷ s

-- `.replace(/\/+$/, "")`
unfoldable pub without_slashes : Text → Text
without_slashes [] = []
without_slashes (a ∷ s) =
    let rest = without_slashes s in if text_eq rest [] && a == b'/' then [] else a ∷ rest

unfoldable pub match_key : Text → Text
match_key address =
    let (host, path) = authority (after_scheme address) in
    without_slashes (after_last_at host ++ path)

-- longer prefixes first: the sign of `b.length - a.length`
unfoldable pub longer_first : Text → Text → Ordering
longer_first a b =
    if ltb (length b) (length a)
    then Ordering.lt
    else if ltb (length a) (length b)
    then Ordering.gt
    else Ordering.eq

abbrev at_boundary : Text → Bool
at_boundary [] = true
at_boundary (c ∷ rest) = c == b'/' || c == b':'

-- `candidate` covers `key` up to a `/` or `:` boundary
unfoldable pub covers : Text → Text → Bool
covers key candidate = starts_with key candidate && at_boundary (drop (length candidate) key)

abbrev pub keys : HostAuthMap → List Text
keys [] = []
keys ((k, v) ∷ m) = k ∷ keys m

get_prefix : HostAuthMap → Option Text → Option BasicAuth
get_prefix auth none = none
get_prefix auth (some prefix) = get prefix auth

unfoldable pub lookup_auth : HostAuthMap → Text → Option BasicAuth
unfolding get_prefix
lookup_auth auth address =
    if text_eq (match_key address) []
    then none
    else get_prefix auth (find (covers (match_key address)) (to_sorted longer_first (keys auth)))
