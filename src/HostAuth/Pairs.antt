-- ===== src/HostAuth/Pairs.antt =====
-- `parseAuthPair` reads exactly the `<prefix>=<user>:<password>` texts.
use akuapkg.Common.{
  ◌≡◌, ◌≢◌, ◌↔◌, refl, Text, text_eq, text_eq_iff, includes, cut, cut-append, cut_sound, false,
  Option, none, some, [], ◌∷◌, ◌++◌, arith, ◌∙◌,
}
use akuapkg.Common.Result.{ok}
use akuapkg.HostAuth.{BasicAuth, parse_auth_pair, pair_credential, pair_prefix}

-- `value` is the pair of `prefix` and `user`, none empty, split at the first `=` and the first `:`
-- behind it; the password may be empty and hold either
abbrev pub IsPair : Text → Text → BasicAuth → Type 0
IsPair value prefix auth =
    (value ≡ prefix ++ (b'=' ∷ (auth.username ++ b':' ∷ auth.password)))
    × (prefix ≢ [])
    × (auth.username ≢ [])
    × (includes prefix b'=' ≡ false)
    × (includes auth.username b':' ≡ false)

parse_complete :
    (value prefix : Text) (auth : BasicAuth)
    → IsPair value prefix auth
    → parse_auth_pair value ≡ ok (prefix, auth)
unfolding parse_auth_pair
parse_complete value prefix auth (e, p, u, no_equals, no_colon) = rw e (
    rw (cut-append b'=' prefix (auth.username ++ b':' ∷ auth.password) no_equals) (
      ground (
        arith,
        text_eq_iff prefix [],
        text_eq_iff auth.username [],
        cut-append b':' auth.username auth.password no_colon,
      )))

credential_sound :
    (value prefix rest : Text) (found : Option (Text × Text)) {p : Text} {auth : BasicAuth}
    → cut b':' rest ≡ found
    → pair_credential value prefix found ≡ ok (p, auth)
    → (rest ≡ auth.username ++ b':' ∷ auth.password)
      × (prefix ≡ p)
      × (auth.username ≢ [])
      × (includes auth.username b':' ≡ false)
unfolding pair_credential
credential_sound value prefix rest none e h = cc
credential_sound value prefix rest (some (username, password)) e h =
    ground (arith, cut_sound b':' rest username password e, text_eq_iff username [])

prefix_sound :
    (value : Text) (found : Option (Text × Text)) {p : Text} {auth : BasicAuth}
    → cut b'=' value ≡ found
    → pair_prefix value found ≡ ok (p, auth)
    → IsPair value p auth
unfolding pair_prefix
prefix_sound value none e h = cc
prefix_sound value (some (prefix, rest)) {p} {auth} e h =
    let (split_here, no_equals) = cut_sound b'=' value prefix rest e in
    let nonempty : text_eq prefix [] ≡ false = ground arith in
    let (again, same, user, no_colon) =
      credential_sound value prefix rest (cut b':' rest) refl (rw nonempty at h) in
    (
      split_here ∙ cc (same, again),
      ground (arith, text_eq_iff prefix []),
      user,
      ground arith,
      no_colon,
    )

-- A `--auth` value is read as a prefix, a user and a password exactly when it is their text with the
-- first `=` after the prefix and the first `:` after the user, neither of them empty.
pub parse_auth_pair_iff :
    (value prefix : Text) (auth : BasicAuth)
    → (parse_auth_pair value ≡ ok (prefix, auth)) ↔ IsPair value prefix auth
unfolding parse_auth_pair
parse_auth_pair_iff value prefix auth =
    (prefix_sound value (cut b'=' value) refl, parse_complete value prefix auth)
