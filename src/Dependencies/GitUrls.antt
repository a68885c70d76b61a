-- ===== src/Dependencies/GitUrls.antt =====
-- Git URLs as the lock records them.
use akuapkg.Common.{
  ◌+◌, ◌-◌, ◌≡◌, refl, ap, sym, ◌∙◌, Text, text, includes, after, starts_with, length, take, ◌∷◌,
  ◌++◌, arith, false,
}
use akuapkg.HostAuth.{after_last_at}
use akuapkg.HostAuth.Keys.{
  IsUrlPath, authority-append, after_last_at_of_lacks, after_last_at-append, lacks-append,
}
use akuapkg.Dependencies.{without_user, trimmed_url, canonical_git_url}

canonical_git_url-https :
    (rest : Text)
    → canonical_git_url (text "https://" ++ rest) ≡ trimmed_url (text "https") (without_user rest)
unfolding canonical_git_url after starts_with
canonical_git_url-https rest =
    ap (λ n. trimmed_url (take n (text "https://" ++ rest)) (without_user rest))
      {x = length (text "https://" ++ rest) - (length rest + 3)} {y = 5} (omega arith)

without_user-append :
    (host path : Text)
    → includes host b'/' ≡ false
    → IsUrlPath path
    → without_user (host ++ path) ≡ after_last_at host ++ path
without_user-append host path h p = rw (authority-append host path h p) refl

-- The lock records `https://<user>@<host><path>` as it records `https://<host><path>`, whatever the
-- user part holds except `/`: no credentials of a git URL reach it.
pub canonical_git_url-user_info :
    (user host path : Text)
    → includes user b'/' ≡ false
    → includes host b'/' ≡ false
    → includes host b'@' ≡ false
    → IsUrlPath path
    → canonical_git_url (text "https://" ++ ((user ++ b'@' ∷ host) ++ path))
      ≡ canonical_git_url (text "https://" ++ (host ++ path))
canonical_git_url-user_info user host path u h a p =
    canonical_git_url-https ((user ++ b'@' ∷ host) ++ path)
    ∙ ap (trimmed_url (text "https")) (
        without_user-append (user ++ b'@' ∷ host) path (lacks-append user host u h) p
        ∙ ap (λ s. s ++ path)
            (after_last_at-append user host a ∙ sym (after_last_at_of_lacks host a))
        ∙ sym (without_user-append host path h p))
    ∙ sym (canonical_git_url-https (host ++ path))
