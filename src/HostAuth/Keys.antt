-- ===== src/HostAuth/Keys.antt =====
-- The key of a URL: credentials in it never take part in the choice.
use akuapkg.Common.{
  ◌≡◌, refl, ap, ◌∙◌, sym, Text, text, starts_with, includes, after, true, false, [], ◌∷◌, ◌++◌,
  arith,
}
use akuapkg.HostAuth.{authority, after_last_at, match_key, without_slashes}

-- nothing, or a path from the root
abbrev pub IsUrlPath : Text → Type 0
IsUrlPath [] = Unit
IsUrlPath (a ∷ s) = a ≡ b'/'

pub authority-append :
    (s path : Text) → includes s b'/' ≡ false → IsUrlPath path → authority (s ++ path) ≡ (s, path)
unfolding authority includes
authority-append [] [] h k = refl
authority-append [] (a ∷ s) h k = ground arith
authority-append (a ∷ s) path h k = ground (arith, authority-append s path)

pub after_last_at_of_lacks : (s : Text) → includes s b'@' ≡ false → after_last_at s ≡ s
unfolding after_last_at includes
after_last_at_of_lacks [] h = refl
after_last_at_of_lacks (a ∷ s) h = ground arith

includes-append : (s t : Text) → includes (s ++ b'@' ∷ t) b'@' ≡ true
unfolding includes
includes-append [] t = refl
includes-append (a ∷ s) t = ground (arith, includes-append s t)

pub after_last_at-append :
    (user host : Text) → includes host b'@' ≡ false → after_last_at (user ++ b'@' ∷ host) ≡ host
unfolding after_last_at includes
after_last_at-append [] host h = ground arith
after_last_at-append (a ∷ user) host h =
    ground (arith, includes-append user host, after_last_at-append user host h)

pub lacks-append :
    (user host : Text)
    → includes user b'/' ≡ false
    → includes host b'/' ≡ false
    → includes (user ++ b'@' ∷ host) b'/' ≡ false
unfolding includes
lacks-append [] host h k = k
lacks-append (a ∷ user) host h k = ground (arith, lacks-append user host)

match_key-https :
    (host path : Text)
    → includes host b'/' ≡ false
    → IsUrlPath path
    → match_key (text "https://" ++ (host ++ path)) ≡ without_slashes (after_last_at host ++ path)
unfolding match_key after starts_with
match_key-https host path h k = rw (authority-append host path h k)

-- The key of `https://<user>@<host><path>` is that of `https://<host><path>`, whatever the user part
-- holds except `/`: its `@` and `:` do not count.
pub match_key-user_info :
    (user host path : Text)
    → includes user b'/' ≡ false
    → includes host b'/' ≡ false
    → includes host b'@' ≡ false
    → IsUrlPath path
    → match_key (text "https://" ++ ((user ++ b'@' ∷ host) ++ path))
      ≡ match_key (text "https://" ++ (host ++ path))
match_key-user_info user host path u h a p =
    match_key-https (user ++ b'@' ∷ host) path (lacks-append user host u h) p
    ∙ ap (λ s. without_slashes (s ++ path))
        (after_last_at-append user host a ∙ sym (after_last_at_of_lacks host a))
    ∙ sym (match_key-https host path h p)
