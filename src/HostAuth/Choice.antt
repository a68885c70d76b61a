-- ===== src/HostAuth/Choice.antt =====
-- `lookupAuth` chooses the longest covering prefix.
use akuapkg.Common.{
  ◌≤◌, ◌≡◌, ◌≢◌, refl, subst, Text, text_eq, text_eq_iff, text_eq_refl, length, Ordering, Bool,
  true, false, ◌⊎◌, ◌↔◌, none, some, List, [], ◌∷◌, All, All-map, find, arith, Option-cases,
  Bool-cases, inl, inr,
}
use akuapkg.Common.Sort.{to_sorted, IsSorted, to_sorted-IsSorted, All-to_sorted, to_sorted-All}
use akuapkg.HostAuth.{
  BasicAuth, HostAuthMap, get, keys, match_key, longer_first, covers, lookup_auth,
}

longer_first_total : (a b : Text) → longer_first a b ≡ Ordering.gt → longer_first b a ≢ Ordering.gt
unfolding longer_first
longer_first_total a b h = ground arith

-- in a list by falling length, the first that is found is the longest that could be
below_head :
    (x : Text) (xs : List Text) → IsSorted longer_first (x ∷ xs) → All (λ y. length y ≤ length x) xs
unfolding longer_first
below_head x [] h = tt
below_head x (y ∷ ys) h =
    let le : length y ≤ length x = ground arith in
    (le, All-map (λ z k. omega arith) ys (below_head y ys h.1))

IsSorted-tail :
    (x : Text) (xs : List Text) → IsSorted longer_first (x ∷ xs) → IsSorted longer_first xs
IsSorted-tail x [] h = tt
IsSorted-tail x (y ∷ ys) h = h.1

module _ (p : Text → Bool) where
  find-longest :
      (xs : List Text) {found : Text}
      → IsSorted longer_first xs
      → find p xs ≡ some found
      → (p found ≡ true) × All (λ y. p y ≡ true → length y ≤ length found) xs
  find-longest [] s h = cc
  find-longest (x ∷ xs) {found} s h = elim (Bool-cases (p x)) [
    | inl e ↦
        let same : x ≡ found = ground arith in
        subst (λ f. (p f ≡ true) × All (λ y. p y ≡ true → length y ≤ length f) (x ∷ xs)) same
          (e, ((λ _. omega arith), All-map (λ y le _. le) xs (below_head x xs s)))
    | inr e ↦
        let (q, rest) = find-longest xs (IsSorted-tail x xs s) (ground arith) in
        (q, ((λ h. cc), rest))
  ]

  find-none : (xs : List Text) → find p xs ≡ none → All (λ y. p y ≡ false) xs
  find-none [] h = tt
  find-none (x ∷ xs) h = (ground arith, find-none xs (ground arith))

  find_of_All : (xs : List Text) → All (λ y. p y ≡ false) xs → find p xs ≡ none
  find_of_All [] h = refl
  find_of_All (x ∷ xs) h = rw h.0 (find_of_All xs h.1)

  find-All :
      (P : Text → Type 0) (xs : List Text) {found : Text}
      → find p xs ≡ some found
      → All P xs
      → P found
  find-All P [] e h = cc
  find-All P (x ∷ xs) {found = f} e h = elim (Bool-cases (p x)) [
    | inl here ↦ let same : x ≡ f = ground arith in rw (← same) h.0
    | inr later ↦ find-All P xs (ground arith) h.1
  ]

keys-get : (m : HostAuthMap) → All (λ k. get k m ≢ none) (keys m)
unfolding get
keys-get [] = tt
keys-get ((k, v) ∷ m) = (
  (λ e. ground (arith, text_eq_refl k)),
  All-map (λ j h. λ e. ground (arith, h)) (keys m) (keys-get m),
)

-- `credential` is that of the longest prefix which covers the key
abbrev pub IsLongest : HostAuthMap → Text → BasicAuth → Type 0
IsLongest auth key credential =
    (prefix : Text) × (covers key prefix ≡ true)
    × (get prefix auth ≡ some credential)
    × All (λ other. covers key other ≡ true → length other ≤ length prefix) (keys auth)

-- A credential that is chosen for a URL is the one stored under a prefix of the URL's key that ends
-- at a `/`, a `:` or the end, and no longer such prefix is stored.
pub lookup_auth-IsLongest :
    (auth : HostAuthMap) (address : Text) (credential : BasicAuth)
    → lookup_auth auth address ≡ some credential
    → IsLongest auth (match_key address) credential
unfolding lookup_auth
lookup_auth-IsLongest auth address credential h =
    elim (Option-cases (find (covers (match_key address)) (to_sorted longer_first (keys auth)))) [
      | inl missed ↦ absurd (ground arith)
      | inr (prefix, found) ↦
          let (good, longest) =
            find-longest (covers (match_key address)) _
              (to_sorted-IsSorted longer_first longer_first_total (keys auth)) found in
          (prefix, good, ground arith, All-to_sorted longer_first _ (keys auth) longest)
    ]

prefix_found :
    (auth : HostAuthMap) (key : Text)
    → All (λ k. covers key k ≡ false) (keys auth)
      ⊎ ((p : Text) × (find (covers key) (to_sorted longer_first (keys auth)) ≡ some p)
          × (get p auth ≢ none))
prefix_found auth key =
    elim (Option-cases (find (covers key) (to_sorted longer_first (keys auth)))) [
      | inl missed ↦
          inl (All-to_sorted longer_first _ (keys auth) (find-none (covers key) _ missed))
      | inr (p, found) ↦ inr (
        p,
        found,
        find-All (covers key) (λ k. get k auth ≢ none) _ found
            (to_sorted-All longer_first _ (keys auth) (keys-get auth)),
      )
    ]

none-covers :
    (auth : HostAuthMap) (key : Text)
    → All (λ k. covers key k ≡ false) (keys auth)
    → find (covers key) (to_sorted longer_first (keys auth)) ≡ none
none-covers auth key h = find_of_All (covers key) _ (to_sorted-All longer_first _ (keys auth) h)

-- No credential is chosen exactly when the URL's key is empty or no stored prefix covers it.
pub lookup_auth-eq-none_iff :
    (auth : HostAuthMap) (address : Text)
    → (lookup_auth auth address ≡ none)
      ↔ ((match_key address ≡ []) ⊎ All (λ k. covers (match_key address) k ≡ false) (keys auth))
unfolding lookup_auth
lookup_auth-eq-none_iff auth address = (
  λ h. elim (prefix_found auth (match_key address)) [
    | inl missed ↦ inr missed
    | inr (p, found, stored) ↦ ground (arith, text_eq_iff (match_key address) [], found, stored)
  ],
  elim [
    | inl e ↦ rw e (unfold text_eq in refl)
    | inr missed ↦ ground (arith, none-covers auth (match_key address) missed)
  ],
)
