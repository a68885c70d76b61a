-- ===== src/OutputMode/Detection.antt =====
-- When a mode is detected, and when it is that for people.
use akuapkg.Common.{
  ◌≡◌, ◌↔◌, ◌⊎◌, refl, Text, text, Bool, true, false, Option, none, some, List, [], ◌∷◌, any, All,
  arith, Bool-cases, Option-cases, inl, inr, map, All-map, text_eq, text_eq_iff,
}
use akuapkg.Common.Result.{ok, >>=-eq-ok}
use akuapkg.OutputMode.{
  OutputMode, human, has_argument, is_on, read_output_flag, read_env_output_mode,
  read_explicit_mode, has_any_env, default_mode, or_default, explicit_mode, detect_output_mode,
  agent_env_vars, automation_env_vars, lower,
}

any-All-false {ℓ} :
    {A : Type ℓ} (p : A → Bool) (xs : List A) → any p xs ≡ false → All (λ x. p x ≡ false) xs
any-All-false p [] h = tt
any-All-false p (x ∷ xs) h = elim (Bool-cases (p x)) [
  | inl e ↦ absurd (ground arith)
  | inr e ↦ (e, any-All-false p xs (ground arith))
]

module _ (env : Text → Option Text) where
  -- asked for by a flag or by `AKUA_OUTPUT`, with no `--json`, `--quiet` or `-q`
  abbrev pub IsAsked : List Text → Type 0
  IsAsked argv =
      (has_argument (text "--json") argv ≡ false)
      × (has_argument (text "--quiet") argv ≡ false)
      × (has_argument (text "-q") argv ≡ false)
      × ((read_output_flag none argv ≡ ok (some human))
          ⊎ (read_env_output_mode env ≡ ok (some human)))

  -- not set, or set to nothing, to `0`, or to `false` in any letter case
  abbrev pub IsOff : Option Text → Type 0
  IsOff none = Unit
  IsOff (some value) = (value ≡ []) ⊎ (value ≡ text "0") ⊎ (map lower value ≡ text "false")

  -- a terminal, and no agent or automation
  abbrev pub IsPerson : Option Bool → Type 0
  IsPerson terminal =
      (terminal ≡ some true)
      × All (λ name. IsOff (env name)) agent_env_vars
      × All (λ name. IsOff (env name)) automation_env_vars

  is_on-IsOff : (o : Option Text) → is_on o ≡ false → IsOff o
  unfolding is_on
  is_on-IsOff none h = tt
  is_on-IsOff (some value) h = elim (Bool-cases (text_eq value [])) [
    | inl a ↦ inl ((text_eq_iff value []).0 a)
    | inr a ↦ elim (Bool-cases (text_eq value (text "0"))) [
      | inl b ↦ inr (inl ((text_eq_iff value (text "0")).0 b))
      | inr b ↦
          inr (inr ((text_eq_iff (map lower value) (text "false")).0 (ground (arith, a, b, h))))
    ]
  ]

  explicit_human : (argv : List Text) → read_explicit_mode env argv ≡ ok (some human) → IsAsked argv
  unfolding read_explicit_mode
  explicit_human argv h =
      let (flag, h1, k1) = >>=-eq-ok (read_output_flag none argv) _ h in
      let (env_mode, h2, k2) = >>=-eq-ok (read_env_output_mode env) _ k1 in
      (
        ground arith,
        ground arith,
        ground arith,
        elim (Option-cases flag) [ inl e ↦ inr (ground arith) | inr (m, e) ↦ inl (ground arith) ],
      )

  default_human : (terminal : Option Bool) → default_mode env terminal ≡ human → IsPerson terminal
  unfolding has_any_env
  default_human none h = absurd (ground arith)
  default_human (some false) h = absurd (ground arith)
  default_human (some true) h = (
    refl,
    All-map (λ name k. is_on-IsOff (env name) k) agent_env_vars
        (any-All-false (λ name. is_on (env name)) agent_env_vars (ground arith)),
    All-map (λ name k. is_on-IsOff (env name) k) automation_env_vars
        (any-All-false (λ name. is_on (env name)) automation_env_vars (ground arith)),
  )

  -- Output for people is chosen only where it is asked for, by `--output` or by `AKUA_OUTPUT`, with no
  -- `--json`, `--quiet` or `-q`, or on a confirmed terminal where each variable of an agent or of an
  -- automation is unset, empty, `0`, or `false` in upper or lower case.
  pub detect_output_mode-human :
      (argv : List Text) (terminal : Option Bool)
      → detect_output_mode env argv terminal ≡ ok human
      → IsAsked argv ⊎ IsPerson terminal
  unfolding detect_output_mode
  detect_output_mode-human argv terminal h =
      let (explicit, h1, k1) = >>=-eq-ok (read_explicit_mode env argv) _ h in
      elim (Option-cases explicit) [
        | inl e ↦ inr (default_human terminal (ground arith))
        | inr (m, e) ↦ inl (explicit_human argv (ground arith))
      ]

  -- A mode is detected exactly when the output flags and `AKUA_OUTPUT` can both be read, whatever
  -- else the command line holds: no `--json` makes up for a bad value of either.
  pub detect_output_mode_iff :
      (argv : List Text) (terminal : Option Bool)
      → ((mode : OutputMode) × (detect_output_mode env argv terminal ≡ ok mode)) ↔ (
          ((flag : Option OutputMode) × (read_output_flag none argv ≡ ok flag))
          × ((mode : Option OutputMode) × (read_env_output_mode env ≡ ok mode)))
  unfolding detect_output_mode read_explicit_mode
  detect_output_mode_iff argv terminal = (
    λ (mode, h).
        let (explicit, h1, k1) = >>=-eq-ok (read_explicit_mode env argv) _ h in
        let (flag, h2, k2) = >>=-eq-ok (read_output_flag none argv) _ h1 in
        let (env_mode, h3, k3) = >>=-eq-ok (read_env_output_mode env) _ k2 in
        ((flag, h2), (env_mode, h3)),
    λ ((flag, h), (mode, k)).
        (or_default env (explicit_mode argv flag mode) terminal, rw h (rw k refl)),
  )
