-- ===== src/OutputMode/Flags.antt =====
-- The output flags of a command line.
use akuapkg.Common.{
  ◌≡◌, refl, sym, ◌∙◌, Text, text, text_eq, text_eq_sound, starts_with, true, false, ◌||◌, Option,
  some, List, [], ◌∷◌, ◌++◌, arith, Bool-cases, Option-cases, inl, inr,
}
use akuapkg.Common.Result.{ok, ◌>>=◌, ◌>>◌, fail_if, >>=-eq-ok}
use akuapkg.OutputMode.{
  OutputMode, mode_named, parse_output_mode, is_output, assigned, output_flag, read_output_flag,
  missing_value,
}

-- no name of a mode is empty or looks like a flag
mode_named-plain :
    (name : Text) (m : OutputMode)
    → mode_named name ≡ some m
    → (text_eq name [] || starts_with name (text "-")) ≡ false
unfolding mode_named
mode_named-plain name m h = elim (Bool-cases (text_eq name (text "human"))) [
  | inl e ↦ rw (text_eq_sound name _ e) (unfold text_eq starts_with in refl)
  | inr e1 ↦ elim (Bool-cases (text_eq name (text "agent"))) [
    | inl e ↦ rw (text_eq_sound name _ e) (unfold text_eq starts_with in refl)
    | inr e2 ↦ elim (Bool-cases (text_eq name (text "json"))) [
      | inl e ↦ rw (text_eq_sound name _ e) (unfold text_eq starts_with in refl)
      | inr e3 ↦ elim (Bool-cases (text_eq name (text "quiet"))) [
        | inl e ↦ rw (text_eq_sound name _ e) (unfold text_eq starts_with in refl)
        | inr e4 ↦ absurd (ground arith)
      ]
    ]
  ]
]

module _ (mode : Option OutputMode) (value raw : Text) (rest : List Text) where
  output_reads :
      is_output value ≡ true
      → read_output_flag mode (value ∷ raw ∷ rest) ≡ (
          fail_if (text_eq raw [] || starts_with raw (text "-")) (missing_value value)
          >> (parse_output_mode raw output_flag >>= λ next. read_output_flag (some next) rest))
  unfolding read_output_flag
  output_reads o = rw (o, read_output_flag) refl

  other_reads :
      is_output value ≡ false
      → read_output_flag mode (value ∷ raw ∷ rest)
        ≡ (assigned mode value >>= λ next. read_output_flag next (raw ∷ rest))
  unfolding read_output_flag
  other_reads o = rw (o, read_output_flag) refl

  step_output :
      (m : OutputMode)
      → is_output value ≡ true
      → mode_named raw ≡ some m
      → read_output_flag mode (value ∷ raw ∷ rest) ≡ read_output_flag (some m) rest
  step_output m o h =
      output_reads o ∙ rw (mode_named-plain raw m h) (rw (h, parse_output_mode) refl)

  step_other :
      (next : Option OutputMode)
      → is_output value ≡ false
      → assigned mode value ≡ ok next
      → read_output_flag mode (value ∷ raw ∷ rest) ≡ read_output_flag next (raw ∷ rest)
  step_other next o h = other_reads o ∙ rw h refl

last_flag :
    (mode : Option OutputMode) (name : Text) (m : OutputMode)
    → mode_named name ≡ some m
    → read_output_flag mode (output_flag ∷ name ∷ []) ≡ ok (some m)
last_flag mode name m h =
    step_output mode output_flag name [] m (unfold text_eq in refl) h
    ∙ (unfold read_output_flag in refl)

parse-eq-ok :
    (value source : Text) (m : OutputMode)
    → parse_output_mode value source ≡ ok m
    → mode_named value ≡ some m
parse-eq-ok value source m h = elim (Option-cases (mode_named value)) [
  | inl e ↦ absurd (ground arith)
  | inr (found, e) ↦ ground arith
]

-- If the flags of a command line are well formed, `--output` with a mode behind them decides:
-- whatever modes they name, the last one counts.
pub read_output_flag-last :
    (argv : List Text) (mode read : Option OutputMode) (name : Text) (m : OutputMode)
    → mode_named name ≡ some m
    → read_output_flag mode argv ≡ ok read
    → read_output_flag mode (argv ++ output_flag ∷ name ∷ []) ≡ ok (some m)
unfolding read_output_flag
read_output_flag-last [] mode read name m h k = last_flag mode name m h
read_output_flag-last (value ∷ []) mode read name m h k = elim (Bool-cases (is_output value)) [
  | inl e ↦ absurd (ground arith)
  | inr e ↦
      let here : assigned mode value ≡ ok read = ground arith in
      step_other mode value output_flag (name ∷ []) read e here ∙ last_flag read name m h
]
read_output_flag-last (value ∷ raw ∷ rest) mode read name m h k =
    elim (Bool-cases (is_output value)) [
      | inl e ↦
          let (_, _, k1) =
            >>=-eq-ok (fail_if (text_eq raw [] || starts_with raw (text "-")) (missing_value value))
              _ (sym (output_reads mode value raw rest e) ∙ k) in
          let (next, h2, k2) = >>=-eq-ok (parse_output_mode raw output_flag) _ k1 in
          step_output mode value raw _ next e (parse-eq-ok raw output_flag next h2)
          ∙ read_output_flag-last rest (some next) read name m h k2
      | inr e ↦
          let (next, h1, k1) =
            >>=-eq-ok (assigned mode value) _ (sym (other_reads mode value raw rest e) ∙ k) in
          step_other mode value raw _ next e h1
          ∙ read_output_flag-last (raw ∷ rest) next read name m h k1
    ]
