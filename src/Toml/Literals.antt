-- ===== src/Toml/Literals.antt =====
-- The bodies of literal strings are read back, where the measured text has nothing to escape.
use akuapkg.Common.{
  ℕ, ◌+◌, ◌≤◌, ◌≡◌, refl, ap, ◌∙◌, Text, text_eq, Bool, true, false, not, ◌&&◌, ◌||◌, some, [], ◌∷◌,
  ◌++◌, ◌==◌, if◌then◌else◌, arith,
}
use Prim.Native.Nat.{max}
use akuapkg.Toml.{Metrics, measure, is_control}
use akuapkg.Toml.Reader.{plain, is_raw_control, advance, read_units, closing, prepend}
use akuapkg.Toml.Units.{not_close, read_step}

-- the metrics behind one unit, as the loop of `metrics` updates them
abbrev pub seen : ℕ → ℕ → ℕ → Metrics → Metrics
seen c s d m = record {
  max_single_quotes = max m.max_single_quotes s;
  max_double_quotes = max m.max_double_quotes d;
  escape_codes = m.escape_codes || (not (c == 0x5c) && not (c == 0x0a) && is_control c);
  escape = m.escape || c == 0x5c;
  newline = m.newline || (not (c == 0x5c) && c == 0x0a);
}

-- what `measure` has seen it keeps
pub measure_mono :
    (v : Text) (singles doubles : ℕ) (m : Metrics)
    → (m.escape_codes ≡ true → (measure v singles doubles m).escape_codes ≡ true)
      × (m.newline ≡ true → (measure v singles doubles m).newline ≡ true)
      × (m.max_single_quotes ≤ (measure v singles doubles m).max_single_quotes)
unfolding measure
measure_mono [] singles doubles m = ((λ h. h), (λ h. h), omega arith)
measure_mono (c ∷ v) singles doubles m =
    let s = if c == 0x27 then singles + 1 else 0 in
    let d = if c == 0x22 then doubles + 1 else 0 in
    let (codes, newline, quotes) = measure_mono v s d (seen c s d m) in
    (λ h. codes (rw h refl), λ h. newline (rw h refl), omega (arith, quotes))

abbrev bound : Bool → ℕ
bound multiline = if multiline then 2 else 0

literal_step :
    (multiline : Bool) (singles c : ℕ) (v : Text)
    → (if c == 0x27 then singles + 1 else 0) ≤ bound multiline
    → (not (c == 0x5c) && not (c == 0x0a) && is_control c) ≡ false
    → ((c == 0x0a) ≡ true → multiline ≡ true)
    → read_units 0x27 multiline (plain singles) (c ∷ (v ++ closing 0x27 multiline))
      ≡ prepend (c ∷ []) (
          read_units 0x27 multiline
            (plain (if c == 0x27 then singles + 1 else 0))
            (v ++ closing 0x27 multiline))
literal_step true singles c v q k n =
    read_step 0x27 true (plain singles) (plain _) c (c ∷ []) _
      (unfold text_eq in ground (arith, not_close 0x27 v))
      (unfold advance is_raw_control is_control in ground arith)
literal_step false singles c v q k n =
    read_step 0x27 false (plain singles) (plain _) c (c ∷ []) _ (unfold text_eq in ground arith)
      (unfold advance is_raw_control is_control in ground arith)

pub read-literal :
    (multiline : Bool) (v : Text) (singles doubles : ℕ) (m : Metrics)
    → (measure v singles doubles m).max_single_quotes ≤ bound multiline
    → (measure v singles doubles m).escape_codes ≡ false
    → (multiline ≡ false → (measure v singles doubles m).newline ≡ false)
    → read_units 0x27 multiline (plain singles) (v ++ closing 0x27 multiline) ≡ some v
unfolding measure
read-literal true [] singles doubles m q k n = unfold read_units text_eq in refl
read-literal false [] singles doubles m q k n = unfold read_units text_eq in refl
read-literal multiline (c ∷ v) singles doubles m q k n =
    let s = if c == 0x27 then singles + 1 else 0 in
    let d = if c == 0x22 then doubles + 1 else 0 in
    let (codes, newline, quotes) = measure_mono v s d (seen c s d m) in
    literal_step multiline singles c v (omega arith) (ground arith) (λ e. ground arith)
    ∙ ap (prepend (c ∷ [])) (read-literal multiline v s d (seen c s d m) q k n)
