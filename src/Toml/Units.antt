-- ===== src/Toml/Units.antt =====
-- One code unit of a basic string, as `escapeBasic` writes it, is read back.
use akuapkg.Common.{
  ℕ, suc, ◌+◌, ◌*◌, ◌/◌, ◌%◌, ◌<◌, ◌≡◌, refl, ap, ◌∙◌, Text, text_eq, text_eq_sound, length,
  length-append, Bool, true, false, ◌&&◌, ◌||◌, Option, none, some, [], ◌∷◌, ◌++◌, ◌==◌, ==_iff,
  leb, if◌then◌else◌, arith, Bool-cases, inl, inr,
}
use akuapkg.Toml.{hex_digit, hex4, escape_unit}
use akuapkg.Toml.Reader.{
  Mode, plain, escaped, hex, from_hex, is_raw_control, advance, read_units, closing, is_between,
  prepend,
}

-- a closing delimiter with something before it is no closing delimiter
pub not_close : (q : ℕ) (s : Text) → text_eq (s ++ q ∷ q ∷ q ∷ []) (q ∷ q ∷ []) ≡ false
not_close q s = elim (Bool-cases (text_eq (s ++ q ∷ q ∷ q ∷ []) (q ∷ q ∷ []))) [
  | inl e ↦
      absurd (omega (arith, ap length (text_eq_sound _ _ e), length-append s (q ∷ q ∷ q ∷ [])))
  | inr e ↦ e
]

from_hex-hex_digit : (d : ℕ) → d < 16 → from_hex (hex_digit d) ≡ some d
unfolding from_hex
from_hex-hex_digit d h = ground arith

prepend-nil : (o : Option Text) → prepend [] o ≡ o
prepend-nil none = refl
prepend-nil (some more) = refl

module _ (quote : ℕ) (multiline : Bool) where
  pub read_step :
      (mode next : Mode) (c : ℕ) (out rest : Text)
      → (is_between mode && text_eq (c ∷ rest) (closing quote multiline)) ≡ false
      → advance quote multiline mode c ≡ some (next, out)
      → read_units quote multiline mode (c ∷ rest)
        ≡ prepend out (read_units quote multiline next rest)
  unfolding read_units
  read_step mode next c out rest h k = rw (h, read_units) (rw k refl)

  hex_step :
      (left value d : ℕ) (rest : Text)
      → d < 16
      → read_units quote multiline (hex (suc (suc left)) value) (hex_digit d ∷ rest)
        ≡ read_units quote multiline (hex (suc left) (value * 16 + d)) rest
  hex_step left value d rest h =
      read_step (hex (suc (suc left)) value) (hex (suc left) (value * 16 + d)) (hex_digit d) [] rest
        refl (unfold advance in ground (arith, from_hex-hex_digit d h))
      ∙ prepend-nil _

  hex_last :
      (value d : ℕ) (rest : Text)
      → d < 16
      → read_units quote multiline (hex 1 value) (hex_digit d ∷ rest)
        ≡ prepend ((value * 16 + d) ∷ []) (read_units quote multiline (plain 0) rest)
  hex_last value d rest h =
      read_step (hex 1 value) (plain 0) (hex_digit d) ((value * 16 + d) ∷ []) rest refl
        (unfold advance in ground (arith, from_hex-hex_digit d h))

  read_hex4 :
      (c : ℕ) (rest : Text)
      → c < 65536
      → read_units quote multiline (hex 4 0) (hex4 c ++ rest)
        ≡ prepend (c ∷ []) (read_units quote multiline (plain 0) rest)
  read_hex4 c rest h =
      hex_step 2 0 (c / 4096 % 16) _ (omega arith)
      ∙ hex_step 1 _ (c / 256 % 16) _ (omega arith)
      ∙ hex_step 0 _ (c / 16 % 16) _ (omega arith)
      ∙ hex_last _ (c % 16) _ (omega arith)
      ∙ ap (λ n. prepend (n ∷ []) (read_units quote multiline (plain 0) rest)) (omega arith)

not_closing :
    (multiline : Bool) (mode : Mode) (c : ℕ) (rest : Text)
    → (c == 0x22) ≡ false
    → (is_between mode && text_eq (c ∷ rest) (closing 0x22 multiline)) ≡ false
unfolding text_eq
not_closing true mode c rest h = ground arith
not_closing false mode c rest h = ground arith

module _ (multiline : Bool) (run : ℕ) where
  -- `\e` is read as the unit that it escapes
  pub read_pair :
      (e c : ℕ) (rest : Text)
      → advance 0x22 multiline escaped e ≡ some (plain 0, c ∷ [])
      → read_units 0x22 multiline (plain run) (0x5c ∷ e ∷ rest)
        ≡ prepend (c ∷ []) (read_units 0x22 multiline (plain 0) rest)
  read_pair e c rest h =
      read_step 0x22 multiline (plain run) escaped 0x5c [] (e ∷ rest)
        (not_closing multiline (plain run) 0x5c (e ∷ rest) refl) (unfold advance in refl)
      ∙ prepend-nil _
      ∙ read_step 0x22 multiline escaped (plain 0) e (c ∷ []) rest refl h

  read_unicode :
      (c : ℕ) (rest : Text)
      → c < 65536
      → read_units 0x22 multiline (plain run) (0x5c ∷ b'u' ∷ (hex4 c ++ rest))
        ≡ prepend (c ∷ []) (read_units 0x22 multiline (plain 0) rest)
  read_unicode c rest h =
      read_step 0x22 multiline (plain run) escaped 0x5c [] _
        (not_closing multiline (plain run) 0x5c _ refl) (unfold advance in refl)
      ∙ prepend-nil _
      ∙ read_step 0x22 multiline escaped (hex 4 0) b'u' [] _ refl (unfold advance in refl)
      ∙ prepend-nil _
      ∙ read_hex4 0x22 multiline c rest h

  read_bare :
      (c : ℕ) (rest : Text)
      → (c == 0x22) ≡ false
      → (c == 0x5c) ≡ false
      → is_raw_control c ≡ false
      → read_units 0x22 multiline (plain run) (c ∷ rest)
        ≡ prepend (c ∷ []) (read_units 0x22 multiline (plain 0) rest)
  read_bare c rest q b k =
      read_step 0x22 multiline (plain run) (plain 0) c (c ∷ []) rest
        (not_closing multiline (plain run) c rest q) (unfold advance is_raw_control in ground arith)

-- the escape that stands for a unit, if one of a single letter does
escape_unit_control :
    (multiline : Bool) (c : ℕ)
    → (c == 0x22) ≡ false
    → (c == 0x0a) ≡ false
    → (c == 0x08) ≡ false
    → (c == 0x09) ≡ false
    → (c == 0x0c) ≡ false
    → (c == 0x0d) ≡ false
    → (c == 0x5c) ≡ false
    → escape_unit multiline 0 c ≡ (if leb c 0x1f || c == 0x7f then 0x5c ∷ b'u' ∷ hex4 c else c ∷ [])
unfolding escape_unit
escape_unit_control multiline c a b d e f g h = rw (a, b, d, e, f, g, h) refl

read_newline :
    (multiline : Bool) (run : ℕ) (rest : Text)
    → read_units 0x22 multiline (plain run) (escape_unit multiline 0 0x0a ++ rest)
      ≡ prepend (0x0a ∷ []) (read_units 0x22 multiline (plain 0) rest)
unfolding escape_unit advance
read_newline true run rest =
    read_step 0x22 true (plain run) (plain 0) 0x0a (0x0a ∷ []) rest
      (not_closing true (plain run) 0x0a rest refl) refl
read_newline false run rest = read_pair false run b'n' 0x0a rest refl

read_other :
    (multiline : Bool) (run c : ℕ) (rest : Text)
    → (c == 0x22) ≡ false
    → (c == 0x0a) ≡ false
    → (c == 0x5c) ≡ false
    → (c == 0x09) ≡ false
    → read_units 0x22 multiline
        (plain run)
        ((if leb c 0x1f || c == 0x7f then 0x5c ∷ b'u' ∷ hex4 c else c ∷ []) ++ rest)
      ≡ prepend (c ∷ []) (read_units 0x22 multiline (plain 0) rest)
read_other multiline run c rest q n b t = elim (Bool-cases (leb c 0x1f || c == 0x7f)) [
  | inl e ↦ rw e (read_unicode multiline run c rest (ground arith))
  | inr e ↦ rw e (read_bare multiline run c rest q b (unfold is_raw_control in ground arith))
]

module _ (multiline : Bool) (run c : ℕ) (rest : Text) where
  abbrev pub Reads : Text → ℕ → Type 0
  Reads printed unit =
      read_units 0x22 multiline (plain run) (printed ++ rest)
      ≡ prepend (unit ∷ []) (read_units 0x22 multiline (plain 0) rest)

  -- a unit with an escape of its own, else the rest
  read_if :
      (k e : ℕ)
      → advance 0x22 multiline escaped e ≡ some (plain 0, k ∷ [])
      → escape_unit multiline 0 k ≡ 0x5c ∷ e ∷ []
      → ((c == k) ≡ false → Reads (escape_unit multiline 0 c) c)
      → Reads (escape_unit multiline 0 c) c
  read_if k e h p otherwise = elim (Bool-cases (c == k)) [
    | inl same ↦ rw ((==_iff c k).0 same) (rw p (read_pair multiline run e k rest h))
    | inr other ↦ otherwise other
  ]

  -- what is written for a unit that is no quote is read as the unit
  pub read_unit : (c == 0x22) ≡ false → Reads (escape_unit multiline 0 c) c
  unfolding escape_unit advance
  read_unit q = elim (Bool-cases (c == 0x0a)) [
    | inl same ↦ rw ((==_iff c 0x0a).0 same) (read_newline multiline run rest)
    | inr n ↦ read_if 0x08 b'b' refl refl λ b. read_if 0x09 b't' refl refl λ t.
        read_if 0x0c b'f' refl refl λ f. read_if 0x0d b'r' refl refl λ r.
          read_if 0x5c 0x5c refl refl λ s.
            rw (escape_unit_control multiline c q n b t f r s)
              (read_other multiline run c rest q n s t)
  ]
