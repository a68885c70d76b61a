-- ===== src/Yaml/Octal.antt =====
-- A plain mapping value with a leading zero is written as the decimal number.
use mathlib.Core.List.{append_assoc}
use akuapkg.Common.{
  ℕ, suc, ◌+◌, ◌-◌, ◌*◌, ◌^◌, ◌≤◌, ◌≡◌, ◌≢◌, refl, ap, sym, ◌∙◌, Text, text_eq, starts_with, true,
  false, none, some, [], ◌∷◌, ◌++◌, All, All-append, All-map, length, length-append, take,
  take-append, drop, drop-append, ◌==◌, arith, if◌then◌else◌, ◌<◌, subst, ltb,
}
use native.Mathlib.Nat.{add-mul, mul_assoc, pow-succ'}
use akuapkg.Toml.Document.{decimal}
use akuapkg.Archive.{is_space, trim_start}
use akuapkg.Yaml.{
  without_ending, unquoted, value_start, mapping_value_start, is_octal, octal_run, ends_value,
  octal_value, number_digits, rewritten, starts_block, written_plain, written_at, written_value,
  replaced_value, indent_of, written_line,
}

-- no line end
abbrev pub IsInLine : ℕ → Type 0
IsInLine c = (c ≢ 0x0a) × (c ≢ 0x0d)

-- no quote and no colon
abbrev pub IsKeyUnit : ℕ → Type 0
IsKeyUnit c = IsInLine c × (c ≢ b'"') × (c ≢ b'\'') × (c ≢ b':')

abbrev pub IsOctalDigit : ℕ → Type 0
IsOctalDigit c = (48 ≤ c) × (c ≤ 55)

without_ending-line : (s : Text) → All IsInLine s → without_ending (s ++ 0x0a ∷ []) ≡ s
unfolding without_ending text_eq
without_ending-line [] h = refl
without_ending-line (a ∷ s) h =
    let m : (a == 0x0a) ≡ false = ground (arith, h.0) in
    let n : (a == 0x0d) ≡ false = ground (arith, h.0) in
    rw m (rw n (ap (◌∷◌ a) (without_ending-line s h.1)))

value_start-key :
    (index : ℕ) (key rest : Text)
    → All IsKeyUnit key
    → value_start unquoted index (key ++ b':' ∷ 32 ∷ rest) ≡ some (index + (length key + 1))
unfolding value_start is_space
value_start-key index [] rest h = ap some (omega arith)
value_start-key index (c ∷ key) rest h =
    let colon : (c == b':') ≡ false = ground (arith, h.0) in
    let double : (c == b'"') ≡ false = ground (arith, h.0) in
    let single : (c == b'\'') ≡ false = ground (arith, h.0) in
    rw colon
      (rw double (rw single (value_start-key (suc index) key rest h.1 ∙ ap some (omega arith))))

octal_run-append :
    (digits rest : Text)
    → All IsOctalDigit digits
    → ends_value rest ≡ true
    → octal_run (digits ++ rest) ≡ (digits, rest)
unfolding octal_run
octal_run-append [] [] h k = refl
octal_run-append [] (c ∷ s) h k =
    let other : is_octal c ≡ false = ground (arith, k) in rw other refl
octal_run-append (d ∷ digits) rest h k =
    let same : is_octal d ≡ true = ground (arith, h.0) in
    rw same (rw (octal_run-append digits rest h.1 k) refl)

number_digits-decimal :
    (large : ℕ → Text) (n : ℕ) → n < 9007199254740992 → number_digits large n ≡ decimal n
number_digits-decimal large n h =
    let small : ltb n 9007199254740992 ≡ true = ground (arith, h) in rw small refl

rewritten-octal :
    (large : ℕ → Text) (d : ℕ) (digits rest : Text)
    → All IsOctalDigit (d ∷ digits)
    → ends_value rest ≡ true
    → octal_value 0 (d ∷ digits) < 9007199254740992
    → rewritten large (b'0' ∷ ((d ∷ digits) ++ rest))
      ≡ some (decimal (octal_value 0 (d ∷ digits)) ++ rest)
unfolding rewritten text_eq
rewritten-octal large d digits rest h k small =
    rw (octal_run-append (d ∷ digits) rest h k)
      (rw k (rw (number_digits-decimal large (octal_value 0 (d ∷ digits)) small) refl))

-- the branches that lead to a rewritten value
written_found :
    (large : ℕ → Text) (with_ending line value trimmed after : Text) (start : ℕ)
    → without_ending with_ending ≡ line
    → mapping_value_start line ≡ some start
    → drop start line ≡ value
    → trim_start value ≡ trimmed
    → starts_block trimmed ≡ false
    → rewritten large trimmed ≡ some after
    → written_plain large with_ending ≡ (
      take (start + (length value - length trimmed)) line
          ++ (after ++ drop (length line) with_ending),
      none,
    )
written_found large with_ending line value trimmed after start a b c d e f =
    ap (λ l. written_at large with_ending l (mapping_value_start l)) a
    ∙ ap (written_at large with_ending line) b
    ∙ ap (λ v. written_value large with_ending line start v (trim_start v)) c
    ∙ ap (written_value large with_ending line start value) d
    ∙ ap
        (λ test.
          if test
          then (with_ending, some (indent_of line))
          else replaced_value large with_ending line start value trimmed (rewritten large trimmed))
        e
    ∙ ap (replaced_value large with_ending line start value trimmed) f

trim_start-zero : (s : Text) → trim_start (32 ∷ b'0' ∷ s) ≡ b'0' ∷ s
unfolding trim_start is_space
trim_start-zero s = refl

zero-starts_block : (s : Text) → starts_block (b'0' ∷ s) ≡ false
unfolding starts_with
zero-starts_block s = refl

abbrev octal_line : Text → Text → Text → Text
octal_line key digits rest = key ++ (b':' ∷ 32 ∷ b'0' ∷ (digits ++ rest))

octal_line-IsInLine :
    (key digits rest : Text)
    → All IsKeyUnit key
    → All IsOctalDigit digits
    → All IsInLine rest
    → All IsInLine (octal_line key digits rest)
octal_line-IsInLine key digits rest h k l =
    All-append IsInLine key (b':' ∷ 32 ∷ b'0' ∷ (digits ++ rest)) (All-map (λ c u. u.0) key h) (
      (omega arith, omega arith),
      (
        (omega arith, omega arith),
        (
          (omega arith, omega arith),
          All-append IsInLine digits rest
              (All-map
                (λ c u. (λ e. absurd (omega (arith, e, u)), λ e. absurd (omega (arith, e, u))))
                digits k)
              l,
        ),
      ),
    )

-- the line that is written, with the number as the code reads it
written_line-octal_value :
    (large : ℕ → Text) (key : Text) (d : ℕ) (digits rest : Text)
    → All IsKeyUnit key
    → All IsOctalDigit (d ∷ digits)
    → ends_value rest ≡ true
    → All IsInLine rest
    → octal_value 0 (d ∷ digits) < 9007199254740992
    → written_line large none (octal_line key (d ∷ digits) rest ++ 0x0a ∷ []) ≡ (
      (key ++ b':' ∷ 32 ∷ []) ++ ((decimal (octal_value 0 (d ∷ digits)) ++ rest) ++ 0x0a ∷ []),
      none,
    )
unfolding written_line
written_line-octal_value large key d digits rest h k l m small =
    let tail = b'0' ∷ ((d ∷ digits) ++ rest) in
    let line = octal_line key (d ∷ digits) rest in
    let front = key ++ b':' ∷ 32 ∷ [] in
    let start : length (key ++ b':' ∷ []) ≡ 0 + (length key + 1) =
      omega (arith, length-append {0} key (b':' ∷ [])) in
    written_found large (line ++ 0x0a ∷ []) line (32 ∷ tail) tail
      (decimal (octal_value 0 (d ∷ digits)) ++ rest) (0 + (length key + 1))
      (without_ending-line line (octal_line-IsInLine key (d ∷ digits) rest h k m))
      (value_start-key 0 key tail h)
      (ap (λ n. drop n line) (sym start)
        ∙ ap (drop (length (key ++ b':' ∷ []))) (sym (append_assoc key (b':' ∷ []) (32 ∷ tail)))
        ∙ drop-append (key ++ b':' ∷ []) (32 ∷ tail))
      (trim_start-zero ((d ∷ digits) ++ rest)) (zero-starts_block ((d ∷ digits) ++ rest))
      (rewritten-octal large d digits rest k l small)
    ∙ ap (λ s. (s, none))
        (ap
            (λ s.
              s
              ++ ((decimal (octal_value 0 (d ∷ digits)) ++ rest)
                  ++ drop (length line) (line ++ 0x0a ∷ [])))
            (ap (λ n. take n line) {x = 0 + (length key + 1) + (length (32 ∷ tail) - length tail)}
                {y = length front} (omega (arith, length-append {0} key (b':' ∷ 32 ∷ [])))
              ∙ ap (take (length front)) (sym (append_assoc key (b':' ∷ 32 ∷ []) tail))
              ∙ take-append front tail)
          ∙ ap (λ s. front ++ ((decimal (octal_value 0 (d ∷ digits)) ++ rest) ++ s))
              (drop-append line (0x0a ∷ [])))

-- the number that digits are in base 8, by the places they stand at
unfoldable pub place_value : Text → ℕ
place_value [] = 0
place_value (c ∷ s) = (c - 48) * 8 ^ length s + place_value s

distribute : (a d p q : ℕ) → q ≡ 8 * p → (a * 8 + d) * p ≡ a * q + d * p
distribute a d p q h = rw h (omega (arith, add-mul (a * 8) d p, mul_assoc a 8 p))

octal_value-place_value :
    (so_far : ℕ) (s : Text) → octal_value so_far s ≡ so_far * 8 ^ length s + place_value s
unfolding octal_value place_value
octal_value-place_value so_far [] = omega arith
octal_value-place_value so_far (c ∷ s) =
    octal_value-place_value (so_far * 8 + (c - 48)) s
    ∙ omega (
      arith,
      distribute so_far (c - 48) (8 ^ length s) (8 ^ suc (length s)) (pow-succ' 8 (length s)),
    )

-- Outside a block scalar, a line `<key>: 0<digits><rest>` with octal digits, and a rest that is empty or
-- begins with a space, a tab, `#`, `,`, `]` or `}`, is written as `<key>: <number><rest>` with the number
-- that the digits are in base 8, each by the place it stands at, if that number is below 2^53, and
-- begins no block; the key holds no quotes, colons or line ends, and the rest no line end.
pub written_line-octal :
    (large : ℕ → Text) (key : Text) (d : ℕ) (digits rest : Text)
    → All IsKeyUnit key
    → All IsOctalDigit (d ∷ digits)
    → ends_value rest ≡ true
    → All IsInLine rest
    → place_value (d ∷ digits) < 9007199254740992
    → written_line large none (octal_line key (d ∷ digits) rest ++ 0x0a ∷ []) ≡ (
      (key ++ b':' ∷ 32 ∷ []) ++ ((decimal (place_value (d ∷ digits)) ++ rest) ++ 0x0a ∷ []),
      none,
    )
written_line-octal large key d digits rest h k l m small =
    written_line-octal_value large key d digits rest h k l m (
      subst (λ n. n < 9007199254740992) (sym (octal_value-place_value 0 (d ∷ digits) ∙ omega arith))
        small)
    ∙ ap (λ n. ((key ++ b':' ∷ 32 ∷ []) ++ ((decimal n ++ rest) ++ 0x0a ∷ []), none))
        (octal_value-place_value 0 (d ∷ digits) ∙ omega arith)
