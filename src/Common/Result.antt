-- ===== src/Common/Result.antt =====
-- Results with an error, for effects that may fail.
use mathlib.Core.Path.{◌≡◌, refl}
use mathlib.Core.Bool.{Bool, true, false}

pub data Result {ℓ κ} (E : Type ℓ) (A : Type κ) : Type (ℓ ⊔ κ) where
  ok : A → Result E A
  err : E → Result E A

-- `if (bad) return yield* fail`
abbrev pub fail_if {ℓ} : {E : Type ℓ} → Bool → E → Result E (Unit {0})
fail_if false problem = ok tt
fail_if true problem = err problem

infixl 5 ◌>>◌ ◌>>=◌
abbrev pub ◌>>=◌ {ℓ κ μ} :
    {E : Type ℓ} {A : Type κ} {B : Type μ} → Result E A → (A → Result E B) → Result E B
err problem >>= next = err problem
ok value >>= next = next value

abbrev pub ◌>>◌ {ℓ κ} : {E : Type ℓ} {B : Type κ} → Result E (Unit {0}) → Result E B → Result E B
check >> next = check >>= λ done. next

-- what a bind that succeeds went through
pub >>=-eq-ok {ℓ κ μ} :
    {E : Type ℓ} {A : Type κ} {B : Type μ} (r : Result E A) (next : A → Result E B) {b : B}
    → (r >>= next) ≡ ok b
    → (value : A) × (r ≡ ok value) × (next value ≡ ok b)
>>=-eq-ok (err problem) next e = cc
>>=-eq-ok (ok value) next e = (value, refl, e)

-- a property of the value, if there is one
abbrev pub Holds {ℓ κ μ} : {E : Type ℓ} {A : Type κ} → (A → Type μ) → Result E A → Type μ
Holds P (err problem) = Unit
Holds P (ok value) = P value

pub Holds-bind {ℓ κ μ ν} :
    {E : Type ℓ} {A : Type κ} {B : Type μ} (P : B → Type ν) (r : Result E A) (next : A → Result E B)
    → ((value : A) → r ≡ ok value → Holds P (next value))
    → Holds P (r >>= next)
Holds-bind P (err problem) next h = tt
Holds-bind P (ok value) next h = h value refl

pub Holds-fail_if {ℓ κ μ} :
    {E : Type ℓ} {B : Type κ} (P : B → Type μ) (bad : Bool) (problem : E) (next : Result E B)
    → (bad ≡ false → Holds P next)
    → Holds P (fail_if bad problem >> next)
Holds-fail_if P true problem next h = tt
Holds-fail_if P false problem next h = h refl

pub Holds-mono {ℓ κ μ ν} :
    {E : Type ℓ} {A : Type κ} {P : A → Type μ} {Q : A → Type ν}
    → ((a : A) → P a → Q a)
    → (r : Result E A) → Holds P r
    → Holds Q r
Holds-mono f (ok a) h = f a h
Holds-mono f (err e) h = tt
