-- ===== src/Base/Fallible.antt =====
-- Results of Go functions that return a value and an error.
use mathlib.Core.Bool.{Bool, true, false}
use mathlib.Core.Path.{◌≡◌, refl, subst}

pub data Result {ℓ} (E : Type 0) (A : Type ℓ) : Type ℓ where
  err : E → Result E A
  ok : A → Result E A

-- Go on with the value, or return the error.
infixl 5 ◌>>=◌ ◌>>◌
abbrev pub ◌>>=◌ {ℓ κ} :
    {E : Type 0} {A : Type ℓ} {B : Type κ} → Result E A → (A → Result E B) → Result E B
err problem >>= rest = err problem
ok value >>= rest = rest value

abbrev pub ◌>>◌ {ℓ κ} :
    {E : Type 0} {A : Type ℓ} {B : Type κ} → Result E A → Result E B → Result E B
first >> rest = first >>= λ value. rest

-- An early return with an error unless the test holds.
abbrev pub guard : {E : Type 0} → Bool → E → Result E (Unit {0})
guard false problem = err problem
guard true problem = ok tt

abbrev pub is_success {ℓ} : {E : Type 0} {A : Type ℓ} → Result E A → Bool
is_success (err problem) = false
is_success (ok value) = true

pub ok_inj {ℓ} : {E : Type 0} {A : Type ℓ} (x y : A) → ◌≡◌ {A = Result E A} (ok x) (ok y) → x ≡ y
ok_inj x y e = cc

-- A property of the value, if there is one.
abbrev pub Yields {ℓ κ} : {E : Type 0} {A : Type ℓ} → (A → Type κ) → Result E A → Type κ
Yields P (err problem) = Unit
Yields P (ok value) = P value

pub guard-Yields {ℓ κ} :
    {E : Type 0} {A : Type ℓ} (P : A → Type κ) (test : Bool) (problem : E) (rest : Result E A)
    → (test ≡ true → Yields P rest)
    → Yields P (guard test problem >> rest)
guard-Yields P false problem rest h = tt
guard-Yields P true problem rest h = h refl

pub bind-Yields {ℓ κ μ ν} :
    {E : Type 0} {A : Type ℓ} {B : Type κ} (P : A → Type μ) (Q : B → Type ν) (first : Result E A)
    (rest : A → Result E B)
    → Yields P first
    → ((a : A) → P a → Yields Q (rest a))
    → Yields Q (first >>= rest)
bind-Yields P Q (err problem) rest h k = tt
bind-Yields P Q (ok value) rest h k = k value h

pub Yields-ok {ℓ κ} :
    {E : Type 0} {A : Type ℓ} (P : A → Type κ) (result : Result E A) (value : A)
    → Yields P result
    → result ≡ ok value
    → P value
Yields-ok P (err problem) value h e = absurd (cc e)
Yields-ok P (ok found) value h e = subst P (ok_inj found value e) h
