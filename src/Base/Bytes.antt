-- ===== src/Base/Bytes.antt =====
-- Byte strings: a Go string as the list of its bytes, with Go's order on strings.
use Prim.Native.Char.{code}
use Prim.Native.String.{String}
use super_ops.Base.{
  ℕ, ◌≡◌, refl, Bool, true, false, ◌&&◌, ◌||◌, List, [], ◌∷◌, ◌++◌, arith, ltb, ◌==◌, ◌⊎◌, inl, inr,
  Bool-cases, length,
}

-- The bytes of an ASCII literal.
abbrev pub codes : String → List ℕ
codes String.[] = []
codes (String.◌∷◌ c s) = code c ∷ codes s

-- Go's `<` on strings: bytewise, a proper prefix first.
unfoldable pub str_lt : List ℕ → List ℕ → Bool
str_lt [] [] = false
str_lt [] (y ∷ ys) = true
str_lt (x ∷ xs) [] = false
str_lt (x ∷ xs) (y ∷ ys) = ltb x y || (x == y && str_lt xs ys)

pub str_lt_irrefl : (xs : List ℕ) → str_lt xs xs ≡ false
unfolding str_lt
str_lt_irrefl [] = refl
str_lt_irrefl (x ∷ xs) = ground (arith, str_lt_irrefl xs)

pub str_lt_trans :
    (xs ys zs : List ℕ) → str_lt xs ys ≡ true → str_lt ys zs ≡ true → str_lt xs zs ≡ true
unfolding str_lt
str_lt_trans [] [] zs h k = k
str_lt_trans [] (y ∷ ys) [] h k = k
str_lt_trans [] (y ∷ ys) (z ∷ zs) h k = refl
str_lt_trans (x ∷ xs) [] zs h k = ground arith
str_lt_trans (x ∷ xs) (y ∷ ys) [] h k = ground arith
str_lt_trans (x ∷ xs) (y ∷ ys) (z ∷ zs) h k = ground (arith, str_lt_trans xs ys zs)

-- A common prefix does not matter.
pub str_lt-append : (p xs ys : List ℕ) → str_lt (p ++ xs) (p ++ ys) ≡ str_lt xs ys
unfolding str_lt
str_lt-append [] xs ys = refl
str_lt-append (x ∷ p) xs ys = ground (arith, str_lt-append p xs ys)

-- Equality of strings, Go's `==` and `bytes.Equal`.
unfoldable pub str_eq : List ℕ → List ℕ → Bool
str_eq [] [] = true
str_eq [] (y ∷ ys) = false
str_eq (x ∷ xs) [] = false
str_eq (x ∷ xs) (y ∷ ys) = x == y && str_eq xs ys

pub str_eq→eq : (xs ys : List ℕ) → str_eq xs ys ≡ true → xs ≡ ys
unfolding str_eq
str_eq→eq [] [] h = refl
str_eq→eq [] (y ∷ ys) h = absurd (cc h)
str_eq→eq (x ∷ xs) [] h = absurd (cc h)
str_eq→eq (x ∷ xs) (y ∷ ys) h = ground (arith, str_eq→eq xs ys)

pub str_eq_refl : (xs : List ℕ) → str_eq xs xs ≡ true
unfolding str_eq
str_eq_refl [] = refl
str_eq_refl (x ∷ xs) = ground (arith, str_eq_refl xs)

-- Equality of strings is decided, keeping the proof.
pub str_eq-cases : (xs ys : List ℕ) → (xs ≡ ys) ⊎ (str_eq xs ys ≡ false)
str_eq-cases xs ys = elim (Bool-cases (str_eq xs ys)) [
  | inl h ↦ inl (str_eq→eq xs ys h)
  | inr h ↦ inr h
]

-- Strings of one length in front of others can be split off.
pub append_split :
    (p q xs ys : List ℕ) → length p ≡ length q → p ++ xs ≡ q ++ ys → (p ≡ q) × (xs ≡ ys)
append_split [] [] xs ys l e = (refl, e)
append_split [] (y ∷ q) xs ys l e = absurd (omega arith)
append_split (x ∷ p) [] xs ys l e = absurd (omega arith)
append_split (x ∷ p) (y ∷ q) xs ys l e = ground (arith, append_split p q xs ys (omega arith))
