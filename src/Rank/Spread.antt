-- ===== src/Rank/Spread.antt =====
-- `Renormalise`: the ranks that it returns are in strict order, one for each item.
use native.Mathlib.Nat.{pow-suc}
use super_ops.Base.{
  ℕ, zero, suc, ◌+◌, ◌*◌, ◌/◌, ◌%◌, ◌^◌, ◌<◌, ◌≡◌, ◌⊎◌, inl, inr, true, List, [], ◌∷◌, arith, All,
  length, ltb, ap,
}
use super_ops.Base.Bytes.{str_lt}
use super_ops.Rank.{digit, encode, encode_onto, spread}
use super_ops.Rank.Digits.{IsDigit, digit-IsDigit, index-digit, lt-value}

lt-digit : (d e : ℕ) → d < 62 → e < 62 → ltb (digit d) (digit e) ≡ ltb d e
lt-digit d e h k = ground (
  arith,
  lt-value (digit d) (digit e) (digit-IsDigit d h) (digit-IsDigit e k),
  index-digit d h,
  index-digit e k,
)

fits-div : (w a : ℕ) → a < 62 ^ suc w → a / 62 < 62 ^ w
fits-div w a h = omega (arith, rw (pow-suc 62 w) at h)

-- The last digits decide between two values only if the digits before them agree.
lt-div : (a b : ℕ) → a < b → (a / 62 < b / 62) ⊎ ((a / 62 ≡ b / 62) × (a % 62 < b % 62))
lt-div a b h = ground arith

-- Of two values of one width the smaller is written as the smaller string.
encode_onto-lt :
    (width a b : ℕ) (xs ys : List ℕ)
    → a < 62 ^ width
    → b < 62 ^ width
    → (a < b) ⊎ ((a ≡ b) × (str_lt xs ys ≡ true))
    → str_lt (encode_onto a width xs) (encode_onto b width ys) ≡ true
unfolding encode_onto
encode_onto-lt zero a b xs ys h k (inl lt) = absurd (omega arith)
encode_onto-lt zero a b xs ys h k (inr (_, lt)) = lt
encode_onto-lt (suc w) a b xs ys h k (inl lt) =
    encode_onto-lt w (a / 62) (b / 62) _ _ (fits-div w a h) (fits-div w b k) (elim (lt-div a b lt) [
      | inl q ↦ inl q
      | inr (q, l) ↦ inr (q, unfold str_lt in ground (arith, lt-digit (a % 62) (b % 62)))
    ])
encode_onto-lt (suc w) a b xs ys h k (inr (q, lt)) =
    encode_onto-lt w (a / 62) (b / 62) _ _ (fits-div w a h) (fits-div w b k)
      (inr (ap (λ n. n / 62) q, rw q (unfold str_lt in ground arith)))

pub length-encode_onto :
    (width a : ℕ) (xs : List ℕ) → length (encode_onto a width xs) ≡ width + length xs
unfolding encode_onto
length-encode_onto zero a xs = omega arith
length-encode_onto (suc w) a xs = omega (arith, length-encode_onto w (a / 62) (digit (a % 62) ∷ xs))

pub digits-encode_onto :
    (width a : ℕ) (xs : List ℕ) → All IsDigit xs → All IsDigit (encode_onto a width xs)
unfolding encode_onto
digits-encode_onto zero a xs v = v
digits-encode_onto (suc w) a xs v =
    digits-encode_onto w (a / 62) _ (digit-IsDigit (a % 62) (omega arith), v)

pub encode-lt :
    (width a b : ℕ) → a < b → b < 62 ^ width → str_lt (encode a width) (encode b width) ≡ true
unfolding encode
encode-lt width a b h k = encode_onto-lt width a b [] [] (omega arith) k (inl h)

-- The entries rise strictly, from above `low` on.
abbrev pub Rising : List ℕ → List (List ℕ) → Type 0
Rising low [] = Unit {0}
Rising low (r ∷ rs) = (str_lt low r ≡ true) × Rising r rs

pub spread-Rising :
    (step width i left : ℕ)
    → 0 < step
    → (i + left) * step < 62 ^ width
    → Rising (encode (i * step) width) (spread step width i left)
unfolding spread
spread-Rising step width i zero h k = tt
spread-Rising step width i (suc left) h k = (
  encode-lt width (i * step) ((i + 1) * step) (grind arith) (grind arith),
  spread-Rising step width (i + 1) left h (grind arith),
)
