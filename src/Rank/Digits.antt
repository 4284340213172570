-- ===== src/Rank/Digits.antt =====
-- The digits of a rank: `index` and `digit` are inverse, and bytes are ordered as digits are.
use super_ops.Base.{
  ℕ, ◌+◌, ◌<◌, ◌≡◌, refl, ◌≢◌, true, false, List, [], ◌∷◌, ◌++◌, arith, ltb, ◌==◌, ==_iff,
  if◌then◌else◌, check_table, check_table-at,
}
use super_ops.Base.Int.{pos, pos_part, ltb_ℤ}
use super_ops.Rank.{digit, index}

-- A byte that `validate` accepts, and the digit that it stands for.
abbrev pub IsDigit : ℕ → Type 0
IsDigit c = ltb_ℤ (index c) (pos 0) ≡ false

abbrev pub value : ℕ → ℕ
value c = pos_part (index c)

-- The string is not empty and its last byte is not '0'.
abbrev pub EndsHigh : List ℕ → Type 0
EndsHigh [] = ⊥
EndsHigh (c ∷ []) = c ≢ b'0'
EndsHigh (c ∷ d ∷ cs) = EndsHigh (d ∷ cs)

abbrev letter : ℕ → ℕ
letter d = if ltb d 10 then 48 + d else if ltb d 36 then 55 + d else 61 + d

digit_table : check_table (λ d. digit d == letter d) 62 ≡ true
unfolding check_table digit
digit_table = refl

digit-letter : (d : ℕ) → d < 62 → digit d ≡ letter d
digit-letter d h = (==_iff _ _).0 (check_table-at _ 62 d h digit_table)

pub index-digit : (d : ℕ) → d < 62 → index (digit d) ≡ pos d
unfolding index
index-digit d h = ground (arith, digit-letter d h)

pub digit-IsDigit : (d : ℕ) → d < 62 → IsDigit (digit d)
digit-IsDigit d h = ground (arith, index-digit d h)

pub digit-ne-zero : (d : ℕ) → d < 62 → 0 < d → digit d ≢ b'0'
digit-ne-zero d h k = ground (arith, digit-letter d h)

pub index_of_IsDigit : (c : ℕ) → IsDigit c → index c ≡ pos (value c)
unfolding index
index_of_IsDigit c h = ground arith

pub value-lt : (c : ℕ) → value c < 62
unfolding index
value-lt c = ground arith

pub digit-value : (c : ℕ) → IsDigit c → digit (value c) ≡ c
unfolding index
digit-value c h = ground (arith, digit-letter (value c) (value-lt c))

pub value-zero : (c : ℕ) → IsDigit c → c ≢ b'0' → 0 < value c
unfolding index
value-zero c h k = ground arith

-- Bytes compare as their digits do.
pub lt-value : (c d : ℕ) → IsDigit c → IsDigit d → ltb c d ≡ ltb (value c) (value d)
unfolding index
lt-value c d h k = ground arith

pub EndsHigh-append :
    (p : List ℕ) (c : ℕ) (cs : List ℕ) → EndsHigh (c ∷ cs) → EndsHigh (p ++ c ∷ cs)
EndsHigh-append [] c cs h = h
EndsHigh-append (x ∷ []) c cs h = h
EndsHigh-append (x ∷ y ∷ p) c cs h = EndsHigh-append (y ∷ p) c cs h
