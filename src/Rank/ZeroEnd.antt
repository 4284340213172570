-- ===== src/Rank/ZeroEnd.antt =====
-- What `Between` does below a rank that ends in '0': the new rank sorts after its upper neighbour.
use super_ops.Base.{
  ℕ, ◌+◌, ◌<◌, ◌≡◌, refl, true, List, [], ◌∷◌, ◌++◌, arith, length, length-append, ap, ◌∙◌,
}
use super_ops.Base.Bytes.{str_lt, str_lt-append}
use super_ops.Base.Fallible.{ok}
use super_ops.Rank.{index, digit, initial, final, front, before, rank_between, max_rank_length}
use super_ops.Rank.Correct.{IsRank, rank_between-dispatch}

front-snoc : (x : ℕ) (p : List ℕ) (c : ℕ) → front x (p ++ c ∷ []) ≡ x ∷ p
front-snoc x [] c = refl
front-snoc x (y ∷ p) c = ap (◌∷◌ x) (front-snoc y p c)

final-snoc : (x : ℕ) (p : List ℕ) (c : ℕ) → final x (p ++ c ∷ []) ≡ c
final-snoc x [] c = refl
final-snoc x (y ∷ p) c = final-snoc y p c

empty-IsRank : IsRank []
empty-IsRank = record { digits = tt; short = omega arith }

before-zero :
    (p : List ℕ)
    → length p + 1 < max_rank_length
    → before (p ++ b'0' ∷ []) ≡ ok (p ++ b'0' ∷ initial)
unfolding before index digit
before-zero [] h = refl
before-zero (x ∷ p) h =
    rw (front-snoc x p b'0', final-snoc x p b'0') (ground (arith, length-append p (b'0' ∷ [])))

lt-zero : (p : List ℕ) → str_lt (p ++ b'0' ∷ []) (p ++ b'0' ∷ initial) ≡ true
unfolding str_lt
lt-zero p = rw (str_lt-append p) refl

-- Asked for a rank before one that ends in '0' and is shorter than the limit, with an open lower
-- end, `Between` returns a rank that sorts after it.
pub rank_between_zero_end :
    (p : List ℕ)
    → IsRank (p ++ b'0' ∷ [])
    → length p + 1 < max_rank_length
    → (r : List ℕ) × (rank_between [] (p ++ b'0' ∷ []) ≡ ok r) × (str_lt (p ++ b'0' ∷ []) r ≡ true)
rank_between_zero_end [] v h =
    (b'0' ∷ initial, rank_between-dispatch [] _ empty-IsRank v refl ∙ before-zero [] h, lt-zero [])
rank_between_zero_end (x ∷ p) v h = (
  x ∷ p ++ b'0' ∷ initial,
  rank_between-dispatch [] _ empty-IsRank v refl ∙ before-zero (x ∷ p) h,
  lt-zero (x ∷ p),
)
