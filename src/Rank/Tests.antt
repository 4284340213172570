-- ===== src/Rank/Tests.antt =====
-- Ranks computed on small inputs, to be read beside the source, and the theorems at such inputs.
use super_ops.Base.{ℕ, ◌^◌, ◌≡◌, refl, List, [], ◌∷◌, arith, true}
use super_ops.Base.Bytes.{codes, str_lt}
use super_ops.Base.Fallible.{ok, err}
use super_ops.Rank.{order, too_many, rank_between, renormalise, index, digit}
use super_ops.Rank.Correct.{IsRank, IsBetween, rank_between-IsBetween}
use super_ops.Rank.Total.{rank_between_total}
use super_ops.Rank.ZeroEnd.{rank_between_zero_end}
use super_ops.Rank.Renormalise.{IsColumn, renormalise-IsColumn, renormalise_refuses}

first_rank : rank_between [] [] ≡ ok (codes "U")
unfolding rank_between
first_rank = refl

above_first : rank_between [] (codes "U") ≡ ok (codes "F")
unfolding rank_between index digit
above_first = refl

adjacent_digits : rank_between (codes "A") (codes "B") ≡ ok (codes "AU")
unfolding rank_between index digit str_lt
adjacent_digits = refl

wrong_order : rank_between (codes "B") (codes "A") ≡ err order
unfolding rank_between index digit str_lt
wrong_order = refl

-- Between "a" and "a0" nothing fits; the answer sorts after both.
past_upper : rank_between (codes "a") (codes "a0") ≡ ok (codes "a0V")
unfolding rank_between index digit str_lt
past_upper = refl

three : renormalise 3 ≡ ok (codes "F" ∷ codes "U" ∷ codes "j" ∷ [])
unfolding renormalise digit
three = refl

rank_between-IsBetween_example : IsBetween (codes "A") (codes "B") (codes "AU")
rank_between-IsBetween_example =
    rank_between-IsBetween (codes "A") (codes "B") (codes "AU") (λ _. omega arith) adjacent_digits

A-IsRank : IsRank (codes "A")
unfolding index
A-IsRank = record { digits = (refl, tt); short = omega arith }

B-IsRank : IsRank (codes "B")
unfolding index
B-IsRank = record { digits = (refl, tt); short = omega arith }

rank_between_total_example : (r : List ℕ) × (rank_between (codes "A") (codes "B") ≡ ok r)
unfolding str_lt
rank_between_total_example =
    rank_between_total (codes "A") (codes "B") A-IsRank B-IsRank (omega arith) (omega arith) refl

zero-IsRank : IsRank (codes "A0")
unfolding index
zero-IsRank = record { digits = (refl, (refl, tt)); short = omega arith }

rank_between_zero_end_example :
    (r : List ℕ) × (rank_between [] (codes "A0") ≡ ok r) × (str_lt (codes "A0") r ≡ true)
rank_between_zero_end_example = rank_between_zero_end (codes "A") zero-IsRank (omega arith)

renormalise-IsColumn_example : (rs : List (List ℕ)) × (renormalise 40 ≡ ok rs) × IsColumn 40 rs
renormalise-IsColumn_example = renormalise-IsColumn 40 (omega arith)

renormalise_refuses_example : renormalise (62 ^ 8) ≡ err too_many
renormalise_refuses_example = renormalise_refuses (62 ^ 8) (omega arith)
