-- ===== src/Rank/Total.antt =====
-- `Between` answers: below the length limit a rank is always found.
use super_ops.Base.{
  ℕ, ◌+◌, ◌/◌, ◌≤◌, ◌<◌, ◌≡◌, refl, ◌≢◌, ◌⊎◌, inl, inr, true, List, [], ◌∷◌, ◌++◌, arith, All,
  length, length-append, max, ◌∙◌, eq_or_ne, le_or_lt,
}
use super_ops.Base.Int.{pos}
use super_ops.Base.Fallible.{Result, ok, err}
use super_ops.Rank.{
  exhausted, digit, adjacent, between_round, between_loop, between, dispatch, rank_between,
  max_rank_length, initial, Error,
}
use super_ops.Rank.Digits.{IsDigit, value, index_of_IsDigit}
use super_ops.Rank.Ends.{after-IsAfter, after_total, before_total}
use super_ops.Rank.Rounds.{low, high, rest_of}
use super_ops.Rank.Between.{some_left, length-rest_of, All-rest_of}
use super_ops.Rank.Correct.{IsRank, rank_between-dispatch, in_order}

adjacent_total :
    (l : ℕ) (lo out : List ℕ)
    → All IsDigit lo
    → length out + length lo + 2 ≤ max_rank_length
    → (r : List ℕ) × (adjacent l lo out ≡ ok r)
unfolding adjacent
adjacent_total l lo out v h =
    let (tail, e) = after_total lo v (omega arith) in
    let i = (after-IsAfter lo tail v e).0 in (out ++ digit l ∷ tail, rw e (ground (arith, i.grown)))

-- One round of the loop returns a rank, if the rounds after it do.
round_total :
    (lo hi out : List ℕ) (next : Result Error (List ℕ))
    → All IsDigit lo
    → length out + max (length lo) (length hi) < max_rank_length
    → (low lo ≡ high hi → (r : List ℕ) × (next ≡ ok r))
    → (r : List ℕ) × (between_round (pos (low lo)) (pos (high hi)) (rest_of lo) out next ≡ ok r)
unfolding between_round
round_total lo hi out next v h go_on =
    go (eq_or_ne (low lo) (high hi)) (le_or_lt (high hi) (low lo + 1))
  where
    go :
        (low lo ≡ high hi) ⊎ (low lo ≢ high hi)
        → (high hi ≤ low lo + 1) ⊎ (low lo + 1 < high hi)
        → (r : List ℕ) × (between_round (pos (low lo)) (pos (high hi)) (rest_of lo) out next ≡ ok r)
    go (inl q) _ = let (r, e) = go_on q in (r, ground arith)
    go (inr q) (inr far) = (out ++ digit ((low lo + high hi) / 2) ∷ [], ground arith)
    go (inr q) (inl near) =
        let (r, e) =
          adjacent_total (low lo) (rest_of lo) out (All-rest_of lo v)
            (omega (arith, length-rest_of lo, some_left lo hi near)) in
        (r, ground arith)

between_loop_total :
    (lo hi out : List ℕ)
    → All IsDigit lo
    → All IsDigit hi
    → length out + max (length lo) (length hi) < max_rank_length
    → (r : List ℕ) × (between_loop lo hi out ≡ ok r)
unfolding between_loop
between_loop_total [] [] out v w h =
    round_total [] [] out (err exhausted) v h (λ q. absurd (omega arith))
between_loop_total [] (c ∷ hi) out v w h = rw (index_of_IsDigit c w.0) (
    round_total [] (c ∷ hi) out _ v h (λ _.
      between_loop_total [] hi (out ++ digit 0 ∷ []) tt w.1
        (omega (arith, length-append out (digit 0 ∷ [])))))
between_loop_total (l ∷ lo) [] out v w h = rw (index_of_IsDigit l v.0) (
    round_total (l ∷ lo) [] out _ v h (λ _.
      between_loop_total lo [] (out ++ digit (value l) ∷ []) v.1 tt
        (omega (arith, length-append out (digit (value l) ∷ [])))))
between_loop_total (l ∷ lo) (c ∷ hi) out v w h =
    rw (index_of_IsDigit l v.0, index_of_IsDigit c w.0)
      (round_total (l ∷ lo) (c ∷ hi) out _ v h (λ _.
        between_loop_total lo hi (out ++ digit (value l) ∷ []) v.1 w.1
          (omega (arith, length-append out (digit (value l) ∷ [])))))

dispatch_total :
    (lo hi : List ℕ)
    → All IsDigit lo
    → All IsDigit hi
    → length lo < max_rank_length
    → length hi < max_rank_length
    → (r : List ℕ) × (dispatch lo hi ≡ ok r)
unfolding between
dispatch_total [] [] v w h k = (initial, refl)
dispatch_total [] (c ∷ hi) v w h k = before_total (c ∷ hi) w k
dispatch_total (l ∷ lo) [] v w h k = after_total (l ∷ lo) v h
dispatch_total (l ∷ lo) (c ∷ hi) v w h k = between_loop_total (l ∷ lo) (c ∷ hi) [] v w (omega arith)

-- `Between` returns a rank for any two ranks in order that are shorter than the limit: it is
-- exhausted only where a neighbour has the full length.
pub rank_between_total :
    (lo hi : List ℕ)
    → IsRank lo
    → IsRank hi
    → length lo < max_rank_length
    → length hi < max_rank_length
    → in_order lo hi ≡ true
    → (r : List ℕ) × (rank_between lo hi ≡ ok r)
rank_between_total lo hi v w h k o =
    let (r, e) = dispatch_total lo hi v.digits w.digits h k in
    (r, rank_between-dispatch lo hi v w o ∙ e)
