-- ===== src/Rank/Rounds.antt =====
-- One round of the loop of `between`, read off its result.
use super_ops.Base.{
  ℕ, ◌+◌, ◌≤◌, ◌<◌, ◌/◌, ◌≡◌, refl, ◌≢◌, ◌⊎◌, inl, inr, List, [], ◌∷◌, ◌++◌, arith, All, length,
}
use super_ops.Base.Int.{pos}
use super_ops.Base.Fallible.{Result, ok, err}
use super_ops.Rank.{exhausted, digit, base, after, adjacent, between_round, between_loop, Error}
use super_ops.Rank.Digits.{IsDigit, value, index_of_IsDigit}

-- The digits that the round compares, and what is left behind them.
abbrev pub low : List ℕ → ℕ
low [] = 0
low (c ∷ cs) = value c

abbrev pub high : List ℕ → ℕ
high [] = base
high (c ∷ cs) = value c

abbrev pub rest_of : List ℕ → List ℕ
rest_of [] = []
rest_of (c ∷ cs) = cs

-- How a round came to the result `r`.
pub data Round (lo hi out r : List ℕ) : Type 0 where
  same :
      low lo ≡ high hi
      → length out < 64
      → between_loop (rest_of lo) (rest_of hi) (out ++ digit (low lo) ∷ []) ≡ ok r
      → Round lo hi out r
  middle : low lo + 1 < high hi → r ≡ out ++ digit ((low lo + high hi) / 2) ∷ [] → Round lo hi out r
  apart :
      (tail : List ℕ)
      → high hi ≤ low lo + 1
      → low lo ≢ high hi
      → after (rest_of lo) ≡ ok tail
      → length out + 1 + length tail ≤ 64
      → r ≡ out ++ digit (low lo) ∷ tail
      → Round lo hi out r

adjacent_inv :
    (l : ℕ) (lo out r : List ℕ)
    → adjacent l lo out ≡ ok r
    → (tail : List ℕ) × (after lo ≡ ok tail)
      × (length out + 1 + length tail ≤ 64)
      × (r ≡ out ++ digit l ∷ tail)
unfolding adjacent
adjacent_inv l lo out r e = go (after lo) refl
  where
    go :
        (t : Result Error (List ℕ))
        → after lo ≡ t
        → (tail : List ℕ) × (after lo ≡ ok tail)
          × (length out + 1 + length tail ≤ 64)
          × (r ≡ out ++ digit l ∷ tail)
    go (ok t) q = (t, q, ground arith, ground arith)
    go (err x) q = absurd (ground arith)

round_inv :
    (l h : ℕ) (lo out r : List ℕ) (next : Result Error (List ℕ))
    → between_round (pos l) (pos h) lo out next ≡ ok r
    → ((l ≡ h) × (length out < 64) × (next ≡ ok r))
      ⊎ ((l + 1 < h) × (r ≡ out ++ digit ((l + h) / 2) ∷ []))
      ⊎ ((h ≤ l + 1) × (l ≢ h) × (adjacent l lo out ≡ ok r))
unfolding between_round
round_inv l h lo out r next e = ground arith

to_Round :
    (lo hi out r : List ℕ) (next : Result Error (List ℕ))
    → (low lo ≡ high hi
        → next ≡ ok r
        → between_loop (rest_of lo) (rest_of hi) (out ++ digit (low lo) ∷ []) ≡ ok r)
    → between_round (pos (low lo)) (pos (high hi)) (rest_of lo) out next ≡ ok r
    → Round lo hi out r
to_Round lo hi out r next go_on e = elim (round_inv (low lo) (high hi) (rest_of lo) out r next e) [
  | inl (q, short, n) ↦ same q short (go_on q n)
  | inr (inl (lt, q)) ↦ middle lt q
  | inr (inr (le, ne, q)) ↦
      let (tail, a, b, c) = adjacent_inv (low lo) (rest_of lo) out r q in apart tail le ne a b c
]

-- Every result of the loop is the result of a round.
pub between_loop-Round :
    (lo hi out r : List ℕ)
    → All IsDigit lo
    → All IsDigit hi
    → between_loop lo hi out ≡ ok r
    → Round lo hi out r
unfolding between_loop
between_loop-Round [] [] out r v w e =
    to_Round [] [] out r (err exhausted) (λ q n. absurd (omega arith)) e
between_loop-Round [] (h ∷ hi) out r v w e =
    to_Round [] (h ∷ hi) out r _ (λ _ n. n) (rw (index_of_IsDigit h w.0) at e)
between_loop-Round (l ∷ lo) [] out r v w e =
    to_Round (l ∷ lo) [] out r _ (λ _ n. n) (rw (index_of_IsDigit l v.0) at e)
between_loop-Round (l ∷ lo) (h ∷ hi) out r v w e =
    to_Round (l ∷ lo) (h ∷ hi) out r _ (λ _ n. n)
      (rw (index_of_IsDigit l v.0, index_of_IsDigit h w.0) at e)
