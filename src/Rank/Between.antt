-- ===== src/Rank/Between.antt =====
-- `between`, the loop that walks two bounds: the new rank lies strictly inside.
use mathlib.Core.List.{append_assoc}
use super_ops.Base.{
  ℕ, ◌+◌, ◌-◌, ◌≤◌, ◌<◌, ◌/◌, ◌≡◌, refl, ◌≢◌, true, List, [], ◌∷◌, ◌++◌, arith, All, length,
  length-append, ◌∙◌, max, ap,
}
use super_ops.Base.Bytes.{str_lt}
use super_ops.Base.Fallible.{ok}
use super_ops.Rank.{digit, after, between_loop, max_rank_length}
use super_ops.Rank.Digits.{
  IsDigit, value, EndsHigh, index-digit, digit-IsDigit, digit-ne-zero, value-lt, digit-value,
  lt-value, value-zero,
}
use super_ops.Rank.Ends.{IsFresh, after-IsAfter}
use super_ops.Rank.Rounds.{low, high, rest_of, Round, same, middle, apart, between_loop-Round}

-- What the loop writes behind `out`, when it returns `r`.
pub record IsInside (lo hi out r : List ℕ) : Type 0 where
  pub rest : List ℕ
  pub split : r ≡ out ++ rest
  pub fresh : IsFresh rest
  pub above : str_lt lo rest ≡ true
  pub below : EndsHigh hi → str_lt lo hi ≡ true → str_lt rest hi ≡ true
  pub grown : length rest ≤ max (length lo) (length hi) + 1
  pub short :
      EndsHigh hi
      → str_lt lo hi ≡ true
      → length out + length hi ≤ max_rank_length
      → length r ≤ max_rank_length

low-lt : (lo : List ℕ) → low lo < 62
low-lt [] = omega arith
low-lt (c ∷ cs) = value-lt c

high-le : (hi : List ℕ) → high hi ≤ 62
high-le [] = omega arith
high-le (c ∷ cs) = omega (arith, value-lt c)

-- A digit above the lower one, and a string behind it, is above the lower bound.
above-head :
    (lo : List ℕ) (d : ℕ) (ys : List ℕ)
    → All IsDigit lo
    → d < 62
    → low lo < d
    → str_lt lo (digit d ∷ ys) ≡ true
unfolding str_lt
above-head [] d ys v h lt = refl
above-head (c ∷ cs) d ys v h lt =
    ground (arith, lt-value c (digit d) v.0 (digit-IsDigit d h), index-digit d h)

below-head :
    (hi : List ℕ) (d : ℕ) (ys : List ℕ)
    → All IsDigit hi
    → EndsHigh hi
    → d < 62
    → d < high hi
    → str_lt (digit d ∷ ys) hi ≡ true
unfolding str_lt
below-head [] d ys v n h lt = absurd n
below-head (c ∷ cs) d ys v n h lt =
    ground (arith, lt-value (digit d) c (digit-IsDigit d h) v.0, index-digit d h)

-- The lower digit itself, before what is above the rest of the lower bound.
above-same :
    (lo : List ℕ) (ys : List ℕ)
    → All IsDigit lo
    → str_lt (rest_of lo) ys ≡ true
    → str_lt lo (digit (low lo) ∷ ys) ≡ true
unfolding str_lt
above-same [] ys v h = refl
above-same (c ∷ cs) ys v h = ground (arith, digit-value c v.0)

length-EndsHigh : (hi : List ℕ) → EndsHigh hi → 0 < length hi
length-EndsHigh [] n = absurd n
length-EndsHigh (c ∷ cs) n = omega arith

length-high : (hi : List ℕ) → high hi < 62 → 0 < length hi
length-high [] h = omega arith
length-high (c ∷ cs) h = omega arith

pub length-rest_of : (lo : List ℕ) → length (rest_of lo) ≡ length lo - 1
length-rest_of [] = omega arith
length-rest_of (c ∷ cs) = omega arith

pub some_left : (lo hi : List ℕ) → high hi ≤ low lo + 1 → 0 < max (length lo) (length hi)
some_left [] [] h = absurd (omega arith)
some_left [] (c ∷ cs) h = omega arith
some_left (l ∷ lo) hi h = omega arith

EndsHigh-cons : (c : ℕ) (cs : List ℕ) → EndsHigh cs → EndsHigh (c ∷ cs)
EndsHigh-cons c [] n = absurd n
EndsHigh-cons c (d ∷ cs) n = n

pub All-rest_of : (lo : List ℕ) → All IsDigit lo → All IsDigit (rest_of lo)
All-rest_of [] v = tt
All-rest_of (c ∷ cs) v = v.1

low-le-high :
    (lo hi : List ℕ) → All IsDigit lo → All IsDigit hi → str_lt lo hi ≡ true → low lo ≤ high hi
unfolding str_lt
low-le-high lo [] v w h = omega (arith, low-lt lo)
low-le-high [] (c ∷ cs) v w h = omega arith
low-le-high (l ∷ lo) (c ∷ cs) v w h = ground (arith, lt-value l c v.0 w.0)

middle-IsInside :
    (lo hi out r : List ℕ)
    → All IsDigit lo
    → All IsDigit hi
    → low lo + 1 < high hi
    → r ≡ out ++ digit ((low lo + high hi) / 2) ∷ []
    → IsInside lo hi out r
middle-IsInside lo hi out r v w lt q =
    let d = (low lo + high hi) / 2 in
    let fits : d < 62 = omega (arith, low-lt lo, high-le hi) in
    record {
      rest = digit d ∷ [];
      split = q;
      fresh = record {
        digits = (digit-IsDigit d fits, tt);
        ends = digit-ne-zero d fits (omega arith);
      };
      above = above-head lo d [] v fits (omega arith);
      below = λ n _. below-head hi d [] w n fits (omega arith);
      grown = omega arith;
      short = λ n _ le.
          omega (arith, length-EndsHigh hi n, ap length q, length-append out (digit d ∷ []));
    }

apart-IsInside :
    (lo hi out r tail : List ℕ)
    → All IsDigit lo
    → All IsDigit hi
    → high hi ≤ low lo + 1
    → low lo ≢ high hi
    → after (rest_of lo) ≡ ok tail
    → length out + 1 + length tail ≤ 64
    → r ≡ out ++ digit (low lo) ∷ tail
    → IsInside lo hi out r
apart-IsInside lo hi out r tail v w le ne e fits q =
    let (next, beyond) = after-IsAfter (rest_of lo) tail (All-rest_of lo v) e in
    record {
      rest = digit (low lo) ∷ tail;
      split = q;
      fresh = record {
        digits = (digit-IsDigit (low lo) (low-lt lo), next.fresh.digits);
        ends = EndsHigh-cons _ tail next.fresh.ends;
      };
      above = above-same lo tail v beyond;
      below = λ n lt.
          below-head hi (low lo) tail w n (low-lt lo) (omega (arith, low-le-high lo hi v w lt));
      grown = omega (arith, next.grown, length-rest_of lo, length-rest_of hi, some_left lo hi le);
      short = λ _ _ _. omega (arith, ap length q, length-append out (digit (low lo) ∷ tail));
    }

same-rest :
    (lo hi : List ℕ)
    → All IsDigit lo
    → All IsDigit hi
    → low lo ≡ high hi
    → EndsHigh hi
    → str_lt lo hi ≡ true
    → EndsHigh (rest_of hi) × (str_lt (rest_of lo) (rest_of hi) ≡ true)
unfolding str_lt
same-rest lo [] v w q n h = absurd n
same-rest [] (c ∷ []) v w q n h = absurd (omega (arith, value-zero c w.0 n))
same-rest [] (c ∷ d ∷ cs) v w q n h = (n, refl)
same-rest (l ∷ []) (c ∷ []) v w q n h = absurd (ground (arith, lt-value l c v.0 w.0))
same-rest (l ∷ k ∷ lo) (c ∷ []) v w q n h = absurd (ground (arith, lt-value l c v.0 w.0))
same-rest (l ∷ lo) (c ∷ d ∷ cs) v w q n h = (n, ground (arith, lt-value l c v.0 w.0))

below-same :
    (lo hi ys : List ℕ)
    → All IsDigit hi
    → low lo ≡ high hi
    → str_lt ys (rest_of hi) ≡ true
    → str_lt (digit (low lo) ∷ ys) hi ≡ true
unfolding str_lt
below-same lo [] ys w q h = absurd (omega (arith, low-lt lo))
below-same lo (c ∷ cs) ys w q h = rw q (ground (arith, digit-value c w.0))

same-IsInside :
    (lo hi out r : List ℕ)
    → All IsDigit lo
    → All IsDigit hi
    → low lo ≡ high hi
    → IsInside (rest_of lo) (rest_of hi) (out ++ digit (low lo) ∷ []) r
    → IsInside lo hi out r
same-IsInside lo hi out r v w q i = record {
  rest = digit (low lo) ∷ i.rest;
  split = i.split ∙ append_assoc out (digit (low lo) ∷ []) i.rest;
  fresh = record {
    digits = (digit-IsDigit (low lo) (low-lt lo), i.fresh.digits);
    ends = EndsHigh-cons _ i.rest i.fresh.ends;
  };
  above = above-same lo i.rest v i.above;
  below = λ n lt.
      let (n', lt') = same-rest lo hi v w q n lt in below-same lo hi i.rest w q (i.below n' lt');
  grown =
      omega (arith, i.grown, length-rest_of lo, length-rest_of hi, some_left lo hi (omega arith));
  short = λ n lt le.
      let (n', lt') = same-rest lo hi v w q n lt in
      i.short n' lt' (
        omega (
          arith,
          length-append out (digit (low lo) ∷ []),
          length-rest_of hi,
          length-EndsHigh hi n,
        ));
}

Round-IsInside :
    (lo hi out r : List ℕ)
    → All IsDigit lo
    → All IsDigit hi
    → (between_loop (rest_of lo) (rest_of hi) (out ++ digit (low lo) ∷ []) ≡ ok r
        → IsInside (rest_of lo) (rest_of hi) (out ++ digit (low lo) ∷ []) r)
    → Round lo hi out r
    → IsInside lo hi out r
Round-IsInside lo hi out r v w ih (same q _ e) = same-IsInside lo hi out r v w q (ih e)
Round-IsInside lo hi out r v w ih (middle lt q) = middle-IsInside lo hi out r v w lt q
Round-IsInside lo hi out r v w ih (apart tail le ne e fits q) =
    apart-IsInside lo hi out r tail v w le ne e fits q

pub between_loop-IsInside :
    (lo hi out r : List ℕ)
    → All IsDigit lo
    → All IsDigit hi
    → between_loop lo hi out ≡ ok r
    → IsInside lo hi out r
between_loop-IsInside [] [] out r v w e = elim (between_loop-Round [] [] out r v w e) [
  | same q _ _ ↦ absurd (omega arith)
  | middle lt q ↦ middle-IsInside [] [] out r v w lt q
  | apart tail le ne a fits q ↦ apart-IsInside [] [] out r tail v w le ne a fits q
]
between_loop-IsInside [] (h ∷ hi) out r v w e =
    Round-IsInside [] (h ∷ hi) out r v w
      (between_loop-IsInside [] hi (out ++ digit 0 ∷ []) r tt w.1)
      (between_loop-Round [] (h ∷ hi) out r v w e)
between_loop-IsInside (l ∷ lo) [] out r v w e =
    Round-IsInside (l ∷ lo) [] out r v w
      (between_loop-IsInside lo [] (out ++ digit (value l) ∷ []) r v.1 tt)
      (between_loop-Round (l ∷ lo) [] out r v w e)
between_loop-IsInside (l ∷ lo) (h ∷ hi) out r v w e =
    Round-IsInside (l ∷ lo) (h ∷ hi) out r v w
      (between_loop-IsInside lo hi (out ++ digit (value l) ∷ []) r v.1 w.1)
      (between_loop-Round (l ∷ lo) (h ∷ hi) out r v w e)
