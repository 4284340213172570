-- ===== src/Rank/Correct.antt =====
-- `Between` from its callers' side: what a returned rank is, and when one is returned.
use super_ops.Base.{
  ℕ, ◌+◌, ◌≤◌, ◌≡◌, refl, ◌||◌, inl, inr, Bool, true, false, List, [], ◌∷◌, arith, ltb, All, length,
  max, Bool-cases,
}
use super_ops.Base.Bytes.{str_lt}
use super_ops.Base.Int.{pos, ltb_ℤ}
use super_ops.Base.Fallible.{Result, ok, err}
use super_ops.Rank.{
  index, validate, validate_digits, after, between, rank_between, max_rank_length, is_empty,
  dispatch, Error,
}
use super_ops.Rank.Digits.{IsDigit, EndsHigh}
use super_ops.Rank.Ends.{IsFresh, after-IsAfter, before-IsBefore}
use super_ops.Rank.Between.{between_loop-IsInside}

-- What `validate` accepts.
pub record IsRank (r : List ℕ) : Type 0 where
  pub digits : All IsDigit r
  pub short : length r ≤ max_rank_length

validate_digits-IsDigit : (r : List ℕ) → validate_digits r ≡ ok tt → All IsDigit r
unfolding validate_digits
validate_digits-IsDigit [] h = tt
validate_digits-IsDigit (c ∷ cs) h = elim (Bool-cases (ltb_ℤ (index c) (pos 0))) [
  | inl bad ↦ absurd (cc bad)
  | inr good ↦ (good, validate_digits-IsDigit cs (rw good at h))
]

IsDigit-validate_digits : (r : List ℕ) → All IsDigit r → validate_digits r ≡ ok tt
unfolding validate_digits
IsDigit-validate_digits [] v = refl
IsDigit-validate_digits (c ∷ cs) v = rw v.0 (IsDigit-validate_digits cs v.1)

validate-IsRank : (r : List ℕ) → validate r ≡ ok tt → IsRank r
unfolding validate
validate-IsRank r h = elim (Bool-cases (ltb max_rank_length (length r))) [
  | inl long ↦ absurd (cc long)
  | inr fits ↦ record { digits = validate_digits-IsDigit r (rw fits at h); short = ground arith }
]

IsRank-validate : (r : List ℕ) → IsRank r → validate r ≡ ok tt
unfolding validate
IsRank-validate r v = ground (arith, IsDigit-validate_digits r v.digits)

-- The test that the two neighbours stand in order, where both are given.
abbrev pub in_order : List ℕ → List ℕ → Bool
in_order lo hi = is_empty lo || is_empty hi || str_lt lo hi

-- What `rank_between` has checked when it returns a rank.
record Checked (lo hi r : List ℕ) : Type 0 where
  lower : IsRank lo
  upper : IsRank hi
  order : in_order lo hi ≡ true
  made : dispatch lo hi ≡ ok r

rank_between-Checked : (lo hi r : List ℕ) → rank_between lo hi ≡ ok r → Checked lo hi r
unfolding rank_between
rank_between-Checked lo hi r e = go (validate lo) refl (validate hi) refl (in_order lo hi) refl
  where
    go :
        (a : Result Error (Unit {0}))
        → validate lo ≡ a
        → (b : Result Error (Unit {0})) → validate hi ≡ b
        → (t : Bool) → in_order lo hi ≡ t
        → Checked lo hi r
    go (err x) p b q t o = absurd (ground arith)
    go (ok _) p (err x) q t o = absurd (ground arith)
    go (ok _) p (ok _) q false o = absurd (ground arith)
    go (ok _) p (ok _) q true o = record {
      lower = validate-IsRank lo p;
      upper = validate-IsRank hi q;
      order = o;
      made = rw (p, q, o) at e;
    }

-- A rank strictly between two neighbours, an empty one standing for an open end.
pub record IsBetween (lo hi r : List ℕ) : Type 0 where
  pub fresh : IsFresh r
  pub above : str_lt lo r ≡ true
  pub below : is_empty hi ≡ false → str_lt r hi ≡ true
  pub short : length r ≤ max_rank_length
  pub grown : length r ≤ max (length lo) (length hi) + 1

above-empty : (r : List ℕ) → EndsHigh r → str_lt [] r ≡ true
unfolding str_lt
above-empty [] n = absurd n
above-empty (c ∷ cs) n = refl

dispatch-IsBetween :
    (lo hi r : List ℕ)
    → IsRank lo
    → IsRank hi
    → in_order lo hi ≡ true
    → (is_empty hi ≡ false → EndsHigh hi)
    → dispatch lo hi ≡ ok r
    → IsBetween lo hi r
unfolding str_lt between
dispatch-IsBetween [] [] r v w o n e =
    let (i, above) = after-IsAfter [] r tt (unfold after in e) in
    record {
      fresh = i.fresh;
      above = above;
      below = λ f. absurd (cc f);
      short = i.short (omega arith);
      grown = omega (arith, i.grown);
    }
dispatch-IsBetween [] (h ∷ hi) r v w o n e =
    let (i, below) = before-IsBefore (h ∷ hi) r w.digits (n refl) e in
    record {
      fresh = i.fresh;
      above = above-empty r i.fresh.ends;
      below = λ _. below;
      short = i.short w.short;
      grown = omega (arith, i.grown);
    }
dispatch-IsBetween (l ∷ lo) [] r v w o n e =
    let (i, above) = after-IsAfter (l ∷ lo) r v.digits e in
    record {
      fresh = i.fresh;
      above = above;
      below = λ f. absurd (cc f);
      short = i.short v.short;
      grown = omega (arith, i.grown);
    }
dispatch-IsBetween (l ∷ lo) (h ∷ hi) r v w o n e =
    let i = between_loop-IsInside (l ∷ lo) (h ∷ hi) [] r v.digits w.digits e in
    record {
      fresh = rw i.split i.fresh;
      above = rw i.split i.above;
      below = λ _. rw i.split (i.below (n refl) o);
      short = i.short (n refl) o (omega (arith, w.short));
      grown = rw i.split i.grown;
    }

-- Every rank that `Between` returns lies strictly between its neighbours, consists of digits, does
-- not end in '0' and keeps to the length limit, if the upper neighbour does not end in '0'.
pub rank_between-IsBetween :
    (lo hi r : List ℕ)
    → (is_empty hi ≡ false → EndsHigh hi)
    → rank_between lo hi ≡ ok r
    → IsBetween lo hi r
rank_between-IsBetween lo hi r n e =
    let c = rank_between-Checked lo hi r e in
    dispatch-IsBetween lo hi r c.lower c.upper c.order n c.made

-- Past its checks `Between` is the choice by which neighbours are given.
pub rank_between-dispatch :
    (lo hi : List ℕ)
    → IsRank lo
    → IsRank hi
    → in_order lo hi ≡ true
    → rank_between lo hi ≡ dispatch lo hi
unfolding rank_between
rank_between-dispatch lo hi v w o = rw (IsRank-validate lo v, IsRank-validate hi w, o)
