-- ===== src/Board/Place.antt =====
-- An issue lands right behind the one that it is dropped after, and its rank is its own.
use super_ops.Base.{
  ◌≡◌, refl, sym, ◌∙◌, ap, subst, Bool, true, false, ◌&&◌, List, [], ◌∷◌, arith, Bool-cases, inl,
  inr, All,
}
use super_ops.Base.Bytes.{str_eq, str_lt, str_lt_trans, str_lt_irrefl}
use super_ops.Base.Fallible.{Result, ok, err, ◌>>=◌, Yields, Yields-ok}
use super_ops.Rank.{Error, rank_between, is_empty}
use super_ops.Rank.Digits.{EndsHigh}
use super_ops.Rank.Correct.{rank_between-IsBetween}
use super_ops.Board.{
  Bytes, IssueRow, BoardError, is_other, lesser, next_rank_after, rank_of, tightened, drop_bounds,
  lift, drop_rank, create_rank,
}

-- The order on ranks is total.
pub str_lt_total : (x y : Bytes) → str_lt x y ≡ false → str_lt y x ≡ false → x ≡ y
unfolding str_lt
str_lt_total [] [] h k = refl
str_lt_total [] (y ∷ ys) h k = absurd (cc h)
str_lt_total (x ∷ xs) [] h k = absurd (cc k)
str_lt_total (x ∷ xs) (y ∷ ys) h k = ground (arith, str_lt_total xs ys)

-- Below a bound is below what the bound is not above.
str_lt_le : (r h x : Bytes) → str_lt r h ≡ true → str_lt x h ≡ false → str_lt r x ≡ true
str_lt_le r h x p q = elim (Bool-cases (str_lt h x)) [
  | inl e ↦ str_lt_trans r h x p e
  | inr e ↦ subst (λ l. str_lt r l ≡ true) (str_lt_total h x e q) p
]

below_not_above : (x y : Bytes) → str_lt x y ≡ true → str_lt y x ≡ false
below_not_above x y h = elim (Bool-cases (str_lt y x)) [
  | inr e ↦ e
  | inl e ↦ absurd (cc (str_lt_trans x y x h e, str_lt_irrefl x))
]

pub not_above_trans : (x y z : Bytes) → str_lt x y ≡ false → str_lt y z ≡ false → str_lt x z ≡ false
not_above_trans x y z h k = elim (Bool-cases (str_lt x z)) [
  | inr e ↦ e
  | inl e ↦ absurd (cc (str_lt_le x z y e k, h))
]

above_some : (x y : Bytes) → str_lt x y ≡ true → is_empty y ≡ false
unfolding str_lt
above_some [] [] h = absurd (cc h)
above_some (a ∷ x) [] h = absurd (cc h)
above_some x (b ∷ y) h = refl

-- What is not above one of two ranks is not above the lesser.
lesser-bound :
    (a b : Bytes)
    → is_empty a ≡ false
    → (is_empty (lesser a b) ≡ false)
      × (str_lt a (lesser a b) ≡ false)
      × (is_empty b ≡ false → str_lt b (lesser a b) ≡ false)
lesser-bound a [] n = (n, str_lt_irrefl a, λ m. absurd (cc m))
lesser-bound a (b ∷ bs) n = elim (Bool-cases (str_lt (b ∷ bs) a)) [
  | inl e ↦ rw e (refl, below_not_above (b ∷ bs) a e, λ m. str_lt_irrefl (b ∷ bs))
  | inr e ↦ rw e (n, str_lt_irrefl a, λ m. e)
]

pub second : (a b : Bool) → (a && b) ≡ true → b ≡ true
second true b h = h
second false b h = absurd (cc h)

-- An issue that the search for the next rank looks at.
abbrev is_next : Bytes → Bytes → Bytes → IssueRow → Bool
is_next project lo moving x = is_other project moving x && str_lt lo x.rank

abbrev Bounds : Bytes → Bytes → Bytes → Bytes → IssueRow → Type 0
Bounds project lo moving next x =
    is_next project lo moving x ≡ true → (is_empty next ≡ false) × (str_lt x.rank next ≡ false)

pub All-map {ℓ κ μ} :
    {A : Type ℓ} (P : A → Type κ) (Q : A → Type μ) (xs : List A)
    → ((x : A) → P x → Q x)
    → All P xs
    → All Q xs
All-map P Q [] f h = tt
All-map P Q (x ∷ xs) f (first, rest) = (f x first, All-map P Q xs f rest)

next-taken :
    (project lo moving : Bytes) (i : IssueRow) (rows : List IssueRow)
    → is_next project lo moving i ≡ true
    → next_rank_after project lo moving (i ∷ rows)
      ≡ lesser i.rank (next_rank_after project lo moving rows)
unfolding next_rank_after
next-taken project lo moving i rows e = rw e refl

next-passed :
    (project lo moving : Bytes) (i : IssueRow) (rows : List IssueRow)
    → is_next project lo moving i ≡ false
    → next_rank_after project lo moving (i ∷ rows) ≡ next_rank_after project lo moving rows
unfolding next_rank_after
next-passed project lo moving i rows e = rw e refl

next_rank_after-Bounds :
    (project lo moving : Bytes) (rows : List IssueRow)
    → All (Bounds project lo moving (next_rank_after project lo moving rows)) rows
next_rank_after-Bounds project lo moving [] = tt
next_rank_after-Bounds project lo moving (i ∷ rows) =
    let rest = next_rank_after project lo moving rows in
    let later = next_rank_after-Bounds project lo moving rows in
    elim (Bool-cases (is_next project lo moving i)) [
      | inr e ↦
          subst (λ n. All (Bounds project lo moving n) (i ∷ rows))
            (sym (next-passed project lo moving i rows e)) ((λ h. absurd (cc (h, e))), later)
      | inl e ↦
          let above = second (is_other project moving i) (str_lt lo i.rank) e in
          let (some_rank, own, over) = lesser-bound i.rank rest (above_some lo i.rank above) in
          subst (λ n. All (Bounds project lo moving n) (i ∷ rows))
            (sym (next-taken project lo moving i rows e))
            (
              (λ h. (some_rank, own)),
              All-map (Bounds project lo moving rest)
                  (Bounds project lo moving (lesser i.rank rest)) rows
                  (λ x bound h.
                    let (there, least) = bound h in
                    (
                      some_rank,
                      not_above_trans x.rank rest (lesser i.rank rest) least (over there),
                    ))
                  later,
            )
    ]

-- The next rank is one of the ranks, or none.
lesser_either :
    (P : Bytes → Type 0) (a b : Bytes) → P a → (is_empty b ≡ false → P b) → P (lesser a b)
lesser_either P a [] h k = h
lesser_either P a (b ∷ bs) h k = elim (Bool-cases (str_lt (b ∷ bs) a)) [
  | inl e ↦ rw e (k refl)
  | inr e ↦ rw e h
]

next_rank_after-either :
    (P : Bytes → Type 0) (project lo moving : Bytes) (rows : List IssueRow)
    → All (λ x. P x.rank) rows
    → is_empty (next_rank_after project lo moving rows) ≡ false
    → P (next_rank_after project lo moving rows)
unfolding next_rank_after
next_rank_after-either P project lo moving [] all h = absurd (cc h)
next_rank_after-either P project lo moving (i ∷ rows) (first, all) h =
    let rest = next_rank_after project lo moving rows in
    let later = next_rank_after-either P project lo moving rows all in
    elim (Bool-cases (is_next project lo moving i)) [
      | inl e ↦
          subst P (sym (next-taken project lo moving i rows e))
            (lesser_either P i.rank rest first later)
      | inr e ↦
          let same = next-passed project lo moving i rows e in
          subst P (sym same) (later (ap is_empty (sym same) ∙ h))
    ]

-- What a rank between an anchor's and the next one is good for.
abbrev IsRightAfter : Bytes → Bytes → Bytes → List IssueRow → Bytes → Type 0
IsRightAfter project moving lo rows r =
    (str_lt lo r ≡ true)
    × All (λ x. is_other project moving x ≡ true → str_lt lo x.rank ≡ true → str_lt r x.rank ≡ true)
        rows

between-IsRightAfter :
    (project moving lo r : Bytes) (rows : List IssueRow)
    → All (λ x. EndsHigh x.rank) rows
    → rank_between lo (next_rank_after project lo moving rows) ≡ ok r
    → IsRightAfter project moving lo rows r
between-IsRightAfter project moving lo r rows ends h =
    let next = next_rank_after project lo moving rows in
    let between =
      rank_between-IsBetween lo next r (next_rank_after-either EndsHigh project lo moving rows ends)
        h in
    (
      between.above,
      All-map (Bounds project lo moving next)
          (λ x. is_other project moving x ≡ true → str_lt lo x.rank ≡ true → str_lt r x.rank ≡ true)
          rows
          (λ x bound other above.
            let (there, least) = bound (rw other above) in
            str_lt_le r next x.rank (between.below there) least)
          (next_rank_after-Bounds project lo moving rows),
    )

module _ (is_uuid : Bytes → Bool) where
  abbrev Lands : Bytes → Bytes → Bytes → List IssueRow → Bytes → Type 0
  Lands project moving after rows r =
      (lo : Bytes) × (rank_of is_uuid project after rows ≡ ok lo)
      × IsRightAfter project moving lo rows r

  lift-Lands :
      (project moving after lo : Bytes) (rows : List IssueRow) (made : Result Error Bytes)
      → All (λ x. EndsHigh x.rank) rows
      → rank_of is_uuid project after rows ≡ ok lo
      → rank_between lo (next_rank_after project lo moving rows) ≡ made
      → Yields (Lands project moving after rows) (lift made)
  lift-Lands project moving after lo rows (err e) ends anchor h = tt
  lift-Lands project moving after lo rows (ok r) ends anchor h =
      (lo, anchor, between-IsRightAfter project moving lo r rows ends h)

  bounded-Lands :
      (project moving after : Bytes) (rows : List IssueRow) (x y : Result BoardError Bytes)
      → str_eq after [] ≡ false
      → All (λ x. EndsHigh x.rank) rows
      → rank_of is_uuid project after rows ≡ x
      → Yields (Lands project moving after rows) (
          (x >>= λ lo. y >>= λ hi. ok (tightened project moving after lo hi rows)) >>= λ bounds.
          lift (rank_between bounds.0 bounds.1))
  bounded-Lands project moving after rows (err e) y anchored ends h = tt
  bounded-Lands project moving after rows (ok lo) (err e) anchored ends h = tt
  bounded-Lands project moving after rows (ok lo) (ok hi) anchored ends h =
      rw (anchored, Yields) (lift-Lands project moving after lo rows _ ends h refl)

  -- An issue that is dropped after another gets a rank above that one's, and below every other live one of
  -- the project that is above it, where no rank ends in the lowest digit.
  pub drop_rank-after :
      (project moving after before r : Bytes) (rows : List IssueRow)
      → str_eq after [] ≡ false
      → All (λ x. EndsHigh x.rank) rows
      → drop_rank is_uuid project moving after before rows ≡ ok r
      → (lo : Bytes) × (rank_of is_uuid project after rows ≡ ok lo)
        × (str_lt lo r ≡ true)
        × All
            (λ x.
              is_other project moving x ≡ true → str_lt lo x.rank ≡ true → str_lt r x.rank ≡ true)
            rows
  unfolding drop_rank drop_bounds
  drop_rank-after project moving after before r rows anchored ends h =
      let (lo, anchor, (above, rest)) =
        Yields-ok (Lands project moving after rows)
          (drop_rank is_uuid project moving after before rows) r
          (bounded-Lands project moving after rows (rank_of is_uuid project after rows)
            (rank_of is_uuid project before rows) anchored ends refl)
          h in
      (lo, anchor, above, rest)

  lift-first :
      (project : Bytes) (rows : List IssueRow) (made : Result Error Bytes)
      → All (λ x. EndsHigh x.rank) rows
      → rank_between [] (next_rank_after project [] [] rows) ≡ made
      → Yields (IsRightAfter project [] [] rows) (lift made)
  lift-first project rows (err e) ends h = tt
  lift-first project rows (ok r) ends h = between-IsRightAfter project [] [] r rows ends h

  -- A new issue gets a rank below that of every live issue of the project, where no rank ends in the lowest
  -- digit.
  pub create_rank-first :
      (project r : Bytes) (rows : List IssueRow)
      → All (λ x. EndsHigh x.rank) rows
      → create_rank project rows ≡ ok r
      → All
          (λ x. is_other project [] x ≡ true → str_lt [] x.rank ≡ true → str_lt r x.rank ≡ true)
          rows
  unfolding create_rank
  create_rank-first project r rows ends h =
      (Yields-ok (IsRightAfter project [] [] rows) (create_rank project rows) r
        (lift-first project rows (rank_between [] (next_rank_after project [] [] rows)) ends refl)
        h).1
