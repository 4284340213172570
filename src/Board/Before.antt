-- ===== src/Board/Before.antt =====
-- An issue lands right in front of the one that it is dropped before.
use super_ops.Base.{
  ◌≡◌, refl, sym, subst, Bool, true, false, ◌&&◌, List, [], ◌∷◌, Option, none, some, some_inj,
  Bool-cases, inl, inr, All,
}
use super_ops.Base.Bytes.{str_eq, str_lt, str_lt_trans, str_lt_irrefl}
use super_ops.Base.Fallible.{Result, ok, err, ok_inj, ◌>>=◌, Yields, Yields-ok}
use super_ops.Rank.{Error, rank_between, is_empty}
use super_ops.Rank.Digits.{EndsHigh}
use super_ops.Rank.Correct.{rank_between-IsBetween}
use super_ops.Board.{
  Bytes, IssueRow, BoardError, is_other, greater, prev_rank_before, rank_of, owned_rank, find_issue,
  tightened, drop_bounds, lift, drop_rank,
}
use super_ops.Board.Place.{str_lt_total, not_above_trans, All-map}

-- Above a bound is above what the bound is not below.
str_le_lt : (l r x : Bytes) → str_lt l r ≡ true → str_lt l x ≡ false → str_lt x r ≡ true
str_le_lt l r x p q = elim (Bool-cases (str_lt x l)) [
  | inl e ↦ str_lt_trans x l r e p
  | inr e ↦ subst (λ y. str_lt y r ≡ true) (sym (str_lt_total x l e q)) p
]

not_below : (x y : Bytes) → str_lt x y ≡ true → str_lt y x ≡ false
not_below x y h = elim (Bool-cases (str_lt y x)) [
  | inr e ↦ e
  | inl e ↦ absurd (cc (str_lt_trans x y x h e, str_lt_irrefl x))
]

greater-bound : (a b : Bytes) → (str_lt (greater a b) a ≡ false) × (str_lt (greater a b) b ≡ false)
greater-bound a b = elim (Bool-cases (str_lt a b)) [
  | inl e ↦ rw e (not_below a b e, str_lt_irrefl b)
  | inr e ↦ rw e (str_lt_irrefl a, e)
]

-- An issue that the search for the previous rank looks at, and what it finds for it.
abbrev is_previous : Bytes → Bytes → Bytes → IssueRow → Bool
is_previous project hi moving x = is_other project moving x && str_lt x.rank hi

abbrev IsOver : Bytes → Bytes → Bytes → Bytes → IssueRow → Type 0
IsOver project hi moving prev x =
    is_previous project hi moving x ≡ true → str_lt prev x.rank ≡ false

previous-taken :
    (project hi moving : Bytes) (i : IssueRow) (rows : List IssueRow)
    → is_previous project hi moving i ≡ true
    → prev_rank_before project hi moving (i ∷ rows)
      ≡ greater i.rank (prev_rank_before project hi moving rows)
unfolding prev_rank_before
previous-taken project hi moving i rows e = rw e refl

previous-passed :
    (project hi moving : Bytes) (i : IssueRow) (rows : List IssueRow)
    → is_previous project hi moving i ≡ false
    → prev_rank_before project hi moving (i ∷ rows) ≡ prev_rank_before project hi moving rows
unfolding prev_rank_before
previous-passed project hi moving i rows e = rw e refl

prev_rank_before-IsOver :
    (project hi moving : Bytes) (rows : List IssueRow)
    → All (IsOver project hi moving (prev_rank_before project hi moving rows)) rows
prev_rank_before-IsOver project hi moving [] = tt
prev_rank_before-IsOver project hi moving (i ∷ rows) =
    let rest = prev_rank_before project hi moving rows in
    let earlier = prev_rank_before-IsOver project hi moving rows in
    elim (Bool-cases (is_previous project hi moving i)) [
      | inr e ↦
          subst (λ n. All (IsOver project hi moving n) (i ∷ rows))
            (sym (previous-passed project hi moving i rows e)) ((λ h. absurd (cc (h, e))), earlier)
      | inl e ↦
          let (own, over) = greater-bound i.rank rest in
          subst (λ n. All (IsOver project hi moving n) (i ∷ rows))
            (sym (previous-taken project hi moving i rows e))
            (
              (λ h. own),
              All-map (IsOver project hi moving rest)
                  (IsOver project hi moving (greater i.rank rest)) rows
                  (λ x bound h. not_above_trans (greater i.rank rest) rest x.rank over (bound h))
                  earlier,
            )
    ]

EndsHigh-some : (hi : Bytes) → EndsHigh hi → is_empty hi ≡ false
EndsHigh-some [] h = absurd h
EndsHigh-some (c ∷ cs) h = refl

-- What a rank between the previous one and an anchor's is good for.
abbrev IsRightBefore : Bytes → Bytes → Bytes → List IssueRow → Bytes → Type 0
IsRightBefore project moving hi rows r =
    (str_lt r hi ≡ true)
    × All (λ x. is_other project moving x ≡ true → str_lt x.rank hi ≡ true → str_lt x.rank r ≡ true)
        rows

between-IsRightBefore :
    (project moving hi r : Bytes) (rows : List IssueRow)
    → EndsHigh hi
    → rank_between (prev_rank_before project hi moving rows) hi ≡ ok r
    → IsRightBefore project moving hi rows r
between-IsRightBefore project moving hi r rows ends h =
    let prev = prev_rank_before project hi moving rows in
    let between = rank_between-IsBetween prev hi r (λ e. ends) h in
    (
      between.below (EndsHigh-some hi ends),
      All-map (IsOver project hi moving prev)
          (λ x. is_other project moving x ≡ true → str_lt x.rank hi ≡ true → str_lt x.rank r ≡ true)
          rows (λ x over other below. str_le_lt prev r x.rank between.above (over (rw other below)))
          (prev_rank_before-IsOver project hi moving rows),
    )

-- The rank of an anchor is the rank of a row.
find_issue-EndsHigh :
    (id : Bytes) (rows : List IssueRow) (i : IssueRow)
    → All (λ x. EndsHigh x.rank) rows
    → find_issue id rows ≡ some i
    → EndsHigh i.rank
unfolding find_issue
find_issue-EndsHigh id [] i ends h = absurd (cc h)
find_issue-EndsHigh id (x ∷ rows) i (first, ends) h = elim (Bool-cases (str_eq x.id id)) [
  | inl e ↦ subst (λ y. EndsHigh y.rank) (some_inj (rw e at h)) first
  | inr e ↦ find_issue-EndsHigh id rows i ends (rw e at h)
]

owned_rank-EndsHigh :
    (project id hi : Bytes) (rows : List IssueRow) (found : Option IssueRow)
    → All (λ x. EndsHigh x.rank) rows
    → find_issue id rows ≡ found
    → owned_rank project found ≡ ok hi
    → EndsHigh hi
owned_rank-EndsHigh project id hi rows none ends there h = absurd (cc h)
owned_rank-EndsHigh project id hi rows (some i) ends there h =
    elim (Bool-cases (str_eq i.project_id project)) [
      | inl e ↦
          subst EndsHigh (ok_inj i.rank hi (rw e at h)) (find_issue-EndsHigh id rows i ends there)
      | inr e ↦ absurd (cc (rw e at h))
    ]

module _ (is_uuid : Bytes → Bool) where
  rank_of-EndsHigh :
      (project id hi : Bytes) (rows : List IssueRow)
      → str_eq id [] ≡ false
      → All (λ x. EndsHigh x.rank) rows
      → rank_of is_uuid project id rows ≡ ok hi
      → EndsHigh hi
  unfolding rank_of
  rank_of-EndsHigh project id hi rows named ends h = elim (Bool-cases (is_uuid id)) [
    | inl e ↦
        owned_rank-EndsHigh project id hi rows (find_issue id rows) ends refl (rw (named, e) at h)
    | inr e ↦ absurd (cc (rw (named, e) at h))
  ]

  abbrev LandsBefore : Bytes → Bytes → Bytes → List IssueRow → Bytes → Type 0
  LandsBefore project moving before rows r =
      (hi : Bytes) × (rank_of is_uuid project before rows ≡ ok hi)
      × IsRightBefore project moving hi rows r

  lift-LandsBefore :
      (project moving before hi : Bytes) (rows : List IssueRow) (made : Result Error Bytes)
      → EndsHigh hi
      → rank_of is_uuid project before rows ≡ ok hi
      → rank_between (prev_rank_before project hi moving rows) hi ≡ made
      → Yields (LandsBefore project moving before rows) (lift made)
  lift-LandsBefore project moving before hi rows (err e) ends anchor h = tt
  lift-LandsBefore project moving before hi rows (ok r) ends anchor h =
      (hi, anchor, between-IsRightBefore project moving hi r rows ends h)

  bounded-LandsBefore :
      (project moving before : Bytes) (rows : List IssueRow) (y : Result BoardError Bytes)
      → str_eq before [] ≡ false
      → All (λ x. EndsHigh x.rank) rows
      → rank_of is_uuid project before rows ≡ y
      → Yields (LandsBefore project moving before rows) (
          (y >>= λ hi. ok (tightened project moving [] [] hi rows)) >>= λ bounds.
          lift (rank_between bounds.0 bounds.1))
  unfolding str_eq
  bounded-LandsBefore project moving before rows (err e) named ends h = tt
  bounded-LandsBefore project moving before rows (ok hi) named ends h =
      lift-LandsBefore project moving before hi rows
        (rank_between (prev_rank_before project hi moving rows) hi)
        (rank_of-EndsHigh project before hi rows named ends h) h refl

  -- An issue that is dropped before another, with no anchor in front of it, gets a rank below that one's,
  -- and above every other live one of the project that is below it, where no rank ends in the lowest digit.
  pub drop_rank-before :
      (project moving before r : Bytes) (rows : List IssueRow)
      → str_eq before [] ≡ false
      → All (λ x. EndsHigh x.rank) rows
      → drop_rank is_uuid project moving [] before rows ≡ ok r
      → (hi : Bytes) × (rank_of is_uuid project before rows ≡ ok hi)
        × (str_lt r hi ≡ true)
        × All
            (λ x.
              is_other project moving x ≡ true → str_lt x.rank hi ≡ true → str_lt x.rank r ≡ true)
            rows
  unfolding drop_rank drop_bounds rank_of str_eq
  drop_rank-before project moving before r rows named ends h =
      let (hi, anchor, (below, rest)) =
        Yields-ok (LandsBefore project moving before rows)
          (drop_rank is_uuid project moving [] before rows) r
          (bounded-LandsBefore project moving before rows (rank_of is_uuid project before rows)
            named ends refl)
          h in
      (hi, anchor, below, rest)
