-- ===== src/Rank/Ends.antt =====
-- `after` and `before`, the two open ends: the new rank lies on its side of the bound.
use super_ops.Base.{
  ℕ, suc, ◌+◌, ◌≤◌, ◌<◌, ◌/◌, ◌≡◌, refl, ◌≢◌, ◌⊎◌, inl, inr, true, List, [], ◌∷◌, ◌++◌, arith, ltb,
  Bool-cases, if◌then◌else◌, All, All-append, length, length-append, subst, ap, sym, ◌∙◌,
}
use super_ops.Base.Bytes.{str_lt}
use super_ops.Base.Fallible.{ok_inj, ok, err}
use super_ops.Rank.{exhausted, digit, index, max_rank_length, initial, front, final, after, before}
use super_ops.Rank.Digits.{
  IsDigit, value, EndsHigh, index-digit, digit-IsDigit, digit-ne-zero, index_of_IsDigit, value-lt,
  value-zero, lt-value, EndsHigh-append,
}

pub front-final : (c : ℕ) (cs : List ℕ) → front c cs ++ final c cs ∷ [] ≡ c ∷ cs
front-final c [] = refl
front-final c (d ∷ cs) = ap (◌∷◌ c) (front-final d cs)

length-front : (c : ℕ) (cs : List ℕ) → length (front c cs) ≡ length cs
length-front c [] = refl
length-front c (d ∷ cs) = ap suc (length-front d cs)

All-front : (c : ℕ) (cs : List ℕ) → All IsDigit (c ∷ cs) → All IsDigit (front c cs)
All-front c [] v = tt
All-front c (d ∷ cs) v = (v.0, All-front d cs v.1)

final-IsDigit : (c : ℕ) (cs : List ℕ) → All IsDigit (c ∷ cs) → IsDigit (final c cs)
final-IsDigit c [] v = v.0
final-IsDigit c (d ∷ cs) v = final-IsDigit d cs v.1

pub final-EndsHigh : (c : ℕ) (cs : List ℕ) → EndsHigh (c ∷ cs) → final c cs ≢ b'0'
final-EndsHigh c [] e = e
final-EndsHigh c (d ∷ cs) e = final-EndsHigh d cs e

-- What a new rank is: digits only, and a last digit above '0'.
pub record IsFresh (r : List ℕ) : Type 0 where
  pub digits : All IsDigit r
  pub ends : EndsHigh r

initial-IsFresh : IsFresh initial
unfolding index
initial-IsFresh = record { digits = (refl, tt); ends = omega arith }

-- The last digit is replaced by `d`.
replaced-IsFresh :
    (c : ℕ) (cs : List ℕ) (d : ℕ)
    → d < 62
    → 0 < d
    → All IsDigit (c ∷ cs)
    → IsFresh (front c cs ++ digit d ∷ [])
replaced-IsFresh c cs d h k v = record {
  digits = All-append IsDigit _ _ (All-front c cs v) (digit-IsDigit d h, tt);
  ends = EndsHigh-append (front c cs) _ [] (digit-ne-zero d h k);
}

-- Two strings that differ from the last byte of the first on.
last-lt :
    (c : ℕ) (cs : List ℕ) (y : ℕ) (ys : List ℕ)
    → ltb (final c cs) y ≡ true
    → str_lt (c ∷ cs) (front c cs ++ y ∷ ys) ≡ true
unfolding str_lt
last-lt c [] y ys h = ground arith
last-lt c (d ∷ cs) y ys h = ground (arith, last-lt d cs y ys h)

last-gt :
    (c : ℕ) (cs : List ℕ) (y : ℕ) (ys : List ℕ)
    → ltb y (final c cs) ≡ true
    → str_lt (front c cs ++ y ∷ ys) (c ∷ cs) ≡ true
unfolding str_lt
last-gt c [] y ys h = ground arith
last-gt c (d ∷ cs) y ys h = ground (arith, last-gt d cs y ys h)

prefix-lt : (p : List ℕ) (y : ℕ) (ys : List ℕ) → str_lt p (p ++ y ∷ ys) ≡ true
unfolding str_lt
prefix-lt [] y ys = refl
prefix-lt (x ∷ p) y ys = ground (arith, prefix-lt p y ys)

-- A rank `r` that was made from the one bound `b`.
pub record IsNext (b r : List ℕ) : Type 0 where
  pub fresh : IsFresh r
  pub grown : length r ≤ length b + 1
  pub short : length b ≤ max_rank_length → length r ≤ max_rank_length

digit-above : (c d : ℕ) → IsDigit c → d < 62 → value c < d → ltb c (digit d) ≡ true
digit-above c d h k lt = ground (arith, lt-value c (digit d) h (digit-IsDigit d k), index-digit d k)

digit-below : (c d : ℕ) → IsDigit c → d < 62 → d < value c → ltb (digit d) c ≡ true
digit-below c d h k lt = ground (arith, lt-value (digit d) c (digit-IsDigit d k) h, index-digit d k)

after_cases :
    (c : ℕ) (cs : List ℕ)
    → All IsDigit (c ∷ cs)
    → ((value (final c cs) < 60)
        × (after (c ∷ cs) ≡ ok (front c cs ++ digit ((value (final c cs) + 62) / 2) ∷ [])))
      ⊎ (after (c ∷ cs)
          ≡ (if ltb 64 (suc (length cs) + 1) then err exhausted else ok (c ∷ cs ++ initial)))
unfolding after
after_cases c cs v = ground (arith, index_of_IsDigit (final c cs) (final-IsDigit c cs v))

replaced-IsNext :
    (c : ℕ) (cs : List ℕ) (d : ℕ)
    → d < 62
    → 0 < d
    → All IsDigit (c ∷ cs)
    → IsNext (c ∷ cs) (front c cs ++ digit d ∷ [])
replaced-IsNext c cs d h k v = record {
  fresh = replaced-IsFresh c cs d h k v;
  grown = omega (arith, length-append (front c cs) (digit d ∷ []), length-front c cs);
  short = λ le. omega (arith, length-append (front c cs) (digit d ∷ []), length-front c cs);
}

appended-IsFresh : (p : List ℕ) → All IsDigit p → IsFresh (p ++ initial)
appended-IsFresh p v = record {
  digits = All-append IsDigit p _ v initial-IsFresh.digits;
  ends = EndsHigh-append p _ [] initial-IsFresh.ends;
}

-- Above `lo`, and made from it.
abbrev pub IsAfter : List ℕ → List ℕ → Type 0
IsAfter lo r = IsNext lo r × (str_lt lo r ≡ true)

-- Below `hi`, and made from it.
abbrev pub IsBefore : List ℕ → List ℕ → Type 0
IsBefore hi r = IsNext hi r × (str_lt r hi ≡ true)

appended-IsAfter :
    (c : ℕ) (cs r : List ℕ)
    → All IsDigit (c ∷ cs)
    → (if ltb 64 (suc (length cs) + 1) then err exhausted else ok (c ∷ cs ++ initial)) ≡ ok r
    → IsAfter (c ∷ cs) r
appended-IsAfter c cs r v e = elim (Bool-cases (ltb 64 (suc (length cs) + 1))) [
  | inl long ↦ absurd (cc long)
  | inr fits ↦ subst (IsAfter (c ∷ cs)) (ok_inj _ _ (rw fits at e)) (
    record {
      fresh = appended-IsFresh (c ∷ cs) v;
      grown = omega (arith, length-append (c ∷ cs) initial);
      short = λ _. ground (arith, length-append (c ∷ cs) initial);
    },
    prefix-lt (c ∷ cs) _ [],
  )
]

pub after-IsAfter : (lo r : List ℕ) → All IsDigit lo → after lo ≡ ok r → IsAfter lo r
unfolding after str_lt
after-IsAfter [] r v e =
    subst (IsAfter []) (ok_inj _ _ e)
      (record { fresh = initial-IsFresh; grown = omega arith; short = λ _. omega arith }, refl)
after-IsAfter (c ∷ cs) r v e = elim (after_cases c cs v) [
  | inl (h, q) ↦
      let f = value (final c cs) in
      subst (IsAfter (c ∷ cs)) (ok_inj _ _ (sym q ∙ e)) (
        replaced-IsNext c cs ((f + 62) / 2) (omega arith) (omega arith) v,
        last-lt c cs _ []
            (digit-above (final c cs) _ (final-IsDigit c cs v) (omega arith) (omega arith)),
      )
  | inr q ↦ appended-IsAfter c cs r v (sym q ∙ e)
]

-- Below the length limit there is always a next rank.
pub after_total :
    (lo : List ℕ) → All IsDigit lo → length lo < max_rank_length → (r : List ℕ) × (after lo ≡ ok r)
unfolding after
after_total [] v h = (initial, refl)
after_total (c ∷ cs) v h = elim (after_cases c cs v) [
  | inl (_, q) ↦ (_, q)
  | inr q ↦ (c ∷ cs ++ initial, q ∙ ground arith)
]

before_cases :
    (c : ℕ) (cs : List ℕ)
    → All IsDigit (c ∷ cs)
    → ((1 < value (final c cs))
        × (before (c ∷ cs) ≡ ok (front c cs ++ digit (value (final c cs) / 2) ∷ [])))
      ⊎ (before (c ∷ cs) ≡ (
          if ltb 64 (suc (length cs) + 1)
          then err exhausted
          else ok (front c cs ++ digit 0 ∷ initial)))
unfolding before
before_cases c cs v = ground (arith, index_of_IsDigit (final c cs) (final-IsDigit c cs v))

deeper-IsBefore :
    (c : ℕ) (cs r : List ℕ)
    → All IsDigit (c ∷ cs)
    → EndsHigh (c ∷ cs)
    → (if ltb 64 (suc (length cs) + 1) then err exhausted else ok (front c cs ++ digit 0 ∷ initial))
      ≡ ok r
    → IsBefore (c ∷ cs) r
deeper-IsBefore c cs r v n e = elim (Bool-cases (ltb 64 (suc (length cs) + 1))) [
  | inl long ↦ absurd (cc long)
  | inr fits ↦ subst (IsBefore (c ∷ cs)) (ok_inj _ _ (rw fits at e)) (
    record {
      fresh = record {
        digits =
            All-append IsDigit (front c cs) _ (All-front c cs v)
              (digit-IsDigit 0 (omega arith), initial-IsFresh.digits);
        ends = EndsHigh-append (front c cs) _ initial initial-IsFresh.ends;
      };
      grown = omega (arith, length-append (front c cs) (digit 0 ∷ initial), length-front c cs);
      short =
          λ _. ground (arith, length-append (front c cs) (digit 0 ∷ initial), length-front c cs);
    },
    last-gt c cs _ initial (
        digit-below (final c cs) 0 (final-IsDigit c cs v) (omega arith)
          (value-zero _ (final-IsDigit c cs v) (final-EndsHigh c cs n))),
  )
]

pub before-IsBefore :
    (hi r : List ℕ) → All IsDigit hi → EndsHigh hi → before hi ≡ ok r → IsBefore hi r
before-IsBefore [] r v n e = absurd n
before-IsBefore (c ∷ cs) r v n e = elim (before_cases c cs v) [
  | inl (h, q) ↦
      let f = value (final c cs) in
      subst (IsBefore (c ∷ cs)) (ok_inj _ _ (sym q ∙ e)) (
        replaced-IsNext c cs (f / 2) (omega (arith, value-lt (final c cs))) (omega arith) v,
        last-gt c cs _ [] (
            digit-below (final c cs) _ (final-IsDigit c cs v) (omega (arith, value-lt (final c cs)))
              (omega arith)),
      )
  | inr q ↦ deeper-IsBefore c cs r v n (sym q ∙ e)
]

pub before_total :
    (hi : List ℕ) → All IsDigit hi → length hi < max_rank_length → (r : List ℕ) × (before hi ≡ ok r)
unfolding before
before_total [] v h = (initial, refl)
before_total (c ∷ cs) v h = elim (before_cases c cs v) [
  | inl (_, q) ↦ (_, q)
  | inr q ↦ (front c cs ++ digit 0 ∷ initial, q ∙ ground arith)
]
