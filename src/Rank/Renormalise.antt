-- ===== src/Rank/Renormalise.antt =====
-- `Renormalise` as a whole: which counts it serves, and the column that it returns.
use native.Mathlib.Nat.{pow-suc, pow-le-pow_right, div-add-mod, le-div_iff_mul-le}
use native.Mathlib.Numerals.{add-one}
use super_ops.Base.{
  ℕ, zero, suc, ◌+◌, ◌*◌, ◌/◌, ◌^◌, ◌≤◌, ◌<◌, ◌≡◌, refl, inl, inr, true, List, [], ◌∷◌, arith, All,
  length, ltb, Bool-cases, ap, le_or_lt, ltb→lt,
}
use super_ops.Base.Bytes.{str_lt}
use super_ops.Base.Fallible.{ok, err}
use super_ops.Rank.{too_many, index, pick_width, spread, renormalise, at_least_one}
use super_ops.Rank.Digits.{IsDigit}
use super_ops.Rank.Spread.{Rising, spread-Rising, digits-encode_onto}

power-step : (w c : ℕ) → c ≡ 62 ^ w → c * 62 ≡ 62 ^ (w + 1)
power-step w c q = rw (add-one, pow-suc 62 w) (ap (λ n. n * 62) q)

pick_width_inv :
    (fuel n w c w' c' : ℕ)
    → c ≡ 62 ^ w
    → pick_width fuel n w c ≡ ok (w', c')
    → (c' ≡ 62 ^ w') × (n * 2 ≤ c')
unfolding pick_width
pick_width_inv zero n w c w' c' q e = absurd (cc e)
pick_width_inv (suc f) n w c w' c' q e = elim (Bool-cases (ltb c (n * 2))) [
  | inl more ↦ elim (Bool-cases (ltb 8 (w + 1))) [
    | inl past ↦ absurd (ground arith)
    | inr room ↦ pick_width_inv f n (w + 1) (c * 62) w' c' (power-step w c q) (rw (more, room) at e)
  ]
  | inr enough ↦ ground arith
]

stays_below : (n w c : ℕ) → c ≡ 62 ^ w → n * 2 ≤ 62 ^ 8 → ltb c (n * 2) ≡ true → w < 8
stays_below n w c q h more = elim (le_or_lt 8 w) [
  | inl ge ↦ absurd (
      omega
        (arith, ltb→lt c (n * 2) more, pow-le-pow_right {n = 62} (omega arith) {i = 8} {j = w} ge))
  | inr lt ↦ lt
]

pick_width_total :
    (fuel n w c : ℕ)
    → 9 ≤ w + fuel
    → w ≤ 8
    → c ≡ 62 ^ w
    → n * 2 ≤ 62 ^ 8
    → (w' c' : ℕ) × (pick_width fuel n w c ≡ ok (w', c'))
unfolding pick_width
pick_width_total zero n w c f le q h = absurd (omega arith)
pick_width_total (suc f) n w c s le q h = elim (Bool-cases (ltb c (n * 2))) [
  | inl more ↦
      let below : w < 8 = stays_below n w c q h more in
      let (w', c', e) =
        pick_width_total f n (w + 1) (c * 62) (omega arith) (omega arith) (power-step w c q) h in
      (w', c', ground arith)
  | inr enough ↦ (w, c, rw enough)
]

pick_width_fails :
    (fuel n w c : ℕ) → w ≤ 8 → c ≡ 62 ^ w → 62 ^ 8 < n * 2 → pick_width fuel n w c ≡ err too_many
unfolding pick_width
pick_width_fails zero n w c le q h = refl
pick_width_fails (suc f) n w c le q h =
    let small : c ≤ 62 ^ 8 = rw q (pow-le-pow_right (omega arith) le) in
    elim (Bool-cases (ltb 8 (w + 1))) [
      | inl past ↦ ground arith
      | inr room ↦
          let rest = pick_width_fails f n (w + 1) (c * 62) (ground arith) (power-step w c q) h in
          ground arith
    ]

-- The column that `Renormalise` returns for `n` items.
pub record IsColumn (n : ℕ) (rs : List (List ℕ)) : Type 0 where
  pub count : length rs ≡ n
  pub valid : All (All IsDigit) rs
  pub rising : Rising [] rs

length-spread : (step width i left : ℕ) → length (spread step width i left) ≡ left
unfolding spread
length-spread step width i zero = refl
length-spread step width i (suc left) = ap suc (length-spread step width (i + 1) left)

digits-spread : (step width i left : ℕ) → All (All IsDigit) (spread step width i left)
unfolding spread
digits-spread step width i zero = tt
digits-spread step width i (suc left) =
    (digits-encode_onto width ((i + 1) * step) [] tt, digits-spread step width (i + 1) left)

Rising-from_empty : (low : List ℕ) (rs : List (List ℕ)) → Rising low rs → Rising [] rs
unfolding str_lt
Rising-from_empty low [] h = tt
Rising-from_empty [] (r ∷ rs) h = h
Rising-from_empty (x ∷ low) ([] ∷ rs) h = absurd (cc (h.0))
Rising-from_empty (x ∷ low) ((y ∷ r) ∷ rs) h = (refl, h.1)

step-fits : (n c : ℕ) → 2 ≤ n → n * 2 ≤ c → (0 < c / (n + 1)) × (n * (c / (n + 1)) < c)
step-fits n c h k = (positive, omega (arith, div-add-mod c (n + 1), positive))
  where
    positive : 0 < c / (n + 1)
    positive = (le-div_iff_mul-le {x = 1} (omega arith)).1 (omega arith)

spread-IsColumn :
    (n width c : ℕ)
    → 2 ≤ n
    → c ≡ 62 ^ width
    → n * 2 ≤ c
    → IsColumn n (spread (at_least_one (c / (n + 1))) width 0 n)
spread-IsColumn n width c h q k =
    let (pos, fits) = step-fits n c h k in
    record {
      count = length-spread _ width 0 n;
      valid = digits-spread _ width 0 n;
      rising =
          Rising-from_empty _ _
            (spread-Rising (at_least_one (c / (n + 1))) width 0 n (ground arith) (ground arith));
    }

-- `Renormalise` serves every count up to half of 62 ^ 8: it returns one rank for each item, made of
-- digits, in strictly rising order.
pub renormalise-IsColumn :
    (n : ℕ) → n * 2 ≤ 62 ^ 8 → (rs : List (List ℕ)) × (renormalise n ≡ ok rs) × IsColumn n rs
unfolding renormalise
renormalise-IsColumn zero h = ([], refl, record { count = refl; valid = tt; rising = tt })
renormalise-IsColumn (suc zero) h = (
  _,
  refl,
  unfold index str_lt in record { count = refl; valid = ((refl, tt), tt); rising = (refl, tt) },
)
renormalise-IsColumn (suc (suc k)) h =
    let n = suc (suc k) in
    let (w, c, e) = pick_width_total 9 n 1 62 (omega arith) (omega arith) refl h in
    let (q, room) = pick_width_inv 9 n 1 62 w c refl e in
    (
      spread (at_least_one (c / (n + 1))) w 0 n,
      rw e refl,
      spread-IsColumn n w c (omega arith) q room,
    )

-- Past that it refuses.
pub renormalise_refuses : (n : ℕ) → 62 ^ 8 < n * 2 → renormalise n ≡ err too_many
unfolding renormalise
renormalise_refuses zero h = absurd (omega arith)
renormalise_refuses (suc zero) h = absurd (omega arith)
renormalise_refuses (suc (suc k)) h =
    rw (pick_width_fails 9 (suc (suc k)) 1 62 (omega arith) refl h)
