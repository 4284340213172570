-- ===== src/Socket/Bucket.antt =====
-- ratelimit.go and `chargeInbound` of client.go. The source counts tokens in floating point; here a
-- token is a thousand million parts, which is what a rate per second adds in a nanosecond.
use native.Mathlib.Nat.{add-mul}
use super_ops.Base.{
  ℕ, ◌+◌, ◌-◌, ◌*◌, ◌≡◌, ◌≤◌, ◌<◌, refl, Bool, true, false, List, [], ◌∷◌, ltb, leb, if◌then◌else◌,
  arith, Bool-cases, inl, inr, sym, ap, subst, ◌∙◌,
}

abbrev pub token : ℕ
token = 1000000000

-- `tokens` and `burst` in parts of a token, `rate` in tokens per second, `last` in nanoseconds.
pub record TokenBucket : Type 0 where
  pub tokens : ℕ
  pub rate : ℕ
  pub burst : ℕ
  pub last : ℕ

abbrev pub new_token_bucket : ℕ → ℕ → ℕ → TokenBucket
new_token_bucket rate burst now = record {
  tokens = burst * token;
  rate = rate;
  burst = burst * token;
  last = now;
}

-- The refill for the time since the last call; a clock that goes back changes nothing.
unfoldable pub refill : ℕ → TokenBucket → TokenBucket
refill now b =
    if ltb b.last now
    then record b {
      tokens =
          if ltb b.burst (b.tokens + (now - b.last) * b.rate)
          then b.burst
          else b.tokens + (now - b.last) * b.rate;
      last = now;
    }
    else b

abbrev pub spend : TokenBucket → Bool × TokenBucket
spend b = if ltb b.tokens token then (false, b) else (true, record b { tokens = b.tokens - token })

unfoldable pub allow : ℕ → TokenBucket → Bool × TokenBucket
unfolding refill
allow now b = spend (refill now b)

-- What `chargeInbound` answers: the frame is processed, it is dropped, or the connection is done.
pub data Verdict : Type 0 where
  allowed dropped finished : Verdict

abbrev pub max_rate_strikes : ℕ
max_rate_strikes = 20

-- A connection's budget: its bucket and its strikes.
pub record Budget : Type 0 where
  pub bucket : TokenBucket
  pub strikes : ℕ

-- A frame that the bucket refuses is a strike, and the last strike ends the connection.
abbrev pub strike : TokenBucket → ℕ → Verdict × Budget
strike bucket strikes =
    if leb max_rate_strikes strikes
    then (finished, record { bucket = bucket; strikes = strikes })
    else (dropped, record { bucket = bucket; strikes = strikes })

abbrev pub judge : Bool × TokenBucket → ℕ → Verdict × Budget
judge (true, bucket) strikes = (allowed, record { bucket = bucket; strikes = strikes })
judge (false, bucket) strikes = strike bucket (strikes + 1)

unfoldable pub charge_inbound : ℕ → Budget → Verdict × Budget
unfolding allow
charge_inbound now c = judge (allow now c.bucket) c.strikes

-- The loop of `ReadPump` over the arrival times of frames that are charged to one bucket: how many
-- are processed, how many are dropped, and the budget at the end.
pub record Served : Type 0 where
  pub processed : ℕ
  pub refused : ℕ
  pub budget : Budget

-- One frame, before what `rest` serves.
abbrev pub serve : Verdict → Budget → Served → Served
serve allowed c rest = record rest { processed = 1 + rest.processed }
serve dropped c rest = record rest { refused = 1 + rest.refused }
serve finished c rest = record { processed = 0; refused = 1; budget = c }

unfoldable pub read_pump : List ℕ → Budget → Served
unfolding charge_inbound
read_pump [] c = record { processed = 0; refused = 0; budget = c }
read_pump (now ∷ nows) c =
    let (verdict, c') = charge_inbound now c in serve verdict c' (read_pump nows c')

-- The tokens that are held never exceed what was held and what the time that has passed adds.
abbrev Balanced : TokenBucket → ℕ → TokenBucket → Type 0
Balanced b spent b' =
    (spent + b'.tokens + b.last * b.rate ≤ b.tokens + b'.last * b.rate) × (b'.rate ≡ b.rate)

split_time : (from to rate : ℕ) → from < to → (to - from) * rate + from * rate ≡ to * rate
split_time from to rate h = sym (add-mul (to - from) from rate) ∙ ap (λ n. n * rate) (omega arith)

refill-Balanced : (now : ℕ) (b : TokenBucket) → Balanced b 0 (refill now b)
unfolding refill
refill-Balanced now b = elim (Bool-cases (ltb b.last now)) [
  | inr e ↦ rw e (omega arith, refl)
  | inl e ↦ rw e (ground (arith, split_time b.last now b.rate), refl)
]

spend-tokens :
    (b : TokenBucket)
    → ((if (spend b).0 then token else 0) + (spend b).1.tokens ≡ b.tokens)
      × ((spend b).1.last ≡ b.last)
      × ((spend b).1.rate ≡ b.rate)
spend-tokens b = elim (Bool-cases (ltb b.tokens token)) [
  | inl e ↦ rw e (omega arith, refl, refl)
  | inr e ↦ rw e (ground arith, refl, refl)
]

allow-Balanced :
    (now : ℕ) (b : TokenBucket)
    → Balanced b (if (allow now b).0 then token else 0) ((allow now b).1)
unfolding allow
allow-Balanced now b =
    let (p, q) = refill-Balanced now b in
    let (r, l, s) = spend-tokens (refill now b) in
    (
      subst
          (λ n.
            (if (spend (refill now b)).0 then token else 0)
              + (spend (refill now b)).1.tokens
              + b.last * b.rate
            ≤ b.tokens + n * b.rate)
          (sym l) (omega (arith, p, r)),
      s ∙ q,
    )

abbrev paid : Verdict → ℕ
paid allowed = token
paid dropped = 0
paid finished = 0

judge-Balanced :
    (r : Bool × TokenBucket) (c : Budget)
    → Balanced c.bucket (if r.0 then token else 0) r.1
    → let (verdict, c') = judge r c.strikes in Balanced c.bucket (paid verdict) c'.bucket
judge-Balanced (true, bucket) c h = h
judge-Balanced (false, bucket) c h = go (leb max_rate_strikes (c.strikes + 1))
  where
    go :
        (b : Bool)
        → let (verdict, c') : Verdict × Budget =
            if b
            then (finished, record { bucket = bucket; strikes = c.strikes + 1 })
            else (dropped, record { bucket = bucket; strikes = c.strikes + 1 }) in
          Balanced c.bucket (paid verdict) c'.bucket
    go true = h
    go false = h

-- What is processed is paid for.
abbrev IsPaid : Budget → Served → Type 0
IsPaid c s =
    s.processed * token + c.bucket.last * c.bucket.rate
    ≤ c.bucket.tokens + s.budget.bucket.last * c.bucket.rate

serve-IsPaid :
    (verdict : Verdict) (c c' : Budget) (rest : Served)
    → Balanced c.bucket (paid verdict) c'.bucket
    → IsPaid c' rest
    → IsPaid c (serve verdict c' rest)
serve-IsPaid allowed c c' rest (h, e) k = omega (arith, h, rw e at k)
serve-IsPaid dropped c c' rest (h, e) k = omega (arith, h, rw e at k)
serve-IsPaid finished c c' rest (h, e) k = omega (arith, h)

-- Over any arrivals of frames that are charged to one bucket, each frame that ReadPump processes is
-- paid for by what the bucket held at the start or by the refill at its rate for the time that has
-- passed since.
pub read_pump-rate :
    (nows : List ℕ) (c : Budget)
    → let s = read_pump nows c in
      s.processed * token + c.bucket.last * c.bucket.rate
      ≤ c.bucket.tokens + s.budget.bucket.last * c.bucket.rate
unfolding read_pump charge_inbound
read_pump-rate [] c = omega arith
read_pump-rate (now ∷ nows) c =
    let (verdict, c') = charge_inbound now c in
    serve-IsPaid verdict c c' (read_pump nows c')
      (judge-Balanced (allow now c.bucket) c (allow-Balanced now c.bucket)) (read_pump-rate nows c')

-- The strikes are the refused frames, and they stay within the limit.
abbrev CountsStrikes : ℕ → Served → Type 0
CountsStrikes strikes s =
    (strikes + s.refused ≡ s.budget.strikes) × (s.budget.strikes ≤ max_rate_strikes)

judge-CountsStrikes :
    (r : Bool × TokenBucket) (strikes : ℕ)
    → strikes < max_rate_strikes
    → (rest : Budget → Served)
    → ((c : Budget) → c.strikes < max_rate_strikes → CountsStrikes c.strikes (rest c))
    → let (verdict, c') = judge r strikes in CountsStrikes strikes (serve verdict c' (rest c'))
judge-CountsStrikes (true, bucket) strikes h rest k = k _ h
judge-CountsStrikes (false, bucket) strikes h rest k = go (leb max_rate_strikes (strikes + 1)) refl
  where
    go :
        (b : Bool)
        → leb max_rate_strikes (strikes + 1) ≡ b
        → let (verdict, c') : Verdict × Budget =
            if b
            then (finished, record { bucket = bucket; strikes = strikes + 1 })
            else (dropped, record { bucket = bucket; strikes = strikes + 1 }) in
          CountsStrikes strikes (serve verdict c' (rest c'))
    go true e = (omega arith, omega arith)
    go false e =
        let (p, q) = k (record { bucket = bucket; strikes = strikes + 1 }) (ground arith) in
        (omega (arith, p), q)

-- From fewer than 20 strikes on, over any arrivals of frames that are charged to one bucket, the
-- frames that are refused for their rate are counted as strikes, and the connection is ended with
-- the 20th, so that the strikes never exceed 20.
pub read_pump-strikes :
    (nows : List ℕ) (c : Budget)
    → c.strikes < max_rate_strikes
    → let s = read_pump nows c in
      (c.strikes + s.refused ≡ s.budget.strikes) × (s.budget.strikes ≤ max_rate_strikes)
unfolding read_pump charge_inbound
read_pump-strikes [] c h = (omega arith, omega arith)
read_pump-strikes (now ∷ nows) c h =
    judge-CountsStrikes (allow now c.bucket) c.strikes h (read_pump nows) (read_pump-strikes nows)
