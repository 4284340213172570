-- ===== src/RateLimit/Window.antt =====
-- backend/internal/ratelimit/middleware.go: the window admits exactly the requests that find fewer than
-- the limit in it.
use super_ops.Base.{
  ℕ, suc, ◌≤◌, ◌<◌, ◌≡◌, refl, ◌∙◌, ap, Bool, true, false, List, [], ◌∷◌, length, ltb, leb, arith,
  Bool-cases, inl, inr, if◌then◌else◌, All, ==_refl,
}
use super_ops.RateLimit.{Entry, is_recent, remove_old, remove_name, check_rate_at}

-- How many of some times are in the window that ends now.
unfoldable pub recent : ℕ → ℕ → List ℕ → ℕ
recent window now [] = 0
recent window now (t ∷ ts) =
    let rest = recent window now ts in if is_recent window now t then suc rest else rest

unfoldable pub recent_entries : ℕ → ℕ → List Entry → ℕ
recent_entries window now [] = 0
recent_entries window now (e ∷ es) =
    let rest = recent_entries window now es in
    if is_recent window now e.score then suc rest else rest

-- What a subject's requests come to: the times of those that were admitted, and of those that count
-- towards the limit, the latest first.
pub record Tally : Type 0 where
  pub admitted : List ℕ
  pub counted : List ℕ

-- An admitted request counts; a refused one counts if its entry could not be taken back.
abbrev pub tallied : Bool → Bool → ℕ → Tally → Tally
tallied true withdraws now t = record { admitted = now ∷ t.admitted; counted = now ∷ t.counted }
tallied false true now t = t
tallied false false now t = record { admitted = t.admitted; counted = now ∷ t.counted }

-- The requests of one subject, one after the other. The names are a counter.
pub record History : Type 0 where
  pub set : List Entry
  pub tally : Tally
  pub next : ℕ

-- A request: when it comes, and whether a ZREM for it would get through.
abbrev pub Call : Type 0
Call = ℕ × Bool

abbrev pub noted : Call → History → Bool × List Entry → History
noted (now, withdraws) h (allowed, set) = record {
  set = set;
  next = suc h.next;
  tally = tallied allowed withdraws now h.tally;
}

unfoldable pub request : ℕ → ℕ → Call → History → History
unfolding check_rate_at
request limit window (now, withdraws) h =
    noted (now, withdraws) h (check_rate_at withdraws limit window now h.next h.set)

-- Names older than the counter.
abbrev IsNamed : ℕ → List Entry → Type 0
IsNamed next es = All (λ e. e.name < next) es

-- The set and the requests that count count the same in every window that ends from now on.
pub record IsFaithful (window last : ℕ) (h : History) : Type 0 where
  pub named : IsNamed h.next h.set
  pub counted :
      (now : ℕ) → last ≤ now → recent_entries window now h.set ≡ recent window now h.tally.counted

length-remove_old :
    (window now : ℕ) (es : List Entry)
    → length (remove_old window now es) ≡ recent_entries window now es
unfolding remove_old recent_entries
length-remove_old window now [] = refl
length-remove_old window now (e ∷ es) = ground (arith, length-remove_old window now es)

recent_entries-remove_old :
    (window now later : ℕ) (es : List Entry)
    → now ≤ later
    → recent_entries window later (remove_old window now es) ≡ recent_entries window later es
unfolding remove_old recent_entries
recent_entries-remove_old window now later [] h = refl
recent_entries-remove_old window now later (e ∷ es) h =
    ground (arith, recent_entries-remove_old window now later es h)

remove_old-IsNamed :
    (window now next : ℕ) (es : List Entry)
    → IsNamed next es
    → IsNamed (suc next) (remove_old window now es)
unfolding remove_old
remove_old-IsNamed window now next [] named = tt
remove_old-IsNamed window now next (e ∷ es) (first, named) =
    let rest = remove_old-IsNamed window now next es named in
    elim (Bool-cases (is_recent window now e.score)) [
      | inl r ↦ rw (r, All) (omega arith, rest)
      | inr r ↦ rw (r, All) rest
    ]

-- Taking the request's own entry out again leaves the others.
remove_name-old :
    (window now next : ℕ) (es : List Entry)
    → IsNamed next es
    → remove_name next (remove_old window now es) ≡ remove_old window now es
unfolding remove_name remove_old
remove_name-old window now next [] named = refl
remove_name-old window now next (e ∷ es) (first, named) =
    let rest = remove_name-old window now next es named in ground (arith, rest)

-- Whether a request goes on is whether fewer than the limit count in its window.
decision :
    (withdraws : Bool) (limit window now last : ℕ) (h : History)
    → IsFaithful window last h
    → last ≤ now
    → (check_rate_at withdraws limit window now h.next h.set).0
      ≡ ltb (recent window now h.tally.counted) limit
unfolding check_rate_at
decision withdraws limit window now last h faithful later =
    let size = length-remove_old window now h.set in
    let same = faithful.counted now later in ground (arith, size, same)

request-IsFaithful :
    (withdraws : Bool) (limit window now last : ℕ) (h : History)
    → IsFaithful window last h
    → last ≤ now
    → IsFaithful window now (request limit window (now, withdraws) h)
unfolding request check_rate_at recent recent_entries remove_name
request-IsFaithful withdraws limit window now last h faithful later =
    let kept = remove_old window now h.set in
    let named = remove_old-IsNamed window now h.next h.set faithful.named in
    let out = remove_name-old window now h.next h.set faithful.named in
    let old = λ (t : ℕ) (m : now ≤ t).
      recent_entries-remove_old window now t h.set m
      ∙ faithful.counted t (omega (arith, later, m)) in
    elim (Bool-cases (leb (suc (length kept)) limit)) [
      | inl e ↦ rw e (record {
        named = (omega arith, named);
        counted = λ t m. let o = old t m in ground (arith, o);
      })
      | inr e ↦ elim (Bool-cases withdraws) [
        | inl w ↦ rw (e, w) (rw (==_refl h.next) (rw out (record { named = named; counted = old })))
        | inr w ↦
            rw (e, w)
              (record {
                named = (omega arith, named);
                counted = λ t m. let o = old t m in ground (arith, o);
              })
      ]
    ]

-- A clock that does not go back, from some time on.
abbrev pub IsClock : ℕ → List Call → Type 0
IsClock last [] = Unit
IsClock last ((t, withdraws) ∷ rs) = (last ≤ t) × IsClock t rs

unfoldable pub requests : ℕ → ℕ → List Call → History → History
unfolding request
requests limit window [] h = h
requests limit window (r ∷ rs) h = requests limit window rs (request limit window r h)

-- The promise: a request is admitted when fewer than the limit count in the window before it.
unfoldable pub admit : ℕ → ℕ → Call → Tally → Tally
unfolding recent
admit limit window (now, withdraws) t =
    tallied (ltb (recent window now t.counted) limit) withdraws now t

unfoldable pub admit_all : ℕ → ℕ → List Call → Tally → Tally
unfolding admit
admit_all limit window [] t = t
admit_all limit window (r ∷ rs) t = admit_all limit window rs (admit limit window r t)

request-admit :
    (withdraws : Bool) (limit window now last : ℕ) (h : History)
    → IsFaithful window last h
    → last ≤ now
    → (request limit window (now, withdraws) h).tally ≡ admit limit window (now, withdraws) h.tally
unfolding request admit
request-admit withdraws limit window now last h faithful later =
    ap (λ b. tallied b withdraws now h.tally)
      (decision withdraws limit window now last h faithful later)

requests-admit :
    (limit window last : ℕ) (rs : List Call) (h : History)
    → IsFaithful window last h
    → IsClock last rs
    → (requests limit window rs h).tally ≡ admit_all limit window rs h.tally
unfolding requests admit_all
requests-admit limit window last [] h faithful clock = refl
requests-admit limit window last ((t, withdraws) ∷ rs) h faithful (later, clock) =
    requests-admit limit window t rs (request limit window (t, withdraws) h)
      (request-IsFaithful withdraws limit window t last h faithful later) clock
    ∙ ap (admit_all limit window rs) (request-admit withdraws limit window t last h faithful later)

abbrev pub no_tally : Tally
no_tally = record { admitted = []; counted = [] }

abbrev pub idle : History
idle = record { set = []; tally = no_tally; next = 0 }

idle-IsFaithful : (window : ℕ) → IsFaithful window 0 idle
unfolding recent recent_entries
idle-IsFaithful window = record { named = tt; counted = λ t m. refl }

-- By a clock that does not go back, the requests that are admitted are those that find fewer than the
-- limit of others in the window before them, where a request counts if it was admitted, or was refused
-- and its entry could not be taken back; the other refused ones count for nothing.
pub requests-admit_all :
    (limit window : ℕ) (rs : List Call)
    → IsClock 0 rs
    → (requests limit window rs idle).tally ≡ admit_all limit window rs no_tally
requests-admit_all limit window rs clock =
    requests-admit limit window 0 rs idle (idle-IsFaithful window) clock
