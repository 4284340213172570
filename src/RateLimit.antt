-- ===== src/RateLimit.antt =====
-- backend/internal/ratelimit/middleware.go: the sliding window in a sorted set, and the address that a
-- request is counted under.
pub mod Window
pub mod Address
mod Tests
use super_ops.Base.{
  ℕ, zero, suc, ◌+◌, ◌-◌, ◌≡◌, Bool, true, false, ◌&&◌, ◌||◌, not, List, [], ◌∷◌, ◌++◌, Option,
  none, some, length, get_or, ltb, leb, ◌==◌, if◌then◌else◌,
}
use super_ops.Base.Bytes.{codes, str_eq}

abbrev pub Bytes : Type 0
Bytes = List ℕ

-- An entry of the sorted set: the nanoseconds of its arrival, and the name that is unique to it.
pub record Entry : Type 0 where
  pub score : ℕ
  pub name : ℕ

-- ZREMRANGEBYSCORE from 0 up to, and without, now less the window.
abbrev pub is_recent : ℕ → ℕ → ℕ → Bool
is_recent window now score = leb now (score + window)

unfoldable pub remove_old : ℕ → ℕ → List Entry → List Entry
remove_old window now [] = []
remove_old window now (e ∷ es) =
    let rest = remove_old window now es in if is_recent window now e.score then e ∷ rest else rest

-- ZREM of one name.
unfoldable pub remove_name : ℕ → List Entry → List Entry
remove_name name [] = []
remove_name name (e ∷ es) =
    let rest = remove_name name es in if e.name == name then rest else e ∷ rest

-- A refused request takes its entry back, if the ZREM gets through; its error is ignored.
abbrev pub withdrawn : Bool → ℕ → List Entry → List Entry
withdrawn false name es = es
withdrawn true name es = remove_name name es

-- `checkRateAt`: whether the request may go on, and the set after it. `withdraws` is whether the ZREM
-- gets through.
unfoldable pub check_rate_at : Bool → ℕ → ℕ → ℕ → ℕ → List Entry → Bool × List Entry
unfolding remove_old remove_name
check_rate_at withdraws limit window now name es =
    let added = record { score = now; name = name } ∷ remove_old window now es in
    if leb (length added) limit then (true, added) else (false, withdrawn withdraws name added)

-- `strings.Split` at commas.
abbrev pub to_first : ℕ → List Bytes → List Bytes
to_first c [] = (c ∷ []) ∷ []
to_first c (p ∷ ps) = (c ∷ p) ∷ ps

unfoldable pub split_commas : Bytes → List Bytes
split_commas [] = [] ∷ []
split_commas (c ∷ cs) =
    let rest = split_commas cs in if c == b',' then [] ∷ rest else to_first c rest

-- A request, as far as its address goes: `RemoteAddr` without its port, and X-Forwarded-For.
pub record Request : Type 0 where
  pub remote : Bytes
  pub forwarded : Bytes

-- `net.ParseIP` with `String`, `net.SplitHostPort` and `strings.TrimSpace` are the library's.
module _ (parse_ip : Bytes → Option Bytes) (split_host_port : Bytes → Option Bytes)
    (trim : Bytes → Bytes) where
  abbrev pub or_host : Option Bytes → Option Bytes → Bytes
  or_host (some ip) host = ip
  or_host none none = []
  or_host none (some host) = elim (parse_ip host) [ none ↦ [] | some ip ↦ ip ]

  -- `normalizeIP`.
  abbrev pub normalize_ip : Bytes → Bytes
  normalize_ip raw =
      let s = trim raw in if str_eq s [] then [] else or_host (parse_ip s) (split_host_port s)

  abbrev pub or_remote : Bytes → Bytes → Bytes
  or_remote remote ip = if not (str_eq ip []) then ip else remote

  -- `clientIP`, for a number of hops of 0 or more.
  unfoldable pub client_ip : Bool → ℕ → Request → Bytes
  unfolding split_commas str_eq
  client_ip trust_proxy hops r =
      let hops = if hops == 0 then 1 else hops in
      let parts = split_commas r.forwarded in
      if not trust_proxy || str_eq r.forwarded []
      then r.remote
      else if ltb (length parts) hops
      then r.remote
      else or_remote r.remote (normalize_ip (get_or parts (length parts - hops) []))
