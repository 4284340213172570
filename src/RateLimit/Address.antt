-- ===== src/RateLimit/Address.antt =====
-- What a client sends ahead of the proxies does not matter.
use super_ops.Base.{
  ℕ, ◌-◌, ◌≤◌, ◌≡◌, refl, ◌∙◌, ap, true, false, List, [], ◌∷◌, ◌++◌, Option, length, length-append,
  get_or, ltb, ◌==◌, arith,
}
use super_ops.Base.Bytes.{str_eq}
use super_ops.RateLimit.{Bytes, to_first, split_commas, client_ip}

to_first-append :
    (c : ℕ) (ps qs : List Bytes) → 1 ≤ length ps → to_first c (ps ++ qs) ≡ to_first c ps ++ qs
to_first-append c [] qs h = absurd (omega arith)
to_first-append c (p ∷ ps) qs h = refl

to_first-some : (c : ℕ) (ps : List Bytes) → 1 ≤ length (to_first c ps)
to_first-some c [] = omega arith
to_first-some c (p ∷ ps) = omega arith

split_commas-some : (s : Bytes) → 1 ≤ length (split_commas s)
unfolding split_commas
split_commas-some [] = omega arith
split_commas-some (c ∷ cs) = let first = to_first-some c (split_commas cs) in ground (arith, first)

-- A comma splits a text into the parts before it and those after it.
split_commas-append :
    (s t : Bytes) → split_commas (s ++ b',' ∷ t) ≡ split_commas s ++ split_commas t
unfolding split_commas
split_commas-append [] t = refl
split_commas-append (c ∷ s) t =
    let rest = split_commas-append s t in
    let first = to_first-append c (split_commas s) (split_commas t) (split_commas-some s) in
    ground (arith, rest, ap (to_first c) rest ∙ first)

get_or-append : (ps qs : List Bytes) (d : Bytes) → get_or (ps ++ qs) (length ps) d ≡ get_or qs 0 d
get_or-append [] qs d = refl
get_or-append (p ∷ ps) qs d = get_or-append ps qs d

not_empty : (s t : Bytes) → str_eq (s ++ b',' ∷ t) [] ≡ false
unfolding str_eq
not_empty [] t = refl
not_empty (c ∷ s) t = refl

-- The part that the hops pick, behind any number of others.
picked :
    (hops : ℕ) (ps qs : List Bytes)
    → length qs ≡ hops
    → get_or (ps ++ qs) (length (ps ++ qs) - hops) [] ≡ get_or qs (length qs - hops) []
picked hops ps qs h =
    let long : length (ps ++ qs) - hops ≡ length ps = omega (arith, length-append ps qs) in
    let none_over : length qs - hops ≡ 0 = omega arith in
    rw long (rw none_over (get_or-append ps qs []))

module _ (parse_ip : Bytes → Option Bytes) (split_host_port : Bytes → Option Bytes)
    (trim : Bytes → Bytes) where
  -- Where as many proxies as are trusted have each added an entry to X-Forwarded-For, whatever the client
  -- sends ahead of them leaves the address as it is.
  pub client_ip-prefix :
      (hops : ℕ) (remote sent added : Bytes)
      → 1 ≤ hops
      → length (split_commas added) ≡ hops
      → str_eq added [] ≡ false
      → client_ip parse_ip split_host_port trim true hops
          (record { remote = remote; forwarded = sent ++ b',' ∷ added })
        ≡ client_ip parse_ip split_host_port trim true hops
            (record { remote = remote; forwarded = added })
  unfolding client_ip
  client_ip-prefix hops remote sent added some_hop all_added named =
      let parts = split_commas-append sent added in
      let size = ap length parts ∙ length-append (split_commas sent) (split_commas added) in
      let pick = picked hops (split_commas sent) (split_commas added) all_added in
      let enough : ltb (length (split_commas sent ++ split_commas added)) hops ≡ false =
        ground (arith, length-append (split_commas sent) (split_commas added)) in
      let just : ltb (length (split_commas added)) hops ≡ false = ground arith in
      let at_least : (hops == 0) ≡ false = ground arith in
      rw (not_empty sent added)
        (rw named (rw at_least (rw parts (rw enough (rw just (rw pick refl))))))
