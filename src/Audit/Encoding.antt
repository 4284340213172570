-- ===== src/Audit/Encoding.antt =====
-- The bytes that are hashed: `canonical` and `lengthPrefixed` of chain.go.
use super_ops.Base.{
  ℕ, zero, suc, ◌+◌, ◌/◌, ◌%◌, ◌||◌, List, [], ◌∷◌, ◌++◌, some, none, ltb, if◌then◌else◌, length,
}
use super_ops.Base.Bytes.{codes, str_eq}
use super_ops.Audit.{Bytes, StoredEntry, Outside}

-- `strconv.AppendInt` of a number that is not negative; a decimal of n has at most n + 1 digits.
unfoldable pub decimal_onto : ℕ → ℕ → Bytes → Bytes
decimal_onto zero n buf = buf
decimal_onto (suc fuel) n buf =
    let rest = decimal_onto fuel (n / 10) ((b'0' + n % 10) ∷ buf) in
    if ltb n 10 then (b'0' + n) ∷ buf else rest

unfoldable pub decimal : ℕ → Bytes
unfolding decimal_onto
decimal n = decimal_onto (suc n) n []

unfoldable pub prefixed : Bytes → Bytes
prefixed p = decimal (length p) ++ (b':' ∷ p)

-- The parts from the second one on, each behind a '|'.
unfoldable pub more_prefixed : List Bytes → Bytes
unfolding prefixed
more_prefixed [] = []
more_prefixed (p ∷ ps) = b'|' ∷ (prefixed p ++ more_prefixed ps)

unfoldable pub length_prefixed : List Bytes → Bytes
unfolding more_prefixed
length_prefixed [] = []
length_prefixed (p ∷ ps) = prefixed p ++ more_prefixed ps

module _ (o : Outside) where
  -- `canonicalJSON`.
  unfoldable pub canonical_json : Bytes → Bytes
  canonical_json raw =
      if str_eq raw [] || str_eq raw (codes "{}")
      then codes "{}"
      else elim (o.reencode raw) [ none ↦ raw | some out ↦ out ]

  abbrev pub canonical_parts : StoredEntry → List Bytes
  canonical_parts e =
      codes "v1"
      ∷ e.id
      ∷ e.workspace_id
      ∷ e.actor_id
      ∷ e.action
      ∷ e.resource_type
      ∷ e.resource_id
      ∷ canonical_json e.metadata
      ∷ e.ip_address
      ∷ o.format_time e.created_at
      ∷ decimal e.chain_seq
      ∷ []

  unfoldable pub canonical : StoredEntry → Bytes
  unfolding length_prefixed canonical_json
  canonical e = length_prefixed (canonical_parts e)

  unfoldable pub chain_hash : Bytes → StoredEntry → Bytes
  chain_hash prev e = o.sha256 (prev ++ canonical e)

-- The key that folds repeated reads: `hour` is the start of the hour, formatted.
unfoldable pub dedupe_tuple : Bytes → Bytes → Bytes → Bytes → Bytes → Bytes
unfolding length_prefixed
dedupe_tuple actor_id action resource_type resource_id hour =
    length_prefixed (actor_id ∷ action ∷ resource_type ∷ resource_id ∷ hour ∷ [])
