-- ===== src/Audit/Injective.antt =====
-- Different fields never render to the same bytes: the length prefixes make `canonical` injective.
use mathlib.Core.List.{append_assoc}
use super_ops.Base.{
  ℕ, zero, suc, ◌+◌, ◌-◌, ◌*◌, ◌/◌, ◌<◌, ◌≡◌, refl, ◌≢◌, inl, inr, List, [], ◌∷◌, ◌++◌, arith, ltb,
  All, length, length-append, sym, ◌∙◌, ap, Bool-cases,
}
use super_ops.Base.Bytes.{append_split}
use super_ops.Audit.{Bytes, StoredEntry, Outside}
use super_ops.Audit.Encoding.{
  decimal, decimal_onto, prefixed, more_prefixed, length_prefixed, canonical, canonical_parts,
  canonical_json,
}

abbrev NoColon : Bytes → Type 0
NoColon = All (λ c. c ≢ b':')

colon_split :
    (xs ys r s : Bytes)
    → NoColon xs
    → NoColon ys
    → xs ++ b':' ∷ r ≡ ys ++ b':' ∷ s
    → (xs ≡ ys) × (r ≡ s)
colon_split [] [] r s v w e = (refl, ground arith)
colon_split [] (y ∷ ys) r s v w e = absurd (w.0 (ground arith))
colon_split (x ∷ xs) [] r s v w e = absurd (v.0 (ground arith))
colon_split (x ∷ xs) (y ∷ ys) r s v w e = ground (arith, colon_split xs ys r s v.1 w.1)

-- The number that a string of digits stands for, behind `acc`.
read_from : ℕ → Bytes → ℕ
read_from acc [] = acc
read_from acc (c ∷ cs) = read_from (acc * 10 + (c - b'0')) cs

read-decimal_onto :
    (fuel n : ℕ) (buf : Bytes) → n < fuel → read_from 0 (decimal_onto fuel n buf) ≡ read_from n buf
unfolding decimal_onto read_from
read-decimal_onto zero n buf h = absurd (omega arith)
read-decimal_onto (suc f) n buf h = elim (Bool-cases (ltb n 10)) [
  | inl small ↦ rw small (ap (λ (k : ℕ). read_from k buf) (omega arith))
  | inr big ↦ rw big (
      read-decimal_onto f (n / 10) _ (ground arith) ∙ ap (λ (k : ℕ). read_from k buf) (omega arith))
]

NoColon-decimal_onto : (fuel n : ℕ) (buf : Bytes) → NoColon buf → NoColon (decimal_onto fuel n buf)
unfolding decimal_onto
NoColon-decimal_onto zero n buf v = v
NoColon-decimal_onto (suc f) n buf v = elim (Bool-cases (ltb n 10)) [
  | inl small ↦ rw small (ground arith, v)
  | inr big ↦ rw big (NoColon-decimal_onto f (n / 10) _ (omega arith, v))
]

decimal-injective : (m n : ℕ) → decimal m ≡ decimal n → m ≡ n
unfolding decimal read_from
decimal-injective m n e =
    sym (read-decimal_onto (suc m) m [] (omega arith))
    ∙ ap (read_from 0) e
    ∙ read-decimal_onto (suc n) n [] (omega arith)

prefixed_split : (p q xs ys : Bytes) → prefixed p ++ xs ≡ prefixed q ++ ys → (p ≡ q) × (xs ≡ ys)
unfolding prefixed decimal
prefixed_split p q xs ys e =
    let (d, r) =
      colon_split (decimal (length p)) (decimal (length q)) (p ++ xs) (q ++ ys)
        (NoColon-decimal_onto (suc (length p)) (length p) [] tt)
        (NoColon-decimal_onto (suc (length q)) (length q) [] tt)
        (sym (append_assoc (decimal (length p)) (b':' ∷ p) xs)
          ∙ e
          ∙ append_assoc (decimal (length q)) (b':' ∷ q) ys) in
    append_split p q xs ys (decimal-injective (length p) (length q) d) r

more_prefixed-injective : (ps qs : List Bytes) → more_prefixed ps ≡ more_prefixed qs → ps ≡ qs
unfolding more_prefixed
more_prefixed-injective [] [] e = refl
more_prefixed-injective [] (q ∷ qs) e = absurd (cc e)
more_prefixed-injective (p ∷ ps) [] e = absurd (cc e)
more_prefixed-injective (p ∷ ps) (q ∷ qs) e =
    let (same, rest) = prefixed_split p q (more_prefixed ps) (more_prefixed qs) (ground arith) in
    cc (same, more_prefixed-injective ps qs rest)

prefixed-ne-nil : (p xs : Bytes) → prefixed p ++ xs ≢ []
unfolding prefixed
prefixed-ne-nil p xs e = absurd (
    omega (
      arith,
      ap length e,
      length-append (decimal (length p) ++ b':' ∷ p) xs,
      length-append (decimal (length p)) (b':' ∷ p),
    ))

-- No two lists of parts render to the same bytes, whatever separators the parts contain.
pub length_prefixed-injective :
    (ps qs : List Bytes) → length_prefixed ps ≡ length_prefixed qs → ps ≡ qs
unfolding length_prefixed
length_prefixed-injective [] [] e = refl
length_prefixed-injective [] (q ∷ qs) e = absurd (prefixed-ne-nil q _ (sym e))
length_prefixed-injective (p ∷ ps) [] e = absurd (prefixed-ne-nil p _ e)
length_prefixed-injective (p ∷ ps) (q ∷ qs) e =
    let (same, rest) = prefixed_split p q (more_prefixed ps) (more_prefixed qs) e in
    cc (same, more_prefixed-injective ps qs rest)

-- What two entries with the same canonical bytes share: every field, the metadata as its canonical
-- JSON and the time as it is formatted.
pub record SameContent (o : Outside) (e f : StoredEntry) : Type 0 where
  pub id : e.id ≡ f.id
  pub workspace_id : e.workspace_id ≡ f.workspace_id
  pub actor_id : e.actor_id ≡ f.actor_id
  pub action : e.action ≡ f.action
  pub resource_type : e.resource_type ≡ f.resource_type
  pub resource_id : e.resource_id ≡ f.resource_id
  pub metadata : canonical_json o e.metadata ≡ canonical_json o f.metadata
  pub ip_address : e.ip_address ≡ f.ip_address
  pub created_at : o.format_time e.created_at ≡ o.format_time f.created_at
  pub chain_seq : e.chain_seq ≡ f.chain_seq

pub canonical-SameContent :
    (o : Outside) (e f : StoredEntry) → canonical o e ≡ canonical o f → SameContent o e f
unfolding canonical
canonical-SameContent o e f q =
    let same = length_prefixed-injective (canonical_parts o e) (canonical_parts o f) q in
    record {
      id = cc same;
      workspace_id = cc same;
      actor_id = cc same;
      action = cc same;
      resource_type = cc same;
      resource_id = cc same;
      metadata = cc same;
      ip_address = cc same;
      created_at = cc same;
      chain_seq = decimal-injective e.chain_seq f.chain_seq (cc same);
    }
