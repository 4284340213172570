-- ===== src/Access/Opening.antt =====
-- What it is for held keys to open an object, key by key.
use super_ops.Base.{
  ◌≡◌, refl, sym, subst, Bool, true, false, ◌&&◌, ◌||◌, List, [], ◌∷◌, ◌++◌, ◌==◌, arith, inl, inr,
  ◌⊎◌,
}
use super_ops.Base.Bytes.{str_eq, str_eq→eq, str_eq_refl}
use super_ops.Access.{ObjectRef, same_ref, Key, KeyRow, same_key}
use super_ops.Access.Rows.{both}
use super_ops.Access.Keys.{holds, has_key}
use super_ops.Access.Listing.{opens}

pub either : (a b : Bool) → (a || b) ≡ true → (a ≡ true) ⊎ (b ≡ true)
either true b h = inl refl
either false b h = inr h

pub same_key→eq : (a b : Key) → same_key a b ≡ true → a ≡ b
same_key→eq a b h =
    let (l, i) = both (a.letter == b.letter) (str_eq a.id b.id) h in
    let p : a.letter ≡ b.letter = ground (arith, l) in let q = str_eq→eq a.id b.id i in cc

pub same_key_refl : (a : Key) → same_key a a ≡ true
same_key_refl a = ground (arith, str_eq_refl a.id)

pub holds-append : (k : Key) (xs ys : List Key) → holds k (xs ++ ys) ≡ (holds k xs || holds k ys)
unfolding holds
holds-append k [] ys = refl
holds-append k (x ∷ xs) ys = ground (arith, holds-append k xs ys)

-- The keys open an object when one of them is a key of it.
pub opens→key :
    (held : List Key) (ref : ObjectRef) (keys : List KeyRow)
    → opens held ref keys ≡ true
    → (k : Key) × (holds k held ≡ true) × (has_key ref k keys ≡ true)
unfolding opens has_key
opens→key held ref [] h = absurd (cc h)
opens→key held ref (x ∷ keys) h =
    elim (either (same_ref x.object ref && holds x.key held) (opens held ref keys) h) [
      | inl e ↦
          let (same, there) = both (same_ref x.object ref) (holds x.key held) e in
          (x.key, there, rw same (rw (same_key_refl x.key) refl))
      | inr e ↦ let (k, there, own) = opens→key held ref keys e in (k, there, ground (arith, own))
    ]

pub key→opens :
    (held : List Key) (ref : ObjectRef) (k : Key) (keys : List KeyRow)
    → holds k held ≡ true
    → has_key ref k keys ≡ true
    → opens held ref keys ≡ true
unfolding opens has_key
key→opens held ref k [] h own = absurd (cc own)
key→opens held ref k (x ∷ keys) h own =
    elim (either (same_ref x.object ref && same_key x.key k) (has_key ref k keys) own) [
      | inl e ↦
          let (same, eq) = both (same_ref x.object ref) (same_key x.key k) e in
          let there = subst (λ y. holds y held ≡ true) (sym (same_key→eq x.key k eq)) h in
          rw same (rw there refl)
      | inr e ↦ let rest = key→opens held ref k keys h e in ground (arith, rest)
    ]
