-- ===== src/Access/Keys.antt =====
-- The access keys that are stored, and the rewrite of a subtree's: `rewriteSubtreeKeys`.
use super_ops.Base.{
  ◌≡◌, refl, ◌∙◌, ap, subst, Bool, false, ◌&&◌, ◌||◌, not, List, [], ◌∷◌, ◌++◌, none, some,
  some_inj, map, if◌then◌else◌, arith, Bool-cases, inl, inr,
}
use super_ops.Access.{
  ObjectRef, same_ref, ObjectPath, has_prefix_path, ObjectRow, Acl, Key, KeyRow, same_key,
  lock_object,
}
use super_ops.Access.Rows.{same_ref→eq, same_ref_refl}
use super_ops.Access.View.{expected_keys}
use super_ops.Access.Tree.{
  key_row, fresh_keys, is_under, is_row_under, clear_keys, rewrite_subtree_keys,
}

unfoldable pub holds : Key → List Key → Bool
holds k [] = false
holds k (x ∷ xs) = same_key x k || holds k xs

unfoldable pub has_key : ObjectRef → Key → List KeyRow → Bool
has_key ref k [] = false
has_key ref k (x ∷ xs) = (same_ref x.object ref && same_key x.key k) || has_key ref k xs

-- The objects are a table with the reference as its key.
abbrev pub IsKeyed : List ObjectRow → Type 0
IsKeyed [] = Unit
IsKeyed (r ∷ rs) = (lock_object r.ref rs ≡ none) × IsKeyed rs

-- Every object has the keys that it should have, and no other.
abbrev pub InSync : Acl → Type 0
InSync a =
    (ref : ObjectRef) (r : ObjectRow) (k : Key)
    → lock_object ref a.objects ≡ some r
    → has_key ref k a.keys ≡ holds k (expected_keys a r)

has_key-append :
    (ref : ObjectRef) (k : Key) (xs ys : List KeyRow)
    → has_key ref k (xs ++ ys) ≡ (has_key ref k xs || has_key ref k ys)
unfolding has_key
has_key-append ref k [] ys = refl
has_key-append ref k (x ∷ xs) ys = ground (arith, has_key-append ref k xs ys)

-- The keys of one row.
has_key-own :
    (ref : ObjectRef) (k : Key) (ks : List Key) → has_key ref k (map (key_row ref) ks) ≡ holds k ks
unfolding has_key holds
has_key-own ref k [] = refl
has_key-own ref k (x ∷ xs) = ground (arith, has_key-own ref k xs, same_ref_refl ref)

has_key-other :
    (ref other : ObjectRef) (k : Key) (ks : List Key)
    → same_ref other ref ≡ false
    → has_key ref k (map (key_row other) ks) ≡ false
unfolding has_key
has_key-other ref other k [] h = refl
has_key-other ref other k (x ∷ xs) h = ground (arith, has_key-other ref other k xs h)

-- What the rewrite puts in for an object: its expected keys, if it is under the path.
fresh_keys-none :
    (ref : ObjectRef) (k : Key) (prefix : ObjectPath) (a : Acl) (rows : List ObjectRow)
    → lock_object ref rows ≡ none
    → has_key ref k (fresh_keys prefix a rows) ≡ false
unfolding lock_object fresh_keys has_key
fresh_keys-none ref k prefix a [] h = refl
fresh_keys-none ref k prefix a (r ∷ rows) h = elim (Bool-cases (same_ref r.ref ref)) [
  | inl e ↦ absurd (cc (rw e at h))
  | inr e ↦
      let rest = fresh_keys-none ref k prefix a rows (rw e at h) in
      let own = has_key-other ref r.ref k (expected_keys a r) e in
      let split =
        has_key-append ref k (map (key_row r.ref) (expected_keys a r)) (fresh_keys prefix a rows) in
      ground (arith, rest, own, split)
]

fresh_keys-some :
    (ref : ObjectRef) (k : Key) (prefix : ObjectPath) (a : Acl) (rows : List ObjectRow)
    (r : ObjectRow)
    → IsKeyed rows
    → lock_object ref rows ≡ some r
    → has_key ref k (fresh_keys prefix a rows)
      ≡ (has_prefix_path r.path prefix && holds k (expected_keys a r))
unfolding lock_object fresh_keys has_key
fresh_keys-some ref k prefix a [] r keyed h = absurd (cc h)
fresh_keys-some ref k prefix a (x ∷ rows) r (fresh, keyed) h =
    let split =
      has_key-append ref k (map (key_row x.ref) (expected_keys a x)) (fresh_keys prefix a rows) in
    elim (Bool-cases (same_ref x.ref ref)) [
      | inl e ↦
          let same = same_ref→eq x.ref ref e in
          let row = some_inj (rw e at h) in
          let rest =
            fresh_keys-none ref k prefix a rows
              (subst (λ y. lock_object y rows ≡ none) same fresh) in
          let own =
            ap (λ y. has_key ref k (map (key_row y) (expected_keys a x))) same
            ∙ has_key-own ref k (expected_keys a x) in
          subst
            (λ y.
              has_key ref k (fresh_keys prefix a (x ∷ rows))
              ≡ (has_prefix_path y.path prefix && holds k (expected_keys a y)))
            row (ground (arith, rest, own, split))
      | inr e ↦
          let rest = fresh_keys-some ref k prefix a rows r keyed (rw e at h) in
          let own = has_key-other ref x.ref k (expected_keys a x) e in
          ground (arith, rest, own, split)
    ]

-- What it leaves.
clear_keys-has_key :
    (ref : ObjectRef) (k : Key) (prefix : ObjectPath) (objects : List ObjectRow)
    (keys : List KeyRow)
    → has_key ref k (clear_keys prefix objects keys)
      ≡ (not (is_under prefix objects ref) && has_key ref k keys)
unfolding clear_keys has_key
clear_keys-has_key ref k prefix objects [] = ground arith
clear_keys-has_key ref k prefix objects (x ∷ xs) =
    let rest = clear_keys-has_key ref k prefix objects xs in
    elim (Bool-cases (same_ref x.object ref)) [
      | inl e ↦
          let same = ap (is_under prefix objects) (same_ref→eq x.object ref e) in
          ground (arith, rest, same)
      | inr e ↦ ground (arith, rest, e)
    ]

-- After the rewrite an object under the path has its expected keys, and another has what it had.
pub rewrite_subtree_keys_lem :
    (ref : ObjectRef) (k : Key) (prefix : ObjectPath) (a : Acl) (r : ObjectRow)
    → IsKeyed a.objects
    → lock_object ref a.objects ≡ some r
    → has_key ref k (rewrite_subtree_keys prefix a).keys ≡ (
        if has_prefix_path r.path prefix then holds k (expected_keys a r) else has_key ref k a.keys)
unfolding rewrite_subtree_keys
rewrite_subtree_keys_lem ref k prefix a r keyed h =
    let new = fresh_keys-some ref k prefix a a.objects r keyed h in
    let old = clear_keys-has_key ref k prefix a.objects a.keys in
    let under = ap (is_row_under prefix) h in
    let split =
      has_key-append ref k (fresh_keys prefix a a.objects) (clear_keys prefix a.objects a.keys) in
    ground (arith, new, old, under, split)

-- A rewrite brings the keys in step where a change did so for every object outside the path.
pub rewrite_subtree_keys-InSync :
    (prefix : ObjectPath) (a : Acl)
    → IsKeyed a.objects
    → ((ref : ObjectRef) (r : ObjectRow) (k : Key)
        → lock_object ref a.objects ≡ some r
        → has_prefix_path r.path prefix ≡ false
        → has_key ref k a.keys ≡ holds k (expected_keys a r))
    → InSync (rewrite_subtree_keys prefix a)
unfolding rewrite_subtree_keys expected_keys
rewrite_subtree_keys-InSync prefix a keyed outside ref r k h =
    let e = rewrite_subtree_keys_lem ref k prefix a r keyed h in
    elim (Bool-cases (has_prefix_path r.path prefix)) [
      | inl under ↦ e ∙ rw under refl
      | inr out ↦ e ∙ rw out (outside ref r k h out)
    ]
