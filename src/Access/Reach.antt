-- ===== src/Access/Reach.antt =====
-- Which objects a change of the grants or of the tree cannot give a key or take one from.
use super_ops.Base.{
  ◌≡◌, refl, sym, ◌∙◌, ap, true, false, List, [], ◌∷◌, ◌++◌, Option, none, some, arith, Bool-cases,
  inl, inr,
}
use super_ops.Access.{
  ObjectRef, same_ref, ObjectPath, has_prefix_path, below, SubjectRef, GrantRow, ObjectRow,
  lock_object,
}
use super_ops.Access.Rows.{same_ref→eq, has_prefix_path-append, prefix_trans}
use super_ops.Access.View.{grant_keys, reaches, is_below}
use super_ops.Access.Tree.{put_object, move_subtree, put_grant, delete_grant}
use super_ops.Access.WellFormed.{lock_object-put, lock_object-move, moved}
use super_ops.Access.Moved.{move_path-in, move_path-out}

-- A grant that does not reach an object gives it no key, put in or taken out.
pub put_grant_unreached :
    (objects : List ObjectRow) (g : GrantRow) (gs : List GrantRow) (o : ObjectRow)
    → reaches objects g o ≡ false
    → grant_keys objects (put_grant g gs) o ≡ grant_keys objects gs o
unfolding grant_keys put_grant
put_grant_unreached objects g [] o h = rw h refl
put_grant_unreached objects g (x ∷ gs) o h = elim (Bool-cases (same_ref x.object g.object)) [
  | inl e ↦
      let same =
        ap (λ y. is_below o.path (lock_object y objects)) (same_ref→eq x.object g.object e) in
      ground (arith, put_grant_unreached objects g gs o h, same)
  | inr e ↦ ground (arith, put_grant_unreached objects g gs o h)
]

pub delete_grant_unreached :
    (objects : List ObjectRow) (ref : ObjectRef) (s : SubjectRef) (gs : List GrantRow)
    (o : ObjectRow)
    → is_below o.path (lock_object ref objects) ≡ false
    → grant_keys objects (delete_grant ref s gs) o ≡ grant_keys objects gs o
unfolding grant_keys delete_grant
delete_grant_unreached objects ref s [] o h = refl
delete_grant_unreached objects ref s (x ∷ gs) o h = elim (Bool-cases (same_ref x.object ref)) [
  | inl e ↦
      let same = ap (λ y. is_below o.path (lock_object y objects)) (same_ref→eq x.object ref e) in
      ground (arith, delete_grant_unreached objects ref s gs o h, same)
  | inr e ↦ ground (arith, delete_grant_unreached objects ref s gs o h)
]

-- A new row under a path that no grant names yet changes no other object's keys.
pub grant_keys-put :
    (o x : ObjectRow) (rows : List ObjectRow) (gs : List GrantRow)
    → lock_object o.ref rows ≡ none
    → has_prefix_path x.path o.path ≡ false
    → grant_keys (put_object o rows) gs x ≡ grant_keys rows gs x
unfolding grant_keys
grant_keys-put o x rows [] fresh out = refl
grant_keys-put o x rows (g ∷ gs) fresh out =
    let rest = grant_keys-put o x rows gs fresh out in
    let there = ap (is_below x.path) (lock_object-put g.object o rows) in
    elim (Bool-cases (same_ref o.ref g.object)) [
      | inl e ↦
          let old =
            ap (λ y. is_below x.path (lock_object y rows)) (sym (same_ref→eq o.ref g.object e))
            ∙ ap (is_below x.path) fresh in
          ground (arith, rest, there, old, e)
      | inr e ↦ ground (arith, rest, there, e)
    ]

-- A move changes the keys of no object outside where the subtree was and where it goes.
outside_apart :
    (x q p : ObjectPath)
    → has_prefix_path x p ≡ false
    → has_prefix_path q p ≡ true
    → has_prefix_path x q ≡ false
outside_apart x q p out h = elim (Bool-cases (has_prefix_path x q)) [
  | inl e ↦ absurd (cc (prefix_trans x q p e h, out))
  | inr e ↦ e
]

is_below-moved :
    (from to x : ObjectPath) (row : Option ObjectRow)
    → has_prefix_path x from ≡ false
    → has_prefix_path x to ≡ false
    → is_below x (moved from to row) ≡ is_below x row
is_below-moved from to x none out away = refl
is_below-moved from to x (some r) out away = elim (Bool-cases (has_prefix_path r.path from)) [
  | inl e ↦
      let old = outside_apart x r.path from out e in
      let new = outside_apart x (to ++ below from r.path) to away (has_prefix_path-append to _) in
      ap (λ y. is_below x (some y)) (move_path-in from to r e) ∙ new ∙ sym old
  | inr e ↦ ap (λ y. is_below x (some y)) (move_path-out from to r e)
]

pub grant_keys-move :
    (from to : ObjectPath) (x : ObjectRow) (rows : List ObjectRow) (gs : List GrantRow)
    → has_prefix_path x.path from ≡ false
    → has_prefix_path x.path to ≡ false
    → grant_keys (move_subtree from to rows) gs x ≡ grant_keys rows gs x
unfolding grant_keys
grant_keys-move from to x rows [] out away = refl
grant_keys-move from to x rows (g ∷ gs) out away =
    let rest = grant_keys-move from to x rows gs out away in
    let there =
      ap (is_below x.path) (lock_object-move g.object from to rows)
      ∙ is_below-moved from to x.path (lock_object g.object rows) out away in
    ground (arith, rest, there)
