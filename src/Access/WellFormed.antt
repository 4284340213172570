-- ===== src/Access/WellFormed.antt =====
-- The objects form a tree, and registering and moving keep it so.
use super_ops.Base.{
  ◌≡◌, ◌≤◌, refl, sym, ◌∙◌, ap, subst, true, false, List, [], ◌∷◌, Option, none, some, some_inj,
  length, if◌then◌else◌, arith, Bool-cases, inl, inr, ◌⊎◌,
}
use super_ops.Access.{
  ObjectRef, same_ref, ObjectPath, max_path_depth, build_path, ObjectRow, lock_object,
}
use super_ops.Access.Rows.{same_ref_refl, same_ref→eq}
use super_ops.Access.View.{is_derived}
use super_ops.Access.Tree.{put_object, move_path, move_subtree}

-- A path ends with the object that it is the path of.
abbrev pub OwnsPath : ObjectRow → Type 0
OwnsPath r = (above : ObjectPath) × (r.path ≡ build_path above r.ref)

-- The row of the parent, with the path and the workspace that the child's follow from.
abbrev pub IsUnder : List ObjectRow → ObjectRow → Type 0
IsUnder rows r =
    (p : ObjectRow) × (lock_object p.ref rows ≡ some p)
    × (r.path ≡ build_path p.path r.ref)
    × (r.workspace_id ≡ p.workspace_id)

-- The rows of workspaces, channels and files are computed; every other one is under its parent's row.
abbrev pub HasParent : List ObjectRow → ObjectRow → Type 0
HasParent rows r = (is_derived r.ref.kind ≡ true) ⊎ IsUnder rows r

abbrev pub Hangs : List ObjectRow → ObjectRow → Type 0
Hangs rows r = OwnsPath r × HasParent rows r × (length r.path ≤ max_path_depth)

-- Every row that can be looked up hangs where its path says, within the depth that is allowed.
abbrev pub IsTree : List ObjectRow → Type 0
IsTree rows = (ref : ObjectRef) (r : ObjectRow) → lock_object ref rows ≡ some r → Hangs rows r

same_ref_left : (a b c : ObjectRef) → same_ref a b ≡ true → same_ref a c ≡ same_ref b c
same_ref_left a b c h = ap (λ r. same_ref r c) (same_ref→eq a b h)

pub same_ref_apart :
    (a b c : ObjectRef) → same_ref a b ≡ false → same_ref a c ≡ true → same_ref b c ≡ false
same_ref_apart a b c h k = elim (Bool-cases (same_ref b c)) [
  | inl e ↦
      let q = same_ref→eq a c k in
      let p = same_ref→eq b c e in
      let r = same_ref_refl a in
      let t = subst (λ x. same_ref a x ≡ true) (q ∙ sym p) r in absurd (cc h)
  | inr e ↦ e
]

-- What the rows hold for a reference, after a row went in.
abbrev pub replaced : ObjectRef → ObjectRow → Option ObjectRow → Option ObjectRow
replaced ref o old = if same_ref o.ref ref then some o else old

pub lock_object-put :
    (ref : ObjectRef) (o : ObjectRow) (rows : List ObjectRow)
    → lock_object ref (put_object o rows) ≡ replaced ref o (lock_object ref rows)
unfolding lock_object put_object
lock_object-put ref o [] = refl
lock_object-put ref o (r ∷ rows) = elim (Bool-cases (same_ref r.ref o.ref)) [
  | inl e ↦ let l = same_ref_left r.ref o.ref ref e in ground (arith, l)
  | inr e ↦
      let rest = lock_object-put ref o rows in
      let apart = same_ref_apart r.ref o.ref ref e in ground (arith, rest, apart)
]

abbrev pub moved : ObjectPath → ObjectPath → Option ObjectRow → Option ObjectRow
moved from to none = none
moved from to (some r) = some (move_path from to r)

pub move_path-ref : (from to : ObjectPath) (r : ObjectRow) → (move_path from to r).ref ≡ r.ref
move_path-ref from to r = ground arith

pub lock_object-move :
    (ref : ObjectRef) (from to : ObjectPath) (rows : List ObjectRow)
    → lock_object ref (move_subtree from to rows) ≡ moved from to (lock_object ref rows)
unfolding lock_object
lock_object-move ref from to [] = refl
lock_object-move ref from to (r ∷ rows) =
    let l = ap (λ x. same_ref x ref) (move_path-ref from to r) in
    elim (Bool-cases (same_ref r.ref ref)) [
      | inl e ↦ rw e (rw (l, e) refl)
      | inr e ↦ rw e (rw (l, e) (lock_object-move ref from to rows))
    ]

-- A row that was there is there still when a row for another object goes in.
pub lock_object_kept :
    (ref x : ObjectRef) (o q : ObjectRow) (rows : List ObjectRow)
    → o.ref ≡ ref
    → lock_object ref rows ≡ none
    → lock_object x rows ≡ some q
    → lock_object x (put_object o rows) ≡ some q
lock_object_kept ref x o q rows same fresh h = elim (Bool-cases (same_ref o.ref x)) [
  | inl e ↦
      let p = same_ref→eq o.ref x e in
      let none_there = subst (λ y. lock_object y rows ≡ none) (sym same ∙ p) fresh in
      absurd (cc (none_there, h))
  | inr e ↦ lock_object-put x o rows ∙ rw e h
]

HasParent-kept :
    (ref : ObjectRef) (o r : ObjectRow) (rows : List ObjectRow)
    → o.ref ≡ ref
    → lock_object ref rows ≡ none
    → HasParent rows r
    → HasParent (put_object o rows) r
HasParent-kept ref o r rows same fresh (inl derived) = inl derived
HasParent-kept ref o r rows same fresh (inr (p, found, path, ws)) =
    inr (p, lock_object_kept ref p.ref o p rows same fresh found, path, ws)

-- A new row, derived or under a row of the tree.
pub put_object-IsTree :
    (o : ObjectRow) (rows : List ObjectRow)
    → IsTree rows
    → lock_object o.ref rows ≡ none
    → OwnsPath o
    → HasParent rows o
    → length o.path ≤ max_path_depth
    → IsTree (put_object o rows)
put_object-IsTree o rows tree fresh owns parent depth x r h = elim (Bool-cases (same_ref o.ref x)) [
  | inl e ↦
      let eq = some_inj (rw e at (sym (lock_object-put x o rows) ∙ h)) in
      subst (Hangs (put_object o rows)) eq
        (owns, HasParent-kept o.ref o o rows refl fresh parent, depth)
  | inr e ↦
      let old = tree x r (rw e at (sym (lock_object-put x o rows) ∙ h)) in
      (old.0, HasParent-kept o.ref o r rows refl fresh old.1, old.2)
]
