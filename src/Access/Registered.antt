-- ===== src/Access/Registered.antt =====
-- `registerIn`: a row that is registered, with the derived row of its parent, keeps the tree.
use super_ops.Base.{
  ◌≡◌, refl, sym, ◌∙◌, ap, subst, Bool, true, false, not, List, [], ◌∷◌, Option, none, some, leb,
  leb→le, length, if◌then◌else◌, arith, Bool-cases, inl, inr,
}
use super_ops.Base.Bytes.{str_eq}
use super_ops.Base.Fallible.{Yields, guard-Yields, bind-Yields}
use super_ops.Access.{
  ObjectRef, same_ref, max_path_depth, build_path, ObjectRow, ChannelRow, FileRow, Acl,
  workspace_type, channel, file, lock_object,
}
use super_ops.Access.Rows.{same_ref→eq, lock_object-ref}
use super_ops.Access.View.{
  is_derived, expected_object, expected_workspace, channel_object, file_object, workspace_ref,
  has_workspace,
}
use super_ops.Access.Tree.{
  derived_type, own_parent, too_deep, put_object, rewrite_subtree_keys, put_expected, with_parent,
  with_row, materialize_derived, register_under, register_tx,
}
use super_ops.Access.WellFormed.{OwnsPath, IsTree, lock_object-put, put_object-IsTree}

-- The view gives a row of the object that is asked for.
abbrev pub IsRowOf : ObjectRef → Option ObjectRow → Type 0
IsRowOf ref none = Unit
IsRowOf ref (some r) = (r.ref ≡ ref) × OwnsPath r

expected_workspace-IsRowOf : (ref : ObjectRef) (a : Acl) → IsRowOf ref (expected_workspace ref a)
unfolding expected_workspace
expected_workspace-IsRowOf ref a = elim (Bool-cases (has_workspace ref.id a.workspaces)) [
  | inl e ↦ rw e (refl, ([], refl))
  | inr e ↦ rw e tt
]

channel_object-IsRowOf :
    (ref : ObjectRef) (c : Option ChannelRow) → IsRowOf ref (channel_object ref c)
channel_object-IsRowOf ref none = tt
channel_object-IsRowOf ref (some c) = (refl, (workspace_ref c.workspace_id ∷ [], refl))

file_object-IsRowOf :
    (ref : ObjectRef) (a : Acl) (f : Option FileRow) → IsRowOf ref (file_object ref a f)
file_object-IsRowOf ref a none = tt
file_object-IsRowOf ref a (some f) = (refl, (_, refl))

if-IsRowOf :
    (ref : ObjectRef) (test : Bool) (x y : Option ObjectRow)
    → IsRowOf ref x
    → IsRowOf ref y
    → IsRowOf ref (if test then x else y)
if-IsRowOf ref true x y h k = h
if-IsRowOf ref false x y h k = k

expected_object-IsRowOf : (ref : ObjectRef) (a : Acl) → IsRowOf ref (expected_object ref a)
unfolding expected_object
expected_object-IsRowOf ref a =
    if-IsRowOf ref (str_eq ref.kind workspace_type) _ _ (expected_workspace-IsRowOf ref a) (
      if-IsRowOf ref (str_eq ref.kind channel) _ _ (channel_object-IsRowOf ref _)
        (if-IsRowOf ref (str_eq ref.kind file) _ none (file_object-IsRowOf ref a _) tt))

-- The tree, where an object has no row.
abbrev pub IsTreeWithout : ObjectRef → Acl → Type 0
IsTreeWithout ref a = IsTree a.objects × (lock_object ref a.objects ≡ none)

-- A derived row does not take the place of a native object.
still_without :
    (ref : ObjectRef) (o : ObjectRow) (rows : List ObjectRow)
    → is_derived ref.kind ≡ false
    → is_derived o.ref.kind ≡ true
    → lock_object ref rows ≡ none
    → lock_object ref (put_object o rows) ≡ none
still_without ref o rows native derived h = elim (Bool-cases (same_ref o.ref ref)) [
  | inl e ↦
      let same = ap (λ x. is_derived x.kind) (same_ref→eq o.ref ref e) in
      absurd (cc (same, native, derived))
  | inr e ↦ lock_object-put ref o rows ∙ rw e h
]

put_expected-IsTree :
    (row : Option ObjectRow) (parent ref : ObjectRef) (a : Acl)
    → IsRowOf parent row
    → is_derived parent.kind ≡ true
    → is_derived ref.kind ≡ false
    → lock_object parent a.objects ≡ none
    → IsTreeWithout ref a
    → Yields (IsTreeWithout ref) (put_expected row a)
put_expected-IsTree none parent ref a owns derived native fresh tree = tree
put_expected-IsTree (some r) parent ref a (same, owns) derived native fresh tree =
    let kind = subst (λ x. is_derived x.kind ≡ true) (sym same) derived in
    guard-Yields (IsTreeWithout ref) (leb (length r.path) max_path_depth) too_deep _ (λ depth. (
      put_object-IsTree r a.objects tree.0
          (subst (λ x. lock_object x a.objects ≡ none) (sym same) fresh) owns (inl kind)
          (leb→le _ _ depth),
      still_without ref r a.objects native kind tree.1,
    ))

materialize_derived-IsTree :
    (parent ref : ObjectRef) (a : Acl)
    → is_derived parent.kind ≡ true
    → is_derived ref.kind ≡ false
    → lock_object parent a.objects ≡ none
    → IsTreeWithout ref a
    → Yields (IsTreeWithout ref) (materialize_derived parent a)
unfolding materialize_derived
materialize_derived-IsTree parent ref a derived native fresh tree =
    bind-Yields (IsTreeWithout ref) (IsTreeWithout ref) (put_expected (expected_object parent a) a)
      _
      (put_expected-IsTree _ parent ref a (expected_object-IsRowOf parent a) derived native fresh
        tree)
      (λ b kept. kept)

with_row-IsTree :
    (row : Option ObjectRow) (parent ref : ObjectRef) (a : Acl)
    → is_derived ref.kind ≡ false
    → lock_object parent a.objects ≡ row
    → IsTreeWithout ref a
    → Yields (IsTreeWithout ref) (with_row row parent a)
with_row-IsTree (some p) parent ref a native found tree = tree
with_row-IsTree none parent ref a native found tree = elim (Bool-cases (is_derived parent.kind)) [
  | inl derived ↦
      rw (derived, Yields) (materialize_derived-IsTree parent ref a derived native found tree)
  | inr other ↦ rw (other, Yields) tree
]

register_under-IsTree :
    (parent : Option ObjectRow) (ref from : ObjectRef) (a : Acl)
    → IsTree a.objects
    → lock_object ref a.objects ≡ none
    → lock_object from a.objects ≡ parent
    → Yields (λ b. IsTree b.objects) (register_under parent ref a)
unfolding register_under rewrite_subtree_keys
register_under-IsTree none ref from a tree fresh found = tt
register_under-IsTree (some p) ref from a tree fresh found =
    guard-Yields (λ b. IsTree b.objects) (leb (length (build_path p.path ref)) max_path_depth)
      too_deep _
      (λ depth.
        put_object-IsTree
          (record { ref = ref; workspace_id = p.workspace_id; path = build_path p.path ref })
          a.objects tree fresh (_, refl)
          (inr (
            p,
            subst (λ x. lock_object x a.objects ≡ some p)
                (sym (lock_object-ref from a.objects p found)) found,
            refl,
            refl,
          ))
          (leb→le _ _ depth))

-- Registering an object that has no row keeps the objects a tree.
pub register_tx-IsTree :
    (ref parent : ObjectRef) (a : Acl)
    → IsTree a.objects
    → lock_object ref a.objects ≡ none
    → Yields (λ b. IsTree b.objects) (register_tx ref parent a)
unfolding register_tx with_parent
register_tx-IsTree ref parent a tree fresh =
    guard-Yields _ (not (is_derived ref.kind)) derived_type _ (λ native.
      guard-Yields _ (not (same_ref parent ref)) own_parent _ (λ other.
        bind-Yields (IsTreeWithout ref) (λ b. IsTree b.objects)
          (with_row (lock_object parent a.objects) parent a) _
          (with_row-IsTree _ parent ref a (ground (arith, native)) refl (tree, fresh))
          (λ b kept. register_under-IsTree _ ref parent b kept.0 kept.1 refl)))
