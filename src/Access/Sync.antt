-- ===== src/Access/Sync.antt =====
-- Every change of the grants and of the tree leaves the stored keys in step with the expected ones.
use super_ops.Base.{
  ℕ, ◌+◌, ◌≡◌, refl, sym, ◌∙◌, ap, subst, false, ◌&&◌, not, List, [], ◌∷◌, ◌++◌, Option, none, some,
  some_inj, leb, length, Bool-cases, inl, inr,
}
use super_ops.Base.Bytes.{str_eq}
use super_ops.Base.Fallible.{ok, Yields, guard-Yields}
use super_ops.Access.{
  ObjectRef, same_ref, ObjectPath, max_path_depth, build_path, has_prefix_path, below, SubjectRef,
  GrantRow, ObjectRow, Acl, lock_object,
}
use super_ops.Access.Rows.{
  same_ref→eq, same_ref_sym, lock_object-ref, has_prefix_path-append, has_prefix_path_refl,
}
use super_ops.Access.View.{expected_keys, table_keys, grant_keys, is_below}
use super_ops.Access.Tree.{
  too_deep, move_cycle, not_storable, cross_workspace, put_object, move_subtree, deepest,
  rewrite_subtree_keys, register_under, move_rows, grant_locked, grant_tx, revoke_locked, revoke_tx,
}
use super_ops.Access.WellFormed.{lock_object-put, lock_object-move, moved, move_path-ref}
use super_ops.Access.Moved.{move_path-in, move_path-out}
use super_ops.Access.Keys.{holds, IsKeyed, InSync, rewrite_subtree_keys-InSync}
use super_ops.Access.Reach.{
  put_grant_unreached, delete_grant_unreached, grant_keys-put, grant_keys-move,
}

-- The tables, as every change finds them and leaves them.
abbrev pub IsSynced : Acl → Type 0
IsSynced a = IsKeyed a.objects × InSync a

-- New grants for one object, when they change nothing for what is outside it.
regrant-IsSynced :
    (r : ObjectRow) (gs : List GrantRow) (a : Acl)
    → IsSynced a
    → ((o : ObjectRow)
        → has_prefix_path o.path r.path ≡ false
        → grant_keys a.objects gs o ≡ grant_keys a.objects a.grants o)
    → IsSynced (rewrite_subtree_keys r.path (record a { grants = gs }))
unfolding rewrite_subtree_keys expected_keys
regrant-IsSynced r gs a (keyed, sync) same = (
  keyed,
  rewrite_subtree_keys-InSync r.path (record a { grants = gs }) keyed
      (λ ref o k h out.
        sync ref o k h
        ∙ ap (λ l. holds k (table_keys a.channels a.files o ++ l)) (sym (same o out))),
)

grant_locked-IsSynced :
    (row : Option ObjectRow) (ref : ObjectRef) (sub : SubjectRef) (capability : ℕ) (a : Acl)
    → lock_object ref a.objects ≡ row
    → IsSynced a
    → Yields IsSynced (grant_locked row sub capability a)
unfolding grant_locked
grant_locked-IsSynced none ref sub capability a found synced = tt
grant_locked-IsSynced (some r) ref sub capability a found synced =
    let own = ap (λ x. lock_object x a.objects) (lock_object-ref ref a.objects r found) ∙ found in
    regrant-IsSynced r _ a synced
      (λ o out. put_grant_unreached a.objects _ a.grants o (ap (is_below o.path) own ∙ out))

pub grant_tx-IsSynced :
    (ref : ObjectRef) (sub : SubjectRef) (capability : ℕ) (a : Acl)
    → IsSynced a
    → Yields IsSynced (grant_tx ref sub capability a)
unfolding grant_tx
grant_tx-IsSynced ref sub capability a synced =
    guard-Yields IsSynced (leb 1 capability && leb capability 5) not_storable _
      (λ storable. grant_locked-IsSynced _ ref sub capability a refl synced)

revoke_locked-IsSynced :
    (row : Option ObjectRow) (ref : ObjectRef) (sub : SubjectRef) (a : Acl)
    → lock_object ref a.objects ≡ row
    → IsSynced a
    → IsSynced (revoke_locked row sub a)
unfolding revoke_locked
revoke_locked-IsSynced none ref sub a found synced = synced
revoke_locked-IsSynced (some r) ref sub a found synced =
    let own = ap (λ x. lock_object x a.objects) (lock_object-ref ref a.objects r found) ∙ found in
    regrant-IsSynced r _ a synced (λ o out.
      delete_grant_unreached a.objects r.ref sub a.grants o (ap (is_below o.path) own ∙ out))

pub revoke_tx-IsSynced :
    (ref : ObjectRef) (sub : SubjectRef) (a : Acl) → IsSynced a → IsSynced (revoke_tx ref sub a)
revoke_tx-IsSynced ref sub a synced = revoke_locked-IsSynced _ ref sub a refl synced

-- The objects stay a table.
put_object-IsKeyed :
    (o : ObjectRow) (rows : List ObjectRow) → IsKeyed rows → IsKeyed (put_object o rows)
unfolding put_object lock_object
put_object-IsKeyed o [] keyed = (refl, tt)
put_object-IsKeyed o (r ∷ rows) (fresh, keyed) = elim (Bool-cases (same_ref r.ref o.ref)) [
  | inl e ↦
      let there = subst (λ x. lock_object x rows ≡ none) (same_ref→eq r.ref o.ref e) fresh in
      rw (e, IsKeyed) (there, keyed)
  | inr e ↦
      rw (e, IsKeyed)
        (
          lock_object-put r.ref o rows ∙ rw (same_ref_sym r.ref o.ref e) fresh,
          put_object-IsKeyed o rows keyed,
        )
]

move_subtree-IsKeyed :
    (from to : ObjectPath) (rows : List ObjectRow)
    → IsKeyed rows
    → IsKeyed (move_subtree from to rows)
move_subtree-IsKeyed from to [] keyed = tt
move_subtree-IsKeyed from to (r ∷ rows) (fresh, keyed) = (
  ap (λ x. lock_object x (move_subtree from to rows)) (move_path-ref from to r)
      ∙ lock_object-move r.ref from to rows
      ∙ ap (moved from to) fresh,
  move_subtree-IsKeyed from to rows keyed,
)

-- A row outside the path that was written is a row that was there.
found_before_put :
    (x : ObjectRef) (row o : ObjectRow) (rows : List ObjectRow)
    → lock_object x (put_object row rows) ≡ some o
    → has_prefix_path o.path row.path ≡ false
    → lock_object x rows ≡ some o
found_before_put x row o rows h out = elim (Bool-cases (same_ref row.ref x)) [
  | inr e ↦ rw e at (sym (lock_object-put x row rows) ∙ h)
  | inl e ↦
      let same = some_inj (rw e at (sym (lock_object-put x row rows) ∙ h)) in
      let self = has_prefix_path_refl row.path in
      absurd (cc (ap (λ y. has_prefix_path y.path row.path) same, self, out))
]

moved_before :
    (from to : ObjectPath) (row : Option ObjectRow) (o : ObjectRow)
    → moved from to row ≡ some o
    → has_prefix_path o.path to ≡ false
    → (row ≡ some o) × (has_prefix_path o.path from ≡ false)
moved_before from to none o h out = absurd (cc h)
moved_before from to (some r) o h out = elim (Bool-cases (has_prefix_path r.path from)) [
  | inr e ↦
      let same = sym (move_path-out from to r e) ∙ some_inj h in
      (ap some same, ap (λ y. has_prefix_path y.path from) (sym same) ∙ e)
  | inl e ↦
      let same = sym (move_path-in from to r e) ∙ some_inj h in
      let self = has_prefix_path-append to (below from r.path) in
      absurd (cc (ap (λ y. has_prefix_path y.path to) same, self, out))
]

pub register_under-IsSynced :
    (parent : Option ObjectRow) (ref : ObjectRef) (a : Acl)
    → lock_object ref a.objects ≡ none
    → IsSynced a
    → Yields IsSynced (register_under parent ref a)
unfolding register_under rewrite_subtree_keys expected_keys
register_under-IsSynced none ref a fresh synced = tt
register_under-IsSynced (some p) ref a fresh (keyed, sync) =
    let row : ObjectRow = record {
      ref = ref;
      workspace_id = p.workspace_id;
      path = build_path p.path ref;
    } in
    let table = put_object-IsKeyed row a.objects keyed in
    guard-Yields IsSynced (leb (length row.path) max_path_depth) too_deep _ (λ depth. (
      table,
      rewrite_subtree_keys-InSync row.path (record a { objects = put_object row a.objects }) table
          (λ x o k h out.
            sync x o k (found_before_put x row o a.objects h out)
            ∙ ap (λ l. holds k (table_keys a.channels a.files o ++ l))
                (sym (grant_keys-put row o a.objects a.grants fresh out))),
    ))

pub move_rows-IsSynced :
    (src dst : ObjectRow) (a : Acl) → IsSynced a → Yields IsSynced (move_rows src dst a)
unfolding move_rows rewrite_subtree_keys expected_keys
move_rows-IsSynced src dst a (keyed, sync) =
    let to = build_path dst.path src.ref in
    let rows = move_subtree src.path to a.objects in
    let table = move_subtree-IsKeyed src.path to a.objects keyed in
    guard-Yields IsSynced (str_eq src.workspace_id dst.workspace_id) cross_workspace _ (λ one.
      guard-Yields IsSynced (not (has_prefix_path dst.path src.path)) move_cycle _ (λ acyclic.
        guard-Yields IsSynced
          (leb (deepest src.path a.objects + length to) (max_path_depth + length src.path)) too_deep
          (ok (rewrite_subtree_keys to (record a { objects = rows })))
          (λ fits. (
            table,
            rewrite_subtree_keys-InSync to (record a { objects = rows }) table
                (λ x o k h out.
                  let (was, away) =
                    moved_before src.path to (lock_object x a.objects) o
                      (sym (lock_object-move x src.path to a.objects) ∙ h) out in
                  sync x o k was
                  ∙ ap (λ l. holds k (table_keys a.channels a.files o ++ l))
                      (sym (grant_keys-move src.path to o a.objects a.grants away out))),
          ))))
