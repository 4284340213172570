-- ===== src/Access/Transactions.antt =====
-- What the transactions of the checker keep: the tree, and the keys in step with it.
use super_ops.Base.{
  ℕ, ◌+◌, ◌≡◌, refl, ◌∙◌, ap, false, ◌&&◌, not, List, Option, none, some, leb, leb→le, length,
  arith,
}
use super_ops.Base.Bytes.{str_eq, str_eq→eq}
use super_ops.Base.Fallible.{ok, Yields, guard-Yields, Yields-ok}
use super_ops.Access.{
  ObjectRef, same_ref, max_path_depth, build_path, has_prefix_path, SubjectRef, ObjectRow, Acl,
  lock_object,
}
use super_ops.Access.Rows.{lock_object-ref}
use super_ops.Access.View.{is_derived}
use super_ops.Access.Tree.{
  derived_type, own_parent, too_deep, not_storable, move_cycle, cross_workspace, deepest,
  move_subtree, register_under, with_parent, register_tx, move_tx, put_object, rewrite_subtree_keys,
  move_rows, move_locked, move_in_tx, grant_locked, grant_tx, revoke_locked, revoke_tx,
}
use super_ops.Access.WellFormed.{IsTree, lock_object-put}
use super_ops.Access.Registered.{register_tx-IsTree}
use super_ops.Access.Moved.{move_subtree-IsTree}
use super_ops.Access.Sync.{
  IsSynced, grant_tx-IsSynced, revoke_tx-IsSynced, register_under-IsSynced, move_rows-IsSynced,
}

-- A row is the row of its own reference.
own_row :
    (ref : ObjectRef) (rows : List ObjectRow) (r : ObjectRow)
    → lock_object ref rows ≡ some r
    → lock_object r.ref rows ≡ some r
own_row ref rows r h = ap (λ x. lock_object x rows) (lock_object-ref ref rows r h) ∙ h

move_locked-IsTree :
    (src dst : Option ObjectRow) (ref parent : ObjectRef) (a : Acl)
    → lock_object ref a.objects ≡ src
    → lock_object parent a.objects ≡ dst
    → IsTree a.objects
    → Yields (λ b. IsTree b.objects) (move_locked src dst a)
unfolding move_locked move_rows rewrite_subtree_keys
move_locked-IsTree none dst ref parent a src_found dst_found tree = tt
move_locked-IsTree (some src) none ref parent a src_found dst_found tree = tt
move_locked-IsTree (some src) (some dst) ref parent a src_found dst_found tree =
    guard-Yields (λ b. IsTree b.objects) (str_eq src.workspace_id dst.workspace_id) cross_workspace
      _
      (λ one.
        guard-Yields (λ b. IsTree b.objects) (not (has_prefix_path dst.path src.path)) move_cycle _
          (λ acyclic.
            let to = build_path dst.path src.ref in
            guard-Yields (λ b. IsTree b.objects)
              (leb (deepest src.path a.objects + length to) (max_path_depth + length src.path))
              too_deep
              (ok (
                rewrite_subtree_keys to
                  (record a { objects = move_subtree src.path to a.objects })))
              (λ fits.
                move_subtree-IsTree src dst a.objects tree (own_row ref a.objects src src_found)
                  (own_row parent a.objects dst dst_found)
                  (str_eq→eq src.workspace_id dst.workspace_id one) (ground (arith, acyclic))
                  (leb→le _ _ fits))))

-- Moving an object, with its subtree, keeps the objects a tree.
pub move_in_tx-IsTree :
    (ref parent : ObjectRef) (a : Acl)
    → IsTree a.objects
    → Yields (λ b. IsTree b.objects) (move_in_tx ref parent a)
unfolding move_in_tx
move_in_tx-IsTree ref parent a tree =
    guard-Yields _ (not (is_derived ref.kind)) derived_type _ (λ native.
      guard-Yields _ (not (same_ref ref parent)) move_cycle _
        (λ other. move_locked-IsTree _ _ ref parent a refl refl tree))

move_locked-IsSynced :
    (src dst : Option ObjectRow) (a : Acl) → IsSynced a → Yields IsSynced (move_locked src dst a)
unfolding move_locked
move_locked-IsSynced none dst a synced = tt
move_locked-IsSynced (some src) none a synced = tt
move_locked-IsSynced (some src) (some dst) a synced = move_rows-IsSynced src dst a synced

pub move_in_tx-IsSynced :
    (ref parent : ObjectRef) (a : Acl) → IsSynced a → Yields IsSynced (move_in_tx ref parent a)
unfolding move_in_tx
move_in_tx-IsSynced ref parent a synced =
    guard-Yields _ (not (is_derived ref.kind)) derived_type _ (λ native.
      guard-Yields _ (not (same_ref ref parent)) move_cycle _ (λ other.
        move_locked-IsSynced (lock_object ref a.objects) (lock_object parent a.objects) a synced))

pub register_tx-IsSynced :
    (ref parent : ObjectRef) (p : ObjectRow) (a : Acl)
    → lock_object ref a.objects ≡ none
    → lock_object parent a.objects ≡ some p
    → IsSynced a
    → Yields IsSynced (register_tx ref parent a)
unfolding register_tx with_parent
register_tx-IsSynced ref parent p a fresh found synced =
    guard-Yields _ (not (is_derived ref.kind)) derived_type _ (λ native.
      guard-Yields _ (not (same_ref parent ref)) own_parent _ (λ other.
        rw (found, Yields)
          (register_under-IsSynced (lock_object parent a.objects) ref a fresh synced)))

-- A grant leaves the objects alone, and so does its revocation.
grant_locked-IsTree :
    (row : Option ObjectRow) (sub : SubjectRef) (capability : ℕ) (a : Acl)
    → IsTree a.objects
    → Yields (λ b. IsTree b.objects) (grant_locked row sub capability a)
unfolding grant_locked rewrite_subtree_keys
grant_locked-IsTree none sub capability a tree = tt
grant_locked-IsTree (some r) sub capability a tree = tree

grant_tx-IsTree :
    (ref : ObjectRef) (sub : SubjectRef) (capability : ℕ) (a : Acl)
    → IsTree a.objects
    → Yields (λ b. IsTree b.objects) (grant_tx ref sub capability a)
unfolding grant_tx
grant_tx-IsTree ref sub capability a tree =
    guard-Yields _ (leb 1 capability && leb capability 5) not_storable _
      (λ storable. grant_locked-IsTree (lock_object ref a.objects) sub capability a tree)

revoke_locked-IsTree :
    (row : Option ObjectRow) (sub : SubjectRef) (a : Acl)
    → IsTree a.objects
    → IsTree (revoke_locked row sub a).objects
unfolding revoke_locked rewrite_subtree_keys
revoke_locked-IsTree none sub a tree = tree
revoke_locked-IsTree (some r) sub a tree = tree

-- One transaction that commits.
pub data AclStep : Acl → Acl → Type 0 where
  registered :
      (ref parent : ObjectRef) (p : ObjectRow) (a b : Acl)
      → lock_object ref a.objects ≡ none
      → lock_object parent a.objects ≡ some p
      → register_tx ref parent a ≡ ok b
      → AclStep a b
  relocated : (ref parent : ObjectRef) (a b : Acl) → move_in_tx ref parent a ≡ ok b → AclStep a b
  granted :
      (ref : ObjectRef) (sub : SubjectRef) (capability : ℕ) (a b : Acl)
      → grant_tx ref sub capability a ≡ ok b
      → AclStep a b
  revoked : (ref : ObjectRef) (sub : SubjectRef) (a : Acl) → AclStep a (revoke_tx ref sub a)

pub data AclSteps : Acl → Acl → Type 0 where
  stay : (a : Acl) → AclSteps a a
  then_step : (a b c : Acl) → AclSteps a b → AclStep b c → AclSteps a c

-- A tree, with the keys in step with it.
abbrev pub IsSound : Acl → Type 0
IsSound a = IsTree a.objects × IsSynced a

step-IsSound : {a b : Acl} → AclStep a b → IsSound a → IsSound b
step-IsSound (registered ref parent p a b fresh found done) (tree, synced) = (
  Yields-ok _ _ b (register_tx-IsTree ref parent a tree fresh) done,
  Yields-ok _ _ b (register_tx-IsSynced ref parent p a fresh found synced) done,
)
step-IsSound (relocated ref parent a b done) (tree, synced) = (
  Yields-ok _ _ b (move_in_tx-IsTree ref parent a tree) done,
  Yields-ok _ _ b (move_in_tx-IsSynced ref parent a synced) done,
)
step-IsSound (granted ref sub capability a b done) (tree, synced) = (
  Yields-ok _ _ b (grant_tx-IsTree ref sub capability a tree) done,
  Yields-ok _ _ b (grant_tx-IsSynced ref sub capability a synced) done,
)
step-IsSound (revoked ref sub a) (tree, synced) = (
  revoke_locked-IsTree (lock_object ref a.objects) sub a tree,
  revoke_tx-IsSynced ref sub a synced,
)

-- Every sequence of committed transactions, each a registration of a new object under a row that is
-- there, a move, a grant or a revocation, leads from a sound state of the tables to a sound one.
pub steps-IsSound : {a b : Acl} → AclSteps a b → IsSound a → IsSound b
steps-IsSound (stay a) sound = sound
steps-IsSound (then_step a b c steps step) sound = step-IsSound step (steps-IsSound steps sound)

register_under-others :
    (parent : Option ObjectRow) (ref x : ObjectRef) (a : Acl)
    → same_ref ref x ≡ false
    → Yields (λ b. lock_object x b.objects ≡ lock_object x a.objects) (register_under parent ref a)
unfolding register_under rewrite_subtree_keys
register_under-others none ref x a other = tt
register_under-others (some p) ref x a other =
    let path = build_path p.path ref in
    let row : ObjectRow = record { ref = ref; workspace_id = p.workspace_id; path = path } in
    guard-Yields (λ b. lock_object x b.objects ≡ lock_object x a.objects)
      (leb (length path) max_path_depth) too_deep
      (ok (rewrite_subtree_keys path (record a { objects = put_object row a.objects })))
      (λ fits. lock_object-put x row a.objects ∙ rw other refl)

-- Whatever `MoveTx` does to an object whose new parent has a row, every other object keeps its row: what
-- was under the object keeps the path that it had.
pub move_tx-others :
    (ref parent x : ObjectRef) (p : ObjectRow) (a b : Acl)
    → lock_object parent a.objects ≡ some p
    → same_ref ref x ≡ false
    → move_tx ref parent a ≡ ok b
    → lock_object x b.objects ≡ lock_object x a.objects
unfolding move_tx with_parent
move_tx-others ref parent x p a b found other done =
    Yields-ok (λ b. lock_object x b.objects ≡ lock_object x a.objects) (move_tx ref parent a) b
      (guard-Yields _ (not (is_derived ref.kind)) derived_type _ (λ native.
        rw (found, Yields) (register_under-others (lock_object parent a.objects) ref x a other)))
      done
