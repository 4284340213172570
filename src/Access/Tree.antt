-- ===== src/Access/Tree.antt =====
-- checker.go, the transactions that change the tree of objects: `registerIn`, `MoveInTx`, `MoveTx`,
-- `UnregisterTx`, `grantIn` and `revokeIn`, each with the rewrite of the access keys.
use super_ops.Base.{
  ℕ, ◌+◌, Bool, false, ◌&&◌, not, List, [], ◌∷◌, ◌++◌, Option, none, some, map, leb, max, length,
  if◌then◌else◌,
}
use super_ops.Base.Bytes.{str_eq}
use super_ops.Access.View.{is_derived, expected_object, expected_keys}
use super_ops.Base.Fallible.{Result, ok, err, ◌>>=◌, ◌>>◌, guard}
use super_ops.Access.{
  ObjectRef, same_ref, ObjectPath, max_path_depth, build_path, has_prefix_path, below, ObjectRow,
  SubjectRef, same_subject, GrantRow, KeyRow, Key, Acl, lock_object,
}

pub data AccessError : Type 0 where
  derived_type own_parent not_registered too_deep move_cycle cross_workspace : AccessError
  not_storable native_type unsupported_subject : AccessError

-- The row of the object goes in, or replaces the row that it has (ON CONFLICT DO UPDATE).
unfoldable pub put_object : ObjectRow → List ObjectRow → List ObjectRow
put_object o [] = o ∷ []
put_object o (r ∷ rs) =
    let rest = put_object o rs in if same_ref r.ref o.ref then o ∷ rs else r ∷ rest

-- The UPDATE of `MoveInTx`: every path under `from` goes under `to`.
abbrev pub move_path : ObjectPath → ObjectPath → ObjectRow → ObjectRow
move_path from to r =
    if has_prefix_path r.path from then record r { path = to ++ below from r.path } else r

abbrev pub move_subtree : ObjectPath → ObjectPath → List ObjectRow → List ObjectRow
move_subtree from to rs = map (move_path from to) rs

-- `MAX` of the depths under a path, 0 where nothing is.
unfoldable pub deepest : ObjectPath → List ObjectRow → ℕ
deepest prefix [] = 0
deepest prefix (r ∷ rs) =
    let rest = deepest prefix rs in
    if has_prefix_path r.path prefix then max (length r.path) rest else rest

unfoldable pub put_grant : GrantRow → List GrantRow → List GrantRow
put_grant g [] = g ∷ []
put_grant g (h ∷ hs) =
    let rest = put_grant g hs in
    if same_ref h.object g.object && same_subject h.subject g.subject then g ∷ hs else h ∷ rest

unfoldable pub delete_grant : ObjectRef → SubjectRef → List GrantRow → List GrantRow
delete_grant ref sub [] = []
delete_grant ref sub (h ∷ hs) =
    let rest = delete_grant ref sub hs in
    if same_ref h.object ref && same_subject h.subject sub then rest else h ∷ rest

-- Whether a row of acl_key belongs to an object at or under a path.
abbrev pub is_row_under : ObjectPath → Option ObjectRow → Bool
is_row_under prefix none = false
is_row_under prefix (some r) = has_prefix_path r.path prefix

abbrev pub is_under : ObjectPath → List ObjectRow → ObjectRef → Bool
is_under prefix objects ref = is_row_under prefix (lock_object ref objects)

unfoldable pub clear_keys : ObjectPath → List ObjectRow → List KeyRow → List KeyRow
unfolding lock_object has_prefix_path
clear_keys prefix objects [] = []
clear_keys prefix objects (k ∷ ks) =
    let rest = clear_keys prefix objects ks in
    if is_under prefix objects k.object then rest else k ∷ rest

abbrev pub key_row : ObjectRef → Key → KeyRow
key_row ref k = record { object = ref; key = k }

-- The expected keys of every object under the path.
unfoldable pub fresh_keys : ObjectPath → Acl → List ObjectRow → List KeyRow
unfolding expected_keys
fresh_keys prefix a [] = []
fresh_keys prefix a (r ∷ rs) =
    let rest = fresh_keys prefix a rs in
    if has_prefix_path r.path prefix then map (key_row r.ref) (expected_keys a r) ++ rest else rest

-- `rewriteSubtreeKeys`.
unfoldable pub rewrite_subtree_keys : ObjectPath → Acl → Acl
unfolding clear_keys fresh_keys
rewrite_subtree_keys prefix a = record a {
  keys = fresh_keys prefix a a.objects ++ clear_keys prefix a.objects a.keys;
}

unfoldable pub drop_keys : ObjectRef → List KeyRow → List KeyRow
drop_keys ref [] = []
drop_keys ref (k ∷ ks) =
    let rest = drop_keys ref ks in if same_ref k.object ref then rest else k ∷ rest

-- `materializeDerived`: the row that acl_object_expected has, if any, within the depth that the table
-- allows, and then the expected keys of the row.
abbrev pub put_expected : Option ObjectRow → Acl → Result AccessError Acl
put_expected none a = ok a
put_expected (some row) a = do
  guard (leb (length row.path) max_path_depth) too_deep
  ok (record a { objects = put_object row a.objects })

abbrev pub keys_of_row : Option ObjectRow → Acl → List KeyRow
keys_of_row none a = []
keys_of_row (some r) a = map (key_row r.ref) (expected_keys a r)

abbrev pub reconcile_keys : ObjectRef → Acl → Acl
reconcile_keys ref a = record a {
  keys = keys_of_row (lock_object ref a.objects) a ++ drop_keys ref a.keys;
}

unfoldable pub materialize_derived : ObjectRef → Acl → Result AccessError Acl
unfolding expected_object put_object drop_keys lock_object expected_keys
materialize_derived ref a = do b ← put_expected (expected_object ref a) a; ok (reconcile_keys ref b)

-- `MaterializeTx`.
abbrev pub materialize_tx : ObjectRef → Acl → Result AccessError Acl
materialize_tx ref a = do guard (is_derived ref.kind) native_type; materialize_derived ref a

-- The parent's row, made from the view where it should be there and is not.
abbrev pub with_row : Option ObjectRow → ObjectRef → Acl → Result AccessError Acl
with_row (some p) parent a = ok a
with_row none parent a = if is_derived parent.kind then materialize_derived parent a else ok a

unfoldable pub with_parent : ObjectRef → Acl → Result AccessError Acl
unfolding lock_object is_derived materialize_derived
with_parent parent a = with_row (lock_object parent a.objects) parent a

-- `registerIn`, once the parent's row is read.
unfoldable pub register_under : Option ObjectRow → ObjectRef → Acl → Result AccessError Acl
unfolding put_object rewrite_subtree_keys
register_under none ref a = err not_registered
register_under (some p) ref a = do
  let path = build_path p.path ref
  let row : ObjectRow = record { ref = ref; workspace_id = p.workspace_id; path = path }
  guard (leb (length path) max_path_depth) too_deep
  ok (rewrite_subtree_keys path (record a { objects = put_object row a.objects }))

abbrev pub register_in : ObjectRef → ObjectRef → Acl → Result AccessError Acl
register_in ref parent a = do
  b ← with_parent parent a
  register_under (lock_object parent b.objects) ref b

-- `RegisterTx`, and `MoveTx`, which is the same but for one test.
unfoldable pub register_tx : ObjectRef → ObjectRef → Acl → Result AccessError Acl
unfolding is_derived with_parent lock_object register_under
register_tx ref parent a = do
  guard (not (is_derived ref.kind)) derived_type
  guard (not (same_ref parent ref)) own_parent
  register_in ref parent a

unfoldable pub move_tx : ObjectRef → ObjectRef → Acl → Result AccessError Acl
unfolding is_derived with_parent lock_object register_under
move_tx ref parent a = do guard (not (is_derived ref.kind)) derived_type; register_in ref parent a

-- The move of a row under another, both locked.
unfoldable pub move_rows : ObjectRow → ObjectRow → Acl → Result AccessError Acl
unfolding deepest rewrite_subtree_keys
move_rows src dst a = do
  guard (str_eq src.workspace_id dst.workspace_id) cross_workspace
  guard (not (has_prefix_path dst.path src.path)) move_cycle
  let path = build_path dst.path src.ref
  guard (leb (deepest src.path a.objects + length path) (max_path_depth + length src.path)) too_deep
  ok (rewrite_subtree_keys path (record a { objects = move_subtree src.path path a.objects }))

unfoldable pub move_locked : Option ObjectRow → Option ObjectRow → Acl → Result AccessError Acl
unfolding move_rows
move_locked none dst a = err not_registered
move_locked (some src) none a = err not_registered
move_locked (some src) (some dst) a = move_rows src dst a

unfoldable pub move_in_tx : ObjectRef → ObjectRef → Acl → Result AccessError Acl
unfolding is_derived lock_object move_locked
move_in_tx ref parent a = do
  guard (not (is_derived ref.kind)) derived_type
  guard (not (same_ref ref parent)) move_cycle
  move_locked (lock_object ref a.objects) (lock_object parent a.objects) a

unfoldable pub grant_locked : Option ObjectRow → SubjectRef → ℕ → Acl → Result AccessError Acl
unfolding put_grant rewrite_subtree_keys
grant_locked none sub capability a = err not_registered
grant_locked (some r) sub capability a =
    let grant : GrantRow = record { object = r.ref; subject = sub; capability = capability } in
    ok (rewrite_subtree_keys r.path (record a { grants = put_grant grant a.grants }))

-- `grantIn`, behind `storable`: none and what is above the ladder cannot be stored.
unfoldable pub grant_tx : ObjectRef → SubjectRef → ℕ → Acl → Result AccessError Acl
unfolding lock_object grant_locked
grant_tx ref sub capability a = do
  guard (leb 1 capability && leb capability 5) not_storable
  grant_locked (lock_object ref a.objects) sub capability a

-- `revokeIn`: an object without a row has nothing to revoke.
unfoldable pub revoke_locked : Option ObjectRow → SubjectRef → Acl → Acl
unfolding delete_grant rewrite_subtree_keys
revoke_locked none sub a = a
revoke_locked (some r) sub a =
    rewrite_subtree_keys r.path (record a { grants = delete_grant r.ref sub a.grants })

abbrev pub revoke_tx : ObjectRef → SubjectRef → Acl → Acl
revoke_tx ref sub a = revoke_locked (lock_object ref a.objects) sub a

-- `UnregisterTx`: the grants and the keys of the object go with its row (ON DELETE CASCADE).
unfoldable pub delete_object : ObjectRef → List ObjectRow → List ObjectRow
delete_object ref [] = []
delete_object ref (r ∷ rs) =
    let rest = delete_object ref rs in if same_ref r.ref ref then rest else r ∷ rest

unfoldable pub delete_grants : ObjectRef → List GrantRow → List GrantRow
delete_grants ref [] = []
delete_grants ref (g ∷ gs) =
    let rest = delete_grants ref gs in if same_ref g.object ref then rest else g ∷ rest

unfoldable pub unregister_tx : ObjectRef → Acl → Result AccessError Acl
unfolding is_derived delete_object delete_grants drop_keys
unregister_tx ref a = do
  guard (not (is_derived ref.kind)) derived_type
  ok (record a {
    objects = delete_object ref a.objects;
    grants = delete_grants ref a.grants;
    keys = drop_keys ref a.keys;
  })
