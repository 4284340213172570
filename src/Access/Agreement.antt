-- ===== src/Access/Agreement.antt =====
-- The list path and the decision path agree on the objects that the access layer owns.
use super_ops.Base.{
  ◌≡◌, ◌≤◌, refl, sym, ◌∙◌, ap, subst, Bool, true, false, ◌&&◌, List, [], ◌∷◌, ◌++◌, some,
  if◌then◌else◌, arith, inl, inr, All,
}
use super_ops.Base.Bytes.{str_eq}
use super_ops.Access.{Bytes, cap_read, ObjectRef, ObjectRow, Acl, Key, lock_object}
use super_ops.Access.Rows.{lock_object-ref}
use super_ops.Access.View.{reaches, is_derived}
use super_ops.Access.WellFormed.{IsTree}
use super_ops.Access.Keys.{holds, InSync}
use super_ops.Access.Decide.{can, is_workspace_member}
use super_ops.Access.Listing.{opens, native_container_keys, identity_keys, keys_of_member}
use super_ops.Access.Opening.{either, same_key_refl, holds-append, opens→key, key→opens}
use super_ops.Access.Granted.{some_grant, iff_bool}
use super_ops.Base.Fallible.{ok, ok_inj}
use super_ops.Access.Listing.{keys_for, filter_readable}
use super_ops.Access.Decided.{
  InWorkspace, NoChannelParents, user_ref, is_mine, capability_native, granted_mine,
}
use super_ops.Access.Held.{ws_key, me_key}
use super_ops.Access.Listed.{mine_at, mine_has_key, identity_mine, folder_mine}

-- The tables as the transactions leave them and their checks keep them, but for the parents: that an
-- object of the access layer is not directly in a channel is kept by no check.
abbrev pub IsConsistent : Acl → Type 0
IsConsistent a =
    IsTree a.objects
    × InSync a
    × InWorkspace a.objects
    × NoChannelParents a.objects
    × All (λ g. 1 ≤ g.capability) a.grants

-- An object with a row in the workspace.
abbrev pub IsIn : Acl → Bytes → ObjectRef → Type 0
IsIn a ws ref = (r : ObjectRow) × (lock_object ref a.objects ≡ some r) × (r.workspace_id ≡ ws)

abbrev pub keep : (Bytes → Bool) → List Bytes → List Bytes
keep test [] = []
keep test (id ∷ ids) = let rest = keep test ids in if test id then id ∷ rest else rest

held_ws :
    (ws id : Bytes) (rest : List Key) → holds (ws_key ws) (ws_key ws ∷ me_key id ∷ rest) ≡ true
unfolding holds
held_ws ws id rest = rw (same_key_refl (ws_key ws)) refl

held_me :
    (ws id : Bytes) (rest : List Key) → holds (me_key id) (ws_key ws ∷ me_key id ∷ rest) ≡ true
unfolding holds
held_me ws id rest = let e = same_key_refl (me_key id) in ground (arith, e)

-- The keys that a member holds open an object when a grant on it or above it is the member's.
listed_mine :
    (a : Acl) (ws id : Bytes) (o : ObjectRow)
    → IsConsistent a
    → is_derived o.ref.kind ≡ false
    → lock_object o.ref a.objects ≡ some o
    → opens (keys_of_member (user_ref id) ws a) o.ref a.keys
      ≡ some_grant (λ g. reaches a.objects g o && is_mine ws id g) a.grants
listed_mine a ws id o (tree, sync, rooted, apart, stored) native found =
    let identity = identity_keys (user_ref id) ws a.channels in
    let more = native_container_keys ws identity a.keys a.objects in
    iff_bool (opens (identity ++ more) o.ref a.keys) (mine_at a sync apart ws id o)
      (λ h.
        let (k, held, own) = opens→key (identity ++ more) o.ref a.keys h in
        elim (either (holds k identity) (holds k more)
          (sym (holds-append k identity more) ∙ held)) [
            | inl e ↦
                identity_mine a sync apart ws id o native found
                  (key→opens identity o.ref k a.keys e own)
            | inr e ↦ folder_mine a sync apart ws id o k tree native found e own
          ])
      (λ h. elim (mine_has_key a sync apart ws id o native found h) [
        | inl e ↦ key→opens (identity ++ more) o.ref (ws_key ws) a.keys (held_ws ws id _) e
        | inr e ↦ key→opens (identity ++ more) o.ref (me_key id) a.keys (held_me ws id _) e
      ])

-- One object: the keys open it when the user may read it.
opens-can :
    (a : Acl) (ws id : Bytes) (ref : ObjectRef)
    → IsConsistent a
    → is_derived ref.kind ≡ false
    → IsIn a ws ref
    → str_eq ws [] ≡ false
    → is_workspace_member ws id a.members ≡ true
    → opens (keys_of_member (user_ref id) ws a) ref a.keys ≡ can (user_ref id) ref cap_read a
opens-can a ws id ref consistent native (r, found, there) named in_it =
    let same = lock_object-ref ref a.objects r found in
    let own = ap (λ x. lock_object x a.objects) same ∙ found in
    let kind = ap (λ x. is_derived x.kind) same ∙ native in
    let (tree, sync, rooted, apart, stored) = consistent in
    let member_of = ap (λ w. is_workspace_member w id a.members) there ∙ in_it in
    let name = ap (λ w. str_eq w []) there ∙ named in
    let listed = listed_mine a ws id r consistent kind own in
    let decided =
      capability_native (user_ref id) a r kind refl own
      ∙ granted_mine a tree rooted r own id member_of stored name in
    let alike =
      ap (λ w. some_grant (λ g. reaches a.objects g r && is_mine w id g) a.grants) there in
    let both_at = listed ∙ sym (decided ∙ alike) in
    subst (λ x. opens (keys_of_member (user_ref id) ws a) x a.keys ≡ can (user_ref id) x cap_read a)
      same both_at

filter_readable_member :
    (a : Acl) (ws id kind : Bytes) (ids : List Bytes)
    → IsConsistent a
    → is_derived kind ≡ false
    → str_eq ws [] ≡ false
    → is_workspace_member ws id a.members ≡ true
    → All (λ i. IsIn a ws (record { kind = kind; id = i })) ids
    → filter_readable (keys_of_member (user_ref id) ws a) kind ids a
      ≡ keep (λ i. can (user_ref id) (record { kind = kind; id = i }) cap_read a) ids
unfolding filter_readable
filter_readable_member a ws id kind [] consistent native named in_it there = refl
filter_readable_member a ws id kind (i ∷ ids) consistent native named in_it (first, rest) =
    let e =
      opens-can a ws id (record { kind = kind; id = i }) consistent native first named in_it in
    let later = filter_readable_member a ws id kind ids consistent native named in_it rest in
    ground (arith, e, later)

-- In a consistent state in which no object of the access layer is directly in a channel, the objects that `FilterReadable` keeps for the keys that `KeysFor` gives a
-- member of the workspace are those that `Can` lets the user read, for objects of the workspace of a
-- type that the access layer owns.
pub keys_for-filter_readable :
    (a : Acl) (ws id kind : Bytes) (ids : List Bytes) (held : List Key)
    → IsConsistent a
    → is_derived kind ≡ false
    → str_eq ws [] ≡ false
    → is_workspace_member ws id a.members ≡ true
    → All (λ i. IsIn a ws (record { kind = kind; id = i })) ids
    → keys_for (user_ref id) ws a ≡ ok held
    → filter_readable held kind ids a
      ≡ keep (λ i. can (user_ref id) (record { kind = kind; id = i }) cap_read a) ids
unfolding keys_for
keys_for-filter_readable a ws id kind ids held consistent native named in_it there h =
    let mine : keys_of_member (user_ref id) ws a ≡ held = ok_inj _ _ (rw in_it at h) in
    subst
      (λ l.
        filter_readable l kind ids a
        ≡ keep (λ i. can (user_ref id) (record { kind = kind; id = i }) cap_read a) ids)
      mine (filter_readable_member a ws id kind ids consistent native named in_it there)
