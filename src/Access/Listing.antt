-- ===== src/Access/Listing.antt =====
-- The list path: `KeysFor` collects what a user holds, `FilterReadable` keeps the objects that one of
-- these keys opens. The keys are a set: their order, and `dedupeSorted`, are left out.
use super_ops.Base.{Bool, true, false, ◌&&◌, ◌||◌, List, [], ◌∷◌, ◌++◌, none, some, if◌then◌else◌}
use super_ops.Base.Bytes.{str_eq}
use super_ops.Base.Fallible.{Result, ok, ◌>>◌, guard}
use super_ops.Access.{
  Bytes, ObjectRef, same_ref, ObjectRow, SubjectRef, Key, KeyRow, ChannelRow, Acl, subject_key,
  folder, container_key,
}
use super_ops.Access.View.{key}
use super_ops.Access.Tree.{AccessError, unsupported_subject}
use super_ops.Access.Keys.{holds}
use super_ops.Access.Decide.{is_user, is_workspace_member, channel_role}

-- Whether the stored keys of an object and the keys held have one in common.
unfoldable pub opens : List Key → ObjectRef → List KeyRow → Bool
unfolding holds
opens held ref [] = false
opens held ref (k ∷ ks) = (same_ref k.object ref && holds k.key held) || opens held ref ks

-- `readableChannelIDs`, of a member of the workspace: as the keys of those channels.
abbrev pub in_channel : Bytes → ChannelRow → Bool
in_channel id c = elim (channel_role id c.members) [ none ↦ false | some r ↦ true ]

unfoldable pub channel_keys_for : Bytes → Bytes → List ChannelRow → List Key
unfolding channel_role str_eq
channel_keys_for ws id [] = []
channel_keys_for ws id (c ∷ cs) =
    let rest = channel_keys_for ws id cs in
    if str_eq c.workspace_id ws && (c.is_public || in_channel id c)
    then key b'c' c.id ∷ rest
    else rest

-- `nativeContainerKeys`: the keys of the folders that the identity keys open.
unfoldable pub native_container_keys : Bytes → List Key → List KeyRow → List ObjectRow → List Key
unfolding opens container_key str_eq
native_container_keys ws held keys [] = []
native_container_keys ws held keys (o ∷ os) =
    let rest = native_container_keys ws held keys os in
    if opens held o.ref keys && (str_eq o.workspace_id ws && str_eq o.ref.kind folder)
    then key b'f' o.ref.id ∷ rest
    else rest

abbrev pub identity_keys : SubjectRef → Bytes → List ChannelRow → List Key
identity_keys sub ws channels = key b'w' ws ∷ subject_key sub ∷ channel_keys_for ws sub.id channels

abbrev pub keys_of_member : SubjectRef → Bytes → Acl → List Key
keys_of_member sub ws a =
    let identity = identity_keys sub ws a.channels in
    identity ++ native_container_keys ws identity a.keys a.objects

-- `KeysFor`.
unfoldable pub keys_for : SubjectRef → Bytes → Acl → Result AccessError (List Key)
unfolding channel_keys_for native_container_keys
keys_for sub ws a = do
  guard (is_user sub.kind) unsupported_subject
  ok (if is_workspace_member ws sub.id a.members then keys_of_member sub ws a else [])

-- `FilterReadable`.
unfoldable pub filter_readable : List Key → Bytes → List Bytes → Acl → List Bytes
unfolding opens
filter_readable held kind [] a = []
filter_readable held kind (id ∷ ids) a =
    let rest = filter_readable held kind ids a in
    if opens held (record { kind = kind; id = id }) a.keys then id ∷ rest else rest
