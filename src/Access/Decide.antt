-- ===== src/Access/Decide.antt =====
-- authz.go and checker.go, the questions: `Capability`, and the list path of `KeysFor` and
-- `FilterReadable`.
use super_ops.Base.{
  ℕ, Bool, true, false, ◌&&◌, ◌||◌, not, List, [], ◌∷◌, ◌++◌, Option, none, some, min, max, length,
  ltb, ◌==◌, if◌then◌else◌,
}
use super_ops.Base.Bytes.{str_eq}
use super_ops.Access.{
  Bytes, cap_none, cap_read, cap_write, cap_admin, implies, ObjectRef, same_ref, ObjectPath,
  max_path_depth, ObjectRow, SubjectKind, user, group, workspace, link, SubjectRef, same_subject,
  GrantRow, Role, owner, admin, member, guest, MemberRow, ChannelMember, ChannelRow, FileRow, Acl,
  workspace_type, channel, folder, file, conversation, lock_object,
}
use super_ops.Access.View.{
  find_channel, find_file, file_parent_path, owner_row, message_channel, workspace_ref,
}

-- `WorkspaceRole`: the role in a workspace, if the user is in it.
unfoldable pub workspace_role : Bytes → Bytes → List MemberRow → Option Role
unfolding str_eq
workspace_role ws id [] = none
workspace_role ws id (m ∷ ms) =
    let rest = workspace_role ws id ms in
    if str_eq m.workspace_id ws && str_eq m.user_id id then some m.role else rest

abbrev pub is_workspace_member : Bytes → Bytes → List MemberRow → Bool
is_workspace_member ws id ms = elim (workspace_role ws id ms) [ none ↦ false | some r ↦ true ]

abbrev pub role_capability : Option Role → ℕ
role_capability none = cap_none
role_capability (some owner) = cap_admin
role_capability (some admin) = cap_admin
role_capability (some member) = cap_write
role_capability (some guest) = cap_read

-- `workspaceCapability`.
abbrev pub workspace_capability : Bytes → Bytes → List MemberRow → ℕ
workspace_capability ws id ms = role_capability (workspace_role ws id ms)

-- `ChannelRole`, as whether the user is a member, and then whether an admin.
unfoldable pub channel_role : Bytes → List ChannelMember → Option Bool
unfolding str_eq
channel_role id [] = none
channel_role id (m ∷ ms) =
    let rest = channel_role id ms in if str_eq m.user_id id then some m.is_admin else rest

-- `channelCapability`.
abbrev pub channel_capability : ChannelRow → Bytes → Bytes → List MemberRow → ℕ
channel_capability c ws id ms = elim (channel_role id c.members) [
  | some is_admin ↦ if is_admin then cap_admin else cap_write
  | none ↦ if c.is_public && is_workspace_member ws id ms then cap_read else cap_none
]

-- `objectState`: the channel is the object's own, or that of a file's message.
pub record ObjectState : Type 0 where
  pub ref : ObjectRef
  pub workspace_id : Bytes
  pub path : ObjectPath
  pub in_channel : Option ChannelRow
  pub owner_id : Option Bytes

-- `resolve`, for each type.
abbrev pub channel_state : ObjectRef → Option ChannelRow → Option ObjectState
channel_state ref none = none
channel_state ref (some c) = some (record {
  ref = ref;
  workspace_id = c.workspace_id;
  in_channel = some c;
  owner_id = none;
  path = workspace_ref c.workspace_id ∷ ref ∷ [];
})

abbrev pub file_state : ObjectRef → Acl → Option FileRow → Option ObjectState
file_state ref a none = none
file_state ref a (some f) = some (record {
  ref = ref;
  workspace_id = f.workspace_id;
  in_channel = message_channel f a.channels;
  owner_id = some f.user_id;
  path =
      file_parent_path f.workspace_id (owner_row folder f.folder_id f a.objects)
        (owner_row conversation f.conversation_id f a.objects) (message_channel f a.channels)
      ++ ref ∷ [];
})

abbrev pub native_state : Option ObjectRow → Option ObjectState
native_state none = none
native_state (some r) = some (record {
  ref = r.ref;
  workspace_id = r.workspace_id;
  in_channel = none;
  owner_id = none;
  path = r.path;
})

unfoldable pub resolve : ObjectRef → Acl → Option ObjectState
unfolding str_eq find_channel find_file lock_object
resolve ref a =
    if str_eq ref.kind workspace_type
    then some (record {
      ref = ref;
      workspace_id = ref.id;
      in_channel = none;
      owner_id = none;
      path = ref ∷ [];
    })
    else if str_eq ref.kind channel
    then channel_state ref (find_channel ref.id a.channels)
    else if str_eq ref.kind file
    then file_state ref a (find_file ref.id a.files)
    else native_state (lock_object ref a.objects)

abbrev pub is_user : SubjectKind → Bool
is_user user = true
is_user group = false
is_user workspace = false
is_user link = false

abbrev pub is_workspace : SubjectKind → Bool
is_workspace user = false
is_workspace group = false
is_workspace workspace = true
is_workspace link = false

-- The channel's answer where there is a channel, else the owner's.
abbrev pub owned_capability : Option Bytes → Bytes → ℕ
owned_capability none id = cap_none
owned_capability (some o) id = if not (str_eq o []) && str_eq o id then cap_admin else cap_none

abbrev pub attached_capability : Option ChannelRow → ObjectState → Bytes → List MemberRow → ℕ
attached_capability none st id ms = owned_capability st.owner_id id
attached_capability (some c) st id ms = channel_capability c st.workspace_id id ms

-- `derivedCapability`: what the membership tables imply.
unfoldable pub derived_capability : SubjectRef → ObjectState → List MemberRow → ℕ
unfolding str_eq workspace_role channel_role
derived_capability sub st ms =
    if not (is_user sub.kind)
    then cap_none
    else if str_eq st.ref.kind workspace_type
    then workspace_capability st.workspace_id sub.id ms
    else attached_capability st.in_channel st sub.id ms

-- `ancestorPaths`: every prefix, itself included, or none of a path that is too long.
unfoldable pub prefixes : ObjectPath → ObjectPath → List ObjectPath
prefixes prefix [] = []
prefixes prefix (o ∷ os) = (prefix ++ o ∷ []) ∷ prefixes (prefix ++ o ∷ []) os

abbrev pub ancestor_paths : ObjectPath → List ObjectPath
ancestor_paths path = if ltb max_path_depth (length path) then [] else prefixes [] path

unfoldable pub same_path : ObjectPath → ObjectPath → Bool
same_path [] [] = true
same_path [] (q ∷ qs) = false
same_path (p ∷ ps) [] = false
same_path (p ∷ ps) (q ∷ qs) = same_ref p q && same_path ps qs

unfoldable pub has_path : ObjectPath → List ObjectPath → Bool
unfolding same_path
has_path p [] = false
has_path p (q ∷ qs) = same_path p q || has_path p qs

-- The condition of the query of `grantedCapability`, for a grant and the row of its object.
abbrev pub is_addressed : SubjectRef → List MemberRow → GrantRow → ObjectRow → Bool
is_addressed sub ms g r =
    same_subject g.subject sub
    || (is_user sub.kind
        && (is_workspace g.subject.kind
            && (str_eq g.subject.id r.workspace_id
                && is_workspace_member r.workspace_id sub.id ms)))

abbrev pub applies_at :
    SubjectRef → List ObjectPath → List MemberRow → GrantRow → Option ObjectRow → Bool
applies_at sub paths ms g none = false
applies_at sub paths ms g (some r) = has_path r.path paths && is_addressed sub ms g r

-- The highest capability of the grants that apply, of those to workspaces or of the others.
unfoldable pub best_of : Bool → SubjectRef → List ObjectPath → Acl → List GrantRow → ℕ
unfolding lock_object has_path workspace_role str_eq
best_of to_workspace sub paths a [] = cap_none
best_of to_workspace sub paths a (g ∷ gs) =
    let rest = best_of to_workspace sub paths a gs in
    let fits =
      if to_workspace then is_workspace g.subject.kind else not (is_workspace g.subject.kind) in
    if fits && applies_at sub paths a.members g (lock_object g.object a.objects)
    then max g.capability rest
    else rest

-- `grantedCapability`: a grant to the workspace counts for no more than the role in it.
unfoldable pub granted_capability : SubjectRef → ObjectState → Acl → ℕ
unfolding best_of prefixes workspace_role str_eq
granted_capability sub st a =
    let paths = ancestor_paths st.path in
    let best = best_of false sub paths a a.grants in
    let workspace_best = best_of true sub paths a a.grants in
    if not (workspace_best == cap_none) && not (str_eq st.workspace_id [])
    then max best (min workspace_best (workspace_capability st.workspace_id sub.id a.members))
    else best

-- `Capability`, of an object that was resolved, and of one that may not be there.
abbrev pub state_capability : SubjectRef → Acl → Option ObjectState → ℕ
state_capability sub a none = cap_none
state_capability sub a (some st) =
    let derived = derived_capability sub st a.members in
    if derived == cap_admin then cap_admin else max derived (granted_capability sub st a)

unfoldable pub capability : SubjectRef → ObjectRef → Acl → ℕ
unfolding resolve derived_capability granted_capability
capability sub ref a = state_capability sub a (resolve ref a)

-- `Can`.
abbrev pub can : SubjectRef → ObjectRef → ℕ → Acl → Bool
can sub ref want a = implies (capability sub ref a) want
