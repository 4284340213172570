-- ===== src/Access/View.antt =====
-- The views acl_object_expected and acl_key_expected (backend/migrations/055_mail.up.sql): the rows of
-- the objects that other tables define, and the keys that each object should have.
use super_ops.Base.{
  ℕ, Bool, false, ◌||◌, List, [], ◌∷◌, ◌++◌, Option, none, some, map, if◌then◌else◌,
}
use super_ops.Base.Bytes.{str_eq}
use super_ops.Access.{
  Bytes, ObjectRef, ObjectPath, build_path, has_prefix_path, ObjectRow, GrantRow, Key, ChannelRow,
  FileRow, Acl, subject_key, workspace_type, channel, folder, file, conversation, container_key,
  lock_object,
}

-- The types whose rows are computed from other tables.
unfoldable pub is_derived : Bytes → Bool
unfolding str_eq
is_derived kind = str_eq kind workspace_type || (str_eq kind channel || str_eq kind file)

unfoldable pub has_workspace : Bytes → List Bytes → Bool
unfolding str_eq
has_workspace id [] = false
has_workspace id (w ∷ ws) = str_eq w id || has_workspace id ws

unfoldable pub find_channel : Bytes → List ChannelRow → Option ChannelRow
unfolding str_eq
find_channel id [] = none
find_channel id (c ∷ cs) = let rest = find_channel id cs in if str_eq c.id id then some c else rest

unfoldable pub find_file : Bytes → List FileRow → Option FileRow
unfolding str_eq
find_file id [] = none
find_file id (f ∷ fs) = let rest = find_file id fs in if str_eq f.id id then some f else rest

abbrev pub workspace_ref : Bytes → ObjectRef
workspace_ref id = record { kind = workspace_type; id = id }

-- A row of the workspace, or none: the conditions of the joins.
abbrev pub in_workspace : Bytes → Option ObjectRow → Option ObjectRow
in_workspace id none = none
in_workspace id (some r) = if str_eq r.workspace_id id then some r else none

abbrev pub channel_in_workspace : Bytes → Option ChannelRow → Option ChannelRow
channel_in_workspace id none = none
channel_in_workspace id (some c) = if str_eq c.workspace_id id then some c else none

-- The row of an owner, where the file names one.
abbrev pub owner_row : Bytes → Option Bytes → FileRow → List ObjectRow → Option ObjectRow
owner_row kind none f objects = none
owner_row kind (some id) f objects =
    in_workspace f.workspace_id (lock_object (record { kind = kind; id = id }) objects)

-- The channel of the message that a file is attached to.
abbrev pub message_channel : FileRow → List ChannelRow → Option ChannelRow
message_channel f channels = elim f.channel_id [
  | none ↦ none
  | some id ↦ channel_in_workspace f.workspace_id (find_channel id channels)
]

-- The folder's path, else the conversation's, else the channel's, else the workspace's.
abbrev pub file_parent_path :
    Bytes → Option ObjectRow → Option ObjectRow → Option ChannelRow → ObjectPath
file_parent_path ws (some fo) co ch = fo.path
file_parent_path ws none (some co) ch = co.path
file_parent_path ws none none (some ch) =
    workspace_ref ws ∷ record { kind = channel; id = ch.id } ∷ []
file_parent_path ws none none none = workspace_ref ws ∷ []

-- acl_object_expected, for each of the three types.
unfoldable pub expected_workspace : ObjectRef → Acl → Option ObjectRow
unfolding has_workspace
expected_workspace ref a =
    if has_workspace ref.id a.workspaces
    then some (record { ref = ref; workspace_id = ref.id; path = build_path [] ref })
    else none

abbrev pub channel_object : ObjectRef → Option ChannelRow → Option ObjectRow
channel_object ref none = none
channel_object ref (some c) = some (record {
  ref = ref;
  workspace_id = c.workspace_id;
  path = build_path (workspace_ref c.workspace_id ∷ []) ref;
})

abbrev pub file_object : ObjectRef → Acl → Option FileRow → Option ObjectRow
file_object ref a none = none
file_object ref a (some f) = some (record {
  ref = ref;
  workspace_id = f.workspace_id;
  path =
      build_path
        (file_parent_path f.workspace_id (owner_row folder f.folder_id f a.objects)
          (owner_row conversation f.conversation_id f a.objects) (message_channel f a.channels))
        ref;
})

unfoldable pub expected_object : ObjectRef → Acl → Option ObjectRow
unfolding str_eq expected_workspace find_channel find_file lock_object
expected_object ref a =
    if str_eq ref.kind workspace_type
    then expected_workspace ref a
    else if str_eq ref.kind channel
    then channel_object ref (find_channel ref.id a.channels)
    else if str_eq ref.kind file
    then file_object ref a (find_file ref.id a.files)
    else none

abbrev pub key : ℕ → Bytes → Key
key letter id = record { letter = letter; id = id }

-- acl_parent_segment: the last segment but one.
unfoldable pub parent_segment : ObjectPath → Option ObjectRef
parent_segment [] = none
parent_segment (o ∷ []) = none
parent_segment (o ∷ p ∷ []) = some o
parent_segment (o ∷ p ∷ q ∷ rest) = parent_segment (p ∷ q ∷ rest)

-- The arms of acl_key_expected.
unfoldable pub workspace_keys : ObjectRow → List Key
unfolding str_eq
workspace_keys o = if str_eq o.ref.kind workspace_type then key b'w' o.workspace_id ∷ [] else []

abbrev pub member_keys : ObjectRow → Option ChannelRow → List Key
member_keys o none = []
member_keys o (some c) =
    if str_eq o.ref.kind channel
    then map (λ m. key b'u' m.user_id) c.members
      ++ (if c.is_public then key b'w' o.workspace_id ∷ [] else [])
    else []

unfoldable pub channel_keys : List ChannelRow → ObjectRow → List Key
unfolding find_channel str_eq
channel_keys channels o = member_keys o (find_channel o.ref.id channels)

abbrev pub one_key : Option Key → List Key
one_key none = []
one_key (some k) = k ∷ []

abbrev pub key_of_container : Option ObjectRef → List Key
key_of_container none = []
key_of_container (some o) = one_key (container_key o)

abbrev pub under_workspace : Option ObjectRef → Bool
under_workspace none = false
under_workspace (some o) = str_eq o.kind workspace_type

-- A file's uploader, where nothing else owns it, and the channel of its message.
abbrev pub message_keys : Option ChannelRow → List Key
message_keys none = []
message_keys (some c) = key b'c' c.id ∷ []

abbrev pub attachment_keys : List ChannelRow → ObjectRow → Option FileRow → List Key
attachment_keys channels o none = []
attachment_keys channels o (some f) =
    if str_eq o.ref.kind file
    then (if under_workspace (parent_segment o.path) then key b'u' f.user_id ∷ [] else [])
      ++ message_keys (message_channel f channels)
    else []

unfoldable pub file_keys : List ChannelRow → List FileRow → ObjectRow → List Key
unfolding find_file find_channel str_eq parent_segment
file_keys channels files o = attachment_keys channels o (find_file o.ref.id files)

-- Whether a path is at or under a row's.
abbrev pub is_below : ObjectPath → Option ObjectRow → Bool
is_below path none = false
is_below path (some r) = has_prefix_path path r.path

-- Whether a grant reaches an object: it is on the object or on something above it.
abbrev pub reaches : List ObjectRow → GrantRow → ObjectRow → Bool
reaches objects g o = is_below o.path (lock_object g.object objects)

unfoldable pub grant_keys : List ObjectRow → List GrantRow → ObjectRow → List Key
unfolding lock_object has_prefix_path
grant_keys objects [] o = []
grant_keys objects (g ∷ gs) o =
    let rest = grant_keys objects gs o in
    if reaches objects g o then subject_key g.subject ∷ rest else rest

-- All arms but that of the grants.
unfoldable pub table_keys : List ChannelRow → List FileRow → ObjectRow → List Key
unfolding workspace_keys channel_keys container_key parent_segment file_keys
table_keys channels files o =
    workspace_keys o
    ++ (channel_keys channels o
        ++ (key_of_container (parent_segment o.path) ++ file_keys channels files o))

unfoldable pub expected_keys : Acl → ObjectRow → List Key
unfolding table_keys grant_keys
expected_keys a o = table_keys a.channels a.files o ++ grant_keys a.objects a.grants o
