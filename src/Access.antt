-- ===== src/Access.antt =====
-- backend/internal/authz: who may do what to which object. The references, the tables and the
-- reading of paths that the parts share.
pub mod Rows
pub mod Paths
pub mod Tree
pub mod View
pub mod WellFormed
pub mod Registered
pub mod Moved
pub mod Keys
pub mod Reach
pub mod Sync
pub mod Transactions
pub mod Decide
pub mod Listing
pub mod Opening
pub mod Granted
pub mod Decided
pub mod Held
pub mod Listed
pub mod Agreement
mod Tests
use super_ops.Base.{
  ℕ, ◌+◌, ◌≡◌, refl, Bool, true, false, ◌&&◌, ◌||◌, List, [], ◌∷◌, ◌++◌, Option, none, some, ◌==◌,
  ltb, leb, length, if◌then◌else◌,
}
use super_ops.Base.Bytes.{codes, str_eq}

abbrev pub Bytes : Type 0
Bytes = List ℕ

-- The ladder, `CapNone` to `CapAdmin`.
abbrev pub cap_none : ℕ
cap_none = 0

abbrev pub cap_read : ℕ
cap_read = 1

abbrev pub cap_comment : ℕ
cap_comment = 2

abbrev pub cap_write : ℕ
cap_write = 3

abbrev pub cap_share : ℕ
cap_share = 4

abbrev pub cap_admin : ℕ
cap_admin = 5

-- `Implies`: nothing is implied by none, and none is implied by nothing.
abbrev pub implies : ℕ → ℕ → Bool
implies c want = if c == cap_none || want == cap_none then false else leb want c

pub record ObjectRef : Type 0 where
  pub kind : Bytes
  pub id : Bytes

unfoldable pub same_ref : ObjectRef → ObjectRef → Bool
unfolding str_eq
same_ref a b = str_eq a.kind b.kind && str_eq a.id b.id

-- A path, from the workspace down to the object itself. The text is `render` of Access.Paths.
abbrev pub ObjectPath : Type 0
ObjectPath = List ObjectRef

abbrev pub max_path_depth : ℕ
max_path_depth = 32

-- `buildPath`.
abbrev pub build_path : ObjectPath → ObjectRef → ObjectPath
build_path parent o = parent ++ o ∷ []

-- `hasPrefixPath`, and `path LIKE prefix || '%'`.
unfoldable pub has_prefix_path : ObjectPath → ObjectPath → Bool
has_prefix_path path [] = true
has_prefix_path [] (o ∷ os) = false
has_prefix_path (p ∷ ps) (o ∷ os) = same_ref p o && has_prefix_path ps os

-- The path below a prefix of the given length, as `substring(path FROM n)` reads it.
unfoldable pub below : ObjectPath → ObjectPath → ObjectPath
below [] path = path
below (o ∷ os) [] = []
below (o ∷ os) (p ∷ ps) = below os ps

-- A row of acl_object.
pub record ObjectRow : Type 0 where
  pub ref : ObjectRef
  pub workspace_id : Bytes
  pub path : ObjectPath

pub data SubjectKind : Type 0 where
  user group workspace link : SubjectKind

pub record SubjectRef : Type 0 where
  pub kind : SubjectKind
  pub id : Bytes

abbrev pub subject_code : SubjectKind → ℕ
subject_code user = 0
subject_code group = 1
subject_code workspace = 2
subject_code link = 3

abbrev pub same_subject : SubjectRef → SubjectRef → Bool
same_subject a b = subject_code a.kind == subject_code b.kind && str_eq a.id b.id

-- A row of acl_grant.
pub record GrantRow : Type 0 where
  pub object : ObjectRef
  pub subject : SubjectRef
  pub capability : ℕ

-- An access key: the letter of its prefix, and the id behind the dash.
pub record Key : Type 0 where
  pub letter : ℕ
  pub id : Bytes

abbrev pub same_key : Key → Key → Bool
same_key a b = a.letter == b.letter && str_eq a.id b.id

-- A row of acl_key.
pub record KeyRow : Type 0 where
  pub object : ObjectRef
  pub key : Key

pub data Role : Type 0 where
  owner admin member guest : Role

-- A row of workspace_members.
pub record MemberRow : Type 0 where
  pub workspace_id : Bytes
  pub user_id : Bytes
  pub role : Role

-- A row of channel_members: its role is admin or member.
pub record ChannelMember : Type 0 where
  pub user_id : Bytes
  pub is_admin : Bool

-- A row of channels, with the rows that channel_members has for it.
pub record ChannelRow : Type 0 where
  pub id : Bytes
  pub workspace_id : Bytes
  pub is_public : Bool
  pub members : List ChannelMember

-- A row of files, joined to what owns it: the conversation of its mail message, where that is of the
-- file's workspace, and the channel of its message.
pub record FileRow : Type 0 where
  pub id : Bytes
  pub workspace_id : Bytes
  pub user_id : Bytes
  pub folder_id : Option Bytes
  pub conversation_id : Option Bytes
  pub channel_id : Option Bytes

-- The tables that the checker reads and writes.
pub record Acl : Type 0 where
  pub workspaces : List Bytes
  pub members : List MemberRow
  pub channels : List ChannelRow
  pub files : List FileRow
  pub objects : List ObjectRow
  pub grants : List GrantRow
  pub keys : List KeyRow

-- `SubjectRef.Key`.
abbrev pub subject_key : SubjectRef → Key
subject_key s = record {
  letter = elim s.kind [ user ↦ b'u' | group ↦ b'g' | workspace ↦ b'w' | link ↦ b'g' ];
  id = s.id;
}

abbrev pub workspace_type : Bytes
workspace_type = codes "workspace"

abbrev pub file : Bytes
file = codes "file"

abbrev pub conversation : Bytes
conversation = codes "conversation"

abbrev pub folder : Bytes
folder = codes "folder"

abbrev pub channel : Bytes
channel = codes "channel"

-- `ContainerKey`: a channel and a folder give a key to what is in them, nothing else does.
unfoldable pub container_key : ObjectRef → Option Key
unfolding str_eq
container_key o =
    if str_eq o.kind channel
    then some (record { letter = b'c'; id = o.id })
    else if str_eq o.kind folder
    then some (record { letter = b'f'; id = o.id })
    else none

-- `lockObject`: the row of an object.
unfoldable pub lock_object : ObjectRef → List ObjectRow → Option ObjectRow
unfolding str_eq
lock_object ref [] = none
lock_object ref (r ∷ rs) =
    let rest = lock_object ref rs in if same_ref r.ref ref then some r else rest
