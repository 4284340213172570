-- ===== src/Collab/Service.antt =====
-- The service over the log: who may open, read and write a document, the bounds on what is sent, and
-- when a client is asked for a snapshot (service.go, authorizer.go, handler.go).
use super_ops.Base.{
  ℕ, ◌-◌, Bool, true, false, ◌&&◌, ◌||◌, not, List, [], ◌∷◌, Option, none, some, length, ltb, leb,
  ◌==◌, if◌then◌else◌,
}
use super_ops.Base.Bytes.{str_eq}
use super_ops.Base.Fallible.{Result, ok, err, ◌>>=◌, ◌>>◌, guard}
use super_ops.Collab.{
  Bytes, UpdateLog, State, CollabError, room_forbidden, room_read_only, room_invalid_payload,
  room_payload_too_large, resource_conflict, undecided, bad_request, found, Appended, append_update,
  save_snapshot, load, max_update_bytes, max_snapshot_bytes, max_state_updates, compaction_cooldown,
}

-- What a row of collab_documents says but for its log.
pub record Document : Type 0 where
  pub id : Bytes
  pub workspace_id : Bytes
  pub resource_type : Bytes
  pub resource_id : Bytes
  pub created_by : Bytes

abbrev pub is_resource : Bytes → Bytes → Document → Bool
is_resource resource_type resource_id d =
    str_eq d.resource_type resource_type && str_eq d.resource_id resource_id

-- `GetByResource`.
unfoldable pub get_by_resource : Bytes → Bytes → List Document → Option Document
unfolding str_eq
get_by_resource resource_type resource_id [] = none
get_by_resource resource_type resource_id (d ∷ ds) =
    let rest = get_by_resource resource_type resource_id ds in
    if is_resource resource_type resource_id d then some d else rest

-- The INSERT of `EnsureDocument`, with the id that the database gives: nothing on a conflict.
abbrev pub insert_document :
    Option Document → Document → List Document → Option Document × List Document
insert_document none d ds = (some d, d ∷ ds)
insert_document (some old) d ds = (none, ds)

abbrev pub owned_by : Bytes → Document → Result CollabError Document
owned_by workspace d = do guard (str_eq d.workspace_id workspace) resource_conflict; ok d

abbrev pub there : Option Document → Result CollabError Document
there none = err undecided
there (some d) = ok d

-- `EnsureDocument`: where the INSERT finds a row there is a second query, which may see a later table.
abbrev pub Ensured : Type 0
Ensured = Result CollabError Document × List Document

abbrev pub ensured : Option Document × List Document → Bytes → Option Document → Ensured
ensured (some d, ds) workspace later = (ok d, ds)
ensured (none, ds) workspace later = (do d ← there later; owned_by workspace d, ds)

unfoldable pub ensure_document :
    Bytes → Bytes → Bytes → Bytes → Bytes → List Document → List Document → Ensured
unfolding get_by_resource
ensure_document id workspace resource_type resource_id actor ds later =
    ensured
      (insert_document (get_by_resource resource_type resource_id ds)
        (record {
          id = id;
          workspace_id = workspace;
          resource_type = resource_type;
          resource_id = resource_id;
          created_by = actor;
        })
        ds)
      workspace (get_by_resource resource_type resource_id later)

-- What the access layer is asked about.
pub data Target : Type 0 where
  file_target : Bytes → Target
  workspace_target : Bytes → Target

pub data Need : Type 0 where
  cap_read cap_write : Need

pub record RoomAccess : Type 0 where
  pub head_seq : ℕ
  pub can_write : Bool

abbrev pub is_set : Bytes → Bool
is_set [] = false
is_set (b ∷ bs) = true

-- `Can` of the access layer decides, or fails to.
module _ (can : Bytes → Target → Need → Result CollabError Bool) where
  -- `WorkspaceAuthorizer`.
  abbrev pub can_edit : Bytes → Bytes → Result CollabError Bool
  can_edit workspace user = can user (workspace_target workspace) cap_write

  unfoldable pub can_read : Document → Bytes → Result CollabError Bool
  can_read d user =
      if is_set d.resource_id
      then can user (file_target d.resource_id) cap_read
      else can user (workspace_target d.workspace_id) cap_read

  unfoldable pub can_write : Document → Bytes → Result CollabError Bool
  can_write d user =
      if is_set d.resource_id
      then can user (file_target d.resource_id) cap_write
      else can_edit d.workspace_id user

  abbrev pub can_create : Bytes → Bytes → Result CollabError Bool
  can_create workspace user = can_edit workspace user

  abbrev pub can_open_resource : Bytes → Bytes → Result CollabError Bool
  can_open_resource resource user = can user (file_target resource) cap_read

  -- `Authorize`, on the document's row and its log's head.
  unfoldable pub authorize : Option (Document × ℕ) → Bytes → Bool → Result CollabError RoomAccess
  unfolding can_read can_write
  authorize row user need_write = do
    d ← found row
    read ← can_read d.0 user
    guard read room_forbidden
    write ← can_write d.0 user
    guard (not need_write || write) room_read_only
    ok (record { head_seq = d.1; can_write = write })

  abbrev pub permitted : Result CollabError (Unit {0}) → Ensured → List Document → Ensured
  permitted (err problem) answer ds = (err problem, ds)
  permitted (ok may) answer ds = answer

  -- `OpenDocument`.
  unfoldable pub open_document :
      Bytes → Bytes → Bytes → Bytes → Bytes → List Document → List Document → Ensured
  unfolding ensure_document
  open_document id workspace resource_type resource_id user ds later =
      permitted
        (do
          create ← can_create workspace user
          guard create room_forbidden
          attach ← can_open_resource resource_id user
          guard attach room_forbidden)
        (ensure_document id workspace resource_type resource_id user ds later) ds

  -- `Handler.State`, the document being read once more before `Load`.
  unfoldable pub state_request :
      ℕ
      → Bytes
      → Option (Document × ℕ)
      → Option UpdateLog
      → Option UpdateLog
      → Option UpdateLog
      → Result CollabError State
  unfolding authorize load
  state_request since user row at_get at_updates at_snapshot = do
    access ← authorize row user false
    guard (leb since access.head_seq) bad_request
    load since max_state_updates at_get at_updates at_snapshot

  -- `Handler.Append` and `Handler.Snapshot`, with `Append` and `SaveSnapshot` of the service.
  unfoldable pub append_request :
      Bytes → Bytes → Option (Document × ℕ) → Option UpdateLog → Result CollabError Appended
  unfolding authorize append_update
  append_request user payload row log = do
    authorize row user true
    guard (not (length payload == 0)) room_invalid_payload
    guard (leb (length payload) max_update_bytes) room_payload_too_large
    append_update user payload log

  unfoldable pub snapshot_request :
      ℕ
      → Bytes
      → Bytes
      → Option (Document × ℕ)
      → Option UpdateLog
      → Result CollabError (ℕ × UpdateLog)
  unfolding authorize save_snapshot
  snapshot_request through user payload row log = do
    guard (ltb 0 through) bad_request
    authorize row user true
    guard (not (length payload == 0)) room_invalid_payload
    guard (leb (length payload) max_snapshot_bytes) room_payload_too_large
    save_snapshot through user payload log

-- When each document was last asked for a snapshot, and when the table was last trimmed.
pub record Asked : Type 0 where
  pub asked : Bytes → Option ℕ
  pub asked_trim : Option ℕ

-- The zero time is longer ago than the cooldown.
abbrev pub cooled : Option ℕ → ℕ → Bool
cooled none now = true
cooled (some t) now = leb compaction_cooldown (now - t)

abbrev pub store_at : Bytes → Option ℕ → (Bytes → Option ℕ) → Bytes → Option ℕ
store_at id t asked j = if str_eq id j then t else asked j

abbrev pub trimmed : ℕ → Option ℕ → Option ℕ
trimmed now t = if cooled t now then none else t

-- `claimCompaction`, and what a stored snapshot does to the table.
unfoldable pub claim_compaction : Bytes → ℕ → Asked → Bool × Asked
unfolding str_eq
claim_compaction id now a =
    if not (cooled (a.asked id) now)
    then (false, a)
    else if cooled a.asked_trim now
    then (
      true,
      record {
        asked = store_at id (some now) (λ j. trimmed now (a.asked j));
        asked_trim = some now;
      },
    )
    else (true, record a { asked = store_at id (some now) a.asked })

unfoldable pub snapshot_stored : Bytes → Asked → Asked
unfolding str_eq
snapshot_stored id a = record a { asked = store_at id none a.asked }

-- `maybeRequestCompaction`: whether the room's leader is asked.
unfoldable pub maybe_request_compaction : ℕ → Bytes → ℕ → ℕ → ℕ → Asked → Bool × Asked
unfolding claim_compaction
maybe_request_compaction threshold id head snapshot now a =
    if ltb (head - snapshot) threshold then (false, a) else claim_compaction id now a
