-- ===== src/Collab.antt =====
-- backend/internal/collab: the shared editing of documents. The server keeps a log of updates that
-- it does not read, which a snapshot from a client compacts, on the rows of one document.
pub mod Numbered
pub mod History
pub mod Loading
pub mod CatchUp
pub mod Service
pub mod Stored
pub mod Asked
mod Tests
use super_ops.Base.{
  ℕ, zero, suc, ◌+◌, ◌-◌, ◌*◌, ◌≡◌, Bool, true, false, ◌&&◌, ◌||◌, not, List, [], ◌∷◌, ◌++◌, Option,
  none, some, length, ltb, leb, ◌==◌, if◌then◌else◌,
}
use super_ops.Base.Bytes.{str_eq}
use super_ops.Base.Fallible.{Result, ok, err, ◌>>=◌, ◌>>◌, guard}
use super_ops.Base.Slices.{take, drop}

abbrev pub Bytes : Type 0
Bytes = List ℕ

abbrev pub max_update_bytes : ℕ
max_update_bytes = 1048576

abbrev pub max_snapshot_bytes : ℕ
max_snapshot_bytes = 16777216

abbrev pub default_compaction_threshold : ℕ
default_compaction_threshold = 256

-- In milliseconds.
abbrev pub compaction_cooldown : ℕ
compaction_cooldown = 60000

abbrev pub snapshot_retention : ℕ
snapshot_retention = 3

abbrev pub max_state_updates : ℕ
max_state_updates = 2000

-- The errors of the package and of the rooms of internal/ws; a write that violates a key is
-- `constraint`, and what could not be decided `undecided`.
pub data CollabError : Type 0 where
  room_not_found room_forbidden room_read_only room_invalid_payload : CollabError
  room_payload_too_large stale_snapshot resource_conflict constraint undecided bad_request :
      CollabError

-- A row of collab_updates or of collab_snapshots.
pub record Update : Type 0 where
  pub seq : ℕ
  pub actor_id : Bytes
  pub payload : Bytes

-- The counters of a document's row, its updates in the order of their key, and its snapshots, the
-- newest first.
pub record UpdateLog : Type 0 where
  pub head_seq : ℕ
  pub snapshot_seq : ℕ
  pub updates : List Update
  pub snapshots : List Update

abbrev pub found {ℓ} : {A : Type ℓ} → Option A → Result CollabError A
found none = err room_not_found
found (some a) = ok a

abbrev pub kept : Option (List Update) → Result CollabError (List Update)
kept none = err constraint
kept (some rows) = ok rows

-- An INSERT into collab_updates, whose primary key is the document and the number.
unfoldable pub insert_update : Update → List Update → Option (List Update)
insert_update u [] = some (u ∷ [])
insert_update u (r ∷ rs) =
    let rest = insert_update u rs in
    if ltb u.seq r.seq
    then some (u ∷ r ∷ rs)
    else if u.seq == r.seq
    then none
    else elim rest [ none ↦ none | some out ↦ some (r ∷ out) ]

-- The same into collab_snapshots, the newest first.
unfoldable pub insert_snapshot : Update → List Update → Option (List Update)
insert_snapshot u [] = some (u ∷ [])
insert_snapshot u (r ∷ rs) =
    let rest = insert_snapshot u rs in
    if ltb r.seq u.seq
    then some (u ∷ r ∷ rs)
    else if u.seq == r.seq
    then none
    else elim rest [ none ↦ none | some out ↦ some (r ∷ out) ]

-- The updates with a number above `seq`, in order.
unfoldable pub updates_after : ℕ → List Update → List Update
updates_after seq [] = []
updates_after seq (u ∷ us) =
    let rest = updates_after seq us in if ltb seq u.seq then u ∷ rest else rest

-- `AppendUpdate`: the number that the update is given, the snapshot's, and the log then.
abbrev pub Appended : Type 0
Appended = (ℕ × ℕ) × UpdateLog

unfoldable pub append_update : Bytes → Bytes → Option UpdateLog → Result CollabError Appended
unfolding insert_update
append_update actor payload log = do
  l ← found log
  let seq = l.head_seq + 1
  rows ← kept (insert_update (record { seq = seq; actor_id = actor; payload = payload }) l.updates)
  ok ((seq, l.snapshot_seq), record l { head_seq = seq; updates = rows })

-- `SaveSnapshot`: how many updates it removes, and the log then.
unfoldable pub save_snapshot :
    ℕ → Bytes → Bytes → Option UpdateLog → Result CollabError (ℕ × UpdateLog)
unfolding insert_snapshot updates_after
save_snapshot through actor payload log = do
  guard (ltb 0 through) stale_snapshot
  l ← found log
  guard (ltb l.snapshot_seq through && leb through l.head_seq) stale_snapshot
  rows ←
      kept (
        insert_snapshot (record { seq = through; actor_id = actor; payload = payload }) l.snapshots)
  ok (
    length l.updates - length (updates_after through l.updates),
    record l {
      snapshot_seq = through;
      updates = updates_after through l.updates;
      snapshots = take snapshot_retention rows;
    },
  )

-- What `Load` answers.
pub record State : Type 0 where
  pub snapshot : Option Bytes
  pub snapshot_seq : ℕ
  pub updates : List Update
  pub through_seq : ℕ
  pub head_seq : ℕ
  pub has_more : Bool

-- `dropThrough`.
unfoldable pub drop_through : List Update → ℕ → List Update
drop_through [] seq = []
drop_through (u ∷ us) seq = let rest = drop_through us seq in if ltb seq u.seq then u ∷ us else rest

-- The last loop of `Load`.
unfoldable pub furthest : ℕ → List Update → ℕ
furthest through [] = through
furthest through (u ∷ us) = furthest (if ltb through u.seq then u.seq else through) us

abbrev pub updates_of : Option UpdateLog → List Update
updates_of none = []
updates_of (some l) = l.updates

abbrev pub first : List Update → Option Update
first [] = none
first (u ∷ us) = some u

abbrev pub newest : Option UpdateLog → Option Update
newest none = none
newest (some l) = first l.snapshots

abbrev pub with_updates : ℕ → ℕ → List Update → State
with_updates since head updates = record {
  snapshot = none;
  snapshot_seq = 0;
  updates = updates;
  through_seq = furthest since updates;
  head_seq = head;
  has_more = false;
}

abbrev pub with_snapshot : Update → ℕ → List Update → State
with_snapshot s head updates = record {
  snapshot = some s.payload;
  snapshot_seq = s.seq;
  updates = drop_through updates s.seq;
  through_seq = furthest s.seq (drop_through updates s.seq);
  head_seq = head;
  has_more = false;
}

abbrev pub covering : Option Update → ℕ → ℕ → List Update → State
covering none since head updates = with_updates since head updates
covering (some s) since head updates =
    if ltb since s.seq then with_snapshot s head updates else with_updates since head updates

abbrev pub page_limit : ℕ → ℕ
page_limit limit = if limit == 0 || ltb max_state_updates limit then max_state_updates else limit

-- `Load`, whose three queries see the log at three times.
unfoldable pub load :
    ℕ → ℕ → Option UpdateLog → Option UpdateLog → Option UpdateLog → Result CollabError State
unfolding updates_after drop_through furthest
load since limit at_get at_updates at_snapshot = do
  doc ← found at_get
  let rows = take (page_limit limit + 1) (updates_after since (updates_of at_updates))
  let has_more = ltb (page_limit limit) (length rows)
  let updates = if has_more then take (page_limit limit) rows else rows
  ok (record (covering (newest at_snapshot) since doc.head_seq updates) { has_more = has_more })
