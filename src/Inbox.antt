-- ===== src/Inbox.antt =====
-- backend/internal/inbox: what happens to a person is an event, and the events about one subject are one
-- item with counters (model.go, id.go and `Deliver` of repository.go). Bodies and previews, the ids that
-- are derived from an item's key, and all times but an item's last event and mail are left out.
pub mod Counted
pub mod Invariant
pub mod Notifier
pub mod Prefs
pub mod Redelivered
pub mod Repair
pub mod Steps
mod Tests
pub mod Updates
use super_ops.Base.{
  ℕ, suc, ◌+◌, ◌-◌, ◌≡◌, Bool, true, false, ◌&&◌, ◌||◌, not, List, [], ◌∷◌, ◌++◌, Option, none,
  some, length, map, min, ltb, leb, ◌==◌, if◌then◌else◌,
}
use super_ops.Base.Bytes.{codes, str_eq}
use super_ops.Base.Fallible.{Result, ok, err, ◌>>=◌, ◌>>◌, guard}

abbrev pub Bytes : Type 0
Bytes = List ℕ

abbrev pub ranked_kinds : List (Bytes × ℕ)
ranked_kinds =
    (codes "message.dm", 50)
    ∷ (codes "message.mention", 40)
    ∷ (codes "channel.invited", 30)
    ∷ (codes "message.thread_reply", 20)
    ∷ (codes "message.reaction", 10)
    ∷ []

-- `rankOf`.
unfoldable pub rank_in : Bytes → List (Bytes × ℕ) → ℕ
unfolding str_eq
rank_in kind [] = 0
rank_in kind ((k, r) ∷ ks) = let rest = rank_in kind ks in if str_eq k kind then r else rest

-- `kindsRankedAbove` is a test here: whether an item's kind outranks an event's.
abbrev pub outranks : Bytes → Bytes → Bool
outranks top kind = ltb (rank_in kind ranked_kinds) (rank_in top ranked_kinds)

pub data ItemState : Type 0 where
  unread read done : ItemState

-- A row of inbox_events and one of inbox_items.
pub record EventRow : Type 0 where
  pub id : Bytes
  pub user_id : Bytes
  pub workspace_id : Bytes
  pub kind : Bytes
  pub object_type : Bytes
  pub object_id : Bytes
  pub subject_type : Bytes
  pub subject_id : Bytes
  pub actor_id : Bytes
  pub title : Bytes
  pub payload : Bytes

pub record Item : Type 0 where
  pub owner_id : Bytes
  pub about_type : Bytes
  pub about_id : Bytes
  pub workspace_id : Bytes
  pub state : ItemState
  pub top_kind : Bytes
  pub unread_count : ℕ
  pub event_count : ℕ
  pub last_at : ℕ
  pub last_actor_id : Bytes
  pub title : Bytes
  pub notified_at : Option ℕ

pub record Inbox : Type 0 where
  pub events : List EventRow
  pub items : List Item

-- One thing that happened, and the people it happened to; `payload` is the encoding of its data.
pub record Happening : Type 0 where
  pub workspace_id : Bytes
  pub kind : Bytes
  pub object_type : Bytes
  pub object_id : Bytes
  pub subject_type : Bytes
  pub subject_id : Bytes
  pub actor_id : Bytes
  pub title : Bytes
  pub payload : Bytes
  pub discriminator : Bytes
  pub recipients : List Bytes

unfoldable pub is_among : Bytes → List Bytes → Bool
unfolding str_eq
is_among id [] = false
is_among id (j ∷ js) = str_eq j id || is_among id js

-- The INSERT of an event: whether there was none with the id.
unfoldable pub has_event : Bytes → List EventRow → Bool
unfolding str_eq
has_event id [] = false
has_event id (e ∷ es) = str_eq e.id id || has_event id es

abbrev pub is_about : Bytes → Bytes → Bytes → Item → Bool
is_about user subject_type subject_id i =
    str_eq i.owner_id user && (str_eq i.about_type subject_type && str_eq i.about_id subject_id)

-- The upsert of an item.
abbrev pub bumped : Happening → ℕ → Item → Item
bumped h now i = record i {
  state = unread;
  unread_count = i.unread_count + 1;
  event_count = i.event_count + 1;
  last_at = now;
  last_actor_id = h.actor_id;
  title = h.title;
  top_kind = (if outranks i.top_kind h.kind then i.top_kind else h.kind);
  notified_at = none;
}

abbrev pub new_item : Happening → Bytes → ℕ → Item
new_item h user now = record {
  owner_id = user;
  about_type = h.subject_type;
  about_id = h.subject_id;
  workspace_id = h.workspace_id;
  state = unread;
  top_kind = h.kind;
  unread_count = 1;
  event_count = 1;
  last_at = now;
  last_actor_id = h.actor_id;
  title = h.title;
  notified_at = none;
}

unfoldable pub upsert_item : Happening → Bytes → ℕ → List Item → List Item
unfolding str_eq rank_in
upsert_item h user now [] = new_item h user now ∷ []
upsert_item h user now (i ∷ is) =
    let rest = upsert_item h user now is in
    if is_about user h.subject_type h.subject_id i then bumped h now i ∷ is else i ∷ rest

unfoldable pub upsert_items : Happening → List Bytes → ℕ → List Item → List Item
unfolding upsert_item
upsert_items h [] now items = items
upsert_items h (user ∷ users) now items = upsert_items h users now (upsert_item h user now items)

-- `eventKey`.
unfoldable pub event_key : Bytes → Bytes → Bytes
event_key object_id [] = object_id
event_key object_id (c ∷ cs) = object_id ++ (0 ∷ (c ∷ cs))

abbrev pub id_of : (Bytes → Bytes → Bytes → Bytes) → Happening → Bytes → Bytes
id_of event_id h user = event_id h.kind user (event_key h.object_id h.discriminator)

abbrev pub event_row : Bytes → Happening → Bytes → EventRow
event_row id h user = record {
  id = id;
  user_id = user;
  workspace_id = h.workspace_id;
  kind = h.kind;
  object_type = h.object_type;
  object_id = h.object_id;
  subject_type = h.subject_type;
  subject_id = h.subject_id;
  actor_id = h.actor_id;
  title = h.title;
  payload = h.payload;
}

-- The id of an event is derived by the library's name-based UUIDs.
module _ (event_id : Bytes → Bytes → Bytes → Bytes) where
  -- The recipients for whom the event is new, and the events then.
  unfoldable pub insert_events : Happening → List Bytes → List EventRow → List Bytes × List EventRow
  unfolding has_event event_key
  insert_events h [] es = ([], es)
  insert_events h (user ∷ users) es =
      let id = id_of event_id h user in
      let skip = insert_events h users es in
      let (fresh, es') = insert_events h users (event_row id h user ∷ es) in
      if has_event id es then skip else (user ∷ fresh, es')

  -- The transaction of `Repository.Deliver`: for whom the event was new, and the inbox then.
  unfoldable pub deliver_tx : Happening → List Bytes → ℕ → Inbox → List Bytes × Inbox
  unfolding insert_events upsert_items
  deliver_tx h users now b =
      let (fresh, es) = insert_events h users b.events in
      (fresh, record { events = es; items = upsert_items h fresh now b.items })
