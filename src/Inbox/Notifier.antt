-- ===== src/Inbox/Notifier.antt =====
-- backend/internal/inbox/notifier.go: `Deliver`, but for the relay and the push after the commit.
use super_ops.Base.{ℕ, Bool, ◌&&◌, ◌||◌, not, List, [], ◌∷◌, length, leb, if◌then◌else◌}
use super_ops.Base.Bytes.{str_eq}
use super_ops.Base.Fallible.{Result, ok, ◌>>=◌, ◌>>◌, guard}
use super_ops.Inbox.{Bytes, Happening, Inbox, is_among, deliver_tx}
use super_ops.Inbox.Prefs.{PrefRows, resolve_pref, valid_word, valid_object_type, valid_kind}

abbrev pub max_recipients : ℕ
max_recipients = 2000

abbrev pub max_data_bytes : ℕ
max_data_bytes = 4096

pub data DeliverError : Type 0 where
  not_a_uuid bad_kind bad_type no_title too_many_recipients payload_too_long : DeliverError

-- The id of an event is derived by the library's name-based UUIDs.
module _ (event_id : Bytes → Bytes → Bytes → Bytes) (is_uuid : Bytes → Bool) where
  -- The recipients of `validate`: each once, in order, empty ids skipped.
  unfoldable pub distinct : List Bytes → List Bytes → Result DeliverError (List Bytes)
  unfolding is_among str_eq
  distinct seen [] = ok []
  distinct seen (user ∷ users) =
      let skip = distinct seen users in
      let keep = distinct (user ∷ seen) users in
      if str_eq user [] || is_among user seen
      then skip
      else (do guard (is_uuid user) not_a_uuid; rest ← keep; ok (user ∷ rest))

  unfoldable pub valid_recipients : Happening → Result DeliverError (List Bytes)
  unfolding distinct valid_word valid_kind str_eq
  valid_recipients h = do
    guard (is_uuid h.workspace_id) not_a_uuid
    guard (valid_kind h.kind) bad_kind
    guard (valid_object_type h.object_type && valid_object_type h.subject_type) bad_type
    guard (is_uuid h.object_id) not_a_uuid
    guard (is_uuid h.subject_id) not_a_uuid
    guard (not (str_eq h.title [])) no_title
    guard (str_eq h.actor_id [] || is_uuid h.actor_id) not_a_uuid
    guard (leb (length h.recipients) max_recipients) too_many_recipients
    distinct [] h.recipients

  -- Who wants an item.
  unfoldable pub wanting : (Bytes → PrefRows) → Bytes → List Bytes → List Bytes
  unfolding resolve_pref
  wanting prefs kind [] = []
  wanting prefs kind (user ∷ users) =
      let rest = wanting prefs kind users in
      let pref = resolve_pref (prefs user) kind in if pref.in_app then user ∷ rest else rest

  -- `Repository.Deliver`.
  unfoldable pub deliver_some :
      Happening → List Bytes → ℕ → Inbox → Result DeliverError (List Bytes × Inbox)
  unfolding deliver_tx
  deliver_some h [] now b = ok ([], b)
  deliver_some h (user ∷ users) now b = do
    guard (leb (length h.payload) max_data_bytes) payload_too_long
    ok (deliver_tx event_id h (user ∷ users) now b)

  -- `Notifier.Deliver`.
  unfoldable pub deliver :
      (Bytes → PrefRows) → Happening → ℕ → Inbox → Result DeliverError (List Bytes × Inbox)
  unfolding valid_recipients wanting deliver_some
  deliver prefs h now b = do
    users ← valid_recipients h
    deliver_some h (wanting prefs h.kind users) now b
