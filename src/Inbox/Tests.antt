-- ===== src/Inbox/Tests.antt =====
-- One person of two who is told of two messages of a thread, one of them twice.
use super_ops.Base.{
  ℕ, ◌≡◌, refl, Bool, true, false, List, [], ◌∷◌, ◌++◌, none, length, map, if◌then◌else◌,
}
use super_ops.Base.Bytes.{codes, str_eq}
use super_ops.Base.Fallible.{ok, err}
use super_ops.Inbox.{Bytes, Item, ItemState, unread, Inbox, Happening, is_among}
use super_ops.Inbox.Prefs.{never, PrefRows, resolve_pref, default_pref}
use super_ops.Inbox.Notifier.{deliver, bad_kind}
use super_ops.Inbox.Updates.{count_events, reconcile_users}
use super_ops.Inbox.Counted.{IsCounted, counter, event_counts}
use super_ops.Inbox.Invariant.{perform_all-IsCounted}
use super_ops.Inbox.Redelivered.{deliver-perform_all}
use super_ops.Inbox.Repair.{has_item, reconcile_users-count_events}
use super_ops.Inbox.Steps.{Step, delivered, subject_read, reconciled, perform_all}

abbrev event_id : Bytes → Bytes → Bytes → Bytes
event_id kind user key = kind ++ codes "/" ++ user ++ codes "/" ++ key

abbrev is_uuid : Bytes → Bool
is_uuid id = true

-- The second person wants no replies in the inbox.
abbrev prefs : Bytes → PrefRows
prefs user =
    if str_eq user (codes "b")
    then (codes "message.*", record { in_app = false; push = true; email = never }) ∷ []
    else []

abbrev reply : Bytes → Happening
reply message = record {
  workspace_id = codes "w";
  kind = codes "message.thread_reply";
  object_type = codes "message";
  object_id = message;
  subject_type = codes "thread";
  subject_id = codes "t";
  actor_id = [];
  title = codes "Re";
  payload = codes "{}";
  discriminator = [];
  recipients = codes "a" ∷ codes "b" ∷ codes "a" ∷ [];
}

abbrev empty : Inbox
empty = record { events = []; items = [] }

-- The first message is read before the second comes.
abbrev steps : List Step
steps =
    delivered prefs (reply (codes "1")) 10
    ∷ subject_read (codes "a") (codes "thread") (codes "t")
    ∷ delivered prefs (reply (codes "2")) 20
    ∷ delivered prefs (reply (codes "1")) 30
    ∷ reconciled (codes "a" ∷ [])
    ∷ []

abbrev summary : Item → Bytes × (ItemState × (ℕ × (ℕ × ℕ)))
summary i = (i.owner_id, (i.state, (i.event_count, (i.unread_count, i.last_at))))

-- The item counts the message that was read among the unread ones.
steps_example :
    map summary (perform_all event_id is_uuid steps empty).items
    ≡ (codes "a", (unread, (2, (2, 20)))) ∷ []
unfolding perform_all
steps_example = refl

resolve_pref_example : resolve_pref (prefs (codes "b")) (codes "issue.assigned") ≡ default_pref
unfolding resolve_pref
resolve_pref_example = refl

-- A number of unread events that is wrong alone is not repaired.
abbrev drifted : Inbox
drifted = record {
  events = [];
  items =
      record {
        owner_id = codes "a";
        about_type = codes "thread";
        about_id = codes "t";
        workspace_id = codes "w";
        state = unread;
        top_kind = codes "message.dm";
        unread_count = 3;
        event_count = 0;
        last_at = 5;
        last_actor_id = [];
        title = codes "Re";
        notified_at = none;
      }
      ∷ [];
}

drifted_example :
    map summary (reconcile_users (codes "a" ∷ []) drifted).items
    ≡ (codes "a", (unread, (0, (3, 5)))) ∷ []
unfolding reconcile_users
drifted_example = refl

empty-IsCounted : IsCounted empty
unfolding count_events counter
empty-IsCounted = record { events_counted = λ u t s. refl; unread_counted = λ u t s. refl }

perform_all-IsCounted_example : IsCounted (perform_all event_id is_uuid steps empty)
perform_all-IsCounted_example = perform_all-IsCounted event_id is_uuid steps empty empty-IsCounted

abbrev miscounted : Item → Item
miscounted i = record i { event_count = 7 }

abbrev more : Inbox
more = record drifted { items = map miscounted drifted.items }

reconcile_users-count_events_example :
    (counter event_counts
        (codes "a")
        (codes "thread")
        (codes "t")
        (reconcile_users (codes "a" ∷ []) more).items
      ≡ (if has_item (codes "a") (codes "thread") (codes "t") more.items
          then count_events (codes "a") (codes "thread") (codes "t") more.events
          else 0))
    × (length (reconcile_users (codes "a" ∷ []) more).items ≡ length more.items)
unfolding is_among
reconcile_users-count_events_example =
    reconcile_users-count_events (codes "a" ∷ []) more (codes "a") (codes "thread") (codes "t") refl

abbrev after_first : Inbox
after_first = record {
  events =
      record {
        id = codes "message.thread_reply/a/1";
        user_id = codes "a";
        workspace_id = codes "w";
        kind = codes "message.thread_reply";
        object_type = codes "message";
        object_id = codes "1";
        subject_type = codes "thread";
        subject_id = codes "t";
        actor_id = [];
        title = codes "Re";
        payload = codes "{}";
      }
      ∷ [];
  items =
      record {
        owner_id = codes "a";
        about_type = codes "thread";
        about_id = codes "t";
        workspace_id = codes "w";
        state = unread;
        top_kind = codes "message.thread_reply";
        unread_count = 1;
        event_count = 1;
        last_at = 10;
        last_actor_id = [];
        title = codes "Re";
        notified_at = none;
      }
      ∷ [];
}

deliver_example :
    deliver event_id is_uuid prefs (reply (codes "1")) 10 empty ≡ ok (codes "a" ∷ [], after_first)
unfolding deliver
deliver_example = refl

kind_example :
    deliver event_id is_uuid prefs
      (record (reply (codes "1")) { kind = codes "message.*" })
      10
      empty
    ≡ err bad_kind
unfolding deliver
kind_example = refl

deliver-perform_all_example :
    deliver event_id is_uuid prefs
      (reply (codes "1"))
      40
      (perform_all event_id is_uuid steps after_first)
    ≡ ok ([], perform_all event_id is_uuid steps after_first)
deliver-perform_all_example =
    deliver-perform_all event_id is_uuid prefs (reply (codes "1")) 10 40 steps empty after_first
      (codes "a" ∷ []) deliver_example
