-- ===== src/Inbox/Updates.antt =====
-- backend/internal/inbox/repository.go: what changes the items besides a delivery. An item is found by its
-- user and subject, from which its id is derived.
use super_ops.Base.{
  ℕ, suc, Bool, true, false, ◌&&◌, ◌||◌, not, List, [], ◌∷◌, some, min, ◌==◌, if◌then◌else◌,
}
use super_ops.Base.Bytes.{str_eq}
use super_ops.Inbox.{Bytes, Inbox, Item, ItemState, read, unread, EventRow, is_about, is_among}

-- The UPDATEs of items: of those that a test holds of.
unfoldable pub update_items : (Item → Bool) → (Item → Item) → List Item → List Item
update_items test change [] = []
update_items test change (i ∷ is) = (if test i then change i else i) ∷ update_items test change is

abbrev pub is_unread : Item → Bool
is_unread i = elim i.state [ unread ↦ true | _ ↦ false ]

-- `SetState`, of the item of a user and a subject.
unfoldable pub set_state : Bytes → Bytes → Bytes → ItemState → Inbox → Inbox
unfolding update_items str_eq
set_state user subject_type subject_id state b = record b {
  items =
      update_items (is_about user subject_type subject_id) (λ i. record i { state = state })
        b.items;
}

-- `MarkSubjectRead`.
unfoldable pub mark_subject_read : Bytes → Bytes → Bytes → Inbox → Inbox
unfolding update_items str_eq
mark_subject_read user subject_type subject_id b = record b {
  items =
      update_items (λ i. is_about user subject_type subject_id i && is_unread i)
        (λ i. record i { state = read }) b.items;
}

-- `ReadAll`; an empty workspace or kind is any.
abbrev pub is_any_or : Bytes → Bytes → Bool
is_any_or wanted value = str_eq wanted [] || str_eq value wanted

unfoldable pub read_all : Bytes → Bytes → Bytes → Inbox → Inbox
unfolding update_items str_eq
read_all user workspace kind b = record b {
  items =
      update_items
        (λ i.
          str_eq i.owner_id user
          && (is_unread i && (is_any_or workspace i.workspace_id && is_any_or kind i.top_kind)))
        (λ i. record i { state = read }) b.items;
}

-- The items of `ClaimDigest`, given by a test.
unfoldable pub claim_digest : Bytes → (Item → Bool) → ℕ → Inbox → Inbox
unfolding update_items str_eq
claim_digest user claimed now b = record b {
  items =
      update_items (λ i. claimed i && str_eq i.owner_id user)
        (λ i. record i { notified_at = some now }) b.items;
}

-- How many events are behind an item.
unfoldable pub count_events : Bytes → Bytes → Bytes → List EventRow → ℕ
unfolding str_eq
count_events user subject_type subject_id [] = 0
count_events user subject_type subject_id (e ∷ es) =
    let rest = count_events user subject_type subject_id es in
    if str_eq e.user_id user
      && (str_eq e.subject_type subject_type && str_eq e.subject_id subject_id)
    then suc rest
    else rest

-- `ReconcileUsers`, of a list of users.
abbrev pub actual : List EventRow → Item → ℕ
actual es i = count_events i.owner_id i.about_type i.about_id es

abbrev pub has_drifted : List Bytes → List EventRow → Item → Bool
has_drifted users es i = is_among i.owner_id users && not (i.event_count == actual es i)

abbrev pub repaired : List EventRow → Item → Item
repaired es i = record i {
  event_count = actual es i;
  unread_count = min i.unread_count (actual es i);
  state = (if actual es i == 0 then read else i.state);
}

unfoldable pub reconcile_users : List Bytes → Inbox → Inbox
unfolding update_items is_among count_events
reconcile_users users b = record b {
  items = update_items (has_drifted users b.events) (repaired b.events) b.items;
}
