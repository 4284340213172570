-- ===== src/Inbox/Repair.antt =====
-- backend/internal/inbox: what `ReconcileUsers` repairs, whatever the counters were.
use super_ops.Base.{
  ℕ, ◌≡◌, refl, Bool, true, false, ◌||◌, List, [], ◌∷◌, arith, ==_iff, Bool-cases, inl, inr,
  if◌then◌else◌, ◌==◌, length, ap, suc,
}
use super_ops.Base.Bytes.{str_eq→eq}
use super_ops.Inbox.{Bytes, Inbox, Item, EventRow, is_about, is_among}
use super_ops.Inbox.Updates.{update_items, count_events, has_drifted, repaired, reconcile_users}
use super_ops.Inbox.Counted.{counter, event_counts}

-- Whether there is an item of the user about the subject.
unfoldable pub has_item : Bytes → Bytes → Bytes → List Item → Bool
has_item user subject_type subject_id [] = false
has_item user subject_type subject_id (i ∷ is) =
    is_about user subject_type subject_id i || has_item user subject_type subject_id is

module _ (user subject_type subject_id : Bytes) (users : List Bytes) (es : List EventRow) where
  abbrev reconciled_item : Item → Item
  reconciled_item i = if has_drifted users es i then repaired es i else i

  repaired-is_about :
      (i : Item)
      → is_about user subject_type subject_id (reconciled_item i)
        ≡ is_about user subject_type subject_id i
  repaired-is_about i = elim (Bool-cases (has_drifted users es i)) [
    | inl hit ↦ rw hit
    | inr miss ↦ rw miss
  ]

  -- What the item of one of the users counts then.
  repaired-event_count :
      (i : Item)
      → is_among user users ≡ true
      → is_about user subject_type subject_id i ≡ true
      → (reconciled_item i).event_count ≡ count_events user subject_type subject_id es
  repaired-event_count i among about =
      let owner : i.owner_id ≡ user = str_eq→eq i.owner_id user (ground arith) in
      let type : i.about_type ≡ subject_type = str_eq→eq i.about_type subject_type (ground arith) in
      let id : i.about_id ≡ subject_id = str_eq→eq i.about_id subject_id (ground arith) in
      let n : ℕ = count_events user subject_type subject_id es in
      elim (Bool-cases (i.event_count == n)) [
        | inl right ↦ rw (owner, type, id, among, right) ((==_iff i.event_count n).0 right)
        | inr wrong ↦ rw (owner, type, id, among, wrong)
      ]

  repaired-counter :
      (items : List Item)
      → is_among user users ≡ true
      → counter event_counts user subject_type subject_id
          (update_items (has_drifted users es) (repaired es) items)
        ≡ (if has_item user subject_type subject_id items
            then count_events user subject_type subject_id es
            else 0)
  unfolding update_items counter has_item
  repaired-counter [] among = refl
  repaired-counter (i ∷ is) among = elim (Bool-cases (is_about user subject_type subject_id i)) [
    | inl about ↦ rw (repaired-is_about i, about) (repaired-event_count i among about)
    | inr other ↦ rw (repaired-is_about i, other) (repaired-counter is among)
  ]

length-update_items :
    (test : Item → Bool) (change : Item → Item) (items : List Item)
    → length (update_items test change items) ≡ length items
unfolding update_items
length-update_items test change [] = refl
length-update_items test change (i ∷ is) = ap suc (length-update_items test change is)

-- Whatever its items counted, an inbox that the reconciler went through for a user has in each of the
-- user's items the number of the events behind it, and no item more than before.
pub reconcile_users-count_events :
    (users : List Bytes) (b : Inbox) (user subject_type subject_id : Bytes)
    → is_among user users ≡ true
    → (counter event_counts user subject_type subject_id (reconcile_users users b).items ≡ (
        if has_item user subject_type subject_id b.items
        then count_events user subject_type subject_id b.events
        else 0))
      × (length (reconcile_users users b).items ≡ length b.items)
unfolding reconcile_users
reconcile_users-count_events users b user subject_type subject_id among = (
  repaired-counter user subject_type subject_id users b.events b.items among,
  length-update_items (has_drifted users b.events) (repaired b.events) b.items,
)
