-- ===== src/Inbox/Invariant.antt =====
-- backend/internal/inbox: the counters through the steps of an inbox.
use super_ops.Base.{
  ℕ, suc, leb, length, ◌+◌, ◌≡◌, refl, sym, ap, ◌∙◌, Bool, true, false, List, [], ◌∷◌, arith, subst,
  ==_refl, Bool-cases, inl, inr, if◌then◌else◌,
}
use super_ops.Base.Bytes.{str_eq→eq}
use super_ops.Base.Fallible.{ok, err, ◌>>=◌}
use super_ops.Inbox.{
  Bytes, Inbox, Item, EventRow, Happening, is_about, insert_events, deliver_tx, new_item, bumped,
}
use super_ops.Inbox.Notifier.{deliver, deliver_some, valid_recipients, wanting, max_data_bytes}
use super_ops.Inbox.Prefs.{PrefRows}
use super_ops.Inbox.Updates.{
  update_items, set_state, mark_subject_read, read_all, claim_digest, count_events, has_drifted,
  repaired, reconcile_users,
}
use super_ops.Inbox.Counted.{
  counter, IsCounted, event_counts, unread_counts, gained, insert_events-count,
  upsert_items-counter, update_items-counter,
}
use super_ops.Inbox.Steps.{
  Step, delivered, state_set, subject_read, all_read, digest_claimed, reconciled, inbox_after,
  perform, perform_all,
}

-- Of each counter alone.
abbrev Counts : (Item → ℕ) → Inbox → Type 0
Counts field b =
    (user subject_type subject_id : Bytes)
    → counter field user subject_type subject_id b.items
      ≡ count_events user subject_type subject_id b.events

module _ (event_id : Bytes → Bytes → Bytes → Bytes) where
  deliver_tx-Counts :
      (field : Item → ℕ)
      → ((h : Happening) (v : Bytes) (now : ℕ) → field (new_item h v now) ≡ 1)
      → ((h : Happening) (now : ℕ) (i : Item) → field (bumped h now i) ≡ suc (field i))
      → (h : Happening) (users : List Bytes) (now : ℕ) (b : Inbox) → Counts field b
      → Counts field (deliver_tx event_id h users now b).1
  unfolding deliver_tx
  deliver_tx-Counts field starts counts h users now b counted user subject_type subject_id =
      upsert_items-counter user subject_type subject_id field starts counts h
        (insert_events event_id h users b.events).0 now b.items
      ∙ ap
          (λ n.
            n + gained user subject_type subject_id h (insert_events event_id h users b.events).0)
          (counted user subject_type subject_id)
      ∙ sym (insert_events-count user subject_type subject_id event_id h users b.events)

-- An item whose counter is the number of its events has not drifted.
counted-has_drifted :
    (user subject_type subject_id : Bytes) (users : List Bytes) (es : List EventRow) (i : Item)
    → is_about user subject_type subject_id i ≡ true
    → i.event_count ≡ count_events user subject_type subject_id es
    → has_drifted users es i ≡ false
counted-has_drifted user subject_type subject_id users es i about counted =
    let owner : i.owner_id ≡ user = str_eq→eq i.owner_id user (ground arith) in
    let type : i.about_type ≡ subject_type = str_eq→eq i.about_type subject_type (ground arith) in
    let id : i.about_id ≡ subject_id = str_eq→eq i.about_id subject_id (ground arith) in
    rw (owner, type, id, counted, ==_refl (count_events user subject_type subject_id es))
      (ground arith)

about-repaired :
    (user subject_type subject_id : Bytes) (users : List Bytes) (es : List EventRow) (i : Item)
    → is_about user subject_type subject_id (if has_drifted users es i then repaired es i else i)
      ≡ is_about user subject_type subject_id i
about-repaired user subject_type subject_id users es i =
    elim (Bool-cases (has_drifted users es i)) [ inl hit ↦ rw hit | inr miss ↦ rw miss ]

reconcile-counter :
    (field : Item → ℕ) (user subject_type subject_id : Bytes) (users : List Bytes)
    (es : List EventRow) (items : List Item)
    → counter event_counts user subject_type subject_id items
      ≡ count_events user subject_type subject_id es
    → counter field user subject_type subject_id
        (update_items (has_drifted users es) (repaired es) items)
      ≡ counter field user subject_type subject_id items
unfolding update_items counter
reconcile-counter field user subject_type subject_id users es [] counted = refl
reconcile-counter field user subject_type subject_id users es (i ∷ is) counted =
    elim (Bool-cases (is_about user subject_type subject_id i)) [
      | inl about ↦
          let same : has_drifted users es i ≡ false =
            counted-has_drifted user subject_type subject_id users es i about (
              subst
                (λ t.
                  (if t
                    then i.event_count
                    else counter event_counts user subject_type subject_id is)
                  ≡ count_events user subject_type subject_id es)
                about counted) in
          rw (same, about)
      | inr other ↦
          let kept : is_about user subject_type subject_id
                (if has_drifted users es i then repaired es i else i)
              ≡ false =
            about-repaired user subject_type subject_id users es i ∙ other in
          rw (kept, other)
            (reconcile-counter field user subject_type subject_id users es is (
              subst
                (λ t.
                  (if t
                    then i.event_count
                    else counter event_counts user subject_type subject_id is)
                  ≡ count_events user subject_type subject_id es)
                other counted))
    ]

-- An update of the state or of the mail that was sent leaves the counters.
update_items-Counts :
    (field : Item → ℕ) (test : Item → Bool) (change : Item → Item) (b : Inbox)
    → ((user subject_type subject_id : Bytes) (i : Item)
        → is_about user subject_type subject_id (change i)
          ≡ is_about user subject_type subject_id i)
    → ((i : Item) → field (change i) ≡ field i)
    → Counts field b
    → Counts field (record b { items = update_items test change b.items })
update_items-Counts field test change b about keeps counted user subject_type subject_id =
    update_items-counter user subject_type subject_id field test change
      (about user subject_type subject_id) keeps b.items
    ∙ counted user subject_type subject_id

update_items-IsCounted :
    (test : Item → Bool) (change : Item → Item) (b : Inbox)
    → ((user subject_type subject_id : Bytes) (i : Item)
        → is_about user subject_type subject_id (change i)
          ≡ is_about user subject_type subject_id i)
    → ((i : Item) → (change i).event_count ≡ i.event_count)
    → ((i : Item) → (change i).unread_count ≡ i.unread_count)
    → IsCounted b
    → IsCounted (record b { items = update_items test change b.items })
update_items-IsCounted test change b about events unread counted = record {
  events_counted =
      update_items-Counts event_counts test change b about events counted.events_counted;
  unread_counted =
      update_items-Counts unread_counts test change b about unread counted.unread_counted;
}

reconcile_users-IsCounted :
    (users : List Bytes) (b : Inbox) → IsCounted b → IsCounted (reconcile_users users b)
unfolding reconcile_users
reconcile_users-IsCounted users b counted = record {
  events_counted = λ user subject_type subject_id.
      reconcile-counter event_counts user subject_type subject_id users b.events b.items
        (counted.events_counted user subject_type subject_id)
      ∙ counted.events_counted user subject_type subject_id;
  unread_counted = λ user subject_type subject_id.
      reconcile-counter unread_counts user subject_type subject_id users b.events b.items
        (counted.events_counted user subject_type subject_id)
      ∙ counted.unread_counted user subject_type subject_id;
}

module _ (event_id : Bytes → Bytes → Bytes → Bytes) (is_uuid : Bytes → Bool) where
  deliver_tx-IsCounted :
      (h : Happening) (users : List Bytes) (now : ℕ) (b : Inbox)
      → IsCounted b
      → IsCounted (deliver_tx event_id h users now b).1
  deliver_tx-IsCounted h users now b counted = record {
    events_counted =
        deliver_tx-Counts event_id event_counts (λ h v now. refl) (λ h now i. omega arith) h users
          now b counted.events_counted;
    unread_counted =
        deliver_tx-Counts event_id unread_counts (λ h v now. refl) (λ h now i. omega arith) h users
          now b counted.unread_counted;
  }

  deliver_some-IsCounted :
      (h : Happening) (users : List Bytes) (now : ℕ) (b : Inbox)
      → IsCounted b
      → IsCounted (inbox_after b (deliver_some event_id is_uuid h users now b))
  unfolding deliver_some
  deliver_some-IsCounted h [] now b counted = counted
  deliver_some-IsCounted h (user ∷ users) now b counted =
      elim (Bool-cases (leb (length h.payload) max_data_bytes)) [
        | inl short ↦ rw short (deliver_tx-IsCounted h (user ∷ users) now b counted)
        | inr long ↦ rw long counted
      ]

  deliver-IsCounted :
      (prefs : Bytes → PrefRows) (h : Happening) (now : ℕ) (b : Inbox)
      → IsCounted b
      → IsCounted (inbox_after b (deliver event_id is_uuid prefs h now b))
  unfolding deliver
  deliver-IsCounted prefs h now b counted =
      elim (valid_recipients event_id is_uuid h)
        as (λ r. IsCounted (
          inbox_after b (
            r >>= λ users.
            deliver_some event_id is_uuid h (wanting event_id is_uuid prefs h.kind users) now b))) [
              | ok users ↦
                  deliver_some-IsCounted h (wanting event_id is_uuid prefs h.kind users) now b
                    counted
              | err e ↦ counted
            ]

  perform-IsCounted :
      (s : Step) (b : Inbox) → IsCounted b → IsCounted (perform event_id is_uuid s b)
  unfolding perform set_state mark_subject_read read_all claim_digest
  perform-IsCounted (delivered prefs h now) b counted = deliver-IsCounted prefs h now b counted
  perform-IsCounted (state_set user subject_type subject_id state) b counted =
      update_items-IsCounted (is_about user subject_type subject_id)
        (λ i. record i { state = state }) b (λ u t s i. refl) (λ i. refl) (λ i. refl) counted
  perform-IsCounted (subject_read user subject_type subject_id) b counted =
      update_items-IsCounted _ _ b (λ u t s i. refl) (λ i. refl) (λ i. refl) counted
  perform-IsCounted (all_read user workspace kind) b counted =
      update_items-IsCounted _ _ b (λ u t s i. refl) (λ i. refl) (λ i. refl) counted
  perform-IsCounted (digest_claimed user claimed now) b counted =
      update_items-IsCounted _ _ b (λ u t s i. refl) (λ i. refl) (λ i. refl) counted
  perform-IsCounted (reconciled users) b counted = reconcile_users-IsCounted users b counted

  -- Both counters of the item of each user and subject are the number of the events behind it, after
  -- any deliveries, redeliveries, changes of state, digests and reconciliations from an inbox where
  -- they are.
  pub perform_all-IsCounted :
      (ss : List Step) (b : Inbox) → IsCounted b → IsCounted (perform_all event_id is_uuid ss b)
  unfolding perform_all
  perform_all-IsCounted [] b counted = counted
  perform_all-IsCounted (s ∷ ss) b counted =
      perform_all-IsCounted ss (perform event_id is_uuid s b) (perform-IsCounted s b counted)
