-- ===== src/Inbox/Redelivered.antt =====
-- backend/internal/inbox: what a delivery that was made before does to an inbox.
use super_ops.Base.{
  ℕ, ◌≡◌, refl, ap, Bool, true, ◌||◌, List, [], ◌∷◌, length, leb, arith, Bool-cases, inl, inr,
}
use super_ops.Base.Bytes.{str_eq_refl}
use super_ops.Base.Fallible.{ok, err, ◌>>=◌, Yields, Yields-ok}
use super_ops.Inbox.{
  Bytes, Inbox, EventRow, Happening, id_of, event_row, has_event, insert_events, upsert_items,
  deliver_tx,
}
use super_ops.Inbox.Notifier.{deliver, deliver_some, valid_recipients, wanting, max_data_bytes}
use super_ops.Inbox.Prefs.{PrefRows}
use super_ops.Inbox.Steps.{
  Step, delivered, state_set, subject_read, all_read, digest_claimed, reconciled, inbox_after,
  perform, perform_all,
}
use super_ops.Inbox.Updates.{set_state, mark_subject_read, read_all, claim_digest, reconcile_users}

module _ (event_id : Bytes → Bytes → Bytes → Bytes) where
  -- An event that is there stays there.
  insert_events-has_event :
      (id : Bytes) (h : Happening) (users : List Bytes) (es : List EventRow)
      → has_event id es ≡ true
      → has_event id (insert_events event_id h users es).1 ≡ true
  unfolding insert_events has_event
  insert_events-has_event id h [] es there = there
  insert_events-has_event id h (user ∷ users) es there =
      elim (Bool-cases (has_event (id_of event_id h user) es)) [
        | inl old ↦ rw old (insert_events-has_event id h users es there)
        | inr new ↦ rw new (
            insert_events-has_event id h users (event_row (id_of event_id h user) h user ∷ es)
              (ground (arith, there)))
      ]

  unfoldable Recorded : Happening → List Bytes → List EventRow → Type 0
  Recorded h [] es = Unit
  Recorded h (user ∷ users) es = (has_event (id_of event_id h user) es ≡ true) × Recorded h users es

  insert_events-Recorded :
      (h : Happening) (users : List Bytes) (es : List EventRow)
      → Recorded h users (insert_events event_id h users es).1
  unfolding insert_events has_event Recorded
  insert_events-Recorded h [] es = tt
  insert_events-Recorded h (user ∷ users) es =
      let id = id_of event_id h user in
      elim (Bool-cases (has_event id es)) [
        | inl old ↦
            rw old (insert_events-has_event id h users es old, insert_events-Recorded h users es)
        | inr new ↦ rw new (
          insert_events-has_event id h users (event_row id h user ∷ es)
              (ap (λ t. t || has_event id es) (str_eq_refl id)),
          insert_events-Recorded h users (event_row id h user ∷ es),
        )
      ]

  Recorded-insert :
      (h : Happening) (users : List Bytes) (es : List EventRow)
      → Recorded h users es
      → insert_events event_id h users es ≡ ([], es)
  unfolding insert_events Recorded
  Recorded-insert h [] es recorded = refl
  Recorded-insert h (user ∷ users) es (old, recorded) = rw old (Recorded-insert h users es recorded)

  unfoldable Keeps : List EventRow → List EventRow → Type 0
  Keeps es es' = (id : Bytes) → has_event id es ≡ true → has_event id es' ≡ true

  Recorded-Keeps :
      (h : Happening) (users : List Bytes) (es es' : List EventRow)
      → Keeps es es'
      → Recorded h users es
      → Recorded h users es'
  unfolding Recorded Keeps
  Recorded-Keeps h [] es es' keeps recorded = tt
  Recorded-Keeps h (user ∷ users) es es' keeps (old, recorded) =
      (keeps (id_of event_id h user) old, Recorded-Keeps h users es es' keeps recorded)

  module _ (is_uuid : Bytes → Bool) where
    deliver_some-again :
        (h : Happening) (users : List Bytes) (now later : ℕ) (b c : Inbox)
        → Yields
            (λ r.
              Keeps r.1.events c.events
              → deliver_some event_id is_uuid h users later c ≡ ok ([], c))
            (deliver_some event_id is_uuid h users now b)
    unfolding deliver_some deliver_tx upsert_items
    deliver_some-again h [] now later b c = λ keeps. refl
    deliver_some-again h (user ∷ users) now later b c =
        elim (Bool-cases (leb (length h.payload) max_data_bytes)) [
          | inl short ↦ rw short (λ keeps.
              let recorded =
                Recorded-Keeps h (user ∷ users) _ c.events keeps
                  (insert_events-Recorded h (user ∷ users) b.events) in
              rw (Recorded-insert h (user ∷ users) c.events recorded))
          | inr long ↦ rw long tt
        ]

    deliver-again :
        (prefs : Bytes → PrefRows) (h : Happening) (now later : ℕ) (b c : Inbox)
        → Yields
            (λ r. Keeps r.1.events c.events → deliver event_id is_uuid prefs h later c ≡ ok ([], c))
            (deliver event_id is_uuid prefs h now b)
    unfolding deliver
    deliver-again prefs h now later b c =
        elim (valid_recipients event_id is_uuid h)
          as (λ found.
            Yields
              (λ r.
                Keeps r.1.events c.events
                → (found >>= λ users.
                    deliver_some event_id is_uuid h (wanting event_id is_uuid prefs h.kind users)
                      later c)
                  ≡ ok ([], c))
              (found >>= λ users.
                deliver_some event_id is_uuid h (wanting event_id is_uuid prefs h.kind users) now
                  b)) [
                    | err e ↦ tt
                    | ok users ↦
                        deliver_some-again h (wanting event_id is_uuid prefs h.kind users) now later
                          b c
                  ]

    deliver_some-Keeps :
        (h : Happening) (users : List Bytes) (now : ℕ) (b : Inbox)
        → Keeps b.events (inbox_after b (deliver_some event_id is_uuid h users now b)).events
    unfolding deliver_some deliver_tx Keeps
    deliver_some-Keeps h [] now b id there = there
    deliver_some-Keeps h (user ∷ users) now b id there =
        elim (Bool-cases (leb (length h.payload) max_data_bytes)) [
          | inl short ↦ rw short (insert_events-has_event id h (user ∷ users) b.events there)
          | inr long ↦ rw long there
        ]

    deliver-Keeps :
        (prefs : Bytes → PrefRows) (h : Happening) (now : ℕ) (b : Inbox)
        → Keeps b.events (inbox_after b (deliver event_id is_uuid prefs h now b)).events
    unfolding deliver Keeps
    deliver-Keeps prefs h now b id there =
        elim (valid_recipients event_id is_uuid h)
          as (λ found.
            has_event id
              (inbox_after b (
                found >>= λ users.
                deliver_some event_id is_uuid h (wanting event_id is_uuid prefs h.kind users) now
                  b)).events
            ≡ true) [
              | ok users ↦
                  deliver_some-Keeps h (wanting event_id is_uuid prefs h.kind users) now b id there
              | err e ↦ there
            ]

    perform-Keeps : (s : Step) (b : Inbox) → Keeps b.events (perform event_id is_uuid s b).events
    unfolding Keeps perform set_state mark_subject_read read_all claim_digest reconcile_users
    perform-Keeps (delivered prefs h now) b id there = deliver-Keeps prefs h now b id there
    perform-Keeps (state_set user subject_type subject_id state) b id there = there
    perform-Keeps (subject_read user subject_type subject_id) b id there = there
    perform-Keeps (all_read user workspace kind) b id there = there
    perform-Keeps (digest_claimed user claimed now) b id there = there
    perform-Keeps (reconciled users) b id there = there

    perform_all-Keeps :
        (ss : List Step) (b : Inbox) → Keeps b.events (perform_all event_id is_uuid ss b).events
    unfolding Keeps perform_all
    perform_all-Keeps [] b id there = there
    perform_all-Keeps (s ∷ ss) b id there =
        perform_all-Keeps ss (perform event_id is_uuid s b) id (perform-Keeps s b id there)

    -- A happening that was delivered once, and is delivered again at any later time under the same
    -- preferences, whatever steps came between, is new to none of its recipients and leaves the
    -- inbox as it is.
    pub deliver-perform_all :
        (prefs : Bytes → PrefRows) (h : Happening) (now later : ℕ) (ss : List Step) (b b' : Inbox)
        (users : List Bytes)
        → deliver event_id is_uuid prefs h now b ≡ ok (users, b')
        → deliver event_id is_uuid prefs h later (perform_all event_id is_uuid ss b')
          ≡ ok ([], perform_all event_id is_uuid ss b')
    deliver-perform_all prefs h now later ss b b' users first =
        Yields-ok
          (λ r.
            Keeps r.1.events (perform_all event_id is_uuid ss b').events
            → deliver event_id is_uuid prefs h later (perform_all event_id is_uuid ss b')
              ≡ ok ([], perform_all event_id is_uuid ss b'))
          (deliver event_id is_uuid prefs h now b) (users, b')
          (deliver-again prefs h now later b (perform_all event_id is_uuid ss b')) first
          (perform_all-Keeps ss b')
