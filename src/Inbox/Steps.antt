-- ===== src/Inbox/Steps.antt =====
-- backend/internal/inbox: what reaches an inbox after another: deliveries and redeliveries, what its
-- owner does, the digest and the reconciler, each in its transaction.
use super_ops.Base.{ℕ, Bool, List, [], ◌∷◌}
use super_ops.Base.Fallible.{Result, ok, err}
use super_ops.Inbox.{Bytes, Inbox, Item, ItemState, Happening}
use super_ops.Inbox.Notifier.{DeliverError, deliver}
use super_ops.Inbox.Prefs.{PrefRows}
use super_ops.Inbox.Updates.{set_state, mark_subject_read, read_all, claim_digest, reconcile_users}

pub data Step : Type 0 where
  delivered : (Bytes → PrefRows) → Happening → ℕ → Step
  state_set : Bytes → Bytes → Bytes → ItemState → Step
  subject_read : Bytes → Bytes → Bytes → Step
  all_read : Bytes → Bytes → Bytes → Step
  digest_claimed : Bytes → (Item → Bool) → ℕ → Step
  reconciled : List Bytes → Step

-- A delivery that fails leaves the inbox.
abbrev pub inbox_after : Inbox → Result DeliverError (List Bytes × Inbox) → Inbox
inbox_after b (ok (users, b')) = b'
inbox_after b (err e) = b

module _ (event_id : Bytes → Bytes → Bytes → Bytes) (is_uuid : Bytes → Bool) where
  unfoldable pub perform : Step → Inbox → Inbox
  unfolding deliver set_state mark_subject_read read_all claim_digest reconcile_users
  perform (delivered prefs h now) b = inbox_after b (deliver event_id is_uuid prefs h now b)
  perform (state_set user subject_type subject_id state) b =
      set_state user subject_type subject_id state b
  perform (subject_read user subject_type subject_id) b =
      mark_subject_read user subject_type subject_id b
  perform (all_read user workspace kind) b = read_all user workspace kind b
  perform (digest_claimed user claimed now) b = claim_digest user claimed now b
  perform (reconciled users) b = reconcile_users users b

  unfoldable pub perform_all : List Step → Inbox → Inbox
  unfolding perform
  perform_all [] b = b
  perform_all (s ∷ ss) b = perform_all ss (perform s b)
