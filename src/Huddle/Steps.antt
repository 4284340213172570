-- ===== src/Huddle/Steps.antt =====
-- What happens to the tables: requests, deliveries of webhooks, and passes of the reconciler.
use super_ops.Base.{ℕ, Bool, List, [], ◌∷◌}
use super_ops.Base.Fallible.{Result, ok, err}
use super_ops.Huddle.{Bytes, Tables, HuddleError, Start, Event, apply}
use super_ops.Huddle.Calls.{start_call, end_call, RoomAnswer, reconcile_huddles}

-- A webhook is delivered again when it was not answered, and may be when it was.
pub data Step : Type 0 where
  start : Bool → Bool → Start → ℕ → Step
  finish : Bool → Bool → Bytes → ℕ → Step
  deliver : Event → ℕ → Step
  reconcile : (Bytes → RoomAnswer) → ℕ → Step

abbrev pub applied : Result HuddleError Tables → Tables → Tables
applied (err problem) t = t
applied (ok t') t = t'

unfoldable pub perform : Step → Tables → Tables
perform (start can_read room_created s now) t = (start_call can_read room_created s now t).1
perform (finish can_read can_write channel now) t = end_call can_read can_write channel now t
perform (deliver e now) t = applied (apply e now t) t
perform (reconcile room now) t = reconcile_huddles room now t

unfoldable pub perform_all : List Step → Tables → Tables
perform_all [] t = t
perform_all (s ∷ ss) t = perform_all ss (perform s t)
