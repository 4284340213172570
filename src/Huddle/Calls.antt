-- ===== src/Huddle/Calls.antt =====
-- The handlers over the tables (handler.go), and the reconciling job (backend/cmd/worker/main.go).
use super_ops.Base.{
  ℕ, ◌-◌, Bool, true, false, ◌&&◌, not, List, [], ◌∷◌, Option, none, some, ltb, if◌then◌else◌,
}
use super_ops.Base.Bytes.{str_eq}
use super_ops.Base.Fallible.{ok, err}
use super_ops.Base.Slices.{take}
use super_ops.Huddle.{
  Bytes, Huddle, Participant, Tables, HuddleError, not_found, media_unavailable, CloseReason, empty,
  ended_by_user, reconciled, failed, is_open, live, scope_channel, Start, start_or_join, end_huddle,
  reconcile_participants, Started,
}

-- The end of `Handler.Start` where the room could not be created: the call is ended again.
abbrev pub with_room : Bool → ℕ → Started → Started
with_room room_created now (err problem, t) = (err problem, t)
with_room room_created now (ok (h, false), t) = (ok (h, false), t)
with_room true now (ok (h, true), t) = (ok (h, true), t)
with_room false now (ok (h, true), t) = (err media_unavailable, (end_huddle h.id failed now t).1)

-- `Handler.Start`: whether the caller can read the channel, and whether the media server makes the room.
unfoldable pub start_call : Bool → Bool → Start → ℕ → Tables → Started
unfolding start_or_join end_huddle
start_call can_read room_created s now t =
    if not can_read then (err not_found, t) else with_room room_created now (start_or_join s now t)

abbrev pub ended_call : Option Huddle → ℕ → Tables → Tables
ended_call none now t = t
ended_call (some h) now t = (end_huddle h.id ended_by_user now t).1

-- `Handler.End`.
unfoldable pub end_call : Bool → Bool → Bytes → ℕ → Tables → Tables
unfolding end_huddle str_eq super_ops.Huddle.find_huddle
end_call can_read can_write channel now t =
    if not (can_read && can_write)
    then t
    else ended_call (live scope_channel channel t.huddles) now t

-- `StaleLive`: the oldest first, as many as the limit.
unfoldable pub insert_by_age : Huddle → List Huddle → List Huddle
insert_by_age h [] = h ∷ []
insert_by_age h (g ∷ gs) =
    let rest = insert_by_age h gs in if ltb h.created_at g.created_at then h ∷ g ∷ gs else g ∷ rest

unfoldable pub stale : ℕ → List Huddle → List Huddle
unfolding insert_by_age
stale before [] = []
stale before (h ∷ hs) =
    let rest = stale before hs in
    if is_open h.ended && ltb h.created_at before then insert_by_age h rest else rest

abbrev pub stale_live : ℕ → ℕ → ℕ → List Huddle → List Huddle
stale_live older_than limit now hs = take limit (stale (now - older_than) hs)

-- What the media server answers about a room.
pub data RoomAnswer : Type 0 where
  room_not_found room_unavailable : RoomAnswer
  room_with : List Participant → RoomAnswer

-- A round of the loop of `reconcileHuddles`.
unfoldable pub reconcile_one : RoomAnswer → Huddle → ℕ → Tables → Tables
unfolding end_huddle reconcile_participants
reconcile_one room_not_found h now t = (end_huddle h.id reconciled now t).1
reconcile_one room_unavailable h now t = t
reconcile_one (room_with []) h now t = (end_huddle h.id empty now t).1
reconcile_one (room_with (p ∷ ps)) h now t = reconcile_participants h.id (p ∷ ps) now t

unfoldable pub reconcile_each : (Bytes → RoomAnswer) → List Huddle → ℕ → Tables → Tables
unfolding reconcile_one
reconcile_each room [] now t = t
reconcile_each room (h ∷ hs) now t =
    reconcile_each room hs now (reconcile_one (room h.room) h now t)

abbrev pub huddle_reconcile_grace : ℕ
huddle_reconcile_grace = 60

-- `reconcileHuddles`, in seconds.
unfoldable pub reconcile_huddles : (Bytes → RoomAnswer) → ℕ → Tables → Tables
unfolding reconcile_each stale
reconcile_huddles room now t =
    reconcile_each room (stale_live huddle_reconcile_grace 200 now t.huddles) now t
