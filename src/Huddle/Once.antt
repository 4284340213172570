-- ===== src/Huddle/Once.antt =====
-- A webhook that is delivered again changes nothing.
use super_ops.Base.{
  ℕ, ◌≡◌, refl, ap, ◌∙◌, Bool, true, false, ◌&&◌, ◌||◌, not, List, [], ◌∷◌, Option, none, some,
  arith, Bool-cases, inl, inr, if◌then◌else◌,
}
use super_ops.Base.Bytes.{str_eq}
use super_ops.Base.Fallible.{ok, err}
use super_ops.Huddle.{
  Bytes, Huddle, Tables, CloseReason, Event, EventType, participant_joined, participant_left,
  track_published, track_unpublished, room_finished, other, apply, apply_type, applied_in, by_room,
  any_of, is_set, end_huddle, start_or_join, Started, selected, Start, scope_channel, is_open_call,
  live, failed, ended_by_user, reconciled, empty, reconcile_participants,
}
use super_ops.Huddle.Calls.{
  start_call, with_room, end_call, ended_call, RoomAnswer, room_not_found, room_unavailable,
  room_with, reconcile_one, reconcile_each, reconcile_huddles, stale_live, huddle_reconcile_grace,
}
use super_ops.Huddle.Steps.{Step, start, finish, deliver, reconcile, perform, perform_all}

abbrev pub was_seen : List Bytes → Bytes → Bool
was_seen seen id = any_of (λ known. str_eq known id) seen

-- The steps with only the first delivery of each event, and none of an event without an id.
unfoldable pub firsts : List Bytes → List Step → List Step
firsts seen [] = []
firsts seen (deliver e now ∷ ss) =
    let skip = firsts seen ss in
    let keep = firsts (e.id ∷ seen) ss in
    if not (is_set e.id) || was_seen seen e.id then skip else deliver e now ∷ keep
firsts seen (start can_read room_created s now ∷ ss) =
    start can_read room_created s now ∷ firsts seen ss
firsts seen (finish can_read can_write channel now ∷ ss) =
    finish can_read can_write channel now ∷ firsts seen ss
firsts seen (reconcile room now ∷ ss) = reconcile room now ∷ firsts seen ss

end_huddle-events :
    (id : Bytes) (reason : CloseReason) (now : ℕ) (t : Tables)
    → (end_huddle id reason now t).1.events ≡ t.events
unfolding end_huddle
end_huddle-events id reason now t = elim (Bool-cases (any_of (is_open_call id) t.huddles)) [
  | inl e ↦ rw e
  | inr e ↦ rw e
]

selected-events :
    (found : Option Huddle) (created : Bool) (before t : Tables)
    → t.events ≡ before.events
    → (selected found created before t).1.events ≡ before.events
selected-events none created before t same = refl
selected-events (some h) created before t same = same

start_or_join-events :
    (s : Start) (now : ℕ) (t : Tables) → (start_or_join s now t).1.events ≡ t.events
unfolding start_or_join
start_or_join-events s now t = elim (Bool-cases (str_eq s.scope_type scope_channel)) [
  | inr unsupported ↦ rw unsupported
  | inl supported ↦ rw supported (selected-events _ _ t _ refl)
]

with_room-events :
    (room_created : Bool) (now : ℕ) (r : Started)
    → (with_room room_created now r).1.events ≡ r.1.events
with_room-events room_created now (err problem, t) = refl
with_room-events room_created now (ok (h, false), t) = refl
with_room-events true now (ok (h, true), t) = refl
with_room-events false now (ok (h, true), t) = end_huddle-events h.id failed now t

ended_call-events :
    (found : Option Huddle) (now : ℕ) (t : Tables) → (ended_call found now t).events ≡ t.events
ended_call-events none now t = refl
ended_call-events (some h) now t = end_huddle-events h.id ended_by_user now t

reconcile_one-events :
    (answer : RoomAnswer) (h : Huddle) (now : ℕ) (t : Tables)
    → (reconcile_one answer h now t).events ≡ t.events
unfolding reconcile_one reconcile_participants
reconcile_one-events room_not_found h now t = end_huddle-events h.id reconciled now t
reconcile_one-events room_unavailable h now t = refl
reconcile_one-events (room_with []) h now t = end_huddle-events h.id empty now t
reconcile_one-events (room_with (p ∷ ps)) h now t = refl

reconcile_each-events :
    (room : Bytes → RoomAnswer) (hs : List Huddle) (now : ℕ) (t : Tables)
    → (reconcile_each room hs now t).events ≡ t.events
unfolding reconcile_each
reconcile_each-events room [] now t = refl
reconcile_each-events room (h ∷ hs) now t =
    reconcile_each-events room hs now (reconcile_one (room h.room) h now t)
    ∙ reconcile_one-events (room h.room) h now t

apply_type-events :
    (type : EventType) (id : Bytes) (e : Event) (now : ℕ) (t : Tables)
    → (apply_type type id e now t).events ≡ t.events
unfolding apply_type
apply_type-events participant_joined id e now t =
    elim (Bool-cases (is_set e.identity && is_set e.sid)) [
      | inl named ↦ rw named
      | inr unnamed ↦ rw unnamed
    ]
apply_type-events room_finished id e now t = refl
apply_type-events participant_left id e now t = refl
apply_type-events track_published id e now t = refl
apply_type-events track_unpublished id e now t = refl
apply_type-events other id e now t = refl

applied_in-events :
    (found : Option Huddle) (e : Event) (now : ℕ) (t : Tables)
    → (applied_in found e now t).events ≡ t.events
applied_in-events none e now t = refl
applied_in-events (some h) e now t = apply_type-events e.type h.id e now t

-- Steps that deliver nothing record nothing.
start-events :
    (can_read room_created : Bool) (s : Start) (now : ℕ) (t : Tables)
    → (perform (start can_read room_created s now) t).events ≡ t.events
unfolding perform start_call
start-events true room_created s now t =
    with_room-events room_created now (start_or_join s now t) ∙ start_or_join-events s now t
start-events false room_created s now t = refl

finish-events :
    (can_read can_write : Bool) (channel : Bytes) (now : ℕ) (t : Tables)
    → (perform (finish can_read can_write channel now) t).events ≡ t.events
unfolding perform end_call
finish-events can_read can_write channel now t = elim (Bool-cases (can_read && can_write)) [
  | inl may ↦ rw may (ended_call-events (live scope_channel channel t.huddles) now t)
  | inr may_not ↦ rw may_not
]

reconcile-events :
    (room : Bytes → RoomAnswer) (now : ℕ) (t : Tables)
    → (perform (reconcile room now) t).events ≡ t.events
unfolding perform reconcile_huddles
reconcile-events room now t =
    reconcile_each-events room (stale_live huddle_reconcile_grace 200 now t.huddles) now t

-- A delivery is skipped, or it is recorded.
skipped :
    (e : Event) (now : ℕ) (t : Tables)
    → (not (is_set e.id) || was_seen t.events e.id) ≡ true
    → perform (deliver e now) t ≡ t
unfolding perform apply
skipped e now t h = elim (Bool-cases (is_set e.id)) [
  | inr anonymous ↦ rw anonymous
  | inl named ↦ let seen : was_seen t.events e.id ≡ true = ground arith in rw (named, seen)
]

recorded :
    (e : Event) (now : ℕ) (t : Tables)
    → (not (is_set e.id) || was_seen t.events e.id) ≡ false
    → (perform (deliver e now) t).events ≡ e.id ∷ t.events
unfolding perform apply
recorded e now t h =
    let named : is_set e.id ≡ true = ground arith in
    let new : was_seen t.events e.id ≡ false = ground arith in
    rw (named, new)
      (applied_in-events (by_room e.room t.huddles) e now (record t { events = e.id ∷ t.events }))

-- Among any requests and passes of the reconciler, webhooks that are delivered any number of times have
-- the effect of the first delivery of each event, and those without an id have none.
pub perform_all-firsts :
    (ss : List Step) (t : Tables) → perform_all ss t ≡ perform_all (firsts t.events ss) t
unfolding perform_all firsts
perform_all-firsts [] t = refl
perform_all-firsts (deliver e now ∷ ss) t =
    elim (Bool-cases (not (is_set e.id) || was_seen t.events e.id)) [
      | inl skip ↦ rw (skip, skipped e now t skip) (perform_all-firsts ss t)
      | inr keep ↦ rw keep (
          perform_all-firsts ss (perform (deliver e now) t)
          ∙ ap (λ seen. perform_all (firsts seen ss) (perform (deliver e now) t))
              (recorded e now t keep))
    ]
perform_all-firsts (start can_read room_created s now ∷ ss) t =
    perform_all-firsts ss (perform (start can_read room_created s now) t)
    ∙ ap (λ seen. perform_all (firsts seen ss) (perform (start can_read room_created s now) t))
        (start-events can_read room_created s now t)
perform_all-firsts (finish can_read can_write channel now ∷ ss) t =
    perform_all-firsts ss (perform (finish can_read can_write channel now) t)
    ∙ ap (λ seen. perform_all (firsts seen ss) (perform (finish can_read can_write channel now) t))
        (finish-events can_read can_write channel now t)
perform_all-firsts (reconcile room now ∷ ss) t =
    perform_all-firsts ss (perform (reconcile room now) t)
    ∙ ap (λ seen. perform_all (firsts seen ss) (perform (reconcile room now) t))
        (reconcile-events room now t)
