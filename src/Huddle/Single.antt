-- ===== src/Huddle/Single.antt =====
-- At most one live call for a scope.
use super_ops.Base.{
  ℕ, suc, ◌≤◌, ◌≡◌, refl, ap, Bool, true, false, ◌&&◌, List, [], ◌∷◌, Option, none, some, arith,
  Bool-cases, inl, inr, if◌then◌else◌,
}
use super_ops.Base.Bytes.{str_eq, str_eq→eq}
use super_ops.Base.Fallible.{ok, err}
use super_ops.Huddle.{
  Bytes, Huddle, Tables, CloseReason, Start, Started, started, live, is_live_in, find_huddle,
  start_or_join, insert_huddle, selected, scope_channel, end_huddle, update_where, ending,
  is_open_call, any_of, Event, EventType, participant_joined, participant_left, track_published,
  track_unpublished, room_finished, other, apply, apply_type, applied_in, by_room,
  reconcile_participants, empty, failed, reconciled, ended_by_user, is_set, or_now,
}
use super_ops.Huddle.Calls.{
  start_call, with_room, end_call, ended_call, RoomAnswer, room_not_found, room_unavailable,
  room_with, reconcile_one, reconcile_each, reconcile_huddles, stale_live, huddle_reconcile_grace,
}
use super_ops.Huddle.Steps.{Step, start, finish, deliver, reconcile, applied, perform, perform_all}

-- The live calls of a scope.
unfoldable pub live_calls : Bytes → Bytes → List Huddle → ℕ
live_calls scope_type scope_id [] = 0
live_calls scope_type scope_id (h ∷ hs) =
    let rest = live_calls scope_type scope_id hs in
    if is_live_in scope_type scope_id h then suc rest else rest

abbrev pub IsSingle : Tables → Type 0
IsSingle t = (scope_type scope_id : Bytes) → live_calls scope_type scope_id t.huddles ≤ 1

-- Nothing that ends calls adds to them.
update_where-live :
    (st sid : Bytes) (test : Huddle → Bool) (at : ℕ) (reason : CloseReason) (hs : List Huddle)
    → live_calls st sid (update_where test (ending at reason) hs) ≤ live_calls st sid hs
unfolding live_calls update_where
update_where-live st sid test at reason [] = omega arith
update_where-live st sid test at reason (h ∷ hs) =
    ground (arith, update_where-live st sid test at reason hs)

find-none : (st sid : Bytes) (hs : List Huddle) → live st sid hs ≡ none → live_calls st sid hs ≡ 0
unfolding find_huddle live_calls
find-none st sid [] h = refl
find-none st sid (g ∷ hs) h = elim (Bool-cases (is_live_in st sid g)) [
  | inl e ↦ absurd (cc (rw e at h))
  | inr e ↦ rw e (find-none st sid hs (rw e at h))
]

end_huddle-IsSingle :
    (id : Bytes) (reason : CloseReason) (now : ℕ) (t : Tables)
    → IsSingle t
    → IsSingle (end_huddle id reason now t).1
unfolding end_huddle
end_huddle-IsSingle id reason now t s st sid =
    elim (Bool-cases (any_of (is_open_call id) t.huddles)) [
      | inl e ↦
          rw e (
            omega
              (arith, s st sid, update_where-live st sid (is_open_call id) now reason t.huddles))
      | inr e ↦ rw e (s st sid)
    ]

insert_huddle-single :
    (s : Start) (now : ℕ) (hs : List Huddle)
    → ((st sid : Bytes) → live_calls st sid hs ≤ 1)
    → (found : Option Huddle) → live s.scope_type s.scope_id hs ≡ found
    → (st sid : Bytes) → live_calls st sid (insert_huddle found (started s now) hs).1 ≤ 1
unfolding live_calls
insert_huddle-single s now hs single (some h) e st sid = single st sid
insert_huddle-single s now hs single none e st sid =
    elim (Bool-cases (is_live_in st sid (started s now))) [
      | inr elsewhere ↦ rw elsewhere (single st sid)
      | inl here ↦
          let same : s.scope_type ≡ st = str_eq→eq s.scope_type st (ground arith) in
          let same' : s.scope_id ≡ sid = str_eq→eq s.scope_id sid (ground arith) in
          rw here (
            omega (
              arith,
              ap (λ k. live_calls k sid hs) same,
              ap (λ k. live_calls s.scope_type k hs) same',
              find-none s.scope_type s.scope_id hs e,
            ))
    ]

selected-IsSingle :
    (found : Option Huddle) (created : Bool) (before t : Tables)
    → IsSingle before
    → IsSingle t
    → IsSingle (selected found created before t).1
selected-IsSingle none created before t single single' = single
selected-IsSingle (some h) created before t single single' = single'

-- A call is started only where its scope has none.
start_or_join-IsSingle :
    (s : Start) (now : ℕ) (t : Tables) → IsSingle t → IsSingle (start_or_join s now t).1
unfolding start_or_join
start_or_join-IsSingle s now t single = elim (Bool-cases (str_eq s.scope_type scope_channel)) [
  | inr unsupported ↦ rw unsupported single
  | inl supported ↦ rw supported (
      selected-IsSingle _ _ t _ single
        (insert_huddle-single s now t.huddles single (live s.scope_type s.scope_id t.huddles) refl))
]

with_room-IsSingle :
    (room_created : Bool) (now : ℕ) (r : Started)
    → IsSingle r.1
    → IsSingle (with_room room_created now r).1
with_room-IsSingle room_created now (err problem, t) single = single
with_room-IsSingle room_created now (ok (h, false), t) single = single
with_room-IsSingle true now (ok (h, true), t) single = single
with_room-IsSingle false now (ok (h, true), t) single = end_huddle-IsSingle h.id failed now t single

apply_type-IsSingle :
    (type : EventType) (id : Bytes) (e : Event) (now : ℕ) (t : Tables)
    → IsSingle t
    → IsSingle (apply_type type id e now t)
unfolding apply_type
apply_type-IsSingle participant_joined id e now t single =
    elim (Bool-cases (is_set e.identity && is_set e.sid)) [
      | inl named ↦ rw named single
      | inr unnamed ↦ rw unnamed single
    ]
apply_type-IsSingle room_finished id e now t single = λ st sid. omega (
  arith,
  single st sid,
  update_where-live st sid (is_open_call id) (or_now e.at now) empty t.huddles,
)
apply_type-IsSingle participant_left id e now t single = single
apply_type-IsSingle track_published id e now t single = single
apply_type-IsSingle track_unpublished id e now t single = single
apply_type-IsSingle other id e now t single = single

applied_in-IsSingle :
    (found : Option Huddle) (e : Event) (now : ℕ) (t : Tables)
    → IsSingle t
    → IsSingle (applied_in found e now t)
applied_in-IsSingle none e now t single = single
applied_in-IsSingle (some h) e now t single = apply_type-IsSingle e.type h.id e now t single

apply-IsSingle :
    (e : Event) (now : ℕ) (t : Tables) → IsSingle t → IsSingle (applied (apply e now t) t)
unfolding apply
apply-IsSingle e now t single = elim (Bool-cases (is_set e.id)) [
  | inr anonymous ↦ rw anonymous single
  | inl named ↦ elim (Bool-cases (any_of (λ known. str_eq known e.id) t.events)) [
    | inl again ↦ rw (named, again) single
    | inr new ↦ rw (named, new) (applied_in-IsSingle (by_room e.room t.huddles) e now _ single)
  ]
]

ended_call-IsSingle :
    (found : Option Huddle) (now : ℕ) (t : Tables) → IsSingle t → IsSingle (ended_call found now t)
ended_call-IsSingle none now t single = single
ended_call-IsSingle (some h) now t single = end_huddle-IsSingle h.id ended_by_user now t single

reconcile_one-IsSingle :
    (answer : RoomAnswer) (h : Huddle) (now : ℕ) (t : Tables)
    → IsSingle t
    → IsSingle (reconcile_one answer h now t)
unfolding reconcile_one reconcile_participants
reconcile_one-IsSingle room_not_found h now t single =
    end_huddle-IsSingle h.id reconciled now t single
reconcile_one-IsSingle room_unavailable h now t single = single
reconcile_one-IsSingle (room_with []) h now t single = end_huddle-IsSingle h.id empty now t single
reconcile_one-IsSingle (room_with (p ∷ ps)) h now t single = single

reconcile_each-IsSingle :
    (room : Bytes → RoomAnswer) (hs : List Huddle) (now : ℕ) (t : Tables)
    → IsSingle t
    → IsSingle (reconcile_each room hs now t)
unfolding reconcile_each
reconcile_each-IsSingle room [] now t single = single
reconcile_each-IsSingle room (h ∷ hs) now t single =
    reconcile_each-IsSingle room hs now (reconcile_one (room h.room) h now t)
      (reconcile_one-IsSingle (room h.room) h now t single)

perform-IsSingle : (s : Step) (t : Tables) → IsSingle t → IsSingle (perform s t)
unfolding perform start_call end_call reconcile_huddles
perform-IsSingle (start true room_created s now) t single =
    with_room-IsSingle room_created now (start_or_join s now t)
      (start_or_join-IsSingle s now t single)
perform-IsSingle (start false room_created s now) t single = single
perform-IsSingle (finish can_read can_write channel now) t single =
    elim (Bool-cases (can_read && can_write)) [
      | inl may ↦ rw may (ended_call-IsSingle (live scope_channel channel t.huddles) now t single)
      | inr may_not ↦ rw may_not single
    ]
perform-IsSingle (deliver e now) t single = apply-IsSingle e now t single
perform-IsSingle (reconcile room now) t single =
    reconcile_each-IsSingle room (stale_live huddle_reconcile_grace 200 now t.huddles) now t single

-- Through any requests, deliveries and passes of the reconciler, whatever the media server answers, a
-- scope has at most one live call.
pub perform_all-IsSingle :
    (ss : List Step) (t : Tables)
    → ((scope_type scope_id : Bytes) → live_calls scope_type scope_id t.huddles ≤ 1)
    → (scope_type scope_id : Bytes) → live_calls scope_type scope_id (perform_all ss t).huddles ≤ 1
unfolding perform_all
perform_all-IsSingle [] t single = single
perform_all-IsSingle (s ∷ ss) t single =
    perform_all-IsSingle ss (perform s t) (perform-IsSingle s t single)
