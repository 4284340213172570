-- ===== src/Huddle/Tests.antt =====
-- Two people start a call at once, and what repeated, late and unshared events make of its roster.
use super_ops.Base.{
  ◌≤◌, ◌≡◌, refl, Bool, true, false, ◌&&◌, ◌||◌, not, List, [], ◌∷◌, none, map, arith,
}
use super_ops.Base.Bytes.{codes, str_eq}
use super_ops.Huddle.{
  Bytes, Huddle, Participant, Tables, Start, Event, EventType, participant_joined, participant_left,
  track_published, track_unpublished, room_finished, scope_channel, started, any_of,
  is_open_session, is_session, is_listed, reconcile_participants, roster, start_or_join, bad_scope,
}
use super_ops.Huddle.Calls.{room_not_found, room_unavailable, start_call}
use super_ops.Huddle.Once.{firsts, perform_all-firsts}
use super_ops.Huddle.Roster.{reconcile_participants-roster}
use super_ops.Huddle.Single.{live_calls, perform_all-IsSingle}
use super_ops.Huddle.Steps.{Step, start, finish, deliver, reconcile, perform_all}

abbrev no_calls : Tables
no_calls = record { huddles = []; participants = []; events = [] }

abbrev by : Bytes → Bytes → Start
by id actor = record {
  id = id;
  workspace_id = codes "w";
  scope_type = scope_channel;
  scope_id = codes "general";
  actor = actor;
  max_participants = 10;
}

abbrev event : Bytes → EventType → Bool → Event
event id type screen = record {
  id = id;
  type = type;
  room = codes "hd_h1";
  sid = codes "s1";
  identity = codes "ann";
  screen = screen;
  at = none;
}

abbrev steps : List Step
steps =
    start true true (by (codes "h1") (codes "ann")) 10
    ∷ start true true (by (codes "h2") (codes "bob")) 10
    ∷ deliver (event (codes "e1") participant_joined false) 11
    ∷ deliver (event (codes "e2") participant_left false) 12
    ∷ deliver (event (codes "e1") participant_joined false) 13
    ∷ reconcile (λ room. room_unavailable) 90
    ∷ []

abbrev sid_of : Participant → Bytes
sid_of p = p.participant_sid

abbrev ids : Huddle → Bytes
ids h = h.id

-- Both are in the first one's call, and who left has left.
steps_example : map ids (perform_all steps no_calls).huddles ≡ codes "h1" ∷ []
unfolding perform_all super_ops.Huddle.Steps.perform start_call super_ops.Huddle.apply
    super_ops.Huddle.Calls.reconcile_huddles
steps_example = refl

left_example : map sid_of (roster (codes "h1") (perform_all steps no_calls).participants) ≡ []
unfolding perform_all super_ops.Huddle.Steps.perform start_call super_ops.Huddle.apply
    super_ops.Huddle.Calls.reconcile_huddles roster
left_example = refl

-- Where the room is not made, the call is ended again.
failed_example :
    live_calls scope_channel
      (codes "general")
      (start_call true false (by (codes "h1") (codes "ann")) 10 no_calls).1.huddles
    ≡ 0
unfolding start_call live_calls str_eq
failed_example = refl

no_calls-IsSingle :
    (scope_type scope_id : Bytes) → live_calls scope_type scope_id no_calls.huddles ≤ 1
unfolding live_calls
no_calls-IsSingle scope_type scope_id = omega arith

perform_all-IsSingle_example :
    live_calls scope_channel (codes "general") (perform_all steps no_calls).huddles ≤ 1
perform_all-IsSingle_example =
    perform_all-IsSingle steps no_calls no_calls-IsSingle scope_channel (codes "general")

perform_all-firsts_example :
    perform_all steps no_calls ≡ perform_all (firsts no_calls.events steps) no_calls
perform_all-firsts_example = perform_all-firsts steps no_calls

-- A shared screen that is no longer shared still counts as shared.
abbrev sharing_of : Participant → Bool
sharing_of p = p.is_screen_sharing

unshared_example :
    map sharing_of
      (perform_all
        (start true true (by (codes "h1") (codes "ann")) 10
          ∷ deliver (event (codes "e1") participant_joined false) 11
          ∷ deliver (event (codes "e2") track_published true) 12
          ∷ deliver (event (codes "e3") track_unpublished true) 13
          ∷ [])
        no_calls).participants
    ≡ true ∷ []
unfolding perform_all super_ops.Huddle.Steps.perform start_call super_ops.Huddle.apply
unshared_example = refl

-- A session that is reported late opens in a call that has ended.
late_example :
    map sid_of (
      roster
        (codes "h1")
        (perform_all
          (start true true (by (codes "h1") (codes "ann")) 10
            ∷ deliver (event (codes "e1") room_finished false) 11
            ∷ deliver (event (codes "e2") participant_joined false) 12
            ∷ [])
          no_calls).participants)
    ≡ codes "s1" ∷ []
unfolding perform_all super_ops.Huddle.Steps.perform start_call super_ops.Huddle.apply roster
late_example = refl

abbrev session : Bytes → Participant
session sid = record {
  huddle_id = codes "h1";
  participant_sid = sid;
  user_id = codes "ann";
  joined_at = 10;
  left = none;
  is_screen_sharing = false;
}

abbrev with_sessions : Tables
with_sessions = record {
  huddles = [];
  participants = session (codes "s1") ∷ session (codes "s2") ∷ [];
  events = [];
}

reconcile_participants-roster_example :
    any_of
      (is_open_session (codes "h1") (codes "s2"))
      (reconcile_participants
        (codes "h1")
        (session (codes "s2") ∷ [])
        20
        with_sessions).participants
    ≡ (is_listed (session (codes "s2") ∷ []) (codes "s2")
        && (any_of (is_open_session (codes "h1") (codes "s2")) with_sessions.participants
            || not (any_of (is_session (codes "h1") (codes "s2")) with_sessions.participants)))
reconcile_participants-roster_example =
    reconcile_participants-roster (codes "h1") (codes "s2") (session (codes "s2") ∷ []) 20
      with_sessions
