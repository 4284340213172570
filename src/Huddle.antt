-- ===== src/Huddle.antt =====
-- backend/internal/huddle, and `reconcileHuddles` of backend/cmd/worker: the live calls of the channels
-- and their rosters, which the media server's webhooks and a reconciling job write.
mod Tests
pub mod Calls
pub mod Steps
pub mod Once
pub mod Single
pub mod Roster
use super_ops.Base.{
  ℕ, ◌+◌, ◌-◌, ◌≡◌, Bool, true, false, ◌&&◌, ◌||◌, not, List, [], ◌∷◌, ◌++◌, Option, none, some,
  ltb, leb, if◌then◌else◌, map,
}
use super_ops.Base.Bytes.{codes, str_eq}
use super_ops.Base.Fallible.{Result, ok, err}

abbrev pub Bytes : Type 0
Bytes = List ℕ

abbrev pub scope_channel : Bytes
scope_channel = codes "channel"

abbrev pub room_name : Bytes → Bytes
room_name id = codes "hd_" ++ id

pub data HuddleError : Type 0 where
  not_found bad_scope no_event_id media_unavailable : HuddleError

-- Why a call ended, or a session.
pub data CloseReason : Type 0 where
  empty ended_by_user reconciled failed client room_ended : CloseReason

pub record Huddle : Type 0 where
  pub id : Bytes
  pub workspace_id : Bytes
  pub scope_type : Bytes
  pub scope_id : Bytes
  pub room : Bytes
  pub started_by : Bytes
  pub max_participants : ℕ
  pub created_at : ℕ
  pub ended : Option (ℕ × CloseReason)

pub record Participant : Type 0 where
  pub huddle_id : Bytes
  pub participant_sid : Bytes
  pub user_id : Bytes
  pub joined_at : ℕ
  pub left : Option (ℕ × CloseReason)
  pub is_screen_sharing : Bool

-- The tables; of the recorded events only the ids matter.
pub record Tables : Type 0 where
  pub huddles : List Huddle
  pub participants : List Participant
  pub events : List Bytes

abbrev pub is_open : Option (ℕ × CloseReason) → Bool
is_open none = true
is_open (some closed) = false

-- The rows of a scope's live call.
abbrev pub is_live_in : Bytes → Bytes → Huddle → Bool
is_live_in scope_type scope_id h =
    str_eq h.scope_type scope_type && str_eq h.scope_id scope_id && is_open h.ended

unfoldable pub find_huddle : (Huddle → Bool) → List Huddle → Option Huddle
find_huddle test [] = none
find_huddle test (h ∷ hs) = let rest = find_huddle test hs in if test h then some h else rest

-- `Live` and `ByRoom`.
abbrev pub live : Bytes → Bytes → List Huddle → Option Huddle
live scope_type scope_id hs = find_huddle (is_live_in scope_type scope_id) hs

abbrev pub by_room : Bytes → List Huddle → Option Huddle
by_room room hs = find_huddle (λ h. str_eq h.room room) hs

-- What a call is started with.
pub record Start : Type 0 where
  pub id : Bytes
  pub workspace_id : Bytes
  pub scope_type : Bytes
  pub scope_id : Bytes
  pub actor : Bytes
  pub max_participants : ℕ

abbrev pub started : Start → ℕ → Huddle
started s now = record {
  id = s.id;
  workspace_id = s.workspace_id;
  scope_type = s.scope_type;
  scope_id = s.scope_id;
  room = room_name s.id;
  started_by = s.actor;
  max_participants = s.max_participants;
  created_at = now;
  ended = none;
}

-- The INSERT: nothing where the scope has a live call.
abbrev pub insert_huddle : Option Huddle → Huddle → List Huddle → Bool × List Huddle
insert_huddle (some live_one) h hs = (false, hs)
insert_huddle none h hs = (true, h ∷ hs)

abbrev pub Started : Type 0
Started = Result HuddleError (Huddle × Bool) × Tables

abbrev pub selected : Option Huddle → Bool → Tables → Tables → Started
selected none created before t = (err not_found, before)
selected (some h) created before t = (ok (h, created), t)

-- `StartOrJoin`, one transaction: the call, and whether it was created.
unfoldable pub start_or_join : Start → ℕ → Tables → Started
unfolding find_huddle str_eq
start_or_join s now t =
    if not (str_eq s.scope_type scope_channel)
    then (err bad_scope, t)
    else let (created, hs) =
        insert_huddle (live s.scope_type s.scope_id t.huddles) (started s now) t.huddles in
      selected (live s.scope_type s.scope_id hs) created t (record t { huddles = hs })

-- An UPDATE of the rows that a test holds of.
unfoldable pub update_where {ℓ} : {A : Type ℓ} → (A → Bool) → (A → A) → List A → List A
update_where test change [] = []
update_where test change (x ∷ xs) = (if test x then change x else x) ∷ update_where test change xs

abbrev pub is_open_call : Bytes → Huddle → Bool
is_open_call id h = str_eq h.id id && is_open h.ended

abbrev pub ending : ℕ → CloseReason → Huddle → Huddle
ending at reason h = record h { ended = some (at, reason) }

abbrev pub leaving : ℕ → CloseReason → Participant → Participant
leaving at reason p = record p { left = some (at, reason) }

abbrev pub is_open_in : Bytes → Participant → Bool
is_open_in id p = str_eq p.huddle_id id && is_open p.left

-- A call ends with every session that is still open in it.
abbrev pub close : Bytes → ℕ → CloseReason → Tables → Tables
close id at reason t = record t {
  huddles = update_where (is_open_call id) (ending at reason) t.huddles;
  participants = update_where (is_open_in id) (leaving at room_ended) t.participants;
}

unfoldable pub any_of {ℓ} : {A : Type ℓ} → (A → Bool) → List A → Bool
any_of test [] = false
any_of test (x ∷ xs) = test x || any_of test xs

-- `End`: a no-op on a call that has ended.
unfoldable pub end_huddle : Bytes → CloseReason → ℕ → Tables → Bool × Tables
unfolding any_of update_where str_eq
end_huddle id reason now t =
    if any_of (is_open_call id) t.huddles then (true, close id now reason t) else (false, t)

-- `Participants`, without the order by time.
unfoldable pub roster : Bytes → List Participant → List Participant
unfolding str_eq
roster id [] = []
roster id (p ∷ ps) = let rest = roster id ps in if is_open_in id p then p ∷ rest else rest

pub data EventType : Type 0 where
  participant_joined participant_left track_published track_unpublished : EventType
  room_finished other : EventType

pub record Event : Type 0 where
  pub id : Bytes
  pub type : EventType
  pub room : Bytes
  pub sid : Bytes
  pub identity : Bytes
  pub screen : Bool
  pub at : Option ℕ

abbrev pub or_now : Option ℕ → ℕ → ℕ
or_now none now = now
or_now (some t) now = t

abbrev pub is_session : Bytes → Bytes → Participant → Bool
is_session id sid p = str_eq p.huddle_id id && str_eq p.participant_sid sid

abbrev pub is_open_session : Bytes → Bytes → Participant → Bool
is_open_session id sid p = is_session id sid p && is_open p.left

-- An INSERT of a session, which does nothing where there is one.
abbrev pub open_session : Participant → List Participant → List Participant
open_session p ps = if any_of (is_session p.huddle_id p.participant_sid) ps then ps else p ∷ ps

abbrev pub is_set : Bytes → Bool
is_set [] = false
is_set (b ∷ bs) = true

abbrev pub session_of : Bytes → Event → ℕ → Participant
session_of id e now = record {
  huddle_id = id;
  participant_sid = e.sid;
  user_id = e.identity;
  joined_at = or_now e.at now;
  left = none;
  is_screen_sharing = e.screen;
}

-- The switch of `Apply`.
unfoldable pub apply_type : EventType → Bytes → Event → ℕ → Tables → Tables
unfolding any_of update_where str_eq
apply_type participant_joined id e now t =
    if is_set e.identity && is_set e.sid
    then record t { participants = open_session (session_of id e now) t.participants }
    else t
apply_type participant_left id e now t = record t {
  participants =
      update_where (is_open_session id e.sid) (leaving (or_now e.at now) client) t.participants;
}
apply_type track_published id e now t = record t {
  participants =
      update_where (is_open_session id e.sid) (λ p. record p { is_screen_sharing = e.screen })
        t.participants;
}
apply_type track_unpublished id e now t = record t {
  participants =
      update_where (is_open_session id e.sid) (λ p. record p { is_screen_sharing = e.screen })
        t.participants;
}
apply_type room_finished id e now t = close id (or_now e.at now) empty t
apply_type other id e now t = t

abbrev pub applied_in : Option Huddle → Event → ℕ → Tables → Tables
applied_in none e now t = t
applied_in (some h) e now t = apply_type e.type h.id e now t

-- `Apply`, one transaction.
unfoldable pub apply : Event → ℕ → Tables → Result HuddleError Tables
unfolding any_of find_huddle apply_type str_eq
apply e now t =
    if not (is_set e.id)
    then err no_event_id
    else if any_of (λ known. str_eq known e.id) t.events
    then ok t
    else ok (applied_in (by_room e.room t.huddles) e now (record t { events = e.id ∷ t.events }))

-- One upsert of `ReconcileParticipants`: of a session that is there only the sharing is set.
abbrev pub reported : Bytes → Participant → Participant
reported id p = record p { huddle_id = id; left = none }

unfoldable pub upsert : Bytes → Participant → List Participant → List Participant
unfolding any_of update_where str_eq
upsert id p ps =
    if any_of (is_session id p.participant_sid) ps
    then update_where (is_session id p.participant_sid)
        (λ q. record q { is_screen_sharing = p.is_screen_sharing }) ps
    else reported id p ∷ ps

unfoldable pub upsert_all : Bytes → List Participant → List Participant → List Participant
unfolding upsert
upsert_all id [] ps = ps
upsert_all id (p ∷ listed) ps = upsert_all id listed (upsert id p ps)

abbrev pub is_listed : List Participant → Bytes → Bool
is_listed listed sid = any_of (λ (p : Participant). str_eq p.participant_sid sid) listed

-- `ReconcileParticipants`.
unfoldable pub reconcile_participants : Bytes → List Participant → ℕ → Tables → Tables
unfolding upsert_all any_of update_where str_eq
reconcile_participants id listed now t = record t {
  participants =
      update_where (λ p. is_open_in id p && not (is_listed listed p.participant_sid))
        (leaving now reconciled) (upsert_all id listed t.participants);
}
