-- ===== src/Workflow/Trigger.antt =====
-- `EnqueueRunAt` of workflow.go, and trigger.go, which turns an event into runs.
use super_ops.Base.{
  ℕ, ◌+◌, Bool, true, false, ◌&&◌, not, List, [], ◌∷◌, ◌++◌, Option, none, some, ltb, leb,
  if◌then◌else◌,
}
use super_ops.Base.Bytes.{codes, str_eq}
use super_ops.Base.Fallible.{Result, ok, err, ◌>>◌, guard}
use super_ops.Workflow.{Bytes}

pub data EnqueueError : Type 0 where
  no_trigger_key loop_guard duplicate unavailable : EnqueueError

-- A row of workflow_runs, as far as enqueueing reads and writes it. The newest row is first.
pub record RunRow : Type 0 where
  pub workflow_id : Bytes
  pub workspace_id : Bytes
  pub version_id : Bytes
  pub trigger_key : Bytes
  pub event_type : Bytes
  pub payload : Bytes
  pub depth : ℕ
  pub root_run_id : Option Bytes
  pub created_at : ℕ

-- A row of workflow_trigger_rejections.
pub record Rejection : Type 0 where
  pub workflow_id : Bytes
  pub workspace_id : Bytes
  pub event_type : Bytes
  pub is_loop : Bool

pub record Tables : Type 0 where
  pub runs : List RunRow
  pub rejections : List Rejection

pub record Matching : Type 0 where
  pub workflow_id : Bytes
  pub workspace_id : Bytes
  pub owner_id : Bytes
  pub version_id : Bytes
  pub filter : List (Bytes × Bytes)

abbrev pub max_depth : ℕ
max_depth = 3

abbrev pub max_runs_per_minute : ℕ
max_runs_per_minute = 120

-- A minute, in the unit of the clock.
abbrev pub minute : ℕ
minute = 60

abbrev pub is_empty : Bytes → Bool
is_empty [] = true
is_empty (c ∷ cs) = false

-- The runs of a workflow that were created after `now` less a minute.
unfoldable pub recent_runs : Bytes → ℕ → List RunRow → ℕ
unfolding str_eq
recent_runs workflow now [] = 0
recent_runs workflow now (r ∷ rs) =
    let older = recent_runs workflow now rs in
    if str_eq r.workflow_id workflow && ltb now (r.created_at + minute) then 1 + older else older

-- The unique index that `ON CONFLICT (workflow_id, trigger_key)` names.
unfoldable pub has_run : Bytes → Bytes → List RunRow → Bool
unfolding str_eq
has_run workflow key [] = false
has_run workflow key (r ∷ rs) =
    let older = has_run workflow key rs in
    if str_eq r.workflow_id workflow && str_eq r.trigger_key key then true else older

abbrev pub or_empty_object : Bytes → Bytes
or_empty_object [] = codes "{}"
or_empty_object (c ∷ cs) = c ∷ cs

abbrev pub root_of : Bytes → Option Bytes
root_of [] = none
root_of (c ∷ cs) = some (c ∷ cs)

-- `EnqueueRunAt`. `up` is whether the database answers, and `counted` the rows at the time of its count,
-- which is a statement before that of the insert.
unfoldable pub enqueue_run_at :
    Bool
    → List RunRow
    → ℕ
    → Matching
    → Bytes
    → Bytes
    → Bytes
    → ℕ
    → Bytes
    → List RunRow
    → Result EnqueueError (List RunRow)
unfolding recent_runs has_run
enqueue_run_at up counted now m event_type trigger_key payload depth root_run_id runs = do
  guard (not (is_empty trigger_key)) no_trigger_key
  guard (leb depth max_depth) loop_guard
  guard up unavailable
  guard (ltb (recent_runs m.workflow_id now counted) max_runs_per_minute) loop_guard
  guard (not (has_run m.workflow_id trigger_key runs)) duplicate
  ok (
      record {
        workflow_id = m.workflow_id;
        workspace_id = m.workspace_id;
        version_id = m.version_id;
        trigger_key = trigger_key;
        event_type = event_type;
        payload = or_empty_object payload;
        depth = depth;
        root_run_id = root_of root_run_id;
        created_at = now;
      }
      ∷ runs)

-- `Matches`, over the values as `fmt.Sprint` prints them.
abbrev pub value_of : Bytes → List (Bytes × Bytes) → Option Bytes
value_of k [] = none
value_of k ((k', v) ∷ rest) = if str_eq k' k then some v else value_of k rest

unfoldable pub matches : List (Bytes × Bytes) → List (Bytes × Bytes) → Bool
matches [] payload = true
matches ((k, want) ∷ filter) payload = elim (value_of k payload) [
  | none ↦ false
  | some got ↦ str_eq want got && matches filter payload
]

-- What `Handle` has read out of a message: the payload, as it is filtered and as it is stored, and
-- where it comes from.
pub record Message : Type 0 where
  pub event_type : Bytes
  pub identity : Bytes
  pub fields : List (Bytes × Bytes)
  pub encoded : Bytes
  pub depth : ℕ
  pub root_run_id : Bytes

abbrev pub reject : Matching → Bytes → Bool → Tables → Tables
reject m event_type is_loop t = record t {
  rejections =
      record {
        workflow_id = m.workflow_id;
        workspace_id = m.workspace_id;
        event_type = event_type;
        is_loop = is_loop;
      }
      ∷ t.rejections;
}

-- What `Handle` does with the result of `EnqueueRunAt`, and whether it goes on.
unfoldable pub after_enqueue :
    Matching → Bytes → Tables → Result EnqueueError (List RunRow) → Tables × Bool
after_enqueue m event_type t (err loop_guard) = (reject m event_type true t, true)
after_enqueue m event_type t (err duplicate) = (t, true)
after_enqueue m event_type t (err no_trigger_key) = (t, false)
after_enqueue m event_type t (err unavailable) = (t, false)
after_enqueue m event_type t (ok runs) = (record t { runs = runs }, true)

-- The trigger key of a message for one workflow.
abbrev pub key_of : Message → Matching → Bytes
key_of msg m = msg.identity ++ codes ":" ++ m.workflow_id

-- The loop of `Handle` for one workflow that wants the event.
unfoldable pub handle_match : ℕ → Message → Bool → List RunRow → Matching → Tables → Tables × Bool
unfolding enqueue_run_at after_enqueue matches
handle_match now msg up counted m t =
    if not (matches m.filter msg.fields)
    then (t, true)
    else if is_empty m.owner_id
    then (reject m msg.event_type false t, true)
    else after_enqueue m msg.event_type t (
        enqueue_run_at up counted now m msg.event_type (key_of msg m) msg.encoded msg.depth
          msg.root_run_id t.runs)

-- A workflow that wants the event, whether the database answers when its turn comes, and the rows that its
-- runs are counted in.
abbrev pub Turn : Type 0
Turn = Bool × List RunRow × Matching

-- The loop, and whether the message is acknowledged.
unfoldable pub handle_matches : ℕ → Message → List Turn → Tables → Tables × Bool
unfolding handle_match
handle_matches now msg [] t = (t, true)
handle_matches now msg ((up, counted, m) ∷ ms) t =
    let (t', goes_on) = handle_match now msg up counted m t in
    let rest = handle_matches now msg ms t' in if goes_on then rest else (t', false)

-- `Handle`: a message without an identity is not enqueued.
unfoldable pub handle : ℕ → Message → List Turn → Tables → Tables × Bool
unfolding handle_matches
handle now msg ms t = if is_empty msg.identity then (t, true) else handle_matches now msg ms t

-- `msgIdentity`, from the two headers, which are empty when they are absent.
unfoldable pub msg_identity : Bytes → Bytes → Bytes
msg_identity (c ∷ seq) id = codes "seq:" ++ c ∷ seq
msg_identity [] (c ∷ id) = codes "mid:" ++ c ∷ id
msg_identity [] [] = []
