-- ===== src/Workflow/Enqueued.antt =====
-- backend/internal/workflow: over any deliveries and redeliveries, how many runs of a key there can be, and
-- how deep.
use super_ops.Base.{
  leb→le, ℕ, ◌+◌, ◌≡◌, ◌≤◌, refl, Bool, true, false, ◌&&◌, not, List, [], ◌∷◌, ltb, leb,
  if◌then◌else◌, arith, All, inl, inr, Bool-cases,
}
use super_ops.Base.Bytes.{str_eq, str_eq→eq}
use super_ops.Base.Fallible.{Yields, guard-Yields, Result, ok, err}
use super_ops.Workflow.{Bytes}
use super_ops.Workflow.Trigger.{
  Turn, key_of, RunRow, Tables, Matching, Message, max_depth, max_runs_per_minute, recent_runs,
  has_run, enqueue_run_at, EnqueueError, no_trigger_key, loop_guard, duplicate, unavailable,
  after_enqueue, handle_match, handle_matches, handle, is_empty, matches,
}

-- How many runs of a workflow have this trigger key.
unfoldable pub runs_of : Bytes → Bytes → List RunRow → ℕ
runs_of workflow key [] = 0
runs_of workflow key (r ∷ rs) =
    let older = runs_of workflow key rs in
    if str_eq r.workflow_id workflow && str_eq r.trigger_key key then 1 + older else older

-- One run for a key at most, and none too deep.
pub record IsWellFormed (runs : List RunRow) : Type 0 where
  pub keyed : (workflow key : Bytes) → runs_of workflow key runs ≤ 1
  pub shallow : All (λ r. r.depth ≤ max_depth) runs

runs_of-zero :
    (workflow key : Bytes) (rs : List RunRow)
    → has_run workflow key rs ≡ false
    → runs_of workflow key rs ≡ 0
unfolding has_run runs_of
runs_of-zero workflow key [] h = refl
runs_of-zero workflow key (r ∷ rs) h = ground (arith, runs_of-zero workflow key rs)

keyed-cons :
    (r : RunRow) (rs : List RunRow)
    → has_run r.workflow_id r.trigger_key rs ≡ false
    → ((w k : Bytes) → runs_of w k rs ≤ 1)
    → (w k : Bytes) → runs_of w k (r ∷ rs) ≤ 1
unfolding runs_of
keyed-cons r rs h keyed w k = go (str_eq r.workflow_id w) refl (str_eq r.trigger_key k) refl
  where
    go :
        (a : Bool)
        → str_eq r.workflow_id w ≡ a
        → (b : Bool) → str_eq r.trigger_key k ≡ b
        → runs_of w k (r ∷ rs) ≤ 1
    go true e true f = ground (
      arith,
      str_eq→eq r.workflow_id w e,
      str_eq→eq r.trigger_key k f,
      runs_of-zero r.workflow_id r.trigger_key rs h,
    )
    go true e false f = rw (runs_of, e, f) (keyed w k)
    go false e b f = rw (runs_of, e) (keyed w k)

-- A new run in front is one that all the guards let through.
enqueue_run_at-IsWellFormed :
    (up : Bool) (counted : List RunRow) (now : ℕ) (m : Matching) (event_type key payload : Bytes)
    (depth : ℕ) (root : Bytes) (runs : List RunRow)
    → IsWellFormed runs
    → Yields IsWellFormed (enqueue_run_at up counted now m event_type key payload depth root runs)
unfolding enqueue_run_at
enqueue_run_at-IsWellFormed up counted now m event_type key payload depth root runs w =
    guard-Yields IsWellFormed (not (is_empty key)) no_trigger_key _ λ nonempty.
      guard-Yields IsWellFormed (leb depth max_depth) loop_guard _ λ shallow.
        guard-Yields IsWellFormed up unavailable _ λ answers.
          guard-Yields IsWellFormed
            (ltb (recent_runs m.workflow_id now counted) max_runs_per_minute) loop_guard _
            λ paced.
              guard-Yields IsWellFormed (not (has_run m.workflow_id key runs)) duplicate _ λ fresh.
                record {
                  keyed = keyed-cons _ runs (ground arith) w.keyed;
                  shallow = (leb→le depth max_depth shallow, w.shallow);
                }

handle_match-IsWellFormed :
    (now : ℕ) (msg : Message) (up : Bool) (counted : List RunRow) (m : Matching) (t : Tables)
    → IsWellFormed t.runs
    → IsWellFormed ((handle_match now msg up counted m t).0.runs)
unfolding handle_match
handle_match-IsWellFormed now msg up counted m t w =
    elim (Bool-cases (matches m.filter msg.fields)) [
      | inr e ↦ rw e w
      | inl e ↦ elim (Bool-cases (is_empty m.owner_id)) [
        | inl f ↦ rw (e, f) w
        | inr f ↦
            rw (e, f)
              (go
                (enqueue_run_at up counted now m msg.event_type (key_of msg m) msg.encoded msg.depth
                  msg.root_run_id t.runs)
                (enqueue_run_at-IsWellFormed up counted now m msg.event_type (key_of msg m)
                  msg.encoded msg.depth msg.root_run_id t.runs w))
      ]
    ]
  where
    go :
        (result : Result EnqueueError (List RunRow))
        → Yields IsWellFormed result
        → IsWellFormed ((after_enqueue m msg.event_type t result).0.runs)
    go (ok runs) h = h
    go (err no_trigger_key) h = w
    go (err loop_guard) h = w
    go (err duplicate) h = w
    go (err unavailable) h = w

handle_matches-IsWellFormed :
    (now : ℕ) (msg : Message) (ms : List Turn) (t : Tables)
    → IsWellFormed t.runs
    → IsWellFormed ((handle_matches now msg ms t).0.runs)
unfolding handle_matches
handle_matches-IsWellFormed now msg [] t w = w
handle_matches-IsWellFormed now msg ((up, counted, m) ∷ ms) t w =
    let w' = handle_match-IsWellFormed now msg up counted m t w in
    elim (Bool-cases (handle_match now msg up counted m t).1) [
      | inl e ↦ rw e (handle_matches-IsWellFormed now msg ms _ w')
      | inr e ↦ rw e w'
    ]

-- The tables after any deliveries, redeliveries included.
pub data Delivered : Tables → Type 0 where
  nothing : Delivered (record { runs = []; rejections = [] })
  delivers :
      {t : Tables}
      → Delivered t
      → (now : ℕ) (msg : Message) (ms : List Turn) → Delivered ((handle now msg ms t).0)

-- After any deliveries of any messages at any times, with a database that fails at any of them and whatever
-- the runs were counted in: no workflow has two runs for one trigger key, and no run is deeper than the
-- limit of 3.
pub Delivered-IsWellFormed : {t : Tables} → Delivered t → IsWellFormed t.runs
unfolding handle runs_of
Delivered-IsWellFormed nothing = record { keyed = λ w k. ground arith; shallow = tt }
Delivered-IsWellFormed (delivers {t} h now msg ms) = elim (Bool-cases (is_empty msg.identity)) [
  | inl e ↦ rw e (Delivered-IsWellFormed h)
  | inr e ↦ rw e (handle_matches-IsWellFormed now msg ms t (Delivered-IsWellFormed h))
]
