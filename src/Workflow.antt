-- ===== src/Workflow.antt =====
-- backend/internal/workflow: automation over at-least-once delivery. The types and tables that the
-- parts share: the runs, and for one run its effects and what a worker does to it.
pub mod Trigger
pub mod Executor
pub mod Tables
pub mod Repeats
pub mod Once
pub mod Order
pub mod Completes
pub mod Enqueued
pub mod Subjects
pub mod Tests
use super_ops.Base.{
  ℕ, ◌≡◌, Bool, true, false, List, [], ◌∷◌, ◌++◌, Option, none, some, ◌==◌, if◌then◌else◌,
}

abbrev pub Bytes : Type 0
Bytes = List ℕ

pub data RunStatus : Type 0 where
  pending running run_succeeded run_failed : RunStatus

pub data EffectStatus : Type 0 where
  claimed succeeded failed : EffectStatus

pub data StepStatus : Type 0 where
  step_succeeded step_failed : StepStatus

-- The rows of workflow_effects of one run, by step index.
abbrev pub Effects : Type 0
Effects = ℕ → Option EffectStatus

-- What happens to a run that other people can see: the action of a step is carried out, and its
-- success is written to workflow_effects.
pub data Event : Type 0 where
  performed recorded : ℕ → Event

-- One run with its effects, and everything that has happened to it, oldest first.
pub record RunState : Type 0 where
  pub status : RunStatus
  pub effects : Effects
  pub step_runs : ℕ → Option StepStatus
  pub happened : List Event

abbrev pub set_effect : ℕ → EffectStatus → Effects → Effects
set_effect i s effects j = if j == i then some s else effects j

-- `ClaimEffect`: whether the caller may perform the step, and the table after.
unfoldable pub claim_effect : ℕ → Effects → Bool × Effects
claim_effect i effects = elim (effects i) [
  | some succeeded ↦ (false, effects)
  | _ ↦ (true, set_effect i claimed effects)
]

-- `RecordEffectResult`, an UPDATE: a row that is not there stays away.
unfoldable pub record_effect_result : ℕ → Effects → Effects
record_effect_result i effects = elim (effects i) [
  | none ↦ effects
  | some s ↦ set_effect i succeeded effects
]

-- `FailEffect`.
unfoldable pub fail_effect : ℕ → Effects → Effects
fail_effect i effects = elim (effects i) [
  | none ↦ effects
  | some succeeded ↦ effects
  | some s ↦ set_effect i failed effects
]

-- `ClaimRun` on this run, and `ReleaseStaleRuns` on this run, `stale` being whether it was started
-- before the limit.
unfoldable pub claim_run : RunState → Option RunState
claim_run r = elim r.status [ pending ↦ some (record r { status = running }) | _ ↦ none ]

unfoldable pub release_stale_run : Bool → RunState → RunState
release_stale_run stale r = elim r.status [
  | running ↦ if stale then record r { status = pending } else r
  | _ ↦ r
]

-- `FinishStep`, an upsert into workflow_step_runs.
abbrev pub finish_step : ℕ → StepStatus → RunState → RunState
finish_step i s r = record r { step_runs = λ j. if j == i then some s else r.step_runs j }

-- `FinishRun`, and whether its write gets through: the executor does not look.
abbrev pub finish_run : Bool → RunStatus → RunState → RunState
finish_run true s r = record r { status = s }
finish_run false s r = r
