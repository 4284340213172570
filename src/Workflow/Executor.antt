-- ===== src/Workflow/Executor.antt =====
-- executor.go: `Executor.Run`, with what the world does to it at each step.
use super_ops.Base.{ℕ, ◌+◌, Bool, true, false, List, [], ◌∷◌, ◌++◌, if◌then◌else◌, not, ◌&&◌}
use super_ops.Workflow.{
  Bytes, Event, performed, recorded, RunState, run_succeeded, run_failed, step_succeeded,
  step_failed, finish_step, claim_effect, record_effect_result, fail_effect, finish_run,
}

-- What becomes of the step at hand in one attempt, where the executor has no say: the claim fails
-- or the worker dies before it; the worker dies right after the claim; `Perform` returns an error,
-- and the write of `FailEffect` succeeds or not; `Perform` succeeds and the worker dies before the
-- record; `Perform` succeeds, and the write of `RecordEffectResult` succeeds or not.
pub data Fate : Type 0 where
  claim_fails dies_claimed dies_performed : Fate
  errs performs : Bool → Fate

pub record Step : Type 0 where
  pub kind : Bytes

-- The rest of the loop is run, or the attempt is over.
pub data Next : Type 0 where
  goes_on stops : RunState → Next

abbrev pub happens : Event → RunState → RunState
happens e r = record r { happened = r.happened ++ e ∷ [] }

-- A successful `Perform` of step `i`: its record, or the loss of the record, which is not looked at.
unfoldable pub after_perform : ℕ → Bool → RunState → RunState
unfolding record_effect_result
after_perform i false r = finish_step i step_succeeded r
after_perform i true r =
    finish_step i step_succeeded
      (happens (recorded i) (record r { effects = record_effect_result i r.effects }))

-- One attempt at a run. `has_action` is the lookup in the executor's table of actions, `fate` what
-- becomes of each step, and `finishes` whether the write of `FinishRun` gets through.
module _ (has_action : Bytes → Bool) (fate : ℕ → Fate) (finishes : Bool) where
  abbrev pub fail_step : ℕ → RunState → Next
  fail_step i r = stops (finish_run finishes run_failed (finish_step i step_failed r))

  -- The step's action, after a claim that was granted.
  unfoldable pub perform : ℕ → Fate → RunState → Next
  unfolding after_perform fail_effect
  perform i claim_fails r = stops r
  perform i dies_claimed r = stops r
  perform i dies_performed r = stops (happens (performed i) r)
  perform i (errs false) r = fail_step i r
  perform i (errs true) r = fail_step i (record r { effects = fail_effect i r.effects })
  perform i (performs written) r = goes_on (after_perform i written (happens (performed i) r))

  abbrev claims : Fate → Bool
  claims claim_fails = false
  claims dies_claimed = true
  claims dies_performed = true
  claims (errs written) = true
  claims (performs written) = true

  -- An effect that is recorded already is skipped.
  unfoldable pub claim_and_perform : ℕ → Fate → RunState → Next
  unfolding perform claim_effect
  claim_and_perform i f r =
      let (fresh, effects) = claim_effect i r.effects in
      if not (claims f)
      then stops r
      else if fresh
      then perform i f (record r { effects = effects })
      else goes_on (finish_step i step_succeeded r)

  unfoldable pub run_step : ℕ → Step → RunState → Next
  unfolding claim_and_perform
  run_step i step r = if has_action step.kind then claim_and_perform i (fate i) r else fail_step i r

  unfoldable pub run_steps : ℕ → List Step → RunState → RunState
  unfolding run_step
  run_steps i [] r = finish_run finishes run_succeeded r
  run_steps i (step ∷ steps) r = elim (run_step i step r) [
    | stops r' ↦ r'
    | goes_on r' ↦ run_steps (i + 1) steps r'
  ]

  -- `Run`: a run without an owner fails, and so does one whose payload cannot be read.
  unfoldable pub executor_run : Bool → Bool → List Step → RunState → RunState
  unfolding run_steps
  executor_run has_owner payload_is_readable steps r =
      if has_owner && payload_is_readable
      then run_steps 0 steps r
      else finish_run finishes run_failed r
