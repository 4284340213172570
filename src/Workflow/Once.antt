-- ===== src/Workflow/Once.antt =====
-- backend/internal/workflow: over any attempts at a run that do not overlap, whatever becomes of its steps: a step whose success is recorded is
-- not repeated.
use super_ops.Base.{ℕ, ◌≡◌, refl, ◌∙◌, sym, Bool, true, false, List, [], ◌∷◌, ◌++◌, length, arith}
use super_ops.Workflow.{
  Bytes, performed, recorded, RunState, RunStatus, run_succeeded, run_failed, claimed, set_effect,
  finish_run,
}
use super_ops.Workflow.Executor.{
  Fate, claim_fails, dies_claimed, dies_performed, errs, performs, Step, after_perform, perform,
  run_step, executor_run,
}
use super_ops.Workflow.Repeats.{
  History, enqueues, claims, releases, attempts, is_recorded_in, is_recorded_in-append,
  NeverRepeats, performed-append, recorded-append, After, run_steps-rule, run_step-rule,
  claim_run-rule, release_stale_run-rule,
}
use super_ops.Workflow.Tables.{is_succeeded, record-claimed, claimed-keeps, failed-keeps}

-- What is recorded is what the table says has succeeded.
abbrev IsConsistent : RunState → Type 0
IsConsistent r =
    NeverRepeats r.happened × ((j : ℕ) → is_recorded_in j r.happened ≡ is_succeeded (r.effects j))

finish_run-IsConsistent :
    (b : Bool) (s : RunStatus) (r : RunState) → IsConsistent r → IsConsistent (finish_run b s r)
finish_run-IsConsistent true s r h = h
finish_run-IsConsistent false s r h = h

module _ (has_action : Bytes → Bool) (fate : ℕ → Fate) (finishes : Bool) where
  perform-IsConsistent :
      (i : ℕ) (f : Fate) (r : RunState)
      → IsConsistent r
      → is_succeeded (r.effects i) ≡ false
      → After IsConsistent IsConsistent (
          perform has_action fate finishes i f
            (record r { effects = set_effect i claimed r.effects }))
  unfolding perform after_perform
  perform-IsConsistent i claim_fails r h g = (h.0, λ j. h.1 j ∙ sym (claimed-keeps i j r.effects g))
  perform-IsConsistent i dies_claimed r h g =
      (h.0, λ j. h.1 j ∙ sym (claimed-keeps i j r.effects g))
  perform-IsConsistent i dies_performed r h g = (
    performed-append i r.happened h.0 (h.1 i ∙ g),
    λ j. ground (
      arith,
      is_recorded_in-append j r.happened (performed i ∷ []),
      h.1 j,
      claimed-keeps i j r.effects g,
    ),
  )
  perform-IsConsistent i (errs false) r h g =
      finish_run-IsConsistent finishes run_failed _
        (h.0, λ j. h.1 j ∙ sym (claimed-keeps i j r.effects g))
  perform-IsConsistent i (errs true) r h g =
      finish_run-IsConsistent finishes run_failed _
        (h.0, λ j. h.1 j ∙ sym (failed-keeps i j r.effects g))
  perform-IsConsistent i (performs false) r h g = (
    performed-append i r.happened h.0 (h.1 i ∙ g),
    λ j. ground (
      arith,
      is_recorded_in-append j r.happened (performed i ∷ []),
      h.1 j,
      claimed-keeps i j r.effects g,
    ),
  )
  perform-IsConsistent i (performs true) r h g = (
    recorded-append i (r.happened ++ performed i ∷ [])
        (performed-append i r.happened h.0 (h.1 i ∙ g))
        (ground (arith, is_recorded_in-append i r.happened (performed i ∷ []), h.1 i)),
    λ j. ground (
      arith,
      is_recorded_in-append j (r.happened ++ performed i ∷ []) (recorded i ∷ []),
      is_recorded_in-append j r.happened (performed i ∷ []),
      h.1 j,
      record-claimed i j r.effects,
    ),
  )

  pub run_step-IsConsistent :
      (i : ℕ) (s : Step) (r : RunState)
      → IsConsistent r
      → After IsConsistent IsConsistent (run_step has_action fate finishes i s r)
  run_step-IsConsistent i s r h =
      run_step-rule has_action fate finishes IsConsistent IsConsistent i s r
        (finish_run-IsConsistent finishes run_failed _ h) h (λ g. h)
        (perform-IsConsistent i (fate i) r h)

  executor_run-IsConsistent :
      (owned readable : Bool) (steps : List Step) (r : RunState)
      → IsConsistent r
      → IsConsistent (executor_run has_action fate finishes owned readable steps r)
  unfolding executor_run
  executor_run-IsConsistent true true steps r h =
      run_steps-rule has_action fate finishes (λ i. IsConsistent) IsConsistent (length steps)
        (λ i s r lt. run_step-IsConsistent i s r) (finish_run-IsConsistent finishes run_succeeded) 0
        steps (omega arith) r h
  executor_run-IsConsistent true false steps r h = finish_run-IsConsistent finishes run_failed r h
  executor_run-IsConsistent false readable steps r h =
      finish_run-IsConsistent finishes run_failed r h

History-IsConsistent :
    {steps : List Step} {Allowed : Fate → Type 0} {r : RunState}
    → History steps Allowed r
    → IsConsistent r
History-IsConsistent enqueues = (tt, λ j. refl)
History-IsConsistent (claims {r} {r'} h e) =
    claim_run-rule IsConsistent (λ r g. g) r r' e (History-IsConsistent h)
History-IsConsistent (releases {r} h stale) =
    release_stale_run-rule IsConsistent (λ r g. g) stale r (History-IsConsistent h)
History-IsConsistent {steps}
      (attempts {r} h is_running has_action fate allowed finishes owned readable) =
    executor_run-IsConsistent has_action fate finishes owned readable steps r
      (History-IsConsistent h)

-- Whatever happens to the steps of a run, through any number of attempts that do not overlap, crashes,
-- failed writes, and releases between attempts: once a step's success is recorded, the step is neither
-- performed nor recorded again.
pub History-NeverRepeats :
    {steps : List Step} {Allowed : Fate → Type 0} {r : RunState}
    → History steps Allowed r
    → NeverRepeats r.happened
History-NeverRepeats h = (History-IsConsistent h).0
