-- ===== src/Workflow/Completes.antt =====
-- An attempt that nothing interferes with brings a run to its end.
use super_ops.Base.{
  ℕ, ◌+◌, ◌≡◌, ◌<◌, refl, Bool, true, List, length, arith, eq_or_ne, inl, inr, ==_refl,
}
use super_ops.Workflow.{Bytes, RunState, run_succeeded}
use super_ops.Workflow.Executor.{
  Fate, performs, Step, after_perform, perform, claim_and_perform, run_step, executor_run,
}
use super_ops.Workflow.Repeats.{After, run_steps-rule}
use super_ops.Workflow.Tables.{is_succeeded, claim_effect-cases, record-claimed}

-- The steps before `i` are recorded.
abbrev pub AreRecorded : ℕ → RunState → Type 0
AreRecorded i r = (j : ℕ) → j < i → is_succeeded (r.effects j) ≡ true

abbrev pub fine : ℕ → Fate
fine i = performs true

abbrev pub every_action : Bytes → Bool
every_action kind = true

succeeded-AreRecorded :
    (i : ℕ) (r : RunState)
    → AreRecorded i r
    → is_succeeded (r.effects i) ≡ true
    → AreRecorded (i + 1) r
succeeded-AreRecorded i r h g j lt = elim (eq_or_ne j i) [ inl e ↦ cc | inr n ↦ h j (omega arith) ]

-- `Q` is what holds at the end.
step-AreRecorded :
    (Q : RunState → Type 0) (i : ℕ) (s : Step) (r : RunState)
    → AreRecorded i r
    → After (AreRecorded (i + 1)) Q (run_step every_action fine true i s r)
unfolding run_step claim_and_perform perform after_perform
step-AreRecorded Q i s r h = elim (claim_effect-cases i r.effects) [
  | inl g ↦ rw (g.1) (succeeded-AreRecorded i r h g.0)
  | inr g ↦ rw (g.1) (λ j lt. elim (eq_or_ne j i) [
    | inl e ↦ ground (arith, record-claimed i j r.effects, ==_refl j)
    | inr n ↦ ground (arith, record-claimed i j r.effects, h j (omega arith))
  ])
]

-- Whatever an earlier attempt has left behind, an attempt in which every claim, action and write
-- succeeds ends the run as succeeded, with every step recorded.
pub executor_run-succeeds :
    (steps : List Step) (r : RunState)
    → let r' = executor_run every_action fine true true true steps r in
      (r'.status ≡ run_succeeded) × AreRecorded (length steps) r'
unfolding executor_run
executor_run-succeeds steps r =
    run_steps-rule every_action fine true AreRecorded Done (length steps)
      (λ i s r lt. step-AreRecorded Done i s r) (λ r h. (refl, h)) 0 steps (omega arith) r
      (λ j lt. absurd (omega arith))
  where
    Done : RunState → Type 0
    Done r = (r.status ≡ run_succeeded) × AreRecorded (length steps) r
