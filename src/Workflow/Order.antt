-- ===== src/Workflow/Order.antt =====
-- Over attempts that lose no record while the worker lives: the steps of a run in their order, and
-- a finished run is one whose steps have all been recorded.
use super_ops.Base.{
  ltb→lt, subst, lt→ltb, ℕ, ◌+◌, ◌≡◌, ◌<◌, ◌≤◌, refl, ◌∙◌, sym, ap, Bool, true, false, List, [],
  ◌∷◌, ◌++◌, Option, none, some, length, ◌==◌, ==_refl, ltb, if◌then◌else◌, arith, le_or_lt, inl,
  inr,
}
use super_ops.Workflow.{
  Bytes, Event, performed, recorded, RunState, RunStatus, running, run_succeeded, run_failed,
  claimed, set_effect, finish_run,
}
use super_ops.Workflow.Executor.{
  Fate, claim_fails, dies_claimed, dies_performed, errs, performs, Step, after_perform, perform,
  run_step, executor_run,
}
use super_ops.Workflow.Repeats.{
  History, enqueues, claims, releases, attempts, After, run_steps-rule, run_step-rule,
  claim_run-rule, release_stale_run-rule,
}
use super_ops.Workflow.Tables.{is_succeeded, record-claimed, claimed-keeps, failed-keeps}

-- The machine that a run should be: it performs its current step, any number of times, and goes to
-- the next one when the step is recorded.
abbrev pub replay : ℕ → List Event → Option ℕ
replay k [] = some k
replay k (performed i ∷ es) = if i == k then replay k es else none
replay k (recorded i ∷ es) = if i == k then replay (k + 1) es else none

-- Every record of a success is written, or the worker dies before it.
abbrev pub KeepsRecords : Fate → Type 0
KeepsRecords claim_fails = Unit
KeepsRecords dies_claimed = Unit
KeepsRecords dies_performed = Unit
KeepsRecords (errs written) = Unit
KeepsRecords (performs written) = written ≡ true

replay-append :
    (k m : ℕ) (es fs : List Event) → replay k es ≡ some m → replay k (es ++ fs) ≡ replay m fs
replay-append k m [] fs h = ap (λ k. replay k fs) (cc h)
replay-append k m (performed i ∷ es) fs h = ground (arith, replay-append k m es fs)
replay-append k m (recorded i ∷ es) fs h = ground (arith, replay-append (k + 1) m es fs)

replay-performed :
    (k : ℕ) (es : List Event) → replay 0 es ≡ some k → replay 0 (es ++ performed k ∷ []) ≡ some k
replay-performed k es h = replay-append 0 k es (performed k ∷ []) h ∙ rw (==_refl k)

replay-recorded :
    (k : ℕ) (es : List Event)
    → replay 0 es ≡ some k
    → replay 0 (es ++ recorded k ∷ []) ≡ some (k + 1)
replay-recorded k es h = replay-append 0 k es (recorded k ∷ []) h ∙ rw (==_refl k)

-- The machine is at step `k`, and the table of effects says so.
abbrev IsAt : ℕ → RunState → Type 0
IsAt k r = (replay 0 r.happened ≡ some k) × ((j : ℕ) → is_succeeded (r.effects j) ≡ ltb j k)

-- Before step `i` of the loop all steps before it are recorded.
abbrev IsBefore : ℕ → ℕ → RunState → Type 0
IsBefore n i r = (k : ℕ) × (i ≤ k) × (k ≤ n) × IsAt k r × (r.status ≡ running)

-- Between attempts; a run that has succeeded is at its end.
abbrev IsOrderly : ℕ → RunState → Type 0
IsOrderly n r = (k : ℕ) × (k ≤ n) × IsAt k r × (r.status ≡ run_succeeded → k ≡ n)

at_step : (i k : ℕ) (r : RunState) → i ≤ k → IsAt k r → is_succeeded (r.effects i) ≡ false → k ≡ i
at_step i k r le h g = elim (le_or_lt k i) [
  | inl le' ↦ omega arith
  | inr lt ↦ absurd (cc (sym g ∙ h.1 i ∙ lt→ltb i k lt))
]

claimed-IsAt :
    (i k : ℕ) (r : RunState)
    → IsAt k r
    → is_succeeded (r.effects i) ≡ false
    → (j : ℕ) → is_succeeded (set_effect i claimed r.effects j) ≡ ltb j k
claimed-IsAt i k r h g j = claimed-keeps i j r.effects g ∙ h.1 j

not_done : (s : RunStatus) → s ≡ running → s ≡ run_succeeded → {A : Type 0} → A
not_done s e e' = absurd (cc (sym e ∙ e'))

-- A run that is still running, or has failed, is between attempts.
running-IsOrderly : (n k : ℕ) (r : RunState) → k ≤ n → IsAt k r → r.status ≡ running → IsOrderly n r
running-IsOrderly n k r le h s = (k, le, h, λ e. not_done _ s e)

failed-IsOrderly :
    (n : ℕ) (b : Bool) (k : ℕ) (r : RunState)
    → k ≤ n
    → IsAt k r
    → r.status ≡ running
    → IsOrderly n (finish_run b run_failed r)
failed-IsOrderly n true k r le h s = (k, le, h, λ e. absurd (cc e))
failed-IsOrderly n false k r le h s = running-IsOrderly n k r le h s

finished-IsOrderly :
    (n : ℕ) (b : Bool) (r : RunState) → IsBefore n n r → IsOrderly n (finish_run b run_succeeded r)
finished-IsOrderly n true r (k, le, le', h, s) = (k, le', h, λ e. omega arith)
finished-IsOrderly n false r (k, le, le', h, s) = running-IsOrderly n k r le' h s

module _ (has_action : Bytes → Bool) (fate : ℕ → Fate) (finishes : Bool) (n : ℕ) where
  -- At the step that is not recorded yet, `k` is the step.
  perform-IsBefore :
      (i : ℕ) (f : Fate) (r : RunState)
      → KeepsRecords f
      → i < n
      → IsAt i r
      → r.status ≡ running
      → is_succeeded (r.effects i) ≡ false
      → After (IsBefore n (i + 1)) (IsOrderly n) (
          perform has_action fate finishes i f
            (record r { effects = set_effect i claimed r.effects }))
  unfolding perform after_perform
  perform-IsBefore i claim_fails r keeps lt h s g =
      (i, omega arith, (h.0, claimed-IsAt i i r h g), λ e. not_done _ s e)
  perform-IsBefore i dies_claimed r keeps lt h s g =
      (i, omega arith, (h.0, claimed-IsAt i i r h g), λ e. not_done _ s e)
  perform-IsBefore i dies_performed r keeps lt h s g = (
    i,
    omega arith,
    (replay-performed i r.happened h.0, claimed-IsAt i i r h g),
    λ e. not_done _ s e,
  )
  perform-IsBefore i (errs false) r keeps lt h s g =
      failed-IsOrderly n finishes i _ (omega arith) (h.0, claimed-IsAt i i r h g) s
  perform-IsBefore i (errs true) r keeps lt h s g =
      failed-IsOrderly n finishes i _ (omega arith) (h.0, λ j. failed-keeps i j r.effects g ∙ h.1 j)
        s
  perform-IsBefore i (performs false) r keeps lt h s g = absurd (cc keeps)
  perform-IsBefore i (performs true) r keeps lt h s g = (
    i + 1,
    omega arith,
    omega arith,
    (
      replay-recorded i (r.happened ++ performed i ∷ []) (replay-performed i r.happened h.0),
      λ j. ground (arith, record-claimed i j r.effects, h.1 j),
    ),
    s,
  )

  run_step-IsBefore :
      ((i : ℕ) → KeepsRecords (fate i))
      → (i : ℕ) (step : Step) (r : RunState) → i < n
      → IsBefore n i r
      → After (IsBefore n (i + 1)) (IsOrderly n) (run_step has_action fate finishes i step r)
  run_step-IsBefore keeps i step r lt (k, le, le', h, s) =
      run_step-rule has_action fate finishes (IsBefore n (i + 1)) (IsOrderly n) i step r
        (failed-IsOrderly n finishes k _ le' h s) (running-IsOrderly n k r le' h s)
        (λ g. (k, omega (arith, ltb→lt i k (sym (h.1 i) ∙ g)), le', h, s))
        λ g.
          perform-IsBefore i (fate i) r (keeps i) lt
            (subst (λ k. IsAt k r) (at_step i k r le h g) h) s g

  executor_run-IsOrderly :
      ((i : ℕ) → KeepsRecords (fate i))
      → (owned readable : Bool) (steps : List Step) → length steps ≡ n
      → (r : RunState) → r.status ≡ running
      → IsOrderly n r
      → IsOrderly n (executor_run has_action fate finishes owned readable steps r)
  unfolding executor_run
  executor_run-IsOrderly keeps true true steps e r s (k, le, h, d) =
      run_steps-rule has_action fate finishes (IsBefore n) (IsOrderly n) n (run_step-IsBefore keeps)
        (finished-IsOrderly n finishes) 0 steps (omega arith) r (k, omega arith, le, h, s)
  executor_run-IsOrderly keeps true false steps e r s (k, le, h, d) =
      failed-IsOrderly n finishes k r le h s
  executor_run-IsOrderly keeps false readable steps e r s (k, le, h, d) =
      failed-IsOrderly n finishes k r le h s

History-IsOrderly :
    {steps : List Step} {r : RunState} → History steps KeepsRecords r → IsOrderly (length steps) r
History-IsOrderly enqueues = (0, omega arith, (refl, λ j. ground arith), λ e. absurd (cc e))
History-IsOrderly {steps} (claims {r} {r'} h e) =
    claim_run-rule (IsOrderly (length steps)) (λ r (k, le, g, d). (k, le, g, λ e. absurd (cc e))) r
      r' e (History-IsOrderly h)
History-IsOrderly {steps} (releases {r} h stale) =
    release_stale_run-rule (IsOrderly (length steps))
      (λ r (k, le, g, d). (k, le, g, λ e. absurd (cc e))) stale r (History-IsOrderly h)
History-IsOrderly {steps}
      (attempts {r} h is_running has_action fate allowed finishes owned readable) =
    executor_run-IsOrderly has_action fate finishes (length steps) allowed owned readable steps refl
      r is_running (History-IsOrderly h)

-- If no record of a success is lost while its worker lives, then through any number of attempts that do
-- not overlap, crashes, and releases between attempts, a run does what a machine with one step counter
-- does: it performs its steps
-- in order, each again only until its success is recorded, and when the run has succeeded all its
-- steps are recorded.
pub History-replay :
    {steps : List Step} {r : RunState}
    → History steps KeepsRecords r
    → (k : ℕ) × (k ≤ length steps)
      × (replay 0 r.happened ≡ some k)
      × (r.status ≡ run_succeeded → k ≡ length steps)
History-replay h = let (k, le, g, d) = History-IsOrderly h in (k, le, g.0, d)
