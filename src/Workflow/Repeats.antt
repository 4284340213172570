-- ===== src/Workflow/Repeats.antt =====
-- Over any number of attempts at one run: what the table of effects keeps from being repeated.
use super_ops.Base.{
  ◌<◌, some_inj, true, if◌then◌else◌, inl, inr, ℕ, ◌+◌, ◌≡◌, refl, Bool, false, ◌||◌, List, [], ◌∷◌,
  ◌++◌, none, some, length, ◌==◌, arith, subst,
}
use super_ops.Workflow.{
  run_succeeded, RunStatus, step_failed, step_succeeded, finish_step, claimed, set_effect,
  claim_effect, run_failed, Bytes, Event, performed, recorded, RunState, pending, running,
  run_succeeded, claim_run, release_stale_run, finish_run,
}
use super_ops.Workflow.Tables.{is_succeeded, claim_effect-cases}
use super_ops.Workflow.Executor.{
  claim_fails, dies_claimed, dies_performed, errs, performs, perform, claim_and_perform, Fate, Step,
  Next, goes_on, stops, run_step, run_steps, executor_run,
}

-- A run that was just queued.
abbrev pub queued : RunState
queued = record { status = pending; effects = λ i. none; step_runs = λ i. none; happened = [] }

-- The states of one run with these steps under workers that claim it, attempt it and lose it, the
-- fates of its steps being of a kind.
pub data History (steps : List Step) (Allowed : Fate → Type 0) : RunState → Type 0 where
  enqueues : History steps Allowed queued
  claims :
      {r r' : RunState} → History steps Allowed r → claim_run r ≡ some r' → History steps Allowed r'
  releases :
      {r : RunState}
      → History steps Allowed r
      → (stale : Bool) → History steps Allowed (release_stale_run stale r)
  attempts :
      {r : RunState}
      → History steps Allowed r
      → r.status ≡ running
      → (has_action : Bytes → Bool) → (fate : ℕ → Fate) → ((i : ℕ) → Allowed (fate i))
      → (finishes owned readable : Bool)
      → History steps Allowed (executor_run has_action fate finishes owned readable steps r)

abbrev pub is_performed_in : ℕ → List Event → Bool
is_performed_in i [] = false
is_performed_in i (performed j ∷ es) = i == j || is_performed_in i es
is_performed_in i (recorded j ∷ es) = is_performed_in i es

abbrev pub is_recorded_in : ℕ → List Event → Bool
is_recorded_in i [] = false
is_recorded_in i (performed j ∷ es) = is_recorded_in i es
is_recorded_in i (recorded j ∷ es) = i == j || is_recorded_in i es

-- Once a step's success is recorded, the step is neither performed nor recorded again.
abbrev pub NeverRepeats : List Event → Type 0
NeverRepeats [] = Unit
NeverRepeats (performed i ∷ es) = NeverRepeats es
NeverRepeats (recorded i ∷ es) =
    (is_performed_in i es ≡ false) × (is_recorded_in i es ≡ false) × NeverRepeats es

-- What a step leaves behind: `P` if the loop goes on, `Q` if it stops.
abbrev pub After : (RunState → Type 0) → (RunState → Type 0) → Next → Type 0
After P Q (goes_on r) = P r
After P Q (stops r) = Q r

module _ (has_action : Bytes → Bool) (fate : ℕ → Fate) (finishes : Bool) where
  claim_and_perform-rule :
      (P Q : RunState → Type 0) (i : ℕ) (f : Fate) (r : RunState)
      → Q r
      → (is_succeeded (r.effects i) ≡ true → P (finish_step i step_succeeded r))
      → (is_succeeded (r.effects i) ≡ false
          → After P Q (
              perform has_action fate finishes i f
                (record r { effects = set_effect i claimed r.effects })))
      → After P Q (claim_and_perform has_action fate finishes i f r)
  unfolding claim_and_perform
  claim_and_perform-rule P Q i f r unclaimed skipped fresh = go f claimed_step
    where
      claimed_step : After P Q (
          if (claim_effect i r.effects).0
          then perform has_action fate finishes i f
              (record r { effects = (claim_effect i r.effects).1 })
          else goes_on (finish_step i step_succeeded r))
      claimed_step = elim (claim_effect-cases i r.effects) [
        | inl h ↦ rw (h.1) (skipped h.0)
        | inr h ↦ rw (h.1) (fresh h.0)
      ]

      go :
          (f : Fate)
          → After P Q (
              if (claim_effect i r.effects).0
              then perform has_action fate finishes i f
                  (record r { effects = (claim_effect i r.effects).1 })
              else goes_on (finish_step i step_succeeded r))
          → After P Q (claim_and_perform has_action fate finishes i f r)
      go claim_fails c = unclaimed
      go dies_claimed c = c
      go dies_performed c = c
      go (errs b) c = c
      go (performs b) c = c

  -- What a step leaves behind, by what happens to it.
  pub run_step-rule :
      (P Q : RunState → Type 0) (i : ℕ) (s : Step) (r : RunState)
      → Q (finish_run finishes run_failed (finish_step i step_failed r))
      → Q r
      → (is_succeeded (r.effects i) ≡ true → P (finish_step i step_succeeded r))
      → (is_succeeded (r.effects i) ≡ false
          → After P Q (
              perform has_action fate finishes i
                (fate i)
                (record r { effects = set_effect i claimed r.effects })))
      → After P Q (run_step has_action fate finishes i s r)
  unfolding run_step
  run_step-rule P Q i s r no_action unclaimed skipped fresh = go (has_action s.kind)
    where
      go :
          (b : Bool)
          → After P Q (
              if b
              then claim_and_perform has_action fate finishes i (fate i) r
              else stops (finish_run finishes run_failed (finish_step i step_failed r)))
      go false = no_action
      go true = claim_and_perform-rule P Q i (fate i) r unclaimed skipped fresh

  -- An invariant of the loop: `P i` before step `i`, `Q` once it is left.
  pub run_steps-rule :
      (P : ℕ → RunState → Type 0) (Q : RunState → Type 0) (n : ℕ)
      → ((i : ℕ) (s : Step) (r : RunState)
          → i < n
          → P i r
          → After (P (i + 1)) Q (run_step has_action fate finishes i s r))
      → ((r : RunState) → P n r → Q (finish_run finishes run_succeeded r))
      → (i : ℕ) (steps : List Step) → i + length steps ≡ n
      → (r : RunState) → P i r
      → Q (run_steps has_action fate finishes i steps r)
  unfolding run_steps
  run_steps-rule P Q n step final i [] e r h = final r (subst (λ m. P m r) (omega arith) h)
  run_steps-rule P Q n step final i (s ∷ ss) e r h =
      go (run_step has_action fate finishes i s r) (step i s r (omega arith) h)
        (run_steps-rule P Q n step final (i + 1) ss (omega arith))
    where
      go :
          (next : Next)
          → After (P (i + 1)) Q next
          → ((r : RunState) → P (i + 1) r → Q (run_steps has_action fate finishes (i + 1) ss r))
          → Q (elim next [
            | stops r' ↦ r'
            | goes_on r' ↦ run_steps has_action fate finishes (i + 1) ss r'
          ])
      go (stops r') g rest = g
      go (goes_on r') g rest = rest r' g

pub is_performed_in-append :
    (i : ℕ) (xs ys : List Event)
    → is_performed_in i (xs ++ ys) ≡ (is_performed_in i xs || is_performed_in i ys)
is_performed_in-append i [] ys = refl
is_performed_in-append i (performed j ∷ xs) ys = ground (arith, is_performed_in-append i xs ys)
is_performed_in-append i (recorded j ∷ xs) ys = is_performed_in-append i xs ys

pub is_recorded_in-append :
    (i : ℕ) (xs ys : List Event)
    → is_recorded_in i (xs ++ ys) ≡ (is_recorded_in i xs || is_recorded_in i ys)
is_recorded_in-append i [] ys = refl
is_recorded_in-append i (performed j ∷ xs) ys = is_recorded_in-append i xs ys
is_recorded_in-append i (recorded j ∷ xs) ys = ground (arith, is_recorded_in-append i xs ys)

pub performed-append :
    (i : ℕ) (es : List Event)
    → NeverRepeats es
    → is_recorded_in i es ≡ false
    → NeverRepeats (es ++ performed i ∷ [])
performed-append i [] n h = tt
performed-append i (performed j ∷ es) n h = performed-append i es n h
performed-append i (recorded j ∷ es) n h = ground (
  arith,
  is_performed_in-append j es (performed i ∷ []),
  is_recorded_in-append j es (performed i ∷ []),
  performed-append i es,
)

pub recorded-append :
    (i : ℕ) (es : List Event)
    → NeverRepeats es
    → is_recorded_in i es ≡ false
    → NeverRepeats (es ++ recorded i ∷ [])
recorded-append i [] n h = (refl, refl, tt)
recorded-append i (performed j ∷ es) n h = recorded-append i es n h
recorded-append i (recorded j ∷ es) n h = ground (
  arith,
  is_performed_in-append j es (recorded i ∷ []),
  is_recorded_in-append j es (recorded i ∷ []),
  recorded-append i es,
)

pub claim_run-rule :
    (Q : RunState → Type 0)
    → ((r : RunState) → Q r → Q (record r { status = running }))
    → (r r' : RunState) → claim_run r ≡ some r'
    → Q r
    → Q r'
unfolding claim_run
claim_run-rule Q starts r r' e h = go r.status e
  where
    go :
        (s : RunStatus)
        → elim s [ pending ↦ some (record r { status = running }) | _ ↦ none ] ≡ some r'
        → Q r'
    go pending e = subst Q (some_inj e) (starts r h)
    go running e = absurd (cc e)
    go run_succeeded e = absurd (cc e)
    go run_failed e = absurd (cc e)

pub release_stale_run-rule :
    (Q : RunState → Type 0)
    → ((r : RunState) → Q r → Q (record r { status = pending }))
    → (stale : Bool) (r : RunState) → Q r
    → Q (release_stale_run stale r)
unfolding release_stale_run
release_stale_run-rule Q resets stale r h = go r.status stale
  where
    go :
        (s : RunStatus) (stale : Bool)
        → Q (elim s [ running ↦ if stale then record r { status = pending } else r | _ ↦ r ])
    go running true = resets r h
    go running false = h
    go pending stale = h
    go run_succeeded stale = h
    go run_failed stale = h
