-- ===== src/Workflow/Tests.antt =====
-- Runs of the workflow model on concrete input.
use super_ops.Base.{ℕ, zero, suc, ◌≡◌, ◌≤◌, refl, true, false, List, [], ◌∷◌, some, length}
use super_ops.Base.Bytes.{codes, str_eq}
use super_ops.Workflow.{
  performed, recorded, RunState, run_succeeded, running, claim_run, release_stale_run, claim_effect,
  record_effect_result,
}
use super_ops.Workflow.Executor.{
  Fate, dies_performed, performs, Step, after_perform, perform, claim_and_perform, run_step,
  run_steps, executor_run,
}
use super_ops.Workflow.Repeats.{History, enqueues, claims, releases, attempts, queued, NeverRepeats}
use super_ops.Workflow.Once.{History-NeverRepeats}
use super_ops.Workflow.Order.{KeepsRecords, replay, History-replay}
use super_ops.Workflow.Completes.{AreRecorded, every_action, fine, executor_run-succeeds}
use super_ops.Workflow.Trigger.{
  Tables, Matching, Message, handle, handle_matches, handle_match, after_enqueue, enqueue_run_at,
  matches, recent_runs, has_run,
}
use super_ops.Workflow.Enqueued.{IsWellFormed, nothing, delivers, Delivered-IsWellFormed}
use super_ops.Workflow.Subjects.{parse_subject, split, join, parse_subject-append}

abbrev two_steps : List Step
two_steps = record { kind = codes "notify" } ∷ record { kind = codes "add_comment" } ∷ []

-- The worker dies after the second step, before its record.
abbrev dies_late : ℕ → Fate
dies_late zero = performs true
dies_late (suc i) = dies_performed

abbrev started : RunState → RunState
started r = record r { status = running }

abbrev first_attempt : RunState
first_attempt = executor_run every_action dies_late true true true two_steps (started queued)

abbrev second_attempt : RunState
second_attempt =
    executor_run every_action fine true true true two_steps
      (started (release_stale_run true first_attempt))

two_attempts :
    second_attempt.happened ≡ performed 0 ∷ recorded 0 ∷ performed 1 ∷ performed 1 ∷ recorded 1 ∷ []
unfolding executor_run run_steps run_step claim_and_perform perform after_perform claim_effect
    record_effect_result release_stale_run
two_attempts = refl

abbrev loses_first : ℕ → Fate
loses_first zero = performs false
loses_first (suc i) = performs true

-- A record that is lost while the worker lives: the first step is performed again after the second.
lost_record :
    (executor_run every_action fine true true true two_steps
      (executor_run every_action loses_first false true true two_steps (started queued))).happened
    ≡ performed 0 ∷ performed 1 ∷ recorded 1 ∷ performed 0 ∷ recorded 0 ∷ []
unfolding executor_run run_steps run_step claim_and_perform perform after_perform claim_effect
    record_effect_result
lost_record = refl

History_of_two_attempts :
    {Allowed : Fate → Type 0}
    → ((i : ℕ) → Allowed (dies_late i))
    → ((i : ℕ) → Allowed (fine i))
    → History two_steps Allowed second_attempt
unfolding claim_run release_stale_run executor_run run_steps run_step claim_and_perform perform
    after_perform claim_effect record_effect_result
History_of_two_attempts late fine_allowed =
    attempts
      (claims
        (releases (attempts (claims enqueues refl) refl every_action dies_late late true true true)
          true)
        refl)
      refl every_action fine fine_allowed true true true

History-NeverRepeats_example : NeverRepeats second_attempt.happened
History-NeverRepeats_example =
    History-NeverRepeats (History_of_two_attempts {Allowed = λ f. Unit} (λ i. tt) (λ i. tt))

dies_late-KeepsRecords : (i : ℕ) → KeepsRecords (dies_late i)
dies_late-KeepsRecords zero = refl
dies_late-KeepsRecords (suc i) = tt

History-replay_example :
    (k : ℕ) × (k ≤ 2)
    × (replay 0 second_attempt.happened ≡ some k)
    × (second_attempt.status ≡ run_succeeded → k ≡ 2)
History-replay_example = History-replay (History_of_two_attempts dies_late-KeepsRecords (λ i. refl))

executor_run-succeeds_example :
    (second_attempt.status ≡ run_succeeded) × AreRecorded 2 second_attempt
executor_run-succeeds_example =
    executor_run-succeeds two_steps (started (release_stale_run true first_attempt))

abbrev posted : Message
posted = record {
  event_type = codes "message.created";
  identity = codes "seq:7";
  fields = (codes "channel_id", codes "general") ∷ [];
  encoded = codes "{}";
  depth = 0;
  root_run_id = [];
}

abbrev greeter : Matching
greeter = record {
  workflow_id = codes "w";
  workspace_id = codes "acme";
  owner_id = codes "ann";
  version_id = codes "v1";
  filter = (codes "channel_id", codes "general") ∷ [];
}

abbrev empty_tables : Tables
empty_tables = record { runs = []; rejections = [] }

abbrev delivered_once : Tables
delivered_once = (handle 100 posted ((true, [], greeter) ∷ []) empty_tables).0

abbrev delivered_twice : Tables
delivered_twice = (handle 101 posted ((true, [], greeter) ∷ []) delivered_once).0

redelivered : length delivered_twice.runs ≡ 1
unfolding handle handle_matches handle_match after_enqueue enqueue_run_at matches recent_runs
    has_run str_eq
redelivered = refl

Delivered-IsWellFormed_example : IsWellFormed delivered_twice.runs
Delivered-IsWellFormed_example = Delivered-IsWellFormed (
    delivers (delivers nothing 100 posted ((true, [], greeter) ∷ [])) 101 posted
      ((true, [], greeter) ∷ []))

parse_subject-append_example :
    parse_subject (codes "superops.acme.message.created")
    ≡ some (codes "acme", codes "message.created")
parse_subject-append_example =
    parse_subject-append (codes "acme") (codes "message.created") (refl, (refl, (refl, (refl, tt))))
      (
        codes "message",
        codes "created",
        (refl, (refl, (refl, (refl, (refl, (refl, (refl, tt))))))),
        refl,
      )

read_subject :
    parse_subject (codes "superops.acme.message.created")
    ≡ some (codes "acme", codes "message.created")
unfolding parse_subject split join str_eq
read_subject = refl
