-- ===== src/Outcome/Total.antt =====
-- Every branch of `record_result` of task_execution.py, on a table whose rows pass their CHECKs.
use foxhound.Prelude.{
  ℕ, ◌≡◌, refl, true, false, Option, none, some, [], ◌∷◌, ◌++◌, arith, Attempt, ok, raise,
  integrity_error, ◌⊎◌,
}
use foxhound.Schema.{Workflow, WorkflowPhase, open_task, same_phase, awaiting_review}
use foxhound.Store.{Joined, find_task, origin_kind, find_workflow, workflow_with_task}
use foxhound.Tables.{Db, Task, EventKind, ResultRow}
use foxhound.Store.Rows.{event_row, workflow_with_task-row}
use foxhound.Operation.{
  OperationResult, Refuses, Disposition, unchanged, applied, refused, invalid_state, not_found,
  result_conflict, refuse, refuse_row, apply_result, then_guard, running_guard, task_guard,
}
use foxhound.Store.Standing.{joined_task}
use foxhound.Service.{Service}
use foxhound.Lease.Moves.{Held, running_guard-Held}
use foxhound.Lease.Applied.{then_guard-none}
use foxhound.Outcome.{phase_guard, record_guard}
use foxhound.Outcome.Answers.{phase_outcome}
use foxhound.Outcome.Answers.{
  ValidResult, find_result, result_target, granted_advance, repeats_an_earlier_answer,
}
use foxhound.Outcome.Recorded.{Storable, recorded_db}

-- The advance that the service's grants give to this result.
abbrev pub advance_of : Service → ValidResult → Db → Option WorkflowPhase
advance_of s v db =
    granted_advance v.phase v.answer.outcome (origin_kind db v.task_id) s.execution_grants
      s.action_grants

-- The caller's claim and the task that it is for, as `record_result` requires them.
pub record Claimed (s : Service) (v : ValidResult) (now : ℕ) (db : Db) : Type 0 where
  pub row : Workflow
  pub task : Task
  pub found : find_workflow v.task_id db.workflows ≡ some row
  pub held : Held row v.workflow_version (s.token_digest v.claim_token) now
  pub phase : same_phase row.phase v.phase ≡ true
  pub task_found : find_task row.task_id db.tasks ≡ some task
  pub opened : task.status ≡ open_task
  pub current : task.version ≡ v.task_version

pub record_guard-Claimed :
    (s : Service) (now : ℕ) (v : ValidResult) (j : Joined) (db : Db)
    → workflow_with_task db v.task_id ≡ some j
    → record_guard s now v j ≡ none
    → (c : Claimed s v now db) × (c.row ≡ j.row)
record_guard-Claimed s now v j db e g =
    let (t, tf, st, ver) = joined_task db v.task_id e in
    let outer =
      then_guard-none
        (then_guard (running_guard j v.workflow_version (s.token_digest v.claim_token) now)
          (task_guard j v.task_version))
        (phase_guard j.row v.phase) g in
    let inner =
      then_guard-none (running_guard j v.workflow_version (s.token_digest v.claim_token) now)
        (task_guard j v.task_version) outer.0 in
    let tg = inner.1 in
    let pg = outer.1 in
    (
      record {
        row = j.row;
        task = t;
        found = workflow_with_task-row db v.task_id e;
        held = running_guard-Held j v.workflow_version (s.token_digest v.claim_token) now inner.0;
        phase = ground arith;
        task_found = tf;
        opened = ground arith;
        current = ground arith;
      },
      refl,
    )

-- A new result, allowed in its phase, is kept and moves its row.
abbrev pub Records : Service → ValidResult → ℕ → Db → Attempt (OperationResult × Db) → Type 0
Records s v now db m =
    (c : Claimed s v now db) × (out : OperationResult) × (phase_outcome v.phase v.answer.outcome
      ≡ true)
    × (repeats_an_earlier_answer db v ≡ false)
    × Storable v c.row now db
    × (m ≡ ok (out, recorded_db v (advance_of s v db) now db c.row))
    × (out.disposition ≡ applied)

-- A result that one of the two tables does not take.
abbrev pub Unstorable : Service → ValidResult → ℕ → Db → Attempt (OperationResult × Db) → Type 0
Unstorable s v now db m =
    (c : Claimed s v now db) × (phase_outcome v.phase v.answer.outcome ≡ true)
    × (repeats_an_earlier_answer db v ≡ false)
    × (Storable v c.row now db → ⊥)
    × (m ≡ raise integrity_error)

-- An answer that repeats an earlier one is noted by an event, and the row is left as it is.
abbrev pub Repeats : Service → ValidResult → ℕ → Db → Attempt (OperationResult × Db) → Type 0
Repeats s v now db m =
    (c : Claimed s v now db) × (repeats_an_earlier_answer db v ≡ true)
    × (m
        ≡ ok (
          refuse_row v.task_id c.row foxhound.Operation.Refusal.result_unchanged,
          record db {
            events =
                db.events
                ++ event_row v.task_id EventKind.result_unchanged c.row.version c.row.task_version
                    c.row.phase c.row.status now c.row
                  ∷ [];
          },
        ))

-- A result id that is known answers for the same task and content, and changes nothing.
abbrev pub Replays : ValidResult → Db → Attempt (OperationResult × Db) → Type 0
Replays v db m =
    (e : ResultRow) × (out : OperationResult) × (find_result v.result_id db.results ≡ some e)
    × (e.task_id ≡ v.task_id)
    × (e.content_digest ≡ v.content_digest)
    × (m ≡ ok (out, db))
    × (out.disposition ≡ unchanged)

pub result_target-cases :
    (v : ValidResult)
    → (result_target v.phase v.answer.outcome ≡ none)
      ⊎ ((result_target v.phase v.answer.outcome ≡ some awaiting_review)
          × (phase_outcome v.phase v.answer.outcome ≡ true))
unfolding result_target
result_target-cases v = ground arith
