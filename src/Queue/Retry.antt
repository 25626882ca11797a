-- ===== src/Queue/Retry.antt =====
-- Every branch of `retry` of task_execution.py, on a table whose rows pass their CHECKs.
use foxhound.Prelude.{
  ℕ, ◌+◌, ◌≡◌, refl, true, Option, none, some, arith, Attempt, ok, Bool-cases, Option-cases, ◌⊎◌,
  inl, inr, ◌==◌,
}
use foxhound.Schema.{Workflow, queued, checks, run_id_column}
use foxhound.Store.{Joined, find_workflow, workflow_with_task}
use foxhound.Tables.{Db, retry_scheduled}
use foxhound.Store.Rows.{
  Checked, Valid, moved, event_row, find_workflow-key, find_workflow-Checked, write-applies,
  event-replaced, workflow_with_task-row,
}
use foxhound.Store.Standing.{Stands, task_guard-Stands}
use foxhound.Operation.{
  OperationResult, Refuses, invalid_argument, not_found, applied, refuse, refuse_row, apply_result,
  valid_identity, workflow_guard, task_guard, then_guard,
}
use foxhound.Queue.{opens_retry, retried, retry_at, retry}

no_run_id : run_id_column none ≡ true
unfolding run_id_column
no_run_id = refl

pub retried-Checked :
    (expected now : ℕ) (w : Workflow)
    → opens_retry w.status ≡ true
    → Checked w
    → Checked (retried (expected + 1) now w)
unfolding checks
retried-Checked expected now w o c = ground (arith, no_run_id)

-- The retry applied: to a waiting row whose task stands behind it.
abbrev pub Retries : Attempt (OperationResult × Db) → Db → ℕ → ℕ → ℕ → Type 0
Retries m db id expected now =
    (w : Workflow) × (out : OperationResult) × (find_workflow id db.workflows ≡ some w)
    × (w.version ≡ expected)
    × (opens_retry w.status ≡ true)
    × Stands db w
    × (m
        ≡ ok (
          out,
          moved db id
              (record w {
                status = queued;
                version = expected + 1;
                failure_count = 0;
                last_failure_reason = none;
                last_failure_exit_code = none;
                last_failure_run_id = none;
                last_failure_at = none;
                next_attempt_at = none;
                parked_at = none;
                updated_at = now;
              })
              (event_row id retry_scheduled (expected + 1) w.task_version w.phase queued now w),
        ))
    × (out.disposition ≡ applied)

guard-parts :
    (j : Joined) (expected : ℕ)
    → then_guard (workflow_guard j expected opens_retry) (task_guard j j.row.task_version) ≡ none
    → (j.row.version ≡ expected)
      × (opens_retry j.row.status ≡ true)
      × (task_guard j j.row.task_version ≡ none)
guard-parts j expected h = (ground arith, ground arith, ground arith)

retry_at_total :
    (now id expected : ℕ) (db : Db) (o : Option Joined)
    → Valid db
    → workflow_with_task db id ≡ o
    → Refuses (retry_at now id expected o db) db
      ⊎ Retries (retry_at now id expected o db) db id expected now
unfolding retry_at
retry_at_total now id expected db none v e = inl (refuse id not_found, refl, refl)
retry_at_total now id expected db (some j) v e =
    let f = workflow_with_task-row db id e in
    elim (Option-cases
      (then_guard (workflow_guard j expected opens_retry) (task_guard j j.row.task_version))) [
        | inr (r, p) ↦ inl (refuse_row id j.row r, rw (p, retry_at), refl)
        | inl p ↦
            let g = guard-parts j expected p in
            inr (
              j.row,
              apply_result id (expected + 1) queued j.row.phase none none j.row.agent_profile_id
                  j.row.agent_profile_revision,
              f,
              g.0,
              g.1,
              task_guard-Stands db id e g.2,
              rw (p, retry_at)
                  (rw
                    (write-applies id (λ r. r.version == expected) (retried (expected + 1) now) db f
                      (ground arith)
                      (retried-Checked expected now j.row g.1
                        (find_workflow-Checked id db.workflows v.rows f)))
                    (rw (
                      event-replaced id retry_scheduled (expected + 1) j.row.task_version
                        j.row.phase queued now db (retried (expected + 1) now j.row)
                        (find_workflow-key id db.workflows f) f))),
              refl,
            )
      ]

-- On checked rows `retry` never raises: it refuses and changes nothing, or the reader named the
-- current version of a queued or parked row whose task stands behind it, and the row is queued at
-- its next version with no failure against it and nothing to wait for.
pub retry_total :
    (now id expected : ℕ) (db : Db)
    → Valid db
    → Refuses (retry now id expected db) db ⊎ Retries (retry now id expected db) db id expected now
unfolding retry
retry_total now id expected db v = elim (Bool-cases (valid_identity id expected)) [
  | inl p ↦ rw p (retry_at_total now id expected db (workflow_with_task db id) v refl)
  | inr p ↦ inl (refuse id invalid_argument, rw p, refl)
]
