-- ===== src/Queue.antt =====
-- A reader's hold on the queue, from task_execution.py: `set_priority` and `retry`.
pub mod Retry
pub mod Priority
use foxhound.Prelude.{
  ℕ, ◌+◌, String, Bool, true, false, not, ◌&&◌, Option, none, some, ◌==◌, str_eq, is_none,
  if◌then◌else◌, Attempt, ok, ◌>>=◌,
}
use foxhound.Schema.{
  Workflow, WorkflowStatus, WorkflowPriority, PrioritySource, reader, raised, normal, lowered,
  queued, parked, is_queued,
}
use foxhound.Store.{Joined, workflow_with_task, write, event}
use foxhound.Tables.{
  Db, EventKind, retry_scheduled, priority_raised, priority_lowered, priority_cleared,
}
use foxhound.Operation.{
  OperationResult, Refusal, invalid_argument, invalid_action, invalid_state, not_found,
  stale_workflow, unchanged, refuse, refuse_row, operation, apply_result, valid_identity,
  workflow_guard, task_guard, then_guard,
}
use foxhound.Gate.Start.{sleeps_past}
use foxhound.Sweep.{cancel_stale}

pub data PriorityAction : Type 0 where
  raise lower clear : PriorityAction

unfoldable pub priority_choice : String → Option PriorityAction
priority_choice a =
    if str_eq a "raise"
    then some raise
    else if str_eq a "lower"
    then some lower
    else if str_eq a "clear"
    then some clear
    else none

abbrev pub priority_of : PriorityAction → WorkflowPriority
priority_of raise = raised
priority_of lower = lowered
priority_of clear = normal

abbrev pub source_of : PriorityAction → Option PrioritySource
source_of clear = none
source_of _ = some reader

abbrev pub priority_event : PriorityAction → EventKind
priority_event raise = priority_raised
priority_event lower = priority_lowered
priority_event clear = priority_cleared

abbrev same_priority : WorkflowPriority → WorkflowPriority → Bool
same_priority raised raised = true
same_priority normal normal = true
same_priority lowered lowered = true
same_priority _ _ = false

-- The UPDATE of `set_priority`.
abbrev pub preferred : PriorityAction → ℕ → ℕ → Workflow → Workflow
preferred action version now w = record w {
  queue_priority = priority_of action;
  queue_priority_source = source_of action;
  version = version;
  updated_at = now;
}

abbrev pub priority_guard : Joined → ℕ → ℕ → Option Refusal
priority_guard j expected now =
    then_guard (then_guard (workflow_guard j expected is_queued) (task_guard j j.row.task_version))
      (if sleeps_past j.row.next_attempt_at now then some invalid_state else none)

-- `status='queued' AND (next_attempt_at IS NULL OR next_attempt_at<=?)` at this version.
abbrev pub ready_at : ℕ → ℕ → Workflow → Bool
ready_at expected now r =
    r.version == expected && is_queued r.status && not (sleeps_past r.next_attempt_at now)

-- An `ok` result with the priority that was set.
abbrev pub with_priority : OperationResult → WorkflowPriority → OperationResult
with_priority r p = record r { priority = some p }

-- `_refused_row` at a row that is read again.
refuse_found : ℕ → Option Joined → Refusal → OperationResult
refuse_found id none r = refuse id r
refuse_found id (some j) r = refuse_row id j.row r

priority_written :
    ℕ → ℕ → ℕ → PriorityAction → Workflow → Db → Bool × Db → Attempt (OperationResult × Db)
unfolding refuse_found
priority_written now id expected action w before (false, db) =
    ok (refuse_found id (workflow_with_task before id) stale_workflow, before)
priority_written now id expected action w before (true, db) = do
  db2 ← event id (priority_event action) (expected + 1) w.task_version w.phase queued now db
  ok (
    with_priority
        (apply_result id (expected + 1) queued w.phase none none w.agent_profile_id
          w.agent_profile_revision)
        (priority_of action),
    db2,
  )

-- The guards read the database after the sweep; a result that changes nothing rolls the sweep back.
priority_at : ℕ → ℕ → ℕ → PriorityAction → Option Joined → Db → Db → Attempt (OperationResult × Db)
unfolding priority_written
priority_at now id expected action none before db = ok (refuse id not_found, before)
priority_at now id expected action (some j) before db = elim (priority_guard j expected now) [
  | some r ↦ ok (refuse_row id j.row r, before)
  | none ↦
      if same_priority j.row.queue_priority (priority_of action)
        && is_none j.row.queue_priority_source
      then ok (operation j.row unchanged, before)
      else (do
        out ← write id (ready_at expected now) (preferred action (expected + 1) now) db
        priority_written now id expected action j.row before out)
]

priority_chosen : ℕ → ℕ → ℕ → Option PriorityAction → Db → Attempt (OperationResult × Db)
unfolding priority_at
priority_chosen now id expected none db = ok (refuse id invalid_action, db)
priority_chosen now id expected (some action) db = do
  swept ← cancel_stale now db
  priority_at now id expected action (workflow_with_task swept id) db swept

-- `set_priority`.
unfoldable pub set_priority : ℕ → ℕ → ℕ → String → Db → Attempt (OperationResult × Db)
unfolding priority_chosen
set_priority now id expected action db =
    if valid_identity id expected
    then priority_chosen now id expected (priority_choice action) db
    else ok (refuse id invalid_argument, db)

abbrev pub opens_retry : WorkflowStatus → Bool
opens_retry queued = true
opens_retry parked = true
opens_retry _ = false

-- The UPDATE of `retry`.
abbrev pub retried : ℕ → ℕ → Workflow → Workflow
retried version now w = record w {
  status = queued;
  version = version;
  failure_count = 0;
  last_failure_reason = none;
  last_failure_exit_code = none;
  last_failure_run_id = none;
  last_failure_at = none;
  next_attempt_at = none;
  parked_at = none;
  updated_at = now;
}

retry_at : ℕ → ℕ → ℕ → Option Joined → Db → Attempt (OperationResult × Db)
retry_at now id expected none db = ok (refuse id not_found, db)
retry_at now id expected (some j) db =
    elim (then_guard (workflow_guard j expected opens_retry) (task_guard j j.row.task_version)) [
      | some r ↦ ok (refuse_row id j.row r, db)
      | none ↦ do
        (_, db1) ← write id (λ r. r.version == expected) (retried (expected + 1) now) db
        db2 ← event id retry_scheduled (expected + 1) j.row.task_version j.row.phase queued now db1
        ok (
          apply_result id (expected + 1) queued j.row.phase none none j.row.agent_profile_id
              j.row.agent_profile_revision,
          db2,
        )
    ]

-- `retry`.
unfoldable pub retry : ℕ → ℕ → ℕ → Db → Attempt (OperationResult × Db)
unfolding retry_at
retry now id expected db =
    if valid_identity id expected
    then retry_at now id expected (workflow_with_task db id) db
    else ok (refuse id invalid_argument, db)
