-- ===== src/Scheduling/Undo.antt =====
-- The undo of a change set: `_undo_conflict`, and the conditions and the priority that `act`
-- of task_scheduling.py takes back.
pub mod Restored
pub mod Fewer
use foxhound.Prelude.{
  ℕ, ◌+◌, Bool, true, false, not, ◌&&◌, ◌||◌, Option, none, some, List, [], ◌∷◌, ◌==◌, is_none,
  if◌then◌else◌, Attempt, ok, raise, integrity_error, ◌>>=◌,
}
use foxhound.Schema.{Workflow, WorkflowStatus, WorkflowPriority, PrioritySource, automation, raised}
use foxhound.Store.{find_task, find_workflow, write}
use foxhound.Tables.{Db, Task, priority_cleared, Condition, ConditionState, canceled}
use foxhound.Operation.{is_open}
use foxhound.Condition.{condition_event}
use foxhound.Scheduling.Rows.{SchedulingKind, raise_priority, ChangeSet, ChangeState}
use foxhound.Scheduling.Prerequisite.{execution_priority_event}
use foxhound.Scheduling.Target.{is_settled}

abbrev pub is_active : ChangeState → Bool
is_active ChangeState.active = true
is_active _ = false

abbrev pub raises : SchedulingKind → Bool
raises raise_priority = true
raises _ = false

abbrev pub by_automation : WorkflowPriority → Option PrioritySource → Bool
by_automation raised (some automation) = true
by_automation _ _ = false

-- The task or its workflow is no longer as the change left it.
target_moved : ChangeSet → Option Task → Option Workflow → Bool
target_moved k none w = true
target_moved k (some t) none = true
target_moved k (some t) (some w) =
    not (is_active k.state)
    || not (is_open t.status)
    || not (t.version == k.target_task_version)
    || not (w.version == k.resulting_workflow_version)
    || is_settled w.status
    || (raises k.kind && not (by_automation w.queue_priority w.queue_priority_source))

awaits_or_queued : WorkflowStatus → Bool
awaits_or_queued WorkflowStatus.awaiting_start = true
awaits_or_queued WorkflowStatus.queued = true
awaits_or_queued _ = false

-- The created task's workflow has not been touched.
pristine : Option Workflow → Bool
unfolding awaits_or_queued
pristine none = true
pristine (some w) =
    awaits_or_queued w.status
    && w.version == 1
    && w.failure_count == 0
    && is_none w.last_result_id
    && is_none w.claim_token_digest

untouched : Option Task → Bool
untouched none = false
untouched (some t) = is_open t.status && t.version == 1

created_moved : Db → Option ℕ → Bool
unfolding untouched pristine
created_moved db none = false
created_moved db (some id) =
    not (untouched (find_task id db.tasks)) || not (pristine (find_workflow id db.workflows))

-- `_undo_conflict`, for the task of the card.
unfoldable pub undo_conflicts : Db → ℕ → ChangeSet → Bool
unfolding target_moved created_moved
undo_conflicts db id k =
    target_moved k (find_task id db.tasks) (find_workflow id db.workflows)
    || created_moved db k.created_task_id

abbrev is_canceled : ConditionState → Bool
is_canceled canceled = true
is_canceled _ = false

-- `change_set_id=? AND state IN ('active','satisfied','needs_review')`.
abbrev cancels : ℕ → Condition → Bool
cancels id c = c.change_set_id == id && not (is_canceled c.state)

abbrev cancel_row : ℕ → ℕ → Condition → Condition
cancel_row id now c = if cancels id c then record c { state = canceled; updated_at = now } else c

unfoldable pub cancel_conditions : ℕ → ℕ → List Condition → List Condition
cancel_conditions id now [] = []
cancel_conditions id now (c ∷ cs) = cancel_row id now c ∷ cancel_conditions id now cs

-- An event for each row of the change set that is canceled.
unfoldable pub cancel_events : ℕ → ℕ → List Condition → Db → Db
cancel_events id now [] db = db
cancel_events id now (c ∷ cs) db = cancel_events id now cs (
    if c.change_set_id == id && is_canceled c.state
    then condition_event c.id c.task_id canceled now db
    else db)

unfoldable pub cancel_change_conditions : ℕ → ℕ → Db → Db
unfolding cancel_conditions cancel_events
cancel_change_conditions id now db =
    let cs = cancel_conditions id now db.conditions in
    cancel_events id now cs (record db { conditions = cs })

abbrev pub restored_row : WorkflowPriority → Option PrioritySource → ℕ → ℕ → Workflow → Workflow
restored_row priority source version now w = record w {
  queue_priority = priority;
  queue_priority_source = source;
  version = version;
  updated_at = now;
}

-- The UPDATE of the priority and its event; the column takes no NULL.
restore_priority : ℕ → ChangeSet → ℕ → Db → Option WorkflowPriority → Attempt Db
unfolding execution_priority_event
restore_priority id k now db none = raise integrity_error
restore_priority id k now db (some priority) = do
  let next = k.resulting_workflow_version + 1
  (_, db1) ←
      write id (λ w. w.version == k.resulting_workflow_version)
        (restored_row priority k.prior_priority_source next now) db
  execution_priority_event id next priority_cleared now db1

unfoldable pub undo_priority : ℕ → ChangeSet → ℕ → Db → Attempt Db
unfolding restore_priority
undo_priority id k now db =
    if raises k.kind then restore_priority id k now db k.prior_priority else ok db
