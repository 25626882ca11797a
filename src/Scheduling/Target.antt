-- ===== src/Scheduling/Target.antt =====
-- `_target_refusal` of task_scheduling.py, and the limits that `apply` puts on a task's conditions.
pub mod Open
use foxhound.Prelude.{
  ℕ, ◌+◌, ◌*◌, Bool, true, false, ◌&&◌, ◌||◌, Option, none, some, List, [], ◌∷◌, leb, ◌==◌,
  if◌then◌else◌,
}
use foxhound.Schema.{Workflow, WorkflowStatus}
use foxhound.Tables.{Db, Task, Condition, ConditionKind}
use foxhound.Operation.{is_open}
use foxhound.Condition.{is_watched}
use foxhound.Scheduling.{
  SchedulingRefusal, not_found, invalid_state, stale_task, stale_workflow, limit_exceeded,
}
use foxhound.Scheduling.Rows.{SchedulingKind, not_before, raise_priority, Recommendation}

abbrev pub max_active_conditions : ℕ
max_active_conditions = 3

-- MAX_NOT_BEFORE_DAYS, in seconds.
abbrev pub not_before_window : ℕ
not_before_window = 365 * 86400

-- The statuses that no change may target.
abbrev pub is_settled : WorkflowStatus → Bool
is_settled WorkflowStatus.running = true
is_settled WorkflowStatus.completed = true
is_settled WorkflowStatus.cancelled = true
is_settled WorkflowStatus.awaiting_review = true
is_settled _ = false

target_workflow_refusal : Workflow → Recommendation → Option SchedulingRefusal
target_workflow_refusal w r =
    if w.version == r.expected_workflow_version
    then if is_settled w.status then some invalid_state else none
    else some stale_workflow

-- `_target_refusal`, for the task and its workflow as they were found.
unfoldable pub target_refusal :
    Option Task → Option Workflow → Recommendation → Option SchedulingRefusal
unfolding target_workflow_refusal
target_refusal none w r = some not_found
target_refusal (some t) none r = some not_found
target_refusal (some t) (some w) r =
    if is_open t.status
    then if t.version == r.target_task_version then target_workflow_refusal w r else some stale_task
    else some invalid_state

unfoldable pub active_count : ℕ → List Condition → ℕ
active_count id [] = 0
active_count id (c ∷ cs) =
    (if c.task_id == id && is_watched c.state then 1 else 0) + active_count id cs

is_start : ConditionKind → Bool
is_start (ConditionKind.not_before start) = true
is_start (ConditionKind.after_task_completed id) = false

unfoldable pub has_start : ℕ → List Condition → Bool
unfolding is_start
has_start id [] = false
has_start id (c ∷ cs) =
    (c.task_id == id && is_start c.kind && is_watched c.state) || has_start id cs

abbrev pub adds_condition : SchedulingKind → Bool
adds_condition raise_priority = false
adds_condition _ = true

abbrev is_not_before : SchedulingKind → Bool
is_not_before not_before = true
is_not_before _ = false

-- The limits on a task's active conditions.
unfoldable pub limit_refusal : Db → Recommendation → Option SchedulingRefusal
unfolding active_count has_start
limit_refusal db r =
    if adds_condition r.kind
      && leb max_active_conditions (active_count r.target_task_id db.conditions)
    then some limit_exceeded
    else if is_not_before r.kind && has_start r.target_task_id db.conditions
    then some limit_exceeded
    else none
