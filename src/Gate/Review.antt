-- ===== src/Gate/Review.antt =====
-- `_apply_review_action` and `review_action` of task_execution.py.
pub mod Total
use foxhound.Prelude.{
  ℕ, ◌+◌, String, Bool, true, false, ◌&&◌, Option, none, some, List, [], ◌∷◌, ◌==◌, str_eq, is_some,
  if◌then◌else◌, Attempt, ok, ◌>>=◌,
}
use foxhound.Schema.{
  Workflow, WorkflowStatus, WorkflowPhase, ExecutionOutcome, awaiting_plan, awaiting_external, plan,
  execute, external_action, queued, awaiting_review, snoozed,
}
use foxhound.Store.{Joined, workflow_with_task}
use foxhound.Tables.{Db, EventKind, ResultRow, revision_requested, phase_approved}
use foxhound.Operation.{
  OperationResult, Refusal, invalid_argument, invalid_action, invalid_state, not_found, refuse,
  refuse_row, valid_identity, workflow_guard, task_guard, then_guard, transact,
}
use foxhound.Gate.Snooze.{Zone, SnoozeAction, snooze, calendar_snooze_until, review_snooze}
use foxhound.Gate.Start.{GateMove, gate, asleep_guard}

pub data ReviewAction : Type 0 where
  approve revise cancel : ReviewAction
  snoozes : SnoozeAction → ReviewAction

snooze_review : Option SnoozeAction → Option ReviewAction
snooze_review none = none
snooze_review (some a) = some (snoozes a)

-- `action in {"approve", "revise", "cancel", "snooze", *REVIEW_SNOOZE_ACTIONS}`.
unfoldable pub review_choice : String → Option ReviewAction
unfolding snooze_review
review_choice a =
    if str_eq a "approve"
    then some approve
    else if str_eq a "revise"
    then some revise
    else if str_eq a "cancel"
    then some cancel
    else if str_eq a "snooze"
    then some (snoozes snooze)
    else snooze_review (review_snooze a)

-- A completed workflow may be snoozed, and nothing else.
abbrev pub opens_review : ReviewAction → WorkflowStatus → Bool
opens_review action awaiting_review = true
opens_review action snoozed = true
opens_review (snoozes a) WorkflowStatus.completed = true
opens_review action _ = false

-- `SELECT outcome FROM task_execution_results WHERE result_id=? AND task_id=?`.
outcome_of : String → ℕ → List ResultRow → Option ExecutionOutcome
outcome_of rid id [] = none
outcome_of rid id (r ∷ rs) =
    if str_eq r.result_id rid && r.task_id == id
    then some r.answer.outcome
    else outcome_of rid id rs

pub last_outcome : Db → ℕ → Option String → Option ExecutionOutcome
unfolding outcome_of
last_outcome db id none = none
last_outcome db id (some rid) = outcome_of rid id db.results

abbrev pub review_guard : Joined → ℕ → ReviewAction → ℕ → Option Refusal
review_guard j expected action now =
    then_guard
      (then_guard (workflow_guard j expected (opens_review action))
        (task_guard j j.row.task_version))
      (asleep_guard j.row now)

-- The phase that approving a result opens.
unfoldable pub approved_phase : ExecutionOutcome → Option WorkflowPhase
approved_phase awaiting_plan = some execute
approved_phase awaiting_external = some external_action
approved_phase _ = none

approve_move : Option WorkflowPhase → Option GateMove
approve_move none = none
approve_move (some phase) = some (record {
  status = queued;
  phase = phase;
  wake = none;
  completed = none;
  kind = phase_approved;
})

-- `none` where the action has no target: an approval of a result that asks for none.
unfoldable pub review_move :
    Zone → ℕ → WorkflowPhase → ExecutionOutcome → ReviewAction → Option GateMove
unfolding approve_move
review_move z now phase outcome cancel = some (record {
  status = WorkflowStatus.cancelled;
  phase = phase;
  wake = none;
  completed = some now;
  kind = EventKind.cancelled;
})
review_move z now phase outcome revise = some (record {
  status = queued;
  phase = plan;
  wake = none;
  completed = none;
  kind = revision_requested;
})
review_move z now phase outcome (snoozes a) = some (record {
  status = snoozed;
  phase = phase;
  wake = some (calendar_snooze_until z a now);
  completed = none;
  kind = EventKind.snoozed;
})
review_move z now phase outcome approve = approve_move (approved_phase outcome)

pub review_gate : ℕ → ℕ → ℕ → Workflow → Option GateMove → Db → Attempt (OperationResult × Db)
review_gate now id expected w none db = ok (refuse_row id w invalid_state, db)
review_gate now id expected w (some m) db = gate id expected w m now db

pub review_result :
    Zone
    → ℕ
    → ℕ
    → ℕ
    → ReviewAction
    → Workflow
    → Option ExecutionOutcome
    → Db
    → Attempt (OperationResult × Db)
unfolding review_gate
review_result z now id expected action w none db = ok (refuse_row id w invalid_state, db)
review_result z now id expected action w (some outcome) db =
    review_gate now id expected w (review_move z now w.phase outcome action) db

pub review_at :
    Zone → ℕ → ℕ → ℕ → ReviewAction → Option Joined → Db → Attempt (OperationResult × Db)
unfolding review_result last_outcome
review_at z now id expected action none db = ok (refuse id not_found, db)
review_at z now id expected action (some j) db = elim (review_guard j expected action now) [
  | some r ↦ ok (refuse_row id j.row r, db)
  | none ↦ review_result z now id expected action j.row (last_outcome db id j.row.last_result_id) db
]

pub review_chosen : Zone → ℕ → ℕ → ℕ → Option ReviewAction → Db → Attempt (OperationResult × Db)
unfolding review_at
review_chosen z now id expected none db = ok (refuse id invalid_action, db)
review_chosen z now id expected (some action) db =
    review_at z now id expected action (workflow_with_task db id) db

-- `_apply_review_action`.
unfoldable pub apply_review_action : Zone → ℕ → ℕ → ℕ → String → Db → Attempt (OperationResult × Db)
unfolding review_chosen
apply_review_action z now id expected action db =
    if valid_identity id expected
    then review_chosen z now id expected (review_choice action) db
    else ok (refuse id invalid_argument, db)

not_bare : String → Bool
not_bare a = if str_eq a "snooze" then false else true

-- `review_action`, which does not take the bare snooze.
unfoldable pub review_action : Zone → ℕ → ℕ → ℕ → String → Db → Attempt (OperationResult × Db)
unfolding not_bare
review_action z now id expected action db =
    if valid_identity id expected
    then if not_bare action && is_some (review_choice action)
      then transact db (apply_review_action z now id expected action db)
      else ok (refuse id invalid_action, db)
    else ok (refuse id invalid_argument, db)
