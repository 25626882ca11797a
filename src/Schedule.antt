-- ===== src/Schedule.antt =====
-- `schedule` of task_execution.py: the workflow of one task is made, or begun again. Who owns a task
-- is decided by the reader's aliases, which stand here as two predicates.
pub mod Planned
pub mod Total
pub mod Given
pub mod Effects
use foxhound.Prelude.{
  ℕ, ◌+◌, String, Bool, true, false, not, ◌&&◌, Option, none, some, List, [], ◌∷◌, ◌++◌, leb, ltb,
  ◌==◌, str_eq, contains, if◌then◌else◌, Attempt, ok, raise, integrity_error, ledger_error, ◌>>=◌,
}
use foxhound.Schema.{
  Workflow, WorkflowStatus, WorkflowPhase, plan, execute, queued, awaiting_start, parked, normal,
  is_snoozed, is_finished, is_parked, checks,
}
use foxhound.Store.{find_task, find_workflow, origin_kind, source_withdrawn, write, event}
use foxhound.Tables.{Db, Task, scheduled}
use foxhound.Operation.{
  OperationResult, Refusal, invalid_argument, invalid_state, not_found, applied, unchanged, refuse,
  operation, valid_identity, task_state_guard, then_guard,
}
use foxhound.Profiles.{AgentProfile, get}
use foxhound.Service.{Service}
use foxhound.Gate.Start.{sleeps_past}

-- `reader_owned` and `confidently_other_owned` of task_research_gate.py, at the reader's aliases.
pub record Ownership : Type 0 where
  pub reader_owned : Task → Bool
  pub other_owned : Task → Bool

abbrev pub kind_in : Option String → List String → Bool
kind_in none kinds = false
kind_in (some kind) kinds = contains kind kinds

-- `_initial_status`.
unfoldable pub initial_status : Service → Ownership → Option String → Task → WorkflowStatus
initial_status s o origin t =
    if kind_in origin s.planning_grants
    then queued
    else if kind_in origin s.ask_when_owned_by_others
    then (if o.other_owned t then awaiting_start else queued)
    else if o.reader_owned t
    then queued
    else awaiting_start

-- `_initial_phase`.
unfoldable pub initial_phase : Service → Option String → WorkflowPhase
initial_phase s origin = if kind_in origin s.skip_planning_for then execute else plan

route_of : String → List (String × String) → Option String
route_of kind [] = none
route_of kind ((k, p) ∷ rs) = if str_eq k kind then some p else route_of kind rs

route_profile : Service → Option String → Attempt AgentProfile
route_profile s none = ok s.default_profile
route_profile s (some id) = elim (get s.registry id) [ none ↦ raise ledger_error | some p ↦ ok p ]

-- `_profile_for`.
unfoldable pub profile_for : Service → Option String → Attempt AgentProfile
unfolding route_of route_profile
profile_for s none = ok s.default_profile
profile_for s (some kind) = route_profile s (route_of kind s.profile_routes)

-- The row of the INSERT, with the defaults of the columns it leaves out.
abbrev pub first_row : ℕ → ℕ → WorkflowStatus → WorkflowPhase → ℕ → AgentProfile → Bool → Workflow
first_row id task_version status phase now p steers = record {
  task_id = id;
  task_version = task_version;
  status = status;
  phase = phase;
  version = 1;
  due_at = none;
  claim_token_digest = none;
  claimed_at = none;
  claim_heartbeat_at = none;
  claim_expires_at = none;
  failure_count = 0;
  last_failure_reason = none;
  last_failure_at = none;
  next_attempt_at = none;
  parked_at = none;
  last_result_id = none;
  created_at = now;
  updated_at = now;
  completed_at = none;
  agent_profile_id = p.profile_id;
  agent_profile_revision = p.revision;
  queue_priority = normal;
  last_failure_exit_code = none;
  last_failure_run_id = none;
  steer_while_running = steers;
  current_run_id = none;
  queue_priority_source = none;
}

-- The row of the UPDATE: the queue priority and its source are left as they are.
abbrev pub again_row :
    ℕ → WorkflowStatus → WorkflowPhase → ℕ → AgentProfile → Bool → Workflow → Workflow
again_row task_version status phase now p steers w = record w {
  task_version = task_version;
  status = status;
  phase = phase;
  version = w.version + 1;
  due_at = none;
  claim_token_digest = none;
  claimed_at = none;
  claim_heartbeat_at = none;
  claim_expires_at = none;
  current_run_id = none;
  failure_count = 0;
  last_failure_reason = none;
  last_failure_exit_code = none;
  last_failure_run_id = none;
  last_failure_at = none;
  next_attempt_at = none;
  parked_at = none;
  last_result_id = none;
  updated_at = now;
  completed_at = none;
  agent_profile_id = p.profile_id;
  agent_profile_revision = p.revision;
  steer_while_running = steers;
}

-- Rows stand in the order of their key.
unfoldable pub insert_workflow : Workflow → List Workflow → List Workflow
insert_workflow v [] = v ∷ []
insert_workflow v (w ∷ ws) =
    if ltb v.task_id w.task_id then v ∷ w ∷ ws else w ∷ insert_workflow v ws

put_row : ℕ → Workflow → Option Workflow → Db → Attempt Db
unfolding insert_workflow
put_row id v none db =
    if checks v
    then ok (record db { workflows = insert_workflow v db.workflows })
    else raise integrity_error
put_row id v (some w) db = do (_, db1) ← write id (λ r. true) (λ r. v) db; ok db1

reread : ℕ → Db → OperationResult
reread id db = elim (find_workflow id db.workflows) [
  | none ↦ refuse id not_found
  | some w ↦ operation w applied
]

-- The row that the schedule leaves: made, or begun again over the row that was there.
abbrev pub scheduled_row :
    Option Workflow → ℕ → ℕ → WorkflowStatus → WorkflowPhase → ℕ → AgentProfile → Bool → Workflow
scheduled_row none id v status phase now p steers = first_row id v status phase now p steers
scheduled_row (some w) id v status phase now p steers = again_row v status phase now p steers w

pub schedule_profile :
    Service
    → Ownership
    → ℕ
    → ℕ
    → Task
    → Option String
    → Option Workflow
    → Db
    → AgentProfile
    → Attempt (OperationResult × Db)
unfolding initial_status initial_phase put_row reread
schedule_profile s o now id t origin row db p = do
  let status = initial_status s o origin t
  let phase = initial_phase s origin
  let v = scheduled_row row id t.version status phase now p (kind_in origin s.steer_while_running)
  db1 ← put_row id v row db
  db2 ← event id scheduled v.version t.version phase status now db1
  ok (reread id db2, db2)

-- A workflow of this task version that is not done with: it stays, and so does one that sleeps.
abbrev pub keeps_row : ℕ → ℕ → Workflow → Bool
keeps_row now version w =
    w.task_version == version
    && (if is_snoozed w.status && sleeps_past w.due_at now
        then true
        else not (is_finished w.status) && not (is_parked w.status))

schedule_row :
    Service → Ownership → ℕ → ℕ → Task → Option Workflow → Db → Attempt (OperationResult × Db)
unfolding schedule_profile
schedule_row s o now id t none db =
    profile_for s (origin_kind db id) >>= schedule_profile s o now id t (origin_kind db id) none db
schedule_row s o now id t (some w) db =
    if keeps_row now t.version w
    then ok (operation w unchanged, db)
    else profile_for s (origin_kind db id)
      >>= schedule_profile s o now id t (origin_kind db id) (some w) db

abbrev pub schedule_guard : Db → ℕ → ℕ → Task → Option Refusal
schedule_guard db id expected t =
    then_guard (task_state_guard t.version t.status expected)
      (if source_withdrawn db id then some invalid_state else none)

schedule_task : Service → Ownership → ℕ → ℕ → ℕ → Option Task → Db → Attempt (OperationResult × Db)
unfolding schedule_row
schedule_task s o now id expected none db = ok (refuse id not_found, db)
schedule_task s o now id expected (some t) db = elim (schedule_guard db id expected t) [
  | some r ↦ ok (refuse id r, db)
  | none ↦ schedule_row s o now id t (find_workflow id db.workflows) db
]

-- `schedule`.
unfoldable pub schedule : Service → Ownership → ℕ → ℕ → ℕ → Db → Attempt (OperationResult × Db)
unfolding schedule_task
schedule s o now id expected db =
    if valid_identity id expected
    then schedule_task s o now id expected (find_task id db.tasks) db
    else ok (refuse id invalid_argument, db)
