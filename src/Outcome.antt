-- ===== src/Outcome.antt =====
-- `record_result` of task_execution.py, from a validated envelope on.
pub mod Answers
pub mod Stored
pub mod Recorded
pub mod Total
pub mod Grants
pub mod Branches
use foxhound.Prelude.{
  ℕ, suc, ◌+◌, String, Bool, true, false, not, ◌&&◌, ◌||◌, Option, none, some, List, [], ◌∷◌, ◌++◌,
  leb, ◌==◌, str_eq, contains, if◌then◌else◌, Attempt, ok, raise, integrity_error, ◌>>=◌,
}
use foxhound.Schema.{
  Workflow, WorkflowStatus, WorkflowPhase, ExecutionOutcome, plan, execute, external_action,
  awaiting_plan, awaiting_external, completed, declined, ineligible, awaiting_review, queued,
  is_running, same_phase,
}
use foxhound.Store.{Joined, workflow_with_task, find_workflow, write, event}
use foxhound.Tables.{
  Db, Event, EventKind, Answer, ResultRow, Artifact, ArtifactRow, scheduled, result_recorded,
  phase_granted, result_unchanged,
}
use foxhound.Operation.{
  OperationResult, Refusal, invalid_state, not_found, result_conflict, unchanged, refuse,
  refuse_row, apply_result, task_guard, then_guard, running_guard,
}
use foxhound.Service.{Service}
use foxhound.Outcome.Stored.{result_checks, names_reader_input, artifacts_fit}
use foxhound.Outcome.Answers.{
  ValidResult, find_result, is_plan, granted_advance, phase_outcome, result_target,
  repeats_an_earlier_answer,
}

-- The row that is inserted.
abbrev pub result_row : ValidResult → Workflow → ℕ → ResultRow
result_row v w now = record {
  result_id = v.result_id;
  task_id = v.task_id;
  workflow_version = v.workflow_version;
  task_version = v.task_version;
  phase = v.phase;
  content_digest = v.content_digest;
  answer = v.answer;
  questions_json = v.questions_json;
  created_at = now;
  agent_profile_id = w.agent_profile_id;
  agent_profile_revision = w.agent_profile_revision;
  task_work_directory = v.task_work_directory;
  task_kb_file = v.task_kb_file;
  work_digest = v.work_digest;
  reader_instruction_sequence = v.reader_instruction_sequence;
}

unfoldable pub number_artifacts : String → ℕ → List Artifact → List ArtifactRow
number_artifacts id n [] = []
number_artifacts id n (a ∷ as') =
    record { result_id = id; ordinal = n; artifact = a } ∷ number_artifacts id (n + 1) as'

-- What the tables' CHECKs, keys and foreign key ask of the new rows.
abbrev pub storable : ValidResult → Workflow → ℕ → Db → Bool
storable v w now db =
    result_checks (result_row v w now)
    && names_reader_input db.reader_inputs v.reader_instruction_sequence
    && artifacts_fit db.artifacts (number_artifacts v.result_id 0 v.artifacts)

-- The two INSERTs.
unfoldable pub insert_result : ValidResult → Workflow → ℕ → Db → Attempt Db
insert_result v w now db =
    if storable v w now db
    then ok (record db {
      results = db.results ++ result_row v w now ∷ [];
      artifacts = db.artifacts ++ number_artifacts v.result_id 0 v.artifacts;
    })
    else raise integrity_error

abbrev pub completed_stamp : WorkflowStatus → ℕ → Option ℕ
completed_stamp WorkflowStatus.completed now = some now
completed_stamp _ now = none

-- The UPDATE of `record_result`.
unfoldable pub recorded : WorkflowStatus → WorkflowPhase → ℕ → String → ℕ → Workflow → Workflow
recorded target phase version result_id now w = record w {
  status = target;
  phase = phase;
  version = version;
  claim_token_digest = none;
  claimed_at = none;
  claim_heartbeat_at = none;
  claim_expires_at = none;
  current_run_id = none;
  failure_count = 0;
  last_failure_reason = none;
  last_failure_exit_code = none;
  last_failure_run_id = none;
  last_failure_at = none;
  next_attempt_at = none;
  parked_at = none;
  last_result_id = some result_id;
  updated_at = now;
  completed_at = completed_stamp target now;
}

abbrev pub running_at : ℕ → Workflow → Bool
running_at version r = r.version == version && is_running r.status

pub grant_event : ValidResult → Option WorkflowPhase → WorkflowStatus → ℕ → Db → Attempt Db
grant_event v none target now db = ok db
grant_event v (some phase) target now db =
    event v.task_id phase_granted (v.workflow_version + 1) v.task_version phase target now db

abbrev pub advance_phase : WorkflowPhase → Option WorkflowPhase → WorkflowPhase
advance_phase phase none = phase
advance_phase phase (some next) = next

abbrev pub advance_status : WorkflowStatus → Option WorkflowPhase → WorkflowStatus
advance_status target none = target
advance_status target (some next) = queued

unfoldable pub record_move :
    ValidResult
    → Workflow
    → WorkflowStatus
    → Option WorkflowPhase
    → ℕ
    → Db
    → Attempt (OperationResult × Db)
record_move v w target advance now db = do
  let status = advance_status target advance
  let phase = advance_phase v.phase advance
  db0 ← insert_result v w now db
  (_, db1) ←
      write v.task_id (running_at v.workflow_version)
        (recorded status phase (v.workflow_version + 1) v.result_id now) db0
  db2 ←
      event v.task_id result_recorded (v.workflow_version + 1) v.task_version v.phase status now db1
  db3 ← grant_event v advance status now db2
  ok (
    apply_result v.task_id (v.workflow_version + 1) status phase none none w.agent_profile_id
        w.agent_profile_revision,
    db3,
  )

unfoldable pub record_target :
    Service → ℕ → ValidResult → Joined → Option WorkflowStatus → Db → Attempt (OperationResult × Db)
record_target s now v j none db = ok (refuse_row v.task_id j.row invalid_state, db)
record_target s now v j (some target) db =
    record_move v j.row target
      (granted_advance v.phase v.answer.outcome j.origin s.execution_grants s.action_grants) now db

abbrev pub phase_guard : Workflow → WorkflowPhase → Option Refusal
phase_guard w phase = if same_phase w.phase phase then none else some invalid_state

abbrev pub record_guard : Service → ℕ → ValidResult → Joined → Option Refusal
record_guard s now v j =
    then_guard
      (then_guard (running_guard j v.workflow_version (s.token_digest v.claim_token) now)
        (task_guard j v.task_version))
      (phase_guard j.row v.phase)

-- An answer that was given before is noted, and the claim stays live.
unfoldable pub refuse_repeat : ℕ → ValidResult → Workflow → Db → Attempt (OperationResult × Db)
refuse_repeat now v w db = do
  db1 ← event v.task_id EventKind.result_unchanged w.version w.task_version w.phase w.status now db
  ok (refuse_row v.task_id w Refusal.result_unchanged, db1)

unfoldable pub record_passed :
    Service → ℕ → ValidResult → Joined → Db → Attempt (OperationResult × Db)
record_passed s now v j db =
    if repeats_an_earlier_answer db v
    then refuse_repeat now v j.row db
    else record_target s now v j (result_target v.phase v.answer.outcome) db

unfoldable pub record_at :
    Service → ℕ → ValidResult → Option Joined → Db → Attempt (OperationResult × Db)
record_at s now v none db = ok (refuse v.task_id not_found, db)
record_at s now v (some j) db = elim (record_guard s now v j) [
  | some r ↦ ok (refuse_row v.task_id j.row r, db)
  | none ↦ record_passed s now v j db
]

-- A `WorkflowOperationResult` for a result that was recorded before.
abbrev pub replayed : Workflow → OperationResult
replayed w = record {
  disposition = unchanged;
  task_id = w.task_id;
  version = some w.version;
  status = some w.status;
  phase = some w.phase;
  wake_at = none;
  next_attempt_at = none;
  refusal = none;
  agent_profile_id = some w.agent_profile_id;
  agent_profile_revision = some w.agent_profile_revision;
  priority = none;
}

abbrev replay_of : ValidResult → Option Workflow → OperationResult
replay_of v none = refuse v.task_id invalid_state
replay_of v (some w) = replayed w

unfoldable pub record_known :
    Service → ℕ → ValidResult → Option ResultRow → Db → Attempt (OperationResult × Db)
record_known s now v none db = record_at s now v (workflow_with_task db v.task_id) db
record_known s now v (some e) db =
    if e.task_id == v.task_id && str_eq e.content_digest v.content_digest
    then ok (replay_of v (find_workflow v.task_id db.workflows), db)
    else ok (refuse v.task_id result_conflict, db)

-- `record_result`.
unfoldable pub record_result : Service → ℕ → ValidResult → Db → Attempt (OperationResult × Db)
record_result s now v db = record_known s now v (find_result v.result_id db.results) db
