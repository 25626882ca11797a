-- ===== src/Outcome/Recorded.antt =====
-- The row, the tables and the events that `record_result` of task_execution.py leaves behind it, and what the
-- tables of the results ask of a new row.
use foxhound.Prelude.{ℕ, ◌+◌, ◌≡◌, refl, true, Option, none, some, [], ◌∷◌, ◌++◌, arith, ok, ◌↔◌}
use foxhound.Schema.{
  WorkflowStatus, Workflow, WorkflowPhase, queued, running, awaiting_review, checks, run_id_column,
}
use foxhound.Store.{find_workflow, replace_workflow}
use foxhound.Tables.{Db, ResultRow, result_recorded, phase_granted}
use foxhound.Store.Rows.{
  Checked, moved, event_row, find_workflow-key, write-applies, event-replaced,
}
use foxhound.Operation.{apply_result}
use foxhound.Outcome.{
  storable, number_artifacts, insert_result, recorded, running_at, grant_event, advance_phase,
  advance_status, record_move,
}
use foxhound.Outcome.Stored.{Fits, result_checks-Fits, names_reader_input, artifacts_fit}
use foxhound.Outcome.Answers.{ValidResult}

-- The row of the result.
abbrev pub kept_row : ValidResult → Workflow → ℕ → ResultRow
kept_row v w now = record {
  result_id = v.result_id;
  task_id = v.task_id;
  workflow_version = v.workflow_version;
  task_version = v.task_version;
  phase = v.phase;
  content_digest = v.content_digest;
  answer = v.answer;
  questions_json = v.questions_json;
  created_at = now;
  agent_profile_id = w.agent_profile_id;
  agent_profile_revision = w.agent_profile_revision;
  task_work_directory = v.task_work_directory;
  task_kb_file = v.task_kb_file;
  work_digest = v.work_digest;
  reader_instruction_sequence = v.reader_instruction_sequence;
}

-- Its columns are within their bounds, the reader's instruction that it answers is kept, and its
-- artifacts are in bounds and have their own paths.
abbrev pub Storable : ValidResult → Workflow → ℕ → Db → Type 0
Storable v w now db =
    Fits (kept_row v w now)
    × (names_reader_input db.reader_inputs v.reader_instruction_sequence ≡ true)
    × (artifacts_fit db.artifacts (number_artifacts v.result_id 0 v.artifacts) ≡ true)

pub storable-Storable :
    (v : ValidResult) (w : Workflow) (now : ℕ) (db : Db)
    → (storable v w now db ≡ true) ↔ Storable v w now db
storable-Storable v w now db =
    let b = result_checks-Fits (kept_row v w now) in
    (
      λ h. (b.0 (ground (arith, h)), ground (arith, h), ground (arith, h)),
      λ (f, g, k). rw (b.1 f) (rw g (rw k refl)),
    )

abbrev pub inserted_db : ValidResult → Workflow → ℕ → Db → Db
inserted_db v w now db = record db {
  results = db.results ++ kept_row v w now ∷ [];
  artifacts = db.artifacts ++ number_artifacts v.result_id 0 v.artifacts;
}

pub insert_result-applied :
    (v : ValidResult) (w : Workflow) (now : ℕ) (db : Db)
    → Storable v w now db
    → insert_result v w now db ≡ ok (inserted_db v w now db)
unfolding insert_result
insert_result-applied v w now db c = rw ((storable-Storable v w now db).1 c) refl

abbrev settled_row : WorkflowStatus → WorkflowPhase → ValidResult → ℕ → Workflow → Workflow
settled_row status phase v now w = record w {
  status = status;
  phase = phase;
  version = v.workflow_version + 1;
  claim_token_digest = none;
  claimed_at = none;
  claim_heartbeat_at = none;
  claim_expires_at = none;
  current_run_id = none;
  failure_count = 0;
  last_failure_reason = none;
  last_failure_exit_code = none;
  last_failure_run_id = none;
  last_failure_at = none;
  next_attempt_at = none;
  parked_at = none;
  last_result_id = some v.result_id;
  updated_at = now;
  completed_at = none;
}

-- The row that a result is recorded on: with no claim, run or failure, under review, or in the queue for
-- the next phase where a grant covers it.
abbrev pub recorded_row : ValidResult → Option WorkflowPhase → ℕ → Workflow → Workflow
recorded_row v none now w = settled_row awaiting_review v.phase v now w
recorded_row v (some next) now w = settled_row queued next v now w

-- The database after a result was recorded, and granted on where a grant covers it.
unfoldable pub recorded_db : ValidResult → Option WorkflowPhase → ℕ → Db → Workflow → Db
recorded_db v none now db w = moved (inserted_db v w now db) v.task_id (recorded_row v none now w) (
    event_row v.task_id result_recorded (v.workflow_version + 1) v.task_version v.phase
      awaiting_review now w)
recorded_db v (some next) now db w =
    let e =
      event_row v.task_id result_recorded (v.workflow_version + 1) v.task_version v.phase queued now
        w in
    let d = inserted_db v w now db in
    moved (record d { events = d.events ++ e ∷ [] }) v.task_id (recorded_row v (some next) now w)
      (event_row v.task_id phase_granted (v.workflow_version + 1) v.task_version next queued now w)

no_run_id : run_id_column none ≡ true
unfolding run_id_column
no_run_id = refl

pub recorded-Checked :
    (v : ValidResult) (advance : Option WorkflowPhase) (now : ℕ) (w : Workflow)
    → Checked w
    → Checked (recorded_row v advance now w)
unfolding checks recorded
recorded-Checked v none now w c = ground (arith, no_run_id)
recorded-Checked v (some next) now w c = ground (arith, no_run_id)

pub record_move-applied :
    (v : ValidResult) (w : Workflow) (advance : Option WorkflowPhase) (now : ℕ) (db : Db)
    → Checked w
    → find_workflow v.task_id db.workflows ≡ some w
    → w.status ≡ running
    → w.version ≡ v.workflow_version
    → Storable v w now db
    → record_move v w awaiting_review advance now db
      ≡ ok (
        apply_result v.task_id
            (v.workflow_version + 1)
            (advance_status awaiting_review advance)
            (advance_phase v.phase advance)
            none
            none
            w.agent_profile_id
            w.agent_profile_revision,
        recorded_db v advance now db w,
      )
unfolding record_move recorded_db recorded grant_event replace_workflow
record_move-applied v w none now db c f r e k0 =
    let k = find_workflow-key v.task_id db.workflows f in
    let u = recorded_row v none now w in
    rw (insert_result-applied v w now db k0) (
      rw
        (write-applies v.task_id (running_at v.workflow_version) (recorded_row v none now)
          (inserted_db v w now db) f (ground arith) (recorded-Checked v none now w c))
        (rw (
          event-replaced v.task_id result_recorded (v.workflow_version + 1) v.task_version v.phase
            awaiting_review now (inserted_db v w now db) u k f)))
record_move-applied v w (some next) now db c f r e k0 =
    let k = find_workflow-key v.task_id db.workflows f in
    let u = recorded_row v (some next) now w in
    let d = inserted_db v w now db in
    let e1 =
      event_row v.task_id result_recorded (v.workflow_version + 1) v.task_version v.phase queued now
        w in
    rw (insert_result-applied v w now db k0) (
      rw
        (write-applies v.task_id (running_at v.workflow_version) (recorded_row v (some next) now) d
          f (ground arith) (recorded-Checked v (some next) now w c))
        (rw
          (event-replaced v.task_id result_recorded (v.workflow_version + 1) v.task_version v.phase
            queued now d u k f)
          (rw (
            event-replaced v.task_id phase_granted (v.workflow_version + 1) v.task_version next
              queued now (record d { events = d.events ++ e1 ∷ [] }) u k f))))
