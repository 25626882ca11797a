-- ===== src/Scheduling/Prerequisite.antt =====
-- `_create_prerequisite` and `_execution_priority_event` of task_scheduling.py.
pub mod Frame
use foxhound.Prelude.{
  ℕ, suc, ◌+◌, String, Option, none, some, List, [], ◌∷◌, ◌++◌, Bool, false, Attempt, ok, raise,
  integrity_error, if◌then◌else◌,
}
use foxhound.Schema.{Workflow, plan, queued, normal, open_task, checks}
use foxhound.Store.{find_workflow, event}
use foxhound.Tables.{Db, Task, EventKind}
use foxhound.Schedule.{insert_workflow}
use foxhound.Scheduling.{next_id}
use foxhound.Texts.{strip}

pub task_ids : List Task → List ℕ
task_ids [] = []
task_ids (t ∷ ts) = t.id ∷ task_ids ts

abbrev pub prerequisite_task : ℕ → String → ℕ → Task
prerequisite_task id text now = record {
  id = id;
  status = open_task;
  text = text;
  owner = none;
  owner_kind = none;
  owner_ref_version = 0;
  owner_provisional = 1;
  owner_pinned = false;
  due = none;
  version = 1;
  updated_at = now;
  closed_at = none;
}

-- The row takes its profile from the target's.
abbrev pub prerequisite_row : ℕ → ℕ → Workflow → Workflow
prerequisite_row id now template = record {
  task_id = id;
  task_version = 1;
  status = queued;
  phase = plan;
  version = 1;
  due_at = none;
  claim_token_digest = none;
  claimed_at = none;
  claim_heartbeat_at = none;
  claim_expires_at = none;
  failure_count = 0;
  last_failure_reason = none;
  last_failure_at = none;
  next_attempt_at = none;
  parked_at = none;
  last_result_id = none;
  created_at = now;
  updated_at = now;
  completed_at = none;
  agent_profile_id = template.agent_profile_id;
  agent_profile_revision = template.agent_profile_revision;
  queue_priority = normal;
  last_failure_exit_code = none;
  last_failure_run_id = none;
  steer_while_running = false;
  current_run_id = none;
  queue_priority_source = none;
}

-- `_create_prerequisite`: the task, its event, and a workflow that can be claimed.
unfoldable pub create_prerequisite : ℕ → String → ℕ → Workflow → Db → Db
unfolding strip insert_workflow
create_prerequisite id text now template db = record db {
  tasks = db.tasks ++ prerequisite_task id (strip text) now ∷ [];
  task_events =
      db.task_events
      ++ record {
        task_id = id;
        task_version = 1;
        candidate_id = none;
        source_revision = none;
        from_status = none;
        to_status = open_task;
        occurred_at = now;
      }
        ∷ [];
  workflows = insert_workflow (prerequisite_row id now template) db.workflows;
}

priority_event_of : Db → ℕ → ℕ → EventKind → ℕ → Option Workflow → Attempt Db
priority_event_of db id version kind now none = ok db
priority_event_of db id version kind now (some w) =
    event id kind version w.task_version w.phase w.status now db

-- `_execution_priority_event`: an INSERT from the workflow's row, with no row where there is none.
unfoldable pub execution_priority_event : ℕ → ℕ → EventKind → ℕ → Db → Attempt Db
unfolding priority_event_of
execution_priority_event id version kind now db =
    priority_event_of db id version kind now (find_workflow id db.workflows)
