-- ===== src/Examples.antt =====
-- Concrete rows, tables and services, on which the theorems are run.
pub mod Lease
pub mod Gate
pub mod Outcome
pub mod Queue
pub mod Claim
pub mod Scheduling
pub mod Cards
use foxhound.Prelude.{
  ℕ, ◌≡◌, refl, String, Bool, true, false, Option, none, some, List, [], ◌∷◌, str_eq, if◌then◌else◌,
  Attempt, ok,
}
use foxhound.Schema.{
  Workflow, WorkflowPhase, plan, execute, external_action, running, awaiting_start, awaiting_review,
  queued, normal, open_task, awaiting_plan, checks, claim_columns, parked_column, snooze_column,
  completed_column, exit_code_column, run_id_column, digest_column, char_count,
}
use foxhound.Schema.WorkflowStatus.{parked}
use foxhound.Tables.{Db, Task, Binding, accepted, Candidate, ResultRow, Answer}
use foxhound.Store.Rows.{Checked, Valid}
use foxhound.Profiles.{AgentProfile}
use foxhound.Service.{Service}

abbrev pub secret : String
secret = "0123456789abcdef0123456789abcdef"

abbrev pub other_secret : String
other_secret = "fedcba9876543210fedcba9876543210"

abbrev pub own_digest : String
own_digest = "aaaaaaaaaaaaaaaaaaaaaaaaaaaaaaaaaaaaaaaaaaaaaaaaaaaaaaaaaaaaaaaa"

abbrev pub other_digest : String
other_digest = "bbbbbbbbbbbbbbbbbbbbbbbbbbbbbbbbbbbbbbbbbbbbbbbbbbbbbbbbbbbbbbbb"

-- A digest of 64 characters that tells the two tokens of the examples apart.
abbrev pub digest : String → String
digest token = if str_eq token secret then own_digest else other_digest

abbrev pub profile : AgentProfile
profile = record {
  profile_id = "default";
  revision = "1";
  claim_lease_seconds = 900;
  allowed_phases = plan ∷ execute ∷ external_action ∷ [];
}

abbrev pub service : Service
service = record {
  token_digest = digest;
  max_attempts = 5;
  registry = record { profiles = profile ∷ []; historical = [] };
  default_profile = profile;
  profile_routes = [];
  planning_grants = [];
  ask_when_owned_by_others = [];
  steer_while_running = [];
  execution_grants = "issue" ∷ [];
  skip_planning_for = [];
  action_grants = [];
  execution_slot_cap = some 2;
  plan_ready_cap = none;
  awaiting_reader_cap = none;
}

abbrev pub task : Task
task = record {
  id = 7;
  status = open_task;
  text = "Fix the build";
  owner = none;
  owner_kind = none;
  owner_ref_version = 0;
  owner_provisional = 0;
  owner_pinned = false;
  due = none;
  version = 3;
  updated_at = 900;
  closed_at = none;
}

-- A plan that is queued.
abbrev pub queued_row : Workflow
queued_row = record {
  task_id = 7;
  task_version = 3;
  status = queued;
  phase = plan;
  version = 5;
  due_at = none;
  claim_token_digest = none;
  claimed_at = none;
  claim_heartbeat_at = none;
  claim_expires_at = none;
  failure_count = 0;
  last_failure_reason = none;
  last_failure_at = none;
  next_attempt_at = none;
  parked_at = none;
  last_result_id = none;
  created_at = 900;
  updated_at = 1000;
  completed_at = none;
  agent_profile_id = "default";
  agent_profile_revision = "1";
  queue_priority = normal;
  last_failure_exit_code = none;
  last_failure_run_id = none;
  steer_while_running = false;
  current_run_id = none;
  queue_priority_source = none;
}

abbrev pub running_row : Workflow
running_row = record queued_row {
  status = running;
  claim_token_digest = some own_digest;
  claimed_at = some 1000;
  claim_heartbeat_at = some 1000;
  claim_expires_at = some 2000;
}

abbrev pub waiting_row : Workflow
waiting_row = record queued_row { status = awaiting_start }

abbrev pub reviewed_row : Workflow
reviewed_row = record queued_row { status = awaiting_review; last_result_id = some "result-1" }

abbrev pub parked_row : Workflow
parked_row = record queued_row { status = parked; parked_at = some 1000 }

abbrev pub answer : Answer
answer = record {
  outcome = awaiting_plan;
  summary = "A plan";
  work_markdown = "1. Read";
  external_actions_json = "[]";
  deliverables_json = "[]";
  repository_references_json = "[]";
  repository_impact = false;
}

abbrev pub kept_result : ResultRow
kept_result = record {
  result_id = "result-1";
  task_id = 7;
  workflow_version = 4;
  task_version = 3;
  phase = plan;
  content_digest = "digest-1";
  answer = answer;
  questions_json = "[]";
  created_at = 950;
  agent_profile_id = "default";
  agent_profile_revision = "1";
  task_work_directory = none;
  task_kb_file = none;
  work_digest = none;
  reader_instruction_sequence = none;
}

-- A database with one task, from an issue, and one workflow.
abbrev pub db_of : Workflow → Db
db_of w = record {
  tasks = task ∷ [];
  task_events = [];
  work_items = [];
  bindings =
      record { candidate_id = "c"; source_revision = "s"; task_id = 7; relation = accepted } ∷ [];
  candidates = record { candidate_id = "c"; source_kind = "issue" } ∷ [];
  lifecycles = [];
  workflows = w ∷ [];
  events = [];
  results = kept_result ∷ [];
  artifacts = [];
  failure_digests = [];
  ownership_reviews = [];
  reader_inputs = [];
  conditions = [];
  condition_events = [];
}

queued_row-Checked : Checked queued_row
unfolding checks claim_columns parked_column snooze_column completed_column exit_code_column
    run_id_column digest_column char_count
queued_row-Checked = refl

running_row-Checked : Checked running_row
unfolding checks claim_columns parked_column snooze_column completed_column exit_code_column
    run_id_column digest_column char_count
running_row-Checked = refl

waiting_row-Checked : Checked waiting_row
unfolding checks claim_columns parked_column snooze_column completed_column exit_code_column
    run_id_column digest_column char_count
waiting_row-Checked = refl

reviewed_row-Checked : Checked reviewed_row
unfolding checks claim_columns parked_column snooze_column completed_column exit_code_column
    run_id_column digest_column char_count
reviewed_row-Checked = refl

pub parked_row-Checked : Checked parked_row
unfolding checks claim_columns parked_column snooze_column completed_column exit_code_column
    run_id_column digest_column char_count
parked_row-Checked = refl

pub queued_db-Valid : Valid (db_of queued_row)
queued_db-Valid = record { rows = (queued_row-Checked, tt) }

pub running_db-Valid : Valid (db_of running_row)
running_db-Valid = record { rows = (running_row-Checked, tt) }

pub waiting_db-Valid : Valid (db_of waiting_row)
waiting_db-Valid = record { rows = (waiting_row-Checked, tt) }

pub reviewed_db-Valid : Valid (db_of reviewed_row)
reviewed_db-Valid = record { rows = (reviewed_row-Checked, tt) }
