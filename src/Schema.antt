-- ===== src/Schema.antt =====
-- The row of `task_execution_workflows` and its CHECK constraints: candidate_inbox.py's schema as
-- migrated to version 72, with the enumerations of task_execution.py and task_ledger.py.
-- A timestamp is a number of seconds: the source stores UTC text of one fixed width, which
-- compares as the instants do.
use foxhound.Prelude.{
  ℕ, String, Bool, true, false, ◌&&◌, ◌||◌, Option, none, some, leb, ◌==◌, is_some, is_none,
}
use Prim.Native.Char.{code}

pub data WorkflowStatus : Type 0 where
  awaiting_start snoozed queued running awaiting_review completed cancelled parked : WorkflowStatus

pub data WorkflowPhase : Type 0 where
  plan execute external_action : WorkflowPhase

pub data ExecutionOutcome : Type 0 where
  awaiting_plan awaiting_external completed declined ineligible : ExecutionOutcome

pub data WorkflowPriority : Type 0 where
  raised normal lowered : WorkflowPriority

pub data PrioritySource : Type 0 where
  reader automation : PrioritySource

pub data TaskStatus : Type 0 where
  open_task done dropped : TaskStatus

-- FAILURE_REASONS, which the column's CHECK repeats.
pub data FailureReason : Type 0 where
  startup_failed process_exit timeout interrupted claim_expired lease_failed result_invalid
        budget_handoff context_exhausted :
      FailureReason

pub record Workflow : Type 0 where
  pub task_id : ℕ
  pub task_version : ℕ
  pub status : WorkflowStatus
  pub phase : WorkflowPhase
  pub version : ℕ
  pub due_at : Option ℕ
  pub claim_token_digest : Option String
  pub claimed_at : Option ℕ
  pub claim_heartbeat_at : Option ℕ
  pub claim_expires_at : Option ℕ
  pub failure_count : ℕ
  pub last_failure_reason : Option FailureReason
  pub last_failure_at : Option ℕ
  pub next_attempt_at : Option ℕ
  pub parked_at : Option ℕ
  pub last_result_id : Option String
  pub created_at : ℕ
  pub updated_at : ℕ
  pub completed_at : Option ℕ
  pub agent_profile_id : String
  pub agent_profile_revision : String
  pub queue_priority : WorkflowPriority
  pub last_failure_exit_code : Option ℕ
  pub last_failure_run_id : Option String
  pub steer_while_running : Bool
  pub current_run_id : Option String
  pub queue_priority_source : Option PrioritySource

abbrev pub is_running : WorkflowStatus → Bool
is_running running = true
is_running _ = false

abbrev pub is_queued : WorkflowStatus → Bool
is_queued queued = true
is_queued _ = false

abbrev pub is_parked : WorkflowStatus → Bool
is_parked parked = true
is_parked _ = false

abbrev pub is_snoozed : WorkflowStatus → Bool
is_snoozed snoozed = true
is_snoozed _ = false

abbrev pub is_finished : WorkflowStatus → Bool
is_finished WorkflowStatus.completed = true
is_finished cancelled = true
is_finished _ = false

abbrev pub same_phase : WorkflowPhase → WorkflowPhase → Bool
same_phase plan plan = true
same_phase execute execute = true
same_phase external_action external_action = true
same_phase _ _ = false

-- `len(text)`, and SQLite's `length`: characters.
unfoldable pub char_count : String → ℕ
char_count String.[] = 0
char_count (String.◌∷◌ c s) = ℕ.suc (char_count s)

unfoldable pub is_hex : ℕ → Bool
is_hex c = (leb 48 c && leb c 57) || (leb 97 c && leb c 102)

-- `GLOB '[0-9a-f]*'`: the first character is a hexadecimal digit.
unfoldable pub glob_hex : String → Bool
unfolding is_hex
glob_hex String.[] = false
glob_hex (String.◌∷◌ c s) = is_hex (code c)

-- The CHECK of `last_failure_run_id` and `current_run_id`.
unfoldable pub run_id_column : Option String → Bool
unfolding glob_hex
run_id_column none = true
run_id_column (some s) = char_count s == 32 && glob_hex s

unfoldable pub digest_column : Option String → Bool
digest_column none = false
digest_column (some s) = char_count s == 64

unfoldable pub exit_code_column : Option ℕ → Bool
exit_code_column none = true
exit_code_column (some n) = leb 1 n && leb n 255

-- The claim columns are all set while the row runs, and all null otherwise.
unfoldable pub claim_columns :
    WorkflowStatus → Option String → Option ℕ → Option ℕ → Option ℕ → Bool
claim_columns running digest claimed heartbeat expires =
    digest_column digest && is_some claimed && is_some heartbeat && is_some expires
claim_columns _ digest claimed heartbeat expires =
    is_none digest && is_none claimed && is_none heartbeat && is_none expires

-- `(status = 'parked') = (parked_at IS NOT NULL)`.
unfoldable pub parked_column : WorkflowStatus → Option ℕ → Bool
parked_column parked at = is_some at
parked_column _ at = is_none at

-- `status != 'snoozed' OR due_at IS NOT NULL`.
unfoldable pub snooze_column : WorkflowStatus → Option ℕ → Bool
snooze_column snoozed at = is_some at
snooze_column _ at = true

-- `(status IN ('completed','cancelled')) = (completed_at IS NOT NULL)`.
unfoldable pub completed_column : WorkflowStatus → Option ℕ → Bool
completed_column WorkflowStatus.completed at = is_some at
completed_column cancelled at = is_some at
completed_column _ at = is_none at

-- All CHECK constraints of a row that its columns' types do not give.
unfoldable pub checks : Workflow → Bool
unfolding claim_columns parked_column snooze_column completed_column exit_code_column
checks w =
    leb 1 w.task_version
    && leb 1 w.version
    && claim_columns w.status w.claim_token_digest w.claimed_at w.claim_heartbeat_at
        w.claim_expires_at
    && snooze_column w.status w.due_at
    && parked_column w.status w.parked_at
    && completed_column w.status w.completed_at
    && exit_code_column w.last_failure_exit_code
    && run_id_column w.last_failure_run_id
    && run_id_column w.current_run_id
