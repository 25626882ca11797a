-- ===== src/Operation.antt =====
-- What every operation of `TaskExecutionService` shares: its result, the checks of its arguments,
-- the guards on the row it reads, and the transaction round its body.
use foxhound.Prelude.{
  ℕ, ◌≡◌, String, Bool, true, false, not, ◌&&◌, ◌||◌, Option, none, some, leb, ◌==◌, str_eq,
  if◌then◌else◌, Attempt, ok, raise,
}
use Prim.Native.Char.{code}
use foxhound.Schema.{
  Workflow, WorkflowStatus, WorkflowPhase, WorkflowPriority, TaskStatus, open_task, char_count,
  is_running,
}
use foxhound.Store.{Joined}
use foxhound.Tables.{Db}

pub data Disposition : Type 0 where
  applied unchanged refused : Disposition

pub data Refusal : Type 0 where
  invalid_argument invalid_action invalid_state not_found stale_task stale_workflow claim_mismatch
        result_conflict result_unchanged agent_profile_unavailable :
      Refusal

pub record OperationResult : Type 0 where
  pub disposition : Disposition
  pub task_id : ℕ
  pub version : Option ℕ
  pub status : Option WorkflowStatus
  pub phase : Option WorkflowPhase
  pub wake_at : Option ℕ
  pub next_attempt_at : Option ℕ
  pub refusal : Option Refusal
  pub agent_profile_id : Option String
  pub agent_profile_revision : Option String
  pub priority : Option WorkflowPriority

abbrev pub is_accepted : Disposition → Bool
is_accepted refused = false
is_accepted _ = true

-- `_refused`.
abbrev pub refuse : ℕ → Refusal → OperationResult
refuse id r = record {
  disposition = refused;
  task_id = id;
  version = none;
  status = none;
  phase = none;
  wake_at = none;
  next_attempt_at = none;
  refusal = some r;
  agent_profile_id = none;
  agent_profile_revision = none;
  priority = none;
}

-- `_refused_row` at a row that was found; without one it is `_refused`.
abbrev pub refuse_row : ℕ → Workflow → Refusal → OperationResult
refuse_row id w r = record {
  disposition = refused;
  task_id = id;
  version = some w.version;
  status = some w.status;
  phase = some w.phase;
  wake_at = none;
  next_attempt_at = none;
  refusal = some r;
  agent_profile_id = some w.agent_profile_id;
  agent_profile_revision = some w.agent_profile_revision;
  priority = none;
}

-- `_operation`.
abbrev pub operation : Workflow → Disposition → OperationResult
operation w d = record {
  disposition = d;
  task_id = w.task_id;
  version = some w.version;
  status = some w.status;
  phase = some w.phase;
  wake_at = w.due_at;
  next_attempt_at = w.next_attempt_at;
  refusal = none;
  agent_profile_id = some w.agent_profile_id;
  agent_profile_revision = some w.agent_profile_revision;
  priority = some w.queue_priority;
}

-- A `WorkflowOperationResult` of an applied change, with the defaults of the fields left out.
abbrev pub apply_result :
    ℕ → ℕ → WorkflowStatus → WorkflowPhase → Option ℕ → Option ℕ → String → String → OperationResult
apply_result id version status phase wake next profile revision = record {
  disposition = applied;
  task_id = id;
  version = some version;
  status = some status;
  phase = some phase;
  wake_at = wake;
  next_attempt_at = next;
  refusal = none;
  agent_profile_id = some profile;
  agent_profile_revision = some revision;
  priority = none;
}

-- `_valid_identity`, for values that are integers.
abbrev pub valid_identity : ℕ → ℕ → Bool
valid_identity id version = leb 1 id && leb 1 version

-- `str.isspace` of one character.
unfoldable pub is_space : ℕ → Bool
is_space c =
    (leb 9 c && leb c 13)
    || (leb 28 c && leb c 32)
    || c == 133
    || c == 160
    || c == 5760
    || (leb 8192 c && leb c 8202)
    || c == 8232
    || c == 8233
    || c == 8239
    || c == 8287
    || c == 12288

no_space : String → Bool
unfolding is_space
no_space String.[] = true
no_space (String.◌∷◌ c s) = not (is_space (code c)) && no_space s

-- `_valid_secret`, for a value that is a text.
unfoldable pub valid_secret : String → Bool
unfolding no_space char_count
valid_secret s = leb 32 (char_count s) && leb (char_count s) 512 && no_space s

-- `_valid_lease`, MIN_LEASE_SECONDS and MAX_LEASE_SECONDS.
abbrev pub valid_lease : ℕ → Bool
valid_lease n = leb 5 n && leb n 3600

abbrev pub is_open : TaskStatus → Bool
is_open open_task = true
is_open _ = false

-- `_task_guard` at the columns of a row that was found.
abbrev pub task_state_guard : ℕ → TaskStatus → ℕ → Option Refusal
task_state_guard version status expected =
    if version == expected
    then if is_open status then none else some invalid_state
    else some stale_task

-- `_task_guard`.
abbrev pub task_guard : Joined → ℕ → Option Refusal
task_guard j expected = task_state_guard j.current_task_version j.task_status expected

-- `_workflow_guard`, with the set of statuses as its test.
abbrev pub workflow_guard : Joined → ℕ → (WorkflowStatus → Bool) → Option Refusal
workflow_guard j expected statuses =
    if j.row.version == expected
    then if statuses j.row.status then none else some invalid_state
    else some stale_workflow

abbrev pub claim_guard : Option String → Option ℕ → String → ℕ → Option Refusal
claim_guard none expires digest now = some claim_mismatch
claim_guard (some held) none digest now =
    if str_eq held digest then some invalid_state else some claim_mismatch
claim_guard (some held) (some expires) digest now =
    if str_eq held digest
    then if leb expires now then some invalid_state else none
    else some claim_mismatch

-- `refusal = first; if refusal is None: refusal = second`.
abbrev pub then_guard : Option Refusal → Option Refusal → Option Refusal
then_guard none second = second
then_guard (some r) second = some r

-- `_running_guard`.
unfoldable pub running_guard : Joined → ℕ → String → ℕ → Option Refusal
running_guard j expected digest now =
    then_guard (workflow_guard j expected is_running)
      (claim_guard j.row.claim_token_digest j.row.claim_expires_at digest now)

-- `if not result.accepted: rollback` round a body that returns its result.
abbrev pub settle : Db → OperationResult × Db → OperationResult × Db
settle before (r, after) = if is_accepted r.disposition then (r, after) else (r, before)

unfoldable pub transact : Db → Attempt (OperationResult × Db) → Attempt (OperationResult × Db)
transact before (ok out) = ok (settle before out)
transact before (raise f) = raise f

-- The operation returned a refusal and the database is as it was.
abbrev pub Refuses : Attempt (OperationResult × Db) → Db → Type 0
Refuses m db = (out : OperationResult) × (m ≡ ok (out, db)) × (out.disposition ≡ refused)
