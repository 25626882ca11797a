-- ===== src/Gate/Start.antt =====
-- `_apply_start_action` and `start_action` of task_execution.py, with the ownership decision of
-- task_research_gate.py that a Start records.
pub mod Total
pub mod Gated
pub mod Owners
pub mod Effects
use foxhound.Prelude.{
  ℕ, ◌+◌, String, Bool, true, false, ◌&&◌, not, Option, none, some, List, [], ◌∷◌, leb, ltb, ◌==◌,
  str_eq, if◌then◌else◌, Attempt, ok, ◌>>=◌,
}
use foxhound.Schema.{
  Workflow, WorkflowStatus, WorkflowPhase, queued, snoozed, parked, awaiting_start, is_snoozed,
}
use foxhound.Store.{Joined, workflow_with_task, write, event, find_task, replace_task}
use foxhound.Tables.{
  Db, Task, EventKind, OwnershipReview, ReviewStatus, pending, kept, start_approved,
}
use foxhound.Operation.{
  OperationResult, Refusal, invalid_argument, invalid_action, invalid_state, not_found, refuse,
  refuse_row, apply_result, valid_identity, workflow_guard, task_guard, then_guard, transact,
}
use foxhound.Gate.Snooze.{Zone, SnoozeAction, snooze, calendar_snooze_until, review_snooze}

pub data StartAction : Type 0 where
  start cancel : StartAction
  snoozes : SnoozeAction → StartAction

snooze_start : Option SnoozeAction → Option StartAction
snooze_start none = none
snooze_start (some a) = some (snoozes a)

-- `action in {"start", "cancel", *_SNOOZE_ACTIONS}`.
unfoldable pub start_choice : String → Option StartAction
unfolding snooze_start
start_choice a =
    if str_eq a "start"
    then some start
    else if str_eq a "cancel"
    then some cancel
    else if str_eq a "snooze"
    then some (snoozes snooze)
    else snooze_start (review_snooze a)

abbrev pub opens_start : WorkflowStatus → Bool
opens_start awaiting_start = true
opens_start snoozed = true
opens_start parked = true
opens_start _ = false

-- `due_at > now`; a CHECK keeps `due_at` of a snoozed row from being null.
abbrev pub sleeps_past : Option ℕ → ℕ → Bool
sleeps_past none now = false
sleeps_past (some due) now = ltb now due

abbrev pub is_start : StartAction → Bool
is_start start = true
is_start _ = false

-- `refusal = INVALID_STATE` when the row is snoozed beyond now.
abbrev pub asleep_guard : Workflow → ℕ → Option Refusal
asleep_guard w now =
    if is_snoozed w.status && sleeps_past w.due_at now then some invalid_state else none

abbrev pub start_guard : Joined → ℕ → StartAction → ℕ → Option Refusal
start_guard j expected action now =
    then_guard
      (then_guard (workflow_guard j expected opens_start) (task_guard j j.row.task_version))
      (if is_start action then asleep_guard j.row now else none)

-- The UPDATE that both gates make.
unfoldable pub gated :
    WorkflowStatus → WorkflowPhase → ℕ → Option ℕ → ℕ → Option ℕ → Workflow → Workflow
gated status phase version wake now completed w = record w {
  status = status;
  phase = phase;
  version = version;
  due_at = wake;
  claim_token_digest = none;
  claimed_at = none;
  claim_heartbeat_at = none;
  claim_expires_at = none;
  current_run_id = none;
  failure_count = 0;
  last_failure_reason = none;
  last_failure_exit_code = none;
  last_failure_run_id = none;
  last_failure_at = none;
  next_attempt_at = none;
  parked_at = none;
  updated_at = now;
  completed_at = completed;
}

abbrev is_pending : ReviewStatus → Bool
is_pending pending = true
is_pending _ = false

-- `UPDATE ownership_reviews ... WHERE task_id=? AND task_version=? AND status='pending'`.
decide_review : ℕ → ℕ → ReviewStatus → ℕ → List OwnershipReview → List OwnershipReview
decide_review id version decision now [] = []
decide_review id version decision now (r ∷ rs) =
    (if r.task_id == id && r.task_version == version && is_pending r.status
      then record r { status = decision; decided_at = some now }
      else r)
    ∷ decide_review id version decision now rs

pub has_pending_review : ℕ → ℕ → List OwnershipReview → Bool
has_pending_review id version [] = false
has_pending_review id version (r ∷ rs) =
    if r.task_id == id && r.task_version == version && is_pending r.status
    then true
    else has_pending_review id version rs

pin_found : Db → Option Task → Db
pin_found db none = db
pin_found db (some t) = record db {
  tasks = replace_task (record t { owner_pinned = true }) db.tasks;
}

-- "No, mine": a pending proposal is kept and the owner is pinned.
unfoldable pub keep_owner : ℕ → ℕ → ℕ → Db → Db
unfolding decide_review has_pending_review pin_found
keep_owner id version now db =
    if has_pending_review id version db.ownership_reviews
    then pin_found
        (record db { ownership_reviews = decide_review id version kept now db.ownership_reviews })
        (find_task id db.tasks)
    else db

-- The one row that each start action writes, with its event.
pub record GateMove : Type 0 where
  pub status : WorkflowStatus
  pub phase : WorkflowPhase
  pub wake : Option ℕ
  pub completed : Option ℕ
  pub kind : EventKind

unfoldable pub start_move : Zone → ℕ → WorkflowPhase → StartAction → GateMove
start_move z now phase start = record {
  status = queued;
  phase = phase;
  wake = none;
  completed = none;
  kind = start_approved;
}
start_move z now phase cancel = record {
  status = WorkflowStatus.cancelled;
  phase = phase;
  wake = none;
  completed = some now;
  kind = EventKind.cancelled;
}
start_move z now phase (snoozes a) = record {
  status = snoozed;
  phase = phase;
  wake = some (calendar_snooze_until z a now);
  completed = none;
  kind = EventKind.snoozed;
}

unfoldable pub gate : ℕ → ℕ → Workflow → GateMove → ℕ → Db → Attempt (OperationResult × Db)
gate id expected w m now db = do
  (_, db1) ←
      write id (λ r. r.version == expected)
        (gated m.status m.phase (expected + 1) m.wake now m.completed) db
  db2 ← event id m.kind (expected + 1) w.task_version m.phase m.status now db1
  ok (
    apply_result id (expected + 1) m.status m.phase m.wake none w.agent_profile_id
        w.agent_profile_revision,
    db2,
  )

pub start_at : Zone → ℕ → ℕ → ℕ → StartAction → Option Joined → Db → Attempt (OperationResult × Db)
start_at z now id expected action none db = ok (refuse id not_found, db)
start_at z now id expected action (some j) db = elim (start_guard j expected action now) [
  | some r ↦ ok (refuse_row id j.row r, db)
  | none ↦ do
    (out, db1) ← gate id expected j.row (start_move z now j.row.phase action) now db
    ok (out, if is_start action then keep_owner id j.row.task_version now db1 else db1)
]

pub start_chosen : Zone → ℕ → ℕ → ℕ → Option StartAction → Db → Attempt (OperationResult × Db)
unfolding start_at
start_chosen z now id expected none db = ok (refuse id invalid_action, db)
start_chosen z now id expected (some action) db =
    start_at z now id expected action (workflow_with_task db id) db

-- `_apply_start_action`.
unfoldable pub apply_start_action : Zone → ℕ → ℕ → ℕ → String → Db → Attempt (OperationResult × Db)
unfolding start_chosen
apply_start_action z now id expected action db =
    if valid_identity id expected
    then start_chosen z now id expected (start_choice action) db
    else ok (refuse id invalid_argument, db)

abbrev is_start_word : String → Bool
is_start_word a =
    if str_eq a "start" then true else if str_eq a "snooze" then true else str_eq a "cancel"

-- `start_action`.
unfoldable pub start_action : Zone → ℕ → ℕ → ℕ → String → Db → Attempt (OperationResult × Db)
start_action z now id expected action db =
    if valid_identity id expected
    then if is_start_word action
      then transact db (apply_start_action z now id expected action db)
      else ok (refuse id invalid_action, db)
    else ok (refuse id invalid_argument, db)
