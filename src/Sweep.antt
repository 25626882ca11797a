-- ===== src/Sweep.antt =====
-- The sweeps at the head of each claim and schedule pass: `_cancel_stale` and `_recover_expired` of
-- task_execution.py. A table is a list in the order of its integer primary key, so a query ordered
-- by `task_id` reads it from the front.
pub mod Stale
use foxhound.Prelude.{
  ℕ, ◌+◌, Bool, true, false, not, ◌&&◌, ◌||◌, Option, none, some, List, [], ◌∷◌, leb, ◌==◌,
  if◌then◌else◌, Attempt, ok, ◌>>=◌,
}
use foxhound.Schema.{Workflow, FailureReason, is_running, is_finished}
use foxhound.Schema.WorkflowStatus.{cancelled}
use foxhound.Store.{find_task, source_withdrawn, write, event}
use foxhound.Tables.{Db, Task, EventKind}
use foxhound.Operation.{is_open}
use foxhound.Service.{Service}
use foxhound.Failure.{defer_failure}

-- A row of the join whose task no longer stands behind the workflow.
abbrev moved_on : Db → Workflow → Option Task → Bool
moved_on db w none = false
moved_on db w (some t) =
    not (is_open t.status) || not (t.version == w.task_version) || source_withdrawn db w.task_id

unfoldable pub is_stale : Db → Workflow → Bool
is_stale db w = not (is_finished w.status) && moved_on db w (find_task w.task_id db.tasks)

unfoldable pub select_rows : (Workflow → Bool) → List Workflow → List Workflow
select_rows p [] = []
select_rows p (w ∷ ws) = let rest = select_rows p ws in if p w then w ∷ rest else rest

-- The UPDATE of `_cancel_stale`.
abbrev pub cancelled_row : ℕ → Workflow → Workflow
cancelled_row now w = record w {
  status = cancelled;
  version = w.version + 1;
  claim_token_digest = none;
  claimed_at = none;
  claim_heartbeat_at = none;
  claim_expires_at = none;
  current_run_id = none;
  next_attempt_at = none;
  parked_at = none;
  updated_at = now;
  completed_at = some now;
}

unfoldable pub cancel_one : ℕ → Workflow → Db → Attempt Db
cancel_one now w db = do
  (_, db1) ← write w.task_id (λ r. r.version == w.version) (cancelled_row now) db
  event w.task_id EventKind.cancelled (w.version + 1) w.task_version w.phase cancelled now db1

unfoldable pub cancel_rows : ℕ → List Workflow → Db → Attempt Db
cancel_rows now [] db = ok db
cancel_rows now (w ∷ ws) db = cancel_one now w db >>= cancel_rows now ws

-- `_cancel_stale`.
unfoldable pub cancel_stale : ℕ → Db → Attempt Db
cancel_stale now db = cancel_rows now (select_rows (is_stale db) db.workflows) db

-- `claim_expires_at IS NULL OR claim_expires_at<=?`.
abbrev pub lapsed : ℕ → Option ℕ → Bool
lapsed now none = true
lapsed now (some expires) = leb expires now

unfoldable pub is_expired : ℕ → Workflow → Bool
is_expired now w = is_running w.status && lapsed now w.claim_expires_at

unfoldable pub recover_rows : Service → ℕ → List Workflow → Db → Attempt Db
recover_rows s now [] db = ok db
recover_rows s now (w ∷ ws) db = do
  (_, db1) ←
      defer_failure s w FailureReason.claim_expired now (some EventKind.claim_expired) none none db
  recover_rows s now ws db1

-- `_recover_expired`.
unfoldable pub recover_expired : Service → ℕ → Db → Attempt Db
recover_expired s now db = recover_rows s now (select_rows (is_expired now) db.workflows) db
