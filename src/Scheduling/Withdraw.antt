-- ===== src/Scheduling/Withdraw.antt =====
-- The withdrawal of a prerequisite that a change set created: `_cancel_prerequisite_cards`, and the end
-- of its task and workflow in `act`, of task_scheduling.py.
pub mod Frame
use foxhound.Prelude.{
  ℕ, ◌+◌, String, Bool, true, false, ◌&&◌, ◌||◌, Option, none, some, List, [], ◌∷◌, ◌++◌, ◌==◌,
  if◌then◌else◌, Attempt, ok, ◌>>=◌,
}
use foxhound.Schema.{Workflow, WorkflowStatus, dropped, open_task}
use foxhound.Store.{find_task, replace_task, find_workflow, write}
use foxhound.Tables.{Db, Task, Event, EventKind}
use foxhound.Operation.{is_open}
use foxhound.Scheduling.Rows.{ReviewCard, ReviewCardStatus, Retraction, SchedulingDb}

is_pending : ReviewCardStatus → Bool
is_pending ReviewCardStatus.pending = true
is_pending ReviewCardStatus.delivering = true
is_pending ReviewCardStatus.delivered = true
is_pending _ = false

cancelled_card : ℕ → ReviewCard → ReviewCard
cancelled_card now c = record c {
  status = ReviewCardStatus.cancelled;
  version = c.version + 1;
  claim_token_digest = none;
  claim_expires_at = none;
  superseded_delivery_ref = c.delivery_ref;
  superseded_transport = c.transport;
  transport = none;
  delivery_ref = none;
  resolved_at = some now;
  updated_at = now;
}

cancel_review_cards : ℕ → ℕ → List ReviewCard → List ReviewCard
unfolding is_pending cancelled_card
cancel_review_cards id now [] = []
cancel_review_cards id now (c ∷ cs) =
    (if c.task_id == id && is_pending c.status then cancelled_card now c else c)
    ∷ cancel_review_cards id now cs

is_retracted : ℕ → List Retraction → Bool
is_retracted id [] = false
is_retracted id (r ∷ rs) = r.card_id == id || is_retracted id rs

-- INSERT OR IGNORE: a card has one retraction.
retract : ℕ → ℕ → Option String → Option String → List Retraction → List Retraction
unfolding is_retracted
retract id now (some transport) (some ref) rs =
    if is_retracted id rs
    then rs
    else rs
      ++ record { card_id = id; transport = transport; delivery_ref = ref; created_at = now } ∷ []
retract id now _ _ rs = rs

-- The retraction and the event of each card that was shown or about to be.
note_cancelled : ℕ → ℕ → ℕ → List ReviewCard → SchedulingDb → SchedulingDb
unfolding is_pending retract
note_cancelled id version now [] s = s
note_cancelled id version now (c ∷ cs) s = note_cancelled id version now cs (
    if c.task_id == id && is_pending c.status
    then record s {
      retractions = retract c.id now c.transport c.delivery_ref s.retractions;
      cancelled_cards =
          s.cancelled_cards
          ++ record {
            card_id = c.id;
            task_id = id;
            card_version = c.version + 1;
            workflow_version = version;
            occurred_at = now;
          }
            ∷ [];
    }
    else s)

-- `_cancel_prerequisite_cards`.
unfoldable pub cancel_prerequisite_cards : ℕ → ℕ → ℕ → SchedulingDb → SchedulingDb
unfolding cancel_review_cards note_cancelled
cancel_prerequisite_cards id version now s =
    note_cancelled id version now s.review_cards
      (record s { review_cards = cancel_review_cards id now s.review_cards })

abbrev cancelled_workflow : ℕ → ℕ → Workflow → Workflow
cancelled_workflow version now w = record w {
  status = WorkflowStatus.cancelled;
  version = version;
  updated_at = now;
  completed_at = some now;
}

cancelled_event : ℕ → ℕ → ℕ → Workflow → Event
cancelled_event id version now w = record {
  task_id = id;
  kind = EventKind.cancelled;
  workflow_version = version;
  task_version = 1;
  phase = w.phase;
  status = WorkflowStatus.cancelled;
  occurred_at = now;
  agent_profile_id = w.agent_profile_id;
  agent_profile_revision = w.agent_profile_revision;
}

-- The cards, the row and the event of the created task's workflow.
withdraw_workflow : ℕ → ℕ → Option Workflow → SchedulingDb → Attempt SchedulingDb
unfolding cancel_prerequisite_cards cancelled_event
withdraw_workflow id now none s = ok s
withdraw_workflow id now (some w) s = do
  let s1 = cancel_prerequisite_cards id w.version now s
  let version = w.version + 1
  (_, db1) ← write id (λ v. v.version == w.version) (cancelled_workflow version now) s1.db
  ok (record s1 {
    db = record db1 { events = db1.events ++ cancelled_event id version now w ∷ [] };
  })

-- `UPDATE tasks ... WHERE id=? AND status='open' AND version=1`.
drop_task : ℕ → ℕ → Option Task → Db → Db
drop_task id now none db = db
drop_task id now (some t) db =
    if is_open t.status && t.version == 1
    then record db {
      tasks =
          replace_task
            (record t { status = dropped; version = 2; updated_at = now; closed_at = some now })
            db.tasks;
    }
    else db

dropped_event : ℕ → ℕ → Db → Db
dropped_event id now db = record db {
  task_events =
      db.task_events
      ++ record {
        task_id = id;
        task_version = 2;
        candidate_id = none;
        source_revision = none;
        from_status = some open_task;
        to_status = dropped;
        occurred_at = now;
      }
        ∷ [];
}

-- What the undo of a change does to the task that the change created.
unfoldable pub withdraw : Option ℕ → ℕ → SchedulingDb → Attempt SchedulingDb
unfolding withdraw_workflow drop_task dropped_event
withdraw none now s = ok s
withdraw (some id) now s = do
  s1 ← withdraw_workflow id now (find_workflow id s.db.workflows) s
  ok (record s1 { db = dropped_event id now (drop_task id now (find_task id s1.db.tasks) s1.db) })
