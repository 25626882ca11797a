-- ===== src/Gate/Start/Gated.antt =====
-- What `start_action` of task_execution.py promises to leave behind: the words of its buttons, the row, the
-- event, and the owner of the task.
use foxhound.Prelude.{ℕ, ◌+◌, ◌≡◌, ◌≢◌, String, true, none, some, List, [], ◌∷◌, ◌++◌}
use mathlib.Core.List.{Memᴰ}
use foxhound.Schema.{Workflow, queued, snoozed}
use foxhound.Schema.WorkflowStatus.{cancelled}
use foxhound.Store.{find_task, replace_workflow}
use foxhound.Tables.{Db, Task, EventKind, start_approved, OwnershipReview, pending, kept}
use foxhound.Store.Rows.{event_row}
use foxhound.Gate.Snooze.{Zone, SnoozeAction, snooze, calendar_snooze_until, review_snooze}
use foxhound.Gate.Start.{StartAction, start, cancel, snoozes}

-- The action that a word of the reader names.
pub data Names : String → StartAction → Type 0 where
  starts : Names "start" start
  cancels : Names "cancel" cancel
  sleeps : Names "snooze" (snoozes snooze)
  sleeps_until :
      {word : String} {a : SnoozeAction} → review_snooze word ≡ some a → Names word (snoozes a)

-- The row that the action writes over `w`, and its event: a Start queues it, a cancel ends it, and a
-- snooze lets it sleep until the calendar wakes it, each in its own phase and with no claim, failure or
-- park left on it.
abbrev pub cleared_row : ℕ → Workflow → Workflow
cleared_row now w = record w {
  status = queued;
  version = w.version + 1;
  due_at = none;
  claim_token_digest = none;
  claimed_at = none;
  claim_heartbeat_at = none;
  claim_expires_at = none;
  current_run_id = none;
  failure_count = 0;
  last_failure_reason = none;
  last_failure_exit_code = none;
  last_failure_run_id = none;
  last_failure_at = none;
  next_attempt_at = none;
  parked_at = none;
  updated_at = now;
  completed_at = none;
}

abbrev pub gate_row : Zone → ℕ → Workflow → StartAction → Workflow
gate_row z now w start = cleared_row now w
gate_row z now w cancel = record (cleared_row now w) { status = cancelled; completed_at = some now }
gate_row z now w (snoozes a) = record (cleared_row now w) {
  status = snoozed;
  due_at = some (calendar_snooze_until z a now);
}

abbrev pub gate_event : StartAction → EventKind
gate_event start = start_approved
gate_event cancel = EventKind.cancelled
gate_event (snoozes a) = EventKind.snoozed

-- A proposal about the task at this version that waits for the reader.
abbrev pub Proposed : ℕ → ℕ → OwnershipReview → Type 0
Proposed id version r = (r.task_id ≡ id) × (r.task_version ≡ version) × (r.status ≡ pending)

-- Each such proposal is closed in the reader's favour; every other review stays.
abbrev pub Closes : ℕ → ℕ → ℕ → List OwnershipReview → List OwnershipReview → Type 0
Closes id version now [] [] = Unit
Closes id version now (r ∷ rs) (q ∷ qs) =
    (Proposed id version r → q ≡ record r { status = kept; decided_at = some now })
    × ((Proposed id version r → ⊥) → q ≡ r)
    × Closes id version now rs qs
Closes id version now _ _ = ⊥

-- A Start closes the proposals, and pins the task's owner where there was one; no other action does.
abbrev pub Owns : Db → Db → ℕ → ℕ → ℕ → StartAction → Type 0
Owns before after id version now start =
    Closes id version now before.ownership_reviews after.ownership_reviews
    × ((r : OwnershipReview) (t : Task)
        → Memᴰ r before.ownership_reviews
        → Proposed id version r
        → find_task id before.tasks ≡ some t
        → find_task id after.tasks ≡ some (record t { owner_pinned = true }))
    × (((r : OwnershipReview) → Memᴰ r before.ownership_reviews → Proposed id version r → ⊥)
        → after.tasks ≡ before.tasks)
    × ((other : ℕ) → other ≢ id → find_task other after.tasks ≡ find_task other before.tasks)
Owns before after id version now _ =
    (after.ownership_reviews ≡ before.ownership_reviews) × (after.tasks ≡ before.tasks)

-- The database after an action on `w`.
pub record Gated (z : Zone) (before after : Db) (id now : ℕ) (w : Workflow) (action : StartAction)
    : Type 0 where
  pub row : after.workflows ≡ replace_workflow id (gate_row z now w action) before.workflows
  pub event :
      after.events
      ≡ before.events
        ++ event_row id
            (gate_event action)
            (w.version + 1)
            w.task_version
            w.phase
            (gate_row z now w action).status
            now
            w
          ∷ []
  pub owner : Owns before after id w.task_version now action
