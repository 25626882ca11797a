-- ===== src/Claim/Ownership.antt =====
-- `_hold_for_ownership_review` of task_execution.py, and the ownership review rows of
-- task_research_gate.py.
use foxhound.Prelude.{
  ℕ, ◌+◌, String, Bool, true, false, ◌&&◌, ◌||◌, Option, none, some, List, [], ◌∷◌, ◌++◌, ◌==◌,
  if◌then◌else◌, Attempt, ok, ◌>>=◌,
}
use foxhound.Schema.{
  Workflow, WorkflowStatus, plan, awaiting_start, is_queued, is_parked, same_phase,
}
use foxhound.Store.{find_task, write, event}
use foxhound.Tables.{Db, Task, OwnershipReview, ReviewStatus, pending, scheduled}
use foxhound.Claim.{Advice}

-- `ownership_review_status`; the primary key is the task and its version.
unfoldable pub ownership_review_status : ℕ → ℕ → List OwnershipReview → Option ReviewStatus
ownership_review_status id version [] = none
ownership_review_status id version (r ∷ rs) =
    if r.task_id == id && r.task_version == version
    then some r.status
    else ownership_review_status id version rs

-- `record_ownership_review`: INSERT OR IGNORE.
unfoldable pub record_ownership_review : ℕ → ℕ → String → Db → Db
unfolding ownership_review_status
record_ownership_review id version owner db =
    elim (ownership_review_status id version db.ownership_reviews) [
      | some status ↦ db
      | none ↦ record db {
        ownership_reviews =
            db.ownership_reviews
            ++ record {
              task_id = id;
              task_version = version;
              proposed_owner = owner;
              status = pending;
              decided_at = none;
            }
              ∷ [];
      }
    ]

abbrev pub is_pending : ReviewStatus → Bool
is_pending pending = true
is_pending _ = false

-- `status IN ('queued','parked')`.
abbrev pub is_waiting : WorkflowStatus → Bool
is_waiting status = is_queued status || is_parked status

-- The UPDATE of a hold, and its WHERE: the columns of a park are left as they are.
abbrev pub held_row : ℕ → ℕ → Workflow → Workflow
held_row version now w = record w {
  status = awaiting_start;
  version = version;
  due_at = none;
  next_attempt_at = none;
  updated_at = now;
}

abbrev pub holdable : ℕ → Workflow → Bool
holdable version w = w.version == version && same_phase w.phase plan && is_waiting w.status

unfoldable pub held_written : Workflow → String → ℕ → Bool × Db → Attempt (Bool × Db)
unfolding record_ownership_review
held_written w owner now (false, db) = ok (false, db)
held_written w owner now (true, db) = do
  db1 ←
      event w.task_id scheduled (w.version + 1) w.task_version plan awaiting_start now
        (record_ownership_review w.task_id w.task_version owner db)
  ok (true, db1)

unfoldable pub hold_proposed : Workflow → Option String → ℕ → Db → Attempt (Bool × Db)
unfolding held_written
hold_proposed w none now db = ok (false, db)
hold_proposed w (some owner) now db = do
  out ← write w.task_id (holdable w.version) (held_row (w.version + 1) now) db
  held_written w owner now out

unfoldable pub hold_unreviewed :
    Advice → Workflow → ℕ → Option ReviewStatus → Option Task → Db → Attempt (Bool × Db)
unfolding hold_proposed
hold_unreviewed a w now (some status) task db = ok (is_pending status, db)
hold_unreviewed a w now none none db = ok (false, db)
hold_unreviewed a w now none (some t) db = hold_proposed w (a.disagreement w.task_id) now db

-- `_hold_for_ownership_review`.
unfoldable pub hold_for_ownership_review : Advice → Workflow → ℕ → Db → Attempt (Bool × Db)
unfolding hold_unreviewed
hold_for_ownership_review a w now db =
    hold_unreviewed a w now (ownership_review_status w.task_id w.task_version db.ownership_reviews)
      (find_task w.task_id db.tasks) db

-- The profile that a candidate runs under, when it is installed and runs the candidate's phase.
