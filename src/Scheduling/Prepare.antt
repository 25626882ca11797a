-- ===== src/Scheduling/Prepare.antt =====
-- What `apply` of task_scheduling.py does for each kind of recommendation before it writes the change.
use foxhound.Prelude.{
  ℕ, ◌+◌, String, Bool, true, false, ◌&&◌, Option, none, some, leb, ◌==◌, if◌then◌else◌, Attempt,
  ok, ◌>>=◌,
}
use foxhound.Schema.{
  Workflow, WorkflowPriority, PrioritySource, normal, raised, automation, is_queued,
}
use foxhound.Store.{write}
use foxhound.Tables.{Db, priority_raised}
use foxhound.Scheduling.{SchedulingRefusal, invalid_state, manual_priority, next_id}
use foxhound.Scheduling.Rows.{SchedulingKind, Recommendation}
use foxhound.Scheduling.Prerequisite.{task_ids, create_prerequisite, execution_priority_event}
use foxhound.Scheduling.Graph.{dependency_refusal}

-- What a recommendation of each kind needs before its change set is written.
pub record Prepared : Type 0 where
  pub related : Option ℕ
  pub created : Option ℕ
  pub prior : Option WorkflowPriority
  pub version : ℕ
  pub db : Db

pub data Preparation : Type 0 where
  blocked : SchedulingRefusal → Preparation
  ready : Prepared → Preparation

abbrev pub unless_refused : Option SchedulingRefusal → Prepared → Preparation
unless_refused none p = ready p
unless_refused (some r) p = blocked r

-- The WHERE of the priority's UPDATE.
abbrev pub may_raise : ℕ → ℕ → Workflow → Bool
may_raise version now w =
    w.version == version
    && is_queued w.status
    && is_normal w.queue_priority
    && is_due now w.next_attempt_at
  where
    is_normal : WorkflowPriority → Bool
    is_normal normal = true
    is_normal _ = false

    is_due : ℕ → Option ℕ → Bool
    is_due now none = true
    is_due now (some at) = leb at now

abbrev pub raised_row : ℕ → ℕ → Workflow → Workflow
raised_row version now w = record w {
  queue_priority = raised;
  queue_priority_source = some automation;
  version = version;
  updated_at = now;
}

-- Only a row of normal priority that nobody chose is raised.
abbrev pub chosen_priority : WorkflowPriority → Option PrioritySource → Bool
chosen_priority normal none = false
chosen_priority _ _ = true

-- The UPDATE of the priority found its row, or the change is refused.
unfoldable pub raise_written : ℕ → ℕ → ℕ → Bool × Db → Attempt Preparation
unfolding execution_priority_event
raise_written id version now (false, db) = ok (blocked invalid_state)
raise_written id version now (true, db) = do
  db1 ← execution_priority_event id version priority_raised now db
  ok (
      ready (record {
        related = none;
        created = none;
        prior = some normal;
        version = version;
        db = db1;
      }))

unfoldable pub raise_target : Recommendation → Workflow → ℕ → Db → Attempt Preparation
unfolding raise_written
raise_target r w now db =
    let id = r.target_task_id in
    let expected = r.expected_workflow_version in
    if chosen_priority w.queue_priority w.queue_priority_source
    then ok (blocked manual_priority)
    else (write id (may_raise expected now) (raised_row (expected + 1) now) db
        >>= raise_written id (expected + 1) now)

-- A change that leaves the workflow's version.
abbrev pub at_version : Recommendation → Option ℕ → Option ℕ → Db → Prepared
at_version r related created db = record {
  related = related;
  created = created;
  prior = none;
  version = r.expected_workflow_version;
  db = db;
}

abbrev text_or_empty : Option String → String
text_or_empty none = ""
text_or_empty (some t) = t

unfoldable pub prepare_prerequisite : Recommendation → Workflow → ℕ → Db → Preparation
prepare_prerequisite r w now db =
    let id = next_id (task_ids db.tasks) in
    let db1 = create_prerequisite id (text_or_empty r.prerequisite_text) now w db in
    unless_refused (dependency_refusal db1 r.target_task_id (some id))
      (at_version r (some id) (some id) db1)

unfoldable pub prepare : Recommendation → Workflow → ℕ → Db → Attempt Preparation
unfolding raise_target prepare_prerequisite
prepare r w now db = elim r.kind [
  | SchedulingKind.after_task_completed ↦ ok (
      unless_refused (dependency_refusal db r.target_task_id r.related_task_id)
        (at_version r r.related_task_id none db))
  | SchedulingKind.not_before ↦ ok (ready (at_version r r.related_task_id none db))
  | SchedulingKind.raise_priority ↦ raise_target r w now db
  | SchedulingKind.create_prerequisite ↦ ok (prepare_prerequisite r w now db)
]
