-- ===== src/Store.antt =====
-- The queries that workflow operations share, and the SQL statements as functions. A body of one
-- transaction is `Db → Attempt (A × Db)`: a raise rolls back.
pub mod Rows
pub mod Standing
pub mod Frame
use foxhound.Prelude.{
  ℕ, String, Bool, true, false, ◌&&◌, ◌||◌, Option, none, some, List, [], ◌∷◌, ◌++◌, ◌==◌, str_eq,
  if◌then◌else◌, Attempt, ok, raise, integrity_error, ledger_error,
}
use foxhound.Schema.{Workflow, WorkflowStatus, WorkflowPhase, ExecutionOutcome, TaskStatus, checks}
use foxhound.Tables.{
  Binding, Candidate, Db, EventKind, Lifecycle, Relation, Task, accepted, active, folded,
  preserved_open, withdrawn,
}

-- `SELECT * FROM tasks WHERE id=?`; `id` is the primary key.
unfoldable pub find_task : ℕ → List Task → Option Task
find_task id [] = none
find_task id (t ∷ ts) = if t.id == id then some t else find_task id ts

unfoldable pub replace_task : Task → List Task → List Task
replace_task t [] = []
replace_task t (u ∷ us) = if u.id == t.id then t ∷ us else u ∷ replace_task t us

-- `SELECT * FROM task_execution_workflows WHERE task_id=?`; `task_id` is the primary key.
unfoldable pub find_workflow : ℕ → List Workflow → Option Workflow
find_workflow id [] = none
find_workflow id (w ∷ ws) = if w.task_id == id then some w else find_workflow id ws

unfoldable pub replace_workflow : ℕ → Workflow → List Workflow → List Workflow
replace_workflow id v [] = []
replace_workflow id v (w ∷ ws) = if w.task_id == id then v ∷ ws else w ∷ replace_workflow id v ws

abbrev is_accepted : Relation → Bool
is_accepted accepted = true
is_accepted folded = false

-- The candidate a task was accepted from; an index keeps it unique.
unfoldable pub accepted_binding : ℕ → List Binding → Option Binding
accepted_binding id [] = none
accepted_binding id (b ∷ bs) =
    if b.task_id == id && is_accepted b.relation then some b else accepted_binding id bs

source_kind_of : String → List Candidate → Option String
source_kind_of id [] = none
source_kind_of id (c ∷ cs) =
    if str_eq c.candidate_id id then some c.source_kind else source_kind_of id cs

-- The `origin_kind` subquery.
unfoldable pub origin_kind : Db → ℕ → Option String
unfolding accepted_binding source_kind_of
origin_kind db id = elim (accepted_binding id db.bindings) [
  | none ↦ none
  | some b ↦ source_kind_of b.candidate_id db.candidates
]

preserved_open_row : Lifecycle → Bool
preserved_open_row l = elim l.state [
  | active ↦ false
  | withdrawn ↦ elim l.resolution [ preserved_open ↦ true | _ ↦ false ]
]

withdrawn_preserved : String → List Lifecycle → Bool
unfolding preserved_open_row
withdrawn_preserved id [] = false
withdrawn_preserved id (l ∷ ls) =
    (str_eq l.candidate_id id && preserved_open_row l) || withdrawn_preserved id ls

-- `EXISTS(... l.state='withdrawn' AND l.resolution='preserved_open')`.
unfoldable pub source_withdrawn : Db → ℕ → Bool
unfolding accepted_binding withdrawn_preserved
source_withdrawn db id = elim (accepted_binding id db.bindings) [
  | none ↦ false
  | some b ↦ withdrawn_preserved b.candidate_id db.lifecycles
]

-- A row of `_workflow_with_task`.
pub record Joined : Type 0 where
  pub row : Workflow
  pub task_status : TaskStatus
  pub current_task_version : ℕ
  pub origin : Option String

join_task : Db → Workflow → Option Task → Option Joined
join_task db w none = none
join_task db w (some t) = some (record {
  row = w;
  task_status = t.status;
  current_task_version = t.version;
  origin = origin_kind db w.task_id;
})

join_workflow : Db → Option Workflow → Option Joined
unfolding join_task
join_workflow db none = none
join_workflow db (some w) = join_task db w (find_task w.task_id db.tasks)

unfoldable pub workflow_with_task : Db → ℕ → Option Joined
unfolding join_workflow
workflow_with_task db id = join_workflow db (find_workflow id db.workflows)

write_found :
    Db → ℕ → (Workflow → Bool) → (Workflow → Workflow) → Option Workflow → Attempt (Bool × Db)
write_found db id test change none = ok (false, db)
write_found db id test change (some w) =
    if test w
    then if checks (change w)
      then ok (true, record db { workflows = replace_workflow id (change w) db.workflows })
      else raise integrity_error
    else ok (false, db)

-- `UPDATE task_execution_workflows SET change WHERE task_id=id AND test`, with `rowcount == 1`.
-- A row that breaks a CHECK raises `IntegrityError`.
unfoldable pub write : ℕ → (Workflow → Bool) → (Workflow → Workflow) → Db → Attempt (Bool × Db)
unfolding write_found
write id test change db = write_found db id test change (find_workflow id db.workflows)

event_of :
    Db → ℕ → EventKind → ℕ → ℕ → WorkflowPhase → WorkflowStatus → ℕ → Option Workflow → Attempt Db
event_of db id kind version task_version phase status now none = raise ledger_error
event_of db id kind version task_version phase status now (some w) = ok (record db {
  events =
      db.events
      ++ record {
        task_id = id;
        kind = kind;
        workflow_version = version;
        task_version = task_version;
        phase = phase;
        status = status;
        occurred_at = now;
        agent_profile_id = w.agent_profile_id;
        agent_profile_revision = w.agent_profile_revision;
      }
        ∷ [];
})

-- `_event`: append one event, with the profile that the row names by then.
unfoldable pub event : ℕ → EventKind → ℕ → ℕ → WorkflowPhase → WorkflowStatus → ℕ → Db → Attempt Db
unfolding event_of
event id kind version task_version phase status now db =
    event_of db id kind version task_version phase status now (find_workflow id db.workflows)
