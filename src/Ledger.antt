-- ===== src/Ledger.antt =====
-- `transition` of task_ledger.py: the lifecycle of a task, and what a reader's verb does to it.
pub mod Total
pub mod Effects
use foxhound.Prelude.{
  ℕ, ◌+◌, String, Bool, true, false, Option, none, some, List, [], ◌∷◌, ◌++◌, leb, ◌==◌, str_eq,
  if◌then◌else◌,
}
use foxhound.Schema.{TaskStatus, open_task, done, dropped}
use foxhound.Store.{find_task, replace_task}
use foxhound.Tables.{Db, Task, TaskEvent, Binding, WorkItem, WorkState, closed}

pub data TransitionRefusal : Type 0 where
  invalid_action invalid_state not_found stale_version : TransitionRefusal

-- `TransitionResult`, its disposition as the constructor; a refusal names the row where it found one.
pub data TransitionResult : Type 0 where
  applied : ℕ → ℕ → TaskStatus → TransitionResult
  refused : ℕ → Option (ℕ × TaskStatus) → TransitionRefusal → TransitionResult

pub data TaskAction : Type 0 where
  finish drop reopen : TaskAction

unfoldable pub task_action : String → Option TaskAction
task_action a =
    if str_eq a "done"
    then some finish
    else if str_eq a "drop"
    then some drop
    else if str_eq a "reopen"
    then some reopen
    else none

-- The `targets` table: the states that the action leaves, and the state that it enters.
unfoldable pub leaves : TaskAction → TaskStatus → Bool
leaves finish open_task = true
leaves drop open_task = true
leaves reopen done = true
leaves reopen dropped = true
leaves _ _ = false

unfoldable pub enters : TaskAction → TaskStatus
enters finish = done
enters drop = dropped
enters reopen = open_task

abbrev pub closing_time : TaskStatus → ℕ → Option ℕ
closing_time open_task now = none
closing_time _ now = some now

-- `_bound_source`: the first binding of the task, whatever its relation.
unfoldable pub bound_source : ℕ → List Binding → Option Binding
bound_source id [] = none
bound_source id (b ∷ bs) = if b.task_id == id then some b else bound_source id bs

candidate_of : Option Binding → Option String
candidate_of none = none
candidate_of (some b) = some b.candidate_id

revision_of : Option Binding → Option String
revision_of none = none
revision_of (some b) = some b.source_revision

abbrev work_state : TaskStatus → WorkState
work_state open_task = WorkState.active
work_state _ = closed

pub set_work : ℕ → WorkState → ℕ → List WorkItem → List WorkItem
set_work id state now [] = []
set_work id state now (w ∷ ws) =
    (if w.task_id == id then record w { state = state; updated_at = now } else w)
    ∷ set_work id state now ws

-- The row that the UPDATE writes.
abbrev pub moved_task : TaskStatus → ℕ → Task → Task
moved_task target now t = record t {
  status = target;
  version = t.version + 1;
  updated_at = now;
  closed_at = closing_time target now;
}

status_event : ℕ → Option Binding → TaskStatus → ℕ → Task → TaskEvent
unfolding candidate_of revision_of
status_event id source target now t = record {
  task_id = id;
  task_version = t.version + 1;
  candidate_id = candidate_of source;
  source_revision = revision_of source;
  from_status = some t.status;
  to_status = target;
  occurred_at = now;
}

-- The UPDATE of the task, the INSERT of its event, and the UPDATE of its work item.
unfoldable pub transitioned : ℕ → TaskStatus → ℕ → Task → Db → Db
unfolding status_event set_work
transitioned id target now t db = record db {
  tasks = replace_task (moved_task target now t) db.tasks;
  task_events = db.task_events ++ status_event id (bound_source id db.bindings) target now t ∷ [];
  work_items = set_work id (work_state target) now db.work_items;
}

transition_task : ℕ → ℕ → TaskAction → ℕ → Option Task → Db → TransitionResult × Db
unfolding leaves enters transitioned
transition_task id expected action now none db = (refused id none not_found, db)
transition_task id expected action now (some t) db =
    if t.version == expected
    then if leaves action t.status
      then (applied id (t.version + 1) (enters action), transitioned id (enters action) now t db)
      else (refused id (some (t.version, t.status)) invalid_state, db)
    else (refused id (some (t.version, t.status)) stale_version, db)

-- `_apply_task_transition`: the UPDATE repeats the version that was read in its transaction, so it
-- finds its row.
unfoldable pub apply_task_transition : ℕ → ℕ → Option TaskAction → ℕ → Db → TransitionResult × Db
unfolding transition_task
apply_task_transition id expected none now db = (refused id none invalid_action, db)
apply_task_transition id expected (some action) now db =
    transition_task id expected action now (find_task id db.tasks) db

-- `transition`; a refusal is rolled back, and has changed nothing.
unfoldable pub transition : ℕ → ℕ → String → ℕ → Db → TransitionResult × Db
unfolding task_action apply_task_transition
transition id expected action now db =
    if leb 1 id
    then if leb 1 expected
      then apply_task_transition id expected (task_action action) now db
      else (refused id none stale_version, db)
    else (refused 0 none not_found, db)
