-- ===== src/Store/Standing.antt =====
-- The task behind a workflow row, as `_workflow_with_task` joins it.
use foxhound.Prelude.{ℕ, ◌≡◌, refl, sym, subst, ap, ◌∙◌, Option, none, some, arith}
use foxhound.Schema.{Workflow, open_task}
use foxhound.Store.{
  Joined, find_task, find_workflow, workflow_with_task, join_task, join_workflow, origin_kind,
}
use foxhound.Tables.{Db, Task}
use foxhound.Store.Rows.{find_workflow-key}
use foxhound.Operation.{task_guard}

-- The task is open, at the version that the workflow was made for.
pub record Stands (db : Db) (w : Workflow) : Type 0 where
  pub task : Task
  pub found : find_task w.task_id db.tasks ≡ some task
  pub opened : task.status ≡ open_task
  pub current : task.version ≡ w.task_version

join_task-some :
    (db : Db) (w : Workflow) (o : Option Task) {j : Joined}
    → join_task db w o ≡ some j
    → (t : Task) × (o ≡ some t)
      × (j.row ≡ w)
      × (j.task_status ≡ t.status)
      × (j.current_task_version ≡ t.version)
unfolding join_task
join_task-some db w none h = cc
join_task-some db w (some t) {j} h = (t, refl, ground arith, ground arith, ground arith)

pub joined_task :
    (db : Db) (id : ℕ) {j : Joined}
    → workflow_with_task db id ≡ some j
    → (t : Task) × (find_task j.row.task_id db.tasks ≡ some t)
      × (j.task_status ≡ t.status)
      × (j.current_task_version ≡ t.version)
joined_task db id {j} h = joined (find_workflow id db.workflows) (unfold workflow_with_task in h)
  where
    joined :
        (o : Option Workflow)
        → join_workflow db o ≡ some j
        → (t : Task) × (find_task j.row.task_id db.tasks ≡ some t)
          × (j.task_status ≡ t.status)
          × (j.current_task_version ≡ t.version)
    joined none h = unfold join_workflow in cc
    joined (some w) h =
        let (t, f, r, s, v) =
          join_task-some db w (find_task w.task_id db.tasks) {j = j} (unfold join_workflow in h) in
        (t, subst (λ (u : Workflow). find_task u.task_id db.tasks ≡ some t) (sym r) f, s, v)

-- The task guard, at the version that the row names, passes only a row whose task stands behind it.
pub task_guard-Stands :
    (db : Db) (id : ℕ) {j : Joined}
    → workflow_with_task db id ≡ some j
    → task_guard j j.row.task_version ≡ none
    → Stands db j.row
task_guard-Stands db id {j} h g =
    let (t, f, s, v) = joined_task db id h in
    record { task = t; found = f; opened = ground arith; current = ground arith }

join_task-origin :
    (db : Db) (w : Workflow) (o : Option Task) {j : Joined}
    → join_task db w o ≡ some j
    → j.origin ≡ origin_kind db w.task_id
unfolding join_task
join_task-origin db w none h = cc
join_task-origin db w (some t) h = ground arith

-- The joined row carries the source kind of its own task.
pub joined_origin :
    (db : Db) (id : ℕ) {j : Joined}
    → workflow_with_task db id ≡ some j
    → j.origin ≡ origin_kind db id
joined_origin db id {j} h =
    joined (find_workflow id db.workflows) refl (unfold workflow_with_task in h)
  where
    joined :
        (o : Option Workflow)
        → find_workflow id db.workflows ≡ o
        → join_workflow db o ≡ some j
        → j.origin ≡ origin_kind db id
    joined none f h = unfold join_workflow in cc
    joined (some w) f h =
        join_task-origin db w (find_task w.task_id db.tasks) {j = j} (unfold join_workflow in h)
        ∙ ap (origin_kind db) (find_workflow-key id db.workflows f)
