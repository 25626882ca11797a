-- ===== src/Schedule/Planned.antt =====
-- The row, the table and the events that `schedule` of task_execution.py leaves behind it when it plans a
-- task, and that its writes leave exactly these.
use foxhound.Prelude.{
  ℕ, ◌≤◌, ◌≡◌, refl, String, Bool, true, Option, none, some, List, [], ◌∷◌, ◌++◌, arith, ok, ◌⊎◌,
}
use foxhound.Schema.{
  Workflow, WorkflowStatus, WorkflowPhase, queued, awaiting_start, checks, run_id_column,
}
use foxhound.Store.{find_workflow, replace_workflow, origin_kind}
use foxhound.Tables.{Db, Task, scheduled}
use foxhound.Store.Rows.{
  Checked, event_row, find_workflow-key, find-replace_self, write-applies, event-found,
}
use foxhound.Operation.{applied, operation}
use foxhound.Profiles.{AgentProfile}
use foxhound.Service.{Service}
use foxhound.Schedule.{
  Ownership, kind_in, initial_status, initial_phase, insert_workflow, put_row, reread,
  scheduled_row, schedule_profile,
}

-- The row that a schedule of `t` leaves, under the profile `p`.
unfoldable pub planned_row :
    Service → Ownership → Db → ℕ → ℕ → Task → Option Workflow → AgentProfile → Workflow
planned_row s o db id now t row p =
    let origin = origin_kind db id in
    scheduled_row row id t.version (initial_status s o origin t) (initial_phase s origin) now p
      (kind_in origin s.steer_while_running)

unfoldable pub put_rows : ℕ → Workflow → Option Workflow → List Workflow → List Workflow
put_rows id v none ws = insert_workflow v ws
put_rows id v (some w) ws = replace_workflow id v ws

unfoldable pub planned_db :
    Service → Ownership → Db → ℕ → ℕ → Task → Option Workflow → AgentProfile → Db
unfolding put_rows planned_row
planned_db s o db id now t row p =
    let origin = origin_kind db id in
    let v = planned_row s o db id now t row p in
    record db {
      workflows = put_rows id v row db.workflows;
      events =
          db.events
          ++ event_row id scheduled v.version t.version (initial_phase s origin)
              (initial_status s o origin t) now v
            ∷ [];
    }

pub initial_status-cases :
    (s : Service) (o : Ownership) (origin : Option String) (t : Task)
    → (initial_status s o origin t ≡ queued) ⊎ (initial_status s o origin t ≡ awaiting_start)
unfolding initial_status
initial_status-cases s o origin t = ground arith

no_run_id : run_id_column none ≡ true
unfolding run_id_column
no_run_id = refl

pub scheduled_row-Checked :
    (row : Option Workflow) (id v : ℕ) (status : WorkflowStatus) (phase : WorkflowPhase) (now : ℕ)
    (p : AgentProfile) (steers : Bool)
    → 1 ≤ v
    → (status ≡ queued) ⊎ (status ≡ awaiting_start)
    → Checked (scheduled_row row id v status phase now p steers)
unfolding checks
scheduled_row-Checked none id v status phase now p steers l k = ground (arith, no_run_id)
scheduled_row-Checked (some w) id v status phase now p steers l k = ground (arith, no_run_id)

pub scheduled_row-key :
    (row : Option Workflow) (id v : ℕ) (status : WorkflowStatus) (phase : WorkflowPhase) (now : ℕ)
    (p : AgentProfile) (steers : Bool) (ws : List Workflow)
    → find_workflow id ws ≡ row
    → (scheduled_row row id v status phase now p steers).task_id ≡ id
scheduled_row-key none id v status phase now p steers ws f = refl
scheduled_row-key (some w) id v status phase now p steers ws f = find_workflow-key id ws f

find-insert :
    (id : ℕ) (v : Workflow) (ws : List Workflow)
    → v.task_id ≡ id
    → find_workflow id ws ≡ none
    → find_workflow id (insert_workflow v ws) ≡ some v
unfolding find_workflow insert_workflow
find-insert id v [] k f = ground arith
find-insert id v (w ∷ ws) k f = ground (arith, find-insert id v ws)

pub find-put_rows :
    (id : ℕ) (v : Workflow) (row : Option Workflow) (ws : List Workflow)
    → v.task_id ≡ id
    → find_workflow id ws ≡ row
    → find_workflow id (put_rows id v row ws) ≡ some v
unfolding put_rows
find-put_rows id v none ws k f = find-insert id v ws k f
find-put_rows id v (some w) ws k f = find-replace_self id v ws k f

put_row-applied :
    (id : ℕ) (v : Workflow) (row : Option Workflow) (db : Db)
    → Checked v
    → find_workflow id db.workflows ≡ row
    → put_row id v row db ≡ ok (record db { workflows = put_rows id v row db.workflows })
unfolding put_row put_rows
put_row-applied id v none db c f = rw c
put_row-applied id v (some w) db c f = rw (write-applies id (λ r. true) (λ r. v) db f refl c)

pub schedule_profile-applied :
    (s : Service) (o : Ownership) (now id : ℕ) (t : Task) (row : Option Workflow) (db : Db)
    (p : AgentProfile)
    → 1 ≤ t.version
    → find_workflow id db.workflows ≡ row
    → let v = planned_row s o db id now t row p in
      schedule_profile s o now id t (origin_kind db id) row db p
      ≡ ok (operation v applied, planned_db s o db id now t row p)
unfolding schedule_profile planned_row planned_db reread
schedule_profile-applied s o now id t row db p l f =
    let origin = origin_kind db id in
    let status = initial_status s o origin t in
    let phase = initial_phase s origin in
    let steers = kind_in origin s.steer_while_running in
    let v = scheduled_row row id t.version status phase now p steers in
    let g =
      find-put_rows id v row db.workflows
        (scheduled_row-key row id t.version status phase now p steers db.workflows f) f in
    rw
      (put_row-applied id v row db
        (scheduled_row-Checked row id t.version status phase now p steers l
          (initial_status-cases s o origin t))
        f)
      (rw
        (event-found id scheduled v.version t.version phase status now
          (record db { workflows = put_rows id v row db.workflows }) v g)
        (rw (g, reread)))
