-- ===== src/Scheduling/Prerequisite/Frame.antt =====
-- `_execution_priority_event` of task_scheduling.py writes nothing but an event.
use foxhound.Prelude.{ℕ, ◌≡◌, refl, subst, Option, none, some, ok, [], ◌∷◌, ◌++◌}
use foxhound.Schema.{Workflow}
use foxhound.Store.{find_workflow}
use foxhound.Tables.{Db, EventKind}
use foxhound.Store.Frame.{Alike, event-Alike}
use foxhound.Store.Rows.{event_row, event-found}
use foxhound.Scheduling.Prerequisite.{priority_event_of, execution_priority_event}

priority_event_of-Alike :
    (db : Db) (id version : ℕ) (kind : EventKind) (now : ℕ) (o : Option Workflow) (out : Db)
    → priority_event_of db id version kind now o ≡ ok out
    → Alike db out
unfolding priority_event_of
priority_event_of-Alike db id version kind now none out h =
    (let e : db ≡ out = cc in subst (Alike db) e refl)
priority_event_of-Alike db id version kind now (some w) out h =
    event-Alike id kind version w.task_version w.phase w.status now db out h

pub execution_priority_event-Alike :
    (id version : ℕ) (kind : EventKind) (now : ℕ) (db out : Db)
    → execution_priority_event id version kind now db ≡ ok out
    → Alike db out
unfolding execution_priority_event
execution_priority_event-Alike id version kind now db out h =
    priority_event_of-Alike db id version kind now (find_workflow id db.workflows) out h

-- On a table that holds the row, one event is appended.
pub execution_priority_event-found :
    (id version : ℕ) (kind : EventKind) (now : ℕ) (db : Db) (w : Workflow)
    → find_workflow id db.workflows ≡ some w
    → execution_priority_event id version kind now db
      ≡ ok (record db {
        events = db.events ++ event_row id kind version w.task_version w.phase w.status now w ∷ [];
      })
unfolding execution_priority_event priority_event_of
execution_priority_event-found id version kind now db w f =
    rw f (event-found id kind version w.task_version w.phase w.status now db w f)
