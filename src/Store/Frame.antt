-- ===== src/Store/Frame.antt =====
-- The tables that an UPDATE of workflows and an INSERT of an event leave alone.
use foxhound.Prelude.{ℕ, ◌≡◌, ap, ◌∙◌, Bool, Option, none, some, ok, arith}
use foxhound.Schema.{Workflow, WorkflowPhase, WorkflowStatus}
use foxhound.Store.{find_workflow, write_found, write, event_of, event}
use foxhound.Tables.{Db, EventKind}

-- Nothing but the workflows and their events differs.
abbrev pub Alike : Db → Db → Type 0
Alike a b = b ≡ record a { workflows = b.workflows; events = b.events }

pub Alike-trans : (a b c : Db) → Alike a b → Alike b c → Alike a c
Alike-trans a b c f g =
    g ∙ ap (λ (d : Db). record d { workflows = c.workflows; events = c.events }) f

write_found-Alike :
    (db : Db) (id : ℕ) (test : Workflow → Bool) (change : Workflow → Workflow) (o : Option Workflow)
    (out : Bool × Db)
    → write_found db id test change o ≡ ok out
    → Alike db out.1
unfolding write_found
write_found-Alike db id test change none out h = ground (arith, h)
write_found-Alike db id test change (some w) out h = ground (arith, h)

pub write-Alike :
    (id : ℕ) (test : Workflow → Bool) (change : Workflow → Workflow) (db : Db) (out : Bool × Db)
    → write id test change db ≡ ok out
    → Alike db out.1
unfolding write
write-Alike id test change db out h =
    write_found-Alike db id test change (find_workflow id db.workflows) out h

event_of-Alike :
    (db : Db) (id : ℕ) (kind : EventKind) (version task_version : ℕ) (phase : WorkflowPhase)
    (status : WorkflowStatus) (now : ℕ) (o : Option Workflow) (out : Db)
    → event_of db id kind version task_version phase status now o ≡ ok out
    → Alike db out
unfolding event_of
event_of-Alike db id kind version task_version phase status now none out h = cc
event_of-Alike db id kind version task_version phase status now (some w) out h = ground (arith, h)

pub event-Alike :
    (id : ℕ) (kind : EventKind) (version task_version : ℕ) (phase : WorkflowPhase)
    (status : WorkflowStatus) (now : ℕ) (db out : Db)
    → event id kind version task_version phase status now db ≡ ok out
    → Alike db out
unfolding event
event-Alike id kind version task_version phase status now db out h =
    event_of-Alike db id kind version task_version phase status now (find_workflow id db.workflows)
      out h
