-- ===== src/Scheduling/Undo/Restored.antt =====
-- The undo of a raised priority in task_scheduling.py: nothing stands against it, and the row is as it
-- was but for its version.
use foxhound.Prelude.{
  ℕ, ◌+◌, ◌≤◌, ◌≡◌, refl, subst, ◌∙◌, Bool, true, false, ◌&&◌, Option, none, some, List, [], ◌∷◌,
  ◌++◌, ok, bind_ok, Bool-cases, inl, inr, arith, ◌==◌, if◌then◌else◌,
}
use foxhound.Schema.{Workflow, WorkflowPriority, PrioritySource, checks}
use foxhound.Store.{find_task, find_workflow, replace_workflow, write}
use foxhound.Tables.{Db, Task, Condition, priority_cleared, canceled}
use foxhound.Store.Frame.{Alike, Alike-trans, write-Alike}
use foxhound.Store.Rows.{Checked, event_row, write-applies, find_workflow-key, find-replace_self}
use foxhound.Operation.{is_open}
use foxhound.Condition.{condition_event}
use foxhound.Scheduling.Rows.{ChangeSet}
use foxhound.Scheduling.Prerequisite.{execution_priority_event}
use foxhound.Scheduling.Prerequisite.Frame.{
  execution_priority_event-found, execution_priority_event-Alike,
}
use foxhound.Scheduling.Target.{is_settled}
use foxhound.Scheduling.Undo.{
  is_active, raises, by_automation, target_moved, created_moved, undo_conflicts, is_canceled,
  cancel_conditions, cancel_events, cancel_change_conditions, restored_row, restore_priority,
  undo_priority,
}

-- The task and its workflow are as a change without a created task left them.
pub record Unmoved (db : Db) (id : ℕ) (k : ChangeSet) (t : Task) (w : Workflow) : Type 0 where
  pub task : find_task id db.tasks ≡ some t
  pub row : find_workflow id db.workflows ≡ some w
  pub active : is_active k.state ≡ true
  pub task_open : is_open t.status ≡ true
  pub task_version : (t.version == k.target_task_version) ≡ true
  pub version : (w.version == k.resulting_workflow_version) ≡ true
  pub unsettled : is_settled w.status ≡ false
  pub automated : by_automation w.queue_priority w.queue_priority_source ≡ true
  pub created : k.created_task_id ≡ none

pub Unmoved-clear :
    (db : Db) (id : ℕ) (k : ChangeSet) (t : Task) (w : Workflow)
    → Unmoved db id k t w
    → undo_conflicts db id k ≡ false
unfolding undo_conflicts target_moved created_moved
Unmoved-clear db id k t w u =
    rw (u.task, u.row)
      (rw (u.active, u.task_open, u.task_version, u.version, u.unsettled, u.automated, u.created)
        (ground arith))

cancel_events-workflows :
    (id now : ℕ) (cs : List Condition) (db : Db)
    → (cancel_events id now cs db).workflows ≡ db.workflows
unfolding cancel_events
cancel_events-workflows id now [] db = refl
cancel_events-workflows id now (c ∷ cs) db =
    cancel_events-workflows id now cs _ ∙ one (c.change_set_id == id && is_canceled c.state)
  where
    one :
        (b : Bool)
        → (if b then condition_event c.id c.task_id canceled now db else db).workflows
          ≡ db.workflows
    one true = refl
    one false = refl

pub cancel_change_conditions-workflows :
    (id now : ℕ) (db : Db) → (cancel_change_conditions id now db).workflows ≡ db.workflows
unfolding cancel_change_conditions
cancel_change_conditions-workflows id now db =
    cancel_events-workflows id now (cancel_conditions id now db.conditions) _

restored_row-Checked :
    (priority : WorkflowPriority) (source : Option PrioritySource) (version now : ℕ) (w : Workflow)
    → 1 ≤ version
    → Checked w
    → Checked (restored_row priority source version now w)
unfolding checks
restored_row-Checked priority source version now w h c = ground (arith, h, c)

-- The undo puts back the priority and its source, at the next version.
pub undo_priority-row :
    (id : ℕ) (k : ChangeSet) (now : ℕ) (db : Db) (priority : WorkflowPriority) (w : Workflow)
    → raises k.kind ≡ true
    → k.prior_priority ≡ some priority
    → find_workflow id db.workflows ≡ some w
    → w.version ≡ k.resulting_workflow_version
    → Checked w
    → (d : Db) × (undo_priority id k now db ≡ ok d)
      × (find_workflow id d.workflows
          ≡ some (
              restored_row priority k.prior_priority_source
                (k.resulting_workflow_version + 1)
                now
                w))
unfolding undo_priority restore_priority
undo_priority-row id k now db priority w kind prior f v c =
    let next = k.resulting_workflow_version + 1 in
    let change = restored_row priority k.prior_priority_source next now in
    let checked =
      restored_row-Checked priority k.prior_priority_source next now w (omega arith) c in
    let wrote =
      write-applies id (λ x. x.version == k.resulting_workflow_version) change db {w = w} f
        (ground (arith, v)) checked in
    let d = record db { workflows = replace_workflow id (change w) db.workflows } in
    let found =
      find-replace_self id (change w) db.workflows {w = w}
        (find_workflow-key id db.workflows {w = w} f) f in
    let noted = execution_priority_event-found id next priority_cleared now d (change w) found in
    (
      record d {
        events =
            d.events
            ++ event_row id priority_cleared next w.task_version w.phase w.status now (change w)
              ∷ [];
      },
      rw (kind, prior) (rw wrote noted),
      found,
    )

restore_priority-Alike :
    (id : ℕ) (k : ChangeSet) (now : ℕ) (db : Db) (o : Option WorkflowPriority) (d : Db)
    → restore_priority id k now db o ≡ ok d
    → Alike db d
unfolding restore_priority
restore_priority-Alike id k now db none d h = cc
restore_priority-Alike id k now db (some priority) d h =
    let next = k.resulting_workflow_version + 1 in
    let change = restored_row priority k.prior_priority_source next now in
    let test : Workflow → Bool = λ w. w.version == k.resulting_workflow_version in
    let (x, rest, e) =
      bind_ok (write id test change db)
        (λ (x : Bool × Db). execution_priority_event id next priority_cleared now x.1) {out = d}
        h in
    Alike-trans db x.1 d (write-Alike id test change db x e)
      (execution_priority_event-Alike id next priority_cleared now x.1 d rest)

pub undo_priority-Alike :
    (id : ℕ) (k : ChangeSet) (now : ℕ) (db d : Db) → undo_priority id k now db ≡ ok d → Alike db d
unfolding undo_priority
undo_priority-Alike id k now db d h = elim (Bool-cases (raises k.kind)) [
  | inl e ↦ restore_priority-Alike id k now db k.prior_priority d (rw e at h)
  | inr e ↦
      (let z : ok db ≡ ok d = (rw e at h) in let same : db ≡ d = cc in subst (Alike db) same refl)
]

cancel_events-conditions :
    (id now : ℕ) (cs : List Condition) (db : Db)
    → (cancel_events id now cs db).conditions ≡ db.conditions
unfolding cancel_events
cancel_events-conditions id now [] db = refl
cancel_events-conditions id now (c ∷ cs) db =
    cancel_events-conditions id now cs _ ∙ one (c.change_set_id == id && is_canceled c.state)
  where
    one :
        (b : Bool)
        → (if b then condition_event c.id c.task_id canceled now db else db).conditions
          ≡ db.conditions
    one true = refl
    one false = refl

pub cancel_change_conditions-conditions :
    (id now : ℕ) (db : Db)
    → (cancel_change_conditions id now db).conditions ≡ cancel_conditions id now db.conditions
unfolding cancel_change_conditions
cancel_change_conditions-conditions id now db =
    cancel_events-conditions id now (cancel_conditions id now db.conditions) _
