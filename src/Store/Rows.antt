-- ===== src/Store/Rows.antt =====
-- How `find_workflow` reads a table that `write` has changed, and what `write` returns.
use foxhound.Prelude.{
  ℕ, ◌≡◌, ◌≢◌, refl, sym, subst, Bool, true, some, List, [], ◌∷◌, ◌++◌, arith, All, ok, none,
  Option-cases, inl, inr,
}
use foxhound.Schema.{Workflow, WorkflowPhase, WorkflowStatus, checks}
use foxhound.Store.{
  Joined, find_workflow, replace_workflow, write, event, workflow_with_task, origin_kind,
}
use foxhound.Tables.{Db, Event, EventKind}

-- A row that passes its CHECK constraints.
abbrev pub Checked : Workflow → Type 0
Checked w = checks w ≡ true

-- The stored rows all pass their CHECKs.
pub record Valid (db : Db) : Type 0 where
  pub rows : All Checked db.workflows

pub find_workflow-key :
    (id : ℕ) (ws : List Workflow) {w : Workflow} → find_workflow id ws ≡ some w → w.task_id ≡ id
unfolding find_workflow
find_workflow-key id [] h = cc
find_workflow-key id (v ∷ vs) {w} h = ground (arith, find_workflow-key id vs {w = w})

pub find_workflow-Checked :
    (id : ℕ) (ws : List Workflow) {w : Workflow}
    → All Checked ws
    → find_workflow id ws ≡ some w
    → Checked w
unfolding find_workflow
find_workflow-Checked id [] v h = cc
find_workflow-Checked id (u ∷ us) {w} v h = ground (arith, find_workflow-Checked id us {w = w})

pub All-replace_workflow :
    (id : ℕ) (v : Workflow) (ws : List Workflow)
    → All Checked ws
    → Checked v
    → All Checked (replace_workflow id v ws)
unfolding replace_workflow
All-replace_workflow id v [] h c = tt
All-replace_workflow id v (w ∷ ws) h c = ground (arith, All-replace_workflow id v ws)

-- The table read after a replacement, at the key that it found and at every other.
pub find-replace_self :
    (id : ℕ) (v : Workflow) (ws : List Workflow) {w : Workflow}
    → v.task_id ≡ id
    → find_workflow id ws ≡ some w
    → find_workflow id (replace_workflow id v ws) ≡ some v
unfolding find_workflow replace_workflow
find-replace_self id v [] k h = cc
find-replace_self id v (u ∷ us) {w} k h = ground (arith, find-replace_self id v us {w = w})

pub find-replace_ne :
    (id j : ℕ) (v : Workflow) (ws : List Workflow)
    → v.task_id ≡ id
    → id ≢ j
    → find_workflow j (replace_workflow id v ws) ≡ find_workflow j ws
unfolding find_workflow replace_workflow
find-replace_ne id j v [] k n = refl
find-replace_ne id j v (u ∷ us) k n = ground (arith, find-replace_ne id j v us)

-- An UPDATE whose WHERE holds of the row it names, and whose new row passes the CHECKs.
pub write-applies :
    (id : ℕ) (test : Workflow → Bool) (change : Workflow → Workflow) (db : Db) {w : Workflow}
    → find_workflow id db.workflows ≡ some w
    → test w ≡ true
    → Checked (change w)
    → write id test change db
      ≡ ok (true, record db { workflows = replace_workflow id (change w) db.workflows })
unfolding write
write-applies id test change db f t c = ground arith

-- The event that `event` appends once the row `v` stands in the table.
abbrev pub event_row : ℕ → EventKind → ℕ → ℕ → WorkflowPhase → WorkflowStatus → ℕ → Workflow → Event
event_row id kind version task_version phase status now v = record {
  task_id = id;
  kind = kind;
  workflow_version = version;
  task_version = task_version;
  phase = phase;
  status = status;
  occurred_at = now;
  agent_profile_id = v.agent_profile_id;
  agent_profile_revision = v.agent_profile_revision;
}

-- A database with one workflow row replaced and one event appended.
abbrev pub moved : Db → ℕ → Workflow → Event → Db
moved db id v e = record db {
  workflows = replace_workflow id v db.workflows;
  events = db.events ++ e ∷ [];
}

-- `event` after a write that replaced the row of the same task.
pub event-replaced :
    (id : ℕ) (kind : EventKind) (version task_version : ℕ) (phase : WorkflowPhase)
    (status : WorkflowStatus) (now : ℕ) (db : Db) (v : Workflow) {w : Workflow}
    → v.task_id ≡ id
    → find_workflow id db.workflows ≡ some w
    → event id kind version task_version phase status now
        (record db { workflows = replace_workflow id v db.workflows })
      ≡ ok (moved db id v (event_row id kind version task_version phase status now v))
unfolding event
event-replaced id kind version task_version phase status now db v k f =
    rw (find-replace_self id v db.workflows k f)

-- The row that `_workflow_with_task` joins is the row of the table.
pub workflow_with_task-row :
    (db : Db) (id : ℕ) {j : Joined}
    → workflow_with_task db id ≡ some j
    → find_workflow id db.workflows ≡ some j.row
unfolding workflow_with_task
workflow_with_task-row db id h = ground arith

-- The join after a write of the same task's row: the row is new, the task is as it was.
pub workflow_with_task-replaced :
    (db : Db) (id : ℕ) (v : Workflow) {j : Joined}
    → v.task_id ≡ id
    → workflow_with_task db id ≡ some j
    → workflow_with_task (record db { workflows = replace_workflow id v db.workflows }) id
      ≡ some (record j { row = v })
unfolding workflow_with_task origin_kind
workflow_with_task-replaced db id v {j} k h =
    let f = workflow_with_task-row db id h in
    ground (
      arith,
      find-replace_self id v db.workflows {w = j.row} k f,
      find_workflow-key id db.workflows {w = j.row} f,
    )

-- A row that was found is found again by its own key.
pub find_workflow-own :
    (id : ℕ) (ws : List Workflow) {w : Workflow}
    → find_workflow id ws ≡ some w
    → find_workflow w.task_id ws ≡ some w
find_workflow-own id ws {w} f =
    subst (λ i. find_workflow i ws ≡ some w) (sym (find_workflow-key id ws f)) f

-- `event` on a table that holds the row.
pub event-found :
    (id : ℕ) (kind : EventKind) (version task_version : ℕ) (phase : WorkflowPhase)
    (status : WorkflowStatus) (now : ℕ) (db : Db) (w : Workflow)
    → find_workflow id db.workflows ≡ some w
    → event id kind version task_version phase status now db
      ≡ ok (record db {
        events = db.events ++ event_row id kind version task_version phase status now w ∷ [];
      })
unfolding event
event-found id kind version task_version phase status now db w f = rw f

-- What a write that matched a row says of it.
pub write-true :
    (id : ℕ) (test : Workflow → Bool) (change : Workflow → Workflow) (db : Db) {after : Db}
    → write id test change db ≡ ok (true, after)
    → (w : Workflow) × (find_workflow id db.workflows ≡ some w)
      × (test w ≡ true)
      × Checked (change w)
      × (after ≡ record db { workflows = replace_workflow id (change w) db.workflows })
write-true id test change db {after} h = elim (Option-cases (find_workflow id db.workflows)) [
  | inl n ↦ absurd (none_found n)
  | inr (w, f) ↦ let m = matched w f in (w, f, m.0, m.1, m.2)
]
  where
    none_found : find_workflow id db.workflows ≡ none → ⊥
    none_found n = unfold write in ground arith

    matched :
        (w : Workflow)
        → find_workflow id db.workflows ≡ some w
        → (test w ≡ true)
          × Checked (change w)
          × (after ≡ record db { workflows = replace_workflow id (change w) db.workflows })
    matched w f = unfold write in ground arith
