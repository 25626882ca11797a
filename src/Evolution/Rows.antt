-- ===== src/Evolution/Rows.antt =====
-- `record_result` and `schedule` of task_execution.py as evolutions of the database.
use foxhound.Prelude.{
  ℕ, ◌+◌, ◌≤◌, ◌≡◌, refl, sym, subst, Bool, Option, none, some, List, [], ◌∷◌, ◌++◌, arith, ok,
  raise, integrity_error, Fault, Bool-cases, inl, inr,
}
use foxhound.Schema.{Workflow, WorkflowStatus, WorkflowPhase, queued}
use foxhound.Store.{origin_kind, find_workflow, replace_workflow}
use foxhound.Tables.{Task, Db, Event, result_recorded, phase_granted}
use foxhound.Store.Rows.{Checked, Valid, event_row, find_workflow-key, find_workflow-Checked}
use foxhound.Operation.{OperationResult, refuse, invalid_argument, valid_identity}
use foxhound.Service.{Service}
use foxhound.Outcome.{record_result}
use foxhound.Outcome.Answers.{ValidResult}
use foxhound.Outcome.Recorded.{recorded_row, inserted_db, recorded_db, recorded-Checked}
use foxhound.Outcome.Total.{advance_of}
use foxhound.Outcome.Branches.{record_result_total}
use foxhound.Profiles.{AgentProfile}
use foxhound.Schedule.{Ownership, kind_in, initial_status, initial_phase, scheduled_row, schedule}
use foxhound.Schedule.Total.{schedule_total}
use foxhound.Schedule.Planned.{
  planned_row, planned_db, put_rows, initial_status-cases, scheduled_row-Checked, scheduled_row-key,
}
use foxhound.Evolution.{
  Evolves-noted, Evolves-inserted, Evolves, Evolves-same, Evolves-trans, Evolves-replaced,
  append_assoc,
}
use foxhound.Evolution.Calls.{result-Evolves, refused-Evolves}

recorded_db-Evolves :
    (v : ValidResult) (advance : Option WorkflowPhase) (now : ℕ) (db : Db) (w : Workflow)
    → Checked w
    → find_workflow v.task_id db.workflows ≡ some w
    → w.version ≡ v.workflow_version
    → Evolves db (recorded_db v advance now db w)
unfolding recorded_db
recorded_db-Evolves v none now db w c f version =
    let d = inserted_db v w now db in
    Evolves-trans db d _ (Evolves-same db d refl refl) (
      Evolves-replaced d v.task_id (recorded_row v none now w) _ f
        (find_workflow-key v.task_id db.workflows f) (omega arith)
        (recorded-Checked v none now w c))
recorded_db-Evolves v (some next) now db w c f version =
    let d = inserted_db v w now db in
    let row = recorded_row v (some next) now w in
    let e =
      event_row v.task_id result_recorded (v.workflow_version + 1) v.task_version v.phase queued now
        w in
    let g =
      event_row v.task_id phase_granted (v.workflow_version + 1) v.task_version next queued now w in
    let mid = record d {
      workflows = replace_workflow v.task_id row d.workflows;
      events = d.events ++ e ∷ g ∷ [];
    } in
    Evolves-trans db d _ (Evolves-same db d refl refl) (
      Evolves-trans d mid _
        (Evolves-replaced d v.task_id row (e ∷ g ∷ []) f
          (find_workflow-key v.task_id db.workflows f) (omega arith)
          (recorded-Checked v (some next) now w c))
        (Evolves-same mid _ refl (append_assoc d.events (e ∷ []) (g ∷ []))))

pub record_result-Evolves :
    (s : Service) (now : ℕ) (v : ValidResult) (db : Db) {out : OperationResult} {after : Db}
    → Valid db
    → record_result s now v db ≡ ok (out, after)
    → Evolves db after
record_result-Evolves s now v db {out} {after} valid h =
    elim (record_result_total s now v db valid) [
      | inl r ↦ refused-Evolves (record_result s now v db) db {out = out} r h
      | inr (inl (c, x, _, _, _, e, _)) ↦
          result-Evolves db (recorded_db v (advance_of s v db) now db c.row) x {out = out} e
            (recorded_db-Evolves v (advance_of s v db) now db c.row
              (find_workflow-Checked v.task_id db.workflows valid.rows c.found) c.found
              c.held.version)
            h
      | inr (inr (inl (c, _, _, _, e))) ↦ absurd (raised e)
      | inr (inr (inr (inl (c, _, e)))) ↦ result-Evolves db _ _ {out = out} e (Evolves-noted db _) h
      | inr (inr (inr (inr (_, x, _, _, _, e, _)))) ↦
          result-Evolves db db x {out = out} e (Evolves-same db db refl refl) h
    ]
  where
    raised : record_result s now v db ≡ raise integrity_error → ⊥
    raised e = cc

put_rows-Evolves :
    (db : Db) (id : ℕ) (v : Workflow) (row : Option Workflow) (es : List Event)
    → find_workflow id db.workflows ≡ row
    → v.task_id ≡ id
    → ((w : Workflow) → row ≡ some w → w.version ≤ v.version)
    → Checked v
    → Evolves db
        (record db { workflows = put_rows id v row db.workflows; events = db.events ++ es })
unfolding put_rows
put_rows-Evolves db id v none es f k l c =
    Evolves-inserted db v es (subst (λ i. find_workflow i db.workflows ≡ none) (sym k) f) c
put_rows-Evolves db id v (some w) es f k l c = Evolves-replaced db id v es f k (l w refl) c

scheduled_row-rises :
    (row : Option Workflow) (id v : ℕ) (status : WorkflowStatus) (phase : WorkflowPhase) (now : ℕ)
    (p : AgentProfile) (steers : Bool) (w : Workflow)
    → row ≡ some w
    → w.version ≤ (scheduled_row row id v status phase now p steers).version
scheduled_row-rises none id v status phase now p steers w e = cc
scheduled_row-rises (some u) id v status phase now p steers w e = ground arith

planned-Evolves :
    (s : Service) (o : Ownership) (now id expected : ℕ) (db : Db) {out : OperationResult}
    {after : Db}
    → 1 ≤ expected
    → schedule s o now id expected db ≡ ok (out, after)
    → Evolves db after
planned-Evolves s o now id expected db {out} {after} l h =
    elim (schedule_total s o now id expected db) [
      | inl r ↦ refused-Evolves (schedule s o now id expected db) db {out = out} r h
      | inr (inl (w, _, _, e)) ↦
          result-Evolves db db _ {out = out} e (Evolves-same db db refl refl) h
      | inr (inr (inl (x, _, e))) ↦ absurd (raised x e)
      | inr (inr (inr (t, p, _, version, _, _, _, _, e))) ↦
          result-Evolves db _ _ {out = out} e (planned t p version) h
    ]
  where
    raised : (x : Fault) → schedule s o now id expected db ≡ raise x → ⊥
    raised x e = cc

    planned :
        (t : Task) (p : AgentProfile)
        → t.version ≡ expected
        → Evolves db (planned_db s o db id now t (find_workflow id db.workflows) p)
    planned t p version =
        let row = find_workflow id db.workflows in
        let origin = origin_kind db id in
        let status = initial_status s o origin t in
        let phase = initial_phase s origin in
        let steers = kind_in origin s.steer_while_running in
        unfold planned_db planned_row in
        put_rows-Evolves db id (scheduled_row row id t.version status phase now p steers) row _ refl
          (scheduled_row-key row id t.version status phase now p steers db.workflows refl)
          (scheduled_row-rises row id t.version status phase now p steers)
          (scheduled_row-Checked row id t.version status phase now p steers (omega arith)
            (initial_status-cases s o origin t))

pub schedule-Evolves :
    (s : Service) (o : Ownership) (now id expected : ℕ) (db : Db) {out : OperationResult}
    {after : Db}
    → schedule s o now id expected db ≡ ok (out, after)
    → Evolves db after
schedule-Evolves s o now id expected db {out} {after} h =
    elim (Bool-cases (valid_identity id expected)) [
      | inl p ↦ planned-Evolves s o now id expected db {out = out} (ground arith) h
      | inr p ↦
          refused-Evolves (schedule s o now id expected db) db {out = out}
            (refuse id invalid_argument, unfold schedule in rw p, refl) h
    ]
