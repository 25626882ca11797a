-- ===== src/Schedule/Effects.antt =====
-- What `schedule` of task_execution.py leaves behind: the row, in the status and the phase that the
-- operator's grants give, and its event.
use foxhound.Prelude.{
  ℕ, ◌+◌, ◌≡◌, ◌≢◌, refl, sym, subst, ap, ◌∙◌, Bool, true, false, not, Option, none, some, List, [],
  ◌∷◌, ◌++◌, arith, ok, ◌⊎◌, inl, inr,
}
use foxhound.Schema.{Workflow, WorkflowStatus, WorkflowPhase, normal, open_task}
use foxhound.Store.{find_task, find_workflow, replace_workflow, origin_kind, source_withdrawn}
use foxhound.Tables.{Db, Task, scheduled}
use foxhound.Store.Rows.{event_row}
use foxhound.Operation.{Refuses, operation, applied, unchanged}
use foxhound.Profiles.{AgentProfile}
use foxhound.Service.{Service}
use foxhound.Schedule.{
  Ownership, kind_in, initial_status, initial_phase, insert_workflow, scheduled_row, profile_for,
  keeps_row, schedule,
}
use foxhound.Schedule.Planned.{planned_row, planned_db, put_rows, find-put_rows, scheduled_row-key}
use foxhound.Schedule.Total.{Unrouted, done_with, schedule_total}
use foxhound.Schedule.Given.{
  Kept, PhaseGiven, StatusGiven, initial_phase-given, initial_status-given, keeps_row-Kept,
}

-- The row that is made, or that stands in place of the one that was done with: at the next version, for
-- this version of the task, with no claim, failure, park or result, and in the queue place it had.
abbrev pub made_row :
    Option Workflow → ℕ → ℕ → WorkflowStatus → WorkflowPhase → ℕ → AgentProfile → Bool → Workflow
made_row none id v status phase now p steers = record {
  task_id = id;
  task_version = v;
  status = status;
  phase = phase;
  version = 1;
  due_at = none;
  claim_token_digest = none;
  claimed_at = none;
  claim_heartbeat_at = none;
  claim_expires_at = none;
  failure_count = 0;
  last_failure_reason = none;
  last_failure_at = none;
  next_attempt_at = none;
  parked_at = none;
  last_result_id = none;
  created_at = now;
  updated_at = now;
  completed_at = none;
  agent_profile_id = p.profile_id;
  agent_profile_revision = p.revision;
  queue_priority = normal;
  last_failure_exit_code = none;
  last_failure_run_id = none;
  steer_while_running = steers;
  current_run_id = none;
  queue_priority_source = none;
}
made_row (some w) id v status phase now p steers = record w {
  task_version = v;
  status = status;
  phase = phase;
  version = w.version + 1;
  due_at = none;
  claim_token_digest = none;
  claimed_at = none;
  claim_heartbeat_at = none;
  claim_expires_at = none;
  failure_count = 0;
  last_failure_reason = none;
  last_failure_at = none;
  next_attempt_at = none;
  parked_at = none;
  last_result_id = none;
  updated_at = now;
  completed_at = none;
  agent_profile_id = p.profile_id;
  agent_profile_revision = p.revision;
  last_failure_exit_code = none;
  last_failure_run_id = none;
  steer_while_running = steers;
  current_run_id = none;
}

-- The database after the workflow of `t` was made or begun again under the profile `p`.
pub record Planned (s : Service) (o : Ownership) (before after : Db) (id now : ℕ) (t : Task)
    (p : AgentProfile) : Type 0 where
  pub row : Workflow
  pub status : StatusGiven s o (origin_kind before id) t row.status
  pub phase : PhaseGiven s (origin_kind before id) row.phase
  pub made :
      row
      ≡ made_row
          (find_workflow id before.workflows)
          id
          t.version
          row.status
          row.phase
          now
          p
          (kind_in (origin_kind before id) s.steer_while_running)
  pub found : find_workflow id after.workflows ≡ some row
  pub others :
      (other : ℕ)
      → other ≢ id
      → find_workflow other after.workflows ≡ find_workflow other before.workflows
  pub event :
      after.events
      ≡ before.events
        ++ event_row id scheduled row.version t.version row.phase row.status now row ∷ []
  pub rest : after ≡ record before { workflows = after.workflows; events = after.events }

find-insert_other :
    (other : ℕ) (v : Workflow) (ws : List Workflow)
    → v.task_id ≢ other
    → find_workflow other (insert_workflow v ws) ≡ find_workflow other ws
unfolding find_workflow insert_workflow
find-insert_other other v [] k = ground (arith, k)
find-insert_other other v (w ∷ ws) k = ground (arith, k, find-insert_other other v ws)

find-replace_other :
    (id other : ℕ) (v : Workflow) (ws : List Workflow)
    → v.task_id ≡ id
    → id ≢ other
    → find_workflow other (replace_workflow id v ws) ≡ find_workflow other ws
unfolding find_workflow replace_workflow
find-replace_other id other v [] e k = refl
find-replace_other id other v (w ∷ ws) e k = ground (arith, e, k, find-replace_other id other v ws)

put_rows-others :
    (id other : ℕ) (v : Workflow) (row : Option Workflow) (ws : List Workflow)
    → v.task_id ≡ id
    → id ≢ other
    → find_workflow other (put_rows id v row ws) ≡ find_workflow other ws
unfolding put_rows
put_rows-others id other v none ws e k = find-insert_other other v ws (λ z. k (sym e ∙ z))
put_rows-others id other v (some w) ws e k = find-replace_other id other v ws e k

scheduled_row-made :
    (row : Option Workflow) (id v : ℕ) (status : WorkflowStatus) (phase : WorkflowPhase) (now : ℕ)
    (p : AgentProfile) (steers : Bool)
    → scheduled_row row id v status phase now p steers ≡ made_row row id v status phase now p steers
scheduled_row-made none id v status phase now p steers = refl
scheduled_row-made (some w) id v status phase now p steers = refl

scheduled_row-fields :
    (row : Option Workflow) (id v : ℕ) (status : WorkflowStatus) (phase : WorkflowPhase) (now : ℕ)
    (p : AgentProfile) (steers : Bool)
    → let w = scheduled_row row id v status phase now p steers in
      (w.status ≡ status) × (w.phase ≡ phase)
scheduled_row-fields none id v status phase now p steers = (refl, refl)
scheduled_row-fields (some w) id v status phase now p steers = (refl, refl)

planned_db-Planned :
    (s : Service) (o : Ownership) (db : Db) (id now : ℕ) (t : Task) (p : AgentProfile)
    → let row = find_workflow id db.workflows in
      (q : Planned s o db (planned_db s o db id now t row p) id now t p) × (q.row
        ≡ planned_row s o db id now t row p)
unfolding planned_row planned_db
planned_db-Planned s o db id now t p =
    let found = find_workflow id db.workflows in
    let origin = origin_kind db id in
    let status = initial_status s o origin t in
    let phase = initial_phase s origin in
    let steers = kind_in origin s.steer_while_running in
    let row = scheduled_row found id t.version status phase now p steers in
    let key = scheduled_row-key found id t.version status phase now p steers db.workflows refl in
    let fields = scheduled_row-fields found id t.version status phase now p steers in
    (
      record {
        row = row;
        status =
            subst (StatusGiven s o origin t) (sym fields.0) (initial_status-given s o origin t);
        phase = subst (PhaseGiven s origin) (sym fields.1) (initial_phase-given s origin);
        made =
            rw (fields.0, fields.1)
              (scheduled_row-made found id t.version status phase now p steers);
        found = find-put_rows id row found db.workflows key refl;
        others = λ other k. put_rows-others id other row found db.workflows key (λ z. k (sym z));
        event = rw (fields.0, fields.1) refl;
        rest = refl;
      },
      refl,
    )

done_with-not :
    (now version : ℕ) (row : Option Workflow) (w : Workflow)
    → done_with now version row ≡ true
    → row ≡ some w
    → Kept version w
    → ⊥
done_with-not now version row w d e k =
    let h = (keeps_row-Kept now version w).1 k in
    let g : not (keeps_row now version w) ≡ true =
      subst (λ z. done_with now version z ≡ true) e d in
    ground (arith, h, g)

-- `schedule` does one of four things. It refuses and changes nothing; or it leaves a workflow for the
-- expected version of the task that is not completed, cancelled or parked as it is; or it raises, where the
-- operator routes the task's source kind to a profile that is not installed; or, for a task that is open at
-- the expected version with no withdrawn source and no such workflow, it makes the workflow, or begins it
-- again at its next version with no claim, failure, park, due time, run or result left. The row is then in
-- the status and phase that the operator's grants give that source kind and the task's owner, the
-- other workflows stay, one event records the schedule, and nothing else in the database changes.
pub schedule_effects :
    (s : Service) (o : Ownership) (now id expected : ℕ) (db : Db)
    → let m = schedule s o now id expected db in
      Refuses m db
      ⊎ ((w : Workflow) × (find_workflow id db.workflows ≡ some w)
          × Kept expected w
          × (m ≡ ok (operation w unchanged, db)))
      ⊎ Unrouted s m db id
      ⊎ ((t : Task) × (p : AgentProfile) × (after : Db) × (q : Planned s o db after id now t p)
          × (find_task id db.tasks ≡ some t)
          × (t.version ≡ expected)
          × (t.status ≡ open_task)
          × (source_withdrawn db id ≡ false)
          × (profile_for s (origin_kind db id) ≡ ok p)
          × ((w : Workflow) → find_workflow id db.workflows ≡ some w → Kept expected w → ⊥)
          × (m ≡ ok (operation q.row applied, after)))
schedule_effects s o now id expected db = elim (schedule_total s o now id expected db) [
  | inl r ↦ inl r
  | inr (inl (w, f, k, m)) ↦ inr (inl (w, f, (keeps_row-Kept now expected w).0 k, m))
  | inr (inr (inl u)) ↦ inr (inr (inl u))
  | inr (inr (inr (t, p, f, v, op, r, x, d0, m))) ↦
      let q = planned_db-Planned s o db id now t p in
      inr (
        inr (
          inr (
            t,
            p,
            planned_db s o db id now t (find_workflow id db.workflows) p,
            q.0,
            f,
            v,
            op,
            r,
            x,
            λ w g k. done_with-not now expected (find_workflow id db.workflows) w d0 g k,
            m
                ∙ ap
                    (λ z. ok (
                      operation z applied,
                      planned_db s o db id now t (find_workflow id db.workflows) p,
                    ))
                    (sym q.1),
          )))
]
