-- ===== src/Queue/Priority.antt =====
-- `set_priority` of task_execution.py as an evolution of the database.
use foxhound.Prelude.{
  ℕ, ◌+◌, ◌≡◌, refl, sym, subst, ◌∙◌, String, Bool, true, false, ◌&&◌, Option, none, some, arith,
  ok, ◌>>=◌, bind_ok, Bool-cases, Option-cases, inl, inr, is_none,
}
use foxhound.Schema.{Workflow, queued}
use foxhound.Store.{Joined, write, event, workflow_with_task}
use foxhound.Tables.{Db}
use foxhound.Operation.{
  OperationResult, Refusal, invalid_argument, invalid_action, not_found, stale_workflow, unchanged,
  refuse, refuse_row, operation, apply_result, valid_identity,
}
use foxhound.Sweep.{cancel_stale}
use foxhound.Queue.{
  PriorityAction, priority_choice, priority_of, priority_event, same_priority, preferred,
  priority_guard, ready_at, with_priority, refuse_found, priority_written, priority_at,
  priority_chosen, set_priority,
}
use foxhound.Evolution.{Evolves, Evolves-same, Evolves-trans, Evolves-write, Evolves-event}
use foxhound.Evolution.Claims.{cancel_stale-Evolves}

-- The call returned this database.
returned :
    (before db : Db) (x : OperationResult) (out : OperationResult × Db)
    → Evolves before db
    → ok (x, db) ≡ ok out
    → Evolves before out.1
returned before db x out b h = let same : db ≡ out.1 = cc in subst (Evolves before) same b

priority_written-Evolves :
    (now id expected : ℕ) (action : PriorityAction) (w : Workflow) (before : Db) (hit : Bool)
    (db : Db) {out : OperationResult × Db}
    → Evolves before db
    → priority_written now id expected action w before (hit, db) ≡ ok out
    → Evolves before out.1
priority_written-Evolves now id expected action w before false db {out} b h =
    returned before before (refuse_found id (workflow_with_task before id) stale_workflow) out
      (Evolves-same before before refl refl) (unfold priority_written in h)
priority_written-Evolves now id expected action w before true db {out} b h =
    let r =
      with_priority
        (apply_result id (expected + 1) queued w.phase none none w.agent_profile_id
          w.agent_profile_revision)
        (priority_of action) in
    let (y, k, f) =
      bind_ok (event id (priority_event action) (expected + 1) w.task_version w.phase queued now db)
        (λ (y : Db). ok (r, y)) {out = out} (unfold priority_written in h) in
    returned before y r out
      (Evolves-trans before db y b (
        Evolves-event id (priority_event action) (expected + 1) w.task_version w.phase queued now db
          f))
      k

priority_at-Evolves :
    (now id expected : ℕ) (action : PriorityAction) (o : Option Joined) (before db : Db)
    {out : OperationResult × Db}
    → Evolves before db
    → priority_at now id expected action o before db ≡ ok out
    → Evolves before out.1
priority_at-Evolves now id expected action none before db {out} b h =
    returned before before (refuse id not_found) out (Evolves-same before before refl refl)
      (unfold priority_at in h)
priority_at-Evolves now id expected action (some j) before db {out} b h =
    elim (Option-cases (priority_guard j expected now)) [
      | inr (r, p) ↦
          returned before before (refuse_row id j.row r) out (Evolves-same before before refl refl)
            (sym (refused_lem r p) ∙ h)
      | inl p ↦
          elim (Bool-cases (
            same_priority j.row.queue_priority (priority_of action)
            && is_none j.row.queue_priority_source)) [
              | inl q ↦
                  returned before before (operation j.row unchanged) out
                    (Evolves-same before before refl refl) (sym (same_lem p q) ∙ h)
              | inr q ↦
                  let change = preferred action (expected + 1) now in
                  let (x, g, e) =
                    bind_ok (write id (ready_at expected now) change db)
                      (priority_written now id expected action j.row before) {out = out}
                      (sym (set_lem p q) ∙ h) in
                  priority_written-Evolves now id expected action j.row before x.0 x.1 {out = out}
                    (Evolves-trans before db x.1 b (
                      Evolves-write id (ready_at expected now) change db x.0
                        (λ r t. (refl, ground arith)) e))
                    g
            ]
    ]
  where
    refused_lem :
        (r : Refusal)
        → priority_guard j expected now ≡ some r
        → priority_at now id expected action (some j) before db ≡ ok (refuse_row id j.row r, before)
    refused_lem r p = unfold priority_at in rw (p, priority_at)

    same_lem :
        priority_guard j expected now ≡ none
        → (same_priority j.row.queue_priority (priority_of action)
            && is_none j.row.queue_priority_source)
          ≡ true
        → priority_at now id expected action (some j) before db
          ≡ ok (operation j.row unchanged, before)
    same_lem p q = unfold priority_at in rw (p, priority_at) (rw q)

    set_lem :
        priority_guard j expected now ≡ none
        → (same_priority j.row.queue_priority (priority_of action)
            && is_none j.row.queue_priority_source)
          ≡ false
        → priority_at now id expected action (some j) before db ≡ (
            write id (ready_at expected now) (preferred action (expected + 1) now) db
            >>= priority_written now id expected action j.row before)
    set_lem p q = unfold priority_at in rw (p, priority_at) (rw q)

priority_chosen-Evolves :
    (now id expected : ℕ) (c : Option PriorityAction) (db : Db) {out : OperationResult × Db}
    → priority_chosen now id expected c db ≡ ok out
    → Evolves db out.1
priority_chosen-Evolves now id expected none db {out} h =
    returned db db (refuse id invalid_action) out (Evolves-same db db refl refl)
      (unfold priority_chosen in h)
priority_chosen-Evolves now id expected (some action) db {out} h =
    let (x, g, e) =
      bind_ok (cancel_stale now db)
        (λ (x : Db). priority_at now id expected action (workflow_with_task x id) db x) {out = out}
        (unfold priority_chosen in h) in
    priority_at-Evolves now id expected action (workflow_with_task x id) db x {out = out}
      (cancel_stale-Evolves now db e) g

-- A reader's raise, lowering or clearing.
pub set_priority-Evolves :
    (now id expected : ℕ) (action : String) (db : Db) {out : OperationResult × Db}
    → set_priority now id expected action db ≡ ok out
    → Evolves db out.1
set_priority-Evolves now id expected action db {out} h =
    elim (Bool-cases (valid_identity id expected)) [
      | inl p ↦
          priority_chosen-Evolves now id expected (priority_choice action) db {out = out}
            (sym (chosen p) ∙ h)
      | inr p ↦
          returned db db (refuse id invalid_argument) out (Evolves-same db db refl refl)
            (sym (refused_lem p) ∙ h)
    ]
  where
    chosen :
        valid_identity id expected ≡ true
        → set_priority now id expected action db
          ≡ priority_chosen now id expected (priority_choice action) db
    chosen p = unfold set_priority in rw p

    refused_lem :
        valid_identity id expected ≡ false
        → set_priority now id expected action db ≡ ok (refuse id invalid_argument, db)
    refused_lem p = unfold set_priority in rw p
