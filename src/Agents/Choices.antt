-- ===== src/Agents/Choices.antt =====
-- `select_agent` of task_execution.py as an evolution of the database.
use foxhound.Prelude.{
  ℕ, ◌+◌, ◌≡◌, refl, sym, subst, ◌∙◌, String, Bool, true, false, ◌&&◌, Option, none, some, arith,
  Attempt, ok, raise, ◌>>=◌, bind_ok, ◌==◌, Bool-cases, Option-cases, inl, inr,
}
use foxhound.Schema.{Workflow, WorkflowPhase, WorkflowStatus, plan, awaiting_start}
use foxhound.Store.{Joined, write, event, workflow_with_task}
use foxhound.Tables.{Db, agent_selected}
use foxhound.Operation.{
  OperationResult, Refusal, invalid_argument, not_found, agent_profile_unavailable, stale_workflow,
  unchanged, refuse, refuse_row, operation, apply_result, valid_identity, workflow_guard,
  task_guard, then_guard, transact, settle, is_accepted,
}
use foxhound.Profiles.{AgentProfile, resolve_current, allows}
use foxhound.Service.{Service}
use foxhound.Agents.{
  pinned, same_pin, opens_selection, selected, select_at, apply_agent_selection, select_resolved,
  select_agent,
}
use foxhound.Evolution.{Evolves, Evolves-same, Evolves-trans, Evolves-write, Evolves-event}

-- A call that returned the database that it was given.
pub kept :
    (db : Db) (x : OperationResult) (out : OperationResult × Db)
    → ok (x, db) ≡ ok out
    → Evolves db out.1
kept db x out h =
    let same : db ≡ out.1 = cc in subst (Evolves db) same (Evolves-same db db refl refl)

settle-Evolves :
    (db d : Db) (r : OperationResult) (b : Bool) (out : OperationResult × Db)
    → is_accepted r.disposition ≡ b
    → Evolves db d
    → ok (settle db (r, d)) ≡ ok out
    → Evolves db out.1
settle-Evolves db d r true out e v h =
    let same : d ≡ out.1 = ground arith in subst (Evolves db) same v
settle-Evolves db d r false out e v h =
    let same : db ≡ out.1 = ground arith in subst (Evolves db) same (Evolves-same db db refl refl)

-- A transaction keeps what its body changed, or rolls it back.
pub transact-Evolves :
    (db : Db) (m : Attempt (OperationResult × Db)) (out : OperationResult × Db)
    → ((x : OperationResult × Db) → m ≡ ok x → Evolves db x.1)
    → transact db m ≡ ok out
    → Evolves db out.1
transact-Evolves db (raise f) out body h = unfold transact in cc
transact-Evolves db (ok x) out body h =
    settle-Evolves db x.1 x.0 (is_accepted x.0.disposition) out refl (body x refl)
      (unfold transact in h)

selected-Evolves :
    (now id expected : ℕ) (w : Workflow) (p : AgentProfile) (phase : WorkflowPhase)
    (status : WorkflowStatus) (hit : Bool) (db : Db) (out : OperationResult × Db)
    → selected now id expected w p phase status (hit, db) ≡ ok out
    → Evolves db out.1
selected-Evolves now id expected w p phase status false db out h =
    kept db (refuse_row id w stale_workflow) out (unfold selected in h)
selected-Evolves now id expected w p phase status true db out h =
    let r = apply_result id (expected + 1) status plan none none p.profile_id p.revision in
    let (y, k, f) =
      bind_ok (event id agent_selected (expected + 1) w.task_version phase status now db)
        (λ (y : Db). ok (r, y)) {out = out} (unfold selected in h) in
    let same : y ≡ out.1 = cc in
    subst (Evolves db) same
      (Evolves-event id agent_selected (expected + 1) w.task_version phase status now db f)

select_at-Evolves :
    (now id expected : ℕ) (p : AgentProfile) (o : Option Joined) (db : Db)
    (out : OperationResult × Db)
    → select_at now id expected p o db ≡ ok out
    → Evolves db out.1
select_at-Evolves now id expected p none db out h =
    kept db (refuse id not_found) out (unfold select_at in h)
select_at-Evolves now id expected p (some j) db out h =
    elim (Option-cases
      (then_guard (workflow_guard j expected opens_selection) (task_guard j j.row.task_version))) [
        | inr (r, g) ↦ kept db (refuse_row id j.row r) out (sym (refused_lem r g) ∙ h)
        | inl g ↦ elim (Bool-cases (same_pin j.row p)) [
          | inl q ↦ kept db (operation j.row unchanged) out (sym (same_lem g q) ∙ h)
          | inr q ↦
              let test = λ (r : Workflow). r.version == expected && opens_selection r.status in
              let change = pinned p.profile_id p.revision (expected + 1) now in
              let (x, k, e) =
                bind_ok (write id test change db)
                  (selected now id expected j.row p plan awaiting_start) {out = out}
                  (sym (set_lem g q) ∙ h) in
              Evolves-trans db x.1 out.1
                (Evolves-write id test change db x.0 (λ r t. (refl, ground arith)) e)
                (selected-Evolves now id expected j.row p plan awaiting_start x.0 x.1 out k)
        ]
      ]
  where
    refused_lem :
        (r : Refusal)
        → then_guard (workflow_guard j expected opens_selection) (task_guard j j.row.task_version)
          ≡ some r
        → select_at now id expected p (some j) db ≡ ok (refuse_row id j.row r, db)
    refused_lem r g = unfold select_at in rw (g, select_at)

    same_lem :
        then_guard (workflow_guard j expected opens_selection) (task_guard j j.row.task_version)
          ≡ none
        → same_pin j.row p ≡ true
        → select_at now id expected p (some j) db ≡ ok (operation j.row unchanged, db)
    same_lem g q = unfold select_at in rw (g, select_at) (rw q)

    set_lem :
        then_guard (workflow_guard j expected opens_selection) (task_guard j j.row.task_version)
          ≡ none
        → same_pin j.row p ≡ false
        → select_at now id expected p (some j) db ≡ (
            write id
              (λ r. r.version == expected && opens_selection r.status)
              (pinned p.profile_id p.revision (expected + 1) now)
              db
            >>= selected now id expected j.row p plan awaiting_start)
    set_lem g q = unfold select_at in rw (g, select_at) (rw q)

apply_agent_selection-Evolves :
    (now id expected : ℕ) (p : AgentProfile) (db : Db) (out : OperationResult × Db)
    → apply_agent_selection now id expected p db ≡ ok out
    → Evolves db out.1
apply_agent_selection-Evolves now id expected p db out h =
    elim (Bool-cases (valid_identity id expected)) [
      | inr v ↦ kept db (refuse id invalid_argument) out (sym (unfold_lem v) ∙ h)
      | inl v ↦ elim (Bool-cases (allows p.allowed_phases plan)) [
        | inr a ↦ kept db (refuse id agent_profile_unavailable) out (sym (unavailable_lem v a) ∙ h)
        | inl a ↦
            select_at-Evolves now id expected p (workflow_with_task db id) db out
              (sym (select_lem v a) ∙ h)
      ]
    ]
  where
    unfold_lem :
        valid_identity id expected ≡ false
        → apply_agent_selection now id expected p db ≡ ok (refuse id invalid_argument, db)
    unfold_lem v = unfold apply_agent_selection in rw v

    unavailable_lem :
        valid_identity id expected ≡ true
        → allows p.allowed_phases plan ≡ false
        → apply_agent_selection now id expected p db ≡ ok (refuse id agent_profile_unavailable, db)
    unavailable_lem v a = unfold apply_agent_selection in rw v (rw a)

    select_lem :
        valid_identity id expected ≡ true
        → allows p.allowed_phases plan ≡ true
        → apply_agent_selection now id expected p db
          ≡ select_at now id expected p (workflow_with_task db id) db
    select_lem v a = unfold apply_agent_selection in rw v (rw a)

select_resolved-Evolves :
    (now id expected : ℕ) (c : Option AgentProfile) (db : Db) (out : OperationResult × Db)
    → select_resolved now id expected c db ≡ ok out
    → Evolves db out.1
select_resolved-Evolves now id expected none db out h =
    kept db (refuse id agent_profile_unavailable) out (unfold select_resolved in h)
select_resolved-Evolves now id expected (some p) db out h =
    elim (Bool-cases (allows p.allowed_phases plan)) [
      | inr a ↦ kept db (refuse id agent_profile_unavailable) out (sym (unavailable_lem a) ∙ h)
      | inl a ↦
          transact-Evolves db (apply_agent_selection now id expected p db) out
            (λ x. apply_agent_selection-Evolves now id expected p db x) (sym (select_lem a) ∙ h)
    ]
  where
    unavailable_lem :
        allows p.allowed_phases plan ≡ false
        → select_resolved now id expected (some p) db ≡ ok (refuse id agent_profile_unavailable, db)
    unavailable_lem a = unfold select_resolved in rw a

    select_lem :
        allows p.allowed_phases plan ≡ true
        → select_resolved now id expected (some p) db
          ≡ transact db (apply_agent_selection now id expected p db)
    select_lem a = unfold select_resolved in rw a

-- A reader's choice of agent.
pub select_agent-Evolves :
    (s : Service) (now id expected : ℕ) (profile revision : String) (db : Db)
    (out : OperationResult × Db)
    → select_agent s now id expected profile revision db ≡ ok out
    → Evolves db out.1
select_agent-Evolves s now id expected profile revision db out h =
    elim (Bool-cases (valid_identity id expected)) [
      | inr v ↦ kept db (refuse id invalid_argument) out (sym (invalid_lem v) ∙ h)
      | inl v ↦
          select_resolved-Evolves now id expected (resolve_current s.registry profile revision) db
            out (sym (select_lem v) ∙ h)
    ]
  where
    invalid_lem :
        valid_identity id expected ≡ false
        → select_agent s now id expected profile revision db ≡ ok (refuse id invalid_argument, db)
    invalid_lem v = unfold select_agent in rw v

    select_lem :
        valid_identity id expected ≡ true
        → select_agent s now id expected profile revision db
          ≡ select_resolved now id expected (resolve_current s.registry profile revision) db
    select_lem v = unfold select_agent in rw v
