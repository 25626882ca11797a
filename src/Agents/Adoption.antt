-- ===== src/Agents/Adoption.antt =====
-- `adopt_installed_revision` of task_execution.py as an evolution of the database.
use foxhound.Prelude.{
  ℕ, ◌+◌, ◌≡◌, refl, sym, subst, ◌∙◌, Bool, true, false, not, ◌&&◌, Option, none, some, arith, ok,
  ◌>>=◌, bind_ok, ◌==◌, str_eq, Bool-cases, Option-cases, inl, inr,
}
use foxhound.Schema.{Workflow, is_running}
use foxhound.Store.{Joined, write, event, workflow_with_task}
use foxhound.Tables.{Db, agent_selected}
use foxhound.Operation.{
  OperationResult, Refusal, invalid_argument, not_found, agent_profile_unavailable, stale_workflow,
  unchanged, refuse, refuse_row, operation, apply_result, valid_identity, workflow_guard,
  task_guard, then_guard, transact,
}
use foxhound.Profiles.{AgentProfile, get, allows}
use foxhound.Service.{Service}
use foxhound.Agents.{
  is_adoptable, adopted, adopt_written, adopt_installed, adopt_at, adopt_one,
  adopt_installed_revision,
}
use foxhound.Evolution.{Evolves, Evolves-trans, Evolves-write, Evolves-event}
use foxhound.Agents.Choices.{kept, transact-Evolves}

adopt_written-Evolves :
    (now id expected : ℕ) (w : Workflow) (p : AgentProfile) (hit : Bool) (db : Db)
    (out : OperationResult × Db)
    → adopt_written now id expected w p (hit, db) ≡ ok out
    → Evolves db out.1
adopt_written-Evolves now id expected w p false db out h =
    kept db (refuse_row id w stale_workflow) out (unfold adopt_written in h)
adopt_written-Evolves now id expected w p true db out h =
    let r = apply_result id (expected + 1) w.status w.phase none none p.profile_id p.revision in
    let (y, k, f) =
      bind_ok (event id agent_selected (expected + 1) w.task_version w.phase w.status now db)
        (λ (y : Db). ok (r, y)) {out = out} (unfold adopt_written in h) in
    let same : y ≡ out.1 = cc in
    subst (Evolves db) same
      (Evolves-event id agent_selected (expected + 1) w.task_version w.phase w.status now db f)

adopt_installed-Evolves :
    (now id expected : ℕ) (w : Workflow) (c : Option AgentProfile) (db : Db)
    (out : OperationResult × Db)
    → adopt_installed now id expected w c db ≡ ok out
    → Evolves db out.1
adopt_installed-Evolves now id expected w none db out h =
    kept db (refuse_row id w agent_profile_unavailable) out (unfold adopt_installed in h)
adopt_installed-Evolves now id expected w (some p) db out h =
    elim (Bool-cases (allows p.allowed_phases w.phase)) [
      | inr a ↦
          kept db (refuse_row id w agent_profile_unavailable) out (sym (unavailable_lem a) ∙ h)
      | inl a ↦ elim (Bool-cases (str_eq w.agent_profile_revision p.revision)) [
        | inl q ↦ kept db (operation w unchanged) out (sym (same_lem a q) ∙ h)
        | inr q ↦
            let test = λ (r : Workflow). r.version == expected && not (is_running r.status) in
            let change = adopted p.revision (expected + 1) now in
            let (x, k, e) =
              bind_ok (write id test change db) (adopt_written now id expected w p) {out = out}
                (sym (adopt_lem a q) ∙ h) in
            Evolves-trans db x.1 out.1
              (Evolves-write id test change db x.0 (λ r t. (refl, ground arith)) e)
              (adopt_written-Evolves now id expected w p x.0 x.1 out k)
      ]
    ]
  where
    unavailable_lem :
        allows p.allowed_phases w.phase ≡ false
        → adopt_installed now id expected w (some p) db
          ≡ ok (refuse_row id w agent_profile_unavailable, db)
    unavailable_lem a = unfold adopt_installed in rw a

    same_lem :
        allows p.allowed_phases w.phase ≡ true
        → str_eq w.agent_profile_revision p.revision ≡ true
        → adopt_installed now id expected w (some p) db ≡ ok (operation w unchanged, db)
    same_lem a q = unfold adopt_installed in rw a (rw q)

    adopt_lem :
        allows p.allowed_phases w.phase ≡ true
        → str_eq w.agent_profile_revision p.revision ≡ false
        → adopt_installed now id expected w (some p) db ≡ (
            write id
              (λ r. r.version == expected && not (is_running r.status))
              (adopted p.revision (expected + 1) now)
              db
            >>= adopt_written now id expected w p)
    adopt_lem a q = unfold adopt_installed in rw a (rw q)

adopt_at-Evolves :
    (s : Service) (now id expected : ℕ) (o : Option Joined) (db : Db) (out : OperationResult × Db)
    → adopt_at s now id expected o db ≡ ok out
    → Evolves db out.1
adopt_at-Evolves s now id expected none db out h =
    kept db (refuse id not_found) out (unfold adopt_at in h)
adopt_at-Evolves s now id expected (some j) db out h =
    elim (Option-cases
      (then_guard (workflow_guard j expected is_adoptable) (task_guard j j.row.task_version))) [
        | inr (r, g) ↦ kept db (refuse_row id j.row r) out (sym (refused_lem r g) ∙ h)
        | inl g ↦
            adopt_installed-Evolves now id expected j.row (get s.registry j.row.agent_profile_id) db
              out (sym (adopt_lem g) ∙ h)
      ]
  where
    refused_lem :
        (r : Refusal)
        → then_guard (workflow_guard j expected is_adoptable) (task_guard j j.row.task_version)
          ≡ some r
        → adopt_at s now id expected (some j) db ≡ ok (refuse_row id j.row r, db)
    refused_lem r g = unfold adopt_at in rw (g, adopt_at)

    adopt_lem :
        then_guard (workflow_guard j expected is_adoptable) (task_guard j j.row.task_version) ≡ none
        → adopt_at s now id expected (some j) db
          ≡ adopt_installed now id expected j.row (get s.registry j.row.agent_profile_id) db
    adopt_lem g = unfold adopt_at in rw (g, adopt_at)

-- A workflow rebound to the installed revision of its own profile.
pub adopt_installed_revision-Evolves :
    (s : Service) (now id expected : ℕ) (db : Db) (out : OperationResult × Db)
    → adopt_installed_revision s now id expected db ≡ ok out
    → Evolves db out.1
adopt_installed_revision-Evolves s now id expected db out h =
    elim (Bool-cases (valid_identity id expected)) [
      | inr v ↦ kept db (refuse id invalid_argument) out (sym (invalid_lem v) ∙ h)
      | inl v ↦
          transact-Evolves db (adopt_one s now id expected db) out
            (λ x e.
              adopt_at-Evolves s now id expected (workflow_with_task db id) db x
                (unfold adopt_one in e))
            (sym (adopt_lem v) ∙ h)
    ]
  where
    invalid_lem :
        valid_identity id expected ≡ false
        → adopt_installed_revision s now id expected db ≡ ok (refuse id invalid_argument, db)
    invalid_lem v = unfold adopt_installed_revision in rw v

    adopt_lem :
        valid_identity id expected ≡ true
        → adopt_installed_revision s now id expected db
          ≡ transact db (adopt_one s now id expected db)
    adopt_lem v = unfold adopt_installed_revision in rw v
