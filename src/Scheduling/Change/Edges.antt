-- ===== src/Scheduling/Change/Edges.antt =====
-- What the preparation of a change of task_scheduling.py leaves of the conditions, and what it has
-- checked of the edge that the change adds.
use foxhound.Prelude.{
  ℕ, ◌+◌, ◌≡◌, refl, sym, ap, subst, ◌∙◌, Bool, true, false, Option, none, some, ok, bind_ok,
  Bool-cases, inl, inr,
}
use foxhound.Schema.{Workflow, normal}
use foxhound.Store.{write}
use foxhound.Tables.{Db, priority_raised, ConditionKind}
use foxhound.Store.Frame.{Alike, Alike-trans, write-Alike}
use foxhound.Scheduling.{SchedulingRefusal, invalid_state, manual_priority, next_id}
use foxhound.Scheduling.Rows.{
  SchedulingKind, after_task_completed, not_before, raise_priority, create_prerequisite,
  Recommendation,
}
use foxhound.Scheduling.Prerequisite.{task_ids, execution_priority_event}
use foxhound.Scheduling.Prerequisite.Frame.{execution_priority_event-Alike}
use foxhound.Scheduling.Graph.{dependency_refusal}
use foxhound.Scheduling.Prepare.{
  Prepared, Preparation, blocked, ready, unless_refused, may_raise, raised_row, chosen_priority,
  raise_written, raise_target, at_version, prepare_prerequisite, prepare,
}
use foxhound.Scheduling.Change.{condition_kind}

-- The change is ready on the conditions as they were, and the edge that it adds was let through.
pub record Ready (r : Recommendation) (db : Db) (p : Prepared) : Type 0 where
  pub kept : p.db.conditions ≡ db.conditions
  pub edge :
      (id : ℕ)
      → condition_kind r.kind p.related r.not_before ≡ some (ConditionKind.after_task_completed id)
      → dependency_refusal p.db r.target_task_id (some id) ≡ none

pub ready_inj : {p q : Prepared} → ready p ≡ ready q → p ≡ q
ready_inj h = cc

pub ok_inj : {p q : Preparation} → ok p ≡ ok q → p ≡ q
ok_inj h = cc

-- A change whose edge is checked.
unless_refused-ready :
    (o : Option SchedulingRefusal) (q p : Prepared)
    → unless_refused o q ≡ ready p
    → (o ≡ none) × (q ≡ p)
unless_refused-ready none q p h = (refl, ready_inj h)
unless_refused-ready (some x) q p h = cc

raise_written-Alike :
    (id version now : ℕ) (hit : Bool) (db : Db) (p : Prepared)
    → raise_written id version now (hit, db) ≡ ok (ready p)
    → Alike db p.db
unfolding raise_written
raise_written-Alike id version now false db p h =
    (let e : blocked invalid_state ≡ ready p = ok_inj h in cc)
raise_written-Alike id version now true db p h =
    let given : Db → Prepared = λ d. record {
      related = none;
      created = none;
      prior = some normal;
      version = version;
      db = d;
    } in
    let (d, k, e) =
      bind_ok (execution_priority_event id version priority_raised now db)
        (λ d. ok (ready (given d))) {out = ready p} h in
    let same : given d ≡ p = ready_inj (ok_inj k) in
    subst (λ (q : Prepared). Alike db q.db) same
      (execution_priority_event-Alike id version priority_raised now db d e)

pub raise_target-Alike :
    (r : Recommendation) (w : Workflow) (now : ℕ) (db : Db) (p : Prepared)
    → raise_target r w now db ≡ ok (ready p)
    → Alike db p.db
unfolding raise_target
raise_target-Alike r w now db p h =
    elim (Bool-cases (chosen_priority w.queue_priority w.queue_priority_source)) [
      | inl e ↦ (let z : blocked manual_priority ≡ ready p = ok_inj (rw e at h) in cc)
      | inr e ↦
          let id = r.target_task_id in
          let expected = r.expected_workflow_version in
          let ((hit, d), k, f) =
            bind_ok (write id (may_raise expected now) (raised_row (expected + 1) now) db)
              (raise_written id (expected + 1) now) {out = ready p} (rw e at h) in
          Alike-trans db d p.db
            (write-Alike id (may_raise expected now) (raised_row (expected + 1) now) db (hit, d) f)
            (raise_written-Alike id (expected + 1) now hit d p k)
    ]

-- An edge comes from the related task.
condition_kind-related :
    (kind : SchedulingKind) (related start : Option ℕ) (id : ℕ)
    → condition_kind kind related start ≡ some (ConditionKind.after_task_completed id)
    → related ≡ some id
unfolding condition_kind
condition_kind-related after_task_completed (some x) start id h = cc
condition_kind-related after_task_completed none start id h = cc
condition_kind-related create_prerequisite (some x) start id h = cc
condition_kind-related create_prerequisite none start id h = cc
condition_kind-related raise_priority related start id h = cc
condition_kind-related not_before related (some at) id h = cc
condition_kind-related not_before related none id h = cc

no_edge_raise :
    (related start : Option ℕ) (id : ℕ)
    → condition_kind raise_priority related start ≡ some (ConditionKind.after_task_completed id)
    → ⊥
unfolding condition_kind
no_edge_raise related start id h = cc

no_edge_start :
    (related start : Option ℕ) (id : ℕ)
    → condition_kind not_before related start ≡ some (ConditionKind.after_task_completed id)
    → ⊥
unfolding condition_kind
no_edge_start related (some at) id h = cc
no_edge_start related none id h = cc

-- A change ready on a database with the same conditions, whose edge was let through.
checked_Ready :
    (r : Recommendation) (db d : Db) (related created : Option ℕ) (p : Prepared)
    → d.conditions ≡ db.conditions
    → unless_refused
        (dependency_refusal d r.target_task_id related)
        (at_version r related created d)
      ≡ ready p
    → Ready r db p
checked_Ready r db d related created p kept h =
    let (let_through, same) =
      unless_refused-ready (dependency_refusal d r.target_task_id related)
        (at_version r related created d) p h in
    subst (Ready r db) same (record {
      kept = kept;
      edge = λ id c.
          sym (
            ap (dependency_refusal d r.target_task_id)
              (condition_kind-related r.kind related r.not_before id c))
          ∙ let_through;
    })

pub prepare-Ready :
    (r : Recommendation) (w : Workflow) (now : ℕ) (db : Db) (p : Prepared)
    → prepare r w now db ≡ ok (ready p)
    → Ready r db p
unfolding prepare prepare_prerequisite foxhound.Scheduling.Prerequisite.create_prerequisite
prepare-Ready r w now db p h = by_kind r.kind refl
  where
    by_kind : (kind : SchedulingKind) → r.kind ≡ kind → Ready r db p
    by_kind after_task_completed e =
        checked_Ready r db db r.related_task_id none p refl (ok_inj (rw e at h))
    by_kind create_prerequisite e =
        let id = next_id (task_ids db.tasks) in
        checked_Ready r db _ (some id) (some id) p refl (ok_inj (rw e at h))
    by_kind raise_priority e = record {
      kept = ap (λ (d : Db). d.conditions) (raise_target-Alike r w now db p (rw e at h));
      edge = λ id c. absurd (
          no_edge_raise p.related r.not_before id
            (ap (λ k. condition_kind k p.related r.not_before) (sym e) ∙ c));
    }
    by_kind not_before e =
        let same : at_version r r.related_task_id none db ≡ p = ready_inj (ok_inj (rw e at h)) in
        subst (Ready r db) same (record {
          kept = refl;
          edge = λ id c. absurd (
              no_edge_start r.related_task_id r.not_before id
                (ap (λ k. condition_kind k r.related_task_id r.not_before) (sym e) ∙ c));
        })
