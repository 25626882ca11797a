-- ===== src/Scheduling/Apply/Waits.antt =====
-- A recommendation to wait for another task, applied by `apply` of task_scheduling.py.
use foxhound.Prelude.{
  ℕ, ◌≡◌, refl, ap, ◌∙◌, String, Bool, true, none, some, List, [], ◌∷◌, ◌++◌, ok, leb, arith,
}
use mathlib.Core.List.{Memᴰ}
use foxhound.Schema.{Workflow}
use foxhound.Store.{find_task, find_workflow}
use foxhound.Tables.{Db, Condition, ConditionKind}
use foxhound.Operation.{applied}
use foxhound.Scheduling.{SchedulingService, ApplyResult, next_id}
use foxhound.Scheduling.Rows.{SchedulingKind, Recommendation, SchedulingDb}
use foxhound.Scheduling.Document.{recommendation_document, json_length}
use foxhound.Scheduling.Target.{target_refusal, limit_refusal}
use foxhound.Scheduling.Prepare.{Prepared, ready, at_version, prepare}
use foxhound.Scheduling.Change.{
  applied_result, recorded, condition_ids, new_condition, add_condition_row, condition_kind,
  change_ids,
}
use foxhound.Scheduling.Graph.{dependency_refusal}
use foxhound.Scheduling.Graph.Edges.{Waits}
use foxhound.Scheduling.Graph.Refusals.{Allowed, dependency_refusal-Allowed}
use foxhound.Scheduling.Apply.{
  max_json_length, record_change, apply_to, apply_found, apply_once, existing_change, validated,
  start_ahead, apply_document, apply_checked, apply,
}

document-related :
    (given d : Recommendation)
    → recommendation_document given ≡ some d
    → (d.kind ≡ given.kind) × (d.related_task_id ≡ given.related_task_id)
unfolding recommendation_document
document-related given d h = (ground (arith, h), ground (arith, h))

Memᴰ-last : (cs : List Condition) (c : Condition) → Memᴰ c (cs ++ c ∷ [])
Memᴰ-last [] c = Memᴰ.head refl
Memᴰ-last (x ∷ cs) c = Memᴰ.tail (Memᴰ-last cs c)

prepare-waits :
    (r : Recommendation) (w : Workflow) (now : ℕ) (db : Db)
    → r.kind ≡ SchedulingKind.after_task_completed
    → dependency_refusal db r.target_task_id r.related_task_id ≡ none
    → prepare r w now db ≡ ok (ready (at_version r r.related_task_id none db))
unfolding prepare
prepare-waits r w now db kind edge = rw (kind, edge) refl

recorded-Waits :
    (digest : String) (r : Recommendation) (w : Workflow) (now dependency : ℕ) (p : Prepared)
    (s : SchedulingDb)
    → r.kind ≡ SchedulingKind.after_task_completed
    → p.related ≡ some dependency
    → Waits (recorded digest r w now p s).db.conditions r.target_task_id dependency
unfolding recorded add_condition_row condition_kind
recorded-Waits digest r w now dependency p s kind related =
    let c =
      new_condition (next_id (condition_ids p.db.conditions)) (next_id (change_ids s.change_sets))
        (ConditionKind.after_task_completed dependency) now r in
    let made : condition_kind r.kind p.related r.not_before
        ≡ some (ConditionKind.after_task_completed dependency) =
      rw (kind, related) refl in
    rw made (c, Memᴰ-last p.db.conditions c, (refl, refl, refl))

module _ (service : SchedulingService) (now : ℕ) (given document : Recommendation)
    (s : SchedulingDb) (w : Workflow) (dependency : ℕ)
    (validator : SchedulingDb → Recommendation → Bool)
    (kind : given.kind ≡ SchedulingKind.after_task_completed)
    (related : given.related_task_id ≡ some dependency)
    (checked : recommendation_document given ≡ some document)
    (fits : leb (json_length document) max_json_length ≡ true)
    (proved : service.provenance_validator ≡ some validator) (valid : validator s given ≡ true)
    (fresh : existing_change document.research_receipt_id
        (service.recommendation_digest document)
        s.change_sets
      ≡ none)
    (found : find_workflow document.target_task_id s.db.workflows ≡ some w)
    (target : target_refusal (find_task document.target_task_id s.db.tasks) (some w) document
      ≡ none)
    (limits : limit_refusal s.db document ≡ none)
    (allowed : Allowed s.db document.target_task_id dependency) where
  -- What `apply` writes when no guard stops it.
  applied_call :
      let p = at_version document document.related_task_id none s.db in
      apply service now given s
      ≡ ok
          (applied_result p s, recorded (service.recommendation_digest document) document w now p s)
  unfolding apply apply_checked apply_document apply_once apply_found apply_to record_change
      start_ahead validated
  applied_call =
      let (same, other) = document-related given document checked in
      let edge = (dependency_refusal-Allowed s.db document.target_task_id dependency).1 allowed in
      let free = ap (dependency_refusal s.db document.target_task_id) (other ∙ related) ∙ edge in
      let prepared = prepare-waits document w now s.db (same ∙ kind) free in
      let ahead : start_ahead now given.kind given.not_before ≡ true = rw kind refl in
      let proven : validated service.provenance_validator s given ≡ true = rw proved valid in
      rw checked
        (rw (ahead, proven) (rw (fresh, found) (rw target (rw (limits, prepared) (rw fits refl)))))

  -- A recommendation that a task waits for another is applied, and the one task waits for the other
  -- from then on, if the recommendation is valid and its JSON text fits the table, its provenance
  -- holds, it was not applied before, its target is as it says and within the limits, and the graph of
  -- waiting tasks allows the edge.
  pub apply-Waits :
      (out : ApplyResult × SchedulingDb) × (apply service now given s ≡ ok out)
      × (out.0.disposition ≡ applied)
      × Waits out.1.db.conditions document.target_task_id dependency
  apply-Waits =
      let (same, other) = document-related given document checked in
      let p = at_version document document.related_task_id none s.db in
      let digest = service.recommendation_digest document in
      (
        (applied_result p s, recorded digest document w now p s),
        applied_call,
        refl,
        recorded-Waits digest document w now dependency p s (same ∙ kind) (other ∙ related),
      )
