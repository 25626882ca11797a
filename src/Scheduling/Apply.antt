-- ===== src/Scheduling/Apply.antt =====
-- `apply` of `TaskSchedulingService` in task_scheduling.py: a recommendation becomes a change set.
pub mod Cases
pub mod Limits
pub mod Waits
use foxhound.Prelude.{
  ℕ, ◌+◌, String, Bool, true, false, ◌&&◌, Option, none, some, List, [], ◌∷◌, ltb, leb, ◌==◌,
  str_eq, if◌then◌else◌, Attempt, ok, raise, integrity_error, ◌>>=◌,
}
use foxhound.Schema.{Workflow}
use foxhound.Store.{find_task, find_workflow}
use foxhound.Operation.{unchanged}
use foxhound.Scheduling.{
  SchedulingService, SchedulingRefusal, invalid_recommendation, not_found, ApplyResult,
  refuse_apply,
}
use foxhound.Scheduling.Rows.{
  SchedulingKind, not_before, Recommendation, ChangeSet, Card, SchedulingDb,
}
use foxhound.Scheduling.Document.{recommendation_document, json_length}
use foxhound.Scheduling.Target.{limit_refusal, target_refusal, not_before_window}
use foxhound.Scheduling.Prepare.{Preparation, blocked, ready, prepare}
use foxhound.Scheduling.Change.{applied_result, recorded}

-- CHECK(length(recommendation_json) <= 16384).
abbrev pub max_json_length : ℕ
max_json_length = 16384

record_change :
    String
    → Recommendation
    → Workflow
    → ℕ
    → SchedulingDb
    → Preparation
    → Attempt (ApplyResult × SchedulingDb)
unfolding recorded json_length
record_change digest r w now s (blocked x) = ok (refuse_apply x, s)
record_change digest r w now s (ready p) =
    if leb (json_length r) max_json_length
    then ok (applied_result p s, recorded digest r w now p s)
    else raise integrity_error

-- The change, once its target was found and its limits hold.
apply_to :
    String
    → Recommendation
    → ℕ
    → SchedulingDb
    → Workflow
    → Option SchedulingRefusal
    → Attempt (ApplyResult × SchedulingDb)
unfolding prepare record_change
apply_to digest r now s w (some x) = ok (refuse_apply x, s)
apply_to digest r now s w none = prepare r w now s.db >>= record_change digest r w now s

apply_found :
    String
    → Recommendation
    → ℕ
    → SchedulingDb
    → Option Workflow
    → Option SchedulingRefusal
    → Attempt (ApplyResult × SchedulingDb)
unfolding limit_refusal apply_to
apply_found digest r now s none refusal = ok (refuse_apply not_found, s)
apply_found digest r now s (some w) (some x) = ok (refuse_apply x, s)
apply_found digest r now s (some w) none = apply_to digest r now s w (limit_refusal s.db r)

-- `SELECT ... WHERE research_receipt_id=? AND recommendation_digest=? ORDER BY id LIMIT 1`.
unfoldable pub existing_change : String → String → List ChangeSet → Option ChangeSet
existing_change receipt digest [] = none
existing_change receipt digest (c ∷ cs) =
    if str_eq c.research_receipt_id receipt && str_eq c.recommendation_digest digest
    then some c
    else existing_change receipt digest cs

card_of_change : ℕ → List Card → Option ℕ
card_of_change id [] = none
card_of_change id (c ∷ cs) = if c.change_set_id == id then some c.id else card_of_change id cs

abbrev unchanged_result : ChangeSet → Option ℕ → ApplyResult
unchanged_result c card = record {
  disposition = unchanged;
  refusal = none;
  change_set_id = some c.id;
  card_id = card;
  created_task_id = none;
  resulting_workflow_version = some c.resulting_workflow_version;
}

apply_once :
    String
    → Recommendation
    → ℕ
    → SchedulingDb
    → Option ChangeSet
    → Attempt (ApplyResult × SchedulingDb)
unfolding card_of_change apply_found target_refusal
apply_once digest r now s (some c) = ok (unchanged_result c (card_of_change c.id s.cards), s)
apply_once digest r now s none =
    let w = find_workflow r.target_task_id s.db.workflows in
    apply_found digest r now s w (target_refusal (find_task r.target_task_id s.db.tasks) w r)

validated : Option (SchedulingDb → Recommendation → Bool) → SchedulingDb → Recommendation → Bool
validated none s r = false
validated (some validator) s r = validator s r

-- A start that is asked for lies ahead, and within the window.
start_ahead : ℕ → SchedulingKind → Option ℕ → Bool
start_ahead now not_before (some at) = ltb now at && leb at (now + not_before_window)
start_ahead now not_before none = false
start_ahead now _ start = true

apply_document :
    SchedulingService
    → ℕ
    → Recommendation
    → Recommendation
    → SchedulingDb
    → Attempt (ApplyResult × SchedulingDb)
unfolding start_ahead validated existing_change apply_once
apply_document service now given document s =
    if start_ahead now given.kind given.not_before && validated service.provenance_validator s given
    then (let digest = service.recommendation_digest document in
        apply_once digest document now s
          (existing_change document.research_receipt_id digest s.change_sets))
    else ok (refuse_apply invalid_recommendation, s)

apply_checked :
    SchedulingService
    → ℕ
    → Recommendation
    → SchedulingDb
    → Option Recommendation
    → Attempt (ApplyResult × SchedulingDb)
unfolding apply_document
apply_checked service now given s none = ok (refuse_apply invalid_recommendation, s)
apply_checked service now given s (some document) = apply_document service now given document s

-- `apply`; a refusal is rolled back, and leaves the database as it was.
unfoldable pub apply :
    SchedulingService → ℕ → Recommendation → SchedulingDb → Attempt (ApplyResult × SchedulingDb)
unfolding recommendation_document apply_checked
apply service now given s = apply_checked service now given s (recommendation_document given)
