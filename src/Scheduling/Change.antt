-- ===== src/Scheduling/Change.antt =====
-- The rows that `apply` of task_scheduling.py inserts for a change set.
pub mod Edges
pub mod Raised
use foxhound.Prelude.{ℕ, String, Option, none, some, List, [], ◌∷◌, ◌++◌}
use foxhound.Schema.{Workflow}
use foxhound.Tables.{Db, Condition, ConditionKind, live}
use foxhound.Operation.{applied}
use foxhound.Condition.{condition_event}
use foxhound.Scheduling.{ApplyResult, next_id, change_event, card_event}
use foxhound.Scheduling.Rows.{
  SchedulingKind, not_before, raise_priority, Recommendation, ChangeSet, ChangeState,
  ChangeEventKind, Card, CardStatus, CardEventKind, SchedulingDb,
}
use foxhound.Scheduling.Prepare.{Prepared}

unfoldable pub change_ids : List ChangeSet → List ℕ
change_ids [] = []
change_ids (c ∷ cs) = c.id ∷ change_ids cs

unfoldable pub condition_ids : List Condition → List ℕ
condition_ids [] = []
condition_ids (c ∷ cs) = c.id ∷ condition_ids cs

unfoldable pub card_ids : List Card → List ℕ
card_ids [] = []
card_ids (c ∷ cs) = c.id ∷ card_ids cs

-- The kind of the new condition; a document of a kind that adds one has the field that it needs.
unfoldable pub condition_kind : SchedulingKind → Option ℕ → Option ℕ → Option ConditionKind
condition_kind raise_priority related start = none
condition_kind not_before related (some at) = some (ConditionKind.not_before at)
condition_kind not_before related none = none
condition_kind _ (some id) start = some (ConditionKind.after_task_completed id)
condition_kind _ none start = none

abbrev pub new_condition : ℕ → ℕ → ConditionKind → ℕ → Recommendation → Condition
new_condition id change_set_id kind now r = record {
  id = id;
  task_id = r.target_task_id;
  task_version = r.target_task_version;
  kind = kind;
  state = live;
  change_set_id = change_set_id;
  created_at = now;
  updated_at = now;
}

-- The INSERT of the condition and its event.
unfoldable pub add_condition_row : Option ConditionKind → ℕ → ℕ → Recommendation → Db → Db
unfolding condition_ids
add_condition_row none change_set_id now r db = db
add_condition_row (some kind) change_set_id now r db =
    let id = next_id (condition_ids db.conditions) in
    condition_event id r.target_task_id live now
      (record db { conditions = db.conditions ++ new_condition id change_set_id kind now r ∷ [] })

abbrev pub new_change : ℕ → String → Recommendation → Workflow → ℕ → Prepared → ChangeSet
new_change id digest r w now p = record {
  id = id;
  target_task_id = r.target_task_id;
  target_task_version = r.target_task_version;
  expected_workflow_version = r.expected_workflow_version;
  kind = r.kind;
  state = ChangeState.active;
  research_receipt_id = r.research_receipt_id;
  research_document_digest = r.research_document_digest;
  recommendation_digest = digest;
  recommendation = r;
  prior_priority = p.prior;
  prior_priority_source = w.queue_priority_source;
  resulting_workflow_version = p.version;
  created_task_id = p.created;
  created_at = now;
  updated_at = now;
}

abbrev pub new_card : ℕ → ℕ → ℕ → ℕ → Card
new_card id change_set_id task_id now = record {
  id = id;
  change_set_id = change_set_id;
  task_id = task_id;
  status = CardStatus.pending;
  version = 1;
  resolution = none;
  claim_token_digest = none;
  claim_expires_at = none;
  consumer_digest = none;
  transport = none;
  delivery_ref = none;
  delivered_at = none;
  created_at = now;
  updated_at = now;
  resolved_at = none;
}

-- The rows of a change set: itself, its condition, its event, and its card.
unfoldable pub recorded :
    String → Recommendation → Workflow → ℕ → Prepared → SchedulingDb → SchedulingDb
unfolding condition_kind add_condition_row change_ids card_ids
recorded digest r w now p s =
    let id = next_id (change_ids s.change_sets) in
    let card = new_card (next_id (card_ids s.cards)) id r.target_task_id now in
    let kind = condition_kind r.kind p.related r.not_before in
    card_event card CardEventKind.scheduled 1 none now (
      change_event id r.target_task_id ChangeEventKind.applied now (record s {
        db = add_condition_row kind id now r p.db;
        change_sets = s.change_sets ++ new_change id digest r w now p ∷ [];
        cards = s.cards ++ card ∷ [];
      }))

abbrev pub applied_result : Prepared → SchedulingDb → ApplyResult
applied_result p s = record {
  disposition = applied;
  refusal = none;
  change_set_id = some (next_id (change_ids s.change_sets));
  card_id = some (next_id (card_ids s.cards));
  created_task_id = p.created;
  resulting_workflow_version = some p.version;
}
