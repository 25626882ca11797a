-- ===== src/Scheduling.antt =====
-- The results of TaskSchedulingService in task_scheduling.py, and the queries and event rows that its
-- operations share.
pub mod Rows
pub mod Graph
pub mod Callback
pub mod Document
pub mod Prerequisite
pub mod Target
pub mod Prepare
pub mod Change
pub mod Apply
pub mod Undo
pub mod Withdraw
pub mod Act
pub mod CardRow
pub mod Delivery
pub mod Report
pub mod Steps
use foxhound.Prelude.{
  ℕ, suc, ◌+◌, String, Bool, true, false, Option, none, some, List, [], ◌∷◌, ◌++◌, leb, ◌==◌,
  if◌then◌else◌,
}
use foxhound.Schema.{WorkflowPriority, PrioritySource}
use foxhound.Tables.{Db}
use foxhound.Operation.{Disposition, refused}
use foxhound.Scheduling.Callback.{CardAction}
use foxhound.Scheduling.Rows.{
  Card, CardEventKind, ChangeEventKind, ChangeSet, Recommendation, SchedulingDb,
}

pub data SchedulingRefusal : Type 0 where
  invalid_argument invalid_recommendation not_found stale_task stale_workflow invalid_state
        limit_exceeded cycle depth_exceeded manual_priority stale_card undo_conflict
        claim_mismatch :
      SchedulingRefusal

-- `provenance_validator`, and the SHA-256 digests of a document's JSON text and of a token.
pub record SchedulingService : Type 0 where
  pub provenance_validator : Option (SchedulingDb → Recommendation → Bool)
  pub recommendation_digest : Recommendation → String
  pub token_digest : String → String

-- `SchedulingApplyResult`.
pub record ApplyResult : Type 0 where
  pub disposition : Disposition
  pub refusal : Option SchedulingRefusal
  pub change_set_id : Option ℕ
  pub card_id : Option ℕ
  pub created_task_id : Option ℕ
  pub resulting_workflow_version : Option ℕ

-- `SchedulingCardActionResult`.
pub record CardActionResult : Type 0 where
  pub disposition : Disposition
  pub refusal : Option SchedulingRefusal
  pub card_id : Option ℕ
  pub card_version : Option ℕ

-- `_refused`.
abbrev pub refuse_apply : SchedulingRefusal → ApplyResult
refuse_apply r = record {
  disposition = refused;
  refusal = some r;
  change_set_id = none;
  card_id = none;
  created_task_id = none;
  resulting_workflow_version = none;
}

-- `_card_refused`.
abbrev pub refuse_card : ℕ → SchedulingRefusal → CardActionResult
refuse_card card_id r = record {
  disposition = refused;
  refusal = some r;
  card_id = if leb 1 card_id then some card_id else none;
  card_version = none;
}

abbrev pub card_result : Disposition → ℕ → ℕ → CardActionResult
card_result d card_id version = record {
  disposition = d;
  refusal = none;
  card_id = some card_id;
  card_version = some version;
}

-- The id that an INSERT into a table of these ids gives its row.
unfoldable pub next_id : List ℕ → ℕ
next_id [] = 1
next_id (id ∷ ids) = let rest = next_id ids in if leb rest id then suc id else rest

unfoldable pub find_change_set : ℕ → List ChangeSet → Option ChangeSet
find_change_set id [] = none
find_change_set id (c ∷ cs) = if c.id == id then some c else find_change_set id cs

unfoldable pub replace_change_set : ℕ → ChangeSet → List ChangeSet → List ChangeSet
replace_change_set id v [] = []
replace_change_set id v (c ∷ cs) = if c.id == id then v ∷ cs else c ∷ replace_change_set id v cs

unfoldable pub find_card : ℕ → List Card → Option Card
find_card id [] = none
find_card id (c ∷ cs) = if c.id == id then some c else find_card id cs

unfoldable pub replace_card : ℕ → Card → List Card → List Card
replace_card id v [] = []
replace_card id v (c ∷ cs) = if c.id == id then v ∷ cs else c ∷ replace_card id v cs

-- `_card_event`.
abbrev pub card_event :
    Card → CardEventKind → ℕ → Option CardAction → ℕ → SchedulingDb → SchedulingDb
card_event c kind version action now s = record s {
  card_events =
      s.card_events
      ++ record {
        card_id = c.id;
        change_set_id = c.change_set_id;
        task_id = c.task_id;
        kind = kind;
        card_version = version;
        action = action;
        occurred_at = now;
      }
        ∷ [];
}

abbrev pub change_event : ℕ → ℕ → ChangeEventKind → ℕ → SchedulingDb → SchedulingDb
change_event id task_id kind now s = record s {
  change_events =
      s.change_events
      ++ record { change_set_id = id; task_id = task_id; kind = kind; occurred_at = now } ∷ [];
}
