-- ===== src/Scheduling/Rows.antt =====
-- A scheduling recommendation (task_scheduling.py), and the tables of change sets, of their cards and of
-- the events of both, with the cards of executions that a cancellation reaches (candidate_inbox.py).
use foxhound.Prelude.{ℕ, String, Option, List}
use foxhound.Schema.{WorkflowPriority, PrioritySource}
use foxhound.Tables.{Db}
use foxhound.Scheduling.Callback.{CardAction}

pub data SchedulingKind : Type 0 where
  after_task_completed not_before raise_priority create_prerequisite : SchedulingKind

-- `ValidatedSchedulingRecommendation`; `not_before` is the instant that the text names.
pub record Recommendation : Type 0 where
  pub kind : SchedulingKind
  pub target_task_id : ℕ
  pub target_task_version : ℕ
  pub expected_workflow_version : ℕ
  pub rationale : String
  pub source_refs : List String
  pub research_receipt_id : String
  pub research_document_digest : String
  pub related_task_id : Option ℕ
  pub not_before : Option ℕ
  pub prerequisite_text : Option String

pub data ChangeState : Type 0 where
  active undone superseded undo_conflict : ChangeState

-- A row of `task_scheduling_change_sets`; the document stands for its JSON text.
pub record ChangeSet : Type 0 where
  pub id : ℕ
  pub target_task_id : ℕ
  pub target_task_version : ℕ
  pub expected_workflow_version : ℕ
  pub kind : SchedulingKind
  pub state : ChangeState
  pub research_receipt_id : String
  pub research_document_digest : String
  pub recommendation_digest : String
  pub recommendation : Recommendation
  pub prior_priority : Option WorkflowPriority
  pub prior_priority_source : Option PrioritySource
  pub resulting_workflow_version : ℕ
  pub created_task_id : Option ℕ
  pub created_at : ℕ
  pub updated_at : ℕ

pub data ChangeEventKind : Type 0 where
  applied undone undo_conflict : ChangeEventKind

pub record ChangeEvent : Type 0 where
  pub change_set_id : ℕ
  pub task_id : ℕ
  pub kind : ChangeEventKind
  pub occurred_at : ℕ

pub data CardStatus : Type 0 where
  pending delivering delivered resolved : CardStatus

-- A row of `task_scheduling_review_cards`.
pub record Card : Type 0 where
  pub id : ℕ
  pub change_set_id : ℕ
  pub task_id : ℕ
  pub status : CardStatus
  pub version : ℕ
  pub resolution : Option CardAction
  pub claim_token_digest : Option String
  pub claim_expires_at : Option ℕ
  pub consumer_digest : Option String
  pub transport : Option String
  pub delivery_ref : Option String
  pub delivered_at : Option ℕ
  pub created_at : ℕ
  pub updated_at : ℕ
  pub resolved_at : Option ℕ

pub data CardEventKind : Type 0 where
  scheduled delivery_claimed delivery_expired delivered delivery_failed resolved undo_conflict :
      CardEventKind

pub record CardEvent : Type 0 where
  pub card_id : ℕ
  pub change_set_id : ℕ
  pub task_id : ℕ
  pub kind : CardEventKind
  pub card_version : ℕ
  pub action : Option CardAction
  pub occurred_at : ℕ

pub data ReviewCardStatus : Type 0 where
  pending delivering delivered resolved cancelled : ReviewCardStatus

-- The columns of `execution_review_cards` that a cancellation reads and writes.
pub record ReviewCard : Type 0 where
  pub id : ℕ
  pub task_id : ℕ
  pub status : ReviewCardStatus
  pub version : ℕ
  pub claim_token_digest : Option String
  pub claim_expires_at : Option ℕ
  pub transport : Option String
  pub delivery_ref : Option String
  pub superseded_transport : Option String
  pub superseded_delivery_ref : Option String
  pub resolved_at : Option ℕ
  pub updated_at : ℕ

-- A pending row of `execution_card_retractions`.
pub record Retraction : Type 0 where
  pub card_id : ℕ
  pub transport : String
  pub delivery_ref : String
  pub created_at : ℕ

-- A row of `execution_review_card_events` of kind `cancelled`.
pub record CancelledCard : Type 0 where
  pub card_id : ℕ
  pub task_id : ℕ
  pub card_version : ℕ
  pub workflow_version : ℕ
  pub occurred_at : ℕ

-- The workflow tables with those of task scheduling.
pub record SchedulingDb : Type 0 where
  pub db : Db
  pub change_sets : List ChangeSet
  pub change_events : List ChangeEvent
  pub cards : List Card
  pub card_events : List CardEvent
  pub review_cards : List ReviewCard
  pub retractions : List Retraction
  pub cancelled_cards : List CancelledCard
