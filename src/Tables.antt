-- ===== src/Tables.antt =====
-- The tables that workflow operations read and write (candidate_inbox.py), with the enumerations of
-- their columns.
use foxhound.Prelude.{ℕ, String, Bool, Option, List}
use foxhound.Schema.{Workflow, WorkflowStatus, WorkflowPhase, ExecutionOutcome, TaskStatus}

pub record Task : Type 0 where
  pub id : ℕ
  pub status : TaskStatus
  pub text : String
  pub owner : Option String
  pub owner_kind : Option String
  pub owner_ref_version : ℕ
  pub owner_provisional : ℕ
  pub owner_pinned : Bool
  pub due : Option ℕ
  pub version : ℕ
  pub updated_at : ℕ
  pub closed_at : Option ℕ

pub data Relation : Type 0 where
  accepted folded : Relation

pub record Binding : Type 0 where
  pub candidate_id : String
  pub source_revision : String
  pub task_id : ℕ
  pub relation : Relation

pub record Candidate : Type 0 where
  pub candidate_id : String
  pub source_kind : String

pub data LifecycleState : Type 0 where
  active withdrawn : LifecycleState

pub data Resolution : Type 0 where
  current preserved_open reader_conflict : Resolution

pub record Lifecycle : Type 0 where
  pub candidate_id : String
  pub state : LifecycleState
  pub resolution : Resolution

pub data EventKind : Type 0 where
  scheduled start_approved snoozed cancelled claimed claim_renewed released claim_expired
        retry_scheduled parked result_recorded phase_approved phase_granted revision_requested
        discussion_requested result_unchanged agent_selected priority_raised priority_lowered
        priority_cleared :
      EventKind

pub record Event : Type 0 where
  pub task_id : ℕ
  pub kind : EventKind
  pub workflow_version : ℕ
  pub task_version : ℕ
  pub phase : WorkflowPhase
  pub status : WorkflowStatus
  pub occurred_at : ℕ
  pub agent_profile_id : String
  pub agent_profile_revision : String

-- Its kind is `created` where it comes from no status, and `status_changed` otherwise.
pub record TaskEvent : Type 0 where
  pub task_id : ℕ
  pub task_version : ℕ
  pub candidate_id : Option String
  pub source_revision : Option String
  pub from_status : Option TaskStatus
  pub to_status : TaskStatus
  pub occurred_at : ℕ

pub data WorkState : Type 0 where
  active withdrawn closed : WorkState

pub record WorkItem : Type 0 where
  pub task_id : ℕ
  pub state : WorkState
  pub updated_at : ℕ

-- The columns of `_ANSWER_COLUMNS`: what the agent answered.
pub record Answer : Type 0 where
  pub outcome : ExecutionOutcome
  pub summary : String
  pub work_markdown : String
  pub external_actions_json : String
  pub deliverables_json : String
  pub repository_references_json : String
  pub repository_impact : Bool

pub record ResultRow : Type 0 where
  pub result_id : String
  pub task_id : ℕ
  pub workflow_version : ℕ
  pub task_version : ℕ
  pub phase : WorkflowPhase
  pub content_digest : String
  pub answer : Answer
  pub questions_json : String
  pub created_at : ℕ
  pub agent_profile_id : String
  pub agent_profile_revision : String
  pub task_work_directory : Option String
  pub task_kb_file : Option String
  pub work_digest : Option String
  pub reader_instruction_sequence : Option ℕ

pub record Artifact : Type 0 where
  pub relative_path : String
  pub name : String
  pub size_bytes : ℕ
  pub content_digest : String
  pub run_directory : String

pub record ArtifactRow : Type 0 where
  pub result_id : String
  pub ordinal : ℕ
  pub artifact : Artifact

pub record FailureDigest : Type 0 where
  pub task_id : ℕ
  pub workflow_version : ℕ
  pub phase : WorkflowPhase
  pub run_id : Option String
  pub digest : String
  pub created_at : ℕ

pub data ReviewStatus : Type 0 where
  pending confirmed kept reassigned : ReviewStatus

pub record OwnershipReview : Type 0 where
  pub task_id : ℕ
  pub task_version : ℕ
  pub proposed_owner : String
  pub status : ReviewStatus
  pub decided_at : Option ℕ

pub data ConditionKind : Type 0 where
  after_task_completed not_before : ℕ → ConditionKind

pub data ConditionState : Type 0 where
  live satisfied canceled needs_review : ConditionState

pub record Condition : Type 0 where
  pub id : ℕ
  pub task_id : ℕ
  pub task_version : ℕ
  pub kind : ConditionKind
  pub state : ConditionState
  pub change_set_id : ℕ
  pub created_at : ℕ
  pub updated_at : ℕ

-- Its kind is `created` at the state `active`, and the name of its state otherwise.
pub record ConditionEvent : Type 0 where
  pub condition_id : ℕ
  pub task_id : ℕ
  pub state : ConditionState
  pub occurred_at : ℕ

pub record Db : Type 0 where
  pub tasks : List Task
  pub task_events : List TaskEvent
  pub work_items : List WorkItem
  pub bindings : List Binding
  pub candidates : List Candidate
  pub lifecycles : List Lifecycle
  pub workflows : List Workflow
  pub events : List Event
  pub results : List ResultRow
  pub artifacts : List ArtifactRow
  pub failure_digests : List FailureDigest
  pub ownership_reviews : List OwnershipReview
  pub reader_inputs : List ℕ
  pub conditions : List Condition
  pub condition_events : List ConditionEvent
