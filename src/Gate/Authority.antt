-- ===== src/Gate/Authority.antt =====
-- What puts a workflow back in the queue at a gate of task_execution.py, and in which phase.
use foxhound.Prelude.{◌≡◌, String, Option, none, some, ◌⊎◌}
use foxhound.Schema.{Workflow, WorkflowStatus, WorkflowPhase, ExecutionOutcome, plan, queued}
use foxhound.Gate.Review.{ReviewAction, approve, revise, approved_phase}

-- Approval of an answer that asked for this phase, or a revision, which plans again.
abbrev pub Authorises : Option ReviewAction → Option ExecutionOutcome → WorkflowPhase → Type 0
Authorises chosen outcome phase =
    ((o : ExecutionOutcome) × (chosen ≡ some approve)
      × (outcome ≡ some o)
      × (approved_phase o ≡ some phase))
    ⊎ ((chosen ≡ some revise) × (phase ≡ plan))

-- The columns of a row that may not be there.
phase_of : Option Workflow → Option WorkflowPhase
phase_of none = none
phase_of (some w) = some w.phase

result_of : Option Workflow → Option String
result_of none = none
result_of (some w) = w.last_result_id

status_of : Option Workflow → WorkflowStatus
status_of none = queued
status_of (some w) = w.status
