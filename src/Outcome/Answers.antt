-- ===== src/Outcome/Answers.antt =====
-- What an agent answered: the tables of phases, outcomes and grants, and the test for an answer that
-- was given before in the cycle, of task_execution.py.
use foxhound.Prelude.{
  ℕ, String, Bool, true, false, not, ◌&&◌, ◌||◌, Option, none, some, List, [], ◌∷◌, leb, ◌==◌,
  str_eq, contains, if◌then◌else◌,
}
use foxhound.Schema.{
  WorkflowStatus, WorkflowPhase, ExecutionOutcome, plan, execute, external_action, awaiting_plan,
  awaiting_external, completed, declined, ineligible, awaiting_review, same_phase,
}
use foxhound.Tables.{Db, Event, EventKind, Answer, ResultRow, Artifact, scheduled}

-- PHASE_OUTCOMES.
unfoldable pub phase_outcome : WorkflowPhase → ExecutionOutcome → Bool
phase_outcome plan awaiting_plan = true
phase_outcome plan completed = true
phase_outcome plan ineligible = true
phase_outcome execute awaiting_external = true
phase_outcome execute completed = true
phase_outcome execute declined = true
phase_outcome execute ineligible = true
phase_outcome external_action completed = true
phase_outcome external_action declined = true
phase_outcome external_action ineligible = true
phase_outcome _ _ = false

-- `_result_target`.
unfoldable pub result_target : WorkflowPhase → ExecutionOutcome → Option WorkflowStatus
unfolding phase_outcome
result_target phase outcome = if phase_outcome phase outcome then some awaiting_review else none

-- `_GRANTED_ADVANCES`.
unfoldable pub granted_target : WorkflowPhase → ExecutionOutcome → Option WorkflowPhase
granted_target plan awaiting_plan = some execute
granted_target execute awaiting_external = some external_action
granted_target _ _ = none

abbrev pub is_plan : WorkflowPhase → Bool
is_plan plan = true
is_plan _ = false

unfoldable pub grant_of : Option WorkflowPhase → Option String → List String → Option WorkflowPhase
grant_of none origin granted = none
grant_of (some target) none granted = none
grant_of (some target) (some kind) granted = if contains kind granted then some target else none

-- `_granted_advance`.
unfoldable pub granted_advance :
    WorkflowPhase
    → ExecutionOutcome
    → Option String
    → List String
    → List String
    → Option WorkflowPhase
unfolding grant_of
granted_advance phase outcome origin execution_granted action_granted =
    grant_of (granted_target phase outcome) origin
      (if is_plan phase then execution_granted else action_granted)

-- What `_validated_result` returns.
pub record ValidResult : Type 0 where
  pub result_id : String
  pub task_id : ℕ
  pub task_version : ℕ
  pub workflow_version : ℕ
  pub phase : WorkflowPhase
  pub claim_token : String
  pub content_digest : String
  pub answer : Answer
  pub questions_json : String
  pub task_work_directory : Option String
  pub task_kb_file : Option String
  pub work_digest : Option String
  pub reader_instruction_sequence : Option ℕ
  pub artifacts : List Artifact

unfoldable pub find_result : String → List ResultRow → Option ResultRow
find_result id [] = none
find_result id (r ∷ rs) = if str_eq r.result_id id then some r else find_result id rs

abbrev is_scheduled : EventKind → Bool
is_scheduled scheduled = true
is_scheduled _ = false

-- Events stand in sequence order, so the last match wins.
last_scheduled : ℕ → ℕ → List Event → ℕ
last_scheduled id found [] = found
last_scheduled id found (e ∷ es) =
    last_scheduled id (if e.task_id == id && is_scheduled e.kind then e.workflow_version else found)
      es

-- `_cycle_started_at`.
unfoldable pub cycle_started_at : Db → ℕ → ℕ
unfolding last_scheduled
cycle_started_at db id = last_scheduled id 0 db.events

same_outcome : ExecutionOutcome → ExecutionOutcome → Bool
same_outcome awaiting_plan awaiting_plan = true
same_outcome awaiting_external awaiting_external = true
same_outcome completed completed = true
same_outcome declined declined = true
same_outcome ineligible ineligible = true
same_outcome _ _ = false

same_flag : Bool → Bool → Bool
same_flag true b = b
same_flag false b = not b

-- Equality on `_ANSWER_COLUMNS`.
unfoldable pub same_answer : Answer → Answer → Bool
unfolding same_outcome same_flag
same_answer a b =
    same_outcome a.outcome b.outcome
    && str_eq a.summary b.summary
    && str_eq a.work_markdown b.work_markdown
    && str_eq a.external_actions_json b.external_actions_json
    && str_eq a.deliverables_json b.deliverables_json
    && str_eq a.repository_references_json b.repository_references_json
    && same_flag a.repository_impact b.repository_impact

abbrev repeats : ValidResult → ℕ → ResultRow → Bool
repeats v since r =
    r.task_id == v.task_id
    && r.task_version == v.task_version
    && same_phase r.phase v.phase
    && leb since r.workflow_version
    && same_answer r.answer v.answer

unfoldable pub any_repeats : ValidResult → ℕ → List ResultRow → Bool
any_repeats v since [] = false
any_repeats v since (r ∷ rs) = repeats v since r || any_repeats v since rs

-- `_repeats_an_earlier_answer`.
unfoldable pub repeats_an_earlier_answer : Db → ValidResult → Bool
repeats_an_earlier_answer db v = any_repeats v (cycle_started_at db v.task_id) db.results
