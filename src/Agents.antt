-- ===== src/Agents.antt =====
-- Agent choices of task_execution.py: `_apply_agent_selection`,
-- `_apply_plan_review_agent_selection`, `select_agent`, `_adopt_one` and `adopt_installed_revision`.
pub mod Choices
pub mod Adoption
use foxhound.Prelude.{
  ℕ, ◌+◌, String, Bool, true, false, not, ◌&&◌, Option, none, some, ◌==◌, str_eq, if◌then◌else◌,
  Attempt, ok, ◌>>=◌,
}
use foxhound.Schema.{
  Workflow, WorkflowStatus, WorkflowPhase, plan, execute, queued, awaiting_start, awaiting_review,
  snoozed, parked, is_running, same_phase,
}
use foxhound.Store.{Joined, workflow_with_task, write, event}
use foxhound.Tables.{Db, agent_selected}
use foxhound.Operation.{
  OperationResult, Refusal, invalid_argument, invalid_state, not_found, stale_workflow,
  agent_profile_unavailable, unchanged, refuse, refuse_row, operation, apply_result, valid_identity,
  workflow_guard, task_guard, then_guard, transact,
}
use foxhound.Profiles.{AgentProfile, get, resolve_current, allows}
use foxhound.Service.{Service}

-- The UPDATE of a selection.
abbrev pub pinned : String → String → ℕ → ℕ → Workflow → Workflow
pinned profile revision version now w = record w {
  version = version;
  agent_profile_id = profile;
  agent_profile_revision = revision;
  updated_at = now;
}

abbrev pub same_pin : Workflow → AgentProfile → Bool
same_pin w p = str_eq w.agent_profile_id p.profile_id && str_eq w.agent_profile_revision p.revision

abbrev pub opens_selection : WorkflowStatus → Bool
opens_selection awaiting_start = true
opens_selection _ = false

selected :
    ℕ
    → ℕ
    → ℕ
    → Workflow
    → AgentProfile
    → WorkflowPhase
    → WorkflowStatus
    → Bool × Db
    → Attempt (OperationResult × Db)
selected now id expected w p event_phase status (false, db) =
    ok (refuse_row id w stale_workflow, db)
selected now id expected w p event_phase status (true, db) = do
  db2 ← event id agent_selected (expected + 1) w.task_version event_phase status now db
  ok (apply_result id (expected + 1) status plan none none p.profile_id p.revision, db2)

select_at : ℕ → ℕ → ℕ → AgentProfile → Option Joined → Db → Attempt (OperationResult × Db)
unfolding selected
select_at now id expected p none db = ok (refuse id not_found, db)
select_at now id expected p (some j) db =
    elim (then_guard (workflow_guard j expected opens_selection)
      (task_guard j j.row.task_version)) [
        | some r ↦ ok (refuse_row id j.row r, db)
        | none ↦ if same_pin j.row p then ok (operation j.row unchanged, db) else (do
          out ←
              write id (λ r. r.version == expected && opens_selection r.status)
                (pinned p.profile_id p.revision (expected + 1) now) db
          selected now id expected j.row p plan awaiting_start out)
      ]

-- `_apply_agent_selection`.
unfoldable pub apply_agent_selection :
    ℕ → ℕ → ℕ → AgentProfile → Db → Attempt (OperationResult × Db)
unfolding select_at
apply_agent_selection now id expected p db =
    if valid_identity id expected
    then if allows p.allowed_phases plan
      then select_at now id expected p (workflow_with_task db id) db
      else ok (refuse id agent_profile_unavailable, db)
    else ok (refuse id invalid_argument, db)

select_resolved : ℕ → ℕ → ℕ → Option AgentProfile → Db → Attempt (OperationResult × Db)
select_resolved now id expected none db = ok (refuse id agent_profile_unavailable, db)
select_resolved now id expected (some p) db =
    if allows p.allowed_phases plan
    then transact db (apply_agent_selection now id expected p db)
    else ok (refuse id agent_profile_unavailable, db)

-- `select_agent`.
unfoldable pub select_agent :
    Service → ℕ → ℕ → ℕ → String → String → Db → Attempt (OperationResult × Db)
unfolding select_resolved
select_agent s now id expected profile revision db =
    if valid_identity id expected
    then select_resolved now id expected (resolve_current s.registry profile revision) db
    else ok (refuse id invalid_argument, db)

abbrev pub opens_plan_review : WorkflowStatus → Bool
opens_plan_review awaiting_review = true
opens_plan_review _ = false

plan_guard : Joined → ℕ → Option Refusal
plan_guard j expected =
    then_guard
      (then_guard (workflow_guard j expected opens_plan_review)
        (if same_phase j.row.phase plan then none else some invalid_state))
      (task_guard j j.row.task_version)

review_select_at : ℕ → ℕ → ℕ → AgentProfile → Option Joined → Db → Attempt (OperationResult × Db)
unfolding selected plan_guard
review_select_at now id expected p none db = ok (refuse id not_found, db)
review_select_at now id expected p (some j) db = elim (plan_guard j expected) [
  | some r ↦ ok (refuse_row id j.row r, db)
  | none ↦ if same_pin j.row p then ok (operation j.row unchanged, db) else (do
    out ←
        write id
          (λ r. r.version == expected && opens_plan_review r.status && same_phase r.phase plan)
          (pinned p.profile_id p.revision (expected + 1) now) db
    selected now id expected j.row p execute awaiting_review out)
]

-- `_apply_plan_review_agent_selection`.
unfoldable pub apply_plan_review_agent_selection :
    ℕ → ℕ → ℕ → AgentProfile → Db → Attempt (OperationResult × Db)
unfolding review_select_at
apply_plan_review_agent_selection now id expected p db =
    if valid_identity id expected
    then if allows p.allowed_phases execute
      then review_select_at now id expected p (workflow_with_task db id) db
      else ok (refuse id agent_profile_unavailable, db)
    else ok (refuse id invalid_argument, db)

-- `_ADOPTABLE_STATUSES`.
abbrev pub is_adoptable : WorkflowStatus → Bool
is_adoptable queued = true
is_adoptable parked = true
is_adoptable awaiting_start = true
is_adoptable snoozed = true
is_adoptable awaiting_review = true
is_adoptable _ = false

-- The UPDATE of an adoption: the profile keeps its name.
abbrev pub adopted : String → ℕ → ℕ → Workflow → Workflow
adopted revision version now w = record w {
  version = version;
  agent_profile_revision = revision;
  updated_at = now;
}

adopt_written : ℕ → ℕ → ℕ → Workflow → AgentProfile → Bool × Db → Attempt (OperationResult × Db)
adopt_written now id expected w p (false, db) = ok (refuse_row id w stale_workflow, db)
adopt_written now id expected w p (true, db) = do
  db2 ← event id agent_selected (expected + 1) w.task_version w.phase w.status now db
  ok (apply_result id (expected + 1) w.status w.phase none none p.profile_id p.revision, db2)

adopt_installed : ℕ → ℕ → ℕ → Workflow → Option AgentProfile → Db → Attempt (OperationResult × Db)
unfolding adopt_written
adopt_installed now id expected w none db = ok (refuse_row id w agent_profile_unavailable, db)
adopt_installed now id expected w (some p) db =
    if allows p.allowed_phases w.phase
    then if str_eq w.agent_profile_revision p.revision then ok (operation w unchanged, db) else (do
      out ←
          write id (λ r. r.version == expected && not (is_running r.status))
            (adopted p.revision (expected + 1) now) db
      adopt_written now id expected w p out)
    else ok (refuse_row id w agent_profile_unavailable, db)

adopt_at : Service → ℕ → ℕ → ℕ → Option Joined → Db → Attempt (OperationResult × Db)
unfolding adopt_installed
adopt_at s now id expected none db = ok (refuse id not_found, db)
adopt_at s now id expected (some j) db =
    elim (then_guard (workflow_guard j expected is_adoptable) (task_guard j j.row.task_version)) [
      | some r ↦ ok (refuse_row id j.row r, db)
      | none ↦ adopt_installed now id expected j.row (get s.registry j.row.agent_profile_id) db
    ]

-- `_adopt_one`.
unfoldable pub adopt_one : Service → ℕ → ℕ → ℕ → Db → Attempt (OperationResult × Db)
unfolding adopt_at
adopt_one s now id expected db = adopt_at s now id expected (workflow_with_task db id) db

-- `adopt_installed_revision`.
unfoldable pub adopt_installed_revision : Service → ℕ → ℕ → ℕ → Db → Attempt (OperationResult × Db)
adopt_installed_revision s now id expected db =
    if valid_identity id expected
    then transact db (adopt_one s now id expected db)
    else ok (refuse id invalid_argument, db)
