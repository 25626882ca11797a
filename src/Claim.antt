-- ===== src/Claim.antt =====
-- `claim_next` of task_execution.py: the sweeps, the slot cap, the order of the ready queue, the gates
-- on each candidate, and the claim of one workflow.
pub mod Ownership
pub mod Next
pub mod Order
pub mod Queue
pub mod Rank
pub mod Full
pub mod Ahead
use foxhound.Prelude.{
  ℕ, suc, ◌+◌, ◌/◌, String, Bool, true, false, not, ◌&&◌, ◌||◌, Option, none, some, List, [], ◌∷◌,
  ◌++◌, leb, ltb, ◌==◌, str_eq, if◌then◌else◌, Attempt, ok, raise, ledger_error, value_error, ◌>>=◌,
}
use foxhound.Schema.{
  Workflow, WorkflowStatus, WorkflowPhase, WorkflowPriority, raised, normal, lowered, plan, execute,
  external_action, queued, running, awaiting_start, parked, is_running, is_queued, is_parked,
  same_phase, startup_failed,
}
use foxhound.Store.{find_task, origin_kind, write, event}
use foxhound.Tables.{
  Db, Task, EventKind, OwnershipReview, ReviewStatus, pending, claimed, scheduled,
}
use foxhound.Operation.{is_open, valid_secret}
use foxhound.Profiles.{AgentProfile, resolve, allows}
use foxhound.Service.{Service}
use foxhound.Failure.{defer_failure}
use foxhound.Sweep.{cancel_stale, recover_expired, select_rows}
use foxhound.Condition.{evaluate_task_conditions}

pub record ExecutionClaim : Type 0 where
  pub task_id : ℕ
  pub task_version : ℕ
  pub workflow_version : ℕ
  pub phase : WorkflowPhase
  pub token : String
  pub expires_at : ℕ
  pub text : String
  pub owner : Option String
  pub due : Option ℕ
  pub agent_profile_id : String
  pub agent_profile_revision : String
  pub lease_seconds : ℕ

-- What the research gate says of one plan: hold it, let it pass unresearched, or pass it with a
-- published receipt.
pub data GateDecision : Type 0 where
  unselected hold bypass receipt : GateDecision

-- The answers of the components that a claim consults and that write none of these tables: the
-- effective deadlines, the reader's ownership of a task, the research gate, and the owner that
-- published research proposes instead.
pub record Advice : Type 0 where
  pub deadline_ordering : Bool
  pub effective : ℕ → Option ℕ
  pub reader_owned : ℕ → Bool
  pub research : Workflow → GateDecision
  pub disagreement : ℕ → Option String

-- `_validated_phase_allowlist`.
unfoldable pub phase_listed : WorkflowPhase → List WorkflowPhase → Bool
phase_listed p [] = false
phase_listed p (q ∷ qs) = same_phase p q || phase_listed p qs

phases_distinct : List WorkflowPhase → Bool
unfolding phase_listed
phases_distinct [] = true
phases_distinct (p ∷ ps) = not (phase_listed p ps) && phases_distinct ps

unfoldable pub phase_allowlist : Option (List WorkflowPhase) → Attempt (List WorkflowPhase)
unfolding phases_distinct
phase_allowlist none = ok (plan ∷ execute ∷ external_action ∷ [])
phase_allowlist (some []) = raise value_error
phase_allowlist (some (p ∷ ps)) =
    if phases_distinct (p ∷ ps) then ok (p ∷ ps) else raise value_error

-- The task stands behind the workflow: open, and at the workflow's version of it.
abbrev pub current_task : Option Task → Workflow → Bool
current_task none w = false
current_task (some t) w = is_open t.status && t.version == w.task_version

abbrev pub is_current : Db → Workflow → Bool
is_current db w = current_task (find_task w.task_id db.tasks) w

abbrev pub occupies_slot : Db → Workflow → Bool
occupies_slot db w = is_running w.status && is_current db w

unfoldable pub count_rows : (Workflow → Bool) → List Workflow → ℕ
count_rows p [] = 0
count_rows p (w ∷ ws) = let rest = count_rows p ws in if p w then suc rest else rest

-- The count of running workflows that the slot cap is held against.
unfoldable pub running_count : Db → ℕ
running_count db = count_rows (occupies_slot db) db.workflows

-- `running >= cap`, where there is a cap.
abbrev pub slots_full : Option ℕ → ℕ → Bool
slots_full none n = false
slots_full (some cap) n = leb cap n

-- The WHERE of the ready query, without the phase.
abbrev pub due_by : Option ℕ → ℕ → Bool
due_by none now = true
due_by (some at) now = leb at now

abbrev pub retry_due : Option ℕ → ℕ → Bool
retry_due none now = false
retry_due (some at) now = leb at now

abbrev pub is_ready : Workflow → ℕ → Bool
is_ready w now =
    (is_queued w.status && due_by w.next_attempt_at now)
    || (is_parked w.status && retry_due w.next_attempt_at now)

abbrev pub is_candidate : Db → List WorkflowPhase → ℕ → Workflow → Bool
is_candidate db phases now w = is_ready w now && phase_listed w.phase phases && is_current db w

unfoldable pub source_tier : Option String → ℕ
source_tier none = 1
source_tier (some kind) =
    if str_eq kind "review_request" then 0 else if str_eq kind "issue" then 2 else 1

unfoldable pub queue_priority : WorkflowPriority → ℕ
queue_priority raised = 0
queue_priority normal = 1
queue_priority lowered = 2

-- `band` of task_deadlines.py, and `_DEADLINE_BAND_SQL`.
unfoldable pub band : Option ℕ → ℕ → ℕ
band none today = 2
band (some deadline) today =
    if leb deadline (today + 3) then 0 else if leb deadline (today + 14) then 1 else 2

abbrev task_due : Option Task → Option ℕ
task_due none = none
task_due (some t) = t.due

-- The ORDER BY of the ready query; the last two columns make it total.
unfoldable pub queue_key : Advice → Db → ℕ → Workflow → List ℕ
unfolding source_tier queue_priority
queue_key a db now w =
    source_tier (origin_kind db w.task_id)
    ∷ queue_priority w.queue_priority
    ∷ (if a.deadline_ordering
        then band (task_due (find_task w.task_id db.tasks)) (now / 86400)
        else 0)
    ∷ (if w.failure_count == 0 then 0 else 1)
    ∷ w.updated_at
    ∷ w.task_id
    ∷ []

unfoldable pub raised_by_deadline : Option ℕ → ℕ → Bool
raised_by_deadline none today = false
raised_by_deadline (some deadline) today = leb deadline (today + 2)

-- The sort key of `_order_by_effective_deadline`.
unfoldable pub effective_key : Advice → Db → ℕ → Workflow → List ℕ
unfolding source_tier queue_priority raised_by_deadline
effective_key a db now w =
    source_tier (origin_kind db w.task_id)
    ∷ (if a.reader_owned w.task_id && raised_by_deadline (a.effective w.task_id) (now / 86400)
        then 0
        else queue_priority w.queue_priority)
    ∷ band (a.effective w.task_id) (now / 86400)
    ∷ []

-- Lexicographic order on keys.
unfoldable pub lex_leb : List ℕ → List ℕ → Bool
lex_leb [] ys = true
lex_leb (x ∷ xs) [] = false
lex_leb (x ∷ xs) (y ∷ ys) = if ltb x y then true else if x == y then lex_leb xs ys else false

-- A stable sort: a row goes before the first row whose key is not below its own.
unfoldable pub insert_row : (Workflow → List ℕ) → Workflow → List Workflow → List Workflow
insert_row key w [] = w ∷ []
insert_row key w (v ∷ vs) = if lex_leb (key w) (key v) then w ∷ v ∷ vs else v ∷ insert_row key w vs

unfoldable pub sort_rows : (Workflow → List ℕ) → List Workflow → List Workflow
sort_rows key [] = []
sort_rows key (w ∷ ws) = insert_row key w (sort_rows key ws)

unfoldable pub take_rows : ℕ → List Workflow → List Workflow
take_rows ℕ.zero ws = []
take_rows (suc n) [] = []
take_rows (suc n) (w ∷ ws) = w ∷ take_rows n ws

-- The candidates of one pass: MAX_CLAIM_SCAN rows of the ready queue, in the order they are tried.
unfoldable pub candidates : Advice → Db → List WorkflowPhase → ℕ → List Workflow
candidates a db phases now =
    let rows =
      take_rows 50
        (sort_rows (queue_key a db now) (select_rows (is_candidate db phases now) db.workflows)) in
    if a.deadline_ordering then sort_rows (effective_key a db now) rows else rows
