-- ===== src/Failure.antt =====
-- `_defer_failure` of task_execution.py: what a failed attempt does to its workflow, with the
-- counts that it reads and the delays that it chooses.
pub mod Checks
pub mod Applied
pub mod Policy
use foxhound.Prelude.{
  ℕ, zero, suc, ◌+◌, ◌-◌, ◌*◌, ◌^◌, min, String, Bool, true, false, ◌&&◌, ◌||◌, Option, none, some,
  List, [], ◌∷◌, leb, ltb, ◌==◌, str_eq, if◌then◌else◌, Attempt, ok, ◌>>=◌,
}
use Prim.Native.Char.{code}
use foxhound.Schema.{
  Workflow, WorkflowStatus, WorkflowPhase, FailureReason, timeout, budget_handoff,
  context_exhausted, queued, same_phase,
}
use foxhound.Store.{write, event}
use foxhound.Tables.{
  Db, Event, EventKind, FailureDigest, retry_scheduled, start_approved, phase_approved,
  phase_granted, revision_requested, discussion_requested,
}
use foxhound.Operation.{OperationResult, apply_result}
use foxhound.Service.{Service}

-- ASCII letters compare without case under SQLite's LIKE.
fold_case : ℕ → ℕ
fold_case c = if leb 65 c && leb c 90 then c + 32 else c

like_prefix : String → String → Bool
unfolding fold_case
like_prefix String.[] s = true
like_prefix (String.◌∷◌ p ps) String.[] = false
like_prefix (String.◌∷◌ p ps) (String.◌∷◌ c s) =
    fold_case (code p) == fold_case (code c) && like_prefix ps s

-- `COUNT(*) ... WHERE task_id=? AND digest LIKE 'Timed out after %'`.
pub timeout_count : ℕ → List FailureDigest → ℕ
unfolding like_prefix
timeout_count id [] = 0
timeout_count id (d ∷ ds) =
    let rest = timeout_count id ds in
    if d.task_id == id && like_prefix "Timed out after " d.digest then suc rest else rest

-- The events by which a reader, or a standing grant, puts a workflow forward again.
abbrev pub answers_handoff : EventKind → Bool
answers_handoff start_approved = true
answers_handoff phase_approved = true
answers_handoff revision_requested = true
answers_handoff discussion_requested = true
answers_handoff phase_granted = true
answers_handoff _ = false

abbrev is_park : EventKind → Bool
is_park EventKind.parked = true
is_park _ = false

-- Events stand in sequence order: an answer starts the count again.
count_parks : ℕ → WorkflowPhase → ℕ → List Event → ℕ
count_parks id phase acc [] = acc
count_parks id phase acc (e ∷ es) =
    count_parks id phase
      (if e.task_id == id && answers_handoff e.kind
        then 0
        else if e.task_id == id && is_park e.kind && same_phase e.phase phase
        then suc acc
        else acc)
      es

-- `_unanswered_handoff_parks`.
unfoldable pub unanswered_handoff_parks : Db → ℕ → WorkflowPhase → ℕ
unfolding count_parks
unanswered_handoff_parks db id phase = count_parks id phase 0 db.events

-- RETRY_BASE_SECONDS and RETRY_MAX_SECONDS.
unfoldable pub retry_delay : ℕ → ℕ
retry_delay failures = min 3600 (60 * 2 ^ (failures - 1))

-- TIMEOUT_BACKOFF_SECONDS at `min(timeout_count, 3)`.
unfoldable pub timeout_delay : ℕ → ℕ
timeout_delay n = if n == 0 then 120 else if n == 1 then 600 else if n == 2 then 1800 else 3600

-- PARK_RETRY_INTERVAL.
abbrev pub park_interval : ℕ
park_interval = 21600

pub record Deferral : Type 0 where
  pub status : WorkflowStatus
  pub failures : ℕ
  pub next_attempt : Option ℕ
  pub parked_since : Option ℕ
  pub kind : EventKind

abbrev pub is_timeout : FailureReason → Option ℕ → Bool
is_timeout timeout exit_code = true
is_timeout _ none = false
is_timeout _ (some n) = n == 124

abbrev pub is_handoff : FailureReason → Bool
is_handoff budget_handoff = true
is_handoff _ = false

abbrev pub is_context_exhausted : FailureReason → Bool
is_context_exhausted context_exhausted = true
is_context_exhausted _ = false

-- `event_kind or "retry_scheduled"`.
abbrev pub retry_kind : Option EventKind → EventKind
retry_kind none = retry_scheduled
retry_kind (some k) = k

abbrev park : ℕ → ℕ → Option ℕ → Deferral
park failures now next = record {
  status = WorkflowStatus.parked;
  failures = failures;
  next_attempt = next;
  parked_since = some now;
  kind = EventKind.parked;
}

abbrev retry_in : ℕ → ℕ → ℕ → Option EventKind → Deferral
retry_in failures now delay event_kind = record {
  status = queued;
  failures = failures;
  next_attempt = some (now + delay);
  parked_since = none;
  kind = retry_kind event_kind;
}

-- The branches of `_defer_failure`, given the two counts that it queries.
unfoldable pub deferral : ℕ → ℕ → ℕ → FailureReason → Option ℕ → ℕ → ℕ → Option EventKind → Deferral
deferral max_attempts timeouts handoffs reason exit_code failure_count now event_kind =
    let failures = failure_count + 1 in
    if is_timeout reason exit_code
    then retry_in failure_count now (timeout_delay timeouts) event_kind
    else if is_handoff reason && ltb handoffs (max_attempts - 1)
    then park failures now (some (now + retry_delay failures))
    else if is_handoff reason
    then park failures now (some (now + park_interval))
    else if is_context_exhausted reason
    then park failures now none
    else if leb max_attempts failures
    then park failures now (some (now + park_interval))
    else retry_in failures now (retry_delay failures) event_kind

-- The UPDATE of `_defer_failure`.
unfoldable pub deferred :
    Deferral → FailureReason → ℕ → Option ℕ → Option String → Workflow → Workflow
deferred d reason now exit_code run_id w = record w {
  status = d.status;
  version = w.version + 1;
  claim_token_digest = none;
  claimed_at = none;
  claim_heartbeat_at = none;
  claim_expires_at = none;
  current_run_id = none;
  failure_count = d.failures;
  last_failure_reason = some reason;
  last_failure_at = some now;
  last_failure_exit_code = exit_code;
  last_failure_run_id = run_id;
  next_attempt_at = d.next_attempt;
  parked_at = d.parked_since;
  updated_at = now;
}

-- The deferral that the database holds for one failure of `w`.
unfoldable pub deferral_of :
    Service → Db → Workflow → FailureReason → Option ℕ → ℕ → Option EventKind → Deferral
deferral_of s db w reason exit_code now event_kind =
    deferral s.max_attempts (timeout_count w.task_id db.failure_digests)
      (unanswered_handoff_parks db w.task_id w.phase) reason exit_code w.failure_count now
      event_kind

-- `_defer_failure`.
unfoldable pub defer_failure :
    Service
    → Workflow
    → FailureReason
    → ℕ
    → Option EventKind
    → Option ℕ
    → Option String
    → Db
    → Attempt (OperationResult × Db)
defer_failure s w reason now event_kind exit_code run_id db = do
  let d = deferral_of s db w reason exit_code now event_kind
  (_, db1) ←
      write w.task_id (λ r. r.version == w.version) (deferred d reason now exit_code run_id) db
  db2 ← event w.task_id d.kind (w.version + 1) w.task_version w.phase d.status now db1
  ok (
    apply_result w.task_id (w.version + 1) d.status w.phase none d.next_attempt w.agent_profile_id
        w.agent_profile_revision,
    db2,
  )
