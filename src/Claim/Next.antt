-- ===== src/Claim/Next.antt =====
-- The scan of `claim_next` of task_execution.py over its candidates, and the claim itself.
pub mod Hold
pub mod Scanning
pub mod Taken
pub mod Writing
pub mod Granted
pub mod Claiming
use foxhound.Prelude.{
  ℕ, ◌+◌, String, Bool, true, false, ◌&&◌, ◌||◌, Option, none, some, List, [], ◌∷◌, ◌++◌, ◌==◌,
  if◌then◌else◌, Attempt, ok, raise, ledger_error, ◌>>=◌,
}
use foxhound.Schema.{
  Workflow, WorkflowStatus, WorkflowPhase, plan, execute, external_action, awaiting_start, running,
  is_queued, is_parked, same_phase, normal, startup_failed,
}
use foxhound.Store.{find_task, write, event}
use foxhound.Tables.{Db, Task, OwnershipReview, ReviewStatus, pending, claimed, scheduled}
use foxhound.Operation.{valid_secret}
use foxhound.Profiles.{AgentProfile, resolve, allows}
use foxhound.Service.{Service}
use foxhound.Failure.{defer_failure}
use foxhound.Sweep.{cancel_stale, recover_expired}
use foxhound.Condition.{evaluate_task_conditions}
use foxhound.Claim.{
  Advice, ExecutionClaim, GateDecision, unselected, hold, bypass, receipt, candidates,
  running_count, slots_full, phase_allowlist,
}
use foxhound.Claim.Ownership.{hold_for_ownership_review, is_waiting}

unfoldable pub profile_in_phase : WorkflowPhase → Option AgentProfile → Option AgentProfile
profile_in_phase p none = none
profile_in_phase p (some a) = if allows a.allowed_phases p then some a else none

unfoldable pub usable_profile : Service → Workflow → Option AgentProfile
unfolding profile_in_phase
usable_profile s w =
    profile_in_phase w.phase (resolve s.registry w.agent_profile_id w.agent_profile_revision)

-- What the scan of one candidate says: take it, or go on.
pub data Scan : Type 0 where
  take : Workflow → AgentProfile → Scan
  pass : Scan

-- The task ids that the scan deferred are kept beside the candidate it took.
pub record Scanned : Type 0 where
  pub taken : Scan
  pub deferred : List ℕ

-- The research gate holds a candidate, or lets it through.
unfoldable pub gate_holds : Advice → Workflow → ℕ → Db → Attempt (Bool × Db)
gate_holds a w now db =
    if same_phase w.phase plan
    then elim (a.research w) [
      | unselected ↦ ok (false, db)
      | hold ↦ ok (true, db)
      | bypass ↦ ok (false, db)
      | receipt ↦ hold_for_ownership_review a w now db
    ]
    else ok (false, db)

unfoldable pub scan_profile :
    Service → Workflow → ℕ → Option AgentProfile → Db → Attempt (Scanned × Db)
scan_profile s w now (some profile) db = ok (record { taken = take w profile; deferred = [] }, db)
scan_profile s w now none db = do
  (_, db1) ← defer_failure s w startup_failed now none none none db
  ok (record { taken = pass; deferred = w.task_id ∷ [] }, db1)

unfoldable pub scan_gated : Service → Workflow → ℕ → Bool × Db → Attempt (Scanned × Db)
unfolding usable_profile scan_profile
scan_gated s w now (true, db) = ok (record { taken = pass; deferred = [] }, db)
scan_gated s w now (false, db) = scan_profile s w now (usable_profile s w) db

unfoldable pub scan_eligible : Service → Advice → Workflow → ℕ → Bool × Db → Attempt (Scanned × Db)
unfolding gate_holds scan_gated
scan_eligible s a w now (false, db) = ok (record { taken = pass; deferred = [] }, db)
scan_eligible s a w now (true, db) = gate_holds a w now db >>= scan_gated s w now

-- The body of the loop on one candidate.
unfoldable pub scan_one : Service → Advice → ℕ → Workflow → Db → Attempt (Scanned × Db)
unfolding scan_eligible
scan_one s a now w db =
    scan_eligible s a w now (evaluate_task_conditions db w.task_id w.task_version now)

-- The loop stops at the first candidate it takes.
unfoldable pub scan : Service → Advice → ℕ → List Workflow → List ℕ → Db → Attempt (Scanned × Db)
unfolding scan_one
scan s a now [] deferred db = ok (record { taken = pass; deferred = deferred }, db)
scan s a now (w ∷ ws) deferred db = do
  (r, db1) ← scan_one s a now w db
  let rest = scan s a now ws (deferred ++ r.deferred) db1
  elim r.taken [
    | take v profile ↦
        ok (record { taken = take v profile; deferred = deferred ++ r.deferred }, db1)
    | pass ↦ rest
  ]

-- The UPDATE of a claim.
abbrev pub claimed_row : ℕ → String → ℕ → ℕ → Workflow → Workflow
claimed_row version digest now expires w = record w {
  status = running;
  version = version;
  claim_token_digest = some digest;
  claimed_at = some now;
  claim_heartbeat_at = some now;
  claim_expires_at = some expires;
  updated_at = now;
  current_run_id = none;
  failure_count = if is_parked w.status then 0 else w.failure_count;
  parked_at = none;
  next_attempt_at = none;
  queue_priority = normal;
  queue_priority_source = none;
}

abbrev pub claimable : ℕ → Workflow → Bool
claimable version w = w.version == version && is_waiting w.status

abbrev claim_of : ℕ → String → Workflow → AgentProfile → Task → ExecutionClaim
claim_of now token w p t = record {
  task_id = w.task_id;
  task_version = w.task_version;
  workflow_version = w.version + 1;
  phase = w.phase;
  token = token;
  expires_at = now + p.claim_lease_seconds;
  text = t.text;
  owner = t.owner;
  due = t.due;
  agent_profile_id = p.profile_id;
  agent_profile_revision = p.revision;
  lease_seconds = p.claim_lease_seconds;
}

-- The answer of one pass: the claim, and the tasks that the scan deferred on the way.
pub record Passed : Type 0 where
  pub claim : Option ExecutionClaim
  pub deferred : List ℕ

-- The claim carries the columns of the task that the ready query joined; `before` is the database
-- when the transaction began.
claim_written :
    ℕ → String → Workflow → AgentProfile → Task → List ℕ → Db → Bool × Db → Attempt (Passed × Db)
claim_written now token w p t deferred before (false, db) =
    ok (record { claim = none; deferred = deferred }, before)
claim_written now token w p t deferred before (true, db) = do
  db1 ← event w.task_id claimed (w.version + 1) w.task_version w.phase running now db
  ok (record { claim = some (claim_of now token w p t); deferred = deferred }, db1)

claim_task :
    Service
    → ℕ
    → String
    → Workflow
    → AgentProfile
    → List ℕ
    → Db
    → Option Task
    → Db
    → Attempt (Passed × Db)
unfolding claim_written
claim_task s now token w p deferred before none db = raise ledger_error
claim_task s now token w p deferred before (some t) db = do
  out ←
      write w.task_id (claimable w.version)
        (claimed_row (w.version + 1) (s.token_digest token) now (now + p.claim_lease_seconds)) db
  claim_written now token w p t deferred before out

unfoldable pub claim_scanned : Service → ℕ → String → Db → Scanned × Db → Attempt (Passed × Db)
unfolding claim_task
claim_scanned s now token before (r, db) = elim r.taken [
  | pass ↦ ok (record { claim = none; deferred = r.deferred }, db)
  | take w p ↦ claim_task s now token w p r.deferred before (find_task w.task_id db.tasks) db
]

unfoldable pub claim_swept :
    Service → Advice → ℕ → String → List WorkflowPhase → Db → Db → Attempt (Passed × Db)
unfolding running_count candidates scan claim_scanned
claim_swept s a now token phases before db =
    if slots_full s.execution_slot_cap (running_count db)
    then ok (record { claim = none; deferred = [] }, db)
    else scan s a now (candidates a db phases now) [] db >>= claim_scanned s now token before

-- `claim_next` past its arguments: the sweeps, the slot cap, and the pass over the queue.
unfoldable pub claim_swept_in :
    Service → Advice → ℕ → String → List WorkflowPhase → Db → Attempt (Passed × Db)
unfolding claim_swept
claim_swept_in s a now token phases db = do
  db1 ← cancel_stale now db
  db2 ← recover_expired s now db1
  claim_swept s a now token phases db db2

claim_with_secret : Service → Advice → ℕ → String → Db → List WorkflowPhase → Attempt (Passed × Db)
unfolding claim_swept_in
claim_with_secret s a now token db phases =
    if valid_secret token then claim_swept_in s a now token phases db else raise ledger_error

-- `claim_next`.
unfoldable pub claim_next :
    Service → Advice → ℕ → String → Option (List WorkflowPhase) → Db → Attempt (Passed × Db)
unfolding phase_allowlist claim_with_secret
claim_next s a now token allowed db = phase_allowlist allowed >>= claim_with_secret s a now token db
