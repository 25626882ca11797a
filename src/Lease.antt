-- ===== src/Lease.antt =====
-- The operations of one live claim: `renew`, `attach_run_id`, `release`, `fail` and `_finish_claim`
-- of task_execution.py.
pub mod Reported
pub mod Moves
pub mod Total
pub mod Returned
pub mod Calls
pub mod Holder
pub mod Retired
pub mod Applied
use foxhound.Prelude.{
  ℕ, suc, ◌+◌, String, Bool, true, false, not, ◌&&◌, ◌||◌, Option, none, some, List, [], ◌∷◌, ◌++◌,
  leb, ltb, ◌==◌, str_eq, is_some, is_none, if◌then◌else◌, Attempt, ok, ◌>>=◌,
}
use Prim.Native.Char.{code}
use foxhound.Schema.{
  Workflow, WorkflowStatus, WorkflowPhase, FailureReason, process_exit, timeout, claim_expired,
  queued, running, is_running, is_hex, char_count,
}
use foxhound.Store.{Joined, workflow_with_task, write, event}
use foxhound.Tables.{Db, FailureDigest, claim_renewed, released}
use foxhound.Operation.{
  OperationResult, Refusal, invalid_argument, not_found, claim_mismatch, applied, refuse,
  refuse_row, operation, apply_result, valid_identity, valid_secret, valid_lease, task_guard,
  then_guard, running_guard, is_space,
}
use foxhound.Service.{Service}
use foxhound.Failure.{defer_failure}
use foxhound.Texts.{all_hex, strip}
use foxhound.Lease.Reported.{strip_evidence, valid_failure, valid_run_id}

-- `claim_token_digest=?` of a WHERE clause: null matches nothing.
abbrev pub holds_digest : Option String → String → Bool
holds_digest none digest = false
holds_digest (some held) digest = str_eq held digest

abbrev pub held_by : ℕ → String → Workflow → Bool
held_by version digest r =
    r.version == version && is_running r.status && holds_digest r.claim_token_digest digest

abbrev named_run : String → ℕ → Workflow → Workflow
named_run run_id now w = record w { current_run_id = some run_id; updated_at = now }

pub attach_written : ℕ → Workflow → Bool × Db → Attempt (OperationResult × Db)
attach_written id w (false, db) = ok (refuse_row id w claim_mismatch, db)
attach_written id w (true, db) = elim (workflow_with_task db id) [
  | none ↦ ok (refuse id not_found, db)
  | some j ↦ ok (operation j.row applied, db)
]

pub attach_at :
    Service → ℕ → ℕ → ℕ → String → String → Option Joined → Db → Attempt (OperationResult × Db)
unfolding attach_written
attach_at s now id expected token run_id none db = ok (refuse id not_found, db)
attach_at s now id expected token run_id (some j) db =
    elim (running_guard j expected (s.token_digest token) now) [
      | some r ↦ ok (refuse_row id j.row r, db)
      | none ↦ do
        out ← write id (held_by expected (s.token_digest token)) (named_run run_id now) db
        attach_written id j.row out
    ]

unfoldable pub attach_run_id :
    Service → ℕ → ℕ → ℕ → String → String → Db → Attempt (OperationResult × Db)
unfolding attach_at
attach_run_id s now id expected token run_id db =
    if valid_identity id expected && valid_secret token && valid_run_id run_id
    then attach_at s now id expected token run_id (workflow_with_task db id) db
    else ok (refuse id invalid_argument, db)

abbrev renewed : ℕ → ℕ → Workflow → Workflow
renewed now expires w = record w {
  claim_heartbeat_at = some now;
  claim_expires_at = some expires;
  updated_at = now;
}

pub renew_at :
    Service → ℕ → ℕ → ℕ → String → ℕ → Option Joined → Db → Attempt (OperationResult × Db)
renew_at s now id expected token lease none db = ok (refuse id not_found, db)
renew_at s now id expected token lease (some j) db =
    elim (then_guard (running_guard j expected (s.token_digest token) now)
      (task_guard j j.row.task_version)) [
        | some r ↦ ok (refuse_row id j.row r, db)
        | none ↦ do
          (_, db1) ←
              write id (held_by expected (s.token_digest token)) (renewed now (now + lease)) db
          db2 ← event id claim_renewed expected j.row.task_version j.row.phase running now db1
          ok (
            apply_result id expected running j.row.phase (some (now + lease)) none
                j.row.agent_profile_id j.row.agent_profile_revision,
            db2,
          )
      ]

unfoldable pub renew : Service → ℕ → ℕ → ℕ → String → ℕ → Db → Attempt (OperationResult × Db)
unfolding renew_at
renew s now id expected token lease db =
    if valid_identity id expected && valid_secret token && valid_lease lease
    then renew_at s now id expected token lease (workflow_with_task db id) db
    else ok (refuse id invalid_argument, db)

-- The UPDATE of a release.
abbrev requeued : ℕ → ℕ → Workflow → Workflow
requeued version now w = record w {
  status = queued;
  version = version;
  claim_token_digest = none;
  claimed_at = none;
  claim_heartbeat_at = none;
  claim_expires_at = none;
  current_run_id = none;
  updated_at = now;
}

-- The primary key is the task and the workflow version.
digest_exists : ℕ → ℕ → List FailureDigest → Bool
digest_exists id version [] = false
digest_exists id version (d ∷ ds) =
    (d.task_id == id && d.workflow_version == version) || digest_exists id version ds

-- `INSERT OR IGNORE INTO execution_failure_digests`, when there is evidence.
unfoldable pub keep_evidence : ℕ → ℕ → WorkflowPhase → Option String → Option String → ℕ → Db → Db
unfolding digest_exists
keep_evidence id version phase run_id none now db = db
keep_evidence id version phase run_id (some text) now db =
    if digest_exists id version db.failure_digests then db else record db {
      failure_digests =
          db.failure_digests
          ++ record {
            task_id = id;
            workflow_version = version;
            phase = phase;
            run_id = run_id;
            digest = text;
            created_at = now;
          }
            ∷ [];
    }

-- What `fail` passes on; `none` in its place is a release.
pub record FailedPass : Type 0 where
  pub reason : FailureReason
  pub exit_code : Option ℕ
  pub run_id : Option String
  pub evidence : Option String

pub give_back :
    Service → ℕ → ℕ → ℕ → Workflow → Option FailedPass → Db → Attempt (OperationResult × Db)
unfolding keep_evidence
give_back s now id expected w none db = do
  (_, db1) ← write id (λ r. r.version == expected) (requeued (expected + 1) now) db
  db2 ← event id released (expected + 1) w.task_version w.phase queued now db1
  ok (
    apply_result id (expected + 1) queued w.phase none none w.agent_profile_id
        w.agent_profile_revision,
    db2,
  )
give_back s now id expected w (some f) db = do
  (out, db1) ← defer_failure s w f.reason now none f.exit_code f.run_id db
  ok (out, keep_evidence id expected w.phase f.run_id f.evidence now db1)

pub finish_at :
    Service
    → ℕ
    → ℕ
    → ℕ
    → String
    → Option FailedPass
    → Option Joined
    → Db
    → Attempt (OperationResult × Db)
unfolding give_back
finish_at s now id expected token failed none db = ok (refuse id not_found, db)
finish_at s now id expected token failed (some j) db =
    elim (then_guard (running_guard j expected (s.token_digest token) now)
      (task_guard j j.row.task_version)) [
        | some r ↦ ok (refuse_row id j.row r, db)
        | none ↦ give_back s now id expected j.row failed db
      ]

-- `_finish_claim`.
unfoldable pub finish_claim :
    Service → ℕ → ℕ → ℕ → String → Option FailedPass → Db → Attempt (OperationResult × Db)
unfolding finish_at
finish_claim s now id expected token failed db =
    if valid_identity id expected && valid_secret token
    then finish_at s now id expected token failed (workflow_with_task db id) db
    else ok (refuse id invalid_argument, db)

unfoldable pub release : Service → ℕ → ℕ → ℕ → String → Db → Attempt (OperationResult × Db)
release s now id expected token db = finish_claim s now id expected token none db

unfoldable pub fail :
    Service
    → ℕ
    → ℕ
    → ℕ
    → String
    → FailureReason
    → Option ℕ
    → Option String
    → Option String
    → Db
    → Attempt (OperationResult × Db)
unfolding strip_evidence
fail s now id expected token reason exit_code run_id evidence db =
    if valid_failure reason exit_code run_id evidence
    then finish_claim s now id expected token
        (some (record {
          reason = reason;
          exit_code = exit_code;
          run_id = run_id;
          evidence = strip_evidence evidence;
        }))
        db
    else ok (refuse id invalid_argument, db)
