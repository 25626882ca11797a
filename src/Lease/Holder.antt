-- ===== src/Lease/Holder.antt =====
-- The calls of whoever holds a claim, in task_execution.py.
use foxhound.Prelude.{
  ℕ, ◌+◌, ◌≡◌, refl, ◌∙◌, String, Bool, true, ◌&&◌, Option, none, some, ok, arith,
}
use foxhound.Schema.{open_task, running}
use foxhound.Store.{Joined, workflow_with_task}
use foxhound.Tables.{Db}
use foxhound.Store.Rows.{Checked, Valid, find_workflow-Checked, workflow_with_task-row}
use foxhound.Operation.{
  OperationResult, applied, apply_result, operation, valid_identity, valid_secret, valid_lease,
  task_guard, running_guard,
}
use foxhound.Service.{Service}
use foxhound.Lease.{
  FailedPass, named_run, attach_at, renew_at, finish_at, finish_claim, attach_run_id, renew,
  release, fail,
}
use foxhound.Lease.Reported.{strip_evidence, valid_failure, run_named, valid_run_id}
use foxhound.Lease.Moves.{Held, Held-running_guard}
use foxhound.Lease.Applied.{renew_at-applied}
use foxhound.Lease.Total.{attach_at-applied}
use foxhound.Lease.Returned.{PassColumns, finished_db, give_back-applied, run_named-columns}
use foxhound.Lease.Calls.{LeaseCall, renews, attaches, releases, fails, lease_call, lease_db}

-- The arguments of a call are such as it takes.
abbrev pub valid_call : ℕ → ℕ → String → LeaseCall → Bool
valid_call id version token (renews lease) =
    valid_identity id version && valid_secret token && valid_lease lease
valid_call id version token (attaches run) =
    valid_identity id version && valid_secret token && valid_run_id run
valid_call id version token releases = valid_identity id version && valid_secret token
valid_call id version token (fails reason code run text) =
    valid_failure reason code run text && valid_identity id version && valid_secret token

-- The claim of a current task, held by the caller.
pub record Holds (s : Service) (now version : ℕ) (token : String) (j : Joined) : Type 0 where
  pub held : Held j.row version (s.token_digest token) now
  pub task : j.task_status ≡ open_task
  pub current : j.current_task_version ≡ j.row.task_version

Holds-task_guard :
    (s : Service) (now version : ℕ) (token : String) (j : Joined)
    → Holds s now version token j
    → task_guard j j.row.task_version ≡ none
Holds-task_guard s now version token j h = ground (arith, h.task, h.current)

module _ (s : Service) (now id version : ℕ) (token : String) (db : Db) (j : Joined)
    (valid : Valid db) (found : workflow_with_task db id ≡ some j)
    (holds : Holds s now version token j) where
  checked : Checked j.row
  checked = find_workflow-Checked id db.workflows valid.rows (workflow_with_task-row db id found)

  passes : running_guard j version (s.token_digest token) now ≡ none
  passes = Held-running_guard j version (s.token_digest token) now holds.held

  finish_claim-holder :
      (p : Option FailedPass)
      → PassColumns p
      → (valid_identity id version && valid_secret token) ≡ true
      → (out : OperationResult) × (finish_claim s now id version token p db
          ≡ ok (out, finished_db s db id version now p j.row))
        × (out.disposition ≡ applied)
  unfolding finish_claim finish_at
  finish_claim-holder p q arguments =
      let (out, done, a) =
        give_back-applied s now id version token p j.row db q checked
          (workflow_with_task-row db id found) holds.held.status holds.held.version in
      let tasks = Holds-task_guard s now version token j holds in
      (out, rw (arguments, found) (rw (passes, finish_at) (rw (tasks, finish_at) done)), a)

  -- Whoever holds the claim of an open task at its current version is never refused: with arguments
  -- such as the call takes, the call applies and leaves the database that `lease_db` gives for it.
  pub holder_applies :
      (call : LeaseCall)
      → valid_call id version token call ≡ true
      → (out : OperationResult) × (lease_call s now id version token call db
          ≡ ok (out, lease_db s db id version now call j.row))
        × (out.disposition ≡ applied)
  unfolding lease_call lease_db renew attach_run_id release fail finished_db
  holder_applies (renews lease) arguments =
      let tasks = Holds-task_guard s now version token j holds in
      let called : renew s now id version token lease db
          ≡ renew_at s now id version token lease (some j) db =
        rw (arguments, found) refl in
      (
        apply_result id version running j.row.phase (some (now + lease)) none j.row.agent_profile_id
            j.row.agent_profile_revision,
        called
            ∙ renew_at-applied s now id version token lease j db checked
                (workflow_with_task-row db id found) holds.held tasks passes,
        refl,
      )
  holder_applies (attaches run) arguments =
      let called : attach_run_id s now id version token run db
          ≡ attach_at s now id version token run (some j) db =
        rw (arguments, found) refl in
      (
        operation (named_run run now j.row) applied,
        called
            ∙ attach_at-applied s now id version token run j db checked (ground (arith, arguments))
                found holds.held passes,
        refl,
      )
  holder_applies releases arguments = finish_claim-holder none tt arguments
  holder_applies (fails reason code run text) arguments =
      let reported : valid_failure reason code run text ≡ true = ground (arith, arguments) in
      let named : run_named reason code run ≡ true =
        unfold valid_failure in ground (arith, reported) in
      let (out, done, a) =
        finish_claim-holder
          (some (record {
            reason = reason;
            exit_code = code;
            run_id = run;
            evidence = strip_evidence text;
          }))
          (run_named-columns reason code run named) (ground (arith, arguments)) in
      (out, rw reported done, a)
