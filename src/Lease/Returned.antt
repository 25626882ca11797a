-- ===== src/Lease/Returned.antt =====
-- Every branch of `release`, `fail` and `_finish_claim` of task_execution.py, on a table whose rows
-- pass their CHECKs.
use foxhound.Prelude.{
  ℕ, ◌+◌, ◌≡◌, refl, String, true, ◌&&◌, Option, none, some, arith, ok, Bool-cases, Option-cases,
  ◌⊎◌, inl, inr,
}
use foxhound.Schema.{Workflow, FailureReason, running, exit_code_column, run_id_column}
use foxhound.Store.{Joined, find_workflow, workflow_with_task}
use foxhound.Tables.{Db}
use foxhound.Store.Rows.{
  Checked, Valid, find_workflow-own, find_workflow-Checked, workflow_with_task-row,
}
use foxhound.Operation.{
  OperationResult, Refuses, apply_result, refuse, refuse_row, invalid_argument, not_found, applied,
  task_guard, then_guard, running_guard, valid_identity, valid_secret,
}
use foxhound.Service.{Service}
use foxhound.Failure.{deferral_of}
use foxhound.Failure.Applied.{defer_failure-applied}
use foxhound.Lease.{FailedPass, keep_evidence, give_back, finish_at, finish_claim, release, fail}
use foxhound.Lease.Reported.{valid_failure, strip_evidence, run_named}
use foxhound.Lease.Moves.{running_guard-Held}
use foxhound.Lease.Applied.{then_guard-none, release-applied}
use foxhound.Lease.Total.{Applies, released_db, failed_db, valid_run_id-column}

unfoldable pub finished_db : Service → Db → ℕ → ℕ → ℕ → Option FailedPass → Workflow → Db
finished_db s db id expected now none w = released_db db id expected now w
finished_db s db id expected now (some f) w = failed_db s db id expected now f w

abbrev pub PassColumns : Option FailedPass → Type 0
PassColumns none = Unit
PassColumns (some f) = (exit_code_column f.exit_code ≡ true) × (run_id_column f.run_id ≡ true)

pub give_back-applied :
    (s : Service) (now id expected : ℕ) (token : String) (p : Option FailedPass) (w : Workflow)
    (db : Db)
    → PassColumns p
    → Checked w
    → find_workflow id db.workflows ≡ some w
    → w.status ≡ running
    → w.version ≡ expected
    → (out : OperationResult) × (give_back s now id expected w p db
        ≡ ok (out, finished_db s db id expected now p w))
      × (out.disposition ≡ applied)
unfolding finished_db give_back deferral_of keep_evidence
give_back-applied s now id expected token none w db q c f r v =
    (_, release-applied s now id expected w db c f r v, refl)
give_back-applied s now id expected token (some p) w db q c f r v =
    let d = deferral_of s db w p.reason p.exit_code now none in
    (
      apply_result w.task_id (w.version + 1) d.status w.phase none d.next_attempt w.agent_profile_id
          w.agent_profile_revision,
      rw (
          defer_failure-applied s w p.reason now none p.exit_code p.run_id db c
            (find_workflow-own id db.workflows f) (ground arith) q.0 q.1),
      refl,
    )

finish_at_total :
    (s : Service) (now id expected : ℕ) (token : String) (p : Option FailedPass) (db : Db)
    (o : Option Joined)
    → Valid db
    → PassColumns p
    → workflow_with_task db id ≡ o
    → Refuses (finish_at s now id expected token p o db) db
      ⊎ Applies
          (finish_at s now id expected token p o db)
          db
          id
          expected
          (s.token_digest token)
          now
          (finished_db s db id expected now p)
unfolding finish_at
finish_at_total s now id expected token p db none v q e = inl (refuse id not_found, refl, refl)
finish_at_total s now id expected token p db (some j) v q e =
    let f = workflow_with_task-row db id e in
    elim (Option-cases (
      then_guard (running_guard j expected (s.token_digest token) now)
        (task_guard j j.row.task_version))) [
          | inr (r, g) ↦ inl (refuse_row id j.row r, rw (g, finish_at), refl)
          | inl g ↦
              let h =
                running_guard-Held j expected (s.token_digest token) now
                  (then_guard-none _ _ g).0 in
              let (out, b, a) =
                give_back-applied s now id expected token p j.row db q
                  (find_workflow-Checked id db.workflows v.rows f) f h.status h.version in
              inr (j.row, out, f, h, rw (g, finish_at) b, a)
        ]

-- On checked rows `_finish_claim` never raises: it refuses and changes nothing, or the caller holds
-- a live claim and the row is queued again, or deferred as a failure.
pub finish_claim_total :
    (s : Service) (now id expected : ℕ) (token : String) (p : Option FailedPass) (db : Db)
    → Valid db
    → PassColumns p
    → Refuses (finish_claim s now id expected token p db) db
      ⊎ Applies
          (finish_claim s now id expected token p db)
          db
          id
          expected
          (s.token_digest token)
          now
          (finished_db s db id expected now p)
unfolding finish_claim
finish_claim_total s now id expected token p db v q =
    elim (Bool-cases (valid_identity id expected && valid_secret token)) [
      | inl g ↦
          rw g (finish_at_total s now id expected token p db (workflow_with_task db id) v q refl)
      | inr g ↦ inl (refuse id invalid_argument, rw g, refl)
    ]

-- On checked rows `release` never raises: it refuses and changes nothing, or the caller holds a live
-- claim and the row goes back to the queue at the next version, its claim cleared.
pub release_total :
    (s : Service) (now id expected : ℕ) (token : String) (db : Db)
    → Valid db
    → Refuses (release s now id expected token db) db
      ⊎ Applies
          (release s now id expected token db)
          db
          id
          expected
          (s.token_digest token)
          now
          (released_db db id expected now)
unfolding release finished_db
release_total s now id expected token db v = finish_claim_total s now id expected token none db v tt

pub run_named-columns :
    (reason : FailureReason) (e : Option ℕ) (r : Option String)
    → run_named reason e r ≡ true
    → (exit_code_column e ≡ true) × (run_id_column r ≡ true)
unfolding run_named exit_code_column run_id_column
run_named-columns reason none none h = (refl, refl)
run_named-columns reason (some n) none h = cc
run_named-columns reason none (some r) h = cc
run_named-columns reason (some n) (some r) h = (ground arith, valid_run_id-column r (ground arith))

-- On checked rows `fail` never raises: it refuses and changes nothing, or the caller holds a live
-- claim and the row takes the deferral that `_defer_failure` chooses, the evidence kept beside it.
pub fail_total :
    (s : Service) (now id expected : ℕ) (token : String) (reason : FailureReason)
    (exit_code : Option ℕ) (run_id evidence : Option String) (db : Db)
    → Valid db
    → Refuses (fail s now id expected token reason exit_code run_id evidence db) db
      ⊎ Applies
          (fail s now id expected token reason exit_code run_id evidence db)
          db
          id
          expected
          (s.token_digest token)
          now
          (failed_db s db id expected now (record {
            reason = reason;
            exit_code = exit_code;
            run_id = run_id;
            evidence = strip_evidence evidence;
          }))
unfolding fail finished_db
fail_total s now id expected token reason exit_code run_id evidence db v =
    elim (Bool-cases (valid_failure reason exit_code run_id evidence)) [
      | inl g ↦ rw g (
          finish_claim_total s now id expected token _ db v
            (run_named-columns reason exit_code run_id (unfold valid_failure in ground arith)))
      | inr g ↦ inl (refuse id invalid_argument, rw g, refl)
    ]
