-- ===== src/Failure/Applied.antt =====
-- The state and the result of `_defer_failure` on a row that is not finished.
use foxhound.Prelude.{ℕ, ◌+◌, ◌≡◌, refl, String, true, false, Option, none, some, arith, ok, ◌==◌}
use foxhound.Schema.{Workflow, FailureReason, exit_code_column, run_id_column, is_finished}
use foxhound.Store.{find_workflow}
use foxhound.Tables.{Db, EventKind}
use foxhound.Store.Rows.{Checked, moved, event_row, write-applies, event-replaced}
use foxhound.Operation.{apply_result}
use foxhound.Service.{Service}
use foxhound.Failure.{deferred, deferral_of, defer_failure}
use foxhound.Failure.Checks.{deferral_cases, deferred-Checked}

-- `_defer_failure` on a row of the table that is not finished.
pub defer_failure-applied :
    (s : Service) (w : Workflow) (reason : FailureReason) (now : ℕ) (kind : Option EventKind)
    (exit_code : Option ℕ) (run_id : Option String) (db : Db)
    → Checked w
    → find_workflow w.task_id db.workflows ≡ some w
    → is_finished w.status ≡ false
    → exit_code_column exit_code ≡ true
    → run_id_column run_id ≡ true
    → let d = deferral_of s db w reason exit_code now kind in
      defer_failure s w reason now kind exit_code run_id db
      ≡ ok (
        apply_result w.task_id
            (w.version + 1)
            d.status
            w.phase
            none
            d.next_attempt
            w.agent_profile_id
            w.agent_profile_revision,
        moved db w.task_id
            (deferred d reason now exit_code run_id w)
            (event_row w.task_id d.kind (w.version + 1) w.task_version w.phase d.status now w),
      )
unfolding defer_failure
defer_failure-applied s w reason now kind exit_code run_id db c f u e r =
    let d = deferral_of s db w reason exit_code now kind in
    rw
      (write-applies w.task_id (λ u. u.version == w.version)
        (deferred d reason now exit_code run_id) db f (ground arith)
        (deferred-Checked d reason exit_code run_id now w
          (unfold deferral_of in deferral_cases _ _ _ reason exit_code w.failure_count now kind) u c
          e r))
      (unfold deferred in
        rw (
          event-replaced w.task_id d.kind (w.version + 1) w.task_version w.phase d.status now db
            (deferred d reason now exit_code run_id w) refl f))
