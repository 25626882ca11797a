-- ===== src/Failure/Checks.antt =====
-- The row that `_defer_failure` writes passes the CHECK constraints.
use foxhound.Prelude.{ℕ, ◌≡◌, refl, ◌⊎◌, true, false, Option, none, some, String, arith}
use foxhound.Schema.{
  Workflow, FailureReason, queued, is_finished, checks, exit_code_column, run_id_column,
}
use foxhound.Schema.WorkflowStatus.{parked}
use foxhound.Tables.{EventKind}
use foxhound.Store.Rows.{Checked}
use foxhound.Failure.{Deferral, deferral, deferred}

-- A deferred workflow waits in the queue, or is parked since now.
pub deferral_cases :
    (m t h : ℕ) (reason : FailureReason) (exit_code : Option ℕ) (n now : ℕ)
    (kind : Option EventKind)
    → let d = deferral m t h reason exit_code n now kind in
      ((d.status ≡ queued) × (d.parked_since ≡ none))
      ⊎ ((d.status ≡ parked) × (d.parked_since ≡ some now))
unfolding deferral
deferral_cases m t h reason exit_code n now kind = ground arith

no_run_id : run_id_column none ≡ true
unfolding run_id_column
no_run_id = refl

pub deferred-Checked :
    (d : Deferral) (reason : FailureReason) (exit_code : Option ℕ) (run_id : Option String)
    (now : ℕ) (w : Workflow)
    → ((d.status ≡ queued) × (d.parked_since ≡ none))
      ⊎ ((d.status ≡ parked) × (d.parked_since ≡ some now))
    → is_finished w.status ≡ false
    → Checked w
    → exit_code_column exit_code ≡ true
    → run_id_column run_id ≡ true
    → Checked (deferred d reason now exit_code run_id w)
unfolding checks deferred
deferred-Checked d reason exit_code run_id now w k u c e r = ground (arith, no_run_id)
