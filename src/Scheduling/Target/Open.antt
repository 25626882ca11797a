-- ===== src/Scheduling/Target/Open.antt =====
-- What `_target_refusal` of task_scheduling.py has checked of a target that it lets through.
use foxhound.Prelude.{◌≡◌, refl, true, false, Option, none, some, arith}
use foxhound.Schema.{Workflow}
use foxhound.Tables.{Task}
use foxhound.Operation.{is_open}
use foxhound.Scheduling.Rows.{Recommendation}
use foxhound.Scheduling.Target.{target_refusal, target_workflow_refusal, is_settled}

-- An open task at the recommendation's version, with a workflow at its version that may be changed.
pub record Fits (r : Recommendation) (o : Option Task) (w : Workflow) : Type 0 where
  pub task : Task
  pub found : o ≡ some task
  pub task_open : is_open task.status ≡ true
  pub task_version : task.version ≡ r.target_task_version
  pub version : w.version ≡ r.expected_workflow_version
  pub unsettled : is_settled w.status ≡ false

pub target_refusal-Fits :
    (r : Recommendation) (o : Option Task) (w : Workflow)
    → target_refusal o (some w) r ≡ none
    → Fits r o w
unfolding target_refusal target_workflow_refusal
target_refusal-Fits r none w h = cc
target_refusal-Fits r (some t) w h = record {
  task = t;
  found = refl;
  task_open = ground (arith, h);
  task_version = ground (arith, h);
  version = ground (arith, h);
  unsettled = ground (arith, h);
}
