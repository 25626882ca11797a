-- ===== src/Gate/Moves.antt =====
-- The one UPDATE of both gates of task_execution.py, on a table whose rows pass their CHECKs.
use foxhound.Prelude.{ℕ, ◌+◌, ◌≡◌, refl, Bool, true, not, ◌&&◌, none, some, ◌==◌, arith, ok}
use foxhound.Schema.{
  Workflow, WorkflowPhase, ExecutionOutcome, is_running, is_parked, checks, snooze_column,
  completed_column, run_id_column,
}
use foxhound.Store.{find_workflow}
use foxhound.Tables.{Db}
use foxhound.Store.Rows.{
  Checked, moved, event_row, find_workflow-key, write-applies, event-replaced,
}
use foxhound.Operation.{apply_result}
use foxhound.Gate.Snooze.{Zone}
use foxhound.Gate.Start.{GateMove, StartAction, start, cancel, snoozes, gated, gate, start_move}
use foxhound.Gate.Review.{ReviewAction, approve, revise, review_move, approved_phase}

-- A move that the columns of a waiting row allow: no claim, no park, a wake where it sleeps.
unfoldable pub move_fits : GateMove → Bool
unfolding snooze_column completed_column
move_fits m =
    not (is_running m.status)
    && not (is_parked m.status)
    && snooze_column m.status m.wake
    && completed_column m.status m.completed

abbrev pub gated_row : GateMove → ℕ → ℕ → Workflow → Workflow
gated_row m version now w = gated m.status m.phase version m.wake now m.completed w

no_run_id : run_id_column none ≡ true
unfolding run_id_column
no_run_id = refl

pub gated-Checked :
    (m : GateMove) (expected now : ℕ) (w : Workflow)
    → move_fits m ≡ true
    → Checked w
    → Checked (gated_row m (expected + 1) now w)
unfolding checks gated move_fits
gated-Checked m expected now w f c = ground (arith, no_run_id)

abbrev pub gate_db : Db → ℕ → ℕ → GateMove → ℕ → Workflow → Db
gate_db db id expected m now w =
    moved db id (gated_row m (expected + 1) now w)
      (event_row id m.kind (expected + 1) w.task_version m.phase m.status now w)

pub gate-applied :
    (id expected : ℕ) (w : Workflow) (m : GateMove) (now : ℕ) (db : Db)
    → move_fits m ≡ true
    → Checked w
    → find_workflow id db.workflows ≡ some w
    → w.version ≡ expected
    → gate id expected w m now db
      ≡ ok (
        apply_result id
            (expected + 1)
            m.status
            m.phase
            m.wake
            none
            w.agent_profile_id
            w.agent_profile_revision,
        gate_db db id expected m now w,
      )
unfolding gate
gate-applied id expected w m now db g c f v =
    rw
      (write-applies id (λ u. u.version == expected) (gated_row m (expected + 1) now) db f
        (ground arith) (gated-Checked m expected now w g c))
      (unfold gated in
        rw (
          event-replaced id m.kind (expected + 1) w.task_version m.phase m.status now db
            (gated_row m (expected + 1) now w) (find_workflow-key id db.workflows f) f))

pub start_move-fits :
    (z : Zone) (now : ℕ) (p : WorkflowPhase) (a : StartAction)
    → move_fits (start_move z now p a) ≡ true
unfolding move_fits start_move
start_move-fits z now p start = refl
start_move-fits z now p cancel = refl
start_move-fits z now p (snoozes a) = refl

pub review_move-fits :
    (z : Zone) (now : ℕ) (p : WorkflowPhase) (o : ExecutionOutcome) (a : ReviewAction)
    {m : GateMove}
    → review_move z now p o a ≡ some m
    → move_fits m ≡ true
unfolding move_fits review_move
review_move-fits z now p o ReviewAction.cancel h = ground arith
review_move-fits z now p o revise h = ground arith
review_move-fits z now p o (ReviewAction.snoozes a) h = ground arith
review_move-fits z now p o approve h = unfold approved_phase in ground arith
