-- ===== src/Claim/Next/Hold.antt =====
-- `_hold_for_ownership_review` of task_execution.py on a queued and on a parked plan.
use foxhound.Prelude.{
  ℕ, ◌+◌, ◌≡◌, refl, sym, subst, ap, ◌∙◌, String, true, false, none, some, List, [], ◌∷◌, arith,
  raise, integrity_error,
}
use foxhound.Schema.{Workflow, WorkflowPhase, plan, parked, checks, same_phase}
use foxhound.Store.{find_task, find_workflow, write}
use foxhound.Tables.{Db, Task}
use foxhound.Store.Rows.{Checked}
use foxhound.Service.{Service}
use foxhound.Condition.{evaluate_task_conditions}
use foxhound.Condition.Frame.{evaluate_task_conditions-frame}
use foxhound.Claim.{Advice, receipt, candidates, running_count, slots_full}
use foxhound.Claim.Ownership.{
  ownership_review_status, held_row, holdable, hold_proposed, hold_unreviewed,
  hold_for_ownership_review,
}
use foxhound.Claim.Next.{gate_holds, scan_eligible, scan_one, scan, claim_swept}

held_row-raises :
    (version now : ℕ) (w : Workflow)
    → w.status ≡ parked
    → Checked w
    → checks (held_row version now w) ≡ false
unfolding checks
held_row-raises version now w s c = ground arith

write_raises :
    (w : Workflow) (owner : String) (now : ℕ) (db : Db)
    → Checked w
    → find_workflow w.task_id db.workflows ≡ some w
    → w.phase ≡ plan
    → w.status ≡ parked
    → write w.task_id (holdable w.version) (held_row (w.version + 1) now) db ≡ raise integrity_error
unfolding write
write_raises w owner now db c f p s =
    let k = held_row-raises (w.version + 1) now w s c in ground arith

held-raises :
    (a : Advice) (w : Workflow) (now : ℕ) (db : Db) {t : Task} {owner : String}
    → Checked w
    → find_workflow w.task_id db.workflows ≡ some w
    → w.phase ≡ plan
    → w.status ≡ parked
    → ownership_review_status w.task_id w.task_version db.ownership_reviews ≡ none
    → find_task w.task_id db.tasks ≡ some t
    → a.disagreement w.task_id ≡ some owner
    → hold_for_ownership_review a w now db ≡ raise integrity_error
unfolding hold_for_ownership_review
held-raises a w now db {t} {owner} c f p s r k d =
    rw (r, hold_unreviewed)
      (rw (k, hold_unreviewed)
        (rw (d, hold_proposed) (rw (write_raises w owner now db c f p s, hold_proposed))))

gate-raises :
    (a : Advice) (w : Workflow) (now : ℕ) (db : Db)
    → w.phase ≡ plan
    → a.research w ≡ receipt
    → hold_for_ownership_review a w now db ≡ raise integrity_error
    → gate_holds a w now db ≡ raise integrity_error
unfolding gate_holds
gate-raises a w now db p q h =
    let e : same_phase w.phase plan ≡ true = ap (λ x. same_phase x plan) p in rw e (rw q h)

scan-raises :
    (s : Service) (a : Advice) (now : ℕ) (w : Workflow) (ws : List Workflow) (deferred : List ℕ)
    (db : Db)
    → (evaluate_task_conditions db w.task_id w.task_version now).0 ≡ true
    → gate_holds a w now (evaluate_task_conditions db w.task_id w.task_version now).1
      ≡ raise integrity_error
    → scan s a now (w ∷ ws) deferred db ≡ raise integrity_error
unfolding scan scan_one scan_eligible
scan-raises s a now w ws deferred db e h =
    let x = evaluate_task_conditions db w.task_id w.task_version now in
    let one : scan_one s a now w db ≡ raise integrity_error =
      subst (λ b. scan_eligible s a w now (b, x.1) ≡ raise integrity_error) (sym e) (rw h refl) in
    rw one refl

-- A plan that is parked cannot be held. Where it is the first candidate of a pass with a free slot, its
-- conditions hold, its research is published, no owner was yet reviewed for its task's version, and the
-- research proposes another owner, the pass raises: the UPDATE leaves the row the time it was parked,
-- which breaks a CHECK of the workflows.
pub hold_parked_raises :
    (s : Service) (a : Advice) (now : ℕ) (token : String) (phases : List WorkflowPhase)
    (before db : Db) (w : Workflow) (ws : List Workflow) {t : Task} {owner : String}
    → slots_full s.execution_slot_cap (running_count db) ≡ false
    → candidates a db phases now ≡ w ∷ ws
    → Checked w
    → find_workflow w.task_id db.workflows ≡ some w
    → w.phase ≡ plan
    → w.status ≡ parked
    → (evaluate_task_conditions db w.task_id w.task_version now).0 ≡ true
    → a.research w ≡ receipt
    → ownership_review_status w.task_id w.task_version db.ownership_reviews ≡ none
    → find_task w.task_id db.tasks ≡ some t
    → a.disagreement w.task_id ≡ some owner
    → claim_swept s a now token phases before db ≡ raise integrity_error
unfolding claim_swept
hold_parked_raises s a now token phases before db w ws slot first c f p st e q r k d =
    let x = evaluate_task_conditions db w.task_id w.task_version now in
    let same = (evaluate_task_conditions-frame db w.task_id w.task_version now).1 in
    let h : hold_for_ownership_review a w now x.1 ≡ raise integrity_error =
      held-raises a w now x.1 c (ap (λ (z : Db). find_workflow w.task_id z.workflows) same ∙ f) p st
        (ap (λ (z : Db). ownership_review_status w.task_id w.task_version z.ownership_reviews) same
          ∙ r)
        (ap (λ (z : Db). find_task w.task_id z.tasks) same ∙ k) d in
    rw slot (rw first (rw (scan-raises s a now w ws [] db e (gate-raises a w now x.1 p q h)) refl))
