-- ===== src/Evolution/Claims.antt =====
-- `_cancel_stale`, `_recover_expired` and `claim_next` of task_execution.py as evolutions.
use foxhound.Prelude.{
  ℕ, ◌+◌, ◌≡◌, refl, subst, String, Bool, Option, none, some, List, [], ◌∷◌, arith, ok, ◌>>=◌,
  bind_ok, ◌==◌,
}
use foxhound.Schema.{Workflow, FailureReason}
use foxhound.Schema.WorkflowStatus.{cancelled}
use foxhound.Store.{write, event}
use foxhound.Tables.{Db, EventKind}
use foxhound.Operation.{OperationResult, apply_result}
use foxhound.Service.{Service}
use foxhound.Failure.{defer_failure, deferred, deferral_of}
use foxhound.Sweep.{
  select_rows, is_stale, cancelled_row, cancel_one, cancel_rows, cancel_stale, is_expired,
  recover_rows, recover_expired,
}
use foxhound.Evolution.{Evolves, Evolves-same, Evolves-trans, Evolves-write, Evolves-event}

cancel_one-Evolves :
    (now : ℕ) (w : Workflow) (db : Db) {after : Db}
    → cancel_one now w db ≡ ok after
    → Evolves db after
cancel_one-Evolves now w db {after} h =
    let next = λ (x : Bool × Db).
      event w.task_id EventKind.cancelled (w.version + 1) w.task_version w.phase cancelled now
        x.1 in
    let (x, g, e) =
      bind_ok (write w.task_id (λ r. r.version == w.version) (cancelled_row now) db) next
        {out = after} (unfold cancel_one in h) in
    Evolves-trans db x.1 after
      (Evolves-write w.task_id (λ r. r.version == w.version) (cancelled_row now) db x.0
        (λ r t. (refl, omega arith)) e)
      (Evolves-event w.task_id EventKind.cancelled (w.version + 1) w.task_version w.phase cancelled
        now x.1 g)

cancel_rows-Evolves :
    (now : ℕ) (ws : List Workflow) (db : Db) {after : Db}
    → cancel_rows now ws db ≡ ok after
    → Evolves db after
cancel_rows-Evolves now [] db {after} h =
    unfold cancel_rows in Evolves-same db after (ground arith) (ground arith)
cancel_rows-Evolves now (w ∷ ws) db {after} h =
    let (x, g, e) =
      bind_ok (cancel_one now w db) (cancel_rows now ws) {out = after} (unfold cancel_rows in h) in
    Evolves-trans db x after (cancel_one-Evolves now w db e) (cancel_rows-Evolves now ws x g)

pub cancel_stale-Evolves :
    (now : ℕ) (db : Db) {after : Db} → cancel_stale now db ≡ ok after → Evolves db after
cancel_stale-Evolves now db h =
    cancel_rows-Evolves now (select_rows (is_stale db) db.workflows) db (unfold cancel_stale in h)

pub defer_failure-Evolves :
    (s : Service) (w : Workflow) (reason : FailureReason) (now : ℕ) (kind : Option EventKind)
    (exit_code : Option ℕ) (run_id : Option String) (db : Db) {out : OperationResult × Db}
    → defer_failure s w reason now kind exit_code run_id db ≡ ok out
    → Evolves db out.1
defer_failure-Evolves s w reason now kind exit_code run_id db {out} h =
    let d = deferral_of s db w reason exit_code now kind in
    let test = λ (r : Workflow). r.version == w.version in
    let result =
      apply_result w.task_id (w.version + 1) d.status w.phase none d.next_attempt w.agent_profile_id
        w.agent_profile_revision in
    let note =
      λ (x : Db). event w.task_id d.kind (w.version + 1) w.task_version w.phase d.status now x in
    let (x, g, e) =
      bind_ok (write w.task_id test (deferred d reason now exit_code run_id) db)
        (λ (x : Bool × Db). note x.1 >>= λ (y : Db). ok (result, y)) {out = out}
        (unfold defer_failure in h) in
    let (y, k, f) = bind_ok (note x.1) (λ (y : Db). ok (result, y)) {out = out} g in
    let same : y ≡ out.1 = cc in
    subst (Evolves db) same (
      Evolves-trans db x.1 y
        (Evolves-write w.task_id test (deferred d reason now exit_code run_id) db x.0
          (λ r t. unfold deferred in (refl, omega arith)) e)
        (Evolves-event w.task_id d.kind (w.version + 1) w.task_version w.phase d.status now x.1 f))

recover_rows-Evolves :
    (s : Service) (now : ℕ) (ws : List Workflow) (db : Db) {after : Db}
    → recover_rows s now ws db ≡ ok after
    → Evolves db after
recover_rows-Evolves s now [] db {after} h =
    unfold recover_rows in Evolves-same db after (ground arith) (ground arith)
recover_rows-Evolves s now (w ∷ ws) db {after} h =
    let (x, g, e) =
      bind_ok
        (defer_failure s w FailureReason.claim_expired now (some EventKind.claim_expired) none none
          db)
        (λ (x : OperationResult × Db). recover_rows s now ws x.1) {out = after}
        (unfold recover_rows in h) in
    Evolves-trans db x.1 after
      (defer_failure-Evolves s w FailureReason.claim_expired now (some EventKind.claim_expired) none
        none db e)
      (recover_rows-Evolves s now ws x.1 g)

pub recover_expired-Evolves :
    (s : Service) (now : ℕ) (db : Db) {after : Db}
    → recover_expired s now db ≡ ok after
    → Evolves db after
recover_expired-Evolves s now db h =
    recover_rows-Evolves s now (select_rows (is_expired now) db.workflows) db
      (unfold recover_expired in h)
