-- ===== src/Evolution/Calls.antt =====
-- The calls of a claim and of a reader in task_execution.py as evolutions of the database.
use foxhound.Prelude.{
  ℕ, ◌+◌, ◌≤◌, ◌≡◌, refl, sym, subst, ◌∙◌, String, Bool, true, false, Option, none, some, List, [],
  ◌++◌, arith, Attempt, ok, inl, inr, if◌then◌else◌,
}
use foxhound.Schema.{Workflow, WorkflowPhase}
use foxhound.Store.{find_workflow, replace_workflow}
use foxhound.Tables.{Db, Event}
use foxhound.Store.Rows.{Checked, Valid, find_workflow-key, find_workflow-Checked}
use foxhound.Operation.{OperationResult, Refuses}
use foxhound.Service.{Service}
use foxhound.Failure.{deferred}
use foxhound.Lease.{keep_evidence}
use foxhound.Lease.Reported.{strip_evidence}
use foxhound.Lease.Calls.{
  LeaseCall, renews, attaches, releases, fails, lease_call, lease_db, lease_call_total,
}
use foxhound.Lease.Retired.{
  lease_row, lease_row-key, lease_db-rows, lease_db-find, lease_call-Valid,
}
use foxhound.Gate.Snooze.{Zone}
use foxhound.Gate.Start.{
  StartAction, GateMove, is_start, keep_owner, start_move, start_action, gated,
}
use foxhound.Gate.Start.Total.{start_db, keep_owner-frame, start_action_total}
use foxhound.Gate.Review.{review_action}
use foxhound.Gate.Review.Total.{review_action_total}
use foxhound.Gate.Moves.{
  move_fits, gated_row, gated-Checked, gate_db, start_move-fits, review_move-fits,
}
use foxhound.Queue.{retried, retry}
use foxhound.Queue.Retry.{retried-Checked, retry_total}
use foxhound.Evolution.{Evolves, Evolves-same, Evolves-trans, Evolves-replaced, append_nil}

-- A call whose result is known: the caller's names for the result and the database are those.
pub result-Evolves :
    {m : Attempt (OperationResult × Db)} (db d : Db) (x : OperationResult) {out : OperationResult}
    {after : Db}
    → m ≡ ok (x, d)
    → Evolves db d
    → m ≡ ok (out, after)
    → Evolves db after
result-Evolves db d x {after = after} e v h = let same : d ≡ after = cc in subst (Evolves db) same v

pub refused-Evolves :
    (m : Attempt (OperationResult × Db)) (db : Db) {out : OperationResult} {after : Db}
    → Refuses m db
    → m ≡ ok (out, after)
    → Evolves db after
refused-Evolves m db (x, e, _) h = result-Evolves db db x e (Evolves-same db db refl refl) h

events-keep_evidence :
    (id version : ℕ) (phase : WorkflowPhase) (run text : Option String) (now : ℕ) (db : Db)
    → (keep_evidence id version phase run text now db).events ≡ db.events
unfolding keep_evidence
events-keep_evidence id version phase run none now db = refl
events-keep_evidence id version phase run (some t) now db = ground arith

lease_db-log :
    (s : Service) (db : Db) (id version now : ℕ) (call : LeaseCall) (w : Workflow)
    → (es : List Event) × ((lease_db s db id version now call w).events ≡ db.events ++ es)
unfolding lease_db
lease_db-log s db id version now (renews lease) w = (_, refl)
lease_db-log s db id version now (attaches run) w = ([], sym (append_nil db.events))
lease_db-log s db id version now releases w = (_, refl)
lease_db-log s db id version now (fails r e run text) w =
    (_, events-keep_evidence id version w.phase run (strip_evidence text) now _)

lease_row-rises :
    (s : Service) (db : Db) (version now : ℕ) (call : LeaseCall) (w : Workflow)
    → w.version ≡ version
    → w.version ≤ (lease_row s db version now call w).version
unfolding lease_row deferred
lease_row-rises s db version now (renews lease) w v = omega arith
lease_row-rises s db version now (attaches run) w v = omega arith
lease_row-rises s db version now releases w v = omega arith
lease_row-rises s db version now (fails r e run text) w v = omega arith

pub lease_call-Evolves :
    (s : Service) (now id version : ℕ) (token : String) (call : LeaseCall) (db : Db)
    {out : OperationResult} {after : Db}
    → Valid db
    → lease_call s now id version token call db ≡ ok (out, after)
    → Evolves db after
lease_call-Evolves s now id version token call db {out} {after} v h =
    elim (lease_call_total s now id version token call db v) [
      | inl r ↦ refused-Evolves (lease_call s now id version token call db) db {out = out} r h
      | inr (w, x, f, held, e, _) ↦
          let d = lease_db s db id version now call w in
          let row = lease_row s db version now call w in
          let (es, log) = lease_db-log s db id version now call w in
          let k = find_workflow-key id db.workflows f in
          let valid = lease_call-Valid s now id version token call db v e in
          result-Evolves db d x {out = out} e
            (Evolves-trans db
              (record db {
                workflows = replace_workflow id row db.workflows;
                events = db.events ++ es;
              })
              d
              (Evolves-replaced db id row es f (lease_row-key s db version now call w ∙ k)
                (lease_row-rises s db version now call w held.version)
                (find_workflow-Checked id d.workflows valid.rows
                  (lease_db-find s db id version now call w f)))
              (Evolves-same _ d (lease_db-rows s db id version now call w k) log))
            h
    ]

gate_db-Evolves :
    (db : Db) (id expected : ℕ) (m : GateMove) (now : ℕ) (w : Workflow)
    → move_fits m ≡ true
    → Checked w
    → find_workflow id db.workflows ≡ some w
    → w.version ≡ expected
    → Evolves db (gate_db db id expected m now w)
gate_db-Evolves db id expected m now w fits c f v =
    Evolves-replaced db id (gated_row m (expected + 1) now w) _ f
      (unfold gated in find_workflow-key id db.workflows f) (unfold gated in omega arith)
      (gated-Checked m expected now w fits c)

pub start_action-Evolves :
    (z : Zone) (now id expected : ℕ) (action : String) (db : Db) {out : OperationResult}
    {after : Db}
    → Valid db
    → start_action z now id expected action db ≡ ok (out, after)
    → Evolves db after
start_action-Evolves z now id expected action db {out} {after} v h =
    elim (start_action_total z now id expected action db v) [
      | inl r ↦ refused-Evolves (start_action z now id expected action db) db {out = out} r h
      | inr (w, a, x, _, f, version, _, _, e, _) ↦
          let m = start_move z now w.phase a in
          let g =
            gate_db-Evolves db id expected m now w (start_move-fits z now w.phase a)
              (find_workflow-Checked id db.workflows v.rows f) f version in
          result-Evolves db (start_db z db id expected now a w) x {out = out} e
            (closed w a (is_start a) g) h
    ]
  where
    closed :
        (w : Workflow) (a : StartAction) (b : Bool)
        → Evolves db (gate_db db id expected (start_move z now w.phase a) now w)
        → let d = gate_db db id expected (start_move z now w.phase a) now w in
          Evolves db (if b then keep_owner id w.task_version now d else d)
    closed w a false g = g
    closed w a true g =
        let d = gate_db db id expected (start_move z now w.phase a) now w in
        let (p, q) = keep_owner-frame id w.task_version now d in
        Evolves-trans db d _ g (Evolves-same d _ p q)

pub review_action-Evolves :
    (z : Zone) (now id expected : ℕ) (action : String) (db : Db) {out : OperationResult}
    {after : Db}
    → Valid db
    → review_action z now id expected action db ≡ ok (out, after)
    → Evolves db after
review_action-Evolves z now id expected action db {out} {after} v h =
    elim (review_action_total z now id expected action db v) [
      | inl r ↦ refused-Evolves (review_action z now id expected action db) db {out = out} r h
      | inr r ↦
          let fits = review_move-fits z now r.row.phase r.outcome r.action r.moves in
          result-Evolves db (gate_db db id expected r.move now r.row) r.out {out = out} r.result
            (gate_db-Evolves db id expected r.move now r.row fits
              (find_workflow-Checked id db.workflows v.rows r.found) r.found r.version)
            h
    ]

pub retry-Evolves :
    (now id expected : ℕ) (db : Db) {out : OperationResult} {after : Db}
    → Valid db
    → retry now id expected db ≡ ok (out, after)
    → Evolves db after
retry-Evolves now id expected db {out} {after} v h = elim (retry_total now id expected db v) [
  | inl r ↦ refused-Evolves (retry now id expected db) db {out = out} r h
  | inr (w, x, f, version, waits, _, e, _) ↦
      result-Evolves db _ x {out = out} e
        (Evolves-replaced db id (retried (expected + 1) now w) _ f
          (find_workflow-key id db.workflows f) (omega arith)
          (retried-Checked expected now w waits (find_workflow-Checked id db.workflows v.rows f)))
        h
]
