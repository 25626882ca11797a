-- ===== src/Claim/Next/Scanning.antt =====
-- The scan of `claim_next` of task_execution.py over its candidates as an evolution of the database.
use foxhound.Prelude.{
  ℕ, ◌+◌, ◌≡◌, refl, ap, subst, String, Bool, true, false, Option, none, some, List, [], ◌∷◌, ◌++◌,
  arith, Attempt, ok, bind_ok, Bool-cases, inl, inr,
}
use foxhound.Schema.{Workflow, plan, awaiting_start, startup_failed, same_phase}
use foxhound.Store.{write, event, find_task}
use foxhound.Tables.{Db, Task, ReviewStatus, scheduled}
use foxhound.Operation.{OperationResult}
use foxhound.Profiles.{AgentProfile}
use foxhound.Service.{Service}
use foxhound.Failure.{defer_failure}
use foxhound.Condition.{evaluate_task_conditions}
use foxhound.Condition.Frame.{evaluate_task_conditions-frame}
use foxhound.Claim.{Advice, GateDecision, unselected, hold, bypass, receipt}
use foxhound.Claim.Next.{
  Scanned, Scan, take, pass, gate_holds, scan_profile, scan_gated, scan_eligible, scan_one, scan,
  usable_profile,
}
use foxhound.Claim.Ownership.{
  hold_for_ownership_review, record_ownership_review, ownership_review_status, is_pending, held_row,
  holdable, held_written, hold_proposed, hold_unreviewed,
}
use foxhound.Evolution.{Evolves, Evolves-same, Evolves-trans, Evolves-write, Evolves-event}
use foxhound.Evolution.Claims.{defer_failure-Evolves}

-- A call that returned the database that it was given.
pub kept : (db : Db) {A : Type 0} {x : A} {out : A × Db} → ok (x, db) ≡ ok out → Evolves db out.1
kept db {x = x} {out = out} h =
    let same : db ≡ out.1 = cc in subst (Evolves db) same (Evolves-same db db refl refl)

reviewed_same :
    (id version : ℕ) (owner : String) (db : Db)
    → Evolves db (record_ownership_review id version owner db)
reviewed_same id version owner db =
    unfold record_ownership_review in Evolves-same db _ (ground arith) (ground arith)

held_written-Evolves :
    (w : Workflow) (owner : String) (now : ℕ) (hit : Bool) (db : Db) {out : Bool × Db}
    → held_written w owner now (hit, db) ≡ ok out
    → Evolves db out.1
held_written-Evolves w owner now false db {out} h =
    kept db {x = false} {out = out} (unfold held_written in h)
held_written-Evolves w owner now true db {out} h =
    let d = record_ownership_review w.task_id w.task_version owner db in
    let (y, k, f) =
      bind_ok (event w.task_id scheduled (w.version + 1) w.task_version plan awaiting_start now d)
        (λ (y : Db). ok (true, y)) {out = out} (unfold held_written in h) in
    let same : y ≡ out.1 = cc in
    Evolves-trans db d out.1 (reviewed_same w.task_id w.task_version owner db) (
      subst (Evolves d) same (
        Evolves-event w.task_id scheduled (w.version + 1) w.task_version plan awaiting_start now d
          f))

hold_proposed-Evolves :
    (w : Workflow) (o : Option String) (now : ℕ) (db : Db) {out : Bool × Db}
    → hold_proposed w o now db ≡ ok out
    → Evolves db out.1
hold_proposed-Evolves w none now db {out} h =
    kept db {x = false} {out = out} (unfold hold_proposed in h)
hold_proposed-Evolves w (some owner) now db {out} h =
    let (x, g, e) =
      bind_ok (write w.task_id (holdable w.version) (held_row (w.version + 1) now) db)
        (held_written w owner now) {out = out} (unfold hold_proposed in h) in
    Evolves-trans db x.1 out.1
      (Evolves-write w.task_id (holdable w.version) (held_row (w.version + 1) now) db x.0
        (λ r t. (refl, ground arith)) e)
      (held_written-Evolves w owner now x.0 x.1 g)

hold_unreviewed-Evolves :
    (a : Advice) (w : Workflow) (now : ℕ) (r : Option ReviewStatus) (t : Option Task) (db : Db)
    {out : Bool × Db}
    → hold_unreviewed a w now r t db ≡ ok out
    → Evolves db out.1
hold_unreviewed-Evolves a w now (some r) t db {out} h =
    kept db {x = is_pending r} {out = out} (unfold hold_unreviewed in h)
hold_unreviewed-Evolves a w now none none db {out} h =
    kept db {x = false} {out = out} (unfold hold_unreviewed in h)
hold_unreviewed-Evolves a w now none (some t) db {out} h =
    hold_proposed-Evolves w (a.disagreement w.task_id) now db {out = out}
      (unfold hold_unreviewed in h)

gate_of : Advice → Workflow → ℕ → Db → GateDecision → Attempt (Bool × Db)
gate_of a w now db unselected = ok (false, db)
gate_of a w now db hold = ok (true, db)
gate_of a w now db bypass = ok (false, db)
gate_of a w now db receipt = hold_for_ownership_review a w now db

gate_of-Evolves :
    (a : Advice) (w : Workflow) (now : ℕ) (db : Db) (d : GateDecision) {out : Bool × Db}
    → gate_of a w now db d ≡ ok out
    → Evolves db out.1
unfolding gate_of
gate_of-Evolves a w now db unselected h = kept db {x = false} h
gate_of-Evolves a w now db hold h = kept db {x = true} h
gate_of-Evolves a w now db bypass h = kept db {x = false} h
gate_of-Evolves a w now db receipt {out} h =
    hold_unreviewed-Evolves a w now
      (ownership_review_status w.task_id w.task_version db.ownership_reviews)
      (find_task w.task_id db.tasks) db {out = out} (unfold hold_for_ownership_review in h)

gate_holds-Evolves :
    (a : Advice) (w : Workflow) (now : ℕ) (db : Db) {out : Bool × Db}
    → gate_holds a w now db ≡ ok out
    → Evolves db out.1
gate_holds-Evolves a w now db {out} h = elim (Bool-cases (same_phase w.phase plan)) [
  | inl e ↦ gate_of-Evolves a w now db (a.research w) (through (a.research w) refl e)
  | inr e ↦ kept db {x = false} (unselected_phase e)
]
  where
    through :
        (d : GateDecision)
        → a.research w ≡ d
        → same_phase w.phase plan ≡ true
        → gate_of a w now db (a.research w) ≡ ok out
    through d q e = unfold gate_holds gate_of in ground arith

    unselected_phase : same_phase w.phase plan ≡ false → ok (false, db) ≡ ok out
    unselected_phase e = unfold gate_holds in ground arith

scan_profile-Evolves :
    (s : Service) (w : Workflow) (now : ℕ) (p : Option AgentProfile) (db : Db) {out : Scanned × Db}
    → scan_profile s w now p db ≡ ok out
    → Evolves db out.1
scan_profile-Evolves s w now (some p) db {out} h =
    kept db {x = record { taken = take w p; deferred = [] }} {out = out} (unfold scan_profile in h)
scan_profile-Evolves s w now none db {out} h =
    let r : Scanned = record { taken = pass; deferred = w.task_id ∷ [] } in
    let (x, g, e) =
      bind_ok (defer_failure s w startup_failed now none none none db)
        (λ (x : OperationResult × Db). ok (r, x.1)) {out = out} (unfold scan_profile in h) in
    let same : x.1 ≡ out.1 = cc in
    subst (Evolves db) same (defer_failure-Evolves s w startup_failed now none none none db e)

scan_gated-Evolves :
    (s : Service) (w : Workflow) (now : ℕ) (held : Bool) (db : Db) {out : Scanned × Db}
    → scan_gated s w now (held, db) ≡ ok out
    → Evolves db out.1
scan_gated-Evolves s w now true db {out} h =
    kept db {x = record { taken = pass; deferred = [] }} {out = out} (unfold scan_gated in h)
scan_gated-Evolves s w now false db {out} h =
    scan_profile-Evolves s w now (usable_profile s w) db {out = out} (unfold scan_gated in h)

scan_eligible-Evolves :
    (s : Service) (a : Advice) (w : Workflow) (now : ℕ) (eligible : Bool) (db : Db)
    {out : Scanned × Db}
    → scan_eligible s a w now (eligible, db) ≡ ok out
    → Evolves db out.1
scan_eligible-Evolves s a w now false db {out} h =
    kept db {x = record { taken = pass; deferred = [] }} {out = out} (unfold scan_eligible in h)
scan_eligible-Evolves s a w now true db {out} h =
    let (x, g, e) =
      bind_ok (gate_holds a w now db) (scan_gated s w now) {out = out}
        (unfold scan_eligible in h) in
    Evolves-trans db x.1 out.1 (gate_holds-Evolves a w now db e)
      (scan_gated-Evolves s w now x.0 x.1 g)

scan_one-Evolves :
    (s : Service) (a : Advice) (now : ℕ) (w : Workflow) (db : Db) {out : Scanned × Db}
    → scan_one s a now w db ≡ ok out
    → Evolves db out.1
scan_one-Evolves s a now w db {out} h =
    let x = evaluate_task_conditions db w.task_id w.task_version now in
    let f = (evaluate_task_conditions-frame db w.task_id w.task_version now).1 in
    Evolves-trans db x.1 out.1
      (Evolves-same db x.1 (ap (λ (d : Db). d.workflows) f) (ap (λ (d : Db). d.events) f))
      (scan_eligible-Evolves s a w now x.0 x.1 {out = out} (unfold scan_one in h))

-- How the loop goes on after one candidate.
abbrev pub scan_after :
    Service → Advice → ℕ → List Workflow → List ℕ → Scanned × Db → Scan → Attempt (Scanned × Db)
scan_after s a now ws deferred (r, db) (take v p) =
    ok (record { taken = take v p; deferred = deferred ++ r.deferred }, db)
scan_after s a now ws deferred (r, db) pass = scan s a now ws (deferred ++ r.deferred) db

scan_after-Evolves :
    (s : Service) (a : Advice) (now : ℕ) (ws : List Workflow) (deferred : List ℕ) (r : Scanned)
    (db : Db) (k : Scan) (out : Scanned × Db)
    → (scan s a now ws (deferred ++ r.deferred) db ≡ ok out → Evolves db out.1)
    → scan_after s a now ws deferred (r, db) k ≡ ok out
    → Evolves db out.1
scan_after-Evolves s a now ws deferred r db (take v p) out rest h =
    kept db {x = record { taken = take v p; deferred = deferred ++ r.deferred }} {out = out} h
scan_after-Evolves s a now ws deferred r db pass out rest h = rest h

pub scan-Evolves :
    (s : Service) (a : Advice) (now : ℕ) (ws : List Workflow) (deferred : List ℕ) (db : Db)
    {out : Scanned × Db}
    → scan s a now ws deferred db ≡ ok out
    → Evolves db out.1
scan-Evolves s a now [] deferred db {out} h =
    kept db {x = record { taken = pass; deferred = deferred }} {out = out} (unfold scan in h)
scan-Evolves s a now (w ∷ ws) deferred db {out} h =
    let (x, g, e) =
      bind_ok (scan_one s a now w db)
        (λ (x : Scanned × Db). scan_after s a now ws deferred x x.0.taken) {out = out}
        (unfold scan in h) in
    Evolves-trans db x.1 out.1 (scan_one-Evolves s a now w db e) (
      scan_after-Evolves s a now ws deferred x.0 x.1 x.0.taken out
        (λ q. scan-Evolves s a now ws (deferred ++ x.0.deferred) x.1 {out = out} q) g)
