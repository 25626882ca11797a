-- ===== src/Claim/Next/Claiming.antt =====
-- `claim_next` of task_execution.py as an evolution of the database.
use foxhound.Prelude.{
  ℕ, ◌+◌, ◌≡◌, refl, subst, String, Bool, true, false, Option, none, some, List, [], arith, Attempt,
  ok, ◌>>=◌, bind_ok, Bool-cases, inl, inr,
}
use foxhound.Schema.{Workflow, WorkflowPhase, running}
use foxhound.Store.{write, event, find_task}
use foxhound.Tables.{Db, Task, claimed}
use foxhound.Profiles.{AgentProfile}
use foxhound.Service.{Service}
use foxhound.Sweep.{cancel_stale, recover_expired}
use foxhound.Claim.{Advice, candidates, running_count, slots_full, phase_allowlist}
use foxhound.Claim.Next.{
  Scanned, Scan, take, pass, Passed, scan, claimed_row, claimable, claim_of, claim_written,
  claim_task, claim_scanned, claim_swept, claim_swept_in, claim_with_secret, claim_next,
}
use foxhound.Evolution.{Evolves, Evolves-trans, Evolves-write, Evolves-event}
use foxhound.Evolution.Claims.{cancel_stale-Evolves, recover_expired-Evolves}
use foxhound.Claim.Next.Scanning.{kept, scan-Evolves}

claim_written-Evolves :
    (now : ℕ) (token : String) (w : Workflow) (p : AgentProfile) (t : Task) (deferred : List ℕ)
    (before : Db) (hit : Bool) (db : Db) {out : Passed × Db}
    → Evolves before db
    → claim_written now token w p t deferred before (hit, db) ≡ ok out
    → Evolves before out.1
claim_written-Evolves now token w p t deferred before false db {out} b h =
    kept before {x = record { claim = none; deferred = deferred }} {out = out}
      (unfold claim_written in h)
claim_written-Evolves now token w p t deferred before true db {out} b h =
    let r : Passed = record { claim = some (claim_of now token w p t); deferred = deferred } in
    let (y, k, f) =
      bind_ok (event w.task_id claimed (w.version + 1) w.task_version w.phase running now db)
        (λ (y : Db). ok (r, y)) {out = out} (unfold claim_written in h) in
    let same : y ≡ out.1 = cc in
    subst (Evolves before) same (
      Evolves-trans before db y b
        (Evolves-event w.task_id claimed (w.version + 1) w.task_version w.phase running now db f))

claim_task-Evolves :
    (s : Service) (now : ℕ) (token : String) (w : Workflow) (p : AgentProfile) (deferred : List ℕ)
    (before db : Db) (t : Option Task) {out : Passed × Db}
    → Evolves before db
    → claim_task s now token w p deferred before t db ≡ ok out
    → Evolves before out.1
claim_task-Evolves s now token w p deferred before db none b h = unfold claim_task in cc
claim_task-Evolves s now token w p deferred before db (some t) {out} b h =
    let change =
      claimed_row (w.version + 1) (s.token_digest token) now (now + p.claim_lease_seconds) in
    let (x, g, e) =
      bind_ok (write w.task_id (claimable w.version) change db)
        (claim_written now token w p t deferred before) {out = out} (unfold claim_task in h) in
    claim_written-Evolves now token w p t deferred before x.0 x.1 {out = out}
      (Evolves-trans before db x.1 b (
        Evolves-write w.task_id (claimable w.version) change db x.0 (λ r t. (refl, ground arith))
          e))
      g

scanned_claim : Service → ℕ → String → Db → List ℕ → Db → Scan → Attempt (Passed × Db)
scanned_claim s now token before deferred db pass =
    ok (record { claim = none; deferred = deferred }, db)
scanned_claim s now token before deferred db (take w p) =
    claim_task s now token w p deferred before (find_task w.task_id db.tasks) db

scanned_claim-Evolves :
    (s : Service) (now : ℕ) (token : String) (before : Db) (deferred : List ℕ) (db : Db) (k : Scan)
    {out : Passed × Db}
    → Evolves before db
    → scanned_claim s now token before deferred db k ≡ ok out
    → Evolves before out.1
scanned_claim-Evolves s now token before deferred db pass {out} b h =
    let same : db ≡ out.1 = (unfold scanned_claim in ground arith) in subst (Evolves before) same b
scanned_claim-Evolves s now token before deferred db (take w p) {out} b h =
    claim_task-Evolves s now token w p deferred before db (find_task w.task_id db.tasks) {out = out}
      b (unfold scanned_claim in h)

claim_swept-Evolves :
    (s : Service) (a : Advice) (now : ℕ) (token : String) (phases : List WorkflowPhase)
    (before db : Db) {out : Passed × Db}
    → Evolves before db
    → claim_swept s a now token phases before db ≡ ok out
    → Evolves before out.1
claim_swept-Evolves s a now token phases before db {out} b h =
    elim (Bool-cases (slots_full s.execution_slot_cap (running_count db))) [
      | inl f ↦
          let none_claimed : Passed = record { claim = none; deferred = [] } in
          Evolves-trans before db out.1 b (kept db {x = none_claimed} {out = out} (full f))
      | inr f ↦
          let (x, g, e) =
            bind_ok (scan s a now (candidates a db phases now) [] db)
              (λ (x : Scanned × Db). scanned_claim s now token before x.0.deferred x.1 x.0.taken)
              {out = out} (free f) in
          scanned_claim-Evolves s now token before x.0.deferred x.1 x.0.taken {out = out}
            (Evolves-trans before db x.1 b
              (scan-Evolves s a now (candidates a db phases now) [] db e))
            g
    ]
  where
    full :
        slots_full s.execution_slot_cap (running_count db) ≡ true
        → ok (record { claim = none; deferred = [] }, db) ≡ ok out
    full f = unfold claim_swept in ground arith

    free :
        slots_full s.execution_slot_cap (running_count db) ≡ false
        → (scan s a now (candidates a db phases now) [] db
            >>= (λ (x : Scanned × Db). scanned_claim s now token before x.0.deferred x.1 x.0.taken))
          ≡ ok out
    free f = unfold claim_swept claim_scanned scanned_claim in ground arith

-- A pass over the queue.
pub claim_next-Evolves :
    (s : Service) (a : Advice) (now : ℕ) (token : String) (allowed : Option (List WorkflowPhase))
    (db : Db) {out : Passed × Db}
    → claim_next s a now token allowed db ≡ ok out
    → Evolves db out.1
claim_next-Evolves s a now token allowed db {out} h =
    let (phases, g, e) =
      bind_ok (phase_allowlist allowed) (claim_with_secret s a now token db) {out = out}
        (unfold claim_next in h) in
    let (d1, g1, e1) =
      bind_ok (cancel_stale now db)
        (λ d. recover_expired s now d >>= claim_swept s a now token phases db) {out = out}
        (admitted phases g) in
    let (d2, g2, e2) =
      bind_ok (recover_expired s now d1) (claim_swept s a now token phases db) {out = out} g1 in
    claim_swept-Evolves s a now token phases db d2 {out = out}
      (Evolves-trans db d1 d2 (cancel_stale-Evolves now db e1)
        (recover_expired-Evolves s now d1 e2))
      g2
  where
    admitted :
        (phases : List WorkflowPhase)
        → claim_with_secret s a now token db phases ≡ ok out
        → (cancel_stale now db
            >>= (λ d. recover_expired s now d >>= claim_swept s a now token phases db))
          ≡ ok out
    admitted phases g = unfold claim_with_secret claim_swept_in in ground arith
