-- ===== src/Claim/Next/Writing.antt =====
-- What the writes of a claim of task_execution.py leave behind for its holder.
use foxhound.Prelude.{
  ℕ, ◌+◌, ◌<◌, ◌≡◌, refl, sym, subst, ap, ◌∙◌, String, Bool, true, false, Option, none, some, List,
  arith, Attempt, ok, bind_ok,
}
use foxhound.Schema.{Workflow, running}
use foxhound.Store.{find_task, find_workflow, replace_workflow, write}
use foxhound.Tables.{Db, Task, claimed}
use foxhound.Store.Rows.{
  find_workflow-key, find-replace_self, write-true, event-replaced, moved, event_row,
}
use foxhound.Profiles.{AgentProfile}
use foxhound.Service.{Service}
use foxhound.Lease.Moves.{Held}
use foxhound.Claim.{ExecutionClaim}
use foxhound.Claim.Next.{
  Scan, take, pass, Scanned, Passed, claim_of, claimed_row, claimable, claim_written, claim_task,
  claim_scanned,
}

-- The claim names a running row, which its token holds until the claim expires.
pub record Grants (s : Service) (now : ℕ) (token : String) (w : Workflow) (p : AgentProfile)
    (c : ExecutionClaim) (after : Db) : Type 0 where
  pub row : Workflow
  pub found : find_workflow c.task_id after.workflows ≡ some row
  pub held :
      (later : ℕ)
      → later < c.expires_at
      → Held row c.workflow_version (s.token_digest c.token) later
  pub secret : c.token ≡ token
  pub task : c.task_id ≡ w.task_id
  pub phase : c.phase ≡ w.phase
  pub profile : c.agent_profile_id ≡ p.profile_id
  pub revision : c.agent_profile_revision ≡ p.revision
  pub lease : c.lease_seconds ≡ p.claim_lease_seconds
  pub expiry : c.expires_at ≡ now + p.claim_lease_seconds

-- The row that a claim writes over `u`, and the database then.
abbrev taken_row : Service → ℕ → String → Workflow → AgentProfile → Workflow → Workflow
taken_row s now token w p u =
    claimed_row (w.version + 1) (s.token_digest token) now (now + p.claim_lease_seconds) u

abbrev taken_db : Service → ℕ → String → Workflow → AgentProfile → Db → Workflow → Db
taken_db s now token w p db u =
    let v = taken_row s now token w p u in
    moved db w.task_id v
      (event_row w.task_id claimed (w.version + 1) w.task_version w.phase running now v)

taken_db-Grants :
    (s : Service) (now : ℕ) (token : String) (w : Workflow) (p : AgentProfile) (t : Task) (db : Db)
    (u : Workflow)
    → find_workflow w.task_id db.workflows ≡ some u
    → Grants s now token w p (claim_of now token w p t) (taken_db s now token w p db u)
taken_db-Grants s now token w p t db u f = record {
  row = taken_row s now token w p u;
  found =
      find-replace_self w.task_id (taken_row s now token w p u) db.workflows
        (find_workflow-key w.task_id db.workflows f) f;
  held = λ later l. record {
    version = refl;
    status = refl;
    token = refl;
    live = (now + p.claim_lease_seconds, refl, l);
  };
  secret = refl;
  task = refl;
  phase = refl;
  profile = refl;
  revision = refl;
  lease = refl;
  expiry = refl;
}

claim_written-applied :
    (s : Service) (now : ℕ) (token : String) (w : Workflow) (p : AgentProfile) (t : Task)
    (deferred : List ℕ) (before db : Db) (u : Workflow)
    → find_workflow w.task_id db.workflows ≡ some u
    → claim_written now token w p t deferred before (
      true,
      record db {
        workflows = replace_workflow w.task_id (taken_row s now token w p u) db.workflows;
      },
    )
      ≡ ok (
        record { claim = some (claim_of now token w p t); deferred = deferred },
        taken_db s now token w p db u,
      )
unfolding claim_written
claim_written-applied s now token w p t deferred before db u f = rw (
    event-replaced w.task_id claimed (w.version + 1) w.task_version w.phase running now db
      (taken_row s now token w p u) (find_workflow-key w.task_id db.workflows f) f)

-- A result that is an explicit claim: what holds of it holds of the names the caller gave.
named_claim :
    (s : Service) (now : ℕ) (token : String) (w : Workflow) (p : AgentProfile) (x : ExecutionClaim)
    (d : Db) (deferred : List ℕ) {m : Attempt (Passed × Db)} {r : Passed} {after : Db}
    {c : ExecutionClaim}
    → m ≡ ok (record { claim = some x; deferred = deferred }, d)
    → m ≡ ok (r, after)
    → r.claim ≡ some c
    → Grants s now token w p x d
    → Grants s now token w p c after
named_claim s now token w p x d deferred {r = r} {after = after} {c = c} e h k g =
    let i : c ≡ x = cc in
    let q : after ≡ d = cc in
    subst (λ y. Grants s now token w p y after) (sym i) (subst (Grants s now token w p x) (sym q) g)

claim_written-Grants :
    (s : Service) (now : ℕ) (token : String) (w : Workflow) (p : AgentProfile) (t : Task)
    (deferred : List ℕ) (before db : Db) (b : Bool) (d : Db) {r : Passed} {after : Db}
    {c : ExecutionClaim}
    → write w.task_id (claimable w.version) (taken_row s now token w p) db ≡ ok (b, d)
    → claim_written now token w p t deferred before (b, d) ≡ ok (r, after)
    → r.claim ≡ some c
    → Grants s now token w p c after
claim_written-Grants s now token w p t deferred before db false d e h k = unfold claim_written in cc
claim_written-Grants s now token w p t deferred before db true d {r} {after} {c} e h k =
    let (u, f, _, _, y) =
      write-true w.task_id (claimable w.version) (taken_row s now token w p) db e in
    named_claim s now token w p (claim_of now token w p t) (taken_db s now token w p db u) deferred
      {r = r} (claim_written-applied s now token w p t deferred before db u f)
      (sym (ap (λ (x : Db). claim_written now token w p t deferred before (true, x)) y) ∙ h) k
      (taken_db-Grants s now token w p t db u f)

claim_task-Grants :
    (s : Service) (now : ℕ) (token : String) (w : Workflow) (p : AgentProfile) (deferred : List ℕ)
    (before db : Db) (o : Option Task) {r : Passed} {after : Db} {c : ExecutionClaim}
    → claim_task s now token w p deferred before o db ≡ ok (r, after)
    → r.claim ≡ some c
    → Grants s now token w p c after
claim_task-Grants s now token w p deferred before db none h k = unfold claim_task in cc
claim_task-Grants s now token w p deferred before db (some t) {r} {after} {c} h k =
    let (b, g, e) =
      bind_ok (write w.task_id (claimable w.version) (taken_row s now token w p) db)
        (claim_written now token w p t deferred before) {out = (r, after)}
        (unfold claim_task in h) in
    claim_written-Grants s now token w p t deferred before db b.0 b.1 e g k

scanned_pass :
    (s : Service) (now : ℕ) (token : String) (before : Db) (x : Scanned) (db : Db)
    → x.taken ≡ pass
    → claim_scanned s now token before (x, db)
      ≡ ok (record { claim = none; deferred = x.deferred }, db)
unfolding claim_scanned
scanned_pass s now token before x db e = ground arith

scanned_take :
    (s : Service) (now : ℕ) (token : String) (before : Db) (x : Scanned) (db : Db) (w : Workflow)
    (p : AgentProfile)
    → x.taken ≡ take w p
    → claim_scanned s now token before (x, db)
      ≡ claim_task s now token w p x.deferred before (find_task w.task_id db.tasks) db
unfolding claim_scanned
scanned_take s now token before x db w p e = ground arith

pub claim_scanned-Grants :
    (s : Service) (now : ℕ) (token : String) (before : Db) (x : Scanned) (db : Db) (k : Scan)
    {r : Passed} {after : Db} {c : ExecutionClaim}
    → x.taken ≡ k
    → claim_scanned s now token before (x, db) ≡ ok (r, after)
    → r.claim ≡ some c
    → (w : Workflow) × (p : AgentProfile) × (k ≡ take w p) × Grants s now token w p c after
claim_scanned-Grants s now token before x db pass {r} {after} {c} e h k =
    let g = scanned_pass s now token before x db e in cc
claim_scanned-Grants s now token before x db (take w p) {r} {after} {c} e h k = (
  w,
  p,
  refl,
  claim_task-Grants s now token w p x.deferred before db (find_task w.task_id db.tasks) {r = r}
      (sym (scanned_take s now token before x db w p e) ∙ h) k,
)
