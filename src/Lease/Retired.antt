-- ===== src/Lease/Retired.antt =====
-- A claim after it was given back, and the table after the calls of a claim in task_execution.py.
use foxhound.Prelude.{
  ℕ, ◌+◌, ◌≡◌, refl, sym, ap, subst, ◌∙◌, String, Bool, true, false, Option, none, some, arith, ok,
  ◌⊎◌, inl, inr,
}
use foxhound.Schema.{Workflow, WorkflowPhase, running, run_id_column, exit_code_column}
use foxhound.Store.{find_workflow, replace_workflow}
use foxhound.Tables.{Db}
use foxhound.Store.Rows.{
  Valid, Checked, find_workflow-key, find_workflow-Checked, All-replace_workflow, find-replace_self,
}
use foxhound.Operation.{Refuses, OperationResult, applied, refused}
use foxhound.Service.{Service}
use foxhound.Failure.{deferred, deferral_of}
use foxhound.Failure.Checks.{deferral_cases, deferred-Checked}
use foxhound.Lease.{renewed, requeued, named_run, keep_evidence, attach_run_id, fail}
use foxhound.Lease.Reported.{valid_run_id, valid_failure, strip_evidence}
use foxhound.Lease.Moves.{Held, renewed-Checked, requeued-Checked}
use foxhound.Lease.Total.{Applies, named_run-Checked}
use foxhound.Lease.Returned.{run_named-columns}
use foxhound.Lease.Calls.{
  LeaseCall, renews, attaches, releases, fails, lease_call, lease_db, lease_call_total,
}

-- The row that a call of a live claim writes.
unfoldable pub lease_row : Service → Db → ℕ → ℕ → LeaseCall → Workflow → Workflow
lease_row s db version now (renews lease) w = renewed now (now + lease) w
lease_row s db version now (attaches run) w = named_run run now w
lease_row s db version now releases w = requeued (version + 1) now w
lease_row s db version now (fails r e run text) w =
    deferred (deferral_of s db w r e now none) r now e run w

workflows-keep_evidence :
    (id version : ℕ) (phase : WorkflowPhase) (run text : Option String) (now : ℕ) (db : Db)
    → (keep_evidence id version phase run text now db).workflows ≡ db.workflows
unfolding keep_evidence
workflows-keep_evidence id version phase run none now db = refl
workflows-keep_evidence id version phase run (some t) now db = ground arith

pub lease_db-rows :
    (s : Service) (db : Db) (id version now : ℕ) (call : LeaseCall) (w : Workflow)
    → w.task_id ≡ id
    → (lease_db s db id version now call w).workflows
      ≡ replace_workflow id (lease_row s db version now call w) db.workflows
unfolding lease_db lease_row
lease_db-rows s db id version now (renews lease) w k = refl
lease_db-rows s db id version now (attaches run) w k = refl
lease_db-rows s db id version now releases w k = refl
lease_db-rows s db id version now (fails r e run text) w k =
    workflows-keep_evidence id version w.phase run (strip_evidence text) now _
    ∙ ap
        (λ i.
          replace_workflow i (deferred (deferral_of s db w r e now none) r now e run w)
            db.workflows)
        k

-- The calls that end a claim.
abbrev pub gives_back : LeaseCall → Bool
gives_back releases = true
gives_back (fails r e run text) = true
gives_back _ = false

lease_row-version :
    (s : Service) (db : Db) (version now : ℕ) (call : LeaseCall) (w : Workflow)
    → gives_back call ≡ true
    → w.version ≡ version
    → (lease_row s db version now call w).version ≡ version + 1
unfolding lease_row deferred
lease_row-version s db version now (renews lease) w g v = cc
lease_row-version s db version now (attaches run) w g v = cc
lease_row-version s db version now releases w g v = refl
lease_row-version s db version now (fails r e run text) w g v = ap (λ (n : ℕ). n + 1) v

pub lease_row-key :
    (s : Service) (db : Db) (version now : ℕ) (call : LeaseCall) (w : Workflow)
    → (lease_row s db version now call w).task_id ≡ w.task_id
unfolding lease_row deferred
lease_row-key s db version now (renews lease) w = refl
lease_row-key s db version now (attaches run) w = refl
lease_row-key s db version now releases w = refl
lease_row-key s db version now (fails r e run text) w = refl

pub lease_db-find :
    (s : Service) (db : Db) (id version now : ℕ) (call : LeaseCall) (w : Workflow)
    → find_workflow id db.workflows ≡ some w
    → find_workflow id (lease_db s db id version now call w).workflows
      ≡ some (lease_row s db version now call w)
lease_db-find s db id version now call w f =
    let k = find_workflow-key id db.workflows f in
    rw (lease_db-rows s db id version now call w k) (
      find-replace_self id (lease_row s db version now call w) db.workflows
        (lease_row-key s db version now call w ∙ k) f)

abbrev version_of : Option Workflow → ℕ
version_of none = 0
version_of (some w) = w.version

-- What the checks of a call's arguments give of the columns that it writes.
abbrev CallColumns : LeaseCall → Type 0
CallColumns (attaches run) = valid_run_id run ≡ true
CallColumns (fails r e run text) = (exit_code_column e ≡ true) × (run_id_column run ≡ true)
CallColumns _ = Unit

call_columns :
    (s : Service) (now id version : ℕ) (token : String) (call : LeaseCall) (db : Db)
    {out : OperationResult} {after : Db}
    → lease_call s now id version token call db ≡ ok (out, after)
    → out.disposition ≡ applied
    → CallColumns call
unfolding lease_call
call_columns s now id version token (renews lease) db e a = tt
call_columns s now id version token (attaches run) db e a = unfold attach_run_id in ground arith
call_columns s now id version token releases db e a = tt
call_columns s now id version token (fails r x run text) db e a =
    unfold fail valid_failure in run_named-columns r x run (ground arith)

lease_row-Checked :
    (s : Service) (db : Db) (version now : ℕ) (call : LeaseCall) (w : Workflow)
    → CallColumns call
    → w.status ≡ running
    → Checked w
    → Checked (lease_row s db version now call w)
unfolding lease_row
lease_row-Checked s db version now (renews lease) w q r c = renewed-Checked now (now + lease) w r c
lease_row-Checked s db version now (attaches run) w q r c = named_run-Checked run now w q c
lease_row-Checked s db version now releases w q r c = requeued-Checked version now w r c
lease_row-Checked s db version now (fails x e run text) w q r c =
    deferred-Checked (deferral_of s db w x e now none) x e run now w
      (unfold deferral_of in deferral_cases _ _ _ x e w.failure_count now none) (ground arith) c q.0
      q.1

-- A call of a claim leaves a table whose rows all pass their CHECKs.
pub lease_call-Valid :
    (s : Service) (now id version : ℕ) (token : String) (call : LeaseCall) (db : Db)
    {out : OperationResult} {after : Db}
    → Valid db
    → lease_call s now id version token call db ≡ ok (out, after)
    → Valid after
lease_call-Valid s now id version token call db {out} {after} v e =
    elim (lease_call_total s now id version token call db v) [
      | inl (o, p, r) ↦ subst Valid (same_db o p) v
      | inr (w, o, f, h, p, a) ↦ subst Valid (same_db o p) (record {
        rows = rw (lease_db-rows s db id version now call w (find_workflow-key id db.workflows f)) (
            All-replace_workflow id _ db.workflows v.rows (
              lease_row-Checked s db version now call w
                (call_columns s now id version token call db p a) h.status
                (find_workflow-Checked id db.workflows v.rows f)));
      })
    ]
  where
    same_db :
        (o : OperationResult) {d : Db}
        → lease_call s now id version token call db ≡ ok (o, d)
        → d ≡ after
    same_db o p = cc

-- Once a claim has been released or has failed, its version is spent: in a table of checked rows
-- every later call that presents that version is refused, with any token and at any time.
pub retired_claim :
    (s : Service) (now id version : ℕ) (token : String) (call : LeaseCall) (db : Db)
    {out : OperationResult} {after : Db} (later : ℕ) (token' : String) (call' : LeaseCall)
    → Valid db
    → gives_back call ≡ true
    → lease_call s now id version token call db ≡ ok (out, after)
    → out.disposition ≡ applied
    → Refuses (lease_call s later id version token' call' after) after
retired_claim s now id version token call db {out} {after} later token' call' v g e a =
    elim (lease_call_total s now id version token call db v) [
      | inl (o, p, r) ↦ absurd (refused_applied out o p r)
      | inr (w, o, f, h, p, _) ↦ spent w f h (same_db o w p) (
          lease_call_total s later id version token' call' after
            (lease_call-Valid s now id version token call db v e))
    ]
  where
    refused_applied :
        (x o : OperationResult)
        → lease_call s now id version token call db ≡ ok (o, db)
        → o.disposition ≡ refused
        → ⊥
    refused_applied x o p r = cc

    same_db :
        (o : OperationResult) (w : Workflow)
        → lease_call s now id version token call db ≡ ok (o, lease_db s db id version now call w)
        → after ≡ lease_db s db id version now call w
    same_db o w p = cc

    spent :
        (w : Workflow)
        → find_workflow id db.workflows ≡ some w
        → Held w version (s.token_digest token) now
        → after ≡ lease_db s db id version now call w
        → Refuses (lease_call s later id version token' call' after) after
          ⊎ Applies
              (lease_call s later id version token' call' after)
              after
              id
              version
              (s.token_digest token')
              later
              (lease_db s after id version later call')
        → Refuses (lease_call s later id version token' call' after) after
    spent w f h q (inl r) = r
    spent w f h q (inr (u, o, fu, hu, _, _)) = absurd (
        clash u
          (sym fu
            ∙ ap (λ (d : Db). find_workflow id d.workflows) q
            ∙ lease_db-find s db id version now call w f)
          hu.version (lease_row-version s db version now call w g h.version))
      where
        clash :
            (u : Workflow) {r : Workflow}
            → some u ≡ some r
            → u.version ≡ version
            → r.version ≡ version + 1
            → ⊥
        clash u {r} p hv hr = omega (arith, ap version_of p)
