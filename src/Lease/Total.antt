-- ===== src/Lease/Total.antt =====
-- Every branch of `renew` and `attach_run_id` of task_execution.py, on a table whose rows pass their
-- CHECKs.
use foxhound.Prelude.{
  ℕ, ◌+◌, ◌≡◌, refl, String, true, ◌&&◌, Option, none, some, arith, Attempt, ok, Bool-cases,
  Option-cases, ◌⊎◌, inl, inr,
}
use foxhound.Schema.{Workflow, queued, running, run_id_column, checks}
use foxhound.Store.{Joined, find_workflow, replace_workflow, workflow_with_task}
use foxhound.Tables.{Db, claim_renewed, released}
use foxhound.Store.Rows.{
  Checked, Valid, moved, event_row, find_workflow-key, find_workflow-Checked, write-applies,
  workflow_with_task-row, workflow_with_task-replaced,
}
use foxhound.Operation.{
  OperationResult, Refuses, refuse, refuse_row, invalid_argument, not_found, applied, operation,
  task_guard, then_guard, running_guard, valid_identity, valid_secret, valid_lease,
}
use foxhound.Service.{Service}
use foxhound.Failure.{deferred, deferral_of}
use foxhound.Lease.{
  FailedPass, renewed, requeued, named_run, held_by, keep_evidence, attach_at, attach_written,
  renew_at, attach_run_id, renew,
}
use foxhound.Lease.Reported.{valid_run_id}
use foxhound.Lease.Moves.{Held, running_guard-Held, held_by-Held}
use foxhound.Lease.Applied.{then_guard-none, renew_at-applied}

-- The operation applied, on the row that the caller's claim holds, and left this database.
abbrev pub Applies :
    Attempt (OperationResult × Db) → Db → ℕ → ℕ → String → ℕ → (Workflow → Db) → Type 0
Applies m db id expected digest now after =
    (w : Workflow) × (out : OperationResult) × (find_workflow id db.workflows ≡ some w)
    × Held w expected digest now
    × (m ≡ ok (out, after w))
    × (out.disposition ≡ applied)

abbrev pub renewed_db : Db → ℕ → ℕ → ℕ → ℕ → Workflow → Db
renewed_db db id expected now lease w =
    moved db id (renewed now (now + lease) w)
      (event_row id claim_renewed expected w.task_version w.phase running now w)

abbrev pub released_db : Db → ℕ → ℕ → ℕ → Workflow → Db
released_db db id expected now w =
    moved db id (requeued (expected + 1) now w)
      (event_row id released (expected + 1) w.task_version w.phase queued now w)

abbrev pub failed_db : Service → Db → ℕ → ℕ → ℕ → FailedPass → Workflow → Db
failed_db s db id expected now f w =
    let d = deferral_of s db w f.reason f.exit_code now none in
    keep_evidence id expected w.phase f.run_id f.evidence now (
      moved db w.task_id (deferred d f.reason now f.exit_code f.run_id w)
        (event_row w.task_id d.kind (w.version + 1) w.task_version w.phase d.status now w))

renew_at_total :
    (s : Service) (now id expected : ℕ) (token : String) (lease : ℕ) (db : Db) (o : Option Joined)
    → Valid db
    → workflow_with_task db id ≡ o
    → Refuses (renew_at s now id expected token lease o db) db
      ⊎ Applies
          (renew_at s now id expected token lease o db)
          db
          id
          expected
          (s.token_digest token)
          now
          (renewed_db db id expected now lease)
unfolding renew_at
renew_at_total s now id expected token lease db none v e = inl (refuse id not_found, refl, refl)
renew_at_total s now id expected token lease db (some j) v e =
    let f = workflow_with_task-row db id e in
    elim (Option-cases (
      then_guard (running_guard j expected (s.token_digest token) now)
        (task_guard j j.row.task_version))) [
          | inr (r, p) ↦ inl (refuse_row id j.row r, rw (p, renew_at), refl)
          | inl p ↦
              let g = then_guard-none _ _ p in
              let h = running_guard-Held j expected (s.token_digest token) now g.0 in
              inr (
                j.row,
                _,
                f,
                h,
                renew_at-applied s now id expected token lease j db
                    (find_workflow-Checked id db.workflows v.rows f) f h g.1 g.0,
                refl,
              )
        ]

-- On checked rows `renew` never raises: it refuses and changes nothing, or the caller holds a live
-- claim and the row's lease alone moves to `lease` seconds from now, with one event appended.
pub renew_total :
    (s : Service) (now id expected : ℕ) (token : String) (lease : ℕ) (db : Db)
    → Valid db
    → Refuses (renew s now id expected token lease db) db
      ⊎ Applies
          (renew s now id expected token lease db)
          db
          id
          expected
          (s.token_digest token)
          now
          (renewed_db db id expected now lease)
unfolding renew
renew_total s now id expected token lease db v =
    elim (Bool-cases (valid_identity id expected && valid_secret token && valid_lease lease)) [
      | inl p ↦
          rw p (renew_at_total s now id expected token lease db (workflow_with_task db id) v refl)
      | inr p ↦ inl (refuse id invalid_argument, rw p, refl)
    ]

abbrev pub attached_db : Db → ℕ → ℕ → String → Workflow → Db
attached_db db id now run_id w = record db {
  workflows = replace_workflow id (named_run run_id now w) db.workflows;
}

-- A 32-digit hexadecimal run id passes the column's CHECK.
pub valid_run_id-column : (r : String) → valid_run_id r ≡ true → run_id_column (some r) ≡ true
unfolding valid_run_id run_id_column
valid_run_id-column String.[] h = ground arith
valid_run_id-column (String.◌∷◌ c s) h = ground arith

pub named_run-Checked :
    (r : String) (now : ℕ) (w : Workflow)
    → valid_run_id r ≡ true
    → Checked w
    → Checked (named_run r now w)
unfolding checks
named_run-Checked r now w h c = ground (arith, valid_run_id-column r h)

-- The guard passed: the row names the run.
pub attach_at-applied :
    (s : Service) (now id expected : ℕ) (token run_id : String) (j : Joined) (db : Db)
    → Checked j.row
    → valid_run_id run_id ≡ true
    → workflow_with_task db id ≡ some j
    → Held j.row expected (s.token_digest token) now
    → running_guard j expected (s.token_digest token) now ≡ none
    → attach_at s now id expected token run_id (some j) db
      ≡ ok (operation (named_run run_id now j.row) applied, attached_db db id now run_id j.row)
unfolding attach_at
attach_at-applied s now id expected token run_id j db c q e h p =
    let f = workflow_with_task-row db id e in
    let v = named_run run_id now j.row in
    rw (p, attach_at)
      (rw
        (write-applies id (held_by expected (s.token_digest token)) (named_run run_id now) db f
          (held_by-Held j.row expected _ now h) (named_run-Checked run_id now j.row q c))
        (rw
          (
            workflow_with_task-replaced db id v (find_workflow-key id db.workflows f) e,
            attach_written,
          )
          refl))

attach_at_total :
    (s : Service) (now id expected : ℕ) (token run_id : String) (db : Db) (o : Option Joined)
    → Valid db
    → valid_run_id run_id ≡ true
    → workflow_with_task db id ≡ o
    → Refuses (attach_at s now id expected token run_id o db) db
      ⊎ Applies
          (attach_at s now id expected token run_id o db)
          db
          id
          expected
          (s.token_digest token)
          now
          (attached_db db id now run_id)
unfolding attach_at
attach_at_total s now id expected token run_id db none v q e = inl (refuse id not_found, refl, refl)
attach_at_total s now id expected token run_id db (some j) v q e =
    let f = workflow_with_task-row db id e in
    elim (Option-cases (running_guard j expected (s.token_digest token) now)) [
      | inr (r, p) ↦ inl (refuse_row id j.row r, rw (p, attach_at), refl)
      | inl p ↦
          let h = running_guard-Held j expected (s.token_digest token) now p in
          inr (
            j.row,
            operation (named_run run_id now j.row) applied,
            f,
            h,
            attach_at-applied s now id expected token run_id j db
                (find_workflow-Checked id db.workflows v.rows f) q e h p,
            refl,
          )
    ]

-- On checked rows `attach_run_id` never raises: it refuses and changes nothing, or the caller holds
-- a live claim and the row names the run, with no event.
pub attach_run_id_total :
    (s : Service) (now id expected : ℕ) (token run_id : String) (db : Db)
    → Valid db
    → Refuses (attach_run_id s now id expected token run_id db) db
      ⊎ Applies
          (attach_run_id s now id expected token run_id db)
          db
          id
          expected
          (s.token_digest token)
          now
          (attached_db db id now run_id)
unfolding attach_run_id
attach_run_id_total s now id expected token run_id db v =
    elim (Bool-cases (valid_identity id expected && valid_secret token && valid_run_id run_id)) [
      | inl p ↦ rw p (
          attach_at_total s now id expected token run_id db (workflow_with_task db id) v
            (ground arith) refl)
      | inr p ↦ inl (refuse id invalid_argument, rw p, refl)
    ]
