-- ===== src/Lease/Calls.antt =====
-- The four calls that present a claim, as one type, and what they do to a claim together.
use foxhound.Prelude.{
  ℕ, ◌≡◌, ◌≢◌, String, Option, none, some, Attempt, ◌⊎◌, inl, inr, sym, ◌∙◌, subst,
}
use foxhound.Schema.{Workflow, FailureReason}
use foxhound.Store.{find_workflow}
use foxhound.Tables.{Db}
use foxhound.Store.Rows.{Valid}
use foxhound.Operation.{Refuses, OperationResult}
use foxhound.Service.{Service}
use foxhound.Lease.{attach_run_id, renew, release, fail}
use foxhound.Lease.Reported.{strip_evidence}
use foxhound.Lease.Total.{
  Applies, renewed_db, released_db, failed_db, attached_db, renew_total, attach_run_id_total,
}
use foxhound.Lease.Returned.{release_total, fail_total}

pub data LeaseCall : Type 0 where
  renews : ℕ → LeaseCall
  attaches : String → LeaseCall
  releases : LeaseCall
  fails : FailureReason → Option ℕ → Option String → Option String → LeaseCall

unfoldable pub lease_call :
    Service → ℕ → ℕ → ℕ → String → LeaseCall → Db → Attempt (OperationResult × Db)
lease_call s now id version token (renews lease) db = renew s now id version token lease db
lease_call s now id version token (attaches run) db = attach_run_id s now id version token run db
lease_call s now id version token releases db = release s now id version token db
lease_call s now id version token (fails r e run text) db =
    fail s now id version token r e run text db

unfoldable pub lease_db : Service → Db → ℕ → ℕ → ℕ → LeaseCall → Workflow → Db
lease_db s db id version now (renews lease) w = renewed_db db id version now lease w
lease_db s db id version now (attaches run) w = attached_db db id now run w
lease_db s db id version now releases w = released_db db id version now w
lease_db s db id version now (fails r e run text) w =
    failed_db s db id version now
      (record { reason = r; exit_code = e; run_id = run; evidence = strip_evidence text }) w

-- On a table of checked rows no call of a claim raises. It either refuses and leaves the database
-- as it was, or the caller presented the version and the token of a running row whose lease has not
-- lapsed, and the database becomes the one that `lease_db` gives for the call.
pub lease_call_total :
    (s : Service) (now id version : ℕ) (token : String) (call : LeaseCall) (db : Db)
    → Valid db
    → Refuses (lease_call s now id version token call db) db
      ⊎ Applies
          (lease_call s now id version token call db)
          db
          id
          version
          (s.token_digest token)
          now
          (lease_db s db id version now call)
unfolding lease_call lease_db
lease_call_total s now id version token (renews lease) db v =
    renew_total s now id version token lease db v
lease_call_total s now id version token (attaches run) db v =
    attach_run_id_total s now id version token run db v
lease_call_total s now id version token releases db v = release_total s now id version token db v
lease_call_total s now id version token (fails r e run text) db v =
    fail_total s now id version token r e run text db v

-- A caller whose token is not the claim's is refused, whatever it calls, and changes nothing.
pub stranger_refused :
    (s : Service) (now id version : ℕ) (token : String) (call : LeaseCall) (db : Db) {w : Workflow}
    → Valid db
    → find_workflow id db.workflows ≡ some w
    → w.claim_token_digest ≢ some (s.token_digest token)
    → Refuses (lease_call s now id version token call db) db
stranger_refused s now id version token call db {w} v f n =
    elim (lease_call_total s now id version token call db v) [
      | inl r ↦ r
      | inr (u, out, g, h, _, _) ↦
          absurd (n (subst (λ o. digest_of o ≡ some (s.token_digest token)) (sym g ∙ f) h.token))
    ]
  where
    digest_of : Option Workflow → Option String
    digest_of none = none
    digest_of (some u) = u.claim_token_digest
