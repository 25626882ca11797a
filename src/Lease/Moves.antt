-- ===== src/Lease/Moves.antt =====
-- What the lease operations write once their guards pass.
use foxhound.Prelude.{ℕ, ◌+◌, ◌<◌, ◌≡◌, refl, String, true, Option, none, some, arith, eq_iff}
use foxhound.Schema.{Workflow, running, checks, run_id_column}
use foxhound.Store.{Joined}
use foxhound.Store.Rows.{Checked}
use foxhound.Operation.{running_guard}
use foxhound.Lease.{renewed, requeued, held_by}

-- The row is running at this version under this digest, and its lease has not lapsed.
pub record Held (w : Workflow) (expected : ℕ) (digest : String) (now : ℕ) : Type 0 where
  pub version : w.version ≡ expected
  pub status : w.status ≡ running
  pub token : w.claim_token_digest ≡ some digest
  pub live : (e : ℕ) × (w.claim_expires_at ≡ some e) × (now < e)

expiry_of : Option ℕ → ℕ
expiry_of none = 0
expiry_of (some e) = e

running_guard-live :
    (j : Joined) (expected : ℕ) (digest : String) (now : ℕ)
    → running_guard j expected digest now ≡ none
    → (j.row.claim_expires_at ≡ some (expiry_of j.row.claim_expires_at))
      × (now < expiry_of j.row.claim_expires_at)
unfolding running_guard expiry_of
running_guard-live j expected digest now h = ground arith

-- The running guard passes exactly the held rows.
pub running_guard-Held :
    (j : Joined) (expected : ℕ) (digest : String) (now : ℕ)
    → running_guard j expected digest now ≡ none
    → Held j.row expected digest now
running_guard-Held j expected digest now h = record {
  version = unfold running_guard in ground arith;
  status = unfold running_guard in ground arith;
  token = held_token j.row.claim_token_digest refl;
  live = (
    expiry_of j.row.claim_expires_at,
    (running_guard-live j expected digest now h).0,
    (running_guard-live j expected digest now h).1,
  );
}
  where
    held_token :
        (o : Option String) → j.row.claim_token_digest ≡ o → j.row.claim_token_digest ≡ some digest
    held_token none e = unfold running_guard in ground arith
    held_token (some held) e = unfold running_guard in ground (arith, eq_iff held digest)

pub Held-running_guard :
    (j : Joined) (expected : ℕ) (digest : String) (now : ℕ)
    → Held j.row expected digest now
    → running_guard j expected digest now ≡ none
unfolding running_guard
Held-running_guard j expected digest now h = ground (arith, eq_iff digest digest)

pub renewed-Checked :
    (now expires : ℕ) (w : Workflow)
    → w.status ≡ running
    → Checked w
    → Checked (renewed now expires w)
unfolding checks
renewed-Checked now expires w r c = ground arith

no_run_id : run_id_column none ≡ true
unfolding run_id_column
no_run_id = refl

pub requeued-Checked :
    (version now : ℕ) (w : Workflow)
    → w.status ≡ running
    → Checked w
    → Checked (requeued (version + 1) now w)
unfolding checks
requeued-Checked version now w r c = ground (arith, no_run_id)

pub held_by-Held :
    (w : Workflow) (expected : ℕ) (digest : String) (now : ℕ)
    → Held w expected digest now
    → held_by expected digest w ≡ true
held_by-Held w expected digest now h = ground (arith, eq_iff digest digest)
