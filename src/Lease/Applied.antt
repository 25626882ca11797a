-- ===== src/Lease/Applied.antt =====
-- The state and the result of a lease operation whose guards pass.
use foxhound.Prelude.{ℕ, ◌+◌, ◌≡◌, refl, String, Option, none, some, arith, ok, ◌==◌}
use foxhound.Schema.{Workflow, queued, running}
use foxhound.Store.{Joined, find_workflow}
use foxhound.Tables.{Db, claim_renewed, released}
use foxhound.Store.Rows.{
  Checked, moved, event_row, find_workflow-key, write-applies, event-replaced,
}
use foxhound.Operation.{apply_result, operation, applied, task_guard, then_guard, running_guard}
use foxhound.Service.{Service}
use foxhound.Lease.{renewed, requeued, held_by, renew_at, give_back}
use foxhound.Lease.Moves.{Held, renewed-Checked, requeued-Checked, held_by-Held}

pub then_guard-none :
    (a b : Option foxhound.Operation.Refusal) → then_guard a b ≡ none → (a ≡ none) × (b ≡ none)
then_guard-none none b h = (refl, h)
then_guard-none (some r) b h = cc

pub renew_at-applied :
    (s : Service) (now id expected : ℕ) (token : String) (lease : ℕ) (j : Joined) (db : Db)
    → Checked j.row
    → find_workflow id db.workflows ≡ some j.row
    → Held j.row expected (s.token_digest token) now
    → task_guard j j.row.task_version ≡ none
    → running_guard j expected (s.token_digest token) now ≡ none
    → renew_at s now id expected token lease (some j) db
      ≡ ok (
        apply_result id expected running j.row.phase
            (some (now + lease))
            none
            j.row.agent_profile_id
            j.row.agent_profile_revision,
        moved db id
            (renewed now (now + lease) j.row)
            (event_row id claim_renewed expected j.row.task_version j.row.phase running now j.row),
      )
unfolding renew_at
renew_at-applied s now id expected token lease j db c f h t g =
    rw (g, renew_at)
      (rw (t, renew_at)
        (rw
          (write-applies id (held_by expected (s.token_digest token)) (renewed now (now + lease)) db
            f (held_by-Held j.row expected _ now h)
            (renewed-Checked now (now + lease) j.row h.status c))
          (rw (
            event-replaced id claim_renewed expected j.row.task_version j.row.phase running now db
              (renewed now (now + lease) j.row) (find_workflow-key id db.workflows f) f))))

pub release-applied :
    (s : Service) (now id expected : ℕ) (w : Workflow) (db : Db)
    → Checked w
    → find_workflow id db.workflows ≡ some w
    → w.status ≡ running
    → w.version ≡ expected
    → give_back s now id expected w none db
      ≡ ok (
        apply_result id
            (expected + 1)
            queued
            w.phase
            none
            none
            w.agent_profile_id
            w.agent_profile_revision,
        moved db id
            (requeued (expected + 1) now w)
            (event_row id released (expected + 1) w.task_version w.phase queued now w),
      )
unfolding give_back
release-applied s now id expected w db c f r v =
    rw
      (write-applies id (λ u. u.version == expected) (requeued (expected + 1) now) db f
        (ground arith) (requeued-Checked expected now w r c))
      (rw (
        event-replaced id released (expected + 1) w.task_version w.phase queued now db
          (requeued (expected + 1) now w) (find_workflow-key id db.workflows f) f))
