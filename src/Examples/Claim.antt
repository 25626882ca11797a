-- ===== src/Examples/Claim.antt =====
-- The theorems on the order of the queue and on a claim.
use mathlib.Core.List.{Memᴰ}
use foxhound.Profiles.{AgentProfile, resolve, allows}
use foxhound.Prelude.{
  ◌+◌, List, ◌≡◌, refl, true, false, none, some, [], ◌∷◌, ok, raise, integrity_error, arith,
}
use foxhound.Schema.{Workflow, WorkflowPhase, plan, is_queued}
use foxhound.Store.{find_workflow, find_task}
use foxhound.Tables.{Db, claimed}
use foxhound.Store.Rows.{Checked, moved, event_row}
use foxhound.Sweep.{cancel_stale, recover_expired}
use foxhound.Lease.Moves.{Held}
use foxhound.Claim.{
  Advice, ExecutionClaim, unselected, receipt, is_candidate, candidates, count_rows, sort_rows,
  queue_key, phase_allowlist, running_count, slots_full,
}
use foxhound.Claim.Next.{Passed, claim_next, claim_swept, claimed_row}
use foxhound.Claim.Ownership.{ownership_review_status}
use foxhound.Condition.{evaluate_task_conditions}
use foxhound.Claim.Next.Granted.{claim_next-Held}
use foxhound.Claim.Next.Hold.{hold_parked_raises}
use foxhound.Examples.{service, secret, own_digest, task, queued_row, parked_row, db_of}

abbrev advice : Advice
advice = record {
  deadline_ordering = true;
  effective = λ id. none;
  reader_owned = λ id. false;
  research = λ w. unselected;
  disagreement = λ id. some "Someone else";
}

abbrev claim : ExecutionClaim
claim = record {
  task_id = 7;
  task_version = 3;
  workflow_version = 6;
  phase = plan;
  token = secret;
  expires_at = 2400;
  text = "Fix the build";
  owner = none;
  due = none;
  agent_profile_id = "default";
  agent_profile_revision = "1";
  lease_seconds = 900;
}

abbrev taken : Workflow
taken = claimed_row 6 own_digest 1500 2400 queued_row

abbrev claimed_db : Db
claimed_db =
    moved (db_of queued_row) 7 taken
      (event_row 7 claimed 6 3 plan foxhound.Schema.WorkflowStatus.running 1500 taken)

claimed_lem :
    claim_next service advice 1500 secret none (db_of queued_row)
    ≡ ok (record { claim = some claim; deferred = [] }, claimed_db)
unfolding claim_next foxhound.Operation.valid_secret cancel_stale foxhound.Sweep.cancel_rows
    foxhound.Sweep.select_rows foxhound.Sweep.is_stale find_task foxhound.Store.source_withdrawn
    recover_expired foxhound.Sweep.recover_rows foxhound.Sweep.is_expired count_rows sort_rows
    foxhound.Claim.take_rows foxhound.Claim.insert_row foxhound.Condition.evaluate_task_conditions
    foxhound.Profiles.resolve foxhound.Profiles.allows foxhound.Claim.Next.scan
    foxhound.Claim.Next.usable_profile find_workflow foxhound.Store.write foxhound.Store.event
    foxhound.Store.replace_workflow foxhound.Schema.checks foxhound.Schema.run_id_column
    foxhound.Schema.char_count candidates foxhound.Claim.lex_leb running_count
    foxhound.Claim.effective_key queue_key foxhound.Claim.Next.claim_scanned
    foxhound.Claim.Next.scan_one foxhound.Claim.Next.gate_holds foxhound.Claim.Next.scan_gated
    foxhound.Schema.digest_column
claimed_lem = refl

claim_next-Held_example :
    (allowed_phases : List WorkflowPhase) × (swept1 : Db) × (swept2 : Db) × (w : Workflow)
    × (p : AgentProfile) × (row : Workflow) × (phase_allowlist none ≡ ok allowed_phases)
    × (cancel_stale 1500 (db_of queued_row) ≡ ok swept1)
    × (recover_expired service 1500 swept1 ≡ ok swept2)
    × (slots_full service.execution_slot_cap (running_count swept2) ≡ false)
    × Memᴰ w (candidates advice swept2 allowed_phases 1500)
    × (resolve service.registry w.agent_profile_id w.agent_profile_revision ≡ some p)
    × (allows p.allowed_phases w.phase ≡ true)
    × (7 ≡ w.task_id)
    × (claim.phase ≡ w.phase)
    × (claim.agent_profile_id ≡ p.profile_id)
    × (claim.agent_profile_revision ≡ p.revision)
    × (900 ≡ p.claim_lease_seconds)
    × (2400 ≡ 1500 + p.claim_lease_seconds)
    × (find_workflow 7 claimed_db.workflows ≡ some row)
    × Held row 6 own_digest 2000
    × (claim.token ≡ secret)
claim_next-Held_example =
    claim_next-Held service advice 1500 secret none (db_of queued_row) 2000 claimed_lem refl
      (omega arith)

-- A plan that was parked for a reader and is due again, with published research behind it.
abbrev returned_row : Workflow
returned_row = record parked_row { next_attempt_at = some 1400 }

abbrev researched : Advice
researched = record advice { research = λ w. receipt }

returned_row-Checked : Checked returned_row
unfolding foxhound.Schema.checks foxhound.Schema.run_id_column foxhound.Schema.digest_column
    foxhound.Schema.char_count
returned_row-Checked = refl

returned_found : find_workflow 7 (db_of returned_row).workflows ≡ some returned_row
unfolding find_workflow
returned_found = refl

free_slot : slots_full service.execution_slot_cap (running_count (db_of returned_row)) ≡ false
unfolding running_count count_rows
free_slot = refl

only_candidate : candidates researched (db_of returned_row) (plan ∷ []) 1500 ≡ returned_row ∷ []
unfolding candidates sort_rows foxhound.Claim.take_rows foxhound.Claim.insert_row
    foxhound.Sweep.select_rows find_task foxhound.Claim.phase_listed
only_candidate = refl

conditions_hold : (evaluate_task_conditions (db_of returned_row) 7 3 1500).0 ≡ true
unfolding evaluate_task_conditions
conditions_hold = refl

unreviewed : ownership_review_status 7 3 (db_of returned_row).ownership_reviews ≡ none
unfolding ownership_review_status
unreviewed = refl

task_found : find_task 7 (db_of returned_row).tasks ≡ some task
unfolding find_task
task_found = refl

hold_parked_raises_example :
    claim_swept service researched 1500 secret (plan ∷ []) (db_of returned_row) (db_of returned_row)
    ≡ raise integrity_error
hold_parked_raises_example =
    hold_parked_raises service researched 1500 secret (plan ∷ []) (db_of returned_row)
      (db_of returned_row) returned_row [] free_slot only_candidate returned_row-Checked
      returned_found refl refl conditions_hold refl unreviewed task_found refl
