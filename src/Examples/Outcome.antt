-- ===== src/Examples/Outcome.antt =====
-- The theorems on recorded results, grants and failures.
use foxhound.Prelude.{
  ℕ, ◌+◌, ◌*◌, ◌≤◌, ◌<◌, ◌≡◌, refl, min, suc, String, true, false, Option, none, some, List, [],
  ◌∷◌, ◌⊎◌,
}
use foxhound.Schema.{context_exhausted, plan, execute, awaiting_plan, process_exit, queued}
use foxhound.Schema.WorkflowStatus.{parked}
use foxhound.Operation.{Refuses}
use foxhound.Outcome.{record_result}
use foxhound.Outcome.Answers.{ValidResult, granted_advance}
use foxhound.Outcome.Total.{Records, Unstorable, Repeats, Replays}
use foxhound.Outcome.Branches.{record_result_total}
use foxhound.Outcome.Grants.{GrantCovers, granted_advance-authority}
use foxhound.Failure.{deferral, is_timeout}
use foxhound.Failure.Policy.{deferral-window, deferral-counts, deferral-backoff}
use foxhound.Examples.{service, secret, running_row, db_of, running_db-Valid, answer}

abbrev new_result : ValidResult
new_result = record {
  result_id = "result-2";
  task_id = 7;
  task_version = 3;
  workflow_version = 5;
  phase = plan;
  claim_token = secret;
  content_digest = "0123456789abcdef0123456789abcdef0123456789abcdef0123456789abcdef";
  answer = record answer { summary = "Another plan" };
  questions_json = "[]";
  task_work_directory = none;
  task_kb_file = none;
  work_digest = none;
  reader_instruction_sequence = none;
  artifacts = [];
}

record_result_total_example :
    let m = record_result service 1500 new_result (db_of running_row) in
    Refuses m (db_of running_row)
    ⊎ Records service new_result 1500 (db_of running_row) m
    ⊎ Unstorable service new_result 1500 (db_of running_row) m
    ⊎ Repeats service new_result 1500 (db_of running_row) m
    ⊎ Replays new_result (db_of running_row) m
record_result_total_example =
    record_result_total service 1500 new_result (db_of running_row) running_db-Valid

granted : granted_advance plan awaiting_plan (some "issue") ("issue" ∷ []) [] ≡ some execute
unfolding granted_advance foxhound.Outcome.Answers.granted_target foxhound.Prelude.contains
granted = refl

granted_advance-authority_example :
    (kind : String) × (some "issue" ≡ some kind)
    × GrantCovers plan awaiting_plan kind ("issue" ∷ []) [] execute
granted_advance-authority_example =
    granted_advance-authority plan awaiting_plan (some "issue") ("issue" ∷ []) [] granted

deferral-window_example :
    let d = deferral 5 0 0 process_exit (some 1) 1 1000 none in
    let exhausted =
      (process_exit ≡ context_exhausted) × (Path (Option ℕ) (some 1) (some 124) → ⊥) in
    (exhausted → (d.status ≡ parked) × (d.next_attempt ≡ none) × (d.parked_since ≡ some 1000))
    × ((exhausted → ⊥)
        → (at : ℕ) × (d.next_attempt ≡ some at) × (1000 + 60 ≤ at) × (at ≤ 1000 + 21600))
deferral-window_example = deferral-window 5 0 0 process_exit (some 1) 1 1000 none

deferral-counts_example :
    let d = deferral 5 0 0 process_exit (some 1) 1 1000 none in
    ((is_timeout process_exit (some 1) ≡ true) × (d.failures ≡ 1) × (d.status ≡ queued))
    ⊎ ((is_timeout process_exit (some 1) ≡ false)
        × (d.failures ≡ 1 + 1)
        × ((d.status ≡ parked) ⊎ ((d.status ≡ queued) × (1 + 1 < 5))))
deferral-counts_example = deferral-counts 5 0 0 process_exit (some 1) 1 1000 none

plain_failure : Path (Option ℕ) (some 1) (some 124) → ⊥
plain_failure e = cc

deferral-backoff_example :
    let d = deferral 5 0 0 process_exit (some 1) 1 1000 none in
    (1 + 1 < 5
      → (d.status ≡ queued)
        × (d.failures ≡ 2)
        × (1 < 6 → d.next_attempt ≡ some 1120)
        × (6 ≤ 1 → d.next_attempt ≡ some 4600))
    × (5 ≤ 1 + 1 → (d.status ≡ parked) × (d.failures ≡ 2) × (d.next_attempt ≡ some 22600))
deferral-backoff_example = deferral-backoff 5 0 0 1 1000 (some 1) none plain_failure
