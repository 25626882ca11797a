-- ===== src/Examples/Lease.antt =====
-- The theorems on the calls of a claim, on a running workflow.
use foxhound.Prelude.{
  ◌≤◌, List, [], ◌++◌, ◌≡◌, ◌≢◌, refl, ap, String, Bool, false, Option, none, some, ok, ◌⊎◌, str_eq,
  true, arith,
}
use foxhound.Schema.{Workflow, plan, queued, timeout}
use foxhound.Store.{find_workflow, Joined, workflow_with_task}
use foxhound.Tables.{Db, Event}
use foxhound.Gate.Snooze.{Zone}
use foxhound.Evolution.Steps.{History, over, then, leases, History-keeps}
use foxhound.Store.Rows.{Valid}
use foxhound.Operation.{Refuses, apply_result, OperationResult, applied}
use foxhound.Lease.Reported.{valid_failure}
use foxhound.Lease.Holder.{Holds, valid_call, holder_applies}
use foxhound.Lease.Total.{Applies}
use foxhound.Lease.Calls.{
  lease_call, lease_db, lease_call_total, stranger_refused, renews, releases, fails,
}
use foxhound.Lease.Retired.{retired_claim}
use foxhound.Examples.{
  service, secret, other_secret, own_digest, other_digest, running_row, db_of, running_db-Valid,
}

lease_call_total_example :
    Refuses
      (lease_call service 1500 7 5 secret (renews 600) (db_of running_row))
      (db_of running_row)
    ⊎ Applies
        (lease_call service 1500 7 5 secret (renews 600) (db_of running_row))
        (db_of running_row)
        7
        5
        own_digest
        1500
        (lease_db service (db_of running_row) 7 5 1500 (renews 600))
lease_call_total_example =
    lease_call_total service 1500 7 5 secret (renews 600) (db_of running_row) running_db-Valid

running_found : find_workflow 7 (db_of running_row).workflows ≡ some running_row
unfolding find_workflow
running_found = refl

is_own : Option String → Bool
is_own none = false
is_own (some d) = str_eq d own_digest

digests_apart : running_row.claim_token_digest ≢ some other_digest
unfolding is_own
digests_apart e = let f = ap is_own e in cc

stranger_refused_example :
    Refuses
      (lease_call service 1500 7 5 other_secret releases (db_of running_row))
      (db_of running_row)
stranger_refused_example =
    stranger_refused service 1500 7 5 other_secret releases (db_of running_row) running_db-Valid
      running_found digests_apart

running_joined : (j : Joined) × (workflow_with_task (db_of running_row) 7 ≡ some j)
unfolding workflow_with_task find_workflow foxhound.Store.find_task
running_joined = (_, refl)

running-Holds : Holds service 1500 5 secret running_joined.0
unfolding running_joined
running-Holds = record {
  held = record { version = refl; status = refl; token = refl; live = (_, refl, omega arith) };
  task = refl;
  current = refl;
}

call_arguments : valid_call 7 5 secret (fails timeout none none none) ≡ true
unfolding valid_failure foxhound.Operation.valid_secret
call_arguments = refl

holder_applies_example :
    (out : OperationResult) × (lease_call service 1500 7 5 secret
        (fails timeout none none none)
        (db_of running_row)
      ≡ ok (
        out,
        lease_db service
            (db_of running_row)
            7
            5
            1500
            (fails timeout none none none)
            running_joined.0.row,
      ))
    × (out.disposition ≡ applied)
holder_applies_example =
    holder_applies service 1500 7 5 secret (db_of running_row) running_joined.0 running_db-Valid
      running_joined.1 running-Holds (fails timeout none none none) call_arguments

released_lem :
    lease_call service 1500 7 5 secret releases (db_of running_row)
    ≡ ok (
      apply_result 7 6 queued plan none none "default" "1",
      lease_db service (db_of running_row) 7 5 1500 releases running_row,
    )
unfolding lease_call foxhound.Lease.release foxhound.Lease.finish_claim
    foxhound.Operation.valid_secret foxhound.Store.workflow_with_task find_workflow
    foxhound.Store.find_task foxhound.Operation.running_guard foxhound.Store.write
    foxhound.Schema.checks foxhound.Schema.run_id_column foxhound.Store.event
    foxhound.Store.replace_workflow lease_db
released_lem = refl

retired_claim_example :
    Refuses
      (lease_call service 1600 7 5 secret
        (renews 600)
        (lease_db service (db_of running_row) 7 5 1500 releases running_row))
      (lease_db service (db_of running_row) 7 5 1500 releases running_row)
retired_claim_example =
    retired_claim service 1500 7 5 secret releases (db_of running_row) 1600 secret (renews 600)
      running_db-Valid refl released_lem refl

abbrev released_db : Db
released_db = lease_db service (db_of running_row) 7 5 1500 releases running_row

abbrev utc : Zone
utc = record { to_local = λ n. record { date = n; seconds = 0 }; from_local = λ t. t.date }

release-History : History service utc (db_of running_row) released_db
release-History =
    then (db_of running_row) released_db released_db
      (leases 1500 7 5 secret releases (db_of running_row) released_db
        (apply_result 7 6 queued plan none none "default" "1") released_lem)
      (over released_db)

History-keeps_example :
    Valid released_db
    × ((v : Workflow) × (find_workflow 7 released_db.workflows ≡ some v) × (5 ≤ v.version))
    × ((es : List Event) × (released_db.events ≡ [] ++ es))
History-keeps_example =
    History-keeps service utc (db_of running_row) released_db 7 running_db-Valid release-History
      running_found
