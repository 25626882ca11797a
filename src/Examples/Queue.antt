-- ===== src/Examples/Queue.antt =====
-- The theorems on sweeps, schedules, retries and the lifecycle of a task.
use foxhound.Prelude.{◌≤◌, ◌≡◌, refl, true, false, some, [], ◌∷◌, ◌++◌, ok, ◌⊎◌}
use foxhound.Schema.{TaskStatus, Workflow, done, open_task, checks}
use foxhound.Tables.{Db, not_before, live}
use foxhound.Store.{find_task, find_workflow, origin_kind, source_withdrawn}
use foxhound.Store.Rows.{Checked, Valid}
use foxhound.Operation.{Refuses, operation, unchanged}
use foxhound.Profiles.{AgentProfile}
use foxhound.Sweep.{is_stale, cancel_stale, select_rows}
use foxhound.Sweep.Stale.{swept_rows, swept_events, cancel_stale-settles}
use foxhound.Schedule.{Ownership, profile_for, schedule}
use foxhound.Schedule.Total.{Unrouted}
use foxhound.Schedule.Given.{Kept}
use foxhound.Schedule.Effects.{Planned, schedule_effects}
use foxhound.Ledger.{applied, task_action, finish, transition, transitioned}
use foxhound.Ledger.Total.{transition-stales}
use foxhound.Ledger.Effects.{Goes, Gone, transition_effects}
use foxhound.Queue.{retry}
use foxhound.Queue.Retry.{Retries, retry_total}
use foxhound.Condition.{evaluate_task_conditions, watched}
use foxhound.Condition.Frame.{with_conditions, all_pass, evaluate_task_conditions-frame}
use foxhound.Tables.{Task}
use foxhound.Examples.{service, task, queued_row, db_of, queued_db-Valid}

-- A plan of an older version of its task.
abbrev stale_row : Workflow
stale_row = record queued_row { task_version = 2 }

stale_row-Checked : Checked stale_row
unfolding checks foxhound.Schema.run_id_column
stale_row-Checked = refl

stale_db-Valid : Valid (db_of stale_row)
stale_db-Valid = record { rows = (stale_row-Checked, tt) }

abbrev swept_db : Db
swept_db = record (db_of stale_row) {
  workflows = swept_rows (is_stale (db_of stale_row)) 1500 (stale_row ∷ []);
  events = [] ++ swept_events 1500 (select_rows (is_stale (db_of stale_row)) (stale_row ∷ []));
}

swept_lem : cancel_stale 1500 (db_of stale_row) ≡ ok swept_db
unfolding cancel_stale swept_rows foxhound.Sweep.cancel_rows select_rows is_stale
    foxhound.Store.find_task foxhound.Sweep.cancel_one foxhound.Store.write
    foxhound.Store.find_workflow checks foxhound.Schema.run_id_column foxhound.Store.event
    foxhound.Store.replace_workflow swept_events
swept_lem = refl

cancel_stale-settles_example : cancel_stale 1600 swept_db ≡ ok swept_db
cancel_stale-settles_example =
    cancel_stale-settles 1500 1600 (db_of stale_row) stale_db-Valid (tt, tt) swept_lem

abbrev nobody : Ownership
nobody = record { reader_owned = λ t. false; other_owned = λ t. false }

abbrev new_db : Db
new_db = record (db_of queued_row) { workflows = [] }

schedule_effects_example :
    let m = schedule service nobody 1500 7 3 new_db in
    Refuses m new_db
    ⊎ ((w : Workflow) × (find_workflow 7 new_db.workflows ≡ some w)
        × Kept 3 w
        × (m ≡ ok (operation w unchanged, new_db)))
    ⊎ Unrouted service m new_db 7
    ⊎ ((t : Task) × (p : AgentProfile) × (after : Db) × (q : Planned service nobody new_db after 7
          1500 t p)
        × (find_task 7 new_db.tasks ≡ some t)
        × (t.version ≡ 3)
        × (t.status ≡ open_task)
        × (source_withdrawn new_db 7 ≡ false)
        × (profile_for service (origin_kind new_db 7) ≡ ok p)
        × ((w : Workflow) → find_workflow 7 new_db.workflows ≡ some w → Kept 3 w → ⊥)
        × (m ≡ ok (operation q.row foxhound.Operation.applied, after)))
schedule_effects_example = schedule_effects service nobody 1500 7 3 new_db

transition_effects_example :
    let m = transition 7 3 "done" 1500 (db_of queued_row) in
    (foxhound.Ledger.Total.Refuses m (db_of queued_row)
      × ((t : Task) (target : TaskStatus)
          → 1 ≤ 7
          → 1 ≤ 3
          → find_task 7 (db_of queued_row).tasks ≡ some t
          → t.version ≡ 3
          → Goes "done" t.status target
          → ⊥))
    ⊎ ((t : Task) × (target : TaskStatus) × (after : Db) × (find_task 7 (db_of queued_row).tasks
          ≡ some t)
        × (t.version ≡ 3)
        × Goes "done" t.status target
        × (m ≡ (applied 7 4 target, after))
        × Gone (db_of queued_row) after 7 1500 t target)
transition_effects_example = transition_effects 7 3 "done" 1500 (db_of queued_row)

transition_lem :
    transition 7 3 "done" 1500 (db_of queued_row)
    ≡ (applied 7 4 done, transitioned 7 done 1500 task (db_of queued_row))
unfolding transition foxhound.Store.find_task
transition_lem = refl

transition-stales_example :
    is_stale (transitioned 7 done 1500 task (db_of queued_row)) queued_row ≡ true
transition-stales_example =
    transition-stales 7 3 "done" 1500 (db_of queued_row) queued_row transition_lem refl refl refl

retry_total_example :
    Refuses (retry 1500 7 5 (db_of queued_row)) (db_of queued_row)
    ⊎ Retries (retry 1500 7 5 (db_of queued_row)) (db_of queued_row) 7 5 1500
retry_total_example = retry_total 1500 7 5 (db_of queued_row) queued_db-Valid

abbrev conditional_db : Db
conditional_db = record (db_of queued_row) {
  conditions =
      record {
        id = 1;
        task_id = 7;
        task_version = 3;
        kind = not_before 1400;
        state = live;
        change_set_id = 1;
        created_at = 900;
        updated_at = 900;
      }
      ∷ [];
}

evaluate_task_conditions-frame_example :
    ((evaluate_task_conditions conditional_db 7 3 1500).0
      ≡ all_pass conditional_db 3 1500 (watched 7 conditional_db.conditions))
    × ((evaluate_task_conditions conditional_db 7 3 1500).1
        ≡ with_conditions conditional_db (evaluate_task_conditions conditional_db 7 3 1500).1)
evaluate_task_conditions-frame_example = evaluate_task_conditions-frame conditional_db 7 3 1500
