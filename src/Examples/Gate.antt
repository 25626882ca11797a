-- ===== src/Examples/Gate.antt =====
-- The theorems on the reader's gates, on a plan that waits for its start and on one under review.
use foxhound.Prelude.{◌+◌, ◌/◌, ◌%◌, ◌≤◌, ◌<◌, ◌≡◌, none, some, ok, ◌⊎◌}
use foxhound.Schema.{Workflow, plan, execute, queued, awaiting_start, snoozed, parked}
use foxhound.Store.{find_workflow}
use foxhound.Tables.{Db, phase_approved}
use foxhound.Operation.{OperationResult, Refuses, applied}
use foxhound.Gate.Snooze.{Zone, LocalTime, snooze_7d, snooze_14d, weekday, snooze_date}
use foxhound.Gate.Start.{GateMove, StartAction, start_action}
use foxhound.Gate.Start.Total.{Awake}
use foxhound.Store.Standing.{Stands}
use foxhound.Gate.Start.Gated.{Names, Gated}
use foxhound.Gate.Start.Effects.{start_action_effects}
use foxhound.Gate.Review.{review_choice, review_action}
use foxhound.Gate.Review.Total.{Reviewed, review_action_total}
use foxhound.Gate.Moves.{gated_row}
use foxhound.Gate.Dates.{snooze_ahead, snooze_weekdays}
use foxhound.Examples.{waiting_row, reviewed_row, db_of, waiting_db-Valid, reviewed_db-Valid}

-- The host keeps UTC; the ordinal of 1970-01-01 is 719163.
abbrev utc : Zone
utc = record {
  to_local = λ n. record { date = 719163 + n / 86400; seconds = n % 86400 };
  from_local = λ t. t.seconds;
}

start_action_effects_example :
    let m = start_action utc 1500 7 5 "start" (db_of waiting_row) in
    Refuses m (db_of waiting_row)
    ⊎ ((w : Workflow) × (action : StartAction) × (out : OperationResult) × (after : Db) × Names
          "start" action
        × (find_workflow 7 (db_of waiting_row).workflows ≡ some w)
        × (w.version ≡ 5)
        × ((w.status ≡ awaiting_start) ⊎ (w.status ≡ snoozed) ⊎ (w.status ≡ parked))
        × (action ≡ StartAction.start → Awake w 1500)
        × Stands (db_of waiting_row) w
        × (m ≡ ok (out, after))
        × (out.disposition ≡ applied)
        × Gated utc (db_of waiting_row) after 7 1500 w action)
start_action_effects_example =
    start_action_effects utc 1500 7 5 "start" (db_of waiting_row) waiting_db-Valid

review_action_total_example :
    Refuses (review_action utc 1500 7 5 "approve" (db_of reviewed_row)) (db_of reviewed_row)
    ⊎ Reviewed utc
        (review_action utc 1500 7 5 "approve" (db_of reviewed_row))
        (db_of reviewed_row)
        7
        5
        1500
        (review_choice "approve")
review_action_total_example =
    review_action_total utc 1500 7 5 "approve" (db_of reviewed_row) reviewed_db-Valid

abbrev approval : GateMove
approval = record {
  status = queued;
  phase = execute;
  wake = none;
  completed = none;
  kind = phase_approved;
}

abbrev approved_row : Workflow
approved_row = gated_row approval 6 1500 reviewed_row

abbrev friday_noon : LocalTime
friday_noon = record { date = 5; seconds = 43200 }

snooze_ahead_example :
    ((friday_noon.date < snooze_date snooze_7d friday_noon)
      ⊎ ((snooze_date snooze_7d friday_noon ≡ friday_noon.date) × (friday_noon.seconds < 32400)))
    × (snooze_date snooze_7d friday_noon ≤ friday_noon.date + 14)
snooze_ahead_example = snooze_ahead snooze_7d friday_noon

snooze_weekdays_example :
    (weekday (snooze_date snooze_7d friday_noon) ≡ 4)
    × (weekday (snooze_date snooze_14d friday_noon) ≡ 0)
snooze_weekdays_example = snooze_weekdays friday_noon
