-- ===== src/Gate/Snooze.antt =====
-- `_calendar_snooze_until` of task_execution.py. A date is its proleptic ordinal, a time of day its
-- seconds. The host's timezone rules are the two conversions.
use foxhound.Prelude.{
  ℕ, ◌+◌, ◌-◌, ◌%◌, String, ◌&&◌, Option, none, some, leb, ◌==◌, str_eq, if◌then◌else◌,
}

pub record LocalTime : Type 0 where
  pub date : ℕ
  pub seconds : ℕ

-- `astimezone()` on an instant, and on a naive local time.
pub record Zone : Type 0 where
  pub to_local : ℕ → LocalTime
  pub from_local : LocalTime → ℕ

-- `_SNOOZE_ACTIONS`: REVIEW_SNOOZE_ACTIONS and the bare verb.
pub data SnoozeAction : Type 0 where
  snooze snooze_1d snooze_7d snooze_14d snooze_30d : SnoozeAction

-- `date.weekday()`: Monday is 0, and the ordinal 1 is a Monday.
abbrev pub weekday : ℕ → ℕ
weekday date = (date + 6) % 7

abbrev pub nine : ℕ
nine = 32400

-- The Friday of this week or the next, passing over a Friday whose 09:00 is not ahead.
unfoldable pub friday : LocalTime → ℕ
friday t =
    let target = t.date + (11 - weekday t.date) % 7 in
    if target == t.date && leb nine t.seconds then target + 7 else target

unfoldable pub snooze_date : SnoozeAction → LocalTime → ℕ
unfolding friday
snooze_date snooze t = t.date + 1
snooze_date snooze_1d t = t.date + 1
snooze_date snooze_7d t = friday t
snooze_date snooze_14d t = t.date + (7 - weekday t.date)
snooze_date snooze_30d t = t.date + 14

-- `_calendar_snooze_until`.
unfoldable pub calendar_snooze_until : Zone → SnoozeAction → ℕ → ℕ
calendar_snooze_until z action stamp =
    z.from_local (record { date = snooze_date action (z.to_local stamp); seconds = nine })

-- The explicit choices of a picker.
unfoldable pub review_snooze : String → Option SnoozeAction
review_snooze a =
    if str_eq a "snooze_1d"
    then some snooze_1d
    else if str_eq a "snooze_7d"
    then some snooze_7d
    else if str_eq a "snooze_14d"
    then some snooze_14d
    else if str_eq a "snooze_30d"
    then some snooze_30d
    else none
