-- ===== src/Gate/Dates.antt =====
-- Where the snooze choices of task_execution.py land on the calendar.
use foxhound.Prelude.{◌+◌, ◌<◌, ◌≤◌, ◌≡◌, ◌⊎◌, inl, arith}
use foxhound.Gate.Snooze.{
  LocalTime, SnoozeAction, snooze, snooze_1d, snooze_7d, snooze_14d, snooze_30d, weekday, friday,
  snooze_date,
}

-- Every snooze ends on a later day within two weeks, or at 09:00 of this day while that is ahead.
pub snooze_ahead :
    (action : SnoozeAction) (t : LocalTime)
    → ((t.date < snooze_date action t) ⊎ ((snooze_date action t ≡ t.date) × (t.seconds < 32400)))
      × (snooze_date action t ≤ t.date + 14)
unfolding snooze_date friday
snooze_ahead snooze t = (inl (omega arith), omega arith)
snooze_ahead snooze_1d t = (inl (omega arith), omega arith)
snooze_ahead snooze_7d t = ground arith
snooze_ahead snooze_14d t = (inl (omega arith), omega arith)
snooze_ahead snooze_30d t = (inl (omega arith), omega arith)

-- "Later this week" ends on a Friday and "next week" on a Monday.
pub snooze_weekdays :
    (t : LocalTime)
    → (weekday (snooze_date snooze_7d t) ≡ 4) × (weekday (snooze_date snooze_14d t) ≡ 0)
unfolding snooze_date friday
snooze_weekdays t = ground arith
