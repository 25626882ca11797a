-- ===== src/Gate.antt =====
-- The reader's gates of task_execution.py: `_calendar_snooze_until`, `_apply_start_action`,
-- `_apply_review_action` and the methods round them.
pub mod Snooze
pub mod Start
pub mod Review
pub mod Moves
pub mod Authority
pub mod Dates
