-- ===== src/Lib.antt =====
-- Foxhound: the workflow service that takes a task from a reader's queue through planning,
-- execution and external action. Every operation is one SQLite transaction on a few tables; agents
-- hold a workflow by a claim with a token and a lease, and a reader decides at two gates.
--
-- The program's parts and their files here:
--   Schema      the workflow row and its CHECK constraints (src/foxhound/candidate_inbox.py), with the
--               enumerations of src/foxhound/task_execution.py and src/foxhound/task_ledger.py
--   Tables, Store    the tables; `_workflow_with_task`, UPDATE as `write`, and `_event`
--   Texts       `str.strip` and hexadecimal digits
--   Profiles, Service    the profile registry (src/foxhound/agent_profiles.py) and the settings
--   Operation   results, argument checks, guards, and the transaction round an operation
--   Failure     `_defer_failure`: retries, parks, and their delays
--   Lease       `renew`, `attach_run_id`, `release`, `fail` and `_finish_claim`
--   Sweep       `_cancel_stale` and `_recover_expired`
--   Gate        `start_action`, `review_action` and the snooze calendar
--   Outcome     `record_result`, phase outcomes and standing grants; Outcome.Stored has the CHECKs, keys
--               and foreign key of the tables of results (src/foxhound/candidate_inbox.py)
--   Agents      `select_agent`, the plan review's choice, `adopt_installed_revision`
--   Queue       `set_priority` and `retry`
--   Condition   `evaluate_task_conditions` (src/foxhound/task_scheduling.py)
--   Scheduling  the changes that automation makes to a task's schedule, and the cards that tell a
--               reader of them (src/foxhound/task_scheduling.py, with the tables of
--               src/foxhound/candidate_inbox.py): its children are
--     Rows      a recommendation, and the tables of changes and cards
--     Document, Target, Graph   the checks of a recommendation, of its target, and of the graph of
--               prerequisites (`_recommendation_document`, `_target_refusal`, `_dependency_refusal`)
--     Prerequisite, Prepare, Change, Apply   `apply`, in the order in which it writes
--     Undo, Withdraw, Act   `act`, which keeps or undoes a change
--     CardRow, Delivery, Report   a card's CHECKs, `claim_next`, `complete_delivery`, `fail_delivery`
--     Callback  the data of a card's buttons and its parser
--     Steps     the operations as steps between databases, and histories of them
--   Claim       `claim_next`: the ready query, its order, the gates and the claim
--   Schedule    `schedule`: the workflow of one task, made or begun again
--   Ledger      `transition` (src/foxhound/task_ledger.py)
--   Evolution   the operations on workflows as steps between databases, and histories of them
--   Examples    rows and services on which the theorems are run
-- All but the ones named otherwise are parts of src/foxhound/task_execution.py. A component's children
-- hold its proofs.
--
-- How state corresponds: the record `Db` has one list for each table, in the order of the primary
-- key, and a lookup by key takes the first match. An operation takes the time, its arguments and a
-- `Db`, and returns `Attempt`: a result with the database that is committed, or the exception that
-- rolls the transaction back. An UPDATE checks the row that it writes against the CHECKs and raises
-- `integrity_error` where one fails. A timestamp is a number of seconds; the source compares UTC
-- texts of one fixed width, which order as the instants do. A date is its ordinal. Python's integers
-- and SQLite's versions are unbounded natural numbers here. Every loop is over a list, but for two
-- that take fuel: the walk `visit` of the graph of prerequisites has two more than the number of
-- the graph's tasks, and a path that repeats no task is no longer than that; the printing of a
-- number has one more than the number, and divides it by ten each time.
--
-- Parameters: the SHA-256 digest of a token (`Service.token_digest`), the host's timezone (`Zone`),
-- who owns a task (`Ownership`), and what the deadline graph and the research gate answer (`Advice`),
-- which are read-only here. The scheduling service takes the digest of a recommendation, the digest
-- of a token and the validator of provenance (`SchedulingService`), and the parser of callbacks the
-- value of a character as a digit. A result begins at `ValidResult`, past the parsing of its
-- envelope.
--
-- Not modelled: the parsing of result envelopes and of configuration, the bounded pass
-- `schedule_new`, read-only boards, the text of a scheduling card, timestamps that do not parse, the
-- cards of executions and tasks, research, duplicate detection, delivery, and the processes
-- that run agents; the CHECKs on profile texts; errors inside the evaluation of a condition, which
-- hold the task, and inside the deadline graph, which leave the order of the ready query.
pub mod Prelude
pub mod Schema
pub mod Tables
pub mod Store
pub mod Texts
pub mod Profiles
pub mod Operation
pub mod Service
pub mod Failure
pub mod Lease
pub mod Sweep
pub mod Gate
pub mod Outcome
pub mod Agents
pub mod Queue
pub mod Condition
pub mod Claim
pub mod Ledger
pub mod Schedule
pub mod Scheduling
pub mod Evolution
pub mod Examples
