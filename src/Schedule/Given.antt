-- ===== src/Schedule/Given.antt =====
-- The status and the phase that the operator's grants give to a workflow that `schedule` of
-- task_execution.py makes, and when it keeps the one that is there.
use foxhound.Prelude.{ℕ, ◌≡◌, ◌≢◌, ◌↔◌, refl, String, true, false, not, ◌&&◌, Option, arith, ◌==◌}
use foxhound.Schema.{
  Workflow, WorkflowStatus, WorkflowPhase, plan, execute, queued, awaiting_start, parked,
  is_finished, is_parked, is_snoozed, snoozed, running, awaiting_review, cancelled,
}
use foxhound.Tables.{Task}
use foxhound.Service.{Service}
use foxhound.Schedule.{Ownership, kind_in, initial_status, initial_phase, keeps_row}

-- The workflow is for this version of its task and not done with.
abbrev pub Kept : ℕ → Workflow → Type 0
Kept version w =
    (w.task_version ≡ version)
    × (w.status ≢ WorkflowStatus.completed)
    × (w.status ≢ WorkflowStatus.cancelled)
    × (w.status ≢ parked)

-- A task whose kind the operator grants planning is queued. One whose kind the operator asks about when
-- others own it waits for a start then, and is queued otherwise. Any other is queued where the reader
-- owns it, and waits for a start where not.
abbrev pub StatusGiven : Service → Ownership → Option String → Task → WorkflowStatus → Type 0
StatusGiven s o origin t x =
    (kind_in origin s.planning_grants ≡ true → x ≡ queued)
    × (kind_in origin s.planning_grants ≡ false
        → kind_in origin s.ask_when_owned_by_others ≡ true
        → (o.other_owned t ≡ true → x ≡ awaiting_start) × (o.other_owned t ≡ false → x ≡ queued))
    × (kind_in origin s.planning_grants ≡ false
        → kind_in origin s.ask_when_owned_by_others ≡ false
        → (o.reader_owned t ≡ true → x ≡ queued) × (o.reader_owned t ≡ false → x ≡ awaiting_start))

-- Planning is skipped for the kinds that the operator names.
abbrev pub PhaseGiven : Service → Option String → WorkflowPhase → Type 0
PhaseGiven s origin x =
    (kind_in origin s.skip_planning_for ≡ true → x ≡ execute)
    × (kind_in origin s.skip_planning_for ≡ false → x ≡ plan)

pub initial_status-given :
    (s : Service) (o : Ownership) (origin : Option String) (t : Task)
    → StatusGiven s o origin t (initial_status s o origin t)
unfolding initial_status
initial_status-given s o origin t = (
  λ g. rw g refl,
  λ g a. (λ h. rw (g, a, h) refl, λ h. rw (g, a, h) refl),
  λ g a. (λ h. rw (g, a, h) refl, λ h. rw (g, a, h) refl),
)

pub initial_phase-given :
    (s : Service) (origin : Option String) → PhaseGiven s origin (initial_phase s origin)
unfolding initial_phase
initial_phase-given s origin = (λ h. rw h refl, λ h. rw h refl)

status-live :
    (x : WorkflowStatus)
    → (not (is_finished x) && not (is_parked x) ≡ true)
      ↔ ((x ≢ WorkflowStatus.completed) × (x ≢ cancelled) × (x ≢ parked))
status-live awaiting_start = ground arith
status-live snoozed = ground arith
status-live queued = ground arith
status-live running = ground arith
status-live awaiting_review = ground arith
status-live WorkflowStatus.completed = ground arith
status-live cancelled = ground arith
status-live parked = ground arith

snoozed-live :
    (x : WorkflowStatus) → is_snoozed x ≡ true → not (is_finished x) && not (is_parked x) ≡ true
snoozed-live x h = ground arith

keeps_row-live :
    (now version : ℕ) (w : Workflow)
    → keeps_row now version w
      ≡ (w.task_version == version) && (not (is_finished w.status) && not (is_parked w.status))
keeps_row-live now version w = ground (arith, snoozed-live w.status)

pub keeps_row-Kept :
    (now version : ℕ) (w : Workflow) → (keeps_row now version w ≡ true) ↔ Kept version w
keeps_row-Kept now version w = (
  λ h.
      let k = keeps_row-live now version w in
      let l = (status-live w.status).0 (ground (arith, k, h)) in
      (ground (arith, k, h), l.0, l.1, l.2),
  λ k.
      rw (keeps_row-live now version w)
        (ground (arith, k.0, (status-live w.status).1 (k.1, k.2, k.3))),
)
