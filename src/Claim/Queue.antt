-- ===== src/Claim/Queue.antt =====
-- What the ready query of `claim_next` of task_execution.py asks of a row, and which of two rows goes
-- first.
use foxhound.Prelude.{
  ℕ, ◌+◌, ◌/◌, ◌≤◌, ◌≡◌, refl, Bool, true, false, ◌&&◌, Option, none, some, List, [], ◌∷◌, All,
  arith, ◌⊎◌, inl, inr, Bool-cases,
}
use mathlib.Core.List.{Memᴰ}
use foxhound.Schema.{
  Workflow, WorkflowPhase, raised, lowered, plan, execute, external_action, open_task, queued,
  parked, same_phase,
}
use foxhound.Tables.{Db, Task}
use foxhound.Store.{find_task, origin_kind}
use foxhound.Claim.{Advice, is_candidate, phase_listed, current_task, is_ready}

-- The task stands behind the row, its phase is allowed, and its time has come: at once where it is queued with
-- no next attempt, and from the next attempt on where it is queued or parked with one.
abbrev pub Ready : Db → List WorkflowPhase → ℕ → Workflow → Type 0
Ready db phases now w =
    (t : Task) × (find_task w.task_id db.tasks ≡ some t)
    × (t.status ≡ open_task)
    × (t.version ≡ w.task_version)
    × Memᴰ w.phase phases
    × (((w.status ≡ queued) × (w.next_attempt_at ≡ none))
        ⊎ (((w.status ≡ queued) ⊎ (w.status ≡ parked))
            × ((at : ℕ) × (w.next_attempt_at ≡ some at) × (at ≤ now))))

-- A deadline is in force, at most `days` after today.
abbrev pub DueWithin : Advice → ℕ → ℕ → Workflow → Type 0
DueWithin a now days w = (d : ℕ) × (a.effective w.task_id ≡ some d) × (d ≤ now / 86400 + days)

-- Where deadlines order the queue, a task of the reader's own that is due within two days is urgent.
abbrev pub Urgent : Advice → ℕ → Workflow → Type 0
Urgent a now w =
    (a.deadline_ordering ≡ true) × (a.reader_owned w.task_id ≡ true) × DueWithin a now 2 w

-- Between two rows of one source kind and one priority, neither urgent.
abbrev pub Tied : Advice → ℕ → Workflow → Workflow → Type 0
Tied a now w v =
    (a.deadline_ordering ≡ true
      → (DueWithin a now 3 v → DueWithin a now 3 w) × (DueWithin a now 14 v → DueWithin a now 14 w))
    × (a.deadline_ordering ≡ false
        → (v.failure_count ≡ 0 → w.failure_count ≡ 0)
          × (w.failure_count ≡ v.failure_count
              → (w.updated_at ≤ v.updated_at)
                × (w.updated_at ≡ v.updated_at → w.task_id ≤ v.task_id)))

-- Review requests go before all other work, and issues after it. Within one source kind, raised
-- and urgent rows go before the others, and lowered ones that are not urgent after them.
abbrev pub Before : Advice → Db → ℕ → Workflow → Workflow → Type 0
Before a db now w v =
    let kind_w = origin_kind db w.task_id in
    let kind_v = origin_kind db v.task_id in
    (kind_v ≡ some "review_request" → kind_w ≡ some "review_request")
    × (kind_w ≡ some "issue" → kind_v ≡ some "issue")
    × (kind_w ≡ kind_v
        → ((v.queue_priority ≡ raised) ⊎ Urgent a now v
            → (w.queue_priority ≡ raised) ⊎ Urgent a now w)
          × ((w.queue_priority ≡ lowered) × (Urgent a now w → ⊥)
              → (v.queue_priority ≡ lowered) × (Urgent a now v → ⊥))
          × (w.queue_priority ≡ v.queue_priority
              → (Urgent a now w → ⊥)
              → (Urgent a now v → ⊥)
              → Tied a now w v))

-- Each row goes before every row after it.
abbrev pub Ordered : (Workflow → Workflow → Type 0) → List Workflow → Type 0
Ordered R [] = Unit
Ordered R (w ∷ ws) = All (R w) ws × Ordered R ws

phase_listed-Memᴰ :
    (p : WorkflowPhase) (ps : List WorkflowPhase) → phase_listed p ps ≡ true → Memᴰ p ps
unfolding phase_listed
phase_listed-Memᴰ p [] h = cc
phase_listed-Memᴰ p (q ∷ qs) h = elim (Bool-cases (same_phase p q)) [
  | inl e ↦ Memᴰ.head (same_phase-≡ p q e)
  | inr e ↦ Memᴰ.tail (phase_listed-Memᴰ p qs (ground (arith, h, e)))
]
  where
    same_phase-≡ : (p q : WorkflowPhase) → same_phase p q ≡ true → p ≡ q
    same_phase-≡ plan plan h = refl
    same_phase-≡ execute execute h = refl
    same_phase-≡ external_action external_action h = refl
    same_phase-≡ _ _ h = ground (arith, h)

current_task-parts :
    (o : Option Task) (w : Workflow)
    → current_task o w ≡ true
    → (t : Task) × (o ≡ some t) × (t.status ≡ open_task) × (t.version ≡ w.task_version)
current_task-parts none w h = cc
current_task-parts (some t) w h = (t, refl, ground (arith, h), ground (arith, h))

ready-parts :
    (w : Workflow) (now : ℕ) (o : Option ℕ)
    → w.next_attempt_at ≡ o
    → is_ready w now ≡ true
    → ((w.status ≡ queued) × (w.next_attempt_at ≡ none))
      ⊎ (((w.status ≡ queued) ⊎ (w.status ≡ parked))
          × ((at : ℕ) × (w.next_attempt_at ≡ some at) × (at ≤ now)))
ready-parts w now none e h = inl (ground (arith, e, h), e)
ready-parts w now (some at) e h = inr (ground (arith, e, h), (at, e, ground (arith, e, h)))

both : (x y : Bool) → x && y ≡ true → (x ≡ true) × (y ≡ true)
both true true h = (refl, refl)
both true false h = (refl, h)
both false y h = (h, ground (arith, h))

pub is_candidate-Ready :
    (db : Db) (phases : List WorkflowPhase) (now : ℕ) (w : Workflow)
    → is_candidate db phases now w ≡ true
    → Ready db phases now w
is_candidate-Ready db phases now w h =
    let listed = phase_listed w.phase phases in
    let x = both (is_ready w now && listed) (current_task (find_task w.task_id db.tasks) w) h in
    let y = both (is_ready w now) listed x.0 in
    let (t, f, o, v) = current_task-parts (find_task w.task_id db.tasks) w x.1 in
    (t, f, o, v, phase_listed-Memᴰ w.phase phases y.1, ready-parts w now w.next_attempt_at refl y.0)
