-- ===== src/Condition.antt =====
-- `evaluate_task_conditions` of task_scheduling.py: refresh a task's scheduling conditions and say
-- whether its workflow may be claimed.
pub mod Frame
use foxhound.Prelude.{
  ℕ, Bool, true, false, ◌&&◌, Option, none, some, List, [], ◌∷◌, ◌++◌, leb, ◌==◌, if◌then◌else◌,
}
use foxhound.Schema.{TaskStatus, open_task, done, dropped}
use foxhound.Store.{find_task}
use foxhound.Tables.{
  Db, Task, Condition, ConditionKind, ConditionState, ConditionEvent, after_task_completed,
  not_before, live, satisfied, canceled, needs_review,
}

-- `state IN ('active','needs_review')`.
abbrev pub is_watched : ConditionState → Bool
is_watched live = true
is_watched needs_review = true
is_watched _ = false

dependency_verdict : Option Task → Bool × ConditionState
dependency_verdict none = (false, needs_review)
dependency_verdict (some t) = elim t.status [
  | done ↦ (true, satisfied)
  | open_task ↦ (false, live)
  | dropped ↦ (false, needs_review)
]

kind_verdict : Db → ConditionKind → ℕ → Bool × ConditionState
unfolding dependency_verdict
kind_verdict db (not_before start) now = if leb start now then (true, satisfied) else (false, live)
kind_verdict db (after_task_completed id) now = dependency_verdict (find_task id db.tasks)

-- Whether the condition lets the task through, and the state that it moves to; `live` leaves it.
pub verdict : Db → Condition → ℕ → ℕ → Bool × ConditionState
unfolding kind_verdict
verdict db c task_version now =
    if c.task_version == task_version then kind_verdict db c.kind now else (false, needs_review)

abbrev same_state : ConditionState → ConditionState → Bool
same_state satisfied satisfied = true
same_state needs_review needs_review = true
same_state _ _ = false

unfoldable pub replace_condition : ℕ → ConditionState → ℕ → List Condition → List Condition
replace_condition id state now [] = []
replace_condition id state now (c ∷ cs) =
    (if c.id == id then record c { state = state; updated_at = now } else c)
    ∷ replace_condition id state now cs

-- `_condition_event`.
abbrev pub condition_event : ℕ → ℕ → ConditionState → ℕ → Db → Db
condition_event id task_id state now db = record db {
  condition_events =
      db.condition_events
      ++ record { condition_id = id; task_id = task_id; state = state; occurred_at = now } ∷ [];
}

-- `_set_condition_state`.
set_condition_state : Db → Condition → ConditionState → ℕ → Db
unfolding replace_condition
set_condition_state db c state now =
    condition_event c.id c.task_id state now
      (record db { conditions = replace_condition c.id state now db.conditions })

-- A state is written when the verdict names one that the condition is not in.
move_condition : Db → Condition → ConditionState → ℕ → Db
unfolding set_condition_state
move_condition db c live now = db
move_condition db c state now =
    if same_state c.state state then db else set_condition_state db c state now

refresh : ℕ → ℕ → List Condition → Bool × Db → Bool × Db
unfolding verdict move_condition
refresh task_version now [] (eligible, db) = (eligible, db)
refresh task_version now (c ∷ cs) (eligible, db) = refresh task_version now cs (
  eligible && (verdict db c task_version now).0,
  move_condition db c (verdict db c task_version now).1 now,
)

pub watched : ℕ → List Condition → List Condition
watched id [] = []
watched id (c ∷ cs) =
    let rest = watched id cs in if c.task_id == id && is_watched c.state then c ∷ rest else rest

-- `evaluate_task_conditions`: the conditions are read once, in the order of their ids.
unfoldable pub evaluate_task_conditions : Db → ℕ → ℕ → ℕ → Bool × Db
unfolding refresh watched
evaluate_task_conditions db id task_version now =
    refresh task_version now (watched id db.conditions) (true, db)
