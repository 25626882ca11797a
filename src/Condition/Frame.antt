-- ===== src/Condition/Frame.antt =====
-- What `evaluate_task_conditions` of task_scheduling.py reads and what it writes.
use foxhound.Prelude.{ℕ, ◌≡◌, refl, sym, ◌∙◌, ap, Bool, true, ◌&&◌, List, [], ◌∷◌, arith}
use foxhound.Tables.{Db, Condition, ConditionState, live, satisfied, canceled, needs_review}
use foxhound.Condition.{verdict, watched, move_condition, refresh, evaluate_task_conditions}

-- The database with the conditions of another.
abbrev pub with_conditions : Db → Db → Db
with_conditions db d = record db {
  conditions = d.conditions;
  condition_events = d.condition_events;
}

move_condition-frame :
    (db : Db) (c : Condition) (state : ConditionState) (now : ℕ)
    → move_condition db c state now ≡ with_conditions db (move_condition db c state now)
unfolding move_condition
move_condition-frame db c live now = refl
move_condition-frame db c satisfied now = ground arith
move_condition-frame db c needs_review now = ground arith
move_condition-frame db c canceled now = ground arith

refresh-frame :
    (v now : ℕ) (cs : List Condition) (b : Bool) (db : Db)
    → (refresh v now cs (b, db)).1 ≡ with_conditions db (refresh v now cs (b, db)).1
unfolding refresh
refresh-frame v now [] b db = refl
refresh-frame v now (c ∷ cs) b db =
    refresh-frame v now cs _ _
    ∙ ap (λ (d : Db). with_conditions d (refresh v now (c ∷ cs) (b, db)).1)
        (move_condition-frame db c _ now)

-- The tasks of a database decide a verdict, and its conditions do not.
verdict-with_conditions :
    (db d : Db) (c : Condition) (v now : ℕ)
    → verdict (with_conditions db d) c v now ≡ verdict db c v now
unfolding verdict
verdict-with_conditions db d c v now = refl

-- Every condition lets the task through.
pub all_pass : Db → ℕ → ℕ → List Condition → Bool
unfolding verdict
all_pass db v now [] = true
all_pass db v now (c ∷ cs) = (verdict db c v now).0 && all_pass db v now cs

and_assoc : (a b c : Bool) → ((a && b) && c) ≡ (a && (b && c))
and_assoc a b c = ground arith

and_true : (b : Bool) → (b && true) ≡ b
and_true b = ground arith

refresh-eligible :
    (v now : ℕ) (cs : List Condition) (b : Bool) (db d : Db)
    → (refresh v now cs (b, with_conditions db d)).0 ≡ (b && all_pass db v now cs)
unfolding refresh all_pass
refresh-eligible v now [] b db d = sym (and_true b)
refresh-eligible v now (c ∷ cs) b db d =
    let x = verdict db c v now in
    let e = with_conditions db d in
    ap (λ (y : Bool × ConditionState). (refresh v now cs (b && y.0, move_condition e c y.1 now)).0)
      (verdict-with_conditions db d c v now)
    ∙ ap (λ (y : Db). (refresh v now cs (b && x.0, y)).0) (move_condition-frame e c x.1 now)
    ∙ refresh-eligible v now cs (b && x.0) db (move_condition e c x.1 now)
    ∙ and_assoc b x.0 (all_pass db v now cs)

-- A task is let through exactly when each condition that is watched for it passes on the tasks as
-- they stand, and evaluating them changes nothing but the conditions and their events.
pub evaluate_task_conditions-frame :
    (db : Db) (id v now : ℕ)
    → ((evaluate_task_conditions db id v now).0 ≡ all_pass db v now (watched id db.conditions))
      × ((evaluate_task_conditions db id v now).1
          ≡ with_conditions db (evaluate_task_conditions db id v now).1)
unfolding evaluate_task_conditions
evaluate_task_conditions-frame db id v now = (
  refresh-eligible v now (watched id db.conditions) true db db,
  refresh-frame v now (watched id db.conditions) true db,
)
