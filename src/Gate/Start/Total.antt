-- ===== src/Gate/Start/Total.antt =====
-- Every branch of `start_action` of task_execution.py, on a table whose rows pass their CHECKs.
use foxhound.Prelude.{
  ℕ, ◌+◌, ◌≤◌, ◌≡◌, refl, String, true, Option, none, some, arith, if◌then◌else◌, Attempt, ok,
  Bool-cases, Option-cases, ◌⊎◌, inl, inr,
}
use foxhound.Schema.{Workflow, snoozed}
use foxhound.Store.{find_task, Joined, find_workflow, workflow_with_task}
use foxhound.Tables.{Task, kept, Db}
use foxhound.Store.Rows.{Valid, find_workflow-Checked, workflow_with_task-row}
use foxhound.Store.Standing.{Stands, task_guard-Stands}
use foxhound.Operation.{
  OperationResult, Refuses, invalid_argument, invalid_action, not_found, applied, refuse,
  refuse_row, apply_result, valid_identity, task_guard, transact,
}
use foxhound.Gate.Snooze.{Zone}
use foxhound.Gate.Start.{
  StartAction, start, start_choice, opens_start, is_start, start_guard, keep_owner, pin_found,
  has_pending_review, decide_review, start_move, start_at, start_chosen, apply_start_action,
  is_start_word, start_action,
}
use foxhound.Gate.Moves.{gate_db, gate-applied, start_move-fits}

pin_found-frame :
    (db : Db) (o : Option Task)
    → ((pin_found db o).workflows ≡ db.workflows) × ((pin_found db o).events ≡ db.events)
unfolding pin_found
pin_found-frame db none = (refl, refl)
pin_found-frame db (some t) = (refl, refl)

-- Closing an ownership proposal leaves the workflows and their events as they are.
pub keep_owner-frame :
    (id version now : ℕ) (db : Db)
    → ((keep_owner id version now db).workflows ≡ db.workflows)
      × ((keep_owner id version now db).events ≡ db.events)
unfolding keep_owner
keep_owner-frame id version now db =
    elim (Bool-cases (has_pending_review id version db.ownership_reviews)) [
      | inl e ↦ rw e (
          pin_found-frame
            (record db {
              ownership_reviews = decide_review id version kept now db.ownership_reviews;
            })
            (find_task id db.tasks))
      | inr e ↦ rw e (refl, refl)
    ]

-- The database after a start action on `w`.
abbrev pub start_db : Zone → Db → ℕ → ℕ → ℕ → StartAction → Workflow → Db
start_db z db id expected now action w =
    let after = gate_db db id expected (start_move z now w.phase action) now w in
    if is_start action then keep_owner id w.task_version now after else after

-- The row does not sleep beyond now.
abbrev pub Awake : Workflow → ℕ → Type 0
Awake w now = w.status ≡ snoozed → (due : ℕ) → w.due_at ≡ some due → due ≤ now

-- The action applied: to which row, and with what effect.
abbrev pub Starts :
    Zone → Attempt (OperationResult × Db) → Db → ℕ → ℕ → ℕ → Option StartAction → Type 0
Starts z m db id expected now chosen =
    (w : Workflow) × (action : StartAction) × (out : OperationResult) × (chosen ≡ some action)
    × (find_workflow id db.workflows ≡ some w)
    × (w.version ≡ expected)
    × ((opens_start w.status ≡ true) × (action ≡ start → Awake w now))
    × Stands db w
    × (m ≡ ok (out, start_db z db id expected now action w))
    × (out.disposition ≡ applied)

start_guard-parts :
    (j : Joined) (expected : ℕ) (action : StartAction) (now : ℕ)
    → start_guard j expected action now ≡ none
    → (j.row.version ≡ expected)
      × (opens_start j.row.status ≡ true)
      × (task_guard j j.row.task_version ≡ none)
      × (action ≡ start → Awake j.row now)
start_guard-parts j expected action now h = (
  ground arith,
  ground arith,
  ground arith,
  λ a st due e. (let k = (rw a at h) in ground (arith, k, st, e)),
)

start_at_total :
    (z : Zone) (now id expected : ℕ) (action : StartAction) (db : Db) (o : Option Joined)
    → Valid db
    → workflow_with_task db id ≡ o
    → Refuses (start_at z now id expected action o db) db
      ⊎ Starts z (start_at z now id expected action o db) db id expected now (some action)
unfolding start_at
start_at_total z now id expected action db none v e = inl (refuse id not_found, refl, refl)
start_at_total z now id expected action db (some j) v e =
    let f = workflow_with_task-row db id e in
    elim (Option-cases (start_guard j expected action now)) [
      | inr (r, p) ↦ inl (refuse_row id j.row r, rw (p, start_at), refl)
      | inl p ↦
          let g = start_guard-parts j expected action now p in
          let m = start_move z now j.row.phase action in
          inr (
            j.row,
            action,
            apply_result id (expected + 1) m.status m.phase m.wake none j.row.agent_profile_id
                j.row.agent_profile_revision,
            refl,
            f,
            g.0,
            (g.1, g.3),
            task_guard-Stands db id e g.2,
            rw (p, start_at)
                (rw (
                  gate-applied id expected j.row m now db (start_move-fits z now j.row.phase action)
                    (find_workflow-Checked id db.workflows v.rows f) f g.0)),
            refl,
          )
    ]

start_chosen_total :
    (z : Zone) (now id expected : ℕ) (c : Option StartAction) (db : Db)
    → Valid db
    → Refuses (start_chosen z now id expected c db) db
      ⊎ Starts z (start_chosen z now id expected c db) db id expected now c
unfolding start_chosen
start_chosen_total z now id expected none db v = inl (refuse id invalid_action, refl, refl)
start_chosen_total z now id expected (some a) db v =
    start_at_total z now id expected a db (workflow_with_task db id) v refl

pub apply_start_action_total :
    (z : Zone) (now id expected : ℕ) (action : String) (db : Db)
    → Valid db
    → Refuses (apply_start_action z now id expected action db) db
      ⊎ Starts z
          (apply_start_action z now id expected action db)
          db
          id
          expected
          now
          (start_choice action)
unfolding apply_start_action
apply_start_action_total z now id expected action db v =
    elim (Bool-cases (valid_identity id expected)) [
      | inl p ↦ rw p (start_chosen_total z now id expected (start_choice action) db v)
      | inr p ↦ inl (refuse id invalid_argument, rw p, refl)
    ]

-- A transaction round a body that refuses or applies does what the body does.
transact-Starts :
    (z : Zone) (m : Attempt (OperationResult × Db)) (db : Db) (id expected now : ℕ)
    (c : Option StartAction)
    → Refuses m db ⊎ Starts z m db id expected now c
    → Refuses (transact db m) db ⊎ Starts z (transact db m) db id expected now c
transact-Starts z m db id expected now c (inl (out, e, r)) =
    inl (out, rw e (unfold transact in ground arith), r)
transact-Starts z m db id expected now c (inr (w, a, out, h, f, v, o, s, e, p)) =
    inr (w, a, out, h, f, v, o, s, rw e (unfold transact in ground arith), p)

-- `start_action` on checked rows, by its branches.
pub start_action_total :
    (z : Zone) (now id expected : ℕ) (action : String) (db : Db)
    → Valid db
    → Refuses (start_action z now id expected action db) db
      ⊎ Starts z (start_action z now id expected action db) db id expected now (start_choice action)
unfolding start_action
start_action_total z now id expected action db v = elim (Bool-cases (valid_identity id expected)) [
  | inr p ↦ inl (refuse id invalid_argument, rw p, refl)
  | inl p ↦ elim (Bool-cases (is_start_word action)) [
    | inr q ↦ inl (refuse id invalid_action, rw p (rw q), refl)
    | inl q ↦ rw p (
        rw q (
          transact-Starts z _ db id expected now _
            (apply_start_action_total z now id expected action db v)))
  ]
]
