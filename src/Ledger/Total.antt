-- ===== src/Ledger/Total.antt =====
-- Every branch of `transition` of task_ledger.py, and what it does to the workflows of the task.
use foxhound.Prelude.{
  subst, ℕ, ◌+◌, ◌≡◌, refl, ap, ◌∙◌, String, true, false, Option, none, some, List, [], ◌∷◌, leb,
  ◌==◌, arith, Bool-cases, ◌⊎◌, inl, inr,
}
use foxhound.Schema.{Workflow, TaskStatus, is_finished}
use foxhound.Store.{find_task, replace_task}
use foxhound.Tables.{Db, Task}
use foxhound.Sweep.{is_stale}
use foxhound.Ledger.{
  TransitionResult, applied, refused, TransitionRefusal, not_found, stale_version, invalid_state,
  invalid_action, TaskAction, task_action, leaves, enters, moved_task, transitioned,
  transition_task, apply_task_transition, transition,
}

-- The transition was refused and changed nothing.
abbrev pub Refuses : TransitionResult × Db → Db → Type 0
Refuses m db =
    (i : ℕ) × (row : Option (ℕ × TaskStatus)) × (r : TransitionRefusal) × (m
      ≡ (refused i row r, db))

-- The transition took the task from a state that the action leaves to the one it enters.
abbrev pub Moves : TransitionResult × Db → Db → ℕ → ℕ → Option TaskAction → ℕ → Type 0
Moves m db id expected chosen now =
    (t : Task) × (action : TaskAction) × (chosen ≡ some action)
    × (find_task id db.tasks ≡ some t)
    × (t.version ≡ expected)
    × (leaves action t.status ≡ true)
    × (m ≡ (applied id (expected + 1) (enters action), transitioned id (enters action) now t db))

transition_task_total :
    (id expected : ℕ) (action : TaskAction) (now : ℕ) (o : Option Task) (db : Db)
    → find_task id db.tasks ≡ o
    → Refuses (transition_task id expected action now o db) db
      ⊎ Moves (transition_task id expected action now o db) db id expected (some action) now
unfolding transition_task
transition_task_total id expected action now none db f = inl (id, none, not_found, refl)
transition_task_total id expected action now (some t) db f =
    elim (Bool-cases (t.version == expected)) [
      | inr p ↦ inl (id, some (t.version, t.status), stale_version, ground arith)
      | inl p ↦ elim (Bool-cases (leaves action t.status)) [
        | inr q ↦ inl (id, some (t.version, t.status), invalid_state, ground arith)
        | inl q ↦ inr (t, action, refl, f, ground arith, q, ground arith)
      ]
    ]

chosen_total :
    (id expected : ℕ) (c : Option TaskAction) (now : ℕ) (db : Db)
    → Refuses (apply_task_transition id expected c now db) db
      ⊎ Moves (apply_task_transition id expected c now db) db id expected c now
unfolding apply_task_transition
chosen_total id expected none now db = inl (id, none, invalid_action, refl)
chosen_total id expected (some action) now db =
    transition_task_total id expected action now (find_task id db.tasks) db refl

-- `transition`, by its branches.
pub transition_total :
    (id expected : ℕ) (action : String) (now : ℕ) (db : Db)
    → Refuses (transition id expected action now db) db
      ⊎ Moves (transition id expected action now db) db id expected (task_action action) now
unfolding transition
transition_total id expected action now db = elim (Bool-cases (leb 1 id)) [
  | inr p ↦ inl (0, none, not_found, rw p)
  | inl p ↦ elim (Bool-cases (leb 1 expected)) [
    | inr q ↦ inl (id, none, stale_version, rw p (rw q))
    | inl q ↦ rw p (rw q (chosen_total id expected (task_action action) now db))
  ]
]

pub find_task-key : (id : ℕ) (ts : List Task) {t : Task} → find_task id ts ≡ some t → t.id ≡ id
unfolding find_task
find_task-key id [] h = cc
find_task-key id (u ∷ us) {t} h = ground (arith, find_task-key id us {t = t})

pub find-replace_task :
    (id : ℕ) (v : Task) (ts : List Task) {t : Task}
    → v.id ≡ id
    → find_task id ts ≡ some t
    → find_task id (replace_task v ts) ≡ some v
unfolding find_task replace_task
find-replace_task id v [] k h = cc
find-replace_task id v (u ∷ us) {t} k h = ground (arith, find-replace_task id v us {t = t})

-- A task that is moved leaves every unfinished workflow made for its version behind: the next sweep
-- of the workflows finds it stale.
pub transition-stales :
    (id expected : ℕ) (action : String) (now : ℕ) (db : Db) {v : ℕ} {status : TaskStatus}
    {after : Db} (w : Workflow)
    → transition id expected action now db ≡ (applied id v status, after)
    → w.task_id ≡ id
    → w.task_version ≡ expected
    → is_finished w.status ≡ false
    → is_stale after w ≡ true
transition-stales id expected action now db {v} {status} {after} w e k tv fin =
    elim (transition_total id expected action now db) [
      | inl (i, row, r, p) ↦ absurd (refused_applied i row r p)
      | inr (t, a, _, f, ver, _, p) ↦
          let g : find_task id after.tasks ≡ some (moved_task (enters a) now t) =
            (ap (λ (d : Db). find_task id d.tasks) (same_db t a p)
              ∙ (unfold transitioned in
                  find-replace_task id (moved_task (enters a) now t) db.tasks
                    (find_task-key id db.tasks f) f)) in
          unfold is_stale in ground (arith, g)
    ]
  where
    refused_applied :
        (i : ℕ) (row : Option (ℕ × TaskStatus)) (r : TransitionRefusal)
        → transition id expected action now db ≡ (refused i row r, db)
        → ⊥
    refused_applied i row r p = cc

    same_db :
        (t : Task) (a : TaskAction)
        → transition id expected action now db
          ≡ (applied id (expected + 1) (enters a), transitioned id (enters a) now t db)
        → after ≡ transitioned id (enters a) now t db
    same_db t a p = cc

-- A transition reads and writes the ledger alone.
pub transition-frame :
    (id expected : ℕ) (action : String) (now : ℕ) (db : Db) {r : TransitionResult} {after : Db}
    → transition id expected action now db ≡ (r, after)
    → (after.workflows ≡ db.workflows) × (after.events ≡ db.events)
transition-frame id expected action now db {r} {after} e =
    elim (transition_total id expected action now db) [
      | inl (i, row, x, p) ↦
          let same : db ≡ after = cc in
          subst (λ (d : Db). (d.workflows ≡ db.workflows) × (d.events ≡ db.events)) same
            (refl, refl)
      | inr (t, a, _, _, _, _, p) ↦
          let d = transitioned id (enters a) now t db in
          let same : d ≡ after = cc in
          subst (λ (d : Db). (d.workflows ≡ db.workflows) × (d.events ≡ db.events)) same
            (unfold transitioned in (refl, refl))
    ]
