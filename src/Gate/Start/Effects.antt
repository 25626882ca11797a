-- ===== src/Gate/Start/Effects.antt =====
-- What `start_action` of task_execution.py leaves behind: the row, its event, and the ownership
-- proposal of task_research_gate.py that a Start closes.
use foxhound.Prelude.{
  ℕ, ◌≡◌, refl, sym, subst, String, true, Option, none, some, arith, str_eq, eq_iff, ok, Bool-cases,
  ◌⊎◌, inl, inr,
}
use foxhound.Schema.{Workflow, WorkflowStatus, snoozed, awaiting_start, parked}
use foxhound.Store.{find_workflow}
use foxhound.Tables.{Db}
use foxhound.Store.Rows.{Valid}
use foxhound.Store.Standing.{Stands}
use foxhound.Operation.{OperationResult, Refuses, applied}
use foxhound.Gate.Snooze.{Zone, SnoozeAction, snooze, review_snooze}
use foxhound.Gate.Start.{
  StartAction, start, cancel, snoozes, start_choice, snooze_start, opens_start, start_move, gated,
  start_action,
}
use foxhound.Gate.Moves.{gate_db}
use foxhound.Gate.Start.Total.{Awake, start_db, keep_owner-frame, start_action_total}
use foxhound.Gate.Start.Gated.{starts, cancels, sleeps, sleeps_until, Gated, Names}
use foxhound.Gate.Start.Owners.{keep_owner-Owns}

start_choice-Names : (word : String) (a : StartAction) → start_choice word ≡ some a → Names word a
unfolding start_choice snooze_start
start_choice-Names word a h = elim (Bool-cases (str_eq word "start")) [
  | inl e ↦
      let k : start ≡ a = (let k = (rw e at h) in cc) in
      subst (λ x. Names x a) (sym ((eq_iff word "start").0 e)) (subst (Names "start") k starts)
  | inr e ↦ elim (Bool-cases (str_eq word "cancel")) [
    | inl d ↦
        let k : cancel ≡ a = (let k = (rw (e, d) at h) in cc) in
        subst (λ x. Names x a) (sym ((eq_iff word "cancel").0 d)) (subst (Names "cancel") k cancels)
    | inr d ↦ elim (Bool-cases (str_eq word "snooze")) [
      | inl n ↦
          let k : snoozes snooze ≡ a = (let k = (rw (e, d, n) at h) in cc) in
          subst (λ x. Names x a) (sym ((eq_iff word "snooze").0 n))
            (subst (Names "snooze") k sleeps)
      | inr n ↦ named (review_snooze word) refl (rw (e, d, n) at h)
    ]
  ]
]
  where
    named :
        (o : Option SnoozeAction)
        → review_snooze word ≡ o
        → snooze_start (review_snooze word) ≡ some a
        → Names word a
    named none f k = (let z = (rw f at k) in cc)
    named (some b) f k =
        let z : snoozes b ≡ a = (let z = (rw f at k) in cc) in subst (Names word) z (sleeps_until f)

opens-waits :
    (x : WorkflowStatus)
    → opens_start x ≡ true
    → (x ≡ awaiting_start) ⊎ (x ≡ snoozed) ⊎ (x ≡ parked)
opens-waits awaiting_start h = inl refl
opens-waits snoozed h = inr (inl refl)
opens-waits parked h = inr (inr refl)
opens-waits _ h = ground (arith, h)

start_db-Gated :
    (z : Zone) (db : Db) (id now : ℕ) (action : StartAction) (w : Workflow)
    → Gated z db (start_db z db id w.version now action w) id now w action
unfolding start_move gated
start_db-Gated z db id now start w =
    let after = gate_db db id w.version (start_move z now w.phase start) now w in
    let (rows, events) = keep_owner-frame id w.task_version now after in
    record { row = rows; event = events; owner = keep_owner-Owns id w.task_version now after }
start_db-Gated z db id now cancel w = record { row = refl; event = refl; owner = (refl, refl) }
start_db-Gated z db id now (snoozes a) w = record { row = refl; event = refl; owner = (refl, refl) }

-- On checked rows `start_action` never raises. It refuses and changes nothing; or the reader named the
-- current version of a workflow that waits for a start, sleeps or is parked, and whose task is open at
-- the workflow's version of it, and no sleep beyond now for a Start. Then a Start queues the row in its
-- phase, closes the proposals of another owner that wait for the reader and pins the owner where there
-- was one; a cancel ends the row; a snooze lets it sleep until the calendar wakes it. The row's version
-- is the next one, no claim, failure or park is left on it, and one event is appended.
pub start_action_effects :
    (z : Zone) (now id expected : ℕ) (word : String) (db : Db)
    → Valid db
    → Refuses (start_action z now id expected word db) db
      ⊎ ((w : Workflow) × (action : StartAction) × (out : OperationResult) × (after : Db) × Names
            word action
          × (find_workflow id db.workflows ≡ some w)
          × (w.version ≡ expected)
          × ((w.status ≡ awaiting_start) ⊎ (w.status ≡ snoozed) ⊎ (w.status ≡ parked))
          × (action ≡ start → Awake w now)
          × Stands db w
          × (start_action z now id expected word db ≡ ok (out, after))
          × (out.disposition ≡ applied)
          × Gated z db after id now w action)
start_action_effects z now id expected word db v =
    elim (start_action_total z now id expected word db v) [
      | inl r ↦ inl r
      | inr (w, action, out, chosen, found, version, waits, stands, done, a) ↦ inr (
        w,
        action,
        out,
        start_db z db id expected now action w,
        start_choice-Names word action chosen,
        found,
        version,
        opens-waits w.status waits.0,
        waits.1,
        stands,
        done,
        a,
        subst (λ e. Gated z db (start_db z db id e now action w) id now w action) version
            (start_db-Gated z db id now action w),
      )
    ]
