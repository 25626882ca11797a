-- ===== src/Gate/Review/Total.antt =====
-- Every branch of `review_action` of task_execution.py, on a table whose rows pass their CHECKs.
use foxhound.Prelude.{
  ℕ, ◌+◌, ◌≡◌, refl, String, true, ◌&&◌, Option, none, some, arith, Attempt, ok, Bool-cases,
  Option-cases, ◌⊎◌, inl, inr, is_some,
}
use foxhound.Schema.{Workflow, ExecutionOutcome}
use foxhound.Store.{Joined, find_workflow, workflow_with_task}
use foxhound.Tables.{Db}
use foxhound.Store.Rows.{Valid, find_workflow-Checked, workflow_with_task-row}
use foxhound.Store.Standing.{Stands, task_guard-Stands}
use foxhound.Operation.{
  OperationResult, Refuses, invalid_argument, invalid_action, invalid_state, not_found, applied,
  refuse, refuse_row, apply_result, valid_identity, task_guard, transact,
}
use foxhound.Gate.Snooze.{Zone}
use foxhound.Gate.Start.{GateMove}
use foxhound.Gate.Review.{
  ReviewAction, review_choice, opens_review, last_outcome, review_guard, review_move, review_gate,
  review_result, review_at, review_chosen, apply_review_action, review_action, not_bare,
}
use foxhound.Gate.Moves.{gate_db, gate-applied, review_move-fits}

-- The action applied: to which row, on which result, and with what effect.
pub record Reviewed (z : Zone) (m : Attempt (OperationResult × Db)) (db : Db) (id expected now : ℕ)
    (chosen : Option ReviewAction) : Type 0 where
  pub row : Workflow
  pub action : ReviewAction
  pub outcome : ExecutionOutcome
  pub move : GateMove
  pub out : OperationResult
  pub choice : chosen ≡ some action
  pub found : find_workflow id db.workflows ≡ some row
  pub version : row.version ≡ expected
  pub waits : opens_review action row.status ≡ true
  pub stands : Stands db row
  pub answered : last_outcome db id row.last_result_id ≡ some outcome
  pub moves : review_move z now row.phase outcome action ≡ some move
  pub result : m ≡ ok (out, gate_db db id expected move now row)
  pub accepted : out.disposition ≡ applied

review_guard-parts :
    (j : Joined) (expected : ℕ) (action : ReviewAction) (now : ℕ)
    → review_guard j expected action now ≡ none
    → (j.row.version ≡ expected)
      × (opens_review action j.row.status ≡ true)
      × (task_guard j j.row.task_version ≡ none)
review_guard-parts j expected action now h = (ground arith, ground arith, ground arith)

review_at_total :
    (z : Zone) (now id expected : ℕ) (action : ReviewAction) (db : Db) (o : Option Joined)
    → Valid db
    → workflow_with_task db id ≡ o
    → Refuses (review_at z now id expected action o db) db
      ⊎ Reviewed z (review_at z now id expected action o db) db id expected now (some action)
unfolding review_at
review_at_total z now id expected action db none v e = inl (refuse id not_found, refl, refl)
review_at_total z now id expected action db (some j) v e =
    let f = workflow_with_task-row db id e in
    elim (Option-cases (review_guard j expected action now)) [
      | inr (r, p) ↦ inl (refuse_row id j.row r, rw (p, review_at), refl)
      | inl p ↦
          let g = review_guard-parts j expected action now p in
          elim (Option-cases (last_outcome db id j.row.last_result_id)) [
            | inl q ↦
                inl (
                  refuse_row id j.row invalid_state,
                  rw (p, review_at) (rw (q, review_result)),
                  refl,
                )
            | inr (o, q) ↦ elim (Option-cases (review_move z now j.row.phase o action)) [
              | inl k ↦ inl (
                refuse_row id j.row invalid_state,
                rw (p, review_at) (rw (q, review_result) (rw (k, review_gate))),
                refl,
              )
              | inr (m, k) ↦ inr (record {
                row = j.row;
                action = action;
                outcome = o;
                move = m;
                out =
                    apply_result id (expected + 1) m.status m.phase m.wake none
                      j.row.agent_profile_id j.row.agent_profile_revision;
                choice = refl;
                found = f;
                version = g.0;
                waits = g.1;
                stands = task_guard-Stands db id e g.2;
                answered = q;
                moves = k;
                result =
                    rw (p, review_at)
                      (rw (q, review_result)
                        (rw (k, review_gate)
                          (gate-applied id expected j.row m now db
                            (review_move-fits z now j.row.phase o action k)
                            (find_workflow-Checked id db.workflows v.rows f) f g.0)));
                accepted = refl;
              })
            ]
          ]
    ]

review_chosen_total :
    (z : Zone) (now id expected : ℕ) (c : Option ReviewAction) (db : Db)
    → Valid db
    → Refuses (review_chosen z now id expected c db) db
      ⊎ Reviewed z (review_chosen z now id expected c db) db id expected now c
unfolding review_chosen
review_chosen_total z now id expected none db v = inl (refuse id invalid_action, refl, refl)
review_chosen_total z now id expected (some a) db v =
    review_at_total z now id expected a db (workflow_with_task db id) v refl

pub apply_review_action_total :
    (z : Zone) (now id expected : ℕ) (action : String) (db : Db)
    → Valid db
    → Refuses (apply_review_action z now id expected action db) db
      ⊎ Reviewed z
          (apply_review_action z now id expected action db)
          db
          id
          expected
          now
          (review_choice action)
unfolding apply_review_action
apply_review_action_total z now id expected action db v =
    elim (Bool-cases (valid_identity id expected)) [
      | inl p ↦ rw p (review_chosen_total z now id expected (review_choice action) db v)
      | inr p ↦ inl (refuse id invalid_argument, rw p, refl)
    ]

-- A transaction round a body that refuses or applies does what the body does.
transact-Reviewed :
    (z : Zone) (m : Attempt (OperationResult × Db)) (db : Db) (id expected now : ℕ)
    (c : Option ReviewAction)
    → Refuses m db ⊎ Reviewed z m db id expected now c
    → Refuses (transact db m) db ⊎ Reviewed z (transact db m) db id expected now c
transact-Reviewed z m db id expected now c (inl (out, e, r)) =
    inl (out, rw e (unfold transact in ground arith), r)
transact-Reviewed z m db id expected now c (inr h) = inr (record {
  row = h.row;
  action = h.action;
  outcome = h.outcome;
  move = h.move;
  out = h.out;
  choice = h.choice;
  found = h.found;
  version = h.version;
  waits = h.waits;
  stands = h.stands;
  answered = h.answered;
  moves = h.moves;
  result = rw h.result (unfold transact in ground (arith, h.accepted));
  accepted = h.accepted;
})

-- On checked rows `review_action` never raises. It refuses and changes nothing, or the reader named
-- the current version of a row that the action may open, whose task is open at the workflow's
-- version of it and whose last result is kept; then the row takes the move that the action has on
-- that result at the next version, and one event is appended.
pub review_action_total :
    (z : Zone) (now id expected : ℕ) (action : String) (db : Db)
    → Valid db
    → Refuses (review_action z now id expected action db) db
      ⊎ Reviewed z
          (review_action z now id expected action db)
          db
          id
          expected
          now
          (review_choice action)
unfolding review_action
review_action_total z now id expected action db v = elim (Bool-cases (valid_identity id expected)) [
  | inr p ↦ inl (refuse id invalid_argument, rw p, refl)
  | inl p ↦ elim (Bool-cases (not_bare action && is_some (review_choice action))) [
    | inr q ↦ inl (refuse id invalid_action, rw p (rw q), refl)
    | inl q ↦ rw p (
        rw q (
          transact-Reviewed z _ db id expected now _
            (apply_review_action_total z now id expected action db v)))
  ]
]
