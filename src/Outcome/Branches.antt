-- ===== src/Outcome/Branches.antt =====
-- The branches of `record_result` of task_execution.py, put together.
use foxhound.Prelude.{
  ℕ, ◌+◌, ◌≡◌, refl, sym, subst, ◌∙◌, raise, integrity_error, true, false, ◌&&◌, Option, none, some,
  ◌==◌, str_eq, eq_iff, arith, Bool-cases, Option-cases, ◌⊎◌, inl, inr,
}
use foxhound.Schema.{Workflow, WorkflowPhase, awaiting_review}
use foxhound.Store.{Joined, find_workflow, workflow_with_task}
use foxhound.Tables.{Db, EventKind, ResultRow}
use foxhound.Store.Rows.{Valid, find_workflow-Checked, event-found}
use foxhound.Store.Standing.{joined_origin}
use foxhound.Operation.{
  Refuses, invalid_state, not_found, result_conflict, refuse, refuse_row, apply_result,
}
use foxhound.Service.{Service}
use foxhound.Outcome.{
  storable, record_move, insert_result, advance_phase, advance_status, record_guard, refuse_repeat,
  record_passed, record_target, record_at, replayed, record_known, record_result,
}
use foxhound.Outcome.Answers.{ValidResult, find_result, result_target, repeats_an_earlier_answer}
use foxhound.Outcome.Recorded.{storable-Storable, record_move-applied}
use foxhound.Outcome.Total.{
  Claimed, Records, Unstorable, Repeats, Replays, advance_of, record_guard-Claimed,
  result_target-cases,
}

refuse_repeat-noted :
    (s : Service) (now : ℕ) (v : ValidResult) (db : Db) (c : Claimed s v now db)
    → repeats_an_earlier_answer db v ≡ true
    → Repeats s v now db (refuse_repeat now v c.row db)
unfolding refuse_repeat
refuse_repeat-noted s now v db c r = (
  c,
  r,
  rw (
      event-found v.task_id EventKind.result_unchanged c.row.version c.row.task_version c.row.phase
        c.row.status now db c.row c.found),
)

record_move-raises :
    (v : ValidResult) (w : Workflow) (advance : Option WorkflowPhase) (now : ℕ) (db : Db)
    → storable v w now db ≡ false
    → record_move v w awaiting_review advance now db ≡ raise integrity_error
unfolding record_move insert_result
record_move-raises v w advance now db z = rw z refl

-- A result past the guards that is not a repeat: refused in its phase, recorded, or not taken.
record_target_total :
    (s : Service) (now : ℕ) (v : ValidResult) (j : Joined) (db : Db)
    → Valid db
    → workflow_with_task db v.task_id ≡ some j
    → (c : Claimed s v now db) → c.row ≡ j.row
    → repeats_an_earlier_answer db v ≡ false
    → let m = record_target s now v j (result_target v.phase v.answer.outcome) db in
      Refuses m db ⊎ Records s v now db m ⊎ Unstorable s v now db m
unfolding record_target
record_target_total s now v j db valid e c k n = elim (result_target-cases v) [
  | inl p ↦ inl (refuse_row v.task_id j.row invalid_state, rw (p, record_target), refl)
  | inr (p, q) ↦
      let a = advance_of s v db in
      let moves : record_target s now v j (result_target v.phase v.answer.outcome) db
          ≡ record_move v c.row awaiting_review a now db =
        rw (p, record_target) (rw (joined_origin db v.task_id e) (rw (sym k) refl)) in
      elim (Bool-cases (storable v c.row now db)) [
        | inr z ↦ inr (
            inr (
              c,
              q,
              n,
              λ f. (let y = (storable-Storable v c.row now db).1 f in cc),
              moves ∙ record_move-raises v c.row a now db z,
            ))
        | inl z ↦
            let fits = (storable-Storable v c.row now db).0 z in
            inr (
              inl (
                c,
                apply_result v.task_id (v.workflow_version + 1) (advance_status awaiting_review a)
                    (advance_phase v.phase a) none none c.row.agent_profile_id
                    c.row.agent_profile_revision,
                q,
                n,
                fits,
                moves
                    ∙ record_move-applied v c.row a now db
                        (find_workflow-Checked v.task_id db.workflows valid.rows c.found) c.found
                        c.held.status c.held.version fits,
                refl,
              ))
      ]
]

passed_repeat :
    (s : Service) (now : ℕ) (v : ValidResult) (j : Joined) (db : Db)
    → repeats_an_earlier_answer db v ≡ true
    → record_passed s now v j db ≡ refuse_repeat now v j.row db
unfolding record_passed
passed_repeat s now v j db r = rw r

passed_new :
    (s : Service) (now : ℕ) (v : ValidResult) (j : Joined) (db : Db)
    → repeats_an_earlier_answer db v ≡ false
    → record_passed s now v j db
      ≡ record_target s now v j (result_target v.phase v.answer.outcome) db
unfolding record_passed
passed_new s now v j db r = rw r

record_passed_total :
    (s : Service) (now : ℕ) (v : ValidResult) (j : Joined) (db : Db)
    → Valid db
    → workflow_with_task db v.task_id ≡ some j
    → (c : Claimed s v now db) → c.row ≡ j.row
    → let m = record_passed s now v j db in
      Refuses m db ⊎ Records s v now db m ⊎ Unstorable s v now db m ⊎ Repeats s v now db m
record_passed_total s now v j db valid e c k = elim (Bool-cases (repeats_an_earlier_answer db v)) [
  | inl r ↦ inr (
      inr (
        inr (
          subst (Repeats s v now db) (sym (passed_repeat s now v j db r)) (
            subst (λ (w : Workflow). Repeats s v now db (refuse_repeat now v w db)) k
              (refuse_repeat-noted s now v db c r)))))
  | inr n ↦
      subst
        (λ m. Refuses m db ⊎ Records s v now db m ⊎ Unstorable s v now db m ⊎ Repeats s v now db m)
        (sym (passed_new s now v j db n))
        (elim (record_target_total s now v j db valid e c k n) [
          | inl r ↦ inl r
          | inr (inl r) ↦ inr (inl r)
          | inr (inr r) ↦ inr (inr (inl r))
        ])
]

record_at_total :
    (s : Service) (now : ℕ) (v : ValidResult) (db : Db) (o : Option Joined)
    → Valid db
    → workflow_with_task db v.task_id ≡ o
    → let m = record_at s now v o db in
      Refuses m db ⊎ Records s v now db m ⊎ Unstorable s v now db m ⊎ Repeats s v now db m
unfolding record_at
record_at_total s now v db none valid e = inl (refuse v.task_id not_found, refl, refl)
record_at_total s now v db (some j) valid e = elim (Option-cases (record_guard s now v j)) [
  | inr (r, p) ↦ inl (refuse_row v.task_id j.row r, rw (p, record_at), refl)
  | inl p ↦
      let (c, k) = record_guard-Claimed s now v j db e p in
      rw (p, record_at) (record_passed_total s now v j db valid e c k)
]

record_known_total :
    (s : Service) (now : ℕ) (v : ValidResult) (db : Db) (o : Option ResultRow)
    → Valid db
    → find_result v.result_id db.results ≡ o
    → let m = record_known s now v o db in
      Refuses m db
      ⊎ Records s v now db m
      ⊎ Unstorable s v now db m
      ⊎ Repeats s v now db m
      ⊎ Replays v db m
unfolding record_known
record_known_total s now v db none valid e =
    elim (record_at_total s now v db (workflow_with_task db v.task_id) valid refl) [
      | inl r ↦ inl r
      | inr (inl r) ↦ inr (inl r)
      | inr (inr (inl r)) ↦ inr (inr (inl r))
      | inr (inr (inr r)) ↦ inr (inr (inr (inl r)))
    ]
record_known_total s now v db (some r) valid e =
    elim (Bool-cases (r.task_id == v.task_id && str_eq r.content_digest v.content_digest)) [
      | inr p ↦ inl (refuse v.task_id result_conflict, rw p, refl)
      | inl p ↦ elim (Option-cases (find_workflow v.task_id db.workflows)) [
        | inl q ↦ inl (refuse v.task_id invalid_state, rw p (rw q), refl)
        | inr (w, q) ↦ inr (
            inr (
              inr (
                inr (
                  r,
                  replayed w,
                  e,
                  ground arith,
                  ground (arith, eq_iff r.content_digest v.content_digest),
                  rw p (rw q),
                  refl,
                ))))
      ]
    ]

-- On checked rows `record_result` does one of five things. It refuses and changes nothing; or it keeps a
-- new answer under a live claim, at the task version that the claim is for and in the row's phase,
-- where its row and its artifacts pass the tables' CHECKs and keys, and moves the workflow to review, or into
-- the queue for the phase that a standing grant covers, with no claim or failure left; or it raises an
-- integrity error for such an answer, where its row or its artifacts do not pass them; or it notes by one event
-- that the answer repeats an earlier one of the same cycle; or it answers `unchanged` for a result that
-- the table already holds, and changes nothing.
pub record_result_total :
    (s : Service) (now : ℕ) (v : ValidResult) (db : Db)
    → Valid db
    → let m = record_result s now v db in
      Refuses m db
      ⊎ Records s v now db m
      ⊎ Unstorable s v now db m
      ⊎ Repeats s v now db m
      ⊎ Replays v db m
unfolding record_result
record_result_total s now v db valid =
    record_known_total s now v db (find_result v.result_id db.results) valid refl
