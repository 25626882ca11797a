-- ===== src/Scheduling/Act/Clear.antt =====
-- The undo of a raised priority by `act` of task_scheduling.py, where nothing stands against it.
use foxhound.Prelude.{
  ℕ, ◌+◌, ◌≤◌, ◌≡◌, refl, ap, ◌∙◌, true, false, none, some, ok, arith, leb, ◌==◌, Bool-cases, inl,
  inr,
}
use foxhound.Schema.{Workflow, normal}
use foxhound.Store.{find_workflow}
use foxhound.Tables.{Db, Task}
use foxhound.Store.Rows.{Checked}
use foxhound.Operation.{applied}
use foxhound.Scheduling.{card_result, find_change_set, find_card, change_event}
use foxhound.Scheduling.Rows.{
  SchedulingKind, raise_priority, ChangeSet, ChangeState, ChangeEventKind, Card, SchedulingDb,
}
use foxhound.Scheduling.Callback.{CardAction, undo}
use foxhound.Scheduling.Undo.{
  is_active, raises, undo_conflicts, cancel_change_conditions, restored_row, undo_priority,
}
use foxhound.Scheduling.Undo.Restored.{
  Unmoved, Unmoved-clear, cancel_change_conditions-workflows, undo_priority-row,
}
use foxhound.Scheduling.Withdraw.{withdraw}
use foxhound.Scheduling.Act.{
  is_delivered, settle_change, resolve_card, undo_change, act_on, act_guarded, act_joined, act,
}

-- A card that can be acted on, with its change set.
pub record Actable (s : SchedulingDb) (c : Card) (k : ChangeSet) : Type 0 where
  pub identity : 1 ≤ c.id
  pub at : 1 ≤ c.version
  pub card : find_card c.id s.cards ≡ some c
  pub change : find_change_set c.change_set_id s.change_sets ≡ some k
  pub delivered : is_delivered c.status ≡ true

act-Actable :
    (now : ℕ) (s : SchedulingDb) (c : Card) (k : ChangeSet) (action : CardAction)
    → Actable s c k
    → act now c.id c.version (some action) s ≡ act_on c k action now s
unfolding act act_joined act_guarded
act-Actable now s c k action a =
    let one : leb 1 c.id ≡ true = ground (arith, a.identity) in
    let two : leb 1 c.version ≡ true = ground (arith, a.at) in
    let same : (c.version == c.version) ≡ true = ground arith in
    rw (one, two, a.card) (rw (a.change, act_joined) (rw (a.delivered, same, act_guarded) refl))

-- The undo that nothing stands against.
act_on-clear :
    (now : ℕ) (s : SchedulingDb) (c : Card) (k : ChangeSet)
    → undo_conflicts s.db c.task_id k ≡ false
    → act_on c k undo now s ≡ undo_change c k now s
unfolding act_on
act_on-clear now s c k e = rw e refl

pub settle_change-db :
    (k : ChangeSet) (state : ChangeState) (now : ℕ) (s : SchedulingDb)
    → (settle_change k state now s).db ≡ s.db
unfolding settle_change
settle_change-db k state now s = elim (Bool-cases (is_active k.state)) [
  | inl e ↦ rw (e, settle_change) refl
  | inr e ↦ rw (e, settle_change) refl
]

undo_change-db :
    (now : ℕ) (s : SchedulingDb) (c : Card) (k : ChangeSet) (d : Db)
    → k.created_task_id ≡ none
    → undo_priority c.task_id k now (cancel_change_conditions k.id now s.db) ≡ ok d
    → (t : SchedulingDb) × (undo_change c k now s
        ≡ ok (card_result applied c.id (c.version + 1), t))
      × (t.db ≡ d)
unfolding undo_change withdraw resolve_card
undo_change-db now s c k d created e = (
  resolve_card c (c.version + 1) undo now (
      change_event k.id c.task_id ChangeEventKind.undone now
        (settle_change k ChangeState.undone now (record s { db = d }))),
  rw (e, created) refl,
  settle_change-db k ChangeState.undone now (record s { db = d }),
)

-- The row that a raise left, with the undo of its priority.
abbrev pub reversed_row : ChangeSet → ℕ → Workflow → Workflow
reversed_row k now w =
    restored_row normal k.prior_priority_source (k.resulting_workflow_version + 1) now w

-- An undo that nothing stands against restores the row of the card's task.
pub undo-restores :
    (now : ℕ) (s : SchedulingDb) (c : Card) (k : ChangeSet) (t : Task) (w : Workflow)
    → Actable s c k
    → Unmoved s.db c.task_id k t w
    → k.kind ≡ raise_priority
    → k.prior_priority ≡ some normal
    → Checked w
    → (after : SchedulingDb) × (act now c.id c.version (some undo) s
        ≡ ok (card_result applied c.id (c.version + 1), after))
      × (find_workflow c.task_id after.db.workflows ≡ some (reversed_row k now w))
undo-restores now s c k t w a u kind prior checked =
    let db = cancel_change_conditions k.id now s.db in
    let found =
      ap (find_workflow c.task_id) (cancel_change_conditions-workflows k.id now s.db) ∙ u.row in
    let (d, e, row) =
      undo_priority-row c.task_id k now db normal w (raised_kind k.kind kind) prior found
        (ground (arith, u.version)) checked in
    let (after, done, same) = undo_change-db now s c k d u.created e in
    (
      after,
      act-Actable now s c k undo a
          ∙ act_on-clear now s c k (Unmoved-clear s.db c.task_id k t w u)
          ∙ done,
      ap (λ (x : Db). find_workflow c.task_id x.workflows) same ∙ row,
    )
  where
    raised_kind : (x : SchedulingKind) → x ≡ raise_priority → raises x ≡ true
    raised_kind x e = ap raises e
