-- ===== src/Scheduling/Act.antt =====
-- `act` of `TaskSchedulingService` in task_scheduling.py: the reader keeps a change or undoes it.
pub mod Clear
pub mod RoundTrip
pub mod Cases
pub mod Once
use foxhound.Prelude.{
  ℕ, ◌+◌, ◌&&◌, Bool, true, false, Option, none, some, List, leb, ◌==◌, if◌then◌else◌, Attempt, ok,
  ◌>>=◌,
}
use foxhound.Operation.{applied}
use foxhound.Scheduling.{
  invalid_recommendation, not_found, invalid_state, stale_card, SchedulingRefusal, CardActionResult,
  refuse_card, card_result, find_change_set, replace_change_set, find_card, replace_card,
  card_event, change_event,
}
use foxhound.Scheduling.Rows.{
  ChangeSet, ChangeState, ChangeEventKind, Card, CardStatus, CardEventKind, SchedulingDb,
}
use foxhound.Scheduling.Callback.{CardAction, keep, undo}
use foxhound.Scheduling.Undo.{is_active, undo_conflicts, cancel_change_conditions, undo_priority}
use foxhound.Scheduling.Withdraw.{withdraw}

abbrev pub is_delivered : CardStatus → Bool
is_delivered CardStatus.delivered = true
is_delivered _ = false

abbrev pub resolved_card : ℕ → CardAction → ℕ → Card → Card
resolved_card version action now c = record c {
  status = CardStatus.resolved;
  version = version;
  resolution = some action;
  updated_at = now;
  resolved_at = some now;
}

-- `_resolve_card`, of a card that was read as delivered in the same transaction.
unfoldable pub resolve_card : Card → ℕ → CardAction → ℕ → SchedulingDb → SchedulingDb
resolve_card c version action now s =
    card_event c CardEventKind.resolved version (some action) now
      (record s { cards = replace_card c.id (resolved_card version action now c) s.cards })

-- `UPDATE task_scheduling_change_sets SET state=?,updated_at=? WHERE id=? AND state='active'`.
unfoldable pub settle_change : ChangeSet → ChangeState → ℕ → SchedulingDb → SchedulingDb
settle_change k state now s =
    if is_active k.state
    then record s {
      change_sets =
          replace_change_set k.id (record k { state = state; updated_at = now }) s.change_sets;
    }
    else s

-- The change stays, and the card too: its task or workflow has moved on.
unfoldable pub conflict : Card → ChangeSet → ℕ → SchedulingDb → CardActionResult × SchedulingDb
unfolding settle_change
conflict c k now s = (
  refuse_card c.id SchedulingRefusal.undo_conflict,
  card_event c CardEventKind.undo_conflict c.version (some undo) now (
      change_event k.id c.task_id ChangeEventKind.undo_conflict now
        (settle_change k ChangeState.undo_conflict now s)),
)

unfoldable pub undo_change :
    Card → ChangeSet → ℕ → SchedulingDb → Attempt (CardActionResult × SchedulingDb)
unfolding cancel_change_conditions undo_priority withdraw settle_change resolve_card
undo_change c k now s = do
  db1 ← undo_priority c.task_id k now (cancel_change_conditions k.id now s.db)
  s1 ← withdraw k.created_task_id now (record s { db = db1 })
  let s2 =
      change_event k.id c.task_id ChangeEventKind.undone now
        (settle_change k ChangeState.undone now s1)
  ok (card_result applied c.id (c.version + 1), resolve_card c (c.version + 1) undo now s2)

act_on :
    Card → ChangeSet → CardAction → ℕ → SchedulingDb → Attempt (CardActionResult × SchedulingDb)
unfolding resolve_card undo_conflicts conflict undo_change
act_on c k keep now s =
    ok (card_result applied c.id (c.version + 1), resolve_card c (c.version + 1) keep now s)
act_on c k undo now s =
    if undo_conflicts s.db c.task_id k then ok (conflict c k now s) else undo_change c k now s

-- The guards on a card that was found with its change set.
act_guarded :
    Card → ChangeSet → ℕ → CardAction → ℕ → SchedulingDb → Attempt (CardActionResult × SchedulingDb)
unfolding act_on
act_guarded c k expected action now s =
    if is_delivered c.status
    then if c.version == expected
      then act_on c k action now s
      else ok (refuse_card c.id stale_card, s)
    else ok (refuse_card c.id invalid_state, s)

act_joined :
    ℕ
    → Option Card
    → List ChangeSet
    → ℕ
    → CardAction
    → ℕ
    → SchedulingDb
    → Attempt (CardActionResult × SchedulingDb)
unfolding act_guarded
act_joined id none ks expected action now s = ok (refuse_card id not_found, s)
act_joined id (some c) ks expected action now s = elim (find_change_set c.change_set_id ks) [
  | none ↦ ok (refuse_card id not_found, s)
  | some k ↦ act_guarded c k expected action now s
]

-- `act`, for an action that is `undo` or `keep`, or another text.
unfoldable pub act :
    ℕ → ℕ → ℕ → Option CardAction → SchedulingDb → Attempt (CardActionResult × SchedulingDb)
unfolding act_joined
act now id expected none s = ok (refuse_card id invalid_recommendation, s)
act now id expected (some action) s =
    if leb 1 id && leb 1 expected
    then act_joined id (find_card id s.cards) s.change_sets expected action now s
    else ok (refuse_card id invalid_recommendation, s)
