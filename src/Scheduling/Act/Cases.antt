-- ===== src/Scheduling/Act/Cases.antt =====
-- What a call of `act` of task_scheduling.py that returns went through, and the limits that it keeps.
use foxhound.Prelude.{
  ℕ, ◌+◌, ◌≡◌, refl, sym, ap, subst, ◌∙◌, true, ◌&&◌, Option, none, some, ok, ◌>>=◌, bind_ok, arith,
  leb, ◌==◌, Bool-cases, Option-cases, inl, inr, ◌⊎◌,
}
use foxhound.Tables.{Db}
use foxhound.Operation.{refused, applied}
use foxhound.Scheduling.{
  invalid_recommendation, not_found, invalid_state, stale_card, SchedulingRefusal, CardActionResult,
  refuse_card, card_result, find_change_set, find_card, replace_card, change_event,
}
use foxhound.Scheduling.Rows.{ChangeSet, ChangeState, ChangeEventKind, Card, SchedulingDb}
use foxhound.Scheduling.Callback.{CardAction, keep, undo}
use foxhound.Scheduling.Undo.{
  undo_conflicts, cancel_conditions, cancel_change_conditions, undo_priority,
}
use foxhound.Scheduling.Undo.Restored.{undo_priority-Alike, cancel_change_conditions-conditions}
use foxhound.Scheduling.Undo.Fewer.{cancel_conditions-Limits}
use foxhound.Scheduling.Apply.Limits.{Limits}
use foxhound.Scheduling.Withdraw.{withdraw}
use foxhound.Scheduling.Withdraw.Frame.{withdraw-Beside}
use foxhound.Scheduling.Act.{
  is_delivered, resolved_card, resolve_card, settle_change, conflict, undo_change, act_on,
  act_guarded, act_joined, act,
}
use foxhound.Scheduling.Act.Clear.{settle_change-db}

abbrev pub Outcome : Type 0
Outcome = CardActionResult × SchedulingDb

-- The call was refused and changed nothing.
abbrev pub Refused : SchedulingDb → Outcome → Type 0
Refused s out = (out.1 ≡ s) × (out.0.disposition ≡ refused)

-- The card was resolved, in a database with the other cards as they were, whose conditions are the ones
-- before or those that the undo of one change set leaves.
pub record Resolves (now id expected : ℕ) (s : SchedulingDb) (out : Outcome) : Type 0 where
  pub card : Card
  pub found : find_card id s.cards ≡ some card
  pub delivered : is_delivered card.status ≡ true
  pub version : card.version ≡ expected
  pub action : CardAction
  pub cards :
      out.1.cards ≡ replace_card card.id (resolved_card (card.version + 1) action now card) s.cards
  pub conditions :
      (out.1.db.conditions ≡ s.db.conditions)
      ⊎ ((set : ℕ) × (out.1.db.conditions ≡ cancel_conditions set now s.db.conditions))

-- The undo was refused for a conflict, which the change set and the events keep.
pub record Conflicts (s : SchedulingDb) (out : Outcome) : Type 0 where
  pub result : out.0.disposition ≡ refused
  pub cards : out.1.cards ≡ s.cards
  pub db : out.1.db ≡ s.db

Refused-out :
    (id : ℕ) (x : SchedulingRefusal) (s : SchedulingDb) (out : Outcome)
    → ok (refuse_card id x, s) ≡ ok out
    → Refused s out
Refused-out id x s out h = subst (Refused s) (out_of h) (refl, refl)
  where
    out_of : ok (refuse_card id x, s) ≡ ok out → (refuse_card id x, s) ≡ out
    out_of z = cc

settle_change-cards :
    (k : ChangeSet) (state : ChangeState) (now : ℕ) (s : SchedulingDb)
    → (settle_change k state now s).cards ≡ s.cards
unfolding settle_change
settle_change-cards k state now s = ground arith

module _ (now id expected : ℕ) (s : SchedulingDb) (c : Card) (k : ChangeSet)
    (found : find_card id s.cards ≡ some c) (delivered : is_delivered c.status ≡ true)
    (version : c.version ≡ expected) (out : Outcome) where
  keep-Resolves : act_on c k keep now s ≡ ok out → Resolves now id expected s out
  unfolding act_on resolve_card
  keep-Resolves h =
      let same : (
        card_result applied c.id (c.version + 1),
        resolve_card c (c.version + 1) keep now s,
      )
          ≡ out =
        cc in
      subst (Resolves now id expected s) same (record {
        card = c;
        found = found;
        delivered = delivered;
        version = version;
        action = keep;
        cards = refl;
        conditions = inl refl;
      })

  conflict-Conflicts : ok (conflict c k now s) ≡ ok out → Conflicts s out
  unfolding conflict
  conflict-Conflicts h =
      let same : conflict c k now s ≡ out = cc in
      subst (Conflicts s) same (record {
        result = refl;
        cards = settle_change-cards k ChangeState.undo_conflict now s;
        db = settle_change-db k ChangeState.undo_conflict now s;
      })

  undo-Resolves : undo_change c k now s ≡ ok out → Resolves now id expected s out
  unfolding undo_change resolve_card
  undo-Resolves h =
      let given : SchedulingDb → SchedulingDb = λ s1.
        change_event k.id c.task_id ChangeEventKind.undone now
          (settle_change k ChangeState.undone now s1) in
      let finish : SchedulingDb → Outcome = λ s1. (
        card_result applied c.id (c.version + 1),
        resolve_card c (c.version + 1) undo now (given s1),
      ) in
      let before = cancel_change_conditions k.id now s.db in
      let (d, h1, e1) =
        bind_ok (undo_priority c.task_id k now before)
          (λ d. withdraw k.created_task_id now (record s { db = d }) >>= (λ s1. ok (finish s1)))
          {out = out} h in
      let (s1, h2, e2) =
        bind_ok (withdraw k.created_task_id now (record s { db = d })) (λ s1. ok (finish s1))
          {out = out} h1 in
      let beside = withdraw-Beside k.created_task_id now (record s { db = d }) s1 e2 in
      let alike = undo_priority-Alike c.task_id k now before d e1 in
      let same : finish s1 ≡ out = cc in
      subst (Resolves now id expected s) same (record {
        card = c;
        found = found;
        delivered = delivered;
        version = version;
        action = undo;
        cards =
            ap (replace_card c.id (resolved_card (c.version + 1) undo now c))
              (settle_change-cards k ChangeState.undone now s1 ∙ beside.cards);
        conditions = inr (
          k.id,
          ap (λ (x : Db). x.conditions) (settle_change-db k ChangeState.undone now s1)
              ∙ beside.conditions
              ∙ ap (λ (x : Db). x.conditions) alike
              ∙ cancel_change_conditions-conditions k.id now s.db,
        );
      })

  act_on-cases :
      (action : CardAction)
      → act_on c k action now s ≡ ok out
      → Conflicts s out ⊎ Resolves now id expected s out
  unfolding act_on
  act_on-cases keep h = inr (keep-Resolves h)
  act_on-cases undo h = elim (Bool-cases (undo_conflicts s.db c.task_id k)) [
    | inl e ↦ inl (conflict-Conflicts (rw (e, act_on) at h))
    | inr e ↦ inr (undo-Resolves (rw (e, act_on) at h))
  ]

act_guarded-cases :
    (now id expected : ℕ) (action : CardAction) (s : SchedulingDb) (c : Card) (k : ChangeSet)
    (out : Outcome)
    → find_card id s.cards ≡ some c
    → act_guarded c k expected action now s ≡ ok out
    → Refused s out ⊎ (Conflicts s out ⊎ Resolves now id expected s out)
unfolding act_guarded
act_guarded-cases now id expected action s c k out f h = elim (Bool-cases (is_delivered c.status)) [
  | inr e ↦ inl (Refused-out c.id invalid_state s out (rw e at h))
  | inl e ↦ elim (Bool-cases (c.version == expected)) [
    | inr v ↦ inl (Refused-out c.id stale_card s out (rw (e, v) at h))
    | inl v ↦
        inr (act_on-cases now id expected s c k f e (ground (arith, v)) out action (rw (e, v) at h))
  ]
]

act_joined-cases :
    (now id expected : ℕ) (action : CardAction) (s : SchedulingDb) (o : Option Card) (out : Outcome)
    → find_card id s.cards ≡ o
    → act_joined id o s.change_sets expected action now s ≡ ok out
    → Refused s out ⊎ (Conflicts s out ⊎ Resolves now id expected s out)
unfolding act_joined
act_joined-cases now id expected action s none out f h = inl (Refused-out id not_found s out h)
act_joined-cases now id expected action s (some c) out f h =
    elim (Option-cases (find_change_set c.change_set_id s.change_sets)) [
      | inl e ↦ inl (Refused-out id not_found s out (rw (e, act_joined) at h))
      | inr (k, e) ↦ act_guarded-cases now id expected action s c k out f (rw (e, act_joined) at h)
    ]

-- A call that returns was refused and changed nothing, or met a conflict, or resolved its card.
pub act-cases :
    (now id expected : ℕ) (action : Option CardAction) (s : SchedulingDb) (out : Outcome)
    → act now id expected action s ≡ ok out
    → Refused s out ⊎ (Conflicts s out ⊎ Resolves now id expected s out)
unfolding act
act-cases now id expected none s out h = inl (Refused-out id invalid_recommendation s out h)
act-cases now id expected (some action) s out h = elim (Bool-cases (leb 1 id && leb 1 expected)) [
  | inr e ↦ inl (Refused-out id invalid_recommendation s out (rw e at h))
  | inl e ↦ act_joined-cases now id expected action s (find_card id s.cards) out refl (rw e at h)
]

-- What a reader does with a card keeps the limits on scheduling conditions.
pub act-Limits :
    (now id expected : ℕ) (action : Option CardAction) (s : SchedulingDb) (out : Outcome)
    → Limits s.db.conditions
    → act now id expected action s ≡ ok out
    → Limits out.1.db.conditions
act-Limits now id expected action s out held h = elim (act-cases now id expected action s out h) [
  | inl r ↦ subst (λ (t : SchedulingDb). Limits t.db.conditions) (sym r.0) held
  | inr (inl c) ↦ subst (λ (d : Db). Limits d.conditions) (sym c.db) held
  | inr (inr r) ↦ elim r.conditions [
    | inl e ↦ subst Limits (sym e) held
    | inr (set, e) ↦ subst Limits (sym e) (cancel_conditions-Limits set now s.db.conditions held)
  ]
]
