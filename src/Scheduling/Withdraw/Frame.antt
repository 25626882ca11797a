-- ===== src/Scheduling/Withdraw/Frame.antt =====
-- The tables that the withdrawal of a created task in task_scheduling.py leaves alone.
use foxhound.Prelude.{
  ℕ, ◌+◌, ◌≡◌, refl, ap, subst, ◌∙◌, Bool, ◌&&◌, Option, none, some, List, [], ◌∷◌, ◌++◌, ok,
  bind_ok, ◌==◌, Bool-cases, inl, inr,
}
use foxhound.Schema.{Workflow}
use foxhound.Store.{find_task, find_workflow, write}
use foxhound.Tables.{Db, Task}
use foxhound.Store.Frame.{write-Alike}
use foxhound.Operation.{is_open}
use foxhound.Scheduling.Rows.{ReviewCard, SchedulingDb}
use foxhound.Scheduling.Withdraw.{
  is_pending, note_cancelled, cancel_prerequisite_cards, cancelled_workflow, cancelled_event,
  withdraw_workflow, drop_task, dropped_event, withdraw,
}

-- The cards, the change sets and the conditions are the same.
pub record Beside (s t : SchedulingDb) : Type 0 where
  pub cards : t.cards ≡ s.cards
  pub change_sets : t.change_sets ≡ s.change_sets
  pub conditions : t.db.conditions ≡ s.db.conditions

Beside-refl : (s : SchedulingDb) → Beside s s
Beside-refl s = record { cards = refl; change_sets = refl; conditions = refl }

Beside-trans : (s t u : SchedulingDb) → Beside s t → Beside t u → Beside s u
Beside-trans s t u f g = record {
  cards = g.cards ∙ f.cards;
  change_sets = g.change_sets ∙ f.change_sets;
  conditions = g.conditions ∙ f.conditions;
}

note_cancelled-Beside :
    (id version now : ℕ) (cs : List ReviewCard) (s : SchedulingDb)
    → Beside s (note_cancelled id version now cs s)
unfolding note_cancelled
note_cancelled-Beside id version now [] s = Beside-refl s
note_cancelled-Beside id version now (c ∷ cs) s =
    elim (Bool-cases (c.task_id == id && is_pending c.status)) [
      | inl e ↦ rw e (
          Beside-trans s _ _ (record { cards = refl; change_sets = refl; conditions = refl })
            (note_cancelled-Beside id version now cs _))
      | inr e ↦ rw e (note_cancelled-Beside id version now cs s)
    ]

cancel_prerequisite_cards-Beside :
    (id version now : ℕ) (s : SchedulingDb) → Beside s (cancel_prerequisite_cards id version now s)
unfolding cancel_prerequisite_cards
cancel_prerequisite_cards-Beside id version now s =
    Beside-trans s _ _ (record { cards = refl; change_sets = refl; conditions = refl })
      (note_cancelled-Beside id version now s.review_cards _)

withdraw_workflow-Beside :
    (id now : ℕ) (o : Option Workflow) (s t : SchedulingDb)
    → withdraw_workflow id now o s ≡ ok t
    → Beside s t
unfolding withdraw_workflow
withdraw_workflow-Beside id now none s t h =
    (let e : s ≡ t = cc in subst (Beside s) e (Beside-refl s))
withdraw_workflow-Beside id now (some w) s t h =
    let s1 = cancel_prerequisite_cards id w.version now s in
    let version = w.version + 1 in
    let given : Bool × Db → SchedulingDb = λ x. record s1 {
      db = record x.1 { events = x.1.events ++ cancelled_event id version now w ∷ [] };
    } in
    let (x, k, e) =
      bind_ok (write id (λ v. v.version == w.version) (cancelled_workflow version now) s1.db)
        (λ x. ok (given x)) {out = t} h in
    let alike =
      write-Alike id (λ v. v.version == w.version) (cancelled_workflow version now) s1.db x e in
    let same : given x ≡ t = cc in
    subst (Beside s) same (
      Beside-trans s s1 (given x) (cancel_prerequisite_cards-Beside id w.version now s) (record {
        cards = refl;
        change_sets = refl;
        conditions = ap (λ (d : Db). d.conditions) alike;
      }))

drop_task-conditions :
    (id now : ℕ) (o : Option Task) (db : Db) → (drop_task id now o db).conditions ≡ db.conditions
unfolding drop_task
drop_task-conditions id now none db = refl
drop_task-conditions id now (some t) db = elim (Bool-cases (is_open t.status && t.version == 1)) [
  | inl e ↦ rw e refl
  | inr e ↦ rw e refl
]

pub withdraw-Beside :
    (created : Option ℕ) (now : ℕ) (s t : SchedulingDb) → withdraw created now s ≡ ok t → Beside s t
unfolding withdraw dropped_event
withdraw-Beside none now s t h = (let e : s ≡ t = cc in subst (Beside s) e (Beside-refl s))
withdraw-Beside (some id) now s t h =
    let given : SchedulingDb → SchedulingDb = λ s1. record s1 {
      db = dropped_event id now (drop_task id now (find_task id s1.db.tasks) s1.db);
    } in
    let (s1, k, e) =
      bind_ok (withdraw_workflow id now (find_workflow id s.db.workflows) s) (λ x. ok (given x))
        {out = t} h in
    let same : given s1 ≡ t = cc in
    subst (Beside s) same (
      Beside-trans s s1 (given s1)
        (withdraw_workflow-Beside id now (find_workflow id s.db.workflows) s s1 e)
        (record {
          cards = refl;
          change_sets = refl;
          conditions = drop_task-conditions id now (find_task id s1.db.tasks) s1.db;
        }))
