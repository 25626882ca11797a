-- ===== src/Scheduling/Undo/Fewer.antt =====
-- The conditions that an undo of task_scheduling.py cancels: no limit is passed by them.
use foxhound.Prelude.{
  ℕ, ◌≤◌, ◌≡◌, refl, sym, subst, ◌∙◌, Bool, true, ◌&&◌, List, [], ◌∷◌, arith, ◌==◌, inl, inr,
  Bool-cases, if◌then◌else◌,
}
use mathlib.Core.List.{Memᴰ}
use mathlib.Core.List.Memᴰ
use foxhound.Tables.{Condition, ConditionKind}
use foxhound.Condition.{is_watched}
use foxhound.Scheduling.Graph.{children, add_conditions, edge_count, edge_test, is_edge_of}
use foxhound.Scheduling.Graph.Walks.{Walk-mono}
use foxhound.Scheduling.Graph.Edges.{IsEdge, Waits, add_conditions-children, no_children}
use foxhound.Scheduling.Target.{active_count}
use foxhound.Scheduling.Apply.Limits.{Limits}
use foxhound.Scheduling.Undo.{cancels, cancel_row, cancel_conditions}

-- A row that an undo leaves watched was watched, and waits for the same.
record Fewer (d c : Condition) : Type 0 where
  same_task : d.task_id ≡ c.task_id
  same_kind : d.kind ≡ c.kind
  watched : is_watched d.state ≡ true → is_watched c.state ≡ true

cancel_row-Fewer : (id now : ℕ) (c : Condition) → Fewer (cancel_row id now c) c
cancel_row-Fewer id now c = elim (Bool-cases (cancels id c)) [
  | inl e ↦ rw e (record { same_task = refl; same_kind = refl; watched = λ w. cc })
  | inr e ↦ rw e (record { same_task = refl; same_kind = refl; watched = λ w. w })
]

Fewer-IsEdge : (d c : Condition) (a b : ℕ) → Fewer d c → IsEdge d a b → IsEdge c a b
Fewer-IsEdge d c a b f (w, t, k) = (f.watched w, sym f.same_task ∙ t, sym f.same_kind ∙ k)

cancel_conditions-Waits :
    (id now : ℕ) (cs : List Condition) (a b : ℕ)
    → Waits (cancel_conditions id now cs) a b
    → Waits cs a b
unfolding cancel_conditions
cancel_conditions-Waits id now [] a b (c, m, e) = absurd (Memᴰ.not-nil m)
cancel_conditions-Waits id now (x ∷ xs) a b (c, m, e) = elim (Memᴰ.cases_cons m) [
  | inl same ↦ (
    x,
    Memᴰ.head refl,
    Fewer-IsEdge (cancel_row id now x) x a b (cancel_row-Fewer id now x)
        (subst (λ y. IsEdge y a b) same e),
  )
  | inr k ↦ let (y, j, p) = cancel_conditions-Waits id now xs a b (c, k, e) in (y, Memᴰ.tail j, p)
]

one_active-le :
    (id : ℕ) (d c : Condition)
    → Fewer d c
    → (if d.task_id == id && is_watched d.state then 1 else 0)
      ≤ (if c.task_id == id && is_watched c.state then 1 else 0)
one_active-le id d c f = elim (Bool-cases (is_watched d.state)) [
  | inl e ↦ (let w = f.watched e in rw (f.same_task, e, w) (omega arith))
  | inr e ↦ ground (arith, e)
]

edge_test-le :
    (id task : ℕ) (v w : Bool) (kind : ConditionKind)
    → (v ≡ true → w ≡ true)
    → (if edge_test id task v kind then 1 else 0) ≤ (if edge_test id task w kind then 1 else 0)
unfolding edge_test
edge_test-le id task v w (ConditionKind.not_before start) h = omega arith
edge_test-le id task v w (ConditionKind.after_task_completed d) h = elim (Bool-cases v) [
  | inl e ↦ (let k = h e in rw (e, k) (omega arith))
  | inr e ↦ ground (arith, e)
]

one_edge-le :
    (id : ℕ) (d c : Condition)
    → Fewer d c
    → (if is_edge_of id d then 1 else 0) ≤ (if is_edge_of id c then 1 else 0)
one_edge-le id d c f =
    rw (f.same_task, f.same_kind)
      (edge_test-le id c.task_id (is_watched d.state) (is_watched c.state) c.kind f.watched)

cancel_conditions-active :
    (id now task : ℕ) (cs : List Condition)
    → active_count task (cancel_conditions id now cs) ≤ active_count task cs
unfolding cancel_conditions active_count
cancel_conditions-active id now task [] = omega arith
cancel_conditions-active id now task (c ∷ cs) =
    let one = one_active-le task (cancel_row id now c) c (cancel_row-Fewer id now c) in
    let rest = cancel_conditions-active id now task cs in omega (arith, one, rest)

cancel_conditions-edges :
    (id now task : ℕ) (cs : List Condition)
    → edge_count task (cancel_conditions id now cs) ≤ edge_count task cs
unfolding cancel_conditions edge_count edge_test
cancel_conditions-edges id now task [] = omega arith
cancel_conditions-edges id now task (c ∷ cs) =
    let one = one_edge-le task (cancel_row id now c) c (cancel_row-Fewer id now c) in
    let rest = cancel_conditions-edges id now task cs in omega (arith, one, rest)

pub cancel_conditions-Limits :
    (id now : ℕ) (cs : List Condition) → Limits cs → Limits (cancel_conditions id now cs)
cancel_conditions-Limits id now cs held = record {
  shallow = λ a b m w. held.shallow a b m (Walk-mono edge w);
  few = λ task.
      let less = cancel_conditions-active id now task cs in
      let before = held.few task in omega (arith, less, before);
  edges = λ task.
      let less = cancel_conditions-edges id now task cs in
      let before = held.edges task in omega (arith, less, before);
}
  where
    edge :
        (a b : ℕ)
        → Memᴰ b (children (add_conditions (cancel_conditions id now cs) []) a)
        → Memᴰ b (children (add_conditions cs []) a)
    edge a b m = elim ((add_conditions-children (cancel_conditions id now cs) [] a b).0 m) [
      | inl k ↦ absurd (no_children a b k)
      | inr w ↦
          (add_conditions-children cs [] a b).1 (inr (cancel_conditions-Waits id now cs a b w))
    ]
