-- ===== src/Scheduling/Apply/Limits.antt =====
-- The limits on scheduling conditions that `apply` of task_scheduling.py keeps.
use foxhound.Prelude.{
  ℕ, ◌+◌, ◌≤◌, ◌<◌, ◌≡◌, refl, sym, subst, ◌∙◌, String, true, ◌&&◌, Option, none, some, List, [],
  ◌∷◌, ◌++◌, ◌==◌, ok, Bool-cases, inl, inr, arith, if◌then◌else◌,
}
use foxhound.Schema.{Workflow}
use foxhound.Tables.{Db, Condition, ConditionKind}
use foxhound.Condition.{is_watched}
use foxhound.Scheduling.{ApplyResult, next_id}
use foxhound.Scheduling.Rows.{
  SchedulingKind, after_task_completed, not_before, raise_priority, create_prerequisite,
  Recommendation, SchedulingDb,
}
use foxhound.Scheduling.Graph.{
  Graph, add_edge, add_kind, add_condition, add_conditions, dependency_graph, edge_test, edge_count,
  max_prerequisite_edges, max_dependency_depth,
}
use foxhound.Scheduling.Graph.Walks.{Shallow}
use foxhound.Scheduling.Graph.Refusals.{Allowed, dependency_refusal-Allowed}
use foxhound.Scheduling.Target.{limit_refusal, active_count, adds_condition, max_active_conditions}
use foxhound.Scheduling.Prepare.{Prepared}
use foxhound.Scheduling.Change.{
  condition_kind, condition_ids, new_condition, add_condition_row, change_ids, recorded,
}
use foxhound.Scheduling.Change.Edges.{Ready, prepare-Ready}
use foxhound.Scheduling.{SchedulingService}
use foxhound.Scheduling.Apply.{apply}
use foxhound.Scheduling.Apply.Cases.{apply-cases}

-- No chain of waiting tasks is longer than the depth limit, and no task has more active conditions, or
-- more tasks that it waits for, than the limits.
pub record Limits (cs : List Condition) : Type 0 where
  pub shallow : Shallow (add_conditions cs []) max_dependency_depth
  pub few : (id : ℕ) → active_count id cs ≤ max_active_conditions
  pub edges : (id : ℕ) → edge_count id cs ≤ max_prerequisite_edges

add_conditions-append :
    (cs : List Condition) (c : Condition) (g : Graph)
    → add_conditions (cs ++ c ∷ []) g ≡ add_condition c (add_conditions cs g)
unfolding add_conditions
add_conditions-append [] c g = refl
add_conditions-append (x ∷ xs) c g = add_conditions-append xs c (add_condition x g)

one_active : ℕ → Condition → ℕ
one_active id c = if c.task_id == id && is_watched c.state then 1 else 0

active_count-append :
    (id : ℕ) (cs : List Condition) (c : Condition)
    → active_count id (cs ++ c ∷ []) ≡ active_count id cs + one_active id c
unfolding active_count one_active
active_count-append id [] c = omega arith
active_count-append id (x ∷ xs) c = omega (arith, active_count-append id xs c)

one_edge : ℕ → Condition → ℕ
one_edge id c = edge_count id (c ∷ [])

edge_count-append :
    (id : ℕ) (cs : List Condition) (c : Condition)
    → edge_count id (cs ++ c ∷ []) ≡ edge_count id cs + one_edge id c
unfolding edge_count one_edge
edge_count-append id [] c = omega arith
edge_count-append id (x ∷ xs) c = omega (arith, edge_count-append id xs c)

condition_kind-adds :
    (kind : SchedulingKind) (related start : Option ℕ) (k : ConditionKind)
    → condition_kind kind related start ≡ some k
    → adds_condition kind ≡ true
unfolding condition_kind
condition_kind-adds after_task_completed related start k h = refl
condition_kind-adds not_before related start k h = refl
condition_kind-adds create_prerequisite related start k h = refl
condition_kind-adds raise_priority related start k h = cc

limit_refusal-room :
    (db : Db) (r : Recommendation)
    → limit_refusal db r ≡ none
    → adds_condition r.kind ≡ true
    → active_count r.target_task_id db.conditions < max_active_conditions
unfolding limit_refusal
limit_refusal-room db r h adds = ground (arith, h, adds)

module _ (r : Recommendation) (cs : List Condition) (held : Limits cs)
    (room : active_count r.target_task_id cs < max_active_conditions) (id set now : ℕ) where
  few_more :
      (k : ConditionKind) (task : ℕ)
      → active_count task (cs ++ new_condition id set k now r ∷ []) ≤ max_active_conditions
  unfolding one_active
  few_more k task =
      let count = active_count-append task cs (new_condition id set k now r) in
      let before = held.few task in
      elim (Bool-cases (r.target_task_id == task)) [
        | inl e ↦
            let same : r.target_task_id ≡ task = ground (arith, e) in
            let below = subst (λ t. active_count t cs < max_active_conditions) same room in
            ground (arith, count, below)
        | inr e ↦ ground (arith, count, before, e)
      ]

  start_Limits :
      (at : ℕ) → Limits (cs ++ new_condition id set (ConditionKind.not_before at) now r ∷ [])
  unfolding one_edge edge_count edge_test add_condition add_kind
  start_Limits at =
      let c = new_condition id set (ConditionKind.not_before at) now r in
      record {
        shallow =
            subst (λ g. Shallow g max_dependency_depth)
              (sym (add_conditions-append cs c [] ∙ same_graph)) held.shallow;
        few = few_more (ConditionKind.not_before at);
        edges = λ task.
            let count = edge_count-append task cs c in
            let before = held.edges task in omega (arith, count, before);
      }
    where
      same_graph :
          add_condition
            (new_condition id set (ConditionKind.not_before at) now r)
            (add_conditions cs [])
          ≡ add_conditions cs []
      same_graph = refl

  edge_Limits :
      (db : Db) (d : ℕ)
      → db.conditions ≡ cs
      → Allowed db r.target_task_id d
      → Limits (cs ++ new_condition id set (ConditionKind.after_task_completed d) now r ∷ [])
  unfolding one_edge edge_count edge_test add_condition add_kind dependency_graph
  edge_Limits db d same allowed =
      let c = new_condition id set (ConditionKind.after_task_completed d) now r in
      let few =
        subst (λ xs. edge_count r.target_task_id xs < max_prerequisite_edges) same allowed.few in
      let deep =
        subst
          (λ xs. Shallow (add_edge (add_conditions xs []) r.target_task_id d) max_dependency_depth)
          same allowed.shallow in
      record {
        shallow =
            subst (λ g. Shallow g max_dependency_depth) (sym (add_conditions-append cs c [])) deep;
        few = few_more (ConditionKind.after_task_completed d);
        edges = λ task.
            let count = edge_count-append task cs c in
            let before = held.edges task in
            elim (Bool-cases (r.target_task_id == task)) [
              | inl e ↦
                  let same_task : r.target_task_id ≡ task = ground (arith, e) in
                  let below = subst (λ t. edge_count t cs < max_prerequisite_edges) same_task few in
                  ground (arith, count, below)
              | inr e ↦ ground (arith, count, before, e)
            ];
      }

add_condition_row-Limits :
    (r : Recommendation) (db : Db) (p : Prepared) (set now : ℕ)
    → Limits db.conditions
    → Ready r db p
    → limit_refusal db r ≡ none
    → (o : Option ConditionKind) → condition_kind r.kind p.related r.not_before ≡ o
    → Limits (add_condition_row o set now r p.db).conditions
unfolding add_condition_row
add_condition_row-Limits r db p set now held ready limit none e = subst Limits (sym ready.kept) held
add_condition_row-Limits r db p set now held ready limit (some (ConditionKind.not_before at)) e =
    let room =
      limit_refusal-room db r limit
        (condition_kind-adds r.kind p.related r.not_before (ConditionKind.not_before at) e) in
    start_Limits r p.db.conditions (subst Limits (sym ready.kept) held)
      (subst (λ cs. active_count r.target_task_id cs < max_active_conditions) (sym ready.kept) room)
      (next_id (condition_ids p.db.conditions)) set now at
add_condition_row-Limits r db p set now held ready limit
      (some (ConditionKind.after_task_completed d)) e =
    let room = limit_refusal-room db r limit (
      condition_kind-adds r.kind p.related r.not_before (ConditionKind.after_task_completed d) e) in
    edge_Limits r p.db.conditions (subst Limits (sym ready.kept) held)
      (subst (λ cs. active_count r.target_task_id cs < max_active_conditions) (sym ready.kept) room)
      (next_id (condition_ids p.db.conditions)) set now p.db d refl
      ((dependency_refusal-Allowed p.db r.target_task_id d).0 (ready.edge d e))

recorded-conditions :
    (digest : String) (r : Recommendation) (w : Workflow) (now : ℕ) (p : Prepared)
    (s : SchedulingDb)
    → (recorded digest r w now p s).db.conditions
      ≡ (add_condition_row
          (condition_kind r.kind p.related r.not_before)
          (next_id (change_ids s.change_sets))
          now
          r
          p.db).conditions
unfolding recorded
recorded-conditions digest r w now p s = refl

-- Whatever recommendation is applied, to whatever task, no chain of waiting tasks grows longer than
-- the depth limit or closes into a circle, and no task comes to have more active conditions, or to wait
-- for more tasks, than the limits, where that held before.
pub apply-Limits :
    (service : SchedulingService) (now : ℕ) (given : Recommendation) (s : SchedulingDb)
    (out : ApplyResult × SchedulingDb)
    → Limits s.db.conditions
    → apply service now given s ≡ ok out
    → Limits out.1.db.conditions
apply-Limits service now given s out held h = elim (apply-cases service now given s out h) [
  | inl (same, other) ↦ subst (λ (t : SchedulingDb). Limits t.db.conditions) (sym same) held
  | inr rec ↦
      let r = rec.document in
      let p = rec.prepared in
      let set = next_id (change_ids s.change_sets) in
      let kept =
        add_condition_row-Limits r s.db p set now held
          (prepare-Ready r rec.row now s.db p rec.prepares) rec.limits
          (condition_kind r.kind p.related r.not_before) refl in
      subst (λ (t : ApplyResult × SchedulingDb). Limits t.1.db.conditions) (sym rec.result)
        (subst Limits (sym (recorded-conditions rec.digest r rec.row now p s)) kept)
]
