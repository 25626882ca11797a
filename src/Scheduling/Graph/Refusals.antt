-- ===== src/Scheduling/Graph/Refusals.antt =====
-- When `_dependency_refusal` of task_scheduling.py lets one task wait for another.
use foxhound.Prelude.{
  ℕ, ◌+◌, ◌≤◌, ◌<◌, ◌≡◌, ◌≢◌, refl, sym, ap, subst, ◌∙◌, true, false, ◌||◌, Option, none, some, [],
  ◌==◌, leb, ◌⊎◌, inl, inr, ◌↔◌, arith, length, Bool-cases,
}
use foxhound.Schema.{TaskStatus, open_task, done, dropped}
use foxhound.Store.{find_task}
use foxhound.Tables.{Db, Task}
use foxhound.Operation.{is_open}
use foxhound.Scheduling.Graph.{
  Graph, Visit, depth, found_cycle, add_edge, dependency_graph, visit, keys, longest_chain,
  edge_count, max_prerequisite_edges, max_dependency_depth, depth_refusal, found_open, edge_refusal,
  dependency_refusal,
}
use foxhound.Scheduling.Graph.Walks.{Walk, stay, step, Loop, Shallow, Shallow-not_Loop}
use foxhound.Scheduling.Graph.Longest.{Visit-cases, longest-depth, longest-cycle}
use foxhound.Scheduling.Graph.Visits.{visit-bound, visit-attained, visit-cycle}
use foxhound.Scheduling.Graph.Fuel.{keys-children, longest_chain-ne-out_of_fuel}
use mathlib.Core.List.Memᴰ

depth_refusal-depth : (n : ℕ) → depth_refusal (depth n) ≡ none → n ≤ 8
unfolding depth_refusal
depth_refusal-depth n h = ground (arith, h)

depth_refusal-none : (n : ℕ) → n ≤ 8 → depth_refusal (depth n) ≡ none
unfolding depth_refusal
depth_refusal-none n low = ground (arith, low)

depth_refusal-found : depth_refusal found_cycle ≡ none → ⊥
unfolding depth_refusal
depth_refusal-found h = cc

-- A number is the length of the longest walk.
abbrev pub Longest : Graph → ℕ → Type 0
Longest g n = Shallow g n × ((a : ℕ) × (b : ℕ) × Walk g a b n)

module _ (g : Graph) where
  from_key : ℕ → Visit
  from_key node = visit g (2 + length g) node []

  longest_chain-Shallow : (n : ℕ) → longest_chain g ≡ depth n → Shallow g n
  unfolding longest_chain
  longest_chain-Shallow n h a b m stay = omega arith
  longest_chain-Shallow n h a b m (step {n = k} e w) =
      let (below, best) = longest-depth from_key (keys g) n (unfold from_key in h) in
      let (d, ed, ld) = below a (keys-children g a e) in
      let near = visit-bound g (2 + length g) a [] d (unfold from_key in ed) (step e w) in
      omega (arith, near, ld)

  longest_chain-attained : (n : ℕ) → longest_chain g ≡ depth n → (a : ℕ) × (b : ℕ) × Walk g a b n
  unfolding longest_chain
  longest_chain-attained n h =
      let (below, best) = longest-depth from_key (keys g) n (unfold from_key in h) in
      elim best [
        | inl z ↦ (0, 0, subst (Walk g 0 0) (sym z) stay)
        | inr (c, k, ec) ↦
            let (to, w) = visit-attained g (2 + length g) c [] n (unfold from_key in ec) in
            (c, to, w)
      ]

  longest_chain-Loop : longest_chain g ≡ found_cycle → Loop g
  unfolding longest_chain
  longest_chain-Loop h =
      let (c, k, ec) = longest-cycle from_key (keys g) (unfold from_key in h) in
      elim (visit-cycle g (2 + length g) c [] (unfold from_key in ec)) [
        | inl (to, m, w, back) ↦ absurd (Memᴰ.not-nil back)
        | inr loop ↦ loop
      ]

  -- The search ends on every graph: with the length of the longest walk, or with a cycle, and then
  -- some task waits for itself.
  pub longest_chain_total :
      ((n : ℕ) × (longest_chain g ≡ depth n) × Longest g n)
      ⊎ ((longest_chain g ≡ found_cycle) × Loop g)
  longest_chain_total = elim (Visit-cases (longest_chain g)) [
    | inl (n, e) ↦ inl (n, e, (longest_chain-Shallow n e, longest_chain-attained n e))
    | inr (inl e) ↦ inr (e, longest_chain-Loop e)
    | inr (inr e) ↦ absurd (longest_chain-ne-out_of_fuel g e)
  ]

  depth_refusal-Shallow : (depth_refusal (longest_chain g) ≡ none) ↔ Shallow g max_dependency_depth
  depth_refusal-Shallow = elim longest_chain_total [
    | inl (n, e, (bound, (a, b, w))) ↦ (
      λ h a b m v.
          let low : n ≤ 8 = depth_refusal-depth n (sym (ap depth_refusal e) ∙ h) in
          let near = bound a b m v in omega (arith, near, low),
      λ shallow. let low = shallow a b n w in ap depth_refusal e ∙ depth_refusal-none n low,
    )
    | inr (e, loop) ↦ (
      λ h. (let z = sym (ap depth_refusal e) ∙ h in absurd (depth_refusal-found z)),
      λ shallow. absurd (Shallow-not_Loop shallow loop),
    )
  ]

-- What lets a task wait for another.
pub record Allowed (db : Db) (target dependency : ℕ) : Type 0 where
  pub positive : 1 ≤ dependency
  pub other : dependency ≢ target
  pub found : (t : Task) × (find_task dependency db.tasks ≡ some t) × (t.status ≡ open_task)
  pub few : edge_count target db.conditions < max_prerequisite_edges
  pub shallow : Shallow (add_edge (dependency_graph db) target dependency) max_dependency_depth

found_open-found :
    (o : Option Task) → (found_open o ≡ true) ↔ ((t : Task) × (o ≡ some t) × (t.status ≡ open_task))
unfolding found_open
found_open-found none = (λ h. cc, λ (t, e, z). cc)
found_open-found (some t) =
    (λ h. (t, refl, is_open-open t.status h), λ (u, e, z). ground (arith, some_status t u e ∙ z))
  where
    is_open-open : (s : TaskStatus) → is_open s ≡ true → s ≡ open_task
    is_open-open open_task h = refl
    is_open-open done h = cc
    is_open-open dropped h = cc

    some_status : (t u : Task) → some t ≡ some u → t.status ≡ u.status
    some_status t u e = cc

module _ (db : Db) (target dependency : ℕ) where
  edge_refusal-Allowed : (edge_refusal db target dependency ≡ none) ↔ (
      (found_open (find_task dependency db.tasks) ≡ true)
      × (leb max_prerequisite_edges (edge_count target db.conditions) ≡ false)
      × (depth_refusal (longest_chain (add_edge (dependency_graph db) target dependency)) ≡ none))
  unfolding edge_refusal
  edge_refusal-Allowed = elim (Bool-cases (found_open (find_task dependency db.tasks))) [
    | inr e ↦ rw (e, edge_refusal) (λ h. cc, λ (a, b, c). cc)
    | inl e ↦ elim (Bool-cases (leb max_prerequisite_edges (edge_count target db.conditions))) [
      | inl f ↦ rw (e, f, edge_refusal) (λ h. cc, λ (a, b, c). cc)
      | inr f ↦ rw (e, f, edge_refusal) (λ h. (refl, refl, h), λ (a, b, c). c)
    ]
  ]

  -- `_dependency_refusal` lets a task wait for another exactly where the other is a different task
  -- that is open, the one waits for fewer tasks than the limit, and in the graph with the new edge no
  -- chain of waiting tasks is longer than the depth limit, so that none goes round in a circle.
  pub dependency_refusal-Allowed :
      (dependency_refusal db target (some dependency) ≡ none) ↔ Allowed db target dependency
  unfolding dependency_refusal
  dependency_refusal-Allowed = elim (Bool-cases (dependency == 0 || dependency == target)) [
    | inl e ↦ rw e (λ h. cc, λ a. ground (arith, a.positive, a.other, e))
    | inr e ↦ rw e (
      λ h.
          let (o, f, d) = edge_refusal-Allowed.0 h in
          record {
            positive = ground (arith, e);
            other = λ z. ground (arith, e, z);
            found = (found_open-found (find_task dependency db.tasks)).0 o;
            few = ground (arith, f);
            shallow =
                (depth_refusal-Shallow (add_edge (dependency_graph db) target dependency)).0 d;
          },
      λ a. edge_refusal-Allowed.1 (
        (found_open-found (find_task dependency db.tasks)).1 a.found,
        ground (arith, a.few),
        (depth_refusal-Shallow (add_edge (dependency_graph db) target dependency)).1 a.shallow,
      ),
    )
  ]
