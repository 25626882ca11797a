-- ===== src/Scheduling/Graph.antt =====
-- The graph of task dependencies: `_dependency_refusal` of task_scheduling.py.
pub mod Walks
pub mod Longest
pub mod Visits
pub mod Fuel
pub mod Edges
pub mod Refusals
use foxhound.Prelude.{
  ℕ, zero, suc, ◌+◌, Bool, true, false, ◌&&◌, ◌||◌, Option, none, some, List, [], ◌∷◌, ltb, leb,
  ◌==◌, if◌then◌else◌, length,
}
use foxhound.Store.{find_task}
use foxhound.Tables.{Db, Task, Condition, ConditionKind, after_task_completed, not_before}
use foxhound.Condition.{is_watched}
use foxhound.Operation.{is_open}
use foxhound.Scheduling.{
  SchedulingRefusal, invalid_recommendation, invalid_state, limit_exceeded, cycle, depth_exceeded,
}

-- `dict[int, set[int]]`, in the order in which keys came in.
abbrev pub Graph : Type 0
Graph = List (ℕ × List ℕ)

-- `graph.get(node, set())`.
unfoldable pub children : Graph → ℕ → List ℕ
children [] node = []
children ((k, ds) ∷ rest) node = if k == node then ds else children rest node

unfoldable pub member : ℕ → List ℕ → Bool
member n [] = false
member n (x ∷ xs) = x == n || member n xs

-- `graph.setdefault(node, set()).add(child)`.
unfoldable pub add_edge : Graph → ℕ → ℕ → Graph
add_edge [] node child = (node, child ∷ []) ∷ []
add_edge ((k, ds) ∷ rest) node child =
    if k == node
    then (k, if member child ds then ds else child ∷ ds) ∷ rest
    else (k, ds) ∷ add_edge rest node child

unfoldable pub add_kind : ℕ → ConditionKind → Graph → Graph
add_kind id (not_before start) g = g
add_kind id (after_task_completed dependency) g = add_edge g id dependency

unfoldable pub add_condition : Condition → Graph → Graph
add_condition c g = if is_watched c.state then add_kind c.task_id c.kind g else g

-- The rows of kind `after_task_completed` that are active or need review.
unfoldable pub add_conditions : List Condition → Graph → Graph
add_conditions [] g = g
add_conditions (c ∷ cs) g = add_conditions cs (add_condition c g)

unfoldable pub dependency_graph : Db → Graph
dependency_graph db = add_conditions db.conditions []

-- What `visit` returns or raises.
pub data Visit : Type 0 where
  depth : ℕ → Visit
  found_cycle out_of_fuel : Visit

abbrev larger : ℕ → ℕ → ℕ
larger a b = if leb a b then b else a

unfoldable pub join : Visit → Visit → Visit
join (depth a) (depth b) = depth (larger a b)
join (depth a) found_cycle = found_cycle
join (depth a) out_of_fuel = out_of_fuel
join found_cycle other = found_cycle
join out_of_fuel other = out_of_fuel

-- `max((visit(node) for node in nodes), default=0)`; the first visit that raises ends it.
unfoldable pub longest : (ℕ → Visit) → List ℕ → Visit
longest f [] = depth 0
longest f (n ∷ ns) = join (f n) (longest f ns)

unfoldable pub deeper : Visit → Visit
deeper (depth n) = depth (1 + n)
deeper found_cycle = found_cycle
deeper out_of_fuel = out_of_fuel

unfoldable pub visit_children : (ℕ → Visit) → List ℕ → Visit
visit_children f [] = depth 0
visit_children f (n ∷ ns) = deeper (longest f (n ∷ ns))

-- `visit`, on fuel.
unfoldable pub visit : Graph → ℕ → ℕ → List ℕ → Visit
visit g zero node path = out_of_fuel
visit g (suc fuel) node path = elim (member node path) [
  | true ↦ found_cycle
  | false ↦ visit_children (λ child. visit g fuel child (node ∷ path)) (children g node)
]

unfoldable pub keys : Graph → List ℕ
keys [] = []
keys ((k, ds) ∷ rest) = k ∷ keys rest

-- The longest chain from any task, with fuel for a path through every key and one task more.
unfoldable pub longest_chain : Graph → Visit
longest_chain g = longest (λ node. visit g (2 + length g) node []) (keys g)

unfoldable pub edge_test : ℕ → ℕ → Bool → ConditionKind → Bool
edge_test id task watched (not_before start) = false
edge_test id task watched (after_task_completed dependency) = task == id && watched

abbrev pub is_edge_of : ℕ → Condition → Bool
is_edge_of id c = edge_test id c.task_id (is_watched c.state) c.kind

-- The count of a task's prerequisite edges.
unfoldable pub edge_count : ℕ → List Condition → ℕ
unfolding edge_test
edge_count id [] = 0
edge_count id (c ∷ cs) = (if is_edge_of id c then 1 else 0) + edge_count id cs

abbrev pub max_prerequisite_edges : ℕ
max_prerequisite_edges = 2

abbrev pub max_dependency_depth : ℕ
max_dependency_depth = 8

unfoldable pub depth_refusal : Visit → Option SchedulingRefusal
depth_refusal (depth n) = if ltb max_dependency_depth n then some depth_exceeded else none
depth_refusal found_cycle = some cycle
depth_refusal out_of_fuel = some depth_exceeded

unfoldable pub found_open : Option Task → Bool
found_open none = false
found_open (some t) = is_open t.status

unfoldable pub edge_refusal : Db → ℕ → ℕ → Option SchedulingRefusal
edge_refusal db target dependency =
    if found_open (find_task dependency db.tasks)
    then if leb max_prerequisite_edges (edge_count target db.conditions)
      then some limit_exceeded
      else depth_refusal (longest_chain (add_edge (dependency_graph db) target dependency))
    else some invalid_state

-- `_dependency_refusal`; ids are natural numbers, of which 0 is not a positive id.
unfoldable pub dependency_refusal : Db → ℕ → Option ℕ → Option SchedulingRefusal
dependency_refusal db target none = some invalid_recommendation
dependency_refusal db target (some dependency) =
    if dependency == 0 || dependency == target
    then some invalid_recommendation
    else edge_refusal db target dependency
