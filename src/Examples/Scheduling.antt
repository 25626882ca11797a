-- ===== src/Examples/Scheduling.antt =====
-- The dependency graph, a raised priority and its undo, on concrete tables of task_scheduling.py.
use foxhound.Prelude.{
  ℕ, ◌+◌, ◌≤◌, ◌≡◌, refl, String, Bool, true, false, Option, none, some, List, [], ◌∷◌, All, arith,
  Attempt, ok, leb, ◌⊎◌, ◌↔◌,
}
use mathlib.Core.List.{Memᴰ}
use foxhound.Schema.{Workflow}
use foxhound.Store.{find_task, find_workflow}
use foxhound.Tables.{Db, Condition, ConditionKind, live}
use foxhound.Operation.{applied}
use foxhound.Scheduling.{SchedulingService, ApplyResult, card_result, find_card}
use foxhound.Scheduling.Rows.{SchedulingKind, Recommendation, Card, CardStatus, SchedulingDb}
use foxhound.Scheduling.Callback.{CardAction, keep, undo}
use foxhound.Scheduling.Graph.{
  Graph, Visit, depth, found_cycle, children, dependency_graph, dependency_refusal, longest_chain,
  add_conditions,
}
use foxhound.Scheduling.Graph.Walks.{Loop}
use foxhound.Scheduling.Graph.Edges.{Waits, children-dependency_graph}
use foxhound.Scheduling.Graph.Refusals.{
  Allowed, Longest, longest_chain_total, dependency_refusal-Allowed,
}
use foxhound.Scheduling.Document.{recommendation_document, json_length}
use foxhound.Scheduling.Target.{target_refusal, limit_refusal}
use foxhound.Scheduling.Apply.{apply, existing_change, max_json_length}
use foxhound.Scheduling.Apply.Waits.{apply-Waits}
use foxhound.Scheduling.Act.{act}
use foxhound.Scheduling.Act.RoundTrip.{later_row, undo-apply}
use foxhound.Examples.{task, queued_row, db_of, digest, own_digest}

-- Task 7 waits for 8, and 8 for 9.
abbrev waits_for : ℕ → ℕ → ℕ → Condition
waits_for id task_id dependency = record {
  id = id;
  task_id = task_id;
  task_version = 3;
  kind = ConditionKind.after_task_completed dependency;
  state = live;
  change_set_id = id;
  created_at = 900;
  updated_at = 900;
}

abbrev chain_db : Db
chain_db = record (db_of queued_row) {
  tasks = task ∷ record task { id = 8 } ∷ record task { id = 9 } ∷ [];
  conditions = waits_for 1 8 9 ∷ [];
}

dependency_refusal-Allowed_example :
    (dependency_refusal chain_db 7 (some 8) ≡ none) ↔ Allowed chain_db 7 8
dependency_refusal-Allowed_example = dependency_refusal-Allowed chain_db 7 8

chain_allowed : dependency_refusal chain_db 7 (some 8) ≡ none
unfolding dependency_refusal longest_chain dependency_graph add_conditions children
    foxhound.Store.find_task foxhound.Scheduling.Graph.edge_refusal
    foxhound.Scheduling.Graph.found_open foxhound.Scheduling.Graph.edge_count
    foxhound.Scheduling.Graph.depth_refusal foxhound.Scheduling.Graph.longest
    foxhound.Scheduling.Graph.keys foxhound.Scheduling.Graph.add_edge
    foxhound.Scheduling.Graph.add_condition foxhound.Scheduling.Graph.add_kind
    foxhound.Scheduling.Graph.join foxhound.Scheduling.Graph.visit foxhound.Scheduling.Graph.member
    foxhound.Scheduling.Graph.visit_children foxhound.Scheduling.Graph.deeper
    foxhound.Scheduling.Graph.edge_test
chain_allowed = refl

abbrev chain : Graph
chain = (7, 8 ∷ []) ∷ (8, 9 ∷ []) ∷ []

longest_chain_total_example :
    ((n : ℕ) × (longest_chain chain ≡ depth n) × Longest chain n)
    ⊎ ((longest_chain chain ≡ found_cycle) × Loop chain)
longest_chain_total_example = longest_chain_total chain

chain_depth : longest_chain chain ≡ depth 2
unfolding longest_chain foxhound.Scheduling.Graph.longest foxhound.Scheduling.Graph.keys
    foxhound.Scheduling.Graph.join foxhound.Scheduling.Graph.visit foxhound.Scheduling.Graph.member
    foxhound.Scheduling.Graph.visit_children children foxhound.Scheduling.Graph.deeper
chain_depth = refl

circle_found : longest_chain ((7, 8 ∷ []) ∷ (8, 7 ∷ []) ∷ []) ≡ found_cycle
unfolding longest_chain foxhound.Scheduling.Graph.longest foxhound.Scheduling.Graph.keys
    foxhound.Scheduling.Graph.join foxhound.Scheduling.Graph.visit foxhound.Scheduling.Graph.member
    foxhound.Scheduling.Graph.visit_children children foxhound.Scheduling.Graph.deeper
circle_found = refl

children-dependency_graph_example :
    Memᴰ 9 (children (dependency_graph chain_db) 8) ↔ Waits chain_db.conditions 8 9
children-dependency_graph_example = children-dependency_graph chain_db 8 9

abbrev pub scheduling_service : SchedulingService
scheduling_service = record {
  provenance_validator = some (λ s r. true);
  recommendation_digest = λ r. own_digest;
  token_digest = digest;
}

abbrev pub raise : Recommendation
raise = record {
  kind = SchedulingKind.raise_priority;
  target_task_id = 7;
  target_task_version = 3;
  expected_workflow_version = 5;
  rationale = "It blocks others";
  source_refs = "src-001" ∷ [];
  research_receipt_id = "receipt-1";
  research_document_digest = own_digest;
  related_task_id = none;
  not_before = none;
  prerequisite_text = none;
}

abbrev pub scheduling_db : Db → List Card → SchedulingDb
scheduling_db db cards = record {
  db = db;
  change_sets = [];
  change_events = [];
  cards = cards;
  card_events = [];
  review_cards = [];
  retractions = [];
  cancelled_cards = [];
}

abbrev before : SchedulingDb
before = scheduling_db (db_of queued_row) []

-- The change is applied, and its change set has the first id.
raise_applied :
    (out : ApplyResult × SchedulingDb) × (apply scheduling_service 1500 raise before ≡ ok out)
    × (out.0.disposition ≡ applied)
    × (out.0.change_set_id ≡ some 1)
unfolding apply foxhound.Prelude.contains find_workflow foxhound.Store.find_task
    foxhound.Store.write foxhound.Schema.checks foxhound.Schema.run_id_column
    foxhound.Store.replace_workflow foxhound.Store.event foxhound.Scheduling.Callback.digits
    foxhound.Scheduling.next_id
raise_applied = (_, refl, refl, refl)

abbrev pub shown_card : Card
shown_card = record {
  id = 1;
  change_set_id = 1;
  task_id = 7;
  status = CardStatus.delivered;
  version = 2;
  resolution = none;
  claim_token_digest = none;
  claim_expires_at = none;
  consumer_digest = some own_digest;
  transport = some "chat";
  delivery_ref = some "message-1";
  delivered_at = some 1600;
  created_at = 1500;
  updated_at = 1600;
  resolved_at = none;
}

-- The database after the change, with its card delivered.
abbrev shown : SchedulingDb
shown = record raise_applied.0.1 { cards = shown_card ∷ [] }

card_found : find_card 1 (shown_card ∷ []) ≡ some shown_card
unfolding find_card
card_found = refl

row_found : find_workflow 7 (queued_row ∷ []) ≡ some queued_row
unfolding find_workflow
row_found = refl

undo-apply_example :
    (after : SchedulingDb) × (act 1700 1 2 (some undo) shown ≡ ok (card_result applied 1 3, after))
    × (find_workflow 7 after.db.workflows ≡ some (later_row queued_row 1700))
undo-apply_example =
    undo-apply scheduling_service 1500 1700 raise before raise_applied.0 queued_row shown_card shown
      refl raise_applied.1 raise_applied.2 row_found refl refl
      (record {
        identity = omega arith;
        at = omega arith;
        card = card_found;
        change = raise_applied.3;
        task = refl;
        delivered = refl;
      })

-- Task 7 is to wait for 8.
abbrev wait : Recommendation
wait = record raise { kind = SchedulingKind.after_task_completed; related_task_id = some 8 }

abbrev waiting : SchedulingDb
waiting = scheduling_db chain_db []

wait_checked : recommendation_document wait ≡ some wait
unfolding recommendation_document foxhound.Prelude.contains
wait_checked = refl

wait_fits : leb (json_length wait) max_json_length ≡ true
unfolding json_length foxhound.Scheduling.Callback.digits
wait_fits = refl

wait_found : find_workflow 7 chain_db.workflows ≡ some queued_row
unfolding find_workflow
wait_found = refl

wait_target : target_refusal (find_task 7 chain_db.tasks) (some queued_row) wait ≡ none
unfolding target_refusal find_task
wait_target = refl

wait_limits : limit_refusal chain_db wait ≡ none
unfolding limit_refusal
wait_limits = refl

wait_fresh : existing_change "receipt-1" own_digest [] ≡ none
unfolding existing_change
wait_fresh = refl

apply-Waits_example :
    (out : ApplyResult × SchedulingDb) × (apply scheduling_service 1500 wait waiting ≡ ok out)
    × (out.0.disposition ≡ applied)
    × Waits out.1.db.conditions 7 8
apply-Waits_example =
    apply-Waits scheduling_service 1500 wait wait waiting queued_row 8 (λ s r. true) refl refl
      wait_checked wait_fits refl refl wait_fresh wait_found wait_target wait_limits
      ((dependency_refusal-Allowed chain_db 7 8).0 chain_allowed)
