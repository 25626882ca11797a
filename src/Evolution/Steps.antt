-- ===== src/Evolution/Steps.antt =====
-- Histories of the service: its operations as steps between committed databases, in any order and
-- by any caller.
use foxhound.Prelude.{ℕ, ◌≤◌, ◌≡◌, refl, String, Option, some, List, ◌++◌, ok}
use foxhound.Schema.{Workflow, WorkflowPhase}
use foxhound.Store.{find_workflow}
use foxhound.Tables.{Db, Event}
use foxhound.Store.Rows.{Valid}
use foxhound.Operation.{OperationResult}
use foxhound.Service.{Service}
use foxhound.Lease.Calls.{LeaseCall, lease_call}
use foxhound.Gate.Snooze.{Zone}
use foxhound.Gate.Start.{start_action}
use foxhound.Gate.Review.{review_action}
use foxhound.Outcome.{record_result}
use foxhound.Outcome.Answers.{ValidResult}
use foxhound.Queue.{retry, set_priority}
use foxhound.Agents.{select_agent, adopt_installed_revision}
use foxhound.Agents.Choices.{select_agent-Evolves}
use foxhound.Agents.Adoption.{adopt_installed_revision-Evolves}
use foxhound.Queue.Priority.{set_priority-Evolves}
use foxhound.Ledger.{TransitionResult, transition}
use foxhound.Ledger.Total.{transition-frame}
use foxhound.Schedule.{Ownership, schedule}
use foxhound.Claim.{Advice}
use foxhound.Claim.Next.{Passed, claim_next}
use foxhound.Claim.Next.Claiming.{claim_next-Evolves}
use foxhound.Evolution.{Evolves, Evolves-same, Evolves-trans}
use foxhound.Evolution.Calls.{
  lease_call-Evolves, start_action-Evolves, review_action-Evolves, retry-Evolves,
}
use foxhound.Evolution.Rows.{record_result-Evolves, schedule-Evolves}

-- One operation that returned, from the database it began on to the one it left.
pub data Step (s : Service) (z : Zone) : Db → Db → Type 0 where
  leases :
      (now id version : ℕ) (token : String) (call : LeaseCall) (a b : Db) (out : OperationResult)
      → lease_call s now id version token call a ≡ ok (out, b)
      → Step s z a b
  starts :
      (now id version : ℕ) (action : String) (a b : Db) (out : OperationResult)
      → start_action z now id version action a ≡ ok (out, b)
      → Step s z a b
  reviews :
      (now id version : ℕ) (action : String) (a b : Db) (out : OperationResult)
      → review_action z now id version action a ≡ ok (out, b)
      → Step s z a b
  records :
      (now : ℕ) (v : ValidResult) (a b : Db) (out : OperationResult)
      → record_result s now v a ≡ ok (out, b)
      → Step s z a b
  retries :
      (now id version : ℕ) (a b : Db) (out : OperationResult)
      → retry now id version a ≡ ok (out, b)
      → Step s z a b
  prefers :
      (now id version : ℕ) (action : String) (a b : Db) (out : OperationResult)
      → set_priority now id version action a ≡ ok (out, b)
      → Step s z a b
  selects :
      (now id version : ℕ) (profile revision : String) (a b : Db) (out : OperationResult)
      → select_agent s now id version profile revision a ≡ ok (out, b)
      → Step s z a b
  adopts :
      (now id version : ℕ) (a b : Db) (out : OperationResult)
      → adopt_installed_revision s now id version a ≡ ok (out, b)
      → Step s z a b
  moves :
      (now id version : ℕ) (action : String) (a b : Db) (out : TransitionResult)
      → transition id version action now a ≡ (out, b)
      → Step s z a b
  schedules :
      (o : Ownership) (now id version : ℕ) (a b : Db) (out : OperationResult)
      → schedule s o now id version a ≡ ok (out, b)
      → Step s z a b
  claims :
      (advice : Advice) (now : ℕ) (token : String) (phases : Option (List WorkflowPhase)) (a b : Db)
      (out : Passed)
      → claim_next s advice now token phases a ≡ ok (out, b)
      → Step s z a b

-- A history: no step, or a step and then a history.
pub data History (s : Service) (z : Zone) : Db → Db → Type 0 where
  over : (a : Db) → History s z a a
  then : (a b c : Db) → Step s z a b → History s z b c → History s z a c

Step-Evolves : (s : Service) (z : Zone) {a b : Db} → Valid a → Step s z a b → Evolves a b
Step-Evolves s z v (leases now id version token call a b out h) =
    lease_call-Evolves s now id version token call a {out = out} v h
Step-Evolves s z v (starts now id version action a b out h) =
    start_action-Evolves z now id version action a {out = out} v h
Step-Evolves s z v (reviews now id version action a b out h) =
    review_action-Evolves z now id version action a {out = out} v h
Step-Evolves s z v (records now r a b out h) = record_result-Evolves s now r a {out = out} v h
Step-Evolves s z v (retries now id version a b out h) =
    retry-Evolves now id version a {out = out} v h
Step-Evolves s z v (prefers now id version action a b out h) =
    set_priority-Evolves now id version action a {out = (out, b)} h
Step-Evolves s z v (selects now id version profile revision a b out h) =
    select_agent-Evolves s now id version profile revision a (out, b) h
Step-Evolves s z v (adopts now id version a b out h) =
    adopt_installed_revision-Evolves s now id version a (out, b) h
Step-Evolves s z v (moves now id version action a b out h) =
    let (w, e) = transition-frame id version action now a {r = out} h in Evolves-same a b w e
Step-Evolves s z v (schedules o now id version a b out h) =
    schedule-Evolves s o now id version a {out = out} h
Step-Evolves s z v (claims advice now token phases a b out h) =
    claim_next-Evolves s advice now token phases a {out = (out, b)} h

History-Evolves : (s : Service) (z : Zone) {a b : Db} → Valid a → History s z a b → Evolves a b
History-Evolves s z v (over a) = Evolves-same a a refl refl
History-Evolves s z v (then a b c step rest) =
    let e = Step-Evolves s z {a = a} {b = b} v step in
    Evolves-trans a b c e (History-Evolves s z {a = b} {b = c} (e.sound v) rest)

-- From a database whose rows pass their CHECKs, whatever operations of `Step` run, in whatever order
-- and by whomever they are called, a workflow of the first database is still there in the last, at no
-- older a version; the events of the first are the first events of the last; and the last database's
-- rows pass their CHECKs.
pub History-keeps :
    (s : Service) (z : Zone) (a b : Db) (id : ℕ) {w : Workflow}
    → Valid a
    → History s z a b
    → find_workflow id a.workflows ≡ some w
    → Valid b
      × ((v : Workflow) × (find_workflow id b.workflows ≡ some v) × (w.version ≤ v.version))
      × ((es : List Event) × (b.events ≡ a.events ++ es))
History-keeps s z a b id {w} valid h f =
    let e = History-Evolves s z {a = a} {b = b} valid h in
    (e.sound valid, e.rises id {w = w} f, e.log)
