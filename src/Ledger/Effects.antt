-- ===== src/Ledger/Effects.antt =====
-- What `transition` of task_ledger.py does to a task, its events and its work item.
use foxhound.Prelude.{
  ℕ, ◌+◌, ◌≤◌, ◌≡◌, ◌≢◌, refl, sym, subst, ap, ◌∙◌, String, true, Option, none, some, List, [], ◌∷◌,
  ◌++◌, leb, ◌==◌, arith, str_eq, eq_iff, Bool-cases, ◌⊎◌, inl, inr,
}
use foxhound.Schema.{TaskStatus, open_task, done, dropped}
use foxhound.Store.{find_task, replace_task}
use foxhound.Tables.{Db, Task, Binding, WorkItem, WorkState, closed}
use foxhound.Ledger.{
  applied, TaskAction, finish, drop, reopen, task_action, leaves, enters, moved_task, transitioned,
  transition_task, apply_task_transition, transition, bound_source, set_work, status_event,
  candidate_of, revision_of, work_state, closing_time,
}
use foxhound.Ledger.Total.{Refuses, transition_total, find_task-key, find-replace_task}

-- The verb of a reader takes a task from one status to another.
pub data Goes : String → TaskStatus → TaskStatus → Type 0 where
  finishes : Goes "done" open_task done
  drops : Goes "drop" open_task dropped
  reopens_done : Goes "reopen" done open_task
  reopens_dropped : Goes "reopen" dropped open_task

-- A work item follows its task: it is active with an open task, and closed with any other.
abbrev pub item_state : TaskStatus → WorkState
item_state open_task = WorkState.active
item_state done = closed
item_state dropped = closed

-- Each item of the task takes the state and the time; every other stays.
abbrev pub Follows : ℕ → WorkState → ℕ → List WorkItem → List WorkItem → Type 0
Follows id state now [] [] = Unit
Follows id state now (w ∷ ws) (v ∷ vs) =
    ((w.task_id ≡ id) → v ≡ record w { state = state; updated_at = now })
    × ((w.task_id ≢ id) → v ≡ w)
    × Follows id state now ws vs
Follows id state now _ _ = ⊥

abbrev pub source_of : Option Binding → Option String × Option String
source_of none = (none, none)
source_of (some b) = (some b.candidate_id, some b.source_revision)

-- The database after a task went over to a status.
pub record Gone (before after : Db) (id now : ℕ) (t : Task) (target : TaskStatus) : Type 0 where
  pub closed_at : Option ℕ
  pub closing :
      ((target ≡ open_task) × (closed_at ≡ none)) ⊎ ((target ≢ open_task) × (closed_at ≡ some now))
  pub task :
      find_task id after.tasks
      ≡ some (record t {
        status = target;
        version = t.version + 1;
        updated_at = now;
        closed_at = closed_at;
      })
  pub others : (other : ℕ) → other ≢ id → find_task other after.tasks ≡ find_task other before.tasks
  pub event :
      after.task_events
      ≡ before.task_events
        ++ record {
          task_id = id;
          task_version = t.version + 1;
          candidate_id = (source_of (bound_source id before.bindings)).0;
          source_revision = (source_of (bound_source id before.bindings)).1;
          from_status = some t.status;
          to_status = target;
          occurred_at = now;
        }
          ∷ []
  pub items : Follows id (item_state target) now before.work_items after.work_items
  pub rest : after ≡ record before {
    tasks = after.tasks;
    task_events = after.task_events;
    work_items = after.work_items;
  }

set_work-Follows :
    (id : ℕ) (state : WorkState) (now : ℕ) (ws : List WorkItem)
    → Follows id state now ws (set_work id state now ws)
unfolding set_work
set_work-Follows id state now [] = tt
set_work-Follows id state now (w ∷ ws) = elim (Bool-cases (w.task_id == id)) [
  | inl e ↦ rw e (λ k. refl, λ k. absurd (k (ground (arith, e))), set_work-Follows id state now ws)
  | inr e ↦ rw e (λ k. absurd (ground (arith, e, k)), λ k. refl, set_work-Follows id state now ws)
]

pub find-replace_other :
    (id : ℕ) (v : Task) (ts : List Task)
    → v.id ≢ id
    → find_task id (replace_task v ts) ≡ find_task id ts
unfolding find_task replace_task
find-replace_other id v [] k = refl
find-replace_other id v (u ∷ us) k = ground (arith, find-replace_other id v us)

status_event-source :
    (id : ℕ) (o : Option Binding) (target : TaskStatus) (now : ℕ) (t : Task)
    → status_event id o target now t ≡ record {
      task_id = id;
      task_version = t.version + 1;
      candidate_id = (source_of o).0;
      source_revision = (source_of o).1;
      from_status = some t.status;
      to_status = target;
      occurred_at = now;
    }
unfolding status_event candidate_of revision_of
status_event-source id none target now t = refl
status_event-source id (some b) target now t = refl

work_state-lem : (x : TaskStatus) → work_state x ≡ item_state x
work_state-lem open_task = refl
work_state-lem done = refl
work_state-lem dropped = refl

closing_time-lem :
    (x : TaskStatus) (now : ℕ)
    → ((x ≡ open_task) × (closing_time x now ≡ none))
      ⊎ ((x ≢ open_task) × (closing_time x now ≡ some now))
closing_time-lem open_task now = inl (refl, refl)
closing_time-lem done now = inr (λ e. cc, refl)
closing_time-lem dropped now = inr (λ e. cc, refl)

transitioned-Gone :
    (db : Db) (id now : ℕ) (t : Task) (target : TaskStatus)
    → find_task id db.tasks ≡ some t
    → Gone db (transitioned id target now t db) id now t target
unfolding transitioned
transitioned-Gone db id now t target f =
    let key = find_task-key id db.tasks {t = t} f in
    record {
      closed_at = closing_time target now;
      closing = closing_time-lem target now;
      task = find-replace_task id (moved_task target now t) db.tasks {t = t} key f;
      others = λ other n.
          find-replace_other other (moved_task target now t) db.tasks (λ e. n (sym e ∙ key));
      event =
          ap (λ e. db.task_events ++ e ∷ [])
            (status_event-source id (bound_source id db.bindings) target now t);
      items =
          subst
            (λ x.
              Follows id x now db.work_items (set_work id (work_state target) now db.work_items))
            (work_state-lem target) (set_work-Follows id (work_state target) now db.work_items);
      rest = refl;
    }

finish-Goes :
    (status : TaskStatus) → leaves finish status ≡ true → Goes "done" status (enters finish)
unfolding leaves enters
finish-Goes open_task h = finishes
finish-Goes done h = cc
finish-Goes dropped h = cc

drop-Goes : (status : TaskStatus) → leaves drop status ≡ true → Goes "drop" status (enters drop)
unfolding leaves enters
drop-Goes open_task h = drops
drop-Goes done h = cc
drop-Goes dropped h = cc

reopen-Goes :
    (status : TaskStatus) → leaves reopen status ≡ true → Goes "reopen" status (enters reopen)
unfolding leaves enters
reopen-Goes open_task h = cc
reopen-Goes done h = reopens_done
reopen-Goes dropped h = reopens_dropped

task_action-words :
    (word : String) (action : TaskAction)
    → task_action word ≡ some action
    → ((word ≡ "done") × (action ≡ finish))
      ⊎ ((word ≡ "drop") × (action ≡ drop))
      ⊎ ((word ≡ "reopen") × (action ≡ reopen))
unfolding task_action
task_action-words word action h = elim (Bool-cases (str_eq word "done")) [
  | inl e ↦ inl ((eq_iff word "done").0 e, (let k = (rw e at h) in cc))
  | inr e ↦ elim (Bool-cases (str_eq word "drop")) [
    | inl d ↦ inr (inl ((eq_iff word "drop").0 d, (let k = (rw (e, d) at h) in cc)))
    | inr d ↦ elim (Bool-cases (str_eq word "reopen")) [
      | inl r ↦ inr (inr ((eq_iff word "reopen").0 r, (let k = (rw (e, d, r) at h) in cc)))
      | inr r ↦ (let k = (rw (e, d, r) at h) in cc)
    ]
  ]
]

action-Goes :
    (word : String) (action : TaskAction) (status : TaskStatus)
    → task_action word ≡ some action
    → leaves action status ≡ true
    → Goes word status (enters action)
action-Goes word action status h l = elim (task_action-words word action h) [
  | inl (w, a) ↦ rw (w, a) (finish-Goes status (rw a at l))
  | inr (inl (w, a)) ↦ rw (w, a) (drop-Goes status (rw a at l))
  | inr (inr (w, a)) ↦ rw (w, a) (reopen-Goes status (rw a at l))
]

Goes-action :
    (word : String) (from to : TaskStatus)
    → Goes word from to
    → (a : TaskAction) × (task_action word ≡ some a) × (leaves a from ≡ true) × (enters a ≡ to)
unfolding task_action leaves enters
Goes-action _ _ _ finishes = (finish, refl, refl, refl)
Goes-action _ _ _ drops = (drop, refl, refl, refl)
Goes-action _ _ _ reopens_done = (reopen, refl, refl, refl)
Goes-action _ _ _ reopens_dropped = (reopen, refl, refl, refl)

-- A verb that fits is never refused.
Goes-applied :
    (id expected : ℕ) (word : String) (now : ℕ) (db : Db) {t : Task} {target : TaskStatus}
    → 1 ≤ id
    → 1 ≤ expected
    → find_task id db.tasks ≡ some t
    → t.version ≡ expected
    → Goes word t.status target
    → Refuses (transition id expected word now db) db
    → ⊥
unfolding transition apply_task_transition transition_task
Goes-applied id expected word now db {t} {target} i e f v g (x, row, r, h) =
    let (a, named, from, to) = Goes-action word t.status target g in
    let low : leb 1 id ≡ true = ground (arith, i) in
    let own : leb 1 expected ≡ true = ground (arith, e) in
    let same : (t.version == expected) ≡ true = ground (arith, v) in
    let k = (rw (low, own, named, f, same, from) at h) in cc

-- `transition` refuses and changes nothing, and then the ids are not positive, the caller named another
-- version than the task's, or the verb does not fit the task's status; or the caller named the current
-- version of a task and a verb that takes its status to another: the task goes over at its next version
-- with the time that it was closed, if it was, one event names both statuses and the source that the
-- task is bound to, its work item is active or closed with it, and no other row of any table changes.
pub transition_effects :
    (id expected : ℕ) (action : String) (now : ℕ) (db : Db)
    → (Refuses (transition id expected action now db) db
        × ((t : Task) (target : TaskStatus)
            → 1 ≤ id
            → 1 ≤ expected
            → find_task id db.tasks ≡ some t
            → t.version ≡ expected
            → Goes action t.status target
            → ⊥))
      ⊎ ((t : Task) × (target : TaskStatus) × (after : Db) × (find_task id db.tasks ≡ some t)
          × (t.version ≡ expected)
          × Goes action t.status target
          × (transition id expected action now db ≡ (applied id (expected + 1) target, after))
          × Gone db after id now t target)
transition_effects id expected action now db = elim (transition_total id expected action now db) [
  | inl r ↦ inl (
    r,
    λ t target i e f v g.
        Goes-applied id expected action now db {t = t} {target = target} i e f v g r,
  )
  | inr (t, a, chosen, found, version, from, moved) ↦ inr (
    t,
    enters a,
    transitioned id (enters a) now t db,
    found,
    version,
    action-Goes action a t.status chosen from,
    moved,
    transitioned-Gone db id now t (enters a) found,
  )
]
