-- ===== src/Scheduling/Change/Raised.antt =====
-- A raised priority of task_scheduling.py: what the row was, and what it has become.
use foxhound.Prelude.{
  ℕ, ◌+◌, ◌≡◌, refl, sym, ap, subst, ◌∙◌, Bool, true, false, none, some, ok, bind_ok, Bool-cases,
  inl, inr, arith,
}
use foxhound.Schema.{Workflow, normal, is_queued}
use foxhound.Store.{find_workflow, write}
use foxhound.Tables.{Db, priority_raised}
use foxhound.Store.Rows.{Checked, write-true, find_workflow-key, find-replace_self}
use foxhound.Store.Frame.{Alike}
use foxhound.Scheduling.{invalid_state, manual_priority}
use foxhound.Scheduling.Rows.{raise_priority, Recommendation}
use foxhound.Scheduling.Prerequisite.{execution_priority_event}
use foxhound.Scheduling.Prerequisite.Frame.{execution_priority_event-found}
use foxhound.Scheduling.Prepare.{
  Prepared, blocked, ready, may_raise, raised_row, chosen_priority, raise_written, raise_target,
  prepare,
}
use foxhound.Scheduling.Change.Edges.{raise_target-Alike, ready_inj, ok_inj}

-- The row was queued at the expected version and at a normal priority that nobody chose, and is now
-- the raised one; no task was made, and nothing but workflows and events was written.
pub record Raises (r : Recommendation) (w : Workflow) (now : ℕ) (db : Db) (p : Prepared)
    : Type 0 where
  pub unchosen : chosen_priority w.queue_priority w.queue_priority_source ≡ false
  pub was_queued : is_queued w.status ≡ true
  pub at : w.version ≡ r.expected_workflow_version
  pub checked : Checked (raised_row (r.expected_workflow_version + 1) now w)
  pub row :
      find_workflow r.target_task_id p.db.workflows
      ≡ some (raised_row (r.expected_workflow_version + 1) now w)
  pub created : p.created ≡ none
  pub prior : p.prior ≡ some normal
  pub version : p.version ≡ r.expected_workflow_version + 1
  pub rest : Alike db p.db

prepared : ℕ → Db → Prepared
prepared version d = record {
  related = none;
  created = none;
  prior = some normal;
  version = version;
  db = d;
}

-- What the event leaves: the row, and the fields of the change.
record Written (id : ℕ) (v : Workflow) (version : ℕ) (p : Prepared) : Type 0 where
  kept : find_workflow id p.db.workflows ≡ some v
  none_made : p.created ≡ none
  was_normal : p.prior ≡ some normal
  next : p.version ≡ version

raise_written-Written :
    (id version now : ℕ) (db : Db) (v : Workflow) (p : Prepared)
    → find_workflow id db.workflows ≡ some v
    → raise_written id version now (true, db) ≡ ok (ready p)
    → Written id v version p
unfolding raise_written prepared
raise_written-Written id version now db v p f h =
    let (d, k, e) =
      bind_ok (execution_priority_event id version priority_raised now db)
        (λ d. ok (ready (prepared version d))) {out = ready p} h in
    let after = sym (execution_priority_event-found id version priority_raised now db v f) ∙ e in
    let same : db.workflows ≡ d.workflows = cc in
    subst (Written id v version) (ready_inj (ok_inj k)) (record {
      kept = subst (λ ws. find_workflow id ws ≡ some v) same f;
      none_made = refl;
      was_normal = refl;
      next = refl;
    })

raise_written-missed :
    (id version now : ℕ) (db : Db) (p : Prepared)
    → raise_written id version now (false, db) ≡ ok (ready p)
    → ⊥
unfolding raise_written
raise_written-missed id version now db p h =
    let e : blocked invalid_state ≡ ready p = ok_inj h in cc

may_raise-lem :
    (version now : ℕ) (w : Workflow)
    → may_raise version now w ≡ true
    → (w.version ≡ version) × (is_queued w.status ≡ true)
may_raise-lem version now w h = (ground (arith, h), ground (arith, h))

raise_target-Raises :
    (r : Recommendation) (w : Workflow) (now : ℕ) (db : Db) (p : Prepared)
    → find_workflow r.target_task_id db.workflows ≡ some w
    → raise_target r w now db ≡ ok (ready p)
    → Raises r w now db p
unfolding raise_target
raise_target-Raises r w now db p f h =
    elim (Bool-cases (chosen_priority w.queue_priority w.queue_priority_source)) [
      | inl e ↦ (let z : blocked manual_priority ≡ ready p = ok_inj (rw e at h) in cc)
      | inr e ↦
          let next = r.expected_workflow_version + 1 in
          let ((hit, d), k, g) =
            bind_ok
              (write r.target_task_id (may_raise r.expected_workflow_version now)
                (raised_row next now) db)
              (raise_written r.target_task_id next now) {out = ready p} (rw e at h) in
          by_hit hit d k g e
    ]
  where
    next : ℕ
    next = r.expected_workflow_version + 1

    by_hit :
        (hit : Bool) (d : Db)
        → raise_written r.target_task_id next now (hit, d) ≡ ok (ready p)
        → write r.target_task_id
            (may_raise r.expected_workflow_version now)
            (raised_row next now)
            db
          ≡ ok (hit, d)
        → chosen_priority w.queue_priority w.queue_priority_source ≡ false
        → Raises r w now db p
    by_hit false d k g e = absurd (raise_written-missed r.target_task_id next now d p k)
    by_hit true d k g e =
        let (u, fu, t, c, same) =
          write-true r.target_task_id (may_raise r.expected_workflow_version now)
            (raised_row next now) db {after = d} g in
        let own : u ≡ w = some_inj (sym fu ∙ f) in
        let (v, q) = may_raise-lem r.expected_workflow_version now u t in
        let key = find_workflow-key r.target_task_id db.workflows {w = u} fu in
        let found : find_workflow r.target_task_id d.workflows ≡ some (raised_row next now u) =
          ap (λ (x : Db). find_workflow r.target_task_id x.workflows) same
          ∙ find-replace_self r.target_task_id (raised_row next now u) db.workflows {w = u} key
              fu in
        let written =
          raise_written-Written r.target_task_id next now d (raised_row next now u) p found k in
        record {
          unchosen = e;
          was_queued = subst (λ (x : Workflow). is_queued x.status ≡ true) own q;
          at = subst (λ (x : Workflow). x.version ≡ r.expected_workflow_version) own v;
          checked = subst (λ x. Checked (raised_row next now x)) own c;
          row = written.kept ∙ ap (λ x. some (raised_row next now x)) own;
          created = written.none_made;
          prior = written.was_normal;
          version = written.next;
          rest = raise_target-Alike r w now db p h;
        }
      where
        some_inj : {x y : Workflow} → some x ≡ some y → x ≡ y
        some_inj z = cc

pub prepare-Raises :
    (r : Recommendation) (w : Workflow) (now : ℕ) (db : Db) (p : Prepared)
    → r.kind ≡ raise_priority
    → find_workflow r.target_task_id db.workflows ≡ some w
    → prepare r w now db ≡ ok (ready p)
    → Raises r w now db p
unfolding prepare
prepare-Raises r w now db p kind f h = raise_target-Raises r w now db p f (rw kind at h)
