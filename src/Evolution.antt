-- ===== src/Evolution.antt =====
-- How a database may change: what each statement of a transaction in task_execution.py keeps, for
-- histories of operations.
pub mod Calls
pub mod Rows
pub mod Claims
pub mod Steps
use foxhound.Prelude.{
  ℕ, ◌+◌, ◌≤◌, ◌≡◌, refl, sym, ap, subst, ◌∙◌, Bool, true, false, Option, none, some, List, [], ◌∷◌,
  ◌++◌, All, arith, Attempt, ok, raise, integrity_error, Bool-cases, Option-cases, ◌⊎◌, inl, inr,
  if◌then◌else◌, ◌==◌, ltb,
}
use foxhound.Schema.{Workflow, WorkflowPhase, WorkflowStatus, checks}
use foxhound.Store.{find_workflow, replace_workflow, write, event}
use foxhound.Tables.{Db, Event, EventKind}
use foxhound.Schedule.{insert_workflow}
use foxhound.Store.Rows.{
  Checked, Valid, moved, find_workflow-key, All-replace_workflow, find-replace_self,
  find-replace_ne, write-true, event-found,
}

-- The log of events only grows, no row is lost or goes back to an older version, and rows that pass
-- their CHECKs stay so.
pub record Evolves (a b : Db) : Type 0 where
  pub log : (es : List Event) × (b.events ≡ a.events ++ es)
  pub rises :
      (id : ℕ) {w : Workflow}
      → find_workflow id a.workflows ≡ some w
      → (v : Workflow) × (find_workflow id b.workflows ≡ some v) × (w.version ≤ v.version)
  pub sound : Valid a → Valid b

pub append_nil : (xs : List Event) → xs ++ [] ≡ xs
append_nil [] = refl
append_nil (x ∷ xs) = ap (λ (ys : List Event). x ∷ ys) (append_nil xs)

pub append_assoc : (xs ys zs : List Event) → (xs ++ ys) ++ zs ≡ xs ++ (ys ++ zs)
append_assoc [] ys zs = refl
append_assoc (x ∷ xs) ys zs = ap (λ (us : List Event). x ∷ us) (append_assoc xs ys zs)

-- Tables other than the workflows and their events do not count.
pub Evolves-same : (a b : Db) → b.workflows ≡ a.workflows → b.events ≡ a.events → Evolves a b
Evolves-same a b w e = record {
  log = ([], e ∙ sym (append_nil a.events));
  rises = λ id {w = u} f. (u, ap (find_workflow id) w ∙ f, omega arith);
  sound = λ v. record { rows = subst (All Checked) (sym w) v.rows };
}

pub Evolves-trans : (a b c : Db) → Evolves a b → Evolves b c → Evolves a c
Evolves-trans a b c f g =
    let (es, p) = f.log in
    let (fs, q) = g.log in
    record {
      log = (es ++ fs, q ∙ ap (λ (xs : List Event). xs ++ fs) p ∙ append_assoc a.events es fs);
      rises = λ id {w = w} h.
          let (v, k, l) = f.rises id {w = w} h in
          let (u, m, n) = g.rises id {w = v} k in (u, m, omega arith);
      sound = λ v. g.sound (f.sound v);
    }

-- One row replaced by one that is checked and no older, and events appended.
pub Evolves-replaced :
    (db : Db) (id : ℕ) (v : Workflow) (es : List Event) {w : Workflow}
    → find_workflow id db.workflows ≡ some w
    → v.task_id ≡ id
    → w.version ≤ v.version
    → Checked v
    → Evolves db
        (record db { workflows = replace_workflow id v db.workflows; events = db.events ++ es })
Evolves-replaced db id v es {w} f k l c = record {
  log = (es, refl);
  rises = λ i {w = u} h. row_after i u h (Bool-cases (id == i));
  sound = λ valid. record { rows = All-replace_workflow id v db.workflows valid.rows c };
}
  where
    same_row :
        (i : ℕ) (u : Workflow)
        → id ≡ i
        → find_workflow i db.workflows ≡ some u
        → (x : Workflow) × (find_workflow i (replace_workflow id v db.workflows) ≡ some x)
          × (u.version ≤ x.version)
    same_row i u e h = (
      v,
      subst (λ j. find_workflow j (replace_workflow id v db.workflows) ≡ some v) e
          (find-replace_self id v db.workflows k f),
      no_older (sym f ∙ ap (λ j. find_workflow j db.workflows) e ∙ h),
    )
      where
        no_older : some w ≡ some u → u.version ≤ v.version
        no_older p = ground arith

    row_after :
        (i : ℕ) (u : Workflow)
        → find_workflow i db.workflows ≡ some u
        → ((id == i) ≡ true) ⊎ ((id == i) ≡ false)
        → (x : Workflow) × (find_workflow i (replace_workflow id v db.workflows) ≡ some x)
          × (u.version ≤ x.version)
    row_after i u h (inl e) = same_row i u (ground arith) h
    row_after i u h (inr e) =
        (u, find-replace_ne id i v db.workflows k (λ q. ground arith) ∙ h, omega arith)

write-false :
    (id : ℕ) (test : Workflow → Bool) (change : Workflow → Workflow) (db : Db) {after : Db}
    → write id test change db ≡ ok (false, after)
    → after ≡ db
write-false id test change db {after} h = elim (Option-cases (find_workflow id db.workflows)) [
  | inl n ↦ unfold write in ground arith
  | inr (w, f) ↦ unfold write in ground arith
]

-- An UPDATE that keeps the key of its row and does not turn its version back.
pub Evolves-write :
    (id : ℕ) (test : Workflow → Bool) (change : Workflow → Workflow) (db : Db) (hit : Bool)
    {after : Db}
    → ((w : Workflow)
        → test w ≡ true
        → ((change w).task_id ≡ w.task_id) × (w.version ≤ (change w).version))
    → write id test change db ≡ ok (hit, after)
    → Evolves db after
Evolves-write id test change db false {after} grows h =
    subst (Evolves db) (sym (write-false id test change db h)) (Evolves-same db db refl refl)
Evolves-write id test change db true {after} grows h =
    let (w, f, t, c, e) = write-true id test change db h in
    let (k, l) = grows w t in
    let d = record db { workflows = replace_workflow id (change w) db.workflows } in
    subst (Evolves db) (sym e) (
      Evolves-trans db (record d { events = db.events ++ [] }) d
        (Evolves-replaced db id (change w) [] f (k ∙ find_workflow-key id db.workflows f) l c)
        (Evolves-same (record d { events = db.events ++ [] }) d refl (sym (append_nil db.events))))

-- One event appended to the log.
pub Evolves-noted : (db : Db) (x : Event) → Evolves db (record db { events = db.events ++ x ∷ [] })
Evolves-noted db x = record {
  log = (x ∷ [], refl);
  rises = λ i {w = u} f. (u, f, omega arith);
  sound = λ v. record { rows = v.rows };
}

-- `_event`.
pub Evolves-event :
    (id : ℕ) (kind : EventKind) (version task_version : ℕ) (phase : WorkflowPhase)
    (status : WorkflowStatus) (now : ℕ) (db : Db) {after : Db}
    → event id kind version task_version phase status now db ≡ ok after
    → Evolves db after
Evolves-event id kind version task_version phase status now db {after} h =
    elim (Option-cases (find_workflow id db.workflows)) [
      | inl n ↦ absurd (no_row n)
      | inr (w, f) ↦
          let e = event-found id kind version task_version phase status now db w f in
          subst (Evolves db) (same_db e) (Evolves-noted db _)
    ]
  where
    no_row : find_workflow id db.workflows ≡ none → ⊥
    no_row n = unfold event in ground arith

    same_db : {d : Db} → event id kind version task_version phase status now db ≡ ok d → d ≡ after
    same_db e = cc

find-insert_ne :
    (i : ℕ) (v : Workflow) (ws : List Workflow) {w : Workflow}
    → find_workflow v.task_id ws ≡ none
    → find_workflow i ws ≡ some w
    → find_workflow i (insert_workflow v ws) ≡ some w
unfolding find_workflow insert_workflow
find-insert_ne i v [] n f = cc
find-insert_ne i v (u ∷ us) {w} n f = ground (arith, find-insert_ne i v us {w = w})

All-insert_workflow :
    (v : Workflow) (ws : List Workflow)
    → All Checked ws
    → Checked v
    → All Checked (insert_workflow v ws)
unfolding insert_workflow
All-insert_workflow v [] h c = (c, tt)
All-insert_workflow v (w ∷ ws) h c = elim (Bool-cases (ltb v.task_id w.task_id)) [
  | inl e ↦ rw e (c, h)
  | inr e ↦ rw e (h.0, All-insert_workflow v ws h.1 c)
]

-- A checked row inserted at a key that the table did not have, and events appended.
pub Evolves-inserted :
    (db : Db) (v : Workflow) (es : List Event)
    → find_workflow v.task_id db.workflows ≡ none
    → Checked v
    → Evolves db
        (record db { workflows = insert_workflow v db.workflows; events = db.events ++ es })
Evolves-inserted db v es n c = record {
  log = (es, refl);
  rises = λ i {w = u} f. (u, find-insert_ne i v db.workflows n f, omega arith);
  sound = λ valid. record { rows = All-insert_workflow v db.workflows valid.rows c };
}
