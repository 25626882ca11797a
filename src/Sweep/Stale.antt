-- ===== src/Sweep/Stale.antt =====
-- `_cancel_stale` of task_execution.py over a whole table.
use foxhound.Prelude.{
  ℕ, ◌+◌, ◌≡◌, ◌≢◌, refl, sym, ap, subst, ◌∙◌, Bool, true, false, List, [], ◌∷◌, ◌++◌, All, arith,
  if◌then◌else◌, none, some, ok, ◌==◌, Bool-cases, inl, inr,
}
use foxhound.Schema.{Workflow, checks, run_id_column}
use foxhound.Schema.WorkflowStatus.{cancelled}
use foxhound.Store.{find_workflow, replace_workflow, source_withdrawn}
use foxhound.Tables.{Db, Event, EventKind}
use foxhound.Store.Rows.{Checked, Valid, moved, event_row, write-applies, event-replaced}
use foxhound.Sweep.{is_stale, select_rows, cancelled_row, cancel_one, cancel_rows, cancel_stale}

-- `task_id` is the primary key: no two rows share it.
abbrev pub Fresh : ℕ → List Workflow → Type 0
Fresh id ws = All (λ (v : Workflow). v.task_id ≢ id) ws

abbrev pub Keyed : List Workflow → Type 0
Keyed [] = Unit
Keyed (w ∷ ws) = Fresh w.task_id ws × Keyed ws

-- The table after the sweep, and the events that it appends, as maps over the rows.
unfoldable pub swept_rows : (Workflow → Bool) → ℕ → List Workflow → List Workflow
swept_rows p now [] = []
swept_rows p now (w ∷ ws) = (if p w then cancelled_row now w else w) ∷ swept_rows p now ws

unfoldable pub swept_events : ℕ → List Workflow → List Event
swept_events now [] = []
swept_events now (w ∷ ws) =
    event_row w.task_id EventKind.cancelled (w.version + 1) w.task_version w.phase cancelled now w
    ∷ swept_events now ws

find-append :
    (id : ℕ) (pre : List Workflow) (w : Workflow) (ws : List Workflow)
    → Fresh id pre
    → w.task_id ≡ id
    → find_workflow id (pre ++ w ∷ ws) ≡ some w
unfolding find_workflow
find-append id [] w ws f k = ground arith
find-append id (v ∷ vs) w ws f k = let h = find-append id vs w ws f.1 k in ground arith

replace-append :
    (id : ℕ) (x : Workflow) (pre : List Workflow) (w : Workflow) (ws : List Workflow)
    → Fresh id pre
    → w.task_id ≡ id
    → replace_workflow id x (pre ++ w ∷ ws) ≡ pre ++ x ∷ ws
unfolding replace_workflow
replace-append id x [] w ws f k = ground arith
replace-append id x (v ∷ vs) w ws f k = let h = replace-append id x vs w ws f.1 k in ground arith

append_one :
    (pre : List Workflow) (w : Workflow) (ws : List Workflow)
    → pre ++ w ∷ ws ≡ (pre ++ w ∷ []) ++ ws
append_one [] w ws = refl
append_one (v ∷ pre) w ws = ap (λ (us : List Workflow). v ∷ us) (append_one pre w ws)

Fresh-append_one :
    (id : ℕ) (pre : List Workflow) (x : Workflow)
    → Fresh id pre
    → x.task_id ≢ id
    → Fresh id (pre ++ x ∷ [])
Fresh-append_one id [] x h p = (p, tt)
Fresh-append_one id (v ∷ pre) x h p = (h.0, Fresh-append_one id pre x h.1 p)

-- No row of the first list shares its key with a row of the second.
abbrev Apart : List Workflow → List Workflow → Type 0
Apart pre ws = All (λ (u : Workflow). Fresh u.task_id pre) ws

Apart-append_one :
    (pre : List Workflow) (x : Workflow) (ws : List Workflow)
    → Apart pre ws
    → Fresh x.task_id ws
    → Apart (pre ++ x ∷ []) ws
Apart-append_one pre x [] h k = tt
Apart-append_one pre x (w ∷ ws) h k =
    (Fresh-append_one w.task_id pre x h.0 (λ e. k.0 (sym e)), Apart-append_one pre x ws h.1 k.1)

append_nil {ℓ} : {A : Type ℓ} (xs : List A) → xs ++ [] ≡ xs
append_nil [] = refl
append_nil {A = A} (x ∷ xs) = ap (λ (ys : List A). x ∷ ys) (append_nil xs)

events_assoc : (xs : List Event) (e : Event) (es : List Event) → (xs ++ e ∷ []) ++ es ≡ xs ++ e ∷ es
events_assoc [] e es = refl
events_assoc (x ∷ xs) e es = ap (λ (us : List Event). x ∷ us) (events_assoc xs e es)

no_run_id : run_id_column none ≡ true
unfolding run_id_column
no_run_id = refl

cancelled_row-Checked : (now : ℕ) (w : Workflow) → Checked w → Checked (cancelled_row now w)
unfolding checks
cancelled_row-Checked now w c = ground (arith, no_run_id)

cancel_one-applied :
    (now : ℕ) (w : Workflow) (db : Db)
    → Checked w
    → find_workflow w.task_id db.workflows ≡ some w
    → cancel_one now w db
      ≡ ok (
          moved db w.task_id (cancelled_row now w) (
            event_row w.task_id EventKind.cancelled
              (w.version + 1)
              w.task_version
              w.phase
              cancelled
              now
              w))
unfolding cancel_one
cancel_one-applied now w db c f =
    rw
      (write-applies w.task_id (λ r. r.version == w.version) (cancelled_row now) db f (ground arith)
        (cancelled_row-Checked now w c))
      (rw (
        event-replaced w.task_id EventKind.cancelled (w.version + 1) w.task_version w.phase
          cancelled now db (cancelled_row now w) refl f))

-- The database with these rows and these further events.
abbrev with_rows : Db → List Workflow → List Event → Db
with_rows db ws es = record db { workflows = ws; events = db.events ++ es }

cancel_rows-map :
    (p : Workflow → Bool) (now : ℕ) (pre ws : List Workflow) (db : Db)
    → db.workflows ≡ pre ++ ws
    → All Checked ws
    → Keyed ws
    → Apart pre ws
    → cancel_rows now (select_rows p ws) db
      ≡ ok (with_rows db (pre ++ swept_rows p now ws) (swept_events now (select_rows p ws)))
unfolding cancel_rows select_rows swept_rows swept_events
cancel_rows-map p now pre [] db h c k a =
    ap (λ (ws : List Workflow). ok (record db { workflows = ws })) h
    ∙ ap (λ (es : List Event). ok (record db { workflows = pre ++ []; events = es }))
        (sym (append_nil db.events))
cancel_rows-map p now pre (w ∷ ws) db h c k a = elim (Bool-cases (p w)) [
  | inr e ↦ rw e (
      cancel_rows-map p now (pre ++ w ∷ []) ws db (h ∙ append_one pre w ws) c.1 k.1
        (Apart-append_one pre w ws a.1 k.0)
      ∙ ap (λ (us : List Workflow). ok (with_rows db us (swept_events now (select_rows p ws))))
          (sym (append_one pre w (swept_rows p now ws))))
  | inl e ↦
      let x = cancelled_row now w in
      let ev =
        event_row w.task_id EventKind.cancelled (w.version + 1) w.task_version w.phase cancelled now
          w in
      let f = ap (find_workflow w.task_id) h ∙ find-append w.task_id pre w ws a.0 refl in
      let g =
        ap (replace_workflow w.task_id x) h
        ∙ replace-append w.task_id x pre w ws a.0 refl
        ∙ append_one pre x ws in
      rw e (
        rw (cancel_one-applied now w db c.0 f) (
          cancel_rows-map p now (pre ++ x ∷ []) ws (moved db w.task_id x ev) g c.1 k.1
            (Apart-append_one pre x ws a.1 k.0)
          ∙ ap
              (λ (us : List Workflow).
                ok (with_rows (moved db w.task_id x ev) us (swept_events now (select_rows p ws))))
              (sym (append_one pre x (swept_rows p now ws)))
          ∙ ap
              (λ (es : List Event).
                ok (record db { workflows = pre ++ x ∷ swept_rows p now ws; events = es }))
              (events_assoc db.events ev (swept_events now (select_rows p ws)))))
]

Apart-nil : (ws : List Workflow) → Apart [] ws
Apart-nil [] = tt
Apart-nil (w ∷ ws) = (tt, Apart-nil ws)

pub cancel_stale-map :
    (now : ℕ) (db : Db)
    → Valid db
    → Keyed db.workflows
    → cancel_stale now db
      ≡ ok (record db {
        workflows = swept_rows (is_stale db) now db.workflows;
        events = db.events ++ swept_events now (select_rows (is_stale db) db.workflows);
      })
unfolding cancel_stale
cancel_stale-map now db v k =
    cancel_rows-map (is_stale db) now [] db.workflows db refl v.rows k (Apart-nil db.workflows)

swept_row-fresh :
    (db : Db) (now : ℕ) (w : Workflow)
    → is_stale db (if is_stale db w then cancelled_row now w else w) ≡ false
swept_row-fresh db now w = elim (Bool-cases (is_stale db w)) [
  | inl e ↦ rw e (unfold is_stale in refl)
  | inr e ↦ subst (λ b. is_stale db (if b then cancelled_row now w else w) ≡ false) (sym e) e
]

-- No row is stale after the sweep.
swept_rows-fresh :
    (db : Db) (now : ℕ) (ws : List Workflow)
    → All (λ (w : Workflow). is_stale db w ≡ false) (swept_rows (is_stale db) now ws)
unfolding swept_rows
swept_rows-fresh db now [] = tt
swept_rows-fresh db now (w ∷ ws) = (swept_row-fresh db now w, swept_rows-fresh db now ws)

select_rows-none :
    (p : Workflow → Bool) (ws : List Workflow)
    → All (λ (w : Workflow). p w ≡ false) ws
    → select_rows p ws ≡ []
unfolding select_rows
select_rows-none p [] h = refl
select_rows-none p (w ∷ ws) h = rw (h.0) (select_rows-none p ws h.1)

-- What the sweep read of the tasks, it reads again: the sweep is settled after one pass.
settled :
    (db : Db) (rows : List Workflow) (events : List Event) (now : ℕ)
    → All (λ (w : Workflow). is_stale db w ≡ false) rows
    → cancel_stale now (record db { workflows = rows; events = events })
      ≡ ok (record db { workflows = rows; events = events })
unfolding cancel_stale is_stale cancel_rows
settled db rows events now h =
    ap
      (λ (ws : List Workflow). cancel_rows now ws (record db { workflows = rows; events = events }))
      (select_rows-none (is_stale (record db { workflows = rows; events = events })) rows
        (unfold is_stale source_withdrawn in h))

-- The sweep is done in one pass: run again, at whatever time, it finds nothing and changes nothing.
pub cancel_stale-settles :
    (now later : ℕ) (db : Db) {after : Db}
    → Valid db
    → Keyed db.workflows
    → cancel_stale now db ≡ ok after
    → cancel_stale later after ≡ ok after
cancel_stale-settles now later db {after} v k h =
    let rows = swept_rows (is_stale db) now db.workflows in
    let events = db.events ++ swept_events now (select_rows (is_stale db) db.workflows) in
    let e : after ≡ record db { workflows = rows; events = events } =
      (let q = cancel_stale-map now db v k in cc) in
    subst (λ (d : Db). cancel_stale later d ≡ ok d) (sym e)
      (settled db rows events later (swept_rows-fresh db now db.workflows))
