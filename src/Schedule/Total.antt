-- ===== src/Schedule/Total.antt =====
-- Every branch of `schedule` of task_execution.py, on a table whose rows pass their CHECKs.
use foxhound.Prelude.{
  ℕ, ◌≤◌, ◌≡◌, refl, sym, subst, Bool, true, false, not, Option, none, some, arith, Attempt, ok,
  raise, Fault, ◌>>=◌, Bool-cases, Option-cases, ◌⊎◌, inl, inr,
}
use foxhound.Schema.{Workflow, open_task}
use foxhound.Store.{find_task, find_workflow, origin_kind, source_withdrawn}
use foxhound.Tables.{Db, Task}
use foxhound.Operation.{
  OperationResult, Refuses, invalid_argument, not_found, applied, unchanged, refuse, operation,
  valid_identity,
}
use foxhound.Profiles.{AgentProfile}
use foxhound.Service.{Service}
use foxhound.Schedule.{
  Ownership, profile_for, schedule_profile, keeps_row, schedule_row, schedule_guard, schedule_task,
  schedule,
}
use foxhound.Schedule.Planned.{planned_db, planned_row, schedule_profile-applied}

-- Why the call stopped: the operator routes this kind of task to a profile that is not installed.
abbrev pub Unrouted : Service → Attempt (OperationResult × Db) → Db → ℕ → Type 0
Unrouted s m db id = (e : Fault) × (profile_for s (origin_kind db id) ≡ raise e) × (m ≡ raise e)

-- The workflow is not done with, and stays as it is.
abbrev pub Stays : Attempt (OperationResult × Db) → Db → ℕ → ℕ → ℕ → Type 0
Stays m db id expected now =
    (w : Workflow) × (find_workflow id db.workflows ≡ some w)
    × (keeps_row now expected w ≡ true)
    × (m ≡ ok (operation w unchanged, db))

abbrev pub done_with : ℕ → ℕ → Option Workflow → Bool
done_with now version none = true
done_with now version (some w) = not (keeps_row now version w)

-- The workflow is made, or begun again, for this version of its open task.
abbrev pub Plans : Service → Ownership → Attempt (OperationResult × Db) → Db → ℕ → ℕ → ℕ → Type 0
Plans s o m db id expected now =
    (t : Task) × (p : AgentProfile) × (find_task id db.tasks ≡ some t)
    × (t.version ≡ expected)
    × (t.status ≡ open_task)
    × (source_withdrawn db id ≡ false)
    × (profile_for s (origin_kind db id) ≡ ok p)
    × (done_with now expected (find_workflow id db.workflows) ≡ true)
    × (let row = find_workflow id db.workflows in
        m
        ≡ ok (
          operation (planned_row s o db id now t row p) applied,
          planned_db s o db id now t row p,
        ))

-- Past the guard: no row, or a row that is done with.
planned_total :
    (s : Service) (o : Ownership) (now id : ℕ) (t : Task) (row : Option Workflow) (db : Db)
    → 1 ≤ t.version
    → find_workflow id db.workflows ≡ row
    → find_task id db.tasks ≡ some t
    → t.status ≡ open_task
    → source_withdrawn db id ≡ false
    → done_with now t.version (find_workflow id db.workflows) ≡ true
    → let m =
        (profile_for s (origin_kind db id)
          >>= schedule_profile s o now id t (origin_kind db id) row db) in
      Unrouted s m db id ⊎ Plans s o m db id t.version now
planned_total s o now id t row db l f g op w d = by_profile (profile_for s (origin_kind db id)) refl
  where
    by_profile :
        (x : Attempt AgentProfile)
        → profile_for s (origin_kind db id) ≡ x
        → let m =
            (profile_for s (origin_kind db id)
              >>= schedule_profile s o now id t (origin_kind db id) row db) in
          Unrouted s m db id ⊎ Plans s o m db id t.version now
    by_profile (raise e) k = inl (e, k, rw k)
    by_profile (ok p) k = inr (
      t,
      p,
      g,
      refl,
      op,
      w,
      k,
      d,
      rw k (rw f (schedule_profile-applied s o now id t row db p l f)),
    )

schedule_row_total :
    (s : Service) (o : Ownership) (now id : ℕ) (t : Task) (row : Option Workflow) (db : Db)
    → 1 ≤ t.version
    → find_workflow id db.workflows ≡ row
    → find_task id db.tasks ≡ some t
    → t.status ≡ open_task
    → source_withdrawn db id ≡ false
    → let m = schedule_row s o now id t row db in
      Stays m db id t.version now ⊎ Unrouted s m db id ⊎ Plans s o m db id t.version now
unfolding schedule_row
schedule_row_total s o now id t none db l f g op w =
    inr (planned_total s o now id t none db l f g op w (rw f refl))
schedule_row_total s o now id t (some v) db l f g op w =
    elim (Bool-cases (keeps_row now t.version v)) [
      | inl k ↦ inl (v, f, k, ground arith)
      | inr k ↦
          let e : schedule_row s o now id t (some v) db ≡ (
              profile_for s (origin_kind db id)
              >>= schedule_profile s o now id t (origin_kind db id) (some v) db) =
            ground arith in
          inr (
            subst (λ m. Unrouted s m db id ⊎ Plans s o m db id t.version now) (sym e)
              (planned_total s o now id t (some v) db l f g op w (rw f (ground arith))))
    ]

schedule_guard-parts :
    (db : Db) (id expected : ℕ) (t : Task)
    → schedule_guard db id expected t ≡ none
    → (t.version ≡ expected) × (t.status ≡ open_task) × (source_withdrawn db id ≡ false)
schedule_guard-parts db id expected t h = (ground arith, ground arith, ground arith)

schedule_task_total :
    (s : Service) (o : Ownership) (now id expected : ℕ) (c : Option Task) (db : Db)
    → 1 ≤ expected
    → find_task id db.tasks ≡ c
    → let m = schedule_task s o now id expected c db in
      Refuses m db
      ⊎ Stays m db id expected now
      ⊎ Unrouted s m db id
      ⊎ Plans s o m db id expected now
unfolding schedule_task
schedule_task_total s o now id expected none db l f = inl (refuse id not_found, refl, refl)
schedule_task_total s o now id expected (some t) db l f =
    elim (Option-cases (schedule_guard db id expected t)) [
      | inr (r, p) ↦ inl (refuse id r, rw (p, schedule_task), refl)
      | inl p ↦
          let g = schedule_guard-parts db id expected t p in
          let e : schedule_task s o now id expected (some t) db
              ≡ schedule_row s o now id t (find_workflow id db.workflows) db =
            rw (p, schedule_task) in
          inr (
            subst
              (λ m.
                Stays m db id expected now ⊎ Unrouted s m db id ⊎ Plans s o m db id expected now)
              (sym e)
              (subst
                (λ n.
                  let m = schedule_row s o now id t (find_workflow id db.workflows) db in
                  Stays m db id n now ⊎ Unrouted s m db id ⊎ Plans s o m db id n now)
                g.0
                (schedule_row_total s o now id t (find_workflow id db.workflows) db (omega arith)
                  refl f g.1 g.2)))
    ]

-- `schedule`, by its branches.
pub schedule_total :
    (s : Service) (o : Ownership) (now id expected : ℕ) (db : Db)
    → let m = schedule s o now id expected db in
      Refuses m db
      ⊎ Stays m db id expected now
      ⊎ Unrouted s m db id
      ⊎ Plans s o m db id expected now
unfolding schedule
schedule_total s o now id expected db = elim (Bool-cases (valid_identity id expected)) [
  | inr p ↦ inl (refuse id invalid_argument, rw p, refl)
  | inl p ↦
      rw p (schedule_task_total s o now id expected (find_task id db.tasks) db (ground arith) refl)
]
