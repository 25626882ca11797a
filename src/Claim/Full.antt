-- ===== src/Claim/Full.antt =====
-- No row of the ready query of `claim_next` of task_execution.py is lost before the scan, but for the LIMIT.
use foxhound.Prelude.{
  ℕ, zero, suc, ◌≤◌, ◌<◌, ◌≡◌, refl, sym, subst, ap, ◌∙◌, Bool, true, false, Option, none, some,
  List, [], ◌∷◌, length, leb, arith, ◌⊎◌, inl, inr, Bool-cases, if◌then◌else◌,
}
use mathlib.Core.List.{Memᴰ}
use foxhound.Schema.{
  Workflow, WorkflowPhase, plan, execute, external_action, queued, parked, same_phase,
}
use foxhound.Tables.{Db, Task}
use foxhound.Store.{find_task}
use foxhound.Sweep.{select_rows}
use foxhound.Claim.{
  Advice, lex_leb, insert_row, sort_rows, take_rows, candidates, is_candidate, is_ready,
  current_task, phase_listed, queue_key, effective_key,
}
use foxhound.Claim.Order.{length-sort_rows}
use foxhound.Claim.Queue.{Ready}

select_rows-Memᴰ :
    (p : Workflow → Bool) (x : Workflow) (ws : List Workflow)
    → p x ≡ true
    → Memᴰ x ws
    → Memᴰ x (select_rows p ws)
unfolding select_rows
select_rows-Memᴰ p x [] h m = elim m [ ]
select_rows-Memᴰ p x (w ∷ ws) h m = elim (Bool-cases (p w)) [
  | inl e ↦
      rw e (elim m [
        | Memᴰ.head z ↦ Memᴰ.head z
        | Memᴰ.tail n ↦ Memᴰ.tail (select_rows-Memᴰ p x ws h n)
      ])
  | inr e ↦ rw e (elim m [
    | Memᴰ.head z ↦ (let k : true ≡ false = sym h ∙ ap p z ∙ e in cc)
    | Memᴰ.tail n ↦ select_rows-Memᴰ p x ws h n
  ])
]

insert_row-Memᴰ :
    (key : Workflow → List ℕ) (x w : Workflow) (ws : List Workflow)
    → Memᴰ x (w ∷ ws)
    → Memᴰ x (insert_row key w ws)
unfolding insert_row
insert_row-Memᴰ key x w [] m = m
insert_row-Memᴰ key x w (v ∷ vs) m = elim (Bool-cases (lex_leb (key w) (key v))) [
  | inl e ↦ rw e m
  | inr e ↦ rw e (elim m [
    | Memᴰ.head z ↦ Memᴰ.tail (insert_row-Memᴰ key x w vs (Memᴰ.head z))
    | Memᴰ.tail n ↦ elim n [
      | Memᴰ.head z ↦ Memᴰ.head z
      | Memᴰ.tail k ↦ Memᴰ.tail (insert_row-Memᴰ key x w vs (Memᴰ.tail k))
    ]
  ])
]

sort_rows-Memᴰ :
    (key : Workflow → List ℕ) (x : Workflow) (ws : List Workflow)
    → Memᴰ x ws
    → Memᴰ x (sort_rows key ws)
unfolding sort_rows
sort_rows-Memᴰ key x [] m = m
sort_rows-Memᴰ key x (w ∷ ws) m =
    insert_row-Memᴰ key x w (sort_rows key ws)
      (elim m [ Memᴰ.head z ↦ Memᴰ.head z | Memᴰ.tail n ↦ Memᴰ.tail (sort_rows-Memᴰ key x ws n) ])

take_rows-Memᴰ :
    (n : ℕ) (x : Workflow) (ws : List Workflow)
    → length (take_rows n ws) < n
    → Memᴰ x ws
    → Memᴰ x (take_rows n ws)
unfolding take_rows
take_rows-Memᴰ zero x ws l m = absurd (omega arith)
take_rows-Memᴰ (suc n) x [] l m = m
take_rows-Memᴰ (suc n) x (w ∷ ws) l m = elim m [
  | Memᴰ.head z ↦ Memᴰ.head z
  | Memᴰ.tail k ↦ Memᴰ.tail (take_rows-Memᴰ n x ws (omega arith) k)
]

same_phase_refl : (p : WorkflowPhase) → same_phase p p ≡ true
same_phase_refl plan = refl
same_phase_refl execute = refl
same_phase_refl external_action = refl

Memᴰ-phase_listed :
    (p : WorkflowPhase) (ps : List WorkflowPhase) → Memᴰ p ps → phase_listed p ps ≡ true
unfolding phase_listed
Memᴰ-phase_listed p [] m = elim m [ ]
Memᴰ-phase_listed p (q ∷ qs) m = elim m [
  | Memᴰ.head z ↦
      let k : same_phase p q ≡ true = subst (λ x. same_phase p x ≡ true) z (same_phase_refl p) in
      rw k refl
  | Memᴰ.tail n ↦ let k = Memᴰ-phase_listed p qs n in ground (arith, k)
]

ready_lem :
    (w : Workflow) (now : ℕ)
    → ((w.status ≡ queued) × (w.next_attempt_at ≡ none))
      ⊎ (((w.status ≡ queued) ⊎ (w.status ≡ parked))
          × ((at : ℕ) × (w.next_attempt_at ≡ some at) × (at ≤ now)))
    → is_ready w now ≡ true
ready_lem w now (inl (s, n)) = rw s (rw n refl)
ready_lem w now (inr (inl s, (at, n, l))) =
    let k : leb at now ≡ true = ground (arith, l) in ground (arith, s, n, k)
ready_lem w now (inr (inr s, (at, n, l))) =
    let k : leb at now ≡ true = ground (arith, l) in ground (arith, s, n, k)

Ready-is_candidate :
    (db : Db) (phases : List WorkflowPhase) (now : ℕ) (w : Workflow)
    → Ready db phases now w
    → is_candidate db phases now w ≡ true
Ready-is_candidate db phases now w (t, f, o, v, m, r) =
    let a = ready_lem w now r in
    let b = Memᴰ-phase_listed w.phase phases m in
    let c : current_task (some t) w ≡ true = ground (arith, o, v) in
    let d : current_task (find_task w.task_id db.tasks) w ≡ true =
      subst (λ (x : Option Task). current_task x w ≡ true) (sym f) c in
    rw a (rw b (rw d refl))

reordered-Memᴰ :
    (key : Workflow → List ℕ) (x : Workflow) (rows : List Workflow) (b : Bool)
    → ((length rows < 50) → Memᴰ x rows)
    → let out = if b then sort_rows key rows else rows in length out < 50 → Memᴰ x out
reordered-Memᴰ key x rows false h l = h l
reordered-Memᴰ key x rows true h l =
    sort_rows-Memᴰ key x rows (h (subst (λ n. n < 50) (length-sort_rows key rows) l))

-- A pass below the limit leaves out no ready row.
pub candidates-full :
    (a : Advice) (db : Db) (phases : List WorkflowPhase) (now : ℕ) (w : Workflow)
    → length (candidates a db phases now) < 50
    → Memᴰ w db.workflows
    → Ready db phases now w
    → Memᴰ w (candidates a db phases now)
unfolding candidates
candidates-full a db phases now w l m r =
    let chosen = select_rows (is_candidate db phases now) db.workflows in
    let sorted = sort_rows (queue_key a db now) chosen in
    reordered-Memᴰ (effective_key a db now) w (take_rows 50 sorted) a.deadline_ordering
      (λ k. take_rows-Memᴰ 50 w sorted k (
        sort_rows-Memᴰ (queue_key a db now) w chosen (
          select_rows-Memᴰ (is_candidate db phases now) w db.workflows
            (Ready-is_candidate db phases now w r) m)))
      l
