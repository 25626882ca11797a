-- ===== src/Claim/Order.antt =====
-- The order in which `claim_next` of task_execution.py tries its candidates.
use foxhound.Prelude.{
  ℕ, zero, suc, ◌≤◌, ◌≡◌, refl, Bool, true, false, List, [], ◌∷◌, length, All, arith, if◌then◌else◌,
  Bool-cases, inl, inr,
}
use foxhound.Schema.{Workflow, WorkflowPhase}
use foxhound.Tables.{Db}
use foxhound.Sweep.{select_rows}
use foxhound.Claim.{
  Advice, lex_leb, insert_row, sort_rows, take_rows, candidates, is_candidate, queue_key,
  effective_key,
}

-- Each row's key is at most the key of every row after it.
abbrev pub Sorted : (Workflow → List ℕ) → List Workflow → Type 0
Sorted key [] = Unit
Sorted key (w ∷ ws) = All (λ (v : Workflow). lex_leb (key w) (key v) ≡ true) ws × Sorted key ws

lex_leb_total : (xs ys : List ℕ) → lex_leb xs ys ≡ false → lex_leb ys xs ≡ true
unfolding lex_leb
lex_leb_total [] ys h = cc
lex_leb_total (x ∷ xs) [] h = refl
lex_leb_total (x ∷ xs) (y ∷ ys) h = ground (arith, lex_leb_total xs ys)

lex_leb_trans :
    (xs ys zs : List ℕ) → lex_leb xs ys ≡ true → lex_leb ys zs ≡ true → lex_leb xs zs ≡ true
unfolding lex_leb
lex_leb_trans [] ys zs h k = refl
lex_leb_trans (x ∷ xs) [] zs h k = cc
lex_leb_trans (x ∷ xs) (y ∷ ys) [] h k = cc
lex_leb_trans (x ∷ xs) (y ∷ ys) (z ∷ zs) h k = ground (arith, lex_leb_trans xs ys zs)

module _ (P : Workflow → Type 0) where
  All-insert_row :
      (key : Workflow → List ℕ) (w : Workflow) (ws : List Workflow)
      → P w
      → All P ws
      → All P (insert_row key w ws)
  unfolding insert_row
  All-insert_row key w [] p h = (p, h)
  All-insert_row key w (v ∷ vs) p h = elim (Bool-cases (lex_leb (key w) (key v))) [
    | inl e ↦ rw e (p, h)
    | inr e ↦ rw e (h.0, All-insert_row key w vs p h.1)
  ]

  All-sort_rows :
      (key : Workflow → List ℕ) (ws : List Workflow) → All P ws → All P (sort_rows key ws)
  unfolding sort_rows
  All-sort_rows key [] h = h
  All-sort_rows key (w ∷ ws) h =
      All-insert_row key w (sort_rows key ws) h.0 (All-sort_rows key ws h.1)

  All-take_rows : (n : ℕ) (ws : List Workflow) → All P ws → All P (take_rows n ws)
  unfolding take_rows
  All-take_rows zero ws h = tt
  All-take_rows (suc n) [] h = tt
  All-take_rows (suc n) (w ∷ ws) h = (h.0, All-take_rows n ws h.1)

All-weaken :
    (key : Workflow → List ℕ) (w v : Workflow) (ws : List Workflow)
    → lex_leb (key w) (key v) ≡ true
    → All (λ (u : Workflow). lex_leb (key v) (key u) ≡ true) ws
    → All (λ (u : Workflow). lex_leb (key w) (key u) ≡ true) ws
All-weaken key w v [] e h = tt
All-weaken key w v (u ∷ us) e h =
    (lex_leb_trans (key w) (key v) (key u) e h.0, All-weaken key w v us e h.1)

Sorted-insert_row :
    (key : Workflow → List ℕ) (w : Workflow) (ws : List Workflow)
    → Sorted key ws
    → Sorted key (insert_row key w ws)
unfolding insert_row
Sorted-insert_row key w [] h = (tt, tt)
Sorted-insert_row key w (v ∷ vs) h = elim (Bool-cases (lex_leb (key w) (key v))) [
  | inl e ↦ rw e ((e, All-weaken key w v vs e h.0), h)
  | inr e ↦ rw e (
    All-insert_row (λ (u : Workflow). lex_leb (key v) (key u) ≡ true) key w vs
        (lex_leb_total (key w) (key v) e) h.0,
    Sorted-insert_row key w vs h.1,
  )
]

-- The sort puts the rows in order.
Sorted-sort_rows : (key : Workflow → List ℕ) (ws : List Workflow) → Sorted key (sort_rows key ws)
unfolding sort_rows
Sorted-sort_rows key [] = tt
Sorted-sort_rows key (w ∷ ws) = Sorted-insert_row key w (sort_rows key ws) (Sorted-sort_rows key ws)

Sorted-take_rows :
    (key : Workflow → List ℕ) (n : ℕ) (ws : List Workflow)
    → Sorted key ws
    → Sorted key (take_rows n ws)
unfolding take_rows
Sorted-take_rows key zero ws h = tt
Sorted-take_rows key (suc n) [] h = tt
Sorted-take_rows key (suc n) (w ∷ ws) h = (
  All-take_rows (λ (v : Workflow). lex_leb (key w) (key v) ≡ true) n ws h.0,
  Sorted-take_rows key n ws h.1,
)

All-select_rows :
    (p : Workflow → Bool) (ws : List Workflow)
    → All (λ (w : Workflow). p w ≡ true) (select_rows p ws)
unfolding select_rows
All-select_rows p [] = tt
All-select_rows p (w ∷ ws) = elim (Bool-cases (p w)) [
  | inl e ↦ rw e (e, All-select_rows p ws)
  | inr e ↦ rw e (All-select_rows p ws)
]

length-take_rows : (n : ℕ) (ws : List Workflow) → length (take_rows n ws) ≤ n
unfolding take_rows
length-take_rows zero ws = omega arith
length-take_rows (suc n) [] = omega arith
length-take_rows (suc n) (w ∷ ws) = let h = length-take_rows n ws in omega arith

length-insert_row :
    (key : Workflow → List ℕ) (w : Workflow) (ws : List Workflow)
    → length (insert_row key w ws) ≡ suc (length ws)
unfolding insert_row
length-insert_row key w [] = refl
length-insert_row key w (v ∷ vs) = ground (arith, length-insert_row key w vs)

pub length-sort_rows :
    (key : Workflow → List ℕ) (ws : List Workflow) → length (sort_rows key ws) ≡ length ws
unfolding sort_rows
length-sort_rows key [] = refl
length-sort_rows key (w ∷ ws) =
    let h = length-sort_rows key ws in rw (length-insert_row key w (sort_rows key ws)) (omega arith)

abbrev pub claim_key : Advice → Db → ℕ → Workflow → List ℕ
claim_key a db now = if a.deadline_ordering then effective_key a db now else queue_key a db now

-- The second sort keeps the rows, or is not made.
reordered :
    (P : Workflow → Type 0) (key key' : Workflow → List ℕ) (rows : List Workflow) (n : ℕ) (b : Bool)
    → All P rows
    → Sorted key rows
    → length rows ≤ n
    → let out = if b then sort_rows key' rows else rows in
      All P out × Sorted (if b then key' else key) out × (length out ≤ n)
reordered P key key' rows n false h s l = (h, s, l)
reordered P key key' rows n true h s l =
    (All-sort_rows P key' rows h, Sorted-sort_rows key' rows, rw (length-sort_rows key' rows) l)

-- The candidates pass the ready query, and stand in the order of its key.
pub candidates-Sorted :
    (a : Advice) (db : Db) (phases : List WorkflowPhase) (now : ℕ)
    → All (λ (w : Workflow). is_candidate db phases now w ≡ true) (candidates a db phases now)
      × Sorted (claim_key a db now) (candidates a db phases now)
      × (length (candidates a db phases now) ≤ 50)
unfolding candidates
candidates-Sorted a db phases now =
    let P = λ (w : Workflow). is_candidate db phases now w ≡ true in
    let sorted =
      sort_rows (queue_key a db now) (select_rows (is_candidate db phases now) db.workflows) in
    let ready = All-take_rows P 50 sorted (
      All-sort_rows P (queue_key a db now) _
        (All-select_rows (is_candidate db phases now) db.workflows)) in
    reordered P (queue_key a db now) (effective_key a db now) (take_rows 50 sorted) 50
      a.deadline_ordering ready
      (Sorted-take_rows (queue_key a db now) 50 sorted (Sorted-sort_rows (queue_key a db now) _))
      (length-take_rows 50 sorted)
