-- ===== src/Scheduling/Graph/Edges.antt =====
-- The edges of the graph that `_dependency_refusal` builds from the rows of conditions.
use foxhound.Prelude.{
  ℕ, ◌≡◌, refl, sym, ap, subst, ◌∙◌, true, false, List, [], ◌∷◌, ◌==◌, ◌⊎◌, inl, inr, ◌↔◌, arith,
  Bool-cases, if◌then◌else◌,
}
use mathlib.Core.List.{Memᴰ}
use mathlib.Core.List.Memᴰ
use foxhound.Tables.{Db, Condition, ConditionKind, after_task_completed, not_before}
use foxhound.Condition.{is_watched}
use foxhound.Scheduling.Graph.{
  Graph, children, member, add_edge, add_kind, add_condition, add_conditions, dependency_graph,
}
use foxhound.Scheduling.Graph.Visits.{member-Memᴰ}

with_child : ℕ → List ℕ → List ℕ
with_child child ds = if member child ds then ds else child ∷ ds

with_child-Memᴰ :
    (child b : ℕ) (ds : List ℕ) → Memᴰ b (with_child child ds) ↔ (Memᴰ b ds ⊎ (b ≡ child))
unfolding with_child
with_child-Memᴰ child b ds = elim (Bool-cases (member child ds)) [
  | inl e ↦ rw e (
    λ m. inl m,
    λ s. elim s [ inl m ↦ m | inr z ↦ subst (λ x. Memᴰ x ds) (sym z) (member-Memᴰ child ds e) ],
  )
  | inr e ↦ rw e (
    λ m. elim (Memᴰ.cases_cons m) [ inl z ↦ inr z | inr k ↦ inl k ],
    λ s. elim s [ inl k ↦ Memᴰ.tail k | inr z ↦ Memᴰ.head z ],
  )
]

eq_of_test : {m n : ℕ} → (m == n) ≡ true → m ≡ n
eq_of_test {m} {n} e = ground (arith, e)

module _ (k : ℕ) (ds : List ℕ) (rest : Graph) where
  children-here : (a : ℕ) → (k == a) ≡ true → children ((k, ds) ∷ rest) a ≡ ds
  unfolding children
  children-here a e = rw (e, children) refl

  children-past : (a : ℕ) → (k == a) ≡ false → children ((k, ds) ∷ rest) a ≡ children rest a
  unfolding children
  children-past a e = rw (e, children) refl

  add_edge-here :
      (n d : ℕ) → (k == n) ≡ true → add_edge ((k, ds) ∷ rest) n d ≡ (k, with_child d ds) ∷ rest
  unfolding with_child add_edge member
  add_edge-here n d e = rw (e, add_edge) refl

  add_edge-past :
      (n d : ℕ) → (k == n) ≡ false → add_edge ((k, ds) ∷ rest) n d ≡ (k, ds) ∷ add_edge rest n d
  unfolding add_edge
  add_edge-past n d e = rw (e, add_edge) refl

-- An edge of the graph with one more is an edge of the graph, or the one more.
abbrev Grown : List ℕ → List ℕ → ℕ → ℕ → ℕ → ℕ → Type 0
Grown after before n d a b = Memᴰ b after ↔ (Memᴰ b before ⊎ ((a ≡ n) × (b ≡ d)))

Grown-same : (ds : List ℕ) (n d a b : ℕ) → ¬ (a ≡ n) → Grown ds ds n d a b
Grown-same ds n d a b other =
    (λ m. inl m, λ s. elim s [ inl m ↦ m | inr (e, z) ↦ absurd (other e) ])

Grown-child : (ds : List ℕ) (n d a b : ℕ) → a ≡ n → Grown (with_child d ds) ds n d a b
Grown-child ds n d a b e = (
  λ m. elim ((with_child-Memᴰ d b ds).0 m) [ inl k ↦ inl k | inr z ↦ inr (e, z) ],
  λ s. (with_child-Memᴰ d b ds).1 (elim s [ inl k ↦ inl k | inr (x, z) ↦ inr z ]),
)

pub children-add_edge :
    (g : Graph) (n d a b : ℕ) → Grown (children (add_edge g n d) a) (children g a) n d a b
unfolding add_edge children
children-add_edge [] n d a b = elim (Bool-cases (n == a)) [
  | inl e ↦
      rw (e, add_edge, children)
        (
          λ m. elim (Memᴰ.cases_cons m) [ inl z ↦ inr (sym (eq_of_test e), z) | inr k ↦ inl k ],
          λ s. elim s [ inl k ↦ absurd (Memᴰ.not-nil k) | inr (x, z) ↦ Memᴰ.head z ],
        )
  | inr e ↦ rw (e, add_edge, children) (Grown-same [] n d a b (λ z. ground (arith, z, e)))
]
children-add_edge ((k, ds) ∷ rest) n d a b = elim (Bool-cases (k == n)) [
  | inl here ↦ rw (add_edge-here k ds rest n d here) (elim (Bool-cases (k == a)) [
    | inl e ↦ rw (children-here k (with_child d ds) rest a e) (
        rw (children-here k ds rest a e)
          (Grown-child ds n d a b (sym (eq_of_test e) ∙ eq_of_test here)))
    | inr e ↦ rw (children-past k (with_child d ds) rest a e) (
        rw (children-past k ds rest a e)
          (Grown-same (children rest a) n d a b (λ z. ground (arith, z, e, here))))
  ])
  | inr past ↦ rw (add_edge-past k ds rest n d past) (elim (Bool-cases (k == a)) [
    | inl e ↦
        rw (children-here k ds (add_edge rest n d) a e) (
          rw (children-here k ds rest a e)
            (Grown-same ds n d a b (λ z. ground (arith, z, e, past))))
    | inr e ↦
        rw (children-past k ds (add_edge rest n d) a e)
          (rw (children-past k ds rest a e) (children-add_edge rest n d a b))
  ])
]

-- A row by which one task waits for another: it is active or needs review.
abbrev pub IsEdge : Condition → ℕ → ℕ → Type 0
IsEdge c a b = (is_watched c.state ≡ true) × (c.task_id ≡ a) × (c.kind ≡ after_task_completed b)

-- Some row makes one task wait for another.
abbrev pub Waits : List Condition → ℕ → ℕ → Type 0
Waits cs a b = (c : Condition) × Memᴰ c cs × IsEdge c a b

add_kind-children :
    (id : ℕ) (kind : ConditionKind) (g : Graph) (a b : ℕ)
    → Memᴰ b (children (add_kind id kind g) a)
      ↔ (Memᴰ b (children g a) ⊎ ((id ≡ a) × (kind ≡ after_task_completed b)))
unfolding add_kind
add_kind-children id (not_before start) g a b =
    (λ m. inl m, λ s. elim s [ inl m ↦ m | inr (e, z) ↦ cc ])
add_kind-children id (after_task_completed d) g a b =
    let grown = children-add_edge g id d a b in
    (
      λ m. elim (grown.0 m) [
        | inl k ↦ inl k
        | inr (e, z) ↦ inr (sym e, ap after_task_completed (sym z))
      ],
      λ s. grown.1 (elim s [ inl k ↦ inl k | inr (e, z) ↦ inr (sym e, cc) ]),
    )

add_condition-children :
    (c : Condition) (g : Graph) (a b : ℕ)
    → Memᴰ b (children (add_condition c g) a) ↔ (Memᴰ b (children g a) ⊎ IsEdge c a b)
unfolding add_condition
add_condition-children c g a b = elim (Bool-cases (is_watched c.state)) [
  | inl e ↦
      let more = add_kind-children c.task_id c.kind g a b in
      rw e (
        λ m. elim (more.0 m) [ inl k ↦ inl k | inr (t, k) ↦ inr (refl, t, k) ],
        λ s. more.1 (elim s [ inl k ↦ inl k | inr (w, t, k) ↦ inr (t, k) ]),
      )
  | inr e ↦ rw e (λ m. inl m, λ s. elim s [ inl k ↦ k | inr (w, t, k) ↦ cc ])
]

pub add_conditions-children :
    (cs : List Condition) (g : Graph) (a b : ℕ)
    → Memᴰ b (children (add_conditions cs g) a) ↔ (Memᴰ b (children g a) ⊎ Waits cs a b)
unfolding add_conditions
add_conditions-children [] g a b =
    (λ m. inl m, λ s. elim s [ inl k ↦ k | inr (c, m, p) ↦ absurd (Memᴰ.not-nil m) ])
add_conditions-children (c ∷ cs) g a b =
    let one = add_condition-children c g a b in
    let rest = add_conditions-children cs (add_condition c g) a b in
    (
      λ m. elim (rest.0 m) [
        | inr (x, k, p) ↦ inr (x, Memᴰ.tail k, p)
        | inl k ↦ elim (one.0 k) [ inl j ↦ inl j | inr p ↦ inr (c, Memᴰ.head refl, p) ]
      ],
      λ s. rest.1 (elim s [
        | inl k ↦ inl (one.1 (inl k))
        | inr (x, k, p) ↦ elim (Memᴰ.cases_cons k) [
          | inl e ↦ inl (one.1 (inr (subst (λ y. IsEdge y a b) e p)))
          | inr j ↦ inr (x, j, p)
        ]
      ]),
    )

pub no_children : (a b : ℕ) → Memᴰ b (children [] a) → ⊥
unfolding children
no_children a b m = Memᴰ.not-nil m

-- The graph has an edge from a task to another exactly where a row of the table that is active or
-- needs review makes the one wait for the other's completion.
pub children-dependency_graph :
    (db : Db) (a b : ℕ) → Memᴰ b (children (dependency_graph db) a) ↔ Waits db.conditions a b
unfolding dependency_graph
children-dependency_graph db a b =
    let all = add_conditions-children db.conditions [] a b in
    (λ m. elim (all.0 m) [ inl k ↦ absurd (no_children a b k) | inr w ↦ w ], λ w. all.1 (inr w))
