-- ===== src/Scheduling/Graph/Visits.antt =====
-- What `visit` of `_dependency_refusal` finds out about the walks from a task.
use foxhound.Prelude.{
  ℕ, zero, suc, ◌≤◌, ◌≡◌, refl, sym, subst, ◌∙◌, true, false, List, [], ◌∷◌, ◌==◌, ◌⊎◌, inl, inr,
  arith, Bool-cases,
}
use mathlib.Core.List.{Memᴰ}
use mathlib.Core.List.Memᴰ
use foxhound.Scheduling.Graph.{
  Graph, children, member, Visit, depth, found_cycle, out_of_fuel, visit_children, visit,
}
use foxhound.Scheduling.Graph.Walks.{Walk, stay, step, Loop}
use foxhound.Scheduling.Graph.Longest.{visit_children-depth, visit_children-cycle}

pub member-Memᴰ : (n : ℕ) (xs : List ℕ) → member n xs ≡ true → Memᴰ n xs
unfolding member
member-Memᴰ n [] h = cc
member-Memᴰ n (x ∷ xs) h = elim (Bool-cases (x == n)) [
  | inl e ↦ let same : n ≡ x = ground (arith, e) in Memᴰ.head same
  | inr e ↦ Memᴰ.tail (member-Memᴰ n xs (rw e at h))
]

module _ (g : Graph) where
  abbrev pub onward : ℕ → ℕ → List ℕ → ℕ → Visit
  onward fuel node path child = visit g fuel child (node ∷ path)

  pub visit-on_path :
      (fuel node : ℕ) (path : List ℕ)
      → member node path ≡ true
      → visit g (suc fuel) node path ≡ found_cycle
  unfolding visit
  visit-on_path fuel node path h = rw (h, visit) refl

  pub visit-off_path :
      (fuel node : ℕ) (path : List ℕ)
      → member node path ≡ false
      → visit g (suc fuel) node path ≡ visit_children (onward fuel node path) (children g node)
  unfolding visit
  visit-off_path fuel node path h = rw (h, visit) refl

  visit-zero : (node : ℕ) (path : List ℕ) → visit g zero node path ≡ out_of_fuel
  unfolding visit
  visit-zero node path = refl

  -- A visit that returns was off the path, and its depth is that of its children.
  visit-depth :
      (fuel node : ℕ) (path : List ℕ) (n : ℕ)
      → visit g (suc fuel) node path ≡ depth n
      → visit_children (onward fuel node path) (children g node) ≡ depth n
  visit-depth fuel node path n h = elim (Bool-cases (member node path)) [
    | inl e ↦ (let crossed = sym (visit-on_path fuel node path e) ∙ h in cc)
    | inr e ↦ sym (visit-off_path fuel node path e) ∙ h
  ]

  -- No walk from a task is longer than its depth.
  pub visit-bound :
      (fuel node : ℕ) (path : List ℕ) (n : ℕ) {to m : ℕ}
      → visit g fuel node path ≡ depth n
      → Walk g node to m
      → m ≤ n
  visit-bound zero node path n h w = (let stuck = sym (visit-zero node path) ∙ h in cc)
  visit-bound (suc fuel) node path n h stay = omega arith
  visit-bound (suc fuel) node path n h (step {b = b} {n = k} e w) =
      let (below, best) =
        visit_children-depth (onward fuel node path) (children g node) n
          (visit-depth fuel node path n h) in
      let (d, ed, ld) = below b e in
      let rest = visit-bound fuel b (node ∷ path) d ed w in omega (arith, ld, rest)

  -- Some walk from a task is as long as its depth.
  pub visit-attained :
      (fuel node : ℕ) (path : List ℕ) (n : ℕ)
      → visit g fuel node path ≡ depth n
      → (to : ℕ) × Walk g node to n
  visit-attained zero node path n h = (let stuck = sym (visit-zero node path) ∙ h in cc)
  visit-attained (suc fuel) node path n h =
      let (below, best) =
        visit_children-depth (onward fuel node path) (children g node) n
          (visit-depth fuel node path n h) in
      elim best [
        | inl z ↦ (node, subst (Walk g node node) (sym z) stay)
        | inr (c, m, k, ec, z) ↦
            let (to, w) = visit-attained fuel c (node ∷ path) m ec in
            (to, subst (Walk g node to) (sym z) (step k w))
      ]

  -- A visit that meets a cycle has a walk back to its path, or a loop ahead of it.
  pub visit-cycle :
      (fuel node : ℕ) (path : List ℕ)
      → visit g fuel node path ≡ found_cycle
      → ((to : ℕ) × (m : ℕ) × Walk g node to m × Memᴰ to path) ⊎ Loop g
  visit-cycle zero node path h = (let stuck = sym (visit-zero node path) ∙ h in cc)
  visit-cycle (suc fuel) node path h = elim (Bool-cases (member node path)) [
    | inl e ↦ inl (node, 0, stay, member-Memᴰ node path e)
    | inr e ↦
        let (c, k, ec) =
          visit_children-cycle (onward fuel node path) (children g node)
            (sym (visit-off_path fuel node path e) ∙ h) in
        elim (visit-cycle fuel c (node ∷ path) ec) [
          | inr loop ↦ inr loop
          | inl (to, m, w, back) ↦ elim (Memᴰ.cases_cons back) [
            | inl same ↦ inr (node, m, step k (subst (λ x. Walk g c x m) same w))
            | inr on ↦ inl (to, suc m, step k w, on)
          ]
        ]
  ]
