-- ===== src/Scheduling/Graph/Longest.antt =====
-- The maximum over the visits of several tasks, of task_scheduling.py.
use foxhound.Prelude.{
  ℕ, suc, ◌≤◌, ◌<◌, ◌≡◌, ◌≢◌, refl, sym, ap, ◌∙◌, List, [], ◌∷◌, ◌⊎◌, inl, inr, arith,
}
use mathlib.Core.List.{Memᴰ}
use mathlib.Core.List.Memᴰ
use foxhound.Scheduling.Graph.{
  Visit, depth, found_cycle, out_of_fuel, join, longest, deeper, visit_children,
}

pub Visit-cases : (v : Visit) → ((n : ℕ) × (v ≡ depth n)) ⊎ ((v ≡ found_cycle) ⊎ (v ≡ out_of_fuel))
Visit-cases (depth n) = inl (n, refl)
Visit-cases found_cycle = inr (inl refl)
Visit-cases out_of_fuel = inr (inr refl)

depth_inj : {m n : ℕ} → depth m ≡ depth n → m ≡ n
depth_inj h = cc

-- The two visits that a maximum is of, which is one of them.
join-depth :
    (u v : Visit) (n : ℕ)
    → join u v ≡ depth n
    → (a : ℕ) × (b : ℕ) × (u ≡ depth a) × (v ≡ depth b) × (a ≤ n) × (b ≤ n) × ((n ≡ a) ⊎ (n ≡ b))
unfolding join
join-depth (depth a) (depth b) n h =
    let e = depth_inj h in
    (a, b, refl, refl, ground (arith, e), ground (arith, e), ground (arith, e))
join-depth (depth a) found_cycle n h = cc
join-depth (depth a) out_of_fuel n h = cc
join-depth found_cycle v n h = cc
join-depth out_of_fuel v n h = cc

join-cycle : (u v : Visit) → join u v ≡ found_cycle → (u ≡ found_cycle) ⊎ (v ≡ found_cycle)
unfolding join
join-cycle (depth a) (depth b) h = cc
join-cycle (depth a) found_cycle h = inr refl
join-cycle (depth a) out_of_fuel h = cc
join-cycle found_cycle v h = inl refl
join-cycle out_of_fuel v h = cc

join-out_of_fuel : (u v : Visit) → join u v ≡ out_of_fuel → (u ≡ out_of_fuel) ⊎ (v ≡ out_of_fuel)
unfolding join
join-out_of_fuel (depth a) (depth b) h = cc
join-out_of_fuel (depth a) found_cycle h = cc
join-out_of_fuel (depth a) out_of_fuel h = inr refl
join-out_of_fuel found_cycle v h = cc
join-out_of_fuel out_of_fuel v h = inl refl

module _ (f : ℕ → Visit) where
  -- Every visit is at most as deep as the maximum, which is 0 or the depth of one.
  pub longest-depth :
      (ns : List ℕ) (n : ℕ)
      → longest f ns ≡ depth n
      → ((c : ℕ) → Memᴰ c ns → (m : ℕ) × (f c ≡ depth m) × (m ≤ n))
        × ((n ≡ 0) ⊎ ((c : ℕ) × Memᴰ c ns × (f c ≡ depth n)))
  unfolding longest
  longest-depth [] n h = (λ c m. absurd (Memᴰ.not-nil m), inl (sym (depth_inj h)))
  longest-depth (x ∷ xs) n h =
      let (a, b, ea, eb, la, lb, top) = join-depth (f x) (longest f xs) n h in
      let (below, best) = longest-depth xs b eb in
      (
        λ c m. elim (Memᴰ.cases_cons m) [
          | inl e ↦ (a, ap f e ∙ ea, la)
          | inr k ↦ let (d, ed, ld) = below c k in (d, ed, omega (arith, ld, lb))
        ],
        elim top [
          | inl e ↦ inr (x, Memᴰ.head refl, ea ∙ ap depth (sym e))
          | inr e ↦ elim best [
            | inl z ↦ inl (e ∙ z)
            | inr (c, k, ec) ↦ inr (c, Memᴰ.tail k, ec ∙ ap depth (sym e))
          ]
        ],
      )

  -- A cycle comes from a visit that met one.
  pub longest-cycle :
      (ns : List ℕ) → longest f ns ≡ found_cycle → (c : ℕ) × Memᴰ c ns × (f c ≡ found_cycle)
  unfolding longest
  longest-cycle [] h = cc
  longest-cycle (x ∷ xs) h = elim (join-cycle (f x) (longest f xs) h) [
    | inl e ↦ (x, Memᴰ.head refl, e)
    | inr e ↦ let (c, k, ec) = longest-cycle xs e in (c, Memᴰ.tail k, ec)
  ]

  -- The maximum runs out of fuel only where a visit does.
  pub longest-ne-out_of_fuel :
      (ns : List ℕ) → ((c : ℕ) → Memᴰ c ns → f c ≢ out_of_fuel) → longest f ns ≢ out_of_fuel
  unfolding longest
  longest-ne-out_of_fuel [] k h = cc
  longest-ne-out_of_fuel (x ∷ xs) k h = elim (join-out_of_fuel (f x) (longest f xs) h) [
    | inl e ↦ k x (Memᴰ.head refl) e
    | inr e ↦ longest-ne-out_of_fuel xs (λ c m. k c (Memᴰ.tail m)) e
  ]

deeper-depth : (v : Visit) (n : ℕ) → deeper v ≡ depth n → (m : ℕ) × (v ≡ depth m) × (n ≡ suc m)
unfolding deeper
deeper-depth (depth m) n h = (m, refl, omega (arith, depth_inj h))
deeper-depth found_cycle n h = cc
deeper-depth out_of_fuel n h = cc

deeper-cycle : (v : Visit) → deeper v ≡ found_cycle → v ≡ found_cycle
unfolding deeper
deeper-cycle (depth m) h = cc
deeper-cycle found_cycle h = refl
deeper-cycle out_of_fuel h = cc

deeper-out_of_fuel : (v : Visit) → deeper v ≡ out_of_fuel → v ≡ out_of_fuel
unfolding deeper
deeper-out_of_fuel (depth m) h = cc
deeper-out_of_fuel found_cycle h = cc
deeper-out_of_fuel out_of_fuel h = refl

module _ (f : ℕ → Visit) where
  -- Above every child there is one dependency more, and the depth is one more than a child's, or 0.
  pub visit_children-depth :
      (ns : List ℕ) (n : ℕ)
      → visit_children f ns ≡ depth n
      → ((c : ℕ) → Memᴰ c ns → (m : ℕ) × (f c ≡ depth m) × (m < n))
        × ((n ≡ 0) ⊎ ((c : ℕ) × (m : ℕ) × Memᴰ c ns × (f c ≡ depth m) × (n ≡ suc m)))
  unfolding visit_children
  visit_children-depth [] n h = (λ c m. absurd (Memᴰ.not-nil m), inl (sym (depth_inj h)))
  visit_children-depth (x ∷ xs) n h =
      let (k, e, z) = deeper-depth (longest f (x ∷ xs)) n h in
      let (below, best) = longest-depth f (x ∷ xs) k e in
      (
        λ c m. let (d, ed, ld) = below c m in (d, ed, omega (arith, ld, z)),
        inr (elim best [
          | inl nothing ↦
              let (d, ed, ld) = below x (Memᴰ.head refl) in
              let same : d ≡ k = omega (arith, ld, nothing) in
              (x, k, Memᴰ.head refl, ed ∙ ap depth same, z)
          | inr (c, m, ec) ↦ (c, k, m, ec, z)
        ]),
      )

  pub visit_children-cycle :
      (ns : List ℕ) → visit_children f ns ≡ found_cycle → (c : ℕ) × Memᴰ c ns × (f c ≡ found_cycle)
  unfolding visit_children
  visit_children-cycle [] h = cc
  visit_children-cycle (x ∷ xs) h = longest-cycle f (x ∷ xs) (deeper-cycle (longest f (x ∷ xs)) h)

  pub visit_children-ne-out_of_fuel :
      (ns : List ℕ) → ((c : ℕ) → Memᴰ c ns → f c ≢ out_of_fuel) → visit_children f ns ≢ out_of_fuel
  unfolding visit_children
  visit_children-ne-out_of_fuel [] k h = cc
  visit_children-ne-out_of_fuel (x ∷ xs) k h =
      longest-ne-out_of_fuel f (x ∷ xs) k (deeper-out_of_fuel (longest f (x ∷ xs)) h)
