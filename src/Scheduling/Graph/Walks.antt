-- ===== src/Scheduling/Graph/Walks.antt =====
-- Walks along the dependencies of task_scheduling.py's graph.
use foxhound.Prelude.{ℕ, zero, suc, ◌+◌, ◌≤◌, ◌≡◌, subst, arith}
use mathlib.Core.List.{Memᴰ}
use foxhound.Scheduling.Graph.{Graph, children}

-- A walk from one task to another along a number of dependencies.
pub data Walk (g : Graph) : ℕ → ℕ → ℕ → Type 0 where
  stay : {a : ℕ} → Walk g a a 0
  step : {a b c n : ℕ} → Memᴰ b (children g a) → Walk g b c n → Walk g a c (suc n)

-- A task that depends on itself, directly or through others.
abbrev pub Loop : Graph → Type 0
Loop g = (x : ℕ) × (n : ℕ) × Walk g x x (suc n)

-- No walk is longer than a number of dependencies.
abbrev pub Shallow : Graph → ℕ → Type 0
Shallow g n = (a b m : ℕ) → Walk g a b m → m ≤ n

module _ {g : Graph} where
  pub join_walks : {a b c m n : ℕ} → Walk g a b m → Walk g b c n → Walk g a c (m + n)
  join_walks {a} {c = c} {n = n} stay v =
      (let z : n ≡ 0 + n = omega arith in subst (Walk g a c) z v)
  join_walks {a} {c = c} {n = n} (step {n = m} e w) v =
      let z : suc (m + n) ≡ suc m + n = omega arith in
      subst (Walk g a c) z (step e (join_walks w v))

  round_and_round : (k : ℕ) {x n : ℕ} → Walk g x x (suc n) → (m : ℕ) × (k ≤ m) × Walk g x x m
  round_and_round zero w = (0, omega arith, stay)
  round_and_round (suc k) {x} {n} w =
      let (m, far, v) = round_and_round k w in (suc n + m, omega (arith, far), join_walks w v)

  -- Round a loop there are walks of every length.
  pub Shallow-not_Loop : {n : ℕ} → Shallow g n → ¬ Loop g
  Shallow-not_Loop {n} bound (x, k, w) =
      let (m, far, v) = round_and_round (suc n) w in
      let near = bound x x m v in absurd (omega (arith, far, near))

-- A graph with fewer edges has fewer walks.
pub Walk-mono :
    {g h : Graph}
    → ((a b : ℕ) → Memᴰ b (children g a) → Memᴰ b (children h a))
    → {a b n : ℕ} → Walk g a b n
    → Walk h a b n
Walk-mono k stay = stay
Walk-mono k (step {a} {b} e w) = step (k a b e) (Walk-mono k w)
