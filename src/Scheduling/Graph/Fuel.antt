-- ===== src/Scheduling/Graph/Fuel.antt =====
-- The fuel of `visit` in `_dependency_refusal`: a path holds each key of the graph once at most.
use foxhound.Prelude.{
  ℕ, zero, suc, ◌+◌, ◌≤◌, ◌<◌, ◌≡◌, ◌≢◌, refl, sym, ap, subst, ◌∙◌, false, List, [], ◌∷◌, ◌==◌, inl,
  inr, arith, length, Bool-cases, if◌then◌else◌,
}
use mathlib.Core.List.{Memᴰ}
use mathlib.Core.List.Memᴰ
use foxhound.Scheduling.Graph.{Graph, children, member, out_of_fuel, visit, keys, longest_chain}
use foxhound.Scheduling.Graph.Longest.{longest-ne-out_of_fuel, visit_children-ne-out_of_fuel}
use foxhound.Scheduling.Graph.Visits.{onward, visit-on_path, visit-off_path}

-- The keys that are not on a path yet.
fresh : List ℕ → List ℕ → ℕ
fresh path [] = 0
fresh path (k ∷ ks) = (if member k path then 0 else 1) + fresh path ks

fresh-cons-le : (node : ℕ) (path ks : List ℕ) → fresh (node ∷ path) ks ≤ fresh path ks
unfolding fresh member
fresh-cons-le node path [] = omega arith
fresh-cons-le node path (k ∷ ks) = ground (arith, fresh-cons-le node path ks)

-- A key that joins the path is no longer fresh.
fresh-cons-lt :
    (node : ℕ) (path ks : List ℕ)
    → Memᴰ node ks
    → member node path ≡ false
    → fresh (node ∷ path) ks < fresh path ks
unfolding fresh member
fresh-cons-lt node path [] m h = absurd (Memᴰ.not-nil m)
fresh-cons-lt node path (k ∷ ks) m h = elim (Memᴰ.cases_cons m) [
  | inl e ↦
      let rest = fresh-cons-le node path ks in
      let off : member k path ≡ false = subst (λ x. member x path ≡ false) e h in
      ground (arith, rest, off, e)
  | inr on ↦ (let rest = fresh-cons-lt node path ks on h in ground (arith, rest))
]

fresh-nil : (ks : List ℕ) → fresh [] ks ≤ length ks
unfolding fresh member
fresh-nil [] = omega arith
fresh-nil (k ∷ ks) = ground (arith, fresh-nil ks)

length-keys : (g : Graph) → length (keys g) ≡ length g
unfolding keys
length-keys [] = refl
length-keys ((k, ds) ∷ g) = ap suc (length-keys g)

-- Only a key has children.
pub keys-children : (g : Graph) (node : ℕ) {c : ℕ} → Memᴰ c (children g node) → Memᴰ node (keys g)
unfolding keys children
keys-children [] node m = absurd (Memᴰ.not-nil m)
keys-children ((k, ds) ∷ g) node m = elim (Bool-cases (k == node)) [
  | inl e ↦ let same : node ≡ k = ground (arith, e) in Memᴰ.head same
  | inr e ↦ Memᴰ.tail (keys-children g node (rw e at m))
]

module _ (g : Graph) where
  visit-ne-out_of_fuel :
      (fuel node : ℕ) (path : List ℕ)
      → fresh path (keys g) + 1 < fuel
      → visit g fuel node path ≢ out_of_fuel
  visit-ne-out_of_fuel zero node path enough h = absurd (omega (arith, enough))
  visit-ne-out_of_fuel (suc fuel) node path enough h = elim (Bool-cases (member node path)) [
    | inl e ↦ (let crossed = sym (visit-on_path g fuel node path e) ∙ h in cc)
    | inr e ↦
        visit_children-ne-out_of_fuel (onward g fuel node path) (children g node)
          (λ c m.
            let less = fresh-cons-lt node path (keys g) (keys-children g node m) e in
            visit-ne-out_of_fuel fuel c (node ∷ path) (omega (arith, enough, less)))
          (sym (visit-off_path g fuel node path e) ∙ h)
  ]

  -- The fuel of the search is enough for every graph.
  pub longest_chain-ne-out_of_fuel : longest_chain g ≢ out_of_fuel
  unfolding longest_chain
  longest_chain-ne-out_of_fuel =
      longest-ne-out_of_fuel (λ node. visit g (2 + length g) node []) (keys g)
        (λ c m.
          let room = fresh-nil (keys g) in
          let size = length-keys g in
          visit-ne-out_of_fuel (2 + length g) c [] (omega (arith, room, size)))
