-- ===== src/Gate/Start/Owners.antt =====
-- The owner of a task and the proposals for it, as `start_action` of task_execution.py leaves them.
use foxhound.Prelude.{
  ℕ, ◌≡◌, ◌≢◌, refl, sym, subst, ◌∙◌, Bool, true, false, Option, none, some, List, [], ◌∷◌, ◌&&◌,
  ◌↔◌, arith, Bool-cases, inl, inr, ◌==◌,
}
use mathlib.Core.List.{Memᴰ}
use mathlib.Core.List.Memᴰ
use foxhound.Store.{find_task, replace_task}
use foxhound.Tables.{Db, Task, OwnershipReview, ReviewStatus, pending, kept}
use foxhound.Ledger.Total.{find_task-key, find-replace_task}
use foxhound.Ledger.Effects.{find-replace_other}
use foxhound.Gate.Start.{
  start, keep_owner, pin_found, has_pending_review, decide_review, is_pending,
}
use foxhound.Gate.Start.Gated.{Closes, Owns, Proposed}

absurd_eq : false ≡ true → ⊥
absurd_eq h = cc

is_pending-lem : (x : ReviewStatus) → is_pending x ≡ true → x ≡ pending
is_pending-lem pending h = refl
is_pending-lem ReviewStatus.confirmed h = cc
is_pending-lem kept h = cc
is_pending-lem ReviewStatus.reassigned h = cc

-- The test of the UPDATE's WHERE.
abbrev matches : ℕ → ℕ → OwnershipReview → Bool
matches id version r = r.task_id == id && r.task_version == version && is_pending r.status

matches-Proposed :
    (id version : ℕ) (r : OwnershipReview) → (matches id version r ≡ true) ↔ Proposed id version r
matches-Proposed id version r = (
  λ h. (ground (arith, h), ground (arith, h), is_pending-lem r.status (ground (arith, h))),
  λ p. (let w : is_pending r.status ≡ true = rw p.2 refl in ground (arith, p.0, p.1, w)),
)

decide-Closes :
    (id version now : ℕ) (rs : List OwnershipReview)
    → Closes id version now rs (decide_review id version kept now rs)
unfolding decide_review
decide-Closes id version now [] = tt
decide-Closes id version now (r ∷ rs) = elim (Bool-cases (matches id version r)) [
  | inl e ↦ rw e (
    λ k. refl,
    λ k. absurd (k ((matches-Proposed id version r).0 e)),
    decide-Closes id version now rs,
  )
  | inr e ↦ rw e (
    λ k. absurd (absurd_eq (sym e ∙ (matches-Proposed id version r).1 k)),
    λ k. refl,
    decide-Closes id version now rs,
  )
]

has_pending-Proposed :
    (id version : ℕ) (rs : List OwnershipReview) (r : OwnershipReview)
    → Memᴰ r rs
    → Proposed id version r
    → has_pending_review id version rs ≡ true
unfolding has_pending_review
has_pending-Proposed id version [] r m p = absurd (Memᴰ.not-nil m)
has_pending-Proposed id version (q ∷ rs) r m p = elim (Memᴰ.cases_cons m) [
  | inl e ↦ let k = (matches-Proposed id version q).1 (subst (Proposed id version) e p) in rw k refl
  | inr n ↦ elim (Bool-cases (matches id version q)) [
    | inl k ↦ rw k refl
    | inr k ↦ rw k (has_pending-Proposed id version rs r n p)
  ]
]

-- Where the test finds one, there is one.
has_pending-found :
    (id version : ℕ) (rs : List OwnershipReview)
    → has_pending_review id version rs ≡ true
    → (r : OwnershipReview) × Memᴰ r rs × Proposed id version r
unfolding has_pending_review
has_pending-found id version [] h = cc
has_pending-found id version (q ∷ rs) h = elim (Bool-cases (matches id version q)) [
  | inl k ↦ (q, Memᴰ.head refl, (matches-Proposed id version q).0 k)
  | inr k ↦ (let (r, m, p) = has_pending-found id version rs (rw k at h) in (r, Memᴰ.tail m, p))
]

same-Closes :
    (id version now : ℕ) (rs : List OwnershipReview)
    → has_pending_review id version rs ≡ false
    → Closes id version now rs rs
unfolding has_pending_review
same-Closes id version now [] h = tt
same-Closes id version now (q ∷ rs) h = elim (Bool-cases (matches id version q)) [
  | inl k ↦ (let z = (rw k at h) in cc)
  | inr k ↦ (
    λ p. absurd (absurd_eq (sym k ∙ (matches-Proposed id version q).1 p)),
    λ p. refl,
    same-Closes id version now rs (rw k at h),
  )
]

pin_found-Pins :
    (id : ℕ) (db : Db) (o : Option Task)
    → find_task id db.tasks ≡ o
    → ((t : Task)
        → o ≡ some t
        → find_task id (pin_found db o).tasks ≡ some (record t { owner_pinned = true }))
      × ((other : ℕ)
          → other ≢ id
          → find_task other (pin_found db o).tasks ≡ find_task other db.tasks)
      × ((pin_found db o).ownership_reviews ≡ db.ownership_reviews)
unfolding pin_found
pin_found-Pins id db none f = (λ t e. cc, λ other n. refl, refl)
pin_found-Pins id db (some u) f =
    let key = find_task-key id db.tasks {t = u} f in
    (
      λ t e.
          subst
            (λ (x : Task).
              find_task id (replace_task (record u { owner_pinned = true }) db.tasks)
              ≡ some (record x { owner_pinned = true }))
            (same_task u t e)
            (find-replace_task id (record u { owner_pinned = true }) db.tasks {t = u} key f),
      λ other n.
          find-replace_other other (record u { owner_pinned = true }) db.tasks
            (λ e. n (sym e ∙ key)),
      refl,
    )
  where
    same_task : (u t : Task) → some u ≡ some t → u ≡ t
    same_task u t e = cc

pub keep_owner-Owns :
    (id version now : ℕ) (db : Db) → Owns db (keep_owner id version now db) id version now start
unfolding keep_owner
keep_owner-Owns id version now db =
    elim (Bool-cases (has_pending_review id version db.ownership_reviews)) [
      | inr e ↦ rw e (
        same-Closes id version now db.ownership_reviews e,
        λ r t m p f.
            absurd (absurd_eq (sym e ∙ has_pending-Proposed id version db.ownership_reviews r m p)),
        λ n. refl,
        λ other n. refl,
      )
      | inl e ↦
          let decided = record db {
            ownership_reviews = decide_review id version kept now db.ownership_reviews;
          } in
          let (pins, others, reviews) = pin_found-Pins id decided (find_task id db.tasks) refl in
          let (r, m, p) = has_pending-found id version db.ownership_reviews e in
          rw e (
            subst (Closes id version now db.ownership_reviews) (sym reviews)
                (decide-Closes id version now db.ownership_reviews),
            λ r t m p f. pins t f,
            λ n. absurd (n r m p),
            others,
          )
    ]
