-- ===== src/Claim/Rank.antt =====
-- What the parts of a row's key in the queue of `claim_next` of task_execution.py say: its tier, its rank and
-- its band.
use foxhound.Prelude.{
  ℕ, ◌+◌, ◌/◌, ◌≤◌, ◌≡◌, refl, sym, subst, ap, String, Bool, true, ◌&&◌, Option, none, some, str_eq,
  eq_iff, arith, ◌⊎◌, inl, inr, Bool-cases, ◌↔◌, if◌then◌else◌,
}
use foxhound.Schema.{Workflow, raised, lowered}
use foxhound.Claim.{Advice, source_tier, queue_priority, band, raised_by_deadline}
use foxhound.Claim.Queue.{Urgent}

tier_review : (o : Option String) → (source_tier o ≡ 0) ↔ (o ≡ some "review_request")
unfolding source_tier
tier_review none = (λ h. ground (arith, h), λ h. cc)
tier_review (some k) = (
  λ h.
      (let e : str_eq k "review_request" ≡ true = ground (arith, h) in
        ap (λ x. some x) ((eq_iff k "review_request").0 e)),
  λ h.
      (let e : k ≡ "review_request" = cc in
        subst (λ (x : String). source_tier (some x) ≡ 0) (sym e) refl),
)

tier_issue : (o : Option String) → (source_tier o ≡ 2) ↔ (o ≡ some "issue")
unfolding source_tier
tier_issue none = (λ h. ground (arith, h), λ h. cc)
tier_issue (some k) = (
  λ h.
      (let e : str_eq k "issue" ≡ true = ground (arith, h) in
        ap (λ x. some x) ((eq_iff k "issue").0 e)),
  λ h. (let e : k ≡ "issue" = cc in subst (λ (x : String). source_tier (some x) ≡ 2) (sym e) refl),
)

source_tier_bound : (o : Option String) → source_tier o ≤ 2
unfolding source_tier
source_tier_bound o = ground arith

pub tiers :
    (o p : Option String)
    → source_tier o ≤ source_tier p
    → (p ≡ some "review_request" → o ≡ some "review_request")
      × (o ≡ some "issue" → p ≡ some "issue")
tiers o p l =
    let b = source_tier_bound p in
    (
      λ h. (tier_review o).0 (let k = (tier_review p).1 h in omega arith),
      λ h. (tier_issue p).0 (let k = (tier_issue o).1 h in omega arith),
    )

unfoldable pub urgent : Advice → ℕ → Workflow → Bool
urgent a now w =
    a.deadline_ordering
    && (a.reader_owned w.task_id && raised_by_deadline (a.effective w.task_id) (now / 86400))

raised_by_deadline_lem :
    (o : Option ℕ) (today : ℕ)
    → (raised_by_deadline o today ≡ true) ↔ ((d : ℕ) × (o ≡ some d) × (d ≤ today + 2))
unfolding raised_by_deadline
raised_by_deadline_lem none today = (λ h. cc, λ (d, e, l). cc)
raised_by_deadline_lem (some x) today =
    (λ h. (x, refl, ground (arith, h)), λ (d, e, l). (let k : x ≡ d = cc in ground (arith, k, l)))

urgent-Urgent : (a : Advice) (now : ℕ) (w : Workflow) → (urgent a now w ≡ true) ↔ Urgent a now w
unfolding urgent
urgent-Urgent a now w =
    let r = raised_by_deadline_lem (a.effective w.task_id) (now / 86400) in
    (
      λ h. (ground (arith, h), ground (arith, h), r.0 (ground (arith, h))),
      λ (p, q, d). (let k = r.1 d in ground (arith, p, q, k)),
    )

unfoldable pub rank : Advice → ℕ → Workflow → ℕ
rank a now w = if urgent a now w then 0 else queue_priority w.queue_priority

rank_raised :
    (a : Advice) (now : ℕ) (w : Workflow)
    → (rank a now w ≡ 0) ↔ ((w.queue_priority ≡ raised) ⊎ Urgent a now w)
unfolding rank queue_priority
rank_raised a now w = elim (Bool-cases (urgent a now w)) [
  | inl u ↦ (λ h. inr ((urgent-Urgent a now w).0 u), λ h. rw u refl)
  | inr u ↦ (
    λ h. inl (ground (arith, u, h)),
    λ h. elim h [ inl p ↦ rw u (rw p refl) | inr v ↦ let k = (urgent-Urgent a now w).1 v in cc ],
  )
]

rank_lowered :
    (a : Advice) (now : ℕ) (w : Workflow)
    → (rank a now w ≡ 2) ↔ ((w.queue_priority ≡ lowered) × (Urgent a now w → ⊥))
unfolding rank queue_priority
rank_lowered a now w = elim (Bool-cases (urgent a now w)) [
  | inl u ↦ (
    λ h. (let k : Path ℕ 0 2 = ground (arith, u, h) in (ground (arith, k), λ v. ground (arith, k))),
    λ (p, n). absurd (n ((urgent-Urgent a now w).0 u)),
  )
  | inr u ↦ (
    λ h. (ground (arith, u, h), λ v. (let k = (urgent-Urgent a now w).1 v in cc)),
    λ (p, n). rw u (rw p refl),
  )
]

rank_bound : (a : Advice) (now : ℕ) (w : Workflow) → rank a now w ≤ 2
unfolding rank queue_priority
rank_bound a now w = ground arith

pub ranks :
    (a : Advice) (now : ℕ) (w v : Workflow)
    → rank a now w ≤ rank a now v
    → ((v.queue_priority ≡ raised) ⊎ Urgent a now v → (w.queue_priority ≡ raised) ⊎ Urgent a now w)
      × ((w.queue_priority ≡ lowered) × (Urgent a now w → ⊥)
          → (v.queue_priority ≡ lowered) × (Urgent a now v → ⊥))
ranks a now w v l = (
  λ h. (rank_raised a now w).0 (let k = (rank_raised a now v).1 h in omega arith),
  λ h.
      (rank_lowered a now v).0
        (let k = (rank_lowered a now w).1 h in let b = rank_bound a now v in omega arith),
)

pub rank_plain :
    (a : Advice) (now : ℕ) (w : Workflow)
    → (Urgent a now w → ⊥)
    → rank a now w ≡ queue_priority w.queue_priority
unfolding rank
rank_plain a now w n = elim (Bool-cases (urgent a now w)) [
  | inl u ↦ absurd (n ((urgent-Urgent a now w).0 u))
  | inr u ↦ rw u refl
]

abbrev pub DueBand : Option ℕ → ℕ → ℕ → Type 0
DueBand o today days = (d : ℕ) × (o ≡ some d) × (d ≤ today + days)

band_soon : (o : Option ℕ) (today : ℕ) → (band o today ≡ 0) ↔ DueBand o today 3
unfolding band
band_soon none today = (λ h. ground (arith, h), λ (d, e, l). cc)
band_soon (some x) today =
    (λ h. (x, refl, ground (arith, h)), λ (d, e, l). (let k : x ≡ d = cc in ground (arith, k, l)))

band_near : (o : Option ℕ) (today : ℕ) → (band o today ≤ 1) ↔ DueBand o today 14
unfolding band
band_near none today = (λ h. ground (arith, h), λ (d, e, l). cc)
band_near (some x) today =
    (λ h. (x, refl, ground (arith, h)), λ (d, e, l). (let k : x ≡ d = cc in ground (arith, k, l)))

pub bands :
    (o p : Option ℕ) (today : ℕ)
    → band o today ≤ band p today
    → (DueBand p today 3 → DueBand o today 3) × (DueBand p today 14 → DueBand o today 14)
bands o p today l = (
  λ h. (band_soon o today).0 (let k = (band_soon p today).1 h in omega arith),
  λ h. (band_near o today).0 (let k = (band_near p today).1 h in omega arith),
)
