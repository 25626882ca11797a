-- ===== src/Scheduling/Act/Once.antt =====
-- A scheduling review card of task_scheduling.py is acted on once.
use foxhound.Prelude.{
  ℕ, ◌+◌, ◌≡◌, refl, ap, ◌∙◌, false, ◌&&◌, Option, none, some, List, [], ◌∷◌, ok, arith, leb,
  Bool-cases, Option-cases, inl, inr,
}
use foxhound.Operation.{refused, applied, Disposition}
use foxhound.Scheduling.{
  invalid_recommendation, not_found, invalid_state, CardActionResult, refuse_card, find_change_set,
  find_card, replace_card,
}
use foxhound.Scheduling.Rows.{Card, SchedulingDb}
use foxhound.Scheduling.Callback.{CardAction}
use foxhound.Scheduling.Act.{is_delivered, resolved_card, act_guarded, act_joined, act}
use foxhound.Scheduling.Act.Cases.{Outcome, act-cases}

pub find_card-key : (id : ℕ) (cs : List Card) {c : Card} → find_card id cs ≡ some c → c.id ≡ id
unfolding find_card
find_card-key id [] h = cc
find_card-key id (x ∷ xs) {c} h = ground (arith, find_card-key id xs {c = c})

pub find-replace_card :
    (id : ℕ) (v : Card) (cs : List Card) {c : Card}
    → v.id ≡ id
    → find_card id cs ≡ some c
    → find_card id (replace_card id v cs) ≡ some v
unfolding find_card replace_card
find-replace_card id v [] k h = cc
find-replace_card id v (x ∷ xs) {c} k h = ground (arith, find-replace_card id v xs {c = c})

-- The call is refused, and leaves the database.
abbrev pub Refuses : ℕ → ℕ → ℕ → Option CardAction → SchedulingDb → Type 0
Refuses now id expected action s =
    (out : CardActionResult) × (act now id expected action s ≡ ok (out, s))
    × (out.disposition ≡ refused)

act-settled :
    (now id expected : ℕ) (action : Option CardAction) (s : SchedulingDb) (c : Card)
    → find_card id s.cards ≡ some c
    → is_delivered c.status ≡ false
    → Refuses now id expected action s
unfolding act act_joined act_guarded
act-settled now id expected none s c f d = (refuse_card id invalid_recommendation, refl, refl)
act-settled now id expected (some action) s c f d = elim (Bool-cases (leb 1 id && leb 1 expected)) [
  | inr e ↦ (refuse_card id invalid_recommendation, rw e refl, refl)
  | inl e ↦ elim (Option-cases (find_change_set c.change_set_id s.change_sets)) [
    | inl n ↦ (refuse_card id not_found, rw (e, f) (rw (n, act_joined) refl), refl)
    | inr (k, n) ↦ (
      refuse_card c.id invalid_state,
      rw (e, f) (rw (n, act_joined) (rw (d, act_guarded) refl)),
      refl,
    )
  ]
]

-- Once a reader has kept or undone a change, its card takes no further action: any later call on the
-- card, at whatever version and for whatever action, is refused and changes nothing.
pub act-once :
    (now id expected : ℕ) (action : Option CardAction) (s : SchedulingDb) (out : Outcome)
    (later other : ℕ) (again : Option CardAction)
    → act now id expected action s ≡ ok out
    → out.0.disposition ≡ applied
    → Refuses later id other again out.1
act-once now id expected action s out later other again h done =
    elim (act-cases now id expected action s out h) [
      | inl r ↦ absurd (not_both out.0.disposition r.1 done)
      | inr (inl c) ↦ absurd (not_both out.0.disposition c.result done)
      | inr (inr r) ↦
          let key = find_card-key id s.cards {c = r.card} r.found in
          let resolved = resolved_card (r.card.version + 1) r.action now r.card in
          let found =
            ap (find_card id) (r.cards ∙ ap (λ i. replace_card i resolved s.cards) key)
            ∙ find-replace_card id resolved s.cards {c = r.card} key r.found in
          act-settled later id other again out.1 resolved found refl
    ]
  where
    not_both : (d : Disposition) → d ≡ refused → d ≡ applied → ⊥
    not_both d e f = cc
