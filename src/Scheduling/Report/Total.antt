-- ===== src/Scheduling/Report/Total.antt =====
-- Every call that reports a delivery of a scheduling review card of task_scheduling.py.
use foxhound.Prelude.{
  ℕ, ◌+◌, ◌<◌, ◌≡◌, ◌≢◌, refl, ap, ◌∙◌, String, true, ◌&&◌, Option, none, some, All, ok, leb, ◌==◌,
  str_eq, eq_iff, arith, Bool-cases, Option-cases, inl, inr, ◌⊎◌, Attempt,
}
use foxhound.Operation.{applied, unchanged}
use foxhound.Scheduling.{
  SchedulingService, SchedulingRefusal, invalid_argument, not_found, stale_card, invalid_state,
  CardActionResult, refuse_card, card_result, find_card, replace_card, card_event,
}
use foxhound.Scheduling.Rows.{
  Card, CardStatus, pending, delivering, delivered, resolved, CardEventKind, SchedulingDb,
}
use foxhound.Scheduling.CardRow.Moves.{
  Checked, returned_card-Checked, delivered_card-Checked, find_card-Checked, write_card-Checked,
}
use foxhound.Scheduling.Delivery.{valid_token, valid_opaque, returned_card}
use foxhound.Scheduling.Report.{
  delivery_claim_guard, is_delivering, delivery_guard, delivered_card, same_place, is_delivered,
  complete_guarded, complete_at, complete_found, complete_delivery, fail_guarded, fail_found,
  fail_delivery,
}

-- A card that is being delivered under a token, whose lease has not lapsed.
pub record Held (c : Card) (version : ℕ) (digest : String) (now : ℕ) : Type 0 where
  pub status : c.status ≡ delivering
  pub at : c.version ≡ version
  pub token : c.claim_token_digest ≡ some digest
  pub lease : (at : ℕ) × (c.claim_expires_at ≡ some at) × (now < at)

is_delivering-lem : (s : CardStatus) → is_delivering s ≡ true → s ≡ delivering
unfolding is_delivering
is_delivering-lem delivering h = refl
is_delivering-lem pending h = cc
is_delivering-lem delivered h = cc
is_delivering-lem resolved h = cc

delivery_claim_guard-none :
    (held : Option String) (expires : Option ℕ) (digest : String) (now : ℕ)
    → delivery_claim_guard held expires digest now ≡ none
    → (held ≡ some digest) × ((at : ℕ) × (expires ≡ some at) × (now < at))
unfolding delivery_claim_guard
delivery_claim_guard-none none expires digest now h = cc
delivery_claim_guard-none (some x) none digest now h = elim (Bool-cases (str_eq x digest)) [
  | inl e ↦ (let z = (rw e at h) in cc)
  | inr e ↦ (let z = (rw e at h) in cc)
]
delivery_claim_guard-none (some x) (some at) digest now h = elim (Bool-cases (str_eq x digest)) [
  | inr e ↦ (let z = (rw e at h) in cc)
  | inl e ↦ (ap some ((eq_iff x digest).0 e), (at, refl, ground (arith, (rw e at h))))
]

delivery_guard-Held :
    (c : Card) (version : ℕ) (digest : String) (now : ℕ)
    → delivery_guard c version digest now ≡ none
    → Held c version digest now
unfolding delivery_guard
delivery_guard-Held c version digest now h = elim (Bool-cases (c.version == version)) [
  | inr e ↦ (let z = (rw e at h) in cc)
  | inl e ↦ elim (Bool-cases (is_delivering c.status)) [
    | inr d ↦ (let z = (rw (e, d) at h) in cc)
    | inl d ↦
        let (token, lease) =
          delivery_claim_guard-none c.claim_token_digest c.claim_expires_at digest now
            (rw (e, d) at h) in
        record {
          status = is_delivering-lem c.status d;
          at = ground (arith, e);
          token = token;
          lease = lease;
        }
  ]
]

-- A call that changed nothing: it was refused, or the card had been delivered to the same place.
abbrev pub Idle : Attempt (CardActionResult × SchedulingDb) → SchedulingDb → Type 0
Idle m s = (r : CardActionResult) × (m ≡ ok (r, s)) × (r.disposition ≢ applied)

-- The card that its holder reported, with one event.
pub record Reports (m : Attempt (CardActionResult × SchedulingDb)) (s : SchedulingDb)
    (id version : ℕ) (digest : String) (now : ℕ) (move : Card → Card) (kind : CardEventKind)
    (next : ℕ) : Type 0 where
  pub card : Card
  pub found : find_card id s.cards ≡ some card
  pub held : Held card version digest now
  pub result :
      m
      ≡ ok (
        card_result applied card.id next,
        card_event card kind next none now
            (record s { cards = replace_card card.id (move card) s.cards }),
      )

idle :
    (m : Attempt (CardActionResult × SchedulingDb)) (id : ℕ) (x : SchedulingRefusal)
    (s : SchedulingDb)
    → m ≡ ok (refuse_card id x, s)
    → Idle m s
idle m id x s e = (refuse_card id x, e, λ z. cc)

module _ (service : SchedulingService) (now id version : ℕ) (token : String) (s : SchedulingDb)
    (valid : All Checked s.cards) where
  digest : String
  digest = service.token_digest token

  fail_found_total :
      (o : Option Card)
      → find_card id s.cards ≡ o
      → Idle (fail_found id version digest now o s) s
        ⊎ Reports
            (fail_found id version digest now o s)
            s
            id
            version
            digest
            now
            (returned_card now)
            CardEventKind.delivery_failed
            (version + 1)
  unfolding fail_found fail_guarded
  fail_found_total none f = inl (refuse_card id not_found, refl, λ z. cc)
  fail_found_total (some c) f = elim (Option-cases (delivery_guard c version digest now)) [
    | inr (x, e) ↦ inl (refuse_card c.id x, rw e refl, λ z. cc)
    | inl e ↦
        let held = delivery_guard-Held c version digest now e in
        let checked = find_card-Checked id s.cards {c = c} valid f in
        let wrote =
          write_card-Checked (returned_card now c) s
            (returned_card-Checked now c held.status checked) in
        inr (record {
          card = c;
          found = f;
          held = held;
          result = rw e (rw wrote refl) ∙ ap (λ v. ok (failed c v)) held.at;
        })
  ]
    where
      failed : Card → ℕ → CardActionResult × SchedulingDb
      failed c v = (
        card_result applied c.id (v + 1),
        card_event c CardEventKind.delivery_failed (v + 1) none now
            (record s { cards = replace_card c.id (returned_card now c) s.cards }),
      )

  -- `fail_delivery`, by its branches.
  pub fail_delivery_total :
      Idle (fail_delivery service now id version token s) s
      ⊎ Reports
          (fail_delivery service now id version token s)
          s
          id
          version
          (service.token_digest token)
          now
          (returned_card now)
          CardEventKind.delivery_failed
          (version + 1)
  unfolding fail_delivery digest
  fail_delivery_total = elim (Bool-cases (leb 1 id && leb 1 version && valid_token token)) [
    | inr e ↦ inl (refuse_card id invalid_argument, rw e refl, λ z. cc)
    | inl e ↦ rw e (fail_found_total (find_card id s.cards) refl)
  ]

  module _ (transport ref : String) where
    Completes : Attempt (CardActionResult × SchedulingDb) → Type 0
    Completes m =
        Idle m s
        ⊎ Reports m s id version (service.token_digest token) now (delivered_card transport ref now)
            CardEventKind.delivered version

    complete_at_total :
        (c : Card)
        → find_card id s.cards ≡ some c
        → c.version ≡ version
        → Completes (complete_at c (service.token_digest token) transport ref now s)
    unfolding complete_at complete_guarded Completes
    complete_at_total c f at = elim (Bool-cases (is_delivered c.status)) [
      | inl e ↦
          elim (Bool-cases (same_place c.transport transport && same_place c.delivery_ref ref)) [
            | inl p ↦ inl (card_result unchanged c.id c.version, rw (e, p) refl, λ z. cc)
            | inr p ↦ inl (refuse_card c.id invalid_state, rw (e, p) refl, λ z. cc)
          ]
      | inr e ↦ elim (Option-cases (delivery_guard c c.version (service.token_digest token) now)) [
        | inr (x, g) ↦ inl (refuse_card c.id x, rw (e, g) refl, λ z. cc)
        | inl g ↦
            let held = delivery_guard-Held c c.version (service.token_digest token) now g in
            let checked = find_card-Checked id s.cards {c = c} valid f in
            let wrote =
              write_card-Checked (delivered_card transport ref now c) s
                (delivered_card-Checked transport ref now c held.status checked) in
            inr (record {
              card = c;
              found = f;
              held = record {
                status = held.status;
                at = at;
                token = held.token;
                lease = held.lease;
              };
              result = rw (e, g) (rw wrote refl) ∙ ap (λ v. ok (completed c v)) at;
            })
      ]
    ]
      where
        completed : Card → ℕ → CardActionResult × SchedulingDb
        completed c v = (
          card_result applied c.id v,
          card_event c CardEventKind.delivered v none now
              (record s { cards = replace_card c.id (delivered_card transport ref now c) s.cards }),
        )

    complete_found_total :
        (o : Option Card)
        → find_card id s.cards ≡ o
        → Completes (complete_found id version (service.token_digest token) transport ref now o s)
    unfolding complete_found Completes
    complete_found_total none f = inl (refuse_card id not_found, refl, λ z. cc)
    complete_found_total (some c) f = elim (Bool-cases (c.version == version)) [
      | inr e ↦ inl (refuse_card c.id stale_card, rw e refl, λ z. cc)
      | inl e ↦ rw e (complete_at_total c f (ground (arith, e)))
    ]

    -- `complete_delivery`, by its branches.
    pub complete_delivery_total :
        Idle (complete_delivery service now id version token transport ref s) s
        ⊎ Reports
            (complete_delivery service now id version token transport ref s)
            s
            id
            version
            (service.token_digest token)
            now
            (delivered_card transport ref now)
            CardEventKind.delivered
            version
    unfolding complete_delivery Completes
    complete_delivery_total =
        elim (Bool-cases (
          leb 1 id
          && leb 1 version
          && valid_token token
          && valid_opaque transport 64
          && valid_opaque ref 200)) [
            | inr e ↦ inl (refuse_card id invalid_argument, rw e refl, λ z. cc)
            | inl e ↦ rw e (complete_found_total (find_card id s.cards) refl)
          ]
