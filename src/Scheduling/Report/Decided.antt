-- ===== src/Scheduling/Report/Decided.antt =====
-- When a report of a delivery takes effect, in task_scheduling.py.
use foxhound.Prelude.{
  ℕ, ◌≡◌, refl, sym, ◌∙◌, String, true, false, ◌&&◌, none, some, All, Attempt, ok, leb, ◌==◌, arith,
  inl, inr, ◌⊎◌, str_eq, eq_iff,
}
use foxhound.Operation.{applied}
use foxhound.Scheduling.{
  SchedulingService, CardActionResult, card_result, card_event, find_card, replace_card,
}
use foxhound.Scheduling.Rows.{Card, CardStatus, delivering, CardEventKind, SchedulingDb}
use foxhound.Scheduling.CardRow.Moves.{
  Checked, delivered_card-Checked, find_card-Checked, write_card-Checked,
}
use foxhound.Scheduling.Delivery.{valid_token, valid_opaque}
use foxhound.Scheduling.Report.{
  delivery_claim_guard, is_delivering, is_delivered, delivery_guard, delivered_card,
  complete_guarded, complete_at, complete_found, complete_delivery,
}
use foxhound.Scheduling.Report.Total.{Held, Idle, Reports, complete_delivery_total}

delivering-lem :
    (x : CardStatus) → x ≡ delivering → (is_delivering x ≡ true) × (is_delivered x ≡ false)
unfolding is_delivering is_delivered
delivering-lem CardStatus.delivering e = (refl, refl)
delivering-lem CardStatus.pending e = cc
delivering-lem CardStatus.delivered e = cc
delivering-lem CardStatus.resolved e = cc

-- The holder of a delivery passes its guard.
Held-guard :
    (c : Card) (version : ℕ) (digest : String) (now : ℕ)
    → Held c version digest now
    → delivery_guard c version digest now ≡ none
unfolding delivery_guard delivery_claim_guard
Held-guard c version digest now held =
    let at : (c.version == version) ≡ true = ground (arith, held.at) in
    let status = (delivering-lem c.status held.status).0 in
    let token : str_eq digest digest ≡ true = (eq_iff digest digest).1 refl in
    let (limit, expires, ahead) = held.lease in
    let live : leb limit now ≡ false = ground (arith, ahead) in
    rw (at, status, held.token, expires) (rw (token, live) refl)

-- A call that applied something is not idle.
applied-busy :
    (m : Attempt (CardActionResult × SchedulingDb)) (out : CardActionResult × SchedulingDb)
    (s : SchedulingDb)
    → m ≡ ok out
    → out.0.disposition ≡ applied
    → Idle m s
    → ⊥
applied-busy m out s e done (x, f, other) = other (same_disposition x (sym f ∙ e) ∙ done)
  where
    same_disposition :
        (r : CardActionResult) → ok (r, s) ≡ ok out → r.disposition ≡ out.0.disposition
    same_disposition r z = cc

-- Somebody holds the delivery of a card of the table.
abbrev pub Holds : ℕ → ℕ → String → ℕ → SchedulingDb → Type 0
Holds id version digest now s =
    (c : Card) × (find_card id s.cards ≡ some c) × Held c version digest now

module _ (service : SchedulingService) (now id version : ℕ) (token : String) (s : SchedulingDb)
    (checked : All Checked s.cards) where
  module _ (transport ref : String) where
    complete-busy :
        (leb 1 id
            && leb 1 version
            && valid_token token
            && valid_opaque transport 64
            && valid_opaque ref 200)
          ≡ true
        → Holds id version (service.token_digest token) now s
        → Idle (complete_delivery service now id version token transport ref s) s
        → ⊥
    unfolding complete_delivery complete_found complete_at complete_guarded
    complete-busy valid (c, f, held) =
        let move = delivered_card transport ref now in
        let digest = service.token_digest token in
        let guard =
          Held-guard c c.version digest now
            (record { status = held.status; at = refl; token = held.token; lease = held.lease }) in
        let at : (c.version == version) ≡ true = ground (arith, held.at) in
        let waits = (delivering-lem c.status held.status).1 in
        let checks =
          delivered_card-Checked transport ref now c held.status
            (find_card-Checked id s.cards {c = c} checked f) in
        let out : CardActionResult × SchedulingDb = (
          card_result applied c.id c.version,
          card_event c CardEventKind.delivered c.version none now
              (record s { cards = replace_card c.id (move c) s.cards }),
        ) in
        applied-busy (complete_delivery service now id version token transport ref s) out s
          (rw (valid, f)
            (rw (at, waits) (rw guard (rw (write_card-Checked (move c) s checks) refl))))
          refl

    -- On checked cards `complete_delivery` never raises, and takes effect exactly for the holder: either
    -- the caller holds the delivery of the card at that version, by its token and under a lease that has
    -- not lapsed, and the card becomes delivered at the place given, with one event; or the call changes
    -- nothing and applies nothing, and then its arguments are invalid or the caller is no such holder.
    pub complete_delivery_decided :
        Reports
          (complete_delivery service now id version token transport ref s)
          s
          id
          version
          (service.token_digest token)
          now
          (delivered_card transport ref now)
          CardEventKind.delivered
          version
        ⊎ (Idle (complete_delivery service now id version token transport ref s) s
            × ((leb 1 id
                    && leb 1 version
                    && valid_token token
                    && valid_opaque transport 64
                    && valid_opaque ref 200)
                  ≡ true
                → Holds id version (service.token_digest token) now s
                → ⊥))
    complete_delivery_decided =
        elim (complete_delivery_total service now id version token s checked transport ref) [
          | inl idle ↦ inr (idle, λ valid holds. complete-busy valid holds idle)
          | inr reports ↦ inl reports
        ]
