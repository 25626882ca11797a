-- ===== src/Scheduling/Report/Again.antt =====
-- `complete_delivery` of task_scheduling.py called again: the report of one delivery is repeatable.
use foxhound.Prelude.{
  ℕ, ◌≡◌, refl, sym, ap, ◌∙◌, String, true, ◌&&◌, none, some, All, ok, leb, ◌==◌, str_eq, eq_iff,
  arith, Bool-cases, inl, inr,
}
use foxhound.Operation.{applied, unchanged}
use foxhound.Scheduling.{
  SchedulingService, invalid_argument, card_event, CardActionResult, refuse_card, card_result,
  find_card, replace_card,
}
use foxhound.Scheduling.Rows.{Card, CardEventKind, SchedulingDb}
use foxhound.Scheduling.CardRow.Moves.{Checked}
use foxhound.Scheduling.Act.Once.{find_card-key, find-replace_card}
use foxhound.Scheduling.Delivery.{valid_token, valid_opaque}
use foxhound.Scheduling.Report.{
  delivered_card, is_delivered, complete_at, complete_found, complete_delivery,
}
use foxhound.Scheduling.Report.Total.{Reports, complete_delivery_total}

applied_valid :
    (service : SchedulingService) (now id version : ℕ) (token transport ref : String)
    (s : SchedulingDb) (out : CardActionResult × SchedulingDb)
    → complete_delivery service now id version token transport ref s ≡ ok out
    → out.0.disposition ≡ applied
    → (leb 1 id
        && leb 1 version
        && valid_token token
        && valid_opaque transport 64
        && valid_opaque ref 200)
      ≡ true
unfolding complete_delivery
applied_valid service now id version token transport ref s out h done =
    elim (Bool-cases (
      leb 1 id
      && leb 1 version
      && valid_token token
      && valid_opaque transport 64
      && valid_opaque ref 200)) [ inl e ↦ e | inr e ↦ absurd (idle (rw e at h)) ]
  where
    idle : ok (refuse_card id invalid_argument, s) ≡ ok out → ⊥
    idle z = (let e : refuse_card id invalid_argument ≡ out.0 = cc in cc)

same_itself : (s : String) → str_eq s s ≡ true
same_itself s = (eq_iff s s).1 refl

complete-delivered :
    (service : SchedulingService) (now before id version : ℕ) (token transport ref : String)
    (c : Card) (s : SchedulingDb)
    → (leb 1 id
        && leb 1 version
        && valid_token token
        && valid_opaque transport 64
        && valid_opaque ref 200)
      ≡ true
    → c.version ≡ version
    → find_card id s.cards ≡ some (delivered_card transport ref before c)
    → complete_delivery service now id version token transport ref s
      ≡ ok (card_result unchanged c.id c.version, s)
unfolding complete_delivery complete_found complete_at is_delivered
complete-delivered service now before id version token transport ref c s valid at f =
    let same : (c.version == version) ≡ true = ground (arith, at) in
    rw (valid, f) (rw (same, same_itself transport, same_itself ref) refl)

-- A delivery that was reported is reported again without effect: the same report, at any later time,
-- is answered as unchanged, with the card and its version, and changes nothing.
pub complete-again :
    (service : SchedulingService) (now later id version : ℕ) (token transport ref : String)
    (s : SchedulingDb) (out : CardActionResult × SchedulingDb)
    → All Checked s.cards
    → complete_delivery service now id version token transport ref s ≡ ok out
    → out.0.disposition ≡ applied
    → complete_delivery service later id version token transport ref out.1
      ≡ ok (card_result unchanged id version, out.1)
complete-again service now later id version token transport ref s out checked h done =
    elim (complete_delivery_total service now id version token s checked transport ref) [
      | inl (r, e, other) ↦ absurd (other (same_result r (sym e ∙ h) ∙ done))
      | inr rep ↦ again rep
    ]
  where
    same_result : (r : CardActionResult) → ok (r, s) ≡ ok out → r.disposition ≡ out.0.disposition
    same_result r z = cc

    after_cards :
        (c : Card)
        → ok (
          card_result applied c.id version,
          card_event c CardEventKind.delivered version none now
              (record s { cards = replace_card c.id (delivered_card transport ref now c) s.cards }),
        )
          ≡ ok out
        → out.1.cards ≡ replace_card c.id (delivered_card transport ref now c) s.cards
    after_cards c z = cc

    again :
        Reports
          (complete_delivery service now id version token transport ref s)
          s
          id
          version
          (service.token_digest token)
          now
          (delivered_card transport ref now)
          CardEventKind.delivered
          version
        → complete_delivery service later id version token transport ref out.1
          ≡ ok (card_result unchanged id version, out.1)
    again rep =
        let c = rep.card in
        let key = find_card-key id s.cards {c = c} rep.found in
        let cards = after_cards c (sym rep.result ∙ h) in
        let found =
          ap (find_card id)
            (cards ∙ ap (λ i. replace_card i (delivered_card transport ref now c) s.cards) key)
          ∙ find-replace_card id (delivered_card transport ref now c) s.cards {c = c} key
              rep.found in
        complete-delivered service later now id version token transport ref c out.1
          (applied_valid service now id version token transport ref s out h done) rep.held.at found
        ∙ ap (λ i. ok (card_result unchanged i c.version, out.1)) key
        ∙ ap (λ v. ok (card_result unchanged id v, out.1)) rep.held.at
