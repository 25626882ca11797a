-- ===== src/Scheduling/Steps.antt =====
-- The operations of `TaskSchedulingService` in task_scheduling.py as steps between databases, and
-- histories of them.
use foxhound.Prelude.{
  ℕ, ◌+◌, ◌≡◌, refl, sym, subst, ◌∙◌, String, true, false, ◌&&◌, Option, none, List, [], ◌∷◌, ◌++◌,
  All, ok, raise, leb, ◌==◌, Bool-cases, inl, inr, ledger_error,
}
use foxhound.Schema.{char_count}
use foxhound.Operation.{applied}
use foxhound.Scheduling.{
  SchedulingService, ApplyResult, CardActionResult, card_result, card_event, replace_card,
}
use foxhound.Scheduling.Rows.{
  Recommendation, Card, CardStatus, delivered, CardEventKind, SchedulingDb,
}
use foxhound.Scheduling.Callback.{CardAction}
use foxhound.Scheduling.Document.{valid_digest}
use foxhound.Scheduling.CardRow.Moves.{
  Checked, returned_card-Checked, delivered_card-Checked, resolved_card-Checked, find_card-Checked,
  All-replace_card, new_card-Checked,
}
use foxhound.Scheduling.Change.{recorded}
use foxhound.Scheduling.Apply.{apply}
use foxhound.Scheduling.Apply.Cases.{apply-cases}
use foxhound.Scheduling.Apply.Limits.{Limits, apply-Limits}
use foxhound.Scheduling.Act.{act, is_delivered, resolved_card}
use foxhound.Scheduling.Act.Cases.{act-cases, act-Limits}
use foxhound.Scheduling.Delivery.{DeliveryClaim, valid_token, claim_next, returned_card}
use foxhound.Scheduling.Delivery.Total.{claim_next_total, claim_next-invalid}
use foxhound.Scheduling.Report.{complete_delivery, fail_delivery, delivered_card}
use foxhound.Scheduling.Report.Total.{Reports, complete_delivery_total, fail_delivery_total}

-- A call of one operation that returned, by whomever and with whatever arguments.
pub data Step (service : SchedulingService) (s : SchedulingDb) : SchedulingDb → Type 0 where
  applies :
      (now : ℕ) (given : Recommendation) (out : ApplyResult × SchedulingDb)
      → apply service now given s ≡ ok out
      → Step service s out.1
  acts :
      (now id expected : ℕ) (action : Option CardAction) (out : CardActionResult × SchedulingDb)
      → act now id expected action s ≡ ok out
      → Step service s out.1
  claims :
      (now : ℕ) (consumer : String) (lease : ℕ) (token : String)
      (out : Option DeliveryClaim × SchedulingDb)
      → claim_next service now consumer lease token s ≡ ok out
      → Step service s out.1
  completes :
      (now id expected : ℕ) (token transport ref : String) (out : CardActionResult × SchedulingDb)
      → complete_delivery service now id expected token transport ref s ≡ ok out
      → Step service s out.1
  fails :
      (now id expected : ℕ) (token : String) (out : CardActionResult × SchedulingDb)
      → fail_delivery service now id expected token s ≡ ok out
      → Step service s out.1

pub data History (service : SchedulingService) (s : SchedulingDb) : SchedulingDb → Type 0 where
  begin : History service s s
  more : {t u : SchedulingDb} → History service s t → Step service t u → History service s u

-- The limits on conditions hold, and every card passes its CHECKs.
pub record Sound (s : SchedulingDb) : Type 0 where
  pub limits : Limits s.db.conditions
  pub cards : All Checked s.cards

-- SHA-256 digests have 64 characters.
abbrev pub FullDigests : SchedulingService → Type 0
FullDigests service = (token : String) → (char_count (service.token_digest token) == 64) ≡ true

All-append : (cs : List Card) (c : Card) → All Checked cs → Checked c → All Checked (cs ++ c ∷ [])
All-append [] c h d = (d, tt)
All-append (x ∷ xs) c (h, hs) d = (h, All-append xs c hs d)

is_delivered-lem : (x : CardStatus) → is_delivered x ≡ true → x ≡ delivered
is_delivered-lem delivered h = refl
is_delivered-lem CardStatus.pending h = cc
is_delivered-lem CardStatus.delivering h = cc
is_delivered-lem CardStatus.resolved h = cc

module _ (service : SchedulingService) (s : SchedulingDb) (sound : Sound s) where
  apply-Sound :
      (now : ℕ) (given : Recommendation) (out : ApplyResult × SchedulingDb)
      → apply service now given s ≡ ok out
      → Sound out.1
  unfolding recorded
  apply-Sound now given out h = record {
    limits = apply-Limits service now given s out sound.limits h;
    cards = elim (apply-cases service now given s out h) [
      | inl kept ↦ subst (λ (t : SchedulingDb). All Checked t.cards) (sym kept.0) sound.cards
      | inr rec ↦
          subst (λ (t : ApplyResult × SchedulingDb). All Checked t.1.cards) (sym rec.result)
            (All-append s.cards _ sound.cards (new_card-Checked _ _ _ _))
    ];
  }

  act-Sound :
      (now id expected : ℕ) (action : Option CardAction) (out : CardActionResult × SchedulingDb)
      → act now id expected action s ≡ ok out
      → Sound out.1
  act-Sound now id expected action out h = record {
    limits = act-Limits now id expected action s out sound.limits h;
    cards = elim (act-cases now id expected action s out h) [
      | inl r ↦ subst (λ (t : SchedulingDb). All Checked t.cards) (sym r.0) sound.cards
      | inr (inl c) ↦ subst (All Checked) (sym c.cards) sound.cards
      | inr (inr r) ↦
          let checked = find_card-Checked id s.cards {c = r.card} sound.cards r.found in
          subst (All Checked) (sym r.cards) (
            All-replace_card r.card.id (resolved_card (r.card.version + 1) r.action now r.card)
              s.cards sound.cards
              (resolved_card-Checked r.action now r.card
                (is_delivered-lem r.card.status r.delivered) checked))
    ];
  }

  Idle-Sound :
      (out : CardActionResult × SchedulingDb) (r : CardActionResult)
      → ok (r, s) ≡ ok out
      → Sound out.1
  Idle-Sound out r h = (let e : s ≡ out.1 = cc in subst Sound e sound)

  Reports-Sound :
      (id version : ℕ) (digest : String) (now : ℕ) (move : Card → Card) (kind : CardEventKind)
      (next : ℕ) (out : CardActionResult × SchedulingDb)
      → ((c : Card) → c.status ≡ CardStatus.delivering → Checked c → Checked (move c))
      → Reports (ok out) s id version digest now move kind next
      → Sound out.1
  Reports-Sound id version digest now move kind next out keeps rep =
      let c = rep.card in
      let checked =
        keeps c rep.held.status (find_card-Checked id s.cards {c = c} sound.cards rep.found) in
      let after : SchedulingDb =
        card_event c kind next none now (record s { cards = replace_card c.id (move c) s.cards }) in
      let same : after ≡ out.1 =
        after_same (card_result applied c.id next) after (sym rep.result) in
      subst Sound same (record {
        limits = sound.limits;
        cards = All-replace_card c.id (move c) s.cards sound.cards checked;
      })
    where
      after_same : (r : CardActionResult) (t : SchedulingDb) → ok (r, t) ≡ ok out → t ≡ out.1
      after_same r t z = cc

  complete-Sound :
      (now id expected : ℕ) (token transport ref : String) (out : CardActionResult × SchedulingDb)
      → complete_delivery service now id expected token transport ref s ≡ ok out
      → Sound out.1
  complete-Sound now id expected token transport ref out h =
      elim (complete_delivery_total service now id expected token s sound.cards transport ref) [
        | inl (r, e, other) ↦ Idle-Sound out r (sym e ∙ h)
        | inr rep ↦
            Reports-Sound id expected (service.token_digest token) now
              (delivered_card transport ref now) CardEventKind.delivered expected out
              (delivered_card-Checked transport ref now)
              (subst
                (λ m.
                  Reports m s id expected (service.token_digest token) now
                    (delivered_card transport ref now) CardEventKind.delivered expected)
                h rep)
      ]

  fail-Sound :
      (now id expected : ℕ) (token : String) (out : CardActionResult × SchedulingDb)
      → fail_delivery service now id expected token s ≡ ok out
      → Sound out.1
  fail-Sound now id expected token out h =
      elim (fail_delivery_total service now id expected token s sound.cards) [
        | inl (r, e, other) ↦ Idle-Sound out r (sym e ∙ h)
        | inr rep ↦
            Reports-Sound id expected (service.token_digest token) now (returned_card now)
              CardEventKind.delivery_failed (expected + 1) out (returned_card-Checked now)
              (subst
                (λ m.
                  Reports m s id expected (service.token_digest token) now (returned_card now)
                    CardEventKind.delivery_failed (expected + 1))
                h rep)
      ]

  claim-Sound :
      FullDigests service
      → (now : ℕ) (consumer : String) (lease : ℕ) (token : String)
        (out : Option DeliveryClaim × SchedulingDb)
      → claim_next service now consumer lease token s ≡ ok out
      → Sound out.1
  claim-Sound full now consumer lease token out h =
      elim (Bool-cases
        (leb 5 lease && leb lease 300 && valid_digest consumer && valid_token token)) [
          | inr e ↦ absurd (raised e)
          | inl e ↦
              let (x, done, same, cards, answers) =
                claim_next_total service now consumer lease token s sound.cards (full token) e in
              let equal : x ≡ out = out_same x (sym done ∙ h) in
              subst (λ (y : Option DeliveryClaim × SchedulingDb). Sound y.1) equal
                (record {
                  limits = subst (λ d. Limits d.conditions) (sym same) sound.limits;
                  cards = cards;
                })
        ]
    where
      raised :
          (leb 5 lease && leb lease 300 && valid_digest consumer && valid_token token) ≡ false → ⊥
      raised e =
          (let z : raise ledger_error ≡ ok out =
              sym (claim_next-invalid service now consumer lease token s e) ∙ h in
            cc)

      out_same : (x : Option DeliveryClaim × SchedulingDb) → ok x ≡ ok out → x ≡ out
      out_same x z = cc

-- One operation keeps the limits and the CHECKs.
Step-Sound :
    (service : SchedulingService) {s t : SchedulingDb}
    → FullDigests service
    → Step service s t
    → Sound s
    → Sound t
Step-Sound service {s} full (applies now given out h) sound =
    apply-Sound service s sound now given out h
Step-Sound service {s} full (acts now id expected action out h) sound =
    act-Sound service s sound now id expected action out h
Step-Sound service {s} full (claims now consumer lease token out h) sound =
    claim-Sound service s sound full now consumer lease token out h
Step-Sound service {s} full (completes now id expected token transport ref out h) sound =
    complete-Sound service s sound now id expected token transport ref out h
Step-Sound service {s} full (fails now id expected token out h) sound =
    fail-Sound service s sound now id expected token out h

-- Whatever the scheduling service is asked to do, by whomever and in whatever order, and where a token's
-- digest has its length: no chain of waiting tasks becomes longer than the depth limit or closes into a
-- circle, no task exceeds the limits on its conditions and on the tasks that it waits for, and every
-- review card passes its CHECKs, if that held at first.
pub History-Sound :
    (service : SchedulingService) {s t : SchedulingDb}
    → FullDigests service
    → History service s t
    → Sound s
    → Sound t
History-Sound service full begin sound = sound
History-Sound service full (more h step) sound =
    Step-Sound service full step (History-Sound service full h sound)
