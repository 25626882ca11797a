-- ===== src/Scheduling/Report.antt =====
-- The report of a delivery: `complete_delivery` and `fail_delivery` of `TaskSchedulingService` in
-- task_scheduling.py.
pub mod Total
pub mod Again
pub mod Decided
use foxhound.Prelude.{
  ℕ, ◌+◌, String, Bool, true, false, ◌&&◌, Option, none, some, leb, ◌==◌, str_eq, if◌then◌else◌,
  Attempt, ok, ◌>>=◌,
}
use foxhound.Operation.{applied, unchanged}
use foxhound.Scheduling.{
  SchedulingService, SchedulingRefusal, invalid_argument, not_found, stale_card, invalid_state,
  claim_mismatch, CardActionResult, refuse_card, card_result, find_card, card_event,
}
use foxhound.Scheduling.Rows.{Card, CardStatus, delivering, delivered, CardEventKind, SchedulingDb}
use foxhound.Scheduling.CardRow.{write_card}
use foxhound.Scheduling.Delivery.{valid_token, valid_opaque, returned_card}

delivery_claim_guard : Option String → Option ℕ → String → ℕ → Option SchedulingRefusal
delivery_claim_guard none expires digest now = some claim_mismatch
delivery_claim_guard (some stored) none digest now =
    if str_eq stored digest then some invalid_state else some claim_mismatch
delivery_claim_guard (some stored) (some expires) digest now =
    if str_eq stored digest
    then if leb expires now then some invalid_state else none
    else some claim_mismatch

is_delivering : CardStatus → Bool
is_delivering delivering = true
is_delivering _ = false

-- `_delivery_guard`, for a row that was found.
unfoldable pub delivery_guard : Card → ℕ → String → ℕ → Option SchedulingRefusal
unfolding delivery_claim_guard is_delivering
delivery_guard c expected digest now =
    if c.version == expected
    then if is_delivering c.status
      then delivery_claim_guard c.claim_token_digest c.claim_expires_at digest now
      else some invalid_state
    else some stale_card

abbrev pub delivered_card : String → String → ℕ → Card → Card
delivered_card transport ref now c = record c {
  status = delivered;
  claim_token_digest = none;
  claim_expires_at = none;
  transport = some transport;
  delivery_ref = some ref;
  delivered_at = some now;
  updated_at = now;
}

abbrev same_place : Option String → String → Bool
same_place none s = false
same_place (some t) s = str_eq t s

complete_guarded :
    Card
    → String
    → String
    → ℕ
    → Option SchedulingRefusal
    → SchedulingDb
    → Attempt (CardActionResult × SchedulingDb)
unfolding write_card
complete_guarded c transport ref now (some x) s = ok (refuse_card c.id x, s)
complete_guarded c transport ref now none s = do
  s1 ← write_card (delivered_card transport ref now c) s
  ok (
    card_result applied c.id c.version,
    card_event c CardEventKind.delivered c.version none now s1,
  )

is_delivered : CardStatus → Bool
is_delivered delivered = true
is_delivered _ = false

-- The card was found at the caller's version.
complete_at :
    Card → String → String → String → ℕ → SchedulingDb → Attempt (CardActionResult × SchedulingDb)
unfolding is_delivered delivery_guard complete_guarded
complete_at c digest transport ref now s =
    if is_delivered c.status
    then if same_place c.transport transport && same_place c.delivery_ref ref
      then ok (card_result unchanged c.id c.version, s)
      else ok (refuse_card c.id invalid_state, s)
    else complete_guarded c transport ref now (delivery_guard c c.version digest now) s

complete_found :
    ℕ
    → ℕ
    → String
    → String
    → String
    → ℕ
    → Option Card
    → SchedulingDb
    → Attempt (CardActionResult × SchedulingDb)
unfolding complete_at
complete_found id expected digest transport ref now none s = ok (refuse_card id not_found, s)
complete_found id expected digest transport ref now (some c) s =
    if c.version == expected
    then complete_at c digest transport ref now s
    else ok (refuse_card c.id stale_card, s)

-- `complete_delivery`.
unfoldable pub complete_delivery :
    SchedulingService
    → ℕ
    → ℕ
    → ℕ
    → String
    → String
    → String
    → SchedulingDb
    → Attempt (CardActionResult × SchedulingDb)
unfolding valid_token valid_opaque complete_found
complete_delivery service now id expected token transport ref s =
    if leb 1 id
      && leb 1 expected
      && valid_token token
      && valid_opaque transport 64
      && valid_opaque ref 200
    then complete_found id expected (service.token_digest token) transport ref now
        (find_card id s.cards) s
    else ok (refuse_card id invalid_argument, s)

fail_guarded :
    Card → ℕ → Option SchedulingRefusal → SchedulingDb → Attempt (CardActionResult × SchedulingDb)
unfolding write_card
fail_guarded c now (some x) s = ok (refuse_card c.id x, s)
fail_guarded c now none s = do
  s1 ← write_card (returned_card now c) s
  ok (
    card_result applied c.id (c.version + 1),
    card_event c CardEventKind.delivery_failed (c.version + 1) none now s1,
  )

fail_found :
    ℕ → ℕ → String → ℕ → Option Card → SchedulingDb → Attempt (CardActionResult × SchedulingDb)
unfolding delivery_guard fail_guarded
fail_found id expected digest now none s = ok (refuse_card id not_found, s)
fail_found id expected digest now (some c) s =
    fail_guarded c now (delivery_guard c expected digest now) s

-- `fail_delivery`.
unfoldable pub fail_delivery :
    SchedulingService
    → ℕ
    → ℕ
    → ℕ
    → String
    → SchedulingDb
    → Attempt (CardActionResult × SchedulingDb)
unfolding valid_token fail_found
fail_delivery service now id expected token s =
    if leb 1 id && leb 1 expected && valid_token token
    then fail_found id expected (service.token_digest token) now (find_card id s.cards) s
    else ok (refuse_card id invalid_argument, s)
