-- ===== src/Scheduling/Delivery.antt =====
-- The delivery of scheduling review cards: `claim_next` of
-- `TaskSchedulingService` in task_scheduling.py.
pub mod Total
use foxhound.Prelude.{
  ℕ, ◌+◌, String, Bool, true, false, not, ◌&&◌, ◌||◌, Option, none, some, List, [], ◌∷◌, ltb, leb,
  ◌==◌, if◌then◌else◌, Attempt, ok, raise, ledger_error, ◌>>=◌,
}
use Prim.Native.Char.{code}
use foxhound.Schema.{char_count}
use foxhound.Scheduling.{SchedulingService, card_event}
use foxhound.Scheduling.Rows.{Card, CardStatus, pending, delivering, CardEventKind, SchedulingDb}
use foxhound.Scheduling.Document.{valid_digest}
use foxhound.Scheduling.CardRow.{write_card}

no_char : ℕ → String → Bool
no_char n String.[] = true
no_char n (String.◌∷◌ c s) = not (code c == n) && no_char n s

-- `_valid_secret`.
unfoldable pub valid_token : String → Bool
unfolding char_count no_char
valid_token s = leb 32 (char_count s) && leb (char_count s) 512 && no_char 0 s

-- `_valid_opaque`.
unfoldable pub valid_opaque : String → ℕ → Bool
unfolding char_count no_char
valid_opaque s most =
    leb 1 (char_count s) && leb (char_count s) most && no_char 0 s && no_char 10 s && no_char 13 s

-- The row that is pending again, at the next version.
abbrev pub returned_card : ℕ → Card → Card
returned_card now c = record c {
  status = pending;
  version = c.version + 1;
  claim_token_digest = none;
  claim_expires_at = none;
  consumer_digest = none;
  updated_at = now;
}

lapsed_by : ℕ → Option ℕ → Bool
lapsed_by now none = false
lapsed_by now (some at) = leb at now

-- `status='delivering' AND claim_expires_at<=?`.
expired_in : CardStatus → ℕ → Option ℕ → Bool
unfolding lapsed_by
expired_in delivering now expires = lapsed_by now expires
expired_in _ now expires = false

unfoldable pub has_expired : ℕ → Card → Bool
unfolding expired_in
has_expired now c = expired_in c.status now c.claim_expires_at

-- The expired deliveries, in the order of their ids.
unfoldable pub expire : ℕ → List Card → SchedulingDb → Attempt SchedulingDb
unfolding has_expired write_card
expire now [] s = ok s
expire now (c ∷ cs) s =
    if has_expired now c
    then (write_card (returned_card now c) s >>= (λ s1.
        expire now cs (card_event c CardEventKind.delivery_expired (c.version + 1) none now s1)))
    else expire now cs s

is_pending : CardStatus → Bool
is_pending pending = true
is_pending _ = false

-- The earlier of two cards, by the time of creation and then by id.
earlier : Card → Card → Card
earlier c d =
    if ltb d.created_at c.created_at || (d.created_at == c.created_at && ltb d.id c.id)
    then d
    else c

earlier_of : Card → Option Card → Option Card
unfolding earlier
earlier_of c none = some c
earlier_of c (some d) = some (earlier c d)

-- The change set of a card exists, by its foreign key.
-- `WHERE c.status='pending' ORDER BY c.created_at,c.id LIMIT 1`.
unfoldable pub next_pending : List Card → Option Card
unfolding is_pending earlier_of
next_pending [] = none
next_pending (c ∷ cs) =
    let rest = next_pending cs in if is_pending c.status then earlier_of c rest else rest

-- `SchedulingDeliveryClaim`, with the card that it shows.
pub record DeliveryClaim : Type 0 where
  pub card : Card
  pub token : String
  pub expires_at : ℕ

abbrev pub claimed_card : String → ℕ → String → ℕ → Card → Card
claimed_card digest expires consumer now c = record c {
  status = delivering;
  version = c.version + 1;
  claim_token_digest = some digest;
  claim_expires_at = some expires;
  consumer_digest = some consumer;
  updated_at = now;
}

unfoldable pub claim_card :
    String
    → String
    → ℕ
    → String
    → ℕ
    → Option Card
    → SchedulingDb
    → Attempt (Option DeliveryClaim × SchedulingDb)
unfolding write_card
claim_card token digest expires consumer now none s = ok (none, s)
claim_card token digest expires consumer now (some c) s = do
  let v = claimed_card digest expires consumer now c
  s1 ← write_card v s
  ok (
    some (record { card = v; token = token; expires_at = expires }),
    card_event c CardEventKind.delivery_claimed v.version none now s1,
  )

-- `claim_next`, with the token that the factory gave it.
unfoldable pub claim_next :
    SchedulingService
    → ℕ
    → String
    → ℕ
    → String
    → SchedulingDb
    → Attempt (Option DeliveryClaim × SchedulingDb)
unfolding valid_digest valid_token expire next_pending claim_card
claim_next service now consumer lease token s =
    if leb 5 lease && leb lease 300 && valid_digest consumer && valid_token token
    then (expire now s.cards s >>= (λ s1.
        claim_card token (service.token_digest token) (now + lease) consumer now
          (next_pending s1.cards) s1))
    else raise ledger_error
