-- ===== src/Scheduling/CardRow.antt =====
-- The CHECKs of `task_scheduling_review_cards` (candidate_inbox.py), and the UPDATE of a card.
pub mod Moves
use foxhound.Prelude.{
  String, Bool, true, ◌&&◌, Option, none, some, leb, ◌==◌, is_some, is_none, if◌then◌else◌, Attempt,
  ok, raise, integrity_error,
}
use foxhound.Schema.{char_count}
use foxhound.Scheduling.{replace_card}
use foxhound.Scheduling.Rows.{
  Card, CardStatus, pending, delivering, delivered, resolved, SchedulingDb,
}

digest_length : Option String → Bool
unfolding char_count
digest_length none = true
digest_length (some s) = char_count s == 64

-- The CHECK on the columns of each status.
status_columns : CardStatus → Card → Bool
status_columns pending c =
    is_none c.resolution
    && is_none c.claim_token_digest
    && is_none c.claim_expires_at
    && is_none c.consumer_digest
    && is_none c.transport
    && is_none c.delivery_ref
    && is_none c.delivered_at
    && is_none c.resolved_at
status_columns delivering c =
    is_none c.resolution
    && is_some c.claim_token_digest
    && is_some c.claim_expires_at
    && is_some c.consumer_digest
    && is_none c.transport
    && is_none c.delivery_ref
    && is_none c.delivered_at
    && is_none c.resolved_at
status_columns delivered c =
    is_none c.resolution
    && is_none c.claim_token_digest
    && is_none c.claim_expires_at
    && is_some c.consumer_digest
    && is_some c.transport
    && is_some c.delivery_ref
    && is_some c.delivered_at
    && is_none c.resolved_at
status_columns resolved c =
    is_some c.resolution
    && is_none c.claim_token_digest
    && is_none c.claim_expires_at
    && is_some c.consumer_digest
    && is_some c.transport
    && is_some c.delivery_ref
    && is_some c.delivered_at
    && is_some c.resolved_at

-- The CHECKs of `task_scheduling_review_cards`.
unfoldable pub card_checks : Card → Bool
unfolding digest_length status_columns
card_checks c =
    leb 1 c.version
    && digest_length c.claim_token_digest
    && digest_length c.consumer_digest
    && status_columns c.status c

-- An UPDATE of a card that was read in the same transaction.
unfoldable pub write_card : Card → SchedulingDb → Attempt SchedulingDb
unfolding card_checks
write_card c s =
    if card_checks c
    then ok (record s { cards = replace_card c.id c s.cards })
    else raise integrity_error
