-- ===== src/Examples/Cards.antt =====
-- The review cards of task_scheduling.py and their callbacks, on concrete tables.
use foxhound.Prelude.{
  ℕ, ◌-◌, ◌≤◌, ◌≡◌, refl, true, Option, none, some, [], ◌∷◌, All, arith, ok, ◌⊎◌, ◌&&◌, inl, inr,
  if◌then◌else◌, leb, str_eq, Bool-cases,
}
use foxhound.Schema.{char_count, normal}
use foxhound.Operation.{applied, unchanged}
use foxhound.Scheduling.{SchedulingService, CardActionResult, card_result}
use foxhound.Scheduling.Rows.{ChangeSet, Card, CardStatus, CardEventKind, SchedulingDb}
use foxhound.Scheduling.Callback.{
  Text, CardAction, keep, undo, callback, callback_text, parse_scheduling_review_callback,
}
use foxhound.Scheduling.Callback.Numerals.{IsDigit}
use foxhound.Scheduling.Callback.RoundTrip.{parse-callback, callback-fits}
use foxhound.Scheduling.Graph.{children, add_conditions}
use foxhound.Scheduling.Graph.Walks.{Walk, stay, step}
use foxhound.Scheduling.Graph.Edges.{no_children}
use foxhound.Scheduling.Target.{active_count}
use foxhound.Scheduling.Change.{new_change}
use foxhound.Scheduling.Apply.Limits.{Limits}
use foxhound.Scheduling.Act.{act}
use foxhound.Scheduling.Act.Once.{Refuses, act-once}
use foxhound.Scheduling.CardRow.{card_checks}
use foxhound.Scheduling.CardRow.Moves.{Checked}
use foxhound.Scheduling.Document.{valid_digest}
use foxhound.Scheduling.Delivery.{DeliveryClaim, claim_next, valid_token, valid_opaque}
use foxhound.Scheduling.Delivery.Total.{Answers, claim_next_total}
use foxhound.Scheduling.Report.{delivered_card, complete_delivery}
use foxhound.Scheduling.Report.Total.{Idle, Reports}
use foxhound.Scheduling.Report.Decided.{Holds, complete_delivery_decided}
use foxhound.Scheduling.Report.Again.{complete-again}
use foxhound.Scheduling.Steps.{begin, more, acts, Sound, FullDigests, History-Sound}
use foxhound.Examples.{db_of, queued_row, secret, own_digest}
use foxhound.Examples.Scheduling.{scheduling_service, scheduling_db, shown_card, raise}

abbrev pending_card : Card
pending_card = record shown_card {
  status = CardStatus.pending;
  version = 1;
  consumer_digest = none;
  transport = none;
  delivery_ref = none;
  delivered_at = none;
}

abbrev delivering_card : Card
delivering_card = record pending_card {
  status = CardStatus.delivering;
  version = 2;
  claim_token_digest = some own_digest;
  claim_expires_at = some 1560;
  consumer_digest = some own_digest;
}

abbrev waiting_db : SchedulingDb
waiting_db = scheduling_db (db_of queued_row) (pending_card ∷ [])

abbrev held_db : SchedulingDb
held_db = scheduling_db (db_of queued_row) (delivering_card ∷ [])

waiting_cards : All Checked (pending_card ∷ [])
unfolding card_checks
waiting_cards = (refl, tt)

held_cards : All Checked (delivering_card ∷ [])
unfolding card_checks char_count
held_cards = (refl, tt)

full_digests : FullDigests scheduling_service
unfolding char_count
full_digests token = elim (Bool-cases (str_eq token secret)) [
  | inl e ↦ rw e refl
  | inr e ↦ rw e refl
]

arguments : (leb 5 60 && leb 60 300 && valid_digest own_digest && valid_token secret) ≡ true
unfolding valid_digest valid_token
arguments = refl

claim_next_total_example :
    (out : Option DeliveryClaim × SchedulingDb) × (claim_next scheduling_service 1500 own_digest 60
        secret waiting_db
      ≡ ok out)
    × (out.1.db ≡ db_of queued_row)
    × All Checked out.1.cards
    × Answers scheduling_service 1500 secret out
claim_next_total_example =
    claim_next_total scheduling_service 1500 own_digest 60 secret waiting_db waiting_cards
      (full_digests secret) arguments

complete_delivery_decided_example :
    Reports
      (complete_delivery scheduling_service 1550 1 2 secret "chat" "message-1" held_db)
      held_db
      1
      2
      own_digest
      1550
      (delivered_card "chat" "message-1" 1550)
      CardEventKind.delivered
      2
    ⊎ (Idle
          (complete_delivery scheduling_service 1550 1 2 secret "chat" "message-1" held_db)
          held_db
        × ((leb 1 1
                && leb 1 2
                && valid_token secret
                && valid_opaque "chat" 64
                && valid_opaque "message-1" 200)
              ≡ true
            → Holds 1 2 own_digest 1550 held_db
            → ⊥))
complete_delivery_decided_example =
    complete_delivery_decided scheduling_service 1550 1 2 secret held_db held_cards "chat"
      "message-1"

-- The holder reports its delivery in time.
completed :
    (out : CardActionResult × SchedulingDb) × (complete_delivery scheduling_service 1550 1 2 secret
        "chat" "message-1" held_db
      ≡ ok out)
    × (out.0.disposition ≡ applied)
unfolding complete_delivery foxhound.Scheduling.find_card
completed = (_, refl, refl)

complete-again_example :
    complete_delivery scheduling_service 1900 1 2 secret "chat" "message-1" completed.0.1
    ≡ ok (card_result unchanged 1 2, completed.0.1)
complete-again_example =
    complete-again scheduling_service 1550 1900 1 2 secret "chat" "message-1" held_db completed.0
      held_cards completed.1 completed.2

abbrev change : ChangeSet
change = new_change 1 own_digest raise queued_row 1500 (record {
  related = none;
  created = none;
  prior = some normal;
  version = 6;
  db = db_of queued_row;
})

abbrev shown_db : SchedulingDb
shown_db = record (scheduling_db (db_of queued_row) (shown_card ∷ [])) { change_sets = change ∷ [] }

kept :
    (out : CardActionResult × SchedulingDb) × (act 1700 1 2 (some keep) shown_db ≡ ok out)
    × (out.0.disposition ≡ applied)
unfolding act foxhound.Scheduling.find_card foxhound.Scheduling.find_change_set
kept = (_, refl, refl)

act-once_example : Refuses 1800 1 3 (some undo) kept.0.1
act-once_example = act-once 1700 1 2 (some keep) shown_db kept.0 1800 3 (some undo) kept.1 kept.2

no_conditions : Limits []
unfolding add_conditions active_count foxhound.Scheduling.Graph.edge_count
no_conditions = record {
  shallow = λ a b m w. no_walk w;
  few = λ id. omega arith;
  edges = λ id. omega arith;
}
  where
    no_walk : {a b m : ℕ} → Walk [] a b m → m ≤ 8
    no_walk stay = omega arith
    no_walk (step {a} {b} e w) = absurd (no_children a b e)

shown_Sound : Sound shown_db
unfolding card_checks char_count
shown_Sound = record { limits = no_conditions; cards = (refl, tt) }

History-Sound_example : Sound kept.0.1
History-Sound_example =
    History-Sound scheduling_service full_digests
      (more begin (acts 1700 1 2 (some keep) kept.0 kept.1)) shown_Sound

abbrev ascii_value : ℕ → Option ℕ
ascii_value c = if leb 48 c && leb c 57 then some (c - 48) else none

ascii_digits : (c : ℕ) → IsDigit c → ascii_value c ≡ some (c - 48)
ascii_digits c (low, high) = ground (arith, low, high)

button : (text : Text) × (callback 12 3 undo ≡ ok text)
unfolding callback foxhound.Scheduling.Callback.digits
button = (_, refl)

parse-callback_example : parse_scheduling_review_callback ascii_value button.0 ≡ some (12, 3, undo)
parse-callback_example =
    parse-callback ascii_value ascii_digits 12 3 undo button.0 (omega arith) (omega arith) button.1

callback-fits_example : callback 12 3 keep ≡ ok (callback_text 12 3 keep)
callback-fits_example = callback-fits 12 3 keep (omega arith) (omega arith)
