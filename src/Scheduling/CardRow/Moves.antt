-- ===== src/Scheduling/CardRow/Moves.antt =====
-- The moves of a scheduling review card of task_scheduling.py keep the CHECKs of its row.
use foxhound.Prelude.{
  ℕ, ◌+◌, ◌≡◌, refl, subst, String, Bool, true, ◌&&◌, some, List, [], ◌∷◌, All, ok, leb, ◌==◌,
  arith,
}
use foxhound.Schema.{char_count}
use foxhound.Scheduling.{find_card, replace_card}
use foxhound.Scheduling.Rows.{Card, CardStatus, pending, delivering, delivered, SchedulingDb}
use foxhound.Scheduling.Callback.{CardAction}
use foxhound.Scheduling.CardRow.{digest_length, status_columns, card_checks, write_card}
use foxhound.Scheduling.Change.{new_card}
use foxhound.Scheduling.Delivery.{returned_card, claimed_card}
use foxhound.Scheduling.Report.{delivered_card}
use foxhound.Scheduling.Act.{resolved_card}

-- A row that passes its CHECKs.
abbrev pub Checked : Card → Type 0
Checked c = card_checks c ≡ true

-- A row with a status, which its columns agree with.
record Columns (c : Card) (s : CardStatus) : Type 0 where
  version : leb 1 c.version ≡ true
  claim : digest_length c.claim_token_digest ≡ true
  consumer : digest_length c.consumer_digest ≡ true
  columns : status_columns s c ≡ true

split_and :
    (a b c d : Bool) → (a && b && c && d) ≡ true → (a ≡ true) × (b ≡ true) × (c ≡ true) × (d ≡ true)
split_and a b c d h = ground (arith, h)

join_and : {a b c d : Bool} → a ≡ true → b ≡ true → c ≡ true → d ≡ true → (a && b && c && d) ≡ true
join_and p q r s = ground (arith, p, q, r, s)

Checked-Columns : (c : Card) (s : CardStatus) → c.status ≡ s → Checked c → Columns c s
unfolding card_checks
Checked-Columns c s e h =
    let (v, d, k, f) =
      split_and (leb 1 c.version) (digest_length c.claim_token_digest)
        (digest_length c.consumer_digest) (status_columns c.status c) h in
    record {
      version = v;
      claim = d;
      consumer = k;
      columns = subst (λ x. status_columns x c ≡ true) e f;
    }

later_version : (v : ℕ) → leb 1 (v + 1) ≡ true
later_version v = ground arith

pub returned_card-Checked :
    (now : ℕ) (c : Card) → c.status ≡ delivering → Checked c → Checked (returned_card now c)
unfolding card_checks status_columns digest_length
returned_card-Checked now c e h =
    let f = Checked-Columns c delivering e h in
    let columns = f.columns in
    join_and (later_version c.version) refl refl (ground (arith, columns))

pub claimed_card-Checked :
    (digest : String) (expires : ℕ) (consumer : String) (now : ℕ) (c : Card)
    → c.status ≡ pending
    → (char_count digest == 64) ≡ true
    → (char_count consumer == 64) ≡ true
    → Checked c
    → Checked (claimed_card digest expires consumer now c)
unfolding card_checks status_columns digest_length
claimed_card-Checked digest expires consumer now c e one two h =
    let f = Checked-Columns c pending e h in
    let columns = f.columns in join_and (later_version c.version) one two (ground (arith, columns))

pub delivered_card-Checked :
    (transport ref : String) (now : ℕ) (c : Card)
    → c.status ≡ delivering
    → Checked c
    → Checked (delivered_card transport ref now c)
unfolding card_checks status_columns digest_length
delivered_card-Checked transport ref now c e h =
    let f = Checked-Columns c delivering e h in
    let columns = f.columns in join_and f.version refl f.consumer (ground (arith, columns))

pub resolved_card-Checked :
    (action : CardAction) (now : ℕ) (c : Card)
    → c.status ≡ delivered
    → Checked c
    → Checked (resolved_card (c.version + 1) action now c)
unfolding card_checks status_columns digest_length
resolved_card-Checked action now c e h =
    let f = Checked-Columns c delivered e h in
    let columns = f.columns in
    join_and (later_version c.version) f.claim f.consumer (ground (arith, columns))

pub find_card-Checked :
    (id : ℕ) (cs : List Card) {c : Card} → All Checked cs → find_card id cs ≡ some c → Checked c
unfolding find_card
find_card-Checked id [] v h = cc
find_card-Checked id (x ∷ xs) {c} v h = ground (arith, find_card-Checked id xs {c = c})

pub All-replace_card :
    (id : ℕ) (v : Card) (cs : List Card)
    → All Checked cs
    → Checked v
    → All Checked (replace_card id v cs)
unfolding replace_card
All-replace_card id v [] h c = tt
All-replace_card id v (x ∷ xs) h c = ground (arith, All-replace_card id v xs)

-- An UPDATE to a row that passes its CHECKs is made.
pub write_card-Checked :
    (c : Card) (s : SchedulingDb)
    → Checked c
    → write_card c s ≡ ok (record s { cards = replace_card c.id c s.cards })
unfolding write_card
write_card-Checked c s h = rw h refl

pub new_card-Checked : (id set task now : ℕ) → Checked (new_card id set task now)
unfolding card_checks status_columns digest_length
new_card-Checked id set task now = refl
