-- ===== src/Scheduling/Delivery/Total.antt =====
-- Every call of `claim_next` of `TaskSchedulingService` in task_scheduling.py.
use foxhound.Prelude.{
  ℕ, ◌+◌, ◌≤◌, ◌≡◌, ◌≢◌, refl, ap, subst, ◌∙◌, String, true, false, ◌&&◌, ◌||◌, Option, none, some,
  List, [], ◌∷◌, All, ok, raise, ledger_error, ltb, leb, ◌==◌, arith, Bool-cases, inl, inr, ◌⊎◌,
}
use foxhound.Schema.{char_count}
use foxhound.Scheduling.{SchedulingService, find_card, replace_card, card_event}
use foxhound.Scheduling.Rows.{
  Card, CardStatus, pending, delivering, delivered, resolved, CardEventKind, SchedulingDb,
}
use foxhound.Scheduling.Document.{valid_digest}
use foxhound.Scheduling.CardRow.Moves.{
  Checked, returned_card-Checked, claimed_card-Checked, All-replace_card, write_card-Checked,
}
use foxhound.Scheduling.Report.Total.{Held}
use foxhound.Scheduling.Act.Once.{find-replace_card}
use foxhound.Scheduling.Delivery.{
  valid_token, returned_card, expired_in, has_expired, expire, is_pending, earlier, earlier_of,
  next_pending, DeliveryClaim, claimed_card, claim_card, claim_next,
}

expired_in-delivering :
    (x : CardStatus) (now : ℕ) (expires : Option ℕ)
    → expired_in x now expires ≡ true
    → x ≡ delivering
unfolding expired_in
expired_in-delivering delivering now expires h = refl
expired_in-delivering pending now expires h = cc
expired_in-delivering delivered now expires h = cc
expired_in-delivering resolved now expires h = cc

has_expired-delivering : (now : ℕ) (c : Card) → has_expired now c ≡ true → c.status ≡ delivering
unfolding has_expired
has_expired-delivering now c h = expired_in-delivering c.status now c.claim_expires_at h

-- The return of the expired deliveries never raises, and keeps the CHECKs.
expire_total :
    (now : ℕ) (cs : List Card) (s : SchedulingDb)
    → All Checked cs
    → All Checked s.cards
    → (t : SchedulingDb) × (expire now cs s ≡ ok t) × (t.db ≡ s.db) × All Checked t.cards
unfolding expire
expire_total now [] s h v = (s, refl, refl, v)
expire_total now (c ∷ cs) s (h, hs) v = elim (Bool-cases (has_expired now c)) [
  | inr e ↦ rw e (expire_total now cs s hs v)
  | inl e ↦
      let checked = returned_card-Checked now c (has_expired-delivering now c e) h in
      let s1 = record s { cards = replace_card c.id (returned_card now c) s.cards } in
      let s2 = card_event c CardEventKind.delivery_expired (c.version + 1) none now s1 in
      let (t, done, same, w) =
        expire_total now cs s2 hs (All-replace_card c.id (returned_card now c) s.cards v checked) in
      (t, rw e (rw (write_card-Checked (returned_card now c) s checked) done), same, w)
]

is_pending-lem : (x : CardStatus) → is_pending x ≡ true → x ≡ pending
unfolding is_pending
is_pending-lem pending h = refl
is_pending-lem delivering h = cc
is_pending-lem delivered h = cc
is_pending-lem resolved h = cc

-- A pending card that passes its CHECKs.
record Waiting (c : Card) : Type 0 where
  status : c.status ≡ pending
  checked : Checked c

earlier-either : (P : Card → Type 0) (c d : Card) → P c → P d → P (earlier c d)
unfolding earlier
earlier-either P c d p q =
    elim (Bool-cases
      (ltb d.created_at c.created_at || (d.created_at == c.created_at && ltb d.id c.id))) [
        | inl e ↦ rw (e, earlier) q
        | inr e ↦ rw (e, earlier) p
      ]

earlier_of-either :
    (P : Card → Type 0) (c : Card) (o : Option Card) {d : Card}
    → P c
    → ((x : Card) → o ≡ some x → P x)
    → earlier_of c o ≡ some d
    → P d
unfolding earlier_of
earlier_of-either P c none p q h = subst P (some_inj h) p
  where
    some_inj : {x y : Card} → some x ≡ some y → x ≡ y
    some_inj z = cc
earlier_of-either P c (some x) p q h = subst P (some_inj h) (earlier-either P c x p (q x refl))
  where
    some_inj : {x y : Card} → some x ≡ some y → x ≡ y
    some_inj z = cc

next_pending-Waiting :
    (cs : List Card) {c : Card} → All Checked cs → next_pending cs ≡ some c → Waiting c
unfolding next_pending
next_pending-Waiting [] v h = cc
next_pending-Waiting (x ∷ xs) {c} (v, vs) h = elim (Bool-cases (is_pending x.status)) [
  | inl e ↦
      earlier_of-either Waiting x (next_pending xs)
        (record { status = is_pending-lem x.status e; checked = v })
        (λ y n. next_pending-Waiting xs vs n) (rw e at h)
  | inr e ↦ next_pending-Waiting xs vs (rw e at h)
]

-- The table has a card of an id.
abbrev Present : List Card → Card → Type 0
Present cs c = (d : Card) × (find_card c.id cs ≡ some d)

Present-cons : (x c : Card) (xs : List Card) → Present xs c → Present (x ∷ xs) c
unfolding find_card
Present-cons x c xs (d, f) = elim (Bool-cases (x.id == c.id)) [
  | inl e ↦ (x, rw e refl)
  | inr e ↦ (d, rw e f)
]

Present-here : (x : Card) (xs : List Card) → Present (x ∷ xs) x
unfolding find_card
Present-here x xs = (x, (let e : (x.id == x.id) ≡ true = ground arith in rw e refl))

next_pending-Present : (cs : List Card) {c : Card} → next_pending cs ≡ some c → Present cs c
unfolding next_pending
next_pending-Present [] h = cc
next_pending-Present (x ∷ xs) {c} h = elim (Bool-cases (is_pending x.status)) [
  | inl e ↦
      earlier_of-either (Present (x ∷ xs)) x (next_pending xs) (Present-here x xs)
        (λ y n. Present-cons x y xs (next_pending-Present xs n)) (rw e at h)
  | inr e ↦ Present-cons x c xs (next_pending-Present xs (rw e at h))
]

-- A card that does not wait for its delivery.
abbrev pub Idles : Card → Type 0
Idles c = c.status ≢ pending

earlier_of-some : (c : Card) (o : Option Card) → earlier_of c o ≢ none
unfolding earlier_of
earlier_of-some c none h = cc
earlier_of-some c (some d) h = cc

next_pending-Idles : (cs : List Card) → next_pending cs ≡ none → All Idles cs
unfolding next_pending is_pending
next_pending-Idles [] h = tt
next_pending-Idles (c ∷ cs) h = elim (Bool-cases (is_pending c.status)) [
  | inl e ↦ absurd (earlier_of-some c (next_pending cs) (rw e at h))
  | inr e ↦ (
    λ z. (let waits : is_pending c.status ≡ true = ap is_pending z in cc),
    next_pending-Idles cs (rw e at h),
  )
]

-- What `claim_next` hands out: the card of the table, held under the token at the card's version.
pub record Hands (service : SchedulingService) (now : ℕ) (token : String) (claim : DeliveryClaim)
    (s : SchedulingDb) : Type 0 where
  pub row : find_card claim.card.id s.cards ≡ some claim.card
  pub held : Held claim.card claim.card.version (service.token_digest token) now

-- No card, and then none waits; or one that is handed out.
abbrev pub Answers : SchedulingService → ℕ → String → Option DeliveryClaim × SchedulingDb → Type 0
Answers service now token out =
    ((out.0 ≡ none) × All Idles out.1.cards)
    ⊎ ((claim : DeliveryClaim) × (out.0 ≡ some claim) × Hands service now token claim out.1)

claim_arguments :
    (consumer : String) (lease : ℕ) (token : String)
    → (leb 5 lease && leb lease 300 && valid_digest consumer && valid_token token) ≡ true
    → (1 ≤ lease) × ((char_count consumer == 64) ≡ true)
unfolding valid_digest
claim_arguments consumer lease token h = (ground (arith, h), ground (arith, h))

module _ (service : SchedulingService) (now : ℕ) (consumer : String) (lease : ℕ)
    (token : String) where
  claim_card_total :
      (o : Option Card) (s : SchedulingDb)
      → next_pending s.cards ≡ o
      → All Checked s.cards
      → 1 ≤ lease
      → (char_count (service.token_digest token) == 64) ≡ true
      → (char_count consumer == 64) ≡ true
      → (out : Option DeliveryClaim × SchedulingDb) × (claim_card token
            (service.token_digest token)
            (now + lease)
            consumer
            now
            o
            s
          ≡ ok out)
        × (out.1.db ≡ s.db)
        × All Checked out.1.cards
        × Answers service now token out
  unfolding claim_card
  claim_card_total none s f v some_time one two =
      ((none, s), refl, refl, v, inl (refl, next_pending-Idles s.cards f))
  claim_card_total (some c) s f v some_time one two =
      let digest = service.token_digest token in
      let w = next_pending-Waiting s.cards {c = c} v f in
      let (d, present) = next_pending-Present s.cards {c = c} f in
      let claimed = claimed_card digest (now + lease) consumer now c in
      let checked =
        claimed_card-Checked digest (now + lease) consumer now c w.status one two w.checked in
      let s1 = record s { cards = replace_card c.id claimed s.cards } in
      let claim : DeliveryClaim = record {
        card = claimed;
        token = token;
        expires_at = now + lease;
      } in
      (
        (some claim, card_event c CardEventKind.delivery_claimed (c.version + 1) none now s1),
        rw (write_card-Checked claimed s checked) refl,
        refl,
        All-replace_card c.id claimed s.cards v checked,
        inr (
          claim,
          refl,
          record {
            row = find-replace_card c.id claimed s.cards {c = d} refl present;
            held = record {
              status = refl;
              at = refl;
              token = refl;
              lease = (now + lease, refl, omega (arith, some_time));
            };
          },
        ),
      )

  -- Where a token's digest has its length and the cards pass their CHECKs, a call with valid arguments
  -- returns, leaves the workflow tables alone, and leaves cards that pass their CHECKs. It answers that
  -- no card waits, and then none is pending in the table that it leaves; or it hands out a card of that
  -- table, which the token holds at the card's version under a lease that lies ahead.
  pub claim_next_total :
      (s : SchedulingDb)
      → All Checked s.cards
      → (char_count (service.token_digest token) == 64) ≡ true
      → (leb 5 lease && leb lease 300 && valid_digest consumer && valid_token token) ≡ true
      → (out : Option DeliveryClaim × SchedulingDb) × (claim_next service now consumer lease token s
          ≡ ok out)
        × (out.1.db ≡ s.db)
        × All Checked out.1.cards
        × Answers service now token out
  unfolding claim_next
  claim_next_total s v one valid =
      let (s1, done, kept, w) = expire_total now s.cards s v v in
      let (low, two) = claim_arguments consumer lease token valid in
      let (out, claimed, same, checked, answers) =
        claim_card_total (next_pending s1.cards) s1 refl w low one two in
      (out, rw valid (rw done claimed), same ∙ kept, checked, answers)

-- Arguments out of their bounds raise.
pub claim_next-invalid :
    (service : SchedulingService) (now : ℕ) (consumer : String) (lease : ℕ) (token : String)
    (s : SchedulingDb)
    → (leb 5 lease && leb lease 300 && valid_digest consumer && valid_token token) ≡ false
    → claim_next service now consumer lease token s ≡ raise ledger_error
unfolding claim_next
claim_next-invalid service now consumer lease token s e = rw e refl
