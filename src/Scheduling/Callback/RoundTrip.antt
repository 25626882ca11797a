-- ===== src/Scheduling/Callback/RoundTrip.antt =====
-- The buttons of a scheduling review card of task_scheduling.py: what they send is read back.
use foxhound.Prelude.{
  ℕ, suc, ◌+◌, ◌-◌, ◌^◌, ◌≤◌, ◌<◌, ◌≡◌, refl, ap, ◌∙◌, true, false, Option, some, List, [], ◌∷◌,
  ◌++◌, All, ltb, leb, ◌==◌, length, ok, raise, ledger_error, arith, Bool-cases, inl, inr,
}
use foxhound.Scheduling.Callback.{
  Text, bar, callback_prefix, callback_data_limit, decimal, CardAction, keep, undo, action_text,
  callback_text, callback, begin_part, split, same_text, parse_action, parse_parts,
  parse_scheduling_review_callback,
}
use foxhound.Scheduling.Callback.Numerals.{
  IsDigit, digits-IsDigit, positive_id-decimal, length-digits,
}

split-digits : (xs ys : Text) → All IsDigit xs → split (xs ++ bar ∷ ys) ≡ xs ∷ split ys
unfolding split begin_part
split-digits [] ys h = refl
split-digits (x ∷ xs) ys (d, ds) =
    let other : (x == bar) ≡ false = ground (arith, d) in rw (other, split-digits xs ys ds) refl

split-action : (a : CardAction) → split (action_text a) ≡ action_text a ∷ []
unfolding split begin_part
split-action keep = refl
split-action undo = refl

split-prefix : (ys : Text) → split (callback_prefix ++ bar ∷ ys) ≡ callback_prefix ∷ split ys
unfolding split begin_part
split-prefix ys = refl

split-callback_text :
    (c v : ℕ) (a : CardAction)
    → split (callback_text c v a) ≡ callback_prefix ∷ decimal c ∷ decimal v ∷ action_text a ∷ []
unfolding callback_text
split-callback_text c v a =
    split-prefix (decimal c ++ bar ∷ (decimal v ++ bar ∷ action_text a))
    ∙ ap (λ (ps : List Text). callback_prefix ∷ ps)
        (split-digits (decimal c) (decimal v ++ bar ∷ action_text a) (digits-IsDigit (suc c) c)
          ∙ ap (λ (ps : List Text). decimal c ∷ ps)
              (split-digits (decimal v) (action_text a) (digits-IsDigit (suc v) v)
                ∙ ap (λ (ps : List Text). decimal v ∷ ps) (split-action a)))

parse_action-action_text : (a : CardAction) → parse_action (action_text a) ≡ some a
unfolding parse_action same_text
parse_action-action_text keep = refl
parse_action-action_text undo = refl

same_prefix : same_text callback_prefix callback_prefix ≡ true
unfolding same_text
same_prefix = refl

length-append : (xs ys : Text) → length (xs ++ ys) ≡ length xs + length ys
length-append [] ys = omega arith
length-append (x ∷ xs) ys = omega (arith, length-append xs ys)

length-action_text : (a : CardAction) → length (action_text a) ≡ 4
length-action_text keep = refl
length-action_text undo = refl

length-callback_text :
    (c v : ℕ) (a : CardAction)
    → length (callback_text c v a) ≡ 10 + length (decimal c) + length (decimal v)
unfolding callback_text
length-callback_text c v a =
    let outer = length-append (decimal c) (bar ∷ (decimal v ++ bar ∷ action_text a)) in
    let inner = length-append (decimal v) (bar ∷ action_text a) in
    let end = length-action_text a in omega (arith, outer, inner, end)

-- A callback that is sent is the text of its card and action, within the limit.
callback-ok :
    (c v : ℕ) (a : CardAction) (text : Text)
    → callback c v a ≡ ok text
    → (text ≡ callback_text c v a) × (length (callback_text c v a) ≤ callback_data_limit)
unfolding callback
callback-ok c v a text h =
    elim (Bool-cases (ltb callback_data_limit (length (callback_text c v a)))) [
      | inl e ↦ (let z : raise ledger_error ≡ ok text = (rw e at h) in cc)
      | inr e ↦
          (let z : ok (callback_text c v a) ≡ ok text = (rw e at h) in (cc, ground (arith, e)))
    ]

module _ (digit_value : ℕ → Option ℕ)
    (ascii : (c : ℕ) → IsDigit c → digit_value c ≡ some (c - 48)) where
  parse_parts-parts :
      (c v : ℕ) (a : CardAction)
      → 1 ≤ c
      → 1 ≤ v
      → parse_parts digit_value (callback_prefix ∷ decimal c ∷ decimal v ∷ action_text a ∷ [])
        ≡ some (c, v, a)
  unfolding parse_parts
  parse_parts-parts c v a pc pv =
      rw
        (
          same_prefix,
          positive_id-decimal digit_value ascii c pc,
          positive_id-decimal digit_value ascii v pv,
          parse_action-action_text a,
        )
        refl

  -- What a button of a card sends is read back as the card, its version and the button's action, where
  -- the interpreter gives each ASCII digit its value and the ids are positive.
  pub parse-callback :
      (c v : ℕ) (a : CardAction) (text : Text)
      → 1 ≤ c
      → 1 ≤ v
      → callback c v a ≡ ok text
      → parse_scheduling_review_callback digit_value text ≡ some (c, v, a)
  unfolding parse_scheduling_review_callback
  parse-callback c v a text pc pv h =
      let (same, fits) = callback-ok c v a text h in
      let size = length-callback_text c v a in
      let low : leb 1 (length (callback_text c v a)) ≡ true = ground (arith, size) in
      let high : leb (length (callback_text c v a)) callback_data_limit ≡ true =
        ground (arith, fits) in
      rw same (rw (low, high, split-callback_text c v a) (parse_parts-parts c v a pc pv))

-- No button of a card raises while its id and version are below 2 ^ 63, as SQLite's integers are.
pub callback-fits :
    (c v : ℕ) (a : CardAction) → c < 2 ^ 63 → v < 2 ^ 63 → callback c v a ≡ ok (callback_text c v a)
unfolding callback
callback-fits c v a hc hv =
    let size = length-callback_text c v a in
    let lc = length-digits (suc c) 18 c (omega (arith, hc)) in
    let lv = length-digits (suc v) 18 v (omega (arith, hv)) in
    let fits : ltb callback_data_limit (length (callback_text c v a)) ≡ false =
      ground (arith, size, lc, lv) in
    rw fits refl
