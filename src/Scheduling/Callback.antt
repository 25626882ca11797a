-- ===== src/Scheduling/Callback.antt =====
-- The callback data of a scheduling review card: `callback` in `render_scheduling_review_card`, and
-- `parse_scheduling_review_callback`, of task_scheduling.py. A text is the list of its code points.
pub mod Numerals
pub mod RoundTrip
use foxhound.Prelude.{
  ℕ, zero, suc, ◌+◌, ◌-◌, ◌*◌, ◌/◌, ◌%◌, Bool, true, false, not, ◌&&◌, ◌||◌, Option, none, some,
  List, [], ◌∷◌, ◌++◌, ltb, leb, ◌==◌, if◌then◌else◌, length, Attempt, ok, raise, ledger_error,
}
use foxhound.Operation.{is_space}

abbrev pub Text : Type 0
Text = List ℕ

-- "|".
abbrev pub bar : ℕ
bar = 124

-- CALLBACK_PREFIX, "fhs".
abbrev pub callback_prefix : Text
callback_prefix = 102 ∷ 104 ∷ 115 ∷ []

abbrev pub callback_data_limit : ℕ
callback_data_limit = 64

-- `str` of a natural number; each digit but the last costs one unit of fuel.
unfoldable pub digits : ℕ → ℕ → Text
digits zero n = []
digits (suc fuel) n =
    let last = (48 + n % 10) ∷ [] in
    let rest = digits fuel (n / 10) in if ltb n 10 then last else rest ++ last

abbrev pub decimal : ℕ → Text
decimal n = digits (suc n) n

pub data CardAction : Type 0 where
  keep undo : CardAction

abbrev pub action_text : CardAction → Text
action_text keep = 107 ∷ 101 ∷ 101 ∷ 112 ∷ []
action_text undo = 117 ∷ 110 ∷ 100 ∷ 111 ∷ []

unfoldable pub callback_text : ℕ → ℕ → CardAction → Text
callback_text card_id version action =
    callback_prefix
    ++ bar ∷ (decimal card_id ++ bar ∷ (decimal version ++ bar ∷ action_text action))

-- `callback`; all of the text is ASCII, so its length is that of its UTF-8 encoding.
unfoldable pub callback : ℕ → ℕ → CardAction → Attempt Text
unfolding callback_text
callback card_id version action =
    let value = callback_text card_id version action in
    if ltb callback_data_limit (length value) then raise ledger_error else ok value

-- `value.split("|")`: the part before the first bar is begun here, and the rest is split.
begin_part : ℕ → List Text → List Text
begin_part c [] = (c ∷ []) ∷ []
begin_part c (part ∷ parts) = (c ∷ part) ∷ parts

unfoldable pub split : Text → List Text
unfolding begin_part
split [] = [] ∷ []
split (c ∷ cs) = let rest = split cs in if c == bar then [] ∷ rest else begin_part c rest

unfoldable pub same_text : Text → Text → Bool
same_text [] [] = true
same_text (x ∷ xs) (y ∷ ys) = x == y && same_text xs ys
same_text _ _ = false

-- The action that a part names.
unfoldable pub parse_action : Text → Option CardAction
unfolding same_text
parse_action t =
    if same_text t (action_text keep)
    then some keep
    else if same_text t (action_text undo)
    then some undo
    else none

-- `str.strip` of a text, on both sides.
lstrip : Text → Text
unfolding is_space
lstrip [] = []
lstrip (c ∷ cs) = let rest = lstrip cs in if is_space c then rest else c ∷ cs

rstrip_end : ℕ → Text → Text
unfolding is_space
rstrip_end c [] = if is_space c then [] else c ∷ []
rstrip_end c (d ∷ ds) = c ∷ d ∷ ds

rstrip : Text → Text
unfolding rstrip_end
rstrip [] = []
rstrip (c ∷ cs) = rstrip_end c (rstrip cs)

-- `_positive_id`.
unfoldable pub positive : Option ℕ → Option ℕ
positive none = none
positive (some zero) = none
positive (some (suc n)) = some (suc n)

-- The decimal value that Unicode gives a character, which is a table of Python's interpreter.
module _ (digit_value : ℕ → Option ℕ) where
  -- Digits, with single underscores between them; `after_digit` says that a digit came last.
  unfoldable pub read_digits : ℕ → Bool → Text → Option ℕ
  read_digits value after_digit [] = if after_digit then some value else none
  read_digits value after_digit (c ∷ cs) = elim (digit_value c) [
    | some d ↦ read_digits (10 * value + d) true cs
    | none ↦ if c == 95 && after_digit then read_digits value false cs else none
  ]

  -- The value of a numeral, with no sign before it, or a plus; a minus makes it 0 or negative, which
  -- is no positive id.
  unfoldable pub read_signed : Text → Option ℕ
  unfolding read_digits
  read_signed [] = none
  read_signed (c ∷ cs) =
      if c == 43
      then read_digits 0 false cs
      else if c == 45
      then none
      else read_digits 0 false (c ∷ cs)

  -- `int(part)` where it gives a positive id.
  unfoldable pub positive_id : Text → Option ℕ
  unfolding read_signed rstrip lstrip positive
  positive_id t = positive (read_signed (rstrip (lstrip t)))

  unfoldable pub parse_parts : List Text → Option (ℕ × ℕ × CardAction)
  unfolding same_text parse_action positive_id
  parse_parts (prefix ∷ card ∷ version ∷ action ∷ []) =
      if same_text prefix callback_prefix
      then elim (positive_id card) [
        | none ↦ none
        | some c ↦ elim (positive_id version) [
          | none ↦ none
          | some v ↦ elim (parse_action action) [ none ↦ none | some a ↦ some (c, v, a) ]
        ]
      ]
      else none
  parse_parts _ = none

  -- `parse_scheduling_review_callback`, for a value that is a text.
  unfoldable pub parse_scheduling_review_callback : Text → Option (ℕ × ℕ × CardAction)
  unfolding split parse_parts
  parse_scheduling_review_callback value =
      if leb 1 (length value) && leb (length value) callback_data_limit
      then parse_parts (split value)
      else none
