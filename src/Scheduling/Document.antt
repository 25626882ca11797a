-- ===== src/Scheduling/Document.antt =====
-- `_recommendation_document` of task_scheduling.py: the checks of a recommendation, and its document.
use foxhound.Prelude.{
  ℕ, ◌+◌, String, Bool, true, false, not, ◌&&◌, ◌||◌, Option, none, some, List, [], ◌∷◌, leb, ◌==◌,
  is_some, is_none, if◌then◌else◌, length, contains,
}
use Prim.Native.Char.{code}
use foxhound.Schema.{char_count}
use foxhound.Scheduling.Rows.{
  SchedulingKind, after_task_completed, not_before, raise_priority, create_prerequisite,
  Recommendation,
}
use foxhound.Scheduling.Callback.{decimal}
use foxhound.Texts.{all_hex, strip}

-- A length between 1 and a maximum.
abbrev bounded : String → ℕ → Bool
bounded s most = leb 1 (char_count s) && leb (char_count s) most

-- `_valid_digest`.
unfoldable pub valid_digest : String → Bool
unfolding all_hex char_count
valid_digest s = char_count s == 64 && all_hex s

all_decimal : String → Bool
all_decimal String.[] = true
all_decimal (String.◌∷◌ c s) = leb 48 (code c) && leb (code c) 57 && all_decimal s

-- "src-" followed by the given number of ASCII digits.
source_ref_rest : String → String → Bool
unfolding all_decimal char_count
source_ref_rest String.[] s = char_count s == 3 && all_decimal s
source_ref_rest (String.◌∷◌ c cs) String.[] = false
source_ref_rest (String.◌∷◌ c cs) (String.◌∷◌ d ds) = code c == code d && source_ref_rest cs ds

-- `_SOURCE_REF_RE.fullmatch`.
unfoldable pub is_source_ref : String → Bool
unfolding source_ref_rest
is_source_ref s = source_ref_rest "src-" s

unfoldable pub all_source_refs : List String → Bool
unfolding is_source_ref
all_source_refs [] = true
all_source_refs (r ∷ rs) = is_source_ref r && all_source_refs rs

unfoldable pub distinct : List String → Bool
distinct [] = true
distinct (r ∷ rs) = not (contains r rs) && distinct rs

abbrev pub max_rationale_chars : ℕ
max_rationale_chars = 2000

abbrev pub max_prerequisite_text_chars : ℕ
max_prerequisite_text_chars = 4000

abbrev pub max_source_refs : ℕ
max_source_refs = 16

-- The checks that every kind shares.
unfoldable pub common_checks : Recommendation → Bool
unfolding strip all_source_refs distinct valid_digest char_count
common_checks r =
    leb 1 r.target_task_id
    && leb 1 r.target_task_version
    && leb 1 r.expected_workflow_version
    && bounded (strip r.rationale) max_rationale_chars
    && leb 1 (length r.source_refs)
    && leb (length r.source_refs) max_source_refs
    && distinct r.source_refs
    && all_source_refs r.source_refs
    && bounded r.research_receipt_id 128
    && valid_digest r.research_document_digest

positive : Option ℕ → Bool
positive none = false
positive (some n) = leb 1 n

prerequisite_bounded : Option String → Bool
unfolding strip char_count
prerequisite_bounded none = false
prerequisite_bounded (some t) = bounded (strip t) max_prerequisite_text_chars

-- The fields that each kind has and those that it must not have.
unfoldable pub kind_checks : Recommendation → Bool
unfolding positive prerequisite_bounded
kind_checks r = elim r.kind [
  | after_task_completed ↦
      positive r.related_task_id && is_none r.not_before && is_none r.prerequisite_text
  | not_before ↦ is_none r.related_task_id && is_none r.prerequisite_text && is_some r.not_before
  | raise_priority ↦
      is_none r.related_task_id && is_none r.not_before && is_none r.prerequisite_text
  | create_prerequisite ↦
      is_none r.related_task_id && is_none r.not_before && prerequisite_bounded r.prerequisite_text
]

-- `_recommendation_document`: the recommendation with its rationale stripped.
unfoldable pub recommendation_document : Recommendation → Option Recommendation
unfolding common_checks kind_checks strip
recommendation_document r =
    if common_checks r && kind_checks r
    then some (record r { rationale = strip r.rationale })
    else none

-- The length of one character in JSON text with `ensure_ascii`.
abbrev char_length : ℕ → ℕ
char_length c =
    if c == 34 || c == 92
    then 2
    else if leb 32 c && leb c 126
    then 1
    else if c == 8 || c == 9 || c == 10 || c == 12 || c == 13
    then 2
    else if leb c 65535
    then 6
    else 12

text_length : String → ℕ
text_length String.[] = 0
text_length (String.◌∷◌ c s) = char_length (code c) + text_length s

-- A text with its quotes.
quoted_length : String → ℕ
unfolding text_length
quoted_length s = 2 + text_length s

nullable_length {ℓ} : {A : Type ℓ} → (A → ℕ) → Option A → ℕ
nullable_length f none = 4
nullable_length f (some a) = f a

-- The items of an array, each with the comma or the bracket before it.
items_length : List String → ℕ
unfolding quoted_length
items_length [] = 0
items_length (r ∷ rs) = 1 + quoted_length r + items_length rs

kind_length : SchedulingKind → ℕ
kind_length after_task_completed = 22
kind_length not_before = 12
kind_length raise_priority = 16
kind_length create_prerequisite = 21

-- The length of `json.dumps(document, ensure_ascii=True, separators=(",", ":"))`: eleven keys of 167
-- characters in all, with their quotes and colons, ten commas and two braces, then the values. An instant
-- is written with its offset, in 27 characters with its quotes.
unfoldable pub json_length : Recommendation → ℕ
unfolding quoted_length nullable_length items_length kind_length
json_length r =
    167
    + 33
    + 12
    + kind_length r.kind
    + length (decimal r.target_task_id)
    + length (decimal r.target_task_version)
    + length (decimal r.expected_workflow_version)
    + quoted_length r.rationale
    + (1 + items_length r.source_refs)
    + quoted_length r.research_receipt_id
    + quoted_length r.research_document_digest
    + nullable_length (λ n. length (decimal n)) r.related_task_id
    + nullable_length (λ (n : ℕ). 27) r.not_before
    + nullable_length quoted_length r.prerequisite_text
