-- ===== src/Lease/Reported.antt =====
-- What a caller of `fail` and `attach_run_id` of task_execution.py may report: the name of a run, and
-- the exit code and the evidence of a failure.
use foxhound.Prelude.{
  ℕ, String, Bool, true, false, not, ◌&&◌, Option, none, some, leb, ◌==◌, is_some,
}
use foxhound.Schema.{FailureReason, process_exit, timeout, claim_expired, char_count}
use foxhound.Texts.{all_hex, strip}

-- `re.fullmatch(r"[0-9a-f]{32}", run_id)`.
unfoldable pub valid_run_id : String → Bool
unfolding all_hex char_count
valid_run_id s = char_count s == 32 && all_hex s

-- `_RUN_NAMED_FAILURES`.
abbrev names_run : FailureReason → Bool
names_run process_exit = true
names_run timeout = true
names_run _ = false

abbrev is_claim_expired : FailureReason → Bool
is_claim_expired claim_expired = true
is_claim_expired _ = false

abbrev is_timed_out : FailureReason → Bool
is_timed_out timeout = true
is_timed_out _ = false

-- An exit code and a run come together, and only with a failure that can name a run.
unfoldable pub run_named : FailureReason → Option ℕ → Option String → Bool
unfolding valid_run_id
run_named reason none none = true
run_named reason (some n) none = false
run_named reason none (some r) = false
run_named reason (some n) (some r) = names_run reason && leb 1 n && leb n 255 && valid_run_id r

-- Evidence is a note on a timeout that names its run: not blank, and MAX_FAILURE_DIGEST_CHARS.
evidence_allowed : FailureReason → Option String → Option String → Bool
unfolding strip char_count
evidence_allowed reason run_id none = true
evidence_allowed reason run_id (some text) =
    is_timed_out reason
    && is_some run_id
    && leb 1 (char_count (strip text))
    && leb (char_count (strip text)) 800

unfoldable pub strip_evidence : Option String → Option String
unfolding strip
strip_evidence none = none
strip_evidence (some text) = some (strip text)

unfoldable pub valid_failure : FailureReason → Option ℕ → Option String → Option String → Bool
unfolding run_named evidence_allowed
valid_failure reason exit_code run_id evidence =
    not (is_claim_expired reason)
    && run_named reason exit_code run_id
    && evidence_allowed reason run_id evidence
