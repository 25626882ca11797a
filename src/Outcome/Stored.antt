-- ===== src/Outcome/Stored.antt =====
-- The CHECKs, the foreign key and the keys of `task_execution_results` and `execution_result_artifacts`
-- of candidate_inbox.py, which the INSERTs of `record_result` run into. The profile columns are copied
-- from the workflow's row, whose own CHECKs on them are the same; the outcome and the phase are of the
-- closed types.
use foxhound.Prelude.{
  ℕ, ◌≤◌, ◌≡◌, ◌↔◌, String, Bool, true, false, not, ◌&&◌, ◌||◌, Option, none, some, List, [], ◌∷◌,
  ◌++◌, leb, ◌==◌, str_eq, arith,
}
use Prim.Native.Char.{code}
use foxhound.Schema.{char_count}
use foxhound.Tables.{ResultRow, Artifact, ArtifactRow}

abbrev starts_at_root : String → Bool
starts_at_root String.[] = false
starts_at_root (String.◌∷◌ c s) = code c == 47

abbrev sized : ℕ → ℕ → String → Bool
sized low high s = leb low (char_count s) && leb (char_count s) high

-- `x IS NULL OR (length(x) BETWEEN 1 AND 4096 AND substr(x,1,1)='/')`.
abbrev path_column : Option String → Bool
path_column none = true
path_column (some s) = sized 1 4096 s && starts_at_root s

abbrev work_digest_column : Option String → Bool
work_digest_column none = true
work_digest_column (some s) = sized 1 800 s

unfoldable pub result_checks : ResultRow → Bool
result_checks r =
    sized 1 128 r.result_id
    && leb 1 r.workflow_version
    && leb 1 r.task_version
    && char_count r.content_digest == 64
    && leb (char_count r.answer.summary) 1200
    && leb (char_count r.answer.work_markdown) 131072
    && leb (char_count r.questions_json) 65536
    && leb (char_count r.answer.external_actions_json) 65536
    && leb (char_count r.answer.deliverables_json) 65536
    && leb (char_count r.answer.repository_references_json) 65536
    && path_column r.task_work_directory
    && path_column r.task_kb_file
    && work_digest_column r.work_digest

is_sequence : ℕ → List ℕ → Bool
is_sequence n [] = false
is_sequence n (m ∷ ms) = n == m || is_sequence n ms

-- `reader_instruction_sequence INTEGER REFERENCES execution_reader_inputs(sequence)`.
unfoldable pub names_reader_input : List ℕ → Option ℕ → Bool
unfolding is_sequence
names_reader_input inputs none = true
names_reader_input inputs (some n) = is_sequence n inputs

unfoldable pub artifact_checks : Artifact → Bool
artifact_checks a =
    sized 1 1024 a.relative_path
    && sized 1 255 a.name
    && leb a.size_bytes 2097152
    && char_count a.content_digest == 64
    && sized 1 4096 a.run_directory

-- `PRIMARY KEY(result_id, ordinal)` and `UNIQUE(result_id, relative_path)`.
artifact_taken : ArtifactRow → List ArtifactRow → Bool
artifact_taken a [] = false
artifact_taken a (b ∷ bs) =
    (str_eq a.result_id b.result_id
      && (a.ordinal == b.ordinal || str_eq a.artifact.relative_path b.artifact.relative_path))
    || artifact_taken a bs

-- Each row of the `executemany` is inserted behind the rows before it.
unfoldable pub artifacts_fit : List ArtifactRow → List ArtifactRow → Bool
unfolding artifact_checks artifact_taken
artifacts_fit rows [] = true
artifacts_fit rows (a ∷ as') =
    artifact_checks a.artifact && not (artifact_taken a rows) && artifacts_fit (rows ++ a ∷ []) as'

-- The columns of a result as its table bounds them.
abbrev pub Fits : ResultRow → Type 0
Fits r =
    ((1 ≤ char_count r.result_id) × (char_count r.result_id ≤ 128))
    × ((1 ≤ r.workflow_version) × (1 ≤ r.task_version))
    × (char_count r.content_digest ≡ 64)
    × (char_count r.answer.summary ≤ 1200)
    × (char_count r.answer.work_markdown ≤ 131072)
    × (char_count r.questions_json ≤ 65536)
    × (char_count r.answer.external_actions_json ≤ 65536)
    × (char_count r.answer.deliverables_json ≤ 65536)
    × (char_count r.answer.repository_references_json ≤ 65536)
    × (path_column r.task_work_directory ≡ true)
    × (path_column r.task_kb_file ≡ true)
    × (work_digest_column r.work_digest ≡ true)

pub result_checks-Fits : (r : ResultRow) → (result_checks r ≡ true) ↔ Fits r
unfolding result_checks
result_checks-Fits r = (
  λ h. (
    (ground (arith, h), ground (arith, h)),
    (ground (arith, h), ground (arith, h)),
    ground (arith, h),
    ground (arith, h),
    ground (arith, h),
    ground (arith, h),
    ground (arith, h),
    ground (arith, h),
    ground (arith, h),
    ground (arith, h),
    ground (arith, h),
    ground (arith, h),
  ),
  λ h. ground (arith, h),
)
