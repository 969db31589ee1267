-- ===== src/ReviewMap/Enrichment.antt =====
-- crates/ramo-core/src/review_map/enrichment.rs: the regrouping of a review map that a model
-- proposes, its checks, and how it is merged. Where the source takes the next element of a
-- difference of hash sets, the model takes the first in the order of the files.
pub mod Accepted
pub mod Merge
use ramo.Prelude.Sets.{contains}
use ramo.Prelude.Str.{trim, text_eq}
use ramo.Prelude.Text.{Text, codes}
use ramo.Prelude.{
  ℕ, List, Bool, Option, true, length, keep, find_first, ◌++◌, [], ◌∷◌, none, false, if◌then◌else◌,
  map, not, some, ◌==◌, ◌||◌, ltb,
}
use ramo.Prelude.Result.{Result, success, failure, ◌>>=◌}
use ramo.ReviewMap.{
  ReviewMap, ReviewMapFile, ReviewMapGroup, ReviewFileKind, ReviewMapAnalysis, EnrichmentCoverage,
  test, generated, other, enriched,
}
use ramo.ReviewMap.Exact.{
  ReviewMapError, validate_exact_map, invalid_path, duplicate_path, invalid_codeowners,
  duplicate_membership, missing_membership, totals_mismatch,
}

abbrev pub max_label_chars : ℕ
max_label_chars = 80

abbrev pub max_summary_chars : ℕ
max_summary_chars = 400

abbrev pub max_risk_chars : ℕ
max_risk_chars = 240

pub record ProposedGroup : Type 0 where
  pub label : Text
  pub summary : Text
  pub risk : Option Text
  pub review_priority : ℕ
  pub paths : List Text

pub record ProposedFileInsight : Type 0 where
  pub path : Text
  pub summary : Text
  pub risk : Option Text

pub record EnrichmentProposal : Type 0 where
  pub groups : List ProposedGroup
  pub files : List ProposedFileInsight
  pub review_order : List Text
  pub coverage : EnrichmentCoverage

pub data EnrichmentError : Type 0 where
  unknown_file duplicate_file fixed_classification missing_file : Text → EnrichmentError
  duplicate_order missing_order duplicate_coverage invalid_merge : Text → EnrichmentError
  -- The field and the greatest number of characters.
  invalid_text : Text → ℕ → EnrichmentError

abbrev pub is_fixed : ReviewFileKind → Bool
is_fixed test = true
is_fixed generated = true
is_fixed _ = false

-- `validate_text`: the trimmed text is neither empty nor too long.
unfoldable pub validate_text : Text → Text → ℕ → Result Unit EnrichmentError
unfolding trim
validate_text field value maximum =
    let size = length (trim value) in
    if size == 0 || ltb maximum size then failure (invalid_text field maximum) else success tt

abbrev pub validate_optional_text : Text → Option Text → ℕ → Result Unit EnrichmentError
validate_optional_text field none maximum = success tt
validate_optional_text field (some value) maximum = validate_text field value maximum

-- The map from paths to files, where the last file with a path counts.
unfoldable pub file_at : List ReviewMapFile → Text → Option ReviewMapFile
unfolding text_eq
file_at [] path = none
file_at (file ∷ rest) path = elim (file_at rest path) [
  | some later ↦ some later
  | none ↦ if text_eq file.path path then some file else none
]

-- A path can be grouped if it is that of a file whose kind is not fixed.
abbrev pub flexible_test : List ReviewMapFile → Text → Result Unit EnrichmentError
flexible_test files path = elim (file_at files path) [
  | none ↦ failure (unknown_file path)
  | some file ↦ if is_fixed file.kind then failure (fixed_classification path) else success tt
]

abbrev pub known_test : List ReviewMapFile → Text → Result Unit EnrichmentError
known_test files path = elim (file_at files path) [
  | none ↦ failure (unknown_file path)
  | some file ↦ success tt
]

abbrev pub is_flexible : List ReviewMapFile → Text → Bool
is_flexible files path = elim (file_at files path) [
  | none ↦ false
  | some file ↦ not (is_fixed file.kind)
]

abbrev pub flexible_paths : List ReviewMapFile → List Text
flexible_paths files = keep (is_flexible files) (map (λ (file : ReviewMapFile). file.path) files)

-- A loop that tests each path and inserts it into a set, and fails on one that is there.
unfoldable pub insert_all :
    (Text → Result Unit EnrichmentError)
    → (Text → EnrichmentError)
    → List Text
    → List Text
    → Result (List Text) EnrichmentError
unfolding text_eq
insert_all valid duplicate set [] = success set
insert_all valid duplicate set (path ∷ rest) = do
  tt ← valid path
  (if contains set path
      then failure (duplicate path)
      else insert_all valid duplicate (path ∷ set) rest)

unfoldable pub check_proposed :
    List ReviewMapFile → List Text → List ProposedGroup → Result (List Text) EnrichmentError
unfolding validate_text insert_all file_at
check_proposed files grouped [] = success grouped
check_proposed files grouped (group ∷ rest) = do
  tt ← validate_text (codes "group label") group.label max_label_chars
  tt ← validate_text (codes "group summary") group.summary max_summary_chars
  tt ← validate_optional_text (codes "group risk") group.risk max_risk_chars
  found ← insert_all (flexible_test files) duplicate_file grouped group.paths
  check_proposed files found rest

unfoldable pub check_insights :
    List ReviewMapFile → List Text → List ProposedFileInsight → Result Unit EnrichmentError
unfolding validate_text file_at text_eq
check_insights files seen [] = success tt
check_insights files seen (insight ∷ rest) = do
  tt ← known_test files insight.path
  tt ← if contains seen insight.path then failure (duplicate_file insight.path) else success tt
  tt ← validate_text (codes "file summary") insight.summary max_summary_chars
  tt ← validate_optional_text (codes "file risk") insight.risk max_risk_chars
  check_insights files (insight.path ∷ seen) rest

-- `flexible.difference(&set).next()` is none.
abbrev pub check_covered :
    (Text → EnrichmentError) → List Text → List Text → Result Unit EnrichmentError
check_covered missing set paths = elim (find_first (λ path. not (contains set path)) paths) [
  | some path ↦ failure (missing path)
  | none ↦ success tt
]

abbrev pub covered_paths : EnrichmentCoverage → List Text
covered_paths coverage =
    coverage.analyzed_paths ++ coverage.truncated_paths ++ coverage.metadata_only_paths
    ++ coverage.binary_paths

unfoldable pub validate_coverage :
    List ReviewMapFile → EnrichmentCoverage → Result Unit EnrichmentError
unfolding insert_all file_at
validate_coverage files coverage = do
  seen ← insert_all (known_test files) duplicate_coverage [] (covered_paths coverage)
  success tt

unfoldable pub validate_enrichment : ReviewMap → EnrichmentProposal → Result Unit EnrichmentError
unfolding check_proposed check_insights insert_all validate_coverage file_at text_eq
validate_enrichment map proposal = do
  grouped ← check_proposed map.files [] proposal.groups
  tt ← check_covered missing_file grouped (flexible_paths map.files)
  tt ← check_insights map.files [] proposal.files
  ordered ← insert_all (flexible_test map.files) duplicate_order [] proposal.review_order
  tt ← check_covered missing_order ordered (flexible_paths map.files)
  validate_coverage map.files proposal.coverage
