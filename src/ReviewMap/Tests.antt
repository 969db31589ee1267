-- ===== src/ReviewMap/Tests.antt =====
-- Runs of the planner, the checks and the merge of crates/ramo-core/src/review_map.
use ramo.ReviewMap.Enrichment.Merge.Sound.{Merges, merge_enrichment-Merges}
use ramo.ReviewMap.Exact.Partition.{IsExact, validate_exact_map-IsExact}
use ramo.Prelude.Str.{text_eq}
use ramo.ReviewMap.Enrichment.Merge.{merge_enrichment}
use ramo.ReviewMap.Enrichment.Accepted.{
  Regroups, proposed_paths, HasLabel, validate_enrichment-Regroups,
}
use ramo.ReviewMap.Enrichment.{
  EnrichmentProposal, validate_enrichment, ProposedGroup, EnrichmentError, fixed_classification,
  invalid_merge,
}
use ramo.ReviewMap.Exact.{
  validate_exact_map, duplicate_membership, invalid_path, missing_membership,
}
use ramo.Prelude.Result.{Result, success, failure}
use ramo.ReviewMap.Planner.{ReviewMapInput, build_review_map, ReviewMapInputFile}
use ramo.Prelude.{List, [], Option, ◌≡◌, some, none, false, ◌∷◌, ◌↔◌, Each, map, refl, ◌*◌, length}
use ramo.ReviewMap.{
  ReviewMapIdentity, ReviewMap, ReviewMapAnalysis, ReviewFileKind, ready, test, ReviewMapFile,
  ReviewMapGroup, authored, generated, full, migration, documentation,
}
use ramo.Prelude.Text.{Text, codes}
use ramo.ReviewMap.Classify.{
  Globs, ClassifierConfig, classify_path, parse_codeowners, owner_for, normalize_pattern,
}

-- A matcher that takes a pattern for the path it is.
abbrev exact_glob : Globs
exact_glob pattern = success (text_eq pattern)

abbrev no_patterns : ClassifierConfig
no_patterns = record { additional_test_patterns = []; additional_generated_patterns = [] }

abbrev kind_of : Text → ReviewFileKind
kind_of path = classify_path exact_glob path none no_patterns

classify_test :
    (kind_of (codes "src/watch_test.go") ≡ test)
    × (kind_of (codes "Cargo.lock") ≡ generated)
    × (kind_of (codes "db\\migrations\\1.sql") ≡ migration)
    × (kind_of (codes "README.md") ≡ documentation)
    × (kind_of (codes ".md") ≡ authored)
    × (classify_path exact_glob (codes "a.rs") (some (codes "+// DO NOT EDIT")) no_patterns
        ≡ generated)
unfolding classify_path
classify_test = (refl, refl, refl, refl, refl, refl)

owners_test :
    elim (parse_codeowners exact_glob (codes "# all\n\n/a.rs @one\n**/b @two\n/a.rs @three\n")) [
      | failure error ↦ none
      | success rules ↦ owner_for rules (codes "**/a.rs")
    ]
    ≡ some (codes "@three")
unfolding parse_codeowners owner_for
owners_test = refl

-- The slash in front of a pattern is lost, so that it is matched in every folder.
rooted_test : normalize_pattern (codes "/Makefile") ≡ codes "**/Makefile"
unfolding normalize_pattern
rooted_test = refl

owners_error_test :
    parse_codeowners exact_glob (codes "a.rs\n")
    ≡ failure (record { line = 1; message = codes "rule must name at least one owner" })
unfolding parse_codeowners
owners_error_test = refl

abbrev identity : ReviewMapIdentity
identity = record {
  repository = codes "r";
  pull_request = 1;
  base_sha = codes "b";
  head_sha = codes "h";
}

abbrev changed : Text → Option Text → ReviewMapInputFile
changed path previous_path = record {
  path = path;
  previous_path = previous_path;
  status = codes "modified";
  additions = 2;
  deletions = 1;
  patch = some (codes "+x");
  is_binary = false;
}

abbrev input_of : List ReviewMapInputFile → ReviewMapInput
input_of files = record { identity = identity; files = files; codeowners = none }

abbrev two_files : ReviewMapInput
two_files =
    input_of (
      changed (codes "src/a/b/c.rs") none ∷ changed (codes "tests/d.rs") (some (codes "e.rs")) ∷ [])

-- A renamed file and a file whose name holds an arrow have the same identity, so that no map is
-- built although the paths differ.
arrow_test :
    build_review_map exact_glob
      (input_of (changed (codes "b") (some (codes "a")) ∷ changed (codes "a->b") none ∷ []))
      no_patterns
    ≡ some (failure (duplicate_membership (codes "file:h:a->b")))
unfolding build_review_map
arrow_test = refl

bad_path_test :
    build_review_map exact_glob (input_of (changed (codes "a/../b") none ∷ [])) no_patterns
    ≡ some (failure (invalid_path (codes "a/../b")))
unfolding build_review_map
bad_path_test = refl

abbrev file_of : Text → ReviewFileKind → ReviewMapFile
file_of path kind = record {
  id = path;
  path = path;
  previous_path = none;
  status = codes "modified";
  additions = 2;
  deletions = 1;
  kind = kind;
  owner = none;
  coverage = full;
  insight = none;
  recommended_order = none;
}

abbrev group_of : Text → ReviewFileKind → List Text → ReviewMapGroup
group_of id kind ids = record {
  id = id;
  label = id;
  kind = kind;
  file_ids = ids;
  additions = 2 * length ids;
  deletions = length ids;
  collapsed_by_default = false;
  insight = none;
}

abbrev small_map : ReviewMap
small_map = record {
  schema_version = 1;
  identity = identity;
  status = ready;
  totals = record {
    files = 3;
    additions = 6;
    deletions = 3;
    authored = 2;
    tests = 1;
    generated = 0;
    migrations = 0;
    documentation = 0;
  };
  groups =
      group_of (codes "all") authored (codes "a" ∷ codes "b" ∷ [])
      ∷ group_of (codes "tests") test (codes "t" ∷ [])
      ∷ [];
  files =
      file_of (codes "a") authored ∷ file_of (codes "b") authored ∷ file_of (codes "t") test ∷ [];
  analysis = none;
}

validate_test :
    (validate_exact_map small_map ≡ success tt)
    × (validate_exact_map
          (record small_map { groups = group_of (codes "x") authored (codes "a" ∷ []) ∷ [] })
        ≡ failure (missing_membership (codes "b")))
unfolding validate_exact_map
validate_test = (refl, refl)

validate_exact_map-IsExact_example : (validate_exact_map small_map ≡ success tt) ↔ IsExact small_map
validate_exact_map-IsExact_example = validate_exact_map-IsExact small_map

abbrev proposed : Text → List Text → ProposedGroup
proposed label paths = record {
  label = label;
  summary = codes "why";
  risk = none;
  review_priority = 1;
  paths = paths;
}

abbrev proposal : EnrichmentProposal
proposal = record {
  groups = proposed (codes " core ") (codes "b" ∷ codes "a" ∷ []) ∷ [];
  files = [];
  review_order = codes "b" ∷ codes "a" ∷ [];
  coverage = record {
    analyzed_paths = codes "a" ∷ [];
    truncated_paths = [];
    metadata_only_paths = [];
    binary_paths = [];
  };
}

proposal-accepted : validate_enrichment small_map proposal ≡ success tt
unfolding validate_enrichment
proposal-accepted = refl

fixed_test :
    validate_enrichment small_map (record proposal { review_order = codes "t" ∷ [] })
    ≡ failure (fixed_classification (codes "t"))
unfolding validate_enrichment
fixed_test = refl

validate_enrichment-Regroups_example :
    Regroups small_map.files (proposed_paths proposal.groups)
    × Regroups small_map.files proposal.review_order
    × Each HasLabel proposal.groups
validate_enrichment-Regroups_example =
    validate_enrichment-Regroups small_map proposal proposal-accepted

abbrev analysis : ReviewMapAnalysis
analysis = record { model = codes "m"; prompt_version = 1; completed_at = codes "now" }

merge_enrichment-Merges_example :
    (result : Result ReviewMap EnrichmentError) × (merge_enrichment small_map proposal analysis
      ≡ some result)
    × ((error : EnrichmentError)
        → validate_enrichment small_map proposal ≡ failure error
        → result ≡ failure error)
    × (validate_enrichment small_map proposal ≡ success tt
        → (merged : ReviewMap) × Merges small_map proposal merged
          × (IsExact merged → result ≡ success merged)
          × (¬ IsExact merged → (message : Text) × (result ≡ failure (invalid_merge message))))
    × ((merged : ReviewMap) → result ≡ success merged → IsExact merged)
merge_enrichment-Merges_example = merge_enrichment-Merges small_map proposal analysis

merge_test :
    elim (merge_enrichment small_map proposal analysis) [
      | some (success merged) ↦ map (λ (file : ReviewMapFile). file.recommended_order) merged.files
      | _ ↦ []
    ]
    ≡ some 2 ∷ some 1 ∷ none ∷ []
unfolding merge_enrichment
merge_test = refl
