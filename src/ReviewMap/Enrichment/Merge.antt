-- ===== src/ReviewMap/Enrichment/Merge.antt =====
-- `merge_enrichment` of crates/ramo-core/src/review_map/enrichment.rs. A panic is `none`: the source
-- takes the file of a path from a hash map without a test.
pub mod Groups
pub mod Sound
use mathlib.Core.List.{[]}
use ramo.Prelude.Machine.{wrap_add}
use ramo.Prelude.Decimal.{decimal}
use ramo.Prelude.Str.{text_eq, trim}
use ramo.Prelude.Text.{Text, codes}
use ramo.Prelude.{
  ◌>>=◌, List, ℕ, Bool, Option, none, some, true, map, ◌++◌, ◌∷◌, if◌then◌else◌, suc, false, keep,
  [], all,
}
use ramo.Prelude.Result.{Result, success, failure}
use ramo.ReviewMap.Enrichment.{
  EnrichmentProposal, ProposedGroup, ProposedFileInsight, EnrichmentError, file_at, is_fixed,
  validate_enrichment, invalid_merge,
}
use ramo.ReviewMap.Exact.{
  ReviewMapError, validate_exact_map, invalid_path, duplicate_path, invalid_codeowners,
  duplicate_membership, missing_membership, totals_mismatch, ids_of,
}
use ramo.ReviewMap.{
  ReviewMap, ReviewMapFile, ReviewMapGroup, ReviewFileKind, ReviewMapAnalysis, authored, test,
  generated, migration, documentation, other, enriched,
}

abbrev pub error_text : ReviewMapError → Text
error_text (invalid_path path) = codes "invalid changed path: " ++ path
error_text (duplicate_path path) = codes "changed path appears more than once: " ++ path
error_text (invalid_codeowners message) = codes "invalid CODEOWNERS: " ++ message
error_text (duplicate_membership id) = codes "file belongs to more than one group: " ++ id
error_text (missing_membership id) = codes "file is missing from all groups: " ++ id
error_text totals_mismatch = codes "review map totals do not match its files"

-- The map from paths to insights, where the last counts.
unfoldable pub insight_at : List ProposedFileInsight → Text → Option ProposedFileInsight
unfolding text_eq
insight_at [] path = none
insight_at (insight ∷ rest) path = elim (insight_at rest path) [
  | some later ↦ some later
  | none ↦ if text_eq insight.path path then some insight else none
]

-- The map from paths to places of the order, counted from a first one.
unfoldable pub order_at : ℕ → List Text → Text → Option ℕ
unfolding text_eq
order_at place [] path = none
order_at place (first ∷ rest) path = elim (order_at (suc place) rest path) [
  | some later ↦ some later
  | none ↦ if text_eq first path then some place else none
]

unfoldable pub members_at : List ReviewMapFile → List Text → Option (List ReviewMapFile)
unfolding file_at
members_at files [] = some []
members_at files (path ∷ rest) = do
  file ← file_at files path
  later ← members_at files rest
  some (file ∷ later)

unfoldable pub sum_of : (ReviewMapFile → ℕ) → ℕ → List ReviewMapFile → ℕ
sum_of amount sum [] = sum
sum_of amount sum (file ∷ rest) = sum_of amount (wrap_add sum (amount file)) rest

abbrev pub same_kind : ReviewFileKind → ReviewFileKind → Bool
same_kind authored authored = true
same_kind test test = true
same_kind generated generated = true
same_kind migration migration = true
same_kind documentation documentation = true
same_kind other other = true
same_kind _ _ = false

abbrev pub common_kind : List ReviewMapFile → ReviewFileKind
common_kind [] = other
common_kind (file ∷ rest) =
    if all (λ (member : ReviewMapFile). same_kind member.kind file.kind) (file ∷ rest)
    then file.kind
    else other

abbrev pub trimmed : Option Text → Option Text
trimmed none = none
trimmed (some text) = some (trim text)

abbrev pub group_of_members : ReviewMap → ℕ → ProposedGroup → List ReviewMapFile → ReviewMapGroup
group_of_members map index proposed members = record {
  id = codes "group:" ++ map.identity.head_sha ++ codes ":ai:" ++ decimal index;
  label = trim proposed.label;
  kind = common_kind members;
  file_ids = ids_of members;
  additions = sum_of ReviewMapFile.additions 0 members;
  deletions = sum_of ReviewMapFile.deletions 0 members;
  collapsed_by_default = false;
  insight = some (record {
    summary = trim proposed.summary;
    risk = trimmed proposed.risk;
    review_priority = proposed.review_priority;
  });
}

unfoldable pub proposed_groups : ReviewMap → ℕ → List ProposedGroup → Option (List ReviewMapGroup)
unfolding members_at sum_of decimal trim
proposed_groups map index [] = some []
proposed_groups map index (proposed ∷ rest) = do
  members ← members_at map.files proposed.paths
  later ← proposed_groups map (suc index) rest
  some (group_of_members map index proposed members ∷ later)

abbrev pub with_proposal : EnrichmentProposal → ReviewMapFile → ReviewMapFile
with_proposal proposal file = record file {
  insight = elim (insight_at proposal.files file.path) [
    | none ↦ none
    | some insight ↦ some (record { summary = trim insight.summary; risk = trimmed insight.risk })
  ];
  recommended_order = order_at 1 proposal.review_order file.path;
}

-- `with_proposal` of every file.
abbrev pub with_all : EnrichmentProposal → List ReviewMapFile → List ReviewMapFile
with_all proposal files = map (with_proposal proposal) files

abbrev pub merged_map :
    ReviewMap → EnrichmentProposal → ReviewMapAnalysis → List ReviewMapGroup → ReviewMap
merged_map map proposal analysis groups = record map {
  groups = groups ++ keep (λ (group : ReviewMapGroup). is_fixed group.kind) map.groups;
  files = with_all proposal map.files;
  status = enriched;
  analysis = some analysis;
}

abbrev pub checked_map : ReviewMap → Result ReviewMap EnrichmentError
checked_map merged = elim (validate_exact_map merged) [
  | failure error ↦ failure (invalid_merge (error_text error))
  | success checked ↦ success merged
]

unfoldable pub merge_enrichment :
    ReviewMap → EnrichmentProposal → ReviewMapAnalysis → Option (Result ReviewMap EnrichmentError)
unfolding validate_enrichment proposed_groups insight_at order_at validate_exact_map trim
merge_enrichment map proposal analysis = elim (validate_enrichment map proposal) [
  | failure error ↦ some (failure error)
  | success checked ↦ do
    groups ← proposed_groups map 0 proposal.groups
    some (checked_map (merged_map map proposal analysis groups))
]
