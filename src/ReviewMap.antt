-- ===== src/ReviewMap.antt =====
-- crates/ramo-core/src/review_map/model.rs, with the request of enrichment.rs: the data of the
-- review map, which groups the files of a pull request.
pub mod Controller
mod Tests
pub mod Exact
pub mod Planner
pub mod Classify
pub mod Enrichment
use ramo.Prelude.{ℕ, List, Option, Bool}
use ramo.Prelude.Text.{Text}

pub data ReviewMapStatus : Type 0 where
  ready analyzing enriched stale unavailable failed : ReviewMapStatus

pub data ReviewMapFailureCode : Type 0 where
  server_unreachable pairing_rejected client_unauthorized : ReviewMapFailureCode
  github_auth_unavailable github_request_failed pull_request_unavailable : ReviewMapFailureCode
  ollama_unavailable model_missing analysis_timed_out analysis_invalid : ReviewMapFailureCode
  analysis_low_quality analysis_failed result_stale cache_unavailable : ReviewMapFailureCode
  server_incompatible : ReviewMapFailureCode

pub data ReviewFileKind : Type 0 where
  authored test generated migration documentation other : ReviewFileKind

pub data PatchCoverage : Type 0 where
  full truncated metadata_only binary : PatchCoverage

pub record ReviewMapIdentity : Type 0 where
  pub repository : Text
  pub pull_request : ℕ
  pub base_sha : Text
  pub head_sha : Text

pub record ReviewMapTotals : Type 0 where
  pub files : ℕ
  pub additions : ℕ
  pub deletions : ℕ
  pub authored : ℕ
  pub tests : ℕ
  pub generated : ℕ
  pub migrations : ℕ
  pub documentation : ℕ

pub record FileInsight : Type 0 where
  pub summary : Text
  pub risk : Option Text

pub record GroupInsight : Type 0 where
  pub summary : Text
  pub risk : Option Text
  pub review_priority : ℕ

pub record ReviewMapFile : Type 0 where
  pub id : Text
  pub path : Text
  pub previous_path : Option Text
  pub status : Text
  pub additions : ℕ
  pub deletions : ℕ
  pub kind : ReviewFileKind
  pub owner : Option Text
  pub coverage : PatchCoverage
  pub insight : Option FileInsight
  pub recommended_order : Option ℕ

pub record ReviewMapGroup : Type 0 where
  pub id : Text
  pub label : Text
  pub kind : ReviewFileKind
  pub file_ids : List Text
  pub additions : ℕ
  pub deletions : ℕ
  pub collapsed_by_default : Bool
  pub insight : Option GroupInsight

pub record ReviewMapAnalysis : Type 0 where
  pub model : Text
  pub prompt_version : ℕ
  pub completed_at : Text

pub record ReviewMap : Type 0 where
  pub schema_version : ℕ
  pub identity : ReviewMapIdentity
  pub status : ReviewMapStatus
  pub totals : ReviewMapTotals
  pub groups : List ReviewMapGroup
  pub files : List ReviewMapFile
  pub analysis : Option ReviewMapAnalysis

pub record EnrichmentExactGroup : Type 0 where
  pub id : Text
  pub label : Text
  pub kind : ReviewFileKind
  pub paths : List Text

pub record EnrichmentInputFile : Type 0 where
  pub path : Text
  pub kind : ReviewFileKind
  pub additions : ℕ
  pub deletions : ℕ
  pub coverage : PatchCoverage
  pub patch : Option Text

pub record EnrichmentCoverage : Type 0 where
  pub analyzed_paths : List Text
  pub truncated_paths : List Text
  pub metadata_only_paths : List Text
  pub binary_paths : List Text

pub record EnrichmentRequest : Type 0 where
  pub schema_version : ℕ
  pub identity : ReviewMapIdentity
  pub groups : List EnrichmentExactGroup
  pub files : List EnrichmentInputFile
  pub coverage : EnrichmentCoverage
