-- ===== src/Budget/Tests.antt =====
-- Runs of crates/ramo-server/src/analysis/budget.rs.
use ramo.Budget.Order.{ByPriority}
use mathlib.Core.List.{Perm}
use mathlib.Core.Option.{none}
use ramo.Budget.Batches.{
  IsBatch, budget_batches-IsBatch, batch_paths, paths_of, budget_batches-Perm,
}
use ramo.Prelude.{Each, List, Option, ℕ, ◌≡◌, some, [], ◌∷◌, ◌+◌, none, refl}
use ramo.Budget.{
  AnalysisBudget, truncate_to_prompt_budget, budget_batches, foldl, with_cut, build_batch,
  no_coverage,
}
use ramo.Prelude.Text.{byte_len, codes, Text}
use ramo.ReviewMap.{EnrichmentInputFile, EnrichmentRequest, test, authored, full}

abbrev small_file : EnrichmentInputFile
small_file = record {
  path = codes "tests/a.rs";
  kind = test;
  additions = 1;
  deletions = 0;
  coverage = full;
  patch = some (codes "+a");
}

abbrev large_file : EnrichmentInputFile
large_file = record small_file {
  path = codes "src/a.rs";
  kind = authored;
  patch = some (codes "+aéaa");
}

abbrev request : EnrichmentRequest
request = record {
  schema_version = 1;
  identity = record {
    repository = codes "owner/name";
    pull_request = 1;
    base_sha = codes "base";
    head_sha = codes "head";
  };
  groups = [];
  files = small_file ∷ large_file ∷ [];
  coverage = no_coverage;
}

-- A prompt as long as its patches.
patch_bytes : Option Text → ℕ
unfolding byte_len
patch_bytes none = 0
patch_bytes (some s) = byte_len s

abbrev bytes : EnrichmentRequest → ℕ
bytes r = foldl (λ n (f : EnrichmentInputFile). n + patch_bytes f.patch) 0 r.files

abbrev budget : AnalysisBudget
budget = record { max_prompt_tokens = 3; max_files_per_batch = 16 }

-- The third byte is inside a character, so two bytes are kept.
truncate_test :
    truncate_to_prompt_budget request bytes 3 large_file ≡ with_cut large_file (codes "+a")
unfolding truncate_to_prompt_budget patch_bytes
truncate_test = refl

batches_test :
    budget_batches request budget bytes
    ≡ build_batch request (with_cut large_file (codes "+a") ∷ [])
      ∷ build_batch request (small_file ∷ [])
      ∷ []
unfolding budget_batches patch_bytes
batches_test = refl

budget_batches-IsBatch_example :
    Each (IsBatch request budget bytes) (budget_batches request budget bytes)
budget_batches-IsBatch_example = budget_batches-IsBatch request budget bytes

budget_batches-Perm_example :
    (sorted : List EnrichmentInputFile) × Perm sorted (small_file ∷ large_file ∷ [])
    × ByPriority sorted
    × (batch_paths (budget_batches request budget bytes) ≡ paths_of sorted)
budget_batches-Perm_example = budget_batches-Perm request budget bytes
