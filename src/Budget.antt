-- ===== src/Budget.antt =====
-- crates/ramo-server/src/analysis/budget.rs: the files of a request are cut into batches that fit
-- the prompt of a model. The estimate of a prompt (`estimate_prompt`) is an argument, as in the
-- source.
pub mod Truncate
pub mod Order
pub mod Batches
mod Tests
use mathlib.Core.Bool.{false}
use Prim.Native.Nat.{zero}
use mathlib.Core.List.{foldl}
use ramo.Prelude.Text.{Text, byte_len, split_at}
use ramo.Prelude.Str.{text_eq, is_some}
use ramo.ReviewMap.{
  ReviewFileKind, EnrichmentInputFile, EnrichmentCoverage, EnrichmentRequest, EnrichmentExactGroup,
  migration, generated, full, metadata_only, truncated, authored, documentation, binary, other,
  test,
}
use ramo.Prelude.{
  ℕ, List, ◌+◌, ◌-◌, ◌∷◌, [], map, ◌++◌, Bool, min, some, suc, none, ◌/◌, if◌then◌else◌, keep, leb,
  true, any, ltb, max, zero, length, false, ◌||◌, Option,
}

pub record AnalysisBudget : Type 0 where
  pub max_prompt_tokens : ℕ
  pub max_files_per_batch : ℕ

-- `div_ceil(3)`.
unfoldable pub estimate_tokens : ℕ → ℕ
estimate_tokens bytes = (bytes + 2) / 3

abbrev pub max_prompt_default : ℕ
max_prompt_default = 32768 - 6144 - 2048

abbrev pub default_budget : AnalysisBudget
default_budget = record { max_prompt_tokens = max_prompt_default; max_files_per_batch = 16 }

unfoldable pub file_priority : ReviewFileKind → ℕ
file_priority migration = 0
file_priority authored = 1
file_priority documentation = 2
file_priority other = 3
file_priority test = 4
file_priority generated = 5

-- `sort_by_key`, which is stable.
unfoldable pub insert_sorted :
    EnrichmentInputFile → List EnrichmentInputFile → List EnrichmentInputFile
unfolding file_priority
insert_sorted file [] = file ∷ []
insert_sorted file (next ∷ rest) =
    let later = insert_sorted file rest in
    if leb (file_priority file.kind) (file_priority next.kind)
    then file ∷ next ∷ rest
    else next ∷ later

unfoldable pub sort_by_priority : List EnrichmentInputFile → List EnrichmentInputFile
unfolding insert_sorted
sort_by_priority [] = []
sort_by_priority (file ∷ rest) = insert_sorted file (sort_by_priority rest)

unfoldable pub prepare_patch : EnrichmentInputFile → EnrichmentInputFile
prepare_patch file = elim file.kind [
  | generated ↦ record file { patch = none; coverage = metadata_only }
  | _ ↦ elim file.coverage [ binary ↦ record file { patch = none } | _ ↦ file ]
]

-- One file of the loop of `coverage_for`.
add_coverage : EnrichmentCoverage → EnrichmentInputFile → EnrichmentCoverage
add_coverage found file = elim file.coverage [
  | full ↦ record found { analyzed_paths = found.analyzed_paths ++ file.path ∷ [] }
  | truncated ↦ record found { truncated_paths = found.truncated_paths ++ file.path ∷ [] }
  | metadata_only ↦ record found {
    metadata_only_paths = found.metadata_only_paths ++ file.path ∷ [];
  }
  | binary ↦ record found { binary_paths = found.binary_paths ++ file.path ∷ [] }
]

abbrev no_coverage : EnrichmentCoverage
no_coverage = record {
  analyzed_paths = [];
  truncated_paths = [];
  metadata_only_paths = [];
  binary_paths = [];
}

unfoldable pub coverage_for : List EnrichmentInputFile → EnrichmentCoverage
unfolding add_coverage
coverage_for files = foldl add_coverage no_coverage files

-- The groups cut down to the paths of a batch; a group that keeps none is left out.
groups_of : List Text → List EnrichmentExactGroup → List EnrichmentExactGroup
unfolding text_eq
groups_of paths [] = []
groups_of paths (group ∷ rest) =
    let later = groups_of paths rest in
    elim (keep (λ path. any (text_eq path) paths) group.paths) [
      | [] ↦ later
      | p ∷ ps ↦ record group { paths = p ∷ ps } ∷ later
    ]

unfoldable pub build_batch : EnrichmentRequest → List EnrichmentInputFile → EnrichmentRequest
unfolding groups_of coverage_for
build_batch request files = record request {
  groups = groups_of (map (λ (f : EnrichmentInputFile). f.path) files) request.groups;
  files = files;
  coverage = coverage_for files;
}

unfoldable pub build_batch_with_extra :
    EnrichmentRequest → List EnrichmentInputFile → EnrichmentInputFile → EnrichmentRequest
unfolding build_batch
build_batch_with_extra request current extra = build_batch request (current ++ extra ∷ [])

-- `is_char_boundary`.
abbrev pub is_char_boundary : Text → ℕ → Bool
is_char_boundary s n = is_some (split_at s n)

unfoldable pub down_to_boundary : Text → ℕ → ℕ
down_to_boundary s zero = zero
down_to_boundary s (suc n) = elim (is_char_boundary s (suc n)) [
  | true ↦ suc n
  | false ↦ down_to_boundary s n
]

unfoldable pub floor_char_boundary : Text → ℕ → ℕ
unfolding byte_len split_at down_to_boundary
floor_char_boundary s requested = down_to_boundary s (min requested (byte_len s))

-- `original[..boundary]`; an offset inside a character would panic, and none is given.
unfoldable pub cut_to : Text → ℕ → Text
unfolding floor_char_boundary split_at
cut_to s requested = elim (split_at s (floor_char_boundary s requested)) [
  | none ↦ []
  | some (a, b) ↦ a
]

abbrev pub with_cut : EnrichmentInputFile → Text → EnrichmentInputFile
with_cut file s = record file { patch = some s; coverage = truncated }

-- The binary search, with `div_ceil(2)` written out. The distance of its bounds shrinks with each
-- round and is fuel enough.
unfoldable pub bisect : (ℕ → Bool) → ℕ → ℕ → ℕ → ℕ
bisect fits zero low high = low
bisect fits (suc fuel) low high =
    let requested = low + ((high - low) + 1) / 2 in
    elim (ltb low high) [
      | false ↦ low
      | true ↦ elim (fits requested) [
        | true ↦ bisect fits fuel requested high
        | false ↦ bisect fits fuel low (requested - 1)
      ]
    ]

abbrev pub fits_alone : EnrichmentRequest → (EnrichmentRequest → ℕ) → ℕ → EnrichmentInputFile → Bool
fits_alone request estimate_prompt limit file =
    leb (estimate_prompt (build_batch request (file ∷ []))) limit

-- The function behind its first line, which asks for the patch.
unfoldable pub truncate_patch :
    EnrichmentRequest
    → (EnrichmentRequest → ℕ)
    → ℕ
    → EnrichmentInputFile
    → Option Text
    → EnrichmentInputFile
unfolding build_batch bisect cut_to byte_len
truncate_patch request estimate_prompt limit file none = file
truncate_patch request estimate_prompt limit file (some original) =
    if fits_alone request estimate_prompt limit file
    then file
    else with_cut file (
        cut_to original (
          bisect (λ n. fits_alone request estimate_prompt limit (with_cut file (cut_to original n)))
            (byte_len original) 0 (byte_len original)))

unfoldable pub truncate_to_prompt_budget :
    EnrichmentRequest → (EnrichmentRequest → ℕ) → ℕ → EnrichmentInputFile → EnrichmentInputFile
unfolding truncate_patch
truncate_to_prompt_budget request estimate_prompt limit file =
    truncate_patch request estimate_prompt limit file file.patch

-- The loop over the files, with the batch that is being filled.
unfoldable pub batches_from :
    EnrichmentRequest
    → AnalysisBudget
    → (EnrichmentRequest → ℕ)
    → List EnrichmentInputFile
    → List EnrichmentInputFile
    → List EnrichmentRequest
unfolding build_batch build_batch_with_extra prepare_patch truncate_to_prompt_budget
batches_from request budget estimate_prompt [] [] = []
batches_from request budget estimate_prompt (c ∷ current) [] =
    build_batch request (c ∷ current) ∷ []
batches_from request budget estimate_prompt [] (file ∷ rest) =
    batches_from request budget estimate_prompt
      (truncate_to_prompt_budget request estimate_prompt budget.max_prompt_tokens
          (prepare_patch file)
        ∷ [])
      rest
batches_from request budget estimate_prompt (c ∷ current) (file ∷ rest) =
    elim (leb (max budget.max_files_per_batch 1) (length (c ∷ current))
      || ltb budget.max_prompt_tokens
          (estimate_prompt (build_batch_with_extra request (c ∷ current) (prepare_patch file)))) [
            | true ↦
                build_batch request (c ∷ current)
                ∷ batches_from request budget estimate_prompt
                    (truncate_to_prompt_budget request estimate_prompt budget.max_prompt_tokens
                        (prepare_patch file)
                      ∷ [])
                    rest
            | false ↦
                batches_from request budget estimate_prompt (c ∷ current ++ prepare_patch file ∷ [])
                  rest
          ]

unfoldable pub budget_batches :
    EnrichmentRequest → AnalysisBudget → (EnrichmentRequest → ℕ) → List EnrichmentRequest
unfolding batches_from sort_by_priority build_batch
budget_batches request budget estimate_prompt =
    elim (batches_from request budget estimate_prompt [] (sort_by_priority request.files)) [
      | [] ↦ build_batch request [] ∷ []
      | batch ∷ batches ↦ batch ∷ batches
    ]
