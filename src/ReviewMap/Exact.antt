-- ===== src/ReviewMap/Exact.antt =====
-- crates/ramo-core/src/review_map/planner.rs: the totals of a review map and the check that its
-- groups are a partition of its files (`validate_exact_map`). A set is the list of what was
-- inserted, the last first. Where the source takes the next element of a difference of hash sets,
-- whose order is not fixed, the model takes the first in the order of the files.
pub mod Members
pub mod Partition
use mathlib.Core.Option.{none}
use ramo.Prelude.Sets.{contains}
use ramo.Prelude.Str.{text_eq}
use ramo.Prelude.Machine.{wrap_add}
use ramo.Prelude.{
  ℕ, ◌+◌, List, Bool, length, ◌==◌, Option, map, not, [], some, ◌∷◌, ◌&&◌, find_first,
  if◌then◌else◌, ◌||◌, any, none,
}
use ramo.Prelude.Text.{Text}
use ramo.Prelude.Result.{Result, success, failure, ◌>>=◌}
use ramo.ReviewMap.{
  ReviewMap, ReviewMapFile, ReviewMapGroup, ReviewMapTotals, ReviewFileKind, authored, test,
  generated, migration, documentation, other,
}

pub data ReviewMapError : Type 0 where
  invalid_path duplicate_path invalid_codeowners : Text → ReviewMapError
  duplicate_membership missing_membership : Text → ReviewMapError
  totals_mismatch : ReviewMapError

abbrev pub no_totals : ℕ → ReviewMapTotals
no_totals files = record {
  files = files;
  additions = 0;
  deletions = 0;
  authored = 0;
  tests = 0;
  generated = 0;
  migrations = 0;
  documentation = 0;
}

abbrev pub count_kind : ReviewFileKind → ReviewMapTotals → ReviewMapTotals
count_kind authored totals = record totals { authored = totals.authored + 1 }
count_kind other totals = record totals { authored = totals.authored + 1 }
count_kind test totals = record totals { tests = totals.tests + 1 }
count_kind generated totals = record totals { generated = totals.generated + 1 }
count_kind migration totals = record totals { migrations = totals.migrations + 1 }
count_kind documentation totals = record totals { documentation = totals.documentation + 1 }

abbrev pub count_file : ReviewMapFile → ReviewMapTotals → ReviewMapTotals
count_file file totals = count_kind file.kind (record totals {
  additions = wrap_add totals.additions file.additions;
  deletions = wrap_add totals.deletions file.deletions;
})

unfoldable pub count_files : ReviewMapTotals → List ReviewMapFile → ReviewMapTotals
count_files totals [] = totals
count_files totals (file ∷ rest) = count_files (count_file file totals) rest

unfoldable pub totals_of : List ReviewMapFile → ReviewMapTotals
unfolding count_files
totals_of files = count_files (no_totals (length files)) files

-- `==` of totals.
unfoldable pub same_totals : ReviewMapTotals → ReviewMapTotals → Bool
same_totals a b =
    a.files == b.files
    && a.additions == b.additions
    && a.deletions == b.deletions
    && a.authored == b.authored
    && a.tests == b.tests
    && a.generated == b.generated
    && a.migrations == b.migrations
    && a.documentation == b.documentation

unfoldable pub find_file : List ReviewMapFile → Text → Option ReviewMapFile
unfolding text_eq
find_file files id = find_first (λ (file : ReviewMapFile). text_eq file.id id) files

abbrev pub ids_of : List ReviewMapFile → List Text
ids_of files = map (λ (file : ReviewMapFile). file.id) files

-- The loop over the members of a group, with the members so far and the two sums.
unfoldable pub check_members :
    List ReviewMapFile → List Text → ℕ → ℕ → List Text → Result (List Text × ℕ × ℕ) ReviewMapError
unfolding find_file text_eq
check_members files memberships additions deletions [] = success (memberships, additions, deletions)
check_members files memberships additions deletions (id ∷ rest) =
    if contains memberships id
    then failure (duplicate_membership id)
    else elim (find_file files id) [
      | none ↦ failure totals_mismatch
      | some file ↦
          check_members files (id ∷ memberships) (wrap_add additions file.additions)
            (wrap_add deletions file.deletions) rest
    ]

abbrev pub sums_differ : ReviewMapGroup → ℕ → ℕ → Bool
sums_differ group additions deletions =
    not (additions == group.additions) || not (deletions == group.deletions)

unfoldable pub check_groups :
    List ReviewMapFile → List Text → List ReviewMapGroup → Result (List Text) ReviewMapError
unfolding check_members
check_groups files memberships [] = success memberships
check_groups files memberships (group ∷ rest) = do
  (seen, additions, deletions) ← check_members files memberships 0 0 group.file_ids
  (if sums_differ group additions deletions
      then failure totals_mismatch
      else check_groups files seen rest)

abbrev pub first_missing : List Text → List Text → Option Text
first_missing memberships ids = find_first (λ id. not (contains memberships id)) ids

abbrev pub check_whole : ReviewMap → List Text → Result Unit ReviewMapError
check_whole map memberships =
    let ids = ids_of map.files in
    elim (first_missing memberships ids) [
      | some missing ↦ failure (missing_membership missing)
      | none ↦
          if any (λ id. not (contains ids id)) memberships
            || not (same_totals (totals_of map.files) map.totals)
          then failure totals_mismatch
          else success tt
    ]

unfoldable pub validate_exact_map : ReviewMap → Result Unit ReviewMapError
unfolding check_groups text_eq same_totals totals_of
validate_exact_map map = do
  memberships ← check_groups map.files [] map.groups
  check_whole map memberships
