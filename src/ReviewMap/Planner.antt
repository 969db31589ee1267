-- ===== src/ReviewMap/Planner.antt =====
-- crates/ramo-core/src/review_map/planner.rs: the review map of a pull request before any model has
-- seen it (`build_review_map`). The ordered map of groups is a list in the order of its keys, and a
-- panic, where the file of an identity is taken from a hash map without a test, is `none`.
pub mod Files
pub mod Planned
pub mod Refused
use ramo.Prelude.Machine.{wrap_add}
use ramo.Prelude.Sets.{contains}
use ramo.Prelude.Decimal.{decimal}
use ramo.Prelude.Split.{split_on, replace_char, text_lt, ends_with}
use ramo.Prelude.Str.{text_eq, strip_prefix, join, starts_with}
use ramo.Prelude.{
  List, Option, Bool, ℕ, [], ◌∷◌, none, if◌then◌else◌, true, some, ◌||◌, take, ◌++◌, false, min,
  any, length, ◌==◌, ◌-◌,
}
use ramo.Prelude.Text.{Text, codes}
use ramo.Prelude.Result.{Result, success, failure, ◌>>=◌}
use ramo.ReviewMap.{
  ReviewMap, ReviewMapFile, ReviewMapGroup, ReviewMapIdentity, ReviewFileKind, PatchCoverage,
  authored, test, generated, migration, documentation, other, full, truncated, metadata_only,
  binary, ready,
}
use ramo.ReviewMap.Exact.{
  ReviewMapError, validate_exact_map, totals_of, invalid_path, duplicate_path, invalid_codeowners,
}
use ramo.ReviewMap.Classify.{
  Globs, ClassifierConfig, Rule, CodeOwnersError, classify_path, parse_codeowners, owner_for,
}

pub record ReviewMapInputFile : Type 0 where
  pub path : Text
  pub previous_path : Option Text
  pub status : Text
  pub additions : ℕ
  pub deletions : ℕ
  pub patch : Option Text
  pub is_binary : Bool

pub record ReviewMapInput : Type 0 where
  pub identity : ReviewMapIdentity
  pub files : List ReviewMapInputFile
  pub codeowners : Option Text

abbrev is_bad_part : Text → Bool
is_bad_part part = text_eq part [] || text_eq part (codes ".") || text_eq part (codes "..")

-- The conditions on a path whose backslashes are slashes.
unfoldable pub is_bad_path : Text → Bool
unfolding text_eq strip_prefix split_on
is_bad_path path =
    text_eq path []
    || starts_with (codes "/") path
    || any (λ c. c == 0) path
    || any is_bad_part (split_on b'/' path)

unfoldable pub normalize_path : Text → Result Text ReviewMapError
unfolding is_bad_path
normalize_path path =
    let normalized = replace_char b'\\' b'/' path in
    if is_bad_path normalized then failure (invalid_path path) else success normalized

abbrev pub normalize_optional : Option Text → Result (Option Text) ReviewMapError
normalize_optional none = success none
normalize_optional (some path) = do normalized ← normalize_path path; success (some normalized)

unfoldable pub coverage_of : Bool → Option Text → PatchCoverage
unfolding strip_prefix
coverage_of true patch = binary
coverage_of false none = metadata_only
coverage_of false (some patch) =
    if ends_with (codes "... diff truncated ...") patch then truncated else full

-- The first two directories, one directory, or none.
abbrev pub folder_group : List Text → Text × Text
folder_group [] = (codes "authored:root", codes "Root files")
folder_group (name ∷ []) = (codes "authored:root", codes "Root files")
folder_group (folder ∷ next ∷ rest) =
    let directories = folder ∷ next ∷ rest in
    let prefix = join (codes "/") (take (min (length directories - 1) 2) directories) in
    (codes "authored:" ++ prefix, prefix ++ codes "/")

-- The key and the label of the group of a path.
unfoldable pub group_for : Text → ReviewFileKind → Text × Text
unfolding split_on join
group_for path test = (codes "test", codes "Tests")
group_for path generated = (codes "generated", codes "Generated")
group_for path migration = (codes "migration", codes "Migrations")
group_for path documentation = (codes "documentation", codes "Documentation")
group_for path authored = folder_group (split_on b'/' path)
group_for path other = folder_group (split_on b'/' path)

pub record Grouped : Type 0 where
  pub key : Text
  pub label : Text
  pub kind : ReviewFileKind
  pub file_ids : List Text

abbrev pub new_group : Text × Text → ReviewFileKind → Text → Grouped
new_group (key, label) kind id = record {
  key = key;
  label = label;
  kind = kind;
  file_ids = id ∷ [];
}

-- `entry(key).or_insert_with(..).2.push(id)`.
unfoldable pub push_id : Text × Text → ReviewFileKind → Text → List Grouped → List Grouped
unfolding text_eq text_lt
push_id group kind id [] = new_group group kind id ∷ []
push_id group kind id (first ∷ rest) =
    let later = push_id group kind id rest in
    if text_eq group.0 first.key
    then record first { file_ids = first.file_ids ++ id ∷ [] } ∷ rest
    else if text_lt group.0 first.key
    then new_group group kind id ∷ first ∷ rest
    else first ∷ later

abbrev pub file_id : Text → Text → Option Text → Text
file_id head_sha path none = codes "file:" ++ head_sha ++ codes ":" ++ path
file_id head_sha path (some previous) =
    codes "file:" ++ head_sha ++ codes ":" ++ previous ++ codes "->" ++ path

abbrev owner_in : Option (List Rule) → Text → Option Text
owner_in none path = none
owner_in (some rules) path = owner_for rules path

abbrev pub unless_seen : List Text → Text → Result Unit ReviewMapError
unless_seen seen path = if contains seen path then failure (duplicate_path path) else success tt

module _ (glob : Globs) (config : ClassifierConfig) (head_sha : Text)
    (owners : Option (List Rule)) where
  abbrev pub planned_file : ReviewMapInputFile → Text → Option Text → ReviewMapFile
  planned_file source path previous_path = record {
    id = file_id head_sha path previous_path;
    path = path;
    previous_path = previous_path;
    status = source.status;
    additions = source.additions;
    deletions = source.deletions;
    kind = classify_path glob path source.patch config;
    owner = owner_in owners path;
    coverage = coverage_of source.is_binary source.patch;
    insight = none;
    recommended_order = none;
  }

  -- The loop over the changed files: the files, and their identities in groups.
  unfoldable pub plan_files :
      List Text
      → List Grouped
      → List ReviewMapInputFile
      → Result (List ReviewMapFile × List Grouped) ReviewMapError
  unfolding normalize_path text_eq group_for push_id classify_path owner_for coverage_of
  plan_files seen grouped [] = success ([], grouped)
  plan_files seen grouped (source ∷ rest) = do
    path ← normalize_path source.path
    tt ← unless_seen seen path
    previous_path ← normalize_optional source.previous_path
    let file = planned_file source path previous_path
    (files, all_grouped) ←
        plan_files (path ∷ seen) (push_id (group_for path file.kind) file.kind file.id grouped) rest
    success (file ∷ files, all_grouped)

-- The map from identities to files, where the last counts.
unfoldable pub file_of_id : List ReviewMapFile → Text → Option ReviewMapFile
unfolding text_eq
file_of_id [] id = none
file_of_id (file ∷ rest) id = elim (file_of_id rest id) [
  | some later ↦ some later
  | none ↦ if text_eq file.id id then some file else none
]

-- The fold over the members of a group.
unfoldable pub sums_of : List ReviewMapFile → ℕ → ℕ → List Text → Option (ℕ × ℕ)
unfolding file_of_id
sums_of files additions deletions [] = some (additions, deletions)
sums_of files additions deletions (id ∷ rest) = elim (file_of_id files id) [
  | none ↦ none
  | some file ↦
      sums_of files (wrap_add additions file.additions) (wrap_add deletions file.deletions) rest
]

abbrev is_collapsed : ReviewFileKind → Bool
is_collapsed test = true
is_collapsed generated = true
is_collapsed _ = false

abbrev pub planned_group : Text → Grouped → ℕ × ℕ → ReviewMapGroup
planned_group head_sha grouped (additions, deletions) = record {
  id = codes "group:" ++ head_sha ++ codes ":" ++ grouped.key;
  label = grouped.label;
  kind = grouped.kind;
  file_ids = grouped.file_ids;
  additions = additions;
  deletions = deletions;
  collapsed_by_default = is_collapsed grouped.kind;
  insight = none;
}

unfoldable pub plan_groups : Text → List ReviewMapFile → List Grouped → Option (List ReviewMapGroup)
unfolding sums_of
plan_groups head_sha files [] = some []
plan_groups head_sha files (grouped ∷ rest) = elim (sums_of files 0 0 grouped.file_ids) [
  | none ↦ none
  | some sums ↦ elim (plan_groups head_sha files rest) [
    | none ↦ none
    | some later ↦ some (planned_group head_sha grouped sums ∷ later)
  ]
]

unfoldable pub owners_error : CodeOwnersError → Text
unfolding decimal
owners_error error =
    codes "invalid CODEOWNERS rule at line " ++ decimal error.line ++ codes ": " ++ error.message

abbrev pub parse_owners : Globs → Option Text → Result (Option (List Rule)) ReviewMapError
parse_owners glob none = success none
parse_owners glob (some source) = elim (parse_codeowners glob source) [
  | failure error ↦ failure (invalid_codeowners (owners_error error))
  | success rules ↦ success (some rules)
]

abbrev pub planned_map : ReviewMapIdentity → List ReviewMapFile → List ReviewMapGroup → ReviewMap
planned_map identity files groups = record {
  schema_version = 1;
  identity = identity;
  status = ready;
  totals = totals_of files;
  groups = groups;
  files = files;
  analysis = none;
}

abbrev pub checked : ReviewMap → Result ReviewMap ReviewMapError
checked map = do tt ← validate_exact_map map; success map

abbrev pub planned :
    Globs
    → ReviewMapInput
    → ClassifierConfig
    → Result (List ReviewMapFile × List Grouped) ReviewMapError
planned glob input config = do
  owners ← parse_owners glob input.codeowners
  plan_files glob config input.identity.head_sha owners [] [] input.files

unfoldable pub build_review_map :
    Globs → ReviewMapInput → ClassifierConfig → Option (Result ReviewMap ReviewMapError)
unfolding parse_codeowners owners_error plan_files plan_groups totals_of validate_exact_map
build_review_map glob input config = elim (planned glob input config) [
  | failure error ↦ some (failure error)
  | success (files, grouped) ↦ elim (plan_groups input.identity.head_sha files grouped) [
    | none ↦ none
    | some groups ↦ some (checked (planned_map input.identity files groups))
  ]
]
