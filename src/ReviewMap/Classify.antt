-- ===== src/ReviewMap/Classify.antt =====
-- crates/ramo-core/src/review_map/classify.rs and codeowners.rs: the kind and the owner of a changed
-- path. The crate `globset` is the parameter `glob`: the test that a pattern is compiled to, or the
-- message of the error. `Path::file_name` and `Path::extension` are those of Unix.
use ramo.Prelude.Sets.{contains}
use mathlib.Core.List.{reverse, []}
use ramo.Prelude.Str.{
  split_once, trim_start_matches, trim, lines, text_eq, strip_prefix, starts_with,
}
use ramo.Prelude.Split.{
  split_on, split_whitespace, to_ascii_lowercase, strip_suffix, replace_char, ends_with,
}
use ramo.Prelude.{
  List, Option, ℕ, Bool, none, min, find_first, some, ◌∷◌, [], not, if◌then◌else◌, keep, any, false,
  true, ◌&&◌, ◌||◌, ◌++◌, ◌==◌, suc,
}
use ramo.Prelude.Text.{Text, split_at, codes, byte_len}
use ramo.ReviewMap.Controller.{contains_text}
use ramo.Prelude.Result.{Result, success, failure, ◌>>=◌}
use ramo.ReviewMap.{ReviewFileKind, authored, test, generated, migration, documentation}

abbrev pub Globs : Type 0
Globs = Text → Result (Text → Bool) Text

pub record ClassifierConfig : Type 0 where
  pub additional_test_patterns : List Text
  pub additional_generated_patterns : List Text

abbrev pub generated_names : List Text
generated_names =
    codes "cargo.lock"
    ∷ codes "package-lock.json"
    ∷ codes "pnpm-lock.yaml"
    ∷ codes "poetry.lock"
    ∷ codes "uv.lock"
    ∷ codes "yarn.lock"
    ∷ []

abbrev pub document_extensions : List Text
document_extensions = codes "md" ∷ codes "mdx" ∷ codes "rst" ∷ codes "adoc" ∷ []

abbrev is_component : Text → Bool
is_component part = not (text_eq part []) && not (text_eq part (codes "."))

abbrev last_of : List Text → Option Text
last_of [] = none
last_of (part ∷ []) = some part
last_of (part ∷ next ∷ rest) = last_of (next ∷ rest)

abbrev unless_parent : Option Text → Option Text
unless_parent none = none
unless_parent (some part) = if text_eq part (codes "..") then none else some part

-- `Path::file_name`.
unfoldable pub file_name : Text → Option Text
unfolding split_on text_eq
file_name path = unless_parent (last_of (keep is_component (split_on b'/' path)))

-- What stands behind the last dot, if something stands before it.
abbrev suffix_of : Option (Text × Text) → Option Text
suffix_of none = none
suffix_of (some (behind, [])) = none
suffix_of (some (behind, c ∷ before)) = some (reverse behind)

-- `Path::extension`.
unfoldable pub extension : Text → Option Text
unfolding file_name split_once
extension path = elim (file_name path) [
  | none ↦ none
  | some name ↦ suffix_of (split_once b'.' (reverse name))
]

abbrev pub some_part : List Text → Text → Bool
some_part names path = any (contains names) (split_on b'/' path)

unfoldable pub generated_path : Text → Text → Bool
unfolding split_on text_eq contains_text
generated_path path name =
    contains generated_names name
    || some_part (codes "generated" ∷ codes "dist" ∷ codes "vendor" ∷ []) path
    || contains_text name (codes ".generated.")
    || ends_with (codes "_generated.rs") name
    || ends_with (codes ".g.dart") name

abbrev pub test_suffixes : List Text
test_suffixes =
    codes ".test.js"
    ∷ codes ".test.jsx"
    ∷ codes ".test.ts"
    ∷ codes ".test.tsx"
    ∷ codes ".spec.js"
    ∷ codes ".spec.jsx"
    ∷ codes ".spec.ts"
    ∷ codes ".spec.tsx"
    ∷ []

abbrev pub test_folders : List Text
test_folders = codes "test" ∷ codes "tests" ∷ codes "__tests__" ∷ codes "spec" ∷ codes "specs" ∷ []

unfoldable pub test_path : Text → Text → Bool
unfolding split_on text_eq strip_prefix
test_path path name =
    some_part test_folders path
    || (starts_with (codes "test_") name && ends_with (codes ".py") name)
    || ends_with (codes "_test.go") name
    || any (λ suffix. ends_with suffix name) test_suffixes

-- `patch.get(..patch.len().min(2048)).unwrap_or(patch)`.
abbrev pub marker_prefix : Text → Text
marker_prefix patch = elim (split_at patch (min (byte_len patch) 2048)) [
  | none ↦ patch
  | some (before, behind) ↦ before
]

unfoldable pub has_generated_marker : Text → Bool
unfolding split_at byte_len contains_text
has_generated_marker patch =
    let lower = to_ascii_lowercase (marker_prefix patch) in
    any (contains_text lower)
      (codes "@generated" ∷ codes "generated file" ∷ codes "do not edit" ∷ [])

abbrev pub simple_pattern_matches : Globs → Text → Text → Bool
simple_pattern_matches glob path pattern = elim (glob pattern) [
  | success is_match ↦ is_match path
  | failure message ↦ false
]

abbrev name_or : Text → Option Text → Text
name_or path none = path
name_or path (some name) = name

abbrev is_marked : Option Text → Bool
is_marked none = false
is_marked (some patch) = has_generated_marker patch

abbrev is_document : Option Text → Bool
is_document none = false
is_document (some suffix) = contains document_extensions suffix

unfoldable pub classify_path : Globs → Text → Option Text → ClassifierConfig → ReviewFileKind
unfolding file_name extension generated_path test_path has_generated_marker split_on text_eq
classify_path glob path patch config =
    let lower = to_ascii_lowercase (replace_char b'\\' b'/' path) in
    let name = name_or lower (file_name lower) in
    if generated_path lower name
      || any (simple_pattern_matches glob lower) config.additional_generated_patterns
      || is_marked patch
    then generated
    else if test_path lower name
        || any (simple_pattern_matches glob lower) config.additional_test_patterns
    then test
    else if some_part (codes "migrations" ∷ codes "migration" ∷ []) lower
    then migration
    else if some_part (codes "docs" ∷ codes "doc" ∷ []) lower || is_document (extension lower)
    then documentation
    else authored

-- codeowners.rs: a rule is a compiled pattern with its owner.
pub record Rule : Type 0 where
  pub matcher : Text → Bool
  pub owner : Text

pub record CodeOwnersError : Type 0 where
  pub line : ℕ
  pub message : Text

unfoldable pub normalize_pattern : Text → Text
unfolding trim_start_matches text_eq strip_suffix contains_text
normalize_pattern pattern =
    let rooted = trim_start_matches (codes "/") pattern in
    if text_eq rooted (codes "*") then codes "**" else elim (strip_suffix (codes "/") rooted) [
      | some directory ↦ directory ++ codes "/**"
      | none ↦ if contains_text rooted (codes "/") then rooted else codes "**/" ++ rooted
    ]

-- The rule of a line from its fields: the pattern, the owner, and others. A line that has a
-- character has a field.
abbrev pub rule_of : Globs → ℕ → List Text → Result (List Rule) CodeOwnersError
rule_of glob line [] = success []
rule_of glob line (pattern ∷ []) =
    failure (record { line = line; message = codes "rule must name at least one owner" })
rule_of glob line (pattern ∷ owner ∷ rest) = elim (glob (normalize_pattern pattern)) [
  | failure message ↦ failure (record { line = line; message = message })
  | success matcher ↦ success (record { matcher = matcher; owner = owner } ∷ [])
]

abbrev pub is_comment : Text → Bool
is_comment [] = true
is_comment (c ∷ s) = c == b'#'

unfoldable pub parse_rules : Globs → ℕ → List Text → Result (List Rule) CodeOwnersError
unfolding normalize_pattern trim split_whitespace
parse_rules glob line [] = success []
parse_rules glob line (raw_line ∷ rest) = do
  rules ←
      if is_comment (trim raw_line)
      then success []
      else rule_of glob line (split_whitespace (trim raw_line))
  later ← parse_rules glob (suc line) rest
  success (rules ++ later)

unfoldable pub parse_codeowners : Globs → Text → Result (List Rule) CodeOwnersError
unfolding parse_rules lines
parse_codeowners glob source = parse_rules glob 1 (lines source)

unfoldable pub owner_for : List Rule → Text → Option Text
owner_for rules path =
    elim (find_first (λ (rule : Rule). rule.matcher (replace_char b'\\' b'/' path))
      (reverse rules)) [ none ↦ none | some rule ↦ some rule.owner ]
