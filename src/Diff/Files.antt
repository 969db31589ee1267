-- ===== src/Diff/Files.antt =====
-- crates/ramo-core/src/diff/parser.rs: the files of a unified diff, with `stable_file_id` of
-- crates/ramo-core/src/changeset.rs. `none` is a panic of a path or of a hunk header.
pub mod Split
pub mod Facts
pub mod Total
mod Tests
use Prim.Native.Nat.{zero}
use mathlib.Core.Bool.{false}
use mathlib.Core.Option.{none}
use mathlib.Core.List.{foldl, flat_map}
use ramo.Diff.{
  FileStats, FileChangeKind, DiffLine, Hunk, DiffFile, addition, added, deleted, deletion, copied,
  absent, context, renamed, modified,
}
use ramo.Diff.Hunks.{parse_hunk}
use ramo.Diff.Paths.{parse_patch_path, parse_diff_git_line, unquote_git_path}
use ramo.Prelude.Str.{join, strip_prefix, text_eq, lines, starts_with}
use ramo.Prelude.{
  ℕ, Bool, List, [], length, Option, ◌∷◌, if◌then◌else◌, ◌++◌, some, suc, leb, ◌==◌, true, ◌||◌,
  ◌+◌, none, ◌>>=◌, ◌&&◌, ◌-◌, false, zero,
}
use ramo.Prelude.Text.{Text, codes}

-- `strip_ansi`. The characters of an escape sequence are skipped up to its final one.
skip_sequence : Text → Text
skip_sequence [] = []
skip_sequence (c ∷ s) = let rest = skip_sequence s in if leb 0x40 c && leb c 0x7E then s else rest

-- Each round takes a character at least, so the length is fuel enough.
strip_from : ℕ → Text → Text
unfolding skip_sequence
strip_from zero s = []
strip_from (suc fuel) [] = []
strip_from (suc fuel) (c ∷ []) = c ∷ []
strip_from (suc fuel) (c ∷ d ∷ s) = elim (c == 0x1B && d == b'[') [
  | true ↦ strip_from fuel (skip_sequence s)
  | false ↦ c ∷ strip_from fuel (d ∷ s)
]

unfoldable pub strip_ansi : Text → Text
unfolding strip_from
strip_ansi input = strip_from (length input) input

unfoldable pub stable_file_id : Text → Option Text → Text
stable_file_id path (some previous) = codes "file:" ++ previous ++ codes "->" ++ path
stable_file_id path none = codes "file:" ++ path

unfoldable pub resolve_change_kind : Bool → Bool → Bool → Bool → FileChangeKind
resolve_change_kind is_new is_deleted is_renamed is_copied =
    if is_new
    then added
    else if is_deleted
    then deleted
    else if is_copied
    then copied
    else if is_renamed
    then renamed
    else modified

unfoldable pub format_patch : List Text → Text
unfolding join
format_patch patch_lines = join (10 ∷ []) patch_lines ++ 10 ∷ []

-- What the lines above the first hunk tell.
pub record Extended : Type 0 where
  pub is_new : Bool
  pub is_deleted : Bool
  pub is_renamed : Bool
  pub is_copied : Bool
  pub is_binary : Bool
  pub old_path : Text
  pub new_path : Text

abbrev pub initial : Text → Text → Extended
initial old_path new_path = record {
  is_new = false;
  is_deleted = false;
  is_renamed = false;
  is_copied = false;
  is_binary = false;
  old_path = old_path;
  new_path = new_path;
}

abbrev pub is_git_header : Text → Bool
is_git_header line = starts_with (codes "diff --git ") line

-- One line of the loop over the extended header.
unfoldable pub read_extended : Extended → Text → Option Extended
unfolding strip_prefix unquote_git_path
read_extended m line =
    if starts_with (codes "new file") line
    then some (record m { is_new = true })
    else if starts_with (codes "deleted file") line
    then some (record m { is_deleted = true })
    else if starts_with (codes "Binary files") line || starts_with (codes "GIT binary patch") line
    then some (record m { is_binary = true })
    else elim (strip_prefix (codes "rename from ") line) [
      | some path ↦ (do
        old ← unquote_git_path path
        some (record m { is_renamed = true; old_path = old }))
      | none ↦ elim (strip_prefix (codes "rename to ") line) [
        | some path ↦ (do
          new ← unquote_git_path path
          some (record m { is_renamed = true; new_path = new }))
        | none ↦ elim (strip_prefix (codes "copy from ") line) [
          | some path ↦ (do
            old ← unquote_git_path path
            some (record m { is_copied = true; old_path = old }))
          | none ↦ elim (strip_prefix (codes "copy to ") line) [
            | some path ↦ (do
              new ← unquote_git_path path
              some (record m { is_copied = true; new_path = new }))
            | none ↦ some m
          ]
        ]
      ]
    ]

ends_extended : Text → Bool
unfolding strip_prefix
ends_extended line =
    starts_with (codes "---") line || starts_with (codes "@@") line || is_git_header line

unfoldable pub extended_header : Extended → List Text → Option (Extended × List Text)
unfolding read_extended ends_extended
extended_header m [] = some (m, [])
extended_header m (line ∷ rest) = elim (ends_extended line) [
  | true ↦ some (m, line ∷ rest)
  | false ↦ (do m' ← read_extended m line; extended_header m' rest)
]

-- A `---` or `+++` line: the path that it names, if it names one, and the lines behind it.
unfoldable pub side_path : Text → Text → Text → List Text → Option (Text × List Text)
unfolding parse_patch_path strip_prefix text_eq
side_path marker prefix path [] = some (path, [])
side_path marker prefix path (line ∷ rest) = elim (strip_prefix marker line) [
  | none ↦ some (path, line ∷ rest)
  | some after ↦ (do
    named ← parse_patch_path after prefix
    some (if text_eq named [] || text_eq named (codes "/dev/null") then path else named, rest))
]

-- The loop over the hunks. `skip` counts the lines that the last hunk consumed and that are still
-- to be passed.
unfoldable pub hunks_from : ℕ → List Text → Option (List Hunk)
unfolding parse_hunk strip_prefix
hunks_from skip [] = some []
hunks_from (suc skip) (line ∷ rest) = hunks_from skip rest
hunks_from zero (line ∷ rest) = elim (is_git_header line) [
  | true ↦ some []
  | false ↦ elim (starts_with (codes "@@ ") line) [
    | true ↦ (do
      (hunk, consumed) ← parse_hunk line rest
      hunks ← hunks_from (consumed - 1) rest
      some (hunk ∷ hunks))
    | false ↦ hunks_from zero rest
  ]
]

unfoldable pub count_line : FileStats → DiffLine → FileStats
count_line stats line = elim line.kind [
  | addition ↦ record stats { additions = stats.additions + 1 }
  | deletion ↦ record stats { deletions = stats.deletions + 1 }
  | context ↦ stats
]

abbrev pub default_stats : FileStats
default_stats = record { additions = 0; deletions = 0 }

unfoldable pub hunk_stats : List Hunk → FileStats
unfolding count_line flat_map
hunk_stats hunks = foldl count_line default_stats (flat_map (λ (h : Hunk). h.lines) hunks)

-- The lines up to the next file.
unfoldable pub own_lines : List Text → List Text
unfolding strip_prefix
own_lines [] = []
own_lines (line ∷ rest) = let own = own_lines rest in if is_git_header line then [] else line ∷ own

pub previous_path_of : Text → Text → Option Text
unfolding text_eq
previous_path_of old new = if text_eq old new then none else some old

unfoldable pub file_of : Extended → List Text → List Hunk → FileStats → DiffFile
unfolding previous_path_of stable_file_id format_patch resolve_change_kind
file_of m patch_lines hunks stats =
    let previous = previous_path_of m.old_path m.new_path in
    record {
      id = stable_file_id m.new_path previous;
      path = m.new_path;
      previous_path = previous;
      summary = none;
      agent = none;
      patch = format_patch patch_lines;
      hunks = hunks;
      change_kind = resolve_change_kind m.is_new m.is_deleted m.is_renamed m.is_copied;
      is_binary = m.is_binary;
      is_untracked = false;
      is_too_large = false;
      stats_truncated = false;
      language = none;
      stats = stats;
      old_source = absent;
      new_source = absent;
    }

-- The part of `parse_file` behind the loop over the extended header.
unfoldable pub parse_body : Text → List Text → Extended → List Text → Option (DiffFile × ℕ)
unfolding side_path hunks_from hunk_stats file_of
parse_body header own m body =
    if m.is_binary then some (file_of m (header ∷ own) [] default_stats, suc (length own)) else do
      (old, body1) ← side_path (codes "--- ") (codes "a/") m.old_path body
      (new, body2) ← side_path (codes "+++ ") (codes "b/") m.new_path body1
      hunks ← hunks_from 0 body2
      some (
        file_of (record m { old_path = old; new_path = new }) (header ∷ own) hunks
            (hunk_stats hunks),
        suc (length own),
      )

-- `parse_file(&lines[i..])`, on the `diff --git` line and the lines behind it. It always gives a
-- file, so the optional file of the source is left out.
unfoldable pub parse_file : Text → List Text → Option (DiffFile × ℕ)
unfolding own_lines parse_diff_git_line extended_header parse_body
parse_file header rest = do
  (old_path, new_path) ← parse_diff_git_line header
  (m, body) ← extended_header (initial old_path new_path) (own_lines rest)
  parse_body header (own_lines rest) m body

-- The loop over the files, with the lines still to be passed as above.
unfoldable pub files_from : ℕ → List Text → Option (List DiffFile)
unfolding parse_file strip_prefix
files_from skip [] = some []
files_from (suc skip) (line ∷ rest) = files_from skip rest
files_from zero (line ∷ rest) = elim (is_git_header line) [
  | true ↦ (do
    (file, consumed) ← parse_file line rest
    files ← files_from (consumed - 1) rest
    some (file ∷ files))
  | false ↦ files_from zero rest
]

unfoldable pub parse_unified_diff : Text → Option (List DiffFile)
unfolding files_from strip_ansi lines
parse_unified_diff input = files_from 0 (lines (strip_ansi input))
