-- ===== src/Diff/Files/Tests.antt =====
-- Runs of the parser of crates/ramo-core/src/diff/parser.rs.
use ramo.Diff.Files.Total.{parse_unified_diff-Succeeds, IsPlain}
use ramo.Diff.Paths.Unquoted.{Succeeds}
use ramo.Prelude.Str.{lines, trim_start_matches, strip_prefix}
use ramo.Diff.Files.Split.{
  header_count, all_patches, text_of, from_header, parse_unified_diff-split,
}
use ramo.Diff.Files.Facts.{IsConsistent, parse_unified_diff-IsConsistent}
use ramo.Diff.Hunks.{diff_line}
use ramo.Prelude.{List, length, Each, ◌≡◌, ◌++◌, true, ◌∷◌, some, none, [], refl}
use ramo.Diff.Files.{Extended, parse_unified_diff, initial, file_of, default_stats, strip_ansi}
use ramo.Diff.{Hunk, DiffFile, context, deletion, addition}
use ramo.Prelude.Text.{Text, codes}

abbrev sample : Text
sample =
    codes "note\ndiff --git a/old.rs b/new.rs\nrename from old.rs\nrename to new.rs\n"
    ++ codes "--- a/old.rs\n+++ b/new.rs\n@@ -10,2 +10,2 @@ fn\n keep\n-gone\n+added\n"
    ++ codes "diff --git a/img.png b/img.png\nBinary files differ\n"

abbrev sample_hunk : Hunk
sample_hunk = record {
  old_start = 10;
  new_start = 10;
  header = codes "@@ -10,2 +10,2 @@ fn";
  lines =
      diff_line context (codes "keep") 10 10
      ∷ diff_line deletion (codes "gone") 11 11
      ∷ diff_line addition (codes "added") 12 11
      ∷ [];
}

abbrev moved_meta : Extended
moved_meta = record (initial (codes "old.rs") (codes "new.rs")) { is_renamed = true }

abbrev binary_meta : Extended
binary_meta = record (initial (codes "img.png") (codes "img.png")) { is_binary = true }

abbrev moved_lines : List Text
moved_lines =
    codes "diff --git a/old.rs b/new.rs"
    ∷ codes "rename from old.rs"
    ∷ codes "rename to new.rs"
    ∷ codes "--- a/old.rs"
    ∷ codes "+++ b/new.rs"
    ∷ codes "@@ -10,2 +10,2 @@ fn"
    ∷ codes " keep"
    ∷ codes "-gone"
    ∷ codes "+added"
    ∷ []

abbrev sample_files : List DiffFile
sample_files =
    file_of moved_meta moved_lines (sample_hunk ∷ []) (record { additions = 1; deletions = 1 })
    ∷ file_of binary_meta
        (codes "diff --git a/img.png b/img.png" ∷ codes "Binary files differ" ∷ []) [] default_stats
    ∷ []

sample_test : parse_unified_diff sample ≡ some sample_files
unfolding parse_unified_diff diff_line
sample_test = refl

-- A header with no space behind its marks stops the program.
panic_test : parse_unified_diff (codes "diff --git a/x b/x\n@@ x\n") ≡ none
unfolding parse_unified_diff
panic_test = refl

parse_unified_diff-split_example :
    (length sample_files ≡ header_count (lines (strip_ansi sample)))
    × (all_patches sample_files ≡ text_of (from_header (lines (strip_ansi sample))))
parse_unified_diff-split_example = parse_unified_diff-split sample sample_files sample_test

parse_unified_diff-IsConsistent_example : Each IsConsistent sample_files
parse_unified_diff-IsConsistent_example =
    parse_unified_diff-IsConsistent sample sample_files sample_test

sample-IsPlain : Each IsPlain (lines (strip_ansi sample))
unfolding lines strip_ansi trim_start_matches strip_prefix
sample-IsPlain = (
  (refl, λ h. cc),
  (
    (refl, λ h. cc),
    (
      (refl, λ h. cc),
      (
        (refl, λ h. cc),
        (
          (refl, λ h. cc),
          (
            (refl, λ h. cc),
            (
              (refl, λ h. cc),
              (
                (refl, λ h. cc),
                ((refl, λ h. cc), ((refl, λ h. cc), ((refl, λ h. cc), ((refl, λ h. cc), tt)))),
              ),
            ),
          ),
        ),
      ),
    ),
  ),
)

parse_unified_diff-Succeeds_example : Succeeds (parse_unified_diff sample)
parse_unified_diff-Succeeds_example = parse_unified_diff-Succeeds sample sample-IsPlain
