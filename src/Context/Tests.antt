-- ===== src/Context/Tests.antt =====
-- Runs of src/review/context.rs.
use ramo.Context.Lines.{Shows, expand_gap_lines-Shows}
use ramo.Prelude.Text.{codes}
use ramo.Context.Tiling.{InGap, WellPlaced, InHunk, derive_collapsed_gaps-cover}
use ramo.Context.Gaps.{StartsFit, Ascending, gaps_before-Ascending}
use ramo.Context.{
  derive_collapsed_gaps, select_gap_for_toggle, old_lines, CollapsedGap, expand_gap_lines,
  new_lines, gaps_before, new_side, gap_at, normalized_source_lines, before, trailing, ok,
  line_count, err, short_source, ContextLine,
}
use ramo.Prelude.{List, length, some, arith, none, [], ◌≡◌, ◌⊎◌, ◌<◌, ◌∷◌, ◌+◌, false, refl, drop}
use ramo.Diff.{DiffLine, DiffFile, context, addition, Hunk, modified, absent}

abbrev context_line : DiffLine
context_line = record {
  kind = context;
  content = codes "x";
  old_lineno = none;
  new_lineno = none;
  moved = none;
}

abbrev added_line : DiffLine
added_line = record context_line { kind = addition }

abbrev hunks : List Hunk
hunks =
    record { old_start = 3; new_start = 3; header = []; lines = context_line ∷ added_line ∷ [] }
    ∷ record { old_start = 8; new_start = 9; header = []; lines = context_line ∷ [] }
    ∷ []

abbrev source_file : DiffFile
source_file = record {
  id = codes "a";
  path = codes "a";
  previous_path = none;
  summary = none;
  agent = none;
  patch = [];
  hunks = hunks;
  change_kind = modified;
  is_binary = false;
  is_untracked = false;
  is_too_large = false;
  stats_truncated = false;
  language = none;
  stats = record { additions = 1; deletions = 0 };
  old_source = absent;
  new_source = absent;
}

gaps_test :
    derive_collapsed_gaps source_file (some (new_side, 12))
    ≡ gap_at (codes "a") before 0 1 1 2
      ∷ gap_at (codes "a") before 1 4 5 4
      ∷ gap_at (codes "a") trailing 1 9 10 3
      ∷ []
unfolding derive_collapsed_gaps
gaps_test = refl

toggle_test :
    select_gap_for_toggle (derive_collapsed_gaps source_file (some (new_side, 12))) 2
    ≡ some (record { file_id = codes "a"; position = trailing; hunk_index = 1 })
unfolding select_gap_for_toggle derive_collapsed_gaps
toggle_test = refl

hunks-StartsFit : StartsFit hunks
hunks-StartsFit = (omega arith, (omega arith, tt))

hunks-WellPlaced : WellPlaced 1 1 hunks
unfolding old_lines new_lines
hunks-WellPlaced = ground arith

gaps_before-Ascending_example : Ascending 1 1 (gaps_before (codes "a") 0 1 1 hunks).0
gaps_before-Ascending_example = gaps_before-Ascending (codes "a") 0 1 1 hunks hunks-StartsFit

derive_collapsed_gaps-cover_example :
    InGap new_side 7 (derive_collapsed_gaps source_file (some (new_side, 12)))
    ⊎ InHunk new_side 7 hunks
derive_collapsed_gaps-cover_example =
    derive_collapsed_gaps-cover new_side source_file 12 7 (λ e. cc) hunks-WellPlaced (omega arith)
      (omega arith) (omega arith)

abbrev short_gap : CollapsedGap
short_gap = gap_at (codes "a") before 0 2 2 2

expand_test :
    expand_gap_lines short_gap (codes "a\r\nb\tc\nd") new_side
    ≡ ok (
        record { old_line = 2; new_line = 2; text = codes "b  c" }
        ∷ record { old_line = 3; new_line = 3; text = codes "d" }
        ∷ [])
unfolding expand_gap_lines
expand_test = refl

expand_gap_lines-Shows_example :
    ((length (normalized_source_lines (codes "a\nb\nc")) < 1 + line_count short_gap new_side)
      × (expand_gap_lines short_gap (codes "a\nb\nc") new_side ≡ err short_source))
    ⊎ ((shown : List ContextLine) × (expand_gap_lines short_gap (codes "a\nb\nc") new_side
          ≡ ok shown)
        × (length shown ≡ line_count short_gap new_side)
        × Shows short_gap 0 (drop 1 (normalized_source_lines (codes "a\nb\nc"))) shown)
expand_gap_lines-Shows_example =
    expand_gap_lines-Shows short_gap (codes "a\nb\nc") new_side (omega arith) (omega arith)
