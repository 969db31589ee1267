-- ===== src/Rows/Plan.antt =====
-- src/review/row.rs: the plan of the rows that a file is shown with, from its hunks and the gaps
-- between them (`build_row_plan_with_context`), and what a row says of itself.
pub mod Hunks
use mathlib.Core.Option.{none}
use ramo.Rows.Emphasis.{Change}
use ramo.Rows.Build.{row_key, build_split_rows, sanitize_line, build_stack_rows, plain_text}
use mathlib.Core.List.{flat_map}
use ramo.Prelude.Text.{Text, codes}
use ramo.Prelude.Str.{text_eq}
use ramo.Prelude.Decimal.{decimal}
use ramo.Diff.{DiffFile, DiffLine, Hunk}
use ramo.Rows.{
  ReviewRow, CellKind, ReviewRowKey, compacted_row, PlaceholderKind, placeholder_row, ReviewCell,
  collapsed_row, header_row, split_row, stack_row, expanded_context, collapsed, hunk_header,
  empty_cell, addition_cell, deletion_cell, compacted_file, binary_file, placeholder, context_cell,
  note_row, too_large_file, no_text_changes,
}
use ramo.Prelude.{
  List, Option, ℕ, Bool, true, false, ◌&&◌, ◌++◌, [], some, ◌∷◌, not, if◌then◌else◌, none, max,
  ◌==◌, any, map, length, ◌>>=◌, suc, find_first,
}
use ramo.Context.{
  CollapsedGap, GapKey, GapPosition, SourceSide, SourceFailure, FileContextState, Loaded, Expanded,
  before, trailing, new_side, loaded, failed, ok, err, line_count, expand_gap_lines,
  derive_collapsed_gaps, ContextLine, gaps, too_large, io, command, unavailable, missing, non_utf8,
  short_source,
}

pub data EffectiveLayout : Type 0 where
  split stack : EffectiveLayout

pub record RowPlan : Type 0 where
  pub rows : List ReviewRow
  pub hunk_anchor_keys : List ReviewRowKey
  pub line_number_digits : ℕ

-- `ReviewRow::key`.
abbrev pub key : ReviewRow → ReviewRowKey
key (compacted_row k) = k
key (header_row k text) = k
key (split_row k left right) = k
key (stack_row k cell) = k
key (placeholder_row k kind text) = k
key (collapsed_row k gap text) = k
key (note_row k card) = k

abbrev pub is_selectable : ReviewRow → Bool
is_selectable (compacted_row k) = true
is_selectable (split_row k left right) = true
is_selectable (stack_row k cell) = true
is_selectable _ = false

abbrev pub is_empty_kind : CellKind → Bool
is_empty_kind empty_cell = true
is_empty_kind _ = false

abbrev pub cell_sides : CellKind → Bool × Bool
cell_sides addition_cell = (false, true)
cell_sides deletion_cell = (true, false)
cell_sides context_cell = (true, true)
cell_sides empty_cell = (false, false)

abbrev pub available_sides : ReviewRow → Bool × Bool
available_sides (split_row k left right) =
    (not (is_empty_kind left.kind), not (is_empty_kind right.kind))
available_sides (stack_row k cell) = cell_sides cell.kind
available_sides _ = (false, false)

abbrev pub is_change_pair : CellKind → CellKind → Bool
is_change_pair deletion_cell addition_cell = true
is_change_pair _ _ = false

abbrev pub cursor_lines : ReviewRow → Bool → Option ℕ × Option ℕ
cursor_lines (split_row k left right) focus_right =
    if is_change_pair left.kind right.kind
    then if focus_right then (none, right.new_line) else (left.old_line, none)
    else (k.old_line, k.new_line)
cursor_lines row focus_right = let k = key row in (k.old_line, k.new_line)

abbrev pub compacted_file_plan : DiffFile → RowPlan
compacted_file_plan file = record {
  rows = compacted_row (row_key file none compacted_file none none) ∷ [];
  hunk_anchor_keys = [];
  line_number_digits = 1;
}

abbrev pub placeholder_of : DiffFile → PlaceholderKind × Text
placeholder_of file =
    if file.is_binary
    then (binary_file, codes "Binary file")
    else if file.is_too_large
    then (too_large_file, codes "File is too large to display")
    else (no_text_changes, codes "No textual changes")

unfoldable pub placeholder_plan : DiffFile → RowPlan
placeholder_plan file =
    let (kind, text) = placeholder_of file in
    record {
      rows = placeholder_row (row_key file none placeholder none none) kind text ∷ [];
      hunk_anchor_keys = [];
      line_number_digits = 1;
    }

abbrev max_option : Option ℕ → ℕ → ℕ
max_option none n = n
max_option (some line) n = max line n

unfoldable pub max_line_from : ℕ → List DiffLine → ℕ
max_line_from found [] = found
max_line_from found (line ∷ rest) =
    max_line_from (max_option line.new_lineno (max_option line.old_lineno found)) rest

abbrev has_number : DiffLine → Bool
has_number line = elim line.old_lineno [
  | some n ↦ true
  | none ↦ elim line.new_lineno [ some n ↦ true | none ↦ false ]
]

unfoldable pub max_line_number_digits : DiffFile → ℕ
unfolding decimal max_line_from flat_map
max_line_number_digits file =
    let lines = flat_map (λ (hunk : Hunk). hunk.lines) file.hunks in
    length (decimal (if any has_number lines then max_line_from 0 lines else 1))

abbrev pub unchanged_lines : ℕ → Text
unchanged_lines count = codes " unchanged " ++ (if count == 1 then codes "line" else codes "lines")

unfoldable pub context_failure_label : ℕ → SourceFailure → Text
unfolding decimal
context_failure_label count unavailable =
    codes "Context unavailable for " ++ decimal count ++ unchanged_lines count
context_failure_label count missing =
    codes "Source missing for " ++ decimal count ++ unchanged_lines count
context_failure_label count (too_large bytes) =
    codes "Source too large to expand " ++ decimal count ++ unchanged_lines count
context_failure_label count non_utf8 =
    codes "Non-UTF-8 source cannot expand " ++ decimal count ++ unchanged_lines count
context_failure_label count (io message) =
    codes "Could not read " ++ decimal count ++ unchanged_lines count
context_failure_label count (command message) =
    codes "Source command failed for " ++ decimal count ++ unchanged_lines count
context_failure_label count short_source =
    codes "Source too short for " ++ decimal count ++ unchanged_lines count

abbrev pub same_position : GapPosition → GapPosition → Bool
same_position before before = true
same_position trailing trailing = true
same_position _ _ = false

unfoldable pub same_gap_key : GapKey → GapKey → Bool
unfolding text_eq
same_gap_key a b =
    text_eq a.file_id b.file_id
    && same_position a.position b.position
    && a.hunk_index == b.hunk_index

abbrev is_expanded : Option FileContextState → GapKey → Bool
is_expanded none key = false
is_expanded (some context) key = any (λ k. same_gap_key k key) context.expanded

abbrev source_of : Option FileContextState → Option Loaded
source_of none = none
source_of (some context) = context.source

abbrev gap_side : Option Loaded → SourceSide
gap_side (some (loaded source)) = source.side
gap_side _ = new_side

abbrev hidden_lines : ℕ → Expanded → Text × Option (List ContextLine)
hidden_lines count (ok lines) =
    (codes "Hide " ++ decimal count ++ unchanged_lines count, some lines)
hidden_lines count (err failure) = (context_failure_label count failure, none)

-- The label of a gap and, where it is unfolded, its lines.
unfoldable pub gap_label :
    CollapsedGap → ℕ → Bool → Option Loaded → Text × Option (List ContextLine)
unfolding decimal context_failure_label expand_gap_lines
gap_label gap count false source = (decimal count ++ unchanged_lines count, none)
gap_label gap count true (some (loaded source)) =
    hidden_lines count (expand_gap_lines gap source.text source.side)
gap_label gap count true (some (failed failure)) = (context_failure_label count failure, none)
gap_label gap count true none =
    (codes "Loading " ++ decimal count ++ unchanged_lines count ++ codes "…", none)

abbrev pub layout_row : EffectiveLayout → ReviewRowKey → ReviewCell → ReviewRow
layout_row split k cell = split_row k cell cell
layout_row stack k cell = stack_row k cell

abbrev pub context_line_row : DiffFile → EffectiveLayout → ℕ → ContextLine → ReviewRow
context_line_row file layout hunk_index line =
    layout_row layout
      (row_key file (some hunk_index) expanded_context (some line.old_line) (some line.new_line))
      (record {
        kind = context_cell;
        sign = b' ';
        old_line = some line.old_line;
        new_line = some line.new_line;
        moved = none;
        spans = plain_text line.text;
      })

abbrev pub expanded_rows :
    DiffFile → EffectiveLayout → ℕ → Option (List ContextLine) → List ReviewRow
expanded_rows file layout hunk_index none = []
expanded_rows file layout hunk_index (some lines) =
    map (context_line_row file layout hunk_index) lines

-- The rows that `append_gap_rows` pushes.
unfoldable pub append_gap_rows :
    DiffFile → EffectiveLayout → Option FileContextState → CollapsedGap → List ReviewRow
unfolding same_gap_key line_count gap_label
append_gap_rows file layout context gap =
    let source = source_of context in
    let count = line_count gap (gap_side source) in
    let (label, lines) = gap_label gap count (is_expanded context gap.key) source in
    collapsed_row
      (row_key file (some gap.key.hunk_index) collapsed (some gap.old_range.start)
        (some gap.new_range.start))
      gap label
    ∷ expanded_rows file layout gap.key.hunk_index lines

abbrev pub gap_rows :
    DiffFile → EffectiveLayout → Option FileContextState → Option CollapsedGap → List ReviewRow
gap_rows file layout context none = []
gap_rows file layout context (some gap) = append_gap_rows file layout context gap

abbrev pub is_gap_before : ℕ → CollapsedGap → Bool
is_gap_before hunk_index gap =
    same_position gap.key.position before && gap.key.hunk_index == hunk_index

abbrev pub is_trailing_gap : CollapsedGap → Bool
is_trailing_gap gap = same_position gap.key.position trailing

abbrev pub header_rows : DiffFile → Bool → ℕ → Text → List ReviewRow
header_rows file true hunk_index header =
    header_row (row_key file (some hunk_index) hunk_header none none) (sanitize_line header) ∷ []
header_rows file false hunk_index header = []

abbrev pub anchor_of : Option ReviewRow → List ReviewRowKey
anchor_of none = []
anchor_of (some row) = key row ∷ []

abbrev pub collapsed_gaps : Option FileContextState → DiffFile → List CollapsedGap
collapsed_gaps none file = derive_collapsed_gaps file none
collapsed_gaps (some context) file = gaps context file

abbrev pub has_hunks : List Hunk → Bool
has_hunks [] = false
has_hunks (hunk ∷ rest) = true

module _ (diff : Text → Text → List Change) where
  abbrev pub line_rows : DiffFile → EffectiveLayout → ℕ → List DiffLine → Option (List ReviewRow)
  line_rows file split hunk_index lines = some (build_split_rows diff file hunk_index lines)
  line_rows file stack hunk_index lines = build_stack_rows diff file hunk_index lines

  -- The loop over the hunks: their rows and their anchors.
  unfoldable pub hunk_rows :
      DiffFile
      → EffectiveLayout
      → Bool
      → Option FileContextState
      → List CollapsedGap
      → ℕ
      → List Hunk
      → Option (List ReviewRow × List ReviewRowKey)
  unfolding append_gap_rows sanitize_line build_split_rows build_stack_rows
  hunk_rows file layout show_hunk_headers context found hunk_index [] = some ([], [])
  hunk_rows file layout show_hunk_headers context found hunk_index (hunk ∷ rest) = do
    lines ← line_rows file layout hunk_index hunk.lines
    (later, anchors) ← hunk_rows file layout show_hunk_headers context found (suc hunk_index) rest
    let shown = header_rows file show_hunk_headers hunk_index hunk.header ++ lines
    some (
      gap_rows file layout context (find_first (is_gap_before hunk_index) found) ++ shown ++ later,
      anchor_of (find_first is_selectable shown) ++ anchors,
    )

  unfoldable pub build_row_plan_with_context :
      DiffFile → EffectiveLayout → Bool → Option FileContextState → Option RowPlan
  unfolding placeholder_plan hunk_rows derive_collapsed_gaps max_line_number_digits gaps
  build_row_plan_with_context file layout show_hunk_headers context =
      if not (has_hunks file.hunks) then some (placeholder_plan file) else (do
        let found = collapsed_gaps context file
        (rows, anchors) ← hunk_rows file layout show_hunk_headers context found 0 file.hunks
        some (record {
          rows = rows ++ gap_rows file layout context (find_first is_trailing_gap found);
          hunk_anchor_keys = anchors;
          line_number_digits = max_line_number_digits file;
        }))
