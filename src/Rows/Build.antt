-- ===== src/Rows/Build.antt =====
-- The rows of the lines of a hunk, as src/review/row.rs builds them: side by side
-- (`build_split_rows`) and one below the other (`build_stack_rows`). `diff` is the word diff of the
-- crate `similar`.
pub mod Segments
pub mod Stack
pub mod Split
use mathlib.Core.List.{flat_map, []}
use ramo.Rows.Emphasis.{spans_text, emphasize_pair, Change, is_empty, plain_span, emphasized_span}
use ramo.Prelude.{
  false, List, ℕ, Option, if◌then◌else◌, none, ◌∷◌, keep, some, ◌>>=◌, [], drop, get_elem?, ◌++◌,
  ◌+◌, suc,
}
use ramo.Prelude.Text.{Text}
use ramo.Diff.{DiffFile, DiffLine, LineType, context, addition, deletion, same_type}
use ramo.Rows.{
  ReviewRow, ReviewRowKey, ReviewRowKind, ReviewCell, CellKind, ChangedSpan, context_cell,
  empty_cell, addition_cell, split_row, stack_row, deletion_cell, diff_line,
}
use ramo.Sanitize.{sanitize_terminal_text}
use ramo.Context.{expand_tabs}

unfoldable pub sanitize_line : Text → Text
unfolding sanitize_terminal_text expand_tabs
sanitize_line text = expand_tabs (sanitize_terminal_text text false)

abbrev pub plain_text : Text → List ChangedSpan
plain_text text = if is_empty text then [] else plain_span text ∷ []

abbrev pub emphasized_text : Text → List ChangedSpan
emphasized_text text = if is_empty text then [] else emphasized_span text ∷ []

unfoldable pub cell_text : ReviewCell → Text
cell_text cell = spans_text cell.spans

abbrev pub cell_kind : LineType → CellKind
cell_kind context = context_cell
cell_kind addition = addition_cell
cell_kind deletion = deletion_cell

abbrev pub sign_of : CellKind → ℕ
sign_of context_cell = b' '
sign_of addition_cell = b'+'
sign_of deletion_cell = b'-'
sign_of empty_cell = b' '

abbrev pub spans_or : Option (List ChangedSpan) → List ChangedSpan → List ChangedSpan
spans_or none spans = spans
spans_or (some given) spans = given

unfoldable pub cell_from_line : DiffLine → Option (List ChangedSpan) → ReviewCell
unfolding sanitize_line
cell_from_line line spans = record {
  kind = cell_kind line.kind;
  sign = sign_of (cell_kind line.kind);
  old_line = line.old_lineno;
  new_line = line.new_lineno;
  moved = line.moved;
  spans = spans_or spans (plain_text (sanitize_line line.content));
}

abbrev pub blank_cell : ReviewCell
blank_cell = record {
  kind = empty_cell;
  sign = b' ';
  old_line = none;
  new_line = none;
  moved = none;
  spans = [];
}

abbrev pub row_key : DiffFile → Option ℕ → ReviewRowKind → Option ℕ → Option ℕ → ReviewRowKey
row_key file hunk_index kind old_line new_line = record {
  file_id = file.id;
  hunk_index = hunk_index;
  kind = kind;
  old_line = old_line;
  new_line = new_line;
  note_id = none;
}

-- What the two loops over `index` read: a context line, or a block of changed lines that ends
-- before the next context line.
pub data Segment : Type 0 where
  context_line : DiffLine → Segment
  block : List DiffLine → Segment

abbrev pub into_block : DiffLine → List Segment → List Segment
into_block line [] = block (line ∷ []) ∷ []
into_block line (context_line other ∷ rest) = block (line ∷ []) ∷ context_line other ∷ rest
into_block line (block lines ∷ rest) = block (line ∷ lines) ∷ rest

unfoldable pub segments : List DiffLine → List Segment
unfolding same_type
segments [] = []
segments (line ∷ rest) =
    let later = segments rest in
    if same_type line.kind context then context_line line ∷ later else into_block line later

abbrev pub of_kind : LineType → List DiffLine → List DiffLine
of_kind kind lines = keep (λ line. same_type line.kind kind) lines

-- The spans of the pairs, which both layouts show.
unfoldable pub pair_spans :
    (Text → Text → List Change)
    → List DiffLine
    → List DiffLine
    → List (List ChangedSpan × List ChangedSpan)
unfolding emphasize_pair sanitize_line
pair_spans diff [] [] = []
pair_spans diff (old ∷ olds) [] =
    (emphasized_text (sanitize_line old.content), []) ∷ pair_spans diff olds []
pair_spans diff [] (new ∷ news) =
    ([], emphasized_text (sanitize_line new.content)) ∷ pair_spans diff [] news
pair_spans diff (old ∷ olds) (new ∷ news) =
    emphasize_pair diff (sanitize_line old.content) (sanitize_line new.content)
    ∷ pair_spans diff olds news

abbrev pub pair_row : DiffFile → ℕ → ReviewCell → ReviewCell → ReviewRow
pair_row file hunk_index left right =
    split_row (row_key file (some hunk_index) diff_line left.old_line right.new_line) left right

abbrev pub context_row : DiffFile → ℕ → ReviewCell → ReviewRow
context_row file hunk_index cell =
    split_row (row_key file (some hunk_index) diff_line cell.old_line cell.new_line) cell cell

-- The cell of a deletion or an addition that is paired, or an empty one.
abbrev pub side_cell : Option DiffLine → List ChangedSpan → ReviewCell
side_cell none spans = blank_cell
side_cell (some line) spans = cell_from_line line (some spans)

abbrev pub first_of : List DiffLine → Option DiffLine
first_of [] = none
first_of (line ∷ rest) = some line

-- The loop over the pairs.
unfoldable pub pair_rows :
    DiffFile
    → ℕ
    → List (List ChangedSpan × List ChangedSpan)
    → List DiffLine
    → List DiffLine
    → List ReviewRow
unfolding cell_from_line
pair_rows file hunk_index [] deletions additions = []
pair_rows file hunk_index ((old_spans, new_spans) ∷ rest) deletions additions =
    pair_row file hunk_index (side_cell (first_of deletions) old_spans)
      (side_cell (first_of additions) new_spans)
    ∷ pair_rows file hunk_index rest (drop 1 deletions) (drop 1 additions)

abbrev pub split_segment : (Text → Text → List Change) → DiffFile → ℕ → Segment → List ReviewRow
split_segment diff file hunk_index (context_line line) =
    context_row file hunk_index (cell_from_line line none) ∷ []
split_segment diff file hunk_index (block lines) =
    let deletions = of_kind deletion lines in
    let additions = of_kind addition lines in
    pair_rows file hunk_index (pair_spans diff deletions additions) deletions additions

unfoldable pub build_split_rows :
    (Text → Text → List Change) → DiffFile → ℕ → List DiffLine → List ReviewRow
unfolding segments pair_spans pair_rows cell_from_line flat_map
build_split_rows diff file hunk_index lines =
    flat_map (split_segment diff file hunk_index) (segments lines)

abbrev pub push_stack_row : DiffFile → ℕ → DiffLine → Option (List ChangedSpan) → ReviewRow
push_stack_row file hunk_index line spans =
    stack_row (row_key file (some hunk_index) diff_line line.old_lineno line.new_lineno)
      (cell_from_line line spans)

-- The spans of the next line of a block, with the two indices behind it. `none` is a panic: an
-- index out of range, or the `unreachable!` at a context line.
abbrev pub next_spans :
    LineType
    → List (List ChangedSpan × List ChangedSpan)
    → ℕ
    → ℕ
    → Option (List ChangedSpan × ℕ × ℕ)
next_spans deletion emphasized deletion_index addition_index = do
  spans ← get_elem? emphasized deletion_index
  some (spans.0, suc deletion_index, addition_index)
next_spans addition emphasized deletion_index addition_index = do
  spans ← get_elem? emphasized addition_index
  some (spans.1, deletion_index, suc addition_index)
next_spans context emphasized deletion_index addition_index = none

unfoldable pub stack_block :
    DiffFile
    → ℕ
    → List (List ChangedSpan × List ChangedSpan)
    → ℕ
    → ℕ
    → List DiffLine
    → Option (List ReviewRow)
unfolding cell_from_line
stack_block file hunk_index emphasized deletion_index addition_index [] = some []
stack_block file hunk_index emphasized deletion_index addition_index (line ∷ rest) = do
  (spans, next_deletion, next_addition) ←
      next_spans line.kind emphasized deletion_index addition_index
  rows ← stack_block file hunk_index emphasized next_deletion next_addition rest
  some (push_stack_row file hunk_index line (some spans) ∷ rows)

abbrev pub stack_segment :
    (Text → Text → List Change) → DiffFile → ℕ → Segment → Option (List ReviewRow)
stack_segment diff file hunk_index (context_line line) =
    some (push_stack_row file hunk_index line none ∷ [])
stack_segment diff file hunk_index (block lines) =
    stack_block file hunk_index (pair_spans diff (of_kind deletion lines) (of_kind addition lines))
      0 0 lines

unfoldable pub stack_segments :
    (Text → Text → List Change) → DiffFile → ℕ → List Segment → Option (List ReviewRow)
unfolding pair_spans stack_block cell_from_line
stack_segments diff file hunk_index [] = some []
stack_segments diff file hunk_index (segment ∷ rest) = do
  rows ← stack_segment diff file hunk_index segment
  later ← stack_segments diff file hunk_index rest
  some (rows ++ later)

unfoldable pub build_stack_rows :
    (Text → Text → List Change) → DiffFile → ℕ → List DiffLine → Option (List ReviewRow)
unfolding segments stack_segments
build_stack_rows diff file hunk_index lines = stack_segments diff file hunk_index (segments lines)
