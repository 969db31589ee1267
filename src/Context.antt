-- ===== src/Context.antt =====
-- src/review/context.rs: the unchanged lines between hunks, folded into gaps, and their text when
-- a gap is unfolded. Reading the source itself (`SourceReader`) and the cache of
-- the loader are not modelled.
pub mod Gaps
pub mod Tiling
pub mod Lines
mod Tests
use Prim.Native.Nat.{zero}
use mathlib.Core.Option.{none}
use ramo.Prelude.Machine.{sat_add32, wrap32, sat_add}
use ramo.Sanitize.{sanitize_terminal_text}
use ramo.Prelude.Str.{lines, normalize_newlines}
use ramo.Prelude.{
  ℕ, Bool, List, Option, leb, false, length, [], ◌-◌, ◌∷◌, min, ◌++◌, true, find_first,
  if◌then◌else◌, some, suc, ◌+◌, max, ◌==◌, ltb, none, zero, drop,
}
use ramo.Diff.{
  LineRange, same_type, Hunk, DiffFile, LineType, SourceSpec, DiffLine, addition, deletion, deleted,
}
use ramo.Prelude.Text.{Text}

pub data GapPosition : Type 0 where
  before trailing : GapPosition

pub record GapKey : Type 0 where
  pub file_id : Text
  pub position : GapPosition
  pub hunk_index : ℕ

pub data SourceSide : Type 0 where
  old_side new_side : SourceSide

-- `a..=b` of line numbers is a `LineRange`.
pub record CollapsedGap : Type 0 where
  pub key : GapKey
  pub old_range : LineRange
  pub new_range : LineRange

abbrev pub range_of : SourceSide → CollapsedGap → LineRange
range_of old_side gap = gap.old_range
range_of new_side gap = gap.new_range

-- `usize` holds every `u32`, so the sum is cut at `u32::MAX`.
unfoldable pub line_count : CollapsedGap → SourceSide → ℕ
line_count gap side = let range = range_of side gap in sat_add32 (range.end - range.start) 1

abbrev lines_from_cursor : ℕ → ℕ → LineRange
lines_from_cursor cursor count = record { start = cursor; end = sat_add32 cursor (count - 1) }

abbrev pub gap_at : Text → GapPosition → ℕ → ℕ → ℕ → ℕ → CollapsedGap
gap_at file_id position index old_cursor new_cursor count = record {
  key = record { file_id = file_id; position = position; hunk_index = index };
  old_range = lines_from_cursor old_cursor count;
  new_range = lines_from_cursor new_cursor count;
}

-- The lines of a hunk that stand on a side, `as u32`.
unfoldable pub lines_without : LineType → List DiffLine → ℕ
unfolding same_type
lines_without kind [] = 0
lines_without kind (line ∷ rest) =
    let later = lines_without kind rest in if same_type kind line.kind then later else later + 1

unfoldable pub old_lines : Hunk → ℕ
unfolding lines_without
old_lines hunk = wrap32 (lines_without addition hunk.lines)

unfoldable pub new_lines : Hunk → ℕ
unfolding lines_without
new_lines hunk = wrap32 (lines_without deletion hunk.lines)

-- The loop over the hunks: the gaps before them, and the two cursors behind the last.
unfoldable pub gaps_before : Text → ℕ → ℕ → ℕ → List Hunk → List CollapsedGap × ℕ × ℕ
unfolding old_lines new_lines
gaps_before file_id index old_cursor new_cursor [] = ([], old_cursor, new_cursor)
gaps_before file_id index old_cursor new_cursor (hunk ∷ rest) =
    let count = min (hunk.old_start - old_cursor) (hunk.new_start - new_cursor) in
    let (later, old_end, new_end) =
      gaps_before file_id (suc index) (max old_cursor (sat_add32 hunk.old_start (old_lines hunk)))
        (max new_cursor (sat_add32 hunk.new_start (new_lines hunk))) rest in
    if ltb 0 count
    then (gap_at file_id before index old_cursor new_cursor count ∷ later, old_end, new_end)
    else (later, old_end, new_end)

abbrev pub cursor_of : SourceSide → ℕ → ℕ → ℕ
cursor_of old_side old new = old
cursor_of new_side old new = new

-- The gap behind the last hunk, if the length of a source is known and reaches that far.
unfoldable pub trailing_gap : Text → List Hunk → Option (SourceSide × ℕ) → ℕ → ℕ → List CollapsedGap
trailing_gap file_id hunks none old_cursor new_cursor = []
trailing_gap file_id [] (some source) old_cursor new_cursor = []
trailing_gap file_id (hunk ∷ hunks) (some (side, size)) old_cursor new_cursor =
    let cursor = cursor_of side old_cursor new_cursor in
    if leb cursor size
    then gap_at file_id trailing (length hunks) old_cursor new_cursor (sat_add32 (size - cursor) 1)
      ∷ []
    else []

unfoldable pub derive_collapsed_gaps : DiffFile → Option (SourceSide × ℕ) → List CollapsedGap
unfolding gaps_before trailing_gap
derive_collapsed_gaps file source_length =
    let (gaps, old_cursor, new_cursor) = gaps_before file.id 0 1 1 file.hunks in
    gaps ++ trailing_gap file.id file.hunks source_length old_cursor new_cursor

abbrev is_before_from : ℕ → CollapsedGap → Bool
is_before_from selected gap = elim gap.key.position [
  | before ↦ leb selected gap.key.hunk_index
  | trailing ↦ false
]

abbrev is_trailing : CollapsedGap → Bool
is_trailing gap = elim gap.key.position [ before ↦ false | trailing ↦ true ]

unfoldable pub select_gap_for_toggle : List CollapsedGap → ℕ → Option GapKey
select_gap_for_toggle gaps selected = elim (find_first (is_before_from selected) gaps) [
  | some gap ↦ some gap.key
  | none ↦ elim (find_first is_trailing gaps) [ some gap ↦ some gap.key | none ↦ none ]
]

unfoldable pub source_for_context : DiffFile → SourceSide × SourceSpec
source_for_context file = elim file.change_kind [
  | deleted ↦ (old_side, file.old_source)
  | _ ↦ (new_side, file.new_source)
]

pub record ContextLine : Type 0 where
  pub old_line : ℕ
  pub new_line : ℕ
  pub text : Text

pub data SourceFailure : Type 0 where
  unavailable missing non_utf8 short_source : SourceFailure
  too_large : ℕ → SourceFailure
  io command : Text → SourceFailure

pub data Expanded : Type 0 where
  ok : List ContextLine → Expanded
  err : SourceFailure → Expanded

-- `replace('\t', "  ")`.
unfoldable pub expand_tabs : Text → Text
expand_tabs [] = []
expand_tabs (c ∷ s) = let rest = expand_tabs s in if c == 9 then 32 ∷ 32 ∷ rest else c ∷ rest

unfoldable pub normalized_source_lines : Text → List Text
unfolding lines normalize_newlines
normalized_source_lines source = lines (normalize_newlines source)

unfoldable pub normalized_source_line_count : Text → ℕ
unfolding normalized_source_lines
normalized_source_line_count source = length (normalized_source_lines source)

unfoldable pub shown_line : Text → Text
unfolding sanitize_terminal_text expand_tabs
shown_line line = expand_tabs (sanitize_terminal_text line false)

-- The map over `0..count`, with the lines from the start on. An index out of range would panic,
-- and the test above it rules that out; there the model stops.
unfoldable pub context_lines : CollapsedGap → ℕ → ℕ → List Text → List ContextLine
unfolding shown_line
context_lines gap offset zero rest = []
context_lines gap offset (suc count) [] = []
context_lines gap offset (suc count) (line ∷ rest) =
    record {
      old_line = sat_add32 gap.old_range.start (wrap32 offset);
      new_line = sat_add32 gap.new_range.start (wrap32 offset);
      text = shown_line line;
    }
    ∷ context_lines gap (offset + 1) count rest

unfoldable pub expand_gap_lines : CollapsedGap → Text → SourceSide → Expanded
unfolding normalized_source_lines line_count context_lines
expand_gap_lines gap source side =
    let all_lines = normalized_source_lines source in
    let start = (range_of side gap).start - 1 in
    let count = line_count gap side in
    if ltb (length all_lines) (sat_add start count)
    then err short_source
    else ok (context_lines gap 0 count (drop start all_lines))

pub record LoadedContextSource : Type 0 where
  pub side : SourceSide
  pub text : Text

pub data Loaded : Type 0 where
  loaded : LoadedContextSource → Loaded
  failed : SourceFailure → Loaded

-- The set of unfolded gaps is a list of their keys.
pub record FileContextState : Type 0 where
  pub expanded : List GapKey
  pub source : Option Loaded

abbrev loaded_length : Option Loaded → Option (SourceSide × ℕ)
loaded_length none = none
loaded_length (some (failed failure)) = none
loaded_length (some (loaded source)) =
    some (source.side, wrap32 (normalized_source_line_count source.text))

unfoldable pub gaps : FileContextState → DiffFile → List CollapsedGap
unfolding derive_collapsed_gaps normalized_source_line_count
gaps context file = derive_collapsed_gaps file (loaded_length context.source)
