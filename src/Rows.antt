-- ===== src/Rows.antt =====
-- src/review/row.rs: the data of the rows that a review shows, with the records of
-- src/review/emphasis.rs, src/notes/target.rs and src/markup/layout.rs that they hold. Building the
-- rows is not modelled.
pub mod Emphasis
pub mod Build
pub mod Plan
mod Tests
use ramo.Context.{CollapsedGap}
use ramo.Diff.{NoteSource, MovedLineKind, LineRange}
use ramo.Prelude.{ℕ, List, Option, Bool}
use ramo.Prelude.Text.{Text}

pub data ReviewRowKind : Type 0 where
  compacted_file hunk_header diff_line collapsed expanded_context placeholder note : ReviewRowKind

pub record ReviewRowKey : Type 0 where
  pub file_id : Text
  pub hunk_index : Option ℕ
  pub kind : ReviewRowKind
  pub old_line : Option ℕ
  pub new_line : Option ℕ
  pub note_id : Option Text

pub data CellKind : Type 0 where
  context_cell addition_cell deletion_cell empty_cell : CellKind

pub record ChangedSpan : Type 0 where
  pub text : Text
  pub emphasized : Bool

pub record ReviewCell : Type 0 where
  pub kind : CellKind
  pub sign : ℕ
  pub old_line : Option ℕ
  pub new_line : Option ℕ
  pub moved : Option MovedLineKind
  pub spans : List ChangedSpan

pub data PlaceholderKind : Type 0 where
  binary_file too_large_file no_text_changes : PlaceholderKind

pub data NoteAnchorSide : Type 0 where
  old_anchor new_anchor : NoteAnchorSide

pub record NoteTarget : Type 0 where
  pub file_id : Text
  pub old_range : Option LineRange
  pub new_range : Option LineRange
  pub hunk_index : Option ℕ
  pub anchor_side : Option NoteAnchorSide
  pub anchor_line : Option ℕ

pub record NoteBoxLayout : Type 0 where
  pub box_width : ℕ
  pub box_left : ℕ
  pub content_width : ℕ

pub record StmlSpan : Type 0 where
  pub text : Text
  pub fg : Option Text
  pub bg : Option Text
  pub bold : Bool
  pub italic : Bool
  pub underline : Bool
  pub strike : Bool
  pub dim : Bool

pub record StmlLine : Type 0 where
  pub spans : List StmlSpan

pub record NoteMarkup : Type 0 where
  pub lines : List StmlLine
  pub notes : List Text

pub data NoteCardKind : Type 0 where
  external human github ask : NoteCardKind

pub record NoteCard : Type 0 where
  pub id : Text
  pub target : NoteTarget
  pub source : NoteSource
  pub title : Text
  pub location : Text
  pub lines : List Text
  pub markup : Option NoteMarkup
  pub tags : List Text
  pub author : Option Text
  pub placement : NoteBoxLayout
  pub kind : NoteCardKind
  pub caret : Option (ℕ × ℕ)

pub data ReviewRow : Type 0 where
  compacted_row : ReviewRowKey → ReviewRow
  header_row : ReviewRowKey → Text → ReviewRow
  split_row : ReviewRowKey → ReviewCell → ReviewCell → ReviewRow
  stack_row : ReviewRowKey → ReviewCell → ReviewRow
  placeholder_row : ReviewRowKey → PlaceholderKind → Text → ReviewRow
  collapsed_row : ReviewRowKey → CollapsedGap → Text → ReviewRow
  note_row : ReviewRowKey → NoteCard → ReviewRow
