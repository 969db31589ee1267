-- ===== src/Geometry.antt =====
-- src/review/geometry.rs: where the rows of a review stand, and which of them a window shows. The hash
-- maps are lists of what was inserted, the last first. `partition_point`, a binary search, is the
-- number of elements that pass the test before the first that does not: on a list that the test
-- parts, which it asks for, that is where it ends. `str_width` is `UnicodeWidthStr::width`.
pub mod Build
pub mod Stacked
pub mod Window
pub mod Anchor
mod Tests
use ramo.Prelude.Machine.{sat_add, sat_mul}
use ramo.Prelude.Text.{Text}
use ramo.Prelude.{
  Bool, ℕ, List, if◌then◌else◌, true, ◌&&◌, ◌-◌, Option, max, leb, false, ◌/◌, ◌==◌, length, ◌+◌,
}
use ramo.Rows.Plan.{EffectiveLayout, RowPlan, split, stack, key}
use ramo.Rows.{
  ReviewRow, ReviewRowKey, ReviewRowKind, ReviewCell, NoteCard, compacted_row, header_row,
  split_row, stack_row, placeholder_row, collapsed_row, note_row, compacted_file, hunk_header,
  diff_line, collapsed, expanded_context, placeholder, note,
}
use ramo.Rows.Build.{cell_text}

pub data LayoutMode : Type 0 where
  split_mode stack_mode auto : LayoutMode

pub data ResponsiveViewport : Type 0 where
  full_view medium_view tight_view : ResponsiveViewport

pub record ResponsiveLayout : Type 0 where
  pub viewport : ResponsiveViewport
  pub layout : EffectiveLayout
  pub show_sidebar : Bool

abbrev pub split_min_width : ℕ
split_min_width = 160

abbrev pub full_min_width : ℕ
full_min_width = 220

abbrev pub viewport_for : ℕ → ResponsiveViewport
viewport_for width =
    if leb full_min_width width
    then full_view
    else if leb split_min_width width
    then medium_view
    else tight_view

abbrev pub layout_for : LayoutMode → ResponsiveViewport → EffectiveLayout
layout_for split_mode viewport = split
layout_for stack_mode viewport = stack
layout_for auto tight_view = stack
layout_for auto _ = split

abbrev pub is_full : ResponsiveViewport → Bool
is_full full_view = true
is_full _ = false

unfoldable pub resolve_responsive_layout : LayoutMode → ℕ → Bool → ResponsiveLayout
resolve_responsive_layout requested terminal_width sidebar_requested =
    let viewport = viewport_for terminal_width in
    record {
      viewport = viewport;
      layout = layout_for requested viewport;
      show_sidebar = sidebar_requested && is_full viewport;
    }

pub record PlannedFile : Type 0 where
  pub file_id : Text
  pub plan : RowPlan
  pub compacted : Bool

pub record GeometryOptions : Type 0 where
  pub content_width : ℕ
  pub viewport_height : ℕ
  pub show_line_numbers : Bool
  pub wrap_lines : Bool

pub record StackColumns : Type 0 where
  pub gutter : ℕ
  pub code_width : ℕ
  pub text_cell : ℕ

pub record SplitColumns : Type 0 where
  pub gutter : ℕ
  pub left_width : ℕ
  pub right_width : ℕ
  pub left_code_width : ℕ
  pub right_code_width : ℕ
  pub divider_cell : ℕ
  pub left_text_cell : ℕ
  pub right_text_cell : ℕ

unfoldable pub stack_columns : ℕ → ℕ → Bool → StackColumns
stack_columns content_width line_digits show_line_numbers =
    let gutter = if show_line_numbers then sat_add (sat_mul line_digits 2) 5 else 2 in
    record {
      gutter = gutter;
      code_width = content_width - 1 - gutter;
      text_cell = sat_add 1 gutter;
    }

unfoldable pub split_columns : ℕ → ℕ → Bool → SplitColumns
split_columns content_width line_digits show_line_numbers =
    let usable = content_width - 2 in
    let left_width = usable / 2 in
    let right_width = usable - left_width in
    let gutter = if show_line_numbers then sat_add line_digits 3 else 2 in
    let divider_cell = sat_add 1 left_width in
    record {
      gutter = gutter;
      left_width = left_width;
      right_width = right_width;
      left_code_width = left_width - gutter;
      right_code_width = right_width - gutter;
      divider_cell = divider_cell;
      left_text_cell = sat_add 1 gutter;
      right_text_cell = sat_add (sat_add divider_cell 1) gutter;
    }

pub record FileSection : Type 0 where
  pub file_id : Text
  pub file_index : ℕ
  pub section_top : ℕ
  pub separator_height : ℕ
  pub header_top : ℕ
  pub header_height : ℕ
  pub body_top : ℕ
  pub body_height : ℕ
  pub section_bottom : ℕ

pub data RowOwner : Type 0 where
  file_owner : ℕ → RowOwner
  trailer_owner : RowOwner

pub record TrailerSection : Type 0 where
  pub section_top : ℕ
  pub separator_height : ℕ
  pub header_top : ℕ
  pub header_height : ℕ
  pub body_top : ℕ
  pub body_height : ℕ
  pub section_bottom : ℕ

pub record RowBounds : Type 0 where
  pub key : ReviewRowKey
  pub top : ℕ
  pub height : ℕ
  pub owner : RowOwner
  pub hunk_index : Option ℕ
  pub row_index : ℕ

pub record VisibleWindow : Type 0 where
  pub start : ℕ
  pub end : ℕ
  pub top_spacer : ℕ
  pub bottom_spacer : ℕ

pub record ReviewGeometry : Type 0 where
  pub sections : List FileSection
  pub trailer : Option TrailerSection
  pub rows : List RowBounds
  pub total_height : ℕ
  pub viewport_height : ℕ
  pub row_by_key : List (ReviewRowKey × ℕ)
  pub file_by_id : List (Text × ℕ)
  pub hunk_anchor_by_id : List ((Text × ℕ) × ℕ)

-- `NoteCard::height`.
unfoldable pub card_height : NoteCard → ℕ
card_height card = max (sat_add (length card.lines) 3) 4

module _ (str_width : Text → ℕ) where
  unfoldable pub wrapped_height : ReviewCell → ℕ → ℕ
  unfolding cell_text
  wrapped_height cell content_width =
      if content_width == 0
      then 1
      else (max (str_width (cell_text cell)) 1 + (content_width - 1)) / content_width

  abbrev pub wrapped_row_height : ReviewRow → ℕ → GeometryOptions → ℕ
  wrapped_row_height (stack_row k cell) line_digits options =
      let columns = stack_columns options.content_width line_digits options.show_line_numbers in
      wrapped_height cell columns.code_width
  wrapped_row_height (split_row k left right) line_digits options =
      let columns = split_columns options.content_width line_digits options.show_line_numbers in
      max (wrapped_height left columns.left_code_width)
        (wrapped_height right columns.right_code_width)
  wrapped_row_height (note_row k card) line_digits options = card_height card
  wrapped_row_height _ line_digits options = 1

  unfoldable pub measure_row_height : ReviewRow → ℕ → GeometryOptions → ℕ
  unfolding card_height stack_columns split_columns wrapped_height
  measure_row_height (note_row k card) line_digits options = card_height card
  measure_row_height row line_digits options =
      if options.wrap_lines then wrapped_row_height row line_digits options else 1
