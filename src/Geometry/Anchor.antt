-- ===== src/Geometry/Anchor.antt =====
-- src/review/anchor.rs: the place that a review is scrolled to, kept by its row, its hunk or its file
-- when the rows change.
pub mod Restored
use mathlib.Core.Option.{none}
use ramo.Prelude.Machine.{sat_add}
use ramo.Prelude.Text.{Text}
use ramo.Prelude.{Option, ℕ, min, some, ◌>>=◌, get_elem?, ◌-◌, none}
use ramo.Geometry.Build.{row_at_offset, find_row_by_key, hunk_anchor, file_section, max_scroll_top}
use ramo.Geometry.{ReviewGeometry, RowBounds, RowOwner, FileSection, file_owner, trailer_owner}
use ramo.Rows.{ReviewRowKey}

pub record ViewportAnchor : Type 0 where
  pub row_key : Option ReviewRowKey
  pub intra_row : ℕ
  pub file_id : Option Text
  pub hunk_index : Option ℕ
  pub absolute_offset : ℕ

abbrev pub section_id : Option FileSection → Option Text → Option Text
section_id none selected = selected
section_id (some section) selected = some section.file_id

abbrev pub owner_file : ReviewGeometry → RowOwner → Option Text → Option Text
owner_file geometry trailer_owner selected = selected
owner_file geometry (file_owner file_index) selected =
    section_id (get_elem? geometry.sections file_index) selected

abbrev pub hunk_or : Option ℕ → Option ℕ → Option ℕ
hunk_or none selected = selected
hunk_or (some hunk_index) selected = some hunk_index

abbrev pub anchor_at :
    ReviewGeometry → ℕ → Option Text → Option ℕ → Option RowBounds → ViewportAnchor
anchor_at geometry scroll_top selected_file_id selected_hunk_index none = record {
  row_key = none;
  intra_row = 0;
  file_id = selected_file_id;
  hunk_index = selected_hunk_index;
  absolute_offset = scroll_top;
}
anchor_at geometry scroll_top selected_file_id selected_hunk_index (some row) = record {
  row_key = some row.key;
  intra_row = scroll_top - row.top;
  file_id = owner_file geometry row.owner selected_file_id;
  hunk_index = hunk_or row.hunk_index selected_hunk_index;
  absolute_offset = scroll_top;
}

unfoldable pub capture_viewport_anchor :
    ReviewGeometry → ℕ → Option Text → Option ℕ → ViewportAnchor
unfolding row_at_offset
capture_viewport_anchor geometry scroll_top selected_file_id selected_hunk_index =
    anchor_at geometry scroll_top selected_file_id selected_hunk_index
      (row_at_offset geometry scroll_top)

abbrev pub row_top : ReviewGeometry → ViewportAnchor → Option ℕ
row_top geometry anchor = do
  k ← anchor.row_key
  row ← find_row_by_key geometry k
  some (sat_add row.top (min anchor.intra_row (row.height - 1)))

abbrev pub hunk_top : ReviewGeometry → ViewportAnchor → Option ℕ
hunk_top geometry anchor = do
  file_id ← anchor.file_id
  hunk_index ← anchor.hunk_index
  row ← hunk_anchor geometry file_id hunk_index
  some row.top

abbrev pub file_top : ReviewGeometry → ViewportAnchor → Option ℕ
file_top geometry anchor = do
  file_id ← anchor.file_id
  section ← file_section geometry file_id
  some section.body_top

abbrev pub or_else : Option ℕ → Option ℕ → Option ℕ
or_else none other = other
or_else (some top) other = some top

abbrev pub unwrap_or : Option ℕ → ℕ → ℕ
unwrap_or none other = other
unwrap_or (some top) other = top

unfoldable pub restore_viewport_anchor : ReviewGeometry → ViewportAnchor → ℕ
unfolding find_row_by_key hunk_anchor file_section max_scroll_top
restore_viewport_anchor geometry anchor =
    min
      (unwrap_or
        (or_else (or_else (row_top geometry anchor) (hunk_top geometry anchor))
          (file_top geometry anchor))
        anchor.absolute_offset)
      (max_scroll_top geometry)
