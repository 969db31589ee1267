-- ===== src/Geometry/Tests.antt =====
-- Runs of src/review/geometry.rs.
use ramo.Geometry.Anchor.Restored.{restore-capture_same, restore-capture_row}
use ramo.Geometry.Anchor.{restore_viewport_anchor, capture_viewport_anchor}
use ramo.Geometry.Window.{InWindow, window_end, visible_window-InWindow}
use ramo.Rows.Plan.{RowPlan, stack, split}
use ramo.Geometry.Build.{
  build_review_geometry, visible_window, hunk_anchor, max_scroll_top, file_at_offset, row_at_offset,
  bound_of, find_row_by_key,
}
use ramo.Geometry.{
  PlannedFile, ReviewGeometry, resolve_responsive_layout, GeometryOptions, auto, RowBounds,
  file_owner, stack_mode,
}
use ramo.Prelude.Text.{Text, codes}
use ramo.Prelude.{
  ℕ, Bool, List, ◌∷◌, length, map, ◌≡◌, get_elem?, ◌≤◌, some, false, [], true, ◌<◌, refl, none, ◌↔◌,
  arith, ◌+◌,
}
use ramo.Rows.{diff_line, stack_row, ReviewRowKey, ReviewCell, ReviewRow, context_cell}

abbrev key_of : ℕ → ReviewRowKey
key_of line = record {
  file_id = codes "f";
  hunk_index = some 0;
  kind = diff_line;
  old_line = some line;
  new_line = some line;
  note_id = none;
}

abbrev cell_of : Text → ReviewCell
cell_of text = record {
  kind = context_cell;
  sign = b' ';
  old_line = none;
  new_line = none;
  moved = none;
  spans = record { text = text; emphasized = false } ∷ [];
}

abbrev options_for : Bool → GeometryOptions
options_for wrap = record {
  content_width = 13;
  viewport_height = 4;
  show_line_numbers = false;
  wrap_lines = wrap;
}

abbrev plan_of : List ReviewRow → RowPlan
plan_of rows = record { rows = rows; hunk_anchor_keys = key_of 2 ∷ []; line_number_digits = 1 }

abbrev one_file : PlannedFile
one_file = record {
  file_id = codes "f";
  plan = plan_of (
      stack_row (key_of 1) (cell_of (codes "a"))
      ∷ stack_row (key_of 2) (cell_of (codes "0123456789ab"))
      ∷ []);
  compacted = false;
}

abbrev two_files : List PlannedFile
two_files = one_file ∷ record one_file { file_id = codes "g"; compacted = true } ∷ []

abbrev geometry : ReviewGeometry
geometry = build_review_geometry length (options_for true) two_files none

-- The header, a row of one line and one of two; the separator, and the same rows without a header.
tops_test :
    map {B = ℕ × ℕ} (λ (row : RowBounds). (row.top, row.height)) geometry.rows
    ≡ (1, 1) ∷ (2, 2) ∷ (5, 1) ∷ (6, 2) ∷ []
unfolding build_review_geometry
tops_test = refl

height_test : (geometry.total_height ≡ 8) × (max_scroll_top geometry ≡ 4)
unfolding build_review_geometry max_scroll_top
height_test = (refl, refl)

window_test :
    visible_window geometry 3 3 0 ≡ record { start = 1; end = 3; top_spacer = 2; bottom_spacer = 2 }
unfolding visible_window build_review_geometry
window_test = refl

lookup_test :
    (hunk_anchor geometry (codes "g") 0 ≡ get_elem? geometry.rows 3)
    × (file_at_offset geometry 4 ≡ some 1)
    × (row_at_offset geometry 3 ≡ get_elem? geometry.rows 1)
unfolding hunk_anchor file_at_offset row_at_offset build_review_geometry
lookup_test = (refl, refl, refl)

layout_test :
    ((resolve_responsive_layout auto 159 true).layout ≡ stack)
    × ((resolve_responsive_layout auto 160 true).layout ≡ split)
    × ((resolve_responsive_layout stack_mode 220 true).show_sidebar ≡ true)
unfolding resolve_responsive_layout
layout_test = (refl, refl, refl)

third_row :
    get_elem? geometry.rows 2
    ≡ some (bound_of (file_owner 1) 5 1 0 (stack_row (key_of 1) (cell_of (codes "a"))))
unfolding build_review_geometry
third_row = refl

visible_window-InWindow_example :
    let window = visible_window geometry 3 3 0 in
    ((window.start ≤ 2) × (2 < window.end))
    ↔ InWindow
        (bound_of (file_owner 1) 5 1 0 (stack_row (key_of 1) (cell_of (codes "a"))))
        3
        (window_end 3 3 0)
visible_window-InWindow_example =
    visible_window-InWindow length (options_for true) two_files none 3 3 0 2
      (bound_of (file_owner 1) 5 1 0 (stack_row (key_of 1) (cell_of (codes "a")))) third_row

abbrev low_options : Bool → GeometryOptions
low_options wrap = record (options_for wrap) { viewport_height = 1 }

abbrev wrapped : ReviewGeometry
wrapped = build_review_geometry length (low_options true) (one_file ∷ []) none

abbrev unwrapped : ReviewGeometry
unwrapped = build_review_geometry length (low_options false) (one_file ∷ []) none

abbrev second_row : ℕ → RowBounds
second_row height =
    bound_of (file_owner 0) 2 height 1 (stack_row (key_of 2) (cell_of (codes "0123456789ab")))

wrapped_rows :
    (get_elem? wrapped.rows 1 ≡ some (second_row 2))
    × (find_row_by_key wrapped (key_of 2) ≡ some (second_row 2))
    × (max_scroll_top wrapped ≡ 3)
unfolding build_review_geometry find_row_by_key max_scroll_top
wrapped_rows = (refl, refl, refl)

unwrapped_rows :
    (get_elem? unwrapped.rows 1 ≡ some (second_row 1))
    × (find_row_by_key unwrapped (key_of 2) ≡ some (second_row 1))
    × (max_scroll_top unwrapped ≡ 2)
unfolding build_review_geometry find_row_by_key max_scroll_top
unwrapped_rows = (refl, refl, refl)

wrapped_reach : 3 ≤ max_scroll_top wrapped
wrapped_reach = rw wrapped_rows.2 (ground arith)

unwrapped_reach : 3 ≤ max_scroll_top unwrapped + 1
unwrapped_reach = rw unwrapped_rows.2 (ground arith)

restore-capture_same_example :
    restore_viewport_anchor wrapped (capture_viewport_anchor wrapped 3 none none) ≡ 3
restore-capture_same_example =
    restore-capture_same length (low_options true) (one_file ∷ []) none 3 1 none none (second_row 2)
      wrapped_rows.0 (ground arith) (ground arith) wrapped_rows.1 wrapped_reach

restore-capture_row_example :
    row_at_offset unwrapped
      (restore_viewport_anchor unwrapped (capture_viewport_anchor wrapped 3 none none))
    ≡ some (second_row 1)
restore-capture_row_example =
    restore-capture_row length (low_options true) (low_options false) (one_file ∷ [])
      (one_file ∷ []) none none 3 1 1 none none (second_row 2) (second_row 1) wrapped_rows.0
      (ground arith) (ground arith) unwrapped_rows.0 unwrapped_rows.1 (ground arith) (ground arith)
      unwrapped_reach
