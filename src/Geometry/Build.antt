-- ===== src/Geometry/Build.antt =====
-- `build_review_geometry` and the queries of src/review/geometry.rs.
use Prim.Native.Nat.{zero}
use mathlib.Core.List.{[]}
use ramo.Rows.Plan.{key, RowPlan}
use mathlib.Core.Bool.{true, false}
use ramo.Prelude.Machine.{sat_add}
use ramo.Prelude.Text.{Text}
use ramo.Geometry.{
  RowOwner, RowBounds, ReviewGeometry, FileSection, GeometryOptions, VisibleWindow,
  measure_row_height, PlannedFile, TrailerSection, trailer_owner, file_owner,
}
use ramo.Prelude.Str.{text_eq}
use ramo.Prelude.{
  Option, Bool, List, ℕ, none, length, get_elem?, ◌&&◌, if◌then◌else◌, ◌-◌, some, ◌∷◌, true, ◌==◌,
  false, ◌++◌, suc, [], leb, not, ltb, min, max, zero,
}
use ramo.Rows.{
  compacted_file, hunk_header, diff_line, collapsed, expanded_context, placeholder, note,
  ReviewRowKind, ReviewRowKey, ReviewRow,
}

abbrev same_kind_of_row : ReviewRowKind → ReviewRowKind → Bool
same_kind_of_row compacted_file compacted_file = true
same_kind_of_row hunk_header hunk_header = true
same_kind_of_row diff_line diff_line = true
same_kind_of_row collapsed collapsed = true
same_kind_of_row expanded_context expanded_context = true
same_kind_of_row placeholder placeholder = true
same_kind_of_row note note = true
same_kind_of_row _ _ = false

abbrev same_number : Option ℕ → Option ℕ → Bool
same_number none none = true
same_number (some m) (some n) = m == n
same_number _ _ = false

abbrev same_text : Option Text → Option Text → Bool
same_text none none = true
same_text (some s) (some t) = text_eq s t
same_text _ _ = false

-- `==` of the keys of rows.
unfoldable pub same_row_key : ReviewRowKey → ReviewRowKey → Bool
unfolding text_eq
same_row_key a b =
    text_eq a.file_id b.file_id
    && same_number a.hunk_index b.hunk_index
    && same_kind_of_row a.kind b.kind
    && same_number a.old_line b.old_line
    && same_number a.new_line b.new_line
    && same_text a.note_id b.note_id

abbrev pub looked_up : {K : Type 0} → (K → Bool) → List (K × ℕ) → Option ℕ
looked_up is_key [] = none
looked_up is_key ((k, index) ∷ rest) = if is_key k then some index else looked_up is_key rest

-- What the loops over files and rows change.
pub record Building : Type 0 where
  pub sections : List FileSection
  pub rows : List RowBounds
  pub row_by_key : List (ReviewRowKey × ℕ)
  pub file_by_id : List (Text × ℕ)
  pub hunk_anchor_by_id : List ((Text × ℕ) × ℕ)
  pub cursor : ℕ

abbrev pub bound_of : RowOwner → ℕ → ℕ → ℕ → ReviewRow → RowBounds
bound_of owner top height row_index row = record {
  key = key row;
  top = top;
  height = height;
  owner = owner;
  hunk_index = (key row).hunk_index;
  row_index = row_index;
}

abbrev pub push_bound : RowBounds → Building → Building
push_bound bound b = record b {
  row_by_key = (bound.key, length b.rows) ∷ b.row_by_key;
  rows = b.rows ++ bound ∷ [];
}

-- The anchors of a file: those whose row was found.
unfoldable pub insert_anchors :
    Text
    → ℕ
    → List ReviewRowKey
    → List (ReviewRowKey × ℕ)
    → List ((Text × ℕ) × ℕ)
    → List ((Text × ℕ) × ℕ)
unfolding same_row_key
insert_anchors file_id hunk_index [] row_by_key anchors = anchors
insert_anchors file_id hunk_index (k ∷ rest) row_by_key anchors =
    insert_anchors file_id (suc hunk_index) rest row_by_key
      (elim (looked_up (same_row_key k) row_by_key) [
        | none ↦ anchors
        | some index ↦ ((file_id, hunk_index), index) ∷ anchors
      ])

abbrev pub from_bool : Bool → ℕ
from_bool true = 1
from_bool false = 0

abbrev pub is_empty_plan : RowPlan → Bool
is_empty_plan plan = elim plan.rows [ [] ↦ true | row ∷ rest ↦ false ]

abbrev pub nothing_built : Building
nothing_built = record {
  sections = [];
  rows = [];
  row_by_key = [];
  file_by_id = [];
  hunk_anchor_by_id = [];
  cursor = 0;
}

module _ (str_width : Text → ℕ) (options : GeometryOptions) where
  -- The loop over the rows of a plan, with the height of the body so far.
  unfoldable pub push_rows : RowOwner → ℕ → ℕ → ℕ → ℕ → List ReviewRow → Building → Building × ℕ
  unfolding measure_row_height
  push_rows owner line_digits body_top body_height row_index [] b = (b, body_height)
  push_rows owner line_digits body_top body_height row_index (row ∷ rest) b =
      let height = measure_row_height str_width row line_digits options in
      push_rows owner line_digits body_top (sat_add body_height height) (suc row_index) rest
        (push_bound (bound_of owner (sat_add body_top body_height) height row_index row) b)

  -- The section of a file behind its rows.
  abbrev pub close_section : ℕ → PlannedFile → ℕ → ℕ → Building × ℕ → Building
  close_section file_index file separator_height body_top (b, body_height) =
      let section_top = b.cursor in
      let section_bottom = sat_add body_top body_height in
      record b {
        sections =
            b.sections
            ++ record {
              file_id = file.file_id;
              file_index = file_index;
              section_top = section_top;
              separator_height = separator_height;
              header_top = sat_add section_top separator_height;
              header_height = from_bool (not file.compacted);
              body_top = body_top;
              body_height = body_height;
              section_bottom = section_bottom;
            }
              ∷ [];
        hunk_anchor_by_id =
            insert_anchors file.file_id 0 file.plan.hunk_anchor_keys b.row_by_key
              b.hunk_anchor_by_id;
        file_by_id = (file.file_id, file_index) ∷ b.file_by_id;
        cursor = section_bottom;
      }

  abbrev pub push_file : ℕ → PlannedFile → Building → Building
  push_file file_index file b =
      let separator_height = from_bool (ltb 0 file_index) in
      let header_top = sat_add b.cursor separator_height in
      let body_top = sat_add header_top (from_bool (not file.compacted)) in
      close_section file_index file separator_height body_top (
        push_rows (file_owner file_index) file.plan.line_number_digits body_top 0 0 file.plan.rows
          b)

  unfoldable pub push_files : ℕ → List PlannedFile → Building → Building
  unfolding push_rows insert_anchors
  push_files file_index [] b = b
  push_files file_index (file ∷ rest) b =
      push_files (suc file_index) rest (push_file file_index file b)

  abbrev pub close_trailer : ℕ → Building × ℕ → Building × Option TrailerSection
  close_trailer body_top (b, body_height) =
      let section_bottom = sat_add body_top body_height in
      (
        record b { cursor = section_bottom },
        some (record {
          section_top = b.cursor;
          separator_height = 1;
          header_top = sat_add b.cursor 1;
          header_height = 1;
          body_top = body_top;
          body_height = body_height;
          section_bottom = section_bottom;
        }),
      )

  unfoldable pub push_trailer : Option RowPlan → Building → Building × Option TrailerSection
  unfolding push_rows
  push_trailer none b = (b, none)
  push_trailer (some plan) b =
      if is_empty_plan plan
      then (b, none)
      else (let body_top = sat_add (sat_add b.cursor 1) 1 in
          close_trailer body_top
            (push_rows trailer_owner plan.line_number_digits body_top 0 0 plan.rows b))

  unfoldable pub build_review_geometry : List PlannedFile → Option RowPlan → ReviewGeometry
  unfolding push_files push_trailer
  build_review_geometry files trailer =
      let (b, section) = push_trailer trailer (push_files 0 files nothing_built) in
      record {
        sections = b.sections;
        trailer = section;
        rows = b.rows;
        total_height = b.cursor;
        viewport_height = options.viewport_height;
        row_by_key = b.row_by_key;
        file_by_id = b.file_by_id;
        hunk_anchor_by_id = b.hunk_anchor_by_id;
      }

abbrev pub partition_point : {A : Type 0} → (A → Bool) → List A → ℕ
partition_point p [] = 0
partition_point p (x ∷ xs) = let rest = partition_point p xs in if p x then suc rest else 0

abbrev pub bottom : RowBounds → ℕ
bottom row = sat_add row.top row.height

abbrev pub last_row : List RowBounds → Option RowBounds
last_row [] = none
last_row (row ∷ []) = some row
last_row (row ∷ next ∷ rest) = last_row (next ∷ rest)

unfoldable pub row_at_offset : ReviewGeometry → ℕ → Option RowBounds
row_at_offset geometry offset =
    elim (get_elem? geometry.rows
      (partition_point (λ row. leb (bottom row) offset) geometry.rows)) [
        | some row ↦ some row
        | none ↦ last_row geometry.rows
      ]

abbrev pub row_at_index : ReviewGeometry → Option ℕ → Option RowBounds
row_at_index geometry none = none
row_at_index geometry (some index) = get_elem? geometry.rows index

unfoldable pub find_row_by_key : ReviewGeometry → ReviewRowKey → Option RowBounds
unfolding same_row_key
find_row_by_key geometry k = row_at_index geometry (looked_up (same_row_key k) geometry.row_by_key)

unfoldable pub hunk_anchor : ReviewGeometry → Text → ℕ → Option RowBounds
unfolding text_eq
hunk_anchor geometry file_id hunk_index = row_at_index geometry (
    looked_up (λ (id, index). text_eq id file_id && index == hunk_index) geometry.hunk_anchor_by_id)

unfoldable pub file_section : ReviewGeometry → Text → Option FileSection
unfolding text_eq
file_section geometry file_id = elim (looked_up (text_eq file_id) geometry.file_by_id) [
  | none ↦ none
  | some index ↦ get_elem? geometry.sections index
]

unfoldable pub file_at_offset : ReviewGeometry → ℕ → Option ℕ
file_at_offset geometry offset =
    if length geometry.sections == 0
    then none
    else some (
        min
          (partition_point (λ (section : FileSection). leb section.section_top offset)
              geometry.sections
            - 1)
          (length geometry.sections - 1))

abbrev pub top_or : ℕ → Option RowBounds → ℕ
top_or other none = other
top_or other (some row) = row.top

abbrev pub bottom_or : ℕ → Option RowBounds → ℕ
bottom_or other none = other
bottom_or other (some row) = bottom row

-- The row in front of an index, if there is one.
abbrev pub row_before : List RowBounds → ℕ → Option RowBounds
row_before rows zero = none
row_before rows (suc index) = get_elem? rows index

unfoldable pub visible_window : ReviewGeometry → ℕ → ℕ → ℕ → VisibleWindow
visible_window geometry scroll_top viewport_height overscan_rows =
    let rows = geometry.rows in
    if length rows == 0
    then record { start = 0; end = 0; top_spacer = 0; bottom_spacer = geometry.total_height }
    else (let least = scroll_top - overscan_rows in
        let greatest = sat_add (sat_add scroll_top viewport_height) overscan_rows in
        let start = partition_point (λ row. leb (bottom row) least) rows in
        let end = max (partition_point (λ (row : RowBounds). ltb row.top greatest) rows) start in
        let top_spacer = top_or geometry.total_height (get_elem? rows start) in
        record {
          start = start;
          end = end;
          top_spacer = top_spacer;
          bottom_spacer = geometry.total_height - bottom_or top_spacer (row_before rows end);
        })

unfoldable pub max_scroll_top : ReviewGeometry → ℕ
max_scroll_top geometry = geometry.total_height - geometry.viewport_height
