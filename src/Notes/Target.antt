-- ===== src/Notes/Target.antt =====
-- src/notes/target.rs: the lines that a note is about, the hunk that it is attached to, and the box
-- that it is drawn in. Columns are `u16`.
pub mod Box
pub mod Covered
mod Tests
use ramo.Prelude.Str.{text_eq}
use ramo.Rows.{NoteTarget, NoteAnchorSide, new_anchor, old_anchor, NoteBoxLayout}
use mathlib.Core.List.{[]}
use ramo.Geometry.{LayoutMode, split_mode, stack_mode, auto}
use ramo.Diff.{DiffLine, LineRange, Hunk, DiffFile, ReviewNote, NoteSource, ai, named, agent, user}
use ramo.Prelude.{
  ℕ, Option, List, Bool, false, if◌then◌else◌, none, leb, ◌||◌, true, min, ◌&&◌, some, ◌∷◌, max,
  ◌/◌, ◌-◌, [], suc,
}
use ramo.Prelude.Text.{Text, codes}

abbrev pub within : Option LineRange → Option ℕ → Bool
within none line = false
within (some range) none = false
within (some range) (some line) = leb range.start line && leb line range.end

unfoldable pub covers : NoteTarget → Text → Option ℕ → Option ℕ → Bool
unfolding text_eq
covers target file_id old_line new_line =
    if text_eq target.file_id file_id
    then within target.new_range new_line || within target.old_range old_line
    else false

abbrev pub line_number : NoteAnchorSide → DiffLine → Option ℕ
line_number old_anchor line = line.old_lineno
line_number new_anchor line = line.new_lineno

-- `filter_map` of the numbers of the lines.
abbrev pub with_number : Option ℕ → List ℕ → List ℕ
with_number none rest = rest
with_number (some n) rest = n ∷ rest

unfoldable pub line_numbers : NoteAnchorSide → List DiffLine → List ℕ
line_numbers side [] = []
line_numbers side (line ∷ rest) = with_number (line_number side line) (line_numbers side rest)

unfoldable pub widened : LineRange → List ℕ → LineRange
widened range [] = range
widened range (line ∷ rest) =
    widened (record { start = min range.start line; end = max range.end line }) rest

abbrev pub range_from : List ℕ → Option LineRange
range_from [] = none
range_from (first ∷ rest) = some (widened (record { start = first; end = first }) rest)

unfoldable pub hunk_range : Hunk → NoteAnchorSide → Option LineRange
unfolding line_numbers widened
hunk_range hunk side = range_from (line_numbers side hunk.lines)

abbrev pub overlaps : LineRange → LineRange → Bool
overlaps left right = leb left.start right.end && leb right.start left.end

-- `zip` and `is_some_and(overlaps)`.
abbrev pub both_overlap : Option LineRange → Option LineRange → Bool
both_overlap none hunk = false
both_overlap (some note) none = false
both_overlap (some note) (some hunk) = overlaps note hunk

unfoldable pub ranges_overlap_hunk : Option LineRange → Option LineRange → Hunk → Bool
unfolding hunk_range
ranges_overlap_hunk old_range new_range hunk =
    both_overlap new_range (hunk_range hunk new_anchor)
    || both_overlap old_range (hunk_range hunk old_anchor)

abbrev pub after_first : Option ℕ → Option ℕ
after_first none = none
after_first (some index) = some (suc index)

-- `iter().position(...)`.
unfoldable pub hunk_position : (Hunk → Bool) → List Hunk → Option ℕ
hunk_position test [] = none
hunk_position test (hunk ∷ rest) =
    if test hunk then some 0 else after_first (hunk_position test rest)

abbrev pub anchor_of : Option LineRange → Option LineRange → Option NoteAnchorSide × Option ℕ
anchor_of old_range (some range) = (some new_anchor, some range.start)
anchor_of (some range) none = (some old_anchor, some range.start)
anchor_of none none = (none, none)

unfoldable pub resolve_ranges_target : DiffFile → Option LineRange → Option LineRange → NoteTarget
unfolding hunk_position ranges_overlap_hunk
resolve_ranges_target file old_range new_range = record {
  file_id = file.id;
  old_range = old_range;
  new_range = new_range;
  hunk_index = hunk_position (ranges_overlap_hunk old_range new_range) file.hunks;
  anchor_side = (anchor_of old_range new_range).0;
  anchor_line = (anchor_of old_range new_range).1;
}

unfoldable pub note_overlaps_hunk : ReviewNote → Hunk → Bool
unfolding hunk_range
note_overlaps_hunk note hunk =
    both_overlap note.new_range (hunk_range hunk new_anchor)
    || both_overlap note.old_range (hunk_range hunk old_anchor)

unfoldable pub resolve_note_target : DiffFile → ReviewNote → NoteTarget
unfolding hunk_position note_overlaps_hunk
resolve_note_target file note = record {
  file_id = file.id;
  old_range = note.old_range;
  new_range = note.new_range;
  hunk_index = hunk_position (note_overlaps_hunk note) file.hunks;
  anchor_side = (anchor_of note.old_range note.new_range).0;
  anchor_line = (anchor_of note.old_range note.new_range).1;
}

unfoldable pub note_source : ReviewNote → NoteSource
unfolding text_eq
note_source note = elim note.source [
  | ai ↦ ai
  | agent ↦ agent
  | user ↦ user
  | named value ↦ if text_eq value (codes "mcp") then agent else named value
]

abbrev pub explicit_layout : LayoutMode → ℕ → LayoutMode
explicit_layout auto width = if leb 160 width then split_mode else stack_mode
explicit_layout split_mode width = split_mode
explicit_layout stack_mode width = stack_mode

abbrev pub is_split : LayoutMode → Bool
is_split split_mode = true
is_split stack_mode = false
is_split auto = false

abbrev pub preferred_width : Bool → Option NoteAnchorSide → ℕ → ℕ
preferred_width true (some old_anchor) width = width / 2
preferred_width true (some new_anchor) width = width - width / 2
preferred_width true none width = max (width - 4) 34
preferred_width false side width = max (width - 4) 34

-- `clamp`, whose bounds are in order where it is used.
abbrev pub clamp : ℕ → ℕ → ℕ → ℕ
clamp value minimum maximum = min (max value minimum) maximum

abbrev pub left_of : Bool → Option NoteAnchorSide → ℕ → ℕ → ℕ
left_of true (some old_anchor) width box_width = 0
left_of true (some new_anchor) width box_width = width - box_width
left_of true none width box_width = min 4 (width - box_width)
left_of false side width box_width = min 4 (width - box_width)

unfoldable pub note_box_layout : LayoutMode → Option NoteAnchorSide → ℕ → NoteBoxLayout
note_box_layout layout anchor_side width =
    let can_dock = is_split (explicit_layout layout width) && leb 84 width in
    let maximum = max (width - 4) 1 in
    let box_width = clamp (preferred_width can_dock anchor_side width) (min 28 maximum) maximum in
    record {
      box_width = box_width;
      box_left = left_of can_dock anchor_side width box_width;
      content_width = max (box_width - 4) 1;
    }
