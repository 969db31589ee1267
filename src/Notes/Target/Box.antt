-- ===== src/Notes/Target/Box.antt =====
-- The box of a note of src/notes/target.rs.
use mathlib.Core.Option.{none}
use ramo.Rows.{NoteAnchorSide, old_anchor, new_anchor}
use ramo.Geometry.{LayoutMode}
use ramo.Notes.Target.{note_box_layout, left_of, clamp, is_split, explicit_layout, preferred_width}
use ramo.Prelude.{
  none, true, false, Bool, Option, ℕ, ◌≤◌, max, ◌+◌, ◌-◌, min, arith, some, ◌&&◌, leb, none,
}

box_inside :
    (can_dock : Bool) (side : Option NoteAnchorSide) (width box_width : ℕ)
    → 1 ≤ box_width
    → box_width ≤ max (width - 4) 1
    → 1 ≤ width
    → left_of can_dock side width box_width + box_width ≤ width
box_inside true (some old_anchor) width box_width a b c = omega (arith, a, b, c)
box_inside true (some new_anchor) width box_width a b c = omega (arith, a, b, c)
box_inside true none width box_width a b c = omega (arith, a, b, c)
box_inside false side width box_width a b c = omega (arith, a, b, c)

-- The box of a note is drawn inside a pane of one column at least: it ends within the pane, it is no
-- narrower than 28 columns if the pane leaves as many, and it leaves a column for the text.
pub note_box_layout-inside :
    (layout : LayoutMode) (side : Option NoteAnchorSide) (width : ℕ)
    → 1 ≤ width
    → (let box = note_box_layout layout side width in
        (box.box_left + box.box_width ≤ width)
        × (min 28 (width - 4) ≤ box.box_width)
        × (1 ≤ box.content_width)
        × (box.content_width ≤ box.box_width))
unfolding note_box_layout
note_box_layout-inside layout side width w =
    let can_dock = is_split (explicit_layout layout width) && leb 84 width in
    let size = clamped (preferred_width can_dock side width) (max (width - 4) 1) (omega arith) in
    let preferred =
      clamp (preferred_width can_dock side width) (min 28 (max (width - 4) 1))
        (max (width - 4) 1) in
    (
      box_inside can_dock side width preferred size.0 size.1 w,
      omega (arith, size.2),
      omega arith,
      omega (arith, size.0),
    )
  where
    clamped :
        (value maximum : ℕ)
        → 1 ≤ maximum
        → (1 ≤ clamp value (min 28 maximum) maximum)
          × (clamp value (min 28 maximum) maximum ≤ maximum)
          × (min 28 maximum ≤ clamp value (min 28 maximum) maximum)
    clamped value maximum h = (omega (arith, h), omega (arith, h), omega (arith, h))
