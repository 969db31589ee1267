-- ===== src/Notes/Target/Tests.antt =====
-- Runs of src/notes/target.rs.
use ramo.Notes.Target.Box.{note_box_layout-inside}
use ramo.Rows.{old_anchor, new_anchor}
use ramo.Prelude.Text.{codes}
use ramo.Geometry.{auto, split_mode, stack_mode}
use ramo.Notes.Target.{resolve_ranges_target, note_box_layout}
use ramo.Diff.{DiffFile, DiffLine, Hunk, LineRange, context, modified, absent}
use ramo.Prelude.{ℕ, List, Option, ◌∷◌, none, ◌+◌, [], some, ◌≡◌, ◌≤◌, false, min, refl, ◌-◌, arith}

abbrev line_at : ℕ → DiffLine
line_at n = record {
  kind = context;
  content = [];
  old_lineno = some n;
  new_lineno = some (n + 1);
  moved = none;
}

abbrev hunk_at : ℕ → Hunk
hunk_at n = record {
  old_start = n;
  new_start = n + 1;
  header = [];
  lines = line_at n ∷ line_at (n + 1) ∷ [];
}

abbrev file_with : List Hunk → DiffFile
file_with hunks = record {
  id = codes "f";
  path = codes "f";
  previous_path = none;
  summary = none;
  agent = none;
  patch = [];
  hunks = hunks;
  change_kind = modified;
  is_binary = false;
  is_untracked = false;
  is_too_large = false;
  stats_truncated = false;
  language = none;
  stats = record { additions = 0; deletions = 0 };
  old_source = absent;
  new_source = absent;
}

abbrev two_hunks : DiffFile
two_hunks = file_with (hunk_at 3 ∷ hunk_at 9 ∷ [])

abbrev lines_nine_on : Option LineRange
lines_nine_on = some (record { start = 9; end = 12 })

resolve_test :
    (resolve_ranges_target two_hunks lines_nine_on none ≡ record {
      file_id = codes "f";
      old_range = lines_nine_on;
      new_range = none;
      hunk_index = some 1;
      anchor_side = some old_anchor;
      anchor_line = some 9;
    })
    × ((resolve_ranges_target two_hunks none lines_nine_on).hunk_index ≡ some 1)
    × ((resolve_ranges_target two_hunks (some (record { start = 5; end = 8 })) none).hunk_index
        ≡ none)
unfolding resolve_ranges_target
resolve_test = (refl, refl, refl)

layout_test :
    (note_box_layout auto (some new_anchor) 161
      ≡ record { box_width = 81; box_left = 80; content_width = 77 })
    × (note_box_layout stack_mode none 20
        ≡ record { box_width = 16; box_left = 4; content_width = 12 })
unfolding note_box_layout
layout_test = (refl, refl)

note_box_layout-inside_example :
    let box = note_box_layout split_mode (some old_anchor) 90 in
    (box.box_left + box.box_width ≤ 90)
    × (min 28 (90 - 4) ≤ box.box_width)
    × (1 ≤ box.content_width)
    × (box.content_width ≤ box.box_width)
note_box_layout-inside_example =
    note_box_layout-inside split_mode (some old_anchor) 90 (ground arith)
