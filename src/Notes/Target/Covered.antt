-- ===== src/Notes/Target/Covered.antt =====
-- The hunk that a note of src/notes/target.rs is attached to.
use ramo.Diff.{LineRange}
use ramo.Prelude.{ℕ, ◌≤◌}

-- A range holds a line.
abbrev pub HasLine : LineRange → ℕ → Type 0
HasLine range k = (range.start ≤ k) × (k ≤ range.end)
