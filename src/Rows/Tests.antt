-- ===== src/Rows/Tests.antt =====
-- Runs of src/review/row.rs and src/review/emphasis.rs.
use ramo.Rows.Build.Segments.{shown_cell}
use ramo.Rows.Plan.Hunks.{diff_row, rows_of_lines, first_keys, build_row_plan_with_context-lines}
use ramo.Rows.Build.Stack.{flat_row, build_stack_rows-Shows, shown_row}
use ramo.Rows.Emphasis.{insert}
use ramo.Rows.Build.Split.{left_column, without, right_column, build_split_rows-columns}
use ramo.Context.{gap_at, before}
use ramo.Rows.{ReviewRow}
use mathlib.Core.List.{flat_map}
use ramo.Rows.Plan.{
  max_line_number_digits, gap_label, RowPlan, build_row_plan_with_context, cursor_lines, stack,
  available_sides,
}
use ramo.Rows.Build.{build_split_rows, build_stack_rows}
use ramo.Prelude.{
  List, append-nil, Option, ◌≡◌, map, ℕ, none, Bool, true, refl, ◌∷◌, some, [], false,
}
use ramo.Diff.{LineType, DiffFile, DiffLine, context, deletion, modified, addition, absent}
use ramo.Rows.Emphasis.{emphasize_pair, Change, delete, equal, plain_span, emphasized_span}
use ramo.Rows.Emphasis.Kept.{IsDiff, Holds, emphasize_pair-Holds}
use ramo.Prelude.Text.{Text, codes}

-- A word diff that knows no words.
abbrev whole_lines : Text → Text → List Change
whole_lines old new = (delete, old) ∷ (insert, new) ∷ []

whole_lines-IsDiff : IsDiff whole_lines
whole_lines-IsDiff old new = (append-nil old, append-nil new)

-- The words of the tests below, as the crate would give them.
abbrev let_words : Text → Text → List Change
let_words old new =
    (equal, codes "let value = ")
    ∷ (delete, codes "old")
    ∷ (insert, codes "new")
    ∷ (equal, codes "();")
    ∷ []

emphasis_test :
    emphasize_pair let_words (codes "let value = old();") (codes "let value = new();") ≡ (
      plain_span (codes "let value = ")
          ∷ emphasized_span (codes "old")
          ∷ plain_span (codes "();")
          ∷ [],
      plain_span (codes "let value = ")
          ∷ emphasized_span (codes "new")
          ∷ plain_span (codes "();")
          ∷ [],
    )
unfolding emphasize_pair
emphasis_test = refl

indentation_test :
    (emphasize_pair whole_lines (codes "  ") (codes "    ")).1 ≡ plain_span (codes "    ") ∷ []
unfolding emphasize_pair
indentation_test = refl

emphasize_pair-Holds_example :
    Holds (emphasize_pair whole_lines (codes "a b") (codes "c")).0 (codes "a b")
    × Holds (emphasize_pair whole_lines (codes "a b") (codes "c")).1 (codes "c")
emphasize_pair-Holds_example =
    emphasize_pair-Holds whole_lines (codes "a b") (codes "c") whole_lines-IsDiff

abbrev line : LineType → Text → Option ℕ → Option ℕ → DiffLine
line kind content old new = record {
  kind = kind;
  content = content;
  old_lineno = old;
  new_lineno = new;
  moved = none;
}

abbrev shown_lines : List DiffLine
shown_lines =
    line context (codes "a") (some 1) (some 1)
    ∷ line deletion (codes "b") (some 2) none
    ∷ line deletion (codes "c") (some 3) none
    ∷ line addition (codes "d") none (some 2)
    ∷ []

abbrev changed_file : DiffFile
changed_file = record {
  id = codes "f";
  path = codes "f";
  previous_path = none;
  summary = none;
  agent = none;
  patch = [];
  hunks = record { old_start = 1; new_start = 1; header = codes "@@"; lines = shown_lines } ∷ [];
  change_kind = modified;
  is_binary = false;
  is_untracked = false;
  is_too_large = false;
  stats_truncated = false;
  language = none;
  stats = record { additions = 1; deletions = 2 };
  old_source = absent;
  new_source = absent;
}

abbrev sides_of : List ReviewRow → List (Bool × Bool)
sides_of rows = map available_sides rows

split_test :
    sides_of (build_split_rows whole_lines changed_file 0 shown_lines)
    ≡ (true, true) ∷ (true, true) ∷ (true, false) ∷ []
unfolding build_split_rows
split_test = refl

cursor_test :
    map (λ row. cursor_lines row true) (build_split_rows whole_lines changed_file 0 shown_lines)
    ≡ (some 1, some 1) ∷ (none, some 2) ∷ (some 3, none) ∷ []
unfolding build_split_rows
cursor_test = refl

digits_test : max_line_number_digits changed_file ≡ 1
unfolding max_line_number_digits
digits_test = refl

label_test :
    gap_label (gap_at (codes "f") before 0 1 1 2) 2 false none ≡ (codes "2 unchanged lines", none)
unfolding gap_label
label_test = refl

build_stack_rows-Shows_example :
    (rows : List ReviewRow) × (build_stack_rows whole_lines changed_file 0 shown_lines ≡ some rows)
    × (map flat_row rows ≡ map (shown_row changed_file 0) shown_lines)
build_stack_rows-Shows_example =
    build_stack_rows-Shows whole_lines changed_file 0 shown_lines whole_lines-IsDiff

build_split_rows-columns_example :
    (flat_map left_column (build_split_rows whole_lines changed_file 0 shown_lines)
      ≡ map shown_cell (without addition shown_lines))
    × (flat_map right_column (build_split_rows whole_lines changed_file 0 shown_lines)
        ≡ map shown_cell (without deletion shown_lines))
build_split_rows-columns_example =
    build_split_rows-columns whole_lines changed_file 0 shown_lines whole_lines-IsDiff

build_row_plan_with_context-lines_example :
    (plan : RowPlan) × (build_row_plan_with_context whole_lines changed_file stack true none
      ≡ some plan)
    × (flat_map diff_row plan.rows ≡ rows_of_lines changed_file 0 changed_file.hunks)
    × (plan.hunk_anchor_keys ≡ first_keys changed_file 0 changed_file.hunks)
build_row_plan_with_context-lines_example =
    build_row_plan_with_context-lines whole_lines changed_file true none whole_lines-IsDiff
