-- ===== src/Rows/Plan/Hunks.antt =====
-- The stacked plan of a file (`build_row_plan_with_context` of src/review/row.rs) shows its hunks.
use ramo.Rows.Build.Split.{flat_map-append}
use ramo.Rows.Emphasis.Kept.{IsDiff}
use ramo.Rows.Build.Segments.{cons_head}
use mathlib.Core.Path.{ap₂}
use ramo.Context.{ContextLine, FileContextState, CollapsedGap}
use ramo.Rows.Build.Stack.{flat_row, build_stack_rows-Shows, shown_row}
use ramo.Rows.Emphasis.{Change}
use ramo.Rows.Plan.{
  key, is_selectable, EffectiveLayout, append_gap_rows, header_rows, anchor_of, context_line_row,
  hunk_rows, build_row_plan_with_context, gap_rows, stack, placeholder_plan, RowPlan, split,
  expanded_rows, is_gap_before, collapsed_gaps, is_trailing_gap, max_line_number_digits, has_hunks,
}
use ramo.Prelude.Text.{Text}
use mathlib.Core.List.{flat_map}
use ramo.Prelude.{
  List, Bool, if◌then◌else◌, ℕ, ◌∷◌, true, ◌≡◌, Option, false, [], map, ◌++◌, none, suc, find_first,
  ap, sym, refl, ◌∙◌, some, append-nil, Bool-cases, inr, inl,
}
use ramo.Diff.{DiffFile, DiffLine, Hunk}
use ramo.Rows.{
  ReviewRowKind, ReviewRow, ReviewRowKey, compacted_row, diff_line, header_row, split_row,
  stack_row, placeholder_row, collapsed_row, note_row,
}

abbrev is_diff_line : ReviewRowKind → Bool
is_diff_line diff_line = true
is_diff_line _ = false

-- A row of a line of a hunk, without its emphasis, and nothing for another row.
abbrev pub diff_row : ReviewRow → List ReviewRow
diff_row row = if is_diff_line (key row).kind then flat_row row ∷ [] else []

-- The lines of all hunks, each as a row.
abbrev pub rows_of_lines : DiffFile → ℕ → List Hunk → List ReviewRow
rows_of_lines file hunk_index [] = []
rows_of_lines file hunk_index (hunk ∷ rest) =
    map (shown_row file hunk_index) hunk.lines ++ rows_of_lines file (suc hunk_index) rest

abbrev pub first_key : DiffFile → ℕ → List DiffLine → List ReviewRowKey
first_key file hunk_index [] = []
first_key file hunk_index (line ∷ rest) = key (shown_row file hunk_index line) ∷ []

-- The first line of each hunk that has one.
abbrev pub first_keys : DiffFile → ℕ → List Hunk → List ReviewRowKey
first_keys file hunk_index [] = []
first_keys file hunk_index (hunk ∷ rest) =
    first_key file hunk_index hunk.lines ++ first_keys file (suc hunk_index) rest

key-flat_row : (row : ReviewRow) → key (flat_row row) ≡ key row
key-flat_row (compacted_row k) = refl
key-flat_row (header_row k text) = refl
key-flat_row (split_row k left right) = refl
key-flat_row (stack_row k cell) = refl
key-flat_row (placeholder_row k kind text) = refl
key-flat_row (collapsed_row k gap text) = refl
key-flat_row (note_row k card) = refl

is_selectable-flat_row : (row : ReviewRow) → is_selectable (flat_row row) ≡ is_selectable row
is_selectable-flat_row (compacted_row k) = refl
is_selectable-flat_row (header_row k text) = refl
is_selectable-flat_row (split_row k left right) = refl
is_selectable-flat_row (stack_row k cell) = refl
is_selectable-flat_row (placeholder_row k kind text) = refl
is_selectable-flat_row (collapsed_row k gap text) = refl
is_selectable-flat_row (note_row k card) = refl

cons_tail : {A : Type 0} {x y : A} {xs ys : List A} → x ∷ xs ≡ y ∷ ys → xs ≡ ys
cons_tail e = cc

module _ (file : DiffFile) (hunk_index : ℕ) where
  diff_row-line :
      (row : ReviewRow) (line : DiffLine)
      → flat_row row ≡ shown_row file hunk_index line
      → diff_row row ≡ shown_row file hunk_index line ∷ []
  diff_row-line row line e =
      let k : (key row).kind ≡ diff_line =
        ap ReviewRowKey.kind (sym (key-flat_row row) ∙ ap key e) in
      rw k (ap (◌∷ []) e)

  diff_rows-lines :
      (rows : List ReviewRow) (lines : List DiffLine)
      → map flat_row rows ≡ map (shown_row file hunk_index) lines
      → flat_map diff_row rows ≡ map (shown_row file hunk_index) lines
  unfolding flat_map
  diff_rows-lines [] [] e = refl
  diff_rows-lines [] (line ∷ lines) e = cc
  diff_rows-lines (row ∷ rows) [] e = cc
  diff_rows-lines (row ∷ rows) (line ∷ lines) e =
      ap₂ (λ (a b : List ReviewRow). a ++ b) (diff_row-line row line (cons_head e))
        (diff_rows-lines rows lines (cons_tail e))

  anchor-lines :
      (rows : List ReviewRow) (lines : List DiffLine)
      → map flat_row rows ≡ map (shown_row file hunk_index) lines
      → anchor_of (find_first is_selectable rows) ≡ first_key file hunk_index lines
  anchor-lines [] [] e = refl
  anchor-lines [] (line ∷ lines) e = cc
  anchor-lines (row ∷ rows) [] e = cc
  anchor-lines (row ∷ rows) (line ∷ lines) e =
      let s : is_selectable row ≡ true =
        sym (is_selectable-flat_row row) ∙ ap is_selectable (cons_head e) in
      rw s (ap (◌∷ []) (sym (key-flat_row row) ∙ ap key (cons_head e)))

no_diff_lines :
    (file : DiffFile) (layout : EffectiveLayout) (hunk_index : ℕ) (lines : List ContextLine)
    → flat_map diff_row (map (context_line_row file layout hunk_index) lines) ≡ []
unfolding flat_map
no_diff_lines file layout hunk_index [] = refl
no_diff_lines file split hunk_index (line ∷ rest) = no_diff_lines file split hunk_index rest
no_diff_lines file stack hunk_index (line ∷ rest) = no_diff_lines file stack hunk_index rest

gap_rows_lem :
    (file : DiffFile) (layout : EffectiveLayout) (context : Option FileContextState)
    (gap : Option CollapsedGap)
    → flat_map diff_row (gap_rows file layout context gap) ≡ []
unfolding flat_map append_gap_rows
gap_rows_lem file layout context none = refl
gap_rows_lem file layout context (some gap) = expanded _
  where
    expanded :
        (lines : Option (List ContextLine))
        → flat_map diff_row (expanded_rows file layout gap.key.hunk_index lines) ≡ []
    expanded none = refl
    expanded (some lines) = no_diff_lines file layout gap.key.hunk_index lines

header_rows_lem :
    (file : DiffFile) (shown : Bool) (hunk_index : ℕ) (header : Text) (rows : List ReviewRow)
    → (flat_map diff_row (header_rows file shown hunk_index header ++ rows)
        ≡ flat_map diff_row rows)
      × (find_first is_selectable (header_rows file shown hunk_index header ++ rows)
          ≡ find_first is_selectable rows)
unfolding flat_map
header_rows_lem file true hunk_index header rows = (refl, refl)
header_rows_lem file false hunk_index header rows = (refl, refl)

module _ (diff : Text → Text → List Change) (file : DiffFile) (headers : Bool)
    (context : Option FileContextState) where
  -- What the loop over the hunks gives.
  abbrev HunkRows : List CollapsedGap → ℕ → List Hunk → Type 0
  HunkRows found hunk_index hunks =
      (rows : List ReviewRow) × (anchors : List ReviewRowKey) × (hunk_rows diff file stack headers
          context found hunk_index hunks
        ≡ some (rows, anchors))
      × (flat_map diff_row rows ≡ rows_of_lines file hunk_index hunks)
      × (anchors ≡ first_keys file hunk_index hunks)

  hunk_rows_lem :
      (found : List CollapsedGap) (hunk_index : ℕ) (hunks : List Hunk)
      → IsDiff diff
      → HunkRows found hunk_index hunks
  unfolding hunk_rows flat_map
  hunk_rows_lem found hunk_index [] h = ([], [], refl, refl, refl)
  hunk_rows_lem found hunk_index (hunk ∷ rest) h =
      let (lines, p, e) = build_stack_rows-Shows diff file hunk_index hunk.lines h in
      let (later, anchors, q, f, g) = hunk_rows_lem found (suc hunk_index) rest h in
      let header = header_rows file headers hunk_index hunk.header in
      let gap = find_first (is_gap_before hunk_index) found in
      let before_rows = gap_rows file stack context gap in
      let (a, b) = header_rows_lem file headers hunk_index hunk.header lines in
      (
        before_rows ++ (header ++ lines) ++ later,
        anchor_of (find_first is_selectable (header ++ lines)) ++ anchors,
        rw (p, hunk_rows) (rw q refl),
        flat_map-append diff_row (before_rows ++ (header ++ lines)) later
            ∙ ap (◌++ flat_map diff_row later) (
                flat_map-append diff_row before_rows (header ++ lines)
                ∙ ap (◌++ flat_map diff_row (header ++ lines)) (gap_rows_lem file stack context gap)
                ∙ a
                ∙ diff_rows-lines file hunk_index lines hunk.lines e)
            ∙ ap (map (shown_row file hunk_index) hunk.lines ++◌) f,
        ap₂ (λ (x y : List ReviewRowKey). x ++ y)
            (ap anchor_of b ∙ anchor-lines file hunk_index lines hunk.lines e) g,
      )

  -- The stacked plan of a file is made without a panic. With the gaps and the headers left out, its
  -- rows are the lines of all hunks, each once and in order, apart from the emphasis within a line;
  -- and its anchors are the first lines of the hunks that have one, in order.
  pub build_row_plan_with_context-lines :
      IsDiff diff
      → (plan : RowPlan) × (build_row_plan_with_context diff file stack headers context ≡ some plan)
        × (flat_map diff_row plan.rows ≡ rows_of_lines file 0 file.hunks)
        × (plan.hunk_anchor_keys ≡ first_keys file 0 file.hunks)
  unfolding build_row_plan_with_context placeholder_plan flat_map
  build_row_plan_with_context-lines h = elim (Bool-cases (has_hunks file.hunks)) [
    | inr e ↦
        let none_left = no_hunks file.hunks e in
        (
          placeholder_plan file,
          rw e refl,
          ap (rows_of_lines file 0) (sym none_left),
          ap (first_keys file 0) (sym none_left),
        )
    | inl e ↦
        let found = collapsed_gaps context file in
        let (rows, anchors, q, f, g) = hunk_rows_lem found 0 file.hunks h in
        let last_gap = gap_rows file stack context (find_first is_trailing_gap found) in
        let plan : RowPlan = record {
          rows = rows ++ last_gap;
          hunk_anchor_keys = anchors;
          line_number_digits = max_line_number_digits file;
        } in
        (
          plan,
          rw e (rw q refl),
          flat_map-append diff_row rows last_gap
              ∙ ap (flat_map diff_row rows ++◌)
                  (gap_rows_lem file stack context (find_first is_trailing_gap found))
              ∙ append-nil (flat_map diff_row rows)
              ∙ f,
          g,
        )
  ]
    where
      no_hunks : (hunks : List Hunk) → has_hunks hunks ≡ false → hunks ≡ []
      no_hunks [] e = refl
      no_hunks (hunk ∷ rest) e = cc
