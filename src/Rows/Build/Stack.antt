-- ===== src/Rows/Build/Stack.antt =====
-- `build_stack_rows` of src/review/row.rs shows the lines of a hunk.
use mathlib.Core.Path.{ap₂}
use mathlib.Core.List.{[], flat_map, map-append}
use Prim.Native.Nat.{zero}
use ramo.Rows.Emphasis.Kept.{IsDiff}
use ramo.Rows.Build.{
  stack_block, Segment, stack_segments, build_stack_rows, next_spans, stack_segment, push_stack_row,
  sanitize_line, of_kind, context_line, row_key, pair_spans, segments, block,
}
use ramo.Diff.{DiffFile, DiffLine, deletion, addition, same_type}
use ramo.Rows.Emphasis.{Change, spans_text}
use ramo.Rows.Build.Segments.{
  flat, IsSegment, IsChanged, segment_lines, segments_lem, changed-cases, flat-cell_from_line,
  flat-cell_from_line_plain, pair_spans-old, pair_spans-new, of_kind-same, of_kind-other,
  shown_cell, shown_cell_lem,
}
use ramo.Prelude.Text.{Text}
use ramo.Prelude.{
  ℕ, List, drop, ◌≡◌, ◌∷◌, Option, suc, some, Each, zero, map, [], none, ap, subst, inl, refl, inr,
  ◌++◌, ◌∙◌, sym,
}
use ramo.Rows.{ReviewRow, stack_row, ChangedSpan, diff_line, ReviewRowKey}

-- A row without its emphasis.
abbrev pub flat_row : ReviewRow → ReviewRow
flat_row (stack_row key cell) = stack_row key (flat cell)
flat_row row = row

-- The key of the row of a line, and the row.
abbrev pub line_key : DiffFile → ℕ → DiffLine → ReviewRowKey
line_key file hunk_index line = record {
  file_id = file.id;
  hunk_index = some hunk_index;
  kind = diff_line;
  old_line = line.old_lineno;
  new_line = line.new_lineno;
  note_id = none;
}

abbrev pub shown_row : DiffFile → ℕ → DiffLine → ReviewRow
shown_row file hunk_index line = stack_row (line_key file hunk_index line) (shown_cell line)

drop-suc_tail :
    {A : Type 0} (n : ℕ) (xs : List A) {x : A} {rest : List A}
    → drop n xs ≡ x ∷ rest
    → drop (suc n) xs ≡ rest
drop-suc_tail zero [] e = cc
drop-suc_tail zero (x ∷ xs) e = cc
drop-suc_tail (suc n) [] e = cc
drop-suc_tail (suc n) (x ∷ xs) e = drop-suc_tail n xs e

module _ (diff : Text → Text → List Change) (file : DiffFile) (hunk_index : ℕ) where
  abbrev Shows : Option (List ReviewRow) → List DiffLine → Type 0
  Shows built lines =
      (rows : List ReviewRow) × (built ≡ some rows)
      × (map flat_row rows ≡ map (λ line. push_stack_row file hunk_index line none) lines)

  -- One line of a block, when its spans are found.
  cons-Shows :
      (emphasized : List (List ChangedSpan × List ChangedSpan)) (d a d' a' : ℕ)
      (spans : List ChangedSpan) (line : DiffLine) (rest : List DiffLine)
      → next_spans line.kind emphasized d a ≡ some (spans, d', a')
      → spans_text spans ≡ sanitize_line line.content
      → Shows (stack_block file hunk_index emphasized d' a' rest) rest
      → Shows (stack_block file hunk_index emphasized d a (line ∷ rest)) (line ∷ rest)
  unfolding stack_block
  cons-Shows emphasized d a d' a' spans line rest p t (rows, q, f) = (
    push_stack_row file hunk_index line (some spans) ∷ rows,
    rw (p, stack_block) (rw q refl),
    ap₂ (λ (row : ReviewRow) (more : List ReviewRow). row ∷ more)
        (ap (stack_row (row_key file (some hunk_index) diff_line line.old_lineno line.new_lineno))
          (flat-cell_from_line line spans t))
        f,
  )

  stack_block-Shows :
      (olds news : List DiffLine) (d a : ℕ) (lines : List DiffLine)
      → IsDiff diff
      → Each IsChanged lines
      → drop d olds ≡ of_kind deletion lines
      → drop a news ≡ of_kind addition lines
      → Shows (stack_block file hunk_index (pair_spans diff olds news) d a lines) lines
  unfolding stack_block same_type
  stack_block-Shows olds news d a [] h c p q = ([], refl, refl)
  stack_block-Shows olds news d a (line ∷ rest) h (k, c) p q = elim (changed-cases line k) [
    | inl e ↦
        let p' = p ∙ of_kind-same deletion line rest e in
        let q' = q ∙ of_kind-other addition line rest (rw e refl) in
        let (spans, f, t) = pair_spans-old diff olds news d line (of_kind deletion rest) h p' in
        cons-Shows (pair_spans diff olds news) d a (suc d) a spans.0 line rest (rw e (rw f refl)) t
          (stack_block-Shows olds news (suc d) a rest h c (drop-suc_tail d olds p') q')
    | inr e ↦
        let p' = p ∙ of_kind-other deletion line rest (rw e refl) in
        let q' = q ∙ of_kind-same addition line rest e in
        let (spans, f, t) = pair_spans-new diff olds news a line (of_kind addition rest) h q' in
        cons-Shows (pair_spans diff olds news) d a d (suc a) spans.1 line rest (rw e (rw f refl)) t
          (stack_block-Shows olds news d (suc a) rest h c p' (drop-suc_tail a news q'))
  ]

  stack_segment-Shows :
      (segment : Segment)
      → IsDiff diff
      → IsSegment segment
      → Shows (stack_segment diff file hunk_index segment) (segment_lines segment)
  stack_segment-Shows (context_line line) h k = (
    push_stack_row file hunk_index line none ∷ [],
    refl,
    ap
        (λ cell.
          stack_row (row_key file (some hunk_index) diff_line line.old_lineno line.new_lineno) cell
          ∷ [])
        (flat-cell_from_line_plain line),
  )
  stack_segment-Shows (block lines) h k =
      stack_block-Shows (of_kind deletion lines) (of_kind addition lines) 0 0 lines h k refl refl

  stack_segments-Shows :
      (found : List Segment)
      → IsDiff diff
      → Each IsSegment found
      → Shows (stack_segments diff file hunk_index found) (flat_map segment_lines found)
  unfolding stack_segments flat_map
  stack_segments-Shows [] h k = ([], refl, refl)
  stack_segments-Shows (segment ∷ rest) h (k, c) =
      let (rows, p, f) = stack_segment-Shows segment h k in
      let (later, q, g) = stack_segments-Shows rest h c in
      (
        rows ++ later,
        rw (p, stack_segments) (rw q refl),
        map-append flat_row rows later
            ∙ ap₂ (λ (a b : List ReviewRow). a ++ b) f g
            ∙ sym (
                map-append (λ line. push_stack_row file hunk_index line none)
                  (segment_lines segment) (flat_map segment_lines rest)),
      )

  -- The stacked rows of a hunk are built without a panic: no index is out of range. There is one
  -- row for each line, in the order of the lines: its key has the file, the hunk and both line
  -- numbers, its cell has the kind and the sign of the line, both numbers and the sanitized text, and
  -- only the emphasis within the text is left open.
  pub build_stack_rows-Shows :
      (lines : List DiffLine)
      → IsDiff diff
      → (rows : List ReviewRow) × (build_stack_rows diff file hunk_index lines ≡ some rows)
        × (map flat_row rows ≡ map (shown_row file hunk_index) lines)
  unfolding build_stack_rows
  build_stack_rows-Shows lines h =
      let (e, k) = segments_lem lines in
      let (rows, p, q) =
        subst (λ shown. Shows (stack_segments diff file hunk_index (segments lines)) shown) e
          (stack_segments-Shows (segments lines) h k) in
      (rows, p, q ∙ spelled_out lines)
    where
      spelled_out :
          (lines : List DiffLine)
          → map (λ line. push_stack_row file hunk_index line none) lines
            ≡ map (shown_row file hunk_index) lines
      spelled_out [] = refl
      spelled_out (line ∷ rest) =
          ap₂ (λ (row : ReviewRow) (more : List ReviewRow). row ∷ more)
            (ap (stack_row (line_key file hunk_index line)) (shown_cell_lem line))
            (spelled_out rest)
