-- ===== src/Rows/Build/Split.antt =====
-- `build_split_rows` of src/review/row.rs shows the lines of a hunk side by side.
use mathlib.Core.Path.{ap₂}
use ramo.Rows.Emphasis.Kept.{IsDiff, emphasize_pair-Holds}
use ramo.Rows.Build.Segments.{
  flat, flat-cell_from_line_plain, flat-cell_from_line, IsChanged, IsSegment, changed-cases,
  segments_lem, segment_lines, spans_text-emphasized_text, of_kind-same, context-kind,
  of_kind-other, shown_cell, shown_cell_lem,
}
use ramo.Rows.Emphasis.{Change, spans_text, emphasize_pair}
use ramo.Prelude.Text.{Text}
use ramo.Rows.Build.{
  cell_from_line, sanitize_line, cell_kind, pair_rows, Segment, build_split_rows, pair_spans,
  emphasized_text, of_kind, split_segment, segments, block, context_line,
}
use ramo.Prelude.{
  Bool, false, List, none, ◌≡◌, true, if◌then◌else◌, keep, ◌++◌, ◌∷◌, [], not, ap, Bool-cases, ◌∙◌,
  ℕ, inl, sym, some, map, Each, inr, append_assoc, refl, subst, append-nil,
}
use mathlib.Core.List.{flat_map, map-append}
use ramo.Diff.{DiffLine, LineType, DiffFile, same_type, addition, context, deletion}
use ramo.Rows.{CellKind, ReviewCell, ReviewRow, ChangedSpan, split_row, empty_cell}

abbrev is_shown : CellKind → Bool
is_shown empty_cell = false
is_shown _ = true

-- The cells of a column, without their emphasis and without the empty ones.
abbrev pub column : ReviewCell → List ReviewCell
column cell = if is_shown cell.kind then flat cell ∷ [] else []

abbrev pub left_column : ReviewRow → List ReviewCell
left_column (split_row key left right) = column left
left_column row = []

abbrev pub right_column : ReviewRow → List ReviewCell
right_column (split_row key left right) = column right
right_column row = []

abbrev lone_cell : DiffLine → ReviewCell
lone_cell line = cell_from_line line none

-- The lines that stand on the old side, and on the new side.
abbrev pub without : LineType → List DiffLine → List DiffLine
without kind lines = keep (λ line. not (same_type line.kind kind)) lines

without_kept :
    (kind : LineType) (line : DiffLine) (rest : List DiffLine)
    → same_type line.kind kind ≡ false
    → without kind (line ∷ rest) ≡ line ∷ without kind rest
without_kept kind line rest e = rw e refl

without_lost :
    (kind : LineType) (line : DiffLine) (rest : List DiffLine)
    → same_type line.kind kind ≡ true
    → without kind (line ∷ rest) ≡ without kind rest
without_lost kind line rest e = rw e refl

pub flat_map-append :
    {A B : Type 0} (f : A → List B) (xs ys : List A)
    → flat_map f (xs ++ ys) ≡ flat_map f xs ++ flat_map f ys
unfolding flat_map
flat_map-append f [] ys = refl
flat_map-append f (x ∷ xs) ys =
    ap (f x ++◌) (flat_map-append f xs ys)
    ∙ sym (append_assoc (f x) (flat_map f xs) (flat_map f ys))

keep-append :
    {A : Type 0} (p : A → Bool) (xs ys : List A) → keep p (xs ++ ys) ≡ keep p xs ++ keep p ys
keep-append p [] ys = refl
keep-append p (x ∷ xs) ys = elim (Bool-cases (p x)) [
  | inl e ↦ rw e (ap (x ∷◌) (keep-append p xs ys))
  | inr e ↦ rw e (keep-append p xs ys)
]

-- The cell of a line stands in its column.
column-cell :
    (line : DiffLine) (spans : List ChangedSpan)
    → spans_text spans ≡ sanitize_line line.content
    → column (cell_from_line line (some spans)) ≡ lone_cell line ∷ []
unfolding cell_from_line
column-cell line spans e =
    by_kind line.kind (flat (cell_from_line line (some spans)))
    ∙ ap (◌∷ []) (flat-cell_from_line line spans e)
  where
    by_kind :
        (kind : LineType) (cell : ReviewCell)
        → (if is_shown (cell_kind kind) then cell ∷ [] else []) ≡ cell ∷ []
    by_kind context cell = refl
    by_kind addition cell = refl
    by_kind deletion cell = refl

column-lone : (line : DiffLine) → column (lone_cell line) ≡ lone_cell line ∷ []
unfolding cell_from_line
column-lone line =
    by_kind line.kind (flat (lone_cell line)) ∙ ap (◌∷ []) (flat-cell_from_line_plain line)
  where
    by_kind :
        (kind : LineType) (cell : ReviewCell)
        → (if is_shown (cell_kind kind) then cell ∷ [] else []) ≡ cell ∷ []
    by_kind context cell = refl
    by_kind addition cell = refl
    by_kind deletion cell = refl

module _ (diff : Text → Text → List Change) (file : DiffFile) (hunk_index : ℕ) where
  abbrev pairs : List DiffLine → List DiffLine → List ReviewRow
  pairs olds news = pair_rows file hunk_index (pair_spans diff olds news) olds news

  pairs_lem :
      (olds news : List DiffLine)
      → IsDiff diff
      → (flat_map left_column (pairs olds news) ≡ map lone_cell olds)
        × (flat_map right_column (pairs olds news) ≡ map lone_cell news)
  unfolding flat_map pair_rows pair_spans
  pairs_lem [] [] h = (refl, refl)
  pairs_lem (old ∷ olds) [] h =
      let (p, q) = pairs_lem olds [] h in
      let e =
        column-cell old (emphasized_text (sanitize_line old.content))
          (spans_text-emphasized_text (sanitize_line old.content)) in
      (ap₂ (λ (a b : List ReviewCell). a ++ b) e p, q)
  pairs_lem [] (new ∷ news) h =
      let (p, q) = pairs_lem [] news h in
      let e =
        column-cell new (emphasized_text (sanitize_line new.content))
          (spans_text-emphasized_text (sanitize_line new.content)) in
      (p, ap₂ (λ (a b : List ReviewCell). a ++ b) e q)
  pairs_lem (old ∷ olds) (new ∷ news) h =
      let (p, q) = pairs_lem olds news h in
      let both =
        emphasize_pair-Holds diff (sanitize_line old.content) (sanitize_line new.content) h in
      let spans = emphasize_pair diff (sanitize_line old.content) (sanitize_line new.content) in
      (
        ap₂ (λ (a b : List ReviewCell). a ++ b) (column-cell old spans.0 both.0.0) p,
        ap₂ (λ (a b : List ReviewCell). a ++ b) (column-cell new spans.1 both.1.0) q,
      )

  abbrev Split : List ReviewRow → List DiffLine → Type 0
  Split rows lines =
      (flat_map left_column rows ≡ map lone_cell (without addition lines))
      × (flat_map right_column rows ≡ map lone_cell (without deletion lines))

  without_block :
      (lines : List DiffLine)
      → Each IsChanged lines
      → (without addition lines ≡ of_kind deletion lines)
        × (without deletion lines ≡ of_kind addition lines)
  unfolding same_type
  without_block [] h = (refl, refl)
  without_block (line ∷ rest) (k, h) =
      let (p, q) = without_block rest h in
      elim (changed-cases line k) [
        | inl e ↦ (
          without_kept addition line rest (rw e refl)
              ∙ ap (line ∷◌) p
              ∙ sym (of_kind-same deletion line rest e),
          without_lost deletion line rest (rw e refl)
              ∙ q
              ∙ sym (of_kind-other addition line rest (rw e refl)),
        )
        | inr e ↦ (
          without_lost addition line rest (rw e refl)
              ∙ p
              ∙ sym (of_kind-other deletion line rest (rw e refl)),
          without_kept deletion line rest (rw e refl)
              ∙ ap (line ∷◌) q
              ∙ sym (of_kind-same addition line rest e),
        )
      ]

  segment-Split :
      (segment : Segment)
      → IsDiff diff
      → IsSegment segment
      → Split (split_segment diff file hunk_index segment) (segment_lines segment)
  unfolding same_type flat_map
  segment-Split (block lines) h k =
      let (p, q) = pairs_lem (of_kind deletion lines) (of_kind addition lines) h in
      let (a, b) = without_block lines k in
      (p ∙ ap (map lone_cell) (sym a), q ∙ ap (map lone_cell) (sym b))
  segment-Split (context_line line) h k =
      let c = context-kind line k in
      let a = without_kept addition line [] (rw c refl) in
      let b = without_kept deletion line [] (rw c refl) in
      let e = append-nil (column (lone_cell line)) ∙ column-lone line in
      (e ∙ ap (map lone_cell) (sym a), e ∙ ap (map lone_cell) (sym b))

  segments-Split :
      (found : List Segment)
      → IsDiff diff
      → Each IsSegment found
      → Split (flat_map (split_segment diff file hunk_index) found) (flat_map segment_lines found)
  unfolding flat_map
  segments-Split [] h k = (refl, refl)
  segments-Split (segment ∷ rest) h (k, c) =
      let (p, q) = segment-Split segment h k in
      let (p', q') = segments-Split rest h c in
      let rows = split_segment diff file hunk_index segment in
      let later = flat_map (split_segment diff file hunk_index) rest in
      (
        one left_column addition rows later (segment_lines segment) (flat_map segment_lines rest) p
            p',
        one right_column deletion rows later (segment_lines segment) (flat_map segment_lines rest) q
            q',
      )
    where
      one :
          (side : ReviewRow → List ReviewCell) (kind : LineType) (rows later : List ReviewRow)
          (a b : List DiffLine)
          → flat_map side rows ≡ map lone_cell (without kind a)
          → flat_map side later ≡ map lone_cell (without kind b)
          → flat_map side (rows ++ later) ≡ map lone_cell (without kind (a ++ b))
      one side kind rows later a b p q =
          flat_map-append side rows later
          ∙ ap₂ (λ (x y : List ReviewCell). x ++ y) p q
          ∙ sym (map-append lone_cell (without kind a) (without kind b))
          ∙ ap (map lone_cell) (sym (keep-append (λ line. not (same_type line.kind kind)) a b))

  -- Side by side, the left column shows the lines of the old side and the right column those of the
  -- new side, each once and in order: a cell has the kind and the sign of its line, both line
  -- numbers and the sanitized text, and only the emphasis within the text is left open.
  pub build_split_rows-columns :
      (lines : List DiffLine)
      → IsDiff diff
      → (flat_map left_column (build_split_rows diff file hunk_index lines)
          ≡ map shown_cell (without addition lines))
        × (flat_map right_column (build_split_rows diff file hunk_index lines)
            ≡ map shown_cell (without deletion lines))
  unfolding build_split_rows
  build_split_rows-columns lines h =
      let (e, k) = segments_lem lines in
      let (p, q) =
        subst (Split (flat_map (split_segment diff file hunk_index) (segments lines))) e
          (segments-Split (segments lines) h k) in
      (p ∙ spelled_out (without addition lines), q ∙ spelled_out (without deletion lines))
    where
      spelled_out : (shown : List DiffLine) → map lone_cell shown ≡ map shown_cell shown
      spelled_out [] = refl
      spelled_out (line ∷ rest) =
          ap₂ (λ (cell : ReviewCell) (more : List ReviewCell). cell ∷ more) (shown_cell_lem line)
            (spelled_out rest)
