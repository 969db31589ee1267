-- ===== src/Rows/Build/Segments.antt =====
-- The blocks that src/review/row.rs reads from the lines of a hunk, and their spans.
use Prim.Native.Nat.{zero}
use ramo.Rows.Emphasis.Kept.{IsDiff, emphasize_pair-Holds}
use ramo.Rows.Emphasis.{spans_text, Change}
use ramo.Prelude.{
  List, Each, ◌≡◌, ◌∷◌, append-nil, none, [], Bool-cases, false, true, ℕ, inl, refl, some, ap, drop,
  inr, ◌∙◌, get_elem?, suc, sym, zero, ◌⊎◌,
}
use mathlib.Core.List.{flat_map}
use ramo.Diff.{DiffLine, same_type, context, deletion, addition, LineType}
use ramo.Rows.Build.{
  cell_from_line, Segment, segments, plain_text, cell_text, context_line, emphasized_text,
  into_block, pair_spans, sanitize_line, block, of_kind, cell_kind, sign_of,
}
use ramo.Prelude.Text.{Text}
use ramo.Rows.{ReviewCell, ChangedSpan, CellKind, context_cell, addition_cell, deletion_cell}

-- A cell without its emphasis.
abbrev pub flat : ReviewCell → ReviewCell
flat cell = record cell { spans = plain_text (cell_text cell) }

spans_text-plain_text : (text : Text) → spans_text (plain_text text) ≡ text
spans_text-plain_text [] = refl
spans_text-plain_text (c ∷ s) = append-nil (c ∷ s)

pub spans_text-emphasized_text : (text : Text) → spans_text (emphasized_text text) ≡ text
spans_text-emphasized_text [] = refl
spans_text-emphasized_text (c ∷ s) = append-nil (c ∷ s)

pub flat-cell_from_line :
    (line : DiffLine) (spans : List ChangedSpan)
    → spans_text spans ≡ sanitize_line line.content
    → flat (cell_from_line line (some spans)) ≡ cell_from_line line none
unfolding cell_from_line cell_text
flat-cell_from_line line spans e = rw e refl

pub flat-cell_from_line_plain :
    (line : DiffLine) → flat (cell_from_line line none) ≡ cell_from_line line none
unfolding cell_from_line cell_text
flat-cell_from_line_plain line = rw (spans_text-plain_text (sanitize_line line.content)) refl

-- What is shown of a line: its mark, both numbers, and its text without escape sequences and tabs.
abbrev pub shown_spans : Text → List ChangedSpan
shown_spans [] = []
shown_spans (c ∷ text) = record { text = c ∷ text; emphasized = false } ∷ []

abbrev pub shown_as : CellKind → ℕ → DiffLine → ReviewCell
shown_as kind sign line = record {
  kind = kind;
  sign = sign;
  old_line = line.old_lineno;
  new_line = line.new_lineno;
  moved = line.moved;
  spans = shown_spans (sanitize_line line.content);
}

abbrev pub shown_cell : DiffLine → ReviewCell
shown_cell line = elim line.kind [
  | context ↦ shown_as context_cell b' ' line
  | addition ↦ shown_as addition_cell b'+' line
  | deletion ↦ shown_as deletion_cell b'-' line
]

pub shown_cell_lem : (line : DiffLine) → cell_from_line line none ≡ shown_cell line
unfolding cell_from_line
shown_cell_lem line = by_kind line.kind (sanitize_line line.content)
  where
    spans_of : (text : Text) → plain_text text ≡ shown_spans text
    spans_of [] = refl
    spans_of (c ∷ text) = refl

    cell_with : LineType → List ChangedSpan → ReviewCell
    cell_with kind spans = record {
      kind = cell_kind kind;
      sign = sign_of (cell_kind kind);
      old_line = line.old_lineno;
      new_line = line.new_lineno;
      moved = line.moved;
      spans = spans;
    }

    by_kind :
        (kind : LineType) (text : Text)
        → cell_with kind (plain_text text) ≡ (elim kind [
          | context ↦ record (shown_as context_cell b' ' line) { spans = shown_spans text }
          | addition ↦ record (shown_as addition_cell b'+' line) { spans = shown_spans text }
          | deletion ↦ record (shown_as deletion_cell b'-' line) { spans = shown_spans text }
        ])
    by_kind context text = ap (cell_with context) (spans_of text)
    by_kind addition text = ap (cell_with addition) (spans_of text)
    by_kind deletion text = ap (cell_with deletion) (spans_of text)

-- The lines that a segment was read from, and what is known of their kinds.
abbrev pub segment_lines : Segment → List DiffLine
segment_lines (context_line line) = line ∷ []
segment_lines (block lines) = lines

abbrev pub IsChanged : DiffLine → Type 0
IsChanged line = same_type line.kind context ≡ false

abbrev pub IsSegment : Segment → Type 0
IsSegment (context_line line) = same_type line.kind context ≡ true
IsSegment (block lines) = Each IsChanged lines

-- A line of a block is a deletion or an addition.
pub changed-cases :
    (line : DiffLine) → IsChanged line → (line.kind ≡ deletion) ⊎ (line.kind ≡ addition)
unfolding same_type
changed-cases line h = of_kind_cases line.kind h
  where
    of_kind_cases :
        (kind : LineType) → same_type kind context ≡ false → (kind ≡ deletion) ⊎ (kind ≡ addition)
    of_kind_cases context h = absurd (cc h)
    of_kind_cases deletion h = inl refl
    of_kind_cases addition h = inr refl

pub context-kind : (line : DiffLine) → same_type line.kind context ≡ true → line.kind ≡ context
unfolding same_type
context-kind line h = of_kind_context line.kind h
  where
    of_kind_context : (kind : LineType) → same_type kind context ≡ true → kind ≡ context
    of_kind_context context h = refl
    of_kind_context deletion h = cc
    of_kind_context addition h = cc

same_type_refl : (kind : LineType) → same_type kind kind ≡ true
unfolding same_type
same_type_refl context = refl
same_type_refl addition = refl
same_type_refl deletion = refl

pub of_kind-same :
    (kind : LineType) (line : DiffLine) (rest : List DiffLine)
    → line.kind ≡ kind
    → of_kind kind (line ∷ rest) ≡ line ∷ of_kind kind rest
of_kind-same kind line rest e =
    let f : same_type line.kind kind ≡ true = rw e (same_type_refl kind) in rw f refl

pub of_kind-other :
    (kind : LineType) (line : DiffLine) (rest : List DiffLine)
    → same_type line.kind kind ≡ false
    → of_kind kind (line ∷ rest) ≡ of_kind kind rest
of_kind-other kind line rest f = rw f refl

into_block_lem :
    (line : DiffLine) (found : List Segment)
    → IsChanged line
    → Each IsSegment found
    → (flat_map segment_lines (into_block line found) ≡ line ∷ flat_map segment_lines found)
      × Each IsSegment (into_block line found)
unfolding flat_map
into_block_lem line [] h k = (refl, ((h, tt), tt))
into_block_lem line (context_line other ∷ rest) h k = (refl, ((h, tt), k))
into_block_lem line (block lines ∷ rest) h k = (refl, ((h, k.0), k.1))

-- The segments are the lines in order, and a block holds changed lines only.
pub segments_lem :
    (lines : List DiffLine)
    → (flat_map segment_lines (segments lines) ≡ lines) × Each IsSegment (segments lines)
unfolding segments flat_map
segments_lem [] = (refl, tt)
segments_lem (line ∷ rest) =
    let (e, k) = segments_lem rest in
    elim (Bool-cases (same_type line.kind context)) [
      | inl f ↦ rw (f, segments) (ap (line ∷◌) e, (f, k))
      | inr f ↦
          let (p, q) = into_block_lem line (segments rest) f k in
          rw (f, segments) (p ∙ ap (line ∷◌) e, q)
    ]

pub cons_head : {A : Type 0} {x y : A} {xs ys : List A} → x ∷ xs ≡ y ∷ ys → x ≡ y
cons_head e = cc

module _ (diff : Text → Text → List Change) where
  -- The spans of a pair hold the old line and the new one.
  pub pair_spans-old :
      (olds news : List DiffLine) (index : ℕ) (line : DiffLine) (rest : List DiffLine)
      → IsDiff diff
      → drop index olds ≡ line ∷ rest
      → (spans : List ChangedSpan × List ChangedSpan) × (get_elem? (pair_spans diff olds news) index
          ≡ some spans)
        × (spans_text spans.0 ≡ sanitize_line line.content)
  unfolding pair_spans
  pair_spans-old [] news zero line rest h e = cc
  pair_spans-old [] news (suc index) line rest h e = cc
  pair_spans-old (old ∷ olds) [] zero line rest h e =
      rw (sym (cons_head e)) (_, refl, spans_text-emphasized_text (sanitize_line old.content))
  pair_spans-old (old ∷ olds) (new ∷ news) zero line rest h e = rw (sym (cons_head e)) (
    _,
    refl,
    (emphasize_pair-Holds diff (sanitize_line old.content) (sanitize_line new.content) h).0.0,
  )
  pair_spans-old (old ∷ olds) [] (suc index) line rest h e =
      pair_spans-old olds [] index line rest h e
  pair_spans-old (old ∷ olds) (new ∷ news) (suc index) line rest h e =
      pair_spans-old olds news index line rest h e

  pub pair_spans-new :
      (olds news : List DiffLine) (index : ℕ) (line : DiffLine) (rest : List DiffLine)
      → IsDiff diff
      → drop index news ≡ line ∷ rest
      → (spans : List ChangedSpan × List ChangedSpan) × (get_elem? (pair_spans diff olds news) index
          ≡ some spans)
        × (spans_text spans.1 ≡ sanitize_line line.content)
  unfolding pair_spans
  pair_spans-new olds [] zero line rest h e = cc
  pair_spans-new olds [] (suc index) line rest h e = cc
  pair_spans-new [] (new ∷ news) zero line rest h e =
      rw (sym (cons_head e)) (_, refl, spans_text-emphasized_text (sanitize_line new.content))
  pair_spans-new (old ∷ olds) (new ∷ news) zero line rest h e = rw (sym (cons_head e)) (
    _,
    refl,
    (emphasize_pair-Holds diff (sanitize_line old.content) (sanitize_line new.content) h).1.0,
  )
  pair_spans-new [] (new ∷ news) (suc index) line rest h e =
      pair_spans-new [] news index line rest h e
  pair_spans-new (old ∷ olds) (new ∷ news) (suc index) line rest h e =
      pair_spans-new olds news index line rest h e
