-- ===== src/Notes.antt =====
-- The text of the notes between the rows (src/review/row.rs): wrapping it to a width, with the place
-- of the caret. The widths of the crate `unicode_width` are parameters: `char_width`, which is 0
-- where the crate has none, and `str_width`. Places are numbers of characters of the text, which
-- memory bounds, so that their sums do not wrap.
pub mod Fit
pub mod Target
mod Tests
use Prim.Native.Nat.{zero}
use ramo.Prelude.Machine.{sat_add}
use ramo.Prelude.{
  List, ℕ, ◌++◌, Bool, [], length, ◌∷◌, ltb, if◌then◌else◌, suc, take, true, max, map, Option, ◌+◌,
  some, ◌&&◌, ◌-◌, leb, false, none, zero, drop,
}
use ramo.Prelude.Str.{lines, trim_start}
use ramo.Prelude.Text.{Text, is_whitespace}

pub record WrappedLine : Type 0 where
  pub text : Text
  pub sources : List ℕ

-- The line that is being written, and the lines behind it.
pub record Wrapping : Type 0 where
  pub current : Text
  pub sources : List ℕ
  pub current_width : ℕ
  pub output : List WrappedLine

-- What a line of the source fixes: the width, its indentation, and where it starts in the text.
pub record Margin : Type 0 where
  pub width : ℕ
  pub indent : Text
  pub indent_width : ℕ
  pub line_origin : ℕ

abbrev pub repeated : ℕ → ℕ → List ℕ
repeated source zero = []
repeated source (suc n) = source ∷ repeated source n

abbrev pub fresh_line : Margin → List WrappedLine → Wrapping
fresh_line margin output = record {
  current = margin.indent;
  sources = repeated margin.line_origin (length margin.indent);
  current_width = margin.indent_width;
  output = output;
}

-- The line is pushed, and the next one starts with the indentation.
abbrev pub flush : Margin → Wrapping → Wrapping
flush margin w =
    fresh_line margin (w.output ++ record { text = w.current; sources = w.sources } ∷ [])

abbrev pub has_text : Margin → Wrapping → Bool
has_text margin w = ltb margin.indent_width w.current_width

-- In front of a word: a blank that stands for the whitespace at `source`, or a new line.
abbrev pub separate : Margin → ℕ → ℕ → Wrapping → Wrapping
separate margin word_width source w =
    if has_text margin w && leb (sat_add w.current_width (1 + word_width)) margin.width
    then record w {
      current = w.current ++ b' ' ∷ [];
      sources = w.sources ++ source ∷ [];
      current_width = w.current_width + 1;
    }
    else if has_text margin w
    then flush margin w
    else w

abbrev pub append_char : ℕ → ℕ → ℕ → Wrapping → Wrapping
append_char c width source w = record w {
  current = w.current ++ c ∷ [];
  sources = w.sources ++ source ∷ [];
  current_width = sat_add w.current_width width;
}

-- One character of a word, which breaks a word that is longer than the pane.
abbrev pub push_char : Margin → ℕ → ℕ → ℕ → Wrapping → Wrapping
push_char margin c width source w = append_char c width source (
    if has_text margin w && ltb margin.width (sat_add w.current_width width)
    then flush margin w
    else w)

-- The characters of a text up to the next whitespace.
unfoldable pub word_of : Text → Text
unfolding is_whitespace
word_of [] = []
word_of (c ∷ s) = let rest = word_of s in if is_whitespace c then [] else c ∷ rest

abbrev pub is_empty_line : Text → Bool
is_empty_line [] = true
is_empty_line (c ∷ s) = false

abbrev pub finish_line : Margin → Text → Wrapping → List WrappedLine
finish_line margin line w =
    if has_text margin w
    then w.output ++ record { text = w.current; sources = w.sources } ∷ []
    else if is_empty_line line
    then w.output ++ record { text = []; sources = [] } ∷ []
    else w.output

abbrev pub or_empty : List WrappedLine → List WrappedLine
or_empty [] = record { text = []; sources = [] } ∷ []
or_empty (line ∷ rest) = line ∷ rest

unfoldable pub position_at : ℕ → List ℕ → Option ℕ
position_at caret [] = none
position_at caret (source ∷ rest) =
    if leb caret source
    then some 0
    else elim (position_at caret rest) [ none ↦ none | some n ↦ some (suc n) ]

module _ (char_width : ℕ → ℕ) (str_width : Text → ℕ) where
  unfoldable pub push_word : Margin → ℕ → Text → Wrapping → Wrapping
  push_word margin source [] w = w
  push_word margin source (c ∷ word) w =
      push_word margin (suc source) word (push_char margin c (char_width c) source w)

  -- The loop over the words. Each round takes a character at least, so that the number of characters
  -- is enough fuel.
  unfoldable pub wrap_words : ℕ → Margin → ℕ → Text → Wrapping → Wrapping
  unfolding trim_start word_of push_word
  wrap_words zero margin cursor rest w = w
  wrap_words (suc fuel) margin cursor rest w = elim (trim_start rest) [
    | [] ↦ w
    | c ∷ s ↦
        (let word = word_of (c ∷ s) in
          let start = cursor + (length rest - length (c ∷ s)) in
          wrap_words fuel margin (start + length word) (drop (length word) (c ∷ s)) (
            push_word margin (margin.line_origin + start) word
              (separate margin (str_width word) (margin.line_origin + cursor) w)))
  ]

  abbrev pub indent_for : ℕ → Text → Text
  indent_for width indent = if leb (sat_add (str_width indent) 4) width then indent else []

  abbrev pub margin_of : ℕ → ℕ → Text → Margin
  margin_of width line_origin line =
      let indent = indent_for width (take (length line - length (trim_start line)) line) in
      record {
        width = width;
        indent = indent;
        indent_width = str_width indent;
        line_origin = line_origin;
      }

  unfoldable pub wrap_line : ℕ → ℕ → Text → List WrappedLine → List WrappedLine
  unfolding trim_start wrap_words
  wrap_line width line_origin line output =
      let margin = margin_of width line_origin line in
      let trimmed = trim_start line in
      finish_line margin line (
        wrap_words (length trimmed) margin (length line - length trimmed) trimmed
          (fresh_line margin output))

  unfoldable pub wrap_lines : ℕ → ℕ → List Text → List WrappedLine → List WrappedLine
  unfolding wrap_line
  wrap_lines width line_origin [] output = output
  wrap_lines width line_origin (line ∷ rest) output =
      wrap_lines width (line_origin + (length line + 1)) rest
        (wrap_line width line_origin line output)

  unfoldable pub wrap_note_text_indexed : Text → ℕ → List WrappedLine
  unfolding lines wrap_lines
  wrap_note_text_indexed text width = or_empty (wrap_lines (max width 1) 0 (lines text) [])

  unfoldable pub wrap_note_text : Text → ℕ → List Text
  unfolding wrap_note_text_indexed
  wrap_note_text text width =
      map (λ (line : WrappedLine). line.text) (wrap_note_text_indexed text width)

  unfoldable pub width_of : Text → ℕ
  width_of [] = 0
  width_of (c ∷ s) = char_width c + width_of s

  -- The last line, with its row.
  abbrev pub end_cell : ℕ → List WrappedLine → ℕ × ℕ
  end_cell row [] = (row, 0)
  end_cell row (line ∷ []) = (row, str_width line.text)
  end_cell row (line ∷ next ∷ rest) = end_cell (suc row) (next ∷ rest)

  unfoldable pub caret_row : ℕ → List WrappedLine → ℕ → Option (ℕ × ℕ)
  unfolding position_at width_of
  caret_row row [] caret = none
  caret_row row (line ∷ rest) caret = elim (position_at caret line.sources) [
    | some position ↦ some (row, width_of (take position line.text))
    | none ↦ caret_row (suc row) rest caret
  ]

  unfoldable pub caret_cell : List WrappedLine → ℕ → ℕ × ℕ
  unfolding caret_row
  caret_cell lines caret = elim (caret_row 0 lines caret) [
    | some cell ↦ cell
    | none ↦ end_cell 0 lines
  ]
