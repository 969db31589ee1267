-- ===== src/Notes/Fit.antt =====
-- The lines that src/review/row.rs wraps a text to.
use ramo.Prelude.Str.{trim_start, lines}
use mathlib.Core.Bool.{false}
use ramo.Prelude.Machine.{usize_max, sat_add}
use Prim.Native.Nat.{zero}
use ramo.Notes.{
  WrappedLine, Margin, width_of, Wrapping, repeated, flush, separate, push_char, fresh_line,
  append_char, has_text, push_word, wrap_words, word_of, margin_of, wrap_line, wrap_lines,
  wrap_note_text_indexed, indent_for, finish_line, or_empty, is_empty_line,
}
use ramo.Prelude.Text.{Text}
use ramo.Prelude.{
  ℕ, ◌≤◌, length, ◌≡◌, ◌++◌, List, [], ◌+◌, Each, arith, suc, ◌<◌, ◌∷◌, Bool, zero, sym,
  Each-append, length-append, Bool-cases, refl, append-nil, ap, ◌&&◌, ◌∙◌, leb, ltb, append_assoc,
  true, inl, leb→le, inr, ◌⊎◌, ◌-◌, drop, take, max,
}

-- What the widths of the crate promise here: a character takes two columns at most, a blank takes
-- one, and no text takes none.
abbrev pub AreWidths : (ℕ → ℕ) → (Text → ℕ) → Type 0
AreWidths char_width str_width =
    ((c : ℕ) → char_width c ≤ 2) × (char_width b' ' ≡ 1) × (str_width [] ≡ 0)

Text-cases : (s : Text) → (s ≡ []) ⊎ ((c : ℕ) × (rest : Text) × (s ≡ c ∷ rest))
Text-cases [] = inl refl
Text-cases (c ∷ s) = inr (c, s, refl)

module _ (char_width : ℕ → ℕ) (str_width : Text → ℕ) where
  -- Every character of the line has a source, and the line is an indentation and a body that
  -- together take no more than the width.
  abbrev pub Fits : ℕ → WrappedLine → Type 0
  Fits width line =
      (length line.sources ≡ length line.text)
      × ((indent : Text) × (body : Text) × (line.text ≡ indent ++ body)
          × (str_width indent + width_of char_width str_width body ≤ width))

  abbrev HasRoom : Margin → Type 0
  HasRoom margin =
      (margin.indent_width ≡ str_width margin.indent)
      × (margin.indent_width + 2 ≤ margin.width)
      × (margin.width < usize_max)

  abbrev Inv : Margin → Wrapping → Type 0
  Inv margin w =
      (length w.sources ≡ length w.current)
      × ((body : Text) × (w.current ≡ margin.indent ++ body)
          × (w.current_width ≡ margin.indent_width + width_of char_width str_width body))
      × (w.current_width ≤ margin.width)
      × Each (Fits margin.width) w.output

  width_of-append :
      (s t : Text)
      → width_of char_width str_width (s ++ t)
        ≡ width_of char_width str_width s + width_of char_width str_width t
  unfolding width_of
  width_of-append [] t = omega arith
  width_of-append (c ∷ s) t = omega (arith, width_of-append s t)

  length-repeated : (source n : ℕ) → length (repeated source n) ≡ n
  length-repeated source zero = refl
  length-repeated source (suc n) = omega (arith, length-repeated source n)

  fresh_line-Inv :
      (margin : Margin) (output : List WrappedLine)
      → HasRoom margin
      → Each (Fits margin.width) output
      → Inv margin (fresh_line margin output)
  unfolding width_of
  fresh_line-Inv margin output (e, room, small) h = (
    length-repeated margin.line_origin (length margin.indent),
    ([], sym (append-nil margin.indent), omega arith),
    omega (arith, room),
    h,
  )

  -- The line that is being written fits.
  current-Fits :
      (margin : Margin) (w : Wrapping)
      → HasRoom margin
      → Inv margin w
      → Fits margin.width (record { text = w.current; sources = w.sources })
  current-Fits margin w (e, room, small) (same, (body, p, q), l, h) =
      (same, (margin.indent, body, p, omega (arith, e, q, l)))

  flush-Inv :
      (margin : Margin) (w : Wrapping) → HasRoom margin → Inv margin w → Inv margin (flush margin w)
  flush-Inv margin w r h =
      fresh_line-Inv margin (w.output ++ record { text = w.current; sources = w.sources } ∷ []) r (
        Each-append (Fits margin.width) w.output
          (record { text = w.current; sources = w.sources } ∷ []) h.3
          (current-Fits margin w r h, tt))

  -- A character is put behind the line, if there is room for it.
  put-Inv :
      (margin : Margin) (c wide source : ℕ) (w : Wrapping)
      → wide ≡ w.current_width + char_width c
      → wide ≤ margin.width
      → Inv margin w
      → Inv margin (record w {
        current = w.current ++ c ∷ [];
        sources = w.sources ++ source ∷ [];
        current_width = wide;
      })
  unfolding width_of
  put-Inv margin c wide source w e l (same, (body, p, q), m, h) = (
    omega (arith, same, length-append w.sources (source ∷ []), length-append w.current (c ∷ [])),
    (
      body ++ c ∷ [],
      ap (◌++ c ∷ []) p ∙ append_assoc margin.indent body (c ∷ []),
      omega (arith, e, q, width_of-append body (c ∷ [])),
    ),
    l,
    h,
  )

  separate-Inv :
      (margin : Margin) (word_width source : ℕ) (w : Wrapping)
      → AreWidths char_width str_width
      → HasRoom margin
      → Inv margin w
      → Inv margin (separate margin word_width source w)
  separate-Inv margin word_width source w (small, blank, none_wide) r h =
      elim (Bool-cases
        (has_text margin w && leb (sat_add w.current_width (1 + word_width)) margin.width)) [
          | inl e ↦ rw e (
              put-Inv margin b' ' (w.current_width + 1) source w (omega (arith, blank))
                (room _ _ _ _ (r.2) (h.2) e) h)
          | inr e ↦ elim (Bool-cases (has_text margin w)) [
            | inl f ↦ rw (e, f) (flush-Inv margin w r h)
            | inr f ↦ rw (e, f) h
          ]
        ]
    where
      room :
          (text : Bool) (current word width : ℕ)
          → width < usize_max
          → current ≤ width
          → (text && leb (sat_add current (1 + word)) width) ≡ true
          → current + 1 ≤ width
      room true current word width l m e =
          omega (arith, leb→le (sat_add current (1 + word)) width e)
      room false current word width l m e = cc

  append_char-Inv :
      (margin : Margin) (c source : ℕ) (w : Wrapping)
      → HasRoom margin
      → w.current_width + char_width c ≤ margin.width
      → Inv margin w
      → Inv margin (append_char c (char_width c) source w)
  append_char-Inv margin c source w (e, room, small) l h =
      put-Inv margin c (sat_add w.current_width (char_width c)) source w (omega (arith, l, small))
        (omega (arith, l)) h

  push_char-Inv :
      (margin : Margin) (c source : ℕ) (w : Wrapping)
      → AreWidths char_width str_width
      → HasRoom margin
      → Inv margin w
      → Inv margin (push_char margin c (char_width c) source w)
  push_char-Inv margin c source w (narrow, blank, none_wide) r h =
      elim (Bool-cases
        (has_text margin w && ltb margin.width (sat_add w.current_width (char_width c)))) [
          | inl e ↦ rw e (
              append_char-Inv margin c source (flush margin w) r (omega (arith, narrow c, r.1))
                (flush-Inv margin w r h))
          | inr e ↦ rw e (
              append_char-Inv margin c source w r (room (char_width c) margin w (narrow c) r h e) h)
        ]
    where
      inside :
          (indent current width wide : ℕ)
          → wide ≤ 2
          → indent + 2 ≤ width
          → width < usize_max
          → current ≤ width
          → (ltb indent current && ltb width (sat_add current wide)) ≡ false
          → current + wide ≤ width
      inside indent current width wide l r small m e = ground arith

      room :
          (wide : ℕ) (margin : Margin) (w : Wrapping)
          → wide ≤ 2
          → HasRoom margin
          → Inv margin w
          → (has_text margin w && ltb margin.width (sat_add w.current_width wide)) ≡ false
          → w.current_width + wide ≤ margin.width
      room wide margin w l (_, r, small) (_, _, m, _) e =
          inside margin.indent_width w.current_width margin.width wide l r small m e

  push_word-Inv :
      (margin : Margin) (source : ℕ) (word : Text) (w : Wrapping)
      → AreWidths char_width str_width
      → HasRoom margin
      → Inv margin w
      → Inv margin (push_word char_width str_width margin source word w)
  unfolding push_word
  push_word-Inv margin source [] w a r h = h
  push_word-Inv margin source (c ∷ word) w a r h =
      push_word-Inv margin (suc source) word (push_char margin c (char_width c) source w) a r
        (push_char-Inv margin c source w a r h)

  wrap_words-Inv :
      (fuel : ℕ) (margin : Margin) (cursor : ℕ) (rest : Text) (w : Wrapping)
      → AreWidths char_width str_width
      → HasRoom margin
      → Inv margin w
      → Inv margin (wrap_words char_width str_width fuel margin cursor rest w)
  unfolding wrap_words
  wrap_words-Inv zero margin cursor rest w a r h = h
  wrap_words-Inv (suc fuel) margin cursor rest w a r h = elim (Text-cases (trim_start rest)) [
    | inl e ↦ rw (e, wrap_words) h
    | inr (c, s, e) ↦
        let word = word_of (c ∷ s) in
        let start = cursor + (length rest - length (c ∷ s)) in
        rw (e, wrap_words)
          (wrap_words-Inv fuel margin (start + length word) (drop (length word) (c ∷ s)) _ a r (
            push_word-Inv margin (margin.line_origin + start) word
              (separate margin (str_width word) (margin.line_origin + cursor) w) a r
              (separate-Inv margin (str_width word) (margin.line_origin + cursor) w a r h)))
  ]

  -- A pane of two columns at least has room behind the indentation of each line.
  margin_of-HasRoom :
      (width line_origin : ℕ) (line : Text)
      → AreWidths char_width str_width
      → 2 ≤ width
      → width < usize_max
      → HasRoom (margin_of char_width str_width width line_origin line)
  unfolding trim_start
  margin_of-HasRoom width line_origin line (narrow, blank, none_wide) l m =
      (refl, room (take (length line - length (trim_start line)) line), m)
    where
      room : (indent : Text) → str_width (indent_for char_width str_width width indent) + 2 ≤ width
      room indent = elim (Bool-cases (leb (sat_add (str_width indent) 4) width)) [
        | inl e ↦ rw e (omega (arith, leb→le (sat_add (str_width indent) 4) width e))
        | inr e ↦ rw e (omega (arith, none_wide))
      ]

  blank_fits :
      (width : ℕ)
      → AreWidths char_width str_width
      → 2 ≤ width
      → str_width [] + width_of char_width str_width [] ≤ width
  unfolding width_of
  blank_fits width (narrow, blank, none_wide) l = omega (arith, none_wide, l)

  wrap_line-Fits :
      (width line_origin : ℕ) (line : Text) (output : List WrappedLine)
      → AreWidths char_width str_width
      → 2 ≤ width
      → width < usize_max
      → Each (Fits width) output
      → Each (Fits width) (wrap_line char_width str_width width line_origin line output)
  unfolding wrap_line
  wrap_line-Fits width line_origin line output a l m h =
      let margin = margin_of char_width str_width width line_origin line in
      let r = margin_of-HasRoom width line_origin line a l m in
      let trimmed = trim_start line in
      let w =
        wrap_words char_width str_width (length trimmed) margin (length line - length trimmed)
          trimmed (fresh_line margin output) in
      let k =
        wrap_words-Inv (length trimmed) margin (length line - length trimmed) trimmed
          (fresh_line margin output) a r (fresh_line-Inv margin output r h) in
      finish margin r w k
    where
      finish :
          (margin : Margin)
          → HasRoom margin
          → (w : Wrapping) → Inv margin w
          → Each (Fits margin.width) (finish_line margin line w)
      finish margin r w k = elim (Bool-cases (has_text margin w)) [
        | inl e ↦ rw e (
            Each-append (Fits margin.width) w.output
              (record { text = w.current; sources = w.sources } ∷ []) k.3
              (current-Fits margin w r k, tt))
        | inr e ↦ elim (Bool-cases (is_empty_line line)) [
          | inl f ↦
              rw (e, f)
                (Each-append (Fits margin.width) w.output (record { text = []; sources = [] } ∷ [])
                  k.3 ((refl, ([], [], refl, blank_fits margin.width a (omega (arith, r.1)))), tt))
          | inr f ↦ rw (e, f) k.3
        ]
      ]

  wrap_lines-Fits :
      (width line_origin : ℕ) (lines : List Text) (output : List WrappedLine)
      → AreWidths char_width str_width
      → 2 ≤ width
      → width < usize_max
      → Each (Fits width) output
      → Each (Fits width) (wrap_lines char_width str_width width line_origin lines output)
  unfolding wrap_lines
  wrap_lines-Fits width line_origin [] output a l m h = h
  wrap_lines-Fits width line_origin (line ∷ rest) output a l m h =
      wrap_lines-Fits width (line_origin + (length line + 1)) rest _ a l m
        (wrap_line-Fits width line_origin line output a l m h)

  -- On a pane of two columns at least, with fewer columns than `usize` counts, every line of a
  -- wrapped text is an indentation and a body that together take no more than the width, and each of
  -- its characters has a source. A text is wrapped to one line at least.
  pub wrap_note_text_indexed-Fits :
      (text : Text) (width : ℕ)
      → AreWidths char_width str_width
      → 2 ≤ width
      → width < usize_max
      → Each (Fits width) (wrap_note_text_indexed char_width str_width text width)
        × (1 ≤ length (wrap_note_text_indexed char_width str_width text width))
  unfolding wrap_note_text_indexed
  wrap_note_text_indexed-Fits text width a l m =
      let w : max width 1 ≡ width = omega (arith, l) in
      rw w (
        whole (wrap_lines char_width str_width width 0 (lines text) [])
          (wrap_lines-Fits width 0 (lines text) [] a l m tt))
    where
      whole :
          (found : List WrappedLine)
          → Each (Fits width) found
          → Each (Fits width) (or_empty found) × (1 ≤ length (or_empty found))
      whole [] h = (((refl, ([], [], refl, blank_fits width a l)), tt), omega arith)
      whole (line ∷ rest) h = (h, omega arith)
