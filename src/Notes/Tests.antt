-- ===== src/Notes/Tests.antt =====
-- Runs of the wrapping of src/review/row.rs, with characters that take one column each.
use ramo.Notes.Fit.{Fits}
use ramo.Notes.{wrap_note_text_indexed, caret_cell, WrappedLine}
use ramo.Prelude.Text.{Text, codes}
use ramo.Notes.Fit.{AreWidths, wrap_note_text_indexed-Fits}
use ramo.Prelude.{ℕ, Each, length, List, map, drop, arith, ◌≡◌, ◌≤◌, ◌∷◌, refl, []}

abbrev one_wide : ℕ → ℕ
one_wide c = 1

one_wide-AreWidths : AreWidths one_wide length
one_wide-AreWidths = (λ c. omega arith, refl, refl)

abbrev wrapped : Text → ℕ → List WrappedLine
wrapped text width = wrap_note_text_indexed one_wide length text width

wrap_test :
    wrapped (codes "  ab  cd efghij") 6
    ≡ record { text = codes "  ab"; sources = 0 ∷ 0 ∷ 2 ∷ 3 ∷ [] }
      ∷ record { text = codes "  cd"; sources = 0 ∷ 0 ∷ 6 ∷ 7 ∷ [] }
      ∷ record { text = codes "  efgh"; sources = 0 ∷ 0 ∷ 9 ∷ 10 ∷ 11 ∷ 12 ∷ [] }
      ∷ record { text = codes "  ij"; sources = 0 ∷ 0 ∷ 13 ∷ 14 ∷ [] }
      ∷ []
unfolding wrap_note_text_indexed
wrap_test = refl

blank_test :
    map (λ (line : WrappedLine). line.text) (wrapped (codes "a\n\nb") 4)
    ≡ codes "a" ∷ [] ∷ codes "b" ∷ []
unfolding wrap_note_text_indexed
blank_test = refl

caret_test :
    (caret_cell one_wide length (wrapped (codes "ab cd") 3) 3 ≡ (1, 0))
    × (caret_cell one_wide length (wrapped (codes "ab cd") 3) 5 ≡ (1, 2))
unfolding caret_cell wrap_note_text_indexed
caret_test = (refl, refl)

-- A line that ends with a carriage return and a newline is counted as one character shorter than it
-- is, so that the `b` is said to be the character 2, which is the newline.
crlf_test :
    (drop 1 (wrapped (codes "a\r\nb") 4)) ≡ record { text = codes "b"; sources = 2 ∷ [] } ∷ []
unfolding wrap_note_text_indexed
crlf_test = refl

wrap_note_text_indexed-Fits_example :
    Each
      (Fits one_wide length 6)
      (wrap_note_text_indexed one_wide length (codes "  ab  cd efghij") 6)
    × (1 ≤ length (wrap_note_text_indexed one_wide length (codes "  ab  cd efghij") 6))
wrap_note_text_indexed-Fits_example =
    wrap_note_text_indexed-Fits one_wide length (codes "  ab  cd efghij") 6 one_wide-AreWidths
      (omega arith) (omega arith)
