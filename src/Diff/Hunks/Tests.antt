-- ===== src/Diff/Hunks/Tests.antt =====
-- Runs of `parse_hunk` (crates/ramo-core/src/diff/parser.rs).
use ramo.Prelude.Str.{trim_start_matches}
use ramo.Diff.Hunks.Numbering.{
  Numbered, old_number, old_count, new_number, new_count, parse_hunk-lineno, parse_hunk-eq-none,
}
use ramo.Diff.Hunks.RoundTrip.{Ends, render, parse_hunk-render}
use ramo.Diff.Hunks.{parse_hunk, diff_line, read_line, old_after, new_after}
use ramo.Diff.Header.{parse_hunk_header}
use ramo.Diff.{Hunk, DiffLine, context, deletion, addition}
use ramo.Prelude.{
  List, ◌≤◌, ◌≡◌, length, map, ◌∷◌, some, ◌+◌, none, [], ◌++◌, ◌↔◌, refl, any, ◌==◌, false,
}
use ramo.Prelude.Text.{Text, codes}

abbrev head : Text
head = codes "@@ -10,2 +20,3 @@ fn"

abbrev body : List DiffLine
body =
    diff_line context (codes "keep") 10 20
    ∷ diff_line deletion (codes "gone") 11 21
    ∷ diff_line addition (codes "new") 12 21
    ∷ []

abbrev body_text : List Text
body_text = codes " keep" ∷ codes "-gone" ∷ codes "+new" ∷ codes "diff --git a/b b/b" ∷ []

abbrev hunk : Hunk
hunk = record { old_start = 10; new_start = 20; header = head; lines = body }

head_test : parse_hunk_header head ≡ some (10, 2, 20, 3)
unfolding parse_hunk_header
head_test = refl

hunk_test : parse_hunk head body_text ≡ some (hunk, 4)
unfolding parse_hunk diff_line
hunk_test = refl

body-Numbered : Numbered 10 20 body
unfolding diff_line old_after new_after
body-Numbered = (refl, (refl, (refl, tt)))

next-Ends : Ends (codes "diff --git a/b b/b" ∷ [])
unfolding read_line
next-Ends = refl

parse_hunk-lineno_example :
    (1 ≤ 4)
    × (4 ≤ length body_text + 1)
    × ((pre post : List DiffLine) (line : DiffLine)
        → hunk.lines ≡ pre ++ line ∷ post
        → (line.old_lineno ≡ old_number line.kind (10 + old_count pre))
          × (line.new_lineno ≡ new_number line.kind (20 + new_count pre)))
parse_hunk-lineno_example = parse_hunk-lineno head body_text hunk 4 hunk_test

parse_hunk-render_example :
    parse_hunk head (map render body ++ codes "diff --git a/b b/b" ∷ []) ≡ some (hunk, 4)
parse_hunk-render_example =
    parse_hunk-render head 10 2 20 3 body (codes "diff --git a/b b/b" ∷ []) head_test body-Numbered
      next-Ends

parse_hunk-eq-none_example :
    (parse_hunk (codes "@@ x") body_text ≡ none)
    ↔ (any (λ c. c == 32) (trim_start_matches (codes "@@ ") (codes "@@ x")) ≡ false)
parse_hunk-eq-none_example = parse_hunk-eq-none (codes "@@ x") body_text
