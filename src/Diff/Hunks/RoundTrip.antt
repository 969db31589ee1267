-- ===== src/Diff/Hunks/RoundTrip.antt =====
-- A hunk that is written out and parsed again (crates/ramo-core/src/diff/parser.rs).
use ramo.Diff.Header.{parse_hunk_header}
use ramo.Diff.Hunks.Numbering.{Numbered}
use ramo.Prelude.Text.{Text}
use ramo.Diff.Hunks.{read_line, body_from, stop, push, old_after, new_after, parse_hunk}
use ramo.Prelude.{List, ℕ, ◌++◌, ◌≡◌, ◌∷◌, [], map, length, refl, ap, suc, sym, some}
use ramo.Diff.{DiffLine, prefix, LineType, context, addition, deletion}

-- The line of a patch that shows a line of a hunk, by `LineType::prefix`.
abbrev pub render : DiffLine → Text
render line = prefix line.kind ++ line.content

-- What may follow a hunk: the end, or a line that no hunk holds, such as the next header.
abbrev pub Ends : List Text → Type 0
Ends [] = Unit
Ends (line ∷ rest) = read_line line ≡ stop

read_line-render : (k : LineType) (c : Text) → read_line (prefix k ++ c) ≡ push k c
unfolding read_line prefix
read_line-render context c = refl
read_line-render addition c = refl
read_line-render deletion c = refl

body_from-Ends : (old new : ℕ) (rest : List Text) → Ends rest → body_from old new rest ≡ ([], 0)
unfolding body_from
body_from-Ends old new [] h = refl
body_from-Ends old new (line ∷ rest) h = rw (h, body_from)

body_from-render :
    (found : List DiffLine) (rest : List Text) (old new : ℕ)
    → Numbered old new found
    → Ends rest
    → body_from old new (map render found ++ rest) ≡ (found, length found)
unfolding body_from
body_from-render [] rest old new h g = body_from-Ends old new rest g
body_from-render (line ∷ found) rest old new h g =
    let ih =
      body_from-render found rest (old_after line.kind old) (new_after line.kind new) h.1 g in
    rw (read_line-render line.kind line.content, body_from)
      (rw ih (ap (λ l. (l ∷ found, suc (length found))) (sym h.0)))

-- A hunk whose lines are numbered from the starts of its header, written out line by line and
-- followed by the end of the patch or by another header, is parsed to the same hunk, and its
-- lines and its header are what is consumed.
pub parse_hunk-render :
    (header : Text) (o oc n nc : ℕ) (found : List DiffLine) (rest : List Text)
    → parse_hunk_header header ≡ some (o, oc, n, nc)
    → Numbered o n found
    → Ends rest
    → parse_hunk header (map render found ++ rest)
      ≡ some (
        record { old_start = o; new_start = n; header = header; lines = found },
        suc (length found),
      )
unfolding parse_hunk
parse_hunk-render header o oc n nc found rest e h g = rw (e, body_from-render found rest o n h g)
