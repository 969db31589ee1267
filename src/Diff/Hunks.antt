-- ===== src/Diff/Hunks.antt =====
-- crates/ramo-core/src/diff/parser.rs: `parse_hunk`, the body of a hunk. Line numbers are `u32`
-- and wrap. `none` is a panic of the header.
pub mod Numbering
pub mod RoundTrip
mod Tests
use ramo.Prelude.Machine.{wrap32}
use ramo.Prelude.Text.{Text, codes}
use ramo.Diff.Header.{parse_hunk_header}
use ramo.Prelude.{ℕ, List, Option, ◌+◌, none, ◌∷◌, if◌then◌else◌, some, [], ◌>>=◌, suc, ◌||◌, ◌==◌}
use ramo.Prelude.Str.{strip_prefix, starts_with}
use ramo.Diff.{LineType, context, DiffLine, Hunk, addition, deletion}

abbrev numbered : LineType → Text → Option ℕ → Option ℕ → DiffLine
numbered kind content old new = record {
  kind = kind;
  content = content;
  old_lineno = old;
  new_lineno = new;
  moved = none;
}

-- What the loop does with a line, besides going on to the next.
pub data Reading : Type 0 where
  stop skip : Reading
  push : LineType → Text → Reading

-- `line.is_empty()` counts as an empty context line.
unfoldable pub read_line : Text → Reading
unfolding strip_prefix
read_line [] = push context []
read_line (c ∷ content) =
    if starts_with (codes "@@ ") (c ∷ content) || starts_with (codes "diff --git ") (c ∷ content)
    then stop
    else if c == b'+'
    then push addition content
    else if c == b'-'
    then push deletion content
    else if c == b' '
    then push context content
    else if c == b'\\'
    then skip
    else stop

unfoldable pub old_after : LineType → ℕ → ℕ
old_after addition old = old
old_after _ old = wrap32 (old + 1)

unfoldable pub new_after : LineType → ℕ → ℕ
new_after deletion new = new
new_after _ new = wrap32 (new + 1)

unfoldable pub diff_line : LineType → Text → ℕ → ℕ → DiffLine
diff_line addition content old new = numbered addition content none (some new)
diff_line deletion content old new = numbered deletion content (some old) none
diff_line context content old new = numbered context content (some old) (some new)

-- The loop over the lines behind the header, with the two line numbers: the lines of the hunk and
-- how many were consumed.
unfoldable pub body_from : ℕ → ℕ → List Text → List DiffLine × ℕ
unfolding read_line diff_line old_after new_after
body_from old new [] = ([], 0)
body_from old new (line ∷ rest) = elim (read_line line) [
  | stop ↦ ([], 0)
  | skip ↦ (let (found, n) = body_from old new rest in (found, suc n))
  | push kind content ↦
      (let (found, n) = body_from (old_after kind old) (new_after kind new) rest in
        (diff_line kind content old new ∷ found, suc n))
]

-- `parse_hunk(&lines[i..])`, on the header and the lines behind it.
unfoldable pub parse_hunk : Text → List Text → Option (Hunk × ℕ)
unfolding parse_hunk_header body_from
parse_hunk header rest = do
  (old_start, _, new_start, _) ← parse_hunk_header header
  let (found, n) = body_from old_start new_start rest
  some (
    record { old_start = old_start; new_start = new_start; header = header; lines = found },
    suc n,
  )
