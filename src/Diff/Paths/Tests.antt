-- ===== src/Diff/Paths/Tests.antt =====
-- Paths of crates/ramo-core/src/diff/parser.rs on sample lines, and what is read from them.
use ramo.Diff.Paths.RoundTrip.{unquote_git_path-git_quoted}
use ramo.Diff.Paths.Pieces.{git_quoted}
use ramo.Prelude.{◌≡◌, some, none, refl, ◌∷◌}
use ramo.Diff.Paths.{parse_diff_git_line, unquote_git_path, parse_patch_path}
use ramo.Prelude.Text.{Text, codes}

abbrev git_line : Text
git_line = codes "diff --git a/foo b/bar.txt b/foo b/bar.txt"

path_with_b : parse_diff_git_line git_line ≡ some (codes "foo b/bar.txt", codes "foo b/bar.txt")
unfolding parse_diff_git_line
path_with_b = refl

quoted_line :
    parse_diff_git_line (codes "diff --git \"a/a\\\"b.txt\" \"b/a\\\"b.txt\"")
    ≡ some (codes "a\"b.txt", codes "a\"b.txt")
unfolding parse_diff_git_line
quoted_line = refl

octal_path : unquote_git_path (codes "\"a/\\303\\251.txt\"") ≡ some (codes "a/é.txt")
unfolding unquote_git_path
octal_path = refl

tab_path : parse_patch_path (codes "a/file.txt\t2024-01-01") (codes "a/") ≡ some (codes "file.txt")
unfolding parse_patch_path
tab_path = refl

lone_quote : unquote_git_path (codes "\"") ≡ none
unfolding unquote_git_path
lone_quote = refl

-- The letter of a vertical tab is not known.
vertical_tab : unquote_git_path (codes "\"a\\v\"") ≡ some (codes "a\\v")
unfolding unquote_git_path
vertical_tab = refl

abbrev strange_path : Text
strange_path = 9 ∷ codes "é\"日.rs"

unquote_git_path-git_quoted_example : unquote_git_path (git_quoted strange_path) ≡ some strange_path
unquote_git_path-git_quoted_example = unquote_git_path-git_quoted strange_path refl
