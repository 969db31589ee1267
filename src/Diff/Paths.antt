-- ===== src/Diff/Paths.antt =====
-- crates/ramo-core/src/diff/parser.rs: the paths of a patch, which git may quote. `none` is a
-- panic. The model walks characters where the source walks bytes in `find_closing_quote`; the
-- bytes that it looks for are ASCII and stand inside no other character.
pub mod Pieces
pub mod RoundTrip
pub mod Unquoted
mod Tests
use mathlib.Core.Bool.{false}
use Prim.Native.Nat.{zero}
use mathlib.Core.List.{reverse, tail}
use mathlib.Core.Option.{none}
use ramo.Prelude.Str.{
  trim, split_once, text_eq, strip_prefix, trim_start, trim_start_matches, starts_with,
}
use ramo.Prelude.Text.{Text, split_at, byte_len, codes}
use ramo.Prelude.Utf8.{encode_char, decode}
use ramo.Prelude.{
  ℕ, Bool, List, ◌∷◌, Option, suc, some, leb, ◌*◌, if◌then◌else◌, [], length, none, ◌&&◌, ◌+◌, ◌==◌,
  not, ◌>>=◌, ◌-◌, ◌||◌, ◌%◌, ◌/◌, drop, zero, true, ◌++◌,
}

unfoldable pub is_octal : ℕ → Bool
is_octal c = leb b'0' c && leb c b'7'

-- Up to `k` octal digits; the value is a `u8` and wraps.
unfoldable pub octal : ℕ → ℕ → Text → ℕ × Text
unfolding is_octal
octal zero val s = (val, s)
octal (suc k) val [] = (val, [])
octal (suc k) val (d ∷ s) =
    let more = octal k ((val * 8 + (d - b'0')) % 256) s in if is_octal d then more else (val, d ∷ s)

unfoldable pub escaped : ℕ → List ℕ
unfolding encode_char
escaped c =
    if c == b'n'
    then 10 ∷ []
    else if c == b't'
    then 9 ∷ []
    else if c == b'\\'
    then b'\\' ∷ []
    else if c == b'"'
    then b'"' ∷ []
    else if c == b'a'
    then 7 ∷ []
    else if c == b'b'
    then 8 ∷ []
    else if c == b'f'
    then 12 ∷ []
    else if c == b'r'
    then 13 ∷ []
    else b'\\' ∷ encode_char c

-- What follows a backslash: its bytes, and the rest.
unfoldable pub escape : Text → List ℕ × Text
unfolding octal escaped
escape [] = (b'\\' ∷ [], [])
escape (d ∷ s) =
    if is_octal d then (let (val, rest) = octal 3 0 (d ∷ s) in (val ∷ [], rest)) else (escaped d, s)

-- The loop over the characters between the quotes. Each round takes one at least, so their number
-- is fuel enough.
unfoldable pub unescape_from : ℕ → Text → List ℕ
unfolding escape
unescape_from zero s = []
unescape_from (suc fuel) [] = []
unescape_from (suc fuel) (c ∷ s) = elim (c == b'\\') [
  | true ↦ (let (bytes, rest) = escape s in bytes ++ unescape_from fuel rest)
  | false ↦ encode_char c ++ unescape_from fuel s
]

unfoldable pub unescape : Text → List ℕ
unfolding unescape_from
unescape s = unescape_from (length s) s

abbrev pub quote : Text
quote = b'"' ∷ []

-- `&s[1..s.len() - 1]`, which panics on a single character.
unfoldable pub inner : Text → Option Text
inner [] = none
inner (c ∷ []) = none
inner (c ∷ d ∷ s) = some (reverse (tail (reverse (d ∷ s))))

unfoldable pub unquote_git_path : Text → Option Text
unfolding trim strip_prefix inner unescape decode
unquote_git_path path =
    let s = trim path in
    if not (starts_with quote s) || not (starts_with quote (reverse s))
    then some s
    else do between ← inner s; some (decode (unescape between))

abbrev pub strip_or_whole : Text → Text → Text
strip_or_whole prefix s = elim (strip_prefix prefix s) [ none ↦ s | some rest ↦ rest ]

unfoldable pub strip_git_prefix : Text → Text → Option Text
unfolding unquote_git_path
strip_git_prefix path prefix =
    let s = trim path in
    if starts_with quote s
    then (do unquoted ← unquote_git_path s; some (strip_or_whole prefix unquoted))
    else some (strip_or_whole prefix s)

-- `split('\t').next()`.
unfoldable pub before_tab : Text → Text
unfolding split_once
before_tab s = elim (split_once 9 s) [ none ↦ s | some (a, b) ↦ a ]

unfoldable pub parse_patch_path : Text → Text → Option Text
unfolding strip_git_prefix before_tab text_eq
parse_patch_path path prefix =
    let raw = trim path in
    if starts_with quote raw
    then strip_git_prefix raw prefix
    else if text_eq raw (codes "/dev/null")
    then some (codes "/dev/null")
    else some (before_tab (strip_or_whole prefix raw))

-- The text up to the closing quote and behind it; what stands before is given and kept.
closing : Text → Option (Text × Text)
closing [] = none
closing (c ∷ []) = if c == b'"' then some (c ∷ [], []) else none
closing (c ∷ d ∷ s) =
    let skipped = closing s in
    let next = closing (d ∷ s) in
    if c == b'\\'
    then (do (a, b) ← skipped; some (c ∷ d ∷ a, b))
    else if c == b'"'
    then some (c ∷ [], d ∷ s)
    else (do (a, b) ← next; some (c ∷ a, b))

-- The quoted text and the rest behind it, cut where `find_closing_quote` points.
unfoldable pub find_closing_quote : Text → Option (Text × Text)
unfolding closing
find_closing_quote [] = none
find_closing_quote (c ∷ s) = if c == b'"' then (do (a, b) ← closing s; some (c ∷ a, b)) else none

-- `rfind(pattern)`: the text before the last place of the pattern, and behind it.
unfoldable pub rfind : Text → Text → Option (Text × Text)
unfolding strip_prefix
rfind pattern [] = none
rfind pattern (c ∷ s) = elim (rfind pattern s) [
  | some (a, b) ↦ some (c ∷ a, b)
  | none ↦ (do rest ← strip_prefix pattern (c ∷ s); some ([], rest))
]

-- `rest.get(2..b_idx).unwrap_or("")`.
behind_two : Text → Text
unfolding split_at
behind_two s = elim (split_at s 2) [ none ↦ [] | some (a, b) ↦ b ]

fallback_paths : Text → Text × Text
unfolding rfind behind_two split_once trim_start_matches
fallback_paths rest = elim (rfind (codes " b/") rest) [
  | some (before, new) ↦ (behind_two before, new)
  | none ↦ elim (split_once 32 rest) [
    | some (a, b) ↦ (trim_start_matches (codes "a/") a, trim_start_matches (codes "b/") b)
    | none ↦ (trim_start_matches (codes "a/") rest, trim_start_matches (codes "b/") rest)
  ]
]

-- Two paths of one length around the middle: `a/<path> b/<path>`.
midpoint_paths : Text → Option (Text × Text)
unfolding split_at byte_len strip_prefix
midpoint_paths rest =
    if starts_with (codes "a/") rest && leb 5 (byte_len rest)
    then (do
      (first, second) ← split_at rest (2 + (byte_len rest - 5) / 2)
      new ← strip_prefix (codes " b/") second
      some (drop 2 first, new))
    else none

unfoldable pub unquoted_paths : Text → Text × Text
unfolding midpoint_paths fallback_paths
unquoted_paths rest = elim (midpoint_paths rest) [ some paths ↦ paths | none ↦ fallback_paths rest ]

unfoldable pub parse_diff_git_line : Text → Option (Text × Text)
unfolding strip_git_prefix find_closing_quote unquoted_paths trim_start
parse_diff_git_line line =
    let rest = strip_or_whole (codes "diff --git ") line in
    elim (find_closing_quote rest) [
      | some (first, remainder) ↦ (do
        old ← strip_git_prefix first (codes "a/")
        new ← strip_git_prefix (trim_start remainder) (codes "b/")
        some (old, new))
      | none ↦ some (unquoted_paths rest)
    ]
