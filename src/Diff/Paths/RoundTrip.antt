-- ===== src/Diff/Paths/RoundTrip.antt =====
-- The quoting of git is undone by `unquote_git_path` (crates/ramo-core/src/diff/parser.rs).
use Prim.Native.Nat.{zero}
use mathlib.Core.List.{reverse-append, reverse-cons, tail, reverse-reverse}
use ramo.Prelude.Utf8.{encode, is_scalar, decode, decode-encode, encode_char}
use ramo.Diff.Paths.{inner, unquote_git_path, reverse, unescape, unescape_from}
use ramo.Prelude.Str.{trim, trim_start, strip_prefix}
use ramo.Prelude.Text.{Text, is_whitespace}
use ramo.Diff.Paths.Pieces.{quoted, git_quoted, quoted_char_pos, quoted_char, quoted_char-Reads}
use ramo.Prelude.{
  ℕ, Bool, all, ◌∷◌, ◌≡◌, ◌++◌, ◌&&◌, true, [], ap, not, length, all-cons, ◌∙◌, some, ◌==◌, ◌≤◌,
  arith, sym, suc, refl, length-append, zero,
}

-- The characters that a path may have: Unicode has no others, and no vertical tab.
abbrev pub is_path_char : ℕ → Bool
is_path_char c = is_scalar c && not (c == 11)

quoted-unescape :
    (path : Text) (fuel : ℕ)
    → all is_path_char path ≡ true
    → length (quoted path) ≤ fuel
    → unescape_from fuel (quoted path) ≡ encode path
unfolding quoted encode unescape_from
quoted-unescape [] zero v l = refl
quoted-unescape [] (suc fuel) v l = refl
quoted-unescape (c ∷ s) zero v l =
    absurd (omega (arith, quoted_char_pos c, length-append (quoted_char c) (quoted s)))
quoted-unescape (c ∷ s) (suc fuel) v l =
    let (p, q) = all-cons is_path_char c s v in
    let n = length-append (quoted_char c) (quoted s) in
    let (left, m, e) =
      quoted_char-Reads c fuel (quoted s) (ground (arith, p)) (ground (arith, p))
        (omega (arith, n)) in
    e ∙ ap (encode_char c ++◌) (quoted-unescape s left q (omega (arith, n, m)))

all_scalar : (path : Text) → all is_path_char path ≡ true → all is_scalar path ≡ true
all_scalar [] v = refl
all_scalar (c ∷ s) v = let (p, q) = all-cons is_path_char c s v in ground (arith, p, all_scalar s q)

reverse-quoted : (m : Text) → reverse (m ++ b'"' ∷ []) ≡ b'"' ∷ reverse m
reverse-quoted m = reverse-append m (b'"' ∷ [])

reverse-git_quoted :
    (path : Text) → reverse (git_quoted path) ≡ b'"' ∷ (reverse (quoted path) ++ b'"' ∷ [])
reverse-git_quoted path =
    reverse-cons b'"' (quoted path ++ b'"' ∷ []) ∙ ap (◌++ b'"' ∷ []) (reverse-quoted (quoted path))

trim-git_quoted : (path : Text) → trim (git_quoted path) ≡ git_quoted path
unfolding trim trim_start is_whitespace
trim-git_quoted path =
    ap (λ s. reverse (trim_start s)) (reverse-git_quoted path)
    ∙ sym (ap reverse (reverse-git_quoted path))
    ∙ reverse-reverse (git_quoted path)

inner-quoted : (m : Text) → inner (b'"' ∷ (m ++ b'"' ∷ [])) ≡ some m
unfolding inner
inner-quoted [] = refl
inner-quoted (d ∷ m) =
    ap (λ s. some (reverse (tail s))) (reverse-quoted (d ∷ m)) ∙ ap some (reverse-reverse (d ∷ m))

-- A path of Unicode characters that git has quoted is read back, if it has no vertical tab.
pub unquote_git_path-git_quoted :
    (path : Text) → all is_path_char path ≡ true → unquote_git_path (git_quoted path) ≡ some path
unfolding unquote_git_path unescape strip_prefix
unquote_git_path-git_quoted path v =
    rw (trim-git_quoted path, unquote_git_path)
      (rw (reverse-git_quoted path) (
        rw (inner-quoted (quoted path)) (
          ap some (
            ap decode (quoted-unescape path (length (quoted path)) v (omega arith))
            ∙ decode-encode path (all_scalar path v)))))
