-- ===== src/Diff/Paths/Unquoted.antt =====
-- Paths without quotes, on which crates/ramo-core/src/diff/parser.rs does not panic.
use mathlib.Core.List.{reverse, reverse-cons, []}
use ramo.Diff.Paths.{
  quote, unquote_git_path, strip_git_prefix, strip_or_whole, parse_patch_path, find_closing_quote,
  parse_diff_git_line, unquoted_paths, before_tab,
}
use ramo.Prelude.{
  Option, Bool, ◌≡◌, all, true, some, not, ◌++◌, Bool-cases, none, ◌∷◌, ◌==◌, all-cons,
  Option-cases, false, subst, inl, all-append, arith, inr, [], refl,
}
use ramo.Prelude.Str.{trim_start, trim, strip_prefix, starts_with, text_eq, strip_prefix-eq}
use ramo.Prelude.Text.{Text, is_whitespace, codes}

-- A text without a quote.
abbrev pub unquoted : Text → Bool
unquoted s = all (λ c. not (c == b'"')) s

reverse-unquoted : (s : Text) → unquoted s ≡ true → unquoted (reverse s) ≡ true
reverse-unquoted [] h = refl
reverse-unquoted (c ∷ s) h =
    let (p, q) = all-cons (λ d. not (d == b'"')) c s h in
    rw (reverse-cons c s)
      (all-append (λ d. not (d == b'"')) (reverse s) (c ∷ []) (reverse-unquoted s q) (rw p refl))

trim_start-unquoted : (s : Text) → unquoted s ≡ true → unquoted (trim_start s) ≡ true
unfolding trim_start
trim_start-unquoted [] h = refl
trim_start-unquoted (c ∷ s) h = elim (Bool-cases (is_whitespace c)) [
  | inl e ↦ rw e (trim_start-unquoted s (all-cons (λ d. not (d == b'"')) c s h).1)
  | inr e ↦ rw e h
]

trim-unquoted : (s : Text) → unquoted s ≡ true → unquoted (trim s) ≡ true
unfolding trim
trim-unquoted s h = reverse-unquoted (trim_start (reverse (trim_start s))) (
    trim_start-unquoted (reverse (trim_start s))
      (reverse-unquoted (trim_start s) (trim_start-unquoted s h)))

no_quote_first : (s : Text) → unquoted s ≡ true → starts_with quote s ≡ false
unfolding strip_prefix
no_quote_first [] h = refl
no_quote_first (c ∷ s) h = ground (arith, (all-cons (λ d. not (d == b'"')) c s h).0)

pub suffix_unquoted :
    (p s r : Text) → strip_prefix p s ≡ some r → unquoted s ≡ true → unquoted r ≡ true
suffix_unquoted p s r e h = behind p r (subst (λ u. unquoted u ≡ true) (strip_prefix-eq p s r e) h)
  where
    behind : (p r : Text) → unquoted (p ++ r) ≡ true → unquoted r ≡ true
    behind [] r h = h
    behind (c ∷ p) r h = behind p r (all-cons (λ d. not (d == b'"')) c (p ++ r) h).1

-- A result that is there.
abbrev pub Succeeds {ℓ} : {A : Type ℓ} → Option A → Type ℓ
Succeeds {A = A} o = (a : A) × (o ≡ some a)

pub unquote-Succeeds : (s : Text) → unquoted s ≡ true → Succeeds (unquote_git_path s)
unfolding unquote_git_path
unquote-Succeeds s h =
    (trim s, rw (no_quote_first (trim s) (trim-unquoted s h), unquote_git_path) refl)

strip-Succeeds : (s p : Text) → unquoted s ≡ true → Succeeds (strip_git_prefix s p)
unfolding strip_git_prefix
strip-Succeeds s p h = (
  strip_or_whole p (trim s),
  rw (no_quote_first (trim s) (trim-unquoted s h), strip_git_prefix) refl,
)

pub patch_path-Succeeds : (s p : Text) → unquoted s ≡ true → Succeeds (parse_patch_path s p)
unfolding parse_patch_path
patch_path-Succeeds s p h = elim (Bool-cases (text_eq (trim s) (codes "/dev/null"))) [
  | inl e ↦ (
    codes "/dev/null",
    rw (no_quote_first (trim s) (trim-unquoted s h), e, parse_patch_path) refl,
  )
  | inr e ↦ (
    before_tab (strip_or_whole p (trim s)),
    rw (no_quote_first (trim s) (trim-unquoted s h), e, parse_patch_path) refl,
  )
]

whole_unquoted : (p s : Text) → unquoted s ≡ true → unquoted (strip_or_whole p s) ≡ true
whole_unquoted p s h = elim (Option-cases (strip_prefix p s)) [
  | inl e ↦ rw (e, strip_or_whole) h
  | inr (r, e) ↦ rw (e, strip_or_whole) (suffix_unquoted p s r e h)
]

find_closing_quote-none : (s : Text) → unquoted s ≡ true → find_closing_quote s ≡ none
unfolding find_closing_quote
find_closing_quote-none [] h = refl
find_closing_quote-none (c ∷ s) h =
    let (p, q) = all-cons (λ d. not (d == b'"')) c s h in
    elim (Bool-cases (c == b'"')) [ inl e ↦ absurd (cc (rw e at p)) | inr e ↦ rw e refl ]

pub git_line-Succeeds : (line : Text) → unquoted line ≡ true → Succeeds (parse_diff_git_line line)
unfolding parse_diff_git_line
git_line-Succeeds line h =
    let rest = strip_or_whole (codes "diff --git ") line in
    (
      unquoted_paths rest,
      rw
          (
            find_closing_quote-none rest (whole_unquoted (codes "diff --git ") line h),
            parse_diff_git_line,
          )
          refl,
    )
