-- ===== src/Diff/Header.antt =====
-- crates/ramo-core/src/diff/parser.rs: the ranges of a hunk header. `none` is a panic: the header
-- is split at spaces and its second part is indexed.
use ramo.Prelude.Machine.{u32_max}
use ramo.Prelude.Str.{split_once, trim_start_matches}
use ramo.Prelude.{
  Option, ℕ, ◌≡◌, some, none, ◌>>=◌, ◌∷◌, refl, ◌*◌, if◌then◌else◌, [], ◌+◌, ◌==◌, ◌-◌, ◌&&◌, leb,
  ◌≤◌, arith, Option-cases, inl, inr, subst, any, ◌↔◌, false,
}
use ramo.Prelude.Text.{Text, codes}
use ramo.Sanitize.{is_ascii_digit}

-- `u32::from_str`: an optional sign and digits, within range; `-0` is not accepted.
digits_value : ℕ → Text → Option ℕ
unfolding is_ascii_digit
digits_value n [] = some n
digits_value n (c ∷ s) =
    let m = n * 10 + (c - 48) in
    let rest = digits_value m s in if is_ascii_digit c && leb m u32_max then rest else none

digits_of : Text → Option ℕ
unfolding digits_value
digits_of [] = none
digits_of (c ∷ s) = digits_value 0 (c ∷ s)

unfoldable pub parse_u32 : Text → Option ℕ
unfolding digits_of
parse_u32 [] = none
parse_u32 (c ∷ s) = if c == b'+' then digits_of s else digits_of (c ∷ s)

-- `unwrap_or`.
abbrev pub unwrap_or : Option ℕ → ℕ → ℕ
unwrap_or none d = d
unwrap_or (some n) d = n

unfoldable pub parse_range : Text → ℕ × ℕ
unfolding parse_u32 split_once
parse_range range = elim (split_once b',' range) [
  | some (start, count) ↦ (unwrap_or (parse_u32 start) 1, unwrap_or (parse_u32 count) 0)
  | none ↦ (unwrap_or (parse_u32 range) 1, 1)
]

-- `splitn(3, ' ')`: the part before the first space, and the one between it and the next.
before_space : Text → Text
unfolding split_once
before_space s = elim (split_once 32 s) [ none ↦ s | some (a, b) ↦ a ]

unfoldable pub parse_hunk_header : Text → Option (ℕ × ℕ × ℕ × ℕ)
unfolding parse_range before_space split_once trim_start_matches
parse_hunk_header header = do
  (old, rest) ← split_once 32 (trim_start_matches (codes "@@ ") header)
  let (old_start, old_count) = parse_range (trim_start_matches (codes "-") old)
  let (new_start, new_count) = parse_range (trim_start_matches (codes "+") (before_space rest))
  some (old_start, old_count, new_start, new_count)

header_test : parse_hunk_header (codes "@@ -10,4 +12 @@ fn main()") ≡ some (10, 4, 12, 1)
unfolding parse_hunk_header
header_test = refl

-- A header with no space behind its marks is indexed out of range.
header_panics : parse_hunk_header (codes "@@ 1") ≡ none
unfolding parse_hunk_header
header_panics = refl

digits_value-le : (s : Text) (n v : ℕ) → n ≤ u32_max → digits_value n s ≡ some v → v ≤ u32_max
unfolding digits_value
digits_value-le [] n v h e = ground arith
digits_value-le (c ∷ s) n v h e = ground (arith, digits_value-le s (n * 10 + (c - 48)) v)

parse_u32-le : (s : Text) (d : ℕ) → d ≤ u32_max → unwrap_or (parse_u32 s) d ≤ u32_max
unfolding parse_u32
parse_u32-le s d h = elim (Option-cases (parse_u32 s)) [
  | inl e ↦ rw e h
  | inr (v, e) ↦ rw e (bounded s v e)
]
  where
    tail_bounded : (t : Text) (v : ℕ) → digits_of t ≡ some v → v ≤ u32_max
    tail_bounded [] v e = cc
    tail_bounded (c ∷ t) v e = digits_value-le (c ∷ t) 0 v (omega arith) e

    bounded : (t : Text) (v : ℕ) → parse_u32 t ≡ some v → v ≤ u32_max
    bounded [] v e = cc
    bounded (c ∷ t) v e = ground (arith, tail_bounded t v, tail_bounded (c ∷ t) v)

parse_range-le : (s : Text) → (parse_range s).0 ≤ u32_max
unfolding parse_range
parse_range-le s = elim (Option-cases (split_once b',' s)) [
  | inl e ↦ rw (e, parse_range) (parse_u32-le s 1 (omega arith))
  | inr ((a, b), e) ↦ rw (e, parse_range) (parse_u32-le a 1 (omega arith))
]

-- A parsed header starts within `u32` on both sides.
pub parse_hunk_header-le :
    (header : Text) (o oc n nc : ℕ)
    → parse_hunk_header header ≡ some (o, oc, n, nc)
    → (o ≤ u32_max) × (n ≤ u32_max)
unfolding parse_hunk_header
parse_hunk_header-le header o oc n nc e =
    elim (Option-cases (split_once 32 (trim_start_matches (codes "@@ ") header))) [
      | inl f ↦ absurd (cc (rw f at e))
      | inr ((a, b), f) ↦
          let e' = rw f at e in
          let p = parse_range-le (trim_start_matches (codes "-") a) in
          let q = parse_range-le (trim_start_matches (codes "+") (before_space b)) in
          (subst (λ x. x ≤ u32_max) (cc e') p, subst (λ x. x ≤ u32_max) (cc e') q)
    ]

split_once-none : (d : ℕ) (s : Text) → split_once d s ≡ none → any (λ c. c == d) s ≡ false
unfolding split_once
split_once-none d [] h = refl
split_once-none d (c ∷ s) h = ground (arith, split_once-none d s)

none-split_once : (d : ℕ) (s : Text) → any (λ c. c == d) s ≡ false → split_once d s ≡ none
unfolding split_once
none-split_once d [] h = refl
none-split_once d (c ∷ s) h = ground (arith, none-split_once d s)

-- Reading a header panics exactly where no space stands behind its marks.
pub parse_hunk_header-eq-none :
    (header : Text)
    → (parse_hunk_header header ≡ none)
      ↔ (any (λ c. c == 32) (trim_start_matches (codes "@@ ") header) ≡ false)
unfolding parse_hunk_header
parse_hunk_header-eq-none header =
    let rest = trim_start_matches (codes "@@ ") header in
    (λ h. split_once-none 32 rest (ground arith), λ h. rw (none-split_once 32 rest h))
