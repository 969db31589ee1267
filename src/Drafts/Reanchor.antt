-- ===== src/Drafts/Reanchor.antt =====
-- Where `reanchor` of crates/ramo-core/src/drafts.rs finds a draft.
use mathlib.Core.Bool.{false}
use ramo.Prelude.Machine.{u32_max, wrap32}
use mathlib.Core.Path.{ap₂}
use Prim.Native.Nat.{zero}
use mathlib.Core.List.{[]}
use ramo.Prelude.Str.{text_eq_refl, text_eq, text_eq→eq}
use ramo.Prelude.Text.{Text}
use ramo.Prelude.{
  List, ℕ, drop, ◌≡◌, ◌+◌, ◌≤◌, ◌++◌, true, length, ap, ◌∷◌, take, arith, Bool-cases, any,
  length-append, leb, le→leb, ◌==◌, sym, suc, inl, [], Bool, leb→le, ◌∙◌, take-append-drop, inr,
  refl, ◌&&◌, append_assoc, zero, drop-append_left, take-append_left, ◌||◌, ==_iff, subst, ◌-◌,
  if◌then◌else◌, not, ltb,
}
use ramo.Drafts.{
  same_lines, matches_from, is_lines, get_range, DraftComment, ReanchorResult, placed, exact,
  needle_of, moved, moved_to, needs_attention, reanchor, RemoteLineSide, same_line_side,
}

same_lines-eq : (a b : List Text) → same_lines a b ≡ true → a ≡ b
unfolding same_lines
same_lines-eq [] [] e = refl
same_lines-eq [] (t ∷ ts) e = cc
same_lines-eq (s ∷ ss) [] e = cc
same_lines-eq (s ∷ ss) (t ∷ ts) e =
    let (p, q) = both (text_eq s t) (same_lines ss ts) e in
    ap₂ (λ (u : Text) (v : List Text). u ∷ v) (text_eq→eq s t p) (same_lines-eq ss ts q)
  where
    both : (a b : Bool) → (a && b) ≡ true → (a ≡ true) × (b ≡ true)
    both a b e = ground arith

same_lines_refl : (a : List Text) → same_lines a a ≡ true
unfolding same_lines
same_lines_refl [] = refl
same_lines_refl (s ∷ ss) = rw (text_eq_refl s) (same_lines_refl ss)

-- A range of lines is the expected one.
abbrev pub HasAt : List Text → ℕ → List Text → Type 0
HasAt lines from expected = is_lines (get_range lines from (length expected)) expected ≡ true

HasAt-eq :
    (lines : List Text) (from : ℕ) (expected : List Text)
    → HasAt lines from expected
    → (from + length expected ≤ length lines)
      × (take (length expected) (drop from lines) ≡ expected)
HasAt-eq lines from expected h = elim (Bool-cases (leb (from + length expected) (length lines))) [
  | inl e ↦
      (leb→le _ _ e, same_lines-eq (take (length expected) (drop from lines)) expected (rw e at h))
  | inr e ↦ absurd (cc (rw e at h))
]

eq-HasAt :
    (lines : List Text) (from : ℕ) (expected : List Text)
    → from + length expected ≤ length lines
    → take (length expected) (drop from lines) ≡ expected
    → HasAt lines from expected
eq-HasAt lines from expected l e = rw (le→leb _ _ l) (rw e (same_lines_refl expected))

drop_nil : {A : Type 0} (n : ℕ) → drop {A = A} n [] ≡ []
drop_nil zero = refl
drop_nil (suc n) = refl

drop-drop : {A : Type 0} (m n : ℕ) (xs : List A) → drop n (drop m xs) ≡ drop (m + n) xs
drop-drop {A} zero n xs = ap (λ (k : ℕ). drop {A = A} k xs) {x = n} {y = zero + n} (omega arith)
drop-drop (suc m) n [] = drop_nil n ∙ sym (drop_nil (suc m + n))
drop-drop {A} (suc m) n (x ∷ xs) =
    drop-drop m n xs
    ∙ ap (λ (k : ℕ). drop {A = A} k (x ∷ xs)) {x = suc (m + n)} {y = suc m + n} (omega arith)

-- A found window is one.
matches_from-HasAt :
    (at : ℕ) (needle lines : List Text) (index : ℕ) (more : List ℕ)
    → matches_from at needle lines ≡ index ∷ more
    → (n : ℕ) × (index ≡ at + n) × HasAt lines n needle
unfolding matches_from
matches_from-HasAt at needle [] index more e = cc
matches_from-HasAt at needle (line ∷ rest) index more e =
    elim (Bool-cases (is_lines (get_range (line ∷ rest) 0 (length needle)) needle)) [
      | inl f ↦
          let g : at ∷ matches_from (suc at) needle rest ≡ index ∷ more = rw f at e in
          (0, omega (arith, head_eq g), f)
      | inr f ↦
          let (n, p, h) = matches_from-HasAt (suc at) needle rest index more (rw f at e) in
          let (l, q) = HasAt-eq rest n needle h in
          (suc n, omega (arith, p), eq-HasAt (line ∷ rest) (suc n) needle (omega (arith, l)) q)
    ]
  where
    head_eq : {a b : ℕ} {x y : List ℕ} → a ∷ x ≡ b ∷ y → a ≡ b
    head_eq e = cc

-- Every window is found.
HasAt-matches_from :
    (at n : ℕ) (needle lines : List Text)
    → 1 ≤ length needle
    → HasAt lines n needle
    → any (λ k. k == at + n) (matches_from at needle lines) ≡ true
unfolding matches_from
HasAt-matches_from at n needle [] l h = absurd (omega (arith, l, (HasAt-eq [] n needle h).0))
HasAt-matches_from at zero needle (line ∷ rest) l h =
    rw (h, matches_from)
      (ap (◌|| any (λ k. k == at + 0) (matches_from (suc at) needle rest))
        ((==_iff at (at + 0)).1 (omega arith)))
HasAt-matches_from at (suc n) needle (line ∷ rest) l h =
    let (p, q) = HasAt-eq (line ∷ rest) (suc n) needle h in
    let ih =
      HasAt-matches_from (suc at) n needle rest l (eq-HasAt rest n needle (omega (arith, p)) q) in
    let ih' : any (λ k. k == at + suc n) (matches_from (suc at) needle rest) ≡ true =
      subst (λ m. any (λ k. k == m) (matches_from (suc at) needle rest) ≡ true) (omega arith) ih in
    elim (Bool-cases (is_lines (get_range (line ∷ rest) 0 (length needle)) needle)) [
      | inl f ↦ rw (f, matches_from) (either (at == at + suc n) ih')
      | inr f ↦ rw (f, matches_from) ih'
    ]
  where
    either : {b : Bool} (a : Bool) → b ≡ true → (a || b) ≡ true
    either true h = refl
    either false h = h

-- Where a whole stands, each part of it stands.
part-HasAt :
    (lines : List Text) (n : ℕ) (before middle behind : List Text)
    → HasAt lines n (before ++ middle ++ behind)
    → HasAt lines (n + length before) middle
part-HasAt lines n before middle behind h =
    let whole = before ++ middle ++ behind in
    let (l, e) = HasAt-eq lines n whole h in
    let a = length-append (before ++ middle) behind in
    let b = length-append before middle in
    let rest = drop (length whole) (drop n lines) in
    let f : drop n lines ≡ whole ++ rest =
      sym (take-append-drop (length whole) (drop n lines)) ∙ ap (◌++ rest) e in
    let g : drop (n + length before) lines ≡ middle ++ (behind ++ rest) =
      sym (drop-drop n (length before) lines)
      ∙ ap (drop (length before)) (
          f
          ∙ append_assoc (before ++ middle) behind rest
          ∙ append_assoc before middle (behind ++ rest))
      ∙ drop-append_left before (middle ++ (behind ++ rest)) in
    eq-HasAt lines (n + length before) middle (omega (arith, l, a, b))
      (ap (take (length middle)) g ∙ take-append_left middle (behind ++ rest))

-- What is said of a draft, and where it stands after that.
abbrev pub Sound : DraftComment → List Text → ReanchorResult → Type 0
Sound draft lines (exact found) =
    (found ≡ draft) × HasAt lines (draft.anchor.start_line - 1) draft.anchor.selected_text
Sound draft lines (moved found old new) =
    (old ≡ draft.anchor.start_line)
    × (found ≡ moved_to draft new)
    × HasAt lines (new - 1) draft.anchor.selected_text
    × ((n : ℕ)
        → HasAt lines n (needle_of draft.anchor)
        → new ≡ n + length draft.anchor.context_before + 1)
Sound draft lines (needs_attention found reason) = found ≡ draft

placed-Sound :
    (draft : DraftComment) (lines : List Text) (found : List ℕ)
    → 1 ≤ length draft.anchor.selected_text
    → length lines ≤ u32_max
    → matches_from 0 (needle_of draft.anchor) lines ≡ found
    → Sound draft lines (placed draft found)
unfolding placed
placed-Sound draft lines [] l b e = refl
placed-Sound draft lines (index ∷ next ∷ more) l b e = refl
placed-Sound draft lines (index ∷ []) l b e =
    let anchor = DraftComment.anchor draft in
    let before = anchor.context_before in
    let (n, p, h) = matches_from-HasAt 0 (needle_of anchor) lines index [] e in
    let here = part-HasAt lines n before anchor.selected_text anchor.context_after h in
    let (inside, q) = HasAt-eq lines (n + length before) anchor.selected_text here in
    let new_line = wrap32 (wrap32 index + wrap32 (length before) + 1) in
    let w : new_line ≡ n + length before + 1 = omega (arith, p, inside) in
    let size : 1 ≤ length (needle_of anchor) = omega (
      arith,
      l,
      length-append (before ++ anchor.selected_text) anchor.context_after,
      length-append before anchor.selected_text,
    ) in
    (
      refl,
      refl,
      subst (λ m. HasAt lines m anchor.selected_text) (omega (arith, w)) here,
      λ m k.
          let f = HasAt-matches_from 0 m (needle_of anchor) lines size k in
          let g : (index == 0 + m) ≡ true =
            only index (0 + m) (subst (λ found. any (λ k. k == 0 + m) found ≡ true) e f) in
          omega (arith, w, p, (==_iff index (0 + m)).0 g),
    )
  where
    only : (a m : ℕ) → any (λ k. k == m) (a ∷ []) ≡ true → (a == m) ≡ true
    only a m h = ground arith

-- A draft is called exact only where its text stands at its line; it is moved only to a line at
-- which its text stands, in the one place where its text stands with the lines around it; else it
-- is given back as it was. The lines are no more than `u32` counts.
pub reanchor-Sound :
    (draft : DraftComment) (path : Text) (side : RemoteLineSide) (lines : List Text)
    → length lines ≤ u32_max
    → Sound draft lines (reanchor draft path side lines)
unfolding reanchor
reanchor-Sound draft path side lines b =
    let anchor = DraftComment.anchor draft in
    test _ _ (not (text_eq anchor.path path) || not (same_line_side anchor.side side)) refl λ _.
      elim (Bool-cases (length anchor.selected_text == 0)) [
        | inl e ↦ rw e refl
        | inr e ↦
            rw e
              (elim (Bool-cases (
                is_lines (get_range lines (anchor.start_line - 1) (length anchor.selected_text))
                  anchor.selected_text)) [
                    | inl f ↦ rw f (refl, f)
                    | inr f ↦ rw f (
                        test _ _
                          (length (needle_of anchor) == 0
                            || ltb (length lines) (length (needle_of anchor)))
                          refl
                          λ _.
                            placed-Sound draft lines (matches_from 0 (needle_of anchor) lines)
                              (ground (arith, e)) b refl)
                  ])
      ]
  where
    test :
        (x y : ReanchorResult) (c : Bool)
        → Sound draft lines x
        → (c ≡ false → Sound draft lines y)
        → Sound draft lines (if c then x else y)
    test x y true h k = h
    test x y false h k = k refl
