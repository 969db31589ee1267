-- ===== src/Budget/Truncate.antt =====
-- The patch that `truncate_to_prompt_budget` of crates/ramo-server/src/analysis/budget.rs leaves.
use ramo.ReviewMap.{EnrichmentRequest, EnrichmentInputFile}
use ramo.Budget.{
  bisect, down_to_boundary, floor_char_boundary, cut_to, is_char_boundary,
  truncate_to_prompt_budget, with_cut, fits_alone, truncate_patch,
}
use mathlib.Core.List.{[]}
use Prim.Native.Nat.{zero}
use ramo.Prelude.Text.{split_at, byte_len, Text, utf8_len}
use ramo.Prelude.{
  ℕ, Bool, ◌≤◌, ◌≡◌, ◌⊎◌, some, true, ◌++◌, suc, false, ◌∷◌, zero, [], some_inj, ◌-◌, ap, min,
  arith, Bool-cases, subst, Option-cases, sym, leb, inl, ◌+◌, inr, ◌/◌, bind_inv, refl, ltb, leb→le,
  ltb-false→le, ltb→lt, none, Option,
}

-- The offset that is found: it fits, unless it is 0, and the next one does not, unless it is the
-- greatest.
abbrev pub Found : (ℕ → Bool) → ℕ → ℕ → Type 0
Found fits top r = (r ≤ top) × ((r ≡ 0) ⊎ (fits r ≡ true)) × ((r ≡ top) ⊎ (fits (suc r) ≡ false))

bisect-Found :
    (fits : ℕ → Bool) (top fuel low high : ℕ)
    → low ≤ high
    → high ≤ top
    → high - low ≤ fuel
    → (low ≡ 0) ⊎ (fits low ≡ true)
    → (high ≡ top) ⊎ (fits (suc high) ≡ false)
    → Found fits top (bisect fits fuel low high)
unfolding bisect
bisect-Found fits top zero low high a b c l h =
    let e : low ≡ high = omega arith in
    (omega arith, l, subst (λ n. (n ≡ top) ⊎ (fits (suc n) ≡ false)) (sym e) h)
bisect-Found fits top (suc fuel) low high a b c l h =
    let requested = low + ((high - low) + 1) / 2 in
    elim (Bool-cases (ltb low high)) [
      | inr e ↦
          rw (e, bisect)
            (
              omega arith,
              l,
              subst (λ n. (n ≡ top) ⊎ (fits (suc n) ≡ false))
                  (omega (arith, ltb-false→le low high e)) h,
            )
      | inl e ↦
          let p = ltb→lt low high e in
          elim (Bool-cases (fits requested)) [
            | inl f ↦
                rw (e, f, bisect)
                  (bisect-Found fits top fuel requested high (omega arith) b (omega arith) (inr f)
                    h)
            | inr f ↦
                rw (e, f, bisect)
                  (bisect-Found fits top fuel low (requested - 1) (omega arith) (omega arith)
                    (omega arith) l (inr (subst (λ n. fits n ≡ false) (omega arith) f)))
          ]
    ]

down-IsBoundary : (s : Text) (n : ℕ) → is_char_boundary s (down_to_boundary s n) ≡ true
unfolding down_to_boundary split_at
down-IsBoundary [] zero = refl
down-IsBoundary (c ∷ s) zero = refl
down-IsBoundary s (suc n) = elim (Bool-cases (is_char_boundary s (suc n))) [
  | inl e ↦ rw (e, down_to_boundary) e
  | inr e ↦ rw (e, down_to_boundary) (down-IsBoundary s n)
]

split_at-eq :
    (s : Text) (n : ℕ) (a b : Text) → split_at s n ≡ some (a, b) → (s ≡ a ++ b) × (byte_len a ≡ n)
unfolding split_at byte_len
split_at-eq [] zero a b e =
    let f = some_inj e in
    let g : [] ≡ a = ap (λ (p : Text × Text). p.0) f in
    let h : [] ≡ b = ap (λ (p : Text × Text). p.1) f in
    (subst (λ u. [] ≡ u ++ b) g h, subst (λ u. byte_len u ≡ 0) g refl)
split_at-eq (c ∷ s) zero a b e =
    let f = some_inj e in
    let g : [] ≡ a = ap (λ (p : Text × Text). p.0) f in
    let h : c ∷ s ≡ b = ap (λ (p : Text × Text). p.1) f in
    (subst (λ u. c ∷ s ≡ u ++ b) g h, subst (λ u. byte_len u ≡ 0) g refl)
split_at-eq [] (suc n) a b e = cc
split_at-eq (c ∷ s) (suc n) a b e = elim (Bool-cases (leb (utf8_len c) (suc n))) [
  | inr f ↦ absurd (cc (rw f at e))
  | inl f ↦
      let ((a', b'), g, k) = bind_inv (split_at s (suc n - utf8_len c)) _ (rw f at e) in
      let (p, q) = split_at-eq s (suc n - utf8_len c) a' b' g in
      let l = leb→le (utf8_len c) (suc n) f in
      let m = some_inj k in
      let u : c ∷ a' ≡ a = ap (λ (x : Text × Text). x.0) m in
      let v : b' ≡ b = ap (λ (x : Text × Text). x.1) m in
      (
        subst (λ x. c ∷ s ≡ x ++ b) u (subst (λ x. c ∷ s ≡ c ∷ (a' ++ x)) v (ap (c ∷◌) p)),
        subst (λ x. byte_len x ≡ suc n) u (omega (arith, q, l)),
      )
]

-- The offset of a cut is a character boundary: the slice of the source does not panic.
cut_to-eq :
    (s : Text) (n : ℕ)
    → (b : Text) × (split_at s (floor_char_boundary s n) ≡ some (cut_to s n, b))
      × (s ≡ cut_to s n ++ b)
unfolding floor_char_boundary cut_to
cut_to-eq s n =
    let at = down_to_boundary s (min n (byte_len s)) in
    elim (Option-cases (split_at s at)) [
      | inl e ↦ absurd (cc (rw e at (down-IsBoundary s (min n (byte_len s)))))
      | inr ((a, b), e) ↦ rw (e, cut_to) (b, refl, (split_at-eq s at a b e).0)
    ]

pub cut_to-0 : (s : Text) → cut_to s 0 ≡ []
unfolding cut_to floor_char_boundary down_to_boundary split_at
cut_to-0 [] = refl
cut_to-0 (c ∷ s) = let e : min 0 (byte_len (c ∷ s)) ≡ 0 = omega arith in rw (e, cut_to) refl

-- A file that is cut at an offset: it keeps a prefix of its patch up to a character boundary, the
-- prompt for it alone is in the limit unless nothing of the patch is kept, and for the next offset
-- it is beyond the limit unless all of it is kept.
abbrev pub LargestCut :
    EnrichmentRequest
    → (EnrichmentRequest → ℕ)
    → ℕ
    → EnrichmentInputFile
    → Text
    → EnrichmentInputFile
    → Type 0
LargestCut request estimate_prompt limit file original result =
    (n : ℕ) × (result ≡ with_cut file (cut_to original n))
    × ((b : Text) × (original ≡ cut_to original n ++ b))
    × Found (λ k. fits_alone request estimate_prompt limit (with_cut file (cut_to original k)))
        (byte_len original) n

-- What becomes of a file that has the given patch.
abbrev pub Truncated :
    EnrichmentRequest
    → (EnrichmentRequest → ℕ)
    → ℕ
    → EnrichmentInputFile
    → Option Text
    → EnrichmentInputFile
    → Type 0
Truncated request estimate_prompt limit file patch result =
    ((result ≡ file) × ((patch ≡ none) ⊎ (fits_alone request estimate_prompt limit file ≡ true)))
    ⊎ ((original : Text) × (patch ≡ some original)
        × (fits_alone request estimate_prompt limit file ≡ false)
        × LargestCut request estimate_prompt limit file original result)

truncate_patch-Truncated :
    (request : EnrichmentRequest) (estimate_prompt : EnrichmentRequest → ℕ) (limit : ℕ)
    (file : EnrichmentInputFile) (patch : Option Text)
    → Truncated request estimate_prompt limit file patch
        (truncate_patch request estimate_prompt limit file patch)
unfolding truncate_patch
truncate_patch-Truncated request estimate_prompt limit file none = inl (refl, inl refl)
truncate_patch-Truncated request estimate_prompt limit file (some original) =
    elim (Bool-cases (fits_alone request estimate_prompt limit file)) [
      | inl f ↦ inl (rw (f, truncate_patch) refl, inr f)
      | inr f ↦
          let fits = λ (k : ℕ).
            fits_alone request estimate_prompt limit (with_cut file (cut_to original k)) in
          let n = bisect fits (byte_len original) 0 (byte_len original) in
          let (b, p, q) = cut_to-eq original n in
          let found =
            bisect-Found fits (byte_len original) (byte_len original) 0 (byte_len original)
              (omega arith) (omega arith) (omega arith) (inl refl) (inl refl) in
          inr (original, refl, f, (n, rw (f, truncate_patch) refl, (b, q), found))
    ]

pub truncate-Truncated :
    (request : EnrichmentRequest) (estimate_prompt : EnrichmentRequest → ℕ) (limit : ℕ)
    (file : EnrichmentInputFile)
    → Truncated request estimate_prompt limit file file.patch
        (truncate_to_prompt_budget request estimate_prompt limit file)
unfolding truncate_to_prompt_budget
truncate-Truncated request estimate_prompt limit file =
    truncate_patch-Truncated request estimate_prompt limit file file.patch
