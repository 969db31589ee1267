-- ===== src/Context/Gaps.antt =====
-- The order of the gaps that src/review/context.rs derives.
use mathlib.Core.List.{[]}
use ramo.Prelude.Machine.{u32_max, sat_add32}
use ramo.Prelude.Text.{Text}
use ramo.Diff.{Hunk}
use ramo.Context.{gaps_before, CollapsedGap, old_lines, new_lines}
use ramo.Prelude.{
  ℕ, List, Each, ◌≤◌, ◌∷◌, suc, arith, max, [], min, ◌-◌, Bool-cases, ltb, inl, ltb→lt, inr,
}

-- From a place on either side on, the gaps follow one another and overlap on neither side, and
-- none is empty.
abbrev pub Ascending : ℕ → ℕ → List CollapsedGap → Type 0
Ascending old new [] = Unit
Ascending old new (gap ∷ rest) =
    (old ≤ gap.old_range.start)
    × (new ≤ gap.new_range.start)
    × (gap.old_range.start ≤ gap.old_range.end)
    × (gap.new_range.start ≤ gap.new_range.end)
    × Ascending (suc gap.old_range.end) (suc gap.new_range.end) rest

-- Line numbers of the type that the source gives them.
abbrev pub StartsFit : List Hunk → Type 0
StartsFit = Each (λ (h : Hunk). (h.old_start ≤ u32_max) × (h.new_start ≤ u32_max))

Ascending-mono :
    (gaps : List CollapsedGap) (old new old' new' : ℕ)
    → old' ≤ old
    → new' ≤ new
    → Ascending old new gaps
    → Ascending old' new' gaps
Ascending-mono [] old new old' new' p q a = tt
Ascending-mono (gap ∷ rest) old new old' new' p q a = (omega arith, omega arith, a.2, a.3, a.4)

pub gaps_before-Ascending :
    (id : Text) (index old new : ℕ) (hunks : List Hunk)
    → StartsFit hunks
    → Ascending old new (gaps_before id index old new hunks).0
unfolding gaps_before
gaps_before-Ascending id index old new [] h = tt
gaps_before-Ascending id index old new (hunk ∷ rest) h =
    let old' = max old (sat_add32 hunk.old_start (old_lines hunk)) in
    let new' = max new (sat_add32 hunk.new_start (new_lines hunk)) in
    let later = gaps_before-Ascending id (suc index) old' new' rest h.1 in
    let count = min (hunk.old_start - old) (hunk.new_start - new) in
    let (p, q) = h.0 in
    elim (Bool-cases (ltb 0 count)) [
      | inl some_lines ↦
          let c = ltb→lt 0 count some_lines in
          rw some_lines (
            omega arith,
            omega arith,
            omega arith,
            omega arith,
            Ascending-mono _ old' new' _ _ (omega arith) (omega arith) later,
          )
      | inr no_lines ↦
          rw no_lines (Ascending-mono _ old' new' old new (omega arith) (omega arith) later)
    ]
