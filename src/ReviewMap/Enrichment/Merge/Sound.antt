-- ===== src/ReviewMap/Enrichment/Merge/Sound.antt =====
-- What `merge_enrichment` of crates/ramo-core/src/review_map/enrichment.rs gives.
use ramo.ReviewMap.Enrichment.Merge.Groups.{AreGroups, proposed_groups-AreGroups}
use mathlib.Core.List.{[]}
use ramo.ReviewMap.Exact.{validate_exact_map}
use ramo.Prelude.Str.{text_eq, text_eq→eq}
use ramo.Prelude.Result.{
  Result, success, Result-cases, failure, never-success, success_inj, failure_inj,
}
use ramo.Prelude.Sets.{contains, none_of, text_eq_sym, contains-Each}
use ramo.ReviewMap.Exact.Partition.{IsExact, validate_exact_map-IsExact}
use ramo.ReviewMap.Enrichment.Accepted.{Regroups, proposed_paths, validate_enrichment-Regroups}
use ramo.Prelude.Text.{Text}
use ramo.ReviewMap.Enrichment.{
  EnrichmentProposal, is_flexible, EnrichmentError, validate_enrichment, invalid_merge, is_fixed,
}
use ramo.ReviewMap.Enrichment.Merge.{
  order_at, merge_enrichment, checked_map, with_all, merged_map, error_text,
}
use ramo.Prelude.{
  List, none, map, ℕ, Each, ◌≡◌, true, false, ◌∷◌, some, ◌∙◌, ap, suc, ◌+◌, [], get_elem?, arith,
  inl, refl, Bool, inr, ◌||◌, sym, Bool-cases, subst, ◌++◌, keep,
}
use ramo.ReviewMap.{ReviewMapFile, ReviewMap, ReviewMapAnalysis, ReviewMapGroup}

-- A file without what a proposal adds to it.
abbrev pub bare : ReviewMapFile → ReviewMapFile
bare file = record file { insight = none; recommended_order = none }

abbrev pub bare_files : ReviewMap → List ReviewMapFile
bare_files review = map bare review.files

-- A file that can be regrouped has the place of its path in the order, counted from 1, and another
-- file has none.
abbrev pub IsOrdered : List ReviewMapFile → List Text → ReviewMapFile → Type 0
IsOrdered files order file =
    (is_flexible files file.path ≡ true
      → (n : ℕ) × (file.recommended_order ≡ some (suc n)) × (get_elem? order n ≡ some file.path))
    × (is_flexible files file.path ≡ false → file.recommended_order ≡ none)

order_at-none :
    (place : ℕ) (order : List Text) (path : Text)
    → contains order path ≡ false
    → order_at place order path ≡ none
unfolding order_at
order_at-none place [] path e = refl
order_at-none place (first ∷ rest) path e =
    let (p, q) = none_of (text_eq path first) (contains rest path) e in
    rw (order_at-none (suc place) rest path q, order_at) (rw (text_eq_sym first path, p) refl)

order_at-found :
    (place : ℕ) (order : List Text) (path : Text)
    → contains order path ≡ true
    → (n : ℕ) × (order_at place order path ≡ some (place + n)) × (get_elem? order n ≡ some path)
unfolding order_at
order_at-found place [] path e = cc
order_at-found place (first ∷ rest) path e = elim (Bool-cases (contains rest path)) [
  | inl f ↦
      let (n, p, q) = order_at-found (suc place) rest path f in
      (suc n, rw (p, order_at) (ap some {x = suc place + n} {y = place + suc n} (omega arith)), q)
  | inr f ↦
      let g : text_eq path first ≡ true = first_is (text_eq path first) (contains rest path) e f in
      (
        0,
        rw (order_at-none (suc place) rest path f, order_at)
            (rw (text_eq_sym first path, g) (ap some {x = place} {y = place + 0} (omega arith))),
        ap some (sym (text_eq→eq path first g)),
      )
]
  where
    first_is : (a b : Bool) → (a || b) ≡ true → b ≡ false → a ≡ true
    first_is a b e f = ground arith

with_proposal-IsOrdered :
    (map : ReviewMap) (proposal : EnrichmentProposal)
    → Regroups map.files proposal.review_order
    → (files : List ReviewMapFile)
    → Each (IsOrdered map.files proposal.review_order) (with_all proposal files)
with_proposal-IsOrdered map proposal h [] = tt
with_proposal-IsOrdered map proposal (dist, same) (file ∷ rest) = (
  (
    λ e.
        let (n, p, q) = order_at-found 1 proposal.review_order file.path (same file.path ∙ e) in
        (n, p ∙ ap some {x = 1 + n} {y = suc n} (omega arith), q),
    λ e. order_at-none 1 proposal.review_order file.path (same file.path ∙ e),
  ),
  with_proposal-IsOrdered map proposal (dist, same) rest,
)

bare-with_all :
    (proposal : EnrichmentProposal) (files : List ReviewMapFile)
    → map bare (with_all proposal files) ≡ map bare files
bare-with_all proposal [] = refl
bare-with_all proposal (file ∷ rest) = ap (bare file ∷◌) (bare-with_all proposal rest)

-- A map that is checked is given if it is exact, and only then.
checked_map-cases :
    (merged : ReviewMap)
    → (IsExact merged → checked_map merged ≡ success merged)
      × (¬ IsExact merged
          → (message : Text) × (checked_map merged ≡ failure (invalid_merge message)))
checked_map-cases merged = elim (Result-cases (validate_exact_map merged)) [
  | inl (tt, f) ↦ (
    λ exact. rw (f, checked_map) refl,
    λ inexact. absurd (inexact ((validate_exact_map-IsExact merged).0 f)),
  )
  | inr (error, f) ↦ (
    λ exact. absurd (never-success (sym f ∙ (validate_exact_map-IsExact merged).1 exact)),
    λ inexact. (error_text error, rw (f, checked_map) refl),
  )
]

checked_map-given : (whole merged : ReviewMap) → checked_map whole ≡ success merged → IsExact merged
checked_map-given whole merged e = elim (Result-cases (validate_exact_map whole)) [
  | inl (tt, f) ↦
      subst IsExact (success_inj (rw (f, checked_map) at e))
        ((validate_exact_map-IsExact whole).0 f)
  | inr (error, f) ↦ absurd (never-success (rw (f, checked_map) at e))
]

-- What a proposal makes of a map: the files and the totals are the old ones but for the insights and
-- the order, each file that can be regrouped has its place in the proposed order, and the groups are
-- those of the proposal and, behind them, the old ones of a fixed kind.
abbrev pub Merges : ReviewMap → EnrichmentProposal → ReviewMap → Type 0
Merges review proposal merged =
    (merged.totals ≡ review.totals)
    × (bare_files merged ≡ bare_files review)
    × Each (IsOrdered review.files proposal.review_order) merged.files
    × ((built : List ReviewMapGroup) × (merged.groups
          ≡ built ++ keep (λ (group : ReviewMapGroup). is_fixed group.kind) review.groups)
        × AreGroups review proposal.groups built)

-- Merging a proposal never panics. It fails with the error of the checks of the proposal if they
-- fail. Otherwise there is a map that the proposal makes of the old one: its files and totals are the
-- old ones but for the insights and the order, each file that can be regrouped has its place in the
-- proposed order and no other file has one, and its groups are one for each proposed group, with the
-- files of its paths, its trimmed label and their sums, and behind them the old groups of a fixed
-- kind. If that map is exact, it is the result, and if it is not, the merge fails as invalid, so that
-- a map that is given is exact.
pub merge_enrichment-Merges :
    (review : ReviewMap) (proposal : EnrichmentProposal) (analysis : ReviewMapAnalysis)
    → (result : Result ReviewMap EnrichmentError) × (merge_enrichment review proposal analysis
        ≡ some result)
      × ((error : EnrichmentError)
          → validate_enrichment review proposal ≡ failure error
          → result ≡ failure error)
      × (validate_enrichment review proposal ≡ success tt
          → (merged : ReviewMap) × Merges review proposal merged
            × (IsExact merged → result ≡ success merged)
            × (¬ IsExact merged → (message : Text) × (result ≡ failure (invalid_merge message))))
      × ((merged : ReviewMap) → result ≡ success merged → IsExact merged)
unfolding merge_enrichment
merge_enrichment-Merges review proposal analysis =
    elim (Result-cases (validate_enrichment review proposal)) [
      | inr (error, e) ↦ (
        failure error,
        rw (e, merge_enrichment) refl,
        λ other f. ap failure (failure_inj (sym e ∙ f)),
        λ f. absurd (never-success (sym e ∙ f)),
        λ merged f. absurd (never-success f),
      )
      | inl (tt, e) ↦
          let (grouped, ordered, labels) = validate_enrichment-Regroups review proposal e in
          let (groups, p, shape) =
            proposed_groups-AreGroups review 0 proposal.groups (listed grouped) in
          let whole = merged_map review proposal analysis groups in
          let (exact, inexact) = checked_map-cases whole in
          (
            checked_map whole,
            rw (e, merge_enrichment) (rw p refl),
            λ error f. absurd (never-success (sym f ∙ e)),
            λ f. (
              whole,
              (
                refl,
                bare-with_all proposal review.files,
                with_proposal-IsOrdered review proposal ordered review.files,
                (groups, refl, shape),
              ),
              exact,
              inexact,
            ),
            λ merged f. checked_map-given whole merged f,
          )
    ]
  where
    listed :
        Regroups review.files (proposed_paths proposal.groups)
        → Each (λ path. is_flexible review.files path ≡ true) (proposed_paths proposal.groups)
    listed (dist, same) =
        contains-Each (λ path. is_flexible review.files path ≡ true)
          (proposed_paths proposal.groups) λ x e. sym (same x) ∙ e
