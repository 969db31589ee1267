-- ===== src/ReviewMap/Exact/Partition.antt =====
-- What `validate_exact_map` of crates/ramo-core/src/review_map/planner.rs accepts.
use mathlib.Core.List.{[]}
use ramo.ReviewMap.Exact.Members.{Known, HasSums, check_members-Members, Members-check_members}
use ramo.Prelude.Result.{success, success_inv, failure}
use ramo.Prelude.Text.{Text}
use ramo.Prelude.Sets.{
  Distinct, contains, Apart, Within, Within-missing, contains-Within, Within-strange,
  Within-contains, append-Distinct, Within-same, append-Apart, Apart-nil, append-Within, Apart-both,
  both-Apart, none_of, contains-append, missing-Within, Distinct-append, Apart-append,
  Within-append,
}
use ramo.ReviewMap.Exact.{
  same_totals, validate_exact_map, check_groups, check_whole, totals_of, ids_of, ReviewMapError,
  check_members, first_missing, sums_differ,
}
use ramo.ReviewMap.{ReviewMap, ReviewMapGroup, ReviewMapFile, ReviewMapTotals}
use ramo.Prelude.{
  List, Bool, ◌||◌, ◌≡◌, true, false, ◌∷◌, ◌++◌, ap, arith, ◌↔◌, refl, Each, sym, subst, [], ℕ, not,
  ◌∙◌, ◌==◌, Option-cases, inr, Bool-cases, inl, any,
}

abbrev pub members_of : List ReviewMapGroup → List Text
members_of [] = []
members_of (group ∷ rest) = group.file_ids ++ members_of rest

-- The groups are a partition of the files, with the right numbers.
abbrev pub IsExact : ReviewMap → Type 0
IsExact map =
    Distinct (members_of map.groups)
    × ((id : Text) → contains (members_of map.groups) id ≡ contains (ids_of map.files) id)
    × Each (HasSums map.files) map.groups
    × (totals_of map.files ≡ map.totals)

module _ (files : List ReviewMapFile) where
  -- What is known after some groups.
  abbrev Groups : List Text → List ReviewMapGroup → List Text → Type 0
  Groups seen groups final =
      ((x : Text) → contains final x ≡ (contains (members_of groups) x || contains seen x))
      × Distinct (members_of groups)
      × Apart seen (members_of groups)
      × Known files (members_of groups)
      × Each (HasSums files) groups

  check_groups-Groups :
      (seen : List Text) (groups : List ReviewMapGroup) (final : List Text)
      → check_groups files seen groups ≡ success final
      → Groups seen groups final
  unfolding check_groups
  check_groups-Groups seen [] final e =
      let p : seen ≡ final = cc in (λ x. ap (λ s. contains s x) (sym p), tt, tt, tt, tt)
  check_groups-Groups seen (group ∷ rest) final e =
      let ((seen', a, d), p, q) = success_inv (check_members files seen 0 0 group.file_ids) _ e in
      let (s, dist, apart, known, u, v) =
        check_members-Members files seen 0 0 group.file_ids (seen', a, d) (omega arith)
          (omega arith) p in
      elim (Bool-cases (sums_differ group a d)) [
        | inl f ↦ absurd (never (rw f at q))
        | inr f ↦
            let (s', dist', apart', known', sums) =
              check_groups-Groups seen' rest final (rw f at q) in
            let (x, y) = Apart-both seen' group.file_ids seen (members_of rest) s apart' in
            let (g, h) = none_of (not (a == group.additions)) (not (d == group.deletions)) f in
            (
              λ i.
                  s' i
                  ∙ ap (contains (members_of rest) i ||◌) (s i)
                  ∙ shift (contains (members_of rest) i) (contains group.file_ids i)
                      (contains seen i)
                  ∙ ap (◌|| contains seen i)
                      (sym (contains-append group.file_ids (members_of rest) i)),
              Distinct-append group.file_ids (members_of rest) dist dist' x,
              Apart-append seen group.file_ids (members_of rest) apart y,
              Within-append (ids_of files) group.file_ids (members_of rest) known known',
              (
                (
                  omega (arith, equal_of a group.additions g, u),
                  omega (arith, equal_of d group.deletions h, v),
                ),
                sums,
              ),
            )
      ]
    where
      never : {error : ReviewMapError} {found : List Text} → failure error ≡ success found → ⊥
      never e = cc

      shift : (a b c : Bool) → (a || (b || c)) ≡ ((b || a) || c)
      shift a b c = ground arith

      equal_of : (m n : ℕ) → not (m == n) ≡ false → m ≡ n
      equal_of m n e = ground arith

  Groups-check_groups :
      (seen : List Text) (groups : List ReviewMapGroup)
      → Distinct (members_of groups)
      → Apart seen (members_of groups)
      → Known files (members_of groups)
      → Each (HasSums files) groups
      → (final : List Text) × (check_groups files seen groups ≡ success final)
  unfolding check_groups
  Groups-check_groups seen [] dist apart known sums = (seen, refl)
  Groups-check_groups seen (group ∷ rest) dist apart known ((p, q), sums) =
      let (dist_here, dist_later, between) =
        append-Distinct group.file_ids (members_of rest) dist in
      let (apart_here, apart_later) = append-Apart seen group.file_ids (members_of rest) apart in
      let (known_here, known_later) =
        append-Within (ids_of files) group.file_ids (members_of rest) known in
      let ((seen', a, d), e) =
        Members-check_members files seen 0 0 group.file_ids dist_here apart_here known_here in
      let (s, _, _, _, u, v) =
        check_members-Members files seen 0 0 group.file_ids (seen', a, d) (omega arith)
          (omega arith) e in
      let (final, f) =
        Groups-check_groups seen' rest dist_later
          (both-Apart seen' group.file_ids seen (members_of rest) s between apart_later) known_later
          sums in
      let g : sums_differ group a d ≡ false =
        differ a group.additions d group.deletions (omega (arith, p, u)) (omega (arith, q, v)) in
      (final, rw e (rw g f))
    where
      differ : (a b c d : ℕ) → a ≡ b → c ≡ d → (not (a == b) || not (c == d)) ≡ false
      differ a b c d e f = ground arith

-- `==` of totals is equality.
same_totals-eq : (a b : ReviewMapTotals) → same_totals a b ≡ true → a ≡ b
unfolding same_totals
same_totals-eq a b e =
    let p : (a.files ≡ b.files)
        × (a.additions ≡ b.additions)
        × (a.deletions ≡ b.deletions)
        × (a.authored ≡ b.authored) =
      ground arith in
    let q : (a.tests ≡ b.tests)
        × (a.generated ≡ b.generated)
        × (a.migrations ≡ b.migrations)
        × (a.documentation ≡ b.documentation) =
      ground arith in
    let (f, g, h, i) = p in
    let (j, k, l, m) = q in
    λ t. record {
      files = f t;
      additions = g t;
      deletions = h t;
      authored = i t;
      tests = j t;
      generated = k t;
      migrations = l t;
      documentation = m t;
    }

same_totals_refl : (a : ReviewMapTotals) → same_totals a a ≡ true
unfolding same_totals
same_totals_refl a = ground arith

check_whole-success :
    (map : ReviewMap) (final : List Text)
    → check_whole map final ≡ success tt
    → (totals_of map.files ≡ map.totals) × Within final (ids_of map.files)
unfolding same_totals
check_whole-success map final e = elim (Option-cases (first_missing final (ids_of map.files))) [
  | inr (id, f) ↦ absurd (never (rw (f, check_whole) at e))
  | inl f ↦
      elim (Bool-cases (
        any (λ id. not (contains (ids_of map.files) id)) final
        || not (same_totals (totals_of map.files) map.totals))) [
          | inl g ↦ absurd (never (rw (f, g, check_whole) at e))
          | inr g ↦ (
            same_totals-eq (totals_of map.files) map.totals (is_true _ (none_of _ _ g).1),
            missing-Within final (ids_of map.files) f,
          )
        ]
]
  where
    never : {error : ReviewMapError} → failure error ≡ success tt → ⊥
    never e = cc

    is_true : (b : Bool) → not b ≡ false → b ≡ true
    is_true true e = refl
    is_true false e = cc

success-check_whole :
    (map : ReviewMap) (final : List Text)
    → totals_of map.files ≡ map.totals
    → Within final (ids_of map.files)
    → Within (ids_of map.files) final
    → check_whole map final ≡ success tt
success-check_whole map final total within strange =
    let same : same_totals (totals_of map.files) map.totals ≡ true =
      subst (λ totals. same_totals (totals_of map.files) totals ≡ true) total
        (same_totals_refl (totals_of map.files)) in
    rw (Within-missing final (ids_of map.files) within, check_whole)
      (rw (Within-strange (ids_of map.files) final strange, same) refl)

or_false : (b : Bool) → (b || false) ≡ true → b ≡ true
or_false true e = refl
or_false false e = e

-- A review map is accepted exactly if its groups are a partition of its files: no file stands
-- twice, every file stands in a group and every member is a file; if the numbers of each group
-- are those of its members, in the range of `usize`; and if the totals are those of the files.
pub validate_exact_map-IsExact :
    (map : ReviewMap) → (validate_exact_map map ≡ success tt) ↔ IsExact map
unfolding validate_exact_map
validate_exact_map-IsExact map = (
  λ e.
      let (final, p, q) = success_inv (check_groups map.files [] map.groups) (check_whole map) e in
      let (s, dist, apart, known, sums) = check_groups-Groups map.files [] map.groups final p in
      let (total, within) = check_whole-success map final q in
      let covered = contains-Within (members_of map.groups) (ids_of map.files) λ x k.
        or_false (contains (members_of map.groups) x)
          (sym (s x) ∙ Within-contains final (ids_of map.files) x within k) in
      (dist, Within-same (members_of map.groups) (ids_of map.files) covered known, sums, total),
  λ (dist, same, sums, total).
      let known =
        contains-Within (ids_of map.files) (members_of map.groups) λ x k. sym (same x) ∙ k in
      let (final, p) =
        Groups-check_groups map.files [] map.groups dist (Apart-nil (members_of map.groups)) known
          sums in
      let s = (check_groups-Groups map.files [] map.groups final p).0 in
      let within = contains-Within final (ids_of map.files) λ x k. s x ∙ rw (same x ∙ k) refl in
      let strange =
        contains-Within (ids_of map.files) final
          λ x k. sym (same x) ∙ or_false (contains (members_of map.groups) x) (sym (s x) ∙ k) in
      rw p (success-check_whole map final total within strange),
)
