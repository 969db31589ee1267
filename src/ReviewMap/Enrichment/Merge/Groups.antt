-- ===== src/ReviewMap/Enrichment/Merge/Groups.antt =====
-- The groups that `merge_enrichment` of crates/ramo-core/src/review_map/enrichment.rs makes.
use ramo.Prelude.Machine.{wrap_add}
use mathlib.Core.List.{[]}
use mathlib.Core.Path.{ap₂}
use ramo.Prelude.Str.{text_eq, text_eq→eq, trim}
use ramo.ReviewMap.Enrichment.Accepted.{proposed_paths}
use ramo.Prelude.Text.{Text}
use ramo.ReviewMap.Enrichment.{is_flexible, ProposedGroup, file_at}
use ramo.ReviewMap.Enrichment.Merge.{members_at, proposed_groups, group_of_members, sum_of}
use ramo.Prelude.{
  List, none, map, ℕ, Each, ◌≡◌, true, ◌∷◌, some, ◌∙◌, ap, suc, ◌+◌, Option-cases, [], get_elem?,
  arith, append-Each, inl, refl, inr, sym, Bool-cases, ◌<◌, ◌%◌, ◌^◌, Option, some_inj,
}
use ramo.ReviewMap.{ReviewMapFile, ReviewMap, ReviewMapGroup}

-- The sum of an amount of files.
abbrev pub total_of : (ReviewMapFile → ℕ) → List ReviewMapFile → ℕ
total_of amount [] = 0
total_of amount (file ∷ rest) = amount file + total_of amount rest

sum_of-total_of :
    (amount : ReviewMapFile → ℕ) (sum : ℕ) (files : List ReviewMapFile)
    → sum < 2 ^ 64
    → sum_of amount sum files ≡ (sum + total_of amount files) % 2 ^ 64
unfolding sum_of
sum_of-total_of amount sum [] h = omega (arith, h)
sum_of-total_of amount sum (file ∷ rest) h =
    let ih = sum_of-total_of amount (wrap_add sum (amount file)) rest (omega arith) in
    omega (arith, ih)

sum_of-zero :
    (amount : ReviewMapFile → ℕ) (files : List ReviewMapFile)
    → sum_of amount 0 files ≡ total_of amount files % 2 ^ 64
sum_of-zero amount files = omega (arith, sum_of-total_of amount 0 files (omega arith))

-- A group is made of the files of the map that have the paths of a proposed group, in order.
abbrev pub IsGroup : ReviewMap → ProposedGroup → ReviewMapGroup → Type 0
IsGroup review proposed group =
    (members : List ReviewMapFile) × (map (λ (member : ReviewMapFile). member.path) members
      ≡ proposed.paths)
    × Each (λ (member : ReviewMapFile). (n : ℕ) × (get_elem? review.files n ≡ some member)) members
    × (group.file_ids ≡ map (λ (member : ReviewMapFile). member.id) members)
    × (group.label ≡ trim proposed.label)
    × (group.additions ≡ total_of ReviewMapFile.additions members % 2 ^ 64)
    × (group.deletions ≡ total_of ReviewMapFile.deletions members % 2 ^ 64)

-- One group for each proposed group.
abbrev pub AreGroups : ReviewMap → List ProposedGroup → List ReviewMapGroup → Type 0
AreGroups review [] [] = Unit
AreGroups review (proposed ∷ rest) (group ∷ groups) =
    IsGroup review proposed group × AreGroups review rest groups
AreGroups review _ _ = ⊥

-- The file of a path is in the list, and has the path.
file_at-found :
    (files : List ReviewMapFile) (path : Text) (file : ReviewMapFile)
    → file_at files path ≡ some file
    → (n : ℕ) × (get_elem? files n ≡ some file) × (file.path ≡ path)
unfolding file_at
file_at-found [] path file e = cc
file_at-found (other ∷ rest) path file e = elim (Option-cases (file_at rest path)) [
  | inr (later, f) ↦ let (n, p, q) = file_at-found rest path file (f ∙ (rw f at e)) in (suc n, p, q)
  | inl f ↦ elim (Bool-cases (text_eq other.path path)) [
    | inl g ↦
        let same : Path (Option ReviewMapFile) (some other) (some file) = rw (f, g) at e in
        (0, same, ap ReviewMapFile.path (sym (some_inj same)) ∙ text_eq→eq other.path path g)
    | inr g ↦ absurd (nothing (rw (f, g) at e))
  ]
]
  where
    nothing : none ≡ some file → ⊥
    nothing e = cc

module _ (review : ReviewMap) where
  abbrev IsMember : ReviewMapFile → Type 0
  IsMember member = (n : ℕ) × (get_elem? review.files n ≡ some member)

  members_at-Within :
      (paths : List Text)
      → Each (λ path. is_flexible review.files path ≡ true) paths
      → (members : List ReviewMapFile) × (members_at review.files paths ≡ some members)
        × (map (λ (member : ReviewMapFile). member.path) members ≡ paths)
        × Each IsMember members
  unfolding members_at
  members_at-Within [] h = ([], refl, refl, tt)
  members_at-Within (path ∷ rest) (e, h) =
      let (members, p, q, inside) = members_at-Within rest h in
      elim (Option-cases (file_at review.files path)) [
        | inl f ↦ cc (rw (f, is_flexible) at e)
        | inr (file, f) ↦
            let (n, a, b) = file_at-found review.files path file f in
            (
              file ∷ members,
              rw (f, members_at) (rw p refl),
              ap₂ (λ (x : Text) (xs : List Text). x ∷ xs) b q,
              ((n, a), inside),
            )
      ]

  pub proposed_groups-AreGroups :
      (index : ℕ) (groups : List ProposedGroup)
      → Each (λ path. is_flexible review.files path ≡ true) (proposed_paths groups)
      → (built : List ReviewMapGroup) × (proposed_groups review index groups ≡ some built)
        × AreGroups review groups built
  unfolding proposed_groups
  proposed_groups-AreGroups index [] h = ([], refl, tt)
  proposed_groups-AreGroups index (group ∷ rest) h =
      let (here, there) =
        append-Each (λ path. is_flexible review.files path ≡ true) group.paths (proposed_paths rest)
          h in
      let (members, p, paths, inside) = members_at-Within group.paths here in
      let (later, q, more) = proposed_groups-AreGroups (suc index) rest there in
      (
        group_of_members review index group members ∷ later,
        rw (p, proposed_groups) (rw q refl),
        (
          (
            members,
            paths,
            inside,
            refl,
            refl,
            sum_of-zero ReviewMapFile.additions members,
            sum_of-zero ReviewMapFile.deletions members,
          ),
          more,
        ),
      )
