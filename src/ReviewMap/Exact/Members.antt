-- ===== src/ReviewMap/Exact/Members.antt =====
-- The members of a group, as `validate_exact_map` of
-- crates/ramo-core/src/review_map/planner.rs reads them.
-- The groups' sums, and what a member adds to one.
use ramo.Prelude.Str.{text_eq}
use ramo.Prelude.Machine.{wrap_add}
use mathlib.Core.List.{[]}
use mathlib.Core.Option.{none}
use ramo.Prelude.Result.{success, failure}
use ramo.Prelude.Sets.{contains, Within, Distinct, Apart, cons-Apart, text_eq_sym, Apart-cons}
use ramo.Prelude.Text.{Text}
use ramo.ReviewMap.Exact.{find_file, check_members, ids_of, ReviewMapError}
use ramo.Prelude.{
  List, ℕ, Option, ◌≡◌, ◌<◌, ◌∷◌, ◌+◌, ◌%◌, some, ◌||◌, ◌^◌, true, none, [], Bool-cases, ap, sym,
  arith, inl, refl, Bool, inr, Option-cases, ◌∙◌,
}
use ramo.ReviewMap.{ReviewMapFile, ReviewMapGroup}

abbrev pub added_by : (ReviewMapFile → ℕ) → Option ReviewMapFile → ℕ
added_by amount none = 0
added_by amount (some file) = amount file

abbrev pub sum_over : (ReviewMapFile → ℕ) → List ReviewMapFile → List Text → ℕ
sum_over amount files [] = 0
sum_over amount files (id ∷ rest) =
    added_by amount (find_file files id) + sum_over amount files rest

-- The numbers of a group are those of its members, in the range of `usize`.
abbrev pub HasSums : List ReviewMapFile → ReviewMapGroup → Type 0
HasSums files group =
    (group.additions ≡ sum_over ReviewMapFile.additions files group.file_ids % 2 ^ 64)
    × (group.deletions ≡ sum_over ReviewMapFile.deletions files group.file_ids % 2 ^ 64)

-- A file that is found has its identity among the files.
pub find_file-contains :
    (files : List ReviewMapFile) (id : Text) (file : ReviewMapFile)
    → find_file files id ≡ some file
    → contains (ids_of files) id ≡ true
unfolding find_file
find_file-contains [] id file e = cc
find_file-contains (other ∷ rest) id file e = elim (Bool-cases (text_eq other.id id)) [
  | inl f ↦ rw (text_eq_sym id other.id, f) refl
  | inr f ↦ rw (text_eq_sym id other.id, f) (find_file-contains rest id file (rw f at e))
]

contains-find_file :
    (files : List ReviewMapFile) (id : Text)
    → contains (ids_of files) id ≡ true
    → (file : ReviewMapFile) × (find_file files id ≡ some file)
unfolding find_file
contains-find_file [] id e = cc
contains-find_file (other ∷ rest) id e = elim (Bool-cases (text_eq other.id id)) [
  | inl f ↦ rw f (other, refl)
  | inr f ↦ rw f (contains-find_file rest id (rw (text_eq_sym id other.id, f) at e))
]

-- The files have what the members ask for.
abbrev pub Known : List ReviewMapFile → List Text → Type 0
Known files ids = Within (ids_of files) ids

-- What is known after some members: they are new, each is a file, and the sums are theirs.
abbrev pub Members : List ReviewMapFile → List Text → ℕ → ℕ → List Text → List Text × ℕ × ℕ → Type 0
Members files seen additions deletions ids (seen', additions', deletions') =
    ((x : Text) → contains seen' x ≡ (contains ids x || contains seen x))
    × Distinct ids
    × Apart seen ids
    × Known files ids
    × (additions' ≡ (additions + sum_over ReviewMapFile.additions files ids) % 2 ^ 64)
    × (deletions' ≡ (deletions + sum_over ReviewMapFile.deletions files ids) % 2 ^ 64)

module _ (files : List ReviewMapFile) where
  pub check_members-Members :
      (seen : List Text) (additions deletions : ℕ) (ids : List Text) (found : List Text × ℕ × ℕ)
      → additions < 2 ^ 64
      → deletions < 2 ^ 64
      → check_members files seen additions deletions ids ≡ success found
      → Members files seen additions deletions ids found
  unfolding check_members
  check_members-Members seen a d [] (seen', a', d') l m e =
      let p : seen ≡ seen' = cc in
      let q : a ≡ a' = cc in
      let r : d ≡ d' = cc in
      (λ x. ap (λ s. contains s x) (sym p), tt, tt, tt, omega (arith, l, q), omega (arith, m, r))
  check_members-Members seen a d (id ∷ rest) (seen', a', d') l m e =
      elim (Bool-cases (contains seen id)) [
        | inl f ↦ absurd (never (rw f at e))
        | inr f ↦ elim (Option-cases (find_file files id)) [
          | inl g ↦ absurd (never (rw (f, g) at e))
          | inr (file, g) ↦
              let (s, dist, apart, known, p, q) =
                check_members-Members (id ∷ seen) (wrap_add a file.additions)
                  (wrap_add d file.deletions) rest (seen', a', d') (omega arith) (omega arith)
                  (rw (f, g) at e) in
              let (ap', new) = Apart-cons seen id rest apart in
              (
                λ x. s x ∙ shift (contains rest x) (text_eq x id) (contains seen x),
                (new, dist),
                (f, ap'),
                (find_file-contains files id file g, known),
                rw g (omega (arith, p)),
                rw g (omega (arith, q)),
              )
        ]
      ]
    where
      shift : (a b c : Bool) → (a || (b || c)) ≡ ((b || a) || c)
      shift a b c = ground arith

      never :
          {error : ReviewMapError} {found : List Text × ℕ × ℕ} → failure error ≡ success found → ⊥
      never e = cc

  pub Members-check_members :
      (seen : List Text) (additions deletions : ℕ) (ids : List Text)
      → Distinct ids
      → Apart seen ids
      → Known files ids
      → (found : List Text × ℕ × ℕ) × (check_members files seen additions deletions ids
          ≡ success found)
  unfolding check_members
  Members-check_members seen a d [] dist apart known = (_, refl)
  Members-check_members seen a d (id ∷ rest) (new, dist) (f, apart) (k, known) =
      let (file, g) = contains-find_file files id k in
      let (found, e) =
        Members-check_members (id ∷ seen) (wrap_add a file.additions) (wrap_add d file.deletions)
          rest dist (cons-Apart seen id rest apart new) known in
      (found, rw (f, g) e)
