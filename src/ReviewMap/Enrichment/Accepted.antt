-- ===== src/ReviewMap/Enrichment/Accepted.antt =====
-- What `validate_enrichment` of crates/ramo-core/src/review_map/enrichment.rs accepts.
use mathlib.Core.List.{[]}
use ramo.Prelude.Str.{trim, text_eq, text_eq→eq}
use ramo.Prelude.Sets.{
  contains, Distinct, Apart, Within, Apart-cons, Apart-both, contains-append, Distinct-append,
  Apart-append, missing-Within, Within-contains, text_eq_sym,
}
use ramo.ReviewMap.{ReviewMapFile, ReviewMap}
use ramo.Prelude.Result.{Result, failure, success, success_inv}
use ramo.Prelude.{
  Bool, List, ◌||◌, ◌≤◌, ℕ, ◌∷◌, ◌≡◌, ◌++◌, length, arith, [], ap, ◌==◌, Each, sym, ltb, true,
  false, Bool-cases, inl, inr, ◌∙◌, Each-append, Option-cases, keep, find_first, some, subst, not,
  map, refl, none,
}
use ramo.ReviewMap.Enrichment.{
  EnrichmentError, ProposedGroup, validate_text, insert_all, check_proposed, flexible_test,
  check_covered, max_label_chars, is_flexible, max_summary_chars, validate_optional_text,
  max_risk_chars, duplicate_file, file_at, flexible_paths, validate_enrichment, is_fixed,
  EnrichmentProposal, missing_file, check_insights, duplicate_order, missing_order,
}
use ramo.Prelude.Text.{Text, codes}

-- What is known after a loop that inserts paths.
abbrev pub Inserted :
    (Text → Result Unit EnrichmentError) → List Text → List Text → List Text → Type 0
Inserted valid set paths final =
    ((x : Text) → contains final x ≡ (contains paths x || contains set x))
    × Distinct paths
    × Apart set paths
    × Each (λ path. valid path ≡ success tt) paths

never : {A : Type 0} {error : EnrichmentError} {found : A} → failure error ≡ success found → ⊥
never e = cc

shift : (a b c : Bool) → (a || (b || c)) ≡ ((b || a) || c)
shift a b c = ground arith

module _ (valid : Text → Result Unit EnrichmentError) (duplicate : Text → EnrichmentError) where
  pub insert_all-Inserted :
      (set paths final : List Text)
      → insert_all valid duplicate set paths ≡ success final
      → Inserted valid set paths final
  unfolding insert_all
  insert_all-Inserted set [] final e =
      let p : set ≡ final = cc in (λ x. ap (λ s. contains s x) (sym p), tt, tt, tt)
  insert_all-Inserted set (path ∷ rest) final e =
      let (tt, p, q) = success_inv (valid path) _ e in
      elim (Bool-cases (contains set path)) [
        | inl f ↦ absurd (never (rw f at q))
        | inr f ↦
            let (s, dist, apart, ok) = insert_all-Inserted (path ∷ set) rest final (rw f at q) in
            let (apart', new) = Apart-cons set path rest apart in
            (
              λ x. s x ∙ shift (contains rest x) (text_eq x path) (contains set x),
              (new, dist),
              (f, apart'),
              (p, ok),
            )
      ]

abbrev pub proposed_paths : List ProposedGroup → List Text
proposed_paths [] = []
proposed_paths (group ∷ rest) = group.paths ++ proposed_paths rest

-- The label of a group has 1 to 80 characters, once trimmed.
abbrev pub HasLabel : ProposedGroup → Type 0
HasLabel group = (1 ≤ length (trim group.label)) × (length (trim group.label) ≤ max_label_chars)

pub validate_text-bounds :
    (field value : Text) (maximum : ℕ)
    → validate_text field value maximum ≡ success tt
    → (1 ≤ length (trim value)) × (length (trim value) ≤ maximum)
unfolding validate_text
validate_text-bounds field value maximum e =
    elim (Bool-cases (length (trim value) == 0 || ltb maximum (length (trim value)))) [
      | inl f ↦ absurd (never (rw f at e))
      | inr f ↦ inside (length (trim value)) maximum f
    ]
  where
    inside : (n m : ℕ) → (n == 0 || ltb m n) ≡ false → (1 ≤ n) × (n ≤ m)
    inside n m f = ground arith

module _ (files : List ReviewMapFile) where
  check_proposed-Inserted :
      (set : List Text) (groups : List ProposedGroup) (final : List Text)
      → check_proposed files set groups ≡ success final
      → Inserted (flexible_test files) set (proposed_paths groups) final × Each HasLabel groups
  unfolding check_proposed
  check_proposed-Inserted set [] final e =
      let p : set ≡ final = cc in ((λ x. ap (λ s. contains s x) (sym p), tt, tt, tt), tt)
  check_proposed-Inserted set (group ∷ rest) final e =
      let (tt, a, e1) =
        success_inv (validate_text (codes "group label") group.label max_label_chars) _ e in
      let (tt, b, e2) =
        success_inv (validate_text (codes "group summary") group.summary max_summary_chars) _ e1 in
      let (tt, c, e3) =
        success_inv (validate_optional_text (codes "group risk") group.risk max_risk_chars) _ e2 in
      let (found, d, e4) =
        success_inv (insert_all (flexible_test files) duplicate_file set group.paths) _ e3 in
      let (s, dist, apart, ok) =
        insert_all-Inserted (flexible_test files) duplicate_file set group.paths found d in
      let ((s', dist', apart', ok'), labels) = check_proposed-Inserted found rest final e4 in
      let later = proposed_paths rest in
      let (x, y) = Apart-both found group.paths set later s apart' in
      (
        (
          λ i.
              s' i
              ∙ ap (contains later i ||◌) (s i)
              ∙ shift (contains later i) (contains group.paths i) (contains set i)
              ∙ ap (◌|| contains set i) (sym (contains-append group.paths later i)),
          Distinct-append group.paths later dist dist' x,
          Apart-append set group.paths later apart y,
          Each-append (λ path. flexible_test files path ≡ success tt) group.paths later ok ok',
        ),
        (validate_text-bounds (codes "group label") group.label max_label_chars a, labels),
      )

  flexible_test-is_flexible :
      (path : Text) → flexible_test files path ≡ success tt → is_flexible files path ≡ true
  flexible_test-is_flexible path e = elim (Option-cases (file_at files path)) [
    | inl f ↦ absurd (never (rw (f, flexible_test) at e))
    | inr (file, f) ↦ elim (Bool-cases (is_fixed file.kind)) [
      | inl g ↦ absurd (never (rw (f, g, flexible_test) at e))
      | inr g ↦ rw (f, is_flexible) (rw g refl)
    ]
  ]

  check_covered-Within :
      (missing : Text → EnrichmentError) (set paths : List Text)
      → check_covered missing set paths ≡ success tt
      → Within set paths
  check_covered-Within missing set paths e =
      elim (Option-cases (find_first (λ path. not (contains set path)) paths)) [
        | inl f ↦ missing-Within set paths f
        | inr (path, f) ↦ absurd (never (rw (f, check_covered) at e))
      ]

-- A path that has a file is one of the files' paths.
file_at-contains :
    (files : List ReviewMapFile) (path : Text) (file : ReviewMapFile)
    → file_at files path ≡ some file
    → contains (map (λ (f : ReviewMapFile). f.path) files) path ≡ true
unfolding file_at
file_at-contains [] path file e = cc
file_at-contains (other ∷ rest) path file e = elim (Option-cases (file_at rest path)) [
  | inr (later, f) ↦ rw (file_at-contains rest path later f) (or_true (text_eq path other.path))
  | inl f ↦ elim (Bool-cases (text_eq other.path path)) [
    | inl g ↦ rw (text_eq_sym path other.path, g) refl
    | inr g ↦ absurd (nothing (rw (f, g) at e))
  ]
]
  where
    or_true : (b : Bool) → (b || true) ≡ true
    or_true true = refl
    or_true false = refl

    nothing : none ≡ some file → ⊥
    nothing e = cc

contains-keep :
    (p : Text → Bool) (xs : List Text) (x : Text)
    → contains xs x ≡ true
    → p x ≡ true
    → contains (keep p xs) x ≡ true
contains-keep p [] x h k = h
contains-keep p (y ∷ xs) x h k = elim (Bool-cases (text_eq x y)) [
  | inl e ↦ let f : p y ≡ true = ap p (sym (text_eq→eq x y e)) ∙ k in rw f (rw e refl)
  | inr e ↦
      let ih = contains-keep p xs x (rw e at h) k in
      elim (Bool-cases (p y)) [ inl f ↦ rw f (rw e ih) | inr f ↦ rw f ih ]
]

-- The paths are those of the files that can be grouped, each once.
abbrev pub Regroups : List ReviewMapFile → List Text → Type 0
Regroups files paths =
    Distinct paths × ((path : Text) → contains paths path ≡ is_flexible files path)

Inserted-Regroups :
    (files : List ReviewMapFile) (paths final : List Text)
    → Inserted (flexible_test files) [] paths final
    → Within final (flexible_paths files)
    → Regroups files paths
Inserted-Regroups files paths final (s, dist, apart, ok) within = (dist, λ x. same x)
  where
    flexible_of :
        (paths : List Text) (x : Text)
        → Each (λ path. flexible_test files path ≡ success tt) paths
        → contains paths x ≡ true
        → is_flexible files x ≡ true
    flexible_of [] x h e = cc
    flexible_of (y ∷ rest) x (p, h) e = elim (Bool-cases (text_eq x y)) [
      | inl f ↦
          subst (λ z. is_flexible files z ≡ true) (sym (text_eq→eq x y f))
            (flexible_test-is_flexible files y p)
      | inr f ↦ flexible_of rest x h (rw f at e)
    ]

    or_false : (b : Bool) → (b || false) ≡ true → b ≡ true
    or_false true e = refl
    or_false false e = e

    listed : (x : Text) → is_flexible files x ≡ true → contains (flexible_paths files) x ≡ true
    listed x e = elim (Option-cases (file_at files x)) [
      | inl f ↦ cc (rw (f, is_flexible) at e)
      | inr (file, f) ↦
          contains-keep (is_flexible files) (map (λ (file : ReviewMapFile). file.path) files) x
            (file_at-contains files x file f) e
    ]

    same : (x : Text) → contains paths x ≡ is_flexible files x
    same x = elim (Bool-cases (contains paths x)) [
      | inl e ↦ e ∙ sym (flexible_of paths x ok e)
      | inr e ↦ elim (Bool-cases (is_flexible files x)) [
        | inr f ↦ e ∙ sym f
        | inl f ↦
            or_false (contains paths x)
              (sym (s x) ∙ Within-contains final (flexible_paths files) x within (listed x f))
            ∙ sym f
      ]
    ]

-- A proposal that is accepted regroups exactly the files whose kind is not fixed: its groups hold
-- each of them once and no other, its review order names each of them once and no other, and the
-- label of each group has 1 to 80 characters once the white space around it is trimmed.
pub validate_enrichment-Regroups :
    (map : ReviewMap) (proposal : EnrichmentProposal)
    → validate_enrichment map proposal ≡ success tt
    → Regroups map.files (proposed_paths proposal.groups)
      × Regroups map.files proposal.review_order
      × Each HasLabel proposal.groups
unfolding validate_enrichment
validate_enrichment-Regroups map proposal e =
    let (grouped, a, e1) = success_inv (check_proposed map.files [] proposal.groups) _ e in
    let (tt, b, e2) =
      success_inv (check_covered missing_file grouped (flexible_paths map.files)) _ e1 in
    let (tt, c, e3) = success_inv (check_insights map.files [] proposal.files) _ e2 in
    let (ordered, d, e4) =
      success_inv (insert_all (flexible_test map.files) duplicate_order [] proposal.review_order) _
        e3 in
    let (tt, f, e5) =
      success_inv (check_covered missing_order ordered (flexible_paths map.files)) _ e4 in
    let (inserted, labels) = check_proposed-Inserted map.files [] proposal.groups grouped a in
    (
      Inserted-Regroups map.files (proposed_paths proposal.groups) grouped inserted
          (check_covered-Within map.files missing_file grouped (flexible_paths map.files) b),
      Inserted-Regroups map.files proposal.review_order ordered
          (insert_all-Inserted (flexible_test map.files) duplicate_order [] proposal.review_order
            ordered d)
          (check_covered-Within map.files missing_order ordered (flexible_paths map.files) f),
      labels,
    )
