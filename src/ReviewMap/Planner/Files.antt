-- ===== src/ReviewMap/Planner/Files.antt =====
-- The files that crates/ramo-core/src/review_map/planner.rs plans, and their places in groups.
use mathlib.Core.Path.{ap₂}
use ramo.Prelude.Result.{success, never-success, success_inj, success_inv}
use ramo.ReviewMap.Exact.{ids_of}
use ramo.ReviewMap.Classify.{Globs, ClassifierConfig, Rule}
use ramo.Prelude.Split.{text_lt, replace_char}
use mathlib.Core.Bool.{true}
use ramo.Prelude.Str.{text_eq, text_eq→eq}
use ramo.ReviewMap.{ReviewFileKind, ReviewMapFile}
use ramo.Prelude.Sets.{
  contains, Distinct, append-Distinct, none_of, contains-append, Distinct-append, both-Apart,
  cons-Apart, Apart-nil, Apart, Each-contains, contains-Each, Apart-cons,
}
use ramo.ReviewMap.Planner.{
  Grouped, push_id, ReviewMapInputFile, is_bad_path, normalize_path, plan_files, unless_seen,
  normalize_optional, planned_file, group_for,
}
use ramo.Prelude.Text.{Text}
use ramo.Prelude.{
  List, ◌∷◌, ◌++◌, [], ◌≡◌, false, Bool, ◌||◌, arith, true, Bool-cases, refl, sym, inl, ◌∙◌, ap,
  inr, map, Option, Each, subst,
}

abbrev pub grouped_ids : List Grouped → List Text
grouped_ids [] = []
grouped_ids (group ∷ rest) = group.file_ids ++ grouped_ids rest

contains_single : (id x : Text) → contains (id ∷ []) x ≡ text_eq x id
contains_single id x = or_false (text_eq x id)
  where
    or_false : (b : Bool) → (b || false) ≡ b
    or_false true = refl
    or_false false = refl

module _ (group : Text × Text) (kind : ReviewFileKind) (id : Text) where
  -- An identity that is pushed is added, and nothing else.
  pub push_id-contains :
      (grouped : List Grouped) (x : Text)
      → contains (grouped_ids (push_id group kind id grouped)) x
        ≡ (text_eq x id || contains (grouped_ids grouped) x)
  unfolding push_id
  push_id-contains [] x = refl
  push_id-contains (first ∷ rest) x =
      let ids = grouped_ids rest in
      elim (Bool-cases (text_eq group.0 first.key)) [
        | inl e ↦ rw e (
            contains-append (first.file_ids ++ id ∷ []) ids x
            ∙ ap (◌|| contains ids x) (contains-append first.file_ids (id ∷ []) x)
            ∙ ap (λ b. (contains first.file_ids x || b) || contains ids x) (contains_single id x)
            ∙ middle (contains first.file_ids x) (text_eq x id) (contains ids x)
            ∙ ap (text_eq x id ||◌) (sym (contains-append first.file_ids ids x)))
        | inr e ↦ elim (Bool-cases (text_lt group.0 first.key)) [
          | inl f ↦ rw (e, f) refl
          | inr f ↦
              rw (e, f)
                (contains-append first.file_ids (grouped_ids (push_id group kind id rest)) x
                  ∙ ap (contains first.file_ids x ||◌) (push_id-contains rest x)
                  ∙ front (contains first.file_ids x) (text_eq x id) (contains ids x)
                  ∙ ap (text_eq x id ||◌) (sym (contains-append first.file_ids ids x)))
        ]
      ]
    where
      middle : (a b c : Bool) → ((a || b) || c) ≡ (b || (a || c))
      middle a b c = ground arith

      front : (a b c : Bool) → (a || (b || c)) ≡ (b || (a || c))
      front a b c = ground arith

  pub push_id-Distinct :
      (grouped : List Grouped)
      → contains (grouped_ids grouped) id ≡ false
      → Distinct (grouped_ids grouped)
      → Distinct (grouped_ids (push_id group kind id grouped))
  unfolding push_id
  push_id-Distinct [] new dist = (refl, tt)
  push_id-Distinct (first ∷ rest) new dist =
      let ids = grouped_ids rest in
      let (here, there, apart) = append-Distinct first.file_ids ids dist in
      let (p, q) =
        none_of (contains first.file_ids id) (contains ids id)
          (sym (contains-append first.file_ids ids id) ∙ new) in
      elim (Bool-cases (text_eq group.0 first.key)) [
        | inl e ↦
            let longer = Distinct-append first.file_ids (id ∷ []) here (refl, tt) (p, tt) in
            rw e (
              Distinct-append (first.file_ids ++ id ∷ []) ids longer there (
                both-Apart (first.file_ids ++ id ∷ []) first.file_ids (id ∷ []) ids
                  (contains-append first.file_ids (id ∷ [])) apart
                  (cons-Apart [] id ids (Apart-nil ids) q)))
        | inr e ↦ elim (Bool-cases (text_lt group.0 first.key)) [
          | inl f ↦ rw (e, f) (new, dist)
          | inr f ↦
              rw (e, f)
                (Distinct-append first.file_ids (grouped_ids (push_id group kind id rest)) here
                  (push_id-Distinct rest q there)
                  (contains-Each (λ x. contains first.file_ids x ≡ false)
                    (grouped_ids (push_id group kind id rest))
                    λ x k. away first.file_ids ids p apart x (sym (push_id-contains rest x) ∙ k)))
        ]
      ]
    where
      away :
          (set ids : List Text)
          → contains set id ≡ false
          → Apart set ids
          → (x : Text) → (text_eq x id || contains ids x) ≡ true
          → contains set x ≡ false
      away set ids p apart x e = elim (Bool-cases (text_eq x id)) [
        | inl f ↦ ap (contains set) (text_eq→eq x id f) ∙ p
        | inr f ↦ Each-contains (λ y. contains set y ≡ false) ids x apart (rw f at e)
      ]

-- What is known of the files that are planned: their identities are what the groups gain, and the
-- groups repeat none if the files do not.
abbrev pub Gains : List Grouped → List ReviewMapFile → List Grouped → Type 0
Gains before files final =
    ((x : Text)
      → contains (grouped_ids final) x
        ≡ (contains (ids_of files) x || contains (grouped_ids before) x))
    × (Distinct (ids_of files)
        → Apart (grouped_ids before) (ids_of files)
        → Distinct (grouped_ids before)
        → Distinct (grouped_ids final))

-- The paths of the files are those of the input, with slashes for backslashes.
abbrev pub shown_path : ReviewMapInputFile → Text
shown_path source = replace_char b'\\' b'/' source.path

abbrev pub file_paths : List ReviewMapFile → List Text
file_paths files = map (λ (file : ReviewMapFile). file.path) files

abbrev pub GoodPath : Text → Type 0
GoodPath path = is_bad_path path ≡ false

pub normalize_path-GoodPath :
    (path normalized : Text)
    → normalize_path path ≡ success normalized
    → (normalized ≡ replace_char b'\\' b'/' path) × GoodPath normalized
unfolding normalize_path
normalize_path-GoodPath path normalized e =
    elim (Bool-cases (is_bad_path (replace_char b'\\' b'/' path))) [
      | inl f ↦ absurd (never-success (rw f at e))
      | inr f ↦
          let p : replace_char b'\\' b'/' path ≡ normalized = success_inj (rw f at e) in
          (sym p, ap is_bad_path (sym p) ∙ f)
    ]

-- What the loop over the changed files gives.
abbrev pub PlannedFiles :
    List Text → List Grouped → List ReviewMapInputFile → List ReviewMapFile × List Grouped → Type 0
PlannedFiles seen grouped sources (files, final) =
    Gains grouped files final
    × (file_paths files ≡ map shown_path sources)
    × Each GoodPath (file_paths files)
    × Distinct (file_paths files)
    × Apart seen (file_paths files)

unless_seen-new :
    (seen : List Text) (path : Text)
    → unless_seen seen path ≡ success tt
    → contains seen path ≡ false
unless_seen-new seen path e = elim (Bool-cases (contains seen path)) [
  | inl f ↦ absurd (never-success (rw f at e))
  | inr f ↦ f
]

module _ (glob : Globs) (config : ClassifierConfig) (head_sha : Text)
    (owners : Option (List Rule)) where
  pub plan_files-PlannedFiles :
      (seen : List Text) (grouped : List Grouped) (sources : List ReviewMapInputFile)
      (result : List ReviewMapFile × List Grouped)
      → plan_files glob config head_sha owners seen grouped sources ≡ success result
      → PlannedFiles seen grouped sources result
  unfolding plan_files
  plan_files-PlannedFiles seen grouped [] result e =
      subst (PlannedFiles seen grouped []) (success_inj e)
        ((λ x. refl, λ d a h. h), refl, tt, tt, tt)
  plan_files-PlannedFiles seen grouped (source ∷ rest) result e =
      let (path, p, e1) = success_inv (normalize_path source.path) _ e in
      let (tt, q, e2) = success_inv (unless_seen seen path) _ e1 in
      let (previous_path, r, e3) = success_inv (normalize_optional source.previous_path) _ e2 in
      let file = planned_file glob config head_sha owners source path previous_path in
      let group = group_for path file.kind in
      let next = push_id group file.kind file.id grouped in
      let ((later, final), s, e4) =
        success_inv (plan_files glob config head_sha owners (path ∷ seen) next rest) _ e3 in
      let ((gain, dist), paths, good, new, apart) =
        plan_files-PlannedFiles (path ∷ seen) next rest (later, final) s in
      let (shown, good_path) = normalize_path-GoodPath source.path path p in
      let (apart', fresh) = Apart-cons seen path (file_paths later) apart in
      subst (PlannedFiles seen grouped (source ∷ rest)) (success_inj e4) (
        (
          λ x.
              gain x
              ∙ ap (contains (ids_of later) x ||◌)
                  (push_id-contains group file.kind file.id grouped x)
              ∙ shift (contains (ids_of later) x) (text_eq x file.id)
                  (contains (grouped_ids grouped) x),
          λ d a h.
              let (a_new, a_rest) = a in
              dist d.1
                (both-Apart (grouped_ids next) (file.id ∷ []) (grouped_ids grouped) (ids_of later)
                  (λ x.
                    push_id-contains group file.kind file.id grouped x
                    ∙ ap (◌|| contains (grouped_ids grouped) x) (sym (contains_single file.id x)))
                  (cons-Apart [] file.id (ids_of later) (Apart-nil (ids_of later)) d.0) a_rest)
                (push_id-Distinct group file.kind file.id grouped a_new h),
        ),
        ap₂ (λ (a : Text) (b : List Text). a ∷ b) shown paths,
        (good_path, good),
        (fresh, new),
        (unless_seen-new seen path q, apart'),
      )
    where
      shift : (a b c : Bool) → (a || (b || c)) ≡ ((b || a) || c)
      shift a b c = ground arith
