-- ===== src/ReviewMap/Planner/Refused.antt =====
-- Why crates/ramo-core/src/review_map/planner.rs refuses an input.
use ramo.Prelude.Str.{text_eq}
use ramo.ReviewMap.{ReviewMapFile}
use ramo.Prelude.Decimal.{decimal}
use ramo.Prelude.Sets.{contains}
use ramo.Prelude.Result.{
  failure, success, Result-cases, never-success, success_inv, failure_inj, failure_inv,
}
use ramo.ReviewMap.Planner.Files.{GoodPath, shown_path, normalize_path-GoodPath}
use ramo.Prelude.Split.{replace_char}
use ramo.ReviewMap.Exact.{ReviewMapError, invalid_path, invalid_codeowners, duplicate_path}
use ramo.ReviewMap.Classify.{Globs, Rule, parse_codeowners, CodeOwnersError, ClassifierConfig}
use ramo.ReviewMap.Planner.{
  ReviewMapInputFile, owners_error, normalize_path, is_bad_path, normalize_optional, parse_owners,
  unless_seen, plan_files, Grouped, planned_file, push_id, group_for,
}
use ramo.Prelude.Text.{Text, codes}
use ramo.Prelude.{
  none, some, true, false, inl, inr, [], ◌∷◌, List, Option, Bool, ◌≡◌, ◌++◌, ◌⊎◌, Bool-cases, map,
  sym, subst, some_inj, ◌∙◌, ◌||◌, refl, arith, ap, Each,
}

abbrev pub IsBad : Text → Type 0
IsBad path = is_bad_path (replace_char b'\\' b'/' path) ≡ true

-- A file is refused behind the files of some paths: its path is bad, or one of those paths, or the
-- path that it had before is bad.
abbrev pub Refuses : (Text → Bool) → ReviewMapInputFile → ReviewMapError → Type 0
Refuses seen source error =
    (IsBad source.path × (error ≡ invalid_path source.path))
    ⊎ (((seen (shown_path source) ≡ true) × (error ≡ duplicate_path (shown_path source)))
        ⊎ ((previous : Text) × (source.previous_path ≡ some previous)
            × IsBad previous
            × (error ≡ invalid_path previous)))

-- A file among the input is refused behind those in front of it.
abbrev pub FileRefused : List ReviewMapInputFile → ReviewMapError → Type 0
FileRefused sources error =
    (before : List ReviewMapInputFile) × (source : ReviewMapInputFile) × (after : List
      ReviewMapInputFile)
    × (sources ≡ before ++ source ∷ after)
    × Refuses (contains (map shown_path before)) source error

-- The path that a file had before is good, if it has one.
abbrev pub GoodPrevious : ReviewMapInputFile → Type 0
GoodPrevious source =
    (previous : Text)
    → source.previous_path ≡ some previous
    → GoodPath (replace_char b'\\' b'/' previous)

abbrev pub OwnersRead : Globs → Option Text → Type 0
OwnersRead glob none = Unit
OwnersRead glob (some source) = (rules : List Rule) × (parse_codeowners glob source ≡ success rules)

-- The owners cannot be read, and the error names the line and what is wrong there.
abbrev pub OwnersRefused : Globs → Option Text → ReviewMapError → Type 0
OwnersRefused glob owners error =
    (source : Text) × (e : CodeOwnersError) × (owners ≡ some source)
    × (parse_codeowners glob source ≡ failure e)
    × (error
        ≡ invalid_codeowners
            (codes "invalid CODEOWNERS rule at line " ++ decimal e.line ++ codes ": " ++ e.message))

pub parse_owners-OwnersRead :
    (glob : Globs) (source : Option Text) (owners : Option (List Rule))
    → parse_owners glob source ≡ success owners
    → OwnersRead glob source
parse_owners-OwnersRead glob none owners e = tt
parse_owners-OwnersRead glob (some source) owners e =
    elim (Result-cases (parse_codeowners glob source)) [
      | inl (rules, f) ↦ (rules, f)
      | inr (error, f) ↦ absurd (never-success (rw (f, parse_owners) at e))
    ]

pub parse_owners-OwnersRefused :
    (glob : Globs) (source : Option Text) (error : ReviewMapError)
    → parse_owners glob source ≡ failure error
    → OwnersRefused glob source error
unfolding owners_error
parse_owners-OwnersRefused glob none error e = absurd (never-success (sym e))
parse_owners-OwnersRefused glob (some source) error e =
    elim (Result-cases (parse_codeowners glob source)) [
      | inl (rules, f) ↦ absurd (never-success (sym (rw (f, parse_owners) at e)))
      | inr (found, f) ↦ (source, found, refl, f, sym (failure_inj (rw (f, parse_owners) at e)))
    ]

normalize_path-IsBad :
    (path : Text) (error : ReviewMapError)
    → normalize_path path ≡ failure error
    → IsBad path × (error ≡ invalid_path path)
unfolding normalize_path
normalize_path-IsBad path error e = elim (Bool-cases (is_bad_path (replace_char b'\\' b'/' path))) [
  | inl f ↦ (f, sym (failure_inj (rw f at e)))
  | inr f ↦ absurd (never-success (sym (rw f at e)))
]

unless_seen-repeats :
    (seen : List Text) (path : Text) (error : ReviewMapError)
    → unless_seen seen path ≡ failure error
    → (contains seen path ≡ true) × (error ≡ duplicate_path path)
unless_seen-repeats seen path error e = elim (Bool-cases (contains seen path)) [
  | inl f ↦ (f, sym (failure_inj (rw f at e)))
  | inr f ↦ absurd (never-success (sym (rw f at e)))
]

normalize_optional-IsBad :
    (path : Option Text) (error : ReviewMapError)
    → normalize_optional path ≡ failure error
    → (previous : Text) × (path ≡ some previous) × IsBad previous × (error ≡ invalid_path previous)
normalize_optional-IsBad none error e = absurd (never-success (sym e))
normalize_optional-IsBad (some path) error e = elim (failure_inv (normalize_path path) _ e) [
  | inl f ↦ let (bad, g) = normalize_path-IsBad path error f in (path, refl, bad, g)
  | inr (normalized, f, g) ↦ absurd (never-success (sym g))
]

normalize_optional-good :
    (path found : Option Text) (previous : Text)
    → normalize_optional path ≡ success found
    → path ≡ some previous
    → GoodPath (replace_char b'\\' b'/' previous)
normalize_optional-good none found previous e f = cc
normalize_optional-good (some path) found previous e f =
    let (normalized, p, q) = success_inv (normalize_path path) _ e in
    let (shown, good) = normalize_path-GoodPath path normalized p in
    subst (λ x. GoodPath (replace_char b'\\' b'/' x)) (some_inj f) (subst GoodPath shown good)

Refuses-same :
    (p q : Text → Bool) (source : ReviewMapInputFile) (error : ReviewMapError)
    → ((x : Text) → p x ≡ q x)
    → Refuses p source error
    → Refuses q source error
Refuses-same p q source error h (inl bad) = inl bad
Refuses-same p q source error h (inr (inl (e, f))) = inr (inl (sym (h (shown_path source)) ∙ e, f))
Refuses-same p q source error h (inr (inr bad)) = inr (inr bad)

-- The paths of some files, and some more.
abbrev seen_with : List ReviewMapInputFile → List Text → Text → Bool
seen_with before seen path = contains (map shown_path before) path || contains seen path

module _ (glob : Globs) (config : ClassifierConfig) (head_sha : Text)
    (owners : Option (List Rule)) where
  refused_from :
      (seen : List Text) (grouped : List Grouped) (sources : List ReviewMapInputFile)
      (error : ReviewMapError)
      → plan_files glob config head_sha owners seen grouped sources ≡ failure error
      → (before : List ReviewMapInputFile) × (source : ReviewMapInputFile) × (after : List
          ReviewMapInputFile)
        × (sources ≡ before ++ source ∷ after)
        × Refuses (seen_with before seen) source error
  unfolding plan_files
  refused_from seen grouped [] error e = absurd (never-success (sym e))
  refused_from seen grouped (source ∷ rest) error e =
      elim (failure_inv (normalize_path source.path) _ e) [
        | inl f ↦ ([], source, rest, refl, inl (normalize_path-IsBad source.path error f))
        | inr (path, p, e1) ↦
            let (shown, good) = normalize_path-GoodPath source.path path p in
            elim (failure_inv (unless_seen seen path) _ e1) [
              | inl f ↦
                  let (g, h) = unless_seen-repeats seen path error f in
                  (
                    [],
                    source,
                    rest,
                    refl,
                    inr (inl (ap (contains seen) (sym shown) ∙ g, h ∙ ap duplicate_path shown)),
                  )
              | inr (tt, q, e2) ↦
                  elim (failure_inv (normalize_optional source.previous_path) _ e2) [
                    | inl f ↦ (
                      [],
                      source,
                      rest,
                      refl,
                      inr (inr (normalize_optional-IsBad source.previous_path error f)),
                    )
                    | inr (previous_path, r, e3) ↦
                        let file =
                          planned_file glob config head_sha owners source path previous_path in
                        let next = push_id (group_for path file.kind) file.kind file.id grouped in
                        elim (failure_inv
                          (plan_files glob config head_sha owners (path ∷ seen) next rest) _ e3) [
                            | inr ((files, final), s, e4) ↦ absurd (never-success (sym e4))
                            | inl f ↦
                                let (before, found, after, same, refuses) =
                                  refused_from (path ∷ seen) next rest error f in
                                (
                                  source ∷ before,
                                  found,
                                  after,
                                  ap (source ∷◌) same,
                                  Refuses-same (seen_with before (path ∷ seen))
                                      (seen_with (source ∷ before) seen) found error
                                      (λ x.
                                        ap
                                          (λ y.
                                            contains (map shown_path before) x
                                            || (text_eq x y || contains seen x))
                                          shown
                                        ∙ shift (contains (map shown_path before) x)
                                            (text_eq x (shown_path source)) (contains seen x))
                                      refuses,
                                )
                          ]
                  ]
            ]
      ]
    where
      shift : (a b c : Bool) → (a || (b || c)) ≡ ((b || a) || c)
      shift a b c = ground arith

  -- A failure of the loop over the files is that of one of them.
  pub plan_files-FileRefused :
      (sources : List ReviewMapInputFile) (error : ReviewMapError)
      → plan_files glob config head_sha owners [] [] sources ≡ failure error
      → FileRefused sources error
  plan_files-FileRefused sources error e =
      let (before, source, after, same, refuses) = refused_from [] [] sources error e in
      (
        before,
        source,
        after,
        same,
        Refuses-same (seen_with before []) (contains (map shown_path before)) source error
            (λ x. or_false (contains (map shown_path before) x)) refuses,
      )
    where
      or_false : (b : Bool) → (b || false) ≡ b
      or_false true = refl
      or_false false = refl

  -- A loop that succeeds has read the path that each file had before.
  pub plan_files-GoodPrevious :
      (seen : List Text) (grouped : List Grouped) (sources : List ReviewMapInputFile)
      (result : List ReviewMapFile × List Grouped)
      → plan_files glob config head_sha owners seen grouped sources ≡ success result
      → Each GoodPrevious sources
  unfolding plan_files
  plan_files-GoodPrevious seen grouped [] result e = tt
  plan_files-GoodPrevious seen grouped (source ∷ rest) result e =
      let (path, p, e1) = success_inv (normalize_path source.path) _ e in
      let (tt, q, e2) = success_inv (unless_seen seen path) _ e1 in
      let (previous_path, r, e3) = success_inv (normalize_optional source.previous_path) _ e2 in
      let file = planned_file glob config head_sha owners source path previous_path in
      let next = push_id (group_for path file.kind) file.kind file.id grouped in
      let (found, s, e4) =
        success_inv (plan_files glob config head_sha owners (path ∷ seen) next rest) _ e3 in
      (
        λ previous f. normalize_optional-good source.previous_path previous_path previous r f,
        plan_files-GoodPrevious (path ∷ seen) next rest found s,
      )
