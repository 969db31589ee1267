-- ===== src/Budget/Batches.antt =====
-- What the batches of crates/ramo-server/src/analysis/budget.rs hold.
use ramo.Budget.Order.{ByPriority, sort_by_priority-Perm, sort_by_priority-ByPriority}
use ramo.Budget.Truncate.{truncate-Truncated, cut_to-0}
use ramo.Prelude.Text.{Text}
use ramo.Budget.{
  prepare_patch, build_batch, AnalysisBudget, truncate_to_prompt_budget, fits_alone, cut_to,
  build_batch_with_extra, batches_from, sort_by_priority, budget_batches,
}
use ramo.ReviewMap.{EnrichmentInputFile, EnrichmentRequest}
use ramo.Prelude.{
  List, ◌≡◌, ℕ, map, none, length, arith, ◌∷◌, refl, ◌++◌, ◌⊎◌, ◌≤◌, [], some, max, inl, Each, ap,
  inr, subst, sym, leb→le, true, leb, ◌∙◌, Bool-cases, ◌||◌, leb-false→lt, ltb, false, Bool, ◌+◌,
  length-append, ltb-false→le,
}
use mathlib.Core.List.{Perm}

abbrev pub paths_of : List EnrichmentInputFile → List Text
paths_of files = map (λ (f : EnrichmentInputFile). f.path) files

-- The paths of the files of batches, one batch behind the other.
abbrev pub batch_paths : List EnrichmentRequest → List Text
batch_paths [] = []
batch_paths (batch ∷ rest) = paths_of batch.files ++ batch_paths rest

-- A file that has no text of a patch to give.
abbrev pub HasNoText : EnrichmentInputFile → Type 0
HasNoText file = (file.patch ≡ none) ⊎ (file.patch ≡ some [])

-- The files of a batch are few enough, and its prompt is in the limit, unless it is about a single
-- file at most, without any text.
abbrev pub Fits :
    EnrichmentRequest → AnalysisBudget → (EnrichmentRequest → ℕ) → List EnrichmentInputFile → Type 0
Fits request budget estimate_prompt files =
    (length files ≤ max budget.max_files_per_batch 1)
    × ((estimate_prompt (build_batch request files) ≤ budget.max_prompt_tokens)
        ⊎ ((length files ≤ 1) × Each HasNoText files))

path-prepare : (file : EnrichmentInputFile) → (prepare_patch file).path ≡ file.path
unfolding prepare_patch
path-prepare file = ground arith

path-truncate :
    (request : EnrichmentRequest) (estimate_prompt : EnrichmentRequest → ℕ) (limit : ℕ)
    (file : EnrichmentInputFile)
    → (truncate_to_prompt_budget request estimate_prompt limit file).path ≡ file.path
path-truncate request estimate_prompt limit file =
    elim (truncate-Truncated request estimate_prompt limit file) [
      | inl (e, h) ↦ ap (λ (f : EnrichmentInputFile). f.path) e
      | inr (original, e, f, (n, p, q, d)) ↦ ap (λ (g : EnrichmentInputFile). g.path) p
    ]

alone-Fits :
    (request : EnrichmentRequest) (budget : AnalysisBudget)
    (estimate_prompt : EnrichmentRequest → ℕ) (file : EnrichmentInputFile)
    → Fits request budget estimate_prompt
        (truncate_to_prompt_budget request estimate_prompt budget.max_prompt_tokens file ∷ [])
alone-Fits request budget estimate_prompt file =
    let t = truncate_to_prompt_budget request estimate_prompt budget.max_prompt_tokens file in
    elim (truncate-Truncated request estimate_prompt budget.max_prompt_tokens file) [
      | inl (e, inl h) ↦ (omega arith, inr (omega arith, (subst HasNoText (sym e) (inl h), tt)))
      | inl (e, inr h) ↦ (
        omega arith,
        inl (
            leb→le _ _ (
              subst (λ f. fits_alone request estimate_prompt budget.max_prompt_tokens f ≡ true)
                (sym e) h)),
      )
      | inr (original, e, f, (n, p, q, (b, inl z, d))) ↦ (
        omega arith,
        inr (
          omega arith,
          (
            subst HasNoText (sym p)
                (inr (ap some (subst (λ k. cut_to original k ≡ []) (sym z) (cut_to-0 original)))),
            tt,
          ),
        ),
      )
      | inr (original, e, f, (n, p, q, (b, inr z, d))) ↦ (
        omega arith,
        inl (
            leb→le _ _ (
              subst (λ g. fits_alone request estimate_prompt budget.max_prompt_tokens g ≡ true)
                (sym p) z)),
      )
    ]

files-build_batch :
    (request : EnrichmentRequest) (files : List EnrichmentInputFile)
    → (build_batch request files).files ≡ files
unfolding build_batch
files-build_batch request files = refl

-- A batch that is made of its files, and they fit.
abbrev pub IsBatch :
    EnrichmentRequest → AnalysisBudget → (EnrichmentRequest → ℕ) → EnrichmentRequest → Type 0
IsBatch request budget estimate_prompt batch =
    (batch ≡ build_batch request batch.files) × Fits request budget estimate_prompt batch.files

paths_of-append :
    (a b : List EnrichmentInputFile) (file : EnrichmentInputFile)
    → paths_of (a ++ prepare_patch file ∷ []) ++ paths_of b ≡ paths_of a ++ paths_of (file ∷ b)
paths_of-append [] b file = ap (◌∷ paths_of b) (path-prepare file)
paths_of-append (f ∷ a) b file = ap (f.path ∷◌) (paths_of-append a b file)

extended-Fits :
    (request : EnrichmentRequest) (budget : AnalysisBudget)
    (estimate_prompt : EnrichmentRequest → ℕ) (c : EnrichmentInputFile)
    (current : List EnrichmentInputFile) (file : EnrichmentInputFile)
    → (leb (max budget.max_files_per_batch 1) (length (c ∷ current))
        || ltb budget.max_prompt_tokens
            (estimate_prompt (build_batch_with_extra request (c ∷ current) file)))
      ≡ false
    → Fits request budget estimate_prompt (c ∷ current ++ file ∷ [])
unfolding build_batch_with_extra
extended-Fits request budget estimate_prompt c current file h =
    let l : length (current ++ file ∷ []) ≡ length current + 1 =
      length-append current (file ∷ []) in
    let (p, q) = neither _ _ h in (omega (arith, l, leb-false→lt _ _ p), inl (ltb-false→le _ _ q))
  where
    neither : (a b : Bool) → (a || b) ≡ false → (a ≡ false) × (b ≡ false)
    neither a b h = ground arith

batches_from-IsBatch :
    (request : EnrichmentRequest) (budget : AnalysisBudget)
    (estimate_prompt : EnrichmentRequest → ℕ) (current rest : List EnrichmentInputFile)
    → (current ≡ []) ⊎ Fits request budget estimate_prompt current
    → Each
        (IsBatch request budget estimate_prompt)
        (batches_from request budget estimate_prompt current rest)
      × (batch_paths (batches_from request budget estimate_prompt current rest)
          ≡ paths_of current ++ paths_of rest)
unfolding batches_from build_batch
batches_from-IsBatch request budget estimate_prompt [] [] h = (tt, refl)
batches_from-IsBatch request budget estimate_prompt (c ∷ current) [] (inl h) = cc
batches_from-IsBatch request budget estimate_prompt (c ∷ current) [] (inr h) =
    (((refl, h), tt), refl)
batches_from-IsBatch request budget estimate_prompt [] (file ∷ rest) h =
    let started =
      truncate_to_prompt_budget request estimate_prompt budget.max_prompt_tokens
        (prepare_patch file) in
    let (a, b) =
      batches_from-IsBatch request budget estimate_prompt (started ∷ []) rest
        (inr (alone-Fits request budget estimate_prompt (prepare_patch file))) in
    (
      a,
      b
          ∙ ap (◌∷ paths_of rest) (
              path-truncate request estimate_prompt budget.max_prompt_tokens (prepare_patch file)
              ∙ path-prepare file),
    )
batches_from-IsBatch request budget estimate_prompt (c ∷ current) (file ∷ rest) (inl h) = cc
batches_from-IsBatch request budget estimate_prompt (c ∷ current) (file ∷ rest) (inr h) =
    elim (Bool-cases (
      leb (max budget.max_files_per_batch 1) (length (c ∷ current))
      || ltb budget.max_prompt_tokens
          (estimate_prompt (build_batch_with_extra request (c ∷ current) (prepare_patch file))))) [
            | inl e ↦
                let started =
                  truncate_to_prompt_budget request estimate_prompt budget.max_prompt_tokens
                    (prepare_patch file) in
                let (a, b) =
                  batches_from-IsBatch request budget estimate_prompt (started ∷ []) rest
                    (inr (alone-Fits request budget estimate_prompt (prepare_patch file))) in
                let p =
                  b
                  ∙ ap (◌∷ paths_of rest) (
                      path-truncate request estimate_prompt budget.max_prompt_tokens
                        (prepare_patch file)
                      ∙ path-prepare file) in
                rw (e, batches_from) (((refl, h), a), ap (paths_of (c ∷ current) ++◌) p)
            | inr e ↦
                let (a, b) =
                  batches_from-IsBatch request budget estimate_prompt
                    (c ∷ current ++ prepare_patch file ∷ []) rest
                    (inr (
                      extended-Fits request budget estimate_prompt c current (prepare_patch file)
                        e)) in
                rw (e, batches_from) (a, b ∙ paths_of-append (c ∷ current) rest file)
          ]

-- Whatever a prompt is estimated to be, every batch is made of its files, which are no more than
-- the budget allows, or one if it allows none, and its prompt is in the budget, unless it is about
-- a single file at most, which has no text of a patch left.
pub budget_batches-IsBatch :
    (request : EnrichmentRequest) (budget : AnalysisBudget)
    (estimate_prompt : EnrichmentRequest → ℕ)
    → Each (IsBatch request budget estimate_prompt) (budget_batches request budget estimate_prompt)
unfolding budget_batches build_batch
budget_batches-IsBatch request budget estimate_prompt =
    at_least (batches_from request budget estimate_prompt [] (sort_by_priority request.files))
      (batches_from-IsBatch request budget estimate_prompt [] (sort_by_priority request.files)
        (inl refl)).0
  where
    at_least :
        (batches : List EnrichmentRequest)
        → Each (IsBatch request budget estimate_prompt) batches
        → Each
            (IsBatch request budget estimate_prompt)
            (elim batches [ [] ↦ build_batch request [] ∷ [] | batch ∷ rest ↦ batch ∷ rest ])
    at_least [] h = ((refl, (omega arith, inr (omega arith, tt))), tt)
    at_least (batch ∷ rest) h = h

-- Every file of the request is in a batch, once: the paths of the batches, one behind the other,
-- are those of the files in the order of their kinds.
pub budget_batches-Perm :
    (request : EnrichmentRequest) (budget : AnalysisBudget)
    (estimate_prompt : EnrichmentRequest → ℕ)
    → (sorted : List EnrichmentInputFile) × Perm sorted request.files
      × ByPriority sorted
      × (batch_paths (budget_batches request budget estimate_prompt) ≡ paths_of sorted)
unfolding budget_batches build_batch
budget_batches-Perm request budget estimate_prompt =
    let sorted = sort_by_priority request.files in
    (
      sorted,
      sort_by_priority-Perm request.files,
      sort_by_priority-ByPriority request.files,
      at_least (batches_from request budget estimate_prompt [] sorted)
          ∙ (batches_from-IsBatch request budget estimate_prompt [] sorted (inl refl)).1,
    )
  where
    at_least :
        (batches : List EnrichmentRequest)
        → batch_paths
            (elim batches [ [] ↦ build_batch request [] ∷ [] | batch ∷ rest ↦ batch ∷ rest ])
          ≡ batch_paths batches
    at_least [] = refl
    at_least (batch ∷ rest) = refl
