-- ===== src/Budget/Order.antt =====
-- The order of the files in crates/ramo-server/src/analysis/budget.rs.
use ramo.ReviewMap.{EnrichmentInputFile}
use ramo.Budget.{insert_sorted, sort_by_priority, file_priority}
use ramo.Prelude.{
  List, ℕ, ◌∷◌, ◌≤◌, Each, Bool-cases, [], leb, arith, inl, leb→le, inr, leb-false→lt,
}
use mathlib.Core.List.{Perm, []}
use mathlib.Core.List.Perm

-- The files in the order of their kinds.
abbrev pub ByPriority : List EnrichmentInputFile → Type 0
ByPriority [] = Unit
ByPriority (file ∷ rest) =
    Each (λ (next : EnrichmentInputFile). file_priority file.kind ≤ file_priority next.kind) rest
    × ByPriority rest

insert_sorted-Perm :
    (file : EnrichmentInputFile) (rest : List EnrichmentInputFile)
    → Perm (insert_sorted file rest) (file ∷ rest)
unfolding insert_sorted
insert_sorted-Perm file [] = Perm.refl _
insert_sorted-Perm file (next ∷ rest) =
    elim (Bool-cases (leb (file_priority file.kind) (file_priority next.kind))) [
      | inl e ↦ rw e (Perm.refl (file ∷ next ∷ rest))
      | inr e ↦
          rw e
            (Perm.trans (Perm.cons next (insert_sorted-Perm file rest)) (Perm.swap file next rest))
    ]

pub sort_by_priority-Perm : (files : List EnrichmentInputFile) → Perm (sort_by_priority files) files
unfolding sort_by_priority
sort_by_priority-Perm [] = Perm.refl _
sort_by_priority-Perm (file ∷ rest) =
    Perm.trans (insert_sorted-Perm file (sort_by_priority rest))
      (Perm.cons file (sort_by_priority-Perm rest))

insert_sorted-above :
    (k : ℕ) (file : EnrichmentInputFile) (rest : List EnrichmentInputFile)
    → k ≤ file_priority file.kind
    → Each (λ (next : EnrichmentInputFile). k ≤ file_priority next.kind) rest
    → Each (λ (next : EnrichmentInputFile). k ≤ file_priority next.kind) (insert_sorted file rest)
unfolding insert_sorted
insert_sorted-above k file [] h a = (h, tt)
insert_sorted-above k file (next ∷ rest) h a =
    elim (Bool-cases (leb (file_priority file.kind) (file_priority next.kind))) [
      | inl e ↦ rw e (h, a)
      | inr e ↦ rw e (a.0, insert_sorted-above k file rest h a.1)
    ]

above_mono :
    (j k : ℕ) (rest : List EnrichmentInputFile)
    → j ≤ k
    → Each (λ (next : EnrichmentInputFile). k ≤ file_priority next.kind) rest
    → Each (λ (next : EnrichmentInputFile). j ≤ file_priority next.kind) rest
above_mono j k [] h a = tt
above_mono j k (next ∷ rest) h a = (omega arith, above_mono j k rest h a.1)

insert_sorted-ByPriority :
    (file : EnrichmentInputFile) (rest : List EnrichmentInputFile)
    → ByPriority rest
    → ByPriority (insert_sorted file rest)
unfolding insert_sorted
insert_sorted-ByPriority file [] h = (tt, tt)
insert_sorted-ByPriority file (next ∷ rest) h =
    elim (Bool-cases (leb (file_priority file.kind) (file_priority next.kind))) [
      | inl e ↦ let l = leb→le _ _ e in rw e ((l, above_mono _ _ rest l h.0), h)
      | inr e ↦
          let l = leb-false→lt _ _ e in
          rw e (
            insert_sorted-above _ file rest (omega arith) h.0,
            insert_sorted-ByPriority file rest h.1,
          )
    ]

pub sort_by_priority-ByPriority :
    (files : List EnrichmentInputFile) → ByPriority (sort_by_priority files)
unfolding sort_by_priority
sort_by_priority-ByPriority [] = tt
sort_by_priority-ByPriority (file ∷ rest) =
    insert_sorted-ByPriority file (sort_by_priority rest) (sort_by_priority-ByPriority rest)
