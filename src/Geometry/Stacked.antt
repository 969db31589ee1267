-- ===== src/Geometry/Stacked.antt =====
-- The rows of src/review/geometry.rs stand one below the other.
use mathlib.Core.Option.{none}
use ramo.Rows.Plan.{RowPlan}
use mathlib.Core.List.{[]}
use ramo.Rows.{ReviewRow}
use ramo.Prelude.Machine.{usize_max, sat_add}
use ramo.Geometry.Build.{
  push_rows, push_files, Building, bottom, bound_of, push_bound, from_bool, push_trailer,
  build_review_geometry, nothing_built, push_file, is_empty_plan,
}
use ramo.Geometry.{
  GeometryOptions, RowBounds, RowOwner, PlannedFile, measure_row_height, file_owner, trailer_owner,
}
use ramo.Prelude.Text.{Text}
use ramo.Prelude.{
  ℕ, List, ◌≤◌, arith, ◌∷◌, ◌++◌, ◌≡◌, [], suc, refl, ltb, Option, not, some, Bool-cases, inl, inr,
  none,
}

-- From a first offset on, no row overlaps the next one, and no offset is out of range.
abbrev pub Stacked : ℕ → List RowBounds → ℕ → Type 0
Stacked from [] until = (from ≤ until) × (until ≤ usize_max)
Stacked from (row ∷ rest) until =
    (from ≤ row.top) × (row.top ≤ usize_max) × Stacked (bottom row) rest until

append-Stacked :
    (from middle until : ℕ) (rows : List RowBounds) (row : RowBounds)
    → Stacked from rows middle
    → middle ≤ row.top
    → row.top ≤ usize_max
    → bottom row ≤ until
    → until ≤ usize_max
    → Stacked from (rows ++ row ∷ []) until
append-Stacked from middle until [] row h a b c d = (omega (arith, h, a), b, (c, d))
append-Stacked from middle until (first ∷ rest) row (p, q, h) a b c d =
    (p, q, append-Stacked (bottom first) middle until rest row h a b c d)

further-Stacked :
    (from middle until : ℕ) (rows : List RowBounds)
    → Stacked from rows middle
    → middle ≤ until
    → until ≤ usize_max
    → Stacked from rows until
further-Stacked from middle until [] h a b = (omega (arith, h, a), b)
further-Stacked from middle until (first ∷ rest) (p, q, h) a b =
    (p, q, further-Stacked (bottom first) middle until rest h a b)

until-Stacked :
    (from until : ℕ) (rows : List RowBounds) → Stacked from rows until → until ≤ usize_max
until-Stacked from until [] h = h.1
until-Stacked from until (row ∷ rest) (p, q, h) = until-Stacked (bottom row) until rest h

module _ (str_width : Text → ℕ) (options : GeometryOptions) where
  -- The rows of a plan are put below those that stand there, and reach to the end of the body.
  push_rows-Stacked :
      (owner : RowOwner) (line_digits body_top body_height row_index : ℕ) (rows : List ReviewRow)
      (b : Building)
      → Stacked 0 b.rows (sat_add body_top body_height)
      → let (built, height) =
          push_rows str_width options owner line_digits body_top body_height row_index rows b in
        Stacked 0 built.rows (sat_add body_top height) × (built.cursor ≡ b.cursor)
  unfolding push_rows
  push_rows-Stacked owner line_digits body_top body_height row_index [] b h = (h, refl)
  push_rows-Stacked owner line_digits body_top body_height row_index (row ∷ rest) b h =
      let height = measure_row_height str_width row line_digits options in
      let bound = bound_of owner (sat_add body_top body_height) height row_index row in
      push_rows-Stacked owner line_digits body_top (sat_add body_height height) (suc row_index) rest
        (push_bound bound b)
        (append-Stacked 0 (sat_add body_top body_height)
          (sat_add body_top (sat_add body_height height)) b.rows bound h (omega arith) (omega arith)
          (omega arith) (omega arith))

  push_files-Stacked :
      (file_index : ℕ) (files : List PlannedFile) (b : Building)
      → Stacked 0 b.rows b.cursor
      → let built = push_files str_width options file_index files b in
        Stacked 0 built.rows built.cursor
  unfolding push_files
  push_files-Stacked file_index [] b h = h
  push_files-Stacked file_index (file ∷ rest) b h =
      let separator_height = from_bool (ltb 0 file_index) in
      let body_top = sat_add (sat_add b.cursor separator_height) (from_bool (not file.compacted)) in
      let l = until-Stacked 0 b.cursor b.rows h in
      let lower =
        further-Stacked 0 b.cursor (sat_add body_top 0) b.rows h (omega (arith, l)) (omega arith) in
      let (k, same) =
        push_rows-Stacked (file_owner file_index) file.plan.line_number_digits body_top 0 0
          file.plan.rows b lower in
      push_files-Stacked (suc file_index) rest (push_file str_width options file_index file b) k

  push_trailer-Stacked :
      (trailer : Option RowPlan) (b : Building)
      → Stacked 0 b.rows b.cursor
      → let (built, section) = push_trailer str_width options trailer b in
        Stacked 0 built.rows built.cursor
  unfolding push_trailer
  push_trailer-Stacked none b h = h
  push_trailer-Stacked (some plan) b h = elim (Bool-cases (is_empty_plan plan)) [
    | inl e ↦ rw e h
    | inr e ↦
        let body_top = sat_add (sat_add b.cursor 1) 1 in
        let l = until-Stacked 0 b.cursor b.rows h in
        let lower =
          further-Stacked 0 b.cursor (sat_add body_top 0) b.rows h (omega (arith, l))
            (omega arith) in
        rw e
          (push_rows-Stacked trailer_owner plan.line_number_digits body_top 0 0 plan.rows b lower).0
  ]

  -- The rows of a review stand one below the other, over all files and the trailer, and the whole
  -- is as high as they reach or higher.
  pub build_review_geometry-Stacked :
      (files : List PlannedFile) (trailer : Option RowPlan)
      → let geometry = build_review_geometry str_width options files trailer in
        Stacked 0 geometry.rows geometry.total_height
  unfolding build_review_geometry
  build_review_geometry-Stacked files trailer =
      push_trailer-Stacked trailer (push_files str_width options 0 files nothing_built)
        (push_files-Stacked 0 files nothing_built (omega arith, omega arith))
