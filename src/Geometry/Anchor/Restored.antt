-- ===== src/Geometry/Anchor/Restored.antt =====
-- A captured place of src/review/anchor.rs is found again.
use Prim.Native.Nat.{zero}
use mathlib.Core.List.{[]}
use ramo.Prelude.Machine.{sat_add}
use ramo.Geometry.Window.{ends_by, Each-get_elem?, Stacked-below}
use ramo.Rows.Plan.{RowPlan}
use ramo.Geometry.Stacked.{Stacked, build_review_geometry-Stacked}
use ramo.Geometry.{ReviewGeometry, GeometryOptions, RowBounds, PlannedFile}
use ramo.Prelude.Text.{Text}
use ramo.Geometry.Anchor.{restore_viewport_anchor, capture_viewport_anchor}
use ramo.Geometry.Build.{
  row_at_offset, build_review_geometry, bottom, partition_point, find_row_by_key, max_scroll_top,
}
use ramo.Prelude.{
  ℕ, List, Option, get_elem?, ◌≡◌, some, ◌≤◌, ◌<◌, min, none, refl, ◌-◌, ◌∷◌, leb, arith, false,
  ◌∙◌, subst, sym, some_inj, suc, true, le→leb, [], zero, ◌+◌, ◌^◌,
}

-- The row that an offset stands in is the one that is found for it.
partition_point-found :
    (offset from until n : ℕ) (rows : List RowBounds) (row : RowBounds)
    → Stacked from rows until
    → get_elem? rows n ≡ some row
    → row.top ≤ offset
    → offset < bottom row
    → get_elem? rows (partition_point (ends_by offset) rows) ≡ some row
partition_point-found offset from until n [] row h e a b = absurd (nothing e)
  where
    nothing : none ≡ some row → ⊥
    nothing e = cc
partition_point-found offset from until zero (first ∷ rest) row h e a b =
    let f : ends_by offset first ≡ false =
      subst (λ r. ends_by offset r ≡ false) (sym (some_inj e)) (later (bottom row) offset b) in
    rw f e
  where
    later : (m n : ℕ) → n < m → leb m n ≡ false
    later m n l = ground arith
partition_point-found offset from until (suc n) (first ∷ rest) row (p, q, h) e a b =
    let below =
      Each-get_elem? (λ next. (bottom first ≤ next.top) × (next.top ≤ bottom next)) rest n row
        (Stacked-below (bottom first) (bottom first) until rest (omega arith) h) e in
    let f : ends_by offset first ≡ true =
      le→leb (bottom first) offset (omega (arith, below.0, a)) in
    rw f (partition_point-found offset (bottom first) until n rest row h e a b)

row_at_offset-found :
    (geometry : ReviewGeometry) (offset n : ℕ) (row : RowBounds)
    → Stacked 0 geometry.rows geometry.total_height
    → get_elem? geometry.rows n ≡ some row
    → row.top ≤ offset
    → offset < bottom row
    → row_at_offset geometry offset ≡ some row
unfolding row_at_offset
row_at_offset-found geometry offset n row h e a b =
    rw
      (
        partition_point-found offset 0 geometry.total_height n geometry.rows row h e a b,
        row_at_offset,
      )
      refl

-- A place is kept within its row: if a review of files is scrolled to an offset within a row, and a
-- row of that key is found in the review that the place is restored in, the new offset is as far
-- into that row, or at its last line if the row has become shorter, and no further than the review
-- can be scrolled.
pub restore-capture :
    (str_width : Text → ℕ) (options : GeometryOptions) (files : List PlannedFile)
    (trailer : Option RowPlan) (after : ReviewGeometry) (offset n : ℕ) (file_id : Option Text)
    (hunk_index : Option ℕ) (row found : RowBounds)
    → get_elem? (build_review_geometry str_width options files trailer).rows n ≡ some row
    → row.top ≤ offset
    → offset < bottom row
    → find_row_by_key after row.key ≡ some found
    → restore_viewport_anchor after (
        capture_viewport_anchor
          (build_review_geometry str_width options files trailer)
          offset
          file_id
          hunk_index)
      ≡ min (sat_add found.top (min (offset - row.top) (found.height - 1))) (max_scroll_top after)
unfolding restore_viewport_anchor capture_viewport_anchor
restore-capture str_width options files trailer after offset n file_id hunk_index row found e a b
      f =
    let geometry = build_review_geometry str_width options files trailer in
    let g =
      row_at_offset-found geometry offset n row
        (build_review_geometry-Stacked str_width options files trailer) e a b in
    rw (g, capture_viewport_anchor) (rw (f, restore_viewport_anchor) refl)

-- Restoring a place in the review that it was captured in changes nothing, if the offset is within a
-- row, the key of the row leads to it, and the review can be scrolled that far.
pub restore-capture_same :
    (str_width : Text → ℕ) (options : GeometryOptions) (files : List PlannedFile)
    (trailer : Option RowPlan) (offset n : ℕ) (file_id : Option Text) (hunk_index : Option ℕ)
    (row : RowBounds)
    → get_elem? (build_review_geometry str_width options files trailer).rows n ≡ some row
    → row.top ≤ offset
    → offset < bottom row
    → find_row_by_key (build_review_geometry str_width options files trailer) row.key ≡ some row
    → offset ≤ max_scroll_top (build_review_geometry str_width options files trailer)
    → restore_viewport_anchor (build_review_geometry str_width options files trailer) (
        capture_viewport_anchor
          (build_review_geometry str_width options files trailer)
          offset
          file_id
          hunk_index)
      ≡ offset
restore-capture_same str_width options files trailer offset n file_id hunk_index row e a b f l =
    let geometry = build_review_geometry str_width options files trailer in
    restore-capture str_width options files trailer geometry offset n file_id hunk_index row row e a
      b f
    ∙ inside row.top row.height offset (max_scroll_top geometry) a b l
  where
    inside :
        (top height offset most : ℕ)
        → top ≤ offset
        → offset < sat_add top height
        → offset ≤ most
        → min (sat_add top (min (offset - top) (height - 1))) most ≡ offset
    inside top height offset most a b l = omega (arith, a, b, l)

-- The row at the top of the view survives a reload: if a review is scrolled to an offset within a
-- row, and the key of that row leads to a row of the reloaded review that has a line, ends within
-- what `usize` counts and has a last line that the review can be scrolled to, then that
-- row is the one at the restored offset.
pub restore-capture_row :
    (str_width : Text → ℕ) (options next_options : GeometryOptions)
    (files next_files : List PlannedFile) (trailer next_trailer : Option RowPlan) (offset n m : ℕ)
    (file_id : Option Text) (hunk_index : Option ℕ) (row found : RowBounds)
    → get_elem? (build_review_geometry str_width options files trailer).rows n ≡ some row
    → row.top ≤ offset
    → offset < bottom row
    → get_elem? (build_review_geometry str_width next_options next_files next_trailer).rows m
      ≡ some found
    → find_row_by_key (build_review_geometry str_width next_options next_files next_trailer) row.key
      ≡ some found
    → 0 < found.height
    → found.top + found.height < 2 ^ 64
    → found.top + found.height
      ≤ max_scroll_top (build_review_geometry str_width next_options next_files next_trailer) + 1
    → row_at_offset (build_review_geometry str_width next_options next_files next_trailer) (
        restore_viewport_anchor
          (build_review_geometry str_width next_options next_files next_trailer)
          (capture_viewport_anchor
            (build_review_geometry str_width options files trailer)
            offset
            file_id
            hunk_index))
      ≡ some found
restore-capture_row str_width options next_options files next_files trailer next_trailer offset n m
      file_id hunk_index row found e a b e2 f h w l =
    let after = build_review_geometry str_width next_options next_files next_trailer in
    let inside = within found.top found.height (offset - row.top) (max_scroll_top after) h w l in
    rw
      (restore-capture str_width options files trailer after offset n file_id hunk_index row found e
        a b f)
      (row_at_offset-found after
        (min (sat_add found.top (min (offset - row.top) (found.height - 1))) (max_scroll_top after))
        m found (build_review_geometry-Stacked str_width next_options next_files next_trailer) e2
        inside.0 inside.1)
  where
    within :
        (top height intra most : ℕ)
        → 0 < height
        → top + height < 2 ^ 64
        → top + height ≤ most + 1
        → (top ≤ min (sat_add top (min intra (height - 1))) most)
          × (min (sat_add top (min intra (height - 1))) most < sat_add top height)
    within top height intra most h w l = (omega (arith, h, w, l), omega (arith, h, w, l))
