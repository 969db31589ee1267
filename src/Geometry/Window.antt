-- ===== src/Geometry/Window.antt =====
-- The window of src/review/geometry.rs shows the rows that stand in it.
use ramo.Rows.Plan.{RowPlan}
use ramo.Prelude.Text.{Text}
use ramo.Prelude.Machine.{sat_add}
use Prim.Native.Nat.{zero}
use mathlib.Core.List.{[]}
use ramo.Geometry.Build.{bottom, partition_point, visible_window, build_review_geometry}
use ramo.Geometry.Stacked.{Stacked, build_review_geometry-Stacked}
use ramo.Prelude.{
  ℕ, Bool, List, Each, get_elem?, ◌∷◌, ◌≡◌, ◌≤◌, false, some, none, true, arith, [], subst, ◌<◌,
  some_inj, Bool-cases, suc, inl, zero, ap, inr, sym, leb, ltb, ◌↔◌, ◌-◌, Option, length, ◌==◌, max,
}
use ramo.Geometry.{RowBounds, ReviewGeometry, GeometryOptions, PlannedFile}

-- Behind an element that fails a test, every element fails it.
Parted : (RowBounds → Bool) → List RowBounds → Type 0
Parted p [] = Unit
Parted p (row ∷ rest) = (p row ≡ false → Each (λ next. p next ≡ false) rest) × Parted p rest

pub Each-get_elem? :
    (P : RowBounds → Type 0) (rows : List RowBounds) (n : ℕ) (row : RowBounds)
    → Each P rows
    → get_elem? rows n ≡ some row
    → P row
Each-get_elem? P [] n row h e = absurd (nothing e)
  where
    nothing : none ≡ some row → ⊥
    nothing e = cc
Each-get_elem? P (first ∷ rest) zero row (p, h) e = subst P (some_inj e) p
Each-get_elem? P (first ∷ rest) (suc n) row (p, h) e = Each-get_elem? P rest n row h e

partition_point_lem :
    (p : RowBounds → Bool) (rows : List RowBounds) (n : ℕ) (row : RowBounds)
    → Parted p rows
    → get_elem? rows n ≡ some row
    → (p row ≡ true → n < partition_point p rows) × (p row ≡ false → partition_point p rows ≤ n)
unfolding Parted
partition_point_lem p [] n row h e = ((λ k. cc), λ k. omega arith)
partition_point_lem p (first ∷ rest) zero row (h, k) e = elim (Bool-cases (p first)) [
  | inl f ↦ rw f ((λ u. omega arith), λ u. absurd (clash (ap p (some_inj e)) f u))
  | inr f ↦ rw f ((λ u. absurd (clash (ap p (sym (some_inj e))) u f)), λ u. omega arith)
]
  where
    clash : {a b : Bool} → a ≡ b → a ≡ true → b ≡ false → ⊥
    clash e f g = absurd (cc)
partition_point_lem p (first ∷ rest) (suc n) row (h, k) e =
    let (a, b) = partition_point_lem p rest n row k e in
    elim (Bool-cases (p first)) [
      | inl f ↦ rw f ((λ u. omega (arith, a u)), λ u. omega (arith, b u))
      | inr f ↦
          let off = Each-get_elem? (λ next. p next ≡ false) rest n row (h f) e in
          rw f ((λ u. absurd (clash (p row) u off)), λ u. omega arith)
    ]
  where
    clash : (b : Bool) → b ≡ true → b ≡ false → ⊥
    clash b e f = absurd (cc)

Each-imply :
    (P Q : RowBounds → Type 0) (rows : List RowBounds)
    → ((row : RowBounds) → P row → Q row)
    → Each P rows
    → Each Q rows
Each-imply P Q [] f h = tt
Each-imply P Q (row ∷ rest) f (p, h) = (f row p, Each-imply P Q rest f h)

-- Rows that stand one below the other stand below the first offset.
pub Stacked-below :
    (low from until : ℕ) (rows : List RowBounds)
    → low ≤ from
    → Stacked from rows until
    → Each (λ row. (low ≤ row.top) × (row.top ≤ bottom row)) rows
Stacked-below low from until [] l h = tt
Stacked-below low from until (row ∷ rest) l (p, q, h) = (
  (omega (arith, l, p), omega (arith, q)),
  Stacked-below low (bottom row) until rest (omega (arith, l, p, q)) h,
)

abbrev pub ends_by : ℕ → RowBounds → Bool
ends_by least row = leb (bottom row) least

abbrev starts_before : ℕ → RowBounds → Bool
starts_before greatest row = ltb row.top greatest

ends_by-Parted :
    (least from until : ℕ) (rows : List RowBounds)
    → Stacked from rows until
    → Parted (ends_by least) rows
unfolding Parted
ends_by-Parted least from until [] h = tt
ends_by-Parted least from until (row ∷ rest) (p, q, h) = (
  λ e.
      Each-imply (λ next. (bottom row ≤ next.top) × (next.top ≤ bottom next))
        (λ next. ends_by least next ≡ false) rest
        (λ next (a, b). later (bottom row) next.top (bottom next) least a b e)
        (Stacked-below (bottom row) (bottom row) until rest (omega arith) h),
  ends_by-Parted least (bottom row) until rest h,
)
  where
    later :
        (end top next least : ℕ)
        → end ≤ top
        → top ≤ next
        → leb end least ≡ false
        → leb next least ≡ false
    later end top next least a b e = ground arith

starts_before-Parted :
    (greatest from until : ℕ) (rows : List RowBounds)
    → Stacked from rows until
    → Parted (starts_before greatest) rows
unfolding Parted
starts_before-Parted greatest from until [] h = tt
starts_before-Parted greatest from until (row ∷ rest) (p, q, h) = (
  λ e.
      Each-imply (λ next. (row.top ≤ next.top) × (next.top ≤ bottom next))
        (λ next. starts_before greatest next ≡ false) rest
        (λ next (a, b). later row.top next.top greatest a e)
        (Stacked-below row.top (bottom row) until rest (omega (arith, q)) h),
  starts_before-Parted greatest (bottom row) until rest h,
)
  where
    later :
        (top next greatest : ℕ) → top ≤ next → ltb top greatest ≡ false → ltb next greatest ≡ false
    later top next greatest a e = ground arith

-- A row stands in a window if some of it is behind the first offset and in front of the last.
abbrev pub InWindow : RowBounds → ℕ → ℕ → Type 0
InWindow row least greatest = (least < bottom row) × (row.top < greatest)

abbrev pub window_end : ℕ → ℕ → ℕ → ℕ
window_end scroll_top viewport_height overscan_rows =
    sat_add (sat_add scroll_top viewport_height) overscan_rows

Stacked-visible_window :
    (geometry : ReviewGeometry) (scroll_top viewport_height overscan_rows n : ℕ) (row : RowBounds)
    → Stacked 0 geometry.rows geometry.total_height
    → get_elem? geometry.rows n ≡ some row
    → let window = visible_window geometry scroll_top viewport_height overscan_rows in
      ((window.start ≤ n) × (n < window.end))
      ↔ InWindow row
          (scroll_top - overscan_rows)
          (window_end scroll_top viewport_height overscan_rows)
unfolding visible_window
Stacked-visible_window geometry scroll_top viewport_height overscan_rows n row h e =
    let least = scroll_top - overscan_rows in
    let greatest = window_end scroll_top viewport_height overscan_rows in
    let (a, b) =
      partition_point_lem (ends_by least) geometry.rows n row
        (ends_by-Parted least 0 geometry.total_height geometry.rows h) e in
    let (c, d) =
      partition_point_lem (starts_before greatest) geometry.rows n row
        (starts_before-Parted greatest 0 geometry.total_height geometry.rows h) e in
    let some_rows : (length geometry.rows == 0) ≡ false = not_empty geometry.rows n e in
    rw some_rows (
      decide (partition_point (ends_by least) geometry.rows)
        (partition_point (starts_before greatest) geometry.rows) (bottom row) row.top least greatest
        a b c d)
  where
    not_empty :
        (rows : List RowBounds) (n : ℕ) → get_elem? rows n ≡ some row → (length rows == 0) ≡ false
    not_empty [] n e = cc
    not_empty (first ∷ rest) n e = ground arith

    decide :
        (start end below top least greatest : ℕ)
        → (leb below least ≡ true → n < start)
        → (leb below least ≡ false → start ≤ n)
        → (ltb top greatest ≡ true → n < end)
        → (ltb top greatest ≡ false → end ≤ n)
        → ((start ≤ n) × (n < max end start)) ↔ ((least < below) × (top < greatest))
    decide start end below top least greatest a b c d = ground arith

-- The window of a review shows exactly the rows that stand in it, with the rows of overscan: the row
-- with a number is within the range if and only if it ends behind the first offset and begins in
-- front of the last.
pub visible_window-InWindow :
    (str_width : Text → ℕ) (options : GeometryOptions) (files : List PlannedFile)
    (trailer : Option RowPlan) (scroll_top viewport_height overscan_rows n : ℕ) (row : RowBounds)
    → get_elem? (build_review_geometry str_width options files trailer).rows n ≡ some row
    → let window =
        visible_window
          (build_review_geometry str_width options files trailer)
          scroll_top
          viewport_height
          overscan_rows in
      ((window.start ≤ n) × (n < window.end))
      ↔ InWindow row
          (scroll_top - overscan_rows)
          (window_end scroll_top viewport_height overscan_rows)
visible_window-InWindow str_width options files trailer scroll_top viewport_height overscan_rows n
      row e =
    Stacked-visible_window (build_review_geometry str_width options files trailer) scroll_top
      viewport_height overscan_rows n row
      (build_review_geometry-Stacked str_width options files trailer) e
