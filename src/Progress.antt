-- ===== src/Progress.antt =====
-- src/review/progress.rs: which changed lines of a review were seen. A set of keys is a list in
-- which none stands twice, and the map from keys to their places in the order keeps the last one.
pub mod Sets
pub mod Changed
pub mod Marks
pub mod Sessions
mod Tests
use Prim.Native.Nat.{zero}
use ramo.Prelude.Machine.{sat_mul, sat_add}
use ramo.Rows.{
  ReviewCell, ReviewRow, stack_row, addition_cell, split_row, deletion_cell, context_cell,
  empty_cell,
}
use mathlib.Core.List.{flat_map}
use ramo.Diff.{DiffLine, DiffFile, addition, Hunk, deletion, context}
use ramo.Prelude.Str.{text_eq, is_some}
use ramo.Prelude.Text.{Text}
use ramo.Prelude.{
  ℕ, List, Bool, Option, length, ◌==◌, ◌&&◌, any, if◌then◌else◌, none, [], not, keep, all, min, suc,
  ◌∷◌, false, some, ◌>>=◌, max, take, ◌/◌, ◌++◌, ◌%◌, zero,
}

pub data ChangedSide : Type 0 where
  old_changed new_changed : ℕ → ChangedSide

pub record ChangedLineKey : Type 0 where
  pub file_id : Text
  pub changed : ChangedSide

pub record ReviewProgressSnapshot : Type 0 where
  pub reviewed : ℕ
  pub total : ℕ
  pub percent : ℕ

-- The map of the source from keys to places is read off the order.
pub record ReviewProgress : Type 0 where
  pub ordered : List ChangedLineKey
  pub reviewed : List ChangedLineKey

unfoldable pub same_side : ChangedSide → ChangedSide → Bool
same_side (old_changed m) (old_changed n) = m == n
same_side (new_changed m) (new_changed n) = m == n
same_side _ _ = false

unfoldable pub same_key : ChangedLineKey → ChangedLineKey → Bool
unfolding text_eq same_side
same_key a b = text_eq a.file_id b.file_id && same_side a.changed b.changed

abbrev pub contains_key : List ChangedLineKey → ChangedLineKey → Bool
contains_key keys key = any (same_key key) keys

-- `HashSet::insert` and `extend`.
unfoldable pub insert_key : List ChangedLineKey → ChangedLineKey → List ChangedLineKey
unfolding same_key
insert_key keys key = if contains_key keys key then keys else key ∷ keys

unfoldable pub extend_keys : List ChangedLineKey → List ChangedLineKey → List ChangedLineKey
unfolding insert_key
extend_keys keys [] = keys
extend_keys keys (key ∷ rest) = extend_keys (insert_key keys key) rest

-- `ordinal.get(key)`: the place of a key, counted from `at`.
unfoldable pub ordinal_from : ℕ → ChangedLineKey → List ChangedLineKey → Option ℕ
unfolding same_key
ordinal_from at key [] = none
ordinal_from at key (k ∷ rest) = elim (ordinal_from (suc at) key rest) [
  | some place ↦ some place
  | none ↦ if same_key key k then some at else none
]

abbrev pub ordinal : ReviewProgress → ChangedLineKey → Option ℕ
ordinal p key = ordinal_from 0 key p.ordered

unfoldable pub line_side : DiffLine → Option ChangedSide
line_side line = elim line.kind [
  | addition ↦ (do n ← line.new_lineno; some (new_changed n))
  | deletion ↦ (do n ← line.old_lineno; some (old_changed n))
  | context ↦ none
]

unfoldable pub keys_of_lines : Text → List DiffLine → List ChangedLineKey
unfolding line_side
keys_of_lines file_id [] = []
keys_of_lines file_id (line ∷ rest) =
    let later = keys_of_lines file_id rest in
    elim (line_side line) [
      | none ↦ later
      | some changed ↦ record { file_id = file_id; changed = changed } ∷ later
    ]

unfoldable pub order_of : List DiffFile → List ChangedLineKey
unfolding keys_of_lines flat_map
order_of files =
    flat_map
      (λ (file : DiffFile). flat_map (λ (hunk : Hunk). keys_of_lines file.id hunk.lines) file.hunks)
      files

unfoldable pub rebuild_order : ReviewProgress → List DiffFile → ReviewProgress
unfolding order_of
rebuild_order p files = record p { ordered = order_of files }

unfoldable pub new : List DiffFile → ReviewProgress
unfolding rebuild_order
new files = rebuild_order (record { ordered = []; reviewed = [] }) files

unfoldable pub cell_key : Text → ReviewCell → Option ChangedLineKey
cell_key file_id cell = elim cell.kind [
  | addition_cell ↦ (do
    n ← cell.new_line
    some (record { file_id = file_id; changed = new_changed n }))
  | deletion_cell ↦ (do
    n ← cell.old_line
    some (record { file_id = file_id; changed = old_changed n }))
  | context_cell ↦ none
  | empty_cell ↦ none
]

abbrev as_list : Option ChangedLineKey → List ChangedLineKey
as_list none = []
as_list (some key) = key ∷ []

unfoldable pub row_keys : Text → ReviewRow → List ChangedLineKey
unfolding cell_key
row_keys file_id (stack_row key cell) = as_list (cell_key file_id cell)
row_keys file_id (split_row key left right) =
    as_list (cell_key file_id left) ++ as_list (cell_key file_id right)
row_keys file_id _ = []

-- `filter_map(ordinal).max()`.
unfoldable pub greatest : ReviewProgress → List ChangedLineKey → Option ℕ
unfolding ordinal_from
greatest p [] = none
greatest p (key ∷ rest) = elim (ordinal p key) [
  | none ↦ greatest p rest
  | some place ↦ elim (greatest p rest) [ none ↦ some place | some later ↦ some (max place later) ]
]

-- Whether two counts differ.
abbrev pub differs : ℕ → ℕ → Bool
differs m n = not (m == n)

unfoldable pub observe_through : ReviewProgress → List ChangedLineKey → ReviewProgress × Bool
unfolding greatest extend_keys
observe_through p keys = elim (greatest p keys) [
  | none ↦ (p, false)
  | some maximum ↦
      (let reviewed = extend_keys p.reviewed (take (sat_add maximum 1) p.ordered) in
        (record p { reviewed = reviewed }, differs (length reviewed) (length p.reviewed)))
]

abbrev pub own_keys : Text → List ChangedLineKey → List ChangedLineKey
own_keys file_id keys = keep (λ (key : ChangedLineKey). text_eq key.file_id file_id) keys

unfoldable pub mark_file_reviewed : ReviewProgress → Text → ReviewProgress × Bool
unfolding extend_keys text_eq
mark_file_reviewed p file_id =
    let reviewed = extend_keys p.reviewed (own_keys file_id p.ordered) in
    (record p { reviewed = reviewed }, differs (length reviewed) (length p.reviewed))

unfoldable pub is_file_reviewed : ReviewProgress → Text → Bool
unfolding same_key text_eq
is_file_reviewed p file_id = all (contains_key p.reviewed) (own_keys file_id p.ordered)

unfoldable pub replace_files : ReviewProgress → List DiffFile → ReviewProgress
unfolding rebuild_order ordinal_from
replace_files p files =
    let next = rebuild_order p files in
    record next { reviewed = keep (λ key. is_some (ordinal next key)) next.reviewed }

-- `checked_div(total).unwrap_or(100) as u8`.
abbrev percent_of : ℕ → ℕ → ℕ
percent_of reviewed zero = 100
percent_of reviewed (suc n) = (sat_mul reviewed 100 / suc n) % 256

unfoldable pub progress_snapshot : ReviewProgress → ReviewProgressSnapshot
progress_snapshot p =
    let total = length p.ordered in
    let reviewed = min (length p.reviewed) total in
    record { reviewed = reviewed; total = total; percent = percent_of reviewed total }
