-- ===== src/ReviewMap/Controller/Actions.antt =====
-- The operations of the controller of src/review_map/state.rs.
use ramo.Prelude.Machine.{sat_add, sat_mul}
use ramo.ReviewMap.Controller.{
  ℤ, ReviewMapController, ReviewMapRow, visible_rows, group_expanded, contains_path,
  ReviewMapEffect, ReviewMapAction, ReviewMapSnapshot, negsuc, row_id, no_effect, move, redraw, pos,
  select, set_filter, open_file, retry_effect, help_effect, collapse, expand, toggle_expanded,
  open_selected, retry, dismiss_failure, open_help,
}
use ramo.Prelude.Str.{text_eq}
use ramo.ReviewMap.{ReviewMap, ReviewMapFailureCode, ReviewMapStatus, ReviewMapGroup, ReviewMapFile}
use ramo.Prelude.{
  List, Option, none, ℕ, Bool, if◌then◌else◌, keep, ◌>>=◌, any, false, [], find_first, ◌∷◌, not,
  some, length, suc, ◌-◌, ◌||◌, ◌&&◌, min, ◌==◌, ◌/◌, true, get_elem?,
}
use ramo.Prelude.Text.{Text}

-- Whether a row with an identity is shown.
abbrev pub is_visible : Text → List ReviewMapRow → Bool
is_visible id rows = any (λ row. text_eq (row_id row) id) rows

abbrev pub first_id : List ReviewMapRow → Option Text
first_id [] = none
first_id (row ∷ rows) = some (row_id row)

abbrev pub keeps_selection : Option Text → List ReviewMapRow → Bool
keeps_selection none rows = false
keeps_selection (some id) rows = is_visible id rows

abbrev pub unselected : ReviewMap → ReviewMapController
unselected review_map = record {
  map = review_map;
  selected_id = none;
  expansion_overrides = [];
  filter = [];
  reviewed_paths = [];
  failure = none;
}

-- `position(|row| row.id() == id)`, counted from `at`.
unfoldable pub position_from : ℕ → Text → List ReviewMapRow → Option ℕ
unfolding text_eq
position_from at id [] = none
position_from at id (row ∷ rows) =
    let later = position_from (suc at) id rows in if text_eq (row_id row) id then some at else later

unfoldable pub current_position : Option Text → List ReviewMapRow → ℕ
unfolding position_from
current_position none rows = 0
current_position (some id) rows = elim (position_from 0 id rows) [
  | none ↦ 0
  | some position ↦ position
]

abbrev pub next_position : ℤ → ℕ → ℕ → ℕ
next_position (negsuc n) current size = current - suc n
next_position (pos n) current size = min (sat_add current n) (size - 1)

unfoldable pub selected_group_id : ReviewMapController → Option Text
unfolding text_eq
selected_group_id c = do
  selected ← c.selected_id
  group ← find_first (λ (g : ReviewMapGroup). text_eq g.id selected) c.map.groups
  some group.id

unfoldable pub selected_file_id : ReviewMapController → Option Text
unfolding text_eq
selected_file_id c = do
  selected ← c.selected_id
  file ← find_first (λ (f : ReviewMapFile). text_eq f.id selected) c.map.files
  some file.id

abbrev pub override : ReviewMapController → Text → Bool → ReviewMapController
override c id expanded = record c { expansion_overrides = (id, expanded) ∷ c.expansion_overrides }

unfoldable pub mark_reviewed : ReviewMapController → Text → ReviewMapController
unfolding text_eq
mark_reviewed c path =
    if any (λ (file : ReviewMapFile). text_eq file.path path) c.map.files
      && not (contains_path c.reviewed_paths path)
    then record c { reviewed_paths = path ∷ c.reviewed_paths }
    else c

unfoldable pub mark_unreviewed : ReviewMapController → Text → ReviewMapController
unfolding text_eq
mark_unreviewed c path = record c {
  reviewed_paths = keep (λ p. not (text_eq p path)) c.reviewed_paths;
}

abbrev pub set_failure : ReviewMapController → ReviewMapFailureCode → Text → ReviewMapController
set_failure c code message = record c { failure = some (record { code = code; message = message }) }

abbrev pub set_status : ReviewMapController → ReviewMapStatus → ReviewMapController
set_status c status = record c { map = record (ReviewMapController.map c) { status = status } }

-- `is_reviewed`.
abbrev pub is_reviewed : ReviewMapController → Text → Bool
is_reviewed c path = contains_path c.reviewed_paths path

-- The share of the files whose paths are reviewed; `total == 0` is a hundred percent.
unfoldable pub percent_for : List Text → List ReviewMapFile → ℕ
unfolding text_eq
percent_for paths [] = 100
percent_for paths (file ∷ files) =
    let reviewed =
      length (keep (λ (f : ReviewMapFile). contains_path paths f.path) (file ∷ files)) in
    min (sat_mul reviewed 100 / length (file ∷ files)) 100

unfoldable pub reviewed_percent : ReviewMapController → ℕ
unfolding percent_for
reviewed_percent c = percent_for c.reviewed_paths c.map.files

-- `move_selection`, with the rows that it asks for first.
unfoldable pub move_within :
    ReviewMapController → ℤ → List ReviewMapRow → Option ReviewMapController
unfolding current_position
move_within c delta [] = some (record c { selected_id = none })
move_within c delta (row ∷ rows) = do
  next ←
      get_elem? (row ∷ rows)
        (next_position delta (current_position c.selected_id (row ∷ rows)) (length (row ∷ rows)))
  some (record c { selected_id = some (row_id next) })

module _ (to_lowercase : Text → Text) where
  unfoldable pub ensure_visible_selection : ReviewMapController → ReviewMapController
  unfolding visible_rows text_eq
  ensure_visible_selection c =
      if keeps_selection c.selected_id (visible_rows to_lowercase c)
      then c
      else record c { selected_id = first_id (visible_rows to_lowercase c) }

  unfoldable pub new : ReviewMap → ReviewMapController
  unfolding ensure_visible_selection
  new review_map = ensure_visible_selection (unselected review_map)

  unfoldable pub move_selection : ReviewMapController → ℤ → Option ReviewMapController
  unfolding visible_rows move_within
  move_selection c delta = move_within c delta (visible_rows to_lowercase c)

  unfoldable pub set_selected_expanded :
      ReviewMapController → Bool → ReviewMapController × ReviewMapEffect
  unfolding ensure_visible_selection selected_group_id
  set_selected_expanded c expanded = elim (selected_group_id c) [
    | none ↦ (c, no_effect)
    | some id ↦ (ensure_visible_selection (override c id expanded), redraw)
  ]

  unfoldable pub toggle_selected_expanded :
      ReviewMapController → ReviewMapController × ReviewMapEffect
  unfolding ensure_visible_selection selected_group_id group_expanded
  toggle_selected_expanded c = elim (selected_group_id c) [
    | none ↦ (c, no_effect)
    | some id ↦ (ensure_visible_selection (override c id (not (group_expanded c id))), redraw)
  ]

  unfoldable pub apply :
      ReviewMapController → ReviewMapAction → Option (ReviewMapController × ReviewMapEffect)
  unfolding move_selection visible_rows set_selected_expanded toggle_selected_expanded
      ensure_visible_selection selected_file_id text_eq
  apply c (move delta) = do c' ← move_selection c delta; some (c', redraw)
  apply c (select id) = some (
    if is_visible id (visible_rows to_lowercase c) then record c { selected_id = some id } else c,
    redraw,
  )
  apply c collapse = some (set_selected_expanded c false)
  apply c expand = some (set_selected_expanded c true)
  apply c toggle_expanded = some (toggle_selected_expanded c)
  apply c (set_filter filter) =
      some (ensure_visible_selection (record c { filter = filter }), redraw)
  apply c open_selected =
      some (c, elim (selected_file_id c) [ none ↦ no_effect | some id ↦ open_file id ])
  apply c retry = some (c, retry_effect)
  apply c dismiss_failure = some (record c { failure = none }, redraw)
  apply c open_help = some (c, help_effect)

  -- `none` is `ReplaceError::DifferentRevision`.
  unfoldable pub replace_map : ReviewMapController → ReviewMap → Option ReviewMapController
  unfolding ensure_visible_selection text_eq
  replace_map c review_map =
      if not (text_eq c.map.identity.head_sha review_map.identity.head_sha)
        || not (text_eq c.map.identity.repository review_map.identity.repository)
        || not (c.map.identity.pull_request == review_map.identity.pull_request)
      then none
      else some (ensure_visible_selection (record c { map = review_map; failure = none }))

  unfoldable pub snapshot : ReviewMapController → ReviewMapSnapshot
  unfolding visible_rows reviewed_percent
  snapshot c = record {
    status = c.map.status;
    totals = c.map.totals;
    rows = visible_rows to_lowercase c;
    selected_id = c.selected_id;
    filter = c.filter;
    reviewed_percent = reviewed_percent c;
    failure = c.failure;
    analysis_model = elim c.map.analysis [ none ↦ none | some analysis ↦ some analysis.model ];
  }
