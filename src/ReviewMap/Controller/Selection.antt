-- ===== src/ReviewMap/Controller/Selection.antt =====
-- The selection of the controller of src/review_map/state.rs stays on a row that is shown.

use mathlib.Core.Option.{none}
use ramo.Prelude.Str.{text_eq_refl}
use ramo.ReviewMap.Controller.Rows.{
  ids, is_visible-ids, with_reviewed, ids-visible_rows, next_position-lt, current_position-lt,
  get_elem?-is_visible,
}
use ramo.ReviewMap.Controller.Actions.{
  ensure_visible_selection, move_selection, first_id, keeps_selection, is_visible, move_within,
  set_selected_expanded, toggle_selected_expanded, current_position, next_position,
  selected_group_id, override,
}
use ramo.Prelude.Text.{Text}
use ramo.ReviewMap.Controller.{
  ReviewMapRow, ReviewMapController, visible_rows, ℤ, rows_of_group, group_expanded, row_id,
  ReviewMapFailureNotice,
}
use ramo.Prelude.{
  Option, List, ◌≡◌, some, [], true, ◌∷◌, sym, none, Bool-cases, ◌∙◌, inl, refl, inr, if◌then◌else◌,
  Bool, Option-cases, length, not, get_elem?_inside,
}

-- The selected row is shown; nothing is selected only where nothing is shown.
abbrev pub Selects : Option Text → List ReviewMapRow → Type 0
Selects none rows = rows ≡ []
Selects (some id) rows = is_visible id rows ≡ true

Selects-first_id : (rows : List ReviewMapRow) → Selects (first_id rows) rows
Selects-first_id [] = refl
Selects-first_id (row ∷ rows) = rw (text_eq_refl (row_id row)) refl

Selects-keeps :
    (selected : Option Text) (rows : List ReviewMapRow)
    → keeps_selection selected rows ≡ true
    → Selects selected rows
Selects-keeps none rows e = cc
Selects-keeps (some id) rows e = e

Selects-ids :
    (selected : Option Text) (rows rows' : List ReviewMapRow)
    → ids rows ≡ ids rows'
    → Selects selected rows
    → Selects selected rows'
Selects-ids none rows [] e s = refl
Selects-ids none rows (r ∷ rows') e s = cc
Selects-ids (some id) rows rows' e s = sym (is_visible-ids id rows rows' e) ∙ s

move_within-Selects :
    (c : ReviewMapController) (delta : ℤ) (rows : List ReviewMapRow)
    → (selected : Option Text) × (move_within c delta rows
        ≡ some (record c { selected_id = selected }))
      × Selects selected rows
unfolding move_within
move_within-Selects c delta [] = (none, refl, refl)
move_within-Selects c delta (row ∷ rows) =
    let shown = row ∷ rows in
    let current = current_position c.selected_id shown in
    let at = next_position delta current (length shown) in
    let inside =
      next_position-lt delta current (length shown) (current_position-lt c.selected_id row rows) in
    let (next, e) = get_elem?_inside shown at inside in
    (some (row_id next), rw e refl, get_elem?-is_visible shown at next e)

module _ (to_lowercase : Text → Text) where
  abbrev pub IsSelected : ReviewMapController → Type 0
  IsSelected c = Selects c.selected_id (visible_rows to_lowercase c)

  pub ensure-IsSelected :
      (c : ReviewMapController) → IsSelected (ensure_visible_selection to_lowercase c)
  unfolding ensure_visible_selection visible_rows rows_of_group group_expanded
  ensure-IsSelected c =
      elim (Bool-cases (keeps_selection c.selected_id (visible_rows to_lowercase c))) [
        | inl e ↦ rw e (Selects-keeps c.selected_id (visible_rows to_lowercase c) e)
        | inr e ↦ rw e (Selects-first_id (visible_rows to_lowercase c))
      ]

  pub move_selection-IsSelected :
      (c : ReviewMapController) (delta : ℤ)
      → (c' : ReviewMapController) × (move_selection to_lowercase c delta ≡ some c') × IsSelected c'
  unfolding move_selection visible_rows rows_of_group group_expanded
  move_selection-IsSelected c delta =
      let (selected, e, h) = move_within-Selects c delta (visible_rows to_lowercase c) in
      (record c { selected_id = selected }, e, h)

  pub set_selected_expanded-IsSelected :
      (c : ReviewMapController) (expanded : Bool)
      → IsSelected c
      → IsSelected (set_selected_expanded to_lowercase c expanded).0
  unfolding set_selected_expanded
  set_selected_expanded-IsSelected c expanded h = elim (Option-cases (selected_group_id c)) [
    | inl e ↦ rw (e, set_selected_expanded) h
    | inr (id, e) ↦ rw (e, set_selected_expanded) (ensure-IsSelected (override c id expanded))
  ]

  pub toggle_selected_expanded-IsSelected :
      (c : ReviewMapController)
      → IsSelected c
      → IsSelected (toggle_selected_expanded to_lowercase c).0
  unfolding toggle_selected_expanded
  toggle_selected_expanded-IsSelected c h = elim (Option-cases (selected_group_id c)) [
    | inl e ↦ rw (e, toggle_selected_expanded) h
    | inr (id, e) ↦
        rw (e, toggle_selected_expanded)
          (ensure-IsSelected (override c id (not (group_expanded c id))))
  ]

  pub select-IsSelected :
      (c : ReviewMapController) (id : Text)
      → IsSelected c
      → IsSelected (
          if is_visible id (visible_rows to_lowercase c)
          then record c { selected_id = some id }
          else c)
  unfolding visible_rows rows_of_group group_expanded
  select-IsSelected c id h = elim (Bool-cases (is_visible id (visible_rows to_lowercase c))) [
    | inl e ↦ rw e e
    | inr e ↦ rw e h
  ]

  pub unchanged :
      (c : ReviewMapController) (failure : Option ReviewMapFailureNotice)
      → IsSelected c
      → IsSelected (record c { failure = failure })
  unfolding visible_rows rows_of_group group_expanded
  unchanged c failure h = h

  pub mark_reviewed-IsSelected :
      (c : ReviewMapController) (reviewed : List Text)
      → IsSelected c
      → IsSelected (with_reviewed c reviewed)
  mark_reviewed-IsSelected c reviewed h =
      Selects-ids c.selected_id (visible_rows to_lowercase c)
        (visible_rows to_lowercase (with_reviewed c reviewed))
        (sym (ids-visible_rows to_lowercase c reviewed)) h
