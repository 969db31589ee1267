-- ===== src/ReviewMap/Controller/Sessions.antt =====
-- Sequences of calls of the controller of src/review_map/state.rs.
use ramo.ReviewMap.Controller.Rows.{with_reviewed}
use ramo.Prelude.Str.{text_eq}
use mathlib.Core.List.{[]}
use ramo.ReviewMap.Controller.Selection.{
  IsSelected, ensure-IsSelected, move_selection-IsSelected, select-IsSelected,
  set_selected_expanded-IsSelected, toggle_selected_expanded-IsSelected, mark_reviewed-IsSelected,
  unchanged,
}
use ramo.Prelude.{
  List, Option, ◌≡◌, some, Bool, ◌∷◌, ◌>>=◌, if◌then◌else◌, [], none, refl, not, false, ◌||◌, true,
  ◌==◌, any, ◌&&◌, keep,
}
use ramo.ReviewMap.{ReviewMap, ReviewMapFailureCode, ReviewMapStatus, ReviewMapFile}
use ramo.Prelude.Text.{Text}
use ramo.ReviewMap.Controller.{
  ReviewMapAction, ReviewMapController, visible_rows, rows_of_group, group_expanded, move, select,
  set_filter, collapse, expand, contains_path, toggle_expanded, open_selected, retry,
  dismiss_failure, open_help,
}
use ramo.ReviewMap.Controller.Actions.{
  new, apply, replace_map, mark_reviewed, mark_unreviewed, unselected, set_failure,
  ensure_visible_selection, set_status,
}

-- The calls that change a controller.
pub data Operation : Type 0 where
  act : ReviewMapAction → Operation
  replace : ReviewMap → Operation
  mark unmark : Text → Operation
  fail : ReviewMapFailureCode → Text → Operation
  status : ReviewMapStatus → Operation

module _ (to_lowercase : Text → Text) where
  -- A call, and a sequence of calls. A map of another revision is refused.
  unfoldable pub perform : ReviewMapController → Operation → Option ReviewMapController
  unfolding apply replace_map mark_reviewed mark_unreviewed
  perform c (act action) = do (c', effect) ← apply to_lowercase c action; some c'
  perform c (replace review_map) =
      some (elim (replace_map to_lowercase c review_map) [ none ↦ c | some c' ↦ c' ])
  perform c (mark path) = some (mark_reviewed c path)
  perform c (unmark path) = some (mark_unreviewed c path)
  perform c (fail code message) = some (set_failure c code message)
  perform c (status s) = some (set_status c s)

  unfoldable pub perform_all : ReviewMapController → List Operation → Option ReviewMapController
  unfolding perform
  perform_all c [] = some c
  perform_all c (operation ∷ rest) = do c' ← perform c operation; perform_all c' rest

  apply-IsSelected :
      (c : ReviewMapController) (action : ReviewMapAction)
      → IsSelected to_lowercase c
      → (c' : ReviewMapController) × (perform c (act action) ≡ some c') × IsSelected to_lowercase c'
  unfolding perform apply
  apply-IsSelected c (move delta) h =
      let (c', e, k) = move_selection-IsSelected to_lowercase c delta in (c', rw e refl, k)
  apply-IsSelected c (select id) h = (_, refl, select-IsSelected to_lowercase c id h)
  apply-IsSelected c collapse h = (_, refl, set_selected_expanded-IsSelected to_lowercase c false h)
  apply-IsSelected c expand h = (_, refl, set_selected_expanded-IsSelected to_lowercase c true h)
  apply-IsSelected c toggle_expanded h =
      (_, refl, toggle_selected_expanded-IsSelected to_lowercase c h)
  apply-IsSelected c (set_filter filter) h =
      (_, refl, ensure-IsSelected to_lowercase (record c { filter = filter }))
  apply-IsSelected c open_selected h = (c, refl, h)
  apply-IsSelected c retry h = (c, refl, h)
  apply-IsSelected c dismiss_failure h =
      (record c { failure = none }, refl, unchanged to_lowercase c none h)
  apply-IsSelected c open_help h = (c, refl, h)

  perform-IsSelected :
      (c : ReviewMapController) (operation : Operation)
      → IsSelected to_lowercase c
      → (c' : ReviewMapController) × (perform c operation ≡ some c') × IsSelected to_lowercase c'
  unfolding perform visible_rows rows_of_group group_expanded replace_map mark_reviewed
      mark_unreviewed
  perform-IsSelected c (act action) h = apply-IsSelected c action h
  perform-IsSelected c (replace review_map) h = (
    _,
    refl,
    kept (
        not (text_eq c.map.identity.head_sha review_map.identity.head_sha)
        || not (text_eq c.map.identity.repository review_map.identity.repository)
        || not (c.map.identity.pull_request == review_map.identity.pull_request)),
  )
    where
      kept :
          (b : Bool)
          → IsSelected to_lowercase
              (elim (if b
                then none
                else some (
                    ensure_visible_selection to_lowercase
                      (record c { map = review_map; failure = none }))) [ none ↦ c | some c' ↦ c' ])
      kept true = h
      kept false = ensure-IsSelected to_lowercase (record c { map = review_map; failure = none })
  perform-IsSelected c (mark path) h = (
    _,
    refl,
    either (
        any (λ (file : ReviewMapFile). text_eq file.path path) c.map.files
        && not (contains_path c.reviewed_paths path)),
  )
    where
      either :
          (b : Bool)
          → IsSelected to_lowercase (if b then with_reviewed c (path ∷ c.reviewed_paths) else c)
      either true = mark_reviewed-IsSelected to_lowercase c (path ∷ c.reviewed_paths) h
      either false = h
  perform-IsSelected c (unmark path) h = (
    _,
    refl,
    mark_reviewed-IsSelected to_lowercase c (keep (λ p. not (text_eq p path)) c.reviewed_paths) h,
  )
  perform-IsSelected c (fail code message) h = (_, refl, h)
  perform-IsSelected c (status s) h = (_, refl, h)

  perform_all_from :
      (c : ReviewMapController) (operations : List Operation)
      → IsSelected to_lowercase c
      → (c' : ReviewMapController) × (perform_all c operations ≡ some c')
        × IsSelected to_lowercase c'
  unfolding perform_all
  perform_all_from c [] h = (c, refl, h)
  perform_all_from c (operation ∷ rest) h =
      let (c', e, k) = perform-IsSelected c operation h in rw e (perform_all_from c' rest k)

  -- From a new controller, every sequence of calls runs to its end without a panic, and then the
  -- selected row is one that is shown, and nothing is selected only where nothing is shown;
  -- whatever lowercase letters are.
  pub perform_all-IsSelected :
      (review_map : ReviewMap) (operations : List Operation)
      → (c : ReviewMapController) × (perform_all (new to_lowercase review_map) operations ≡ some c)
        × IsSelected to_lowercase c
  unfolding new
  perform_all-IsSelected review_map operations =
      perform_all_from (new to_lowercase review_map) operations
        (ensure-IsSelected to_lowercase (unselected review_map))
