-- ===== src/ReviewMap/Controller/Rows.antt =====
-- The identities of the rows that src/review_map/state.rs shows.
use mathlib.Core.Path.{ap₂}
use mathlib.Core.Bool.{false}
use Prim.Native.Nat.{zero}
use mathlib.Core.Option.{none}
use mathlib.Core.List.{[], map-append}
use ramo.Prelude.Str.{text_eq, text_eq_refl, trim}
use ramo.ReviewMap.{ReviewMapFile, ReviewMapGroup}
use ramo.ReviewMap.Controller.{
  ℤ, file_row_of, ReviewMapController, ReviewMapRow, rows_of_group, visible_rows, group_expanded,
  row_id, negsuc, pos, matching_files, group_matches, is_blank, group_row_of,
}
use mathlib.Core.List.{flat_map}
use ramo.ReviewMap.Controller.Actions.{position_from, current_position, is_visible, next_position}
use ramo.Prelude.Text.{Text}
use ramo.Prelude.{
  List, ℕ, Option, map, ◌≡◌, get_elem?, ◌∷◌, ◌<◌, any, ◌∙◌, some, length, ap, true, ◌+◌, arith,
  Bool, [], sym, subst, suc, Option-cases, if◌then◌else◌, refl, some_inj, inl, inr, ◌||◌, none,
  zero, not, ◌&&◌, ◌++◌,
}

abbrev pub ids : List ReviewMapRow → List Text
ids rows = map row_id rows

is_visible-eq :
    (id : Text) (rows : List ReviewMapRow) → is_visible id rows ≡ any (λ x. text_eq x id) (ids rows)
is_visible-eq id [] = refl
is_visible-eq id (row ∷ rows) = ap (text_eq (row_id row) id ||◌) (is_visible-eq id rows)

-- What is shown is decided by the identities alone.
pub is_visible-ids :
    (id : Text) (rows rows' : List ReviewMapRow)
    → ids rows ≡ ids rows'
    → is_visible id rows ≡ is_visible id rows'
is_visible-ids id rows rows' e =
    is_visible-eq id rows ∙ ap (any (λ x. text_eq x id)) e ∙ sym (is_visible-eq id rows')

pub get_elem?-is_visible :
    (rows : List ReviewMapRow) (n : ℕ) (row : ReviewMapRow)
    → get_elem? rows n ≡ some row
    → is_visible (row_id row) rows ≡ true
get_elem?-is_visible [] n row e = cc
get_elem?-is_visible (r ∷ rows) zero row e =
    subst (λ x. is_visible (row_id x) (r ∷ rows) ≡ true) (some_inj e)
      (rw (text_eq_refl (row_id r)) refl)
get_elem?-is_visible (r ∷ rows) (suc n) row e =
    either (text_eq (row_id r) (row_id row)) (get_elem?-is_visible rows n row e)
  where
    either : {b : Bool} (a : Bool) → b ≡ true → (a || b) ≡ true
    either true h = refl
    either false h = h

pub position_from-lt :
    (at : ℕ) (id : Text) (rows : List ReviewMapRow) (p : ℕ)
    → position_from at id rows ≡ some p
    → p < at + length rows
unfolding position_from
position_from-lt at id [] p e = cc
position_from-lt at id (row ∷ rows) p e = ground (arith, position_from-lt (suc at) id rows p)

pub current_position-lt :
    (selected : Option Text) (row : ReviewMapRow) (rows : List ReviewMapRow)
    → current_position selected (row ∷ rows) < length (row ∷ rows)
unfolding current_position
current_position-lt none row rows = omega arith
current_position-lt (some id) row rows = elim (Option-cases (position_from 0 id (row ∷ rows))) [
  | inl e ↦ rw (e, current_position) (omega arith)
  | inr (p, e) ↦ rw (e, current_position) (omega (arith, position_from-lt 0 id (row ∷ rows) p e))
]

pub next_position-lt :
    (delta : ℤ) (current size : ℕ) → current < size → next_position delta current size < size
next_position-lt (negsuc n) current size h = omega arith
next_position-lt (pos n) current size h = omega arith

ids-file_rows :
    (reviewed reviewed' : List Text) (files : List ReviewMapFile)
    → ids (map (file_row_of reviewed) files) ≡ ids (map (file_row_of reviewed') files)
unfolding file_row_of
ids-file_rows reviewed reviewed' [] = refl
ids-file_rows reviewed reviewed' (file ∷ files) =
    ap (file.id ∷◌) (ids-file_rows reviewed reviewed' files)

abbrev pub with_reviewed : ReviewMapController → List Text → ReviewMapController
with_reviewed c reviewed = record c { reviewed_paths = reviewed }

module _ (to_lowercase : Text → Text) where
  ids-rows_of_group :
      (c : ReviewMapController) (reviewed : List Text) (query : Text) (group : ReviewMapGroup)
      → ids (rows_of_group to_lowercase (with_reviewed c reviewed) query group)
        ≡ ids (rows_of_group to_lowercase c query group)
  unfolding rows_of_group group_expanded
  ids-rows_of_group c reviewed query group =
      let files = matching_files to_lowercase query c.map.files group in
      let expanded = group_expanded c group.id in
      let e = ids-file_rows reviewed c.reviewed_paths files in
      shown
        (not (group_matches to_lowercase query group) && elim files [ [] ↦ true | f ∷ fs ↦ false ])
        (expanded || not (is_blank query)) (group_row_of expanded group) _ _ e
    where
      shown :
          (hidden wide : Bool) (row : ReviewMapRow) (a b : List ReviewMapRow)
          → ids a ≡ ids b
          → ids (if hidden then [] else row ∷ (if wide then a else []))
            ≡ ids (if hidden then [] else row ∷ (if wide then b else []))
      shown true wide row a b h = refl
      shown false true row a b h = ap (row_id row ∷◌) h
      shown false false row a b h = refl

  pub ids-visible_rows :
      (c : ReviewMapController) (reviewed : List Text)
      → ids (visible_rows to_lowercase (with_reviewed c reviewed))
        ≡ ids (visible_rows to_lowercase c)
  unfolding visible_rows flat_map
  ids-visible_rows c reviewed = over c.map.groups
    where
      over :
          (groups : List ReviewMapGroup)
          → ids (
              flat_map
                (rows_of_group to_lowercase
                  (with_reviewed c reviewed)
                  (to_lowercase (trim c.filter)))
                groups)
            ≡ ids (flat_map (rows_of_group to_lowercase c (to_lowercase (trim c.filter))) groups)
      over [] = refl
      over (group ∷ groups) =
          map-append row_id
            (rows_of_group to_lowercase (with_reviewed c reviewed) (to_lowercase (trim c.filter))
              group)
            _
          ∙ ap₂ (◌++◌ {A = Text})
              (ids-rows_of_group c reviewed (to_lowercase (trim c.filter)) group) (over groups)
          ∙ sym (
              map-append row_id (rows_of_group to_lowercase c (to_lowercase (trim c.filter)) group)
                _)
