-- ===== src/ReviewMap/Controller.antt =====
-- src/review_map/state.rs: the controller of the review map, which keeps the selection, the
-- unfolded groups, the filter and the reviewed files. `str::to_lowercase` belongs to Unicode tables
-- and is a parameter. A map of overrides is a list of pairs, the latest first, and a set of paths
-- is a list. `none` is a panic.
pub mod Actions
pub mod Rows
pub mod Selection
pub mod Sessions
pub mod Percent
mod Tests
use ramo.Prelude.Machine.{sat_add, sat_mul}
use mathlib.Core.List.{flat_map, reverse}
use ramo.Prelude.Str.{text_eq, strip_prefix, starts_with, trim}
use ramo.ReviewMap.{
  ReviewMapFailureCode, ReviewMapStatus, ReviewMap, ReviewFileKind, ReviewMapTotals, ReviewMapGroup,
  ReviewMapFile,
}
use ramo.Prelude.Text.{Text}
use ramo.Prelude.{
  ℕ, List, Bool, Option, none, any, [], true, some, find_first, ◌||◌, keep, if◌then◌else◌, ◌∷◌,
  false, ◌++◌, not, ◌&&◌, map, suc, ◌-◌, ◌==◌, length, ◌>>=◌, min, get_elem?, zero, ◌/◌,
}

-- `i32`, over the native numbers.
pub data ℤ : Type 0 where
  pos negsuc : ℕ → ℤ

pub data ReviewMapAction : Type 0 where
  move : ℤ → ReviewMapAction
  select : Text → ReviewMapAction
  collapse expand toggle_expanded : ReviewMapAction
  set_filter : Text → ReviewMapAction
  open_selected retry dismiss_failure open_help : ReviewMapAction

pub data ReviewMapEffect : Type 0 where
  no_effect redraw retry_effect help_effect : ReviewMapEffect
  open_file : Text → ReviewMapEffect

pub record ReviewMapFailureNotice : Type 0 where
  pub code : ReviewMapFailureCode
  pub message : Text

pub record GroupRow : Type 0 where
  pub id : Text
  pub label : Text
  pub kind : ReviewFileKind
  pub additions : ℕ
  pub deletions : ℕ
  pub expanded : Bool
  pub summary : Option Text
  pub risk : Option Text

pub record FileRow : Type 0 where
  pub id : Text
  pub path : Text
  pub kind : ReviewFileKind
  pub additions : ℕ
  pub deletions : ℕ
  pub reviewed : Bool
  pub recommended_order : Option ℕ
  pub summary : Option Text
  pub risk : Option Text

pub data ReviewMapRow : Type 0 where
  group_row : GroupRow → ReviewMapRow
  file_row : FileRow → ReviewMapRow

-- `ReviewMapRow::id`.
abbrev pub row_id : ReviewMapRow → Text
row_id (group_row row) = row.id
row_id (file_row row) = row.id

pub record ReviewMapSnapshot : Type 0 where
  pub status : ReviewMapStatus
  pub totals : ReviewMapTotals
  pub rows : List ReviewMapRow
  pub selected_id : Option Text
  pub filter : Text
  pub reviewed_percent : ℕ
  pub failure : Option ReviewMapFailureNotice
  pub analysis_model : Option Text

pub record ReviewMapController : Type 0 where
  pub map : ReviewMap
  pub selected_id : Option Text
  pub expansion_overrides : List (Text × Bool)
  pub filter : Text
  pub reviewed_paths : List Text
  pub failure : Option ReviewMapFailureNotice

-- `HashMap::get` and `HashSet::contains`.
unfoldable pub override_of : Text → List (Text × Bool) → Option Bool
unfolding text_eq
override_of id [] = none
override_of id ((key, value) ∷ rest) =
    let later = override_of id rest in if text_eq key id then some value else later

abbrev pub contains_path : List Text → Text → Bool
contains_path paths path = any (text_eq path) paths

-- `contains` of a text.
unfoldable pub contains_text : Text → Text → Bool
unfolding strip_prefix
contains_text [] query = starts_with query []
contains_text (c ∷ s) query = starts_with query (c ∷ s) || contains_text s query

unfoldable pub default_expanded : Text → List ReviewMapGroup → Bool
unfolding text_eq
default_expanded id groups =
    elim (find_first (λ (group : ReviewMapGroup). text_eq group.id id) groups) [
      | none ↦ false
      | some group ↦ not group.collapsed_by_default
    ]

unfoldable pub group_expanded : ReviewMapController → Text → Bool
unfolding override_of default_expanded
group_expanded c id = elim (override_of id c.expansion_overrides) [
  | some value ↦ value
  | none ↦ default_expanded id c.map.groups
]

-- The map from identities to files keeps the last file of an identity.
unfoldable pub file_by_id : Text → List ReviewMapFile → Option ReviewMapFile
unfolding text_eq
file_by_id id files = find_first (λ (file : ReviewMapFile). text_eq file.id id) (reverse files)

unfoldable pub files_by_id : List Text → List ReviewMapFile → List ReviewMapFile
unfolding file_by_id
files_by_id [] files = []
files_by_id (id ∷ ids) files =
    let rest = files_by_id ids files in
    elim (file_by_id id files) [ none ↦ rest | some file ↦ file ∷ rest ]

unfoldable pub file_row_of : List Text → ReviewMapFile → ReviewMapRow
unfolding text_eq
file_row_of reviewed_paths file = file_row (record {
  id = file.id;
  path = file.path;
  kind = file.kind;
  additions = file.additions;
  deletions = file.deletions;
  reviewed = contains_path reviewed_paths file.path;
  recommended_order = file.recommended_order;
  summary = elim file.insight [ none ↦ none | some insight ↦ some insight.summary ];
  risk = elim file.insight [ none ↦ none | some insight ↦ insight.risk ];
})

unfoldable pub group_row_of : Bool → ReviewMapGroup → ReviewMapRow
group_row_of expanded group = group_row (record {
  id = group.id;
  label = group.label;
  kind = group.kind;
  additions = group.additions;
  deletions = group.deletions;
  expanded = expanded;
  summary = elim group.insight [ none ↦ none | some insight ↦ some insight.summary ];
  risk = elim group.insight [ none ↦ none | some insight ↦ insight.risk ];
})

abbrev or_blank : Option Text → Text
or_blank none = []
or_blank (some s) = s

abbrev pub is_blank : Text → Bool
is_blank [] = true
is_blank (c ∷ s) = false

module _ (to_lowercase : Text → Text) where
  unfoldable pub group_matches : Text → ReviewMapGroup → Bool
  unfolding contains_text
  group_matches query group =
      is_blank query
      || contains_text
          (to_lowercase (
            group.label
            ++ 32 ∷ elim group.insight [ none ↦ [] | some insight ↦ insight.summary ]
            ++ 32 ∷ elim group.insight [ none ↦ [] | some insight ↦ or_blank insight.risk ]))
          query

  unfoldable pub file_matches : Text → ReviewMapFile → Bool
  unfolding contains_text
  file_matches query file = contains_text (to_lowercase file.path) query || elim file.insight [
    | none ↦ false
    | some insight ↦
        contains_text (to_lowercase insight.summary) query
        || elim insight.risk [ none ↦ false | some risk ↦ contains_text (to_lowercase risk) query ]
  ]

  unfoldable pub matching_files : Text → List ReviewMapFile → ReviewMapGroup → List ReviewMapFile
  unfolding group_matches file_matches files_by_id
  matching_files query files group =
      keep (λ file. group_matches query group || file_matches query file)
        (files_by_id group.file_ids files)

  -- The rows of one round of the loop over the groups.
  unfoldable pub rows_of_group : ReviewMapController → Text → ReviewMapGroup → List ReviewMapRow
  unfolding group_matches matching_files group_expanded file_row_of group_row_of
  rows_of_group c query group =
      let files = matching_files query c.map.files group in
      let expanded = group_expanded c group.id in
      if not (group_matches query group) && elim files [ [] ↦ true | f ∷ fs ↦ false ]
      then []
      else group_row_of expanded group
        ∷ (if expanded || not (is_blank query)
            then map (file_row_of c.reviewed_paths) files
            else [])

  unfoldable pub visible_rows : ReviewMapController → List ReviewMapRow
  unfolding rows_of_group trim
  visible_rows c = flat_map (rows_of_group c (to_lowercase (trim c.filter))) c.map.groups
