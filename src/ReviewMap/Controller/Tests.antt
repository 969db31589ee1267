-- ===== src/ReviewMap/Controller/Tests.antt =====
-- Runs of src/review_map/state.rs.
use mathlib.Core.List.{flat_map}
use ramo.ReviewMap.Controller.Percent.{reviewed_percent-eq-100}
use ramo.ReviewMap.Controller.Selection.{IsSelected}
use ramo.ReviewMap.Controller.Rows.{ids}
use ramo.ReviewMap.Controller.Sessions.{perform_all, Operation, act, perform_all-IsSelected, mark}
use ramo.ReviewMap.Controller.{visible_rows, ReviewMapController, move, pos, expand, set_filter}
use ramo.Prelude.{
  List, Bool, ◌≡◌, ◌≤◌, ◌∷◌, ◌>>=◌, none, if◌then◌else◌, [], some, ◌↔◌, refl, false, leb, all, true,
  ◌&&◌, ◌+◌, arith,
}
use ramo.ReviewMap.{ReviewMap, ReviewMapFile, ReviewMapGroup, ready, authored, full}
use ramo.Prelude.Text.{Text, codes}
use ramo.ReviewMap.Controller.Actions.{new, reviewed_percent, unselected, is_reviewed}

abbrev file_of : Text → Text → ReviewMapFile
file_of id path = record {
  id = id;
  path = path;
  previous_path = none;
  status = codes "modified";
  additions = 1;
  deletions = 0;
  kind = authored;
  owner = none;
  coverage = full;
  insight = none;
  recommended_order = none;
}

abbrev group_of : Text → Bool → List Text → ReviewMapGroup
group_of id collapsed file_ids = record {
  id = id;
  label = id;
  kind = authored;
  file_ids = file_ids;
  additions = 1;
  deletions = 0;
  collapsed_by_default = collapsed;
  insight = none;
}

abbrev review_map : ReviewMap
review_map = record {
  schema_version = 1;
  identity = record {
    repository = codes "owner/name";
    pull_request = 1;
    base_sha = codes "base";
    head_sha = codes "head";
  };
  status = ready;
  totals = record {
    files = 2;
    additions = 2;
    deletions = 0;
    authored = 2;
    tests = 0;
    generated = 0;
    migrations = 0;
    documentation = 0;
  };
  groups =
      group_of (codes "g1") false (codes "f1" ∷ [])
      ∷ group_of (codes "g2") true (codes "f2" ∷ [])
      ∷ [];
  files = file_of (codes "f1") (codes "src/a.rs") ∷ file_of (codes "f2") (codes "lib/b.rs") ∷ [];
  analysis = none;
}

-- ASCII letters, for the tests.
abbrev lower : Text → Text
lower [] = []
lower (c ∷ s) = let rest = lower s in if leb b'A' c && leb c b'Z' then (c + 32) ∷ rest else c ∷ rest

abbrev keys : List Operation
keys =
    act (move (pos 5))
    ∷ act expand
    ∷ act (move (pos 1))
    ∷ act (set_filter (codes "SRC"))
    ∷ mark (codes "src/a.rs")
    ∷ []

rows_test :
    ids (visible_rows lower (new lower review_map)) ≡ codes "g1" ∷ codes "f1" ∷ codes "g2" ∷ []
unfolding new visible_rows flat_map
rows_test = refl

-- The filter hides the selected file, so the first row is selected.
keys_test :
    (do c ← perform_all lower (new lower review_map) keys; c.selected_id) ≡ some (codes "g1")
unfolding new perform_all flat_map
keys_test = refl

abbrev half_reviewed : ReviewMapController
half_reviewed = record (unselected review_map) { reviewed_paths = codes "src/a.rs" ∷ [] }

percent_test : reviewed_percent half_reviewed ≡ 50
unfolding reviewed_percent
percent_test = refl

perform_all-IsSelected_example :
    (c : ReviewMapController) × (perform_all lower (new lower review_map) keys ≡ some c)
    × IsSelected lower c
perform_all-IsSelected_example = perform_all-IsSelected lower review_map keys

reviewed_percent-eq-100_example :
    (reviewed_percent half_reviewed ≤ 100)
    × ((reviewed_percent half_reviewed ≡ 100) ↔ (
        all (λ (file : ReviewMapFile). is_reviewed half_reviewed file.path) review_map.files
        ≡ true))
reviewed_percent-eq-100_example = reviewed_percent-eq-100 half_reviewed (omega arith)
