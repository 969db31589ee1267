-- ===== src/ReviewMap/Planner/Planned.antt =====
-- The review map that crates/ramo-core/src/review_map/planner.rs builds.
use ramo.ReviewMap.Planner.Refused.{OwnersRefused, OwnersRead, FileRefused, GoodPrevious}
use ramo.ReviewMap.Planner.Files.{shown_path, GoodPath, file_paths}
use ramo.ReviewMap.Classify.{Globs}
use ramo.ReviewMap.Exact.Partition.{IsExact}
use ramo.Prelude.Result.{Result, success, failure}
use mathlib.Core.List.{[]}
use ramo.Prelude.Sets.{Distinct}
use ramo.Prelude.Text.{Text}
use ramo.ReviewMap.{ReviewMapFile, ReviewMap}
use ramo.Prelude.{List, ◌≡◌, [], Each, ◌⊎◌, map, ◌++◌}
use ramo.ReviewMap.Exact.{ids_of, ReviewMapError}
use ramo.ReviewMap.Planner.{ReviewMapInput}

-- What is known of the map that is built from files.
abbrev pub IsPlan : List ReviewMapFile → Result ReviewMap ReviewMapError → Type 0
IsPlan files result =
    ((map : ReviewMap) → result ≡ success map → IsExact map × (map.files ≡ files))
    × (Distinct (ids_of files) → (map : ReviewMap) × (result ≡ success map))

-- What building a review map comes to: the owners are refused; or they are read and a file is
-- refused; or all is read, the files have the paths of the input, and a map is tried with them.
abbrev pub Outcome : Globs → ReviewMapInput → Result ReviewMap ReviewMapError → Type 0
Outcome glob input result =
    ((error : ReviewMapError) × (result ≡ failure error)
      × OwnersRefused glob input.codeowners error)
    ⊎ ((OwnersRead glob input.codeowners
          × ((error : ReviewMapError) × (result ≡ failure error) × FileRefused input.files error))
        ⊎ (OwnersRead glob input.codeowners
            × Each GoodPrevious input.files
            × ((files : List ReviewMapFile) × (file_paths files ≡ map shown_path input.files)
                × Each GoodPath (file_paths files)
                × Distinct (file_paths files)
                × IsPlan files result)))
