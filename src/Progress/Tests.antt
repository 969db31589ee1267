-- ===== src/Progress/Tests.antt =====
-- Runs of src/review/progress.rs.
use ramo.Diff.{LineType, DiffLine, DiffFile, deletion, addition, modified, context, absent}
use ramo.Prelude.Str.{text_eq}
use ramo.Progress.Marks.{observe_through-reviewed, mark_file_reviewed-is_file_reviewed}
use ramo.Prelude.{all, ℕ, [], ◌∷◌, ◌≡◌, some, true, take, refl, arith, false, List, none}
use ramo.Prelude.Text.{Text, codes}
use ramo.Progress.{
  new, ReviewProgress, progress_snapshot, ordinal_from, same_key, is_file_reviewed, observe_through,
  ordinal, contains_key, mark_file_reviewed, ChangedLineKey, new_changed, old_changed,
}
use ramo.Progress.Sessions.{mark, replace, perform_all, IsSound, observe, perform_all-IsSound, Call}

abbrev at_new : Text → ℕ → ChangedLineKey
at_new file_id n = record { file_id = file_id; changed = new_changed n }

abbrev at_old : Text → ℕ → ChangedLineKey
at_old file_id n = record { file_id = file_id; changed = old_changed n }

abbrev progress : ReviewProgress
progress = record {
  ordered = at_old (codes "a") 1 ∷ at_new (codes "a") 1 ∷ at_new (codes "b") 7 ∷ [];
  reviewed = [];
}

observe_test :
    progress_snapshot (observe_through progress (at_new (codes "a") 1 ∷ [])).0
    ≡ record { reviewed = 2; total = 3; percent = 66 }
unfolding progress_snapshot observe_through
observe_test = refl

place_test : ordinal progress (at_new (codes "a") 1) ≡ some 1
unfolding ordinal_from
place_test = refl

observed_test : contains_key (at_new (codes "a") 1 ∷ []) (at_new (codes "a") 1) ≡ true
unfolding same_key
observed_test = refl

observe_through-reviewed_example :
    (all
        (contains_key (observe_through progress (at_new (codes "a") 1 ∷ [])).0.reviewed)
        (take 2 progress.ordered)
      ≡ true)
    × ((j : ChangedLineKey)
        → contains_key [] j ≡ true
        → contains_key (observe_through progress (at_new (codes "a") 1 ∷ [])).0.reviewed j ≡ true)
observe_through-reviewed_example =
    observe_through-reviewed progress (at_new (codes "a") 1 ∷ []) (at_new (codes "a") 1) 1
      (omega arith) observed_test place_test

mark_file_reviewed-is_file_reviewed_example :
    (is_file_reviewed (mark_file_reviewed progress (codes "a")).0 (codes "a") ≡ true)
    × ((j : ChangedLineKey)
        → text_eq j.file_id (codes "a") ≡ false
        → contains_key (mark_file_reviewed progress (codes "a")).0.reviewed j ≡ contains_key [] j)
mark_file_reviewed-is_file_reviewed_example =
    mark_file_reviewed-is_file_reviewed progress (codes "a")

abbrev changed_line : LineType → ℕ → DiffLine
changed_line kind n = record {
  kind = kind;
  content = [];
  old_lineno = some n;
  new_lineno = some n;
  moved = none;
}

abbrev file_named : Text → List DiffLine → DiffFile
file_named name lines = record {
  id = name;
  path = name;
  previous_path = none;
  summary = none;
  agent = none;
  patch = [];
  hunks = record { old_start = 1; new_start = 1; header = []; lines = lines } ∷ [];
  change_kind = modified;
  is_binary = false;
  is_untracked = false;
  is_too_large = false;
  stats_truncated = false;
  language = none;
  stats = record { additions = 1; deletions = 1 };
  old_source = absent;
  new_source = absent;
}

abbrev before_reload : List DiffFile
before_reload =
    file_named (codes "a")
      (changed_line deletion 1 ∷ changed_line context 2 ∷ changed_line addition 3 ∷ [])
    ∷ []

abbrev after_reload : List DiffFile
after_reload = file_named (codes "a") (changed_line addition 3 ∷ changed_line addition 4 ∷ []) ∷ []

abbrev reload : List Call
reload = mark (codes "a") ∷ replace after_reload ∷ observe (at_new (codes "a") 3 ∷ []) ∷ []

-- The deleted line is forgotten, and the line that both versions add stays reviewed.
reload_test : perform_all (new before_reload) reload ≡ record {
  ordered = at_new (codes "a") 3 ∷ at_new (codes "a") 4 ∷ [];
  reviewed = at_new (codes "a") 3 ∷ [];
}
unfolding perform_all new
reload_test = refl

perform_all-IsSound_example : IsSound after_reload (perform_all (new before_reload) reload)
perform_all-IsSound_example = perform_all-IsSound before_reload reload
