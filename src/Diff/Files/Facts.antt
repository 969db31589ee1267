-- ===== src/Diff/Files/Facts.antt =====
-- What holds of each parsed file (crates/ramo-core/src/diff/parser.rs).
use Prim.Native.Nat.{zero}
use ramo.Diff.Paths.{parse_diff_git_line}
use ramo.Prelude.Str.{text_eq_iff, lines}
use ramo.Prelude.Text.{Text, codes}
use ramo.Diff.Files.{
  previous_path_of, file_of, hunk_stats, stable_file_id, Extended, count_line, default_stats,
  parse_file, files_from, extended_header, initial, is_git_header, own_lines, side_path, hunks_from,
  parse_unified_diff, strip_ansi, parse_body,
}
use ramo.Prelude.{
  List, ◌≡◌, ℕ, ◌≢◌, some, ◌∷◌, if◌then◌else◌, ◌+◌, true, [], arith, refl, bind_inv, suc,
  Bool-cases, inr, inl, subst, zero, ap, some_inj, Each, ◌-◌, false,
}
use ramo.Diff.{same_type, DiffFile, LineType, DiffLine, FileStats, Hunk, addition, deletion}
use mathlib.Core.List.{foldl, flat_map, []}

pub kind_count : LineType → List DiffLine → ℕ
unfolding same_type
kind_count kind [] = 0
kind_count kind (line ∷ rest) =
    let later = kind_count kind rest in if same_type kind line.kind then later + 1 else later

count_line_step :
    (line : DiffLine) (rest : List DiffLine) (stats : FileStats)
    → ((count_line stats line).additions + kind_count addition rest
        ≡ stats.additions + kind_count addition (line ∷ rest))
      × ((count_line stats line).deletions + kind_count deletion rest
          ≡ stats.deletions + kind_count deletion (line ∷ rest))
unfolding count_line kind_count
count_line_step line rest stats = ground arith

foldl-count_line :
    (found : List DiffLine) (stats : FileStats)
    → ((foldl count_line stats found).additions ≡ stats.additions + kind_count addition found)
      × ((foldl count_line stats found).deletions ≡ stats.deletions + kind_count deletion found)
foldl-count_line [] stats = unfold kind_count in omega arith
foldl-count_line (line ∷ rest) stats =
    omega (arith, foldl-count_line rest (count_line stats line), count_line_step line rest stats)

-- A file as the parser gives it.
pub record IsConsistent (file : DiffFile) : Type 0 where
  pub identified : file.id ≡ stable_file_id file.path file.previous_path
  pub moved_apart : file.previous_path ≢ some file.path
  pub added_lines :
      file.stats.additions ≡ kind_count addition (flat_map (λ (h : Hunk). h.lines) file.hunks)
  pub deleted_lines :
      file.stats.deletions ≡ kind_count deletion (flat_map (λ (h : Hunk). h.lines) file.hunks)
  pub binary_is_bare : file.is_binary ≡ true → file.hunks ≡ []

previous_path_ne : (old new : Text) → previous_path_of old new ≢ some new
unfolding previous_path_of
previous_path_ne old new e = ground (arith, text_eq_iff old new)

file_of-IsConsistent :
    (m : Extended) (patch : List Text) (hunks : List Hunk)
    → (m.is_binary ≡ true → hunks ≡ [])
    → IsConsistent (file_of m patch hunks (hunk_stats hunks))
unfolding file_of hunk_stats
file_of-IsConsistent m patch hunks bare = record {
  identified = refl;
  moved_apart = previous_path_ne m.old_path m.new_path;
  added_lines =
      omega (arith, foldl-count_line (flat_map (λ (h : Hunk). h.lines) hunks) default_stats);
  deleted_lines =
      omega (arith, foldl-count_line (flat_map (λ (h : Hunk). h.lines) hunks) default_stats);
  binary_is_bare = bare;
}

file_of_bare : (m : Extended) (patch : List Text) → IsConsistent (file_of m patch [] default_stats)
unfolding file_of kind_count flat_map
file_of_bare m patch = record {
  identified = refl;
  moved_apart = previous_path_ne m.old_path m.new_path;
  added_lines = refl;
  deleted_lines = refl;
  binary_is_bare = λ _. refl;
}

parse_body-IsConsistent :
    (header : Text) (own : List Text) (m : Extended) (body : List Text) (file : DiffFile) (n : ℕ)
    → parse_body header own m body ≡ some (file, n)
    → IsConsistent file
unfolding parse_body
parse_body-IsConsistent header own m body file n e = elim (Bool-cases m.is_binary) [
  | inl b ↦
      subst IsConsistent (ap (λ (x : DiffFile × ℕ). x.0) (some_inj (rw b at e)))
        (file_of_bare (record m { is_binary = true }) (header ∷ own))
  | inr b ↦
      let ((old, body1), e4, r4) =
        bind_inv (side_path (codes "--- ") (codes "a/") m.old_path body) _ (rw b at e) in
      let ((new, body2), e5, r5) =
        bind_inv (side_path (codes "+++ ") (codes "b/") m.new_path body1) _ r4 in
      let (hunks, e6, r6) = bind_inv (hunks_from 0 body2) _ r5 in
      subst IsConsistent (ap (λ (x : DiffFile × ℕ). x.0) (some_inj r6)) (
        file_of-IsConsistent (record m { is_binary = false; old_path = old; new_path = new })
          (header ∷ own) hunks (λ b'. cc b'))
]

parse_file-IsConsistent :
    (header : Text) (rest : List Text) (file : DiffFile) (n : ℕ)
    → parse_file header rest ≡ some (file, n)
    → IsConsistent file
unfolding parse_file
parse_file-IsConsistent header rest file n e =
    let ((o, p), e1, r1) = bind_inv (parse_diff_git_line header) _ e in
    let ((m, body), e2, r2) = bind_inv (extended_header (initial o p) (own_lines rest)) _ r1 in
    parse_body-IsConsistent header (own_lines rest) m body file n r2

files_from-IsConsistent :
    (skip : ℕ) (s : List Text) (files : List DiffFile)
    → files_from skip s ≡ some files
    → Each IsConsistent files
unfolding files_from
files_from-IsConsistent zero [] files e = subst (Each IsConsistent) (some_inj e) tt
files_from-IsConsistent (suc skip) [] files e = subst (Each IsConsistent) (some_inj e) tt
files_from-IsConsistent (suc skip) (line ∷ rest) files e = files_from-IsConsistent skip rest files e
files_from-IsConsistent zero (line ∷ rest) files e = elim (Bool-cases (is_git_header line)) [
  | inr h ↦ files_from-IsConsistent zero rest files (rw (h, files_from) at e)
  | inl h ↦
      let ((file, n), e1, r1) = bind_inv (parse_file line rest) _ (rw (h, files_from) at e) in
      let (later, e2, r2) = bind_inv (files_from (n - 1) rest) _ r1 in
      subst (Each IsConsistent) (some_inj r2)
        (parse_file-IsConsistent line rest file n e1, files_from-IsConsistent (n - 1) rest later e2)
]

-- Every file of a parsed patch has the identity of its paths, names a previous path only if that
-- is another one, counts exactly the additions and deletions of its hunks, and has no hunks if it
-- is binary.
pub parse_unified_diff-IsConsistent :
    (input : Text) (files : List DiffFile)
    → parse_unified_diff input ≡ some files
    → Each IsConsistent files
unfolding parse_unified_diff
parse_unified_diff-IsConsistent input files e =
    files_from-IsConsistent 0 (lines (strip_ansi input)) files e
