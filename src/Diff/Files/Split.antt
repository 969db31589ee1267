-- ===== src/Diff/Files/Split.antt =====
-- How a patch is split into files (crates/ramo-core/src/diff/parser.rs).
use ramo.Diff.Paths.{parse_diff_git_line}
use Prim.Native.Nat.{zero}
use mathlib.Core.List.{[]}
use ramo.Diff.{DiffFile}
use ramo.Prelude.Text.{Text, codes}
use ramo.Prelude.{
  List, ℕ, length, drop, ◌∷◌, if◌then◌else◌, ◌≡◌, some, [], suc, refl, inl, inr, bind_inv,
  Bool-cases, sym, ap, some_inj, ◌++◌, ◌∙◌, append_assoc, ◌-◌, arith,
}
use ramo.Diff.Files.{
  parse_file, files_from, own_lines, is_git_header, extended_header, initial, side_path, hunks_from,
  format_patch, parse_unified_diff, strip_ansi, parse_body, Extended,
}
use ramo.Prelude.Str.{strip_prefix, lines}

-- The lines that begin a file.
pub header_count : List Text → ℕ
unfolding strip_prefix
header_count [] = 0
header_count (line ∷ rest) =
    let later = header_count rest in if is_git_header line then suc later else later

-- The lines from the first header on.
pub from_header : List Text → List Text
unfolding strip_prefix
from_header [] = []
from_header (line ∷ rest) =
    let later = from_header rest in if is_git_header line then line ∷ rest else later

-- The text of lines, and of the patches of files, one behind the other.
abbrev pub text_of : List Text → Text
text_of [] = []
text_of (line ∷ rest) = line ++ 10 ∷ text_of rest

abbrev pub all_patches : List DiffFile → Text
all_patches [] = []
all_patches (file ∷ rest) = file.patch ++ all_patches rest

text_of-append : (a b : List Text) → text_of (a ++ b) ≡ text_of a ++ text_of b
text_of-append [] b = refl
text_of-append (line ∷ a) b = simp (text_of-append a b, append_assoc)

format_patch-cons :
    (line : Text) (rest : List Text) → format_patch (line ∷ rest) ≡ text_of (line ∷ rest)
unfolding format_patch
format_patch-cons line [] = refl
format_patch-cons line (next ∷ rest) =
    simp append_assoc (ap (λ s. line ++ 10 ∷ s) (format_patch-cons next rest))

-- A file takes its header and its own lines, and its patch is their text.
parse_body_inv :
    (header : Text) (own : List Text) (m : Extended) (body : List Text) (file : DiffFile) (n : ℕ)
    → parse_body header own m body ≡ some (file, n)
    → (n ≡ suc (length own)) × (file.patch ≡ text_of (header ∷ own))
unfolding parse_body
parse_body_inv header own m body file n e = elim (Bool-cases m.is_binary) [
  | inl b ↦
      let done = some_inj (rw b at e) in
      (
        sym (ap (λ (x : DiffFile × ℕ). x.1) done),
        sym (ap (λ (x : DiffFile × ℕ). x.0.patch) done) ∙ format_patch-cons header own,
      )
  | inr b ↦
      let ((old, body1), e4, r4) =
        bind_inv (side_path (codes "--- ") (codes "a/") m.old_path body) _ (rw b at e) in
      let ((new, body2), e5, r5) =
        bind_inv (side_path (codes "+++ ") (codes "b/") m.new_path body1) _ r4 in
      let (hunks, e6, r6) = bind_inv (hunks_from 0 body2) _ r5 in
      let done = some_inj r6 in
      (
        sym (ap (λ (x : DiffFile × ℕ). x.1) done),
        sym (ap (λ (x : DiffFile × ℕ). x.0.patch) done) ∙ format_patch-cons header own,
      )
]

parse_file_inv :
    (header : Text) (rest : List Text) (file : DiffFile) (n : ℕ)
    → parse_file header rest ≡ some (file, n)
    → (n ≡ suc (length (own_lines rest))) × (file.patch ≡ text_of (header ∷ own_lines rest))
unfolding parse_file
parse_file_inv header rest file n e =
    let ((o, p), e1, r1) = bind_inv (parse_diff_git_line header) _ e in
    let ((m, body), e2, r2) = bind_inv (extended_header (initial o p) (own_lines rest)) _ r1 in
    parse_body_inv header (own_lines rest) m body file n r2

own_count :
    (rest : List Text) → header_count (drop (length (own_lines rest)) rest) ≡ header_count rest
unfolding header_count own_lines
own_count [] = refl
own_count (line ∷ rest) = elim (Bool-cases (is_git_header line)) [
  | inl h ↦ rw h (rw h)
  | inr h ↦ rw h (own_count rest)
]

own_text :
    (rest : List Text)
    → text_of (own_lines rest) ++ text_of (from_header (drop (length (own_lines rest)) rest))
      ≡ text_of rest
unfolding from_header own_lines
own_text [] = refl
own_text (line ∷ rest) = elim (Bool-cases (is_git_header line)) [
  | inl h ↦ rw h (rw h)
  | inr h ↦ rw h (
      append_assoc line (10 ∷ text_of (own_lines rest))
        (text_of (from_header (drop (length (own_lines rest)) rest)))
      ∙ ap (λ s. line ++ 10 ∷ s) (own_text rest))
]

-- What reading the files of some lines tells of them.
files_from_split :
    (skip : ℕ) (s : List Text) (files : List DiffFile)
    → files_from skip s ≡ some files
    → (length files ≡ header_count (drop skip s))
      × (all_patches files ≡ text_of (from_header (drop skip s)))
unfolding files_from header_count from_header
files_from_split zero [] files e = rw (← some_inj e) (refl, refl)
files_from_split (suc skip) [] files e = rw (← some_inj e) (refl, refl)
files_from_split (suc skip) (line ∷ rest) files e = files_from_split skip rest files e
files_from_split zero (line ∷ rest) files e = elim (Bool-cases (is_git_header line)) [
  | inr h ↦ rw h (files_from_split zero rest files (rw (h, files_from) at e))
  | inl h ↦
      let ((file, n), e1, r1) = bind_inv (parse_file line rest) _ (rw (h, files_from) at e) in
      let (later, e2, r2) = bind_inv (files_from (n - 1) rest) _ r1 in
      let (size, patch) = parse_file_inv line rest file n e1 in
      let (counted, texts) = files_from_split (n - 1) rest later e2 in
      let passed : n - 1 ≡ length (own_lines rest) = omega arith in
      rw h (
        rw (← some_inj r2) (
          ap suc (rw passed at counted ∙ own_count rest),
          ap (λ s. s ++ all_patches later) patch
              ∙ ap (text_of (line ∷ own_lines rest) ++◌) (rw passed at texts)
              ∙ append_assoc line (10 ∷ text_of (own_lines rest))
                  (text_of (from_header (drop (length (own_lines rest)) rest)))
              ∙ ap (λ s. line ++ 10 ∷ s) (own_text rest),
        ))
]

-- A patch that is parsed without a panic gives one file for each `diff --git` line of its text,
-- once escape sequences are removed, and the patches of the files, one behind the other, are the
-- lines from the first such line on: no line is lost or given twice.
pub parse_unified_diff-split :
    (input : Text) (files : List DiffFile)
    → parse_unified_diff input ≡ some files
    → (length files ≡ header_count (lines (strip_ansi input)))
      × (all_patches files ≡ text_of (from_header (lines (strip_ansi input))))
unfolding parse_unified_diff
parse_unified_diff-split input files e = files_from_split 0 (lines (strip_ansi input)) files e
