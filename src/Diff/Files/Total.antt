-- ===== src/Diff/Files/Total.antt =====
-- Patches on which crates/ramo-core/src/diff/parser.rs does not panic.
use mathlib.Core.Option.{none}
use ramo.Diff.Paths.{unquote_git_path}
use mathlib.Core.Bool.{false}
use Prim.Native.Nat.{zero}
use ramo.Diff.Hunks.Numbering.{parse_hunk-eq-none}
use ramo.Diff.Hunks.{parse_hunk}
use ramo.Prelude.Str.{starts_with, trim_start_matches, strip_prefix, text_eq, lines}
use ramo.Prelude.{
  List, ℕ, ◌≡◌, Each, any, true, some, ◌==◌, suc, ◌∷◌, Bool-cases, Option-cases, inl, [], inr, ◌-◌,
  refl, if◌then◌else◌, ◌||◌, Bool, Option, ◌>>=◌, length,
}
use ramo.Diff.Paths.Unquoted.{
  unquoted, Succeeds, patch_path-Succeeds, suffix_unquoted, git_line-Succeeds, unquote-Succeeds,
}
use ramo.Diff.Files.{
  read_extended, extended_header, side_path, hunks_from, Extended, ends_extended, is_git_header,
  parse_body, own_lines, parse_file, files_from, parse_unified_diff, initial, strip_ansi, file_of,
  default_stats, hunk_stats,
}
use ramo.Prelude.Text.{Text, codes}

-- A line that has no quote and, if it begins a hunk, a space behind its marks.
abbrev pub IsPlain : Text → Type 0
IsPlain line =
    (unquoted line ≡ true)
    × (starts_with (codes "@@ ") line ≡ true
        → any (λ c. c == 32) (trim_start_matches (codes "@@ ") line) ≡ true)

pick : (b : Bool) (x y : Option Extended) → Succeeds x → Succeeds y → Succeeds (if b then x else y)
pick true x y h k = h
pick false x y h k = k

-- A line that names a path behind a prefix.
names :
    (p line : Text) (f : Text → Extended) (other : Option Extended)
    → unquoted line ≡ true
    → Succeeds other
    → Succeeds (elim (strip_prefix p line) [
      | some path ↦ (do s ← unquote_git_path path; some (f s))
      | none ↦ other
    ])
names p line f other h k = elim (Option-cases (strip_prefix p line)) [
  | inl e ↦ rw e k
  | inr (path, e) ↦
      let (s, g) = unquote-Succeeds path (suffix_unquoted p line path e h) in
      (f s, rw e (rw g refl))
]

read_extended-Succeeds :
    (m : Extended) (line : Text) → unquoted line ≡ true → Succeeds (read_extended m line)
unfolding read_extended
read_extended-Succeeds m line h =
    pick (starts_with (codes "new file") line) (some (record m { is_new = true })) _ (_, refl)
      (pick (starts_with (codes "deleted file") line) (some (record m { is_deleted = true })) _
        (_, refl)
        (pick
          (starts_with (codes "Binary files") line || starts_with (codes "GIT binary patch") line)
          (some (record m { is_binary = true })) _ (_, refl)
          (names (codes "rename from ") line (λ s. record m { is_renamed = true; old_path = s }) _ h
            (names (codes "rename to ") line (λ s. record m { is_renamed = true; new_path = s }) _ h
              (names (codes "copy from ") line (λ s. record m { is_copied = true; old_path = s }) _
                h
                (names (codes "copy to ") line (λ s. record m { is_copied = true; new_path = s }) _
                  h (m, refl)))))))

extended_header-Succeeds :
    (m : Extended) (lines : List Text)
    → Each IsPlain lines
    → (m' : Extended) × (rest : List Text) × (extended_header m lines ≡ some (m', rest))
      × Each IsPlain rest
unfolding extended_header
extended_header-Succeeds m [] h = (m, [], refl, tt)
extended_header-Succeeds m (line ∷ rest) h = elim (Bool-cases (ends_extended line)) [
  | inl e ↦ (m, line ∷ rest, rw (e, extended_header) refl, h)
  | inr e ↦
      let (m', f) = read_extended-Succeeds m line h.0.0 in
      rw (e, extended_header) (rw f (extended_header-Succeeds m' rest h.1))
]

side_path-Succeeds :
    (marker prefix path : Text) (lines : List Text)
    → Each IsPlain lines
    → (path' : Text) × (rest : List Text) × (side_path marker prefix path lines
        ≡ some (path', rest))
      × Each IsPlain rest
unfolding side_path
side_path-Succeeds marker prefix path [] h = (path, [], refl, tt)
side_path-Succeeds marker prefix path (line ∷ rest) h =
    elim (Option-cases (strip_prefix marker line)) [
      | inl e ↦ (path, line ∷ rest, rw (e, side_path) refl, h)
      | inr (after, e) ↦
          let (named, f) =
            patch_path-Succeeds after prefix (suffix_unquoted marker line after e h.0.0) in
          (
            (if text_eq named [] || text_eq named (codes "/dev/null") then path else named),
            rest,
            rw (e, side_path) (rw f refl),
            h.1,
          )
    ]

hunk-Succeeds :
    (line : Text) (rest : List Text)
    → any (λ c. c == 32) (trim_start_matches (codes "@@ ") line) ≡ true
    → Succeeds (parse_hunk line rest)
hunk-Succeeds line rest h = elim (Option-cases (parse_hunk line rest)) [
  | inl e ↦ absurd (cc (h, (parse_hunk-eq-none line rest).0 e))
  | inr r ↦ r
]

hunks_from-Succeeds :
    (skip : ℕ) (lines : List Text) → Each IsPlain lines → Succeeds (hunks_from skip lines)
unfolding hunks_from
hunks_from-Succeeds skip [] h = ([], refl)
hunks_from-Succeeds (suc skip) (line ∷ rest) h = hunks_from-Succeeds skip rest h.1
hunks_from-Succeeds zero (line ∷ rest) h = elim (Bool-cases (is_git_header line)) [
  | inl e ↦ ([], rw (e, hunks_from) refl)
  | inr e ↦ elim (Bool-cases (starts_with (codes "@@ ") line)) [
    | inl f ↦
        let ((hunk, consumed), g) = hunk-Succeeds line rest (h.0.1 f) in
        let (hunks, k) = hunks_from-Succeeds (consumed - 1) rest h.1 in
        (hunk ∷ hunks, rw (e, f, hunks_from) (rw g (rw k refl)))
    | inr f ↦ rw (e, f, hunks_from) (hunks_from-Succeeds zero rest h.1)
  ]
]

parse_body-Succeeds :
    (header : Text) (own : List Text) (m : Extended) (body : List Text)
    → Each IsPlain body
    → Succeeds (parse_body header own m body)
unfolding parse_body
parse_body-Succeeds header own m body h = elim (Bool-cases m.is_binary) [
  | inl e ↦ ((file_of m (header ∷ own) [] default_stats, suc (length own)), rw e refl)
  | inr e ↦
      let (old, body1, f, h1) = side_path-Succeeds (codes "--- ") (codes "a/") m.old_path body h in
      let (new, body2, g, h2) =
        side_path-Succeeds (codes "+++ ") (codes "b/") m.new_path body1 h1 in
      let (hunks, k) = hunks_from-Succeeds 0 body2 h2 in
      (
        (
          file_of (record m { old_path = old; new_path = new }) (header ∷ own) hunks
              (hunk_stats hunks),
          suc (length own),
        ),
        rw e (rw f (rw g (rw k refl))),
      )
]

own_lines-IsPlain : (lines : List Text) → Each IsPlain lines → Each IsPlain (own_lines lines)
unfolding own_lines
own_lines-IsPlain [] h = tt
own_lines-IsPlain (line ∷ rest) h = elim (Bool-cases (is_git_header line)) [
  | inl e ↦ rw e tt
  | inr e ↦ rw e (h.0, own_lines-IsPlain rest h.1)
]

parse_file-Succeeds :
    (header : Text) (rest : List Text)
    → unquoted header ≡ true
    → Each IsPlain rest
    → Succeeds (parse_file header rest)
unfolding parse_file
parse_file-Succeeds header rest q h =
    let ((old, new), e) = git_line-Succeeds header q in
    let (m, body, f, h') =
      extended_header-Succeeds (initial old new) (own_lines rest) (own_lines-IsPlain rest h) in
    let (file, g) = parse_body-Succeeds header (own_lines rest) m body h' in (file, rw e (rw f g))

files_from-Succeeds :
    (skip : ℕ) (lines : List Text) → Each IsPlain lines → Succeeds (files_from skip lines)
unfolding files_from
files_from-Succeeds skip [] h = ([], refl)
files_from-Succeeds (suc skip) (line ∷ rest) h = files_from-Succeeds skip rest h.1
files_from-Succeeds zero (line ∷ rest) h = elim (Bool-cases (is_git_header line)) [
  | inl e ↦
      let ((file, consumed), g) = parse_file-Succeeds line rest h.0.0 h.1 in
      let (files, k) = files_from-Succeeds (consumed - 1) rest h.1 in
      (file ∷ files, rw (e, files_from) (rw g (rw k refl)))
  | inr e ↦ rw (e, files_from) (files_from-Succeeds zero rest h.1)
]

-- A patch whose lines have no quotes, once escape sequences are removed, and a space behind the
-- marks of each hunk is parsed without a panic.
pub parse_unified_diff-Succeeds :
    (input : Text) → Each IsPlain (lines (strip_ansi input)) → Succeeds (parse_unified_diff input)
unfolding parse_unified_diff
parse_unified_diff-Succeeds input h = files_from-Succeeds 0 (lines (strip_ansi input)) h
