-- ===== src/Drafts.antt =====
-- crates/ramo-core/src/drafts.rs: comments on a pull request that are not sent yet, and where they
-- stand after the pull request has changed. Line numbers are `u32`.
pub mod Reanchor
mod Tests
use mathlib.Core.Option.{none}
use mathlib.Core.List.{reverse, []}
use ramo.Prelude.Machine.{wrap32}
use ramo.Prelude.Str.{trim, text_eq}
use ramo.Prelude.Text.{Text, codes}
use ramo.Prelude.{
  Bool, if◌then◌else◌, ℕ, List, Option, true, ltb, ◌==◌, leb, false, ◌++◌, not, ◌∷◌, ◌||◌, ◌+◌, suc,
  some, [], ◌&&◌, length, ◌^◌, none, take, ◌-◌, drop,
}

pub data RemoteLineSide : Type 0 where
  left right : RemoteLineSide

unfoldable pub same_line_side : RemoteLineSide → RemoteLineSide → Bool
same_line_side left left = true
same_line_side right right = true
same_line_side _ _ = false

pub record DraftAnchor : Type 0 where
  pub repository : Text
  pub number : ℕ
  pub captured_revision : Text
  pub path : Text
  pub side : RemoteLineSide
  pub start_line : ℕ
  pub end_line : ℕ
  pub context_before : List Text
  pub selected_text : List Text
  pub context_after : List Text

pub record DraftComment : Type 0 where
  pub id : Text
  pub anchor : DraftAnchor
  pub body : Text

pub record DraftReview : Type 0 where
  pub repository : Text
  pub number : ℕ
  pub captured_revision : Text
  pub body : Text
  pub comments : List DraftComment

pub data DraftError : Type 0 where
  blank_body cross_side cross_hunk invalid_line : DraftError

pub data Created : Type 0 where
  created : DraftComment → Created
  refused : DraftError → Created

-- The lines of a range in order, with the text that was selected.
abbrev pub ordered_anchor : DraftAnchor → DraftAnchor
ordered_anchor anchor =
    if ltb anchor.end_line anchor.start_line
    then record anchor {
      start_line = anchor.end_line;
      end_line = anchor.start_line;
      selected_text = reverse anchor.selected_text;
    }
    else anchor

abbrev pub is_blank_text : Text → Bool
is_blank_text [] = true
is_blank_text (c ∷ s) = false

unfoldable pub create_draft : Text → DraftAnchor → Text → RemoteLineSide → ℕ → ℕ → Created
unfolding trim same_line_side
create_draft id anchor body end_side start_hunk end_hunk =
    if is_blank_text (trim body)
    then refused blank_body
    else if anchor.start_line == 0 || anchor.end_line == 0
    then refused invalid_line
    else if not (same_line_side anchor.side end_side)
    then refused cross_side
    else if not (start_hunk == end_hunk)
    then refused cross_hunk
    else created (record { id = id; anchor = ordered_anchor anchor; body = body })

pub data ReanchorResult : Type 0 where
  exact : DraftComment → ReanchorResult
  -- The draft, its old line and its new line.
  moved : DraftComment → ℕ → ℕ → ReanchorResult
  needs_attention : DraftComment → Text → ReanchorResult

-- `==` of slices of strings.
unfoldable pub same_lines : List Text → List Text → Bool
unfolding text_eq
same_lines [] [] = true
same_lines [] (t ∷ ts) = false
same_lines (s ∷ ss) [] = false
same_lines (s ∷ ss) (t ∷ ts) = text_eq s t && same_lines ss ts

-- `lines.get(from..from + count)`.
abbrev pub get_range : List Text → ℕ → ℕ → Option (List Text)
get_range lines from count =
    if leb (from + count) (length lines) then some (take count (drop from lines)) else none

abbrev pub is_lines : Option (List Text) → List Text → Bool
is_lines none expected = false
is_lines (some found) expected = same_lines found expected

-- The indices, counted from `at`, of the windows that are the needle: `windows(needle.len())`,
-- enumerated and filtered.
unfoldable pub matches_from : ℕ → List Text → List Text → List ℕ
unfolding same_lines
matches_from at needle [] = []
matches_from at needle (line ∷ rest) =
    let later = matches_from (suc at) needle rest in
    if is_lines (get_range (line ∷ rest) 0 (length needle)) needle then at ∷ later else later

abbrev pub needle_of : DraftAnchor → List Text
needle_of anchor = anchor.context_before ++ anchor.selected_text ++ anchor.context_after

-- `u32` subtraction, which wraps.
abbrev pub wrap_sub32 : ℕ → ℕ → ℕ
wrap_sub32 a b = wrap32 ((a + 2 ^ 32) - b)

abbrev pub moved_to : DraftComment → ℕ → DraftComment
moved_to draft new_line = record draft {
  anchor = record (DraftComment.anchor draft) {
    start_line = new_line;
    end_line = wrap32 (new_line + wrap_sub32 draft.anchor.end_line draft.anchor.start_line);
  };
}

-- What the windows that were found say of a draft.
unfoldable pub placed : DraftComment → List ℕ → ReanchorResult
placed draft [] = needs_attention draft (codes "The selected text no longer exists")
placed draft (index ∷ []) =
    let new_line = wrap32 (wrap32 index + wrap32 (length draft.anchor.context_before) + 1) in
    moved (moved_to draft new_line) draft.anchor.start_line new_line
placed draft (index ∷ next ∷ more) =
    needs_attention draft (codes "The selected text appears more than once")

unfoldable pub reanchor : DraftComment → Text → RemoteLineSide → List Text → ReanchorResult
unfolding text_eq same_line_side same_lines matches_from placed
reanchor draft path side lines =
    let anchor = DraftComment.anchor draft in
    let needle = needle_of anchor in
    if not (text_eq anchor.path path) || not (same_line_side anchor.side side)
    then needs_attention draft (codes "The file path or diff side changed")
    else if length anchor.selected_text == 0
    then needs_attention draft (codes "The selected text is unavailable")
    else if is_lines (get_range lines (anchor.start_line - 1) (length anchor.selected_text))
        anchor.selected_text
    then exact draft
    else if length needle == 0 || ltb (length lines) (length needle)
    then needs_attention draft (codes "The selected text no longer exists")
    else placed draft (matches_from 0 needle lines)
