-- ===== src/Rows/Emphasis.antt =====
-- src/review/emphasis.rs: the words of two lines that differ, emphasised. The word diff,
-- `TextDiff::from_unicode_words(old, new).iter_all_changes()` of the crate `similar`, is the
-- parameter `diff`.
pub mod Kept
use ramo.Prelude.{
  false, true, Bool, List, ℕ, ◌∷◌, if◌then◌else◌, not, length, ltb, [], ◌++◌, keep, ◌+◌, ◌*◌, max,
  ◌&&◌, ◌||◌,
}
use ramo.Prelude.Str.{trim}
use ramo.Prelude.Text.{Text, is_whitespace}
use ramo.Rows.{ChangedSpan}

pub data ChangeTag : Type 0 where
  equal delete insert : ChangeTag

abbrev pub Change : Type 0
Change = ChangeTag × Text

abbrev pub plain_span : Text → ChangedSpan
plain_span text = record { text = text; emphasized = false }

abbrev pub emphasized_span : Text → ChangedSpan
emphasized_span text = record { text = text; emphasized = true }

abbrev pub is_empty : Text → Bool
is_empty [] = true
is_empty (c ∷ s) = false

abbrev pub same_flag : Bool → Bool → Bool
same_flag true true = true
same_flag false false = true
same_flag _ _ = false

-- A text behind the spans: it is written to the last span, if that has the same emphasis.
abbrev pub behind_last : List ChangedSpan → Text → Bool → List ChangedSpan
behind_last [] text emphasized = record { text = text; emphasized = emphasized } ∷ []
behind_last (span ∷ []) text emphasized =
    if same_flag span.emphasized emphasized
    then record span { text = span.text ++ text } ∷ []
    else span ∷ record { text = text; emphasized = emphasized } ∷ []
behind_last (span ∷ next ∷ rest) text emphasized = span ∷ behind_last (next ∷ rest) text emphasized

abbrev pub push_span : List ChangedSpan → Text → Bool → List ChangedSpan
push_span spans text emphasized = if is_empty text then spans else behind_last spans text emphasized

-- The body of the loop over the changes, for the spans of the two lines.
abbrev pub push_change :
    List ChangedSpan × List ChangedSpan → Change → List ChangedSpan × List ChangedSpan
push_change (old, new) (equal, value) = (push_span old value false, push_span new value false)
push_change (old, new) (delete, value) = (push_span old value (not (is_empty (trim value))), new)
push_change (old, new) (insert, value) = (old, push_span new value (not (is_empty (trim value))))

unfoldable pub push_changes :
    List ChangedSpan × List ChangedSpan → List Change → List ChangedSpan × List ChangedSpan
unfolding trim
push_changes spans [] = spans
push_changes spans (change ∷ rest) = push_changes (push_change spans change) rest

unfoldable pub changed_runs : List ChangedSpan → ℕ
changed_runs spans = length (keep (λ span. span.emphasized) spans)

abbrev pub visible_width : Text → ℕ
visible_width text = length (keep (λ c. not (is_whitespace c)) text)

unfoldable pub total_width : List ChangedSpan → ℕ
total_width [] = 0
total_width (span ∷ rest) = visible_width span.text + total_width rest

-- `changed_ratio(spans) > MAX_CHANGED_RATIO`: the ratio is that of the emphasised characters to all
-- of them, and the bound 0.6. The two `f64` compare as the fractions do for fewer than 2 ^ 50
-- characters: an exact 3/5 rounds to the constant, and any other is further from it than a rounding.
unfoldable pub is_changed_more : List ChangedSpan → Bool
unfolding total_width
is_changed_more spans =
    ltb (3 * total_width spans) (5 * total_width (keep (λ span. span.emphasized) spans))

unfoldable pub flatten_onto : List ChangedSpan → List ChangedSpan → List ChangedSpan
flatten_onto flattened [] = flattened
flatten_onto flattened (span ∷ rest) = flatten_onto (push_span flattened span.text false) rest

unfoldable pub flatten : List ChangedSpan → List ChangedSpan
unfolding flatten_onto
flatten spans = flatten_onto [] spans

unfoldable pub is_rewritten : Text → Text → List ChangedSpan → List ChangedSpan → Bool
unfolding trim changed_runs is_changed_more
is_rewritten old new old_spans new_spans =
    ltb 1 (max (changed_runs old_spans) (changed_runs new_spans))
    && not (is_empty (trim old))
    && not (is_empty (trim new))
    && (is_changed_more old_spans || is_changed_more new_spans)

unfoldable pub emphasize_pair :
    (Text → Text → List Change) → Text → Text → List ChangedSpan × List ChangedSpan
unfolding push_changes is_rewritten flatten
emphasize_pair diff old new =
    let (old_spans, new_spans) = push_changes ([], []) (diff old new) in
    if is_rewritten old new old_spans new_spans
    then (flatten old_spans, flatten new_spans)
    else (old_spans, new_spans)

-- The text that spans show.
abbrev pub spans_text : List ChangedSpan → Text
spans_text [] = []
spans_text (span ∷ rest) = span.text ++ spans_text rest
