-- ===== src/Rows/Emphasis/Kept.antt =====
-- The spans of src/review/emphasis.rs hold the text of the lines.
use ramo.Prelude.{
  List, ◌≡◌, Bool, ◌++◌, [], ◌∷◌, false, append-nil, Bool-cases, true, append_assoc, refl, inl, ◌∙◌,
  inr, ap, sym,
}
use ramo.Prelude.Text.{Text}
use ramo.Rows.{ChangedSpan}
use ramo.Rows.Emphasis.{
  Change, equal, delete, insert, is_empty, push_changes, flatten_onto, flatten, emphasize_pair,
  behind_last, push_span, same_flag, push_change, is_rewritten, spans_text,
}

abbrev pub old_text : List Change → Text
old_text [] = []
old_text ((equal, value) ∷ rest) = value ++ old_text rest
old_text ((delete, value) ∷ rest) = value ++ old_text rest
old_text ((insert, value) ∷ rest) = old_text rest

abbrev pub new_text : List Change → Text
new_text [] = []
new_text ((equal, value) ∷ rest) = value ++ new_text rest
new_text ((delete, value) ∷ rest) = new_text rest
new_text ((insert, value) ∷ rest) = value ++ new_text rest

-- What a word diff promises: the changes of a side are the text of that side.
abbrev pub IsDiff : (Text → Text → List Change) → Type 0
IsDiff diff = (old new : Text) → (old_text (diff old new) ≡ old) × (new_text (diff old new) ≡ new)

-- No span is empty, and neighbours differ in their emphasis.
abbrev pub Separate : List ChangedSpan → Type 0
Separate [] = Unit
Separate (span ∷ []) = is_empty span.text ≡ false
Separate (span ∷ next ∷ rest) =
    (is_empty span.text ≡ false)
    × (same_flag span.emphasized next.emphasized ≡ false)
    × Separate (next ∷ rest)

-- The spans hold a text.
abbrev pub Holds : List ChangedSpan → Text → Type 0
Holds spans text = (spans_text spans ≡ text) × Separate spans

behind_last-text :
    (spans : List ChangedSpan) (text : Text) (e : Bool)
    → spans_text (behind_last spans text e) ≡ spans_text spans ++ text
behind_last-text [] text e = append-nil text
behind_last-text (span ∷ []) text e = elim (Bool-cases (same_flag span.emphasized e)) [
  | inl f ↦ rw f (append-nil (span.text ++ text) ∙ ap (◌++ text) (sym (append-nil span.text)))
  | inr f ↦ rw f (ap (span.text ++◌) (append-nil text) ∙ ap (◌++ text) (sym (append-nil span.text)))
]
behind_last-text (span ∷ next ∷ rest) text e =
    ap (span.text ++◌) (behind_last-text (next ∷ rest) text e)
    ∙ sym (append_assoc span.text (spans_text (next ∷ rest)) text)

is_empty-append : (s t : Text) → is_empty s ≡ false → is_empty (s ++ t) ≡ false
is_empty-append [] t h = cc
is_empty-append (c ∷ s) t h = refl

behind_last-Separate :
    (spans : List ChangedSpan) (text : Text) (e : Bool)
    → is_empty text ≡ false
    → Separate spans
    → Separate (behind_last spans text e)
behind_last-Separate [] text e l h = l
behind_last-Separate (span ∷ []) text e l h = elim (Bool-cases (same_flag span.emphasized e)) [
  | inl f ↦ rw f (is_empty-append span.text text h)
  | inr f ↦ rw f (h, f, l)
]
behind_last-Separate (span ∷ next ∷ []) text e l h =
    let ih = behind_last-Separate (next ∷ []) text e l h.2 in
    elim (Bool-cases (same_flag next.emphasized e)) [
      | inl f ↦ rw f (h.0, h.1, rw f at ih)
      | inr f ↦ rw f (h.0, h.1, rw f at ih)
    ]
behind_last-Separate (span ∷ next ∷ more ∷ rest) text e l h =
    (h.0, h.1, behind_last-Separate (next ∷ more ∷ rest) text e l h.2)

push_span-Holds :
    (spans : List ChangedSpan) (before text : Text) (e : Bool)
    → Holds spans before
    → Holds (push_span spans text e) (before ++ text)
push_span-Holds spans before text e (p, s) = elim (Bool-cases (is_empty text)) [
  | inl f ↦ rw f (p ∙ sym (append-nil before) ∙ ap (before ++◌) (sym (nothing text f)), s)
  | inr f ↦
      rw f (behind_last-text spans text e ∙ ap (◌++ text) p, behind_last-Separate spans text e f s)
]
  where
    nothing : (t : Text) → is_empty t ≡ true → t ≡ []
    nothing [] h = refl
    nothing (c ∷ t) h = cc

abbrev HoldBoth : List ChangedSpan × List ChangedSpan → Text → Text → Type 0
HoldBoth spans old new = Holds spans.0 old × Holds spans.1 new

push_changes-HoldBoth :
    (changes : List Change) (spans : List ChangedSpan × List ChangedSpan) (old new : Text)
    → HoldBoth spans old new
    → HoldBoth (push_changes spans changes) (old ++ old_text changes) (new ++ new_text changes)
unfolding push_changes
push_changes-HoldBoth [] spans old new h = rw (append-nil old, append-nil new) h
push_changes-HoldBoth ((equal, value) ∷ rest) spans old new (h, k) =
    let ih =
      push_changes-HoldBoth rest (push_change spans (equal, value)) (old ++ value) (new ++ value)
        (push_span-Holds spans.0 old value false h, push_span-Holds spans.1 new value false k) in
    rw (append_assoc old value (old_text rest), append_assoc new value (new_text rest)) at ih
push_changes-HoldBoth ((delete, value) ∷ rest) spans old new (h, k) =
    let ih =
      push_changes-HoldBoth rest (push_change spans (delete, value)) (old ++ value) new
        (push_span-Holds spans.0 old value _ h, k) in
    rw (append_assoc old value (old_text rest)) at ih
push_changes-HoldBoth ((insert, value) ∷ rest) spans old new (h, k) =
    let ih =
      push_changes-HoldBoth rest (push_change spans (insert, value)) old (new ++ value)
        (h, push_span-Holds spans.1 new value _ k) in
    rw (append_assoc new value (new_text rest)) at ih

flatten_onto-Holds :
    (spans flattened : List ChangedSpan) (before : Text)
    → Holds flattened before
    → Holds (flatten_onto flattened spans) (before ++ spans_text spans)
unfolding flatten_onto
flatten_onto-Holds [] flattened before h = rw (append-nil before) h
flatten_onto-Holds (span ∷ rest) flattened before h =
    let ih =
      flatten_onto-Holds rest (push_span flattened span.text false) (before ++ span.text)
        (push_span-Holds flattened before span.text false h) in
    rw (append_assoc before span.text (spans_text rest)) at ih

flatten-Holds :
    (spans : List ChangedSpan) (text : Text) → Holds spans text → Holds (flatten spans) text
unfolding flatten
flatten-Holds spans text (p, s) = rw p at (flatten_onto-Holds spans [] [] (refl, tt))

-- Emphasis changes nothing of the text: with a word diff that keeps the words, the spans of the old
-- line hold the old line and the spans of the new line the new one, no span is empty, and two
-- neighbours differ in their emphasis.
pub emphasize_pair-Holds :
    (diff : Text → Text → List Change) (old new : Text)
    → IsDiff diff
    → Holds (emphasize_pair diff old new).0 old × Holds (emphasize_pair diff old new).1 new
unfolding emphasize_pair
emphasize_pair-Holds diff old new h =
    let (p, q) = h old new in
    let spans = push_changes ([], []) (diff old new) in
    let both = push_changes-HoldBoth (diff old new) ([], []) [] [] ((refl, tt), (refl, tt)) in
    let both' : HoldBoth spans old new = rw (p, q) at both in
    elim (Bool-cases (is_rewritten old new spans.0 spans.1)) [
      | inl f ↦ rw f (flatten-Holds spans.0 old both'.0, flatten-Holds spans.1 new both'.1)
      | inr f ↦ rw f both'
    ]
