-- ===== src/Context/Lines.antt =====
-- The text of an unfolded gap (`expand_gap_lines` of src/review/context.rs).
use Prim.Native.Nat.{zero}
use ramo.Prelude.Machine.{sat_add32, u32_max, wrap32, sat_add}
use mathlib.Core.List.{reverse, reverse-cons, []}
use ramo.Sanitize.Safe.{is_shown, sanitize_plain}
use ramo.Context.{
  expand_tabs, shown_line, CollapsedGap, context_lines, expand_gap_lines, ContextLine, line_count,
  normalized_source_lines, SourceSide, range_of, err, short_source, ok,
}
use ramo.Sanitize.{step, scan_from, sanitize_terminal_text, is_control, at_state, State, Scan}
use ramo.Prelude.Str.{lines_from, normalize_newlines, without_cr, last_line, lines}
use ramo.Prelude.{
  ℕ, Bool, ◌≡◌, all, true, not, false, ◌∷◌, ◌==◌, arith, Bool-cases, all-cons, all-append, inl, [],
  inr, refl, List, drop, ◌+◌, ◌≤◌, suc, zero, length, ap, ◌<◌, ◌-◌, ◌⊎◌, ltb, ltb→lt, ltb-false→le,
  length-drop,
}
use ramo.Prelude.Text.{Text}

-- A text of one line: it has no newline.
abbrev pub one_line : Text → Bool
one_line s = all (λ c. not (c == 10)) s

-- A text without control characters.
abbrev pub uncontrolled : Text → Bool
uncontrolled s = all (λ c. not (is_control c)) s

reverse-all : (f : ℕ → Bool) (s : Text) → all f s ≡ true → all f (reverse s) ≡ true
reverse-all f [] h = refl
reverse-all f (c ∷ s) h = rw (reverse-cons c s) (
    all-append f (reverse s) (c ∷ []) (reverse-all f s (all-cons f c s h).1)
      (ground (arith, (all-cons f c s h).0)))

without_cr-all : (f : ℕ → Bool) (s : Text) → all f s ≡ true → all f (without_cr s) ≡ true
without_cr-all f [] h = refl
without_cr-all f (c ∷ s) h = ground (arith, all-cons f c s h)

last_line-one : (line : Text) → one_line line ≡ true → all one_line (last_line line) ≡ true
last_line-one [] h = refl
last_line-one (c ∷ s) h = rw (reverse-all (λ d. not (d == 10)) (c ∷ s) h) refl

lines_from-one : (line s : Text) → one_line line ≡ true → all one_line (lines_from line s) ≡ true
unfolding lines_from
lines_from-one line [] h = last_line-one line h
lines_from-one line (c ∷ s) h = elim (Bool-cases (c == 10)) [
  | inl e ↦
      rw (e, lines_from)
        (rw
          (reverse-all (λ d. not (d == 10)) (without_cr line)
            (without_cr-all (λ d. not (d == 10)) line h))
          (lines_from-one [] s refl))
  | inr e ↦ rw (e, lines_from) (lines_from-one (c ∷ line) s (rw (e, h) refl))
]

step_one :
    (st : State) (p : Text) (c : ℕ) → (c == 10) ≡ false → one_line (step false st p c).1 ≡ true
unfolding step
step_one State.ground p c h = ground arith
step_one st p c h = ground arith

scan_from-one :
    (scan : Scan) (s : Text) → one_line s ≡ true → one_line (scan_from false scan s) ≡ true
unfolding scan_from
scan_from-one scan [] h = refl
scan_from-one scan (c ∷ s) h =
    all-append (λ d. not (d == 10)) (step false scan.state scan.params c).1 _
      (step_one scan.state scan.params c (ground (arith, all-cons (λ d. not (d == 10)) c s h)))
      (scan_from-one (step false scan.state scan.params c).0 s
        (all-cons (λ d. not (d == 10)) c s h).1)

normalize-one : (s : Text) → one_line s ≡ true → one_line (normalize_newlines s) ≡ true
unfolding normalize_newlines
normalize-one [] h = refl
normalize-one (c ∷ []) h = h
normalize-one (c ∷ d ∷ s) h = ground (
  arith,
  normalize-one (d ∷ s) (all-cons (λ x. not (x == 10)) c (d ∷ s) h).1,
  all-cons (λ x. not (x == 10)) c (d ∷ s) h,
)

expand_tabs-uncontrolled :
    (s : Text) → one_line s ≡ true → all is_shown s ≡ true → uncontrolled (expand_tabs s) ≡ true
unfolding expand_tabs is_shown is_control
expand_tabs-uncontrolled [] h k = refl
expand_tabs-uncontrolled (c ∷ s) h k =
    let ih =
      expand_tabs-uncontrolled s (all-cons (λ x. not (x == 10)) c s h).1
        (all-cons is_shown c s k).1 in
    ground (arith, ih, all-cons (λ x. not (x == 10)) c s h, all-cons is_shown c s k)

pub shown_line-uncontrolled :
    (line : Text) → one_line line ≡ true → uncontrolled (shown_line line) ≡ true
unfolding shown_line sanitize_terminal_text
shown_line-uncontrolled line h =
    expand_tabs-uncontrolled (sanitize_terminal_text line false)
      (scan_from-one (at_state State.ground []) (normalize_newlines line) (normalize-one line h))
      (sanitize_plain line).0

drop-one : (n : ℕ) (ls : List Text) → all one_line ls ≡ true → all one_line (drop n ls) ≡ true
drop-one zero ls h = h
drop-one (suc n) [] h = refl
drop-one (suc n) (l ∷ ls) h = drop-one n ls (all-cons one_line l ls h).1

-- The lines of an unfolded gap: the line at each place has the numbers that the place gives on
-- both sides, and shows, without control characters, the line of the source at that place.
abbrev pub Shows : CollapsedGap → ℕ → List Text → List ContextLine → Type 0
Shows gap offset source [] = Unit
Shows gap offset [] (line ∷ rest) = ⊥
Shows gap offset (text ∷ source) (line ∷ rest) =
    (line.old_line ≡ sat_add32 gap.old_range.start offset)
    × (line.new_line ≡ sat_add32 gap.new_range.start offset)
    × (line.text ≡ shown_line text)
    × (uncontrolled line.text ≡ true)
    × Shows gap (offset + 1) source rest

context_lines-Shows :
    (gap : CollapsedGap) (offset count : ℕ) (source : List Text)
    → offset + count ≤ u32_max
    → count ≤ length source
    → all one_line source ≡ true
    → (length (context_lines gap offset count source) ≡ count)
      × Shows gap offset source (context_lines gap offset count source)
unfolding context_lines
context_lines-Shows gap offset zero source b l h = (refl, tt)
context_lines-Shows gap offset (suc count) [] b l h = absurd (omega arith)
context_lines-Shows gap offset (suc count) (text ∷ source) b l h =
    let (p, q) = all-cons one_line text source h in
    let (n, later) =
      context_lines-Shows gap (offset + 1) count source (omega arith) (omega arith) q in
    let e : wrap32 offset ≡ offset = omega arith in
    (
      omega (arith, n),
      (
        ap (sat_add32 gap.old_range.start) e,
        ap (sat_add32 gap.new_range.start) e,
        refl,
        shown_line-uncontrolled text p,
        later,
      ),
    )

-- The source is too short for a gap when the gap, on the side of the source, ends beyond it;
-- then unfolding fails. Otherwise it gives as many lines as the gap has, and they show the
-- source from the start of the gap on. The range of the gap is of `u32`.
pub expand_gap_lines-Shows :
    (gap : CollapsedGap) (source : Text) (side : SourceSide)
    → (range_of side gap).start ≤ u32_max
    → (range_of side gap).end ≤ u32_max
    → ((length (normalized_source_lines source)
          < (range_of side gap).start - 1 + line_count gap side)
        × (expand_gap_lines gap source side ≡ err short_source))
      ⊎ ((shown : List ContextLine) × (expand_gap_lines gap source side ≡ ok shown)
          × (length shown ≡ line_count gap side)
          × Shows gap 0
              (drop ((range_of side gap).start - 1) (normalized_source_lines source))
              shown)
unfolding expand_gap_lines line_count normalized_source_lines lines
expand_gap_lines-Shows gap source side p q =
    let range = range_of side gap in
    let all_lines = lines (normalize_newlines source) in
    let start = range.start - 1 in
    let count = sat_add32 (range.end - range.start) 1 in
    elim (Bool-cases (ltb (length all_lines) (sat_add start count))) [
      | inl e ↦ inl (omega (arith, ltb→lt (length all_lines) (sat_add start count) e), rw e refl)
      | inr e ↦
          let fits = ltb-false→le (length all_lines) (sat_add start count) e in
          let one = drop-one start all_lines (lines_from-one [] (normalize_newlines source) refl) in
          let (n, s) =
            context_lines-Shows gap 0 count (drop start all_lines) (omega arith)
              (omega (arith, fits, length-drop start all_lines)) one in
          inr (context_lines gap 0 count (drop start all_lines), rw e refl, n, s)
    ]
