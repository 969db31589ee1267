-- ===== src/Diff/Hunks/Numbering.antt =====
-- The line numbers and the extent of a parsed hunk (crates/ramo-core/src/diff/parser.rs).
use ramo.Prelude.Str.{trim_start_matches}
use ramo.Diff.Header.{parse_hunk_header, parse_hunk_header-le, parse_hunk_header-eq-none}
use ramo.Prelude.Machine.{u32_max, wrap32}
use ramo.Prelude.Text.{Text, codes}
use ramo.Diff.{LineType, DiffLine, context, addition, deletion, Hunk}
use ramo.Diff.Hunks.{
  diff_line, body_from, old_after, Reading, new_after, stop, read_line, skip, push, parse_hunk,
}
use ramo.Prelude.{
  ℕ, List, ◌≡◌, ◌≤◌, ◌∷◌, length, arith, [], refl, ◌⊎◌, inl, inr, ◌+◌, Option, none, ap, ◌++◌, some,
  ◌∙◌, Option-cases, subst, some_inj, ◌↔◌, any, ◌==◌, false,
}

-- The lines carry the numbers of their sides, counted up one by one from `old` and `new`, and no
-- other: a context line has both, a deletion the old one, an addition the new one.
abbrev pub Numbered : ℕ → ℕ → List DiffLine → Type 0
Numbered old new [] = Unit
Numbered old new (line ∷ rest) =
    (line ≡ diff_line line.kind line.content old new)
    × Numbered (old_after line.kind old) (new_after line.kind new) rest

diff_line_self :
    (k : LineType) (c : Text) (old new : ℕ)
    → diff_line k c old new
      ≡ diff_line (diff_line k c old new).kind (diff_line k c old new).content old new
unfolding diff_line
diff_line_self context c old new = refl
diff_line_self addition c old new = refl
diff_line_self deletion c old new = refl

pub kind-diff_line : (k : LineType) (c : Text) (old new : ℕ) → (diff_line k c old new).kind ≡ k
unfolding diff_line
kind-diff_line context c old new = refl
kind-diff_line addition c old new = refl
kind-diff_line deletion c old new = refl

pub content-diff_line :
    (k : LineType) (c : Text) (old new : ℕ) → (diff_line k c old new).content ≡ c
unfolding diff_line
content-diff_line context c old new = refl
content-diff_line addition c old new = refl
content-diff_line deletion c old new = refl

Reading-cases :
    (r : Reading) → (r ≡ stop) ⊎ (r ≡ skip) ⊎ ((k : LineType) × (c : Text) × (r ≡ push k c))
Reading-cases stop = inl refl
Reading-cases skip = inr (inl refl)
Reading-cases (push k c) = inr (inr (k, c, refl))

pub body_from-Numbered : (old new : ℕ) (s : List Text) → Numbered old new (body_from old new s).0
unfolding body_from
body_from-Numbered old new [] = tt
body_from-Numbered old new (line ∷ rest) = elim (Reading-cases (read_line line)) [
  | inl e ↦ rw (e, body_from) tt
  | inr (inl e) ↦ rw (e, body_from) (body_from-Numbered old new rest)
  | inr (inr (k, c, e)) ↦
      rw (e, body_from)
        (
          diff_line_self k c old new,
          rw (kind-diff_line k c old new)
              (body_from-Numbered (old_after k old) (new_after k new) rest),
        )
]

pub body_from_extent : (old new : ℕ) (s : List Text) → (body_from old new s).1 ≤ length s
unfolding body_from
body_from_extent old new [] = omega arith
body_from_extent old new (line ∷ rest) = elim (Reading-cases (read_line line)) [
  | inl e ↦ rw (e, body_from) (omega arith)
  | inr (inl e) ↦ rw (e, body_from) (omega (arith, body_from_extent old new rest))
  | inr (inr (k, c, e)) ↦
      rw (e, body_from) (omega (arith, body_from_extent (old_after k old) (new_after k new) rest))
]

-- The lines that stand on a side.
abbrev pub old_count : List DiffLine → ℕ
old_count [] = 0
old_count (line ∷ rest) = elim line.kind [ addition ↦ old_count rest | _ ↦ old_count rest + 1 ]

abbrev pub new_count : List DiffLine → ℕ
new_count [] = 0
new_count (line ∷ rest) = elim line.kind [ deletion ↦ new_count rest | _ ↦ new_count rest + 1 ]

-- The number of a line on a side, given where the side stands.
abbrev pub old_number : LineType → ℕ → Option ℕ
old_number addition n = none
old_number _ n = some (wrap32 n)

abbrev pub new_number : LineType → ℕ → Option ℕ
new_number deletion n = none
new_number _ n = some (wrap32 n)

diff_line_numbers :
    (k : LineType) (c : Text) (old new : ℕ)
    → old ≤ u32_max
    → new ≤ u32_max
    → ((diff_line k c old new).old_lineno ≡ old_number k (old + 0))
      × ((diff_line k c old new).new_lineno ≡ new_number k (new + 0))
unfolding diff_line
diff_line_numbers context c old new h g = (ap some (omega arith), ap some (omega arith))
diff_line_numbers addition c old new h g = (refl, ap some (omega arith))
diff_line_numbers deletion c old new h g = (ap some (omega arith), refl)

after_bounds :
    (k : LineType) (old new : ℕ)
    → old ≤ u32_max
    → new ≤ u32_max
    → (old_after k old ≤ u32_max) × (new_after k new ≤ u32_max)
unfolding old_after new_after
after_bounds context old new h g = omega arith
after_bounds addition old new h g = omega arith
after_bounds deletion old new h g = omega arith

shift_old :
    (k j : LineType) (old : ℕ) (line : DiffLine) (pre : List DiffLine)
    → line.kind ≡ k
    → old_number j (old_after k old + old_count pre) ≡ old_number j (old + old_count (line ∷ pre))
unfolding old_after
shift_old k j old line pre e = ground arith

shift_new :
    (k j : LineType) (new : ℕ) (line : DiffLine) (pre : List DiffLine)
    → line.kind ≡ k
    → new_number j (new_after k new + new_count pre) ≡ new_number j (new + new_count (line ∷ pre))
unfolding new_after
shift_new k j new line pre e = ground arith

-- The number of any line of a numbered list, by the lines of its side above it.
pub Numbered-lineno :
    (pre post : List DiffLine) (line : DiffLine) (old new : ℕ)
    → old ≤ u32_max
    → new ≤ u32_max
    → Numbered old new (pre ++ line ∷ post)
    → (line.old_lineno ≡ old_number line.kind (old + old_count pre))
      × (line.new_lineno ≡ new_number line.kind (new + new_count pre))
Numbered-lineno [] post line old new h g n =
    let (p, q) = diff_line_numbers line.kind line.content old new h g in
    (ap (λ (l : DiffLine). l.old_lineno) n.0 ∙ p, ap (λ (l : DiffLine). l.new_lineno) n.0 ∙ q)
Numbered-lineno (first ∷ pre) post line old new h g n =
    let (h', g') = after_bounds first.kind old new h g in
    let (p, q) =
      Numbered-lineno pre post line (old_after first.kind old) (new_after first.kind new) h' g'
        n.1 in
    (
      p ∙ shift_old first.kind line.kind old first pre refl,
      q ∙ shift_new first.kind line.kind new first pre refl,
    )

abbrev Placed : List Text → Hunk × ℕ → Type 0
Placed rest (hunk, consumed) =
    (1 ≤ consumed)
    × (consumed ≤ length rest + 1)
    × ((pre post : List DiffLine) (line : DiffLine)
        → hunk.lines ≡ pre ++ line ∷ post
        → (line.old_lineno ≡ old_number line.kind (hunk.old_start + old_count pre))
          × (line.new_lineno ≡ new_number line.kind (hunk.new_start + new_count pre)))

-- A parsed hunk consumes its header and at most what follows it, and each of its lines has on
-- either side the number that the start and the lines of that side above it give, modulo 2^32;
-- an addition has no old number and a deletion no new one.
pub parse_hunk-lineno :
    (header : Text) (rest : List Text) (hunk : Hunk) (consumed : ℕ)
    → parse_hunk header rest ≡ some (hunk, consumed)
    → (1 ≤ consumed)
      × (consumed ≤ length rest + 1)
      × ((pre post : List DiffLine) (line : DiffLine)
          → hunk.lines ≡ pre ++ line ∷ post
          → (line.old_lineno ≡ old_number line.kind (hunk.old_start + old_count pre))
            × (line.new_lineno ≡ new_number line.kind (hunk.new_start + new_count pre)))
unfolding parse_hunk
parse_hunk-lineno header rest hunk consumed e = elim (Option-cases (parse_hunk_header header)) [
  | inl f ↦ absurd (cc (rw f at e))
  | inr ((o, oc, n, nc), f) ↦
      let (h, g) = parse_hunk_header-le header o oc n nc f in
      let extent = body_from_extent o n rest in
      let all_numbered = body_from-Numbered o n rest in
      let e' = rw f at e in
      subst (Placed rest) (some_inj e') (
        omega arith,
        omega arith,
        λ pre post line p.
            Numbered-lineno pre post line o n h g (subst (Numbered o n) p all_numbered),
      )
]

-- `parse_hunk` panics exactly on a header in which no space stands behind the marks `@@ `, whatever
-- lines follow.
pub parse_hunk-eq-none :
    (header : Text) (rest : List Text)
    → (parse_hunk header rest ≡ none)
      ↔ (any (λ c. c == 32) (trim_start_matches (codes "@@ ") header) ≡ false)
unfolding parse_hunk
parse_hunk-eq-none header rest =
    let (to, from) = parse_hunk_header-eq-none header in (λ h. to (ground arith), λ h. rw (from h))
