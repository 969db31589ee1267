-- ===== src/Context/Tiling.antt =====
-- No line falls between the gaps and the hunks (src/review/context.rs).
use native.Mathlib.Decide.{dec_lt}
use mathlib.Core.List.{[]}
use ramo.Prelude.Machine.{u32_max, sat_add32}
use ramo.Prelude.Text.{Text}
use ramo.Diff.{Hunk, DiffFile}
use ramo.Prelude.{
  ℕ, List, ◌+◌, ◌∷◌, ◌≤◌, ◌⊎◌, ◌<◌, ◌≡◌, arith, [], min, inl, inr, ◌-◌, max, suc, Bool-cases, ltb,
  ltb→lt, ◌++◌, ltb-false→le, some, le→leb, ◌≢◌, refl,
}
use ramo.Context.{
  SourceSide, gaps_before, old_lines, CollapsedGap, cursor_of, old_side, new_lines, range_of,
  new_side, gap_at, before, trailing_gap, derive_collapsed_gaps,
}

abbrev pub start_of : SourceSide → Hunk → ℕ
start_of old_side h = h.old_start
start_of new_side h = h.new_start

abbrev pub lines_of : SourceSide → Hunk → ℕ
lines_of old_side h = old_lines h
lines_of new_side h = new_lines h

-- A line of a side stands in one of the gaps, or in one of the hunks.
abbrev pub InGap : SourceSide → ℕ → List CollapsedGap → Type 0
InGap side x [] = ⊥
InGap side x (gap ∷ rest) =
    ((range_of side gap).start ≤ x) × (x ≤ (range_of side gap).end) ⊎ InGap side x rest

abbrev pub InHunk : SourceSide → ℕ → List Hunk → Type 0
InHunk side x [] = ⊥
InHunk side x (hunk ∷ rest) =
    (start_of side hunk ≤ x) × (x < start_of side hunk + lines_of side hunk) ⊎ InHunk side x rest

-- The hunks of a sound diff: in order, with as many unchanged lines before each on one side as on
-- the other, and within `u32`.
abbrev pub WellPlaced : ℕ → ℕ → List Hunk → Type 0
WellPlaced old new [] = Unit
WellPlaced old new (h ∷ rest) =
    (old ≤ h.old_start)
    × (new ≤ h.new_start)
    × (h.old_start + new ≡ h.new_start + old)
    × (h.old_start + old_lines h ≤ u32_max)
    × (h.new_start + new_lines h ≤ u32_max)
    × WellPlaced (h.old_start + old_lines h) (h.new_start + new_lines h) rest

-- Where a line stands, by its place next to a hunk.
with_gap :
    (side : SourceSide) (x : ℕ) (gap : CollapsedGap) (later : List CollapsedGap) (hunk : Hunk)
    (rest : List Hunk)
    → (x < start_of side hunk → ((range_of side gap).start ≤ x) × (x ≤ (range_of side gap).end))
    → (start_of side hunk + lines_of side hunk ≤ x → InGap side x later ⊎ InHunk side x rest)
    → InGap side x (gap ∷ later) ⊎ InHunk side x (hunk ∷ rest)
with_gap side x gap later hunk rest near far = elim (dec_lt x (start_of side hunk)) [
  | yes p ↦ inl (inl (near p))
  | no p ↦ elim (dec_lt x (start_of side hunk + lines_of side hunk)) [
    | yes q ↦ inr (inl (omega arith, q))
    | no q ↦ elim (far (omega arith)) [ inl a ↦ inl (inr a) | inr b ↦ inr (inr b) ]
  ]
]

without_gap :
    (side : SourceSide) (x : ℕ) (later : List CollapsedGap) (hunk : Hunk) (rest : List Hunk)
    → start_of side hunk ≤ x
    → (start_of side hunk + lines_of side hunk ≤ x → InGap side x later ⊎ InHunk side x rest)
    → InGap side x later ⊎ InHunk side x (hunk ∷ rest)
without_gap side x later hunk rest near far =
    elim (dec_lt x (start_of side hunk + lines_of side hunk)) [
      | yes q ↦ inr (inl (near, q))
      | no q ↦ elim (far (omega arith)) [ inl a ↦ inl a | inr b ↦ inr (inr b) ]
    ]

-- The cursors behind the hunks from here on.
abbrev pub end_of : SourceSide → Text → ℕ → ℕ → ℕ → List Hunk → ℕ
end_of side id index old new hunks =
    let (gaps, old_end, new_end) = gaps_before id index old new hunks in
    cursor_of side old_end new_end

gaps_before-cover :
    (side : SourceSide) (id : Text) (index old new : ℕ) (hunks : List Hunk) (x : ℕ)
    → WellPlaced old new hunks
    → cursor_of side old new ≤ x
    → x < end_of side id index old new hunks
    → InGap side x (gaps_before id index old new hunks).0 ⊎ InHunk side x hunks
unfolding gaps_before
gaps_before-cover old_side id index old new [] x w p q = absurd (omega arith)
gaps_before-cover new_side id index old new [] x w p q = absurd (omega arith)
gaps_before-cover old_side id index old new (hunk ∷ rest) x w p q =
    let count = min (hunk.old_start - old) (hunk.new_start - new) in
    let old' = max old (sat_add32 hunk.old_start (old_lines hunk)) in
    let new' = max new (sat_add32 hunk.new_start (new_lines hunk)) in
    let e : old' ≡ hunk.old_start + old_lines hunk = omega arith in
    let g : new' ≡ hunk.new_start + new_lines hunk = omega arith in
    let w' : WellPlaced old' new' rest = rw (e, g) w.5 in
    let later = gaps_before id (suc index) old' new' rest in
    let beyond : hunk.old_start + old_lines hunk ≤ x
        → InGap old_side x later.0 ⊎ InHunk old_side x rest =
      λ far.
        gaps_before-cover old_side id (suc index) old' new' rest x w' (omega arith)
          (elim (Bool-cases (ltb 0 count)) [ inl c ↦ rw c at q | inr c ↦ rw c at q ]) in
    elim (Bool-cases (ltb 0 count)) [
      | inl c ↦ rw c (
          with_gap old_side x (gap_at id before index old new count) later.0 hunk rest
            (λ near. (omega arith, omega (arith, ltb→lt 0 count c))) beyond)
      | inr c ↦
          rw c (
            without_gap old_side x later.0 hunk rest (omega (arith, ltb-false→le 0 count c)) beyond)
    ]
gaps_before-cover new_side id index old new (hunk ∷ rest) x w p q =
    let count = min (hunk.old_start - old) (hunk.new_start - new) in
    let old' = max old (sat_add32 hunk.old_start (old_lines hunk)) in
    let new' = max new (sat_add32 hunk.new_start (new_lines hunk)) in
    let e : old' ≡ hunk.old_start + old_lines hunk = omega arith in
    let g : new' ≡ hunk.new_start + new_lines hunk = omega arith in
    let w' : WellPlaced old' new' rest = rw (e, g) w.5 in
    let later = gaps_before id (suc index) old' new' rest in
    let beyond : hunk.new_start + new_lines hunk ≤ x
        → InGap new_side x later.0 ⊎ InHunk new_side x rest =
      λ far.
        gaps_before-cover new_side id (suc index) old' new' rest x w' (omega arith)
          (elim (Bool-cases (ltb 0 count)) [ inl c ↦ rw c at q | inr c ↦ rw c at q ]) in
    elim (Bool-cases (ltb 0 count)) [
      | inl c ↦ rw c (
          with_gap new_side x (gap_at id before index old new count) later.0 hunk rest
            (λ near. (omega arith, omega (arith, ltb→lt 0 count c))) beyond)
      | inr c ↦
          rw c (
            without_gap new_side x later.0 hunk rest (omega (arith, ltb-false→le 0 count c)) beyond)
    ]

InGap-append :
    (side : SourceSide) (x : ℕ) (a b : List CollapsedGap)
    → InGap side x a ⊎ InGap side x b
    → InGap side x (a ++ b)
InGap-append side x [] b (inl h) = elim h [ ]
InGap-append side x [] b (inr h) = h
InGap-append side x (gap ∷ a) b (inl (inl h)) = inl h
InGap-append side x (gap ∷ a) b (inl (inr h)) = inr (InGap-append side x a b (inl h))
InGap-append side x (gap ∷ a) b (inr h) = inr (InGap-append side x a b (inr h))

trailing_holds :
    (side : SourceSide) (id : Text) (hunks : List Hunk) (old new size x : ℕ)
    → hunks ≢ []
    → size ≤ u32_max
    → 1 ≤ cursor_of side old new
    → cursor_of side old new ≤ x
    → x ≤ size
    → InGap side x (trailing_gap id hunks (some (side, size)) old new)
unfolding trailing_gap
trailing_holds side id [] old new size x ne b o p q = absurd (ne refl)
trailing_holds old_side id (hunk ∷ rest) old new size x ne b o p q =
    rw (le→leb old size (omega arith)) (inl (p, omega arith))
trailing_holds new_side id (hunk ∷ rest) old new size x ne b o p q =
    rw (le→leb new size (omega arith)) (inl (p, omega arith))

ends_above :
    (id : Text) (index old new : ℕ) (hunks : List Hunk)
    → (old ≤ (gaps_before id index old new hunks).1)
      × (new ≤ (gaps_before id index old new hunks).2)
unfolding gaps_before
ends_above id index old new [] = omega arith
ends_above id index old new (hunk ∷ rest) = ground (
  arith,
  ends_above id (suc index) (max old (sat_add32 hunk.old_start (old_lines hunk)))
      (max new (sat_add32 hunk.new_start (new_lines hunk))) rest,
)

-- When the length of a file is known on a side, every one of its lines stands in one of the
-- derived gaps or in one of the hunks, if there are hunks, in order, and they leave as many lines
-- between them on one side as on the other.
pub derive_collapsed_gaps-cover :
    (side : SourceSide) (file : DiffFile) (size x : ℕ)
    → file.hunks ≢ []
    → WellPlaced 1 1 file.hunks
    → size ≤ u32_max
    → 1 ≤ x
    → x ≤ size
    → InGap side x (derive_collapsed_gaps file (some (side, size))) ⊎ InHunk side x file.hunks
unfolding derive_collapsed_gaps
derive_collapsed_gaps-cover side file size x ne w b p q =
    let found = (gaps_before file.id 0 1 1 file.hunks).0 in
    let old_end = (gaps_before file.id 0 1 1 file.hunks).1 in
    let new_end = (gaps_before file.id 0 1 1 file.hunks).2 in
    elim (dec_lt x (cursor_of side old_end new_end)) [
      | yes inside ↦
          elim (gaps_before-cover side file.id 0 1 1 file.hunks x w (from_one side) inside) [
            | inl a ↦ inl (InGap-append side x found _ (inl a))
            | inr a ↦ inr a
          ]
      | no beyond ↦ inl (
          InGap-append side x found _ (
            inr (
              trailing_holds side file.id file.hunks old_end new_end size x ne b (to_one side)
                (omega arith) q)))
    ]
  where
    from_one : (s : SourceSide) → cursor_of s 1 1 ≤ x
    from_one old_side = p
    from_one new_side = p

    to_one :
        (s : SourceSide)
        → 1
          ≤ cursor_of s
              (gaps_before file.id 0 1 1 file.hunks).1
              (gaps_before file.id 0 1 1 file.hunks).2
    to_one old_side = (ends_above file.id 0 1 1 file.hunks).0
    to_one new_side = (ends_above file.id 0 1 1 file.hunks).1
