-- ===== src/Progress/Changed.antt =====
-- The changed lines of files, and the order that src/review/progress.rs makes of them.
use ramo.Progress.Sets.{same_key_refl, same_key-eq}
use ramo.Prelude.Text.{Text}
use mathlib.Core.List.{flat_map}
use ramo.Prelude.{
  none, some, true, false, inl, inr, [], ◌∷◌, zero, suc, List, ℕ, Option, ◌≡◌, get_elem?, ◌⊎◌, ◌++◌,
  Option-cases, ◌↔◌, ◌||◌, subst, Bool-cases, ap, ◌>>=◌, Bool, sym, some_inj, arith, ◌∙◌, refl,
}
use ramo.Progress.{
  old_changed, new_changed, line_side, ChangedLineKey, keys_of_lines, order_of, contains_key,
  ChangedSide, same_key,
}
use ramo.Diff.{addition, deletion, context, LineType, DiffLine, DiffFile, Hunk}

-- Being in a list, at some place.
abbrev pub Among {ℓ} : {A : Type ℓ} → List A → A → Type ℓ
Among xs x = (n : ℕ) × (get_elem? xs n ≡ some x)

-- The key of a line of a file: an addition counts by its new number, a deletion by its old one, and
-- a line of context not at all.
abbrev pub IsChange : Text → ChangedLineKey → DiffLine → Type 0
IsChange file_id key line =
    (key.file_id ≡ file_id)
    × (((n : ℕ) × (line.kind ≡ addition)
          × (line.new_lineno ≡ some n)
          × (key.changed ≡ new_changed n))
        ⊎ ((n : ℕ) × (line.kind ≡ deletion)
            × (line.old_lineno ≡ some n)
            × (key.changed ≡ old_changed n)))

-- A key is that of a changed line of the files.
abbrev pub IsChangedLine : List DiffFile → ChangedLineKey → Type 0
IsChangedLine files key =
    (file : DiffFile) × Among files file
    × ((hunk : Hunk) × Among file.hunks hunk
        × ((line : DiffLine) × Among hunk.lines line × IsChange file.id key line))

contains_key-append :
    (xs ys : List ChangedLineKey) (key : ChangedLineKey)
    → contains_key (xs ++ ys) key ≡ (contains_key xs key || contains_key ys key)
contains_key-append [] ys key = refl
contains_key-append (x ∷ xs) ys key =
    rw (contains_key-append xs ys key)
      (assoc (same_key key x) (contains_key xs key) (contains_key ys key))
  where
    assoc : (a b c : Bool) → (a || (b || c)) ≡ ((a || b) || c)
    assoc a b c = ground arith

module _ {A : Type 0} (f : A → List ChangedLineKey) (key : ChangedLineKey) where
  flat_map-found :
      (xs : List A)
      → contains_key (flat_map f xs) key ≡ true
      → (x : A) × Among xs x × (contains_key (f x) key ≡ true)
  unfolding flat_map
  flat_map-found [] e = cc
  flat_map-found (x ∷ xs) e = elim (Bool-cases (contains_key (f x) key)) [
    | inl g ↦ (x, (0, refl), g)
    | inr g ↦
        let later : contains_key (flat_map f xs) key ≡ true =
          rw g at (sym (contains_key-append (f x) (flat_map f xs) key) ∙ e) in
        let (y, (n, p), q) = flat_map-found xs later in (y, (suc n, p), q)
  ]

  found-flat_map :
      (xs : List A) (x : A) (n : ℕ)
      → get_elem? xs n ≡ some x
      → contains_key (f x) key ≡ true
      → contains_key (flat_map f xs) key ≡ true
  unfolding flat_map
  found-flat_map [] x n e g = cc
  found-flat_map (y ∷ xs) x zero e g =
      contains_key-append (f y) (flat_map f xs) key
      ∙ rw (subst (λ z. contains_key (f z) key ≡ true) (sym (some_inj e)) g) refl
  found-flat_map (y ∷ xs) x (suc n) e g =
      contains_key-append (f y) (flat_map f xs) key
      ∙ rw (found-flat_map xs x n e g) (or_true (contains_key (f y) key))
    where
      or_true : (b : Bool) → (b || true) ≡ true
      or_true true = refl
      or_true false = refl

-- The side that a line is changed on.
abbrev IsSide : LineType → Option ℕ → Option ℕ → ChangedSide → Type 0
IsSide kind old_line new_line changed =
    ((n : ℕ) × (kind ≡ addition) × (new_line ≡ some n) × (changed ≡ new_changed n))
    ⊎ ((n : ℕ) × (kind ≡ deletion) × (old_line ≡ some n) × (changed ≡ old_changed n))

line_side-IsSide :
    (line : DiffLine) (changed : ChangedSide)
    → (line_side line ≡ some changed) ↔ IsSide line.kind line.old_lineno line.new_lineno changed
unfolding line_side
line_side-IsSide line changed = (
  λ e. there line.kind line.old_lineno line.new_lineno e,
  λ s. back line.kind line.old_lineno line.new_lineno s,
)
  where
    side_of : LineType → Option ℕ → Option ℕ → Option ChangedSide
    side_of kind old_line new_line = elim kind [
      | addition ↦ (do n ← new_line; some (new_changed n))
      | deletion ↦ (do n ← old_line; some (old_changed n))
      | context ↦ none
    ]

    there :
        (kind : LineType) (old_line new_line : Option ℕ)
        → side_of kind old_line new_line ≡ some changed
        → IsSide kind old_line new_line changed
    there addition old_line none e = cc
    there addition old_line (some n) e = inl (n, refl, refl, sym (some_inj e))
    there deletion none new_line e = cc
    there deletion (some n) new_line e = inr (n, refl, refl, sym (some_inj e))
    there context old_line new_line e = cc

    back :
        (kind : LineType) (old_line new_line : Option ℕ)
        → IsSide kind old_line new_line changed
        → side_of kind old_line new_line ≡ some changed
    back kind old_line new_line (inl (n, p, q, r)) = rw (p, q, r) refl
    back kind old_line new_line (inr (n, p, q, r)) = rw (p, q, r) refl

same_key-parts :
    (a b : ChangedLineKey) → a.file_id ≡ b.file_id → a.changed ≡ b.changed → same_key a b ≡ true
same_key-parts a b p q =
    subst (λ k. same_key a k ≡ true) {x = a} {y = b} (λ i. record { file_id = p i; changed = q i })
      (same_key_refl a)

keys_of_lines-found :
    (file_id : Text) (lines : List DiffLine) (key : ChangedLineKey)
    → contains_key (keys_of_lines file_id lines) key ≡ true
    → (line : DiffLine) × Among lines line × IsChange file_id key line
unfolding keys_of_lines
keys_of_lines-found file_id [] key e = cc
keys_of_lines-found file_id (line ∷ rest) key e = elim (Option-cases (line_side line)) [
  | inl f ↦
      let (found, (n, p), q) = keys_of_lines-found file_id rest key (rw (f, keys_of_lines) at e) in
      (found, (suc n, p), q)
  | inr (changed, f) ↦
      let own : ChangedLineKey = record { file_id = file_id; changed = changed } in
      elim (Bool-cases (same_key key own)) [
        | inl g ↦
            let same = same_key-eq key own g in
            (
              line,
              (0, refl),
              (
                ap ChangedLineKey.file_id same,
                subst (IsSide line.kind line.old_lineno line.new_lineno)
                    (sym (ap ChangedLineKey.changed same)) ((line_side-IsSide line changed).0 f),
              ),
            )
        | inr g ↦
            let (found, (n, p), q) =
              keys_of_lines-found file_id rest key (rw (f, keys_of_lines, g) at e) in
            (found, (suc n, p), q)
      ]
]

found-keys_of_lines :
    (file_id : Text) (lines : List DiffLine) (key : ChangedLineKey) (line : DiffLine) (n : ℕ)
    → get_elem? lines n ≡ some line
    → IsChange file_id key line
    → contains_key (keys_of_lines file_id lines) key ≡ true
unfolding keys_of_lines
found-keys_of_lines file_id [] key line n e h = cc
found-keys_of_lines file_id (first ∷ rest) key line zero e (p, h) =
    let side : line_side first ≡ some key.changed =
      ap line_side (some_inj e) ∙ (line_side-IsSide line key.changed).1 h in
    rw (side, keys_of_lines)
      (rw (same_key-parts key (record { file_id = file_id; changed = key.changed }) p refl) refl)
found-keys_of_lines file_id (first ∷ rest) key line (suc n) e h =
    let ih = found-keys_of_lines file_id rest key line n e h in
    elim (Option-cases (line_side first)) [
      | inl f ↦ rw (f, keys_of_lines) ih
      | inr (changed, f) ↦
          rw (f, keys_of_lines)
            (rw ih (or_true (same_key key (record { file_id = file_id; changed = changed }))))
    ]
  where
    or_true : (b : Bool) → (b || true) ≡ true
    or_true true = refl
    or_true false = refl

-- The order holds the changed lines of the files, and no other key.
pub order_of-IsChangedLine :
    (files : List DiffFile) (key : ChangedLineKey)
    → (contains_key (order_of files) key ≡ true) ↔ IsChangedLine files key
unfolding order_of
order_of-IsChangedLine files key = (
  λ e.
      let (file, among, f) = flat_map-found keys_of_file key files e in
      let (hunk, inside, g) =
        flat_map-found (λ (hunk : Hunk). keys_of_lines file.id hunk.lines) key file.hunks f in
      (file, among, (hunk, inside, keys_of_lines-found file.id hunk.lines key g)),
  λ (file, (n, p), (hunk, (m, q), (line, (k, r), change))).
      found-flat_map keys_of_file key files file n p (
        found-flat_map (λ (hunk : Hunk). keys_of_lines file.id hunk.lines) key file.hunks hunk m q
          (found-keys_of_lines file.id hunk.lines key line k r change)),
)
  where
    keys_of_file : DiffFile → List ChangedLineKey
    keys_of_file file = flat_map (λ (hunk : Hunk). keys_of_lines file.id hunk.lines) file.hunks
