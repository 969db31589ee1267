-- ===== src/TextInput/Loops.antt =====
-- What the pieces of src/ui/text_input.rs do at a caret that stands between two texts.
use mathlib.Core.List.{reverse, reverse-cons}
use ramo.Prelude.{
  ℕ, ◌+◌, ◌≤◌, ◌≡◌, refl, ap, ◌∙◌, Bool, some, [], ◌∷◌, ◌++◌, append_assoc, arith, le→leb,
  if◌then◌else◌, length, get_elem?, drop-append_left, Bool-cases, inl, inr, length-reverse,
  get_elem?-append_middle,
}
use ramo.Prelude.Text.{Text, utf8_len, byte_len, split_at-append, char_indices, byte_len-append}
use ramo.TextInput.{
  TextInput, offset_or, byte_index, insert_at, remove_range, truncate, scan_left, scan_right_from,
  scan_right,
}

offset_or-char_indices :
    (at : ℕ) (l r : Text)
    → offset_or (get_elem? (char_indices at (l ++ r)) (length l)) (at + byte_len (l ++ r))
      ≡ at + byte_len l
unfolding offset_or char_indices byte_len
offset_or-char_indices at [] [] = refl
offset_or-char_indices at [] (c ∷ r) = omega arith
offset_or-char_indices at (c ∷ l) r =
    let e : at + (utf8_len c + byte_len (l ++ r)) ≡ (at + utf8_len c) + byte_len (l ++ r) =
      omega arith in
    rw e (offset_or-char_indices (at + utf8_len c) l r ∙ omega arith)

-- The byte index of the caret behind `l` is the byte length of `l`.
pub byte_index-append :
    (t : TextInput) (l r : Text) → t.value ≡ l ++ r → byte_index t (length l) ≡ byte_len l
unfolding byte_index
byte_index-append t l r e =
    let shift : 0 + byte_len (l ++ r) ≡ byte_len (l ++ r) = omega arith in
    let found = offset_or-char_indices 0 l r in rw (e, ← shift) (found ∙ omega arith)

pub insert_at-append : (l r : Text) (c : ℕ) → insert_at (l ++ r) (byte_len l) c ≡ some (l ++ c ∷ r)
unfolding insert_at
insert_at-append l r c = rw split_at-append

pub truncate-append : (l r : Text) → truncate (l ++ r) (byte_len l) ≡ some l
unfolding truncate
truncate-append l r =
    rw (le→leb (byte_len l) (byte_len (l ++ r)) (omega (arith, byte_len-append l r)))
      (rw split_at-append)

pub remove_range-append :
    (l m r : Text) → remove_range (l ++ m ++ r) (byte_len l) (byte_len (l ++ m)) ≡ some (l ++ r)
unfolding remove_range
remove_range-append l m r =
    rw (le→leb (byte_len l) (byte_len (l ++ m)) (omega (arith, byte_len-append l m)))
      (rw (split_at-append (l ++ m) r) (rw (append_assoc l m r) (rw (split_at-append l (m ++ r)))))

unfoldable pub drop_while : (ℕ → Bool) → Text → Text
drop_while test [] = []
drop_while test (c ∷ s) = let rest = drop_while test s in if test c then rest else c ∷ s

unfoldable pub take_while : (ℕ → Bool) → Text → Text
take_while test [] = []
take_while test (c ∷ s) = if test c then c ∷ take_while test s else []

pub take_while-append-drop_while :
    (test : ℕ → Bool) (s : Text) → take_while test s ++ drop_while test s ≡ s
unfolding take_while drop_while
take_while-append-drop_while test [] = refl
take_while-append-drop_while test (c ∷ s) = ground (arith, take_while-append-drop_while test s)

pub reverse-cons-append : (c : ℕ) (b a : Text) → reverse (c ∷ b) ++ a ≡ reverse b ++ c ∷ a
reverse-cons-append c b a = rw (reverse-cons c b, append_assoc)

get_elem?-reverse-cons : (c : ℕ) (b a : Text) → get_elem? (reverse (c ∷ b) ++ a) (length b) ≡ some c
get_elem?-reverse-cons c b a =
    rw (reverse-cons c b, append_assoc, ← length-reverse b)
      (get_elem?-append_middle (reverse b) c a)

-- Scanning to the left removes characters from the text before the caret, nearest first.
pub scan_left-reverse :
    (test : ℕ → Bool) (b a : Text)
    → scan_left test (reverse b ++ a) (length b) ≡ some (length (drop_while test b))
unfolding scan_left drop_while
scan_left-reverse test [] a = refl
scan_left-reverse test (c ∷ b) a =
    rw (get_elem?-reverse-cons c b a, scan_left)
      (elim (Bool-cases (test c)) [
        | inl yes_c ↦ rw yes_c (
            ap (λ s. scan_left test s (length b)) (reverse-cons-append c b a)
            ∙ scan_left-reverse test b (c ∷ a))
        | inr no_c ↦ rw no_c
      ])

pub scan_right_from-add :
    (test : ℕ → Bool) (a : Text) (at : ℕ)
    → scan_right_from test a at ≡ at + length (take_while test a)
unfolding scan_right_from take_while
scan_right_from-add test [] at = omega arith
scan_right_from-add test (c ∷ a) at = ground (arith, scan_right_from-add test a (at + 1))

-- Scanning to the right passes the characters from the caret on that fit the test.
pub scan_right-reverse :
    (test : ℕ → Bool) (b a : Text)
    → scan_right test (reverse b ++ a) (length b) ≡ length b + length (take_while test a)
unfolding scan_right
scan_right-reverse test b a =
    rw (← length-reverse b, drop-append_left (reverse b) a)
      (scan_right_from-add test a (length (reverse b)))

-- A text that begins with a character of the test loses it.
pub length-drop_while-le : (test : ℕ → Bool) (s : Text) → length (drop_while test s) ≤ length s
unfolding drop_while
length-drop_while-le test [] = omega arith
length-drop_while-le test (c ∷ s) = ground (arith, length-drop_while-le test s)
