-- ===== src/TextInput/Caret.antt =====
-- What src/ui/text_input.rs promises: a text with a place in it. The characters before the caret
-- are kept nearest first, as on a stack; each operation moves, adds or drops characters at the
-- two ends that meet at the caret, and no offset is computed.
use mathlib.Core.List.{reverse}
use ramo.Prelude.{
  ℕ, Bool, true, false, not, List, [], ◌∷◌, ◌++◌, if◌then◌else◌, length, Option, some, ◌>>=◌,
}
use ramo.Prelude.Text.{Text, is_whitespace}
use ramo.TextInput.{
  TextInput, is_word, insert, backspace, delete_forward, move_home, move_end, move_left, move_right,
  kill_to_start, kill_to_end, delete_word_back, move_word_left, move_word_right, clear,
}
use ramo.TextInput.Loops.{drop_while}

pub record Cursor : Type 0 where
  pub before : Text
  pub after : Text

abbrev pub cursor : Text → Text → Cursor
cursor b a = record { before = b; after = a }

-- The buffer that holds the text with the caret at its place.
abbrev pub to_input : Cursor → TextInput
to_input z = record { value = reverse z.before ++ z.after; caret = length z.before }

-- The keys of a text-entry surface, one for each method.
pub data Key : Type 0 where
  type : ℕ → Key
  erase_back erase_forward home end left right kill_left kill_right kill_word : Key
  word_left word_right wipe : Key

unfoldable pub retreat : (ℕ → Bool) → Text → Text → Cursor
retreat test [] a = cursor [] a
retreat test (c ∷ b) a =
    let next = retreat test b (c ∷ a) in if test c then next else cursor (c ∷ b) a

unfoldable pub advance : (ℕ → Bool) → Text → Text → Cursor
advance test b [] = cursor b []
advance test b (c ∷ a) =
    let next = advance test (c ∷ b) a in if test c then next else cursor b (c ∷ a)

-- A method with no answer.
abbrev pub told : TextInput → Option (TextInput × Bool)
told t = some (t, true)

module _ (is_alphanumeric : ℕ → Bool) where
  abbrev pub word : ℕ → Bool
  word c = is_word is_alphanumeric c

  -- The new place, and whether the key was of use (true for those that do not tell).
  unfoldable pub promised : Key → Text → Text → Cursor × Bool
  unfolding retreat advance
  promised (type c) b a = (cursor (c ∷ b) a, true)
  promised erase_back [] a = (cursor [] a, false)
  promised erase_back (c ∷ b) a = (cursor b a, true)
  promised erase_forward b [] = (cursor b [], false)
  promised erase_forward b (c ∷ a) = (cursor b a, true)
  promised home b a = (cursor [] (reverse b ++ a), true)
  promised end b a = (cursor (reverse a ++ b) [], true)
  promised left [] a = (cursor [] a, true)
  promised left (c ∷ b) a = (cursor b (c ∷ a), true)
  promised right b [] = (cursor b [], true)
  promised right b (c ∷ a) = (cursor (c ∷ b) a, true)
  promised kill_left [] a = (cursor [] a, false)
  promised kill_left (c ∷ b) a = (cursor [] a, true)
  promised kill_right b [] = (cursor b [], false)
  promised kill_right b (c ∷ a) = (cursor b [], true)
  promised kill_word [] a = (cursor [] a, false)
  promised kill_word (c ∷ b) a =
      (cursor (drop_while (λ x. not (is_whitespace x)) (drop_while is_whitespace (c ∷ b))) a, true)
  promised word_left b a =
      let gap = retreat (λ x. not (word x)) b a in (retreat word gap.before gap.after, true)
  promised word_right b a =
      let gap = advance (λ x. not (word x)) b a in (advance word gap.before gap.after, true)
  promised wipe b a = (cursor [] [], true)

  -- The method that a key calls.
  unfoldable pub press : Key → TextInput → Option (TextInput × Bool)
  press (type c) t = do t' ← insert t c; told t'
  press erase_back t = backspace t
  press erase_forward t = delete_forward t
  press home t = told (move_home t)
  press end t = told (move_end t)
  press left t = told (move_left t)
  press right t = told (move_right t)
  press kill_left t = kill_to_start t
  press kill_right t = kill_to_end t
  press kill_word t = delete_word_back t
  press word_left t = do t' ← move_word_left is_alphanumeric t; told t'
  press word_right t = told (move_word_right is_alphanumeric t)
  press wipe t = told (clear t)

  unfoldable pub press_all : List Key → TextInput → Option TextInput
  unfolding press
  press_all [] t = some t
  press_all (k ∷ ks) t = do (t', _) ← press k t; press_all ks t'
