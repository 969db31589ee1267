-- ===== src/TextInput.antt =====
-- src/ui/text_input.rs: the edit buffer with a caret that every text-entry surface shares. The
-- buffer's text is a `String`, so its operations cut at byte offsets and would panic inside a
-- character or past the end: such a panic is `none` here. The text is the list of its characters,
-- the offsets are those of `Prelude/Text`. `char::is_alphanumeric` is a table of the language's
-- standard library, and is a parameter of the word motions.
pub mod Loops
pub mod Caret
pub mod Refine
pub mod Session
mod Tests
use ramo.Prelude.{
  ℕ, zero, suc, ◌+◌, ◌-◌, min, Bool, true, false, not, ◌||◌, Option, none, some, List, [], ◌∷◌,
  ◌++◌, ltb, leb, ◌==◌, if◌then◌else◌, ◌>>=◌, length, get_elem?, drop,
}
use ramo.Prelude.Text.{Text, byte_len, split_at, char_indices, is_whitespace}

pub record TextInput : Type 0 where
  pub value : Text
  pub caret : ℕ

abbrev pub new : TextInput
new = record { value = []; caret = 0 }

pub with_value : Text → TextInput
with_value value = record { value = value; caret = length value }

pub char_count : TextInput → ℕ
char_count t = length t.value

pub clear : TextInput → TextInput
clear t = record { value = []; caret = 0 }

pub set_value : TextInput → Text → TextInput
set_value t value = record { value = value; caret = min t.caret (length value) }

-- The offset of the caret's character, or the length of the text where there is none.
pub offset_or : Option (ℕ × ℕ) → ℕ → ℕ
offset_or (some (at, c)) end = at
offset_or none end = end

pub byte_index : TextInput → ℕ → ℕ
unfolding offset_or
byte_index t caret = offset_or (get_elem? (char_indices 0 t.value) caret) (byte_len t.value)

-- `String::insert`, `String::replace_range(start..end, "")` and `String::truncate`.
pub insert_at : Text → ℕ → ℕ → Option Text
insert_at s at character = do (a, b) ← split_at s at; some (a ++ character ∷ b)

pub remove_range : Text → ℕ → ℕ → Option Text
remove_range s start end =
    if leb start end
    then (do (a, _) ← split_at s start; (_, b) ← split_at s end; some (a ++ b))
    else none

pub truncate : Text → ℕ → Option Text
truncate s at = if leb at (byte_len s) then (do (a, _) ← split_at s at; some a) else some s

pub insert : TextInput → ℕ → Option TextInput
unfolding byte_index insert_at
insert t character = do
  value ← insert_at t.value (byte_index t t.caret) character
  some (record { value = value; caret = t.caret + 1 })

-- The operations that answer whether they changed the text.
pub backspace : TextInput → Option (TextInput × Bool)
unfolding byte_index remove_range
backspace t = if t.caret == 0 then some (t, false) else do
  value ← remove_range t.value (byte_index t (t.caret - 1)) (byte_index t t.caret)
  some (record { value = value; caret = t.caret - 1 }, true)

pub delete_forward : TextInput → Option (TextInput × Bool)
unfolding byte_index remove_range char_count
delete_forward t = if leb (char_count t) t.caret then some (t, false) else do
  value ← remove_range t.value (byte_index t t.caret) (byte_index t (t.caret + 1))
  some (record { value = value; caret = t.caret }, true)

pub move_home : TextInput → TextInput
move_home t = record t { caret = 0 }

pub move_end : TextInput → TextInput
unfolding char_count
move_end t = record t { caret = char_count t }

pub move_left : TextInput → TextInput
move_left t = record t { caret = t.caret - 1 }

pub move_right : TextInput → TextInput
unfolding char_count
move_right t = record t { caret = min (t.caret + 1) (char_count t) }

pub kill_to_start : TextInput → Option (TextInput × Bool)
unfolding byte_index remove_range
kill_to_start t = if t.caret == 0 then some (t, false) else do
  value ← remove_range t.value 0 (byte_index t t.caret)
  some (record { value = value; caret = 0 }, true)

pub kill_to_end : TextInput → Option (TextInput × Bool)
unfolding byte_index truncate char_count
kill_to_end t = if leb (char_count t) t.caret then some (t, false) else do
  value ← truncate t.value (byte_index t t.caret)
  some (record { value = value; caret = t.caret }, true)

-- `while at > 0 && test(chars[at - 1]) { at -= 1; }`; an index out of range panics.
pub scan_left : (ℕ → Bool) → Text → ℕ → Option ℕ
scan_left test chars zero = some 0
scan_left test chars (suc at) =
    let rest = scan_left test chars at in
    elim (get_elem? chars at) [ none ↦ none | some c ↦ if test c then rest else some (suc at) ]

-- `while at < chars.len() && test(chars[at]) { at += 1; }`, over the characters from `at` on.
pub scan_right_from : (ℕ → Bool) → Text → ℕ → ℕ
scan_right_from test [] at = at
scan_right_from test (c ∷ rest) at =
    let moved = scan_right_from test rest (at + 1) in if test c then moved else at

pub scan_right : (ℕ → Bool) → Text → ℕ → ℕ
unfolding scan_right_from
scan_right test chars at = scan_right_from test (drop at chars) at

pub delete_word_back : TextInput → Option (TextInput × Bool)
unfolding byte_index remove_range scan_left
delete_word_back t = do
  past_space ← scan_left is_whitespace t.value t.caret
  at ← scan_left (λ c. not (is_whitespace c)) t.value past_space
  if at == t.caret then some (t, false) else do
    value ← remove_range t.value (byte_index t at) (byte_index t t.caret)
    some (record { value = value; caret = at }, true)

module _ (is_alphanumeric : ℕ → Bool) where
  pub is_word : ℕ → Bool
  is_word character = is_alphanumeric character || character == b'_'

  pub move_word_left : TextInput → Option TextInput
  unfolding scan_left is_word
  move_word_left t = do
    past_gap ← scan_left (λ c. not (is_word c)) t.value t.caret
    at ← scan_left is_word t.value past_gap
    some (record t { caret = at })

  pub move_word_right : TextInput → TextInput
  unfolding scan_right is_word
  move_word_right t =
      let past_gap = scan_right (λ c. not (is_word c)) t.value t.caret in
      record t { caret = scan_right is_word t.value past_gap }
