-- ===== src/TextInput/Tests.antt =====
-- Runs of the buffer of src/ui/text_input.rs.
use ramo.TextInput.Refine.{press-promised}
use ramo.Prelude.Text.{byte_len, codes, split_at, char_indices, is_whitespace}
use mathlib.Core.List.{reverse}
use ramo.TextInput.Session.{IsValid, backspace-insert, press_all-IsValid}
use ramo.TextInput.{delete_word_back, backspace, TextInput, with_value, insert}
use ramo.TextInput.Caret.{
  Cursor, press, cursor, kill_word, press_all, to_input, word_left, type, promised, erase_back,
  kill_right,
}
use ramo.Prelude.{ℕ, ◌>>=◌, Bool, leb, ◌&&◌, ◌≡◌, ◌∷◌, ◌||◌, [], some, true, arith, refl}

abbrev letters : ℕ → Bool
letters c = (leb b'a' c && leb c b'z') || leb 128 c

-- "fix the retry_loop()" with the caret behind it.
abbrev retry : Cursor
retry = cursor (reverse (codes "fix the retry_loop()")) []

kill_word_test : delete_word_back (to_input retry) ≡ some (with_value (codes "fix the "), true)
unfolding delete_word_back with_value byte_len split_at char_indices is_whitespace
kill_word_test = refl

-- A wide character is erased whole.
wide_test : backspace (with_value (codes "日本語")) ≡ some (with_value (codes "日本"), true)
unfolding backspace with_value byte_len split_at char_indices
wide_test = refl

press-promised_example :
    press letters kill_word (to_input retry)
    ≡ some (
      to_input (promised letters kill_word retry.before []).0,
      (promised letters kill_word retry.before []).1,
    )
press-promised_example = press-promised letters kill_word retry.before []

press_all-IsValid_example :
    (t' : TextInput) × (press_all letters
        (word_left ∷ type 233 ∷ erase_back ∷ kill_right ∷ [])
        (to_input retry)
      ≡ some t')
    × IsValid t'
press_all-IsValid_example =
    press_all-IsValid letters (word_left ∷ type 233 ∷ erase_back ∷ kill_right ∷ []) (to_input retry)
      (omega arith)

backspace-insert_example :
    (do t' ← insert (to_input retry) 26085; backspace t') ≡ some (to_input retry, true)
backspace-insert_example = backspace-insert 26085 (to_input retry) (omega arith)
