-- ===== src/TextInput/Session.antt =====
-- Whole sessions of keys on the buffer of src/ui/text_input.rs.
use ramo.TextInput.Refine.{length_text, press-promised, insert-to_input}
use ramo.TextInput.Caret.{Cursor, Key, press_all, cursor, to_input, press, promised, erase_back}
use ramo.TextInput.{TextInput, insert, backspace}
use ramo.Prelude.{
  ℕ, Bool, ◌≤◌, List, length, take, ◌≡◌, arith, drop, length-reverse, some, length-take, ap, subst,
  ◌++◌, ◌∷◌, ◌>>=◌, ◌∙◌, take-append-drop, true, false, [], refl,
}
use mathlib.Core.List.{reverse, reverse-reverse}

-- The caret is a character index into the text, or one past its end.
abbrev pub IsValid : TextInput → Type 0
IsValid t = t.caret ≤ length t.value

place : TextInput → Cursor
place t = cursor (reverse (take t.caret t.value)) (drop t.caret t.value)

-- Every valid buffer holds a place.
to_input-place : (t : TextInput) → IsValid t → to_input (place t) ≡ t
unfolding place
to_input-place t h = λ i. record {
  value =
      (ap (◌++ drop t.caret t.value) (reverse-reverse (take t.caret t.value))
          ∙ take-append-drop t.caret t.value)
        i;
  caret = caret_at i;
}
  where
    caret_at : length (reverse (take t.caret t.value)) ≡ t.caret
    caret_at = omega (arith, length-reverse (take t.caret t.value), length-take t.caret t.value)

to_input-IsValid : (z : Cursor) → IsValid (to_input z)
to_input-IsValid z = omega (arith, length_text z.before z.after)

press-IsValid :
    (w : ℕ → Bool) (k : Key) (t : TextInput)
    → IsValid t
    → (t' : TextInput) × (answer : Bool) × (press w k t ≡ some (t', answer)) × IsValid t'
press-IsValid w k t h =
    let z = place t in
    let done = promised w k z.before z.after in
    (
      to_input done.0,
      done.1,
      subst (λ u. press w k u ≡ some (to_input done.0, done.1)) (to_input-place t h)
          (press-promised w k z.before z.after),
      to_input-IsValid done.0,
    )

-- From a buffer whose caret is within the text, every sequence of keys runs to its end without a
-- panic, whatever characters count as alphanumeric, and leaves the caret within the text.
pub press_all-IsValid :
    (is_alphanumeric : ℕ → Bool) (keys : List Key) (t : TextInput)
    → IsValid t
    → (t' : TextInput) × (press_all is_alphanumeric keys t ≡ some t') × IsValid t'
unfolding press_all
press_all-IsValid w [] t h = (t, refl, h)
press_all-IsValid w (k ∷ ks) t h =
    let (t1, answer, e, h1) = press-IsValid w k t h in
    let (t2, e2, h2) = press_all-IsValid w ks t1 h1 in (t2, rw e e2, h2)

-- Whatever the text holds, typing a character and erasing back restores a valid buffer exactly.
pub backspace-insert :
    (c : ℕ) (t : TextInput) → IsValid t → (do t' ← insert t c; backspace t') ≡ some (t, true)
unfolding press promised place
backspace-insert c t h =
    let z = place t in
    subst (λ u. (do t' ← insert u c; backspace t') ≡ some (u, true)) (to_input-place t h)
      (rw (insert-to_input c z.before z.after)
        (press-promised (λ x. false) erase_back (c ∷ z.before) z.after))
