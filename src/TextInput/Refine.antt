-- ===== src/TextInput/Refine.antt =====
-- The methods of src/ui/text_input.rs on a buffer that holds a place do what `Caret` promises.
use mathlib.Core.List.{reverse, reverse-append, reverse-reverse}
use ramo.Prelude.{
  ℕ, ◌≡◌, refl, sym, ap, ◌∙◌, some, ◌∷◌, ◌++◌, append_assoc, arith, length, length-reverse, ◌+◌,
  leb, Bool, false, [], true, not, Bool-cases, ◌<◌, ◌==◌, length-append, inl, inr, subst, suc, ◌-◌,
  append-nil,
}
use ramo.Prelude.Text.{Text, byte_len, is_whitespace}
use ramo.TextInput.{
  TextInput, insert, byte_index, remove_range, delete_word_back, scan_left, scan_right, backspace,
  delete_forward, move_home, move_end, move_left, move_right, clear, kill_to_start, kill_to_end,
  move_word_left, move_word_right, char_count, is_word,
}
use ramo.TextInput.Loops.{
  byte_index-append, insert_at-append, remove_range-append, reverse-cons-append, drop_while,
  take_while, scan_left-reverse, scan_right-reverse, take_while-append-drop_while,
  length-drop_while-le, truncate-append,
}
use ramo.TextInput.Caret.{
  cursor, to_input, retreat, advance, Key, type, erase_back, erase_forward, home, end, left, right,
  kill_left, kill_right, kill_word, word_left, word_right, wipe, promised, press, told,
}

abbrev input : Text → ℕ → TextInput
input value caret = record { value = value; caret = caret }

-- The byte index behind the first `length b` characters.
byte_index_at :
    (t : TextInput) (b a : Text)
    → t.value ≡ reverse b ++ a
    → byte_index t (length b) ≡ byte_len (reverse b)
byte_index_at t b a e =
    ap (byte_index t) (sym (length-reverse b)) ∙ byte_index-append t (reverse b) a e

same : {v v' : Text} {k k' : ℕ} → v ≡ v' → k ≡ k' → input v k ≡ input v' k'
same p q = λ i. input (p i) (q i)

pub insert-to_input :
    (c : ℕ) (b a : Text) → insert (to_input (cursor b a)) c ≡ some (to_input (cursor (c ∷ b) a))
unfolding insert
insert-to_input c b a =
    rw (byte_index_at (to_input (cursor b a)) b a refl, insert_at-append (reverse b) a c)
      (ap some (same (sym (reverse-cons-append c b a)) (omega arith)))

-- Cutting `m`, the nearest characters before the caret.
cut_before :
    (t : TextInput) (m b a : Text)
    → t.value ≡ reverse (m ++ b) ++ a
    → remove_range t.value (byte_index t (length b)) (byte_index t (length (m ++ b)))
      ≡ some (reverse b ++ a)
cut_before t m b a e =
    let split : t.value ≡ reverse b ++ (reverse m ++ a) =
      e ∙ ap (◌++ a) (reverse-append m b) ∙ append_assoc (reverse b) (reverse m) a in
    rw
      (
        byte_index_at t b (reverse m ++ a) split,
        byte_index_at t (m ++ b) a e,
        e,
        reverse-append m b,
      )
      (remove_range-append (reverse b) (reverse m) a)

pub length_text : (b a : Text) → length (reverse b ++ a) ≡ length b + length a
length_text b a = rw (length-append (reverse b) a, length-reverse b)

-- Whether the caret is at the end.
at_end : (b a : Text) (c : ℕ) → leb (length (reverse b ++ c ∷ a)) (length b) ≡ false
at_end b a c = ground (arith, length_text b (c ∷ a))

at_end_nil : (b : Text) → leb (length (reverse b ++ [])) (length b) ≡ true
at_end_nil b = ground (arith, length_text b [])

value-retreat :
    (test : ℕ → Bool) (b a : Text)
    → reverse (retreat test b a).before ++ (retreat test b a).after ≡ reverse b ++ a
unfolding retreat
value-retreat test [] a = refl
value-retreat test (c ∷ b) a = elim (Bool-cases (test c)) [
  | inl more ↦ rw more (value-retreat test b (c ∷ a) ∙ sym (reverse-cons-append c b a))
  | inr done ↦ rw done
]

before-retreat : (test : ℕ → Bool) (b a : Text) → (retreat test b a).before ≡ drop_while test b
unfolding retreat drop_while
before-retreat test [] a = refl
before-retreat test (c ∷ b) a = ground (arith, before-retreat test b (c ∷ a))

value-advance :
    (test : ℕ → Bool) (b a : Text)
    → reverse (advance test b a).before ++ (advance test b a).after ≡ reverse b ++ a
unfolding advance
value-advance test b [] = refl
value-advance test b (c ∷ a) = elim (Bool-cases (test c)) [
  | inl more ↦ rw more (value-advance test (c ∷ b) a ∙ reverse-cons-append c b a)
  | inr done ↦ rw done
]

length-before-advance :
    (test : ℕ → Bool) (b a : Text)
    → length (advance test b a).before ≡ length b + length (take_while test a)
unfolding advance take_while
length-before-advance test b [] = omega arith
length-before-advance test b (c ∷ a) = ground (arith, length-before-advance test (c ∷ b) a)

-- A scan to the left from the caret of any place with that text stops where `retreat` does.
scan_left-retreat :
    (test : ℕ → Bool) (s b a : Text)
    → s ≡ reverse b ++ a
    → scan_left test s (length b) ≡ some (length (retreat test b a).before)
scan_left-retreat test s b a e = rw (e, before-retreat test b a) (scan_left-reverse test b a)

scan_right-advance :
    (test : ℕ → Bool) (s b a : Text)
    → s ≡ reverse b ++ a
    → scan_right test s (length b) ≡ length (advance test b a).before
scan_right-advance test s b a e =
    rw (e, length-before-advance test b a) (scan_right-reverse test b a)

-- A second scan to the left goes on from where the first one stopped.
scan_left_twice :
    (first second : ℕ → Bool) (b a : Text)
    → scan_left second (reverse b ++ a) (length (drop_while first b))
      ≡ some (length (drop_while second (drop_while first b)))
scan_left_twice first second b a =
    let rest = (retreat first b a).after in
    let e : reverse b ++ a ≡ reverse (drop_while first b) ++ rest =
      rw before-retreat at (sym (value-retreat first b a)) in
    rw e (scan_left-reverse second (drop_while first b) rest)

-- What `drop_while` leaves is the end of the text.
dropped_twice :
    (first second : ℕ → Bool) (b : Text)
    → (m : Text) × (m ++ drop_while second (drop_while first b) ≡ b)
dropped_twice first second b = (
  take_while first b ++ take_while second (drop_while first b),
  append_assoc (take_while first b) _ _
      ∙ ap (take_while first b ++◌) (take_while-append-drop_while second (drop_while first b))
      ∙ take_while-append-drop_while first b,
)

-- Either test drops the nearest character.
drops_one :
    (test : ℕ → Bool) (c : ℕ) (b : Text)
    → length (drop_while (λ x. not (test x)) (drop_while test (c ∷ b))) < length (c ∷ b)
unfolding drop_while
drops_one test c b = ground (
  arith,
  length-drop_while-le test b,
  length-drop_while-le (λ x. not (test x)) (drop_while test b),
  length-drop_while-le (λ x. not (test x)) b,
)

differs : (m n : ℕ) → m < n → (m == n) ≡ false
differs m n h = ground arith

delete_word-to_input :
    (c : ℕ) (b a : Text)
    → delete_word_back (to_input (cursor (c ∷ b) a))
      ≡ some (
        to_input
            (cursor (drop_while (λ x. not (is_whitespace x)) (drop_while is_whitespace (c ∷ b))) a),
        true,
      )
unfolding delete_word_back
delete_word-to_input c b a =
    let kept = drop_while (λ x. not (is_whitespace x)) (drop_while is_whitespace (c ∷ b)) in
    let t = to_input (cursor (c ∷ b) a) in
    let (m, whole) = dropped_twice is_whitespace (λ x. not (is_whitespace x)) (c ∷ b) in
    let first = scan_left-reverse is_whitespace (c ∷ b) a in
    let second = scan_left_twice is_whitespace (λ x. not (is_whitespace x)) (c ∷ b) a in
    let cut : remove_range t.value (byte_index t (length kept)) (byte_index t (length (c ∷ b)))
        ≡ some (reverse kept ++ a) =
      subst
        (λ w.
          remove_range t.value (byte_index t (length kept)) (byte_index t (length w))
          ≡ some (reverse kept ++ a))
        whole (cut_before t m kept a (ap (λ w. reverse w ++ a) (sym whole))) in
    rw (first, second, differs _ _ (drops_one is_whitespace c b), cut)

not_zero : (n : ℕ) → (suc n == 0) ≡ false
not_zero n = ground arith

sub_one : (n : ℕ) → suc n - 1 ≡ n
sub_one n = omega arith

add_one : (n : ℕ) → n + 1 ≡ suc n
add_one n = omega arith

moved : {v v' : Text} {k k' : ℕ} → v ≡ v' → k ≡ k' → told (input v k) ≡ told (input v' k')
moved p q = λ i. told (input (p i) (q i))

home_end : (b a : Text) → reverse b ++ a ≡ reverse (reverse a ++ b) ++ []
home_end b a = rw (append-nil, reverse-append, reverse-reverse)

cut_all :
    (t : TextInput) (b a : Text)
    → t.value ≡ reverse b ++ a
    → remove_range t.value 0 (byte_index t (length b)) ≡ some a
unfolding byte_len
cut_all t b a e = rw (byte_index_at t b a e, e) (remove_range-append [] (reverse b) a)

delete_word_nil :
    (a : Text) → delete_word_back (to_input (cursor [] a)) ≡ some (to_input (cursor [] a), false)
unfolding delete_word_back
delete_word_nil a = refl

-- Every method, on every place, does what is promised and does not panic.
pub press-promised :
    (is_alphanumeric : ℕ → Bool) (k : Key) (b a : Text)
    → press is_alphanumeric k (to_input (cursor b a))
      ≡ some (to_input (promised is_alphanumeric k b a).0, (promised is_alphanumeric k b a).1)
unfolding press promised backspace delete_forward move_home move_end move_left move_right clear
    kill_to_start kill_to_end move_word_left move_word_right char_count
press-promised w (type c) b a = rw (insert-to_input c b a)
press-promised w erase_back [] a = refl
press-promised w erase_back (c ∷ b) a = rw (
  not_zero (length b),
  sub_one (length b),
  cut_before (to_input (cursor (c ∷ b) a)) (c ∷ []) b a refl,
)
press-promised w erase_forward b [] = rw (at_end_nil b)
press-promised w erase_forward b (c ∷ a) = rw (
  at_end b a c,
  add_one (length b),
  cut_before (to_input (cursor b (c ∷ a))) (c ∷ []) b a (sym (reverse-cons-append c b a)),
)
press-promised w home b a = refl
press-promised w end b a =
    moved (home_end b a) (
      omega
        (arith, length_text b a, length_text a b, length-append (reverse a) b, length-reverse a))
press-promised w left [] a = refl
press-promised w left (c ∷ b) a = moved (reverse-cons-append c b a) (sub_one (length b))
press-promised w right b [] = moved refl (omega (arith, length_text b []))
press-promised w right b (c ∷ a) =
    moved (sym (reverse-cons-append c b a)) (omega (arith, length_text b (c ∷ a)))
press-promised w kill_left [] a = refl
press-promised w kill_left (c ∷ b) a =
    rw (not_zero (length b), cut_all (to_input (cursor (c ∷ b) a)) (c ∷ b) a refl)
press-promised w kill_right b [] = rw (at_end_nil b)
press-promised w kill_right b (c ∷ a) =
    rw
      (
        at_end b a c,
        byte_index_at (to_input (cursor b (c ∷ a))) b (c ∷ a) refl,
        truncate-append (reverse b) (c ∷ a),
      )
      (moved (sym (append-nil (reverse b))) refl)
press-promised w kill_word [] a = delete_word_nil a
press-promised w kill_word (c ∷ b) a = rw (delete_word-to_input c b a)
press-promised w word_left b a =
    rw (scan_left-retreat (λ c. not (is_word w c)) (reverse b ++ a) b a refl) (
      rw
        (scan_left-retreat (is_word w) (reverse b ++ a) _ _
          (sym (value-retreat (λ c. not (is_word w c)) b a)))
        (moved
          (sym (
            value-retreat (is_word w) (retreat (λ c. not (is_word w c)) b a).before
              (retreat (λ c. not (is_word w c)) b a).after
            ∙ value-retreat (λ c. not (is_word w c)) b a))
          refl))
press-promised w word_right b a =
    let gap = advance (λ c. not (is_word w c)) b a in
    moved (sym (value-advance (is_word w) gap.before gap.after ∙ value-advance _ b a)) (
      ap (scan_right (is_word w) (reverse b ++ a)) (scan_right-advance _ (reverse b ++ a) b a refl)
      ∙ scan_right-advance (is_word w) (reverse b ++ a) gap.before gap.after
          (sym (value-advance _ b a)))
press-promised w wipe b a = refl
