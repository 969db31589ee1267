-- ===== src/Prelude/Utf8.antt =====
-- UTF-8, as Rust's standard library encodes and decodes it.
use mathlib.Core.Logic.{inl, inr}
use native.Mathlib.Omega.{arith}
use mathlib.Core.Path.{◌≡◌, refl, ◌∙◌, ap}
use ramo.Prelude.Lists.{length, all, length-append, all-cons}
use mathlib.Core.Bool.{Bool, true, ◌||◌, ◌&&◌}
use ramo.Prelude.Tests.{if◌then◌else◌, ltb, leb, ◌==◌, Bool-cases, ltb→lt}
use ramo.Prelude.Text.{Text, codes}
use mathlib.Core.List.{List, [], ◌∷◌, ◌++◌}
use Prim.Native.Nat.{ℕ, ◌-◌, suc, ◌+◌, ◌*◌, zero, ◌/◌, ◌%◌, ◌≤◌, ◌<◌}

-- `char::encode_utf8`.
unfoldable pub encode_char : ℕ → List ℕ
encode_char c =
    if ltb c 0x80
    then c ∷ []
    else if ltb c 0x800
    then (0xC0 + c / 64) ∷ (0x80 + c % 64) ∷ []
    else if ltb c 0x10000
    then (0xE0 + c / 4096) ∷ (0x80 + c / 64 % 64) ∷ (0x80 + c % 64) ∷ []
    else (0xF0 + c / 262144) ∷ (0x80 + c / 4096 % 64) ∷ (0x80 + c / 64 % 64) ∷ (0x80 + c % 64) ∷ []

-- Unicode scalar values: what a `char` may be.
abbrev pub is_scalar : ℕ → Bool
is_scalar c = ltb c 0xD800 || (leb 0xE000 c && leb c 0x10FFFF)

abbrev is_continuation : ℕ → Bool
is_continuation b = leb 0x80 b && leb b 0xBF

-- What stands for a part that is no character.
abbrev pub replacement : ℕ
replacement = 0xFFFD

-- The second byte that may follow a first byte of three, and of four.
second_of_three : ℕ → ℕ → Bool
second_of_three b d =
    (if b == 0xE0 then leb 0xA0 d else leb 0x80 d) && (if b == 0xED then leb d 0x9F else leb d 0xBF)

second_of_four : ℕ → ℕ → Bool
second_of_four b d =
    (if b == 0xF0 then leb 0x90 d else leb 0x80 d) && (if b == 0xF4 then leb d 0x8F else leb d 0xBF)

two : ℕ → List ℕ → ℕ × List ℕ
two b [] = (replacement, [])
two b (d ∷ s) =
    if is_continuation d then ((b - 0xC0) * 64 + (d - 0x80), s) else (replacement, d ∷ s)

three_last : ℕ → ℕ → List ℕ → ℕ × List ℕ
three_last b d [] = (replacement, [])
three_last b d (e ∷ s) =
    if is_continuation e
    then ((b - 0xE0) * 4096 + (d - 0x80) * 64 + (e - 0x80), s)
    else (replacement, e ∷ s)

three : ℕ → List ℕ → ℕ × List ℕ
unfolding second_of_three three_last
three b [] = (replacement, [])
three b (d ∷ s) = if second_of_three b d then three_last b d s else (replacement, d ∷ s)

four_last : ℕ → ℕ → ℕ → List ℕ → ℕ × List ℕ
four_last b d e [] = (replacement, [])
four_last b d e (f ∷ s) =
    if is_continuation f
    then ((b - 0xF0) * 262144 + (d - 0x80) * 4096 + (e - 0x80) * 64 + (f - 0x80), s)
    else (replacement, f ∷ s)

four_third : ℕ → ℕ → List ℕ → ℕ × List ℕ
unfolding four_last
four_third b d [] = (replacement, [])
four_third b d (e ∷ s) = if is_continuation e then four_last b d e s else (replacement, e ∷ s)

four : ℕ → List ℕ → ℕ × List ℕ
unfolding second_of_four four_third
four b [] = (replacement, [])
four b (d ∷ s) = if second_of_four b d then four_third b d s else (replacement, d ∷ s)

-- The first character of bytes that begin with `b`, or the replacement for the longest part that
-- begins no character, and the bytes behind it.
unfoldable pub decode_char : ℕ → List ℕ → ℕ × List ℕ
unfolding two three four
decode_char b s =
    if ltb b 0x80
    then (b, s)
    else if ltb b 0xC2
    then (replacement, s)
    else if ltb b 0xE0
    then two b s
    else if ltb b 0xF0
    then three b s
    else if ltb b 0xF5
    then four b s
    else (replacement, s)

-- `String::from_utf8_lossy`, which is `from_utf8` where that succeeds. Each round takes a byte at
-- least, so the length is fuel enough.
decode_from : ℕ → List ℕ → Text
unfolding decode_char
decode_from zero bytes = []
decode_from (suc fuel) [] = []
decode_from (suc fuel) (b ∷ s) = let (c, rest) = decode_char b s in c ∷ decode_from fuel rest

unfoldable pub decode : List ℕ → Text
unfolding decode_from
decode bytes = decode_from (length bytes) bytes

unfoldable pub encode : Text → List ℕ
unfolding encode_char
encode [] = []
encode (c ∷ s) = encode_char c ++ encode s

decode_two :
    (c : ℕ) (s : List ℕ)
    → 0x80 ≤ c
    → c < 0x800
    → decode_char (0xC0 + c / 64) ((0x80 + c % 64) ∷ s) ≡ (c, s)
unfolding decode_char
decode_two c s h k = ground arith

decode_three :
    (c : ℕ) (s : List ℕ)
    → is_scalar c ≡ true
    → 0x800 ≤ c
    → c < 0x10000
    → decode_char (0xE0 + c / 4096) ((0x80 + c / 64 % 64) ∷ (0x80 + c % 64) ∷ s) ≡ (c, s)
unfolding decode_char
decode_three c s v h k = ground arith

decode_four :
    (c : ℕ) (s : List ℕ)
    → is_scalar c ≡ true
    → 0x10000 ≤ c
    → decode_char
        (0xF0 + c / 262144)
        ((0x80 + c / 4096 % 64) ∷ (0x80 + c / 64 % 64) ∷ (0x80 + c % 64) ∷ s)
      ≡ (c, s)
unfolding decode_char
decode_four c s v h = ground arith

decode_one : (c : ℕ) (s : List ℕ) → c < 0x80 → decode_char c s ≡ (c, s)
unfolding decode_char
decode_one c s h = ground arith

decode_from-encode_char :
    (c : ℕ) (s : List ℕ) (fuel : ℕ)
    → is_scalar c ≡ true
    → decode_from (suc fuel) (encode_char c ++ s) ≡ c ∷ decode_from fuel s
unfolding decode_from encode_char
decode_from-encode_char c s fuel v = elim (Bool-cases (ltb c 0x80)) [
  | inl a ↦ rw (a, decode_one c s (ltb→lt _ _ a))
  | inr a ↦ elim (Bool-cases (ltb c 0x800)) [
    | inl b ↦ rw (a, b, decode_two c s (ground arith) (ground arith))
    | inr b ↦ elim (Bool-cases (ltb c 0x10000)) [
      | inl d ↦ rw (a, b, d, decode_three c s v (ground arith) (ground arith))
      | inr d ↦ rw (a, b, d, decode_four c s v (ground arith))
    ]
  ]
]

length-encode_char : (c : ℕ) → 1 ≤ length (encode_char c)
unfolding encode_char
length-encode_char c = ground arith

decode_from-encode :
    (s : Text) (fuel : ℕ)
    → all is_scalar s ≡ true
    → length (encode s) ≤ fuel
    → decode_from fuel (encode s) ≡ s
unfolding encode
decode_from-encode [] zero v h = unfold decode_from in refl
decode_from-encode [] (suc fuel) v h = unfold decode_from in refl
decode_from-encode (c ∷ s) zero v h =
    absurd (omega (arith, length-append (encode_char c) (encode s), length-encode_char c))
decode_from-encode (c ∷ s) (suc fuel) v h =
    let (w, ws) = all-cons is_scalar c s v in
    let size = length-append (encode_char c) (encode s) in
    decode_from-encode_char c (encode s) fuel w
    ∙ ap (c ∷◌) (decode_from-encode s fuel ws (omega (arith, size, length-encode_char c)))

-- Decoding the bytes of a text gives the text.
pub decode-encode : (s : Text) → all is_scalar s ≡ true → decode (encode s) ≡ s
unfolding decode
decode-encode s v = decode_from-encode s (length (encode s)) v (omega arith)

decode_test : decode (encode (codes "é日a")) ≡ codes "é日a"
unfolding decode encode
decode_test = refl
