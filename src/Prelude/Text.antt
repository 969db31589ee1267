-- ===== src/Prelude/Text.antt =====
-- Rust's `str` as the list of its characters, with the byte offsets of its UTF-8 encoding.
use Prim.Native.Char.{code}
use Prim.Native.String.{String}
use Prim.Native.Nat.{ℕ, zero, suc, ◌+◌, ◌-◌, ◌≤◌}
use mathlib.Core.Path.{◌≡◌, refl}
use mathlib.Core.Bool.{Bool, ◌&&◌, ◌||◌}
use mathlib.Core.Option.{Option, none, some}
use mathlib.Core.Option
use mathlib.Core.Logic.{inl, inr}
use mathlib.Core.List.{List, [], ◌∷◌, ◌++◌}
use native.Mathlib.Omega.{arith}
use ramo.Prelude.Tests.{ltb, leb, ◌==◌, if◌then◌else◌, ◌>>=◌, le→leb, Option-cases}

abbrev pub Text : Type 0
Text = List ℕ

abbrev pub codes : String → Text
codes String.[] = []
codes (String.◌∷◌ c s) = code c ∷ codes s

-- `char::len_utf8`.
unfoldable pub utf8_len : ℕ → ℕ
utf8_len c = if ltb c 0x80 then 1 else if ltb c 0x800 then 2 else if ltb c 0x10000 then 3 else 4

pub utf8_len_pos : (c : ℕ) → 1 ≤ utf8_len c
unfolding utf8_len
utf8_len_pos c = ground arith

-- `str::len`.
unfoldable pub byte_len : Text → ℕ
unfolding utf8_len
byte_len [] = 0
byte_len (c ∷ s) = utf8_len c + byte_len s

pub byte_len-append : (a b : Text) → byte_len (a ++ b) ≡ byte_len a + byte_len b
unfolding byte_len
byte_len-append [] b = omega arith
byte_len-append (c ∷ a) b = omega (arith, byte_len-append a b)

-- `str::split_at_checked`: `none` where the offset is past the end or inside a character.
unfoldable pub split_at : Text → ℕ → Option (Text × Text)
unfolding utf8_len
split_at s zero = some ([], s)
split_at [] (suc n) = none
split_at (c ∷ s) (suc n) =
    let rest = split_at s (suc n - utf8_len c) in
    if leb (utf8_len c) (suc n) then (do (a, b) ← rest; some (c ∷ a, b)) else none

-- One more character of a prefix.
extend : ℕ → Text × Text → Text × Text
extend c (a, b) = (c ∷ a, b)

split_at-cons :
    (c : ℕ) (s : Text) (n : ℕ)
    → utf8_len c ≤ n
    → split_at (c ∷ s) n ≡ Option.map (extend c) (split_at s (n - utf8_len c))
unfolding split_at extend
split_at-cons c s zero h = absurd (omega (arith, utf8_len_pos c))
split_at-cons c s (suc n) h = elim (Option-cases (split_at s (suc n - utf8_len c))) [
  | inl e ↦ rw (le→leb _ _ h, e)
  | inr (r, e) ↦ rw (le→leb _ _ h, e)
]

-- Splitting at the byte length of a prefix gives that prefix: no offset between two characters
-- is refused.
pub split_at-append : (a b : Text) → split_at (a ++ b) (byte_len a) ≡ some (a, b)
unfolding byte_len split_at extend
split_at-append [] [] = refl
split_at-append [] (c ∷ b) = refl
split_at-append (c ∷ a) b =
    let e : (utf8_len c + byte_len a) - utf8_len c ≡ byte_len a = omega arith in
    rw (split_at-cons c (a ++ b) (utf8_len c + byte_len a) (omega arith))
      (rw e (rw (split_at-append a b)))

-- `char_indices`: each character with the byte offset at which it starts.
unfoldable pub char_indices : ℕ → Text → List (ℕ × ℕ)
char_indices at [] = []
char_indices at (c ∷ s) = (at, c) ∷ char_indices (at + utf8_len c) s

-- `char::is_whitespace`: the Unicode property White_Space.
unfoldable pub is_whitespace : ℕ → Bool
is_whitespace c =
    (leb 9 c && leb c 13)
    || c == 0x20
    || c == 0x85
    || c == 0xA0
    || c == 0x1680
    || (leb 0x2000 c && leb c 0x200A)
    || c == 0x2028
    || c == 0x2029
    || c == 0x202F
    || c == 0x205F
    || c == 0x3000
