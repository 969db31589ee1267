-- ===== src/Prelude/Str.antt =====
-- The methods of Rust's `str` that the source calls, over the list of characters.
use mathlib.Core.Logic.{◌↔◌}
use native.Mathlib.Omega.{arith}
use ramo.Prelude.Tests.{if◌then◌else◌, ◌==◌, ◌>>=◌}
use ramo.Prelude.Lists.{length}
use mathlib.Core.Path.{◌≡◌, refl, subst}
use mathlib.Core.Bool.{Bool, true, false, ◌&&◌}
use Prim.Native.Nat.{ℕ, suc, zero}
use ramo.Prelude.Text.{Text, is_whitespace}
use mathlib.Core.List.{reverse, ◌++◌, List, ◌∷◌, []}
use mathlib.Core.Option.{Option, some, none}

-- Equality of characters, texts, and of optional values.
unfoldable pub text_eq : Text → Text → Bool
text_eq [] [] = true
text_eq [] (d ∷ t) = false
text_eq (c ∷ s) [] = false
text_eq (c ∷ s) (d ∷ t) = c == d && text_eq s t

pub text_eq→eq : (s t : Text) → text_eq s t ≡ true → s ≡ t
unfolding text_eq
text_eq→eq [] [] h = refl
text_eq→eq [] (d ∷ t) h = cc
text_eq→eq (c ∷ s) [] h = cc
text_eq→eq (c ∷ s) (d ∷ t) h = ground (arith, text_eq→eq s t)

pub text_eq_refl : (s : Text) → text_eq s s ≡ true
unfolding text_eq
text_eq_refl [] = refl
text_eq_refl (c ∷ s) = ground (arith, text_eq_refl s)

pub text_eq_iff : (s t : Text) → (text_eq s t ≡ true) ↔ (s ≡ t)
text_eq_iff s t = (text_eq→eq s t, λ e. subst (λ u. text_eq s u ≡ true) e (text_eq_refl s))

-- `strip_prefix`: the rest behind a prefix.
unfoldable pub strip_prefix : Text → Text → Option Text
strip_prefix [] s = some s
strip_prefix (p ∷ ps) [] = none
strip_prefix (p ∷ ps) (c ∷ s) = if p == c then strip_prefix ps s else none

abbrev pub is_some {ℓ} : {A : Type ℓ} → Option A → Bool
is_some none = false
is_some (some a) = true

abbrev pub starts_with : Text → Text → Bool
starts_with prefix s = is_some (strip_prefix prefix s)

pub strip_prefix-eq : (p s r : Text) → strip_prefix p s ≡ some r → s ≡ p ++ r
unfolding strip_prefix
strip_prefix-eq [] s r h = cc
strip_prefix-eq (c ∷ p) [] r h = cc
strip_prefix-eq (c ∷ p) (d ∷ s) r h = ground (arith, strip_prefix-eq p s r)

pub strip_prefix-append : (p s : Text) → strip_prefix p (p ++ s) ≡ some s
unfolding strip_prefix
strip_prefix-append [] s = refl
strip_prefix-append (c ∷ p) s = ground (arith, strip_prefix-append p s)

-- `trim_start_matches(prefix)` for a prefix that is not empty, which is taken off as often as it
-- stands there. `fuel` counts the characters of the text, which are at least the rounds.
trim_prefix_from : ℕ → Text → Text → Text
trim_prefix_from zero prefix s = s
trim_prefix_from (suc fuel) prefix s = elim (strip_prefix prefix s) [
  | none ↦ s
  | some rest ↦ trim_prefix_from fuel prefix rest
]

unfoldable pub trim_start_matches : Text → Text → Text
unfolding trim_prefix_from strip_prefix
trim_start_matches prefix s = trim_prefix_from (length s) prefix s

-- `trim_start`, `trim_end`, `trim`.
unfoldable pub trim_start : Text → Text
trim_start [] = []
trim_start (c ∷ s) = let rest = trim_start s in if is_whitespace c then rest else c ∷ s

unfoldable pub trim : Text → Text
unfolding trim_start is_whitespace
trim s = reverse (trim_start (reverse (trim_start s)))

-- `split_once(c)` for a character: the parts before and behind its first occurrence.
unfoldable pub split_once : ℕ → Text → Option (Text × Text)
split_once d [] = none
split_once d (c ∷ s) =
    let rest = split_once d s in
    if c == d then some ([], s) else (do (a, b) ← rest; some (c ∷ a, b))

-- `str::lines`: a line ends at `\n` or `\r\n`, and a last line may lack its end. The characters
-- of the line that is being read are kept last first.
abbrev pub without_cr : Text → Text
without_cr [] = []
without_cr (c ∷ s) = if c == 13 then s else c ∷ s

abbrev pub last_line : Text → List Text
last_line [] = []
last_line (c ∷ s) = reverse (c ∷ s) ∷ []

unfoldable pub lines_from : Text → Text → List Text
lines_from line [] = last_line line
lines_from line (c ∷ s) = elim (c == 10) [
  | true ↦ reverse (without_cr line) ∷ lines_from [] s
  | false ↦ lines_from (c ∷ line) s
]

unfoldable pub lines : Text → List Text
unfolding lines_from
lines s = lines_from [] s

-- `replace("\r\n", "\n")`.
unfoldable pub normalize_newlines : Text → Text
normalize_newlines [] = []
normalize_newlines (c ∷ []) = c ∷ []
normalize_newlines (c ∷ d ∷ s) =
    let rest = normalize_newlines (d ∷ s) in if c == 13 && d == 10 then rest else c ∷ rest

-- `join(separator)`.
unfoldable pub join : Text → List Text → Text
join separator [] = []
join separator (s ∷ []) = s
join separator (s ∷ t ∷ rest) = s ++ separator ++ join separator (t ∷ rest)
