-- ===== src/Prelude/Split.antt =====
-- More methods of `str`: `split`, `replace` and the comparison of texts.
use Prim.Native.Nat.{ℕ, ◌+◌}
use mathlib.Core.Bool.{Bool, true, false, ◌&&◌}
use mathlib.Core.List.{List, [], ◌∷◌, reverse, map}
use mathlib.Core.Option.{Option, none, some}
use ramo.Prelude.Tests.{if◌then◌else◌, ◌==◌, ltb, leb}
use ramo.Prelude.Str.{strip_prefix, starts_with}
use ramo.Prelude.Text.{Text, is_whitespace}

abbrev pub onto_first : ℕ → List Text → List Text
onto_first c [] = (c ∷ []) ∷ []
onto_first c (part ∷ rest) = (c ∷ part) ∷ rest

-- `split(c)`: the parts between the occurrences of a character, one at least.
unfoldable pub split_on : ℕ → Text → List Text
split_on d [] = [] ∷ []
split_on d (c ∷ s) = let rest = split_on d s in if c == d then [] ∷ rest else onto_first c rest

-- `split_whitespace`.
abbrev fields_after : Bool → ℕ → List Text → List Text
fields_after true c rest = onto_first c rest
fields_after false c rest = (c ∷ []) ∷ rest

abbrev starts_field : Text → Bool
starts_field [] = false
starts_field (c ∷ s) = if is_whitespace c then false else true

unfoldable pub split_whitespace : Text → List Text
unfolding is_whitespace
split_whitespace [] = []
split_whitespace (c ∷ s) =
    let rest = split_whitespace s in
    if is_whitespace c then rest else fields_after (starts_field s) c rest

-- `replace(a, b)` for characters.
abbrev pub replace_char : ℕ → ℕ → Text → Text
replace_char from to s = map (λ c. if c == from then to else c) s

abbrev pub ascii_lower : ℕ → ℕ
ascii_lower c = if leb b'A' c && leb c b'Z' then c + 32 else c

abbrev pub to_ascii_lowercase : Text → Text
to_ascii_lowercase s = map ascii_lower s

unfoldable pub strip_suffix : Text → Text → Option Text
unfolding strip_prefix
strip_suffix suffix s = elim (strip_prefix (reverse suffix) (reverse s)) [
  | none ↦ none
  | some rest ↦ some (reverse rest)
]

abbrev pub ends_with : Text → Text → Bool
ends_with suffix s = starts_with (reverse suffix) (reverse s)

-- The order of texts, which is that of their bytes in UTF-8.
unfoldable pub text_lt : Text → Text → Bool
text_lt [] [] = false
text_lt [] (d ∷ t) = true
text_lt (c ∷ s) [] = false
text_lt (c ∷ s) (d ∷ t) = let rest = text_lt s t in if c == d then rest else ltb c d
