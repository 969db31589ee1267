-- ===== src/Diff/Paths/Pieces.antt =====
-- How git quotes a path, and how `unquote_git_path` of crates/ramo-core/src/diff/parser.rs reads
-- each piece of it.

use ramo.Diff.Paths.{escape, unescape_from, octal, is_octal, escaped}
use Prim.Native.Nat.{zero}
use mathlib.Core.List.{[]}
use ramo.Prelude.Text.{Text, codes}
use ramo.Prelude.Utf8.{encode_char}
use ramo.Prelude.{
  ℕ, List, ◌∷◌, if◌then◌else◌, ◌≤◌, Each, ◌<◌, ◌+◌, ◌++◌, ◌==◌, length, arith, ◌≡◌, ◌/◌, [], suc,
  ◌%◌, leb, ◌∙◌, ◌&&◌, ap, refl, zero, true, ◌*◌, ◌-◌, false, subst, Bool-cases, sym, inl, inr,
  ==_iff,
}

-- `\ooo` for a byte.
abbrev pub octal_digits : ℕ → Text
octal_digits b = b'\\' ∷ (b'0' + b / 64) ∷ (b'0' + b / 8 % 8) ∷ (b'0' + b % 8) ∷ []

abbrev pub octal_bytes : List ℕ → Text
octal_bytes [] = []
octal_bytes (b ∷ bytes) = octal_digits b ++ octal_bytes bytes

-- How git writes a character in a quoted path: a letter for the control characters that have one,
-- printable ASCII as it is, and the bytes of any other in octal.
unfoldable pub quoted_char : ℕ → Text
unfolding encode_char
quoted_char c =
    if c == 11
    then codes "\\v"
    else if c == 7
    then codes "\\a"
    else if c == 8
    then codes "\\b"
    else if c == 9
    then codes "\\t"
    else if c == 10
    then codes "\\n"
    else if c == 12
    then codes "\\f"
    else if c == 13
    then codes "\\r"
    else if c == b'"'
    then codes "\\\""
    else if c == b'\\'
    then codes "\\\\"
    else if leb 0x20 c && leb c 0x7E
    then c ∷ []
    else octal_bytes (encode_char c)

unfoldable pub quoted : Text → Text
unfolding quoted_char
quoted [] = []
quoted (c ∷ s) = quoted_char c ++ quoted s

abbrev pub git_quoted : Text → Text
git_quoted path = b'"' ∷ (quoted path ++ b'"' ∷ [])

octal_step :
    (b fuel : ℕ) (rest : Text)
    → b < 256
    → unescape_from (suc fuel) (octal_digits b ++ rest) ≡ b ∷ unescape_from fuel rest
unfolding unescape_from escape octal is_octal
octal_step b fuel rest h =
    let x : (leb b'0' (b'0' + b / 64) && leb (b'0' + b / 64) b'7') ≡ true = ground arith in
    let y : (leb b'0' (b'0' + b / 8 % 8) && leb (b'0' + b / 8 % 8) b'7') ≡ true = ground arith in
    let z : (leb b'0' (b'0' + b % 8) && leb (b'0' + b % 8) b'7') ≡ true = ground arith in
    let e : ((((0 * 8 + ((b'0' + b / 64) - b'0')) % 256) * 8 + ((b'0' + b / 8 % 8) - b'0'))
              % 256
              * 8
            + ((b'0' + b % 8) - b'0'))
          % 256
        ≡ b =
      omega arith in
    rw (x, y, z, e) refl

-- Reading a piece takes some of the fuel, no more than it has characters.
abbrev pub Reads : ℕ → Text → List ℕ → Text → Type 0
Reads fuel piece bytes rest =
    (left : ℕ) × (fuel ≤ left + length piece)
    × (unescape_from fuel (piece ++ rest) ≡ bytes ++ unescape_from left rest)

octal_bytes-Reads :
    (bytes : List ℕ) (fuel : ℕ) (rest : Text)
    → Each (λ b. b < 256) bytes
    → length (octal_bytes bytes) ≤ fuel
    → Reads fuel (octal_bytes bytes) bytes rest
octal_bytes-Reads [] fuel rest h l = (fuel, omega arith, refl)
octal_bytes-Reads (b ∷ bytes) zero rest h l = absurd (omega arith)
octal_bytes-Reads (b ∷ bytes) (suc fuel) rest h l =
    let (left, m, e) = octal_bytes-Reads bytes fuel rest h.1 (omega arith) in
    (left, omega (arith, m), octal_step b fuel (octal_bytes bytes ++ rest) h.0 ∙ ap (b ∷◌) e)

encode_char-bytes : (c : ℕ) → c ≤ 0x10FFFF → Each (λ b. b < 256) (encode_char c)
unfolding encode_char
encode_char-bytes c h = ground arith

encode_char_ascii : (c : ℕ) → c < 0x80 → encode_char c ≡ c ∷ []
unfolding encode_char
encode_char_ascii c h = ground arith

-- A character that is written as it is.
plain_step :
    (c fuel : ℕ) (rest : Text)
    → (c == b'\\') ≡ false
    → c < 0x80
    → unescape_from (suc fuel) (c ∷ rest) ≡ c ∷ unescape_from fuel rest
unfolding unescape_from
plain_step c fuel rest h l =
    rw (h, unescape_from) (ap (◌++ unescape_from fuel rest) (encode_char_ascii c l))

-- What a letter behind a backslash stands for.
letter_step :
    (d b fuel : ℕ) (rest : Text)
    → is_octal d ≡ false
    → escaped d ≡ b ∷ []
    → unescape_from (suc fuel) (b'\\' ∷ d ∷ rest) ≡ b ∷ unescape_from fuel rest
unfolding unescape_from escape
letter_step d b fuel rest h e = rw (h, e) refl

letter_Reads :
    (c d fuel : ℕ) (rest : Text)
    → c < 0x80
    → is_octal d ≡ false
    → escaped d ≡ c ∷ []
    → quoted_char c ≡ b'\\' ∷ d ∷ []
    → Reads (suc fuel) (quoted_char c) (encode_char c) rest
letter_Reads c d fuel rest l h e q =
    subst (λ u. Reads (suc fuel) u (encode_char c) rest) (sym q)
      (subst (λ u. Reads (suc fuel) (b'\\' ∷ d ∷ []) u rest) (sym (encode_char_ascii c l))
        (fuel, omega arith, letter_step d c fuel rest h e))

pub quoted_char-Reads :
    (c fuel : ℕ) (rest : Text)
    → c ≤ 0x10FFFF
    → (c == 11) ≡ false
    → length (quoted_char c) ≤ suc fuel
    → Reads (suc fuel) (quoted_char c) (encode_char c) rest
unfolding quoted_char is_octal escaped
quoted_char-Reads c fuel rest b v l = elim (Bool-cases (c == 7)) [
  | inl e ↦
      subst (λ x. Reads (suc fuel) (quoted_char x) (encode_char x) rest) (sym ((==_iff c 7).0 e))
        (letter_Reads 7 b'a' fuel rest (omega arith) refl refl refl)
  | inr e0 ↦ elim (Bool-cases (c == 8)) [
    | inl e ↦
        subst (λ x. Reads (suc fuel) (quoted_char x) (encode_char x) rest) (sym ((==_iff c 8).0 e))
          (letter_Reads 8 b'b' fuel rest (omega arith) refl refl refl)
    | inr e1 ↦ elim (Bool-cases (c == 9)) [
      | inl e ↦
          subst (λ x. Reads (suc fuel) (quoted_char x) (encode_char x) rest)
            (sym ((==_iff c 9).0 e)) (letter_Reads 9 b't' fuel rest (omega arith) refl refl refl)
      | inr e2 ↦ elim (Bool-cases (c == 10)) [
        | inl e ↦
            subst (λ x. Reads (suc fuel) (quoted_char x) (encode_char x) rest)
              (sym ((==_iff c 10).0 e))
              (letter_Reads 10 b'n' fuel rest (omega arith) refl refl refl)
        | inr e3 ↦ elim (Bool-cases (c == 12)) [
          | inl e ↦
              subst (λ x. Reads (suc fuel) (quoted_char x) (encode_char x) rest)
                (sym ((==_iff c 12).0 e))
                (letter_Reads 12 b'f' fuel rest (omega arith) refl refl refl)
          | inr e4 ↦ elim (Bool-cases (c == 13)) [
            | inl e ↦
                subst (λ x. Reads (suc fuel) (quoted_char x) (encode_char x) rest)
                  (sym ((==_iff c 13).0 e))
                  (letter_Reads 13 b'r' fuel rest (omega arith) refl refl refl)
            | inr e5 ↦ elim (Bool-cases (c == b'"')) [
              | inl e ↦
                  subst (λ x. Reads (suc fuel) (quoted_char x) (encode_char x) rest)
                    (sym ((==_iff c b'"').0 e))
                    (letter_Reads b'"' b'"' fuel rest (omega arith) refl refl refl)
              | inr e6 ↦ elim (Bool-cases (c == b'\\')) [
                | inl e ↦
                    subst (λ x. Reads (suc fuel) (quoted_char x) (encode_char x) rest)
                      (sym ((==_iff c b'\\').0 e))
                      (letter_Reads b'\\' b'\\' fuel rest (omega arith) refl refl refl)
                | inr e7 ↦ elim (Bool-cases (leb 0x20 c && leb c 0x7E)) [
                  | inl e ↦
                      let q : quoted_char c ≡ c ∷ [] =
                        rw (v, e0, e1, e2, e3, e4, e5, e6, e7, e, quoted_char) refl in
                      subst (λ u. Reads (suc fuel) u (encode_char c) rest) (sym q)
                        (subst (λ u. Reads (suc fuel) (c ∷ []) u rest)
                          (sym (encode_char_ascii c (ground arith)))
                          (fuel, omega arith, plain_step c fuel rest e7 (ground arith)))
                  | inr e ↦
                      let q : quoted_char c ≡ octal_bytes (encode_char c) =
                        rw (v, e0, e1, e2, e3, e4, e5, e6, e7, e, quoted_char) refl in
                      subst (λ u. Reads (suc fuel) u (encode_char c) rest) (sym q)
                        (octal_bytes-Reads (encode_char c) (suc fuel) rest (encode_char-bytes c b)
                          (subst (λ u. length u ≤ suc fuel) q l))
                ]
              ]
            ]
          ]
        ]
      ]
    ]
  ]
]

pub quoted_char_pos : (c : ℕ) → 1 ≤ length (quoted_char c)
unfolding quoted_char encode_char
quoted_char_pos c = ground arith
