-- ===== src/Sanitize/Tests.antt =====
-- Runs of `sanitize_terminal_text` of src/input/pager.rs.
use ramo.Prelude.{all, false, true, ◌∷◌, ◌≡◌, ◌++◌, Bool, refl}
use ramo.Sanitize.Safe.{Safe, is_shown, sanitize-Safe, sanitize_plain}
use ramo.Sanitize.{sanitize_terminal_text, looks_like_patch, esc}
use ramo.Prelude.Text.{Text, codes}

abbrev coloured : Text
coloured = esc ∷ codes "[31mred" ++ esc ∷ codes "]0;title" ++ 7 ∷ 13 ∷ 10 ∷ codes "end"

sanitize_test : sanitize_terminal_text coloured false ≡ codes "red" ++ 10 ∷ codes "end"
unfolding sanitize_terminal_text
sanitize_test = refl

sanitize_colours_test :
    sanitize_terminal_text coloured true ≡ esc ∷ codes "[31mred" ++ 10 ∷ codes "end"
unfolding sanitize_terminal_text
sanitize_colours_test = refl

looks_like_patch_test : looks_like_patch (codes "x\n--- a\n+++ b\n") ≡ true
unfolding looks_like_patch
looks_like_patch_test = refl

sanitize-Safe_example : Safe (sanitize_terminal_text coloured true)
sanitize-Safe_example = sanitize-Safe coloured true

sanitize_plain_example :
    (all is_shown (sanitize_terminal_text (codes "plain") false) ≡ true)
    × (all is_shown (codes "plain") ≡ true
        → (b : Bool) → sanitize_terminal_text (codes "plain") b ≡ codes "plain")
sanitize_plain_example = sanitize_plain (codes "plain")
