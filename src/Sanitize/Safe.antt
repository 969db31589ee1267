-- ===== src/Sanitize/Safe.antt =====
-- What `sanitize_terminal_text` of src/input/pager.rs lets through to the terminal.
use ramo.Prelude.Str.{normalize_newlines}
use ramo.Prelude.{
  ℕ, Bool, [], all, false, ◌==◌, ◌≡◌, ◌++◌, ◌∷◌, ◌||◌, true, not, arith, refl, ◌⊎◌, ap, inl, inr,
  append_assoc, all-append, all-cons,
}
use ramo.Prelude.Text.{Text}
use ramo.Sanitize.{
  is_control, step, scan_from, sanitize_terminal_text, State, Scan, at_state, is_sgr_param, esc,
}

-- Newlines, tabs, and characters that are no control characters.
unfoldable pub is_shown : ℕ → Bool
unfolding is_control
is_shown c = c == 10 || c == 9 || not (is_control c)

-- Text in which each escape character begins a sequence that sets colours.
pub data Safe : Text → Type 0 where
  blank : Safe []
  shown : (c : ℕ) (s : Text) → is_shown c ≡ true → Safe s → Safe (c ∷ s)
  colours : (p s : Text) → all is_sgr_param p ≡ true → Safe s → Safe (esc ∷ b'[' ∷ (p ++ b'm' ∷ s))

step_pushes :
    (b : Bool) (st : State) (p : Text) (c : ℕ)
    → ((step b st p c).1 ≡ [])
      ⊎ (((step b st p c).1 ≡ c ∷ []) × (is_shown c ≡ true))
      ⊎ (((step b st p c).1 ≡ esc ∷ b'[' ∷ (p ++ b'm' ∷ [])) × (all is_sgr_param p ≡ true))
unfolding step is_shown
step_pushes b State.ground p c = ground arith
step_pushes b st p c = ground arith

step-Safe :
    (b : Bool) (st : State) (p : Text) (c : ℕ) (s : Text) → Safe s → Safe ((step b st p c).1 ++ s)
step-Safe b st p c s h = elim (step_pushes b st p c) [
  | inl e ↦ rw e h
  | inr (inl (e, k)) ↦ rw e (shown c s k h)
  | inr (inr (e, k)) ↦ rw (e, append_assoc) (colours p s k h)
]

scan_from-Safe : (b : Bool) (scan : Scan) (s : Text) → Safe (scan_from b scan s)
unfolding scan_from
scan_from-Safe b scan [] = blank
scan_from-Safe b scan (c ∷ s) =
    step-Safe b scan.state scan.params c _ (scan_from-Safe b (step b scan.state scan.params c).0 s)

-- Whatever the input holds, the output has no control character but newline and tab, except
-- escape characters that begin a sequence which sets colours.
pub sanitize-Safe : (s : Text) (b : Bool) → Safe (sanitize_terminal_text s b)
unfolding sanitize_terminal_text
sanitize-Safe s b = scan_from-Safe b (at_state State.ground []) (normalize_newlines s)

step_shown : (st : State) (p : Text) (c : ℕ) → all is_shown (step false st p c).1 ≡ true
unfolding step is_shown
step_shown State.ground p c = ground arith
step_shown st p c = ground arith

scan_from_shown : (scan : Scan) (s : Text) → all is_shown (scan_from false scan s) ≡ true
unfolding scan_from
scan_from_shown scan [] = refl
scan_from_shown scan (c ∷ s) =
    all-append is_shown (step false scan.state scan.params c).1 _
      (step_shown scan.state scan.params c)
      (scan_from_shown (step false scan.state scan.params c).0 s)

step_plain :
    (b : Bool) (p : Text) (c : ℕ)
    → is_shown c ≡ true
    → step b State.ground p c ≡ (at_state State.ground p, c ∷ [])
unfolding step is_shown
step_plain b p c h = ground arith

not_cr : (c : ℕ) → is_shown c ≡ true → (c == 13) ≡ false
unfolding is_shown
not_cr c h = ground arith

scan_from_plain :
    (b : Bool) (p s : Text) → all is_shown s ≡ true → scan_from b (at_state State.ground p) s ≡ s
unfolding scan_from
scan_from_plain b p [] h = refl
scan_from_plain b p (c ∷ s) h =
    rw (step_plain b p c (all-cons is_shown c _ h).0)
      (ap (c ∷◌) (scan_from_plain b p s (all-cons is_shown c _ h).1))

normalize_plain : (s : Text) → all is_shown s ≡ true → normalize_newlines s ≡ s
unfolding normalize_newlines
normalize_plain [] h = refl
normalize_plain (c ∷ []) h = refl
normalize_plain (c ∷ d ∷ s) h = ground (
  arith,
  not_cr c (all-cons is_shown c (d ∷ s) h).0,
  normalize_plain (d ∷ s) (all-cons is_shown c (d ∷ s) h).1,
)

-- With colours refused, every character of the output is a newline, a tab or no control
-- character, and text of such characters alone is left as it is, colours refused or not.
pub sanitize_plain :
    (s : Text)
    → (all is_shown (sanitize_terminal_text s false) ≡ true)
      × (all is_shown s ≡ true → (b : Bool) → sanitize_terminal_text s b ≡ s)
unfolding sanitize_terminal_text
sanitize_plain s = (
  scan_from_shown (at_state State.ground []) (normalize_newlines s),
  λ h b. rw (normalize_plain s h) (scan_from_plain b [] s h),
)
