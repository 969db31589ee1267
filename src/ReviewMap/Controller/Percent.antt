-- ===== src/ReviewMap/Controller/Percent.antt =====
-- The progress that the controller of src/review_map/state.rs shows.
use ramo.Prelude.Text.{Text}
use ramo.Prelude.Machine.{usize_max, sat_mul}
use ramo.ReviewMap.Controller.{ReviewMapController, contains_path}
use ramo.ReviewMap.Controller.Actions.{reviewed_percent, is_reviewed, percent_for}
use native.Mathlib.Decide.{dec_lt}
use mathlib.Core.List.{[]}
use ramo.Prelude.{
  ℕ, Bool, ◌≤◌, List, suc, length, ◌*◌, keep, ◌/◌, ◌≡◌, ◌↔◌, all, arith, true, ◌∷◌, Bool-cases, inl,
  ap, inr, [], refl, min, ◌∙◌, sym,
}
use ramo.ReviewMap.{ReviewMapFile}
use native.Mathlib.Nat.{div-lt_iff_lt-mul}

length-keep :
    (f : ReviewMapFile → Bool) (files : List ReviewMapFile)
    → (length (keep f files) ≤ length files)
      × ((length (keep f files) ≡ length files) ↔ (all f files ≡ true))
length-keep f [] = (omega arith, (λ e. refl, λ e. refl))
length-keep f (file ∷ files) =
    let (l, (to, from)) = length-keep f files in
    elim (Bool-cases (f file)) [
      | inl e ↦ rw e (omega arith, (λ h. to (omega arith), λ h. ap suc (from h)))
      | inr e ↦ rw e (omega arith, (λ h. absurd (omega arith), λ h. absurd (cc)))
    ]

-- The percentage for a count of files.
percent_of :
    (reviewed n : ℕ)
    → reviewed ≤ suc n
    → (reviewed * 100 / suc n ≤ 100) × ((reviewed * 100 / suc n ≡ 100) ↔ (reviewed ≡ suc n))
percent_of reviewed n h =
    let (below, above) =
      div-lt_iff_lt-mul {k = suc n} {x = reviewed * 100} {y = 100} (omega arith) in
    let (below', above') =
      div-lt_iff_lt-mul {k = suc n} {x = reviewed * 100} {y = 101} (omega arith) in
    let top = above' (omega arith) in
    (
      omega (arith, top),
      (
        λ e. elim (dec_lt reviewed (suc n)) [
          | yes p ↦ absurd (omega (arith, e, above (omega arith)))
          | no p ↦ omega arith
        ],
        λ e. elim (dec_lt (reviewed * 100 / suc n) 100) [
          | yes p ↦ absurd (omega (arith, e, below p))
          | no p ↦ omega (arith, top)
        ],
      ),
    )

percent_for-eq-100 :
    (paths : List Text) (files : List ReviewMapFile)
    → length files * 100 ≤ usize_max
    → (percent_for paths files ≤ 100)
      × ((percent_for paths files ≡ 100)
          ↔ (all (λ (file : ReviewMapFile). contains_path paths file.path) files ≡ true))
unfolding percent_for
percent_for-eq-100 paths [] h = (omega arith, (λ e. refl, λ e. refl))
percent_for-eq-100 paths (file ∷ files) h =
    let is_in = λ (f : ReviewMapFile). contains_path paths f.path in
    let n = length files in
    let reviewed = length (keep is_in (file ∷ files)) in
    let (l, (to, from)) = length-keep is_in (file ∷ files) in
    let e : sat_mul reviewed 100 ≡ reviewed * 100 = omega (arith, l, h) in
    let (below, (full, back)) = percent_of reviewed n l in
    let f : min (sat_mul reviewed 100 / suc n) 100 ≡ reviewed * 100 / suc n =
      ap (λ x. min (x / suc n) 100) e ∙ omega (arith, below) in
    (omega arith, (λ g. to (full (sym f ∙ g)), λ g. f ∙ back (from g)))

-- The percentage of reviewed files is at most 100, and it is 100 exactly when every file is
-- reviewed, as long as a hundred times the number of files is in the range of `usize`.
pub reviewed_percent-eq-100 :
    (c : ReviewMapController)
    → length c.map.files * 100 ≤ usize_max
    → (reviewed_percent c ≤ 100)
      × ((reviewed_percent c ≡ 100)
          ↔ (all (λ (file : ReviewMapFile). is_reviewed c file.path) c.map.files ≡ true))
unfolding reviewed_percent
reviewed_percent-eq-100 c h = percent_for-eq-100 c.reviewed_paths c.map.files h
