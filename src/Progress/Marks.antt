-- ===== src/Progress/Marks.antt =====
-- What marking lines as seen does (src/review/progress.rs).
use mathlib.Core.List.{[]}
use Prim.Native.Nat.{zero}
use ramo.Progress.Sets.{extend_keys-all, extend_keys-contains, same_key-eq}
use ramo.Prelude.Str.{text_eq}
use ramo.Prelude.Machine.{usize_max, sat_add}
use ramo.Prelude.{
  ℕ, Bool, List, ◌≡◌, ◌≤◌, length, some, true, all, ◌<◌, take, ◌+◌, suc, false, ◌∷◌, Option-cases,
  Bool-cases, arith, all-cons, inr, some_inj, inl, zero, subst, ◌∙◌, [], refl, sym, max,
}
use ramo.Prelude.Text.{Text}
use ramo.Progress.{
  ordinal_from, greatest, ChangedLineKey, observe_through, mark_file_reviewed, ReviewProgress,
  is_file_reviewed, contains_key, own_keys, ordinal, same_key, extend_keys,
}

pub ordinal_from-inside :
    (at : ℕ) (key : ChangedLineKey) (order : List ChangedLineKey) (place : ℕ)
    → ordinal_from at key order ≡ some place
    → (place < at + length order) × (contains_key order key ≡ true)
unfolding ordinal_from
ordinal_from-inside at key [] place e = cc
ordinal_from-inside at key (k ∷ rest) place e =
    elim (Option-cases (ordinal_from (suc at) key rest)) [
      | inr (later, f) ↦
          let g : later ≡ place = some_inj (rw f at e) in
          let (p, q) = ordinal_from-inside (suc at) key rest later f in
          (
            omega (arith, p, g),
            elim (Bool-cases (same_key key k)) [ inl b ↦ rw b refl | inr b ↦ rw b q ],
          )
      | inl f ↦ elim (Bool-cases (same_key key k)) [
        | inl b ↦
            let g : at ≡ place = some_inj (rw b at (rw f at e)) in (omega (arith, g), rw b refl)
        | inr b ↦ absurd (cc (rw b at (rw f at e)))
      ]
    ]

-- The greatest place is at least that of each key, and it is inside the order.
greatest-ge :
    (p : ReviewProgress) (keys : List ChangedLineKey) (key : ChangedLineKey) (place : ℕ)
    → contains_key keys key ≡ true
    → ordinal p key ≡ some place
    → (top : ℕ) × (greatest p keys ≡ some top) × (place ≤ top)
unfolding greatest
greatest-ge p [] key place m o = cc
greatest-ge p (k ∷ keys) key place m o = elim (Bool-cases (same_key key k)) [
  | inl b ↦
      let f : ordinal p k ≡ some place =
        subst (λ j. ordinal p j ≡ some place) (same_key-eq key k b) o in
      elim (Option-cases (greatest p keys)) [
        | inl g ↦ rw (f, greatest) (rw g (place, refl, omega arith))
        | inr (later, g) ↦ rw (f, greatest) (rw g (max place later, refl, omega arith))
      ]
  | inr b ↦
      let (top, g, l) = greatest-ge p keys key place (rw b at m) o in
      elim (Option-cases (ordinal p k)) [
        | inl f ↦ rw (f, greatest) (top, g, l)
        | inr (first, f) ↦ rw (f, greatest) (rw g (max first top, refl, omega arith))
      ]
]

all-take :
    (f : ChangedLineKey → Bool) (m n : ℕ) (keys : List ChangedLineKey)
    → m ≤ n
    → all f (take n keys) ≡ true
    → all f (take m keys) ≡ true
all-take f zero n keys h a = refl
all-take f (suc m) zero keys h a = absurd (omega arith)
all-take f (suc m) (suc n) [] h a = refl
all-take f (suc m) (suc n) (k ∷ keys) h a =
    let (p, q) = all-cons f k (take n keys) a in rw p (all-take f m n keys (omega arith) q)

-- When a line is observed, every line of the order up to its place is reviewed, and what was
-- reviewed stays so. The order has no more lines than `usize` counts.
pub observe_through-reviewed :
    (p : ReviewProgress) (keys : List ChangedLineKey) (key : ChangedLineKey) (place : ℕ)
    → length p.ordered ≤ usize_max
    → contains_key keys key ≡ true
    → ordinal p key ≡ some place
    → (all (contains_key (observe_through p keys).0.reviewed) (take (suc place) p.ordered) ≡ true)
      × ((j : ChangedLineKey)
          → contains_key p.reviewed j ≡ true
          → contains_key (observe_through p keys).0.reviewed j ≡ true)
unfolding observe_through
observe_through-reviewed p keys key place b m o =
    let (top, g, l) = greatest-ge p keys key place m o in
    let inside = (ordinal_from-inside 0 key p.ordered place o).0 in
    let seen = take (sat_add top 1) p.ordered in
    rw (g, observe_through)
      (
        all-take (contains_key (extend_keys p.reviewed seen)) (suc place) (sat_add top 1) p.ordered
            (omega arith) (extend_keys-all p.reviewed seen),
        λ j h. (extend_keys-contains p.reviewed seen j).0 h,
      )

pub own_keys-contains :
    (file_id : Text) (keys : List ChangedLineKey) (j : ChangedLineKey)
    → contains_key (own_keys file_id keys) j ≡ true
    → (text_eq j.file_id file_id ≡ true) × (contains_key keys j ≡ true)
own_keys-contains file_id [] j h = cc
own_keys-contains file_id (k ∷ keys) j h = elim (Bool-cases (text_eq k.file_id file_id)) [
  | inr e ↦
      let (p, q) = own_keys-contains file_id keys j (rw e at h) in
      (p, elim (Bool-cases (same_key j k)) [ inl b ↦ rw b refl | inr b ↦ rw b q ])
  | inl e ↦ elim (Bool-cases (same_key j k)) [
    | inl b ↦ (
      subst (λ (x : ChangedLineKey). text_eq x.file_id file_id ≡ true) (sym (same_key-eq j k b)) e,
      rw b refl,
    )
    | inr b ↦ let (p, q) = own_keys-contains file_id keys j (rw b at (rw e at h)) in (p, rw b q)
  ]
]

-- A file that is marked is reviewed, and the lines of no other file change.
pub mark_file_reviewed-is_file_reviewed :
    (p : ReviewProgress) (file_id : Text)
    → (is_file_reviewed (mark_file_reviewed p file_id).0 file_id ≡ true)
      × ((j : ChangedLineKey)
          → text_eq j.file_id file_id ≡ false
          → contains_key (mark_file_reviewed p file_id).0.reviewed j ≡ contains_key p.reviewed j)
unfolding mark_file_reviewed is_file_reviewed
mark_file_reviewed-is_file_reviewed p file_id =
    let own = own_keys file_id p.ordered in
    (
      extend_keys-all p.reviewed own,
      λ j e.
          let (stays, added, back) = extend_keys-contains p.reviewed own j in
          elim (Bool-cases (contains_key (extend_keys p.reviewed own) j)) [
            | inl a ↦ elim (back a) [
              | inl b ↦ a ∙ sym b
              | inr b ↦ absurd (cc (e, (own_keys-contains file_id p.ordered j b).0))
            ]
            | inr a ↦ elim (Bool-cases (contains_key p.reviewed j)) [
              | inl b ↦ absurd (cc (a, stays b))
              | inr b ↦ a ∙ sym b
            ]
          ],
    )
