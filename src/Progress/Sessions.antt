-- ===== src/Progress/Sessions.antt =====
-- Sequences of calls of src/review/progress.rs.
use ramo.Progress.Changed.{order_of-IsChangedLine, IsChangedLine}
use ramo.Prelude.Str.{is_some}
use ramo.Progress.Marks.{own_keys-contains, ordinal_from-inside}
use Prim.Native.Nat.{zero}
use ramo.Prelude.Machine.{sat_add}
use ramo.Progress.Sets.{extend_keys-contains, same_key-eq}
use mathlib.Core.List.{[]}
use ramo.Diff.{DiffFile}
use ramo.Prelude.Text.{Text}
use ramo.Prelude.{
  List, ℕ, Bool-cases, Bool, ◌∷◌, ◌≡◌, keep, take, inl, [], false, true, Option-cases, inr, suc,
  subst, zero, sym, refl, ◌↔◌, ◌∙◌,
}
use ramo.Progress.{
  new, ReviewProgress, observe_through, insert_key, extend_keys, ChangedLineKey, rebuild_order,
  contains_key, mark_file_reviewed, replace_files, same_key, greatest, own_keys, ordinal, order_of,
}

-- No key stands twice in a set.
abbrev pub Distinct : List ChangedLineKey → Type 0
Distinct [] = Unit
Distinct (key ∷ keys) = (contains_key keys key ≡ false) × Distinct keys

-- The reviewed lines are places of the order, each counted once.
abbrev pub IsInside : ReviewProgress → Type 0
IsInside p =
    ((j : ChangedLineKey) → contains_key p.reviewed j ≡ true → contains_key p.ordered j ≡ true)
    × Distinct p.reviewed

-- The calls that change the progress.
pub data Call : Type 0 where
  observe : List ChangedLineKey → Call
  mark : Text → Call
  replace : List DiffFile → Call

unfoldable pub perform : ReviewProgress → Call → ReviewProgress
unfolding observe_through mark_file_reviewed replace_files
perform p (observe keys) = (observe_through p keys).0
perform p (mark file_id) = (mark_file_reviewed p file_id).0
perform p (replace files) = replace_files p files

unfoldable pub perform_all : ReviewProgress → List Call → ReviewProgress
unfolding perform
perform_all p [] = p
perform_all p (call ∷ calls) = perform_all (perform p call) calls

insert_key-Distinct :
    (keys : List ChangedLineKey) (key : ChangedLineKey)
    → Distinct keys
    → Distinct (insert_key keys key)
unfolding insert_key
insert_key-Distinct keys key d = elim (Bool-cases (contains_key keys key)) [
  | inl e ↦ rw e d
  | inr e ↦ rw e (e, d)
]

extend_keys-Distinct :
    (keys more : List ChangedLineKey) → Distinct keys → Distinct (extend_keys keys more)
unfolding extend_keys
extend_keys-Distinct keys [] d = d
extend_keys-Distinct keys (key ∷ more) d =
    extend_keys-Distinct (insert_key keys key) more (insert_key-Distinct keys key d)

keep-contains :
    (f : ChangedLineKey → Bool) (keys : List ChangedLineKey) (j : ChangedLineKey)
    → contains_key (keep f keys) j ≡ true
    → (f j ≡ true) × (contains_key keys j ≡ true)
keep-contains f [] j h = cc
keep-contains f (k ∷ keys) j h = elim (Bool-cases (f k)) [
  | inr e ↦
      let (p, q) = keep-contains f keys j (rw e at h) in
      (p, elim (Bool-cases (same_key j k)) [ inl b ↦ rw b refl | inr b ↦ rw b q ])
  | inl e ↦ elim (Bool-cases (same_key j k)) [
    | inl b ↦ (subst (λ x. f x ≡ true) (sym (same_key-eq j k b)) e, rw b refl)
    | inr b ↦ let (p, q) = keep-contains f keys j (rw b at (rw e at h)) in (p, rw b q)
  ]
]

keep-Distinct :
    (f : ChangedLineKey → Bool) (keys : List ChangedLineKey)
    → Distinct keys
    → Distinct (keep f keys)
keep-Distinct f [] d = tt
keep-Distinct f (k ∷ keys) (p, d) = elim (Bool-cases (f k)) [
  | inr e ↦ rw e (keep-Distinct f keys d)
  | inl e ↦ rw e (
    elim (Bool-cases (contains_key (keep f keys) k)) [
      | inl b ↦ absurd (cc (p, (keep-contains f keys k b).1))
      | inr b ↦ b
    ],
    keep-Distinct f keys d,
  )
]

take-contains :
    (n : ℕ) (keys : List ChangedLineKey) (j : ChangedLineKey)
    → contains_key (take n keys) j ≡ true
    → contains_key keys j ≡ true
take-contains zero keys j h = cc
take-contains (suc n) [] j h = cc
take-contains (suc n) (k ∷ keys) j h = elim (Bool-cases (same_key j k)) [
  | inl b ↦ rw b refl
  | inr b ↦ rw b (take-contains n keys j (rw b at h))
]

extended-IsInside :
    (p : ReviewProgress) (more : List ChangedLineKey)
    → ((j : ChangedLineKey) → contains_key more j ≡ true → contains_key p.ordered j ≡ true)
    → IsInside p
    → IsInside (record p { reviewed = extend_keys p.reviewed more })
extended-IsInside p more h (inside, d) = (
  λ j e. elim ((extend_keys-contains p.reviewed more j).2 e) [ inl a ↦ inside j a | inr a ↦ h j a ],
  extend_keys-Distinct p.reviewed more d,
)

observed-IsInside :
    (p : ReviewProgress) (keys : List ChangedLineKey)
    → IsInside p
    → IsInside (observe_through p keys).0
unfolding observe_through
observed-IsInside p keys h = elim (Option-cases (greatest p keys)) [
  | inl e ↦ rw (e, observe_through) h
  | inr (top, e) ↦
      rw (e, observe_through)
        (extended-IsInside p (take (sat_add top 1) p.ordered)
          (take-contains (sat_add top 1) p.ordered) h)
]

perform-IsInside : (p : ReviewProgress) (call : Call) → IsInside p → IsInside (perform p call)
unfolding perform observe_through mark_file_reviewed replace_files rebuild_order
perform-IsInside p (observe keys) h = observed-IsInside p keys h
perform-IsInside p (mark file_id) h =
    extended-IsInside p (own_keys file_id p.ordered)
      (λ j e. (own_keys-contains file_id p.ordered j e).1) h
perform-IsInside p (replace files) h =
    let next = rebuild_order p files in
    let known = λ (key : ChangedLineKey). is_some (ordinal next key) in
    (
      λ j e. elim (Option-cases (ordinal next j)) [
        | inl f ↦ absurd (cc (rw f at (keep-contains known p.reviewed j e).0))
        | inr (place, f) ↦ (ordinal_from-inside 0 j next.ordered place f).1
      ],
      keep-Distinct known p.reviewed h.1,
    )

perform_all_from :
    (p : ReviewProgress) (calls : List Call) → IsInside p → IsInside (perform_all p calls)
unfolding perform_all
perform_all_from p [] h = h
perform_all_from p (call ∷ calls) h =
    perform_all_from (perform p call) calls (perform-IsInside p call h)

-- The files at hand after some calls.
abbrev pub at_hand : List DiffFile → List Call → List DiffFile
at_hand files [] = files
at_hand files (observe keys ∷ calls) = at_hand files calls
at_hand files (mark file_id ∷ calls) = at_hand files calls
at_hand files (replace next ∷ calls) = at_hand next calls

observed-ordered :
    (p : ReviewProgress) (keys : List ChangedLineKey)
    → (observe_through p keys).0.ordered ≡ p.ordered
unfolding observe_through
observed-ordered p keys = elim (Option-cases (greatest p keys)) [
  | inl e ↦ rw (e, observe_through) refl
  | inr (top, e) ↦ rw (e, observe_through) refl
]

-- The order is that of the files at hand.
perform_all-ordered :
    (files : List DiffFile) (calls : List Call) (p : ReviewProgress)
    → p.ordered ≡ order_of files
    → (perform_all p calls).ordered ≡ order_of (at_hand files calls)
unfolding perform_all perform mark_file_reviewed replace_files rebuild_order
perform_all-ordered files [] p e = e
perform_all-ordered files (observe keys ∷ calls) p e =
    perform_all-ordered files calls (observe_through p keys).0 (observed-ordered p keys ∙ e)
perform_all-ordered files (mark file_id ∷ calls) p e =
    perform_all-ordered files calls (mark_file_reviewed p file_id).0 e
perform_all-ordered files (replace next ∷ calls) p e =
    perform_all-ordered next calls (replace_files p next) refl

-- What the progress is for some files: its order holds their changed lines and no other key, the
-- reviewed lines are among those, and none stands twice among the reviewed ones.
abbrev pub IsSound : List DiffFile → ReviewProgress → Type 0
IsSound files p =
    ((key : ChangedLineKey) → (contains_key p.ordered key ≡ true) ↔ IsChangedLine files key)
    × ((key : ChangedLineKey) → contains_key p.reviewed key ≡ true → IsChangedLine files key)
    × Distinct p.reviewed

-- After every sequence of observations, marks and reloads, the order holds the changed lines of the
-- files that were loaded last and no other key, every reviewed line is a changed line of those files,
-- and none is counted twice.
pub perform_all-IsSound :
    (files : List DiffFile) (calls : List Call)
    → IsSound (at_hand files calls) (perform_all (new files) calls)
unfolding new rebuild_order
perform_all-IsSound files calls =
    let (inside, distinct) = perform_all_from (new files) calls ((λ j e. cc), tt) in
    let order = perform_all-ordered files calls (new files) refl in
    let known = λ (key : ChangedLineKey). order_of-IsChangedLine (at_hand files calls) key in
    (
      λ key.
          subst (λ keys. (contains_key keys key ≡ true) ↔ IsChangedLine (at_hand files calls) key)
            (sym order) (known key),
      λ key e. (known key).0 (subst (λ keys. contains_key keys key ≡ true) order (inside key e)),
      distinct,
    )
