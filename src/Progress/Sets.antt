-- ===== src/Progress/Sets.antt =====
-- The sets of keys of src/review/progress.rs.
use mathlib.Core.List.{[]}
use mathlib.Core.Bool.{false}
use ramo.Prelude.Str.{text_eq, text_eq_refl, text_eq→eq}
use ramo.Prelude.{
  Bool, List, ◌&&◌, ◌||◌, ◌≡◌, all, true, arith, ◌⊎◌, ◌∷◌, ap, ==_iff, inl, Bool-cases, refl, inr,
  subst, ◌∙◌, sym, [],
}
use ramo.Progress.{
  same_side, same_key, insert_key, extend_keys, ChangedSide, ChangedLineKey, contains_key,
  old_changed, new_changed,
}

same_side-eq : (a b : ChangedSide) → same_side a b ≡ true → a ≡ b
unfolding same_side
same_side-eq (old_changed m) (old_changed n) e = ap old_changed ((==_iff m n).0 e)
same_side-eq (new_changed m) (new_changed n) e = ap new_changed ((==_iff m n).0 e)
same_side-eq (old_changed m) (new_changed n) e = cc
same_side-eq (new_changed m) (old_changed n) e = cc

same_side_refl : (a : ChangedSide) → same_side a a ≡ true
unfolding same_side
same_side_refl (old_changed m) = (==_iff m m).1 refl
same_side_refl (new_changed m) = (==_iff m m).1 refl

both : (a b : Bool) → (a && b) ≡ true → (a ≡ true) × (b ≡ true)
both a b e = ground arith

either : (a b : Bool) → (a || b) ≡ true → (a ≡ true) ⊎ (b ≡ true)
either true b e = inl refl
either false b e = inr e

pub same_key-eq : (a b : ChangedLineKey) → same_key a b ≡ true → a ≡ b
unfolding same_key
same_key-eq a b e =
    let (p, q) = both (text_eq a.file_id b.file_id) (same_side a.changed b.changed) e in
    let f = text_eq→eq a.file_id b.file_id p in
    let g = same_side-eq a.changed b.changed q in λ i. record { file_id = f i; changed = g i }

pub same_key_refl : (a : ChangedLineKey) → same_key a a ≡ true
unfolding same_key
same_key_refl a = rw (text_eq_refl a.file_id, same_side_refl a.changed) refl

-- Inserting keeps what was there and adds the key, and nothing else.
insert_key-contains :
    (keys : List ChangedLineKey) (key j : ChangedLineKey)
    → (contains_key (insert_key keys key) key ≡ true)
      × (contains_key keys j ≡ true → contains_key (insert_key keys key) j ≡ true)
      × (contains_key (insert_key keys key) j ≡ true → (contains_key keys j ≡ true) ⊎ (j ≡ key))
unfolding insert_key
insert_key-contains keys key j = elim (Bool-cases (contains_key keys key)) [
  | inl e ↦ rw e (e, λ h. h, λ h. inl h)
  | inr e ↦ rw e (
    ap (◌|| contains_key keys key) (same_key_refl key),
    λ h. ap (same_key j key ||◌) h ∙ true_right (same_key j key),
    λ h. elim (either (same_key j key) (contains_key keys j) h) [
      | inl a ↦ inr (same_key-eq j key a)
      | inr a ↦ inl a
    ],
  )
]
  where
    true_right : (b : Bool) → (b || true) ≡ true
    true_right true = refl
    true_right false = refl

-- The union has what the set had, every added key, and nothing else.
pub extend_keys-contains :
    (keys more : List ChangedLineKey) (j : ChangedLineKey)
    → (contains_key keys j ≡ true → contains_key (extend_keys keys more) j ≡ true)
      × (contains_key more j ≡ true → contains_key (extend_keys keys more) j ≡ true)
      × (contains_key (extend_keys keys more) j ≡ true
          → (contains_key keys j ≡ true) ⊎ (contains_key more j ≡ true))
unfolding extend_keys
extend_keys-contains keys [] j = (λ h. h, λ h. cc, λ h. inl h)
extend_keys-contains keys (key ∷ more) j =
    let (has, stays, only) = insert_key-contains keys key j in
    let (old, added, back) = extend_keys-contains (insert_key keys key) more j in
    (
      λ h. old (stays h),
      λ h. elim (either (same_key j key) (contains_key more j) h) [
        | inl a ↦ old (
            subst (λ k. contains_key (insert_key keys key) k ≡ true) (sym (same_key-eq j key a))
              has)
        | inr a ↦ added a
      ],
      λ h. elim (back h) [
        | inl a ↦ elim (only a) [
          | inl b ↦ inl b
          | inr b ↦
              inr (
                ap (◌|| contains_key more j) (subst (λ k. same_key j k ≡ true) b (same_key_refl j)))
        ]
        | inr a ↦ inr (elim (Bool-cases (same_key j key)) [ inl b ↦ rw b refl | inr b ↦ rw b a ])
      ],
    )

-- Every one of a list of keys is in a set.
pub all_inside :
    (keys : List ChangedLineKey) (set : List ChangedLineKey)
    → ((j : ChangedLineKey) → contains_key keys j ≡ true → contains_key set j ≡ true)
    → all (contains_key set) keys ≡ true
all_inside [] set h = refl
all_inside (key ∷ keys) set h = rw (h key (ap (◌|| contains_key keys key) (same_key_refl key))) (
    all_inside keys set
      (λ j e. h j (elim (Bool-cases (same_key j key)) [ inl b ↦ rw b refl | inr b ↦ rw b e ])))

pub extend_keys-all :
    (keys more : List ChangedLineKey) → all (contains_key (extend_keys keys more)) more ≡ true
extend_keys-all keys more =
    all_inside more (extend_keys keys more) (λ j h. (extend_keys-contains keys more j).1 h)
