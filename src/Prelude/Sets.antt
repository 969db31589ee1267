-- ===== src/Prelude/Sets.antt =====
-- Sets of texts as lists: `contains`, and lists that repeat nothing.
use mathlib.Core.Option.{none, some}
use mathlib.Core.Logic.{inl, inr}
use Prim.Native.Nat.{ℕ}
use mathlib.Core.Path.{◌≡◌, refl, sym, ◌∙◌, subst}
use native.Mathlib.Omega.{arith}
use mathlib.Core.Bool.{Bool, true, false, ◌||◌, ◌&&◌, not}
use mathlib.Core.List.{List, [], ◌∷◌, ◌++◌}
use ramo.Prelude.Lists.{any, Each, find_first, Each-append, append-Each}
use ramo.Prelude.Tests.{◌==◌, Bool-cases}
use ramo.Prelude.Text.{Text}
use ramo.Prelude.Str.{text_eq, text_eq_refl, text_eq→eq}

abbrev pub contains : List Text → Text → Bool
contains set text = any (text_eq text) set

-- No text occurs twice.
abbrev pub Distinct : List Text → Type 0
Distinct [] = Unit
Distinct (x ∷ xs) = (contains xs x ≡ false) × Distinct xs

-- No text is in the set.
abbrev pub Apart : List Text → List Text → Type 0
Apart set xs = Each (λ x. contains set x ≡ false) xs

pub text_eq_sym : (s t : Text) → text_eq s t ≡ text_eq t s
unfolding text_eq
text_eq_sym [] [] = refl
text_eq_sym [] (d ∷ t) = refl
text_eq_sym (c ∷ s) [] = refl
text_eq_sym (c ∷ s) (d ∷ t) = rw (text_eq_sym s t) (swap c d (text_eq t s))
  where
    swap : (c d : ℕ) (b : Bool) → (c == d && b) ≡ (d == c && b)
    swap c d b = ground arith

pub none_of : (a b : Bool) → (a || b) ≡ false → (a ≡ false) × (b ≡ false)
none_of a b e = ground arith

pub Apart-cons :
    (set : List Text) (x : Text) (xs : List Text)
    → Apart (x ∷ set) xs
    → Apart set xs × (contains xs x ≡ false)
Apart-cons set x [] h = (tt, refl)
Apart-cons set x (y ∷ ys) (h, k) =
    let (p, q) = none_of (text_eq y x) (contains set y) h in
    let (a, b) = Apart-cons set x ys k in ((q, a), rw (text_eq_sym x y ∙ p) b)

pub cons-Apart :
    (set : List Text) (x : Text) (xs : List Text)
    → Apart set xs
    → contains xs x ≡ false
    → Apart (x ∷ set) xs
cons-Apart set x [] h e = tt
cons-Apart set x (y ∷ ys) (h, k) e =
    let (p, q) = none_of (text_eq x y) (contains ys x) e in
    (rw (text_eq_sym y x ∙ p) h, cons-Apart set x ys k q)

pub Apart-nil : (xs : List Text) → Apart [] xs
Apart-nil [] = tt
Apart-nil (x ∷ xs) = (refl, Apart-nil xs)

pub contains-append :
    (xs ys : List Text) (x : Text) → contains (xs ++ ys) x ≡ (contains xs x || contains ys x)
contains-append [] ys x = refl
contains-append (y ∷ xs) ys x = rw (contains-append xs ys x) (assoc (text_eq x y) _ _)
  where
    assoc : (a b c : Bool) → (a || (b || c)) ≡ ((a || b) || c)
    assoc true b c = refl
    assoc false b c = refl

pub Distinct-append :
    (xs ys : List Text) → Distinct xs → Distinct ys → Apart xs ys → Distinct (xs ++ ys)
Distinct-append [] ys h k a = k
Distinct-append (x ∷ xs) ys (f, h) k a =
    let (a', g) = Apart-cons xs x ys a in
    (contains-append xs ys x ∙ rw (f, g) refl, Distinct-append xs ys h k a')

pub append-Distinct :
    (xs ys : List Text) → Distinct (xs ++ ys) → Distinct xs × Distinct ys × Apart xs ys
append-Distinct [] ys h = (tt, h, Apart-nil ys)
append-Distinct (x ∷ xs) ys (f, h) =
    let (p, q, r) = append-Distinct xs ys h in
    let (a, b) = none_of (contains xs x) (contains ys x) (sym (contains-append xs ys x) ∙ f) in
    ((a, p), q, cons-Apart xs x ys r b)

-- Apart from a set that two others make up is apart from both.
pub Apart-both :
    (set a b : List Text) (xs : List Text)
    → ((x : Text) → contains set x ≡ (contains a x || contains b x))
    → Apart set xs
    → Apart a xs × Apart b xs
Apart-both set a b [] e h = (tt, tt)
Apart-both set a b (x ∷ xs) e (f, h) =
    let (p, q) = none_of (contains a x) (contains b x) (sym (e x) ∙ f) in
    let (u, v) = Apart-both set a b xs e h in ((p, u), (q, v))

pub both-Apart :
    (set a b : List Text) (xs : List Text)
    → ((x : Text) → contains set x ≡ (contains a x || contains b x))
    → Apart a xs
    → Apart b xs
    → Apart set xs
both-Apart set a b [] e h k = tt
both-Apart set a b (x ∷ xs) e (f, h) (g, k) = (e x ∙ rw (f, g) refl, both-Apart set a b xs e h k)

-- Every text is in the set.
abbrev pub Within : List Text → List Text → Type 0
Within set xs = Each (λ x. contains set x ≡ true) xs

pub Within-contains :
    (set xs : List Text) (x : Text) → Within set xs → contains xs x ≡ true → contains set x ≡ true
Within-contains set [] x h e = cc
Within-contains set (y ∷ xs) x (f, h) e = elim (Bool-cases (text_eq x y)) [
  | inl p ↦ subst (λ z. contains set z ≡ true) (sym (text_eq→eq x y p)) f
  | inr p ↦ Within-contains set xs x h (rw p at e)
]

pub Within-same :
    (a b : List Text) → Within a b → Within b a → (x : Text) → contains a x ≡ contains b x
Within-same a b h k x = elim (Bool-cases (contains a x)) [
  | inl p ↦ p ∙ sym (Within-contains b a x k p)
  | inr p ↦ elim (Bool-cases (contains b x)) [
    | inl q ↦ Within-contains a b x h q ∙ sym q
    | inr q ↦ p ∙ sym q
  ]
]

-- What holds of the texts that a list contains holds of each of them.
pub contains-Each {κ} :
    (P : Text → Type κ) (xs : List Text) → ((x : Text) → contains xs x ≡ true → P x) → Each P xs
contains-Each P [] h = tt
contains-Each P (y ∷ xs) h =
    (h y (rw (text_eq_refl y) refl), contains-Each P xs (λ x e. h x (rw e (or_true (text_eq x y)))))
  where
    or_true : (b : Bool) → (b || true) ≡ true
    or_true true = refl
    or_true false = refl

-- What is in the list is within the set.
pub contains-Within :
    (set xs : List Text)
    → ((x : Text) → contains xs x ≡ true → contains set x ≡ true)
    → Within set xs
contains-Within set = contains-Each (λ x. contains set x ≡ true)

-- `find` of what is not in a set.
pub missing-Within :
    (set xs : List Text) → find_first (λ x. not (contains set x)) xs ≡ none → Within set xs
missing-Within set [] e = tt
missing-Within set (x ∷ xs) e = elim (Bool-cases (contains set x)) [
  | inl p ↦ (p, missing-Within set xs (rw p at e))
  | inr p ↦ absurd (never (rw p at e))
]
  where
    never : {x : Text} → some x ≡ none → ⊥
    never e = cc

pub Within-missing :
    (set xs : List Text) → Within set xs → find_first (λ x. not (contains set x)) xs ≡ none
Within-missing set [] h = refl
Within-missing set (x ∷ xs) (p, h) = rw p (Within-missing set xs h)

pub strange-Within :
    (set xs : List Text) → any (λ x. not (contains set x)) xs ≡ false → Within set xs
strange-Within set [] e = tt
strange-Within set (x ∷ xs) e =
    let (p, q) = none_of (not (contains set x)) (any (λ y. not (contains set y)) xs) e in
    (is_true (contains set x) p, strange-Within set xs q)
  where
    is_true : (b : Bool) → not b ≡ false → b ≡ true
    is_true true e = refl
    is_true false e = cc

pub Within-strange :
    (set xs : List Text) → Within set xs → any (λ x. not (contains set x)) xs ≡ false
Within-strange set [] h = refl
Within-strange set (x ∷ xs) (p, h) = rw p (Within-strange set xs h)

pub Apart-append : (set xs ys : List Text) → Apart set xs → Apart set ys → Apart set (xs ++ ys)
Apart-append set = Each-append (λ x. contains set x ≡ false)

pub append-Apart : (set xs ys : List Text) → Apart set (xs ++ ys) → Apart set xs × Apart set ys
append-Apart set = append-Each (λ x. contains set x ≡ false)

pub Within-append : (set xs ys : List Text) → Within set xs → Within set ys → Within set (xs ++ ys)
Within-append set = Each-append (λ x. contains set x ≡ true)

pub append-Within : (set xs ys : List Text) → Within set (xs ++ ys) → Within set xs × Within set ys
append-Within set = append-Each (λ x. contains set x ≡ true)

pub Each-contains {κ} :
    (P : Text → Type κ) (xs : List Text) (x : Text) → Each P xs → contains xs x ≡ true → P x
Each-contains P [] x h e = absurd (never e)
  where
    never : false ≡ true → ⊥
    never e = cc
Each-contains P (y ∷ xs) x (p, h) e = elim (Bool-cases (text_eq x y)) [
  | inl f ↦ subst P (sym (text_eq→eq x y f)) p
  | inr f ↦ Each-contains P xs x h (rw f at e)
]
